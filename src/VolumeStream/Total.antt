-- ===== src/VolumeStream/Total.antt =====
-- `read` of src/multi_volume_stream_base.cc ends, whatever the derived class does.
use archive_r.Base.{
  ℕ, zero, suc, ◌+◌, ◌-◌, ◌<◌, ◌≡◌, ◌≢◌, refl, ◌∙◌, inl, inr, false, ◌&&◌, List, [], ◌∷◌, pos, ltb,
  leb, ◌==◌, length, length-append, arith, Bool-cases, Option-cases,
}
use archive_r.Fault.{Result, ok, throws}
use archive_r.VolumeStream.Parts.{
  PartRead, bytes, failed, PartIo, Config, Stream, out_of_fuel, Round, finished, continue,
  add_int64,
}
use archive_r.VolumeStream.{
  deactivate_active_part, opened, ensure_part_active, absorb, read_active, read_round, read_loop,
  read,
}

module _ {B : Type 0} (io : PartIo B) (c : Config) where
  -- The rounds that are left at most: a round gets a byte or goes to the next part.
  abbrev rounds_left : ℕ → List ℕ → Stream B → ℕ
  rounds_left size out s = (size - length out) + (c.total_parts - s.active_part_index)

  deactivate-active_part :
      (s : Stream B) → (deactivate_active_part io c s).active_part_index ≡ s.active_part_index
  unfolding deactivate_active_part
  deactivate-active_part s = ground arith

  opened-active_part :
      (i : ℕ) (s : Stream B) (r : Result (Unit {0}) × B)
      → (opened io c i s r).1.active_part_index ≡ s.active_part_index
  unfolding opened
  opened-active_part i s (ok _, d) = refl
  opened-active_part i s (throws e, d) = refl

  pub ensure_part_active-active_part :
      (i : ℕ) (s : Stream B)
      → (ensure_part_active io c i s).1.active_part_index ≡ s.active_part_index
  unfolding ensure_part_active
  ensure_part_active-active_part i s = elim (Bool-cases (s.part_open && s.open_part_index == i)) [
    | inl e ↦ rw (e, ensure_part_active) refl
    | inr e ↦
        rw (e, ensure_part_active)
          (opened-active_part i (deactivate_active_part io c s) _ ∙ deactivate-active_part s)
  ]

  not_past :
      (s : Stream B)
      → s.active_part_index < c.total_parts
      → leb c.total_parts s.active_part_index ≡ false
  not_past s k = ground arith

  -- A round that continues leaves fewer rounds.
  abbrev Falls : ℕ → List ℕ → Stream B → Round B → Type 0
  Falls size out s (finished r s') = r ≢ out_of_fuel
  Falls size out s (continue out' s') = rounds_left size out' s' < rounds_left size out s

  absorb-Falls :
      (size : ℕ) (out : List ℕ) (s : Stream B) (r : Result PartRead × B)
      → length out < size
      → s.active_part_index < c.total_parts
      → Falls size out s (absorb io c out s r)
  unfolding absorb
  absorb-Falls size out s (throws e, d) h k = λ p. cc
  absorb-Falls size out s (ok (failed n), d) h k = λ p. cc
  absorb-Falls size out s (ok (bytes []), d) h k =
      elim (Bool-cases (ltb (s.active_part_index + 1) c.total_parts)) [
        | inl e ↦ rw (not_past s k, e) (omega arith)
        | inr e ↦ rw (not_past s k, e) (λ p. cc)
      ]
  absorb-Falls size out s (ok (bytes (b ∷ bs)), d) h k =
      elim (Option-cases (add_int64 s.logical_offset (pos (length (b ∷ bs))))) [
        | inl e ↦ rw (e, absorb) (λ p. cc)
        | inr (o, e) ↦ rw (e, absorb) (omega (arith, length-append out (b ∷ bs)))
      ]

  read_active-Falls :
      (size : ℕ) (out : List ℕ) (s : Stream B) (r : Result (Unit {0}) × Stream B)
      → r.1.active_part_index ≡ s.active_part_index
      → length out < size
      → s.active_part_index < c.total_parts
      → Falls size out s (read_active io c size out r)
  unfolding read_active
  read_active-Falls size out s (throws e, s') same h k = λ p. cc
  read_active-Falls size out s (ok _, s') same h k =
      widen (absorb io c out s' (io.read_from_single_part (size - length out) s'.device))
        (absorb-Falls size out s' _ h (omega arith))
    where
      widen : (r : Round B) → Falls size out s' r → Falls size out s r
      widen (finished e t) f = f
      widen (continue out' t) f = omega arith

  read_round-Falls :
      (size : ℕ) (out : List ℕ) (s : Stream B) → Falls size out s (read_round io c size out s)
  unfolding read_round
  read_round-Falls size out s = elim (Bool-cases (ltb (length out) size)) [
    | inr e ↦ rw (e, read_round) (λ p. cc)
    | inl e ↦ elim (Bool-cases (leb c.total_parts s.active_part_index)) [
      | inl f ↦ rw (e, f, read_round) (λ p. cc)
      | inr f ↦
          rw (e, f, read_round)
            (read_active-Falls size out s _ (ensure_part_active-active_part s.active_part_index s)
              (ground arith) (ground arith))
    ]
  ]

  read_loop_total :
      (fuel size : ℕ) (out : List ℕ) (s : Stream B)
      → rounds_left size out s < fuel
      → (read_loop io c fuel size out s).0 ≢ out_of_fuel
  unfolding read_loop
  read_loop_total zero size out s h = absurd (omega arith)
  read_loop_total (suc fuel) size out s h =
      go (read_round io c size out s) refl (read_round-Falls size out s)
        (λ out' s'. read_loop_total fuel size out' s')
    where
      go :
          (r : Round B)
          → read_round io c size out s ≡ r
          → Falls size out s (read_round io c size out s)
          → ((out' : List ℕ) (s' : Stream B)
              → rounds_left size out' s' < fuel
              → (read_loop io c fuel size out' s').0 ≢ out_of_fuel)
          → (read_loop io c (suc fuel) size out s).0 ≢ out_of_fuel
      go (finished r s') e falls rec = rw (e, read_loop) (rw e at falls)
      go (continue out' s') e falls rec =
          let f : rounds_left size out' s' < rounds_left size out s = rw e at falls in
          rw (e, read_loop) (rec out' s' (omega arith))

  -- `read` ends for every derived class and in every state: a round that does not end the loop gets
  -- a byte or goes on to the next volume, so `size + total_parts + 1` rounds are enough.
  pub read-ne-out_of_fuel : (size : ℕ) (s : Stream B) → (read io c size s).0 ≢ out_of_fuel
  unfolding read
  read-ne-out_of_fuel size s = elim (Bool-cases (size == 0)) [
    | inl e ↦ rw (e, read) (λ p. cc)
    | inr e ↦ rw (e, read) (read_loop_total (suc (size + c.total_parts)) size [] s (omega arith))
  ]
