-- ===== src/VolumeStream/Rounds.antt =====
-- One round of the loop of `read` (src/multi_volume_stream_base.cc) over files.
use mathlib.Core.Path.{subst, ap₂}
use archive_r.Base.{
  ℕ, zero, suc, ◌+◌, ◌-◌, ◌<◌, ◌≤◌, ◌≡◌, refl, sym, ap, ◌∙◌, inl, inr, true, false, ◌&&◌, List, [],
  ◌∷◌, ◌++◌, pos, ltb, leb, ◌==◌, length, length-append, arith, Bool-cases, some, append-nil,
  append_assoc, +ℤ_pos, ==_refl, lt→ltb,
}
use archive_r.Fault.{ok}
use archive_r.VolumeStream.Parts.{
  bytes, PartIo, Config, Stream, done, Round, finished, continue, add_int64, int64_limit,
}
use archive_r.VolumeStream.{
  deactivate_active_part, ensure_part_active, single_part, advance_to_next_part, exhausted, absorb,
  read_active, read_round,
}
use archive_r.VolumeStream.Files.{Files, contents_from, AllExist, Positioned, Unread}

pub add_int64_pos : (a b : ℕ) → a + b < int64_limit → add_int64 (pos a) (pos b) ≡ some (pos (a + b))
unfolding add_int64
add_int64_pos a b h = rw (+ℤ_pos a b) (ground arith)

module _ {B : Type 0} {io : PartIo B} (f : Files io) (c : Config) where
  open f use {content, exists, Live, At}

  pub deactivate_keeps :
      (s : Stream B)
      → ((deactivate_active_part io c s).active_part_index ≡ s.active_part_index)
        × ((deactivate_active_part io c s).logical_offset ≡ s.logical_offset)
  unfolding deactivate_active_part
  deactivate_keeps s = ground arith

  pub deactivate-Live : (s : Stream B) → Live s.device → Live (deactivate_active_part io c s).device
  unfolding deactivate_active_part
  deactivate-Live s live = elim (Bool-cases s.part_open) [
    | inl is_open ↦ simp is_open (f.closes s.device live)
    | inr closed ↦ simp closed live
  ]

  -- The part is open, and nothing else changed.
  pub record IsActive (index : ℕ) (s s' : Stream B) (here : List ℕ) : Type 0 where
    pub is_open : (s'.part_open && s'.open_part_index == index) ≡ true
    pub device_at : At s'.device (single_part io c index) here
    pub same_active : s'.active_part_index ≡ s.active_part_index
    pub same_offset : s'.logical_offset ≡ s.logical_offset

  pub ensure-IsActive :
      (index : ℕ) (s : Stream B) (here : List ℕ)
      → exists (single_part io c index)
      → Positioned f c index s here
      → (s' : Stream B) × (ensure_part_active io c index s ≡ (ok tt, s')) × IsActive index s s' here
  unfolding ensure_part_active
  ensure-IsActive index s here ex (inl (e, at)) = (
    s,
    (rw (e, ensure_part_active) refl),
    record { is_open = e; device_at = at; same_active = refl; same_offset = refl },
  )
  ensure-IsActive index s here ex (inr (e, whole, live)) =
      let (d', opens, at) =
        f.opens (single_part io c index) (deactivate_active_part io c s).device ex
          (deactivate-Live s live) in
      (
        record (deactivate_active_part io c s) {
          part_open = true;
          open_part_index = index;
          device = d';
        },
        rw (e, ensure_part_active) (rw opens refl),
        record {
          is_open = ==_refl index;
          device_at = subst (At d' (single_part io c index)) (sym whole) at;
          same_active = (deactivate_keeps s).0;
          same_offset = (deactivate_keeps s).1;
        },
      )

  -- After a round: the end of the stream, or the next bytes and a stream that has the rest.
  abbrev pub RoundReads : ℕ → List ℕ → ℕ → List ℕ → Round B → Type 0
  RoundReads size out p rest (finished r s') =
      (r ≡ done out) × (rest ≡ []) × Unread f c s' [] × (s'.logical_offset ≡ pos p)
  RoundReads size out p rest (continue out' s') =
      (bs rest' : List ℕ) × (out' ≡ out ++ bs)
      × (rest ≡ bs ++ rest')
      × (length bs ≤ size - length out)
      × Unread f c s' rest'
      × (s'.logical_offset ≡ pos (p + length bs))

  pub contents_from-suc :
      (parts index : ℕ)
      → 0 < parts
      → contents_from f c parts index
        ≡ content (single_part io c index) ++ contents_from f c (parts - 1) (suc index)
  unfolding contents_from
  contents_from-suc zero index h = absurd (omega arith)
  contents_from-suc (suc parts) index h =
      ap (λ n. content (single_part io c index) ++ contents_from f c n (suc index)) (omega arith)

  pub contents_from-zero : (parts index : ℕ) → parts ≡ 0 → contents_from f c parts index ≡ []
  unfolding contents_from
  contents_from-zero parts index e = ap (λ n. contents_from f c n index) e

  -- Moving on from a part that is read out.
  exhausted-RoundReads :
      (size : ℕ) (out : List ℕ) (p : ℕ) (s : Stream B)
      → s.active_part_index < c.total_parts
      → (s.part_open && s.open_part_index == s.active_part_index) ≡ true
      → Live s.device
      → s.logical_offset ≡ pos p
      → let rest =
          contents_from f c (c.total_parts - suc s.active_part_index) (suc s.active_part_index) in
        RoundReads size out p rest (exhausted io c out (advance_to_next_part io c s))
  unfolding exhausted advance_to_next_part
  exhausted-RoundReads size out p s k is_open live offset =
      elim (Bool-cases (ltb (s.active_part_index + 1) c.total_parts)) [
        | inl e ↦
            rw (past, e)
              (
                [],
                _,
                sym (append-nil out),
                refl,
                omega arith,
                inr (
                  ground arith,
                  (
                    content (single_part io c (s.active_part_index + 1)),
                    inr (ground arith, refl, live),
                    contents_from-suc (c.total_parts - suc s.active_part_index)
                          (suc s.active_part_index) (ground arith)
                        ∙ ap₂ (λ i n. content (single_part io c i) ++ contents_from f c n (suc i))
                            (omega arith) (omega arith),
                  ),
                ),
                offset ∙ ap pos (omega arith),
              )
        | inr e ↦
            rw (past, e)
              (
                refl,
                contents_from-zero _ (suc s.active_part_index) (ground arith),
                inl (ground arith, refl),
                offset,
              )
      ]
    where
      past : leb c.total_parts s.active_part_index ≡ false
      past = ground arith

  absorb-RoundReads :
      (size : ℕ) (out : List ℕ) (p : ℕ) (here rest : List ℕ) (s : Stream B)
      → length out < size
      → s.active_part_index < c.total_parts
      → (s.part_open && s.open_part_index == s.active_part_index) ≡ true
      → At s.device (single_part io c s.active_part_index) here
      → s.logical_offset ≡ pos p
      → rest
        ≡ here
          ++ contents_from f c (c.total_parts - suc s.active_part_index) (suc s.active_part_index)
      → p + length rest < int64_limit
      → RoundReads size out p rest
          (absorb io c out s (io.read_from_single_part (size - length out) s.device))
  unfolding absorb
  absorb-RoundReads size out p here rest s room k is_open at offset shape limit =
      go (f.reads (size - length out) s.device _ here (omega arith) at)
    where
      tail : List ℕ
      tail = contents_from f c (c.total_parts - suc s.active_part_index) (suc s.active_part_index)

      go :
          ((bs rest' : List ℕ) × (d' : B) × (io.read_from_single_part (size - length out) s.device
              ≡ (ok (bytes bs), d'))
            × At d' (single_part io c s.active_part_index) rest'
            × (here ≡ bs ++ rest')
            × (length bs ≤ size - length out)
            × (bs ≡ [] → rest' ≡ []))
          → RoundReads size out p rest
              (absorb io c out s (io.read_from_single_part (size - length out) s.device))
      go ([], rest', d', e, at', split, short, end) =
          let nothing : here ≡ [] = split ∙ end refl in
          rw e (
            rw (shape ∙ ap (λ h. h ++ tail) nothing) (
              exhausted-RoundReads size out p (record s { device = d' }) k is_open
                (f.at_live d' _ rest' at') offset))
      go (b ∷ bs, rest', d', e, at', split, short, end) =
          let whole : rest ≡ (b ∷ bs) ++ (rest' ++ tail) =
            shape ∙ ap (λ h. h ++ tail) split ∙ append_assoc (b ∷ bs) rest' tail in
          let size_eq : length rest ≡ length (b ∷ bs) + length (rest' ++ tail) =
            ap length whole ∙ length-append (b ∷ bs) (rest' ++ tail) in
          let sum : add_int64 s.logical_offset (pos (length (b ∷ bs)))
              ≡ some (pos (p + length (b ∷ bs))) =
            ap (λ o. add_int64 o (pos (length (b ∷ bs)))) offset
            ∙ add_int64_pos p (length (b ∷ bs)) (omega arith) in
          rw e (
            rw (sum, absorb)
              (
                b ∷ bs,
                rest' ++ tail,
                refl,
                whole,
                short,
                inr (k, (rest', inl (is_open, at'), refl)),
                refl,
              ))

  read_active-RoundReads :
      (size : ℕ) (out : List ℕ) (p : ℕ) (here rest : List ℕ) (s s' : Stream B)
      → length out < size
      → s.active_part_index < c.total_parts
      → IsActive s.active_part_index s s' here
      → s.logical_offset ≡ pos p
      → rest
        ≡ here
          ++ contents_from f c (c.total_parts - suc s.active_part_index) (suc s.active_part_index)
      → p + length rest < int64_limit
      → RoundReads size out p rest (read_active io c size out (ok tt, s'))
  unfolding read_active
  read_active-RoundReads size out p here rest s s' room k active offset shape limit =
      let same = active.same_active in
      absorb-RoundReads size out p here rest s' room (omega arith) (rw same active.is_open)
        (rw same active.device_at) (active.same_offset ∙ offset) (rw same shape) limit

  pub read_round-RoundReads :
      (size : ℕ) (out : List ℕ) (p : ℕ) (rest : List ℕ) (s : Stream B)
      → AllExist f c
      → length out < size
      → Unread f c s rest
      → s.logical_offset ≡ pos p
      → p + length rest < int64_limit
      → RoundReads size out p rest (read_round io c size out s)
  unfolding read_round
  read_round-RoundReads size out p rest s ex room (inl (past, empty)) offset limit =
      let test : leb c.total_parts s.active_part_index ≡ true = ground arith in
      rw (lt→ltb (length out) size room, test) (refl, empty, inl (past, refl), offset)
  read_round-RoundReads size out p rest s ex room (inr (k, (here, position, shape))) offset limit =
      let test : leb c.total_parts s.active_part_index ≡ false = ground arith in
      let (s', e, active) =
        ensure-IsActive s.active_part_index s here (ex s.active_part_index k) position in
      rw (lt→ltb (length out) size room, test)
        (rw e (read_active-RoundReads size out p here rest s s' room k active offset shape limit))
