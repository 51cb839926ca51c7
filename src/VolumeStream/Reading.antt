-- ===== src/VolumeStream/Reading.antt =====
-- `read` and `rewind` of src/multi_volume_stream_base.cc over files: the volumes read as one.
use mathlib.Core.Path.{subst, ap₂}
use archive_r.Base.{
  ℕ, zero, suc, ◌+◌, ◌-◌, ◌<◌, ◌≤◌, ◌≡◌, ◌≢◌, refl, sym, ap, ◌∙◌, inl, inr, false, List, [], ◌++◌,
  pos, ltb, ◌==◌, length, length-append, take, drop, arith, Bool-cases, append-nil, append_assoc,
  take-append_le, drop-append_le, le→ltb, take-nil, drop-nil,
}
use archive_r.VolumeStream.Parts.{
  PartIo, Config, Stream, ReadEnd, done, out_of_fuel, Round, finished, continue, int64_limit,
}
use archive_r.VolumeStream.{
  deactivate_active_part, single_part, read_round, read_loop, read, rewind, tell,
}
use archive_r.VolumeStream.Files.{Files, contents_from, contents, AllExist, Unread}
use archive_r.VolumeStream.Rounds.{
  RoundReads, read_round-RoundReads, deactivate-Live, contents_from-suc, contents_from-zero,
}
use archive_r.VolumeStream.Total.{read-ne-out_of_fuel}

module _ {B : Type 0} {io : PartIo B} (f : Files io) (c : Config) where
  open f use {content, exists, Live, At}

  -- A read of `k` more bytes when `rest` is unread.
  pub record Reads (out : List ℕ) (p k : ℕ) (rest : List ℕ) (r : ReadEnd × Stream B) : Type 0 where
    pub result : r.0 ≡ done (out ++ take k rest)
    pub unread : Unread f c r.1 (drop k rest)
    pub offset : r.1.logical_offset ≡ pos (p + length (take k rest))

  Reads-shift :
      (out bs rest' : List ℕ) (p k : ℕ) (r : ReadEnd × Stream B)
      → length bs ≤ k
      → Reads (out ++ bs) (p + length bs) (k - length bs) rest' r
      → Reads out p k (bs ++ rest') r
  Reads-shift out bs rest' p k r h reads = record {
    result =
        reads.result
        ∙ ap done (
            append_assoc out bs (take (k - length bs) rest')
            ∙ ap (◌++◌ out) (sym (take-append_le k bs rest' h)));
    unread = rw (drop-append_le k bs rest' h) reads.unread;
    offset =
        reads.offset
        ∙ ap pos (
            omega (
              arith,
              ap length (take-append_le k bs rest' h),
              length-append bs (take (k - length bs) rest'),
            ));
  }

  Reads-nothing :
      (out rest : List ℕ) (p k : ℕ) (s : Stream B)
      → take k rest ≡ []
      → Unread f c s (drop k rest)
      → s.logical_offset ≡ pos p
      → Reads out p k rest (done out, s)
  Reads-nothing out rest p k s nothing unread offset = record {
    result = ap done (sym (ap (◌++◌ out) nothing ∙ append-nil out));
    unread = unread;
    offset = offset ∙ ap pos (omega (arith, ap length nothing));
  }

  full_round :
      (size : ℕ) (out : List ℕ) (s : Stream B)
      → length out ≡ size
      → read_round io c size out s ≡ finished (done out) s
  unfolding read_round
  full_round size out s e = rw (le→ltb (length out) size (omega arith)) refl

  read_loop-Reads :
      (fuel size : ℕ) (out : List ℕ) (p : ℕ) (rest : List ℕ) (s : Stream B)
      → AllExist f c
      → length out ≤ size
      → Unread f c s rest
      → s.logical_offset ≡ pos p
      → p + length rest < int64_limit
      → (read_loop io c fuel size out s).0 ≢ out_of_fuel
      → Reads out p (size - length out) rest (read_loop io c fuel size out s)
  unfolding read_loop
  read_loop-Reads zero size out p rest s ex h unread offset limit ends = absurd (ends refl)
  read_loop-Reads (suc fuel) size out p rest s ex h unread offset limit ends =
      elim (Bool-cases (ltb (length out) size)) [
        | inr full ↦
            let zero_left : size - length out ≡ 0 = ground arith in
            rw (full_round size out s (ground arith), read_loop)
              (rw zero_left (Reads-nothing out rest p 0 s refl unread offset))
        | inl room ↦
            go (read_round io c size out s) refl
              (read_round-RoundReads f c size out p rest s ex (ground arith) unread offset limit)
              (λ out' p' rest' s'. read_loop-Reads fuel size out' p' rest' s' ex)
      ]
    where
      go :
          (r : Round B)
          → read_round io c size out s ≡ r
          → RoundReads f c size out p rest (read_round io c size out s)
          → ((out' : List ℕ) (p' : ℕ) (rest' : List ℕ) (s' : Stream B)
              → length out' ≤ size
              → Unread f c s' rest'
              → s'.logical_offset ≡ pos p'
              → p' + length rest' < int64_limit
              → (read_loop io c fuel size out' s').0 ≢ out_of_fuel
              → Reads out' p' (size - length out') rest' (read_loop io c fuel size out' s'))
          → Reads out p (size - length out) rest (read_loop io c (suc fuel) size out s)
      go (finished r s') e round rec =
          let (result, empty, unread', offset') = rw e at round in
          rw (e, read_loop)
            (rw (result, empty)
              (Reads-nothing out [] p (size - length out) s' (take-nil (size - length out))
                (rw (drop-nil (size - length out)) unread') offset'))
      go (continue out' s') e round rec =
          let (bs, rest', grown, split, short, unread', offset') = rw e at round in
          let grown_size : length out' ≡ length out + length bs =
            ap length grown ∙ length-append out bs in
          let split_size : length rest ≡ length bs + length rest' =
            ap length split ∙ length-append bs rest' in
          let left : size - length out' ≡ size - length out - length bs = omega arith in
          let later : Reads (out ++ bs) (p + length bs) (size - length out - length bs) rest'
              (read_loop io c fuel size out' s') =
            rw (← left) (
              subst
                (λ o.
                  Reads o (p + length bs) (size - length out') rest'
                    (read_loop io c fuel size out' s'))
                grown
                (rec out' (p + length bs) rest' s' (omega arith) unread' offset' (omega arith)
                  (rw (e, read_loop) at ends))) in
          rw (e, read_loop)
            (rw split (Reads-shift out bs rest' p (size - length out) _ short later))

  -- `read` over files that exist: with the bytes `rest` unread at offset `p`, and all offsets below
  -- 2^63, it returns the first `size` bytes of `rest`, across volumes, and leaves the others unread,
  -- with the offset moved by the number of bytes returned.
  pub read_lem :
      (size p : ℕ) (rest : List ℕ) (s : Stream B)
      → AllExist f c
      → Unread f c s rest
      → s.logical_offset ≡ pos p
      → p + length rest < int64_limit
      → Reads [] p size rest (read io c size s)
  unfolding read
  read_lem size p rest s ex unread offset limit = elim (Bool-cases (size == 0)) [
    | inl e ↦
        let none_asked : size ≡ 0 = ground arith in
        rw (e, read) (rw none_asked (Reads-nothing [] rest p 0 s refl unread offset))
    | inr e ↦
        let ends : (read io c size s).0 ≢ out_of_fuel = read-ne-out_of_fuel io c size s in
        rw (e, read)
          (let whole : size - length {A = ℕ} [] ≡ size = omega arith in
            rw whole at (
              read_loop-Reads (suc (size + c.total_parts)) size [] p rest s ex (omega arith) unread
                offset limit (rw (e, read) at ends)))
  ]

  -- With no part open, a stream at its first part has everything unread.
  pub start-Unread :
      (s : Stream B)
      → s.part_open ≡ false
      → s.active_part_index ≡ 0
      → Live s.device
      → Unread f c s (contents f c)
  start-Unread s closed first live = elim (Bool-cases (ltb 0 c.total_parts)) [
    | inl some_parts ↦ inr (
      ground arith,
      (
        content (single_part io c s.active_part_index),
        inr (ground arith, refl, live),
        (let here : 0 ≡ s.active_part_index = sym first in
            contents_from-suc f c c.total_parts 0 (ground arith)
            ∙ ap₂ (λ i n. content (single_part io c i) ++ contents_from f c n (suc i)) here
                (omega arith)),
      ),
    )
    | inr no_parts ↦ inl (ground arith, contents_from-zero f c c.total_parts 0 (ground arith))
  ]

  deactivate-closed : (s : Stream B) → (deactivate_active_part io c s).part_open ≡ false
  unfolding deactivate_active_part
  deactivate-closed s = ground arith

  pub rewind-closed : (s : Stream B) → (rewind io c s).part_open ≡ false
  unfolding rewind
  rewind-closed s = deactivate-closed s

  pub rewind-Live : (s : Stream B) → Live s.device → Live (rewind io c s).device
  unfolding rewind
  rewind-Live s live = deactivate-Live f c s live

  -- Over files, `rewind` makes all bytes unread, from any state with a device that works, at offset 0.
  pub rewind_lem :
      (s : Stream B)
      → Live s.device
      → Unread f c (rewind io c s) (contents f c) × (tell io c (rewind io c s) ≡ pos 0)
  unfolding rewind tell
  rewind_lem s live =
      (start-Unread (rewind io c s) (deactivate-closed s) refl (deactivate-Live f c s live), refl)

  -- Over files that exist, with fewer than 2^63 bytes in all: after a rewind, from whatever state
  -- with a device that works, a read of `size` bytes returns the first `size` bytes of all the
  -- volumes in order, or all of them if there are fewer.
  pub read-rewind :
      (size : ℕ) (s : Stream B)
      → AllExist f c
      → length (contents f c) < int64_limit
      → Live s.device
      → (read io c size (rewind io c s)).0 ≡ done (take size (contents f c))
  unfolding tell
  read-rewind size s ex limit live =
      let (unread, offset) = rewind_lem s live in
      (read_lem size 0 (contents f c) (rewind io c s) ex unread offset (omega arith)).result
