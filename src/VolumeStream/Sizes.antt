-- ===== src/VolumeStream/Sizes.antt =====
-- `ensure_size_metadata` of src/multi_volume_stream_base.cc over files that exist: it finds where
-- every volume starts.
use archive_r.Base.{
  ℕ, zero, suc, ◌+◌, ◌<◌, ◌≡◌, refl, ap, ◌∙◌, ◌⊎◌, inl, inr, true, false, some, List, [], ◌∷◌, ◌++◌,
  ℤ, pos, negsuc, ltb_ℤ, length, set, length-append, append_assoc, arith,
}
use archive_r.VolumeStream.Parts.{PartIo, Config, Stream, SizeEnd, int64_limit, add_int64, known}
use archive_r.VolumeStream.{single_part, size_loop, ensure_size_metadata}
use archive_r.VolumeStream.Files.{Files, Seekable, contents_from, contents, AllExist}
use archive_r.VolumeStream.Rounds.{add_int64_pos}
use archive_r.VolumeStream.Offsets.{offsets, part_length}

set-next :
    (pre junk : List ℤ) (x y v : ℤ) (i : ℕ)
    → i ≡ length pre + 1
    → set (pre ++ x ∷ y ∷ junk) i v ≡ (pre ++ x ∷ []) ++ v ∷ junk
set-next [] junk x y v zero e = absurd (omega arith)
set-next [] junk x y v (suc zero) e = refl
set-next [] junk x y v (suc (suc i)) e = absurd (omega arith)
set-next (p ∷ pre) junk x y v zero e = absurd (omega arith)
set-next (p ∷ pre) junk x y v (suc i) e = ap (◌∷◌ p) (set-next pre junk x y v i (omega arith))

module _ {B : Type 0} {io : PartIo B} (f : Files io) (seekable : Seekable f) (c : Config) where
  open f use {content, exists}

  -- The offsets are those of the volumes, and the size is that of all of them.
  pub record IsSized (s : Stream B) : Type 0 where
    pub offsets_lem : s.part_offsets ≡ offsets f c c.total_parts 0 0
    pub size_lem : s.total_size ≡ pos (length (contents f c))

  size_loop_lem :
      (parts index acc : ℕ) (pre junk : List ℤ) (s : Stream B)
      → ((i : ℕ) → i < index + parts → exists (single_part io c i))
      → s.part_offsets ≡ pre ++ pos acc ∷ junk
      → length pre ≡ index
      → length junk ≡ parts
      → acc + length (contents_from f c parts index) < int64_limit
      → size_loop io c parts index (pos acc) s ≡ (
        known,
        record s {
          part_offsets = pre ++ offsets f c parts index acc;
          total_size = pos (acc + length (contents_from f c parts index));
        },
      )
  unfolding size_loop offsets contents_from
  size_loop_lem zero index acc pre [] s ex shape pre_lem junk_lem short =
      ap (λ o. (known, record s { part_offsets = o; total_size = pos acc })) shape
      ∙ ap (λ n. (known, record s { part_offsets = pre ++ pos acc ∷ []; total_size = pos n }))
          (omega arith)
  size_loop_lem zero index acc pre (y ∷ junk) s ex shape pre_lem junk_lem short =
      absurd (omega arith)
  size_loop_lem (suc parts) index acc pre [] s ex shape pre_lem junk_lem short =
      absurd (omega arith)
  size_loop_lem (suc parts) index acc pre (y ∷ junk) s ex shape pre_lem junk_lem short =
      let size : io.size_of_single_part (single_part io c index) s.device
          ≡ pos (part_length f c index) =
        seekable.sizes (single_part io c index) s.device (ex index (omega arith)) in
      let whole : length (content (single_part io c index) ++ contents_from f c parts (suc index))
          ≡ part_length f c index + length (contents_from f c parts (suc index)) =
        length-append _ _ in
      let sized : ltb_ℤ (io.size_of_single_part (single_part io c index) s.device) (pos 0) ≡ false =
        ap (λ z. ltb_ℤ z (pos 0)) size ∙ ground arith in
      let sum : add_int64 (pos acc) (io.size_of_single_part (single_part io c index) s.device)
          ≡ some (pos (acc + part_length f c index)) =
        ap (add_int64 (pos acc)) size
        ∙ add_int64_pos acc (part_length f c index) (omega (arith, short, whole)) in
      rw (sized, size_loop)
        (rw (sum, size_loop)
          (rest (
            size_loop_lem parts (suc index) acc' (pre ++ pos acc ∷ []) junk placed
              (λ i h. ex i (omega arith))
              (ap (λ o. set o (suc index) (pos acc')) shape
                ∙ set-next pre junk (pos acc) y (pos acc') (suc index) (omega arith))
              (length-append pre (pos acc ∷ []) ∙ omega arith) (omega arith)
              (omega (arith, short, whole')))))
    where
      acc' : ℕ
      acc' = acc + part_length f c index

      placed : Stream B
      placed = record s { part_offsets = set s.part_offsets (suc index) (pos acc') }

      result : List ℤ → ℕ → SizeEnd × Stream B
      result o n = (known, record s { part_offsets = o; total_size = pos n })

      whole' :
          acc' + length (contents_from f c parts (suc index))
          ≡ acc + length (contents_from f c (suc parts) index)
      whole' =
          let e : length (content (single_part io c index) ++ contents_from f c parts (suc index))
              ≡ part_length f c index + length (contents_from f c parts (suc index)) =
            length-append _ _ in
          omega (arith, e)

      rest :
          size_loop io c parts (suc index) (pos acc') placed
            ≡ result
                ((pre ++ pos acc ∷ []) ++ offsets f c parts (suc index) acc')
                (acc' + length (contents_from f c parts (suc index)))
          → size_loop io c parts
              (index + 1)
              (pos acc')
              (record s { part_offsets = set s.part_offsets (index + 1) (pos acc') })
            ≡ result
                (pre ++ offsets f c (suc parts) index acc)
                (acc + length (contents_from f c (suc parts) index))
      rest ih =
          ap
            (λ i.
              size_loop io c parts i (pos acc')
                (record s { part_offsets = set s.part_offsets i (pos acc') }))
            (omega arith)
          ∙ ih
          ∙ ap (λ o. result o (acc' + length (contents_from f c parts (suc index))))
              (append_assoc pre (pos acc ∷ []) (offsets f c parts (suc index) acc'))
          ∙ ap (result (pre ++ offsets f c (suc parts) index acc)) whole'

  -- `ensure_size_metadata` has been called before, or the constructor's offsets are there.
  abbrev pub CanSize : Stream B → Type 0
  CanSize s =
      ((s.total_size ≡ negsuc 0)
        × ((x : ℤ) × (junk : List ℤ) × (s.part_offsets ≡ x ∷ junk) × (length junk ≡ c.total_parts)))
      ⊎ IsSized s

  pub ensure_size-IsSized :
      (s : Stream B)
      → AllExist f c
      → length (contents f c) < int64_limit
      → CanSize s
      → (s' : Stream B) × (ensure_size_metadata io c s ≡ (known, s'))
        × IsSized s'
        × (s' ≡ record s { part_offsets = s'.part_offsets; total_size = s'.total_size })
  unfolding ensure_size_metadata
  ensure_size-IsSized s ex short (inl (unsized, (x, junk, shape, junk_lem))) =
      let test : ltb_ℤ s.total_size (pos 0) ≡ true =
        ap (λ z. ltb_ℤ z (pos 0)) unsized ∙ ground arith in
      (
        record s {
          part_offsets = offsets f c c.total_parts 0 0;
          total_size = pos (length (contents f c));
        },
        rw (test, ensure_size_metadata)
            (size_loop_lem c.total_parts 0 0 [] junk
                (record s { part_offsets = set s.part_offsets 0 (pos 0) })
                (λ i h. ex i (omega arith)) (ap (λ o. set o 0 (pos 0)) shape) refl junk_lem
                (omega (arith, short))
              ∙ ap
                  (λ n. (
                    known,
                    record s { part_offsets = offsets f c c.total_parts 0 0; total_size = pos n },
                  ))
                  (omega arith)),
        record { offsets_lem = refl; size_lem = refl },
        refl,
      )
  ensure_size-IsSized s ex short (inr sized) =
      let test : ltb_ℤ s.total_size (pos 0) ≡ false =
        ap (λ z. ltb_ℤ z (pos 0)) sized.size_lem ∙ ground arith in
      (s, rw (test, ensure_size_metadata) refl, sized, refl)
