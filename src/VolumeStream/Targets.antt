-- ===== src/VolumeStream/Targets.antt =====
-- The end of a seek of src/multi_volume_stream_base.cc, to a target within the files.
use mathlib.Core.Path.{subst}
use archive_r.Base.{
  ℕ, suc, ◌+◌, ◌-◌, ◌≤◌, ◌≡◌, refl, ap, ◌∙◌, ◌⊎◌, inl, inr, true, false, ◌&&◌, ◌||◌, List, ◌++◌, ℤ,
  pos, ltb_ℤ, ◌==ℤ◌, ◌==◌, ◌-ℤ◌, -ℤ_pos, length, drop, get_elem?, drop_beyond, arith, Bool-cases,
  if◌then◌else◌,
}
use archive_r.VolumeStream.Parts.{PartIo, Config, Stream, SeekEnd, at}
use archive_r.VolumeStream.{
  single_part, ensure_part_active, locate_part_for_offset, offset_or_zero, upper_bound,
  seek_in_part, seek_opened, seek_target,
}
use archive_r.VolumeStream.Files.{
  Files, Seekable, contents_from, contents, AllExist, Positioned, Unread,
}
use archive_r.VolumeStream.Rounds.{ensure-IsActive}
use archive_r.VolumeStream.Offsets.{offsets, part_length, Located, locate_lem}
use archive_r.VolumeStream.Sizes.{IsSized}

module _ {B : Type 0} {io : PartIo B} (f : Files io) (seekable : Seekable f) (c : Config) where
  open f use {content, exists, Live, At}

  -- No part is open and the device works, or the open part is a file at some position.
  abbrev pub OpenSomewhere : Stream B → Type 0
  OpenSomewhere s =
      ((s.part_open ≡ false) × Live s.device)
      ⊎ ((here : List ℕ) × At s.device (single_part io c s.open_part_index) here)

  -- Whichever part is asked for, it is open at some position or not open.
  positioned :
      (s : Stream B) (index : ℕ) → OpenSomewhere s → (here : List ℕ) × Positioned f c index s here
  positioned s index (inl (closed, live)) =
      (content (single_part io c index), inr (ground (arith, closed), refl, live))
  positioned s index (inr (here, there)) =
      elim (Bool-cases (s.part_open && s.open_part_index == index)) [
        | inl e ↦
            let same : s.open_part_index ≡ index = ground (arith, e) in
            (here, inl (e, subst (λ i. At s.device (single_part io c i) here) same there))
        | inr e ↦ (
          content (single_part io c index),
          inr (e, refl, f.at_live s.device (single_part io c s.open_part_index) here there),
        )
      ]

  -- Where a seek ends: at offset `k`, with what follows it unread.
  abbrev pub Seeks : ℕ → SeekEnd × Stream B → Type 0
  Seeks k r =
      (r.0 ≡ at (pos k)) × Unread f c r.1 (drop k (contents f c)) × (r.1.logical_offset ≡ pos k)

  located :
      (k : ℕ) (s : Stream B)
      → IsSized f seekable c s
      → (l : Located f c c.total_parts 0 0 k)
      → locate_part_for_offset io c (pos k) s ≡ (l.j, pos (k - l.start))
  unfolding locate_part_for_offset
  located k s sized l =
      pick (upper_bound io c s.part_offsets (pos k)) s.part_offsets
        (ap (λ o. upper_bound io c o (pos k)) sized.offsets_lem ∙ l.bound_lem) sized.offsets_lem
    where
      chosen : ℕ → List ℤ → ℕ × ℤ
      chosen n o =
          if n == 0 then (0, pos k) else (n - 1, pos k -ℤ offset_or_zero io c (get_elem? o (n - 1)))

      pick :
          (n : ℕ) (o : List ℤ)
          → n ≡ suc l.j
          → o ≡ offsets f c c.total_parts 0 0
          → chosen n o ≡ (l.j, pos (k - l.start))
      pick n o e shape =
          let test : (n == 0) ≡ false = ground (arith, e) in
          rw test (
            ap (λ i. (i, pos k -ℤ offset_or_zero io c (get_elem? o i))) (omega (arith, e))
            ∙ ap (λ z. (l.j, pos k -ℤ offset_or_zero io c z))
                (ap (λ o. get_elem? o l.j) shape ∙ l.start_lem)
            ∙ ap (λ z. (l.j, z)) (-ℤ_pos k l.start l.above))

  seek_inside :
      (k : ℕ) (s : Stream B)
      → AllExist f c
      → OpenSomewhere s
      → (l : Located f c c.total_parts 0 0 k)
      → Seeks k (seek_opened io c (pos k) l.j (pos (k - l.start)) (ensure_part_active io c l.j s))
  unfolding seek_opened seek_in_part
  seek_inside k s ex open_lem l =
      let (here, placed) = positioned s l.j open_lem in
      let (s', e, active) = ensure-IsActive f c l.j s here (ex l.j l.inside) placed in
      let within : k - l.start ≤ part_length f c l.j =
        subst (λ i. k - l.start ≤ part_length f c i) (omega arith) l.within in
      let (d', sought, at') =
        seekable.seeks (k - l.start) s'.device (single_part io c l.j) here within
          active.device_at in
      let valid : ltb_ℤ (pos (k - l.start)) (pos 0) ≡ false = ground arith in
      let first : 0 + l.j ≡ l.j = omega arith in
      rw e (
        rw sought (
          rw valid (
            refl,
            inr (
              l.inside,
              (
                drop (k - l.start) (content (single_part io c l.j)),
                inl (active.is_open, at'),
                ap (λ n. drop n (contents f c)) (omega arith)
                    ∙ l.rest_lem
                    ∙ ap
                        (λ i.
                          drop (k - l.start) (content (single_part io c i))
                          ++ contents_from f c (c.total_parts - suc l.j) (suc i))
                        first,
              ),
            ),
            refl,
          )))

  pub seek_target-Seeks :
      (k : ℕ) (s : Stream B)
      → AllExist f c
      → k ≤ length (contents f c)
      → OpenSomewhere s
      → IsSized f seekable c s
      → Seeks k (seek_target io c (pos k) s)
  unfolding seek_target
  seek_target-Seeks k s ex k_le open_lem sized =
      let in_range : (ltb_ℤ (pos k) (pos 0) || ltb_ℤ s.total_size (pos k)) ≡ false =
        ap (λ z. ltb_ℤ (pos k) (pos 0) || ltb_ℤ z (pos k)) sized.size_lem ∙ ground (arith, k_le) in
      elim (Bool-cases (k == length (contents f c))) [
        | inl last ↦
            let test : (pos k ==ℤ s.total_size) ≡ true =
              ap (λ z. pos k ==ℤ z) sized.size_lem ∙ ground (arith, last) in
            rw (in_range, seek_target)
              (rw (test, seek_target)
                (
                  refl,
                  inl (omega arith, drop_beyond (contents f c) k (ground (arith, last))),
                  refl,
                ))
        | inr other ↦
            let test : (pos k ==ℤ s.total_size) ≡ false =
              ap (λ z. pos k ==ℤ z) sized.size_lem ∙ ground (arith, other) in
            let l =
              locate_lem f c c.total_parts 0 0 k (omega arith) (ground (arith, k_le, other)) in
            rw (in_range, seek_target)
              (rw (test, seek_target) (rw (located k s sized l) (seek_inside k s ex open_lem l)))
      ]
