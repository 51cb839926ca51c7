-- ===== src/VolumeStream/Seeking.antt =====
-- `seek` of src/multi_volume_stream_base.cc over files that exist.
use archive_r.VolumeStream.Targets.{OpenSomewhere, Seeks, seek_target-Seeks}
use mathlib.Core.Path.{subst}
use archive_r.Base.{
  ℕ, ◌<◌, ◌≤◌, ◌≡◌, refl, sym, ap, ◌∙◌, true, ◌||◌, not, negsuc, List, ℤ, pos, ltb_ℤ, ◌+ℤ◌, some,
  pos_part, neg_part, length, arith, if◌then◌else◌,
}
use archive_r.VolumeStream.Parts.{
  PartIo, Config, Stream, at, int64_limit, Whence, seek_set, seek_cur, seek_end, seek_other,
  add_int64,
}
use archive_r.VolumeStream.{
  seek_target, seek_sized, seek, ensure_size_metadata, compute_target_offset,
}
use archive_r.VolumeStream.Files.{Files, Seekable, contents, AllExist, Unread}
use archive_r.VolumeStream.Sizes.{IsSized, CanSize, ensure_size-IsSized}

module _ {B : Type 0} {io : PartIo B} (f : Files io) (seekable : Seekable f) (c : Config) where
  -- The offset `target` of the stream that an offset and an origin come to; it is -1 for another origin.
  abbrev pub Aims : ℤ → Whence → ℤ → Stream B → Type 0
  Aims offset seek_set target s = offset ≡ target
  Aims offset seek_cur target s = s.logical_offset +ℤ offset ≡ target
  Aims offset seek_end target s = pos (length (contents f c)) +ℤ offset ≡ target
  Aims offset seek_other target s = negsuc 0 ≡ target

  -- The offset is an `int64_t`.
  abbrev pub IsInt64 : ℤ → Type 0
  IsInt64 z = (pos_part z < int64_limit) × (neg_part z ≤ int64_limit)

  reached :
      (from : ℤ) (offset : ℤ) (target : ℤ)
      → IsInt64 target
      → from +ℤ offset ≡ target
      → add_int64 from offset ≡ some target
  unfolding add_int64
  reached from offset target (above, below) e = rw e (ground (arith, above, below))

  aimed :
      (offset : ℤ) (whence : Whence) (target : ℤ) (s s' : Stream B)
      → IsInt64 target
      → Aims offset whence target s
      → IsSized f seekable c s'
      → s'.logical_offset ≡ s.logical_offset
      → compute_target_offset io c offset whence s' ≡ some target
  unfolding compute_target_offset
  aimed offset seek_set target s s' fits e sized same = ap some e
  aimed offset seek_cur target s s' fits e sized same =
      ap (λ z. add_int64 z offset) same ∙ reached s.logical_offset offset target fits e
  aimed offset seek_end target s s' fits e sized same =
      ap (λ z. add_int64 z offset) sized.size_lem
      ∙ reached (pos (length (contents f c))) offset target fits e
  aimed offset seek_other target s s' fits e sized same = ap some e

  -- A seek first takes the sizes, and is then the seek to its target.
  record Sought (offset : ℤ) (whence : Whence) (target : ℤ) (s s' : Stream B) : Type 0 where
    sought_lem : seek io c offset whence s ≡ seek_target io c target s'
    is_sized : IsSized f seekable c s'
    sizes_only : s' ≡ record s { part_offsets = s'.part_offsets; total_size = s'.total_size }

  seek-Sought :
      (offset : ℤ) (whence : Whence) (target : ℤ) (s : Stream B)
      → c.supports_seek ≡ true
      → AllExist f c
      → IsInt64 target
      → Aims offset whence target s
      → length (contents f c) < int64_limit
      → CanSize f seekable c s
      → (s' : Stream B) × Sought offset whence target s s'
  unfolding seek seek_sized
  seek-Sought offset whence target s supported ex fits aims short can =
      let (s', e, sized, same) = ensure_size-IsSized f seekable c s ex short can in
      let found =
        aimed offset whence target s s' fits aims sized (ap (λ t. t.logical_offset) same) in
      (
        s',
        record {
          sought_lem =
              ap
                (λ b.
                  if not b
                  then (at (negsuc 0), s)
                  else seek_sized io c offset whence (ensure_size_metadata io c s))
                supported
              ∙ ap (seek_sized io c offset whence) e
              ∙ rw (found, seek_sized) refl;
          is_sized = sized;
          sizes_only = same;
        },
      )

  -- Over files that exist, with fewer than 2^63 bytes in all, and a stream that supports seeks, as
  -- constructed or after earlier calls: a seek whose offset and origin, the start, the current offset or
  -- the end, come to an offset `k`, at most the number of bytes, returns `k`, and what is unread is then
  -- all that follows the first `k` bytes of the volumes.
  pub seek_lem :
      (offset : ℤ) (whence : Whence) (k : ℕ) (s : Stream B)
      → c.supports_seek ≡ true
      → AllExist f c
      → Aims offset whence (pos k) s
      → k ≤ length (contents f c)
      → length (contents f c) < int64_limit
      → OpenSomewhere f seekable c s
      → CanSize f seekable c s
      → Seeks f seekable c k (seek io c offset whence s)
  seek_lem offset whence k s supported ex aims k_le short open_lem can =
      let (s', sought) =
        seek-Sought offset whence (pos k) s supported ex (omega arith, omega arith) aims short
          can in
      subst (Seeks f seekable c k) (sym sought.sought_lem) (
        seek_target-Seeks f seekable c k s' ex k_le
          (subst (OpenSomewhere f seekable c) (sym sought.sizes_only) open_lem) sought.is_sized)

  seek_target-outside :
      (target : ℤ) (s : Stream B)
      → (ltb_ℤ target (pos 0) || ltb_ℤ s.total_size target) ≡ true
      → seek_target io c target s ≡ (at (negsuc 0), s)
  unfolding seek_target
  seek_target-outside target s outside = rw (outside, seek_target) refl

  -- Over files that exist, with fewer than 2^63 bytes in all, and a stream that supports seeks, as
  -- constructed or after earlier calls: a seek that comes to an offset before the start or behind the
  -- end, as one with another origin does, returns -1, and neither the unread bytes nor the offset of the stream change.
  pub seek-outside :
      (offset : ℤ) (whence : Whence) (target : ℤ) (rest : List ℕ) (s : Stream B)
      → c.supports_seek ≡ true
      → AllExist f c
      → IsInt64 target
      → Aims offset whence target s
      → (ltb_ℤ target (pos 0) || ltb_ℤ (pos (length (contents f c))) target) ≡ true
      → length (contents f c) < int64_limit
      → CanSize f seekable c s
      → Unread f c s rest
      → ((seek io c offset whence s).0 ≡ at (negsuc 0))
        × Unread f c (seek io c offset whence s).1 rest
        × ((seek io c offset whence s).1.logical_offset ≡ s.logical_offset)
  seek-outside offset whence target rest s supported ex fits aims outside short can unread =
      let (s', sought) = seek-Sought offset whence target s supported ex fits aims short can in
      let refused : seek io c offset whence s ≡ (at (negsuc 0), s') =
        sought.sought_lem
        ∙ seek_target-outside target s'
            (ap (λ z. ltb_ℤ target (pos 0) || ltb_ℤ z target) sought.is_sized.size_lem ∙ outside) in
      subst
        (λ r. (r.0 ≡ at (negsuc 0)) × Unread f c r.1 rest × (r.1.logical_offset ≡ s.logical_offset))
        (sym refused)
        (
          refl,
          subst (λ t. Unread f c t rest) (sym sought.sizes_only) unread,
          ap (λ t. t.logical_offset) sought.sizes_only,
        )
