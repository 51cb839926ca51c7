-- ===== src/VolumeStream.antt =====
-- include/archive_r/multi_volume_stream_base.h and src/multi_volume_stream_base.cc: one stream over
-- the volumes of a hierarchy. The virtual functions of the base class are the record `PartIo`.
pub mod Targets
pub mod Parts
pub mod Total
pub mod Files
pub mod Rounds
pub mod Reading
pub mod Offsets
pub mod Sizes
pub mod Seeking
use archive_r.VolumeStream.Parts.{
  PartRead, bytes, failed, Config, Whence, add_int64, ReadEnd, done, code, thrown, out_of_fuel,
  finished, continue, SeekEnd, at, seek_thrown, SizeEnd, PartIo, Stream, Round, seek_set, seek_cur,
  seek_end, known, unknown, overflows, seek_other,
}
use archive_r.Base.{
  ℕ, zero, suc, ◌+◌, ◌-◌, ◌^◌, Bool, true, false, ◌&&◌, ◌||◌, not, Option, none, some, List, [],
  ◌∷◌, ◌++◌, ℤ, pos, negsuc, pos_part, neg_part, ◌-ℤ◌, ◌+ℤ◌, ltb_ℤ, ◌==ℤ◌, ltb, leb, ◌==◌,
  if◌then◌else◌, length, get_elem?, set, replicate, codes,
}
use archive_r.Hierarchy.{PathHierarchy}
use archive_r.HierarchyUtils.{pathhierarchy_volume_size, pathhierarchy_select_single_part}
use archive_r.Fault.{Exception, invalid_argument, Result, ok, throws}

module _ {B : Type 0} (io : PartIo B) (c : Config) where
  unfoldable pub single_part : ℕ → PathHierarchy
  single_part index = pathhierarchy_select_single_part c.logical_path index

  pub deactivate_active_part : Stream B → Stream B
  deactivate_active_part s =
      if s.part_open
      then record s { part_open = false; device = io.close_single_part s.device }
      else s

  pub opened : ℕ → Stream B → Result (Unit {0}) × B → Result (Unit {0}) × Stream B
  opened part_index s (ok _, d) =
      (ok tt, record s { open_part_index = part_index; part_open = true; device = d })
  opened part_index s (throws e, d) = (throws e, record s { device = d })

  pub ensure_part_active : ℕ → Stream B → Result (Unit {0}) × Stream B
  unfolding opened
  ensure_part_active part_index s =
      let s' = deactivate_active_part s in
      if s.part_open && s.open_part_index == part_index
      then (ok tt, s)
      else opened part_index s' (io.open_single_part (single_part part_index) s'.device)

  pub advance_to_next_part : Stream B → Bool × Stream B
  advance_to_next_part s = if leb c.total_parts s.active_part_index then (false, s) else (
    ltb (s.active_part_index + 1) c.total_parts,
    record s { active_part_index = s.active_part_index + 1 },
  )

  -- After a read of no bytes.
  pub exhausted : List ℕ → Bool × Stream B → Round B
  exhausted out (true, s) = continue out s
  exhausted out (false, s) = finished (done out) s

  -- What a round does with the result of `read_from_single_part`.
  pub absorb : List ℕ → Stream B → Result PartRead × B → Round B
  unfolding exhausted advance_to_next_part
  absorb out s (throws e, d) = finished (thrown e) (record s { device = d })
  absorb out s (ok (failed n), d) = finished (code n) (record s { device = d })
  absorb out s (ok (bytes []), d) = exhausted out (advance_to_next_part (record s { device = d }))
  absorb out s (ok (bytes (b ∷ bs)), d) =
      elim (add_int64 s.logical_offset (pos (length (b ∷ bs)))) [
        | none ↦ finished (thrown Exception.undefined) (record s { device = d })
        | some offset ↦ continue (out ++ b ∷ bs) (record s { logical_offset = offset; device = d })
      ]

  -- What a round does once the part is active.
  pub read_active : ℕ → List ℕ → Result (Unit {0}) × Stream B → Round B
  unfolding absorb
  read_active size out (throws e, s) = finished (thrown e) s
  read_active size out (ok _, s) =
      absorb out s (io.read_from_single_part (size - length out) s.device)

  pub read_round : ℕ → List ℕ → Stream B → Round B
  unfolding read_active ensure_part_active
  read_round size out s =
      if not (ltb (length out) size)
      then finished (done out) s
      else if leb c.total_parts s.active_part_index
      then finished (done out) s
      else read_active size out (ensure_part_active s.active_part_index s)

  pub read_loop : ℕ → ℕ → List ℕ → Stream B → ReadEnd × Stream B
  read_loop zero size out s = (out_of_fuel, s)
  read_loop (suc fuel) size out s = elim (read_round size out s) [
    | finished r s' ↦ (r, s')
    | continue out' s' ↦ read_loop fuel size out' s'
  ]

  unfoldable pub read : ℕ → Stream B → ReadEnd × Stream B
  unfolding read_loop
  read size s = if size == 0 then (done [], s) else read_loop (suc (size + c.total_parts)) size [] s

  unfoldable pub rewind : Stream B → Stream B
  unfolding deactivate_active_part
  rewind s = record (deactivate_active_part s) { active_part_index = 0; logical_offset = pos 0 }

  unfoldable pub at_end : Stream B → Bool
  at_end s = leb c.total_parts s.active_part_index

  unfoldable pub tell : Stream B → ℤ
  tell s = s.logical_offset

  -- The loop of `ensure_size_metadata`: the parts that are left, the next index, the sum so far.
  pub size_loop : ℕ → ℕ → ℤ → Stream B → SizeEnd × Stream B
  size_loop zero index prefix s = (known, record s { total_size = prefix })
  size_loop (suc parts) index prefix s =
      let size = io.size_of_single_part (single_part index) s.device in
      elim (ltb_ℤ size (pos 0)) [
        | true ↦ (unknown, record s { total_size = negsuc 0 })
        | false ↦ elim (add_int64 prefix size) [
          | none ↦ (overflows, s)
          | some prefix' ↦
              size_loop parts (index + 1) prefix'
                (record s { part_offsets = set s.part_offsets (index + 1) prefix' })
        ]
      ]

  pub ensure_size_metadata : Stream B → SizeEnd × Stream B
  ensure_size_metadata s =
      if ltb_ℤ s.total_size (pos 0)
      then size_loop c.total_parts 0 (pos 0)
          (record s { part_offsets = set s.part_offsets 0 (pos 0) })
      else (known, s)

  -- `none` is an overflow.
  pub compute_target_offset : ℤ → Whence → Stream B → Option ℤ
  compute_target_offset offset seek_set s = some offset
  compute_target_offset offset seek_cur s = add_int64 s.logical_offset offset
  compute_target_offset offset seek_end s = add_int64 s.total_size offset
  compute_target_offset offset seek_other s = some (negsuc 0)

  -- `std::upper_bound`: the index of the first offset above the target, or the end.
  pub upper_bound : List ℤ → ℤ → ℕ
  upper_bound [] target = 0
  upper_bound (offset ∷ offsets) target =
      let later = upper_bound offsets target in if ltb_ℤ target offset then 0 else suc later

  abbrev pub offset_or_zero : Option ℤ → ℤ
  offset_or_zero none = pos 0
  offset_or_zero (some offset) = offset

  -- The part and the offset in it.
  pub locate_part_for_offset : ℤ → Stream B → ℕ × ℤ
  locate_part_for_offset target s =
      let it = upper_bound s.part_offsets target in
      if it == 0
      then (0, target)
      else (it - 1, target -ℤ offset_or_zero (get_elem? s.part_offsets (it - 1)))

  pub seek_in_part : ℤ → ℕ → Stream B → ℤ × B → SeekEnd × Stream B
  seek_in_part target part_index s (position, d) =
      if ltb_ℤ position (pos 0) then (at (negsuc 0), record s { device = d }) else (
        at target,
        record s { logical_offset = target; active_part_index = part_index; device = d },
      )

  pub seek_opened : ℤ → ℕ → ℤ → Result (Unit {0}) × Stream B → SeekEnd × Stream B
  unfolding seek_in_part
  seek_opened target part_index within (throws e, s) = (seek_thrown e, s)
  seek_opened target part_index within (ok _, s) =
      seek_in_part target part_index s (io.seek_within_single_part within s.device)

  -- `seek` once the target is known.
  pub seek_target : ℤ → Stream B → SeekEnd × Stream B
  unfolding seek_opened
  seek_target target s =
      if ltb_ℤ target (pos 0) || ltb_ℤ s.total_size target
      then (at (negsuc 0), s)
      else if target ==ℤ s.total_size
      then (
        at target,
        record (deactivate_active_part s) {
          active_part_index = c.total_parts;
          logical_offset = target;
        },
      )
      else (let (part_index, within) = locate_part_for_offset target s in
          seek_opened target part_index within (ensure_part_active part_index s))

  pub seek_sized : ℤ → Whence → SizeEnd × Stream B → SeekEnd × Stream B
  seek_sized offset whence (unknown, s) = (at (negsuc 0), s)
  seek_sized offset whence (overflows, s) = (seek_thrown Exception.undefined, s)
  seek_sized offset whence (known, s) = elim (compute_target_offset offset whence s) [
    | none ↦ (seek_thrown Exception.undefined, s)
    | some target ↦ seek_target target s
  ]

  unfoldable pub seek : ℤ → Whence → Stream B → SeekEnd × Stream B
  unfolding seek_sized
  seek offset whence s =
      if not c.supports_seek
      then (at (negsuc 0), s)
      else seek_sized offset whence (ensure_size_metadata s)
