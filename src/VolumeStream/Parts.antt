-- ===== src/VolumeStream/Parts.antt =====
-- The stream, the virtual functions and the results of src/multi_volume_stream_base.cc, and the constructor.
use archive_r.Base.{
  ℕ, ◌+◌, ◌^◌, Bool, false, ◌&&◌, Option, none, some, List, ℤ, pos, negsuc, pos_part, neg_part,
  ◌+ℤ◌, ltb, leb, ◌==◌, if◌then◌else◌, replicate, codes,
}
use archive_r.Hierarchy.{PathHierarchy}
use archive_r.HierarchyUtils.{pathhierarchy_volume_size}
use archive_r.Fault.{Exception, invalid_argument, Result, ok, throws}

-- What `read_from_single_part` returns: the bytes put into the buffer, or the negative -(n + 1).
pub data PartRead : Type 0 where
  bytes : List ℕ → PartRead
  failed : ℕ → PartRead

-- The virtual functions over the state `B` of the derived class. Opening and reading may throw.
pub record PartIo (B : Type 0) : Type 0 where
  pub open_single_part : PathHierarchy → B → Result (Unit {0}) × B
  pub close_single_part : B → B
  pub read_from_single_part : ℕ → B → Result PartRead × B
  pub seek_within_single_part : ℤ → B → ℤ × B
  pub size_of_single_part : PathHierarchy → B → ℤ

-- The members that never change after construction.
pub record Config : Type 0 where
  pub logical_path : PathHierarchy
  pub supports_seek : Bool
  pub total_parts : ℕ

-- `MultiVolumeStreamBase::Impl`, with the state of the derived class.
pub record Stream (B : Type 0) : Type 0 where
  pub part_offsets : List ℤ
  pub active_part_index : ℕ
  pub open_part_index : ℕ
  pub part_open : Bool
  pub logical_offset : ℤ
  pub total_size : ℤ
  pub device : B

-- `SEEK_SET`, `SEEK_CUR`, `SEEK_END` and every other value.
pub data Whence : Type 0 where
  seek_set seek_cur seek_end seek_other : Whence

abbrev pub int64_limit : ℕ
int64_limit = 2 ^ 63

-- `int64_t` addition; `none` is the overflow, which is undefined.
unfoldable pub add_int64 : ℤ → ℤ → Option ℤ
add_int64 a b =
    if ltb (pos_part (a +ℤ b)) int64_limit && leb (neg_part (a +ℤ b)) int64_limit
    then some (a +ℤ b)
    else none

-- The constructor; `throws` is its `std::invalid_argument`.
unfoldable pub make_stream : {B : Type 0} → PathHierarchy → Bool → B → Result (Config × Stream B)
make_stream logical_path supports_seek device =
    if pathhierarchy_volume_size logical_path == 0
    then throws
        (invalid_argument (codes "MultiVolumeStreamBase requires at least one volume component"))
    else ok (
      record {
        logical_path = logical_path;
        supports_seek = supports_seek;
        total_parts = pathhierarchy_volume_size logical_path;
      },
      record {
        part_offsets = replicate (pathhierarchy_volume_size logical_path + 1) (pos 0);
        active_part_index = 0;
        open_part_index = 0;
        part_open = false;
        logical_offset = pos 0;
        total_size = negsuc 0;
        device = device;
      },
    )

-- How a read ends: with bytes, with a negative result, by an exception; the model's fuel never
-- runs out.
pub data ReadEnd : Type 0 where
  done : List ℕ → ReadEnd
  code : ℕ → ReadEnd
  thrown : Exception → ReadEnd
  out_of_fuel : ReadEnd

-- One round of the loop of `read`.
pub data Round (B : Type 0) : Type 0 where
  finished : ReadEnd → Stream B → Round B
  continue : List ℕ → Stream B → Round B

-- How a seek ends: with the offset that it returns, -1 included, or by an exception.
pub data SeekEnd : Type 0 where
  at : ℤ → SeekEnd
  seek_thrown : Exception → SeekEnd

-- What `ensure_size_metadata` returns; `overflows` is the overflow of the sum of the sizes.
pub data SizeEnd : Type 0 where
  known unknown overflows : SizeEnd
