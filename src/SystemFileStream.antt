-- ===== src/SystemFileStream.antt =====
-- `SystemFileStream` of src/system_file_stream.cc on a POSIX system: the virtual functions of a
-- stream over volumes, on stdio. The calls of stdio are the record `Stdio`.
pub mod Reading
use archive_r.Base.{
  ℕ, Bool, true, false, Option, none, some, List, [], ◌∷◌, Text, codes, ℤ, pos, negsuc, leb, ltb_ℤ,
  last?, if◌then◌else◌,
}
use archive_r.Hierarchy.{PathEntry, single, multi_volume, PathHierarchy, is_empty}
use archive_r.Fault.{Exception, Result, ok, throws, make_entry_fault_error, format_path_errno_error}
use archive_r.VolumeStream.Parts.{PartRead, bytes, failed, PartIo}

-- stdio over the state `W` of the one open file and of the file system. `errno` is what the last call
-- left there.
pub record Stdio (W : Type 0) : Type 0 where
  pub fopen : Text → W → Bool × W
  pub fclose : W → W
  pub fread : ℕ → W → List ℕ × W
  pub feof : W → Bool
  pub ferror : W → Bool
  pub fseeko : ℤ → W → Bool × W
  -- `st_size`, if `stat` succeeds.
  pub stat_size : Text → W → Option ℤ
  pub errno : W → ℤ
  pub strerror : ℤ → Text

-- The members of the class; `has_handle` tells whether `_handle` is not null.
pub record SystemFile (W : Type 0) : Type 0 where
  pub has_handle : Bool
  pub active_path : Text
  pub world : W

-- `single_part.back().single_value()`; the other cases do not arise from `pathhierarchy_select_single_part`.
unfoldable pub path_of : PathHierarchy → Option Text
path_of h = elim (last? h) [
  | none ↦ none
  | some (single path) ↦ some path
  | some (multi_volume parts) ↦ none
]

module _ {W : Type 0} (stdio : Stdio W) (logical_path : PathHierarchy) where
  abbrev pub Device : Type 0
  Device = SystemFile W

  pub close_single_part : Device → Device
  close_single_part d = record {
    has_handle = false;
    active_path = [];
    world = if d.has_handle then stdio.fclose d.world else d.world;
  }

  -- What follows `fopen`.
  pub opened_file : PathHierarchy → Text → Device → Bool × W → Result (Unit {0}) × Device
  opened_file single_part path d (true, w) =
      (ok tt, record { has_handle = true; active_path = path; world = w })
  opened_file single_part path d (false, w) = (
    throws (
        make_entry_fault_error
          (format_path_errno_error stdio.strerror (codes "Failed to open root file") path
            (stdio.errno w))
          single_part (stdio.errno w)),
    record d { world = w },
  )

  pub open_path : PathHierarchy → Device → Option Text → Result (Unit {0}) × Device
  unfolding opened_file
  open_path single_part d none = (throws Exception.undefined, d)
  open_path single_part d (some path) = opened_file single_part path d (stdio.fopen path d.world)

  pub open_single_part : PathHierarchy → Device → Result (Unit {0}) × Device
  unfolding open_path
  open_single_part single_part d = open_path single_part d (path_of single_part)

  -- The part is closed before the fault is thrown.
  pub report_read_failure : ℤ → Device → Exception × Device
  unfolding close_single_part
  report_read_failure err d = (
    make_entry_fault_error
        (format_path_errno_error stdio.strerror (codes "Failed to read root file") d.active_path
          err)
        logical_path err,
    close_single_part d,
  )

  -- What follows `fread`.
  pub took_bytes : Device → List ℕ × W → Result PartRead × Device
  unfolding report_read_failure
  took_bytes d (b ∷ bs, w) = (ok (bytes (b ∷ bs)), record d { world = w })
  took_bytes d ([], w) =
      let d' = record d { world = w } in
      let failure = report_read_failure (stdio.errno w) d' in
      if stdio.feof w
      then (ok (bytes []), d')
      else if stdio.ferror w
      then (throws failure.0, failure.1)
      else (ok (failed 0), d')

  pub read_from_single_part : ℕ → Device → Result PartRead × Device
  unfolding took_bytes
  read_from_single_part size d = took_bytes d (stdio.fread size d.world)

  -- The base class seeks from the start of a part only, `SEEK_SET`.
  pub sought : ℤ → Device → Bool × W → ℤ × Device
  sought offset d (true, w) =
      (if ltb_ℤ offset (pos 0) then negsuc 0 else offset, record d { world = w })
  sought offset d (false, w) = (negsuc 0, record d { world = w })

  pub seek_within_single_part : ℤ → Device → ℤ × Device
  unfolding sought
  seek_within_single_part offset d = sought offset d (stdio.fseeko offset d.world)

  pub size_or_fail : Option ℤ → ℤ
  size_or_fail none = negsuc 0
  size_or_fail (some size) = size

  pub size_of_path : Device → Option Text → ℤ
  unfolding size_or_fail
  size_of_path d none = negsuc 0
  size_of_path d (some path) = size_or_fail (stdio.stat_size path d.world)

  pub size_of_single_part : PathHierarchy → Device → ℤ
  unfolding size_of_path
  size_of_single_part single_part d = size_of_path d (path_of single_part)

  -- The derived class.
  unfoldable pub system_file_stream : PartIo Device
  system_file_stream = record {
    open_single_part = open_single_part;
    close_single_part = close_single_part;
    read_from_single_part = read_from_single_part;
    seek_within_single_part = seek_within_single_part;
    size_of_single_part = size_of_single_part;
  }
