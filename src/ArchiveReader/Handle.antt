-- ===== src/ArchiveReader/Handle.antt =====
-- The members of Archive of src/archive_type.h, and the calls of libarchive that src/archive_type.cc makes for them.
use archive_r.Base.{ℕ, Bool, Option, Text, ℤ}
use archive_r.Fault.{Result}
use archive_r.VolumeStream.Parts.{PartRead}

-- What `archive_read_next_header` gives: an entry (ARCHIVE_OK and ARCHIVE_WARN), ARCHIVE_EOF, or one
-- of ARCHIVE_FAILED, ARCHIVE_FATAL and ARCHIVE_RETRY.
pub data HeaderRead (E : Type 0) : Type 0 where
  header : E → HeaderRead E
  end_of_archive : HeaderRead E
  broken : HeaderRead E

-- The calls of libarchive, and the virtual `open_archive` and `rewind`, over the state `W` of the open handle and
-- of all that it reads from. `E` is the type of libarchive's entries.
pub record LibArchive (W E : Type 0) : Type 0 where
  pub open_handle : W → Result (Unit {0}) × W
  -- What a derived class that overrides `rewind` does before it calls `Archive::rewind`.
  pub rewind_source : W → Result (Unit {0}) × W
  pub close_and_free : W → W
  pub read_next_header : W → HeaderRead E × W
  -- Whether the result is ARCHIVE_OK.
  pub read_data_skip : W → Bool × W
  pub read_data : ℕ → W → PartRead × W
  pub error_string : W → Option Text
  pub errno : W → ℤ
  pub pathname : E → Option Text
  pub size : E → ℕ
  pub filetype : E → ℕ

-- The members of `Archive`; `is_open` tells whether `_ar` is not null.
pub record Archive (W E : Type 0) : Type 0 where
  pub is_open : Bool
  pub current_entry : Option E
  pub current_entryname : Text
  pub at_eof : Bool
  pub content_ready : Bool
  pub world : W
