-- ===== src/StackCursor.antt =====
-- `ArchiveStackCursor` of src/archive_stack_cursor.h and src/archive_stack_cursor.cc: the stack of
-- open archives, each read from a stream over entries of the one below it, the first from a root stream.
--
-- The pointers form one chain, so that the state is a value: what never changes in the chain of streams
-- is a `Chain`, and `State chain` is what changes, the archives below included. A payload stream that is
-- current reads from the current archive, and holds its own members only.
pub mod Moves
pub mod Sync
pub mod Operations
use archive_r.Base.{
  ℕ, zero, suc, ◌+◌, ◌-◌, ◌^◌, Bool, true, false, ◌&&◌, ◌||◌, not, Option, none, some, List, [],
  ◌∷◌, Text, codes, ℤ, pos, ◌==◌, leb, if◌then◌else◌, length,
}
use archive_r.Hierarchy.{
  PathHierarchy, append_single, hierarchies_equal, is_empty, pathhierarchy_prefix_until,
}
use archive_r.Fault.{
  Exception, logic_error, invalid_argument, Result, ok, throws, make_entry_fault_error,
}
use archive_r.VolumeStream.Parts.{Config, Stream, ReadEnd, done, thrown, make_stream}
use archive_r.SystemFileStream.{Stdio, SystemFile, system_file_stream}
use archive_r.DataStream.{DataStream, volume_stream}
use archive_r.ArchiveReader.Handle.{LibArchive, Archive}
use archive_r.StreamArchive.{
  ArchiveOption, no_options, Library, stream_archive, make_stream_archive,
}
use archive_r.PayloadStream.{payload_stream, make_payload}

-- What the cursor uses: libarchive with handles `H` and entries `E`; stdio with state `W`; and the
-- streams of the registered factory, objects `F` with state `C`. `none` is that no factory is
-- registered, or that it returns no stream. `world` is stdio's state when a stream is made.
pub record Context (H E W F C : Type 0) : Type 1 where
  pub library : Library H E
  pub stdio : Stdio W
  pub world : W
  pub factory : Option (PathHierarchy → Option (F × C))
  pub custom_hierarchy : F → PathHierarchy
  pub custom_stream : F → DataStream C
  -- The fuel of the loops over headers.
  pub fuel : ℕ

-- A root stream: the factory's, or a `SystemFileStream`.
pub data Root (F : Type 0) : Type 0 where
  custom : F → Root F
  system_file : Config → Root F

-- A chain of streams: a root stream, or a payload stream over an archive, opened with these options, that
-- reads from a chain.
pub data Chain (F : Type 0) : Type 0 where
  root : Root F → Chain F
  nested : Config → ArchiveOption → Chain F → Chain F

-- The member `device` of a stream, given and taken.
abbrev pub attach : {A B : Type 0} → Stream A → B → Stream B
attach s device = record {
  part_offsets = s.part_offsets;
  active_part_index = s.active_part_index;
  open_part_index = s.open_part_index;
  part_open = s.part_open;
  logical_offset = s.logical_offset;
  total_size = s.total_size;
  device = device;
}

module _ {H E W F C : Type 0} (x : Context H E W F C) where
  abbrev pub RootState : Root F → Type 0
  RootState (custom f) = C
  RootState (system_file c) = Stream (SystemFile W)

  abbrev pub State : Chain F → Type 0
  State (root r) = RootState r
  State (nested c options chain) = Stream (Archive (H × State chain) E)

  -- An archive that reads from the chain.
  abbrev pub Opened : Chain F → Type 0
  Opened chain = Archive (H × State chain) E

  unfoldable pub root_hierarchy : Root F → PathHierarchy
  root_hierarchy (custom f) = x.custom_hierarchy f
  root_hierarchy (system_file c) = c.logical_path

  -- The virtual functions of a root stream.
  unfoldable pub root_stream : (r : Root F) → DataStream (RootState r)
  root_stream (custom f) = x.custom_stream f
  root_stream (system_file c) = volume_stream (system_file_stream x.stdio c.logical_path) c

  -- The virtual functions of the last stream of a chain.
  unfoldable pub chain_stream : (chain : Chain F) → DataStream (State chain)
  chain_stream (root r) = root_stream r
  chain_stream (nested c options chain) =
      payload_stream (stream_archive x.library (chain_stream chain) options) x.fuel c

  unfoldable pub source_hierarchy : Chain F → PathHierarchy
  unfolding root_hierarchy
  source_hierarchy (root r) = root_hierarchy r
  source_hierarchy (nested c options chain) = c.logical_path

  -- The calls of libarchive on an archive that reads from the chain.
  abbrev pub calls_of : (options : ArchiveOption) (chain : Chain F) → LibArchive (H × State chain) E
  calls_of options chain = stream_archive x.library (chain_stream chain) options

  -- A root stream object.
  abbrev pub RootStream : Type 0
  RootStream = (r : Root F) × RootState r

  -- `_current_stream` while an archive is open: a payload stream over the current archive, which
  -- is its device, or a root stream.
  pub data Current : Type 0 where
    no_stream : Current
    payload : Config → Stream (Unit {0}) → Current
    at_root : RootStream → Current

  -- `_current_archive` and `_current_stream`.
  pub data Place : Type 0 where
    outside : Option RootStream → Place
    inside :
        (options : ArchiveOption) (chain : Chain F) → Archive (H × State chain) E → Current → Place

  pub record Cursor : Type 0 where
    pub options_snapshot : ArchiveOption
    pub place : Place

  -- `depth`: the archives of the chain.
  unfoldable pub chain_depth : Chain F → ℕ
  chain_depth (root r) = 1
  chain_depth (nested c options chain) = suc (chain_depth chain)

  unfoldable pub place_depth : Place → ℕ
  unfolding chain_depth
  place_depth (outside s) = 0
  place_depth (inside options chain a s) = chain_depth chain

  unfoldable pub place_has_stream : Place → Bool
  place_has_stream (outside none) = false
  place_has_stream (outside (some s)) = true
  place_has_stream (inside options chain a no_stream) = false
  place_has_stream (inside options chain a (payload c s)) = true
  place_has_stream (inside options chain a (at_root s)) = true

  -- The hierarchy of `_current_stream`, if there is one.
  unfoldable pub stream_hierarchy : Place → Option PathHierarchy
  unfolding root_hierarchy
  stream_hierarchy (outside none) = none
  stream_hierarchy (outside (some (r, s))) = some (root_hierarchy r)
  stream_hierarchy (inside options chain a no_stream) = none
  stream_hierarchy (inside options chain a (payload c s)) = some c.logical_path
  stream_hierarchy (inside options chain a (at_root (r, s))) = some (root_hierarchy r)

  unfoldable pub entry_hierarchy : Place → PathHierarchy
  unfolding root_hierarchy source_hierarchy append_single
  entry_hierarchy (outside none) = []
  entry_hierarchy (outside (some (r, s))) = root_hierarchy r
  entry_hierarchy (inside options chain a s) =
      if is_empty a.current_entryname
      then source_hierarchy chain
      else append_single (source_hierarchy chain) a.current_entryname
