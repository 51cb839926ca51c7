-- ===== src/PayloadStream.antt =====
-- `EntryPayloadStream` of src/archive_stack_cursor.cc: the stream over the entries of a parent archive
-- that are the volumes of a hierarchy. The device of the stream is the parent archive.
pub mod Placed
pub mod Reading
use archive_r.Base.{ℕ, true, false, Option, none, some, List, Text, codes, pos, negsuc}
use archive_r.Hierarchy.{PathHierarchy}
use archive_r.HierarchyUtils.{pathhierarchy_select_single_part}
use archive_r.Fault.{Exception, Result, ok, throws, make_entry_fault_error}
use archive_r.VolumeStream.Parts.{PartRead, bytes, PartIo, Config, Stream, make_stream}
use archive_r.VolumeStream.{rewind as rewind_volumes}
use archive_r.SystemFileStream.{path_of}
use archive_r.DataStream.{DataStream, volume_stream}
use archive_r.ArchiveReader.Handle.{LibArchive, Archive}
use archive_r.ArchiveReader.{Step, Loop, skip_to_entry, read_current}

module _ {W E : Type 0} (lib : LibArchive W E) (fuel : ℕ) where
  -- What a search that has to find the part comes to.
  unfoldable pub found_part :
      PathHierarchy → Loop lib → Archive W E → Result (Unit {0}) × Archive W E
  found_part part none a = (throws Exception.stuck, a)
  found_part part (some (throws e, a')) a = (throws e, a')
  found_part part (some (ok true, a')) a = (ok tt, a')
  found_part part (some (ok false, a')) a = (
    throws (
        make_entry_fault_error (codes "Parent archive does not contain requested stream part") part
          (pos 0)),
    a',
  )

  unfoldable pub skip_to_name :
      PathHierarchy → Option Text → Archive W E → Result (Unit {0}) × Archive W E
  unfolding found_part
  skip_to_name part none a = (throws Exception.undefined, a)
  skip_to_name part (some name) a = found_part part (skip_to_entry lib fuel name a) a

  -- `open_single_part`; the name is `single_part.back().single_value()`.
  unfoldable pub open_entry : PathHierarchy → Archive W E → Result (Unit {0}) × Archive W E
  unfolding skip_to_name
  open_entry part a = skip_to_name part (path_of part) a

  -- What `read_from_single_part` gives.
  unfoldable pub entry_bytes : Step lib (List ℕ) → Result PartRead × Archive W E
  entry_bytes (ok bs, a) = (ok (bytes bs), a)
  entry_bytes (throws e, a) = (throws e, a)

  -- The derived class; it cannot seek, and inherits what the base class does for that.
  unfoldable pub payload_io : PartIo (Archive W E)
  unfolding open_entry entry_bytes
  payload_io = record {
    open_single_part = open_entry;
    close_single_part = λ a. a;
    read_from_single_part = λ size a. entry_bytes (read_current lib size a);
    seek_within_single_part = λ offset a. (negsuc 0, a);
    size_of_single_part = λ part a. negsuc 0;
  }

  unfoldable pub rewound_payload :
      Stream (Archive W E)
      → Result (Unit {0}) × Archive W E
      → Result (Unit {0}) × Stream (Archive W E)
  rewound_payload s (result, a) = (result, record s { device = a })

  -- The overriding `rewind`: it also moves the parent to the entry of the first part.
  unfoldable pub rewind_payload :
      Config → Stream (Archive W E) → Result (Unit {0}) × Stream (Archive W E)
  unfolding rewound_payload
  rewind_payload c s =
      let s' = rewind_volumes payload_io c s in
      rewound_payload s' (open_entry (pathhierarchy_select_single_part c.logical_path 0) s'.device)

  unfoldable pub payload_stream : Config → DataStream (Stream (Archive W E))
  unfolding rewind_payload
  payload_stream c = record (volume_stream payload_io c) { rewind = rewind_payload c }

-- The constructor; the parent archive becomes the device when the stream is used.
unfoldable pub make_payload : PathHierarchy → Result (Config × Stream (Unit {0}))
make_payload logical_path = make_stream logical_path false tt
