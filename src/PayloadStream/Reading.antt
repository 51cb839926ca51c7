-- ===== src/PayloadStream/Reading.antt =====
-- An `EntryPayloadStream` (src/archive_stack_cursor.cc) over entries of an archive that reads without an error:
-- the data of the entries, one after the other.
use archive_r.Base.{
  ℕ, ◌<◌, ◌≡◌, ◌≢◌, refl, none, some, List, [], pos, Text, length, take, All, arith,
}
use archive_r.Hierarchy.{PathHierarchy}
use archive_r.HierarchyUtils.{pathhierarchy_select_single_part}
use archive_r.Fault.{ok}
use archive_r.VolumeStream.Parts.{Config, Stream, done, int64_limit}
use archive_r.VolumeStream.{read, rewind, single_part}
use archive_r.VolumeStream.Files.{Files, contents, AllExist, Unread}
use archive_r.VolumeStream.Reading.{read_lem, start-Unread, rewind-Live, rewind-closed}
use archive_r.SystemFileStream.{path_of}
use archive_r.ArchiveReader.Handle.{LibArchive, Archive}
use archive_r.ArchiveReader.Steps.{Listing}
use archive_r.PayloadStream.{open_entry, payload_io, rewound_payload, rewind_payload}
use archive_r.PayloadStream.Placed.{
  Contents, Distinct, HasEntry, IsPlaced, EntryAt, EntryAt-IsPlaced, opens_entry, reads_entry,
}

module _ {W E : Type 0} {lib : LibArchive W E} {all : List Text} {l : Listing lib all}
    (k : Contents l) (fuel : ℕ) (enough : length all < fuel) (distinct : Distinct all)
    (named : All (λ t. t ≢ []) all) where
  -- The data of the entry of a part.
  abbrev pub part_data : PathHierarchy → List ℕ
  part_data part = elim (path_of part) [ none ↦ [] | some name ↦ k.data_of name ]

  abbrev pub HasPart : PathHierarchy → Type 0
  HasPart part =
      (name : Text) × (path_of part ≡ some name) × HasEntry k fuel enough distinct named name

  pub opens_part :
      (part : PathHierarchy) (a : Archive W E)
      → HasPart part
      → IsPlaced k fuel enough distinct named a
      → (a' : Archive W E) × (open_entry lib fuel part a ≡ (ok tt, a'))
        × EntryAt k fuel enough distinct named a' part (part_data part)
  opens_part part a has placed =
      let (a', opens, (m, at, here)) = opens_entry k fuel enough distinct named part a has placed in
      (a', opens, rw (at, part_data) here)

  unfoldable pub payload_files : Files (payload_io lib fuel)
  unfolding payload_io
  payload_files = record {
    content = part_data;
    exists = HasPart;
    Live = IsPlaced k fuel enough distinct named;
    At = EntryAt k fuel enough distinct named;
    at_live = EntryAt-IsPlaced k fuel enough distinct named;
    closes = λ a placed. placed;
    opens = opens_part;
    reads = reads_entry k fuel enough distinct named;
  }

  -- A rewind makes everything unread, with the entry of the first part current.
  rewind_payload-Unread :
      (c : Config) (s : Stream (Archive W E))
      → AllExist payload_files c
      → 0 < c.total_parts
      → IsPlaced k fuel enough distinct named s.device
      → (s' : Stream (Archive W E)) × (rewind_payload lib fuel c s ≡ (ok tt, s'))
        × Unread payload_files c s' (contents payload_files c)
        × (s'.logical_offset ≡ pos 0)
  unfolding rewind_payload rewound_payload single_part payload_files rewind
  rewind_payload-Unread c s exist some_parts placed =
      let s₀ = rewind (payload_io lib fuel) c s in
      let part = pathhierarchy_select_single_part c.logical_path 0 in
      let (a, opens, here) =
        opens_part part s₀.device (exist 0 some_parts) (rewind-Live payload_files c s placed) in
      (
        record s₀ { device = a },
        rw opens refl,
        start-Unread payload_files c (record s₀ { device = a }) (rewind-closed payload_files c s)
            refl (EntryAt-IsPlaced k fuel enough distinct named a part (part_data part) here),
        refl,
      )

  -- With enough fuel, over entries of an archive that reads without an error, whose names are not
  -- empty and distinct, with at least one part and fewer than 2^63 bytes in all: from a state in
  -- which the archive is open, the rewind of an `EntryPayloadStream` succeeds, and a read of `size`
  -- bytes then returns the first `size` bytes of the entries' data in the order of the parts, or
  -- all of them if there are fewer.
  pub payload_stream-read :
      (c : Config) (size : ℕ) (s : Stream (Archive W E))
      → AllExist payload_files c
      → 0 < c.total_parts
      → length (contents payload_files c) < int64_limit
      → IsPlaced k fuel enough distinct named s.device
      → (s' : Stream (Archive W E)) × (rewind_payload lib fuel c s ≡ (ok tt, s'))
        × ((read (payload_io lib fuel) c size s').0 ≡ done (take size (contents payload_files c)))
  payload_stream-read c size s exist some_parts limit placed =
      let (s', rewinds, unread, offset) = rewind_payload-Unread c s exist some_parts placed in
      (
        s',
        rewinds,
        (read_lem payload_files c size 0 (contents payload_files c) s' exist unread offset
            (omega arith)).result,
      )
