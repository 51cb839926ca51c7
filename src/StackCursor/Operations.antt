-- ===== src/StackCursor/Operations.antt =====
-- `ArchiveStackCursor` of src/archive_stack_cursor.cc as the cursor of an orchestrator, and the laws
-- that an orchestrator needs of it.
pub mod Finite
pub mod Enough
pub mod Laws
use archive_r.Base.{
  ℕ, zero, suc, ◌-◌, ◌<◌, ◌≤◌, ◌≡◌, ◌≢◌, refl, ap, sym, ◌∙◌, Bool, true, false, Bool-cases, not,
  inl, inr, Option, none, some, List, [], Text, ◌==◌, length, if◌then◌else◌, arith,
}
use archive_r.Hierarchy.{PathHierarchy, is_empty}
use archive_r.HierarchyUtils.{pathhierarchy_volume_size}
use archive_r.Fault.{
  EntryFault, Exception, entry_fault, invalid_argument, logic_error, Result, ok, throws,
}
use archive_r.VolumeStream.Parts.{Config, Stream, make_stream}
use archive_r.SystemFileStream.{SystemFile}
use archive_r.ArchiveReader.Handle.{HeaderRead, header, LibArchive, Archive}
use archive_r.ArchiveReader.{Step, Loop, skip_to_next_header, skip_to_eof}
use archive_r.ArchiveReader.Finite.{FiniteHeaders, left_in, LeavesFewer, next-fewer}
use archive_r.DataStream.{DataStream}
use archive_r.StreamArchive.{ArchiveOption, Client, client, Library, stream_archive}
use archive_r.PayloadStream.{make_payload}
use archive_r.StackCursor.{
  Context, Root, Chain, root, nested, attach, Opened, chain_stream, calls_of, RootStream, Current,
  no_stream, payload, at_root, Place, outside, inside, Cursor, chain_depth, place_depth,
  entry_hierarchy,
}
use archive_r.StackCursor.Moves.{
  Move, named_round, skip_to_named, create_current, placed_root, placed_payload, make_root,
  found_next, next_entry, next_from, ascend_from, back_to,
}
use archive_r.StackCursor.Sync.{
  new_cursor, configure, descend, ascend, next, synchronize_to_hierarchy, read, depth,
  current_entry_hierarchy,
}
use archive_r.Orchestrator.{CursorOps}

module _ {H E W F C : Type 0} (x : Context H E W F C) where
  unfoldable pub archive_entryname : Place x → Option Text
  archive_entryname (outside s) = none
  archive_entryname (inside options chain a s) = some a.current_entryname

  pub pushed :
      (options : ArchiveOption) (chain : Chain F)
      → Opened x chain
      → Current x
      → Loop (calls_of x options chain)
      → Move x Bool
  pushed options chain a s none = (throws Exception.stuck, inside options chain a s)
  pushed options chain a s (some (result, a')) = (result, inside options chain a' s)

  -- `current_archive()->skip_to_eof()`.
  pub push_archive : Place x → Move x Bool
  unfolding pushed
  push_archive (outside s) = (ok true, outside s)
  push_archive (inside options chain a s) =
      pushed options chain a s (skip_to_eof (calls_of x options chain) x.fuel a)

  unfoldable pub stack_cursor : CursorOps (Cursor x)
  unfolding descend ascend next synchronize_to_hierarchy read depth push_archive
  stack_cursor = record {
    configured = λ options. configure x options (new_cursor x);
    cursor_depth = depth x;
    descend = descend x;
    ascend = ascend x;
    next = next x;
    synchronize = synchronize_to_hierarchy x;
    read = read x;
    entry_hierarchy = current_entry_hierarchy x;
    entryname = λ cursor. archive_entryname cursor.place;
    skip_to_eof = λ cursor.
        let (result, p) = push_archive cursor.place in (result, record cursor { place = p });
  }
