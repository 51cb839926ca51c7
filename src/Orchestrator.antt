-- ===== src/Orchestrator.antt =====
-- `ArchiveStackOrchestrator` of src/archive_stack_orchestrator.h and src/archive_stack_orchestrator.cc:
-- it drives the cursor through the archives, turns to groups of volumes that wait, and dispatches
-- faults. The cursor is the record `CursorOps`, which StackCursor/Operations fills.
pub mod Rounds
pub mod Outcomes
pub mod Shrinking
pub mod Ending
pub mod Fuel
use archive_r.Base.{
  ℕ, zero, suc, Bool, true, false, not, Option, none, some, List, [], ◌∷◌, ◌++◌, Text, ◌==◌,
  if◌then◌else◌,
}
use archive_r.Hierarchy.{PathHierarchy, PartsOrdering, is_empty}
use archive_r.HierarchyUtils.{pathhierarchy_is_multivolume}
use archive_r.Fault.{
  EntryFault, Exception, entry_fault, invalid_argument, logic_error, Result, ok, throws,
}
use archive_r.VolumeStream.Parts.{PartRead, bytes, failed, ReadEnd, done, code, thrown, out_of_fuel}
use archive_r.VolumeManager.{
  ParentGroupMap, Popped, no_group, popped, fault, pop_multi_volume_group,
  mark_entry_as_multi_volume,
}
use archive_r.StreamArchive.{ArchiveOption}

-- The members of `ArchiveStackCursor` over its state `K`.
pub record CursorOps (K : Type 0) : Type 0 where
  -- A new cursor, configured with the options.
  pub configured : ArchiveOption → K
  pub cursor_depth : K → ℕ
  pub descend : K → Result Bool × K
  pub ascend : K → Bool × K
  pub next : K → Result Bool × K
  pub synchronize : PathHierarchy → K → Result Bool × K
  pub read : ℕ → K → ReadEnd × K
  pub entry_hierarchy : K → PathHierarchy
  -- `current_archive()->current_entryname`, and `current_archive()->skip_to_eof()`, which does
  -- nothing when there is no archive.
  pub entryname : K → Option Text
  pub skip_to_eof : K → Result Bool × K

-- The members, and the faults that were dispatched, the first one first.
pub record Orchestrator (K : Type 0) : Type 0 where
  pub archive_options : ArchiveOption
  pub head : K
  pub groups : ParentGroupMap
  pub dispatched : List EntryFault

abbrev pub move_head : {K : Type 0} → K → Orchestrator K → Orchestrator K
move_head k o = record o { head = k }

module _ {K : Type 0} (ops : CursorOps K) where
  -- What a member function returns or throws, and the object afterwards.
  abbrev pub Act : Type 0 → Type 0
  Act A = Result A × Orchestrator K

  unfoldable pub make_orchestrator : ArchiveOption → Orchestrator K
  make_orchestrator options = record {
    archive_options = options;
    head = ops.configured options;
    groups = [];
    dispatched = [];
  }

  unfoldable pub depth : Orchestrator K → ℕ
  depth o = ops.cursor_depth o.head

  -- A fault without a hierarchy gets that of the current entry.
  unfoldable pub filled_fault : EntryFault → Orchestrator K → EntryFault
  filled_fault f o =
      if is_empty f.hierarchy then record f { hierarchy = ops.entry_hierarchy o.head } else f

  unfoldable pub dispatch_fault : EntryFault → Orchestrator K → Orchestrator K
  unfolding filled_fault
  dispatch_fault f o = record o { dispatched = o.dispatched ++ filled_fault f o ∷ [] }

  -- A result of the cursor, as one of the orchestrator.
  abbrev on_head : {A : Type 0} → Orchestrator K → Result A × K → Act A
  on_head o (result, k) = (result, move_head k o)

  -- `descend`, when the synchronization has returned.
  pub then_descend : Act Bool → Act Bool
  then_descend (throws e, o) = (throws e, o)
  then_descend (ok _, o) = on_head o (ops.descend o.head)

  pub as_true : Act Bool → Act Bool
  as_true (throws e, o) = (throws e, o)
  as_true (ok _, o) = (ok true, o)

  pub open_root_hierarchy : PathHierarchy → Orchestrator K → Act Bool
  unfolding then_descend
  open_root_hierarchy root_hierarchy o =
      then_descend (on_head o (ops.synchronize root_hierarchy o.head))

  -- What follows `pop_multi_volume_group`.
  pub enter_group : Orchestrator K → Popped → Act Bool
  unfolding open_root_hierarchy as_true
  enter_group o no_group = (ok false, o)
  enter_group o (popped target) = as_true (open_root_hierarchy target o)
  enter_group o fault = (throws Exception.undefined, o)

  unfoldable pub current_hierarchy : Orchestrator K → PathHierarchy
  unfolding depth
  current_hierarchy o = if depth o == 0 then [] else ops.entry_hierarchy o.head

  pub descend_pending_multi_volumes : Orchestrator K → Act Bool
  unfolding enter_group
  descend_pending_multi_volumes o =
      let (found, groups) = pop_multi_volume_group (current_hierarchy o) o.groups in
      enter_group (record o { groups = groups }) found

  -- A round of the loop of `advance` returns or throws, or the next round follows.
  pub data Round : Type 0 where
    ends : Act Bool → Round
    again : Orchestrator K → Round

  -- An exception: a fault of an entry is dispatched and goes on, any other one leaves `advance`.
  pub catches : (Orchestrator K → Round) → Exception → Orchestrator K → Round
  catches goes_on (entry_fault f) o = goes_on (dispatch_fault f o)
  catches goes_on (invalid_argument message) o = ends (throws (invalid_argument message), o)
  catches goes_on (logic_error message) o = ends (throws (logic_error message), o)
  catches goes_on Exception.undefined o = ends (throws Exception.undefined, o)
  catches goes_on Exception.stuck o = ends (throws Exception.stuck, o)
  catches goes_on Exception.filesystem_error o = ends (throws Exception.filesystem_error, o)

  -- The parent is pushed to its end.
  pub pushed_to_eof : Act Bool → Round
  unfolding catches
  pushed_to_eof (ok _, o) = again o
  pushed_to_eof (throws e, o) = catches again e o

  unfoldable pub push_to_eof : Orchestrator K → Round
  unfolding pushed_to_eof
  push_to_eof o = pushed_to_eof (on_head o (ops.skip_to_eof o.head))

  -- A turn to the groups that wait, or what else follows.
  pub pending_or : (Orchestrator K → Round) → Act Bool → Round
  unfolding catches
  pending_or otherwise (ok true, o) = again o
  pending_or otherwise (ok false, o) = otherwise o
  pending_or otherwise (throws e, o) = catches otherwise e o

  -- The archive is done: ascend, and behind volumes turn to the groups on that level.
  unfoldable pub leave_archive : Orchestrator K → Round
  unfolding push_to_eof pending_or descend_pending_multi_volumes
  leave_archive o =
      let above = move_head (ops.ascend o.head).1 o in
      if not (pathhierarchy_is_multivolume (ops.entry_hierarchy o.head))
      then again above
      else pending_or push_to_eof (descend_pending_multi_volumes above)

  -- What follows `next`.
  pub after_next : Act Bool → Round
  unfolding catches leave_archive pending_or descend_pending_multi_volumes
  after_next (ok true, o) = ends (ok true, o)
  after_next (ok false, o) = pending_or leave_archive (descend_pending_multi_volumes o)
  after_next (throws e, o) = catches again e o

  unfoldable pub try_next : Orchestrator K → Round
  unfolding after_next
  try_next o = after_next (on_head o (ops.next o.head))

  pub after_descend : Act Bool → Round
  unfolding try_next catches
  after_descend (ok _, o) = try_next o
  after_descend (throws e, o) = catches again e o

  unfoldable pub advance_round : Bool → Orchestrator K → Round
  unfolding after_descend depth
  advance_round request_descend o =
      if depth o == 0
      then ends (ok false, o)
      else if request_descend
      then after_descend (on_head o (ops.descend o.head))
      else try_next o

  -- The loop takes fuel; `none` means that it ran out.
  pub continue_round : (Orchestrator K → Option (Act Bool)) → Round → Option (Act Bool)
  continue_round next (ends m) = some m
  continue_round next (again o) = next o

  pub advance : ℕ → Bool → Orchestrator K → Option (Act Bool)
  unfolding continue_round advance_round
  advance zero request_descend o = none
  advance (suc fuel) request_descend o =
      continue_round (advance fuel false) (advance_round request_descend o)

  unfoldable pub current_entryname : Orchestrator K → Text
  current_entryname o = elim (ops.entryname o.head) [ none ↦ [] | some name ↦ name ]

  unfoldable pub caught : Act Bool → Act Bool
  caught (ok _, o) = (ok true, o)
  caught (throws (entry_fault f), o) = (ok false, dispatch_fault f o)
  caught (throws (invalid_argument message), o) = (throws (invalid_argument message), o)
  caught (throws (logic_error message), o) = (throws (logic_error message), o)
  caught (throws Exception.undefined, o) = (throws Exception.undefined, o)
  caught (throws Exception.stuck, o) = (throws Exception.stuck, o)
  caught (throws Exception.filesystem_error, o) = (throws Exception.filesystem_error, o)

  unfoldable pub synchronize_to_hierarchy : PathHierarchy → Orchestrator K → Act Bool
  unfolding caught
  synchronize_to_hierarchy path_hierarchy o =
      caught (on_head o (ops.synchronize path_hierarchy o.head))

  -- The result of a read; -1 is `failed 0`.
  unfoldable pub caught_read : ReadEnd × Orchestrator K → Act PartRead
  caught_read (done bs, o) = (ok (bytes bs), o)
  caught_read (code n, o) = (ok (failed n), o)
  caught_read (thrown (entry_fault f), o) = (ok (failed 0), dispatch_fault f o)
  caught_read (thrown (invalid_argument message), o) = (throws (invalid_argument message), o)
  caught_read (thrown (logic_error message), o) = (throws (logic_error message), o)
  caught_read (thrown Exception.undefined, o) = (throws Exception.undefined, o)
  caught_read (thrown Exception.stuck, o) = (throws Exception.stuck, o)
  caught_read (thrown Exception.filesystem_error, o) = (throws Exception.filesystem_error, o)
  caught_read (out_of_fuel, o) = (throws Exception.stuck, o)

  unfoldable pub read_head : ℕ → Orchestrator K → Act PartRead
  unfolding caught_read
  read_head len o = let (result, k) = ops.read len o.head in caught_read (result, move_head k o)

  unfoldable pub mark_entry : PathHierarchy → Text → PartsOrdering → Orchestrator K → Orchestrator K
  mark_entry entry_path base_name ordering o = record o {
    groups = mark_entry_as_multi_volume entry_path base_name ordering o.groups;
  }
