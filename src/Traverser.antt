-- ===== src/Traverser.antt =====
-- `Traverser` of include/archive_r/traverser.h and src/traverser.cc: the iterator over roots, the
-- directories among them, and the archives. `std::filesystem` is the record `Directories`, and
-- the orchestrator works over the cursor of `CursorOps`.
pub mod Iterators
pub mod Fetches
pub mod Sources
pub mod Iteration
pub mod Walks
use archive_r.Traverser.Iterators.{
  TraverserOptions, to_archive_option, TraversedEntry, Directories, Iterator,
}
use archive_r.Base.{
  ℕ, zero, suc, ◌+◌, Bool, true, false, ◌&&◌, ◌||◌, not, Option, none, some, List, [], ◌∷◌, Text,
  codes, ◌==◌, ltb, ◌-◌, length, get_elem?, if◌then◌else◌,
}
use archive_r.Hierarchy.{PathEntry, single, multi_volume, PathHierarchy, is_empty, make_single_path}
use archive_r.Fault.{Exception, entry_fault, invalid_argument, logic_error, Result, ok, throws}
use archive_r.RootMetadata.{FileSystem}
use archive_r.EntryImpl.{Impl}
use archive_r.EntryImpl.Creation.{ArchiveView, Source, make_entry, is_directory}
use archive_r.StreamArchive.{ArchiveOption}
use archive_r.Orchestrator.{
  CursorOps, Orchestrator, Act, make_orchestrator, depth as stack_depth, dispatch_fault,
  open_root_hierarchy, descend_pending_multi_volumes, advance as advance_stack,
}

module _ {K D : Type 0} (ops : CursorOps K) (view : K → Option ArchiveView) (dirs : Directories D)
    (fs : FileSystem) (fuel : ℕ) where
  -- What a member function returns or throws, and the object afterwards.
  abbrev pub Turn : Type 0 → Type 0
  Turn A = Result A × Iterator K D

  unfoldable pub ensured : Iterator K D → Orchestrator K
  ensured it = elim it.shared_orchestrator [
    | none ↦ make_orchestrator ops it.archive_options
    | some o ↦ o
  ]

  -- What the constructor of an entry reads.
  unfoldable pub source_of : Orchestrator K → Source ArchiveOption
  source_of o = record {
    keys = o.archive_options.metadata_keys;
    archive = view o.head;
    stack_depth = stack_depth ops o;
    options = o.archive_options;
  }

  unfoldable pub set_current_entry : PathHierarchy → Iterator K D → Iterator K D
  unfolding source_of ensured
  set_current_entry hierarchy it = record it {
    shared_orchestrator = some (ensured it);
    current_entry =
        some (make_entry fs hierarchy (some (tt, source_of (ensured it))) it.default_descent);
  }

  -- The directory iterator stands at an entry that is not descended into.
  pub stays_out : Option TraversedEntry → Bool
  stays_out none = false
  stays_out (some e) = is_directory e && not e.descend_enabled

  -- `++_directory_iterator`, which is at the end after a failure.
  pub incremented : Iterator K D → Option (Option D) → Turn Bool
  incremented it (some directory) = (ok true, record it { directory = directory })
  incremented it none = (throws Exception.filesystem_error, record it { directory = none })

  pub fetch_listed : Option D → Iterator K D → Turn Bool
  unfolding stays_out incremented
  fetch_listed none it = (ok false, it)
  fetch_listed (some d) it =
      let it' =
        set_current_entry (make_single_path (dirs.lexically_normal (dirs.entry_path d))) it in
      incremented it' (
        dirs.increment
          (if stays_out it'.current_entry then dirs.disable_recursion_pending d else d))

  unfoldable pub fetch_from_directory : Iterator K D → Turn Bool
  unfolding fetch_listed
  fetch_from_directory it = fetch_listed it.directory it

  abbrev hold : Orchestrator K → Iterator K D → Iterator K D
  hold o it = record it { shared_orchestrator = some o }

  pub fetched : Iterator K D → Option (Act ops Bool) → Turn Bool
  fetched it none = (throws Exception.stuck, it)
  fetched it (some (throws e, o)) = (throws e, hold o it)
  fetched it (some (ok false, o)) = (ok false, hold o it)
  fetched it (some (ok true, o)) =
      (ok true, set_current_entry (ops.entry_hierarchy o.head) (hold o it))

  pub fetch_active : Bool → Option (Orchestrator K) → Iterator K D → Turn Bool
  unfolding fetched
  fetch_active request none it = (ok false, it)
  fetch_active request (some o) it =
      let moved = fetched it (advance_stack ops fuel request o) in
      if ltb 0 (stack_depth ops o) then moved else (ok false, it)

  unfoldable pub fetch_from_archive : Bool → Iterator K D → Turn Bool
  unfolding fetch_active
  fetch_from_archive request it = fetch_active request it.shared_orchestrator it

  -- The path of a root that may be a directory.
  pub directory_path : PathHierarchy → Option Text
  directory_path (single path ∷ []) = if dirs.path_is_directory path then some path else none
  directory_path _ = none

  pub opened_directory : Iterator K D → Option (Option D) → Turn Bool
  opened_directory it none = (throws Exception.filesystem_error, it)
  opened_directory it (some directory) =
      (ok true, record it { directory = directory; current_path_index = it.current_path_index + 1 })

  pub open_directory : Iterator K D → Option Text → Turn Bool
  unfolding opened_directory
  open_directory it none = (ok true, record it { current_path_index = it.current_path_index + 1 })
  open_directory it (some path) = opened_directory it (dirs.open_recursive path)

  pub enter_root : Iterator K D → Option PathHierarchy → Turn Bool
  unfolding open_directory directory_path
  enter_root it none = (ok false, it)
  enter_root it (some hierarchy) =
      open_directory
        (set_current_entry hierarchy (record it { directory = none; current_entry = none }))
        (directory_path hierarchy)

  unfoldable pub advance_to_next_root : Iterator K D → Turn Bool
  unfolding enter_root
  advance_to_next_root it = enter_root it (get_elem? it.paths it.current_path_index)

  -- A fault of an entry is dispatched, with the hierarchy of the current entry if it has none.
  pub contained : Iterator K D → Act ops Bool → Turn Bool
  contained it (ok b, o) = (ok b, hold o it)
  contained it (throws (entry_fault f), o) = (ok false, hold (dispatch_fault ops f o) it)
  contained it (throws (invalid_argument message), o) =
      (throws (invalid_argument message), hold o it)
  contained it (throws (logic_error message), o) = (throws (logic_error message), hold o it)
  contained it (throws Exception.undefined, o) = (throws Exception.undefined, hold o it)
  contained it (throws Exception.stuck, o) = (throws Exception.stuck, hold o it)
  contained it (throws Exception.filesystem_error, o) =
      (throws Exception.filesystem_error, hold o it)

  pub descend_pending : Iterator K D → Turn Bool
  unfolding contained
  descend_pending it = contained it (descend_pending_multi_volumes ops (ensured it))

  pub attempt_descend_into_root : PathHierarchy → Iterator K D → Turn Bool
  unfolding contained
  attempt_descend_into_root hierarchy it =
      contained it (open_root_hierarchy ops hierarchy (ensured it))

  -- A source that gives an entry ends the call; else the next one is asked.
  pub or_else : (Iterator K D → Turn (Unit {0})) → Turn Bool → Turn (Unit {0})
  or_else next (throws e, it) = (throws e, it)
  or_else next (ok true, it) = (ok tt, it)
  or_else next (ok false, it) = next it

  pub and_then : (Iterator K D → Turn (Unit {0})) → Turn Bool → Turn (Unit {0})
  and_then next (throws e, it) = (throws e, it)
  and_then next (ok _, it) = next it

  unfoldable pub finish : Iterator K D → Turn (Unit {0})
  finish it = (ok tt, record it { at_end = true })

  -- The sources in their order, the last one first: the archive of a group, the groups that wait, the
  -- next root, the directory, the archive.
  unfoldable pub fetch_last : Iterator K D → Turn (Unit {0})
  unfolding or_else finish
  fetch_last it = or_else finish (fetch_from_archive false it)

  unfoldable pub fetch_pending : Iterator K D → Turn (Unit {0})
  unfolding and_then descend_pending fetch_last
  fetch_pending it = and_then fetch_last (descend_pending it)

  unfoldable pub fetch_root : Iterator K D → Turn (Unit {0})
  unfolding or_else fetch_pending
  fetch_root it = or_else fetch_pending (advance_to_next_root it)

  unfoldable pub fetch_listing : Iterator K D → Turn (Unit {0})
  unfolding or_else fetch_root
  fetch_listing it = or_else fetch_root (fetch_from_directory it)

  unfoldable pub fetch_next : Bool → Iterator K D → Turn (Unit {0})
  unfolding or_else fetch_listing
  fetch_next request it = or_else fetch_listing (fetch_from_archive request it)

  unfoldable pub wants_descent : TraversedEntry → Bool
  wants_descent e = e.descend_enabled && not (is_directory e)

  abbrev pub forget_entry : Iterator K D → Iterator K D
  forget_entry it = record it { current_entry = none }

  unfoldable pub fetch_behind : Iterator K D → Turn (Unit {0})
  unfolding fetch_next
  fetch_behind it = fetch_next false (forget_entry it)

  -- `advance` from the entry where it stands; without one it dereferences a null pointer.
  pub advance_from : Option TraversedEntry → Iterator K D → Turn (Unit {0})
  unfolding fetch_next fetch_behind and_then attempt_descend_into_root
  advance_from none it = (throws Exception.undefined, it)
  advance_from (some e) it =
      if length e.path_hierarchy - 1 == 0 && wants_descent e
      then and_then fetch_behind (attempt_descend_into_root e.path_hierarchy it)
      else fetch_next (wants_descent e) (forget_entry it)

  unfoldable pub advance : Iterator K D → Turn (Unit {0})
  unfolding advance_from
  advance it = if it.at_end then (ok tt, it) else advance_from it.current_entry it

  -- The constructor's last statement.
  pub started : Turn Bool → Turn (Unit {0})
  started (throws e, it) = (throws e, it)
  started (ok found, it) = (ok tt, record it { at_end = not found })

  abbrev pub fresh : List PathHierarchy → Bool → TraverserOptions → Iterator K D
  fresh paths at_end options = record {
    paths = paths;
    current_path_index = 0;
    directory = none;
    at_end = at_end;
    current_entry = none;
    archive_options = to_archive_option options;
    shared_orchestrator = none;
    default_descent = options.descend_archives;
  }

  -- With the orchestrator made.
  abbrev pub ready : List PathHierarchy → TraverserOptions → Iterator K D
  ready paths options = record (fresh paths false options) {
    shared_orchestrator = some (make_orchestrator ops (to_archive_option options));
  }

  unfoldable pub make_iterator : List PathHierarchy → Bool → TraverserOptions → Turn (Unit {0})
  unfolding started advance_to_next_root
  make_iterator paths at_end options =
      if at_end
      then (ok tt, fresh paths true options)
      else started (advance_to_next_root (ready paths options))

  -- `begin` and `end`.
  unfoldable pub begin : List PathHierarchy → TraverserOptions → Turn (Unit {0})
  begin paths options = make_iterator paths false options

  unfoldable pub end_iterator : List PathHierarchy → TraverserOptions → Turn (Unit {0})
  end_iterator paths options = make_iterator paths true options
