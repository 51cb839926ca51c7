-- ===== src/EntryImpl.antt =====
-- `Entry::Impl` of src/entry.cc and src/entry_impl.h: an entry and the orchestrator that it reads
-- through, which is the traverser's or its own. Orchestrators are objects of a store, and an entry
-- holds a reference; their operations are the record `Orchestrators`. An operation also gives the
-- faults that it dispatches.
pub mod Sharing
pub mod Store
pub mod Creation
pub mod Descent
pub mod Handle
use archive_r.Base.{
  ℕ, ◌-◌, Bool, true, false, ◌&&◌, not, Option, none, some, List, [], ◌∷◌, ◌++◌, Text, codes, pos,
  ◌==◌, length, last?, if◌then◌else◌,
}
use archive_r.Hierarchy.{PathEntry, single, multi_volume, PartsOrdering, PathHierarchy, is_empty}
use archive_r.HierarchyUtils.{entry_name_from_component, path_entry_display}
use archive_r.Fault.{EntryFault, Exception, Result, ok, throws}
use archive_r.VolumeStream.Parts.{PartRead, bytes, failed}
use archive_r.EntryMetadata.{EntryMetadataValue, EntryMetadataMap, lookup}

-- Orchestrators in the store `W`, by references `R`, with options `P`. Synchronizing and reading also give
-- the faults that the orchestrator dispatches itself; Store fills the record.
pub record Orchestrators (W R P : Type 0) : Type 0 where
  pub default_options : P
  pub create : P → W → R × W
  pub stack_depth : R → W → ℕ
  pub synchronize_to_hierarchy : R → PathHierarchy → W → Result Bool × W × List EntryFault
  pub read_head : R → ℕ → W → Result PartRead × W × List EntryFault
  pub mark_entry : R → PathHierarchy → Text → PartsOrdering → W → W

-- The members of `Entry::Impl`.
pub record Impl (R P : Type 0) : Type 0 where
  pub path_hierarchy : PathHierarchy
  pub size : ℕ
  pub filetype : ℕ
  pub metadata : EntryMetadataMap
  pub descend_enabled : Bool
  pub orchestrator : Option R
  pub shares_traverser_orchestrator : Bool
  pub archive_options : Option P

-- How a read ends: with bytes, with -1, or by an exception.
pub data ReadReply : Type 0 where
  delivered : List ℕ → ReadReply
  refused : ReadReply
  raised : Exception → ReadReply

module _ {W R P : Type 0} (os : Orchestrators W R P) where
  -- The copy constructor.
  unfoldable pub copy : Impl R P → Impl R P
  copy e = record e { orchestrator = none; shares_traverser_orchestrator = false }

  abbrev name_of : Option Text → PathEntry → Text
  name_of (some (b ∷ name)) tail = b ∷ name
  name_of _ (single value) = value
  name_of _ (multi_volume parts) = path_entry_display (multi_volume parts)

  unfoldable pub name : Impl R P → Text
  name e = elim (last? e.path_hierarchy) [
    | none ↦ []
    | some tail ↦ name_of (entry_name_from_component tail) tail
  ]

  unfoldable pub depth : Impl R P → ℕ
  depth e = length e.path_hierarchy - 1

  unfoldable pub metadata_value : Impl R P → Text → Option EntryMetadataValue
  metadata_value e key = lookup key e.metadata

  -- The fault that `emit_fault` dispatches.
  unfoldable pub emitted_fault : Impl R P → Text → EntryFault
  emitted_fault e message = record {
    hierarchy = e.path_hierarchy;
    message = message;
    errno_value = pos 0;
  }

  unfoldable pub set_descent : Bool → Impl R P → Impl R P × List EntryFault
  set_descent enabled e =
      if not e.shares_traverser_orchestrator
      then (e, emitted_fault e (codes "set_descent requires traverser-managed orchestrator") ∷ [])
      else (record e { descend_enabled = enabled }, [])

  -- A shared orchestrator is never null; marking through a null one would be undefined.
  pub mark_through : Option R → Impl R P → Text → PartsOrdering → W → W
  mark_through none e base_name ordering w = w
  mark_through (some r) e base_name ordering w =
      os.mark_entry r e.path_hierarchy base_name ordering w

  unfoldable pub set_multi_volume_group :
      Text → PartsOrdering → Impl R P → W → Impl R P × W × List EntryFault
  unfolding mark_through
  set_multi_volume_group base_name ordering e w =
      if not e.shares_traverser_orchestrator
      then (
        e,
        w,
        emitted_fault e (codes "set_multi_volume_group requires traverser-managed orchestrator")
            ∷ [],
      )
      else (
        record e { descend_enabled = false },
        mark_through e.orchestrator e base_name ordering w,
        [],
      )

  abbrev pub Ensured : Type 0
  Ensured = Result (Option R) × Impl R P × W × List EntryFault

  -- What follows `synchronize_to_hierarchy` on a new orchestrator.
  pub synchronized : R → Impl R P → Result Bool × W × List EntryFault → Ensured
  synchronized r e (throws x, w, faults) = (throws x, record e { orchestrator = some r }, w, faults)
  synchronized r e (ok false, w, faults) = (ok none, record e { orchestrator = none }, w, faults)
  synchronized r e (ok true, w, faults) = (
    ok (some r),
    record e { orchestrator = some r; shares_traverser_orchestrator = false },
    w,
    faults,
  )

  abbrev options_or_default : Option P → P
  options_or_default none = os.default_options
  options_or_default (some options) = options

  pub open_detached : Impl R P → W → Ensured
  unfolding synchronized
  open_detached e w =
      let (r, w') = os.create (options_or_default e.archive_options) w in
      synchronized r e (os.synchronize_to_hierarchy r e.path_hierarchy w')

  -- The traverser's orchestrator at depth 0 is given up for an own one.
  unfoldable pub keep_or_open : Bool → R → Impl R P → W → Ensured
  unfolding open_detached
  keep_or_open true r e w =
      open_detached (record e { orchestrator = none; shares_traverser_orchestrator = false }) w
  keep_or_open false r e w = (ok (some r), e, w, [])

  unfoldable pub ensure_held : Option R → Impl R P → W → Ensured
  unfolding open_detached keep_or_open
  ensure_held none e w = open_detached e w
  ensure_held (some r) e w =
      keep_or_open (e.shares_traverser_orchestrator && os.stack_depth r w == 0) r e w

  unfoldable pub ensure_orchestrator : Impl R P → W → Ensured
  unfolding ensure_held
  ensure_orchestrator e w = ensure_held e.orchestrator e w

  abbrev pub ReadOutcome : Type 0
  ReadOutcome = ReadReply × Impl R P × W × List EntryFault

  -- `before` are the faults that were dispatched before; those of `read_head` come before the entry's own.
  unfoldable pub after_read :
      List EntryFault → Impl R P → Result PartRead × W × List EntryFault → ReadOutcome
  after_read before e (throws x, w, faults) = (raised x, e, w, before ++ faults)
  after_read before e (ok (failed n), w, faults) = (
    refused,
    e,
    w,
    before ++ (faults ++ emitted_fault e (codes "Failed to read entry content") ∷ []),
  )
  after_read before e (ok (bytes bs), w, faults) =
      (delivered bs, record e { descend_enabled = false }, w, before ++ faults)

  unfoldable pub after_ensure : ℕ → Ensured → ReadOutcome
  unfolding after_read
  after_ensure len (throws x, e, w, faults) = (raised x, e, w, faults)
  after_ensure len (ok none, e, w, faults) = (
    refused,
    e,
    w,
    faults ++ emitted_fault e (codes "Failed to initialize ArchiveStackOrchestrator") ∷ [],
  )
  after_ensure len (ok (some r), e, w, faults) = after_read faults e (os.read_head r len w)

  unfoldable pub read : ℕ → Impl R P → W → ReadOutcome
  unfolding after_ensure
  read len e w = after_ensure len (ensure_orchestrator e w)
