-- ===== src/Traverser/Walks.antt =====
-- Walks with the iterator of src/traverser.cc: begin, and then increments, between which the caller may
-- change the entry that it was given.
use mathlib.Core.Path.{subst}
use archive_r.Base.{
  ℕ, ◌≤◌, ◌≡◌, refl, ap, ◌∙◌, ◌⊎◌, inl, inr, true, false, Option, none, some, List, [], ◌∷◌, length,
}
use archive_r.Hierarchy.{PathHierarchy}
use archive_r.Fault.{ok, throws}
use archive_r.RootMetadata.{FileSystem}
use archive_r.EntryImpl.Creation.{ArchiveView}
use archive_r.Orchestrator.{CursorOps}
use archive_r.Orchestrator.Outcomes.{Escapes}
use archive_r.Traverser.Iterators.{
  TraversedEntry, TraverserOptions, Directories, Iterator, get_entry,
}
use archive_r.Traverser.{Turn, advance, fresh, begin}
use archive_r.Traverser.Sources.{IsStanding, Increments}
use archive_r.Traverser.Iteration.{advance-Increments, begin-Increments}

-- What the caller does to the entry.
abbrev pub edited :
    (TraversedEntry → TraversedEntry) → Option TraversedEntry → Option TraversedEntry
edited edit none = none
edited edit (some e) = some (edit e)

module _ {K D : Type 0} (ops : CursorOps K) (view : K → Option ArchiveView) (dirs : Directories D)
    (fs : FileSystem) (fuel : ℕ) where
  abbrev Walked : Type 0
  Walked = Turn ops view dirs fs fuel (Unit {0})

  abbrev edit_entry : (TraversedEntry → TraversedEntry) → Iterator K D → Iterator K D
  edit_entry edit it = record it { current_entry = edited edit it.current_entry }

  pub after_edit : (TraversedEntry → TraversedEntry) → Walked → Walked
  after_edit edit (throws e, it) = (throws e, it)
  after_edit edit (ok _, it) = advance ops view dirs fs fuel (edit_entry edit it)

  -- One edit and increment after another; an exception ends the walk.
  pub walk : List (TraversedEntry → TraversedEntry) → Walked → Walked
  unfolding after_edit
  walk [] m = m
  walk (edit ∷ edits) m = walk edits (after_edit edit m)

  -- Where a walk over these roots is: at an entry that can be dereferenced, or at the end with every root
  -- behind it. What is thrown is no fault of an entry.
  abbrev pub WalksOver : List PathHierarchy → Walked → Type 0
  WalksOver paths (throws e, it) = Escapes e
  WalksOver paths (ok _, it) =
      (it.paths ≡ paths)
      × (((it.at_end ≡ false) × ((e : TraversedEntry) × (get_entry it ≡ ok e)))
          ⊎ ((it.at_end ≡ true) × (length paths ≤ it.current_path_index)))

  abbrev Stands : List PathHierarchy → Walked → Type 0
  Stands paths (throws e, it) = Escapes e
  Stands paths (ok _, it) = (it.paths ≡ paths) × IsStanding ops view dirs fs fuel it

  edited-Standing :
      (edit : TraversedEntry → TraversedEntry) (it : Iterator K D)
      → IsStanding ops view dirs fs fuel it
      → IsStanding ops view dirs fs fuel (edit_entry edit it)
  edited-Standing edit it (inl (open_lem, (e, here))) =
      inl (open_lem, (edit e, ap (edited edit) here))
  edited-Standing edit it (inr (end_lem, none_lem, beyond)) =
      inr (end_lem, ap (edited edit) none_lem, beyond)

  Increments-Stands :
      (paths : List PathHierarchy) (it : Iterator K D) (m : Walked)
      → it.paths ≡ paths
      → Increments ops view dirs fs fuel it m
      → Stands paths m
  Increments-Stands paths it (throws e, it') same increments = increments
  Increments-Stands paths it (ok u, it') same (standing, (p, moves)) = (p ∙ same, standing)

  after_edit-Stands :
      (paths : List PathHierarchy) (edit : TraversedEntry → TraversedEntry) (m : Walked)
      → Stands paths m
      → Stands paths (after_edit edit m)
  unfolding after_edit
  after_edit-Stands paths edit (throws e, it) stands = stands
  after_edit-Stands paths edit (ok u, it) (same, standing) =
      Increments-Stands paths (edit_entry edit it)
        (advance ops view dirs fs fuel (edit_entry edit it)) same
        (advance-Increments ops view dirs fs fuel (edit_entry edit it)
          (edited-Standing edit it standing))

  walk-Stands :
      (paths : List PathHierarchy) (edits : List (TraversedEntry → TraversedEntry)) (m : Walked)
      → Stands paths m
      → Stands paths (walk edits m)
  unfolding walk
  walk-Stands paths [] m stands = stands
  walk-Stands paths (edit ∷ edits) m stands =
      walk-Stands paths edits (after_edit edit m) (after_edit-Stands paths edit m stands)

  Stands-WalksOver : (paths : List PathHierarchy) (m : Walked) → Stands paths m → WalksOver paths m
  unfolding get_entry
  Stands-WalksOver paths (throws e, it) stands = stands
  Stands-WalksOver paths (ok u, it) (same, inl (open_lem, (e, here))) =
      (same, inl (open_lem, (e, rw here refl)))
  Stands-WalksOver paths (ok u, it) (same, inr (end_lem, none_lem, beyond)) =
      (same, inr (end_lem, subst (λ t. length t ≤ it.current_path_index) same beyond))

  -- A walk from `begin`, with any increments and any changes of the entries between them, is at an
  -- entry that can be dereferenced, or at its end with every root behind it; an exception that leaves
  -- it is no fault of an entry.
  pub walk-WalksOver :
      (paths : List PathHierarchy) (options : TraverserOptions)
      (edits : List (TraversedEntry → TraversedEntry))
      → WalksOver paths (walk edits (begin ops view dirs fs fuel paths options))
  walk-WalksOver paths options edits = Stands-WalksOver paths _ (
      walk-Stands paths edits _ (
        Increments-Stands paths (fresh ops view dirs fs fuel paths false options) _ refl
          (begin-Increments ops view dirs fs fuel paths options _ refl)))
