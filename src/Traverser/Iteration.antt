-- ===== src/Traverser/Iteration.antt =====
-- The iterator of src/traverser.cc: where it stands after each increment, in which order the roots come, and
-- what it throws.
use archive_r.Traverser.Fetches.{
  get_elem?-none, contained-Keeps, is_refused, refused-none, next-Increments,
}
use mathlib.Core.Path.{subst}
use archive_r.Base.{
  ℕ, ◌-◌, ◌≤◌, ◌≡◌, refl, sym, ◌∙◌, inl, inr, Bool, true, false, ◌&&◌, Option, none, some, List,
  ◌==◌, length, get_elem?, if◌then◌else◌, arith,
}
use archive_r.Hierarchy.{PathHierarchy}
use archive_r.Fault.{ok, throws}
use archive_r.RootMetadata.{FileSystem}
use archive_r.EntryImpl.Creation.{ArchiveView}
use archive_r.Orchestrator.{CursorOps, open_root_hierarchy}
use archive_r.Traverser.Iterators.{TraversedEntry, TraverserOptions, Directories, Iterator}
use archive_r.Traverser.{
  ensured, advance_to_next_root, attempt_descend_into_root, fetch_behind, wants_descent,
  advance_from, advance, started, fresh, ready, make_iterator, begin,
}
use archive_r.Traverser.Sources.{
  Increment, Keeps, HasEntry, IsStanding, SourceOf, Increments, root-Source,
}

module _ {K D : Type 0} (ops : CursorOps K) (view : K → Option ArchiveView) (dirs : Directories D)
    (fs : FileSystem) (fuel : ℕ) where
  forget-Keeps :
      (it it' : Iterator K D)
      → Keeps ops view dirs fs fuel it it'
      → Keeps ops view dirs fs fuel
          (record it { current_entry = none })
          (record it' { current_entry = none })
  forget-Keeps it it' (p, i, e, a) = (p, i, refl, a)

  either-Increments :
      (it : Iterator K D) (b : Bool) (m m' : Increment ops view dirs fs fuel (Unit {0}))
      → Increments ops view dirs fs fuel it m
      → Increments ops view dirs fs fuel it m'
      → Increments ops view dirs fs fuel it (if b then m else m')
  either-Increments it true m m' here here' = here
  either-Increments it false m m' here here' = here'

  from-Increments :
      (it : Iterator K D) (o : Option TraversedEntry)
      → it.at_end ≡ false
      → (e : TraversedEntry) × (o ≡ some e)
      → Increments ops view dirs fs fuel it (advance_from ops view dirs fs fuel o it)
  unfolding advance_from attempt_descend_into_root fetch_behind
  from-Increments it none open_lem (e, same) = absurd (ground arith)
  from-Increments it (some e) open_lem has =
      let forgotten = record it { current_entry = none } in
      either-Increments it
        (length e.path_hierarchy - 1 == 0 && wants_descent ops view dirs fs fuel e) _ _
        (contained-Keeps ops view dirs fs fuel it it
          (open_root_hierarchy ops e.path_hierarchy (ensured ops view dirs fs fuel it))
          (fetch_behind ops view dirs fs fuel) (refl, refl, refl, refl)
          (λ it' keeps.
            next-Increments ops view dirs fs fuel forgotten (record it' { current_entry = none })
              false open_lem refl (forget-Keeps it it' keeps)))
        (next-Increments ops view dirs fs fuel forgotten forgotten
          (wants_descent ops view dirs fs fuel e) open_lem refl (refl, refl, refl, refl))

  at_end-Increments :
      (it : Iterator K D) (b : Bool) (m : Increment ops view dirs fs fuel (Unit {0}))
      → IsStanding ops view dirs fs fuel it
      → (b ≡ false → Increments ops view dirs fs fuel it m)
      → Increments ops view dirs fs fuel it (if b then (ok tt, it) else m)
  at_end-Increments it true m standing rec = (standing, (refl, inl refl))
  at_end-Increments it false m standing rec = rec refl

  entry_of :
      (it : Iterator K D)
      → IsStanding ops view dirs fs fuel it
      → it.at_end ≡ false
      → HasEntry ops view dirs fs fuel it
  entry_of it (inl (open_lem, has)) e = has
  entry_of it (inr (end_lem, none_lem, beyond)) e =
      let both : true ≡ false = sym end_lem ∙ e in absurd (ground arith)

  -- What `++` does from an entry, or from the end with every root behind it. It throws no fault of an
  -- entry. When it returns, the iterator stands at an entry, or at its end with every root behind it; and
  -- its position in the roots is the same, or the next one, with the root at the old position as entry.
  pub advance-Increments :
      (it : Iterator K D)
      → IsStanding ops view dirs fs fuel it
      → Increments ops view dirs fs fuel it (advance ops view dirs fs fuel it)
  unfolding advance
  advance-Increments it standing =
      at_end-Increments it it.at_end _ standing
        (λ e. from-Increments it it.current_entry e (entry_of it standing e))

  -- What the constructor of the iterator comes to, for roots and options.
  started-Standing :
      (it : Iterator K D) (m : Increment ops view dirs fs fuel Bool)
      → it.current_entry ≡ none
      → SourceOf ops view dirs fs fuel it m
      → (is_refused ops view dirs fs fuel m ≡ true → length it.paths ≤ it.current_path_index)
      → Increments ops view dirs fs fuel it (started ops view dirs fs fuel m)
  unfolding started
  started-Standing it (throws e, it') none_lem source beyond = source
  started-Standing it (ok true, it') none_lem (a, has, (p, inl i)) beyond =
      (inl (refl, has), (p, inl i))
  started-Standing it (ok true, it') none_lem (a, has, (p, inr next)) beyond =
      (inl (refl, has), (p, inr next))
  started-Standing it (ok false, it') none_lem (p, i, e, a) beyond =
      (inr (refl, e ∙ none_lem, rw (p, i) (beyond refl)), (p, inl i))

  -- The iterator that `begin` makes stands at an entry, or at its end when there are no roots.
  pub begin-Increments :
      (paths : List PathHierarchy) (options : TraverserOptions) (it : Iterator K D)
      → it ≡ fresh ops view dirs fs fuel paths false options
      → Increments ops view dirs fs fuel it (begin ops view dirs fs fuel paths options)
  unfolding begin make_iterator advance_to_next_root
  begin-Increments paths options it e =
      subst (λ t. Increments ops view dirs fs fuel t (begin ops view dirs fs fuel paths options))
        (sym e)
        (started-Standing (fresh ops view dirs fs fuel paths false options) _ refl
          (root-Source ops view dirs fs fuel (ready ops view dirs fs fuel paths options)
            (get_elem? paths 0) refl)
          (λ refused. get_elem?-none paths 0 (
            refused-none ops view dirs fs fuel (ready ops view dirs fs fuel paths options)
              (get_elem? paths 0) refused)))
