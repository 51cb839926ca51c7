-- ===== src/Traverser/Sources.antt =====
-- What each source of the iterator of src/traverser.cc gives: an archive, a directory, the next root.
use archive_r.Base.{
  ℕ, ◌+◌, ◌≤◌, ◌≡◌, refl, ap, ◌∙◌, ◌⊎◌, inl, inr, Bool, true, false, Option, none, some, Text,
  length, get_elem?, if◌then◌else◌,
}
use archive_r.Hierarchy.{PathHierarchy, make_single_path}
use archive_r.Fault.{ok, throws}
use archive_r.RootMetadata.{FileSystem}
use archive_r.EntryImpl.Creation.{ArchiveView}
use archive_r.EntryImpl.Creation.Paths.{make_entry-HasPath}
use archive_r.Orchestrator.{CursorOps, Orchestrator, Act}
use archive_r.Orchestrator.Outcomes.{Escapes, AdvancesFrom, advance-Advances}
use archive_r.Traverser.Iterators.{TraversedEntry, Directories, Iterator}
use archive_r.Traverser.{
  Turn, set_current_entry, incremented, fetch_listed, fetched, fetch_active, opened_directory,
  open_directory, enter_root,
}

module _ {K D : Type 0} (ops : CursorOps K) (view : K → Option ArchiveView) (dirs : Directories D)
    (fs : FileSystem) (fuel : ℕ) where
  abbrev pub Increment : Type 0 → Type 0
  Increment A = Turn ops view dirs fs fuel A

  -- The same roots and position, the same entry.
  abbrev pub Keeps : Iterator K D → Iterator K D → Type 0
  Keeps it it' =
      (it'.paths ≡ it.paths)
      × (it'.current_path_index ≡ it.current_path_index)
      × (it'.current_entry ≡ it.current_entry)
      × (it'.at_end ≡ it.at_end)

  -- There is an entry.
  abbrev pub HasEntry : Iterator K D → Type 0
  HasEntry it = (e : TraversedEntry) × (it.current_entry ≡ some e)

  -- The entry is the root at the position.
  abbrev pub IsRoot : Iterator K D → Iterator K D → Type 0
  IsRoot it it' =
      (h : PathHierarchy) × (e : TraversedEntry) × (get_elem? it.paths it.current_path_index
        ≡ some h)
      × (it'.current_entry ≡ some e)
      × (e.path_hierarchy ≡ h)

  -- The position in the list of roots stays, or the next root is entered.
  abbrev pub Follows : Iterator K D → Iterator K D → Type 0
  Follows it it' =
      (it'.paths ≡ it.paths)
      × ((it'.current_path_index ≡ it.current_path_index)
          ⊎ ((it'.current_path_index ≡ it.current_path_index + 1) × IsRoot it it'))

  -- The iterator stands at an entry, or at its end behind all roots.
  abbrev pub IsStanding : Iterator K D → Type 0
  IsStanding it =
      ((it.at_end ≡ false) × HasEntry it)
      ⊎ ((it.at_end ≡ true) × (it.current_entry ≡ none) × (length it.paths ≤ it.current_path_index))

  abbrev pub SourceOf : Iterator K D → Increment Bool → Type 0
  SourceOf it (ok true, it') = (it'.at_end ≡ it.at_end) × HasEntry it' × Follows it it'
  SourceOf it (ok false, it') = Keeps it it'
  SourceOf it (throws e, it') = Escapes e

  -- What an increment comes to.
  abbrev pub Increments : Iterator K D → Increment (Unit {0}) → Type 0
  Increments it (ok _, it') = IsStanding it' × Follows it it'
  Increments it (throws e, it') = Escapes e

  pub Keeps-trans : (it it₁ it₂ : Iterator K D) → Keeps it it₁ → Keeps it₁ it₂ → Keeps it it₂
  Keeps-trans it it₁ it₂ (p, i, e, a) (p', i', e', a') = (p' ∙ p, i' ∙ i, e' ∙ e, a' ∙ a)

  listed-Source :
      (it it' : Iterator K D) (o : Option (Option D))
      → it'.at_end ≡ it.at_end
      → HasEntry it'
      → Follows it it'
      → SourceOf it (incremented ops view dirs fs fuel it' o)
  unfolding incremented
  listed-Source it it' none a has follows = tt
  listed-Source it it' (some d) a has follows = (a, has, follows)

  pub directory-Source :
      (it : Iterator K D) (o : Option D) → SourceOf it (fetch_listed ops view dirs fs fuel o it)
  unfolding fetch_listed set_current_entry
  directory-Source it none = (refl, refl, refl, refl)
  directory-Source it (some d) =
      listed-Source it
        (set_current_entry ops view dirs fs fuel
          (make_single_path (dirs.lexically_normal (dirs.entry_path d))) it)
        _ refl (_, refl) (refl, inl refl)

  fetched-Source :
      (it : Iterator K D) (o : Orchestrator K) (m : Option (Act ops Bool))
      → AdvancesFrom ops o m
      → SourceOf it (fetched ops view dirs fs fuel it m)
  unfolding fetched set_current_entry
  fetched-Source it o none well = tt
  fetched-Source it o (some (throws e, o')) well = well.0
  fetched-Source it o (some (ok false, o')) well = (refl, refl, refl, refl)
  fetched-Source it o (some (ok true, o')) well = (refl, (_, refl), (refl, inl refl))

  either-Source :
      (it : Iterator K D) (b : Bool) (m : Increment Bool)
      → SourceOf it m
      → SourceOf it (if b then m else (ok false, it))
  either-Source it true m source = source
  either-Source it false m source = (refl, refl, refl, refl)

  pub active-Source :
      (it : Iterator K D) (request : Bool) (o : Option (Orchestrator K))
      → SourceOf it (fetch_active ops view dirs fs fuel request o it)
  unfolding fetch_active
  active-Source it request none = (refl, refl, refl, refl)
  active-Source it request (some o) =
      either-Source it _ _ (fetched-Source it o _ (advance-Advances ops fuel request o))

  -- The directory of a root, or no directory, once the root is the current entry.
  opened-Source :
      (it it' : Iterator K D) (h : PathHierarchy) (e : TraversedEntry) (o : Option (Option D))
      → get_elem? it.paths it.current_path_index ≡ some h
      → it'.paths ≡ it.paths
      → it'.current_path_index ≡ it.current_path_index
      → it'.at_end ≡ it.at_end
      → it'.current_entry ≡ some e
      → e.path_hierarchy ≡ h
      → SourceOf it (opened_directory ops view dirs fs fuel it' o)
  unfolding opened_directory
  opened-Source it it' h e none found p i a here same = tt
  opened-Source it it' h e (some d) found p i a here same =
      (a, (e, here), (p, inr (ap (λ n. n + 1) i, (h, e, found, here, same))))

  open-Source :
      (it it' : Iterator K D) (h : PathHierarchy) (e : TraversedEntry) (path : Option Text)
      → get_elem? it.paths it.current_path_index ≡ some h
      → it'.paths ≡ it.paths
      → it'.current_path_index ≡ it.current_path_index
      → it'.at_end ≡ it.at_end
      → it'.current_entry ≡ some e
      → e.path_hierarchy ≡ h
      → SourceOf it (open_directory ops view dirs fs fuel it' path)
  unfolding open_directory
  open-Source it it' h e none found p i a here same =
      (a, (e, here), (p, inr (ap (λ n. n + 1) i, (h, e, found, here, same))))
  open-Source it it' h e (some path) found p i a here same =
      opened-Source it it' h e (dirs.open_recursive path) found p i a here same

  pub root-Source :
      (it : Iterator K D) (o : Option PathHierarchy)
      → get_elem? it.paths it.current_path_index ≡ o
      → SourceOf it (enter_root ops view dirs fs fuel it o)
  unfolding enter_root set_current_entry
  root-Source it none found = (refl, refl, refl, refl)
  root-Source it (some h) found =
      open-Source it _ h _ _ found refl refl refl refl (make_entry-HasPath fs h _ _)
