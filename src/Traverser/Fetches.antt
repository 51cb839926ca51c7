-- ===== src/Traverser/Fetches.antt =====
-- `fetch_next` of src/traverser.cc: where the iterator stands after each way to go on.
use archive_r.Base.{
  ℕ, zero, suc, ◌+◌, ◌≤◌, ◌≡◌, refl, ap, sym, ◌∙◌, inl, inr, Bool, true, false, not, Option, none,
  some, List, [], ◌∷◌, Text, length, get_elem?, arith,
}
use archive_r.Hierarchy.{PathHierarchy}
use archive_r.Fault.{Exception, entry_fault, invalid_argument, logic_error, ok, throws}
use archive_r.RootMetadata.{FileSystem}
use archive_r.EntryImpl.Creation.{ArchiveView}
use archive_r.Orchestrator.{CursorOps, Act, descend_pending_multi_volumes}
use archive_r.Traverser.Iterators.{Directories, Iterator}
use archive_r.Traverser.{
  ensured, fetch_listed, fetch_from_directory, fetch_active, fetch_from_archive, opened_directory,
  open_directory, enter_root, advance_to_next_root, contained, descend_pending, or_else, and_then,
  finish, fetch_last, fetch_pending, fetch_root, fetch_listing, fetch_next,
}
use archive_r.Traverser.Sources.{
  Increment, Keeps, Follows, SourceOf, Increments, Keeps-trans, directory-Source, active-Source,
  root-Source,
}

pub get_elem?-none : {A : Type 0} (xs : List A) (i : ℕ) → get_elem? xs i ≡ none → length xs ≤ i
get_elem?-none [] i e = omega arith
get_elem?-none (x ∷ xs) zero e = absurd (ground arith)
get_elem?-none (x ∷ xs) (suc i) e = let rest = get_elem?-none xs i e in omega arith

module _ {K D : Type 0} (ops : CursorOps K) (view : K → Option ArchiveView) (dirs : Directories D)
    (fs : FileSystem) (fuel : ℕ) where
  pub contained-Keeps :
      (it it₁ : Iterator K D) (m : Act ops Bool)
      (goes_on : Iterator K D → Increment ops view dirs fs fuel (Unit {0}))
      → Keeps ops view dirs fs fuel it it₁
      → ((it' : Iterator K D)
          → Keeps ops view dirs fs fuel it it'
          → Increments ops view dirs fs fuel it (goes_on it'))
      → Increments ops view dirs fs fuel it
          (and_then ops view dirs fs fuel goes_on (contained ops view dirs fs fuel it₁ m))
  unfolding contained and_then
  contained-Keeps it it₁ (ok b, o) goes_on keeps rec = rec _ keeps
  contained-Keeps it it₁ (throws (entry_fault f), o) goes_on keeps rec = rec _ keeps
  contained-Keeps it it₁ (throws (invalid_argument message), o) goes_on keeps rec = tt
  contained-Keeps it it₁ (throws (logic_error message), o) goes_on keeps rec = tt
  contained-Keeps it it₁ (throws Exception.undefined, o) goes_on keeps rec = tt
  contained-Keeps it it₁ (throws Exception.stuck, o) goes_on keeps rec = tt
  contained-Keeps it it₁ (throws Exception.filesystem_error, o) goes_on keeps rec = tt

  -- Moves after the same roots, position and entry.
  Keeps-Follows :
      (it it₁ it₂ : Iterator K D)
      → Keeps ops view dirs fs fuel it it₁
      → Follows ops view dirs fs fuel it₁ it₂
      → Follows ops view dirs fs fuel it it₂
  Keeps-Follows it it₁ it₂ (p, i, e, a) (p', inl i') = (p' ∙ p, inl (i' ∙ i))
  Keeps-Follows it it₁ it₂ (p, i, e, a) (p', inr (i', (h, e', found, here, same))) = (
    p' ∙ p,
    inr (
      i' ∙ ap (λ n. n + 1) i,
      (
        h,
        e',
        ap (λ l. get_elem? l it.current_path_index) (sym p)
            ∙ ap (get_elem? it₁.paths) (sym i)
            ∙ found,
        here,
        same,
      ),
    ),
  )

  or_else-Increments :
      (it it₁ : Iterator K D) (next : Iterator K D → Increment ops view dirs fs fuel (Unit {0}))
      (m : Increment ops view dirs fs fuel Bool)
      → it.at_end ≡ false
      → Keeps ops view dirs fs fuel it it₁
      → SourceOf ops view dirs fs fuel it₁ m
      → ((it₂ : Iterator K D)
          → Keeps ops view dirs fs fuel it it₂
          → m ≡ (ok false, it₂)
          → Increments ops view dirs fs fuel it (next it₂))
      → Increments ops view dirs fs fuel it (or_else ops view dirs fs fuel next m)
  unfolding or_else
  or_else-Increments it it₁ next (throws e, it₂) open_lem keeps source rec = source
  or_else-Increments it it₁ next (ok true, it₂) open_lem keeps (a, has, follows) rec =
      (inl (a ∙ keeps.3 ∙ open_lem, has), Keeps-Follows it it₁ it₂ keeps follows)
  or_else-Increments it it₁ next (ok false, it₂) open_lem keeps source rec =
      rec it₂ (Keeps-trans ops view dirs fs fuel it it₁ it₂ keeps source) refl

  -- Behind all roots, with no entry.
  abbrev IsOver : Iterator K D → Type 0
  IsOver it = (it.current_entry ≡ none) × (length it.paths ≤ it.current_path_index)

  finish-Increments :
      (it it₁ : Iterator K D)
      → IsOver it
      → Keeps ops view dirs fs fuel it it₁
      → Increments ops view dirs fs fuel it (finish ops view dirs fs fuel it₁)
  unfolding finish
  finish-Increments it it₁ (none_lem, beyond) (p, i, e, a) =
      (inr (refl, e ∙ none_lem, rw (p, i) beyond), (p, inl i))

  last-Increments :
      (it it₁ : Iterator K D)
      → it.at_end ≡ false
      → IsOver it
      → Keeps ops view dirs fs fuel it it₁
      → Increments ops view dirs fs fuel it (fetch_last ops view dirs fs fuel it₁)
  unfolding fetch_last fetch_from_archive
  last-Increments it it₁ open_lem over keeps =
      or_else-Increments it it₁ (finish ops view dirs fs fuel)
        (fetch_active ops view dirs fs fuel false it₁.shared_orchestrator it₁) open_lem keeps
        (active-Source ops view dirs fs fuel it₁ false it₁.shared_orchestrator)
        (λ it₂ keeps₂ e. finish-Increments it it₂ over keeps₂)

  pending-Increments :
      (it it₁ : Iterator K D)
      → it.at_end ≡ false
      → IsOver it
      → Keeps ops view dirs fs fuel it it₁
      → Increments ops view dirs fs fuel it (fetch_pending ops view dirs fs fuel it₁)
  unfolding fetch_pending descend_pending
  pending-Increments it it₁ open_lem over keeps =
      contained-Keeps it it₁ (descend_pending_multi_volumes ops (ensured ops view dirs fs fuel it₁))
        (fetch_last ops view dirs fs fuel) keeps
        (λ it₂ keeps₂. last-Increments it it₂ open_lem over keeps₂)

  abbrev pub is_refused : Increment ops view dirs fs fuel Bool → Bool
  is_refused (ok b, it) = not b
  is_refused (throws e, it) = false

  opened-is_refused :
      (it : Iterator K D) (o : Option (Option D))
      → is_refused (opened_directory ops view dirs fs fuel it o) ≡ false
  unfolding opened_directory
  opened-is_refused it none = refl
  opened-is_refused it (some d) = refl

  open-is_refused :
      (it : Iterator K D) (o : Option Text)
      → is_refused (open_directory ops view dirs fs fuel it o) ≡ false
  unfolding open_directory
  open-is_refused it none = refl
  open-is_refused it (some path) = opened-is_refused it (dirs.open_recursive path)

  -- There is no next root only behind the last one.
  pub refused-none :
      (it : Iterator K D) (o : Option PathHierarchy)
      → is_refused (enter_root ops view dirs fs fuel it o) ≡ true
      → o ≡ none
  unfolding enter_root
  refused-none it none e = refl
  refused-none it (some h) e =
      let refused : true ≡ false = sym e ∙ open-is_refused _ _ in absurd (ground arith)

  -- Behind the last root there is no root at the position.
  beyond-IsOver :
      (it it₁ it₂ : Iterator K D)
      → it.current_entry ≡ none
      → Keeps ops view dirs fs fuel it it₁
      → advance_to_next_root ops view dirs fs fuel it₁ ≡ (ok false, it₂)
      → IsOver it
  unfolding advance_to_next_root
  beyond-IsOver it it₁ it₂ none_lem keeps e = (
    none_lem,
    get_elem?-none it.paths it.current_path_index (
        ap (λ l. get_elem? l it.current_path_index) (sym keeps.0)
        ∙ ap (get_elem? it₁.paths) (sym keeps.1)
        ∙ refused-none it₁ (get_elem? it₁.paths it₁.current_path_index) (ap is_refused e)),
  )

  root-Increments :
      (it it₁ : Iterator K D)
      → it.at_end ≡ false
      → it.current_entry ≡ none
      → Keeps ops view dirs fs fuel it it₁
      → Increments ops view dirs fs fuel it (fetch_root ops view dirs fs fuel it₁)
  unfolding fetch_root advance_to_next_root
  root-Increments it it₁ open_lem none_lem keeps =
      or_else-Increments it it₁ (fetch_pending ops view dirs fs fuel)
        (advance_to_next_root ops view dirs fs fuel it₁) open_lem keeps
        (root-Source ops view dirs fs fuel it₁ (get_elem? it₁.paths it₁.current_path_index) refl)
        (λ it₂ keeps₂ e.
          pending-Increments it it₂ open_lem (beyond-IsOver it it₁ it₂ none_lem keeps e) keeps₂)

  listing-Increments :
      (it it₁ : Iterator K D)
      → it.at_end ≡ false
      → it.current_entry ≡ none
      → Keeps ops view dirs fs fuel it it₁
      → Increments ops view dirs fs fuel it (fetch_listing ops view dirs fs fuel it₁)
  unfolding fetch_listing fetch_from_directory
  listing-Increments it it₁ open_lem none_lem keeps =
      or_else-Increments it it₁ (fetch_root ops view dirs fs fuel)
        (fetch_listed ops view dirs fs fuel it₁.directory it₁) open_lem keeps
        (directory-Source ops view dirs fs fuel it₁ it₁.directory)
        (λ it₂ keeps₂ e. root-Increments it it₂ open_lem none_lem keeps₂)

  -- The sources are asked in their order, and the last one is the end.
  pub next-Increments :
      (it it₁ : Iterator K D) (request : Bool)
      → it.at_end ≡ false
      → it.current_entry ≡ none
      → Keeps ops view dirs fs fuel it it₁
      → Increments ops view dirs fs fuel it (fetch_next ops view dirs fs fuel request it₁)
  unfolding fetch_next fetch_from_archive
  next-Increments it it₁ request open_lem none_lem keeps =
      or_else-Increments it it₁ (fetch_listing ops view dirs fs fuel)
        (fetch_active ops view dirs fs fuel request it₁.shared_orchestrator it₁) open_lem keeps
        (active-Source ops view dirs fs fuel it₁ request it₁.shared_orchestrator)
        (λ it₂ keeps₂ e. listing-Increments it it₂ open_lem none_lem keeps₂)
