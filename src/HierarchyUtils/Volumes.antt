-- ===== src/HierarchyUtils/Volumes.antt =====
-- The volumes of a multi-volume hierarchy (src/path_hierarchy_utils.cc): selecting them, counting
-- them, and putting them together again by the merge.
use archive_r.Base.{
  ℕ, zero, suc, ◌≡◌, refl, ap, ◌∙◌, inl, false, some, List, [], ◌∷◌, ◌++◌, Text, length, get_elem?,
  drop, last?-snoc, get_elem?-drop, drop-suc, append-nil,
}
use archive_r.Hierarchy.{
  PathEntry, single, multi_volume, Parts, PartsOrdering, natural, PathHierarchy,
}
use archive_r.Hierarchy.Slices.{parent_hierarchy-snoc}
use archive_r.HierarchyUtils.{
  pathhierarchy_volume_size, pathhierarchy_volume_entry_name, pathhierarchy_is_multivolume,
  pathhierarchy_select_single_part, merge_multi_volume_sources, name_or_empty,
}
use archive_r.HierarchyUtils.Merge.{volume_paths, merge-volume_paths, is_empty-append}

pub select-snoc :
    (p : PathHierarchy) (e : PathEntry) (i : ℕ)
    → pathhierarchy_select_single_part (p ++ e ∷ []) i
      ≡ p ++ single (pathhierarchy_volume_entry_name (p ++ e ∷ []) i) ∷ []
unfolding pathhierarchy_select_single_part
select-snoc p e i =
    rw (is_empty-append p e [], pathhierarchy_select_single_part)
      (rw (parent_hierarchy-snoc p e) refl)

pub entry_name-multi :
    (p : PathHierarchy) (parts : Parts) (i : ℕ)
    → pathhierarchy_volume_entry_name (p ++ multi_volume parts ∷ []) i
      ≡ name_or_empty (get_elem? parts.values i)
unfolding pathhierarchy_volume_entry_name
entry_name-multi p parts i =
    rw (last?-snoc p (multi_volume parts), pathhierarchy_volume_entry_name) refl

pub volume_size-multi :
    (p : PathHierarchy) (parts : Parts)
    → pathhierarchy_volume_size (p ++ multi_volume parts ∷ []) ≡ length parts.values
unfolding pathhierarchy_volume_size
volume_size-multi p parts = rw (last?-snoc p (multi_volume parts), pathhierarchy_volume_size) refl

pub is_multivolume-snoc_single :
    (p : PathHierarchy) (v : Text) → pathhierarchy_is_multivolume (p ++ single v ∷ []) ≡ false
unfolding pathhierarchy_is_multivolume
is_multivolume-snoc_single p v = rw (last?-snoc p (single v), pathhierarchy_is_multivolume) refl

-- The single-part hierarchies of `count` volumes from index `i` on.
pub selected_from : PathHierarchy → ℕ → ℕ → List PathHierarchy
selected_from h i zero = []
selected_from h i (suc count) = pathhierarchy_select_single_part h i ∷ selected_from h (suc i) count

selected-volume_paths :
    (p : PathHierarchy) (parts : Parts) (i : ℕ) (vs : List Text)
    → drop i parts.values ≡ vs
    → selected_from (p ++ multi_volume parts ∷ []) i (length vs) ≡ volume_paths p [] vs
unfolding selected_from
selected-volume_paths p parts i [] h = refl
selected-volume_paths p parts i (v ∷ vs) h =
    let at : get_elem? parts.values i ≡ some v =
      rw append-nil at (get_elem?-drop parts.values [] i v vs h) in
    let here : pathhierarchy_select_single_part (p ++ multi_volume parts ∷ []) i
        ≡ p ++ single v ∷ [] =
      select-snoc p (multi_volume parts) i
      ∙ ap (λ t. p ++ single t ∷ []) (entry_name-multi p parts i ∙ ap name_or_empty at) in
    rw here (
      ap (◌∷◌ (p ++ single v ∷ []))
        (selected-volume_paths p parts (suc i) vs (drop-suc parts.values i v vs h)))

-- Taking a multi-volume hierarchy apart into its volumes and merging them gives it back, with the
-- ordering `Natural`.
pub merge-selected :
    (p : PathHierarchy) (v : Text) (vs : List Text) (o : PartsOrdering)
    → let h = p ++ multi_volume (record { values = v ∷ vs; ordering = o }) ∷ [] in
      merge_multi_volume_sources (selected_from h 0 (pathhierarchy_volume_size h))
      ≡ some (p ++ multi_volume (record { values = v ∷ vs; ordering = natural }) ∷ [])
merge-selected p v vs o = rw (volume_size-multi p (record { values = v ∷ vs; ordering = o })) (
    rw (selected-volume_paths p (record { values = v ∷ vs; ordering = o }) 0 (v ∷ vs) refl)
      (merge-volume_paths p [] v vs (inl refl)))
