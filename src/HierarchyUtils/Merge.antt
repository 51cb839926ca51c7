-- ===== src/HierarchyUtils/Merge.antt =====
-- `merge_multi_volume_sources` of src/path_hierarchy_utils.cc collapses exactly the source lists
-- that differ in one component.
use archive_r.Base.{
  ℕ, zero, suc, ◌+◌, ◌-◌, ◌≡◌, refl, ap, ◌∙◌, ◌⊎◌, inl, inr, true, false, some, List, [], ◌∷◌, ◌++◌,
  map, append-nil, Text, ltb, if◌then◌else◌, length, get_elem?, drop, All, arith, length-append,
  get_elem?-drop, drop-suc, drop_past-append, drop_beyond, get_elem?-append, Bool-cases, ==_refl,
}
use archive_r.Hierarchy.{
  PathEntry, single, multi_volume, natural, PathHierarchy, is_empty, make_multi_volume,
  pathhierarchy_prefix_until, entries_equal,
}
use archive_r.Hierarchy.Order.{entries_equal→eq, entries_equal_refl}
use archive_r.Hierarchy.Slices.{prefix_until-append}
use archive_r.HierarchyUtils.{
  hierarchy_suffix_from, differs, agrees, scan_candidates, found, uniform, scan_depths,
  all_have_size, segments_at, determine_multi_volume_segments, suffix_matches, collect_part,
  collect_multi_volume_parts, merge_multi_volume_sources,
}

-- The paths that differ in one component only: `v` runs over the volumes.
abbrev pub volume_paths : PathHierarchy → PathHierarchy → List Text → List PathHierarchy
volume_paths p s vs = map (λ v. p ++ single v ∷ s) vs

-- The component that the volumes differ in can be told: it is the last one, or two volumes differ.
abbrev pub CanCollapse : PathHierarchy → Text → List Text → Type 0
CanCollapse s v vs = (s ≡ []) ⊎ (¬ All (λ u. u ≡ v) vs)

pub suffix_from_lem :
    (h : PathHierarchy) (i : ℕ) (t : PathHierarchy) → drop i h ≡ t → hierarchy_suffix_from h i ≡ t
unfolding hierarchy_suffix_from
suffix_from_lem [] zero t e = e
suffix_from_lem [] (suc i) t e = e
suffix_from_lem (x ∷ h) i t e = ground (arith, drop_beyond (x ∷ h) i)

pub is_empty-append :
    (p : PathHierarchy) (e : PathEntry) (s : PathHierarchy) → is_empty (p ++ e ∷ s) ≡ false
is_empty-append [] e s = refl
is_empty-append (x ∷ p) e s = refl

module _ (p s : PathHierarchy) where
  scan_candidates-prefix :
      (d : ℕ) (e : PathEntry) (es : PathHierarchy) (vs : List Text)
      → drop d p ≡ e ∷ es
      → scan_candidates e d (volume_paths p s vs) ≡ agrees
  unfolding scan_candidates
  scan_candidates-prefix d e es [] h = refl
  scan_candidates-prefix d e es (v ∷ vs) h =
      rw (get_elem?-drop p (single v ∷ s) d e es h, scan_candidates, entries_equal_refl e)
        (scan_candidates-prefix d e es vs h)

  scan_depths-prefix :
      (es r : PathHierarchy) (d : ℕ) (vs : List Text)
      → drop d p ≡ es
      → scan_depths (es ++ r) d (volume_paths p s vs)
        ≡ scan_depths r (d + length es) (volume_paths p s vs)
  unfolding scan_depths
  scan_depths-prefix [] r d vs h = ap (λ k. scan_depths r k (volume_paths p s vs)) (omega arith)
  scan_depths-prefix (e ∷ es) r d vs h =
      rw (scan_candidates-prefix d e es vs h, scan_depths)
        (ap (λ k. scan_depths (es ++ r) k (volume_paths p s vs)) (omega arith)
          ∙ scan_depths-prefix es r (suc d) vs (drop-suc p d e es h)
          ∙ ap (λ k. scan_depths r k (volume_paths p s vs)) (omega arith))

  scan_candidates-volumes :
      (v : Text) (vs : List Text)
      → (All (λ u. u ≡ v) vs
          × (scan_candidates (single v) (length p) (volume_paths p s vs) ≡ agrees))
        ⊎ ((¬ All (λ u. u ≡ v) vs)
            × (scan_candidates (single v) (length p) (volume_paths p s vs) ≡ differs))
  unfolding scan_candidates
  scan_candidates-volumes v [] = inl (tt, refl)
  scan_candidates-volumes v (u ∷ us) = elim (Bool-cases (entries_equal (single v) (single u))) [
    | inl e ↦
        let eq : u ≡ v = ground (arith, entries_equal→eq (single v) (single u) e) in
        rw (get_elem?-append p s (single u), scan_candidates, e)
          (elim (scan_candidates-volumes v us) [
            | inl (a, r) ↦ inl ((eq, a), r)
            | inr (n, r) ↦ inr ((λ all. n all.1), r)
          ])
    | inr e ↦
        rw (get_elem?-append p s (single u), scan_candidates, e)
          (inr (
            (λ all.
                let t : entries_equal (single v) (single u) ≡ true =
                  rw all.0 (entries_equal_refl (single v)) in
                cc),
            refl,
          ))
  ]

  all_have_size-volumes :
      (v : Text) (vs : List Text)
      → all_have_size (length (p ++ single v ∷ s)) (volume_paths p s vs) ≡ true
  unfolding all_have_size
  all_have_size-volumes v [] = refl
  all_have_size-volumes v (u ∷ us) =
      let e : length (p ++ single u ∷ s) ≡ length (p ++ single v ∷ s) =
        omega (arith, length-append p (single u ∷ s), length-append p (single v ∷ s)) in
      rw (e, ==_refl (length (p ++ single v ∷ s))) (all_have_size-volumes v us)

  suffix_matches-drop : (t h : PathHierarchy) (d : ℕ) → drop d h ≡ t → suffix_matches t h d ≡ true
  unfolding suffix_matches
  suffix_matches-drop [] h d e = refl
  suffix_matches-drop (x ∷ t) h d e =
      let at : get_elem? h d ≡ some x = rw append-nil at (get_elem?-drop h [] d x t e) in
      rw (at, suffix_matches, entries_equal_refl x)
        (suffix_matches-drop t h (d + 1)
          (let k : d + 1 ≡ suc d = omega arith in rw k (drop-suc h d x t e)))

  segments-volumes :
      (v : Text)
      → segments_at (p ++ single v ∷ s) (length p)
        ≡ record { prefix = p; suffix = s; multi_volume_depth = length p }
  unfolding segments_at
  segments-volumes v = λ i. record {
    prefix = prefix_part p i;
    suffix =
        suffix_from_lem (p ++ single v ∷ s) (length p + 1) s (drop_past-append p s (single v)) i;
    multi_volume_depth = length p;
  }
    where
      prefix_part :
          (q : PathHierarchy)
          → (if ltb 0 (length q)
              then pathhierarchy_prefix_until (q ++ single v ∷ s) (length q - 1)
              else [])
            ≡ q
      prefix_part [] = refl
      prefix_part (x ∷ q) =
          let positive : ltb 0 (length (x ∷ q)) ≡ true = ground arith in
          rw positive
            (prefix_until-append (x ∷ q) (single v ∷ s) (length (x ∷ q) - 1) (omega arith))

  collect_part-volumes :
      (v : Text)
      → collect_part
          (record { prefix = p; suffix = s; multi_volume_depth = length p })
          (p ++ single v ∷ s)
        ≡ some v
  unfolding collect_part
  collect_part-volumes v = ground (
    arith,
    is_empty-append p (single v) s,
    length-append p (single v ∷ s),
    get_elem?-append p s (single v),
    suffix_matches-drop s (p ++ single v ∷ s) (length p + 1) (drop_past-append p s (single v)),
  )

  collect-volumes :
      (vs : List Text)
      → collect_multi_volume_parts
          (record { prefix = p; suffix = s; multi_volume_depth = length p })
          (volume_paths p s vs)
        ≡ some vs
  unfolding collect_multi_volume_parts
  collect-volumes [] = refl
  collect-volumes (v ∷ vs) =
      rw (collect_part-volumes v, collect_multi_volume_parts, collect-volumes vs) refl

  reach-volumes :
      (v : Text) (vs : List Text)
      → scan_depths (p ++ single v ∷ s) 0 (volume_paths p s vs)
        ≡ scan_depths (single v ∷ s) (length p) (volume_paths p s vs)
  reach-volumes v vs =
      scan_depths-prefix p (single v ∷ s) 0 vs refl
      ∙ ap (λ k. scan_depths (single v ∷ s) k (volume_paths p s vs)) (omega arith)

  scan_depths-volumes :
      (v : Text) (vs : List Text)
      → CanCollapse s v vs
      → (scan_depths (single v ∷ s) (length p) (volume_paths p s vs) ≡ found (length p))
        ⊎ ((scan_depths (single v ∷ s) (length p) (volume_paths p s vs) ≡ uniform)
            × (length (p ++ single v ∷ s) - 1 ≡ length p))
  unfolding scan_depths
  scan_depths-volumes v vs (inl last) = elim (scan_candidates-volumes v vs) [
    | inl (all, e) ↦ inr (
      (rw (e, scan_depths) (rw last refl)),
      omega (arith, length-append p (single v ∷ s), ap length last),
    )
    | inr (differ, e) ↦ inl (rw (e, scan_depths) refl)
  ]
  scan_depths-volumes v vs (inr differ) = elim (scan_candidates-volumes v vs) [
    | inl (all, e) ↦ absurd (differ all)
    | inr (_, e) ↦ inl (rw (e, scan_depths) refl)
  ]

  determine-volumes :
      (v : Text) (vs : List Text)
      → CanCollapse s v vs
      → determine_multi_volume_segments (volume_paths p s (v ∷ vs))
        ≡ some (record { prefix = p; suffix = s; multi_volume_depth = length p })
  unfolding determine_multi_volume_segments
  determine-volumes v vs can =
      rw (is_empty-append p (single v) s, determine_multi_volume_segments)
        (rw (reach-volumes v vs, determine_multi_volume_segments)
          (elim (scan_depths-volumes v vs can) [
            | inl e ↦ rw (e, determine_multi_volume_segments) (ap some (segments-volumes v))
            | inr (e, size) ↦
                rw (e, determine_multi_volume_segments)
                  (rw (all_have_size-volumes v vs, size) (ap some (segments-volumes v)))
          ]))

  -- Source paths that agree in all but one component, and of which some differ in it if it is not
  -- the last one, merge into the path that has all their volumes there, in order.
  pub merge-volume_paths :
      (v : Text) (vs : List Text)
      → CanCollapse s v vs
      → merge_multi_volume_sources (volume_paths p s (v ∷ vs))
        ≡ some (p ++ multi_volume (record { values = v ∷ vs; ordering = natural }) ∷ s)
  unfolding merge_multi_volume_sources make_multi_volume
  merge-volume_paths v vs can =
      rw (determine-volumes v vs can, merge_multi_volume_sources)
        (rw (collect-volumes (v ∷ vs), merge_multi_volume_sources) refl)
