-- ===== src/HierarchyUtils/Collapse.antt =====
-- What a result of `merge_multi_volume_sources` (src/path_hierarchy_utils.cc) says of its sources.
use archive_r.HierarchyUtils.Cuts.{IsCut, determine-IsCut}
use mathlib.Core.Path.{ap₂, subst}
use archive_r.Base.{
  ℕ, suc, ◌+◌, ◌≡◌, refl, sym, ◌∙◌, ◌⊎◌, inl, inr, true, Option, some, List, [], ◌∷◌, ◌++◌, Text,
  length, get_elem?, take, drop, All, arith, rebuild, Bool-cases, Option-cases, drop-get_elem?,
  drop-length,
}
use archive_r.Hierarchy.{
  single, multi_volume, natural, PathHierarchy, make_multi_volume, entries_equal,
}
use archive_r.Hierarchy.Order.{entries_equal→eq}
use archive_r.HierarchyUtils.{
  CollapseSegments, determine_multi_volume_segments, suffix_matches, collect_part,
  collect_multi_volume_parts, merge_multi_volume_sources,
}
use archive_r.HierarchyUtils.Merge.{volume_paths}

suffix_matches-drop_eq :
    (t h : PathHierarchy) (d : ℕ)
    → suffix_matches t h d ≡ true
    → length h ≡ d + length t
    → drop d h ≡ t
unfolding suffix_matches
suffix_matches-drop_eq [] h d m size = drop-length h d (omega arith)
suffix_matches-drop_eq (x ∷ t) h d m size = elim (Option-cases (get_elem? h d)) [
  | inl n ↦ cc (rw (n, suffix_matches) at m)
  | inr (y, at) ↦ elim (Bool-cases (entries_equal x y)) [
    | inl e ↦
        let next : suffix_matches t h (d + 1) ≡ true = rw (at, e, suffix_matches) at m in
        let k : d + 1 ≡ suc d = omega arith in
        let eq : x ≡ y = entries_equal→eq x y e in
        drop-get_elem? h d y at
        ∙ ap₂ ◌∷◌ (sym eq) (suffix_matches-drop_eq t h (suc d) (rw k at next) (omega arith))
    | inr e ↦ cc (rw (at, e, suffix_matches) at m)
  ]
]

collect_part_shape :
    (g : CollapseSegments) (h : PathHierarchy) (v : Text)
    → collect_part g h ≡ some v
    → (get_elem? h g.multi_volume_depth ≡ some (single v))
      × (drop (suc g.multi_volume_depth) h ≡ g.suffix)
unfolding collect_part
collect_part_shape g h v e =
    ground (arith, suffix_matches-drop_eq g.suffix h (suc g.multi_volume_depth))

collect_shape :
    (g : CollapseSegments) (p : PathHierarchy) (cs : List PathHierarchy) (vs : List Text)
    → collect_multi_volume_parts g cs ≡ some vs
    → All (λ c. take g.multi_volume_depth c ≡ p) cs
    → cs ≡ volume_paths p g.suffix vs
unfolding collect_multi_volume_parts
collect_shape g p [] vs e same = ground arith
collect_shape g p (c ∷ cs) [] e same = ground arith
collect_shape g p (c ∷ cs) (v ∷ vs) e same =
    let (part, others) = parts in
    let (at, rest) = collect_part_shape g c v part in
    ap₂ ◌∷◌
      (rebuild c g.multi_volume_depth (single v) at ∙ ap₂ (λ a b. a ++ single v ∷ b) same.0 rest)
      (collect_shape g p cs vs others same.1)
  where
    parts : (collect_part g c ≡ some v) × (collect_multi_volume_parts g cs ≡ some vs)
    parts = ground arith

abbrev pub Shape : List PathHierarchy → Option PathHierarchy → Type 0
Shape sources result =
    (p s : PathHierarchy) × (v : Text) × (vs : List Text) × (sources ≡ volume_paths p s (v ∷ vs))
    × (result ≡ some (p ++ multi_volume (record { values = v ∷ vs; ordering = natural }) ∷ s))

collected_Shape :
    (r : PathHierarchy) (cs : List PathHierarchy) (g : CollapseSegments) (vs : List Text)
    → determine_multi_volume_segments (r ∷ cs) ≡ some g
    → collect_multi_volume_parts g (r ∷ cs) ≡ some vs
    → Shape (r ∷ cs) (merge_multi_volume_sources (r ∷ cs))
unfolding merge_multi_volume_sources make_multi_volume
collected_Shape r cs g vs cut parts = go vs parts (collect_shape g g.prefix (r ∷ cs) vs parts all)
  where
    is_cut : IsCut r cs g
    is_cut = determine-IsCut r cs g cut

    all : All (λ c. take g.multi_volume_depth c ≡ g.prefix) (r ∷ cs)
    all =
        subst (λ q. All (λ c. take g.multi_volume_depth c ≡ q) (r ∷ cs)) (sym is_cut.prefix_lem)
          (refl, is_cut.agree)

    go :
        (us : List Text)
        → collect_multi_volume_parts g (r ∷ cs) ≡ some us
        → r ∷ cs ≡ volume_paths g.prefix g.suffix us
        → Shape (r ∷ cs) (merge_multi_volume_sources (r ∷ cs))
    go [] e shape = cc
    go (u ∷ us) e shape = (
      g.prefix,
      g.suffix,
      u,
      us,
      shape,
      rw (cut, merge_multi_volume_sources) (rw (e, merge_multi_volume_sources) refl),
    )

-- The merge never throws. Its result is empty, or its sources are the paths that agree in all but
-- one component, each with one volume there, and the result has all these volumes, in order.
pub merge-Shape :
    (sources : List PathHierarchy)
    → (merge_multi_volume_sources sources ≡ some [])
      ⊎ Shape sources (merge_multi_volume_sources sources)
unfolding merge_multi_volume_sources
merge-Shape [] = inl none_determined
  where
    none_determined : merge_multi_volume_sources [] ≡ some []
    none_determined = unfold determine_multi_volume_segments in refl
merge-Shape (r ∷ cs) = elim (Option-cases (determine_multi_volume_segments (r ∷ cs))) [
  | inl e ↦ inl (rw (e, merge_multi_volume_sources) refl)
  | inr (g, e) ↦ elim (Option-cases (collect_multi_volume_parts g (r ∷ cs))) [
    | inl f ↦ inl (rw (e, merge_multi_volume_sources) (rw (f, merge_multi_volume_sources) refl))
    | inr (vs, f) ↦ inr (collected_Shape r cs g vs e f)
  ]
]
