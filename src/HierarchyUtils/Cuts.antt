-- ===== src/HierarchyUtils/Cuts.antt =====
-- Where `determine_multi_volume_segments` of src/path_hierarchy_utils.cc cuts the sources.
use mathlib.Core.Option.{some_inj}
use archive_r.Base.{
  ℕ, zero, suc, ◌+◌, ◌-◌, ◌≤◌, ◌<◌, ◌≡◌, refl, sym, ap, ◌∙◌, ◌⊎◌, inl, inr, true, Option, none,
  some, List, [], ◌∷◌, ◌++◌, ltb, length, get_elem?, take, drop, All, arith, get_elem?-drop,
  length-drop, drop-suc, take-suc, take-take, Bool-cases, Option-cases, append-nil,
}
use archive_r.Hierarchy.{PathEntry, PathHierarchy}
use archive_r.Hierarchy.Order.{entries_equal→eq}
use archive_r.Hierarchy.Slices.{prefix_until-eq-take}
use archive_r.HierarchyUtils.{
  CollapseSegments, DepthScan, missing, differs, agrees, scan_candidates, DepthSearch, too_short,
  found, uniform, scan_depths, all_have_size, segments_at, determine_multi_volume_segments,
}

scan_candidates_agrees :
    (e : PathEntry) (d : ℕ) (cs : List PathHierarchy)
    → scan_candidates e d cs ≡ agrees
    → All (λ c. get_elem? c d ≡ some e) cs
unfolding scan_candidates
scan_candidates_agrees e d [] h = tt
scan_candidates_agrees e d (c ∷ cs) h = ground (
  arith,
  entries_equal→eq e (some_or e (get_elem? c d)),
  Option-cases (get_elem? c d),
  scan_candidates_agrees e d cs,
)
  where
    some_or : PathEntry → Option PathEntry → PathEntry
    some_or x none = x
    some_or x (some y) = y

abbrev pub SamePrefix : ℕ → PathHierarchy → List PathHierarchy → Type 0
SamePrefix d r cs = All (λ c. take d c ≡ take d r) cs

SamePrefix-suc :
    (d : ℕ) (r : PathHierarchy) (e : PathEntry) (cs : List PathHierarchy)
    → get_elem? r d ≡ some e
    → All (λ c. get_elem? c d ≡ some e) cs
    → SamePrefix d r cs
    → SamePrefix (suc d) r cs
SamePrefix-suc d r e [] h at same = tt
SamePrefix-suc d r e (c ∷ cs) h at same = (
  (take-suc c d e at.0 ∙ ap (λ t. t ++ e ∷ []) same.0 ∙ sym (take-suc r d e h)),
  SamePrefix-suc d r e cs h at.1 same.1,
)

SamePrefix-le :
    (j k : ℕ) (r : PathHierarchy) (cs : List PathHierarchy)
    → j ≤ k
    → SamePrefix k r cs
    → SamePrefix j r cs
SamePrefix-le j k r [] h same = tt
SamePrefix-le j k r (c ∷ cs) h same = (
  (sym (take-take j k c h) ∙ ap (take j) same.0 ∙ take-take j k r h),
  SamePrefix-le j k r cs h same.1,
)

DepthScan-cases : (x : DepthScan) → (x ≡ missing) ⊎ ((x ≡ differs) ⊎ (x ≡ agrees))
DepthScan-cases missing = inl refl
DepthScan-cases differs = inr (inl refl)
DepthScan-cases agrees = inr (inr refl)

-- Where the search over the depths ends, all sources agree above that depth.
abbrev SearchEnds : PathHierarchy → List PathHierarchy → DepthSearch → Type 0
SearchEnds r cs too_short = Unit
SearchEnds r cs (found k) = (k < length r) × SamePrefix k r cs
SearchEnds r cs uniform = SamePrefix (length r) r cs

scan_depths-SearchEnds :
    (es : PathHierarchy) (d : ℕ) (r : PathHierarchy) (cs : List PathHierarchy)
    → drop d r ≡ es
    → d ≤ length r
    → SamePrefix d r cs
    → SearchEnds r cs (scan_depths es d cs)
unfolding scan_depths
scan_depths-SearchEnds [] d r cs h le same =
    let size : length r ≡ d = omega (arith, length-drop d r, ap length h) in rw size same
scan_depths-SearchEnds (e ∷ es) d r cs h le same =
    let at : get_elem? r d ≡ some e = rw append-nil at (get_elem?-drop r [] d e es h) in
    let within : suc d ≤ length r = omega (arith, length-drop d r, ap length h) in
    elim (DepthScan-cases (scan_candidates e d cs)) [
      | inl p ↦ rw (p, scan_depths) tt
      | inr (inl p) ↦ rw (p, scan_depths) (within, same)
      | inr (inr p) ↦
          let next : d + 1 ≡ suc d = omega arith in
          rw (p, scan_depths)
            (rw next (
              scan_depths-SearchEnds es (suc d) r cs (drop-suc r d e es h) within
                (SamePrefix-suc d r e cs at (scan_candidates_agrees e d cs p) same)))
    ]

-- The segments are cut from the reference where all sources agree above the cut.
pub record IsCut (r : PathHierarchy) (cs : List PathHierarchy) (g : CollapseSegments) : Type 0 where
  pub within : g.multi_volume_depth < length r
  pub prefix_lem : g.prefix ≡ take g.multi_volume_depth r
  pub agree : SamePrefix g.multi_volume_depth r cs

segments_at-IsCut :
    (r : PathHierarchy) (cs : List PathHierarchy) (d : ℕ)
    → d < length r
    → SamePrefix d r cs
    → IsCut r cs (segments_at r d)
unfolding segments_at
segments_at-IsCut r cs zero h same = record { within = h; prefix_lem = refl; agree = same }
segments_at-IsCut r cs (suc d) h same = record {
  within = h;
  prefix_lem =
      let positive : ltb 0 (suc d) ≡ true = ground arith in
      let k : suc d - 1 ≡ d = omega arith in
      let n : d + 1 ≡ suc d = omega arith in
      rw (positive, k) (prefix_until-eq-take r d (omega arith) ∙ ap (λ m. take m r) n);
  agree = same;
}

pub determine-IsCut :
    (r : PathHierarchy) (cs : List PathHierarchy) (g : CollapseSegments)
    → determine_multi_volume_segments (r ∷ cs) ≡ some g
    → IsCut r cs g
unfolding determine_multi_volume_segments
determine-IsCut [] cs g h = cc
determine-IsCut (e ∷ es) cs g h =
    go (scan_depths (e ∷ es) 0 cs) refl
      (scan_depths-SearchEnds (e ∷ es) 0 (e ∷ es) cs refl (omega arith) (nothing cs))
  where
    r : PathHierarchy
    r = e ∷ es

    nothing : (l : List PathHierarchy) → SamePrefix 0 (e ∷ es) l
    nothing [] = tt
    nothing (c ∷ l) = (refl, nothing l)

    go :
        (x : DepthSearch)
        → scan_depths (e ∷ es) 0 cs ≡ x
        → SearchEnds (e ∷ es) cs (scan_depths (e ∷ es) 0 cs)
        → IsCut (e ∷ es) cs g
    go too_short p ends = cc (rw (p, determine_multi_volume_segments) at h)
    go (found d) p ends =
        let (within, same) = rw p at ends in
        let e : segments_at r d ≡ g = some_inj.0 (rw (p, determine_multi_volume_segments) at h) in
        rw (← e) (segments_at-IsCut r cs d within same)
    go uniform p ends = elim (Bool-cases (all_have_size (length r) cs)) [
      | inl sizes ↦
          let e : segments_at r (length r - 1) ≡ g =
            some_inj.0 (rw (p, sizes, determine_multi_volume_segments) at h) in
          rw (← e) (
            segments_at-IsCut r cs (length r - 1) (omega arith)
              (SamePrefix-le (length r - 1) (length r) r cs (omega arith) (rw p at ends)))
      | inr sizes ↦ cc (rw (p, sizes, determine_multi_volume_segments) at h)
    ]
