-- ===== src/Hierarchy/Slices.antt =====
-- Prefixes and parents of src/path_hierarchy.cc against `take` and `++`.
use archive_r.Base.{
  ℕ, suc, ◌+◌, ◌-◌, ◌<◌, ◌≡◌, refl, ◌∙◌, false, [], ◌∷◌, ◌++◌, leb, length, take, arith,
  length-append, take-append,
}
use archive_r.Hierarchy.{PathEntry, PathHierarchy, pathhierarchy_prefix_until, parent_hierarchy}

pub prefix_until-eq-take :
    (h : PathHierarchy) (i : ℕ) → i < length h → pathhierarchy_prefix_until h i ≡ take (i + 1) h
unfolding pathhierarchy_prefix_until
prefix_until-eq-take [] i lt = absurd (omega arith)
prefix_until-eq-take (x ∷ h) i lt = ground arith

-- The prefix up to the last index of `p` is `p`.
pub prefix_until-append :
    (p s : PathHierarchy) (i : ℕ) → suc i ≡ length p → pathhierarchy_prefix_until (p ++ s) i ≡ p
prefix_until-append p s i e =
    let within : i < length (p ++ s) = omega (arith, length-append p s) in
    prefix_until-eq-take (p ++ s) i within
    ∙ (let last : i + 1 ≡ length p = omega arith in rw last (take-append p s))

pub parent_hierarchy-snoc : (h : PathHierarchy) (e : PathEntry) → parent_hierarchy (h ++ e ∷ []) ≡ h
unfolding parent_hierarchy
parent_hierarchy-snoc [] e = refl
parent_hierarchy-snoc (x ∷ h) e =
    let size : length ((x ∷ h) ++ e ∷ []) ≡ suc (suc (length h)) =
      omega (arith, length-append (x ∷ h) (e ∷ [])) in
    let long : leb (length ((x ∷ h) ++ e ∷ [])) 1 ≡ false = ground arith in
    rw long (prefix_until-append (x ∷ h) (e ∷ []) (length ((x ∷ h) ++ e ∷ []) - 2) (omega arith))
