-- ===== src/VolumeManager/Keys.antt =====
-- The keys of the group map: `PathHierarchyLess` tells them apart exactly by equality.
use archive_r.Base.{◌≡◌, refl, true, false, arith, ◌⊎◌, inl, inr, ◌≢◌, Bool-cases}
use archive_r.Hierarchy.{PathHierarchy}
use archive_r.Hierarchy.Order.{hierarchy_less_total, hierarchy_less_irrefl}
use archive_r.VolumeManager.{same_key}

pub same_key→eq : (a b : PathHierarchy) → same_key a b ≡ true → a ≡ b
unfolding same_key
same_key→eq a b h = ground (arith, hierarchy_less_total a b)

pub same_key_refl : (a : PathHierarchy) → same_key a a ≡ true
unfolding same_key
same_key_refl a = rw (hierarchy_less_irrefl a) refl

-- Two keys are equal or different, and the test says which.
pub same_key-cases :
    (a b : PathHierarchy) → ((a ≡ b) × (same_key a b ≡ true)) ⊎ ((a ≢ b) × (same_key a b ≡ false))
same_key-cases a b = elim (Bool-cases (same_key a b)) [
  | inl e ↦ inl (same_key→eq a b e, e)
  | inr e ↦ inr ((λ p. let t : same_key a b ≡ true = rw p (same_key_refl b) in cc), e)
]
