-- ===== src/VolumeManager/Counting.antt =====
-- The number of groups that wait in the map of src/multi_volume_manager.cc.
use archive_r.Base.{ℕ, ◌+◌, ◌<◌, ◌≡◌, ap, ◌⊎◌, inl, inr, Option, none, some, [], ◌∷◌, arith, length}
use archive_r.Hierarchy.{PathHierarchy}
use archive_r.VolumeManager.{
  MultiVolumeGroup, GroupList, ParentGroupMap, find_groups, change_groups, erase_groups, Popped,
  no_group, merged_group, pop_multi_volume_group,
}
use archive_r.VolumeManager.Queues.{find-Found, pop_group_none, pop_group_last, pop_group_more}

unfoldable pub count_groups : ParentGroupMap → ℕ
count_groups [] = 0
count_groups ((key, groups) ∷ entries) = length groups + count_groups entries

count-erase :
    (key : PathHierarchy) (m : ParentGroupMap) (gs : GroupList)
    → find_groups key m ≡ some gs
    → count_groups (erase_groups key m) + length gs ≡ count_groups m
unfolding erase_groups find_groups count_groups
count-erase key [] gs e = absurd (ground arith)
count-erase key ((k, groups) ∷ m) gs e = ground (arith, count-erase key m gs)

count-change :
    (key : PathHierarchy) (m : ParentGroupMap) (gs later : GroupList)
    → find_groups key m ≡ some gs
    → count_groups (change_groups key (λ _. later) m) + length gs ≡ count_groups m + length later
unfolding change_groups find_groups count_groups
count-change key [] gs later e = absurd (ground arith)
count-change key ((k, groups) ∷ m) gs later e = ground (arith, count-change key m gs later)

abbrev popped_of : Option MultiVolumeGroup × ParentGroupMap → Popped
popped_of (found, rest) = elim found [ none ↦ no_group | some group ↦ merged_group group ]

-- A pop takes a group away, or there is none and the map stays.
pub pop-count :
    (key : PathHierarchy) (m : ParentGroupMap)
    → (count_groups (pop_multi_volume_group key m).1 < count_groups m)
      ⊎ (((pop_multi_volume_group key m).0 ≡ no_group) × ((pop_multi_volume_group key m).1 ≡ m))
unfolding pop_multi_volume_group
pop-count key m = elim (find-Found (find_groups key m)) [
  | inl e ↦ inr (ap popped_of (pop_group_none key m e), ap (λ r. r.1) (pop_group_none key m e))
  | inr (inl (g, e)) ↦
      inl (rw (pop_group_last key m g e) (omega (arith, count-erase key m (g ∷ []) e)))
  | inr (inr (g, h, gs, e)) ↦ inl (
      rw (pop_group_more key m g h gs e)
        (omega (arith, count-change key m (g ∷ h ∷ gs) (h ∷ gs) e)))
]
