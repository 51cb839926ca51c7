-- ===== src/VolumeManager/Queues.antt =====
-- The group map of src/multi_volume_manager.cc seen as one queue of groups for each parent.
use archive_r.Base.{
  ◌≡◌, refl, ◌∙◌, ◌⊎◌, inl, inr, false, Option, none, some, [], ◌∷◌, ◌++◌, Text, if◌then◌else◌,
  arith, Bool-cases,
}
use archive_r.Hierarchy.{PathHierarchy, PartsOrdering, single}
use archive_r.Hierarchy.Slices.{parent_hierarchy-snoc}
use archive_r.HierarchyUtils.Merge.{is_empty-append}
use archive_r.HierarchyUtils.Volumes.{is_multivolume-snoc_single}
use archive_r.VolumeManager.{
  MultiVolumeGroup, GroupList, ParentGroupMap, same_key, find_groups, change_groups, erase_groups,
  enlist, add_part, mark_entry_as_multi_volume, pop_group_for_parent, pop_multi_volume_group,
}
use archive_r.VolumeManager.Keys.{same_key→eq, same_key_refl}

abbrev pub groups_or_empty : Option GroupList → GroupList
groups_or_empty none = []
groups_or_empty (some groups) = groups

-- The groups that wait below a parent, first come first.
unfoldable pub pending : PathHierarchy → ParentGroupMap → GroupList
pending key groups = groups_or_empty (find_groups key groups)

-- No key stands in the map twice.
abbrev pub KeysDistinct : ParentGroupMap → Type 0
KeysDistinct [] = Unit
KeysDistinct ((k, groups) ∷ entries) = (find_groups k entries ≡ none) × KeysDistinct entries

pub pending-change :
    (key other : PathHierarchy) (change : GroupList → GroupList) (m : ParentGroupMap)
    → pending other (change_groups key change m)
      ≡ (if same_key key other then change (pending key m) else pending other m)
unfolding pending change_groups find_groups
pending-change key other change [] = ground arith
pending-change key other change ((k, gs) ∷ m) = ground (
  arith,
  pending-change key other change m,
  same_key→eq k key,
  same_key→eq k other,
  same_key→eq key other,
  same_key_refl k,
)

find_groups-change :
    (key other : PathHierarchy) (change : GroupList → GroupList) (m : ParentGroupMap)
    → same_key key other ≡ false
    → find_groups other (change_groups key change m) ≡ find_groups other m
unfolding change_groups find_groups
find_groups-change key other change [] h = ground arith
find_groups-change key other change ((k, gs) ∷ m) h =
    ground (arith, find_groups-change key other change m, same_key→eq k key)

find_groups-erase_ne :
    (key other : PathHierarchy) (m : ParentGroupMap)
    → same_key key other ≡ false
    → find_groups other (erase_groups key m) ≡ find_groups other m
unfolding erase_groups find_groups
find_groups-erase_ne key other [] h = refl
find_groups-erase_ne key other ((k, gs) ∷ m) h =
    ground (arith, find_groups-erase_ne key other m, same_key→eq k key)

find_groups-erase :
    (key : PathHierarchy) (m : ParentGroupMap)
    → KeysDistinct m
    → find_groups key (erase_groups key m) ≡ none
unfolding erase_groups find_groups
find_groups-erase key [] d = refl
find_groups-erase key ((k, gs) ∷ m) d =
    ground (arith, find_groups-erase key m d.1, same_key→eq k key)

pub change-KeysDistinct :
    (key : PathHierarchy) (change : GroupList → GroupList) (m : ParentGroupMap)
    → KeysDistinct m
    → KeysDistinct (change_groups key change m)
unfolding change_groups
change-KeysDistinct key change [] d = (unfold find_groups in refl, tt)
change-KeysDistinct key change ((k, gs) ∷ m) d = elim (Bool-cases (same_key k key)) [
  | inl e ↦ rw (e, change_groups) d
  | inr e ↦
      let e' : same_key key k ≡ false = ground (arith, same_key→eq key k, same_key_refl k) in
      rw (e, change_groups)
        (find_groups-change key k change m e' ∙ d.0, change-KeysDistinct key change m d.1)
]

find_groups-erase_none :
    (key other : PathHierarchy) (m : ParentGroupMap)
    → find_groups other m ≡ none
    → find_groups other (erase_groups key m) ≡ none
unfolding erase_groups find_groups
find_groups-erase_none key other [] h = refl
find_groups-erase_none key other ((k, gs) ∷ m) h =
    ground (arith, find_groups-erase_none key other m)

pub erase-KeysDistinct :
    (key : PathHierarchy) (m : ParentGroupMap) → KeysDistinct m → KeysDistinct (erase_groups key m)
unfolding erase_groups
erase-KeysDistinct key [] d = tt
erase-KeysDistinct key ((k, gs) ∷ m) d = elim (Bool-cases (same_key k key)) [
  | inl e ↦ rw (e, erase_groups) d.1
  | inr e ↦ rw (e, erase_groups) (find_groups-erase_none key k m d.0, erase-KeysDistinct key m d.1)
]

abbrev pub first_group : GroupList → Option MultiVolumeGroup
first_group [] = none
first_group (g ∷ gs) = some g

abbrev pub later_groups : GroupList → GroupList
later_groups [] = []
later_groups (g ∷ gs) = gs

pub pop_group-first :
    (key : PathHierarchy) (m : ParentGroupMap)
    → (pop_group_for_parent key m).0 ≡ first_group (pending key m)
unfolding pop_group_for_parent pending
pop_group-first key m = ground arith

-- What the search for a parent can find.
abbrev pub Found : Option GroupList → Type 0
Found o =
    (groups_or_empty o ≡ [])
    ⊎ (((g : MultiVolumeGroup) × (o ≡ some (g ∷ [])))
        ⊎ ((g h : MultiVolumeGroup) × (gs : GroupList) × (o ≡ some (g ∷ h ∷ gs))))

pub find-Found : (o : Option GroupList) → Found o
find-Found none = inl refl
find-Found (some []) = inl refl
find-Found (some (g ∷ [])) = inr (inl (g, refl))
find-Found (some (g ∷ h ∷ gs)) = inr (inr (g, h, gs, refl))

pub pop_group_none :
    (key : PathHierarchy) (m : ParentGroupMap)
    → groups_or_empty (find_groups key m) ≡ []
    → pop_group_for_parent key m ≡ (none, m)
unfolding pop_group_for_parent
pop_group_none key m h = ground arith

pub pop_group_last :
    (key : PathHierarchy) (m : ParentGroupMap) (g : MultiVolumeGroup)
    → find_groups key m ≡ some (g ∷ [])
    → pop_group_for_parent key m ≡ (some g, erase_groups key m)
unfolding pop_group_for_parent
pop_group_last key m g h = rw (h, pop_group_for_parent) refl

pub pop_group_more :
    (key : PathHierarchy) (m : ParentGroupMap) (g h : MultiVolumeGroup) (gs : GroupList)
    → find_groups key m ≡ some (g ∷ h ∷ gs)
    → pop_group_for_parent key m ≡ (some g, change_groups key (λ _. h ∷ gs) m)
unfolding pop_group_for_parent
pop_group_more key m g h gs e = rw (e, pop_group_for_parent) refl

pub pop_group-pending :
    (key other : PathHierarchy) (m : ParentGroupMap)
    → KeysDistinct m
    → pending other (pop_group_for_parent key m).1
      ≡ (if same_key key other then later_groups (pending key m) else pending other m)
unfolding pending
pop_group-pending key other m d = elim (find-Found (find_groups key m)) [
  | inl e ↦ rw (pop_group_none key m e) (ground (arith, same_key→eq key other))
  | inr (inl (g, e)) ↦ rw (pop_group_last key m g e) (
      ground
        (arith, same_key→eq key other, find_groups-erase key m d, find_groups-erase_ne key other m))
  | inr (inr (g, h, gs, e)) ↦
      rw (pop_group_more key m g h gs e)
        (pending-change key other (λ _. h ∷ gs) m ∙ ground (arith, e))
]

pub pop_group-KeysDistinct :
    (key : PathHierarchy) (m : ParentGroupMap)
    → KeysDistinct m
    → KeysDistinct (pop_group_for_parent key m).1
pop_group-KeysDistinct key m d = elim (find-Found (find_groups key m)) [
  | inl e ↦ rw (pop_group_none key m e) d
  | inr (inl (g, e)) ↦ rw (pop_group_last key m g e) (erase-KeysDistinct key m d)
  | inr (inr (g, h, gs, e)) ↦
      rw (pop_group_more key m g h gs e) (change-KeysDistinct key (λ _. h ∷ gs) m d)
]

-- Marking an entry below a parent changes the queue of that parent only.
pub mark-pending_queues :
    (p : PathHierarchy) (name base_name : Text) (ordering : PartsOrdering) (m : ParentGroupMap)
    → (other : PathHierarchy)
    → pending other (mark_entry_as_multi_volume (p ++ single name ∷ []) base_name ordering m) ≡ (
        if same_key p other
        then enlist p base_name ordering (add_part (p ++ single name ∷ [])) (pending p m)
        else pending other m)
unfolding mark_entry_as_multi_volume
mark-pending_queues p name base_name ordering m other =
    rw (is_empty-append p (single name) [], is_multivolume-snoc_single p name)
      (rw (parent_hierarchy-snoc p (single name))
        (pending-change p other (enlist p base_name ordering (add_part (p ++ single name ∷ []))) m))

-- Popping takes the first group below that parent, and leaves the later groups below it and all the
-- queues of other parents.
pub pop-pending :
    (key other : PathHierarchy) (m : ParentGroupMap)
    → KeysDistinct m
    → pending other (pop_multi_volume_group key m).1
      ≡ (if same_key key other then later_groups (pending key m) else pending other m)
unfolding pop_multi_volume_group
pop-pending key other m d = pop_group-pending key other m d
