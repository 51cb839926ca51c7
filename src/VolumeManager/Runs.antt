-- ===== src/VolumeManager/Runs.antt =====
-- Histories of calls on the manager of src/multi_volume_manager.cc: its map stays well formed, and
-- no call ends in a fault.
use mathlib.Core.Path.{subst}
use archive_r.Base.{◌≡◌, ◌≢◌, refl, ap, ◌⊎◌, inl, inr, true, ◌||◌, List, [], ◌∷◌, ◌++◌, Text, All}
use archive_r.Hierarchy.{PathHierarchy, PartsOrdering, single, multi_volume, is_empty}
use archive_r.Hierarchy.Slices.{parent_hierarchy-snoc}
use archive_r.HierarchyUtils.{pathhierarchy_is_multivolume}
use archive_r.HierarchyUtils.Merge.{is_empty-append}
use archive_r.HierarchyUtils.Volumes.{is_multivolume-snoc_single}
use archive_r.VolumeManager.{
  GroupList, ParentGroupMap, Popped, fault, find_groups, change_groups, mark_entry_as_multi_volume,
  pop_group_for_parent, pop_multi_volume_group,
}
use archive_r.VolumeManager.Queues.{
  pending, groups_or_empty, change-KeysDistinct, pop_group-KeysDistinct, pop_group_none,
  pop_group_last, pop_group_more, find-Found,
}
use archive_r.VolumeManager.Invariant.{
  IsGroup, IsValid, EntriesHold, change-EntriesHold, erase-EntriesHold, enlist-IsGroup,
  pending-IsGroup,
}
use archive_r.VolumeManager.Pop.{pop_lem, pop_none}

-- An entry that can be marked ends in a single name.
markable :
    (path : PathHierarchy)
    → ((is_empty path || pathhierarchy_is_multivolume path) ≡ true)
      ⊎ ((p : PathHierarchy) × (v : Text) × (path ≡ p ++ single v ∷ []))
unfolding pathhierarchy_is_multivolume
markable [] = inl refl
markable (single v ∷ []) = inr ([], v, refl)
markable (multi_volume parts ∷ []) = inl refl
markable (x ∷ y ∷ path) = elim (markable (y ∷ path)) [
  | inl e ↦ inl e
  | inr (p, v, e) ↦ inr (x ∷ p, v, ap (◌∷◌ x) e)
]

mark_snoc-IsValid :
    (p : PathHierarchy) (v base_name : Text) (o : PartsOrdering) (m : ParentGroupMap)
    → IsValid m
    → IsValid (mark_entry_as_multi_volume (p ++ single v ∷ []) base_name o m)
unfolding mark_entry_as_multi_volume
mark_snoc-IsValid p v base_name o m valid =
    rw (is_empty-append p (single v) [], is_multivolume-snoc_single p v)
      (rw (parent_hierarchy-snoc p (single v)) (record {
        keys = change-KeysDistinct p _ m valid.keys;
        entries = change-EntriesHold p _ m (enlist-IsGroup p v base_name o) valid.entries;
      }))

-- Marking any entry, also one that cannot be marked, keeps the map well formed: its keys are
-- distinct and every group holds volumes of its parent, at least one and none twice.
mark-IsValid :
    (path : PathHierarchy) (base_name : Text) (o : PartsOrdering) (m : ParentGroupMap)
    → IsValid m
    → IsValid (mark_entry_as_multi_volume path base_name o m)
unfolding mark_entry_as_multi_volume
mark-IsValid path base_name o m valid = elim (markable path) [
  | inl e ↦ rw (e, mark_entry_as_multi_volume) valid
  | inr (p, v, e) ↦ rw e (mark_snoc-IsValid p v base_name o m valid)
]

change_rest-EntriesHold :
    (key : PathHierarchy) (m : ParentGroupMap) (gs : GroupList)
    → All (IsGroup key) gs
    → EntriesHold m
    → EntriesHold (change_groups key (λ _. gs) m)
change_rest-EntriesHold key m gs all h = change-EntriesHold key (λ _. gs) m (λ _ _. all) h

pop_group-EntriesHold :
    (key : PathHierarchy) (m : ParentGroupMap)
    → EntriesHold m
    → EntriesHold (pop_group_for_parent key m).1
unfolding pending
pop_group-EntriesHold key m h = elim (find-Found (find_groups key m)) [
  | inl e ↦ rw (pop_group_none key m e) h
  | inr (inl (g, e)) ↦ rw (pop_group_last key m g e) (erase-EntriesHold key m h)
  | inr (inr (g, g', gs, e)) ↦
      let waiting : All (IsGroup key) (g ∷ g' ∷ gs) =
        subst (All (IsGroup key)) (ap groups_or_empty e) (pending-IsGroup key m h) in
      rw (pop_group_more key m g g' gs e) (change_rest-EntriesHold key m (g' ∷ gs) waiting.1 h)
]

-- Popping keeps the map well formed.
pop-IsValid :
    (key : PathHierarchy) (m : ParentGroupMap)
    → IsValid m
    → IsValid (pop_multi_volume_group key m).1
unfolding pop_multi_volume_group
pop-IsValid key m valid = record {
  keys = pop_group-KeysDistinct key m valid.keys;
  entries = pop_group-EntriesHold key m valid.entries;
}

-- In a well-formed map a pop never ends in a fault.
pub pop-ne-fault :
    (key : PathHierarchy) (m : ParentGroupMap)
    → IsValid m
    → (pop_multi_volume_group key m).0 ≢ fault
pop-ne-fault key m valid = go (pending key m) refl (pending-IsGroup key m valid.entries)
  where
    go :
        (gs : GroupList)
        → pending key m ≡ gs
        → All (IsGroup key) (pending key m)
        → (pop_multi_volume_group key m).0 ≢ fault
    go [] e all = λ f. cc (pop_none key m e)
    go (g ∷ gs) e all =
        let (v, vs, holds) = (subst (All (IsGroup key)) e all).0 in
        λ f. cc (pop_lem key m v vs g gs e holds)

-- The calls that a client makes.
pub data Call : Type 0 where
  marks : PathHierarchy → Text → PartsOrdering → Call
  pops : PathHierarchy → Call

-- The replies to the pops, and the map at the end.
pub run : ParentGroupMap → List Call → List Popped × ParentGroupMap
run m [] = ([], m)
run m (marks path base_name o ∷ calls) = run (mark_entry_as_multi_volume path base_name o m) calls
run m (pops key ∷ calls) =
    let (reply, m') = pop_multi_volume_group key m in
    let (replies, last) = run m' calls in (reply ∷ replies, last)

run-IsValid :
    (m : ParentGroupMap) (calls : List Call)
    → IsValid m
    → All (λ r. r ≢ fault) (run m calls).0 × IsValid (run m calls).1
unfolding run
run-IsValid m [] valid = (tt, valid)
run-IsValid m (marks path base_name o ∷ calls) valid =
    run-IsValid (mark_entry_as_multi_volume path base_name o m) calls
      (mark-IsValid path base_name o m valid)
run-IsValid m (pops key ∷ calls) valid =
    let rest = run-IsValid (pop_multi_volume_group key m).1 calls (pop-IsValid key m valid) in
    ((pop-ne-fault key m valid, rest.0), rest.1)

-- Whatever entries are marked and whatever groups are popped, from an empty manager on: no pop
-- meets an exception of the merge, takes the back of an empty hierarchy or the parts of a single
-- entry, and the map stays well formed.
pub run-never_fault :
    (calls : List Call) → All (λ r. r ≢ fault) (run [] calls).0 × IsValid (run [] calls).1
run-never_fault calls = run-IsValid [] calls (record { keys = tt; entries = tt })
