-- ===== src/VolumeManager/Pop.antt =====
-- What `pop_multi_volume_group` of src/multi_volume_manager.cc hands out.
use archive_r.Base.{◌≡◌, refl, ap, ◌∙◌, inl, none, some, List, [], ◌∷◌, ◌++◌, Text}
use archive_r.Hierarchy.{PathHierarchy, Parts, PartsOrdering, natural, given, multi_volume}
use archive_r.HierarchyUtils.Names.{sort_names, sort_names_cons, sort_hierarchies-volumes}
use archive_r.HierarchyUtils.Merge.{volume_paths, merge-volume_paths}
use archive_r.VolumeManager.{
  MultiVolumeGroup, GroupList, ParentGroupMap, popped, no_group, order_back, ordered_parts,
  merge_parts, merged_group, pop_group_for_parent, pop_multi_volume_group,
}
use archive_r.VolumeManager.Queues.{pending, pop_group-first, first_group}
use archive_r.VolumeManager.Invariant.{HoldsVolumes}

order_back-snoc :
    (key : PathHierarchy) (parts : Parts) (o : PartsOrdering)
    → order_back o (key ++ multi_volume parts ∷ [])
      ≡ popped (key ++ multi_volume (record parts { ordering = o }) ∷ [])
unfolding order_back
order_back-snoc [] parts o = refl
order_back-snoc (x ∷ []) parts o = refl
order_back-snoc (x ∷ y ∷ key) parts o = rw (order_back-snoc (y ∷ key) parts o, order_back) refl

-- The volumes in the order in which the archive is read.
abbrev pub reading_order : PartsOrdering → List Text → List Text
reading_order natural names = sort_names names
reading_order given names = names

merge_parts-volumes :
    (key : PathHierarchy) (o : PartsOrdering) (w : Text) (ws : List Text)
    → merge_parts o (volume_paths key [] (w ∷ ws))
      ≡ popped (key ++ multi_volume (record { values = w ∷ ws; ordering = o }) ∷ [])
unfolding merge_parts
merge_parts-volumes key o w ws =
    rw (merge-volume_paths key [] w ws (inl refl), merge_parts)
      (order_back-snoc key (record { values = w ∷ ws; ordering = natural }) o)

merged_volumes :
    (key : PathHierarchy) (o : PartsOrdering) (v : Text) (vs : List Text)
    → merge_parts o (ordered_parts o (volume_paths key [] (v ∷ vs)))
      ≡ popped
          (key ++ multi_volume (record { values = reading_order o (v ∷ vs); ordering = o }) ∷ [])
unfolding ordered_parts
merged_volumes key given v vs = merge_parts-volumes key given v vs
merged_volumes key natural v vs =
    let (w, ws, e) = sort_names_cons v vs in
    rw (sort_hierarchies-volumes key (v ∷ vs)) (rw e (merge_parts-volumes key natural w ws))

pub merged_group-IsGroup :
    (key : PathHierarchy) (v : Text) (vs : List Text) (g : MultiVolumeGroup)
    → HoldsVolumes key (v ∷ vs) g
    → merged_group g
      ≡ popped (
          key
          ++ multi_volume
              (record { values = reading_order g.ordering (v ∷ vs); ordering = g.ordering })
            ∷ [])
unfolding merged_group
merged_group-IsGroup key v vs g h =
    ap (λ ps. merge_parts g.ordering (ordered_parts g.ordering ps)) h.parts_lem
    ∙ merged_volumes key g.ordering v vs

-- If a group waits below the parent, `pop_multi_volume_group` returns the parent with one more
-- entry: the group's volumes in byte order, or as they were marked if its ordering is `Given`, and
-- that ordering.
pub pop_lem :
    (key : PathHierarchy) (m : ParentGroupMap) (v : Text) (vs : List Text) (g : MultiVolumeGroup)
    (gs : GroupList)
    → pending key m ≡ g ∷ gs
    → HoldsVolumes key (v ∷ vs) g
    → (pop_multi_volume_group key m).0
      ≡ popped (
          key
          ++ multi_volume
              (record { values = reading_order g.ordering (v ∷ vs); ordering = g.ordering })
            ∷ [])
unfolding pop_multi_volume_group
pop_lem key m v vs g gs waits h =
    let first : (pop_group_for_parent key m).0 ≡ some g =
      pop_group-first key m ∙ ap first_group waits in
    rw (first, pop_multi_volume_group) (merged_group-IsGroup key v vs g h)

-- If no group waits, it returns `false`.
pub pop_none :
    (key : PathHierarchy) (m : ParentGroupMap)
    → pending key m ≡ []
    → (pop_multi_volume_group key m).0 ≡ no_group
unfolding pop_multi_volume_group
pop_none key m empty =
    let first : (pop_group_for_parent key m).0 ≡ none =
      pop_group-first key m ∙ ap first_group empty in
    rw (first, pop_multi_volume_group) refl
