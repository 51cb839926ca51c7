-- ===== src/Examples/Groups.antt =====
-- The manager of src/multi_volume_manager.cc at concrete inputs.
use archive_r.Base.{◌≡◌, ◌≢◌, refl, List, [], ◌∷◌, ◌++◌, Text, codes, All, text_eqb, if◌then◌else◌}
use archive_r.Hierarchy.{PathHierarchy, single, multi_volume, natural}
use archive_r.VolumeManager.{
  MultiVolumeGroup, ParentGroupMap, popped, fault, same_key, find_groups,
  mark_entry_as_multi_volume, pop_multi_volume_group,
}
use archive_r.VolumeManager.Keys.{same_key_refl}
use archive_r.VolumeManager.Queues.{pending, later_groups, pop-pending}
use archive_r.VolumeManager.Marks.{IsMarked, mark-pending}
use archive_r.VolumeManager.Invariant.{IsValid, HoldsVolumes}
use archive_r.VolumeManager.Pop.{reading_order, pop_lem}
use archive_r.VolumeManager.Runs.{Call, marks, pops, run, run-never_fault}
use archive_r.ArchiveReader.Search.{eqb_false-ne}

abbrev folder : PathHierarchy
folder = single (codes "d") ∷ []

abbrev first : Text
first = codes "z.001"

abbrev second : Text
second = codes "z.002"

abbrev calls : List Call
calls =
    marks (folder ++ single second ∷ []) (codes "z") natural
    ∷ marks (folder ++ single first ∷ []) (codes "z") natural
    ∷ pops folder
    ∷ pops folder
    ∷ []

run-never_fault_example : All (λ r. r ≢ fault) (run [] calls).0 × IsValid (run [] calls).1
run-never_fault_example = run-never_fault calls

abbrev group : MultiVolumeGroup
group = record {
  parts = (folder ++ single second ∷ []) ∷ (folder ++ single first ∷ []) ∷ [];
  base_name = codes "z";
  parent = folder;
  ordering = natural;
}

abbrev waiting : ParentGroupMap
waiting = (folder, group ∷ []) ∷ []

first-ne-second : first ≢ second
first-ne-second = eqb_false-ne first second (unfold text_eqb in refl)

group-HoldsVolumes : HoldsVolumes folder (second ∷ first ∷ []) group
group-HoldsVolumes = record { parts_lem = refl; distinct = ((first-ne-second, tt), (tt, tt)) }

waiting-pending : pending folder waiting ≡ group ∷ []
unfolding pending find_groups
waiting-pending = rw (same_key_refl folder) refl

waiting-IsValid : IsValid waiting
waiting-IsValid = record {
  keys = (unfold find_groups in (refl, tt));
  entries = (((second, first ∷ [], group-HoldsVolumes), tt), tt);
}

pop_lem_example :
    (pop_multi_volume_group folder waiting).0
    ≡ popped (
        folder
        ++ multi_volume
            (record { values = reading_order natural (second ∷ first ∷ []); ordering = natural })
          ∷ [])
pop_lem_example =
    pop_lem folder waiting second (first ∷ []) group [] waiting-pending group-HoldsVolumes

abbrev marked : ParentGroupMap
marked = mark_entry_as_multi_volume (folder ++ single first ∷ []) (codes "z") natural waiting

mark-pending_example :
    IsMarked folder
      (folder ++ single first ∷ [])
      (codes "z")
      natural
      (pending folder waiting)
      (pending folder marked)
    × ((other : PathHierarchy) → folder ≢ other → pending other marked ≡ pending other waiting)
mark-pending_example = mark-pending folder first (codes "z") natural waiting

pop-pending_example :
    pending [] (pop_multi_volume_group folder waiting).1
    ≡ (if same_key folder [] then later_groups (pending folder waiting) else pending [] waiting)
pop-pending_example = pop-pending folder [] waiting waiting-IsValid.keys
