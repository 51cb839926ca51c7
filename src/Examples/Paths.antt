-- ===== src/Examples/Paths.antt =====
-- The hierarchies of src/path_hierarchy.cc and src/path_hierarchy_utils.cc at concrete inputs.
use mathlib.Core.List.{Perm}
use archive_r.Base.{◌≡◌, refl, ◌⊎◌, inl, some, List, [], ◌∷◌, ◌++◌, Text, codes}
use archive_r.Hierarchy.{PathHierarchy, single, multi_volume, natural, given}
use archive_r.HierarchyUtils.{
  merge_multi_volume_sources, pathhierarchy_volume_size, sort_hierarchies,
}
use archive_r.HierarchyUtils.Merge.{volume_paths, merge-volume_paths}
use archive_r.HierarchyUtils.Collapse.{Shape, merge-Shape}
use archive_r.HierarchyUtils.Volumes.{selected_from, merge-selected}
use archive_r.HierarchyUtils.Sort.{IsAscending, sort_hierarchies_lem}

abbrev folder : PathHierarchy
folder = single (codes "d") ∷ []

abbrev first_volume : Text
first_volume = codes "z.001"

abbrev second_volume : Text
second_volume = codes "z.002"

abbrev second_and_first : List PathHierarchy
second_and_first = volume_paths folder [] (second_volume ∷ first_volume ∷ [])

merge-volume_paths_example :
    merge_multi_volume_sources (volume_paths folder [] (first_volume ∷ second_volume ∷ []))
    ≡ some (
        folder
        ++ multi_volume (record { values = first_volume ∷ second_volume ∷ []; ordering = natural })
          ∷ [])
merge-volume_paths_example =
    merge-volume_paths folder [] first_volume (second_volume ∷ []) (inl refl)

merge-Shape_example :
    (merge_multi_volume_sources second_and_first ≡ some [])
    ⊎ Shape second_and_first (merge_multi_volume_sources second_and_first)
merge-Shape_example = merge-Shape second_and_first

abbrev both_volumes : PathHierarchy
both_volumes =
    folder
    ++ multi_volume (record { values = first_volume ∷ second_volume ∷ []; ordering = given }) ∷ []

merge-selected_example :
    merge_multi_volume_sources
      (selected_from both_volumes 0 (pathhierarchy_volume_size both_volumes))
    ≡ some (
        folder
        ++ multi_volume (record { values = first_volume ∷ second_volume ∷ []; ordering = natural })
          ∷ [])
merge-selected_example = merge-selected folder first_volume (second_volume ∷ []) given

sort_hierarchies_example :
    Perm (sort_hierarchies second_and_first) second_and_first
    × IsAscending (sort_hierarchies second_and_first)
    × ((xs : List PathHierarchy)
        → Perm xs second_and_first
        → IsAscending xs
        → xs ≡ sort_hierarchies second_and_first)
sort_hierarchies_example = sort_hierarchies_lem second_and_first
