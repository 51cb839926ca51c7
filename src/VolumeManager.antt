-- ===== src/VolumeManager.antt =====
-- src/multi_volume_manager.h and src/multi_volume_manager.cc: the groups of volumes that wait to be
-- opened as one archive, by parent hierarchy.
pub mod Keys
pub mod Queues
pub mod Marks
pub mod Invariant
pub mod Pop
pub mod Runs
pub mod Counting
use archive_r.Base.{
  ℕ, Bool, true, false, ◌||◌, ◌&&◌, not, Option, none, some, List, [], ◌∷◌, ◌++◌, Text, text_eqb,
  if◌then◌else◌, last?,
}
use archive_r.Hierarchy.{
  PathEntry, single, multi_volume, PartsOrdering, natural, given, PathHierarchy, is_empty,
  hierarchy_less, hierarchies_equal, parent_hierarchy,
}
use archive_r.HierarchyUtils.{
  pathhierarchy_is_multivolume, sort_hierarchies, merge_multi_volume_sources,
}

-- `MultiVolumeGroup`; `parent` is its field `parent_hierarchy`.
pub record MultiVolumeGroup : Type 0 where
  pub parts : List PathHierarchy
  pub base_name : Text
  pub parent : PathHierarchy
  pub ordering : PartsOrdering

abbrev pub GroupList : Type 0
GroupList = List MultiVolumeGroup

-- `std::map<PathHierarchy, GroupList, PathHierarchyLess>`, as its entries.
abbrev pub ParentGroupMap : Type 0
ParentGroupMap = List (PathHierarchy × GroupList)

-- Two keys are the same one for the map if neither is below the other.
pub same_key : PathHierarchy → PathHierarchy → Bool
same_key a b = not (hierarchy_less a b) && not (hierarchy_less b a)

-- `_multi_volume_groups.find(key)`.
unfoldable pub find_groups : PathHierarchy → ParentGroupMap → Option GroupList
find_groups key [] = none
find_groups key ((k, groups) ∷ entries) =
    if same_key k key then some groups else find_groups key entries

-- A change through `_multi_volume_groups[key]`, which inserts an empty list under a missing key.
pub change_groups : PathHierarchy → (GroupList → GroupList) → ParentGroupMap → ParentGroupMap
change_groups key change [] = (key, change []) ∷ []
change_groups key change ((k, groups) ∷ entries) =
    if same_key k key
    then (k, change groups) ∷ entries
    else (k, groups) ∷ change_groups key change entries

-- `_multi_volume_groups.erase(it)`.
pub erase_groups : PathHierarchy → ParentGroupMap → ParentGroupMap
erase_groups key [] = []
erase_groups key ((k, groups) ∷ entries) =
    if same_key k key then entries else (k, groups) ∷ erase_groups key entries

-- A request for the ordering `Given` is kept, one for `Natural` changes nothing.
pub request_ordering : PartsOrdering → MultiVolumeGroup → MultiVolumeGroup
request_ordering natural group = group
request_ordering given group = record group { ordering = given }

pub new_group : PathHierarchy → Text → PartsOrdering → MultiVolumeGroup
new_group parent base_name ordering = record {
  parts = [];
  base_name = base_name;
  parent = parent;
  ordering = ordering;
}

-- The search for the group of that name; `change` is what the caller does to it through the
-- reference that it gets.
pub enlist :
    PathHierarchy
    → Text
    → PartsOrdering
    → (MultiVolumeGroup → MultiVolumeGroup)
    → GroupList
    → GroupList
enlist parent base_name ordering change [] = change (new_group parent base_name ordering) ∷ []
enlist parent base_name ordering change (group ∷ groups) =
    if text_eqb group.base_name base_name
    then change (request_ordering ordering group) ∷ groups
    else group ∷ enlist parent base_name ordering change groups

pub get_or_create_multi_volume_group :
    PathHierarchy
    → Text
    → PartsOrdering
    → (MultiVolumeGroup → MultiVolumeGroup)
    → ParentGroupMap
    → ParentGroupMap
get_or_create_multi_volume_group parent base_name ordering change =
    change_groups parent (enlist parent base_name ordering change)

-- `std::any_of` over the parts.
pub has_part : PathHierarchy → List PathHierarchy → Bool
has_part entry_path [] = false
has_part entry_path (existing ∷ parts) =
    hierarchies_equal existing entry_path || has_part entry_path parts

pub add_part : PathHierarchy → MultiVolumeGroup → MultiVolumeGroup
add_part entry_path group =
    if has_part entry_path group.parts
    then group
    else record group { parts = group.parts ++ entry_path ∷ [] }

unfoldable pub mark_entry_as_multi_volume :
    PathHierarchy → Text → PartsOrdering → ParentGroupMap → ParentGroupMap
unfolding get_or_create_multi_volume_group
mark_entry_as_multi_volume entry_path base_name ordering groups =
    if is_empty entry_path || pathhierarchy_is_multivolume entry_path
    then groups
    else get_or_create_multi_volume_group (parent_hierarchy entry_path) base_name ordering
        (add_part entry_path) groups

-- The group that is handed out, with the map that is left.
pub pop_group_for_parent : PathHierarchy → ParentGroupMap → Option MultiVolumeGroup × ParentGroupMap
pop_group_for_parent parent groups = elim (find_groups parent groups) [
  | none ↦ (none, groups)
  | some [] ↦ (none, groups)
  | some (group ∷ rest) ↦ (
    some group,
    if is_empty rest then erase_groups parent groups else change_groups parent (λ _. rest) groups,
  )
]

-- What `pop_multi_volume_group` comes to: `false`; `true` with the hierarchy; or a fault, which is
-- an exception of the merge, `back()` of an empty hierarchy or parts of a single entry.
pub data Popped : Type 0 where
  no_group : Popped
  popped : PathHierarchy → Popped
  fault : Popped

-- `hierarchy.back().multi_volume_parts_mut().ordering = ordering`.
pub order_back : PartsOrdering → PathHierarchy → Popped
order_back ordering [] = fault
order_back ordering (single value ∷ []) = fault
order_back ordering (multi_volume parts ∷ []) =
    popped (multi_volume (record parts { ordering = ordering }) ∷ [])
order_back ordering (entry ∷ e ∷ entries) = elim (order_back ordering (e ∷ entries)) [
  | popped rest ↦ popped (entry ∷ rest)
  | other ↦ other
]

pub ordered_parts : PartsOrdering → List PathHierarchy → List PathHierarchy
ordered_parts given parts = parts
ordered_parts natural parts = sort_hierarchies parts

pub merge_parts : PartsOrdering → List PathHierarchy → Popped
merge_parts ordering parts = elim (merge_multi_volume_sources parts) [
  | none ↦ fault
  | some hierarchy ↦ order_back ordering hierarchy
]

pub merged_group : MultiVolumeGroup → Popped
merged_group group = merge_parts group.ordering (ordered_parts group.ordering group.parts)

pub pop_multi_volume_group : PathHierarchy → ParentGroupMap → Popped × ParentGroupMap
pop_multi_volume_group current_hierarchy groups =
    let (found, rest) = pop_group_for_parent current_hierarchy groups in
    (elim found [ none ↦ no_group | some group ↦ merged_group group ], rest)
