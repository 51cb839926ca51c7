-- ===== src/HierarchyUtils.antt =====
-- include/archive_r/path_hierarchy_utils.h and src/path_hierarchy_utils.cc: the volumes of a
-- hierarchy, sorting, display, and the merge of volume paths into one multi-volume hierarchy.
pub mod Cuts
pub mod Sort
pub mod Names
pub mod Volumes
pub mod Merge
pub mod Collapse
use archive_r.Base.{
  ℕ, ◌+◌, ◌-◌, Bool, true, false, ◌||◌, ◌&&◌, not, Option, none, some, List, [], ◌∷◌, ◌++◌, Text,
  codes, ltb, leb, ◌==◌, if◌then◌else◌, length, get_elem?, take, drop, last?,
}
use archive_r.Hierarchy.{
  PathEntry, single, multi_volume, Parts, PartsOrdering, natural, PathHierarchy, is_empty,
  make_multi_volume, entries_equal, hierarchy_less, append_single, pathhierarchy_prefix_until,
  parent_hierarchy,
}

-- `CollapseSegments`.
pub record CollapseSegments : Type 0 where
  pub prefix : PathHierarchy
  pub suffix : PathHierarchy
  pub multi_volume_depth : ℕ

pub hierarchy_suffix_from : PathHierarchy → ℕ → PathHierarchy
hierarchy_suffix_from hierarchy start_index =
    if is_empty hierarchy || leb (length hierarchy) start_index
    then []
    else drop start_index hierarchy

-- The ways in which the loop over the other sources ends at one depth.
pub data DepthScan : Type 0 where
  missing differs agrees : DepthScan

-- The inner loop of `determine_multi_volume_segments`, from `i = 1`.
pub scan_candidates : PathEntry → ℕ → List PathHierarchy → DepthScan
scan_candidates reference_entry depth [] = agrees
scan_candidates reference_entry depth (candidate ∷ rest) =
    let next = scan_candidates reference_entry depth rest in
    elim (get_elem? candidate depth) [
      | none ↦ missing
      | some entry ↦ if entries_equal reference_entry entry then next else differs
    ]

-- The ways in which the outer loop ends: `return false`, a difference, or none.
pub data DepthSearch : Type 0 where
  too_short : DepthSearch
  found : ℕ → DepthSearch
  uniform : DepthSearch

-- The outer loop: the entries of the reference from `depth` on.
pub scan_depths : PathHierarchy → ℕ → List PathHierarchy → DepthSearch
scan_depths [] depth others = uniform
scan_depths (entry ∷ entries) depth others = elim (scan_candidates entry depth others) [
  | missing ↦ too_short
  | differs ↦ found depth
  | agrees ↦ scan_depths entries (depth + 1) others
]

pub all_have_size : ℕ → List PathHierarchy → Bool
all_have_size size [] = true
all_have_size size (h ∷ hs) = (length h == size) && all_have_size size hs

pub segments_at : PathHierarchy → ℕ → CollapseSegments
segments_at reference depth = record {
  prefix = if ltb 0 depth then pathhierarchy_prefix_until reference (depth - 1) else [];
  suffix = hierarchy_suffix_from reference (depth + 1);
  multi_volume_depth = depth;
}

-- `none` is `return false`.
pub determine_multi_volume_segments : List PathHierarchy → Option CollapseSegments
determine_multi_volume_segments [] = none
determine_multi_volume_segments (reference ∷ others) =
    if is_empty reference then none else elim (scan_depths reference 0 others) [
      | too_short ↦ none
      | found depth ↦ some (segments_at reference depth)
      | uniform ↦
          if all_have_size (length reference) others
          then some (segments_at reference (length reference - 1))
          else none
    ]

-- The loop over the suffix in `collect_multi_volume_parts`, from index `start` of the hierarchy.
pub suffix_matches : PathHierarchy → PathHierarchy → ℕ → Bool
suffix_matches [] hierarchy start = true
suffix_matches (reference ∷ rest) hierarchy start =
    let next = suffix_matches rest hierarchy (start + 1) in
    elim (get_elem? hierarchy start) [
      | none ↦ false
      | some candidate ↦ if entries_equal reference candidate then next else false
    ]

abbrev single_value? : Option PathEntry → Option Text
single_value? none = none
single_value? (some (single value)) = some value
single_value? (some (multi_volume parts)) = none

-- One round of the loop over the sources: the part that is pushed, or `return false`.
pub collect_part : CollapseSegments → PathHierarchy → Option Text
collect_part segments hierarchy =
    if is_empty hierarchy || leb (length hierarchy) depth
    then none
    else if not (length hierarchy == depth + 1 + length segments.suffix)
    then none
    else elim (single_value? (get_elem? hierarchy depth)) [
      | none ↦ none
      | some value ↦
          if suffix_matches segments.suffix hierarchy (depth + 1) then some value else none
    ]
  where
    depth : ℕ
    depth = segments.multi_volume_depth

pub collect_multi_volume_parts : CollapseSegments → List PathHierarchy → Option (List Text)
collect_multi_volume_parts segments [] = some []
collect_multi_volume_parts segments (hierarchy ∷ rest) =
    let others = collect_multi_volume_parts segments rest in
    elim (collect_part segments hierarchy) [
      | none ↦ none
      | some part ↦ elim others [ none ↦ none | some parts ↦ some (part ∷ parts) ]
    ]

-- `some []` is the empty hierarchy that stands for a failure; `none` is the exception that
-- `PathEntry::multi_volume` would throw.
pub merge_multi_volume_sources : List PathHierarchy → Option PathHierarchy
merge_multi_volume_sources sources = elim (determine_multi_volume_segments sources) [
  | none ↦ some []
  | some segments ↦ elim (collect_multi_volume_parts segments sources) [
    | none ↦ some []
    | some parts ↦ elim (make_multi_volume parts natural) [
      | none ↦ none
      | some entry ↦ some (segments.prefix ++ entry ∷ segments.suffix)
    ]
  ]
]

-- `none` is the null pointer.
unfoldable pub path_entry_component_at : PathEntry → ℕ → Option Text
path_entry_component_at (single value) index = if index == 0 then some value else none
path_entry_component_at (multi_volume parts) index = get_elem? parts.values index

unfoldable pub pathhierarchy_volume_size : PathHierarchy → ℕ
pathhierarchy_volume_size logical = elim (last? logical) [
  | none ↦ 0
  | some (single value) ↦ 1
  | some (multi_volume parts) ↦ length parts.values
]

-- A missing volume has the empty name.
abbrev name_or_empty : Option Text → Text
name_or_empty none = []
name_or_empty (some name) = name

unfoldable pub pathhierarchy_volume_entry_name : PathHierarchy → ℕ → Text
pathhierarchy_volume_entry_name logical index = elim (last? logical) [
  | none ↦ []
  | some (single value) ↦ if index == 0 then value else []
  | some (multi_volume parts) ↦ name_or_empty (get_elem? parts.values index)
]

unfoldable pub pathhierarchy_is_multivolume : PathHierarchy → Bool
pathhierarchy_is_multivolume hierarchy = elim (last? hierarchy) [
  | none ↦ false
  | some (single value) ↦ false
  | some (multi_volume parts) ↦ true
]

unfoldable pub pathhierarchy_select_single_part : PathHierarchy → ℕ → PathHierarchy
unfolding append_single
pathhierarchy_select_single_part logical index =
    if is_empty logical
    then []
    else append_single (parent_hierarchy logical) (pathhierarchy_volume_entry_name logical index)

-- `none` is the result `false`.
unfoldable pub flatten_entry_to_string : PathEntry → Option Text
flatten_entry_to_string (single value) = some value
flatten_entry_to_string (multi_volume parts) = none

unfoldable pub entry_name_from_component : PathEntry → Option Text
unfolding flatten_entry_to_string
entry_name_from_component (multi_volume parts) = get_elem? parts.values 0
entry_name_from_component (single value) = flatten_entry_to_string (single value)

-- The parts after the first, each behind a separator.
pub separated : Text → List Text → Text
separated separator [] = []
separated separator (part ∷ parts) = separator ++ (part ++ separated separator parts)

-- The loops with the flag `first`.
pub joined : Text → List Text → Text
unfolding separated
joined separator [] = []
joined separator (part ∷ parts) = part ++ separated separator parts

unfoldable pub path_entry_display : PathEntry → Text
unfolding joined
path_entry_display (single value) = value
path_entry_display (multi_volume parts) =
    codes "[" ++ (joined (codes "|") parts.values ++ codes "]")

displays : PathHierarchy → List Text
unfolding path_entry_display
displays [] = []
displays (entry ∷ entries) = path_entry_display entry ∷ displays entries

unfoldable pub hierarchy_display : PathHierarchy → Text
unfolding displays joined
hierarchy_display hierarchy = joined (codes "/") (displays hierarchy)

-- `std::sort` under a strict order, written as an insertion sort; Sort shows that every sorted
-- rearrangement is this one.
pub insert_hierarchy : PathHierarchy → List PathHierarchy → List PathHierarchy
insert_hierarchy h [] = h ∷ []
insert_hierarchy h (x ∷ xs) =
    let later = insert_hierarchy h xs in if hierarchy_less x h then x ∷ later else h ∷ x ∷ xs

unfoldable pub sort_hierarchies : List PathHierarchy → List PathHierarchy
unfolding insert_hierarchy hierarchy_less
sort_hierarchies [] = []
sort_hierarchies (h ∷ hs) = insert_hierarchy h (sort_hierarchies hs)
