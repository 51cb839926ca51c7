-- ===== src/Hierarchy.antt =====
-- include/archive_r/path_hierarchy.h and src/path_hierarchy.cc: path entries, hierarchies, their
-- comparison and their slices. A hierarchy is the list of its entries, root first.
pub mod Lexicographic
pub mod Order
pub mod Slices
use archive_r.Base.{
  ℕ, ◌+◌, ◌-◌, Bool, true, false, ◌||◌, not, Option, none, some, List, [], ◌∷◌, ◌++◌, Text,
  text_ltb, text_eqb, ℤ, pos, negsuc, ltb, leb, ◌==◌, ◌==ℤ◌, ltb_ℤ, if◌then◌else◌, length, take,
}

-- `PathEntry::Parts::Ordering`.
pub data PartsOrdering : Type 0 where
  natural given : PartsOrdering

-- `PathEntry::Parts`.
pub record Parts : Type 0 where
  pub values : List Text
  pub ordering : PartsOrdering

-- `PathEntry`, a variant of a string and of parts.
pub data PathEntry : Type 0 where
  single : Text → PathEntry
  multi_volume : Parts → PathEntry

abbrev pub PathHierarchy : Type 0
PathHierarchy = List PathEntry

-- `PathEntry::multi_volume`: `none` is the `std::invalid_argument` it throws on an empty list.
unfoldable pub make_multi_volume : List Text → PartsOrdering → Option PathEntry
make_multi_volume [] ordering = none
make_multi_volume (v ∷ vs) ordering =
    some (multi_volume (record { values = v ∷ vs; ordering = ordering }))

abbrev pub is_single : PathEntry → Bool
is_single (single _) = true
is_single (multi_volume _) = false

abbrev pub is_multi_volume : PathEntry → Bool
is_multi_volume (single _) = false
is_multi_volume (multi_volume _) = true

-- The value of an enumerator, `static_cast<int>(ordering)`.
abbrev pub ordering_code : PartsOrdering → ℕ
ordering_code natural = 0
ordering_code given = 1

entry_type_rank : PathEntry → ℕ
entry_type_rank entry = if is_single entry then 0 else 1

-- The results of the three-way comparisons.
abbrev pub below : ℤ
below = negsuc 0

abbrev pub same : ℤ
same = pos 0

abbrev pub above : ℤ
above = pos 1

abbrev compare_numbers : ℕ → ℕ → ℤ
compare_numbers l r = if l == r then same else if ltb l r then below else above

-- Two string values: `<` one way, `<` the other way, else equal.
unfoldable pub compare_values : Text → Text → ℤ
compare_values lval rval =
    if text_ltb lval rval then below else if text_ltb rval lval then above else same

module _ {ℓ} {A : Type ℓ} (cmp : A → A → ℤ) where
  -- The loop over the common length: the first comparison that is not 0, or 0.
  pub first_nonzero : List A → List A → ℤ
  first_nonzero [] rs = same
  first_nonzero (l ∷ ls) [] = same
  first_nonzero (l ∷ ls) (r ∷ rs) =
      let rest = first_nonzero ls rs in if cmp l r ==ℤ same then rest else cmp l r

  -- The loop, and then the sizes.
  unfoldable pub compare_sequences : List A → List A → ℤ
  unfolding first_nonzero
  compare_sequences ls rs =
      let found = first_nonzero ls rs in
      if found ==ℤ same then compare_numbers (length ls) (length rs) else found

compare_parts : Parts → Parts → ℤ
compare_parts lparts rparts =
    if ordering_code lparts.ordering == ordering_code rparts.ordering
    then compare_sequences compare_values lparts.values rparts.values
    else if ltb (ordering_code lparts.ordering) (ordering_code rparts.ordering)
    then below
    else above

-- The part of `compare_entries_impl` behind the comparison of the ranks.
compare_same_rank : PathEntry → PathEntry → ℤ
compare_same_rank (single l) (single r) = compare_values l r
compare_same_rank (multi_volume l) (multi_volume r) = compare_parts l r
compare_same_rank _ _ = same

unfoldable pub compare_entries : PathEntry → PathEntry → ℤ
unfolding entry_type_rank compare_same_rank compare_parts compare_sequences compare_values
compare_entries lhs rhs =
    if entry_type_rank lhs == entry_type_rank rhs
    then compare_same_rank lhs rhs
    else if ltb (entry_type_rank lhs) (entry_type_rank rhs)
    then below
    else above

unfoldable pub compare_hierarchies : PathHierarchy → PathHierarchy → ℤ
unfolding compare_entries compare_sequences
compare_hierarchies lhs rhs = compare_sequences compare_entries lhs rhs

unfoldable pub entries_equal : PathEntry → PathEntry → Bool
unfolding compare_entries
entries_equal lhs rhs = compare_entries lhs rhs ==ℤ same

unfoldable pub hierarchies_equal : PathHierarchy → PathHierarchy → Bool
unfolding compare_hierarchies
hierarchies_equal lhs rhs = compare_hierarchies lhs rhs ==ℤ same

-- `PathHierarchyLess`.
unfoldable pub hierarchy_less : PathHierarchy → PathHierarchy → Bool
unfolding compare_hierarchies
hierarchy_less lhs rhs = ltb_ℤ (compare_hierarchies lhs rhs) same

unfoldable pub make_single_path : Text → PathHierarchy
make_single_path root = single root ∷ []

unfoldable pub append_single : PathHierarchy → Text → PathHierarchy
append_single hierarchy value = hierarchy ++ single value ∷ []

-- `none` is the exception of `PathEntry::multi_volume`.
unfoldable pub append_multi_volume :
    PathHierarchy → List Text → PartsOrdering → Option PathHierarchy
unfolding make_multi_volume
append_multi_volume hierarchy parts ordering = elim (make_multi_volume parts ordering) [
  | none ↦ none
  | some entry ↦ some (hierarchy ++ entry ∷ [])
]

abbrev pub is_empty {ℓ} : {A : Type ℓ} → List A → Bool
is_empty [] = true
is_empty (x ∷ xs) = false

unfoldable pub pathhierarchy_prefix_until : PathHierarchy → ℕ → PathHierarchy
pathhierarchy_prefix_until hierarchy inclusive_index =
    if is_empty hierarchy || leb (length hierarchy) inclusive_index
    then []
    else take (inclusive_index + 1) hierarchy

unfoldable pub parent_hierarchy : PathHierarchy → PathHierarchy
unfolding pathhierarchy_prefix_until
parent_hierarchy hierarchy =
    if leb (length hierarchy) 1
    then []
    else pathhierarchy_prefix_until hierarchy (length hierarchy - 2)
