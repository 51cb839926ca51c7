-- ===== src/HierarchyUtils/Names.antt =====
-- Sorting the volumes of one parent (src/path_hierarchy_utils.cc) sorts their names by bytes.
use archive_r.Base.{
  ◌≡◌, refl, ap, ◌∙◌, inl, inr, List, [], ◌∷◌, ◌++◌, Text, text_ltb, if◌then◌else◌, Bool-cases,
}
use archive_r.Hierarchy.{PathHierarchy, single}
use archive_r.Hierarchy.Order.{hierarchy_less_volumes}
use archive_r.HierarchyUtils.{sort_hierarchies, insert_hierarchy}
use archive_r.HierarchyUtils.Merge.{volume_paths}

-- Names in ascending byte order, by insertion.
pub insert_name : Text → List Text → List Text
insert_name a [] = a ∷ []
insert_name a (v ∷ vs) = if text_ltb v a then v ∷ insert_name a vs else a ∷ v ∷ vs

unfoldable pub sort_names : List Text → List Text
unfolding insert_name
sort_names [] = []
sort_names (v ∷ vs) = insert_name v (sort_names vs)

insert_hierarchy-volumes :
    (key : PathHierarchy) (a : Text) (vs : List Text)
    → insert_hierarchy (key ++ single a ∷ []) (volume_paths key [] vs)
      ≡ volume_paths key [] (insert_name a vs)
unfolding insert_hierarchy insert_name
insert_hierarchy-volumes key a [] = refl
insert_hierarchy-volumes key a (v ∷ vs) = elim (Bool-cases (text_ltb v a)) [
  | inl e ↦
      rw (hierarchy_less_volumes key v a, e, insert_name)
        (ap (◌∷◌ (key ++ single v ∷ [])) (insert_hierarchy-volumes key a vs))
  | inr e ↦ rw (hierarchy_less_volumes key v a, e, insert_name) refl
]

pub sort_hierarchies-volumes :
    (key : PathHierarchy) (vs : List Text)
    → sort_hierarchies (volume_paths key [] vs) ≡ volume_paths key [] (sort_names vs)
unfolding sort_hierarchies sort_names
sort_hierarchies-volumes key [] = refl
sort_hierarchies-volumes key (v ∷ vs) =
    ap (insert_hierarchy (key ++ single v ∷ [])) (sort_hierarchies-volumes key vs)
    ∙ insert_hierarchy-volumes key v (sort_names vs)

insert_name_cons :
    (a : Text) (vs : List Text) → (w : Text) × (ws : List Text) × (insert_name a vs ≡ w ∷ ws)
unfolding insert_name
insert_name_cons a [] = (a, [], refl)
insert_name_cons a (v ∷ vs) = elim (Bool-cases (text_ltb v a)) [
  | inl e ↦ (v, insert_name a vs, rw (e, insert_name) refl)
  | inr e ↦ (a, v ∷ vs, rw (e, insert_name) refl)
]

pub sort_names_cons :
    (v : Text) (vs : List Text) → (w : Text) × (ws : List Text) × (sort_names (v ∷ vs) ≡ w ∷ ws)
unfolding sort_names
sort_names_cons v vs = insert_name_cons v (sort_names vs)
