-- ===== src/VolumeManager/Invariant.antt =====
-- The groups of src/multi_volume_manager.cc hold distinct volumes of their own parent, whatever was
-- marked and popped before.
use mathlib.Core.Path.{subst}
use mathlib.Core.List.{map-append}
use archive_r.Base.{
  Absent, ◌≡◌, ◌≢◌, refl, sym, ap, ◌∙◌, inl, inr, true, false, List, [], ◌∷◌, ◌++◌, Text,
  Bool-cases, All, text_eqb,
}
use archive_r.Hierarchy.{PathHierarchy, PartsOrdering, natural, given, single, hierarchies_equal}
use archive_r.Hierarchy.Order.{hierarchies_equal_refl}
use archive_r.HierarchyUtils.Merge.{volume_paths}
use archive_r.VolumeManager.{
  MultiVolumeGroup, GroupList, ParentGroupMap, same_key, find_groups, change_groups, erase_groups,
  enlist, add_part, has_part, new_group, request_ordering,
}
use archive_r.VolumeManager.Keys.{same_key→eq}
use archive_r.VolumeManager.Queues.{pending, KeysDistinct}

-- The names are pairwise different.
abbrev pub Distinct : List Text → Type 0
Distinct [] = Unit
Distinct (v ∷ vs) = Absent v vs × Distinct vs

Absent-snoc : (n m : Text) (vs : List Text) → Absent n vs → m ≢ n → Absent n (vs ++ m ∷ [])
Absent-snoc n m [] a h = (h, tt)
Absent-snoc n m (v ∷ vs) a h = (a.0, Absent-snoc n m vs a.1 h)

Distinct-snoc : (m : Text) (vs : List Text) → Distinct vs → Absent m vs → Distinct (vs ++ m ∷ [])
Distinct-snoc m [] d a = (tt, tt)
Distinct-snoc m (v ∷ vs) d a =
    (Absent-snoc v m vs d.0 (λ e. a.0 (sym e)), Distinct-snoc m vs d.1 a.1)

-- A group holds volumes of its parent, no volume twice; it may be empty only while it is made.
pub record HoldsVolumes (key : PathHierarchy) (names : List Text) (g : MultiVolumeGroup)
    : Type 0 where
  pub parts_lem : g.parts ≡ volume_paths key [] names
  pub distinct : Distinct names

-- A group in the map has at least one volume.
abbrev pub IsGroup : PathHierarchy → MultiVolumeGroup → Type 0
IsGroup key g = (v : Text) × (vs : List Text) × HoldsVolumes key (v ∷ vs) g

has_part_false :
    (key : PathHierarchy) (n : Text) (vs : List Text)
    → has_part (key ++ single n ∷ []) (volume_paths key [] vs) ≡ false
    → Absent n vs
unfolding has_part
has_part_false key n [] h = tt
has_part_false key n (v ∷ vs) h =
    elim (Bool-cases (hierarchies_equal (key ++ single v ∷ []) (key ++ single n ∷ []))) [
      | inl e ↦ cc (rw (e, has_part) at h)
      | inr e ↦ (
        (λ p.
            let t : hierarchies_equal (key ++ single v ∷ []) (key ++ single n ∷ []) ≡ true =
              rw p (hierarchies_equal_refl (key ++ single n ∷ [])) in
            cc),
        has_part_false key n vs (rw (e, has_part) at h),
      )
    ]

appended :
    (key : PathHierarchy) (n : Text) (names : List Text) (g : MultiVolumeGroup)
    → HoldsVolumes key names g
    → Absent n names
    → HoldsVolumes key
        (names ++ n ∷ [])
        (record g { parts = g.parts ++ (key ++ single n ∷ []) ∷ [] })
appended key n names g h a = record {
  parts_lem =
      ap (λ l. l ++ (key ++ single n ∷ []) ∷ []) h.parts_lem
      ∙ sym (map-append (λ v. key ++ single v ∷ []) names (n ∷ []));
  distinct = Distinct-snoc n names h.distinct a;
}

add_part-IsGroup :
    (key : PathHierarchy) (n : Text) (names : List Text) (g : MultiVolumeGroup)
    → HoldsVolumes key names g
    → IsGroup key (add_part (key ++ single n ∷ []) g)
unfolding add_part
add_part-IsGroup key n [] g h =
    let fresh : has_part (key ++ single n ∷ []) g.parts ≡ false =
      ap (has_part (key ++ single n ∷ [])) h.parts_lem ∙ (unfold has_part in refl) in
    rw (fresh, add_part) (n, [], appended key n [] g h tt)
add_part-IsGroup key n (v ∷ vs) g h = elim (Bool-cases (has_part (key ++ single n ∷ []) g.parts)) [
  | inl e ↦ rw (e, add_part) (v, vs, h)
  | inr e ↦
      let absent : Absent n (v ∷ vs) =
        has_part_false key n (v ∷ vs)
          (ap (has_part (key ++ single n ∷ [])) (sym h.parts_lem) ∙ e) in
      rw (e, add_part) (v, vs ++ n ∷ [], appended key n (v ∷ vs) g h absent)
]

request_ordering-HoldsVolumes :
    (o : PartsOrdering) (key : PathHierarchy) (names : List Text) (g : MultiVolumeGroup)
    → HoldsVolumes key names g
    → HoldsVolumes key names (request_ordering o g)
unfolding request_ordering
request_ordering-HoldsVolumes natural key names g h = h
request_ordering-HoldsVolumes given key names g h = record {
  parts_lem = h.parts_lem;
  distinct = h.distinct;
}

pub enlist-IsGroup :
    (key : PathHierarchy) (n base_name : Text) (o : PartsOrdering) (gs : GroupList)
    → All (IsGroup key) gs
    → All (IsGroup key) (enlist key base_name o (add_part (key ++ single n ∷ [])) gs)
unfolding enlist
enlist-IsGroup key n base_name o [] all = (
  add_part-IsGroup key n [] (new_group key base_name o)
      (record { parts_lem = (unfold new_group in refl); distinct = tt }),
  tt,
)
enlist-IsGroup key n base_name o (g ∷ gs) all = elim (Bool-cases (text_eqb g.base_name base_name)) [
  | inl e ↦
      let (v, vs, h) = all.0 in
      rw (e, enlist)
        (
          add_part-IsGroup key n (v ∷ vs) _ (request_ordering-HoldsVolumes o key (v ∷ vs) g h),
          all.1,
        )
  | inr e ↦ rw (e, enlist) (all.0, enlist-IsGroup key n base_name o gs all.1)
]

abbrev pub EntriesHold : ParentGroupMap → Type 0
EntriesHold [] = Unit
EntriesHold ((k, gs) ∷ m) = All (IsGroup k) gs × EntriesHold m

-- The well-formedness of the map.
pub record IsValid (m : ParentGroupMap) : Type 0 where
  pub keys : KeysDistinct m
  pub entries : EntriesHold m

pub change-EntriesHold :
    (key : PathHierarchy) (change : GroupList → GroupList) (m : ParentGroupMap)
    → ((gs : GroupList) → All (IsGroup key) gs → All (IsGroup key) (change gs))
    → EntriesHold m
    → EntriesHold (change_groups key change m)
unfolding change_groups
change-EntriesHold key change [] keep h = (keep [] tt, tt)
change-EntriesHold key change ((k, gs) ∷ m) keep h = elim (Bool-cases (same_key k key)) [
  | inl e ↦
      let p : k ≡ key = same_key→eq k key e in
      rw (e, change_groups)
        (
          subst (λ j. All (IsGroup j) (change gs)) (sym p)
              (keep gs (subst (λ j. All (IsGroup j) gs) p h.0)),
          h.1,
        )
  | inr e ↦ rw (e, change_groups) (h.0, change-EntriesHold key change m keep h.1)
]

pub erase-EntriesHold :
    (key : PathHierarchy) (m : ParentGroupMap) → EntriesHold m → EntriesHold (erase_groups key m)
unfolding erase_groups
erase-EntriesHold key [] h = tt
erase-EntriesHold key ((k, gs) ∷ m) h = elim (Bool-cases (same_key k key)) [
  | inl e ↦ rw (e, erase_groups) h.1
  | inr e ↦ rw (e, erase_groups) (h.0, erase-EntriesHold key m h.1)
]

pub pending-IsGroup :
    (key : PathHierarchy) (m : ParentGroupMap) → EntriesHold m → All (IsGroup key) (pending key m)
unfolding pending find_groups
pending-IsGroup key [] h = tt
pending-IsGroup key ((k, gs) ∷ m) h = elim (Bool-cases (same_key k key)) [
  | inl e ↦ rw (e, find_groups) (subst (λ j. All (IsGroup j) gs) (same_key→eq k key e) h.0)
  | inr e ↦ rw (e, find_groups) (pending-IsGroup key m h.1)
]
