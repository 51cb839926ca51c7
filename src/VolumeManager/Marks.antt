-- ===== src/VolumeManager/Marks.antt =====
-- What marking an entry does to the queues of src/multi_volume_manager.cc, told without its search for a group.
use mathlib.Core.Path.{subst}
use archive_r.Base.{
  ◌≡◌, ◌≢◌, refl, sym, ap, ◌∙◌, ◌⊎◌, inl, inr, true, false, Bool-cases, List, [], ◌∷◌, ◌++◌, Text,
  All, text_eqb, text_eqb→eq, if◌then◌else◌,
}
use archive_r.Hierarchy.{PathHierarchy, PartsOrdering, natural, given, single, hierarchies_equal}
use archive_r.Hierarchy.Order.{hierarchies_equal_refl, hierarchies_equal_iff}
use archive_r.ArchiveReader.Search.{eqb_false-ne}
use archive_r.VolumeManager.{
  MultiVolumeGroup, GroupList, ParentGroupMap, enlist, add_part, has_part, new_group,
  request_ordering, mark_entry_as_multi_volume,
}
use archive_r.VolumeManager.Keys.{same_key-cases, same_key_refl}
use archive_r.VolumeManager.Queues.{pending, mark-pending_queues}

-- `Given` overrides the ordering of a group, `Natural` leaves it.
abbrev pub Orders : PartsOrdering → PartsOrdering → PartsOrdering → Type 0
Orders given before after = after ≡ given
Orders natural before after = after ≡ before

-- The path comes last among the parts, unless it is one of them already.
abbrev pub Adds : PathHierarchy → List PathHierarchy → List PathHierarchy → Type 0
Adds path before after =
    (((front back : List PathHierarchy) × (before ≡ front ++ path ∷ back)) × (after ≡ before))
    ⊎ (All (λ q. q ≢ path) before × (after ≡ before ++ path ∷ []))

-- A group that the path was added to.
pub record IsGrown (path : PathHierarchy) (ordering : PartsOrdering)
    (before after : MultiVolumeGroup) : Type 0 where
  pub same_name : after.base_name ≡ before.base_name
  pub same_parent : after.parent ≡ before.parent
  pub orders : Orders ordering before.ordering after.ordering
  pub adds : Adds path before.parts after.parts

-- A queue in which the first group of a name has grown, or that has a new group of this name at its end, if
-- there was none.
abbrev pub IsMarked :
    PathHierarchy → PathHierarchy → Text → PartsOrdering → GroupList → GroupList → Type 0
IsMarked parent path base_name ordering before after =
    (All (λ g. g.base_name ≢ base_name) before
      × (after
          ≡ before
            ++ (record {
              parts = path ∷ [];
              base_name = base_name;
              parent = parent;
              ordering = ordering;
            })
              ∷ []))
    ⊎ ((front back : GroupList) × (g g' : MultiVolumeGroup) × (before ≡ front ++ g ∷ back)
        × (after ≡ front ++ g' ∷ back)
        × All (λ q. q.base_name ≢ base_name) front
        × (g.base_name ≡ base_name)
        × IsGrown path ordering g g')

has_part-cases :
    (path : PathHierarchy) (parts : List PathHierarchy)
    → (((front back : List PathHierarchy) × (parts ≡ front ++ path ∷ back))
        × (has_part path parts ≡ true))
      ⊎ (All (λ q. q ≢ path) parts × (has_part path parts ≡ false))
unfolding has_part
has_part-cases path [] = inr (tt, refl)
has_part-cases path (q ∷ parts) = elim (Bool-cases (hierarchies_equal q path)) [
  | inl e ↦
      inl (([], parts, ap (◌∷ parts) ((hierarchies_equal_iff q path).0 e)), rw (e, has_part) refl)
  | inr e ↦ elim (has_part-cases path parts) [
    | inl ((front, back, split), found) ↦
        inl ((q ∷ front, back, ap (q ∷◌) split), rw (e, has_part) found)
    | inr (absent, missing) ↦ inr (
      (
        (λ same.
            let t : hierarchies_equal q path ≡ true = rw same (hierarchies_equal_refl path) in cc),
        absent,
      ),
      rw (e, has_part) missing,
    )
  ]
]

-- `before` is `h` but for the ordering.
added-IsGrown :
    (path : PathHierarchy) (ordering old : PartsOrdering) (h : MultiVolumeGroup)
    → Orders ordering old h.ordering
    → IsGrown path ordering (record h { ordering = old }) (add_part path h)
unfolding add_part
added-IsGrown path ordering old h orders = elim (has_part-cases path h.parts) [
  | inl (member, found) ↦
      rw (found, add_part)
        (record {
          same_name = refl;
          same_parent = refl;
          orders = orders;
          adds = inl (member, refl);
        })
  | inr (absent, missing) ↦
      rw (missing, add_part)
        (record {
          same_name = refl;
          same_parent = refl;
          orders = orders;
          adds = inr (absent, refl);
        })
]

requested-IsGrown :
    (path : PathHierarchy) (ordering : PartsOrdering) (g : MultiVolumeGroup)
    → IsGrown path ordering g (add_part path (request_ordering ordering g))
unfolding request_ordering
requested-IsGrown path given g =
    added-IsGrown path given g.ordering (record g { ordering = given }) refl
requested-IsGrown path natural g = added-IsGrown path natural g.ordering g refl

enlist-IsMarked :
    (parent path : PathHierarchy) (base_name : Text) (ordering : PartsOrdering) (gs : GroupList)
    → IsMarked parent path base_name ordering gs
        (enlist parent base_name ordering (add_part path) gs)
unfolding enlist
enlist-IsMarked parent path base_name ordering [] =
    inl (tt, unfold add_part has_part new_group in refl)
enlist-IsMarked parent path base_name ordering (g ∷ gs) =
    elim (Bool-cases (text_eqb g.base_name base_name)) [
      | inl e ↦
          rw (e, enlist)
            (inr (
              [],
              gs,
              g,
              add_part path (request_ordering ordering g),
              refl,
              refl,
              tt,
              text_eqb→eq g.base_name base_name e,
              requested-IsGrown path ordering g,
            ))
      | inr e ↦ elim (enlist-IsMarked parent path base_name ordering gs) [
        | inl (absent, new) ↦
            rw (e, enlist) (inl ((eqb_false-ne g.base_name base_name e, absent), ap (g ∷◌) new))
        | inr (front, back, h, h', split, grown, absent, named, same) ↦
            rw (e, enlist)
              (inr (
                g ∷ front,
                back,
                h,
                h',
                ap (g ∷◌) split,
                ap (g ∷◌) grown,
                (eqb_false-ne g.base_name base_name e, absent),
                named,
                same,
              ))
      ]
    ]

-- Marking an entry below a parent: in the parent's queue, the entry is added to the first group of the
-- name, as the last part and unless it is a part already, and `Given` overrides the group's ordering; if
-- there is no group of the name, one with this entry alone and the ordering asked for comes to the end
-- of the queue. The other groups of the queue and the queues of all other parents stay as they are.
pub mark-pending :
    (p : PathHierarchy) (name base_name : Text) (ordering : PartsOrdering) (m : ParentGroupMap)
    → let m' = mark_entry_as_multi_volume (p ++ single name ∷ []) base_name ordering m in
      IsMarked p (p ++ single name ∷ []) base_name ordering (pending p m) (pending p m')
      × ((other : PathHierarchy) → p ≢ other → pending other m' ≡ pending other m)
mark-pending p name base_name ordering m = (
  (let own : pending p (mark_entry_as_multi_volume (p ++ single name ∷ []) base_name ordering m)
          ≡ enlist p base_name ordering (add_part (p ++ single name ∷ [])) (pending p m) =
        mark-pending_queues p name base_name ordering m p
        ∙ ap
            (λ b.
              if b
              then enlist p base_name ordering (add_part (p ++ single name ∷ [])) (pending p m)
              else pending p m)
            (same_key_refl p) in
      subst (IsMarked p (p ++ single name ∷ []) base_name ordering (pending p m)) (sym own)
        (enlist-IsMarked p (p ++ single name ∷ []) base_name ordering (pending p m))),
  λ other ne. elim (same_key-cases p other) [
    | inl (same, e) ↦ absurd (ne same)
    | inr (different, e) ↦
        mark-pending_queues p name base_name ordering m other
        ∙ ap
            (λ b.
              if b
              then enlist p base_name ordering (add_part (p ++ single name ∷ [])) (pending p m)
              else pending other m)
            e
  ],
)
