-- ===== src/HierarchyUtils/Sort.antt =====
-- `sort_hierarchies` of src/path_hierarchy_utils.cc rearranges its input into ascending order, and
-- no other ascending rearrangement exists, so any sorting algorithm gives the same list.
use mathlib.Core.Path.{ap₂, subst}
use mathlib.Core.Logic.Or
use mathlib.Core.Bool.{Bool-set}
use mathlib.Core.List.{Perm, Mem, mem-cons, mem-cons_self, not-mem-nil}
use mathlib.Core.List.Perm
use archive_r.Base.{◌≡◌, sym, false, List, [], ◌∷◌, All, arith, Bool-cases, inl, inr}
use archive_r.Hierarchy.{PathHierarchy, hierarchy_less}
use archive_r.Hierarchy.Order.{
  hierarchy_less_irrefl, hierarchy_less_total, hierarchy_less_trans, hierarchy_less_asym,
}
use archive_r.HierarchyUtils.{insert_hierarchy, sort_hierarchies}

-- No later element is below an earlier one.
abbrev pub IsAscending : List PathHierarchy → Type 0
IsAscending [] = Unit
IsAscending (h ∷ hs) = All (λ x. hierarchy_less x h ≡ false) hs × IsAscending hs

insert-perm : (h : PathHierarchy) (hs : List PathHierarchy) → Perm (insert_hierarchy h hs) (h ∷ hs)
unfolding insert_hierarchy
insert-perm h [] = Perm.rfl
insert-perm h (x ∷ hs) = elim (Bool-cases (hierarchy_less x h)) [
  | inl e ↦
      rw (e, insert_hierarchy) (Perm.trans (Perm.cons x (insert-perm h hs)) (Perm.swap h x hs))
  | inr e ↦ rw (e, insert_hierarchy) Perm.rfl
]

-- What is not above `l` stays so behind something not below `l`.
not_less_trans :
    (l m n : PathHierarchy)
    → hierarchy_less m l ≡ false
    → hierarchy_less n m ≡ false
    → hierarchy_less n l ≡ false
not_less_trans l m n h k = ground (arith, hierarchy_less_trans m n l, hierarchy_less_total m n)

All-insert :
    (l h : PathHierarchy) (hs : List PathHierarchy)
    → hierarchy_less h l ≡ false
    → All (λ x. hierarchy_less x l ≡ false) hs
    → All (λ x. hierarchy_less x l ≡ false) (insert_hierarchy h hs)
unfolding insert_hierarchy
All-insert l h [] p all = (p, tt)
All-insert l h (x ∷ hs) p all = ground (arith, All-insert l h hs)

All-mono :
    (l m : PathHierarchy) (hs : List PathHierarchy)
    → hierarchy_less m l ≡ false
    → All (λ x. hierarchy_less x m ≡ false) hs
    → All (λ x. hierarchy_less x l ≡ false) hs
All-mono l m [] h all = tt
All-mono l m (x ∷ hs) h all = (not_less_trans l m x h all.0, All-mono l m hs h all.1)

insert-IsAscending :
    (h : PathHierarchy) (hs : List PathHierarchy)
    → IsAscending hs
    → IsAscending (insert_hierarchy h hs)
unfolding insert_hierarchy
insert-IsAscending h [] s = (tt, tt)
insert-IsAscending h (x ∷ hs) s = elim (Bool-cases (hierarchy_less x h)) [
  | inl e ↦
      rw (e, insert_hierarchy)
        (All-insert x h hs (hierarchy_less_asym x h e) s.0, insert-IsAscending h hs s.1)
  | inr e ↦ rw (e, insert_hierarchy) ((e, All-mono h x hs e s.0), s)
]

-- The result is ascending.
pub sort-IsAscending : (hs : List PathHierarchy) → IsAscending (sort_hierarchies hs)
unfolding sort_hierarchies
sort-IsAscending [] = tt
sort-IsAscending (h ∷ hs) = insert-IsAscending h (sort_hierarchies hs) (sort-IsAscending hs)

pub sort-perm : (hs : List PathHierarchy) → Perm (sort_hierarchies hs) hs
unfolding sort_hierarchies
sort-perm [] = Perm.rfl
sort-perm (h ∷ hs) = Perm.trans (insert-perm h (sort_hierarchies hs)) (Perm.cons h (sort-perm hs))

ascending_head :
    (h x : PathHierarchy) (hs : List PathHierarchy)
    → IsAscending (h ∷ hs)
    → Mem x (h ∷ hs)
    → hierarchy_less x h ≡ false
ascending_head h x hs s m =
    Or.elim (Bool-set _ _) (mem-cons.0 m) (λ e. rw e (hierarchy_less_irrefl h)) (later hs s.0)
  where
    later :
        (xs : List PathHierarchy)
        → All (λ y. hierarchy_less y h ≡ false) xs
        → Mem x xs
        → hierarchy_less x h ≡ false
    later [] all n = absurd (not-mem-nil n)
    later (y ∷ xs) all n = Or.elim (Bool-set _ _) (mem-cons.0 n) (λ e. rw e all.0) (later xs all.1)

-- A list has one ascending rearrangement.
ascending_unique :
    (xs ys : List PathHierarchy) → IsAscending xs → IsAscending ys → Perm xs ys → xs ≡ ys
ascending_unique [] ys s t p = Perm.nil-eq p
ascending_unique (x ∷ xs) [] s t p = Perm.eq-nil p
ascending_unique (x ∷ xs) (y ∷ ys) s t p = ap₂ ◌∷◌ first (ascending_unique xs ys s.1 t.1 rest)
  where
    first : x ≡ y
    first =
        hierarchy_less_total x y (ascending_head y x ys t ((Perm.mem_iff p).0 mem-cons_self))
          (ascending_head x y xs s ((Perm.mem_iff p).1 mem-cons_self))

    rest : Perm xs ys
    rest = Perm.cons_inv (subst (λ z. Perm (x ∷ xs) (z ∷ ys)) (sym first) p)

-- `sort_hierarchies` returns an ascending rearrangement of its input, and every ascending
-- rearrangement of the input is the list that it returns.
pub sort_hierarchies_lem :
    (hs : List PathHierarchy)
    → Perm (sort_hierarchies hs) hs
      × IsAscending (sort_hierarchies hs)
      × ((xs : List PathHierarchy) → Perm xs hs → IsAscending xs → xs ≡ sort_hierarchies hs)
sort_hierarchies_lem hs = (
  sort-perm hs,
  sort-IsAscending hs,
  λ xs p s. ascending_unique xs _ s (sort-IsAscending hs) (Perm.trans p (Perm.symm (sort-perm hs))),
)
