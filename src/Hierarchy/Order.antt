-- ===== src/Hierarchy/Order.antt =====
-- The comparison of src/path_hierarchy.cc is a total order whose equality is identity.
use archive_r.Hierarchy.Lexicographic.{
  IsOrder, compare_values-IsOrder, compare_sequences-IsOrder, lex, compare_sequences-lex,
}
use archive_r.Base.{
  ◌↔◌, ◌≡◌, refl, ap, ◌⊎◌, inl, inr, true, false, List, [], ◌∷◌, ◌++◌, Text, text_ltb, ℤ, ltb_ℤ,
  arith,
}
use archive_r.Hierarchy.{
  PathEntry, single, multi_volume, Parts, PathHierarchy, below, same, above, compare_values,
  compare_parts, compare_entries, compare_hierarchies, entries_equal, hierarchies_equal,
  hierarchy_less,
}

compare_parts-IsOrder : IsOrder compare_parts
unfolding compare_parts
compare_parts-IsOrder =
    let o = compare_sequences-IsOrder compare_values-IsOrder in
    record {
      range = λ a b. ground (arith, o.range a.values b.values);
      refl_same = λ a. ground (arith, o.refl_same a.values);
      same_eq = λ a b h. Parts_eq a b (ground arith) (ground (arith, o.same_eq a.values b.values));
      flip_below = λ a b h. ground (arith, o.flip_below a.values b.values);
      flip_above = λ a b h. ground (arith, o.flip_above a.values b.values);
      trans_below = λ a b c h k. ground (arith, o.trans_below a.values b.values c.values);
    }
  where
    Parts_eq : (a b : Parts) → a.ordering ≡ b.ordering → a.values ≡ b.values → a ≡ b
    Parts_eq a b p q = λ i. record { values = q i; ordering = p i }

pub compare_entries-IsOrder : IsOrder compare_entries
unfolding compare_entries
compare_entries-IsOrder = record {
  range = range;
  refl_same = refl_same;
  same_eq = same_eq;
  flip_below = flip_below;
  flip_above = flip_above;
  trans_below = trans_below;
}
  where
    v : IsOrder compare_values
    v = compare_values-IsOrder

    p : IsOrder compare_parts
    p = compare_parts-IsOrder

    range :
        (a b : PathEntry)
        → (compare_entries a b ≡ below)
          ⊎ ((compare_entries a b ≡ same) ⊎ (compare_entries a b ≡ above))
    range (single a) (single b) = v.range a b
    range (single a) (multi_volume b) = inl refl
    range (multi_volume a) (single b) = inr (inr refl)
    range (multi_volume a) (multi_volume b) = p.range a b

    refl_same : (a : PathEntry) → compare_entries a a ≡ same
    refl_same (single a) = v.refl_same a
    refl_same (multi_volume a) = p.refl_same a

    same_eq : (a b : PathEntry) → compare_entries a b ≡ same → a ≡ b
    same_eq (single a) (single b) h = ap single (v.same_eq a b h)
    same_eq (single a) (multi_volume b) h = cc
    same_eq (multi_volume a) (single b) h = cc
    same_eq (multi_volume a) (multi_volume b) h = ap multi_volume (p.same_eq a b h)

    flip_below : (a b : PathEntry) → compare_entries a b ≡ below → compare_entries b a ≡ above
    flip_below (single a) (single b) h = v.flip_below a b h
    flip_below (single a) (multi_volume b) h = refl
    flip_below (multi_volume a) (single b) h = cc
    flip_below (multi_volume a) (multi_volume b) h = p.flip_below a b h

    flip_above : (a b : PathEntry) → compare_entries a b ≡ above → compare_entries b a ≡ below
    flip_above (single a) (single b) h = v.flip_above a b h
    flip_above (single a) (multi_volume b) h = cc
    flip_above (multi_volume a) (single b) h = refl
    flip_above (multi_volume a) (multi_volume b) h = p.flip_above a b h

    trans_below :
        (a b c : PathEntry)
        → compare_entries a b ≡ below
        → compare_entries b c ≡ below
        → compare_entries a c ≡ below
    trans_below (single a) (single b) (single c) h k = v.trans_below a b c h k
    trans_below (single a) b (multi_volume c) h k = refl
    trans_below (single a) (multi_volume b) (single c) h k = cc
    trans_below (multi_volume a) (single b) c h k = cc
    trans_below (multi_volume a) (multi_volume b) (single c) h k = cc
    trans_below (multi_volume a) (multi_volume b) (multi_volume c) h k = p.trans_below a b c h k

-- `compare_hierarchies` is a total order: its result is -1, 0 or 1; it is 0 exactly on equal
-- hierarchies; exchanging the arguments exchanges -1 and 1; and -1 is transitive.
pub compare_hierarchies-IsOrder : IsOrder compare_hierarchies
unfolding compare_hierarchies
compare_hierarchies-IsOrder = compare_sequences-IsOrder compare_entries-IsOrder

-- `entries_equal` holds of equal entries only.
pub entries_equal→eq : (a b : PathEntry) → entries_equal a b ≡ true → a ≡ b
unfolding entries_equal
entries_equal→eq a b h =
    ground (arith, compare_entries-IsOrder.same_eq a b, compare_entries-IsOrder.range a b)

pub entries_equal_refl : (a : PathEntry) → entries_equal a a ≡ true
unfolding entries_equal
entries_equal_refl a = rw (compare_entries-IsOrder.refl_same a)

pub hierarchies_equal_refl : (a : PathHierarchy) → hierarchies_equal a a ≡ true
unfolding hierarchies_equal
hierarchies_equal_refl a = rw (compare_hierarchies-IsOrder.refl_same a)

-- `hierarchies_equal` is equality: it holds exactly of equal hierarchies.
pub hierarchies_equal_iff : (a b : PathHierarchy) → (hierarchies_equal a b ≡ true) ↔ (a ≡ b)
unfolding hierarchies_equal
hierarchies_equal_iff a b = (
  λ h.
      ground
        (arith, compare_hierarchies-IsOrder.same_eq a b, compare_hierarchies-IsOrder.range a b),
  λ e. rw e (hierarchies_equal_refl b),
)

-- Under `PathHierarchyLess`, two keys of which neither is below the other are equal.
pub hierarchy_less_total :
    (a b : PathHierarchy) → hierarchy_less a b ≡ false → hierarchy_less b a ≡ false → a ≡ b
unfolding hierarchy_less
hierarchy_less_total a b h k = ground (
  arith,
  compare_hierarchies-IsOrder.same_eq a b,
  compare_hierarchies-IsOrder.range a b,
  compare_hierarchies-IsOrder.flip_above a b,
)

pub hierarchy_less_irrefl : (a : PathHierarchy) → hierarchy_less a a ≡ false
unfolding hierarchy_less
hierarchy_less_irrefl a = rw (compare_hierarchies-IsOrder.refl_same a)

pub hierarchy_less_trans :
    (a b c : PathHierarchy)
    → hierarchy_less a b ≡ true
    → hierarchy_less b c ≡ true
    → hierarchy_less a c ≡ true
unfolding hierarchy_less
hierarchy_less_trans a b c h k = ground (
  arith,
  compare_hierarchies-IsOrder.range a b,
  compare_hierarchies-IsOrder.range b c,
  compare_hierarchies-IsOrder.trans_below a b c,
)

pub hierarchy_less_asym :
    (a b : PathHierarchy) → hierarchy_less a b ≡ true → hierarchy_less b a ≡ false
unfolding hierarchy_less
hierarchy_less_asym a b h =
    ground
      (arith, compare_hierarchies-IsOrder.range a b, compare_hierarchies-IsOrder.flip_below a b)

lex-append {ℓ} :
    {A : Type ℓ} {cmp : A → A → ℤ} (o : IsOrder cmp) (ks ls rs : List A)
    → lex cmp (ks ++ ls) (ks ++ rs) ≡ lex cmp ls rs
unfolding lex
lex-append o [] ls rs = refl
lex-append o (k ∷ ks) ls rs = ground (arith, o.refl_same k, lex-append o ks ls rs)

lex_singles :
    (a b : Text) → ltb_ℤ (lex compare_entries (single a ∷ []) (single b ∷ [])) same ≡ text_ltb a b
unfolding lex compare_entries compare_values
lex_singles a b = ground arith

-- Volumes of one parent compare by their names.
pub hierarchy_less_volumes :
    (p : PathHierarchy) (a b : Text)
    → hierarchy_less (p ++ single a ∷ []) (p ++ single b ∷ []) ≡ text_ltb a b
unfolding hierarchy_less compare_hierarchies
hierarchy_less_volumes p a b =
    rw compare_sequences-lex
      (rw (lex-append compare_entries-IsOrder p (single a ∷ []) (single b ∷ [])) (lex_singles a b))
