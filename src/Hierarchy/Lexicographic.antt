-- ===== src/Hierarchy/Lexicographic.antt =====
-- Three-way comparisons as orders, and the comparison of sequences in src/path_hierarchy.cc as the
-- lexicographic one.
use mathlib.Core.Path.{fun_ext}
use archive_r.Base.{
  ◌≡◌, refl, ◌⊎◌, List, [], ◌∷◌, text_ltb_irrefl, text_ltb_trans, text_ltb_total, ℤ, ◌==ℤ◌,
  if◌then◌else◌, arith,
}
use archive_r.Hierarchy.{below, same, above, compare_values, compare_sequences}

-- A three-way comparison into -1, 0 and 1 that orders `A` totally.
pub record IsOrder {ℓ} {A : Type ℓ} (cmp : A → A → ℤ) : Type ℓ where
  pub range : (a b : A) → (cmp a b ≡ below) ⊎ ((cmp a b ≡ same) ⊎ (cmp a b ≡ above))
  pub refl_same : (a : A) → cmp a a ≡ same
  pub same_eq : (a b : A) → cmp a b ≡ same → a ≡ b
  pub flip_below : (a b : A) → cmp a b ≡ below → cmp b a ≡ above
  pub flip_above : (a b : A) → cmp a b ≡ above → cmp b a ≡ below
  pub trans_below : (a b c : A) → cmp a b ≡ below → cmp b c ≡ below → cmp a c ≡ below

pub compare_values-IsOrder : IsOrder compare_values
unfolding compare_values
compare_values-IsOrder = record {
  range = λ a b. ground arith;
  refl_same = λ a. ground (arith, text_ltb_irrefl a);
  same_eq = λ a b h. ground (arith, text_ltb_total a b);
  flip_below = λ a b h. ground (arith, text_ltb_trans a b a, text_ltb_irrefl a);
  flip_above = λ a b h. ground arith;
  trans_below = λ a b c h k. ground (arith, text_ltb_trans a b c);
}

module _ {ℓ} {A : Type ℓ} (cmp : A → A → ℤ) where
  -- The same comparison as one recursion.
  unfoldable pub lex : List A → List A → ℤ
  lex [] [] = same
  lex [] (r ∷ rs) = below
  lex (l ∷ ls) [] = above
  lex (l ∷ ls) (r ∷ rs) = let rest = lex ls rs in if cmp l r ==ℤ same then rest else cmp l r

  pub compare_sequences-lex : (ls rs : List A) → compare_sequences cmp ls rs ≡ lex ls rs
  unfolding compare_sequences lex
  compare_sequences-lex [] [] = refl
  compare_sequences-lex [] (r ∷ rs) = ground arith
  compare_sequences-lex (l ∷ ls) [] = ground arith
  compare_sequences-lex (l ∷ ls) (r ∷ rs) = ground (arith, compare_sequences-lex ls rs)

module _ {ℓ} {A : Type ℓ} {cmp : A → A → ℤ} (o : IsOrder cmp) where
  lex-range :
      (ls rs : List A)
      → (lex cmp ls rs ≡ below) ⊎ ((lex cmp ls rs ≡ same) ⊎ (lex cmp ls rs ≡ above))
  unfolding lex
  lex-range [] [] = ground arith
  lex-range [] (r ∷ rs) = ground arith
  lex-range (l ∷ ls) [] = ground arith
  lex-range (l ∷ ls) (r ∷ rs) = ground (arith, lex-range ls rs, o.range l r)

  lex-refl_same : (ls : List A) → lex cmp ls ls ≡ same
  unfolding lex
  lex-refl_same [] = refl
  lex-refl_same (l ∷ ls) = ground (arith, lex-refl_same ls, o.refl_same l)

  lex-same_eq : (ls rs : List A) → lex cmp ls rs ≡ same → ls ≡ rs
  unfolding lex
  lex-same_eq [] [] h = refl
  lex-same_eq [] (r ∷ rs) h = ground arith
  lex-same_eq (l ∷ ls) [] h = ground arith
  lex-same_eq (l ∷ ls) (r ∷ rs) h = ground (arith, lex-same_eq ls rs, o.same_eq l r, o.range l r)

  lex-flip_below : (ls rs : List A) → lex cmp ls rs ≡ below → lex cmp rs ls ≡ above
  unfolding lex
  lex-flip_below [] [] h = ground arith
  lex-flip_below [] (r ∷ rs) h = refl
  lex-flip_below (l ∷ ls) [] h = ground arith
  lex-flip_below (l ∷ ls) (r ∷ rs) h = ground (
    arith,
    lex-flip_below ls rs,
    o.range l r,
    o.flip_below l r,
    o.same_eq l r,
    o.refl_same l,
    o.refl_same r,
  )

  lex-flip_above : (ls rs : List A) → lex cmp ls rs ≡ above → lex cmp rs ls ≡ below
  unfolding lex
  lex-flip_above [] [] h = ground arith
  lex-flip_above [] (r ∷ rs) h = ground arith
  lex-flip_above (l ∷ ls) [] h = refl
  lex-flip_above (l ∷ ls) (r ∷ rs) h = ground (
    arith,
    lex-flip_above ls rs,
    o.range l r,
    o.flip_above l r,
    o.same_eq l r,
    o.refl_same l,
    o.refl_same r,
  )

  lex-trans_below :
      (ks ls rs : List A) → lex cmp ks ls ≡ below → lex cmp ls rs ≡ below → lex cmp ks rs ≡ below
  unfolding lex
  lex-trans_below [] [] rs h k = ground arith
  lex-trans_below [] (b ∷ ls) [] h k = ground arith
  lex-trans_below [] (b ∷ ls) (c ∷ rs) h k = refl
  lex-trans_below (a ∷ ks) [] rs h k = ground arith
  lex-trans_below (a ∷ ks) (b ∷ ls) [] h k = ground arith
  lex-trans_below (a ∷ ks) (b ∷ ls) (c ∷ rs) h k = ground (
    arith,
    lex-trans_below ks ls rs,
    o.range a b,
    o.range b c,
    o.trans_below a b c,
    o.same_eq a b,
    o.same_eq b c,
  )

  lex-IsOrder : IsOrder (lex cmp)
  lex-IsOrder = record {
    range = lex-range;
    refl_same = lex-refl_same;
    same_eq = lex-same_eq;
    flip_below = lex-flip_below;
    flip_above = lex-flip_above;
    trans_below = lex-trans_below;
  }

pub compare_sequences-IsOrder {ℓ} :
    {A : Type ℓ} {cmp : A → A → ℤ} → IsOrder cmp → IsOrder (compare_sequences cmp)
compare_sequences-IsOrder {cmp = cmp} o =
    rw (fun_ext (λ ls. fun_ext (λ rs. compare_sequences-lex cmp ls rs))) (lex-IsOrder o)
