-- ===== src/EntryMetadata/Local.antt =====
-- What one statement on a metadata map does under one key: see src/archive_type.cc, from the lambda
-- `wants` on, and include/archive_r/entry_metadata.h.
use mathlib.Core.Path.{subst}
use archive_r.Base.{
  ◌≡◌, refl, sym, ap, ◌∙◌, inl, inr, Bool, true, false, Option, none, some, [], ◌∷◌, Text, text_eqb,
  text_eqb_refl, text_eqb→eq, arith, Bool-cases, if◌then◌else◌,
}
use archive_r.EntryMetadata.{
  EntryMetadataValue, string, EntryMetadataMap, assign, lookup, contains, Block, ◌then_do◌, store,
  nothing, when, store_text_or, store_nonempty_or,
}

lookup-assign :
    (key : Text) (value : EntryMetadataValue) (m : EntryMetadataMap)
    → lookup key (assign key value m) ≡ some value
unfolding lookup assign
lookup-assign key value [] = ground (arith, text_eqb_refl key)
lookup-assign key value ((k, v) ∷ m) = ground (arith, text_eqb_refl key, lookup-assign key value m)

lookup-assign_other :
    (key k : Text) (value : EntryMetadataValue) (m : EntryMetadataMap)
    → text_eqb key k ≡ false
    → lookup k (assign key value m) ≡ lookup k m
unfolding lookup assign
lookup-assign_other key k value [] h = ground (arith, h)
lookup-assign_other key k value ((k', v) ∷ m) h =
    ground (arith, h, text_eqb→eq k' key, lookup-assign_other key k value m h)

-- What a statement leaves under a key depends on the test at that key alone; without the key it
-- leaves what was there.
pub record IsLocal (f : Block) : Type 0 where
  pub agree :
      (k : Text) (w₁ w₂ : Text → Bool) (m₁ m₂ : EntryMetadataMap)
      → w₁ k ≡ w₂ k
      → lookup k m₁ ≡ lookup k m₂
      → lookup k (f w₁ m₁) ≡ lookup k (f w₂ m₂)
  pub skip :
      (k : Text) (w : Text → Bool) (m : EntryMetadataMap)
      → w k ≡ false
      → lookup k (f w m) ≡ lookup k m

pub store-IsLocal : (key : Text) (value : EntryMetadataValue) → IsLocal (store key value)
unfolding store
store-IsLocal key value = record { agree = agree; skip = skip }
  where
    agree :
        (k : Text) (w₁ w₂ : Text → Bool) (m₁ m₂ : EntryMetadataMap)
        → w₁ k ≡ w₂ k
        → lookup k m₁ ≡ lookup k m₂
        → lookup k (store key value w₁ m₁) ≡ lookup k (store key value w₂ m₂)
    agree k w₁ w₂ m₁ m₂ h e = elim (Bool-cases (text_eqb key k)) [
      | inl same ↦
          let is_key : key ≡ k = text_eqb→eq key k same in
          subst
            (λ t.
              lookup k (if w₁ t then assign t value m₁ else m₁)
              ≡ lookup k (if w₂ t then assign t value m₂ else m₂))
            (sym is_key) (ground (arith, h, e, lookup-assign k value m₁, lookup-assign k value m₂))
      | inr other ↦ ground (
        arith,
        e,
        lookup-assign_other key k value m₁ other,
        lookup-assign_other key k value m₂ other,
      )
    ]

    skip :
        (k : Text) (w : Text → Bool) (m : EntryMetadataMap)
        → w k ≡ false
        → lookup k (store key value w m) ≡ lookup k m
    skip k w m h = elim (Bool-cases (text_eqb key k)) [
      | inl same ↦
          let is_key : key ≡ k = text_eqb→eq key k same in
          subst (λ t. lookup k (if w t then assign t value m else m) ≡ lookup k m) (sym is_key)
            (rw h refl)
      | inr other ↦ ground (arith, lookup-assign_other key k value m other)
    ]

pub nothing-IsLocal : IsLocal nothing
unfolding nothing
nothing-IsLocal = record { agree = λ k w₁ w₂ m₁ m₂ h e. e; skip = λ k w m h. refl }

pub then_do-IsLocal : (f g : Block) → IsLocal f → IsLocal g → IsLocal (f then_do g)
unfolding ◌then_do◌
then_do-IsLocal f g hf hg = record {
  agree = λ k w₁ w₂ m₁ m₂ h e. hg.agree k w₁ w₂ (f w₁ m₁) (f w₂ m₂) h (hf.agree k w₁ w₂ m₁ m₂ h e);
  skip = λ k w m h. hg.skip k w (f w m) h ∙ hf.skip k w m h;
}

pub when-IsLocal : (b : Bool) (f : Block) → IsLocal f → IsLocal (when b f)
unfolding when
when-IsLocal true f h = h
when-IsLocal false f h = nothing-IsLocal

pub store_text_or-IsLocal :
    (o : Option Text) (key : Text) (f : Block) → IsLocal f → IsLocal (store_text_or o key f)
unfolding store_text_or
store_text_or-IsLocal none key f h = h
store_text_or-IsLocal (some text) key f h = store-IsLocal key (string text)

-- A statement that writes under one key only.
pub OnlyKey : Text → Block → Type 0
OnlyKey key f =
    (k : Text) (w : Text → Bool) (m : EntryMetadataMap)
    → text_eqb key k ≡ false
    → lookup k (f w m) ≡ lookup k m

pub nothing-OnlyKey : (key : Text) → OnlyKey key nothing
unfolding nothing OnlyKey
nothing-OnlyKey key k w m h = refl

pub store_nonempty_or-OnlyKey :
    (o : Option Text) (key : Text) (f : Block)
    → OnlyKey key f
    → OnlyKey key (store_nonempty_or o key f)
unfolding store_nonempty_or OnlyKey
store_nonempty_or-OnlyKey none key f h k w m other = h k w m other
store_nonempty_or-OnlyKey (some []) key f h k w m other = h k w m other
store_nonempty_or-OnlyKey (some (c ∷ text)) key f h k w m other =
    ground (arith, h k w m other, lookup-assign_other key k (string (c ∷ text)) m other)

pub store_nonempty_or-IsLocal :
    (o : Option Text) (key : Text) (f : Block)
    → IsLocal f
    → OnlyKey key f
    → IsLocal (store_nonempty_or o key f)
unfolding store_nonempty_or OnlyKey
store_nonempty_or-IsLocal none key f h only = record { agree = h.agree; skip = h.skip }
store_nonempty_or-IsLocal (some []) key f h only = record { agree = h.agree; skip = h.skip }
store_nonempty_or-IsLocal (some (c ∷ text)) key f h only = record { agree = agree; skip = skip }
  where
    put : (Text → Bool) → EntryMetadataMap → EntryMetadataMap
    put w m = if w key then assign key (string (c ∷ text)) m else f w m

    other_lem :
        (k : Text) (w : Text → Bool) (m : EntryMetadataMap)
        → text_eqb key k ≡ false
        → lookup k (put w m) ≡ lookup k m
    other_lem k w m other =
        ground (arith, only k w m other, lookup-assign_other key k (string (c ∷ text)) m other)

    agree :
        (k : Text) (w₁ w₂ : Text → Bool) (m₁ m₂ : EntryMetadataMap)
        → w₁ k ≡ w₂ k
        → lookup k m₁ ≡ lookup k m₂
        → lookup k (put w₁ m₁) ≡ lookup k (put w₂ m₂)
    agree k w₁ w₂ m₁ m₂ h' e = elim (Bool-cases (text_eqb key k)) [
      | inl same ↦
          let test : w₁ key ≡ w₂ key = subst (λ t. w₁ t ≡ w₂ t) (sym (text_eqb→eq key k same)) h' in
          let value : (m : EntryMetadataMap)
              → lookup k (assign key (string (c ∷ text)) m) ≡ some (string (c ∷ text)) =
            λ m.
              ap (λ t. lookup t (assign key (string (c ∷ text)) m)) (sym (text_eqb→eq key k same))
              ∙ lookup-assign key (string (c ∷ text)) m in
          ground (arith, test, value m₁, value m₂, h.agree k w₁ w₂ m₁ m₂ h' e)
      | inr other ↦ other_lem k w₁ m₁ other ∙ e ∙ sym (other_lem k w₂ m₂ other)
    ]

    skip :
        (k : Text) (w : Text → Bool) (m : EntryMetadataMap)
        → w k ≡ false
        → lookup k (put w m) ≡ lookup k m
    skip k w m h' = elim (Bool-cases (text_eqb key k)) [
      | inl same ↦
          let test : w key ≡ false = ap w (text_eqb→eq key k same) ∙ h' in rw test (h.skip k w m h')
      | inr other ↦ other_lem k w m other
    ]

pub contains_self : (k : Text) → contains (k ∷ []) k ≡ true
unfolding contains
contains_self k = ground (arith, text_eqb_refl k)
