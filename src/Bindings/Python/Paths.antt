-- ===== src/Bindings/Python/Paths.antt =====
-- What a path hierarchy is after bindings/python/src/archive_r_py.cc has made a Python object of it and
-- read that object again.
use archive_r.Base.{
  ◌≡◌, ◌≢◌, refl, ap, sym, ◌∙◌, ◌⊎◌, inl, inr, Bool, true, false, List, [], ◌∷◌, Text, map, All,
  arith,
}
use archive_r.Hierarchy.{PathEntry, single, multi_volume, natural, PathHierarchy, make_multi_volume}
use archive_r.Bindings.Python.{
  PyError, PyResult, returns, raises, Objects, listed, each, path_entry_to_python,
  path_hierarchy_to_python, all_strings, natural_volumes, entry_from_list,
  python_path_entry_from_object, python_path_hierarchy_from_object,
}

-- What pybind11 documents: a string that is made is a string, and casts back; a list that is made lists its
-- items.
pub record PyLaws {X P : Type 0} (py : Objects X P) : Type 0 where
  pub str_is : (t : Text) (p : P) → py.make_str t ≡ returns p → py.is_str p ≡ true
  pub str_cast : (t : Text) (p : P) → py.make_str t ≡ returns p → py.cast_string p ≡ returns t
  pub list_is : (ps : List P) → py.is_str (py.make_list ps) ≡ false
  pub list_as : (ps : List P) → py.as_list (py.make_list ps) ≡ listed ps

-- The ordering is not in the object.
abbrev pub in_natural : PathEntry → PathEntry
in_natural (single value) = single value
in_natural (multi_volume parts) =
    multi_volume (record { values = parts.values; ordering = natural })

-- `PathEntry::multi_volume` makes no entry without parts.
abbrev pub HasParts : PathEntry → Type 0
HasParts (single value) = Unit {0}
HasParts (multi_volume parts) = parts.values ≢ []

module _ {X : Type 0} where
  abbrev value_or : {A : Type 0} → A → PyResult X A → A
  value_or a (returns b) = b
  value_or a (raises x) = a

  abbrev fails : {A : Type 0} → PyResult X A → Bool
  fails (returns b) = false
  fails (raises x) = true

  pub returns_inj :
      {A : Type 0} (a b : A) (r : PyResult X A) → r ≡ returns a → r ≡ returns b → a ≡ b
  returns_inj a b r left right = ap (value_or a) (sym left ∙ right)

  pub raises-ne-returns :
      {A B : Type 0} (x : PyError X) (b : B) (r : PyResult X B) → r ≡ raises x → r ≡ returns b → A
  raises-ne-returns x b r left right =
      let both : true ≡ false = ap fails (sym left ∙ right) in absurd (ground arith)

  pub PyResult-cases :
      {A : Type 0} (r : PyResult X A)
      → ((a : A) × (r ≡ returns a)) ⊎ ((x : PyError X) × (r ≡ raises x))
  PyResult-cases (returns a) = inl (a, refl)
  PyResult-cases (raises x) = inr (x, refl)

  -- If `g` takes back what `f` gives, but for `h`, so does its loop.
  each-each :
      {A B C : Type 0} (f : A → PyResult X B) (g : B → PyResult X C) (h : A → C) (Q : A → Type 0)
      → ((a : A) (b : B) → Q a → f a ≡ returns b → g b ≡ returns (h a))
      → (xs : List A) (bs : List B) → All Q xs
      → each f xs ≡ returns bs
      → each g bs ≡ returns (map h xs)
  each-each f g h Q back [] bs all e = rw (← returns_inj [] bs _ refl e) refl
  each-each f g h Q back (a ∷ xs) bs all e = elim (PyResult-cases (f a)) [
    | inr (x, stops) ↦ raises-ne-returns x _ _ refl (rw stops at e)
    | inl (b, made) ↦ elim (PyResult-cases (each f xs)) [
      | inr (x, stops) ↦ raises-ne-returns x _ _ refl (rw (made, stops) at e)
      | inl (rest, loops) ↦
          let same : b ∷ rest ≡ bs = returns_inj _ _ _ refl (rw (made, loops) at e) in
          let later = each-each f g h Q back xs rest all.1 loops in
          rw (← same, back a b all.0 made, later) refl
    ]
  ]

  each-cons-ne-nil :
      {A B C : Type 0} (f : A → PyResult X B) (a : A) (xs : List A)
      → each f (a ∷ xs) ≡ returns []
      → C
  each-cons-ne-nil f a xs e = elim (PyResult-cases (f a)) [
    | inr (x, stops) ↦ raises-ne-returns x _ _ refl (rw stops at e)
    | inl (b, made) ↦ elim (PyResult-cases (each f xs)) [
      | inr (x, stops) ↦ raises-ne-returns x _ _ refl (rw (made, stops) at e)
      | inl (rest, loops) ↦
          let same : b ∷ rest ≡ [] = returns_inj _ _ _ refl (rw (made, loops) at e) in
          absurd (ground arith)
    ]
  ]

always : (ts : List Text) → All (λ t. Unit {0}) ts
always [] = tt
always (t ∷ ts) = (tt, always ts)

map-same : (ts : List Text) → map (λ t. t) ts ≡ ts
map-same [] = refl
map-same (t ∷ ts) = ap (◌∷◌ t) (map-same ts)

module _ {X P : Type 0} (py : Objects X P) (laws : PyLaws py) where
  made_strings :
      (ts : List Text) (ps : List P) → each py.make_str ts ≡ returns ps → all_strings py ps ≡ true
  made_strings [] ps e = rw (← returns_inj [] ps _ refl e) refl
  made_strings (t ∷ ts) ps e = elim (PyResult-cases (py.make_str t)) [
    | inr (x, stops) ↦ raises-ne-returns x _ _ refl (rw stops at e)
    | inl (p, made) ↦ elim (PyResult-cases (each py.make_str ts)) [
      | inr (x, stops) ↦ raises-ne-returns x _ _ refl (rw (made, stops) at e)
      | inl (rest, loops) ↦
          let same : p ∷ rest ≡ ps = returns_inj _ _ _ refl (rw (made, loops) at e) in
          rw (← same, laws.str_is t p made) (made_strings ts rest loops)
    ]
  ]

  texts_back :
      (ts : List Text) (ps : List P)
      → each py.make_str ts ≡ returns ps
      → each py.cast_string ps ≡ returns ts
  texts_back ts ps made =
      each-each py.make_str py.cast_string (λ t. t) (λ t. Unit {0})
        (λ t p ok_lem made. laws.str_cast t p made) ts ps (always ts) made
      ∙ ap returns (map-same ts)

  list_back :
      (ts : List Text) (ps : List P)
      → ts ≢ []
      → each py.make_str ts ≡ returns ps
      → python_path_entry_from_object py (py.make_list ps)
        ≡ returns (multi_volume (record { values = ts; ordering = natural }))
  unfolding python_path_entry_from_object entry_from_list natural_volumes make_multi_volume
  list_back [] ps ne made = absurd (ne refl)
  list_back (t ∷ ts) [] ne made = each-cons-ne-nil py.make_str t ts made
  list_back (t ∷ ts) (p ∷ ps) ne made =
      rw
        (
          laws.list_is (p ∷ ps),
          laws.list_as (p ∷ ps),
          made_strings (t ∷ ts) (p ∷ ps) made,
          texts_back (t ∷ ts) (p ∷ ps) made,
        )
        refl

  entry_back :
      (e : PathEntry) (p : P)
      → HasParts e
      → path_entry_to_python py e ≡ returns p
      → python_path_entry_from_object py p ≡ returns (in_natural e)
  unfolding python_path_entry_from_object path_entry_to_python
  entry_back (single t) p parts made = rw (laws.str_is t p made, laws.str_cast t p made) refl
  entry_back (multi_volume parts) p ne made =
      elim (PyResult-cases (each py.make_str parts.values)) [
        | inr (x, stops) ↦ raises-ne-returns x _ _ refl (rw stops at made)
        | inl (ps, all) ↦
            rw (← returns_inj _ _ _ refl (rw all at made)) (list_back parts.values ps ne all)
      ]

  -- Of a hierarchy that is not empty and has no entry of volumes without a volume, if it was made a
  -- Python object, reading this back gives the hierarchy, its volumes in the same sequence, and the
  -- ordering of every entry of volumes `Natural`.
  pub hierarchy_back :
      (h : PathHierarchy) (p : P)
      → h ≢ []
      → All HasParts h
      → path_hierarchy_to_python py h ≡ returns p
      → python_path_hierarchy_from_object py p ≡ returns (map in_natural h)
  unfolding path_hierarchy_to_python python_path_hierarchy_from_object
  hierarchy_back [] p ne all made = absurd (ne refl)
  hierarchy_back (e ∷ es) p ne all made =
      elim (PyResult-cases (each (path_entry_to_python py) (e ∷ es))) [
        | inr (x, stops) ↦ raises-ne-returns x _ _ refl (rw stops at made)
        | inl ([], loops) ↦ each-cons-ne-nil (path_entry_to_python py) e es loops
        | inl (q ∷ qs, loops) ↦
            let back =
              each-each (path_entry_to_python py) (python_path_entry_from_object py) in_natural
                HasParts entry_back (e ∷ es) (q ∷ qs) all loops in
            rw
              (
                ← returns_inj _ _ _ refl (rw loops at made),
                laws.list_is (q ∷ qs),
                laws.list_as (q ∷ qs),
              )
              back
      ]
