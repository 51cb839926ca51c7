-- ===== src/Bindings/Python/Acceptance.antt =====
-- Which hierarchies the factory of bindings/python/src/archive_r_py.cc can open, when its Python callable
-- makes each stream with the hierarchy it is given.
use archive_r.Base.{
  ◌≡◌, ◌≢◌, refl, ap, sym, ◌∙◌, inl, inr, Bool, true, false, ◌&&◌, Bool-cases, Option, some, [],
  ◌∷◌, codes, map, All, ◌==◌, if◌then◌else◌, arith,
}
use archive_r.Hierarchy.{
  PathEntry, single, multi_volume, PartsOrdering, natural, given, PathHierarchy, hierarchies_equal,
}
use archive_r.Hierarchy.Order.{hierarchies_equal_iff}
use archive_r.HierarchyUtils.{pathhierarchy_volume_size}
use archive_r.VolumeStream.Parts.{make_stream}
use archive_r.Bindings.Python.Factory.{
  UserStream, constructed, supports, make_user_stream, python_factory,
}
use archive_r.Bindings.Python.{
  value_error, PyResult, returns, raises, Objects, path_hierarchy_to_python,
}
use archive_r.Bindings.Python.Paths.{
  PyLaws, in_natural, HasParts, PyResult-cases, raises-ne-returns, returns_inj, hierarchy_back,
}

abbrev natural_ordering : PartsOrdering → Bool
natural_ordering natural = true
natural_ordering given = false

abbrev is_natural : PathEntry → Bool
is_natural (single value) = true
is_natural (multi_volume parts) = natural_ordering parts.ordering

-- No entry keeps its natural_volumes in a given order.
abbrev pub all_natural : PathHierarchy → Bool
all_natural [] = true
all_natural (e ∷ es) = is_natural e && all_natural es

ordering_of : PathEntry → PartsOrdering
ordering_of (single value) = natural
ordering_of (multi_volume parts) = parts.ordering

ordering-natural : (o : PartsOrdering) → natural_ordering o ≡ true → o ≡ natural
ordering-natural natural e = refl
ordering-natural given e = absurd (ground arith)

natural-same : (e : PathEntry) → is_natural e ≡ true → in_natural e ≡ e
natural-same (single value) e = refl
natural-same (multi_volume parts) e =
    ap (λ o. multi_volume (record { values = parts.values; ordering = o }))
      (sym (ordering-natural parts.ordering e))

same-natural : (e : PathEntry) → in_natural e ≡ e → is_natural e ≡ true
unfolding ordering_of
same-natural (single value) e = refl
same-natural (multi_volume parts) e = sym (ap (λ t. natural_ordering (ordering_of t)) e)

all_natural-same : (h : PathHierarchy) → all_natural h ≡ true → map in_natural h ≡ h
all_natural-same [] e = refl
all_natural-same (e ∷ es) all = elim (Bool-cases (is_natural e)) [
  | inl here ↦ rw (natural-same e here, all_natural-same es (rw here at all)) refl
  | inr here ↦ let both : false ≡ true = rw here at all in absurd (ground arith)
]

first_or : PathEntry → PathHierarchy → PathEntry
first_or e [] = e
first_or e (x ∷ xs) = x

same-all_natural : (h : PathHierarchy) → map in_natural h ≡ h → all_natural h ≡ true
unfolding first_or
same-all_natural [] e = refl
same-all_natural (e ∷ es) same =
    let rest : map in_natural es ≡ es = ap (λ l. elim l [ [] ↦ es | x ∷ xs ↦ xs ]) same in
    rw (same-natural e (ap (first_or e) same)) (same-all_natural es rest)

natural-equal : (h : PathHierarchy) → hierarchies_equal (map in_natural h) h ≡ all_natural h
natural-equal h = elim (Bool-cases (all_natural h)) [
  | inl all ↦ (hierarchies_equal_iff (map in_natural h) h).1 (all_natural-same h all) ∙ sym all
  | inr some_given ↦ elim (Bool-cases (hierarchies_equal (map in_natural h) h)) [
    | inr differ ↦ differ ∙ sym some_given
    | inl equal ↦
        equal ∙ sym (same-all_natural h ((hierarchies_equal_iff (map in_natural h) h).0 equal))
  ]
]

-- The stream that is made has the hierarchy that was read.
constructed-path :
    {X B : Type 0} (path : PathHierarchy) (seeks : Bool) (device : B) (s : UserStream B)
    → constructed {X = X} (make_stream path seeks device) ≡ returns s
    → s.0.logical_path ≡ path
unfolding make_stream
constructed-path path seeks device s e = elim (Bool-cases (pathhierarchy_volume_size path == 0)) [
  | inl none_lem ↦ raises-ne-returns _ _ _ refl (rw none_lem at e)
  | inr parts ↦ sym (ap (λ t. t.0.logical_path) (returns_inj _ s _ refl (rw parts at e)))
]

module _ {X P : Type 0} (py : Objects X P) (laws : PyLaws py) where
  user_stream-path :
      {B : Type 0} (h : PathHierarchy) (arg supports_seek : P) (device : B) (s : UserStream B)
      → h ≢ []
      → All HasParts h
      → path_hierarchy_to_python py h ≡ returns arg
      → make_user_stream py device arg supports_seek ≡ returns s
      → s.0.logical_path ≡ map in_natural h
  unfolding make_user_stream
  user_stream-path h arg supports_seek device s ne parts sent made =
      let read = hierarchy_back py laws h arg ne parts sent in
      elim (PyResult-cases (supports py supports_seek)) [
        | inr (x, stops) ↦ raises-ne-returns _ _ _ refl (rw (read, stops) at made)
        | inl (seeks, known) ↦
            constructed-path (map in_natural h) seeks device s (rw (read, known) at made)
      ]

  -- Between a factory of C++ and a Python callable that makes the stream with the hierarchy it is given:
  -- the stream is returned if no entry keeps its natural_volumes in a given order; else `ValueError` is raised.
  pub python_factory-accepts :
      {W B : Type 0} (stream_of : P → Option (UserStream B)) (func : P → W → PyResult X P × W)
      (h : PathHierarchy) (w w' : W) (arg result supports_seek : P) (device : B) (s : UserStream B)
      → h ≢ []
      → All HasParts h
      → path_hierarchy_to_python py h ≡ returns arg
      → func arg w ≡ (returns result, w')
      → py.is_none result ≡ false
      → make_user_stream py device arg supports_seek ≡ returns s
      → stream_of result ≡ some s
      → python_factory py stream_of func h w ≡ (
        if all_natural h
            then returns (some s)
            else raises (
                value_error (
                  codes
                    "Stream subclass must be initialized with the hierarchy provided to the factory")),
        w',
      )
  unfolding python_factory
  python_factory-accepts stream_of func h w w' arg result supports_seek device (c, st) ne parts sent
        run some_object made holds =
      let path = user_stream-path h arg supports_seek device (c, st) ne parts sent made in
      elim (Bool-cases (all_natural h)) [
        | inl all ↦ rw (sent, run, some_object, holds, path, natural-equal h, all) refl
        | inr one ↦ rw (sent, run, some_object, holds, path, natural-equal h, one) refl
      ]
