-- ===== src/Bindings/Python.antt =====
-- bindings/python/src/archive_r_py.cc: path hierarchies to Python objects and back. pybind11 and the
-- interpreter are the record `Objects`.
pub mod Paths
pub mod Factory
pub mod Acceptance
pub mod Entries
pub mod Iteration
pub mod Construction
use archive_r.Base.{
  ℕ, Bool, true, false, ◌&&◌, Option, none, some, List, [], ◌∷◌, Text, codes, if◌then◌else◌,
}
use archive_r.Hierarchy.{
  PathEntry, single, multi_volume, PartsOrdering, natural, PathHierarchy, make_multi_volume,
  make_single_path,
}
use archive_r.Fault.{Exception, invalid_argument}

-- What a function of the bindings throws: an exception of the library or of the standard library, which
-- pybind11 translates, pybind11's own, or a Python exception `X` on its way.
pub data PyError (X : Type 0) : Type 0 where
  core : Exception → PyError X
  value_error type_error : Text → PyError X
  stop_iteration : PyError X
  error_already_set : X → PyError X

pub data PyResult (X A : Type 0) : Type 0 where
  returns : A → PyResult X A
  raises : PyError X → PyResult X A

-- How the conversion `py::list(object)` ends.
pub data ListCast (X P : Type 0) : Type 0 where
  listed : List P → ListCast X P
  cast_error : ListCast X P
  list_raised : X → ListCast X P

-- Objects `P`. A string of C++ is decoded when it becomes one of Python, and encoded on its way back;
-- both may fail.
pub record Objects (X P : Type 0) : Type 0 where
  pub is_none : P → Bool
  pub is_callable : P → Bool
  pub is_str : P → Bool
  pub cast_bool : P → PyResult X Bool
  pub cast_string : P → PyResult X Text
  pub as_list : P → ListCast X P
  pub make_str : Text → PyResult X P
  pub make_list : List P → P

module _ {X : Type 0} where
  abbrev pub then_py : {A B : Type 0} → (A → PyResult X B) → PyResult X A → PyResult X B
  then_py f (raises e) = raises e
  then_py f (returns a) = f a

  -- A loop that appends what `f` gives for each element.
  abbrev pub each : {A B : Type 0} → (A → PyResult X B) → List A → PyResult X (List B)
  each f [] = returns []
  each f (a ∷ rest) = then_py (λ b. then_py (λ bs. returns (b ∷ bs)) (each f rest)) (f a)

  abbrev pub refuse : {A : Type 0} → Text → PyResult X A
  refuse message = raises (core (invalid_argument message))

module _ {X P : Type 0} (py : Objects X P) where
  unfoldable pub path_entry_to_python : PathEntry → PyResult X P
  path_entry_to_python (single value) = py.make_str value
  path_entry_to_python (multi_volume parts) =
      then_py (λ items. returns (py.make_list items)) (each py.make_str parts.values)

  unfoldable pub path_hierarchy_to_python : PathHierarchy → PyResult X P
  unfolding path_entry_to_python
  path_hierarchy_to_python hierarchy =
      then_py (λ items. returns (py.make_list items)) (each path_entry_to_python hierarchy)

  -- What follows the conversion to a list: the two messages of the function, and the rest of it.
  abbrev pub with_sequence :
      {A : Type 0} → Text → Text → (P → List P → PyResult X A) → ListCast X P → PyResult X A
  with_sequence no_list empty rest cast_error = refuse no_list
  with_sequence no_list empty rest (list_raised x) = raises (error_already_set x)
  with_sequence no_list empty rest (listed []) = refuse empty
  with_sequence no_list empty rest (listed (item ∷ items)) = rest item items

  abbrev pub all_strings : List P → Bool
  all_strings [] = true
  all_strings (item ∷ items) = py.is_str item && all_strings items

  -- `PathEntry::multi_volume` with the default ordering.
  unfoldable pub natural_volumes : List Text → PyResult X PathEntry
  unfolding make_multi_volume
  natural_volumes parts = elim (make_multi_volume parts natural) [
    | none ↦ refuse (codes "multi-volume parts cannot be empty")
    | some entry ↦ returns entry
  ]

  unfoldable pub entry_from_list : P → List P → PyResult X PathEntry
  unfolding natural_volumes
  entry_from_list item items =
      if all_strings (item ∷ items)
      then then_py natural_volumes (each py.cast_string (item ∷ items))
      else refuse (codes "PathEntry sequence must contain only strings")

  unfoldable pub python_path_entry_from_object : P → PyResult X PathEntry
  unfolding entry_from_list
  python_path_entry_from_object obj =
      if py.is_str obj
      then then_py (λ value. returns (single value)) (py.cast_string obj)
      else with_sequence (codes "PathEntry must be string or sequence of strings")
          (codes "PathEntry sequence cannot be empty") entry_from_list (py.as_list obj)

  unfoldable pub python_path_hierarchy_from_object : P → PyResult X PathHierarchy
  unfolding python_path_entry_from_object make_single_path
  python_path_hierarchy_from_object obj =
      if py.is_str obj
      then then_py (λ value. returns (make_single_path value)) (py.cast_string obj)
      else with_sequence (codes "path hierarchy must be string or sequence")
          (codes "path hierarchy cannot be empty")
          (λ item items. each python_path_entry_from_object (item ∷ items)) (py.as_list obj)

  unfoldable pub python_normalize_paths : P → PyResult X (List PathHierarchy)
  unfolding python_path_hierarchy_from_object
  python_normalize_paths paths =
      if py.is_str paths
      then then_py (λ value. returns (make_single_path value ∷ [])) (py.cast_string paths)
      else with_sequence (codes "paths must be a string or a sequence of path hierarchies")
          (codes "paths cannot be empty")
          (λ item items. each python_path_hierarchy_from_object (item ∷ items)) (py.as_list paths)
