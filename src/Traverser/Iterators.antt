-- ===== src/Traverser/Iterators.antt =====
-- The options, the constructor and the iterators of src/traverser.cc, with their comparison.
use archive_r.Base.{
  ℕ, Bool, true, false, ◌&&◌, ◌||◌, not, Option, none, some, List, [], ◌∷◌, Text, codes,
  if◌then◌else◌,
}
use archive_r.Hierarchy.{PathHierarchy, is_empty}
use archive_r.Fault.{invalid_argument, logic_error, Result, ok, throws}
use archive_r.EntryImpl.{Impl}
use archive_r.StreamArchive.{ArchiveOption}
use archive_r.Orchestrator.{Orchestrator}

-- `TraverserOptions`.
pub record TraverserOptions : Type 0 where
  pub passphrases : List Text
  pub formats : List Text
  pub metadata_keys : List Text
  pub descend_archives : Bool

unfoldable pub to_archive_option : TraverserOptions → ArchiveOption
to_archive_option options = record {
  passphrases = options.passphrases;
  formats = options.formats;
  metadata_keys = options.metadata_keys;
}

-- `std::filesystem`: recursive directory iterators `D` that are not at the end; `some none` is the
-- end, and `none` is the exception `filesystem_error`.
pub record Directories (D : Type 0) : Type 0 where
  -- Whether `is_directory` holds without an error.
  pub path_is_directory : Text → Bool
  pub open_recursive : Text → Option (Option D)
  pub entry_path : D → Text
  pub disable_recursion_pending : D → D
  pub increment : D → Option (Option D)
  pub lexically_normal : Text → Text

-- The constructor of `Traverser`: the paths that it keeps, or what it throws.
pub check_paths : List PathHierarchy → Result (List PathHierarchy)
check_paths [] = ok []
check_paths (hierarchy ∷ paths) =
    let rest = check_paths paths in
    if is_empty hierarchy
    then throws (invalid_argument (codes "path hierarchy cannot be empty"))
    else elim rest [ throws e ↦ throws e | ok checked ↦ ok (hierarchy ∷ checked) ]

unfoldable pub make_traverser : List PathHierarchy → Result (List PathHierarchy)
unfolding check_paths
make_traverser paths =
    if is_empty paths
    then throws (invalid_argument (codes "paths cannot be empty"))
    else check_paths paths

-- The reference of an entry to the traverser's orchestrator, of which there is one.
abbrev pub TraversedEntry : Type 0
TraversedEntry = Impl (Unit {0}) ArchiveOption

-- `Traverser::Iterator::Impl`.
pub record Iterator (K D : Type 0) : Type 0 where
  pub paths : List PathHierarchy
  pub current_path_index : ℕ
  pub directory : Option D
  pub at_end : Bool
  pub current_entry : Option TraversedEntry
  pub archive_options : ArchiveOption
  pub shared_orchestrator : Option (Orchestrator K)
  pub default_descent : Bool

-- `equals`; `same_object` tells whether the two are one object.
unfoldable pub equals : {K D : Type 0} → Bool → Iterator K D → Iterator K D → Bool
equals same_object a b = same_object || (a.at_end && b.at_end)

-- `==` and `!=` of `Traverser::Iterator`; `none` is an iterator that was moved from.
pub iterators_equal : {K D : Type 0} → Bool → Option (Iterator K D) → Option (Iterator K D) → Bool
unfolding equals
iterators_equal same_object none none = true
iterators_equal same_object none (some b) = false
iterators_equal same_object (some a) none = false
iterators_equal same_object (some a) (some b) = equals same_object a b

unfoldable pub iterators_differ :
    {K D : Type 0} → Bool → Option (Iterator K D) → Option (Iterator K D) → Bool
unfolding iterators_equal
iterators_differ same_object a b = not (iterators_equal same_object a b)

-- `get_entry`.
unfoldable pub get_entry : {K D : Type 0} → Iterator K D → Result TraversedEntry
get_entry it = elim it.current_entry [
  | none ↦ throws (logic_error (codes "Cannot dereference end iterator"))
  | some e ↦ ok e
]
