-- ===== src/Bindings/Python/Entries.antt =====
-- `PyEntry` of bindings/python/src/archive_r_py.cc: an entry that Python holds, with what it keeps of the
-- entry it was made from. Its pointer to the iterator's entry is the number of the object that the iterator
-- held then; a method that goes through the pointer takes that object, and gives it back. A method also
-- gives the faults that it dispatches.
pub mod Reading
pub mod Stored
use archive_r.Base.{
  ℕ, suc, ◌-◌, ◌^◌, Bool, true, false, not, ◌==◌, Option, none, some, List, [], ◌∷◌, ◌++◌, Text,
  codes, ℤ, pos, negsuc, ltb, map, text_eqb, if◌then◌else◌,
}
use Prim.Native.Nat.{◌%◌}
use archive_r.Hierarchy.{PartsOrdering, natural, given, PathHierarchy}
use archive_r.HierarchyUtils.{hierarchy_display}
use archive_r.Fault.{EntryFault, invalid_argument, Result, ok, throws}
use archive_r.RootMetadata.{FileSystem}
use archive_r.EntryMetadata.{EntryMetadataMap}
use archive_r.EntryImpl.{
  Orchestrators, Impl, name, depth, ReadReply, delivered, refused, raised, set_descent,
  set_multi_volume_group, read,
}
use archive_r.EntryImpl.Creation.{Source, make_entry, is_directory, is_file}
use archive_r.Bindings.Python.{
  PyError, core, value_error, PyResult, returns, raises, Objects, then_py, refuse,
  path_hierarchy_to_python,
}

pub record PyEntry (P R O : Type 0) : Type 0 where
  pub path : Text
  pub entry_name : Text
  pub size : ℤ
  pub entry_depth : ℤ
  pub file : Bool
  pub directory : Bool
  pub path_hierarchy_py : P
  pub path_hierarchy_native : PathHierarchy
  pub metadata_map : EntryMetadataMap
  pub archive_options : O
  pub live_entry : Option ℕ
  pub detached_entry : Option (Impl R O)
  pub detached_orchestrator : Option R
  pub descent_enabled : Bool

-- A number as a signed integer of `bits + 1` bits.
abbrev pub signed : ℕ → ℕ → ℤ
signed bits n =
    let low : ℕ = n % 2 ^ suc bits in
    if ltb low (2 ^ bits) then pos low else negsuc (2 ^ suc bits - 1 - low)

module _ {P R O : Type 0} where
  -- The pointer is set to the numbered object, or cleared.
  unfoldable pub bind_live_entry : ℕ → PyEntry P R O → PyEntry P R O
  bind_live_entry object e = record e { live_entry = some object }

  unfoldable pub release_live_entry : PyEntry P R O → PyEntry P R O
  release_live_entry e = record e { live_entry = none }

module _ {X P W R O : Type 0} (py : Objects X P) (os : Orchestrators W R O) where
  -- What the constructor makes with the Python object of the hierarchy.
  unfoldable pub cached : ℕ → Impl R O → O → P → PyEntry P R O
  cached object entry options hierarchy = record {
    path = hierarchy_display entry.path_hierarchy;
    entry_name = name os entry;
    size = signed 63 entry.size;
    entry_depth = signed 31 (depth os entry);
    file = is_file entry;
    directory = is_directory entry;
    path_hierarchy_py = hierarchy;
    path_hierarchy_native = entry.path_hierarchy;
    metadata_map = entry.metadata;
    archive_options = options;
    live_entry = some object;
    detached_entry = none;
    detached_orchestrator = none;
    descent_enabled = entry.descend_enabled;
  }

  -- The constructor, for the iterator's object of this number.
  unfoldable pub make_py_entry : ℕ → Impl R O → O → PyResult X (PyEntry P R O)
  unfolding cached
  make_py_entry object entry options =
      then_py (λ hierarchy. returns (cached object entry options hierarchy))
        (path_hierarchy_to_python py entry.path_hierarchy)

  -- What a method that changes the entry leaves: the Python object, and the iterator's entry.
  abbrev pub Changed : Type 0
  Changed = PyResult X (Unit {0}) × PyEntry P R O × Impl R O × W × List EntryFault

  unfoldable pub set_py_descent : Bool → PyEntry P R O → Impl R O → W → Changed
  set_py_descent enabled e current w = elim e.live_entry [
    | none ↦
        (raises (value_error (codes "entry is no longer valid for set_descent")), e, current, w, [])
    | some object ↦
        let (changed, faults) = set_descent os enabled current in
        (returns tt, record e { descent_enabled = enabled }, changed, w, faults)
  ]

  -- The text of the parameter `order`, in lower case by `to_lower`.
  unfoldable pub parse_order : (ℕ → ℕ) → Option Text → PyResult X PartsOrdering
  parse_order to_lower none = returns natural
  parse_order to_lower (some order) =
      let normalized = map to_lower order in
      if text_eqb normalized (codes "given")
      then returns given
      else if text_eqb normalized (codes "natural")
      then returns natural
      else refuse (codes "order must be 'natural' or 'given'")

  pub grouped : Text → PyResult X PartsOrdering → PyEntry P R O → Impl R O → W → Changed
  grouped base_name (raises x) e current w = (raises x, e, current, w, [])
  grouped base_name (returns ordering) e current w =
      let (changed, w', faults) = set_multi_volume_group os base_name ordering current w in
      (returns tt, e, changed, w', faults)

  unfoldable pub set_py_multi_volume_group :
      (ℕ → ℕ) → Text → Option Text → PyEntry P R O → Impl R O → W → Changed
  unfolding grouped parse_order
  set_py_multi_volume_group to_lower base_name order e current w = elim e.live_entry [
    | none ↦ (
      raises (value_error (codes "entry is no longer valid for set_multi_volume_group")),
      e,
      current,
      w,
      [],
    )
    | some object ↦ grouped base_name (parse_order to_lower order) e current w
  ]
