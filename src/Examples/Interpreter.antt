-- ===== src/Examples/Interpreter.antt =====
-- An interpreter of texts and pairs for bindings/python/src/archive_r_py.cc: hierarchies and a factory of streams.
use archive_r.Base.{
  ℕ, ◌≡◌, ◌≢◌, refl, ap, sym, Bool, true, false, Option, none, some, List, [], ◌∷◌, map, pos,
  negsuc, Text, codes, if◌then◌else◌, arith,
}
use archive_r.Hierarchy.{PathHierarchy, multi_volume, given}
use archive_r.HierarchyUtils.{pathhierarchy_volume_size}
use archive_r.VolumeStream.Parts.{make_stream}
use archive_r.Bindings.Python.{
  value_error, PyResult, returns, raises, listed, Objects, path_hierarchy_to_python,
  python_path_hierarchy_from_object,
}
use archive_r.Bindings.Python.Paths.{PyLaws, in_natural, hierarchy_back}
use archive_r.Bindings.Python.Factory.{UserStream, make_user_stream, python_factory}
use archive_r.Bindings.Python.Acceptance.{all_natural, python_factory-accepts}

-- A list is its cells.
pub data Value : Type 0 where
  nothing nil : Value
  text : Text → Value
  cell : Value → Value → Value

pub items : Value → List Value
items (cell v rest) = v ∷ items rest
items _ = []

pub list_of : List Value → Value
list_of [] = nil
list_of (v ∷ vs) = cell v (list_of vs)

items-list_of : (vs : List Value) → items (list_of vs) ≡ vs
unfolding items list_of
items-list_of [] = refl
items-list_of (v ∷ vs) = ap (◌∷◌ v) (items-list_of vs)

abbrev is_text : Value → Bool
is_text (text t) = true
is_text _ = false

abbrev is_nothing : Value → Bool
is_nothing nothing = true
is_nothing _ = false

abbrev text_of : Value → PyResult (Unit {0}) Text
text_of (text t) = returns t
text_of _ = raises (value_error [])

abbrev pub interpreter : Objects (Unit {0}) Value
interpreter = record {
  is_none = is_nothing;
  is_callable = λ v. false;
  is_str = is_text;
  cast_bool = λ v. returns true;
  cast_string = text_of;
  as_list = λ v. listed (items v);
  make_str = λ t. returns (text t);
  make_list = list_of;
}

abbrev or_text : PyResult (Unit {0}) Value → Value
or_text (returns v) = v
or_text (raises e) = nil

interpreter-laws : PyLaws interpreter
unfolding list_of items
interpreter-laws = record {
  str_is = λ t p e. sym (ap (λ r. is_text (or_text r)) e);
  str_cast = λ t p e. sym (ap (λ r. text_of (or_text r)) e);
  list_is = lists_no_text;
  list_as = λ ps. ap listed (items-list_of ps);
}
  where
    lists_no_text : (ps : List Value) → is_text (list_of ps) ≡ false
    lists_no_text [] = refl
    lists_no_text (p ∷ ps) = refl

-- A file in two volumes, which are kept as they were given.
abbrev volumes : PathHierarchy
volumes = multi_volume (record { values = codes "b" ∷ codes "a" ∷ []; ordering = given }) ∷ []

abbrev volumes_object : Value
volumes_object = cell (cell (text (codes "b")) (cell (text (codes "a")) nil)) nil

volumes-ne-nil : volumes ≢ []
volumes-ne-nil e = absurd (ground arith)

volumes-HasParts : (codes "b" ∷ codes "a" ∷ []) ≢ []
volumes-HasParts e = absurd (ground arith)

volumes_sent : path_hierarchy_to_python interpreter volumes ≡ returns volumes_object
unfolding path_hierarchy_to_python list_of
volumes_sent = refl

hierarchy_back_example :
    python_path_hierarchy_from_object interpreter volumes_object ≡ returns (map in_natural volumes)
hierarchy_back_example =
    hierarchy_back interpreter interpreter-laws volumes volumes_object volumes-ne-nil
      (volumes-HasParts, tt) volumes_sent

-- The stream that the callable makes.
abbrev stream_made : PyResult (Unit {0}) (UserStream (Unit {0}))
stream_made = make_user_stream interpreter tt volumes_object nothing

abbrev or_none : PyResult (Unit {0}) (UserStream (Unit {0})) → Option (UserStream (Unit {0}))
or_none (returns s) = some s
or_none (raises e) = none

abbrev volumes_stream : UserStream (Unit {0})
volumes_stream = (
  record { logical_path = map in_natural volumes; supports_seek = true; total_parts = 2 },
  record {
    part_offsets = pos 0 ∷ pos 0 ∷ pos 0 ∷ [];
    active_part_index = 0;
    open_part_index = 0;
    part_open = false;
    logical_offset = pos 0;
    total_size = negsuc 0;
    device = tt;
  },
)

-- The callable, over a counter of nothing.
abbrev make_same : Value → ℕ → PyResult (Unit {0}) Value × ℕ
make_same v w = (returns v, w)

stream_known : stream_made ≡ returns volumes_stream
unfolding make_user_stream make_stream pathhierarchy_volume_size items
    python_path_hierarchy_from_object
stream_known = refl

python_factory-accepts_example :
    python_factory interpreter (λ v. some volumes_stream) make_same volumes 0 ≡ (
      if all_natural volumes
          then returns (some volumes_stream)
          else raises (
              value_error (
                codes
                  "Stream subclass must be initialized with the hierarchy provided to the factory")),
      0,
    )
python_factory-accepts_example =
    python_factory-accepts interpreter interpreter-laws (λ v. some volumes_stream) make_same volumes
      0 0 volumes_object volumes_object nothing tt volumes_stream volumes-ne-nil
      (volumes-HasParts, tt) volumes_sent refl refl stream_known refl
