-- ===== src/Bindings/Python/Factory.antt =====
-- The factory of root streams that bindings/python/src/archive_r_py.cc registers for a Python callable, and
-- the constructor of its streams. The reference counts that keep objects alive are left out.
use archive_r.Base.{Bool, true, not, Option, none, some, codes, if◌then◌else◌}
use archive_r.Hierarchy.{PathHierarchy, hierarchies_equal}
use archive_r.Fault.{Result, ok, throws}
use archive_r.DataStream.{set_root_stream_factory}
use archive_r.VolumeStream.Parts.{Config, Stream, make_stream}
use archive_r.Bindings.Python.{
  core, value_error, type_error, PyResult, returns, raises, Objects, then_py,
  path_hierarchy_to_python, python_path_hierarchy_from_object,
}

-- A `PyUserStream`: what never changes in it, and what does.
abbrev pub UserStream : Type 0 → Type 0
UserStream B = Config × Stream B

-- What a factory of C++ is: it returns a stream or null, or throws.
abbrev pub RootStreamFactory : Type 0 → Type 0 → Type 0 → Type 0
RootStreamFactory X W B = PathHierarchy → W → PyResult X (Option (UserStream B)) × W

abbrev pub constructed : {X B : Type 0} → Result (UserStream B) → PyResult X (UserStream B)
constructed (ok s) = returns s
constructed (throws e) = raises (core e)

module _ {X P : Type 0} (py : Objects X P) where
  -- `None` stands for a stream that can seek.
  unfoldable pub supports : P → PyResult X Bool
  supports obj = if py.is_none obj then returns true else py.cast_bool obj

  -- `Stream(hierarchy, supports_seek)`; `device` holds the members of `PyUserStream` itself.
  unfoldable pub make_user_stream : {B : Type 0} → B → P → P → PyResult X (UserStream B)
  unfolding supports
  make_user_stream device hierarchy supports_seek =
      then_py
        (λ path.
          then_py (λ seeks. constructed (make_stream path seeks device)) (supports supports_seek))
        (python_path_hierarchy_from_object py hierarchy)

unfoldable pub accepted :
    {X B : Type 0} → PathHierarchy → Option (UserStream B) → PyResult X (Option (UserStream B))
accepted hierarchy none =
    raises (type_error (codes "stream factory must return None or an archive_r.Stream instance"))
accepted hierarchy (some (c, s)) =
    if not (hierarchies_equal c.logical_path hierarchy)
    then raises (
        value_error
          (codes "Stream subclass must be initialized with the hierarchy provided to the factory"))
    else returns (some (c, s))

module _ {X P W B : Type 0} (py : Objects X P) (stream_of : P → Option (UserStream B)) where
  unfoldable pub called : PathHierarchy → PyResult X P × W → PyResult X (Option (UserStream B)) × W
  unfolding accepted
  called hierarchy (raises e, w) = (raises e, w)
  called hierarchy (returns result, w) =
      (if py.is_none result then returns none else accepted hierarchy (stream_of result), w)

  unfoldable pub call_with :
      (P → W → PyResult X P × W)
      → PathHierarchy
      → PyResult X P
      → W
      → PyResult X (Option (UserStream B)) × W
  unfolding called
  call_with func hierarchy (raises e) w = (raises e, w)
  call_with func hierarchy (returns arg) w = called hierarchy (func arg w)

  unfoldable pub python_factory : (P → W → PyResult X P × W) → RootStreamFactory X W B
  unfolding call_with
  python_factory func hierarchy w =
      call_with func hierarchy (path_hierarchy_to_python py hierarchy) w

  -- `call` calls a Python object.
  unfoldable pub register_python_stream_factory :
      (P → P → W → PyResult X P × W)
      → P
      → Option (RootStreamFactory X W B)
      → PyResult X (Unit {0}) × Option (RootStreamFactory X W B)
  unfolding python_factory set_root_stream_factory
  register_python_stream_factory call callable storage =
      if py.is_none callable
      then (returns tt, set_root_stream_factory none storage)
      else if not (py.is_callable callable)
      then (raises (type_error (codes "stream factory must be callable")), storage)
      else (returns tt, set_root_stream_factory (some (python_factory (call callable))) storage)
