-- ===== src/Bindings/Python/Iteration.antt =====
-- `PyTraverser` of bindings/python/src/archive_r_py.cc, Python's iterator over a traverser. The entries that it
-- gave to Python are a list, and a reference to one is its position. The iterator of C++ owns one entry
-- object; each assignment to the iterator and each increment of it makes another, which `object` counts.
pub mod Releases
pub mod Live
pub mod Loops
use archive_r.Base.{
  ℕ, zero, suc, Bool, true, false, not, Option, none, some, List, [], ◌∷◌, ◌++◌, length,
  if◌then◌else◌,
}
use archive_r.Hierarchy.{PathHierarchy}
use archive_r.Fault.{Result, ok, throws}
use archive_r.EntryImpl.{Orchestrators, Impl}
use archive_r.Bindings.Python.{
  PyError, core, stop_iteration, PyResult, returns, raises, Objects, then_py,
}
use archive_r.Bindings.Python.Entries.{PyEntry, make_py_entry, bind_live_entry, release_live_entry}

-- The traverser and its iterator `I`, whose entries hold references `R` and options `O`.
pub record Walks (I R O : Type 0) : Type 0 where
  pub begin : Result I
  pub end : I
  pub advance : I → Result (Unit {0}) × I
  pub at_end : I → Bool
  pub get_entry : I → Result (Impl R O)

pub record PyTraverser (I P R O : Type 0) : Type 0 where
  pub it : I
  pub object : ℕ
  pub iterator_initialized : Bool
  pub advance_pending : Bool
  pub last_entry : Option ℕ
  pub entries : List (PyEntry P R O)

abbrev pub change_at : {A : Type 0} → ℕ → (A → A) → List A → List A
change_at k f [] = []
change_at zero f (x ∷ xs) = f x ∷ xs
change_at (suc k) f (x ∷ xs) = x ∷ change_at k f xs

module _ {I P R O : Type 0} where
  abbrev pub release_at : Option ℕ → PyTraverser I P R O → PyTraverser I P R O
  release_at none t = t
  release_at (some k) t = record t {
    last_entry = none;
    entries = change_at k release_live_entry t.entries;
  }

  -- The entry given last is released, and forgotten.
  unfoldable pub release_last : PyTraverser I P R O → PyTraverser I P R O
  release_last t = release_at t.last_entry t

module _ {X I P W R O : Type 0} (py : Objects X P) (os : Orchestrators W R O) (walks : Walks I R O)
    (options : O) where
  -- What a method returns or raises, and the traverser afterwards.
  abbrev pub Turn : Type 0 → Type 0
  Turn A = PyResult X A × PyTraverser I P R O

  -- The constructor's members.
  unfoldable pub make_py_traverser : PyTraverser I P R O
  make_py_traverser = record {
    it = walks.end;
    object = 0;
    iterator_initialized = false;
    advance_pending = false;
    last_entry = none;
    entries = [];
  }

  unfoldable pub assigned : Result I → PyTraverser I P R O → Turn (Unit {0})
  assigned (throws x) t = (raises (core x), t)
  assigned (ok it) t = (
    returns tt,
    record t {
      it = it;
      object = suc t.object;
      iterator_initialized = true;
      advance_pending = false;
    },
  )

  unfoldable pub reset_iterator : PyTraverser I P R O → Turn (Unit {0})
  unfolding assigned release_last
  reset_iterator t = assigned walks.begin (release_last t)

  unfoldable pub initialize_iterator_if_needed : PyTraverser I P R O → Turn (Unit {0})
  unfolding reset_iterator
  initialize_iterator_if_needed t =
      if not t.iterator_initialized then reset_iterator t else (returns tt, t)

  -- `++it`, and what follows it.
  unfoldable pub after_increment : PyTraverser I P R O → Result (Unit {0}) × I → Turn (Unit {0})
  after_increment t (throws x, it) = (raises (core x), record t { it = it; object = suc t.object })
  after_increment t (ok u, it) =
      (returns tt, record t { it = it; object = suc t.object; advance_pending = false })

  unfoldable pub advance_if_pending : PyTraverser I P R O → Turn (Unit {0})
  unfolding after_increment release_last
  advance_if_pending t =
      if t.advance_pending
      then after_increment (release_last t) (walks.advance t.it)
      else (returns tt, t)

  -- The new entry is given to Python; the result is its position.
  unfoldable pub wrapped : PyTraverser I P R O → PyResult X (PyEntry P R O) → Turn ℕ
  unfolding bind_live_entry
  wrapped t (raises x) = (raises x, t)
  wrapped t (returns e) = (
    returns (length t.entries),
    record t {
      advance_pending = true;
      last_entry = some (length t.entries);
      entries = t.entries ++ bind_live_entry t.object e ∷ [];
    },
  )

  unfoldable pub dereferenced : PyTraverser I P R O → Result (Impl R O) → Turn ℕ
  unfolding wrapped make_py_entry
  dereferenced t (throws x) = (raises (core x), t)
  dereferenced t (ok entry) = wrapped t (make_py_entry py os t.object entry options)

  unfoldable pub yield_current : PyTraverser I P R O → Turn ℕ
  unfolding dereferenced
  yield_current t =
      if walks.at_end t.it
      then (raises stop_iteration, record t { iterator_initialized = false })
      else dereferenced t (walks.get_entry t.it)

  unfoldable pub and_next : {A : Type 0} → (PyTraverser I P R O → Turn A) → Turn (Unit {0}) → Turn A
  and_next next (raises x, t) = (raises x, t)
  and_next next (returns u, t) = next t

  unfoldable pub next : PyTraverser I P R O → Turn ℕ
  unfolding and_next yield_current advance_if_pending initialize_iterator_if_needed
  next t = and_next yield_current (and_next advance_if_pending (initialize_iterator_if_needed t))

  -- `__iter__` and `__enter__`.
  unfoldable pub iter : PyTraverser I P R O → Turn (Unit {0})
  unfolding reset_iterator
  iter t = reset_iterator t

  unfoldable pub enter : PyTraverser I P R O → Turn (Unit {0})
  unfolding reset_iterator
  enter t = reset_iterator t

  unfoldable pub exit : PyTraverser I P R O → PyTraverser I P R O
  unfolding release_last
  exit t =
      let t' = release_last (record t { iterator_initialized = false; advance_pending = false }) in
      record t' { it = walks.end; object = suc t'.object }
