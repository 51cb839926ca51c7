-- ===== src/Bindings/Python/Iteration/Live.antt =====
-- Which entries of Python's iterator over a traverser (bindings/python/src/archive_r_py.cc) still point to an
-- entry object of the iterator of C++, over sequences of calls.
use archive_r.Bindings.Python.Iteration.Releases.{
  either-holds, IsReleased, pushed-OnlyLive, changed-OnlyLive, IsSafe, released-IsSafe,
  release_at-IsReleased, release_last-IsReleased,
}
use archive_r.Base.{
  ℕ, ◌≡◌, refl, false, not, none, some, List, [], ◌∷◌, get_elem?, get_elem?-append, arith,
}
use archive_r.Fault.{Result, ok, throws}
use archive_r.EntryImpl.{Orchestrators, Impl}
use archive_r.Bindings.Python.{PyResult, returns, raises, stop_iteration, Objects}
use archive_r.Bindings.Python.Entries.{PyEntry, make_py_entry, bind_live_entry}
use archive_r.Bindings.Python.Iteration.{
  Walks, PyTraverser, change_at, make_py_traverser, release_last, assigned, reset_iterator,
  initialize_iterator_if_needed, after_increment, advance_if_pending, wrapped, dereferenced,
  yield_current, and_next, next, iter, enter, exit,
}

module _ {X I P W R O : Type 0} (py : Objects X P) (os : Orchestrators W R O) (walks : Walks I R O)
    (options : O) where
  -- A call of Python's: of the traverser, or of an entry, which changes this entry and perhaps the
  -- iterator's in place.
  pub data Call : Type 0 where
    iterates enters exits nexts : Call
    uses :
        (k : ℕ) (f : PyEntry P R O → PyEntry P R O)
        → ((e : PyEntry P R O) → (f e).live_entry ≡ e.live_entry)
        → (I → I)
        → Call

  unfoldable pub call : Call → PyTraverser I P R O → PyTraverser I P R O
  call iterates t = (iter py os walks options t).1
  call enters t = (enter py os walks options t).1
  call exits t = exit py os walks options t
  call nexts t = (next py os walks options t).1
  call (uses k f keeps changes) t = record t {
    it = changes t.it;
    entries = change_at k f t.entries;
  }

  unfoldable pub calls : List Call → PyTraverser I P R O → PyTraverser I P R O
  unfolding call
  calls [] t = t
  calls (c ∷ cs) t = calls cs (call c t)

  -- An entry that was given points to the iterator's object.
  abbrev pub Yields : PyResult X ℕ × PyTraverser I P R O → Type 0
  Yields (raises x, t) = Unit {0}
  Yields (returns k, t) =
      (e : PyEntry P R O) × (get_elem? t.entries k ≡ some e) × (e.live_entry ≡ some t.object)

  abbrev Safely : {A : Type 0} → PyResult X A × PyTraverser I P R O → Type 0
  Safely m = IsSafe m.1

  assigned-IsReleased :
      (r : Result I) (t : PyTraverser I P R O)
      → IsReleased t.entries
      → IsReleased (assigned py os walks options r t).1.entries
  unfolding assigned
  assigned-IsReleased (ok it) t released = released
  assigned-IsReleased (throws x) t released = released

  reset-IsReleased :
      (t : PyTraverser I P R O)
      → IsSafe t
      → IsReleased (reset_iterator py os walks options t).1.entries
  unfolding reset_iterator
  reset-IsReleased t safe =
      assigned-IsReleased walks.begin (release_last t) (release_last-IsReleased t safe)

  initialize-IsSafe :
      (t : PyTraverser I P R O)
      → IsSafe t
      → IsSafe (initialize_iterator_if_needed py os walks options t).1
  unfolding initialize_iterator_if_needed
  initialize-IsSafe t safe =
      either-holds Safely (not t.iterator_initialized) (reset_iterator py os walks options t)
        (returns tt, t)
        (λ e. released-IsSafe (reset_iterator py os walks options t).1 (reset-IsReleased t safe))
        (λ e. safe)

  after_increment-IsReleased :
      (t : PyTraverser I P R O) (m : Result (Unit {0}) × I)
      → IsReleased t.entries
      → IsReleased (after_increment py os walks options t m).1.entries
  unfolding after_increment
  after_increment-IsReleased t (ok u, it) released = released
  after_increment-IsReleased t (throws x, it) released = released

  advance-IsReleased :
      (t : PyTraverser I P R O)
      → IsSafe t
      → IsReleased (advance_if_pending py os walks options t).1.entries
  unfolding advance_if_pending
  advance-IsReleased t safe =
      either-holds (λ m. IsReleased m.1.entries) t.advance_pending
        (after_increment py os walks options (release_last t) (walks.advance t.it)) (returns tt, t)
        (λ e.
          after_increment-IsReleased (release_last t) (walks.advance t.it)
            (release_last-IsReleased t safe))
        safe.1

  -- What `next` leaves.
  abbrev pub NextSafe : PyResult X ℕ × PyTraverser I P R O → Type 0
  NextSafe m = IsSafe m.1 × Yields m

  wrapped-NextSafe :
      (t : PyTraverser I P R O) (r : PyResult X (PyEntry P R O))
      → IsReleased t.entries
      → NextSafe (wrapped py os walks options t r)
  unfolding wrapped bind_live_entry
  wrapped-NextSafe t (raises x) released = (released-IsSafe t released, tt)
  wrapped-NextSafe t (returns e) released = (
    (pushed-OnlyLive t.object t.entries e released, λ f. absurd (ground arith)),
    (bind_live_entry t.object e, get_elem?-append t.entries [] (bind_live_entry t.object e), refl),
  )

  dereferenced-NextSafe :
      (t : PyTraverser I P R O) (r : Result (Impl R O))
      → IsReleased t.entries
      → NextSafe (dereferenced py os walks options t r)
  unfolding dereferenced
  dereferenced-NextSafe t (throws x) released = (released-IsSafe t released, tt)
  dereferenced-NextSafe t (ok entry) released =
      wrapped-NextSafe t (make_py_entry py os t.object entry options) released

  yield-NextSafe :
      (t : PyTraverser I P R O)
      → IsReleased t.entries
      → NextSafe (yield_current py os walks options t)
  unfolding yield_current
  yield-NextSafe t released =
      either-holds NextSafe (walks.at_end t.it)
        (raises stop_iteration, record t { iterator_initialized = false })
        (dereferenced py os walks options t (walks.get_entry t.it))
        (λ e. (released-IsSafe (record t { iterator_initialized = false }) released, tt))
        (λ e. dereferenced-NextSafe t (walks.get_entry t.it) released)

  and_next-NextSafe :
      (m : PyResult X (Unit {0}) × PyTraverser I P R O)
      → IsReleased m.1.entries
      → NextSafe (and_next py os walks options (yield_current py os walks options) m)
  unfolding and_next
  and_next-NextSafe (raises x, t) released = (released-IsSafe t released, tt)
  and_next-NextSafe (returns u, t) released = yield-NextSafe t released

  advanced-NextSafe :
      (m : PyResult X (Unit {0}) × PyTraverser I P R O)
      → IsSafe m.1
      → NextSafe (
          and_next py os walks options
            (yield_current py os walks options)
            (and_next py os walks options (advance_if_pending py os walks options) m))
  unfolding and_next
  advanced-NextSafe (raises x, t) safe = (safe, tt)
  advanced-NextSafe (returns u, t) safe =
      and_next-NextSafe (advance_if_pending py os walks options t) (advance-IsReleased t safe)

  pub next-NextSafe : (t : PyTraverser I P R O) → IsSafe t → NextSafe (next py os walks options t)
  unfolding next
  next-NextSafe t safe =
      advanced-NextSafe (initialize_iterator_if_needed py os walks options t)
        (initialize-IsSafe t safe)

  call-IsSafe : (c : Call) (t : PyTraverser I P R O) → IsSafe t → IsSafe (call c t)
  unfolding call iter enter exit
  call-IsSafe iterates t safe =
      released-IsSafe (reset_iterator py os walks options t).1 (reset-IsReleased t safe)
  call-IsSafe enters t safe =
      released-IsSafe (reset_iterator py os walks options t).1 (reset-IsReleased t safe)
  call-IsSafe exits t safe = released-IsSafe (exit py os walks options t) (
      release_at-IsReleased t.last_entry
        (record t { iterator_initialized = false; advance_pending = false }) safe.0)
  call-IsSafe nexts t safe = (next-NextSafe t safe).0
  call-IsSafe (uses k f keeps changes) t safe = (
    changed-OnlyLive t.last_entry t.object k f t.entries keeps safe.0,
    λ e. changed-OnlyLive none t.object k f t.entries keeps (safe.1 e),
  )

  calls-IsSafe : (cs : List Call) (t : PyTraverser I P R O) → IsSafe t → IsSafe (calls cs t)
  unfolding calls
  calls-IsSafe [] t safe = safe
  calls-IsSafe (c ∷ cs) t safe = calls-IsSafe cs (call c t) (call-IsSafe c t safe)

  -- After any calls of Python's on a new traverser and on the entries that it gave, whatever they raise, no
  -- entry points to an object of the iterator that is gone: at most the last one points to an object, and
  -- that is the iterator's. What the next `__next__` returns points to the iterator's object then.
  pub calls-NextSafe :
      (cs : List Call)
      → let t = calls cs (make_py_traverser py os walks options) in
        IsSafe t × NextSafe (next py os walks options t)
  unfolding make_py_traverser
  calls-NextSafe cs =
      let start = make_py_traverser py os walks options in
      let safe = calls-IsSafe cs start (released-IsSafe start tt) in
      (safe, next-NextSafe (calls cs start) safe)
