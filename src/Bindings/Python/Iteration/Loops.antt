-- ===== src/Bindings/Python/Iteration/Loops.antt =====
-- A `for` loop of Python over the iterator of bindings/python/src/archive_r_py.cc, and the loop from `begin` to
-- `end` of C++ that visits the same entries. Both run on fuel, one for each round, and keep the entries
-- without their pointers. `body` is what the loop's body does to the iterator's entry.
use archive_r.Base.{
  ℕ, zero, suc, ◌≡◌, refl, ap, ◌∙◌, Bool, true, false, not, Option, none, some, List, [], ◌∷◌, ◌++◌,
  length, get_elem?, get_elem?-append, if◌then◌else◌,
}
use archive_r.Fault.{Result, ok, throws}
use archive_r.EntryImpl.{Orchestrators, Impl}
use archive_r.Bindings.Python.{PyError, core, stop_iteration, PyResult, returns, raises, Objects}
use archive_r.Bindings.Python.{then_py, path_hierarchy_to_python}
use archive_r.Bindings.Python.Entries.{
  cached, PyEntry, make_py_entry, bind_live_entry, release_live_entry,
}
use archive_r.Bindings.Python.Iteration.{
  Walks, PyTraverser, release_at, release_last, assigned, reset_iterator,
  initialize_iterator_if_needed, after_increment, advance_if_pending, wrapped, dereferenced,
  yield_current, and_next, next, iter,
}

-- The entries, and how the loop ended; `none` if the fuel ran out.
abbrev pub Collected : Type 0 → Type 0 → Type 0 → Type 0 → Type 0
Collected X P R O = List (PyEntry P R O) × Option (PyError X)

module _ {X I P W R O : Type 0} (py : Objects X P) (os : Orchestrators W R O) (walks : Walks I R O)
    (options : O) (body : I → I) where
  abbrev kept : Collected X P R O → PyResult X (PyEntry P R O) → Collected X P R O
  kept rest (raises x) = ([], some x)
  kept rest (returns p) = (release_live_entry p ∷ rest.0, rest.1)

  abbrev visit :
      (Result (Unit {0}) × I → Collected X P R O) → I → Result (Impl R O) → Collected X P R O
  visit rest it (throws x) = ([], some (core x))
  visit rest it (ok e) = kept (rest (walks.advance (body it))) (make_py_entry py os 0 e options)

  -- From an iterator that was just assigned or after_increment.
  abbrev walk_from : ℕ → Result (Unit {0}) × I → Collected X P R O
  walk_from zero m = ([], none)
  walk_from (suc n) (throws x, it) = ([], some (core x))
  walk_from (suc n) (ok u, it) =
      if walks.at_end it
      then ([], some stop_iteration)
      else visit (walk_from n) it (walks.get_entry it)

  -- `for (auto it = begin(); it != end(); ++it)`.
  abbrev pub cpp_loop : ℕ → Collected X P R O
  cpp_loop n = elim walks.begin [ throws x ↦ ([], some (core x)) | ok it ↦ walk_from n (ok tt, it) ]

  abbrev given_entry : Collected X P R O → Option (PyEntry P R O) → Collected X P R O
  given_entry rest none = rest
  given_entry rest (some p) = (release_live_entry p ∷ rest.0, rest.1)

  abbrev taken :
      (PyTraverser I P R O → Collected X P R O)
      → PyResult X ℕ × PyTraverser I P R O
      → Collected X P R O
  taken rest (raises x, t) = ([], some x)
  taken rest (returns k, t) =
      given_entry (rest (record t { it = body t.it })) (get_elem? t.entries k)

  -- Calls of `__next__` until one raises.
  abbrev next_loop : ℕ → PyTraverser I P R O → Collected X P R O
  next_loop zero t = ([], none)
  next_loop (suc n) t = taken (next_loop n) (next py os walks options t)

  abbrev iterated : ℕ → PyResult X (Unit {0}) × PyTraverser I P R O → Collected X P R O
  iterated n (raises x, t) = ([], some x)
  iterated n (returns u, t) = next_loop n t

  -- `for entry in traverser`.
  abbrev pub python_loop : ℕ → PyTraverser I P R O → Collected X P R O
  python_loop n t = iterated n (iter py os walks options t)

  map_if :
      {A B : Type 0} (f : A → B) (b : Bool) (x y : A) (x' y' : B)
      → f x ≡ x'
      → f y ≡ y'
      → f (if b then x else y) ≡ (if b then x' else y')
  map_if f true x y x' y' left right = left
  map_if f false x y x' y' left right = right

  -- A round behind which the loops agree.
  abbrev Agrees : ℕ → Type 0
  Agrees n =
      (t : PyTraverser I P R O)
      → t.iterator_initialized ≡ true
      → t.advance_pending ≡ true
      → next_loop n t ≡ walk_from n (walks.advance t.it)

  wrapped-taken :
      (n : ℕ) (t : PyTraverser I P R O) (r : PyResult X (PyEntry P R O))
      → t.iterator_initialized ≡ true
      → Agrees n
      → taken (next_loop n) (wrapped py os walks options t r)
        ≡ kept (walk_from n (walks.advance (body t.it))) r
  unfolding wrapped bind_live_entry release_live_entry
  wrapped-taken n t (raises x) begun agrees = refl
  wrapped-taken n t (returns p) begun agrees =
      let given = bind_live_entry t.object p in
      let after : PyTraverser I P R O = record t {
        it = body t.it;
        advance_pending = true;
        last_entry = some (length t.entries);
        entries = t.entries ++ given ∷ [];
      } in
      ap (given_entry (next_loop n after)) (get_elem?-append t.entries [] given)
      ∙ ap (λ m. (release_live_entry p ∷ m.0, m.1)) (agrees after begun refl)

  -- Without its pointer, an entry does not tell from which object it was made.
  kept-hierarchy :
      (object : ℕ) (e : Impl R O) (rest : Collected X P R O) (r : PyResult X P)
      → kept rest (then_py (λ h. returns (cached py os object e options h)) r)
        ≡ kept rest (then_py (λ h. returns (cached py os 0 e options h)) r)
  unfolding cached release_live_entry
  kept-hierarchy object e rest (raises x) = refl
  kept-hierarchy object e rest (returns h) = refl

  kept-object :
      (object : ℕ) (e : Impl R O) (rest : Collected X P R O)
      → kept rest (make_py_entry py os object e options)
        ≡ kept rest (make_py_entry py os 0 e options)
  unfolding make_py_entry
  kept-object object e rest =
      kept-hierarchy object e rest (path_hierarchy_to_python py e.path_hierarchy)

  dereferenced-taken :
      (n : ℕ) (t : PyTraverser I P R O) (r : Result (Impl R O))
      → t.iterator_initialized ≡ true
      → Agrees n
      → taken (next_loop n) (dereferenced py os walks options t r) ≡ visit (walk_from n) t.it r
  unfolding dereferenced
  dereferenced-taken n t (throws x) begun agrees = refl
  dereferenced-taken n t (ok e) begun agrees =
      wrapped-taken n t (make_py_entry py os t.object e options) begun agrees
      ∙ kept-object t.object e (walk_from n (walks.advance (body t.it)))

  yield-taken :
      (n : ℕ) (t : PyTraverser I P R O)
      → t.iterator_initialized ≡ true
      → Agrees n
      → taken (next_loop n) (yield_current py os walks options t) ≡ walk_from (suc n) (ok tt, t.it)
  unfolding yield_current
  yield-taken n t begun agrees =
      map_if (taken (next_loop n)) (walks.at_end t.it) _ _ _ _ refl
        (dereferenced-taken n t (walks.get_entry t.it) begun agrees)

  after_increment-taken :
      (n : ℕ) (t : PyTraverser I P R O) (m : Result (Unit {0}) × I)
      → t.iterator_initialized ≡ true
      → Agrees n
      → taken (next_loop n) (
          and_next py os walks options
            (yield_current py os walks options)
            (after_increment py os walks options t m))
        ≡ walk_from (suc n) m
  unfolding after_increment and_next
  after_increment-taken n t (throws x, it) begun agrees = refl
  after_increment-taken n t (ok u, it) begun agrees = yield-taken n _ begun agrees

  release-initialized :
      (o : Option ℕ) (t : PyTraverser I P R O)
      → (release_at o t).iterator_initialized ≡ t.iterator_initialized
  release-initialized none t = refl
  release-initialized (some k) t = refl

  next-initialized :
      (t : PyTraverser I P R O)
      → t.iterator_initialized ≡ true
      → next py os walks options t
        ≡ and_next py os walks options
            (yield_current py os walks options)
            (advance_if_pending py os walks options t)
  unfolding next initialize_iterator_if_needed and_next
  next-initialized t begun =
      ap
        (λ b. and_next py os walks options (yield_current py os walks options) (
          and_next py os walks options (advance_if_pending py os walks options)
            (if not b then reset_iterator py os walks options t else (returns tt, t))))
        begun

  -- What `next` does before it looks at the iterator.
  advanced :
      (t : PyTraverser I P R O)
      → t.advance_pending ≡ true
      → advance_if_pending py os walks options t
        ≡ after_increment py os walks options (release_last t) (walks.advance t.it)
  unfolding advance_if_pending
  advanced t waits =
      ap
        (λ b.
          if b
          then after_increment py os walks options (release_last t) (walks.advance t.it)
          else (returns tt, t))
        waits

  loops-Agrees : (n : ℕ) → Agrees n
  unfolding release_last
  loops-Agrees zero t begun waits = refl
  loops-Agrees (suc n) t begun waits =
      ap (taken (next_loop n)) (
        next-initialized t begun
        ∙ ap (and_next py os walks options (yield_current py os walks options)) (advanced t waits))
      ∙ after_increment-taken n (release_last t) (walks.advance t.it)
          (release-initialized t.last_entry t ∙ begun) (loops-Agrees n)

  assigned-iterated :
      (n : ℕ) (t : PyTraverser I P R O) (r : Result I)
      → iterated n (assigned py os walks options r t)
        ≡ elim r [ throws x ↦ ([], some (core x)) | ok it ↦ walk_from n (ok tt, it) ]
  unfolding assigned advance_if_pending and_next
  assigned-iterated n t (throws x) = refl
  assigned-iterated zero t (ok it) = refl
  assigned-iterated (suc n) t (ok it) =
      let begun : PyTraverser I P R O = record t {
        it = it;
        object = suc t.object;
        iterator_initialized = true;
        advance_pending = false;
      } in
      ap (taken (next_loop n)) (next-initialized begun refl)
      ∙ yield-taken n begun refl (loops-Agrees n)

  -- A `for` loop of Python over a traverser, in whatever state this is, collects the entries that the loop
  -- from `begin` to `end` of C++ visits, in the same order, and ends the same way: with `StopIteration` where
  -- that loop is at its end, and with the exception that the traverser or the conversion of an entry throws.
  pub python_loop-cpp_loop : (n : ℕ) (t : PyTraverser I P R O) → python_loop n t ≡ cpp_loop n
  unfolding iter reset_iterator
  python_loop-cpp_loop n t = assigned-iterated n (release_last t) walks.begin
