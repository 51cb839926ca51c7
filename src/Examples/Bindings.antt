-- ===== src/Examples/Bindings.antt =====
-- The bindings to Python of bindings/python/src/archive_r_py.cc over an interpreter of strings and lists.
use archive_r.Examples.Interpreter.{Value, nil, interpreter}
use archive_r.Base.{
  ℕ, zero, suc, ◌<◌, ◌≡◌, refl, sym, Bool, true, false, none, some, List, [], ◌∷◌, take, drop,
  take-append-drop, pos, Text, codes, arith,
}
use archive_r.Hierarchy.{single}
use archive_r.Fault.{logic_error, Result, ok, throws}
use archive_r.EntryImpl.{
  Orchestrators, Impl, emitted_fault, set_descent, read, delivered, ensure_orchestrator,
}
use archive_r.EntryImpl.Creation.{Source}
use archive_r.EntryImpl.Descent.{read-set_descent}
use archive_r.Bindings.Python.{returns}
use archive_r.Bindings.Python.Entries.{PyEntry}
use archive_r.Bindings.Python.Entries.Reading.{py_read}
use archive_r.Bindings.Python.Iteration.{Walks, make_py_traverser, next}
use archive_r.Bindings.Python.Iteration.Releases.{IsSafe}
use archive_r.Bindings.Python.Iteration.Live.{NextSafe, iterates, nexts, calls, calls-NextSafe}
use archive_r.Bindings.Python.Iteration.Loops.{cpp_loop, python_loop, python_loop-cpp_loop}
use archive_r.Examples.Files.{file_system}
use archive_r.Examples.Sharing.{one_file, unopened, bytes_cursor, three_bytes, one_object, holding}
use archive_r.StreamArchive.{ArchiveOption, no_options}
use archive_r.Orchestrator.{depth}
use archive_r.EntryImpl.Store.{Store, stored_orchestrators}
use archive_r.Bindings.Python.Entries.Stored.{Readable, IsOpen, unread_through, py_read-stored}

-- An entry that Python holds, and that points to the iterator's.
abbrev held_entry : PyEntry Value ℕ ArchiveOption
held_entry = record {
  path = codes "f";
  entry_name = codes "f";
  size = pos 3;
  entry_depth = pos 0;
  file = true;
  directory = false;
  path_hierarchy_py = nil;
  path_hierarchy_native = single (codes "f") ∷ [];
  metadata_map = [];
  archive_options = no_options;
  live_entry = some 1;
  detached_entry = none;
  detached_orchestrator = none;
  descent_enabled = true;
}

abbrev no_source : ℕ → Store bytes_cursor → Source ArchiveOption
no_source r w = record { keys = []; archive = none; stack_depth = 0; options = no_options }

taken-nil : (n : ℕ) (w : List ℕ) → 0 < n → take n w ≡ [] → w ≡ []
taken-nil n [] more e = refl
taken-nil zero (b ∷ w) more e = absurd (ground arith)
taken-nil (suc n) (b ∷ w) more e = absurd (ground arith)

bytes_cursor-Readable : Readable bytes_cursor
bytes_cursor-Readable = record {
  Open = λ bs. Unit {0};
  unread = λ bs. bs;
  reads = λ n bs more opened.
      (take n bs, drop n bs, refl, tt, refl, sym (take-append-drop n bs), taken-nil n bs more);
}

reading-IsOpen : IsOpen bytes_cursor-Readable holding one_object
unfolding depth
reading-IsOpen = record {
  reference = 0;
  object = three_bytes;
  held = refl;
  found = refl;
  kept = refl;
  open_lem = unfold bytes_cursor-Readable in tt;
}

py_read-stored_example :
    let (r, e', current', store', faults) =
      py_read {X = Unit {0}}
        (stored_orchestrators bytes_cursor)
        file_system
        no_source
        4
        none
        held_entry
        holding
        one_object in
    (r ≡ some (returns (codes "abc")))
    × (unread_through bytes_cursor-Readable current'.orchestrator store' ≡ [])
unfolding bytes_cursor-Readable
py_read-stored_example =
    py_read-stored bytes_cursor-Readable file_system no_source 4 1 held_entry holding one_object
      refl reading-IsOpen (omega arith)

-- An orchestrator that is at no archive.
abbrev outside_archives : Orchestrators (List ℕ) (Unit {0}) (Unit {0})
outside_archives = record one_file { stack_depth = λ r w. 0 }

-- An entry of the traverser.
abbrev traversed : Impl (Unit {0}) (Unit {0})
traversed = record unopened { orchestrator = some tt; shares_traverser_orchestrator = true }

abbrev after_reading : Impl (Unit {0}) (Unit {0})
after_reading = record unopened { descend_enabled = false; orchestrator = some tt }

traversed_read :
    read outside_archives 2 traversed (codes "abc")
    ≡ (delivered (codes "ab"), after_reading, codes "c", [])
unfolding read ensure_orchestrator
traversed_read = refl

read-set_descent_example : set_descent outside_archives true after_reading ≡ (
  after_reading,
  emitted_fault outside_archives after_reading
        (codes "set_descent requires traverser-managed orchestrator")
      ∷ [],
)
read-set_descent_example =
    read-set_descent outside_archives 2 true traversed after_reading tt (codes "abc") (codes "c")
      (codes "ab") [] refl refl traversed_read

-- A walk over the entries with these names; there is none behind the last one.
abbrev named : Text → Impl (Unit {0}) (Unit {0})
named t = record unopened { path_hierarchy = single t ∷ [] }

abbrev first_of : List Text → Result (Impl (Unit {0}) (Unit {0}))
first_of [] = throws (logic_error (codes "Cannot dereference end iterator"))
first_of (t ∷ ts) = ok (named t)

abbrev no_names : List Text → Bool
no_names [] = true
no_names (t ∷ ts) = false

abbrev two_names : Walks (List Text) (Unit {0}) (Unit {0})
two_names = record {
  begin = ok (codes "a" ∷ codes "b" ∷ []);
  end = [];
  advance = λ it. (ok tt, drop 1 it);
  at_end = no_names;
  get_entry = first_of;
}

calls-NextSafe_example :
    let t =
      calls interpreter one_file two_names tt
        (iterates ∷ nexts ∷ nexts ∷ [])
        (make_py_traverser interpreter one_file two_names tt) in
    IsSafe t × NextSafe interpreter one_file two_names tt (next interpreter one_file two_names tt t)
calls-NextSafe_example =
    calls-NextSafe interpreter one_file two_names tt (iterates ∷ nexts ∷ nexts ∷ [])

python_loop-cpp_loop_example :
    python_loop interpreter one_file two_names tt
      (λ it. it)
      3
      (make_py_traverser interpreter one_file two_names tt)
    ≡ cpp_loop interpreter one_file two_names tt (λ it. it) 3
python_loop-cpp_loop_example =
    python_loop-cpp_loop interpreter one_file two_names tt (λ it. it) 3
      (make_py_traverser interpreter one_file two_names tt)
