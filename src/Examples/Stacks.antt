-- ===== src/Examples/Stacks.antt =====
-- The cursor and the orchestrator of src/archive_stack_cursor.cc and src/archive_stack_orchestrator.cc over a
-- library in which every stream is an archive of one entry, `a`.
use mathlib.Core.Path.{subst}
use archive_r.Base.{
  ◌↔◌, ℕ, ◌<◌, ◌≤◌, ◌≡◌, ◌≢◌, refl, ap, sym, ◌∙◌, Bool, true, false, none, some, [], ◌∷◌, Text,
  codes, pos, negsuc, arith,
}
use archive_r.Hierarchy.{PathHierarchy, single}
use archive_r.Fault.{ok}
use archive_r.VolumeStream.Parts.{bytes, done, at, make_stream}
use archive_r.HierarchyUtils.{pathhierarchy_volume_size}
use archive_r.SystemFileStream.{Stdio}
use archive_r.DataStream.{DataStream}
use archive_r.ArchiveReader.Handle.{HeaderRead, header, end_of_archive}
use archive_r.ArchiveReader.{skip_to_entry, skip_to_next_header}
use archive_r.ArchiveReader.Setup.{new_read_archive_common}
use archive_r.ArchiveReader.Setup.Opened.{Opens, new_read_archive_common-Opens}
use archive_r.ArchiveReader.Finite.{skip_to_entry-ne-none}
use archive_r.ArchiveReader.Fuel.{IsFree}
use archive_r.StreamArchive.{Library, no_options, stream_archive}
use archive_r.StackCursor.{
  Context, custom, root, Opened, no_stream, Place, outside, inside, Cursor, chain_stream,
  root_hierarchy, entry_hierarchy,
}
use archive_r.StackCursor.Moves.{create_current, next_from, descend_from, ascend_from}
use archive_r.StackCursor.Moves.Nesting.{Reports, IsNested, Outcome}
use archive_r.StackCursor.Moves.Levels.{
  DescendedFrom, descend-Descended, AscendedFrom, ascend-Ascended, NextFrom, next-Next,
}
use archive_r.StackCursor.Sync.{synchronize_place}
use archive_r.StackCursor.Sync.Targets.{EndsAt, synchronize-Reached}
use archive_r.StackCursor.Sync.Enough.{synchronize-IsFree}
use archive_r.StackCursor.Operations.{stack_cursor}
use archive_r.StackCursor.Operations.Finite.{FiniteLibrary, finite_archive}
use archive_r.StackCursor.Operations.Laws.{cursor-advance}
use archive_r.Orchestrator.{Orchestrator, Act, advance}
use archive_r.Orchestrator.Outcomes.{EndsWell, Extends, AdvancesFrom, advance-Advances}

-- A handle tells whether the entry is still to come.
abbrev next_single : Bool → HeaderRead Text × Bool
next_single true = (header (codes "a"), false)
next_single false = (end_of_archive, false)

abbrev keep_stream : {S : Type 0} → HeaderRead Text × Bool → S → HeaderRead Text × (Bool × S)
keep_stream (read, h) s = (read, (h, s))

abbrev pub one_entry : Library Bool Text
one_entry = record {
  calls = record {
    read_new = some false;
    support_format_all = λ h. h;
    support_format = λ f h. (true, h);
    support_filter_all = λ h. h;
    add_passphrase = λ p h. (true, h);
    handle_error_string = λ h. none;
    handle_errno = λ h. pos 0;
  };
  null_handle = false;
  close_and_free = λ h. h;
  read_open = λ c (h, s). (true, (true, s));
  read_next_header = λ c (h, s). keep_stream (next_single h) s;
  read_data_skip = λ c w. (true, w);
  read_data = λ c n w. (bytes [], w);
  pathname = λ e. some e;
  size = λ e. 0;
  filetype = λ e. 0;
}

abbrev count_single : Bool → ℕ
count_single true = 1
count_single false = 0

abbrev is_header : HeaderRead Text → Bool
is_header (header e) = true
is_header _ = false

count-bound : (h : Bool) → count_single h ≤ 1
count-bound true = omega arith
count-bound false = omega arith

single-next :
    {S : Type 0} (h : Bool) (s : S) (e : Text) (w' : Bool × S)
    → keep_stream (next_single h) s ≡ (header e, w')
    → count_single w'.0 < count_single h
single-next true s e w' read = subst (λ b. count_single b < 1) (ap (λ r. r.1.0) read) (omega arith)
single-next false s e w' read =
    let both : false ≡ true = ap (λ r. is_header r.0) read in absurd (ground arith)

finite : FiniteLibrary one_entry
finite = record {
  headers = count_single;
  bound = 1;
  within = count-bound;
  next_headers = λ c w. single-next w.0 w.1;
  skip_headers = λ c w. omega arith;
}

abbrev no_files : Stdio (Unit {0})
no_files = record {
  fopen = λ p w. (false, w);
  fclose = λ w. w;
  fread = λ n w. ([], w);
  feof = λ w. true;
  ferror = λ w. false;
  fseeko = λ k w. (false, w);
  stat_size = λ p w. none;
  errno = λ w. pos 2;
  strerror = λ e. [];
}

-- An empty stream.
abbrev empty_stream : DataStream (Unit {0})
empty_stream = record {
  read = λ n s. (done [], s);
  rewind = λ s. (ok tt, s);
  seek = λ k whence s. (at (negsuc 0), s);
  tell = λ s. negsuc 0;
  can_seek = false;
}

-- A factory that knows every hierarchy.
abbrev pub context : Context Bool Text (Unit {0}) PathHierarchy (Unit {0})
context = record {
  library = one_entry;
  stdio = no_files;
  world = tt;
  factory = some (λ h. some (h, tt));
  custom_hierarchy = λ h. h;
  custom_stream = λ h. empty_stream;
  fuel = 5;
}

context-Reports : Reports context
context-Reports make h f s known made =
    let same : some (h, tt) ≡ make h =
      ap (λ o. elim o [ none ↦ some (h, tt) | some factory ↦ factory h ]) known in
    sym (ap (λ o. elim o [ none ↦ h | some p ↦ p.0 ]) (same ∙ made))

abbrev outer : PathHierarchy
outer = single (codes "x") ∷ []

-- The root stream `x`, and an archive that is opened on it.
abbrev on_root : Place context
on_root = outside (some (custom outer, tt))

abbrev opened : Opened context (root (custom outer))
opened = record {
  is_open = true;
  current_entry = none;
  current_entryname = [];
  at_eof = false;
  content_ready = false;
  world = (true, tt);
}

abbrev in_archive : Place context
in_archive = inside no_options (root (custom outer)) opened no_stream

in_archive-IsNested : IsNested context in_archive
in_archive-IsNested = ((single (codes "x"), unfold root_hierarchy in refl), tt)

inner : PathHierarchy
inner = single (codes "x") ∷ single (codes "a") ∷ []

inner-ne-nil : inner ≢ []
unfolding inner
inner-ne-nil e = absurd (ground arith)

synchronize-Reached_example :
    Outcome context
      (λ b q. (b ≡ true) × EndsAt context inner in_archive q)
      (IsNested context)
      (synchronize_place context inner no_options in_archive)
synchronize-Reached_example =
    synchronize-Reached context context-Reports inner no_options in_archive inner-ne-nil
      in_archive-IsNested

next-Next_example : NextFrom context in_archive (next_from context in_archive)
next-Next_example = next-Next context context-Reports in_archive in_archive-IsNested

descend-Descended_example : DescendedFrom context on_root (descend_from context no_options on_root)
descend-Descended_example =
    descend-Descended context no_options on_root (single (codes "x"), unfold root_hierarchy in refl)

ascend-Ascended_example : AscendedFrom context in_archive (ascend_from context in_archive)
ascend-Ascended_example = ascend-Ascended context in_archive in_archive-IsNested

abbrev orchestrator : Orchestrator (Cursor context)
orchestrator = record {
  archive_options = no_options;
  head = record { options_snapshot = no_options; place = in_archive };
  groups = [];
  dispatched = [];
}

cursor-advance_example :
    (fuel : ℕ) × (m : Act (stack_cursor context) Bool) × (advance
        (stack_cursor context)
        fuel
        true
        orchestrator
      ≡ some m)
    × IsFree m.0
    × EndsWell (stack_cursor context) m
    × Extends (stack_cursor context) orchestrator m.1
cursor-advance_example =
    cursor-advance context finite (unfold finite in omega arith) (λ f s. tt) true orchestrator

advance-Advances_example :
    AdvancesFrom
      (stack_cursor context)
      orchestrator
      (advance (stack_cursor context) 4 false orchestrator)
advance-Advances_example = advance-Advances (stack_cursor context) 4 false orchestrator

skip_to_entry-ne-none_example :
    skip_to_entry
      (stream_archive one_entry (chain_stream context (root (custom outer))) no_options)
      3
      (codes "b")
      opened
    ≢ none
skip_to_entry-ne-none_example =
    skip_to_entry-ne-none
      (finite_archive finite (chain_stream context (root (custom outer))) no_options) 3 (codes "b")
      opened (unfold finite_archive finite in omega arith)

synchronize-IsFree_example : IsFree (synchronize_place context inner no_options in_archive).0
synchronize-IsFree_example =
    synchronize-IsFree context finite (unfold finite in omega arith) (λ f s. tt) inner no_options
      in_archive

-- The entry `a` is found, and its stream reached.
next_run : (next_from context in_archive).0 ≡ ok true
unfolding next_from chain_stream skip_to_next_header stream_archive create_current entry_hierarchy
    make_stream pathhierarchy_volume_size
next_run = refl

-- An archive whose passphrase and whose one format are taken.
new_read_archive_common-Opens_example :
    (new_read_archive_common one_entry.calls
        (codes "secret" ∷ [])
        (codes "zip" ∷ [])
        (λ w. (ok true, w))
        tt
      ≡ (ok false, tt))
    ↔ Opens one_entry.calls (codes "zip" ∷ []) (codes "secret" ∷ []) (λ w. (ok true, w)) tt false tt
new_read_archive_common-Opens_example =
    new_read_archive_common-Opens one_entry.calls (codes "zip" ∷ []) (codes "secret" ∷ [])
      (λ w. (ok true, w)) tt false tt
