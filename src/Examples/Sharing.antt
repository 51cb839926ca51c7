-- ===== src/Examples/Sharing.antt =====
-- An entry of src/entry.cc that opens its own orchestrator and reads.
use archive_r.Base.{ℕ, true, false, none, List, [], ◌∷◌, codes, pos, some, take, drop}
use archive_r.Hierarchy.{single}
use archive_r.Fault.{ok, throws, make_entry_fault_error}
use archive_r.VolumeStream.Parts.{bytes, done}
use archive_r.Orchestrator.{CursorOps, Orchestrator}
use archive_r.StreamArchive.{ArchiveOption, no_options}
use archive_r.EntryImpl.Sharing.{Leaves}
use archive_r.EntryImpl.Store.{Store, stored_orchestrators, read-Leaves}
use archive_r.EntryImpl.{read, Orchestrators, Impl}

-- One orchestrator, whose state is its unread bytes.
abbrev pub one_file : Orchestrators (List ℕ) (Unit {0}) (Unit {0})
one_file = record {
  default_options = tt;
  create = λ p w. (tt, w);
  stack_depth = λ r w. 1;
  synchronize_to_hierarchy = λ r h w. (ok true, w, []);
  read_head = λ r n w. (ok (bytes (take n w)), drop n w, []);
  mark_entry = λ r h b o w. w;
}

abbrev pub unopened : Impl (Unit {0}) (Unit {0})
unopened = record {
  path_hierarchy = single (codes "f") ∷ [];
  size = 3;
  filetype = 32768;
  metadata = [];
  descend_enabled = true;
  orchestrator = none;
  shares_traverser_orchestrator = false;
  archive_options = none;
}

-- A cursor one archive deep, whose state is the bytes that are unread.
abbrev pub bytes_cursor : CursorOps (List ℕ)
bytes_cursor = record {
  configured = λ options. [];
  cursor_depth = λ bs. 1;
  descend = λ bs. (ok true, bs);
  ascend = λ bs. (false, bs);
  next = λ bs. (ok false, bs);
  synchronize = λ h bs. (throws (make_entry_fault_error (codes "missing") [] (pos 0)), bs);
  read = λ n bs. (done (take n bs), drop n bs);
  entry_hierarchy = λ bs. single (codes "f") ∷ [];
  entryname = λ bs. none;
  skip_to_eof = λ bs. (ok true, bs);
}

abbrev pub three_bytes : Orchestrator (List ℕ)
three_bytes = record {
  archive_options = no_options;
  head = codes "abc";
  groups = [];
  dispatched = [];
}

abbrev pub one_object : Store bytes_cursor
one_object = three_bytes ∷ []

-- Two entries, without an orchestrator and with one.
abbrev pub empty_handed : Impl ℕ ArchiveOption
empty_handed = record {
  path_hierarchy = single (codes "f") ∷ [];
  size = 3;
  filetype = 32768;
  metadata = [];
  descend_enabled = true;
  orchestrator = none;
  shares_traverser_orchestrator = false;
  archive_options = none;
}

abbrev pub holding : Impl ℕ ArchiveOption
holding = record empty_handed { orchestrator = some 0 }

-- The orchestrator that is made cannot be synchronized.
read-Leaves_example :
    Leaves
      (stored_orchestrators bytes_cursor)
      empty_handed.path_hierarchy
      empty_handed.descend_enabled
      (read (stored_orchestrators bytes_cursor) 2 empty_handed one_object)
read-Leaves_example = read-Leaves bytes_cursor 2 empty_handed one_object
