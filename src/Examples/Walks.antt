-- ===== src/Examples/Walks.antt =====
-- Walks of src/traverser.cc over two roots of the context of Examples/Stacks.
use archive_r.Base.{refl, true, false, Option, none, some, List, [], ◌∷◌, codes, inl}
use archive_r.Hierarchy.{PathHierarchy, single}
use archive_r.StreamArchive.{no_options}
use archive_r.StackCursor.{Cursor}
use archive_r.StackCursor.Operations.{stack_cursor}
use archive_r.EntryImpl.Creation.{ArchiveView}
use archive_r.Traverser.Iterators.{TraversedEntry, TraverserOptions, Directories, Iterator}
use archive_r.Traverser.{advance, begin}
use archive_r.Traverser.Sources.{Increments}
use archive_r.Traverser.Iteration.{advance-Increments}
use archive_r.Traverser.Walks.{walk, WalksOver, walk-WalksOver}
use archive_r.Examples.Files.{file_system}
use archive_r.Examples.Stacks.{context}

-- No root is a directory.
abbrev no_directories : Directories (Unit {0})
no_directories = record {
  path_is_directory = λ p. false;
  open_recursive = λ p. none;
  entry_path = λ d. [];
  disable_recursion_pending = λ d. d;
  increment = λ d. none;
  lexically_normal = λ p. p;
}

abbrev no_view : Cursor context → Option ArchiveView
no_view k = none

abbrev options : TraverserOptions
options = record { passphrases = []; formats = []; metadata_keys = []; descend_archives = true }

abbrev roots : List PathHierarchy
roots = (single (codes "x") ∷ []) ∷ (single (codes "y") ∷ []) ∷ []

-- The first entry is left alone; the second one is not to be descended into.
abbrev edits : List (TraversedEntry → TraversedEntry)
edits = (λ e. e) ∷ (λ e. record e { descend_enabled = false }) ∷ []

walk-WalksOver_example :
    WalksOver (stack_cursor context) no_view no_directories file_system 9 roots (
      walk
        (stack_cursor context)
        no_view
        no_directories
        file_system
        9
        edits
        (begin (stack_cursor context) no_view no_directories file_system 9 roots options))
walk-WalksOver_example =
    walk-WalksOver (stack_cursor context) no_view no_directories file_system 9 roots options edits

-- The iterator at the first root, which is not to be descended into.
abbrev at_first : Iterator (Cursor context) (Unit {0})
at_first = record {
  paths = roots;
  current_path_index = 1;
  directory = none;
  at_end = false;
  current_entry = some (record {
    path_hierarchy = single (codes "x") ∷ [];
    size = 0;
    filetype = 0;
    metadata = [];
    descend_enabled = false;
    orchestrator = none;
    shares_traverser_orchestrator = false;
    archive_options = none;
  });
  archive_options = no_options;
  shared_orchestrator = none;
  default_descent = false;
}

advance-Increments_example :
    Increments
      (stack_cursor context)
      no_view
      no_directories
      file_system
      9
      at_first
      (advance (stack_cursor context) no_view no_directories file_system 9 at_first)
advance-Increments_example =
    advance-Increments (stack_cursor context) no_view no_directories file_system 9 at_first
      (inl (refl, (_, refl)))
