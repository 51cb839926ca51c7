-- ===== src/Bindings/Python/Construction.antt =====
-- The constructor of `PyTraverser` of bindings/python/src/archive_r_py.cc, and the traverser of C++ as what
-- Python's iterator walks over.
use archive_r.Base.{ℕ, Bool, Option, none, some, List, [], ◌∷◌, Text, codes, true}
use archive_r.Hierarchy.{PathHierarchy}
use archive_r.Fault.{Result, ok, throws}
use archive_r.RootMetadata.{FileSystem}
use archive_r.StreamArchive.{ArchiveOption}
use archive_r.EntryImpl.Creation.{ArchiveView}
use archive_r.Orchestrator.{CursorOps}
use archive_r.Traverser.Iterators.{
  TraverserOptions, Directories, Iterator, make_traverser, to_archive_option, get_entry,
}
use archive_r.Traverser.{begin, end_iterator, advance}
use archive_r.Bindings.Python.{
  core, PyResult, returns, raises, Objects, then_py, python_normalize_paths,
}
use archive_r.Bindings.Python.Iteration.{Walks}

abbrev pub standard_formats : List Text
standard_formats =
    codes "7zip"
    ∷ codes "ar"
    ∷ codes "cab"
    ∷ codes "cpio"
    ∷ codes "empty"
    ∷ codes "iso9660"
    ∷ codes "lha"
    ∷ codes "rar"
    ∷ codes "tar"
    ∷ codes "warc"
    ∷ codes "xar"
    ∷ codes "zip"
    ∷ []

abbrev value_or : {A : Type 0} → A → Option A → A
value_or a none = a
value_or a (some b) = b

-- A parameter that is not given keeps the member's initial value, but for the formats.
unfoldable pub build_options :
    Option (List Text) → Option (List Text) → Option (List Text) → Option Bool → TraverserOptions
build_options passphrases formats metadata_keys descend_archives = record {
  passphrases = value_or [] passphrases;
  formats = value_or standard_formats formats;
  metadata_keys = value_or [] metadata_keys;
  descend_archives = value_or true descend_archives;
}

-- The members that the constructor makes: the options of the traverser, the snapshot of the archive's, and
-- the paths of the traverser.
unfoldable pub open_py_traverser :
    {X P : Type 0}
    → Objects X P
    → P
    → TraverserOptions
    → PyResult X (TraverserOptions × ArchiveOption × List PathHierarchy)
unfolding python_normalize_paths make_traverser to_archive_option
open_py_traverser py paths options =
    then_py
      (λ hierarchies. elim (make_traverser hierarchies) [
        | throws e ↦ raises (core e)
        | ok kept ↦ returns (options, to_archive_option options, kept)
      ])
      (python_normalize_paths py paths)

module _ {K D : Type 0} (ops : CursorOps K) (view : K → Option ArchiveView) (dirs : Directories D)
    (fs : FileSystem) (fuel : ℕ) where
  -- An iterator that was made, if its constructor did not throw.
  abbrev made : Result (Unit {0}) × Iterator K D → Result (Iterator K D)
  made (ok u, it) = ok it
  made (throws e, it) = throws e

  unfoldable pub traverser_walks :
      List PathHierarchy → TraverserOptions → Walks (Iterator K D) (Unit {0}) ArchiveOption
  unfolding begin end_iterator advance get_entry
  traverser_walks paths options = record {
    begin = made (begin ops view dirs fs fuel paths options);
    end = (end_iterator ops view dirs fs fuel paths options).1;
    advance = advance ops view dirs fs fuel;
    at_end = λ it. it.at_end;
    get_entry = get_entry;
  }
