-- ===== src/EntryImpl/Creation.antt =====
-- The constructor of `Entry::Impl` of src/entry.cc, with what it reads from the orchestrator, and the
-- kind of an entry.
pub mod Paths
use archive_r.Base.{
  ℕ, ◌&&◌, Bool, true, false, not, Option, none, some, List, [], ◌∷◌, Text, ◌==◌, ltb, length,
  if◌then◌else◌,
}
use archive_r.Hierarchy.{PathHierarchy, is_empty}
use archive_r.EntryMetadata.{EntryMetadataMap}
use archive_r.RootMetadata.{FileSystem, FilesystemMetadataInfo, collect_root_path_metadata}
use archive_r.EntryImpl.{Impl}

-- The current entry of the current archive: its size, its type, and its metadata for a set of keys.
pub record ArchiveView : Type 0 where
  pub size : ℕ
  pub filetype : ℕ
  pub metadata : List Text → EntryMetadataMap

-- What the constructor reads from the orchestrator, which has options `P`.
pub record Source (P : Type 0) : Type 0 where
  pub keys : List Text
  pub archive : Option ArchiveView
  pub stack_depth : ℕ
  pub options : P

-- AE_IFREG and AE_IFDIR of libarchive.
abbrev pub ae_ifreg : ℕ
ae_ifreg = 32768

abbrev pub ae_ifdir : ℕ
ae_ifdir = 16384

module _ {R P : Type 0} (fs : FileSystem) where
  abbrev pub without_orchestrator : PathHierarchy → Bool → Impl R P
  without_orchestrator hierarchy default_descent = record {
    path_hierarchy = hierarchy;
    size = 0;
    filetype = 0;
    metadata = [];
    descend_enabled = default_descent;
    orchestrator = none;
    shares_traverser_orchestrator = false;
    archive_options = none;
  }

  -- From the current entry of the archive.
  pub from_archive : Impl R P → Source P → ArchiveView → Impl R P
  from_archive e source view = record e {
    size = view.size;
    filetype = view.filetype;
    metadata = if not (is_empty source.keys) then view.metadata source.keys else e.metadata;
    archive_options = some source.options;
  }

  -- From the file system.
  pub from_root : Impl R P → Source P → Impl R P
  from_root e source =
      let info = collect_root_path_metadata fs e.path_hierarchy source.keys in
      if not (is_empty e.path_hierarchy)
      then record e { size = info.size; filetype = info.filetype; metadata = info.metadata }
      else e

  -- An entry of the archive without a type is a regular file.
  pub with_default_type : Source P → Impl R P → Impl R P
  with_default_type source e =
      if e.filetype == 0 && source.stack_depth == length e.path_hierarchy
      then record e { filetype = ae_ifreg }
      else e

  pub described : Impl R P → Source P → Option ArchiveView → Impl R P
  unfolding from_archive from_root with_default_type
  described e source none = from_root e source
  described e source (some view) =
      with_default_type source
        (if ltb 1 (length e.path_hierarchy) then from_archive e source view else from_root e source)

  -- The constructor; a traverser gives the reference to its orchestrator.
  pub make_entry : PathHierarchy → Option (R × Source P) → Bool → Impl R P
  unfolding described
  make_entry hierarchy none default_descent = without_orchestrator hierarchy default_descent
  make_entry hierarchy (some (r, source)) default_descent =
      described
        (record (without_orchestrator hierarchy default_descent) {
          orchestrator = some r;
          shares_traverser_orchestrator = true;
        })
        source source.archive

unfoldable pub is_directory : {R P : Type 0} → Impl R P → Bool
is_directory e = e.filetype == ae_ifdir

unfoldable pub is_file : {R P : Type 0} → Impl R P → Bool
is_file e = e.filetype == ae_ifreg
