-- ===== src/RootMetadata.antt =====
-- `collect_root_path_metadata` of src/system_file_stream.cc on a POSIX system. The calls of
-- std::filesystem and of the C library are the record `FileSystem`; `none` is an error they report.
pub mod Stat
use archive_r.Base.{
  ℕ, zero, Bool, true, false, ◌||◌, ◌&&◌, Option, none, some, List, [], ◌∷◌, Text, codes, ℤ, pos,
  ltb_ℤ, ltb, ◌==◌, last?, if◌then◌else◌,
}
use archive_r.Hierarchy.{PathEntry, single, multi_volume, PathHierarchy, is_empty}
use archive_r.HierarchyUtils.{path_entry_display}
use archive_r.EntryMetadata.{
  EntryMetadataMap, string, int64, uint64, to_uint64, contains, Block, ◌then_do◌, store, nothing,
  when,
}

-- The members of `struct stat` that are read.
pub record StatBuffer : Type 0 where
  pub st_size : ℤ
  pub st_uid : ℕ
  pub st_gid : ℕ

-- `getpwuid_r` and `getgrgid_r` give their result code and, if the result is not null, the name.
pub record FileSystem : Type 0 where
  pub entry_opens : Text → Bool
  pub exists : Text → Option Bool
  pub is_regular_file : Text → Option Bool
  pub file_size : Text → Option ℕ
  pub is_directory : Text → Option Bool
  pub is_symlink : Text → Option Bool
  pub permissions : Text → Option ℕ
  pub stat : Text → Option StatBuffer
  pub sysconf_pw : ℤ
  pub sysconf_gr : ℤ
  pub getpwuid_r : ℕ → ℤ → ℤ × Option (Option Text)
  pub getgrgid_r : ℕ → ℤ → ℤ × Option (Option Text)
  pub s_ifreg : ℕ
  pub s_ifdir : ℕ
  pub s_iflnk : ℕ

-- `FilesystemMetadataInfo`.
pub record FilesystemMetadataInfo : Type 0 where
  pub size : ℕ
  pub filetype : ℕ
  pub metadata : EntryMetadataMap

abbrev no_info : FilesystemMetadataInfo
no_info = record { size = 0; filetype = 0; metadata = [] }

pub determine_buffer_size : ℤ → ℤ
determine_buffer_size size = if ltb_ℤ size (pos 0) then pos 16384 else size

-- The name, if the call succeeded and found one.
pub found_name : ℤ × Option (Option Text) → Option Text
found_name (pos zero, some (some name)) = some name
found_name _ = none

abbrev pub holds : Option Bool → Bool
holds none = false
holds (some b) = b

abbrev or_zero : Option ℕ → ℕ
or_zero none = 0
or_zero (some n) = n

module _ (fs : FileSystem) where
  pub lookup_username : ℕ → Option Text
  lookup_username uid = found_name (fs.getpwuid_r uid (determine_buffer_size fs.sysconf_pw))

  pub lookup_groupname : ℕ → Option Text
  lookup_groupname gid = found_name (fs.getgrgid_r gid (determine_buffer_size fs.sysconf_gr))

  -- The file type bits and the size.
  pub classify : Text → ℕ × ℕ
  classify target =
      if holds (fs.is_regular_file target)
      then (fs.s_ifreg, or_zero (fs.file_size target))
      else if holds (fs.is_directory target)
      then (fs.s_ifdir, 0)
      else if holds (fs.is_symlink target)
      then (fs.s_iflnk, 0)
      else (0, 0)

  pub tail_name : Option PathEntry → Text
  tail_name none = []
  tail_name (some (single value)) = value
  tail_name (some (multi_volume parts)) = path_entry_display (multi_volume parts)

  pub store_mode_of : Text → Block
  store_mode_of target = elim (fs.permissions target) [
    | none ↦ nothing
    | some bits ↦ store (codes "mode") (uint64 bits)
  ]

  pub needs_stat : (Text → Bool) → ℕ → Bool
  needs_stat wants size =
      (wants (codes "size") && size == 0)
      || (wants (codes "uid")
          || (wants (codes "gid") || (wants (codes "uname") || wants (codes "gname"))))

  -- The size of the file, or that of `stat` if it is 0.
  pub store_size : ℕ → Option StatBuffer → Block
  store_size size none = when (ltb 0 size) (store (codes "size") (uint64 size))
  store_size size (some buffer) =
      store (codes "size") (uint64 (if size == 0 then to_uint64 buffer.st_size else size))

  pub store_name : Text → Option Text → Block
  store_name key none = nothing
  store_name key (some name) = store key (string name)

  pub store_stat : Option StatBuffer → Block
  store_stat none = nothing
  store_stat (some buffer) =
      store (codes "uid") (int64 (pos buffer.st_uid))
      then_do store (codes "gid") (int64 (pos buffer.st_gid))
      then_do store_name (codes "uname") (lookup_username buffer.st_uid)
      then_do store_name (codes "gname") (lookup_groupname buffer.st_gid)

  -- `stat` is called only for a key that needs it.
  pub stat_statements : ℕ → Text → Block
  stat_statements size target wants m =
      let buffer : Option StatBuffer = if needs_stat wants size then fs.stat target else none in
      (store_size size buffer then_do store_stat buffer) wants m

  pub root_statements : PathHierarchy → Text → ℕ × ℕ → Block
  root_statements hierarchy target (filetype, size) =
      store (codes "pathname") (string (tail_name (last? hierarchy)))
      then_do store (codes "filetype") (uint64 filetype)
      then_do store_mode_of target
      then_do stat_statements size target

  -- The information on a path that exists.
  pub root_info : PathHierarchy → Text → ℕ × ℕ → List Text → FilesystemMetadataInfo
  root_info hierarchy target (filetype, size) allowed_keys = record {
    size = size;
    filetype = filetype;
    metadata =
        if is_empty allowed_keys
        then []
        else root_statements hierarchy target (filetype, size) (contains allowed_keys) [];
  }

  unfoldable pub collect_root_path_metadata : PathHierarchy → List Text → FilesystemMetadataInfo
  unfolding root_info
  collect_root_path_metadata [] allowed_keys = no_info
  collect_root_path_metadata (multi_volume parts ∷ rest) allowed_keys = no_info
  collect_root_path_metadata (single target ∷ rest) allowed_keys =
      if fs.entry_opens target && holds (fs.exists target)
      then root_info (single target ∷ rest) target (classify target) allowed_keys
      else no_info
