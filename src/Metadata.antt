-- ===== src/Metadata.antt =====
-- `Archive::current_entry_metadata` of src/archive_type.cc. libarchive's accessors are a record.
pub mod Reader
pub mod Allowed
use archive_r.Metadata.Reader.{
  DigestType, EntryReader, digest_md5, digest_rmd160, digest_sha1, digest_sha256, digest_sha384,
  digest_sha512,
}
use archive_r.Base.{
  ℕ, ◌+◌, ◌-◌, ◌^◌, ◌*◌, ◌||◌, Bool, true, false, not, ◌&&◌, Option, none, some, List, [], ◌∷◌, map,
  Text, codes, text_eqb, ℤ, pos, negsuc, ◌==ℤ◌, ltb_ℤ, ltb, ◌==◌, take, length, if◌then◌else◌,
}
use Prim.Native.Nat.{◌%◌}
use archive_r.Hierarchy.{is_empty}
use archive_r.ArchiveReader.Handle.{Archive}
use archive_r.EntryMetadata.{
  EntryMetadataTime, EntryMetadataXattr, EntryMetadataSparseChunk, EntryMetadataDigest,
  EntryMetadataMap, flag, int64, uint64, string, byte_vector, time, device_numbers, file_flags,
  xattr_vector, sparse_vector, digest_vector, to_uint64, to_int32, contains, Block, ◌then_do◌,
  store, nothing, when, store_text_or, store_nonempty_or,
}

abbrev is_present : Option Text → Bool
is_present none = false
is_present (some text) = true

abbrev is_zero : ℤ → Bool
is_zero z = z ==ℤ pos 0

module _ {E : Type 0} (r : EntryReader E) (e : E) where
  pub store_names : Block
  store_names =
      store_nonempty_or (r.pathname_utf8 e) (codes "pathname")
        (store_nonempty_or (r.pathname e) (codes "pathname") nothing)
      then_do store_text_or (r.sourcepath e) (codes "sourcepath") nothing
      then_do store_text_or (r.symlink_utf8 e) (codes "symlink") nothing
      then_do store_text_or (r.hardlink_utf8 e) (codes "hardlink")
          (store_text_or (r.hardlink e) (codes "hardlink") nothing)
      then_do store_text_or (r.uname_utf8 e) (codes "uname")
          (store_text_or (r.uname e) (codes "uname") nothing)
      then_do store_text_or (r.gname_utf8 e) (codes "gname")
          (store_text_or (r.gname e) (codes "gname") nothing)

  pub store_owner : Block
  store_owner =
      when (is_present (r.uname e) || not (is_zero (r.uid e)))
        (store (codes "uid") (int64 (r.uid e)))
      then_do when (is_present (r.gname e) || not (is_zero (r.gid e)))
          (store (codes "gid") (int64 (r.gid e)))

  pub store_mode : Block
  store_mode =
      store (codes "perm") (uint64 (r.perm e))
      then_do store (codes "mode") (uint64 (r.mode e))
      then_do store (codes "filetype") (uint64 (r.filetype e))
      then_do when (r.size_is_set e) (store (codes "size") (uint64 (to_uint64 (r.size e))))

  pub store_devices : Block
  store_devices =
      when (r.dev_is_set e) (
        store (codes "dev")
          (device_numbers (record { major = r.devmajor e; minor = r.devminor e })))
      then_do when (not (r.rdev e == 0)) (
          store (codes "rdev")
            (device_numbers (record { major = r.rdevmajor e; minor = r.rdevminor e })))

  pub store_inode : Block
  store_inode =
      when (r.ino_is_set e) (
        store (codes "ino") (uint64 (to_uint64 (r.ino e)))
        then_do store (codes "ino64") (uint64 (to_uint64 (r.ino64 e))))
      then_do store (codes "nlink") (uint64 (r.nlink e))
      then_do store_text_or (r.strmode e) (codes "strmode") nothing

  -- The lambda `record_time`.
  pub record_time : Text → Bool → ℤ → ℤ → Block
  record_time key is_set seconds nanoseconds =
      when is_set
        (store key (time (record { seconds = seconds; nanoseconds = to_int32 nanoseconds })))

  pub store_times : Block
  store_times =
      record_time (codes "atime") (r.atime_is_set e) (r.atime e) (r.atime_nsec e)
      then_do record_time (codes "birthtime") (r.birthtime_is_set e) (r.birthtime e)
          (r.birthtime_nsec e)
      then_do record_time (codes "ctime") (r.ctime_is_set e) (r.ctime e) (r.ctime_nsec e)
      then_do record_time (codes "mtime") (r.mtime_is_set e) (r.mtime e) (r.mtime_nsec e)

  pub store_fflags : Block
  store_fflags =
      when (not (r.fflags_set e == 0) || not (r.fflags_clear e == 0)) (
        store (codes "fflags")
          (file_flags (record { set_flags = r.fflags_set e; clear_flags = r.fflags_clear e })))
      then_do store_text_or (r.fflags_text e) (codes "fflags_text") nothing

  -- The lambda `store_encryption_flag`.
  pub store_encryption_flag : Text → ℤ → Block
  store_encryption_flag key value =
      when (not (ltb_ℤ value (pos 0))) (store key (flag (not (is_zero value))))

  pub store_encryption : Block
  store_encryption =
      store_encryption_flag (codes "is_data_encrypted") (r.is_data_encrypted e)
      then_do store_encryption_flag (codes "is_metadata_encrypted") (r.is_metadata_encrypted e)
      then_do store_encryption_flag (codes "is_encrypted") (r.is_encrypted e)

  pub store_link_and_acl : Block
  store_link_and_acl =
      when (not (is_zero (r.symlink_type e)))
        (store (codes "symlink_type") (int64 (r.symlink_type e)))
      then_do store_text_or (r.acl_text e) (codes "acl_text") nothing
      then_do when (not (is_zero (r.acl_types e)))
          (store (codes "acl_types") (int64 (r.acl_types e)))

  -- One round of the loop over the extended attributes.
  pub to_xattr : Option Text × Option (List ℕ) → EntryMetadataXattr
  to_xattr (name, value) = record {
    name = elim name [ none ↦ [] | some text ↦ text ];
    value = elim value [ none ↦ [] | some bytes ↦ bytes ];
  }

  pub store_xattrs : Block
  store_xattrs =
      let attributes = map to_xattr (r.xattrs e) in
      when (ltb_ℤ (pos 0) (r.xattr_count e) && not (is_empty attributes))
        (store (codes "xattr") (xattr_vector attributes))

  pub to_chunk : ℤ × ℤ → EntryMetadataSparseChunk
  to_chunk (offset, length) = record { offset = offset; chunk_length = length }

  pub store_sparse : Block
  store_sparse =
      let regions = map to_chunk (r.sparse e) in
      when (ltb_ℤ (pos 0) (r.sparse_count e) && not (is_empty regions))
        (store (codes "sparse") (sparse_vector regions))

  pub mac_block : Option (List ℕ) → Block
  mac_block none = nothing
  mac_block (some bytes) =
      when (not (is_empty bytes)) (store (codes "mac_metadata") (byte_vector bytes))

  -- A digest is copied at the length of its algorithm.
  pub collect_digests : List (DigestType × (Text × ℕ)) → List EntryMetadataDigest
  collect_digests [] = []
  collect_digests ((type, (name, length)) ∷ rest) = elim (r.digest e type) [
    | none ↦ collect_digests rest
    | some bytes ↦ record { algorithm = name; value = take length bytes } ∷ collect_digests rest
  ]

  abbrev pub digest_descriptors : List (DigestType × (Text × ℕ))
  digest_descriptors =
      (digest_md5, (codes "md5", 16))
      ∷ (digest_rmd160, (codes "rmd160", 20))
      ∷ (digest_sha1, (codes "sha1", 20))
      ∷ (digest_sha256, (codes "sha256", 32))
      ∷ (digest_sha384, (codes "sha384", 48))
      ∷ (digest_sha512, (codes "sha512", 64))
      ∷ []

  pub store_digests : Block
  store_digests =
      let digests = collect_digests digest_descriptors in
      when (not (is_empty digests)) (store (codes "digests") (digest_vector digests))

  -- All that is stored for an entry, in the order of the code.
  pub store_all : Block
  store_all =
      store_names
      then_do store_owner
      then_do store_mode
      then_do store_devices
      then_do store_inode
      then_do store_times
      then_do store_fflags
      then_do store_encryption
      then_do store_link_and_acl
      then_do store_xattrs
      then_do store_sparse
      then_do mac_block (r.mac_metadata e)
      then_do store_digests

-- The early return, and the statements.
pub entry_metadata : {E : Type 0} → EntryReader E → List Text → Option E → EntryMetadataMap
entry_metadata r allowed_keys none = []
entry_metadata r allowed_keys (some e) =
    if is_empty allowed_keys then [] else store_all r e (contains allowed_keys) []

unfoldable pub current_entry_metadata :
    {W E : Type 0} → EntryReader E → List Text → Archive W E → EntryMetadataMap
unfolding entry_metadata
current_entry_metadata r allowed_keys a = entry_metadata r allowed_keys a.current_entry
