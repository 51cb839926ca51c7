-- ===== src/Metadata/Reader.antt =====
-- The accessors of libarchive that the metadata of src/archive_type.cc come from.
use archive_r.Base.{ℕ, Bool, Option, List, Text, ℤ}

pub data DigestType : Type 0 where
  digest_md5 digest_rmd160 digest_sha1 digest_sha256 digest_sha384 digest_sha512 : DigestType

-- libarchive's accessors of an entry; a null pointer is `none`. `xattrs` and `sparse` are what the
-- `_next` calls give after the `_reset` call, until one is not ARCHIVE_OK.
pub record EntryReader (E : Type 0) : Type 0 where
  pub pathname_utf8 : E → Option Text
  pub pathname : E → Option Text
  pub sourcepath : E → Option Text
  pub symlink_utf8 : E → Option Text
  pub hardlink_utf8 : E → Option Text
  pub hardlink : E → Option Text
  pub uname_utf8 : E → Option Text
  pub uname : E → Option Text
  pub gname_utf8 : E → Option Text
  pub gname : E → Option Text
  pub strmode : E → Option Text
  pub fflags_text : E → Option Text
  pub acl_text : E → Option Text
  pub uid : E → ℤ
  pub gid : E → ℤ
  pub size : E → ℤ
  pub ino : E → ℤ
  pub ino64 : E → ℤ
  pub symlink_type : E → ℤ
  pub acl_types : E → ℤ
  pub xattr_count : E → ℤ
  pub sparse_count : E → ℤ
  pub perm : E → ℕ
  pub mode : E → ℕ
  pub filetype : E → ℕ
  pub nlink : E → ℕ
  pub devmajor : E → ℕ
  pub devminor : E → ℕ
  pub rdev : E → ℕ
  pub rdevmajor : E → ℕ
  pub rdevminor : E → ℕ
  pub fflags_set : E → ℕ
  pub fflags_clear : E → ℕ
  pub size_is_set : E → Bool
  pub dev_is_set : E → Bool
  pub ino_is_set : E → Bool
  pub atime_is_set : E → Bool
  pub birthtime_is_set : E → Bool
  pub ctime_is_set : E → Bool
  pub mtime_is_set : E → Bool
  pub atime : E → ℤ
  pub birthtime : E → ℤ
  pub ctime : E → ℤ
  pub mtime : E → ℤ
  pub atime_nsec : E → ℤ
  pub birthtime_nsec : E → ℤ
  pub ctime_nsec : E → ℤ
  pub mtime_nsec : E → ℤ
  pub is_data_encrypted : E → ℤ
  pub is_metadata_encrypted : E → ℤ
  pub is_encrypted : E → ℤ
  pub xattrs : E → List (Option Text × Option (List ℕ))
  pub sparse : E → List (ℤ × ℤ)
  pub mac_metadata : E → Option (List ℕ)
  pub digest : E → DigestType → Option (List ℕ)
