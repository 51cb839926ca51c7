-- ===== src/EntryMetadata.antt =====
-- include/archive_r/entry_metadata.h, and the statements that `Archive::current_entry_metadata` of
-- src/archive_type.cc and `collect_root_path_metadata` of src/system_file_stream.cc are made of. A
-- statement takes the test `wants` and the map so far.
pub mod Local
use archive_r.Base.{
  ℕ, ◌+◌, ◌-◌, ◌^◌, ◌*◌, ◌||◌, Bool, true, false, not, ◌&&◌, Option, none, some, List, [], ◌∷◌, map,
  Text, codes, text_eqb, ℤ, pos, negsuc, ◌==ℤ◌, ltb_ℤ, ltb, ◌==◌, take, length, if◌then◌else◌,
}
use Prim.Native.Nat.{◌%◌}
use archive_r.Hierarchy.{is_empty}

pub record EntryMetadataTime : Type 0 where
  pub seconds : ℤ
  pub nanoseconds : ℤ

pub record EntryMetadataSparseChunk : Type 0 where
  pub offset : ℤ
  pub chunk_length : ℤ

pub record EntryMetadataXattr : Type 0 where
  pub name : Text
  pub value : List ℕ

pub record EntryMetadataDigest : Type 0 where
  pub algorithm : Text
  pub value : List ℕ

pub record EntryMetadataDeviceNumbers : Type 0 where
  pub major : ℕ
  pub minor : ℕ

pub record EntryMetadataFileFlags : Type 0 where
  pub set_flags : ℕ
  pub clear_flags : ℕ

-- `EntryMetadataValue`, a `std::variant`.
pub data EntryMetadataValue : Type 0 where
  monostate : EntryMetadataValue
  flag : Bool → EntryMetadataValue
  int64 : ℤ → EntryMetadataValue
  uint64 : ℕ → EntryMetadataValue
  string : Text → EntryMetadataValue
  byte_vector : List ℕ → EntryMetadataValue
  time : EntryMetadataTime → EntryMetadataValue
  device_numbers : EntryMetadataDeviceNumbers → EntryMetadataValue
  file_flags : EntryMetadataFileFlags → EntryMetadataValue
  xattr_vector : List EntryMetadataXattr → EntryMetadataValue
  sparse_vector : List EntryMetadataSparseChunk → EntryMetadataValue
  digest_vector : List EntryMetadataDigest → EntryMetadataValue

-- `EntryMetadataMap`: each key occurs once, in the order of insertion.
abbrev pub EntryMetadataMap : Type 0
EntryMetadataMap = List (Text × EntryMetadataValue)

-- `metadata[key] = value`.
unfoldable pub assign : Text → EntryMetadataValue → EntryMetadataMap → EntryMetadataMap
assign key value [] = (key, value) ∷ []
assign key value ((k, v) ∷ m) =
    let rest = assign key value m in if text_eqb k key then (key, value) ∷ m else (k, v) ∷ rest

unfoldable pub lookup : Text → EntryMetadataMap → Option EntryMetadataValue
lookup key [] = none
lookup key ((k, v) ∷ m) = let rest = lookup key m in if text_eqb k key then some v else rest

-- Membership in the `std::unordered_set` of allowed keys.
unfoldable pub contains : List Text → Text → Bool
contains [] key = false
contains (k ∷ keys) key = text_eqb k key || contains keys key

-- The casts of the code, which wrap.
pub to_uint64 : ℤ → ℕ
to_uint64 (pos n) = n % 2 ^ 64
to_uint64 (negsuc n) = 2 ^ 64 - 1 - n % 2 ^ 64

pub to_int32 : ℤ → ℤ
to_int32 z =
    let low : ℕ = elim z [ pos n ↦ n % 2 ^ 32 | negsuc n ↦ 2 ^ 32 - 1 - n % 2 ^ 32 ] in
    if ltb low (2 ^ 31) then pos low else negsuc (2 ^ 32 - 1 - low)

abbrev pub Block : Type 0
Block = (Text → Bool) → EntryMetadataMap → EntryMetadataMap

-- One statement after another.
infixr 30 ◌then_do◌
unfoldable pub ◌then_do◌ : Block → Block → Block
(f then_do g) wants m = g wants (f wants m)

-- `if (wants(key)) metadata[key] = value`.
unfoldable pub store : Text → EntryMetadataValue → Block
store key value wants m = if wants key then assign key value m else m

unfoldable pub nothing : Block
nothing wants m = m

-- A statement under a condition.
unfoldable pub when : Bool → Block → Block
when condition f = if condition then f else nothing

-- `if (const char *text = ...) if (wants(key)) metadata[key] = text`, and the `else if` behind it.
pub store_text_or : Option Text → Text → Block → Block
store_text_or none key otherwise = otherwise
store_text_or (some text) key otherwise = store key (string text)

-- The pathname is stored if it is not empty, and the other spelling is tried if it was not stored.
pub store_nonempty_or : Option Text → Text → Block → Block
store_nonempty_or none key otherwise wants m = otherwise wants m
store_nonempty_or (some text) key otherwise wants m =
    if not (is_empty text) && wants key then assign key (string text) m else otherwise wants m
