-- ===== src/ArchiveReader/Setup.antt =====
-- `new_read_archive_common` of src/archive_type.cc: how a handle of libarchive is set up and opened. A
-- handle is a value `H`; a handle that is freed, also by the destructor on an exception, is dropped.
pub mod Messages
pub mod Opened
use archive_r.Base.{
  ℕ, zero, suc, ◌+◌, Bool, true, false, Option, none, some, List, [], ◌∷◌, ◌++◌, Text, codes,
  text_eqb, ℤ, pos, ◌==◌, if◌then◌else◌, take,
}
use archive_r.Hierarchy.{is_empty}
use archive_r.Fault.{Exception, Result, ok, throws, make_entry_fault_error, to_string}

-- The formats of `kFormatHandlers`.
pub data Format : Type 0 where
  seven_zip ar cab cpio empty iso9660 lha mtree rar raw tar warc xar zip : Format

-- The calls that set up a handle; the Booleans tell whether the result is ARCHIVE_OK.
pub record HandleCalls (H : Type 0) : Type 0 where
  -- `none` is a null handle.
  pub read_new : Option H
  pub support_format_all : H → H
  pub support_format : Format → H → Bool × H
  pub support_filter_all : H → H
  pub add_passphrase : Text → H → Bool × H
  pub handle_error_string : H → Option Text
  pub handle_errno : H → ℤ

pub format_handlers : List (Text × Format)
format_handlers =
    (codes "7zip", seven_zip)
    ∷ (codes "ar", ar)
    ∷ (codes "cab", cab)
    ∷ (codes "cpio", cpio)
    ∷ (codes "empty", empty)
    ∷ (codes "iso9660", iso9660)
    ∷ (codes "lha", lha)
    ∷ (codes "mtree", mtree)
    ∷ (codes "rar", rar)
    ∷ (codes "raw", raw)
    ∷ (codes "tar", tar)
    ∷ (codes "warc", warc)
    ∷ (codes "xar", xar)
    ∷ (codes "zip", zip)
    ∷ []

pub find_format : Text → List (Text × Format) → Option Format
find_format name [] = none
find_format name ((key, format) ∷ handlers) =
    let later = find_format name handlers in if text_eqb name key then some format else later

-- `c_str()` as the C functions read it: up to the first NUL.
unfoldable pub c_str : Text → Text
c_str [] = []
c_str (b ∷ bs) = let rest = c_str bs in if b == 0 then [] else b ∷ rest

-- What `%s` prints; glibc prints `(null)` for a null pointer.
pub printed : Option Text → Text
printed none = codes "(null)"
printed (some message) = message

-- `snprintf` into a buffer of 1024 bytes.
pub in_buffer : Text → Text
in_buffer message = take 1023 message

module _ {H : Type 0} (calls : HandleCalls H) where
  -- `throw_archive_fault` on a handle.
  pub archive_fault : Text → H → Exception
  archive_fault message h = make_entry_fault_error message [] (calls.handle_errno h)

  pub passphrase_message : ℕ → H → Text
  unfolding printed
  passphrase_message index h =
      codes "Failed to add passphrase (index "
      ++ to_string (pos index)
      ++ codes "): "
      ++ printed (calls.handle_error_string h)

  pub passphrase_fault : ℕ → H → Exception
  unfolding archive_fault in_buffer passphrase_message
  passphrase_fault index h = archive_fault (in_buffer (passphrase_message index h)) h

  -- What follows `archive_read_add_passphrase`, and the later passphrases.
  pub added : ℕ → (H → Result H) → Bool × H → Result H
  added index next (true, h) = next h
  added index next (false, h) = throws (passphrase_fault index h)

  -- `index` passphrases have been added.
  pub set_passphrases : ℕ → List Text → H → Result H
  unfolding added
  set_passphrases index [] h = ok h
  set_passphrases index (passphrase ∷ passphrases) h =
      added index (set_passphrases (suc index) passphrases)
        (calls.add_passphrase (c_str passphrase) h)

  abbrev pub unsupported_message : Text → Text
  unsupported_message format =
      codes "Unsupported archive format specified (" ++ c_str format ++ codes ")"

  pub unsupported_fault : Text → Exception
  unfolding in_buffer
  unsupported_fault format =
      make_entry_fault_error (in_buffer (unsupported_message format)) [] (pos 0)

  pub format_message : Text → H → Text
  unfolding printed
  format_message format h =
      codes "Failed to enable format ("
      ++ c_str format
      ++ codes "): "
      ++ printed (calls.handle_error_string h)

  pub format_fault : Text → H → Exception
  unfolding archive_fault in_buffer format_message
  format_fault format h = archive_fault (in_buffer (format_message format h)) h

  -- What follows the call of a handler, and the later formats.
  pub enabled : Text → (H → Result H) → Bool × H → Result H
  enabled format next (true, h) = next h
  enabled format next (false, h) = throws (format_fault format h)

  pub enable_format : Text → (H → Result H) → H → Option Format → Result H
  unfolding enabled
  enable_format name next h none = throws (unsupported_fault name)
  enable_format name next h (some format) = enabled name next (calls.support_format format h)

  -- The loop of `configure_formats`.
  pub enable_formats : List Text → H → Result H
  unfolding enable_format
  enable_formats [] h = ok h
  enable_formats (format ∷ formats) h =
      enable_format format (enable_formats formats) h (find_format format format_handlers)

  pub configure_formats : List Text → H → Result H
  unfolding enable_formats
  configure_formats [] h = ok (calls.support_format_all h)
  configure_formats (format ∷ formats) h = enable_formats (format ∷ formats) h

  -- `archive_read_open failed`.
  pub open_message : H → Text
  unfolding printed
  open_message h =
      codes "archive_read_open failed: ("
      ++ to_string (calls.handle_errno h)
      ++ codes ")"
      ++ printed (calls.handle_error_string h)

  pub open_fault : H → Exception
  unfolding archive_fault in_buffer open_message
  open_fault h = archive_fault (in_buffer (open_message h)) h

  -- The delegate may throw.
  pub checked_open : {S : Type 0} → Result Bool × (H × S) → Result H × S
  checked_open (throws e, (h, s)) = (throws e, s)
  checked_open (ok true, (h, s)) = (ok h, s)
  checked_open (ok false, (h, s)) = (throws (open_fault h), s)

  pub with_passphrases :
      {S : Type 0} → (H × S → Result Bool × (H × S)) → S → Result H → Result H × S
  unfolding checked_open
  with_passphrases delegate s (throws e) = (throws e, s)
  with_passphrases delegate s (ok h) = checked_open (delegate (h, s))

  pub with_formats :
      {S : Type 0} → List Text → (H × S → Result Bool × (H × S)) → S → Result H → Result H × S
  unfolding with_passphrases
  with_formats passphrases delegate s (throws e) = (throws e, s)
  with_formats passphrases delegate s (ok h) =
      with_passphrases delegate s (set_passphrases 0 passphrases (calls.support_filter_all h))

  pub with_handle :
      {S : Type 0}
      → List Text
      → List Text
      → (H × S → Result Bool × (H × S))
      → S
      → Option H
      → Result H × S
  unfolding with_formats
  with_handle passphrases format_names delegate s none =
      (throws (make_entry_fault_error (codes "archive_read_new failed.") [] (pos 0)), s)
  with_handle passphrases format_names delegate s (some h) =
      with_formats passphrases delegate s (configure_formats format_names h)

  -- The delegate also works on the state `S` of the stream.
  unfoldable pub new_read_archive_common :
      {S : Type 0} → List Text → List Text → (H × S → Result Bool × (H × S)) → S → Result H × S
  unfolding with_handle
  new_read_archive_common passphrases format_names delegate s =
      with_handle passphrases format_names delegate s calls.read_new
