-- ===== src/ArchiveReader/Setup/Messages.antt =====
-- What the setup of a handle in src/archive_type.cc throws.
use archive_r.Base.{
  ℕ, suc, ◌≤◌, ◌≡◌, refl, Bool, true, false, Option, none, some, List, [], ◌∷◌, Text, length,
  length-take, arith,
}
use archive_r.Fault.{
  Exception, entry_fault, invalid_argument, logic_error, Result, ok, throws, make_entry_fault_error,
}
use archive_r.ArchiveReader.Setup.{
  Format, HandleCalls, find_format, format_handlers, in_buffer, archive_fault, passphrase_message,
  passphrase_fault, format_message, unsupported_message, open_message, added, set_passphrases,
  unsupported_fault, format_fault, enabled, enable_format, enable_formats, configure_formats,
  open_fault, checked_open, with_passphrases, with_formats, with_handle, new_read_archive_common,
}

-- A fault without a hierarchy, whose message fits in the buffer of 1024 bytes.
abbrev pub IsSetupFault : Exception → Type 0
IsSetupFault (entry_fault f) = (f.hierarchy ≡ []) × (length f.message ≤ 1023)
IsSetupFault (invalid_argument message) = ⊥
IsSetupFault (logic_error message) = ⊥
IsSetupFault Exception.undefined = ⊥
IsSetupFault Exception.stuck = ⊥
IsSetupFault Exception.filesystem_error = ⊥

-- What is thrown, if something is.
abbrev pub FaultsShort : {A : Type 0} → Result A → Type 0
FaultsShort (ok a) = Unit {0}
FaultsShort (throws e) = IsSetupFault e

in_buffer-length : (message : Text) → length (in_buffer message) ≤ 1023
unfolding in_buffer
in_buffer-length message = omega (arith, length-take 1023 message)

module _ {H : Type 0} (calls : HandleCalls H) where
  added-FaultsShort :
      (index : ℕ) (next : H → Result H) (m : Bool × H)
      → ((h : H) → FaultsShort (next h))
      → FaultsShort (added calls index next m)
  unfolding added passphrase_fault archive_fault make_entry_fault_error
  added-FaultsShort index next (true, h) rec = rec h
  added-FaultsShort index next (false, h) rec =
      (refl, in_buffer-length (passphrase_message calls index h))

  passphrases-FaultsShort :
      (index : ℕ) (passphrases : List Text) (h : H)
      → FaultsShort (set_passphrases calls index passphrases h)
  unfolding set_passphrases
  passphrases-FaultsShort index [] h = tt
  passphrases-FaultsShort index (passphrase ∷ passphrases) h =
      added-FaultsShort index (set_passphrases calls (suc index) passphrases) _
        (passphrases-FaultsShort (suc index) passphrases)

  enabled-FaultsShort :
      (name : Text) (next : H → Result H) (m : Bool × H)
      → ((h : H) → FaultsShort (next h))
      → FaultsShort (enabled calls name next m)
  unfolding enabled format_fault archive_fault make_entry_fault_error
  enabled-FaultsShort name next (true, h) rec = rec h
  enabled-FaultsShort name next (false, h) rec =
      (refl, in_buffer-length (format_message calls name h))

  format-FaultsShort :
      (name : Text) (next : H → Result H) (h : H) (o : Option Format)
      → ((h : H) → FaultsShort (next h))
      → FaultsShort (enable_format calls name next h o)
  unfolding enable_format unsupported_fault make_entry_fault_error
  format-FaultsShort name next h none rec =
      (refl, in_buffer-length (unsupported_message calls name))
  format-FaultsShort name next h (some format) rec = enabled-FaultsShort name next _ rec

  formats-FaultsShort : (formats : List Text) (h : H) → FaultsShort (enable_formats calls formats h)
  unfolding enable_formats
  formats-FaultsShort [] h = tt
  formats-FaultsShort (format ∷ formats) h =
      format-FaultsShort format (enable_formats calls formats) h
        (find_format format format_handlers) (formats-FaultsShort formats)

  configure-FaultsShort :
      (formats : List Text) (h : H) → FaultsShort (configure_formats calls formats h)
  unfolding configure_formats
  configure-FaultsShort [] h = tt
  configure-FaultsShort (format ∷ formats) h = formats-FaultsShort (format ∷ formats) h

  module _ {S : Type 0} (delegate : H × S → Result Bool × (H × S))
      (short : (w : H × S) → FaultsShort (delegate w).0) where
    opened-FaultsShort :
        (m : Result Bool × (H × S)) → FaultsShort m.0 → FaultsShort (checked_open calls m).0
    unfolding checked_open open_fault archive_fault make_entry_fault_error
    opened-FaultsShort (throws e, (h, s)) fault = fault
    opened-FaultsShort (ok true, (h, s)) fault = tt
    opened-FaultsShort (ok false, (h, s)) fault = (refl, in_buffer-length (open_message calls h))

    with_passphrases-FaultsShort :
        (s : S) (m : Result H) → FaultsShort m → FaultsShort (with_passphrases calls delegate s m).0
    unfolding with_passphrases
    with_passphrases-FaultsShort s (throws e) fault = fault
    with_passphrases-FaultsShort s (ok h) fault =
        opened-FaultsShort (delegate (h, s)) (short (h, s))

    with_formats-FaultsShort :
        (passphrases : List Text) (s : S) (m : Result H)
        → FaultsShort m
        → FaultsShort (with_formats calls passphrases delegate s m).0
    unfolding with_formats
    with_formats-FaultsShort passphrases s (throws e) fault = fault
    with_formats-FaultsShort passphrases s (ok h) fault =
        with_passphrases-FaultsShort s _ (passphrases-FaultsShort 0 passphrases _)

    with_handle-FaultsShort :
        (passphrases format_names : List Text) (s : S) (o : Option H)
        → FaultsShort (with_handle calls passphrases format_names delegate s o).0
    unfolding with_handle make_entry_fault_error
    with_handle-FaultsShort passphrases format_names s none = (refl, omega arith)
    with_handle-FaultsShort passphrases format_names s (some h) =
        with_formats-FaultsShort passphrases s _ (configure-FaultsShort format_names h)

    -- Whatever libarchive does, with a delegate that throws no other faults, what `new_read_archive_common`
    -- throws is the fault of an entry that has no hierarchy yet and a message of at most 1023 bytes.
    pub new_read_archive_common-FaultsShort :
        (passphrases format_names : List Text) (s : S)
        → FaultsShort (new_read_archive_common calls passphrases format_names delegate s).0
    unfolding new_read_archive_common
    new_read_archive_common-FaultsShort passphrases format_names s =
        with_handle-FaultsShort passphrases format_names s calls.read_new
