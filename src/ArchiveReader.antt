-- ===== src/ArchiveReader.antt =====
-- `Archive` of src/archive_type.h and src/archive_type.cc: moving through the headers of an archive.
-- libarchive is the record `LibArchive`. What is thrown is a value, and the state at the throw is kept.
pub mod Handle
pub mod Behind
pub mod Steps
pub mod Search
pub mod Wrap
pub mod Setup
pub mod Finite
pub mod Fuel
pub mod Eof
use archive_r.ArchiveReader.Handle.{header, end_of_archive, broken, LibArchive, Archive, HeaderRead}
use archive_r.Base.{
  ℕ, zero, suc, Bool, true, false, ◌&&◌, not, Option, none, some, List, [], ◌∷◌, ◌++◌, Text, codes,
  text_eqb, ℤ, pos, ◌==ℤ◌, if◌then◌else◌,
}
use archive_r.Hierarchy.{is_empty}
use archive_r.Fault.{Exception, logic_error, Result, ok, throws, make_entry_fault_error, to_string}
use archive_r.VolumeStream.Parts.{PartRead, bytes, failed}

module _ {W E : Type 0} (lib : LibArchive W E) where
  -- A member function: what it returns or throws, and the object afterwards.
  abbrev pub Step : Type 0 → Type 0
  Step A = Result A × Archive W E

  abbrev null_handle : Exception
  null_handle = logic_error (codes "Archive handle is not initialized")

  unfoldable pub format_archive_error : W → Text → Text
  format_archive_error w prefix =
      let code = lib.errno w in
      let detail : Text = elim (lib.error_string w) [
        | none ↦ prefix
        | some err ↦ if is_empty err then prefix else prefix ++ (codes ": " ++ err)
      ] in
      if code ==ℤ pos 0
      then detail
      else detail ++ (codes " (libarchive errno=" ++ (to_string code ++ codes ")"))

  pub raise_archive_error : Text → Archive W E → Exception
  raise_archive_error message a =
      make_entry_fault_error message [] (if a.is_open then lib.errno a.world else pos 0)

  unfoldable pub close_archive : Archive W E → Archive W E
  close_archive a = record {
    is_open = false;
    current_entry = none;
    current_entryname = [];
    at_eof = a.at_eof;
    content_ready = false;
    world = if a.is_open then lib.close_and_free a.world else a.world;
  }

  -- What is left of `rewind` when `open_archive` has returned or thrown.
  pub reopened : Archive W E → Result (Unit {0}) × W → Step (Unit {0})
  reopened a (ok _, w) =
      (ok tt, record a { is_open = true; at_eof = false; content_ready = false; world = w })
  reopened a (throws e, w) = (throws e, record a { at_eof = false; world = w })

  -- `Archive::rewind`, once the source is rewound.
  pub rewound : Archive W E → Result (Unit {0}) × W → Step (Unit {0})
  unfolding reopened close_archive
  rewound a (throws e, w) = (throws e, record a { world = w })
  rewound a (ok _, w) =
      let closed = close_archive (record a { world = w }) in
      reopened (record closed { at_eof = false }) (lib.open_handle closed.world)

  -- The virtual `rewind`.
  unfoldable pub rewind : Archive W E → Step (Unit {0})
  unfolding rewound
  rewind a = rewound a (lib.rewind_source a.world)

  pub forget_entry : Archive W E → Archive W E
  forget_entry a = record a { current_entry = none; current_entryname = []; content_ready = false }

  pub name_entry : Option Text → Archive W E → Step Bool
  name_entry none a = (
    throws (
        make_entry_fault_error
          (codes "Failed to retrieve entry pathname (archive_entry_pathname returned null)") []
          (pos 0)),
    a,
  )
  name_entry (some name) a = (ok true, record a { current_entryname = name; content_ready = true })

  -- `skip_to_next_header` on the result of the library's call.
  pub take_header : Archive W E → HeaderRead E × W → Step Bool
  unfolding name_entry forget_entry
  take_header a (end_of_archive, w) =
      (ok false, record (forget_entry a) { at_eof = true; world = w })
  take_header a (broken, w) =
      let a' = record (forget_entry a) { at_eof = true; world = w } in
      (
        throws
            (raise_archive_error (format_archive_error w (codes "Failed to read next header")) a'),
        a',
      )
  take_header a (header e, w) =
      name_entry (lib.pathname e) (record a { current_entry = some e; world = w })

  unfoldable pub skip_to_next_header : Archive W E → Step Bool
  unfolding take_header
  skip_to_next_header a =
      if not a.is_open
      then (throws null_handle, a)
      else if a.at_eof
      then (ok false, forget_entry a)
      else take_header a (lib.read_next_header a.world)

  pub skipped_data : Archive W E → Bool × W → Step Bool
  skipped_data a (true, w) = (ok true, record a { content_ready = false; world = w })
  skipped_data a (false, w) =
      let a' = record a { world = w } in
      (throws (raise_archive_error (format_archive_error w (codes "Failed to skip data")) a'), a')

  unfoldable pub skip_data : Archive W E → Step Bool
  unfolding skipped_data
  skip_data a =
      if not a.is_open then (throws null_handle, a) else skipped_data a (lib.read_data_skip a.world)

  -- The loops take fuel; `none` means that it ran out.
  abbrev pub Loop : Type 0
  Loop = Option (Step Bool)

  -- The end of a round: `skip_data`, and the next round.
  pub skip_then : (Archive W E → Loop) → Step Bool → Loop
  skip_then next (throws e, a) = some (throws e, a)
  skip_then next (ok _, a) = next a

  -- One round of the forward search, from the result of `skip_to_next_header`.
  pub forward_round : Text → (Archive W E → Loop) → Step Bool → Loop
  unfolding skip_then
  forward_round entryname next (throws e, a) = some (throws e, a)
  forward_round entryname next (ok false, a) = some (ok false, a)
  forward_round entryname next (ok true, a) =
      if text_eqb a.current_entryname entryname
      then some (ok true, a)
      else skip_then next (skip_data a)

  pub search_forward_until_eof : ℕ → Text → Archive W E → Loop
  unfolding forward_round
  search_forward_until_eof zero entryname a = none
  search_forward_until_eof (suc fuel) entryname a =
      forward_round entryname (search_forward_until_eof fuel entryname) (skip_to_next_header a)

  -- One round of the search that ends at a stop position.
  pub until_round : Text → Text → (Archive W E → Loop) → Step Bool → Loop
  unfolding skip_then
  until_round entryname stop_position next (throws e, a) = some (throws e, a)
  until_round entryname stop_position next (ok false, a) = some (ok false, a)
  until_round entryname stop_position next (ok true, a) =
      if text_eqb a.current_entryname entryname
      then some (ok true, a)
      else if text_eqb a.current_entryname stop_position
      then some (ok false, a)
      else skip_then next (skip_data a)

  pub search_until_position : ℕ → Text → Text → Archive W E → Loop
  unfolding until_round
  search_until_position zero entryname stop_position a = none
  search_until_position (suc fuel) entryname stop_position a =
      until_round entryname stop_position (search_until_position fuel entryname stop_position)
        (skip_to_next_header a)

  -- The second search of `skip_to_entry`, after its rewind.
  pub search_again : ℕ → Text → Text → Step (Unit {0}) → Loop
  search_again fuel entryname start_position (throws e, a) = some (throws e, a)
  search_again fuel entryname start_position (ok _, a) =
      search_until_position fuel entryname start_position a

  -- What follows the first search.
  pub search_wrapped : ℕ → Text → Text → Loop → Loop
  unfolding search_again
  search_wrapped fuel entryname start_position none = none
  search_wrapped fuel entryname start_position (some (throws e, a)) = some (throws e, a)
  search_wrapped fuel entryname start_position (some (ok true, a)) = some (ok true, a)
  search_wrapped fuel entryname start_position (some (ok false, a)) =
      if is_empty start_position
      then some (ok false, a)
      else search_again fuel entryname start_position (rewind a)

  -- Both searches, from the position that the call found or rewound to.
  pub search_from : ℕ → Text → Step (Unit {0}) → Loop
  unfolding search_wrapped
  search_from fuel entryname (throws e, a) = some (throws e, a)
  search_from fuel entryname (ok _, a) =
      search_wrapped fuel entryname a.current_entryname (search_forward_until_eof fuel entryname a)

  unfoldable pub skip_to_entry : ℕ → Text → Archive W E → Loop
  unfolding search_from
  skip_to_entry fuel entryname a =
      if text_eqb a.current_entryname entryname && a.content_ready
      then some (ok true, a)
      else search_from fuel entryname (if a.at_eof then rewind a else (ok tt, a))

  -- A round of `skip_to_eof` ignores the result of `skip_to_next_header`, but not what it throws.
  pub skip_to_eof : ℕ → Archive W E → Loop
  unfolding skip_then
  skip_to_eof zero a = none
  skip_to_eof (suc fuel) a =
      let next = skip_then (skip_to_eof fuel) (skip_to_next_header a) in
      if a.at_eof then some (ok true, a) else next

  pub took_data : Archive W E → PartRead × W → Step (List ℕ)
  took_data a (failed n, w) =
      let a' = record a { world = w } in
      (throws (raise_archive_error (format_archive_error w (codes "Failed to read data")) a'), a')
  took_data a (bytes bs, w) = (ok bs, record a { content_ready = false; world = w })

  unfoldable pub read_current : ℕ → Archive W E → Step (List ℕ)
  unfolding took_data
  read_current len a =
      if not a.is_open then (throws null_handle, a) else took_data a (lib.read_data len a.world)

  unfoldable pub current_entry_size : Archive W E → ℕ
  current_entry_size a = elim a.current_entry [ none ↦ 0 | some e ↦ lib.size e ]

  unfoldable pub current_entry_filetype : Archive W E → ℕ
  current_entry_filetype a = elim a.current_entry [ none ↦ 0 | some e ↦ lib.filetype e ]
