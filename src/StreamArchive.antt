-- ===== src/StreamArchive.antt =====
-- `StreamArchive` of src/archive_stack_cursor.h and src/archive_stack_cursor.cc: an archive that
-- libarchive reads from a data stream. The state of the archive is the handle and the stream's state.
use archive_r.Base.{
  ℕ, Bool, false, Option, none, some, List, [], Text, ℤ, pos, negsuc, ◌-ℤ◌, ltb_ℤ, if◌then◌else◌,
}
use archive_r.Fault.{Result, ok, throws}
use archive_r.VolumeStream.Parts.{
  PartRead, bytes, failed, ReadEnd, done, code, thrown, out_of_fuel, Whence, SeekEnd, at,
  seek_thrown, seek_cur,
}
use archive_r.DataStream.{DataStream}
use archive_r.ArchiveReader.Handle.{HeaderRead, LibArchive, Archive}
use archive_r.ArchiveReader.{reopened}
use archive_r.ArchiveReader.Setup.{HandleCalls, new_read_archive_common}

-- `ArchiveOption`; the set of keys is a list.
pub record ArchiveOption : Type 0 where
  pub passphrases : List Text
  pub formats : List Text
  pub metadata_keys : List Text

abbrev pub no_options : ArchiveOption
no_options = record { passphrases = []; formats = []; metadata_keys = [] }

-- The callbacks that libarchive gets; skipping and seeking are set for a stream that can seek.
pub record Client (S : Type 0) : Type 0 where
  pub read_callback : S → PartRead × S
  pub skip_callback : Option (ℤ → S → ℤ × S)
  pub seek_callback : Option (ℤ → Whence → S → ℤ × S)

-- libarchive, with handles `H` and entries `E`. A call that reads does so through the callbacks of
-- any client, and changes the client's state.
pub record Library (H E : Type 0) : Type 1 where
  pub calls : HandleCalls H
  pub null_handle : H
  pub close_and_free : H → H
  -- Whether the result is ARCHIVE_OK.
  pub read_open : {S : Type 0} → Client S → H × S → Bool × (H × S)
  pub read_next_header : {S : Type 0} → Client S → H × S → HeaderRead E × (H × S)
  pub read_data_skip : {S : Type 0} → Client S → H × S → Bool × (H × S)
  pub read_data : {S : Type 0} → Client S → ℕ → H × S → PartRead × (H × S)
  pub pathname : E → Option Text
  pub size : E → ℕ
  pub filetype : E → ℕ

abbrev pub buffer_size : ℕ
buffer_size = 65536

-- What a callback makes of the result of the stream; an exception is -1.
unfoldable pub read_result : {S : Type 0} → ReadEnd × S → PartRead × S
read_result (done bs, s) = (bytes bs, s)
read_result (code n, s) = (failed n, s)
read_result (thrown e, s) = (failed 0, s)
read_result (out_of_fuel, s) = (failed 0, s)

pub seek_result : {S : Type 0} → SeekEnd × S → ℤ × S
seek_result (at offset, s) = (offset, s)
seek_result (seek_thrown e, s) = (negsuc 0, s)

-- The distance to `current`, or 0 for a seek that failed.
pub skipped : {S : Type 0} → ℤ → SeekEnd × S → ℤ × S
skipped current (at result, s) = (if ltb_ℤ result (pos 0) then pos 0 else result -ℤ current, s)
skipped current (seek_thrown e, s) = (pos 0, s)

module _ {S : Type 0} (stream : DataStream S) where
  unfoldable pub read_callback_bridge : S → PartRead × S
  unfolding read_result
  read_callback_bridge s = read_result (stream.read buffer_size s)

  pub seek_callback_bridge : ℤ → Whence → S → ℤ × S
  unfolding seek_result
  seek_callback_bridge request whence s = seek_result (stream.seek request whence s)

  -- The skip, from where the stream stands.
  pub skip_from : ℤ → SeekEnd × S → ℤ × S
  unfolding skipped
  skip_from request (seek_thrown e, s) = (pos 0, s)
  skip_from request (at current, s) =
      if ltb_ℤ current (pos 0) then (pos 0, s) else skipped current (stream.seek request seek_cur s)

  unfoldable pub skip_callback_bridge : ℤ → S → ℤ × S
  unfolding skip_from
  skip_callback_bridge request s =
      if ltb_ℤ (stream.tell s) (pos 0)
      then skip_from request (stream.seek (pos 0) seek_cur s)
      else skip_from request (at (stream.tell s), s)

  unfoldable pub client : Client S
  unfolding read_callback_bridge seek_callback_bridge skip_callback_bridge
  client = record {
    read_callback = read_callback_bridge;
    skip_callback = if stream.can_seek then some skip_callback_bridge else none;
    seek_callback = if stream.can_seek then some seek_callback_bridge else none;
  }

module _ {H E : Type 0} (lib : Library H E) where
  unfoldable pub handled : {S : Type 0} → H → Result H × S → Result (Unit {0}) × (H × S)
  handled h (ok h', s) = (ok tt, (h', s))
  handled h (throws e, s) = (throws e, (h, s))

  module _ {S : Type 0} (stream : DataStream S) (options : ArchiveOption) where
    -- The delegate only sets the callbacks and opens; `can_seek` of a stream is taken to throw nothing, and the
    -- callbacks catch what the stream throws.
    abbrev pub returned : Bool × (H × S) → Result Bool × (H × S)
    returned (opened, w) = (ok opened, w)

    -- `open_archive`, on the handle and the stream.
    unfoldable pub open_archive : H × S → Result (Unit {0}) × (H × S)
    unfolding handled new_read_archive_common client
    open_archive (h, s) = handled h (
        new_read_archive_common lib.calls options.passphrases options.formats
          (λ w. returned (lib.read_open (client stream) w)) s)

    -- The rewind of the stream, with which the overriding `rewind` begins.
    unfoldable pub rewound_stream : H → Result (Unit {0}) × S → Result (Unit {0}) × (H × S)
    rewound_stream h (result, s) = (result, (h, s))

    -- The calls of `Archive`, through this stream.
    unfoldable pub stream_archive : LibArchive (H × S) E
    unfolding open_archive rewound_stream client
    stream_archive = record {
      open_handle = open_archive;
      rewind_source = λ (h, s). rewound_stream h (stream.rewind s);
      close_and_free = λ (h, s). (lib.close_and_free h, s);
      read_next_header = lib.read_next_header (client stream);
      read_data_skip = lib.read_data_skip (client stream);
      read_data = lib.read_data (client stream);
      error_string = λ (h, s). lib.calls.handle_error_string h;
      errno = λ (h, s). lib.calls.handle_errno h;
      pathname = lib.pathname;
      size = lib.size;
      filetype = lib.filetype;
    }

  -- The constructor of `Archive`, on a stream.
  unfoldable pub unopened : {S : Type 0} → S → Archive (H × S) E
  unopened s = record {
    is_open = false;
    current_entry = none;
    current_entryname = [];
    at_eof = false;
    content_ready = false;
    world = (lib.null_handle, s);
  }

  -- The constructor: when it throws, the object is gone and the stream is what is left.
  unfoldable pub make_stream_archive :
      {S : Type 0} → DataStream S → ArchiveOption → S → Result (Unit {0}) × Archive (H × S) E
  unfolding open_archive unopened
  make_stream_archive stream options s =
      reopened (stream_archive stream options) (unopened s)
        (open_archive stream options (lib.null_handle, s))
