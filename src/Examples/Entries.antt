-- ===== src/Examples/Entries.antt =====
-- The archive reader of src/archive_type.cc over a list of names that stands for an archive.
use archive_r.Base.{
  ◌≡◌, ◌≢◌, refl, true, false, none, some, List, [], ◌∷◌, Text, codes, pos, arith, text_eqb,
  if◌then◌else◌,
}
use archive_r.Fault.{ok}
use archive_r.ArchiveReader.Handle.{HeaderRead, header, end_of_archive, LibArchive, Archive}
use archive_r.ArchiveReader.{skip_to_entry}
use archive_r.ArchiveReader.Steps.{Listing}
use archive_r.ArchiveReader.Search.{eqb_false-ne}
use archive_r.ArchiveReader.Behind.{Decides}
use archive_r.ArchiveReader.Wrap.{skip_to_entry-Decides, skip_to_entry_misses}
use archive_r.VolumeStream.Parts.{bytes}
use archive_r.Metadata.Reader.{EntryReader}
use archive_r.Metadata.{current_entry_metadata}
use archive_r.EntryMetadata.{lookup, contains}
use archive_r.Metadata.Allowed.{current_entry_metadata-contains}

-- An archive of empty files with these names; the handle's state is the names that are left.
abbrev next_name : List Text → HeaderRead Text × List Text
next_name [] = (end_of_archive, [])
next_name (n ∷ names) = (header n, names)

abbrev named_files : List Text → LibArchive (List Text) Text
named_files all = record {
  open_handle = λ w. (ok tt, all);
  rewind_source = λ w. (ok tt, w);
  close_and_free = λ w. w;
  read_next_header = next_name;
  read_data_skip = λ w. (true, w);
  read_data = λ n w. (bytes [], w);
  error_string = λ w. none;
  errno = λ w. pos 0;
  pathname = λ e. some e;
  size = λ e. 0;
  filetype = λ e. 0;
}

abbrev listing : (all : List Text) → Listing (named_files all) all
listing all = record {
  Lists = λ w names. w ≡ names;
  Starts = λ w name names. w ≡ names;
  Live = λ w. Unit {0};
  starts_lists = λ w name names at. at;
  lists_live = λ w names at. tt;
  next = λ w name names at. (name, names, rw at refl, refl, refl);
  ends = λ w at. ([], rw at refl, tt);
  skips = λ w names at. (w, refl, at);
  reopens = λ w live. (w, all, refl, refl, refl);
}

abbrev pub a_name : Text
a_name = codes "a"

abbrev pub b_name : Text
b_name = codes "b"

abbrev pub two_names : List Text
two_names = a_name ∷ b_name ∷ []

pub a-ne-b : a_name ≢ b_name
a-ne-b = eqb_false-ne a_name b_name (unfold text_eqb in refl)

pub b-ne-a : b_name ≢ a_name
b-ne-a = eqb_false-ne b_name a_name (unfold text_eqb in refl)

pub b-ne-nil : b_name ≢ []
b-ne-nil = eqb_false-ne b_name [] (unfold text_eqb in refl)

-- Behind the entry `b`, its data read.
abbrev behind_b : Archive (List Text) Text
behind_b = record {
  is_open = true;
  current_entry = some b_name;
  current_entryname = b_name;
  at_eof = false;
  content_ready = false;
  world = [];
}

skip_to_entry-Decides_example :
    Decides (listing two_names) a_name (skip_to_entry (named_files two_names) 3 a_name behind_b)
skip_to_entry-Decides_example =
    skip_to_entry-Decides (listing two_names) 3 a_name (a_name ∷ []) b_name [] behind_b
      (omega arith)
      (record {
        ahead = record { open_lem = refl; eof_lem = refl; lists = refl };
        current = refl;
        named = b-ne-nil;
        split = refl;
        first = (a-ne-b, tt);
        unread = λ ready. refl;
      })

abbrev past_last : Archive (List Text) Text
past_last = record behind_b { current_entry = none; current_entryname = []; at_eof = true }

abbrev duplicated : List Text
duplicated = b_name ∷ a_name ∷ b_name ∷ []

skip_to_entry_misses_example :
    (a : Archive (List Text) Text) × (skip_to_entry (named_files duplicated) 4 a_name behind_b
      ≡ some (ok false, a))
skip_to_entry_misses_example =
    skip_to_entry_misses (listing duplicated) 4 a_name b_name [] [] [] [] behind_b (omega arith)
      refl (record { open_lem = refl; eof_lem = refl; lists = refl }) refl b-ne-nil b-ne-a tt
      (b-ne-a, tt) tt

-- Entries that are their names, owned by a user of that name, of five bytes.
abbrev name_reader : EntryReader Text
name_reader = record {
  pathname_utf8 = λ e. none;
  pathname = λ e. some e;
  sourcepath = λ e. none;
  symlink_utf8 = λ e. none;
  hardlink_utf8 = λ e. none;
  hardlink = λ e. none;
  uname_utf8 = λ e. none;
  uname = λ e. some e;
  gname_utf8 = λ e. none;
  gname = λ e. none;
  strmode = λ e. none;
  fflags_text = λ e. none;
  acl_text = λ e. none;
  uid = λ e. pos 0;
  gid = λ e. pos 0;
  size = λ e. pos 5;
  ino = λ e. pos 0;
  ino64 = λ e. pos 0;
  symlink_type = λ e. pos 0;
  acl_types = λ e. pos 0;
  xattr_count = λ e. pos 0;
  sparse_count = λ e. pos 0;
  perm = λ e. 0;
  mode = λ e. 0;
  filetype = λ e. 0;
  nlink = λ e. 0;
  devmajor = λ e. 0;
  devminor = λ e. 0;
  rdev = λ e. 0;
  rdevmajor = λ e. 0;
  rdevminor = λ e. 0;
  fflags_set = λ e. 0;
  fflags_clear = λ e. 0;
  size_is_set = λ e. true;
  dev_is_set = λ e. false;
  ino_is_set = λ e. false;
  atime_is_set = λ e. false;
  birthtime_is_set = λ e. false;
  ctime_is_set = λ e. false;
  mtime_is_set = λ e. false;
  atime = λ e. pos 0;
  birthtime = λ e. pos 0;
  ctime = λ e. pos 0;
  mtime = λ e. pos 0;
  atime_nsec = λ e. pos 0;
  birthtime_nsec = λ e. pos 0;
  ctime_nsec = λ e. pos 0;
  mtime_nsec = λ e. pos 0;
  is_data_encrypted = λ e. pos 0;
  is_metadata_encrypted = λ e. pos 0;
  is_encrypted = λ e. pos 0;
  xattrs = λ e. [];
  sparse = λ e. [];
  mac_metadata = λ e. none;
  digest = λ e type. none;
}

current_entry_metadata-contains_example :
    lookup
      (codes "size")
      (current_entry_metadata name_reader (codes "size" ∷ codes "uname" ∷ []) behind_b)
    ≡ (if contains (codes "size" ∷ codes "uname" ∷ []) (codes "size")
        then lookup (codes "size") (current_entry_metadata name_reader (codes "size" ∷ []) behind_b)
        else none)
current_entry_metadata-contains_example =
    current_entry_metadata-contains name_reader (codes "size" ∷ codes "uname" ∷ []) (codes "size")
      behind_b
