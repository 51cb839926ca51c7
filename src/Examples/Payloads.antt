-- ===== src/Examples/Payloads.antt =====
-- The stream over entries of src/archive_stack_cursor.cc in an archive whose entries hold their names twice.
use archive_r.Base.{
  ℕ, zero, suc, ◌≡◌, ◌≢◌, ◌++◌, refl, sym, ap, inl, true, false, none, some, List, [], ◌∷◌, Text,
  codes, pos, negsuc, arith, take, drop, length-take, take_none, take-append-drop, text_eqb, All,
}
use archive_r.Hierarchy.{single, multi_volume, natural, parent_hierarchy}
use archive_r.HierarchyUtils.{pathhierarchy_volume_entry_name, pathhierarchy_select_single_part}
use archive_r.Fault.{ok}
use archive_r.SystemFileStream.{path_of}
use archive_r.ArchiveReader.Handle.{HeaderRead, header, end_of_archive, LibArchive, Archive}
use archive_r.ArchiveReader.Steps.{Listing}
use archive_r.ArchiveReader.Search.{eqb_false-ne}
use archive_r.VolumeStream.Parts.{Config, Stream, bytes, done}
use archive_r.VolumeStream.{read, single_part}
use archive_r.VolumeStream.Files.{AllExist, contents, contents_from}
use archive_r.PayloadStream.{payload_io, rewind_payload}
use archive_r.PayloadStream.Placed.{Contents, Distinct}
use archive_r.PayloadStream.Reading.{payload_files, payload_stream-read}
use archive_r.Examples.Entries.{a_name, b_name, two_names, b-ne-a, b-ne-nil}

-- The bytes that are left of the current entry, and the names that follow.
abbrev Handle : Type 0
Handle = List ℕ × List Text

abbrev next_entry : Handle → HeaderRead Text × Handle
next_entry (rest, []) = (end_of_archive, ([], []))
next_entry (rest, name ∷ names) = (header name, (name ++ name, names))

abbrev entries_archive : List Text → LibArchive Handle Text
entries_archive all = record {
  open_handle = λ w. (ok tt, ([], all));
  rewind_source = λ w. (ok tt, w);
  close_and_free = λ w. w;
  read_next_header = next_entry;
  read_data_skip = λ w. (true, ([], w.1));
  read_data = λ n w. (bytes (take n w.0), (drop n w.0, w.1));
  error_string = λ w. none;
  errno = λ w. pos 0;
  pathname = λ e. some e;
  size = λ e. 0;
  filetype = λ e. 0;
}

abbrev entries_listing : (all : List Text) → Listing (entries_archive all) all
entries_listing all = record {
  Lists = λ w names. w.1 ≡ names;
  Starts = λ w name names. w ≡ (name ++ name, names);
  Live = λ w. Unit {0};
  starts_lists = λ w name names at. ap (λ v. v.1) at;
  lists_live = λ w names at. tt;
  next = λ w name names at. (name, (name ++ name, names), rw at refl, refl, refl);
  ends = λ w at. (([], []), rw at refl, tt);
  skips = λ w names at. (([], w.1), refl, at);
  reopens = λ w live. (w, ([], all), refl, refl, refl);
}

abbrev entries_contents : (all : List Text) → Contents (entries_listing all)
entries_contents all = record {
  data_of = λ name. name ++ name;
  Reading = λ w name rest names. w ≡ (rest, names);
  starts_reading = λ w name names at. at;
  reading_lists = λ w name rest names at. ap (λ v. v.1) at;
  reads = λ n w name rest names n_pos at. (
    take n rest,
    drop n rest,
    (drop n rest, names),
    rw at refl,
    refl,
    sym (take-append-drop n rest),
    omega (arith, length-take n rest),
    take_none n rest n_pos,
  );
}

-- The entries `b` and `a` of the archive, in this order, as two volumes.
abbrev two_volumes : Config
two_volumes = record {
  logical_path =
      single (codes "t")
      ∷ multi_volume (record { values = b_name ∷ a_name ∷ []; ordering = natural })
      ∷ [];
  supports_seek = false;
  total_parts = 2;
}

abbrev at_start : Stream (Archive Handle Text)
at_start = record {
  part_offsets = pos 0 ∷ pos 0 ∷ pos 0 ∷ [];
  active_part_index = 0;
  open_part_index = 0;
  part_open = false;
  logical_offset = pos 0;
  total_size = negsuc 0;
  device = record {
    is_open = true;
    current_entry = none;
    current_entryname = [];
    at_eof = false;
    content_ready = false;
    world = ([], two_names);
  };
}

a-ne-nil : a_name ≢ []
a-ne-nil = eqb_false-ne a_name [] (unfold text_eqb in refl)

names-Distinct : Distinct two_names
names-Distinct = ((b-ne-a, tt), (tt, tt))

names_named : All (λ t. t ≢ []) two_names
names_named = (a-ne-nil, (b-ne-nil, tt))

volumes_exist :
    AllExist
      (payload_files (entries_contents two_names) 3 (omega arith) names-Distinct names_named)
      two_volumes
unfolding payload_files path_of single_part pathhierarchy_select_single_part parent_hierarchy
    pathhierarchy_volume_entry_name
volumes_exist zero h = (b_name, refl, (a_name ∷ [], [], refl))
volumes_exist (suc zero) h = (a_name, refl, ([], b_name ∷ [], refl))
volumes_exist (suc (suc index)) h = absurd (omega arith)

volumes_contents :
    contents
      (payload_files (entries_contents two_names) 3 (omega arith) names-Distinct names_named)
      two_volumes
    ≡ codes "bbaa"
unfolding payload_files contents_from path_of single_part pathhierarchy_select_single_part
    parent_hierarchy pathhierarchy_volume_entry_name
volumes_contents = refl

payload_stream-read_example :
    (s : Stream (Archive Handle Text)) × (rewind_payload
        (entries_archive two_names)
        3
        two_volumes
        at_start
      ≡ (ok tt, s))
    × ((read (payload_io (entries_archive two_names) 3) two_volumes 3 s).0
        ≡ done (
            take 3 (
              contents
                (payload_files
                  (entries_contents two_names)
                  3
                  (omega arith)
                  names-Distinct
                  names_named)
                two_volumes)))
payload_stream-read_example =
    payload_stream-read (entries_contents two_names) 3 (omega arith) names-Distinct names_named
      two_volumes 3 at_start volumes_exist (omega arith) (rw volumes_contents (omega arith))
      (inl (record { open_lem = refl; eof_lem = refl; lists = refl }, refl))
