-- ===== src/Examples/Files.antt =====
-- The file stream and the root metadata of src/system_file_stream.cc at concrete inputs.
use archive_r.Base.{
  ℕ, zero, suc, ◌<◌, ◌≡◌, refl, sym, true, false, none, some, List, [], ◌∷◌, Text, codes, pos,
  negsuc, arith, length, take, drop, length-take, take_none, take-append-drop, if◌then◌else◌,
}
use archive_r.Hierarchy.{PathHierarchy, single, multi_volume, natural, parent_hierarchy}
use archive_r.HierarchyUtils.{pathhierarchy_select_single_part, pathhierarchy_volume_entry_name}
use archive_r.VolumeStream.Parts.{Config, Stream, done, int64_limit}
use archive_r.VolumeStream.{single_part, read, rewind}
use archive_r.VolumeStream.Files.{contents_from, contents, AllExist}
use archive_r.SystemFileStream.{Stdio, SystemFile, path_of, system_file_stream}
use archive_r.SystemFileStream.Reading.{Readable, system_files, system_file_stream-read}
use archive_r.EntryMetadata.{contains, lookup, ◌then_do◌}
use archive_r.RootMetadata.{
  FileSystem, store_size, store_stat, stat_statements, collect_root_path_metadata,
}
use archive_r.RootMetadata.Stat.{statements-stat, collect_root_path_metadata-contains}

-- The open file and its unread bytes; a file holds the bytes of its own name.
abbrev World : Type 0
World = Text × List ℕ

abbrev own_names : Stdio World
own_names = record {
  fopen = λ path w. (true, (path, path));
  fclose = λ w. w;
  fread = λ n w. (take n w.1, (w.0, drop n w.1));
  feof = λ w. true;
  ferror = λ w. false;
  fseeko = λ k w. elim k [ pos n ↦ (true, (w.0, drop n w.0)) | negsuc n ↦ (false, w) ];
  stat_size = λ path w. some (pos (length path));
  errno = λ w. pos 0;
  strerror = λ e. [];
}

abbrev own_names_readable : Readable own_names
own_names_readable = record {
  content = λ path. path;
  exists = λ path. Unit;
  At = λ w path rest. w ≡ (path, rest);
  opens = λ path w e. ((path, path), refl, refl);
  reads = λ n w path rest n_pos at. (
    take n rest,
    drop n rest,
    (path, drop n rest),
    rw at refl,
    refl,
    sym (take-append-drop n rest),
    omega (arith, length-take n rest),
    λ none_read. (take_none n rest n_pos none_read, refl),
  );
  seeks = λ k w path rest k_le at. ((path, drop k path), rw at refl, refl);
  sizes = λ path w e. refl;
}

abbrev volumes : PathHierarchy
volumes = multi_volume (record { values = codes "abc" ∷ codes "de" ∷ []; ordering = natural }) ∷ []

abbrev two_files : Config
two_files = record { logical_path = volumes; supports_seek = true; total_parts = 2 }

abbrev fresh : Stream (SystemFile World)
fresh = record {
  part_offsets = pos 0 ∷ pos 0 ∷ pos 0 ∷ [];
  active_part_index = 0;
  open_part_index = 0;
  part_open = false;
  logical_offset = pos 0;
  total_size = negsuc 0;
  device = record { has_handle = false; active_path = []; world = ([], []) };
}

both_exist : AllExist (system_files own_names_readable volumes) two_files
unfolding path_of single_part pathhierarchy_select_single_part parent_hierarchy
    pathhierarchy_volume_entry_name
both_exist zero h = (codes "abc", refl, tt)
both_exist (suc zero) h = (codes "de", refl, tt)
both_exist (suc (suc index)) h = absurd (omega arith)

own_contents : contents (system_files own_names_readable volumes) two_files ≡ codes "abcde"
unfolding contents_from path_of single_part pathhierarchy_select_single_part parent_hierarchy
    pathhierarchy_volume_entry_name
own_contents = refl

own_contents_short :
    length (contents (system_files own_names_readable volumes) two_files) < int64_limit
own_contents_short = rw own_contents (omega arith)

system_file_stream-read_example :
    (read
      (system_file_stream own_names volumes)
      two_files
      4
      (rewind (system_file_stream own_names volumes) two_files fresh)).0
    ≡ done (take 4 (contents (system_files own_names_readable volumes) two_files))
system_file_stream-read_example =
    system_file_stream-read own_names_readable volumes two_files 4 fresh both_exist
      own_contents_short

-- A file system of empty regular files of user 1 in group 2, whose `stat` tells of five bytes.
abbrev pub file_system : FileSystem
file_system = record {
  entry_opens = λ p. true;
  exists = λ p. some true;
  is_regular_file = λ p. some true;
  file_size = λ p. some 0;
  is_directory = λ p. some false;
  is_symlink = λ p. some false;
  permissions = λ p. some 420;
  stat = λ p. some (record { st_size = pos 5; st_uid = 1; st_gid = 2 });
  sysconf_pw = negsuc 0;
  sysconf_gr = negsuc 0;
  getpwuid_r = λ u n. (pos 0, some (some (codes "me")));
  getgrgid_r = λ g n. (pos 0, none);
  s_ifreg = 32768;
  s_ifdir = 16384;
  s_iflnk = 40960;
}

statements-stat_example :
    stat_statements file_system 0 (codes "f") (contains (codes "size" ∷ [])) []
    ≡ (store_size file_system 0 (file_system.stat (codes "f"))
          then_do store_stat file_system (file_system.stat (codes "f")))
        (contains (codes "size" ∷ []))
        []
statements-stat_example =
    statements-stat file_system 0 (codes "f") (contains (codes "size" ∷ [])) []

collect_root_path_metadata-contains_example :
    lookup
      (codes "size")
      (collect_root_path_metadata file_system
        (single (codes "f") ∷ [])
        (codes "uid" ∷ codes "size" ∷ [])).metadata
    ≡ (if contains (codes "uid" ∷ codes "size" ∷ []) (codes "size")
        then lookup
            (codes "size")
            (collect_root_path_metadata file_system
              (single (codes "f") ∷ [])
              (codes "size" ∷ [])).metadata
        else none)
collect_root_path_metadata-contains_example =
    collect_root_path_metadata-contains file_system (single (codes "f") ∷ [])
      (codes "uid" ∷ codes "size" ∷ []) (codes "size")
