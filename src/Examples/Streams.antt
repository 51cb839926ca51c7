-- ===== src/Examples/Streams.antt =====
-- The stream of src/multi_volume_stream_base.cc over volumes that hold the bytes of their own names.
use archive_r.Base.{
  +ℤ_negsuc, +ℤ_pos, inl, ℕ, ◌<◌, ◌≡◌, ◌≢◌, refl, sym, true, false, List, [], ◌∷◌, codes, pos,
  negsuc, arith, length, take, drop, length-take, take_none, take-append-drop,
}
use archive_r.Hierarchy.{PathHierarchy, single, multi_volume, natural, parent_hierarchy}
use archive_r.HierarchyUtils.{pathhierarchy_volume_entry_name, pathhierarchy_select_single_part}
use archive_r.Fault.{ok}
use archive_r.VolumeStream.Parts.{
  PartIo, bytes, Config, Stream, done, out_of_fuel, int64_limit, seek_end, seek_cur, at,
}
use archive_r.VolumeStream.{single_part, read, rewind, seek}
use archive_r.VolumeStream.Files.{Files, Seekable, contents_from, contents, Unread, AllExist}
use archive_r.VolumeStream.Total.{read-ne-out_of_fuel}
use archive_r.VolumeStream.Targets.{Seeks}
use archive_r.VolumeStream.Seeking.{seek_lem, seek-outside}
use archive_r.VolumeStream.Reading.{Reads, read_lem, read-rewind, start-Unread}

abbrev file_bytes : PathHierarchy → List ℕ
file_bytes (single v ∷ []) = v
file_bytes _ = []

-- The file that is open, and its unread bytes.
abbrev Device : Type 0
Device = PathHierarchy × List ℕ

abbrev own_names : PartIo Device
own_names = record {
  open_single_part = λ h d. (ok tt, (h, file_bytes h));
  close_single_part = λ d. d;
  read_from_single_part = λ n d. (ok (bytes (take n d.1)), (d.0, drop n d.1));
  seek_within_single_part =
      λ k d. elim k [ pos n ↦ (pos n, (d.0, drop n (file_bytes d.0))) | negsuc n ↦ (negsuc 0, d) ];
  size_of_single_part = λ h d. pos (length (file_bytes h));
}

abbrev own_names_files : Files own_names
own_names_files = record {
  content = file_bytes;
  exists = λ h. Unit;
  Live = λ d. Unit {0};
  At = λ d h rest. d ≡ (h, rest);
  at_live = λ d h rest at. tt;
  closes = λ d live. tt;
  opens = λ h d e live. ((h, file_bytes h), refl, refl);
  reads = λ n d h rest n_pos at. (
    take n rest,
    drop n rest,
    (h, drop n rest),
    rw at refl,
    refl,
    sym (take-append-drop n rest),
    omega (arith, length-take n rest),
    take_none n rest n_pos,
  );
}

abbrev own_names_seekable : Seekable own_names_files
own_names_seekable = record {
  seeks = λ k d h rest k_le at. ((h, drop k (file_bytes h)), rw at refl, refl);
  sizes = λ h d e. refl;
}

abbrev two_volumes : Config
two_volumes = record {
  logical_path =
      multi_volume (record { values = codes "abc" ∷ codes "de" ∷ []; ordering = natural }) ∷ [];
  supports_seek = true;
  total_parts = 2;
}

abbrev started : Stream Device
started = record {
  part_offsets = pos 0 ∷ pos 0 ∷ pos 0 ∷ [];
  active_part_index = 0;
  open_part_index = 0;
  part_open = false;
  logical_offset = pos 0;
  total_size = negsuc 0;
  device = ([], []);
}

all_exist : AllExist own_names_files two_volumes
all_exist index h = tt

started-Unread : Unread own_names_files two_volumes started (contents own_names_files two_volumes)
started-Unread = start-Unread own_names_files two_volumes started refl refl tt

own_contents : contents own_names_files two_volumes ≡ codes "abcde"
unfolding contents_from single_part pathhierarchy_select_single_part parent_hierarchy
    pathhierarchy_volume_entry_name
own_contents = refl

contents_short : length (contents own_names_files two_volumes) < int64_limit
contents_short = rw own_contents (omega arith)

read_lem_example :
    Reads own_names_files two_volumes [] 0 4
      (contents own_names_files two_volumes)
      (read own_names two_volumes 4 started)
read_lem_example =
    read_lem own_names_files two_volumes 4 0 (contents own_names_files two_volumes) started
      all_exist started-Unread refl (omega (arith, contents_short))

read-rewind_example :
    (read own_names two_volumes 4 (rewind own_names two_volumes started)).0
    ≡ done (take 4 (contents own_names_files two_volumes))
read-rewind_example = read-rewind own_names_files two_volumes 4 started all_exist contents_short tt

read-ne-out_of_fuel_example : (read own_names two_volumes 4 started).0 ≢ out_of_fuel
read-ne-out_of_fuel_example = read-ne-out_of_fuel own_names two_volumes 4 started

seek_lem_example :
    Seeks own_names_files own_names_seekable two_volumes 4
      (seek own_names two_volumes (negsuc 0) seek_end started)
seek_lem_example =
    seek_lem own_names_files own_names_seekable two_volumes (negsuc 0) seek_end 4 started refl
      all_exist (rw own_contents (+ℤ_negsuc 5 0 (omega arith))) (rw own_contents (omega arith))
      contents_short (inl (refl, tt)) (inl (refl, (pos 0, pos 0 ∷ pos 0 ∷ [], refl, refl)))

seek-outside_example :
    ((seek own_names two_volumes (pos 6) seek_cur started).0 ≡ at (negsuc 0))
    × Unread own_names_files two_volumes
        (seek own_names two_volumes (pos 6) seek_cur started).1
        (contents own_names_files two_volumes)
    × ((seek own_names two_volumes (pos 6) seek_cur started).1.logical_offset ≡ pos 0)
seek-outside_example =
    seek-outside own_names_files own_names_seekable two_volumes (pos 6) seek_cur (pos 6)
      (contents own_names_files two_volumes) started refl all_exist (omega arith, omega arith)
      (+ℤ_pos 0 6) (rw own_contents refl) contents_short
      (inl (refl, (pos 0, pos 0 ∷ pos 0 ∷ [], refl, refl))) started-Unread
