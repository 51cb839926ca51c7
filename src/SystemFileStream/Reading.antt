-- ===== src/SystemFileStream/Reading.antt =====
-- A `SystemFileStream` (src/system_file_stream.cc) over files that stdio can read delivers their
-- bytes one file after the other.
use mathlib.Core.Path.{subst}
use archive_r.Base.{
  ℕ, ◌<◌, ◌≤◌, ◌≡◌, refl, sym, ap, ◌∙◌, true, Option, none, some, List, [], ◌∷◌, ◌++◌, Text, pos,
  length, take, drop, arith,
}
use archive_r.Hierarchy.{PathHierarchy}
use archive_r.Fault.{ok}
use archive_r.VolumeStream.Parts.{bytes, Config, Stream, done, int64_limit}
use archive_r.VolumeStream.{read, rewind}
use archive_r.VolumeStream.Files.{Files, Seekable, contents, AllExist}
use archive_r.VolumeStream.Reading.{read-rewind}
use archive_r.SystemFileStream.{
  Stdio, SystemFile, path_of, open_single_part, opened_file, open_path, size_of_path, size_or_fail,
  read_from_single_part, took_bytes, seek_within_single_part, sought, size_of_single_part,
  system_file_stream,
}

-- What stdio does with regular files that can be read: `At w path rest` holds when the file is open
-- and `rest` is unread. A short read at the end sets the end-of-file indicator.
pub record Readable {W : Type 0} (stdio : Stdio W) : Type 1 where
  pub content : Text → List ℕ
  pub exists : Text → Type 0
  pub At : W → Text → List ℕ → Type 0
  pub opens :
      (path : Text) (w : W)
      → exists path
      → (w' : W) × (stdio.fopen path w ≡ (true, w')) × At w' path (content path)
  pub reads :
      (n : ℕ) (w : W) (path : Text) (rest : List ℕ)
      → 0 < n
      → At w path rest
      → (bs rest' : List ℕ) × (w' : W) × (stdio.fread n w ≡ (bs, w'))
        × At w' path rest'
        × (rest ≡ bs ++ rest')
        × (length bs ≤ n)
        × (bs ≡ [] → (rest' ≡ []) × (stdio.feof w' ≡ true))
  pub seeks :
      (k : ℕ) (w : W) (path : Text) (rest : List ℕ)
      → k ≤ length (content path)
      → At w path rest
      → (w' : W) × (stdio.fseeko (pos k) w ≡ (true, w')) × At w' path (drop k (content path))
  pub sizes :
      (path : Text) (w : W)
      → exists path
      → stdio.stat_size path w ≡ some (pos (length (content path)))

module _ {W : Type 0} {stdio : Stdio W} (r : Readable stdio) (logical_path : PathHierarchy) where
  open r use {content, exists, At}

  abbrev part_bytes : Option Text → List ℕ
  part_bytes none = []
  part_bytes (some path) = content path

  abbrev PartExists : PathHierarchy → Type 0
  PartExists h = (path : Text) × (path_of h ≡ some path) × exists path

  abbrev PartAt : SystemFile W → PathHierarchy → List ℕ → Type 0
  PartAt d h rest = (path : Text) × (path_of h ≡ some path) × At d.world path rest

  absorbs :
      (bs : List ℕ) (w : W) (d : SystemFile W)
      → (bs ≡ [] → stdio.feof w ≡ true)
      → took_bytes stdio logical_path d (bs, w) ≡ (ok (bytes bs), record d { world = w })
  unfolding took_bytes
  absorbs [] w d h = rw (h refl) refl
  absorbs (b ∷ bs) w d h = refl

  pub opens_part :
      (h : PathHierarchy) (d : SystemFile W)
      → PartExists h
      → Unit {0}
      → (d' : SystemFile W) × ((system_file_stream stdio logical_path).open_single_part h d
          ≡ (ok tt, d'))
        × PartAt d' h (part_bytes (path_of h))
  unfolding system_file_stream open_single_part opened_file open_path
  opens_part h d (path, named, there) live =
      let (w, e, at) = r.opens path d.world there in
      (
        record { has_handle = true; active_path = path; world = w },
        ap (open_path stdio logical_path h d) named
            ∙ ap (opened_file stdio logical_path h path d) e,
        (path, named, rw named at),
      )

  pub reads_part :
      (n : ℕ) (d : SystemFile W) (h : PathHierarchy) (rest : List ℕ)
      → 0 < n
      → PartAt d h rest
      → (bs rest' : List ℕ) × (d' : SystemFile W) × ((system_file_stream stdio
              logical_path).read_from_single_part
            n d
          ≡ (ok (bytes bs), d'))
        × PartAt d' h rest'
        × (rest ≡ bs ++ rest')
        × (length bs ≤ n)
        × (bs ≡ [] → rest' ≡ [])
  unfolding system_file_stream read_from_single_part
  reads_part n d h rest n_pos (path, named, at) =
      let (bs, rest', w, e, at', split, short, ends) = r.reads n d.world path rest n_pos at in
      (
        bs,
        rest',
        record d { world = w },
        ap (took_bytes stdio logical_path d) e ∙ absorbs bs w d (λ none_read. (ends none_read).1),
        (path, named, at'),
        split,
        short,
        λ none_read. (ends none_read).0,
      )

  pub seeks_part :
      (k : ℕ) (d : SystemFile W) (h : PathHierarchy) (rest : List ℕ)
      → k ≤ length (part_bytes (path_of h))
      → PartAt d h rest
      → (d' : SystemFile W) × ((system_file_stream stdio logical_path).seek_within_single_part
            (pos k)
            d
          ≡ (pos k, d'))
        × PartAt d' h (drop k (part_bytes (path_of h)))
  unfolding system_file_stream seek_within_single_part
  seeks_part k d h rest k_le (path, named, at) =
      let inside : k ≤ length (content path) = subst (λ o. k ≤ length (part_bytes o)) named k_le in
      let (w, e, at') = r.seeks k d.world path rest inside at in
      (
        record d { world = w },
        ap (sought stdio logical_path (pos k) d) e ∙ not_negative k d w,
        (path, named, rw named at'),
      )
    where
      not_negative :
          (k : ℕ) (d : SystemFile W) (w : W)
          → sought stdio logical_path (pos k) d (true, w) ≡ (pos k, record d { world = w })
      not_negative k d w = unfold sought in ground arith

  pub sizes_part :
      (h : PathHierarchy) (d : SystemFile W)
      → PartExists h
      → (system_file_stream stdio logical_path).size_of_single_part h d
        ≡ pos (length (part_bytes (path_of h)))
  unfolding system_file_stream size_of_single_part size_of_path size_or_fail
  sizes_part h d (path, named, there) =
      ap (size_of_path stdio logical_path d) named
      ∙ ap (size_or_fail stdio logical_path) (r.sizes path d.world there)
      ∙ sym (ap (λ o. pos (length (part_bytes o))) named)

  -- The class behaves as the base class takes its files to do.
  abbrev pub system_files : Files (system_file_stream stdio logical_path)
  system_files = record {
    content = λ h. part_bytes (path_of h);
    exists = PartExists;
    Live = λ d. Unit {0};
    At = PartAt;
    at_live = λ d h rest at. tt;
    closes = λ d live. tt;
    opens = opens_part;
    reads = reads_part;
  }

  abbrev pub system_files-Seekable : Seekable system_files
  system_files-Seekable = record { seeks = seeks_part; sizes = sizes_part }

  -- Over files that stdio reads and that exist, with fewer than 2^63 bytes in all: after a rewind, from
  -- whatever state, a read of `size` bytes of a `SystemFileStream` returns the first `size` bytes of
  -- the files one after the other, or all of them if there are fewer.
  pub system_file_stream-read :
      (c : Config) (size : ℕ) (s : Stream (SystemFile W))
      → AllExist system_files c
      → length (contents system_files c) < int64_limit
      → (read
          (system_file_stream stdio logical_path)
          c
          size
          (rewind (system_file_stream stdio logical_path) c s)).0
        ≡ done (take size (contents system_files c))
  system_file_stream-read c size s there short = read-rewind system_files c size s there short tt
