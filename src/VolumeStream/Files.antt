-- ===== src/VolumeStream/Files.antt =====
-- What the derived classes of src/multi_volume_stream_base.cc are taken to do when their parts are
-- files that can be read, and the bytes that a stream over such parts stands for.
use archive_r.Base.{
  ℕ, zero, suc, ◌-◌, ◌<◌, ◌≤◌, ◌≡◌, ◌⊎◌, true, false, ◌&&◌, List, [], ◌++◌, pos, ◌==◌, length, drop,
}
use archive_r.Hierarchy.{PathHierarchy}
use archive_r.Fault.{ok}
use archive_r.VolumeStream.Parts.{bytes, PartIo, Config, Stream}
use archive_r.VolumeStream.{single_part}

-- The parts are files. On a device that works, `Live`, one that exists opens at its start, and closing keeps
-- the device working; a read gives the next bytes, at most as many as asked for, and none only at the end.
pub record Files {B : Type 0} (io : PartIo B) : Type 1 where
  pub content : PathHierarchy → List ℕ
  pub exists : PathHierarchy → Type 0
  pub Live : B → Type 0
  -- The device has this part open, with these bytes unread.
  pub At : B → PathHierarchy → List ℕ → Type 0
  pub at_live : (d : B) (h : PathHierarchy) (rest : List ℕ) → At d h rest → Live d
  pub closes : (d : B) → Live d → Live (io.close_single_part d)
  pub opens :
      (h : PathHierarchy) (d : B)
      → exists h
      → Live d
      → (d' : B) × (io.open_single_part h d ≡ (ok tt, d')) × At d' h (content h)
  pub reads :
      (n : ℕ) (d : B) (h : PathHierarchy) (rest : List ℕ)
      → 0 < n
      → At d h rest
      → (bs rest' : List ℕ) × (d' : B) × (io.read_from_single_part n d ≡ (ok (bytes bs), d'))
        × At d' h rest'
        × (rest ≡ bs ++ rest')
        × (length bs ≤ n)
        × (bs ≡ [] → rest' ≡ [])

-- A seek within a file succeeds, and the size of a file is known.
pub record Seekable {B : Type 0} {io : PartIo B} (f : Files io) : Type 0 where
  pub seeks :
      (k : ℕ) (d : B) (h : PathHierarchy) (rest : List ℕ)
      → k ≤ length (f.content h)
      → f.At d h rest
      → (d' : B) × (io.seek_within_single_part (pos k) d ≡ (pos k, d'))
        × f.At d' h (drop k (f.content h))
  pub sizes :
      (h : PathHierarchy) (d : B)
      → f.exists h
      → io.size_of_single_part h d ≡ pos (length (f.content h))

module _ {B : Type 0} {io : PartIo B} (f : Files io) (c : Config) where
  open f use {content, exists, Live, At}

  -- The volumes `index`, `index + 1`, … one after the other.
  unfoldable pub contents_from : ℕ → ℕ → List ℕ
  contents_from zero index = []
  contents_from (suc parts) index =
      content (single_part io c index) ++ contents_from parts (suc index)

  -- All the bytes of the stream.
  abbrev pub contents : List ℕ
  contents = contents_from c.total_parts 0

  abbrev pub AllExist : Type 0
  AllExist = (index : ℕ) → index < c.total_parts → exists (single_part io c index)

  -- What is unread of part `index`: the rest of the open file, or all of it if it is not open.
  abbrev pub Positioned : ℕ → Stream B → List ℕ → Type 0
  Positioned index s here =
      (((s.part_open && s.open_part_index == index) ≡ true)
        × At s.device (single_part io c index) here)
      ⊎ (((s.part_open && s.open_part_index == index) ≡ false)
          × (here ≡ content (single_part io c index))
          × Live s.device)

  -- The bytes that the stream has not yet delivered.
  abbrev pub Unread : Stream B → List ℕ → Type 0
  Unread s rest =
      ((c.total_parts ≤ s.active_part_index) × (rest ≡ []))
      ⊎ ((s.active_part_index < c.total_parts)
          × ((here : List ℕ) × Positioned s.active_part_index s here
              × (rest
                  ≡ here
                    ++ contents_from (c.total_parts - suc s.active_part_index)
                        (suc s.active_part_index))))
