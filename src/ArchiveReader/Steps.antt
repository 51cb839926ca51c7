-- ===== src/ArchiveReader/Steps.antt =====
-- An archive whose headers can be read to the end, and what one step of `Archive`
-- (src/archive_type.cc) does in it.
use archive_r.Base.{ℕ, ap, ◌∙◌, ◌≡◌, refl, true, false, some, List, [], ◌∷◌, Text}
use archive_r.Fault.{ok}
use archive_r.ArchiveReader.Handle.{header, end_of_archive, LibArchive, Archive}
use archive_r.ArchiveReader.{
  rewound, skip_to_next_header, forget_entry, skip_data, rewind, close_archive, read_current,
  took_data,
}
use archive_r.VolumeStream.Parts.{bytes}

-- The handle reads through a fixed sequence of named entries without an error: `Lists w names` holds
-- when `names` are the names that are left, and `Starts w name names` when the data of the entry
-- `name` is unread too. A live handle can be rewound, and is at all the names then.
pub record Listing {W E : Type 0} (lib : LibArchive W E) (all : List Text) : Type 1 where
  pub Lists : W → List Text → Type 0
  pub Starts : W → Text → List Text → Type 0
  pub Live : W → Type 0
  pub starts_lists : (w : W) (name : Text) (names : List Text) → Starts w name names → Lists w names
  pub lists_live : (w : W) (names : List Text) → Lists w names → Live w
  pub next :
      (w : W) (name : Text) (names : List Text)
      → Lists w (name ∷ names)
      → (e : E) × (w' : W) × (lib.read_next_header w ≡ (header e, w'))
        × (lib.pathname e ≡ some name)
        × Starts w' name names
  pub ends :
      (w : W) → Lists w [] → (w' : W) × (lib.read_next_header w ≡ (end_of_archive, w')) × Live w'
  pub skips :
      (w : W) (names : List Text)
      → Lists w names
      → (w' : W) × (lib.read_data_skip w ≡ (true, w')) × Lists w' names
  pub reopens :
      (w : W)
      → Live w
      → (w₁ w₂ : W) × (lib.rewind_source w ≡ (ok tt, w₁))
        × (lib.open_handle (lib.close_and_free w₁) ≡ (ok tt, w₂))
        × Lists w₂ all

module _ {W E : Type 0} {lib : LibArchive W E} {all : List Text} (l : Listing lib all) where
  -- The archive is open and these names are still to come.
  pub record Ahead (names : List Text) (a : Archive W E) : Type 0 where
    pub open_lem : a.is_open ≡ true
    pub eof_lem : a.at_eof ≡ false
    pub lists : l.Lists a.world names

  -- The end was reached.
  pub record Ended (a : Archive W E) : Type 0 where
    pub open_lem : a.is_open ≡ true
    pub eof_lem : a.at_eof ≡ true
    pub live : l.Live a.world

  -- The current entry is `name`, its data is still to be read, and `names` follow.
  pub record Found (name : Text) (names : List Text) (a : Archive W E) : Type 0 where
    pub ahead : Ahead names a
    pub current : a.current_entryname ≡ name
    pub ready : a.content_ready ≡ true
    pub starts : l.Starts a.world name names

  pub next-Found :
      (name : Text) (names : List Text) (a : Archive W E)
      → Ahead (name ∷ names) a
      → (a' : Archive W E) × (skip_to_next_header lib a ≡ (ok true, a')) × Found name names a'
  unfolding skip_to_next_header
  next-Found name names a h =
      let (e, w', read, named, starts) = l.next a.world name names h.lists in
      (
        record a {
          current_entry = some e;
          current_entryname = name;
          content_ready = true;
          world = w';
        },
        rw (h.open_lem, h.eof_lem) (rw read (rw named refl)),
        record {
          ahead = record {
            open_lem = h.open_lem;
            eof_lem = h.eof_lem;
            lists = l.starts_lists w' name names starts;
          };
          current = refl;
          ready = refl;
          starts = starts;
        },
      )

  pub next-Ended :
      (a : Archive W E)
      → Ahead [] a
      → (a' : Archive W E) × (skip_to_next_header lib a ≡ (ok false, a')) × Ended a'
  unfolding skip_to_next_header
  next-Ended a h =
      let (w', read, live) = l.ends a.world h.lists in
      (
        record (forget_entry lib a) { at_eof = true; world = w' },
        rw (h.open_lem, h.eof_lem) (rw read refl),
        (unfold forget_entry in record { open_lem = h.open_lem; eof_lem = refl; live = live }),
      )

  pub skip_data-Ahead :
      (names : List Text) (a : Archive W E)
      → Ahead names a
      → (a' : Archive W E) × (skip_data lib a ≡ (ok true, a')) × Ahead names a'
  unfolding skip_data
  skip_data-Ahead names a h =
      let (w', skipped, lists) = l.skips a.world names h.lists in
      (
        record a { content_ready = false; world = w' },
        rw h.open_lem (rw skipped refl),
        record { open_lem = h.open_lem; eof_lem = h.eof_lem; lists = lists },
      )

  pub rewind-Ahead :
      (a : Archive W E)
      → a.is_open ≡ true
      → l.Live a.world
      → (a' : Archive W E) × (rewind lib a ≡ (ok tt, a'))
        × Ahead all a'
        × (a'.current_entryname ≡ [])
  unfolding rewind
  rewind-Ahead a open_lem live =
      let (w₁, w₂, source, opened, lists) = l.reopens a.world live in
      (
        record (close_archive lib (record a { world = w₁ })) {
          is_open = true;
          at_eof = false;
          content_ready = false;
          world = w₂;
        },
        ap (rewound lib a) source ∙ reopened_lem w₁ w₂ opened,
        record { open_lem = refl; eof_lem = refl; lists = lists },
        refl,
      )
    where
      reopened_lem :
          (w₁ w₂ : W)
          → lib.open_handle (lib.close_and_free w₁) ≡ (ok tt, w₂)
          → rewound lib a (ok tt, w₁) ≡ (
            ok tt,
            record (close_archive lib (record a { world = w₁ })) {
              is_open = true;
              at_eof = false;
              content_ready = false;
              world = w₂;
            },
          )
      reopened_lem w₁ w₂ opened = rw open_lem (rw opened refl)

-- A read that libarchive answers.
pub read_current-bytes :
    {W E : Type 0} (lib : LibArchive W E) (n : ℕ) (a : Archive W E) (bs : List ℕ) (w : W)
    → a.is_open ≡ true
    → lib.read_data n a.world ≡ (bytes bs, w)
    → read_current lib n a ≡ (ok bs, record a { content_ready = false; world = w })
unfolding read_current took_data
read_current-bytes lib n a bs w open_lem read = rw open_lem (rw read refl)
