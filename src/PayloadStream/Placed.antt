-- ===== src/PayloadStream/Placed.antt =====
-- The parent archive of an `EntryPayloadStream` (src/archive_stack_cursor.cc), when it reads without an error: opening
-- the entry of a part, and reading its data.
use mathlib.Core.Path.{subst}
use archive_r.Base.{
  ℕ, ◌<◌, ◌≤◌, ◌≡◌, ◌≢◌, sym, ap, ◌∙◌, ◌⊎◌, inl, inr, true, false, some, List, [], ◌∷◌, ◌++◌, Text,
  length, All, Absent, arith,
}
use archive_r.Hierarchy.{PathHierarchy}
use archive_r.Fault.{ok}
use archive_r.VolumeStream.Parts.{bytes}
use archive_r.VolumeStream.{read}
use archive_r.SystemFileStream.{path_of}
use archive_r.ArchiveReader.Handle.{LibArchive, Archive}
use archive_r.ArchiveReader.{skip_to_entry, read_current}
use archive_r.ArchiveReader.Steps.{Listing, Ahead, Ended, read_current-bytes}
use archive_r.ArchiveReader.Behind.{Decides, Behind}
use archive_r.ArchiveReader.Wrap.{
  skip_to_entry-Decides, skip_to_entry-eof, skip_to_entry-opened, not_absent,
}
use archive_r.PayloadStream.{found_part, skip_to_name, open_entry, entry_bytes}

-- What libarchive does with the data of the entries: `Reading w name rest names` holds when `rest` of the
-- data of the entry `name` is unread, and `names` follow.
pub record Contents {W E : Type 0} {lib : LibArchive W E} {all : List Text} (l : Listing lib all)
    : Type 1 where
  pub data_of : Text → List ℕ
  pub Reading : W → Text → List ℕ → List Text → Type 0
  pub starts_reading :
      (w : W) (name : Text) (names : List Text)
      → l.Starts w name names
      → Reading w name (data_of name) names
  pub reading_lists :
      (w : W) (name : Text) (rest : List ℕ) (names : List Text)
      → Reading w name rest names
      → l.Lists w names
  pub reads :
      (n : ℕ) (w : W) (name : Text) (rest : List ℕ) (names : List Text)
      → 0 < n
      → Reading w name rest names
      → (bs rest' : List ℕ) × (w' : W) × (lib.read_data n w ≡ (bytes bs, w'))
        × Reading w' name rest' names
        × (rest ≡ bs ++ rest')
        × (length bs ≤ n)
        × (bs ≡ [] → rest' ≡ [])

-- Every name once, and none empty.
abbrev pub Distinct : List Text → Type 0
Distinct [] = Unit
Distinct (x ∷ xs) = Absent x xs × Distinct xs

Absent-middle :
    (x name : Text) (before after : List Text) → Absent x (before ++ name ∷ after) → name ≢ x
Absent-middle x name [] after absent = absent.0
Absent-middle x name (y ∷ before) after absent = Absent-middle x name before after absent.1

-- Before an entry its name does not occur.
Distinct-first :
    (name : Text) (before after : List Text)
    → Distinct (before ++ name ∷ after)
    → Absent name before
Distinct-first name [] after distinct = tt
Distinct-first name (x ∷ before) after distinct = (
  λ e. Absent-middle x name before after distinct.0 (sym e),
  Distinct-first name before after distinct.1,
)

All-middle :
    (P : Text → Type 0) (name : Text) (before after : List Text)
    → All P (before ++ name ∷ after)
    → P name
All-middle P name [] after all = all.0
All-middle P name (x ∷ before) after all = All-middle P name before after all.1

module _ {W E : Type 0} {lib : LibArchive W E} {all : List Text} {l : Listing lib all}
    (k : Contents l) (fuel : ℕ) (enough : length all < fuel) (distinct : Distinct all)
    (named : All (λ t. t ≢ []) all) where
  -- The archive has this entry.
  abbrev pub HasEntry : Text → Type 0
  HasEntry name = (before after : List Text) × (all ≡ before ++ name ∷ after)

  -- The part's entry is current, and `rest` of its data is unread.
  pub record EntryAt (a : Archive W E) (part : PathHierarchy) (rest : List ℕ) : Type 0 where
    pub name : Text
    pub before : List Text
    pub after : List Text
    pub named_lem : path_of part ≡ some name
    pub split : all ≡ before ++ name ∷ after
    pub open_lem : a.is_open ≡ true
    pub eof_lem : a.at_eof ≡ false
    pub current : a.current_entryname ≡ name
    pub reading : k.Reading a.world name rest after
    pub fresh : a.content_ready ≡ true → l.Starts a.world name after

  -- The archive is open: at its start, behind an entry, or at its end.
  abbrev pub IsPlaced : Archive W E → Type 0
  IsPlaced a =
      (Ahead l all a × (a.current_entryname ≡ []))
      ⊎ (((before : List Text) × (start : Text) × (after : List Text) × Behind l before start after
              a)
          ⊎ (Ended l a × (a.content_ready ≡ false)))

  name_ne_nil : (name : Text) → HasEntry name → name ≢ []
  name_ne_nil name (before, after, split) =
      All-middle (λ s. s ≢ []) name before after (subst (λ t. All (λ s. s ≢ []) t) split named)

  pub EntryAt-IsPlaced :
      (a : Archive W E) (part : PathHierarchy) (rest : List ℕ) → EntryAt a part rest → IsPlaced a
  EntryAt-IsPlaced a part rest here = inr (
      inl (
        here.before,
        here.name,
        here.after,
        record {
          ahead = record {
            open_lem = here.open_lem;
            eof_lem = here.eof_lem;
            lists = k.reading_lists a.world here.name rest here.after here.reading;
          };
          current = here.current;
          named = name_ne_nil here.name (here.before, here.after, here.split);
          split = here.split;
          first =
              Distinct-first here.name here.before here.after (subst Distinct here.split distinct);
          unread = here.fresh;
        },
      ))

  placed-Decides :
      (name : Text) (a : Archive W E)
      → [] ≢ name
      → IsPlaced a
      → Decides l name (skip_to_entry lib fuel name a)
  placed-Decides name a ne (inl (ahead, unnamed)) =
      skip_to_entry-opened l fuel name a enough ahead unnamed ne
  placed-Decides name a ne (inr (inl (before, start, after, behind))) =
      skip_to_entry-Decides l fuel name before start after a enough behind
  placed-Decides name a ne (inr (inr (ended, used))) =
      skip_to_entry-eof l fuel name a enough ended used

  pub opens_entry :
      (part : PathHierarchy) (a : Archive W E)
      → (name : Text) × (path_of part ≡ some name) × HasEntry name
      → IsPlaced a
      → (a' : Archive W E) × (open_entry lib fuel part a ≡ (ok tt, a'))
        × ((m : Text) × (path_of part ≡ some m) × EntryAt a' part (k.data_of m))
  unfolding open_entry skip_to_name found_part
  opens_entry part a (name, at, has) placed =
      let ne = name_ne_nil name has in
      elim (placed-Decides name a (λ e. ne (sym e)) placed) [
        | inr (absent, found) ↦ absurd (not_absent l name all has.0 has.1 absent has.2)
        | inl (before, after, a', found, split, there) ↦ (
          a',
          ap (λ o. skip_to_name lib fuel part o a) at
              ∙ ap (λ m. found_part lib fuel part m a) found,
          (
            name,
            at,
            record {
              name = name;
              before = before;
              after = after;
              named_lem = at;
              split = split;
              open_lem = there.ahead.open_lem;
              eof_lem = there.ahead.eof_lem;
              current = there.current;
              reading = k.starts_reading a'.world name after there.starts;
              fresh = λ e. there.starts;
            },
          ),
        )
      ]

  pub reads_entry :
      (n : ℕ) (a : Archive W E) (part : PathHierarchy) (rest : List ℕ)
      → 0 < n
      → EntryAt a part rest
      → (bs rest' : List ℕ) × (a' : Archive W E) × (entry_bytes lib fuel (read_current lib n a)
          ≡ (ok (bytes bs), a'))
        × EntryAt a' part rest'
        × (rest ≡ bs ++ rest')
        × (length bs ≤ n)
        × (bs ≡ [] → rest' ≡ [])
  unfolding entry_bytes
  reads_entry n a part rest n_pos here =
      let (bs, rest', w', read, reading, split, short, end) =
        k.reads n a.world here.name rest here.after n_pos here.reading in
      (
        bs,
        rest',
        record a { content_ready = false; world = w' },
        ap (entry_bytes lib fuel) (read_current-bytes lib n a bs w' here.open_lem read),
        record {
          name = here.name;
          before = here.before;
          after = here.after;
          named_lem = here.named_lem;
          split = here.split;
          open_lem = here.open_lem;
          eof_lem = here.eof_lem;
          current = here.current;
          reading = reading;
          fresh = λ e. absurd (ground arith);
        },
        split,
        short,
        end,
      )
