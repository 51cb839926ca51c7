-- ===== src/ArchiveReader/Wrap.antt =====
-- `skip_to_entry` of src/archive_type.cc: the search that wraps around the end of the archive.
use archive_r.ArchiveReader.Behind.{Behind, Decides, at_end, nonempty, search_wrapped-Decides}
use mathlib.Core.Path.{subst}
use archive_r.Base.{
  ℕ, suc, ◌+◌, ◌<◌, ◌≡◌, ◌≢◌, refl, sym, ap, ◌∙◌, inl, inr, true, false, ◌&&◌, some, List, [], ◌∷◌,
  ◌++◌, Text, text_eqb, text_eqb→eq, length, arith, Absent, Bool-cases, length-append,
  if◌then◌else◌,
}
use archive_r.Fault.{ok}
use archive_r.ArchiveReader.Handle.{LibArchive, Archive}
use archive_r.ArchiveReader.{
  rewind, search_forward_until_eof, search_again, search_wrapped, skip_to_entry,
}
use archive_r.ArchiveReader.Steps.{Listing, Ahead, Ended, rewind-Ahead}
use archive_r.ArchiveReader.Search.{Found-name, search_forward_lem, search_until_lem, text_eqb_ne}

module _ {W E : Type 0} {lib : LibArchive W E} {all : List Text} (l : Listing lib all) where
  -- A search that neither is at its goal nor at the end of the archive starts where the archive is.
  searches_on :
      (fuel : ℕ) (name start : Text) (a : Archive W E)
      → (text_eqb a.current_entryname name && a.content_ready) ≡ false
      → a.at_eof ≡ false
      → a.current_entryname ≡ start
      → skip_to_entry lib fuel name a
        ≡ search_wrapped lib fuel name start (search_forward_until_eof lib fuel name a)
  unfolding skip_to_entry
  searches_on fuel name start a test eof_lem current =
      let position : (if a.at_eof then rewind lib a else (ok tt, a)) ≡ (ok tt, a) =
        rw eof_lem refl in
      rw test (
        rw position (
          ap (λ t. search_wrapped lib fuel name t (search_forward_until_eof lib fuel name a))
            current))

  -- At the end of the archive a search starts over.
  searches_again :
      (fuel : ℕ) (name : Text) (a b : Archive W E)
      → (text_eqb a.current_entryname name && a.content_ready) ≡ false
      → a.at_eof ≡ true
      → rewind lib a ≡ (ok tt, b)
      → b.current_entryname ≡ []
      → skip_to_entry lib fuel name a
        ≡ search_wrapped lib fuel name [] (search_forward_until_eof lib fuel name b)
  unfolding skip_to_entry
  searches_again fuel name a b test eof_lem rewound unnamed =
      let position : (if a.at_eof then rewind lib a else (ok tt, a)) ≡ (ok tt, b) =
        ap (λ t. if t then rewind lib a else (ok tt, a)) eof_lem ∙ rewound in
      rw test (
        rw position (
          ap (λ t. search_wrapped lib fuel name t (search_forward_until_eof lib fuel name b))
            unnamed))

  -- In an archive that reads without an error, with fuel above the number of its entries, and from
  -- behind an entry whose name is not empty and occurs no earlier: `skip_to_entry` finds an entry of
  -- the given name, wherever in the archive it is, and returns false only if there is none.
  pub skip_to_entry-Decides :
      (fuel : ℕ) (name : Text) (pre : List Text) (start : Text) (rest : List Text) (a : Archive W E)
      → length all < fuel
      → Behind l pre start rest a
      → Decides l name (skip_to_entry lib fuel name a)
  unfolding skip_to_entry
  skip_to_entry-Decides fuel name pre start rest a h at =
      elim (Bool-cases (text_eqb a.current_entryname name && a.content_ready)) [
        | inl e ↦
            let same : text_eqb a.current_entryname name ≡ true = ground (arith, e) in
            let current : a.current_entryname ≡ name = text_eqb→eq a.current_entryname name same in
            rw e (
              inl (
                pre,
                rest,
                a,
                refl,
                at.split ∙ ap (λ t. pre ++ t ∷ rest) (sym at.current ∙ current),
                Found-name l start name rest a (sym at.current ∙ current) (record {
                  ahead = at.ahead;
                  current = at.current;
                  ready = ground (arith, e);
                  starts = at.unread (ground (arith, e));
                }),
              ))
        | inr e ↦
            subst (Decides l name)
              (sym (searches_on fuel name start a e at.ahead.eof_lem at.current))
              (search_wrapped-Decides l fuel name pre start rest a h at)
      ]

  -- In an archive that reads without an error, with fuel above the number of its entries: at the end
  -- of the archive `skip_to_entry` starts over, and finds an entry of the name, wherever it is, or
  -- returns false if there is none.
  pub skip_to_entry-eof :
      (fuel : ℕ) (name : Text) (a : Archive W E)
      → length all < fuel
      → Ended l a
      → a.content_ready ≡ false
      → Decides l name (skip_to_entry lib fuel name a)
  unfolding search_wrapped
  skip_to_entry-eof fuel name a h ended used =
      let (b, rewound, ahead, unnamed) = rewind-Ahead l a ended.open_lem ended.live in
      let test : (text_eqb a.current_entryname name && a.content_ready) ≡ false =
        ground (arith, used) in
      subst (Decides l name) (sym (searches_again fuel name a b test ended.eof_lem rewound unnamed))
        (elim (search_forward_lem l fuel name all b h ahead) [
          | inl (before, after, c, r, split, there) ↦
              rw r (inl (before, after, c, refl, split, at_end l after there))
          | inr (absent, (c, r, _)) ↦ rw r (inr (absent, (c, refl)))
        ])

  -- In an archive that reads without an error and of which nothing is read yet, with fuel above the
  -- number of its entries: `skip_to_entry` finds an entry of the name, which is not empty, or returns
  -- false if there is none.
  pub skip_to_entry-opened :
      (fuel : ℕ) (name : Text) (a : Archive W E)
      → length all < fuel
      → Ahead l all a
      → a.current_entryname ≡ []
      → [] ≢ name
      → Decides l name (skip_to_entry lib fuel name a)
  unfolding search_wrapped
  skip_to_entry-opened fuel name a h ahead unnamed named =
      let test : (text_eqb a.current_entryname name && a.content_ready) ≡ false =
        rw (ap (λ t. text_eqb t name) unnamed ∙ text_eqb_ne [] name named) refl in
      subst (Decides l name) (sym (searches_on fuel name [] a test ahead.eof_lem unnamed))
        (elim (search_forward_lem l fuel name all a h ahead) [
          | inl (before, after, c, r, split, there) ↦
              rw r (inl (before, after, c, refl, split, at_end l after there))
          | inr (absent, (c, r, _)) ↦ rw r (inr (absent, (c, refl)))
        ])

  pub not_absent :
      (name : Text) (names before after : List Text)
      → Absent name names
      → names ≡ before ++ name ∷ after
      → ⊥
  not_absent name names before after absent split = inside before (subst (Absent name) split absent)
    where
      inside : (xs : List Text) → Absent name (xs ++ name ∷ after) → ⊥
      inside [] h = h.0 refl
      inside (x ∷ xs) h = inside xs h.1

  -- In an archive that reads without an error, behind an entry whose name occurs before too: the
  -- second search stops at that earlier occurrence, and a name that occurs between the two only is not
  -- found, although the archive has it.
  pub skip_to_entry_misses :
      (fuel : ℕ) (name start : Text) (pre m₁ m₂ rest : List Text) (a : Archive W E)
      → length all < fuel
      → all ≡ pre ++ start ∷ ((m₁ ++ name ∷ m₂) ++ start ∷ rest)
      → Ahead l rest a
      → a.current_entryname ≡ start
      → start ≢ []
      → start ≢ name
      → Absent start pre
      → Absent name (pre ++ start ∷ [])
      → Absent name rest
      → (b : Archive W E) × (skip_to_entry lib fuel name a ≡ some (ok false, b))
  unfolding search_wrapped search_again
  skip_to_entry_misses fuel name start pre m₁ m₂ rest a h split ahead current named other first
        absent later =
      let mid = (m₁ ++ name ∷ m₂) ++ start ∷ rest in
      let total : length all ≡ length pre + suc (length mid) =
        ap length split ∙ length-append pre (start ∷ mid) in
      let total' : length mid ≡ length (m₁ ++ name ∷ m₂) + suc (length rest) =
        length-append (m₁ ++ name ∷ m₂) (start ∷ rest) in
      let test : (text_eqb a.current_entryname name && a.content_ready) ≡ false =
        rw (ap (λ t. text_eqb t name) current ∙ text_eqb_ne start name other) refl in
      subst (λ t. (b : Archive W E) × (t ≡ some (ok false, b)))
        (sym (searches_on fuel name start a test ahead.eof_lem current))
        (elim (search_forward_lem l fuel name rest a (omega arith) ahead) [
          | inl (before, after, c, r, shape, _) ↦
              absurd (not_absent name rest before after later shape)
          | inr (_, (b, r, ended)) ↦
              let (b', rewound, from_start, _) = rewind-Ahead l b ended.open_lem ended.live in
              rw r (
                rw (nonempty l start named) (
                  rw rewound
                    (elim (search_until_lem l fuel name start pre mid b' (omega arith) first
                      (subst (λ t. Ahead l t b') split from_start)) [
                        | inl (before, after, c, q, shape, _) ↦
                            absurd (not_absent name (pre ++ start ∷ []) before after absent shape)
                        | inr (_, (c, q, _)) ↦ (c, q)
                      ])))
        ])
