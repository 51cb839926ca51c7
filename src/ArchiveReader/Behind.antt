-- ===== src/ArchiveReader/Behind.antt =====
-- Where a search of src/archive_type.cc starts: behind an entry, in an archive that reads without an error.
use mathlib.Core.Path.{subst}
use archive_r.Base.{
  append-nil, ℕ, suc, ◌+◌, ◌<◌, ◌≡◌, ◌≢◌, refl, sym, ap, ◌∙◌, ◌⊎◌, inl, inr, true, false, some,
  List, [], ◌∷◌, ◌++◌, Text, length, arith, Absent, append_assoc, length-append,
}
use archive_r.Hierarchy.{is_empty}
use archive_r.Fault.{ok}
use archive_r.ArchiveReader.Handle.{LibArchive, Archive}
use archive_r.ArchiveReader.{rewind, search_forward_until_eof, search_again, search_wrapped, Loop}
use archive_r.ArchiveReader.Steps.{Found, Listing, Ahead, Ended, rewind-Ahead}
use archive_r.ArchiveReader.Search.{search_forward_lem, search_until_lem}

Absent-join :
    (n m : Text) (xs ys : List Text)
    → Absent n (xs ++ m ∷ [])
    → Absent n ys
    → Absent n (xs ++ m ∷ ys)
Absent-join n m [] ys h k = (h.0, k)
Absent-join n m (x ∷ xs) ys h k = (h.0, Absent-join n m xs ys h.1 k)

module _ {W E : Type 0} {lib : LibArchive W E} {all : List Text} (l : Listing lib all) where
  -- The name is in the archive, and the archive stands at an entry of that name with its data unread;
  -- or no entry has the name, and the result is false.
  abbrev pub Decides : Text → Loop lib → Type 0
  Decides name loop =
      ((before after : List Text) × (a : Archive W E) × (loop ≡ some (ok true, a))
        × (all ≡ before ++ name ∷ after)
        × Found l name after a)
      ⊎ (Absent name all × ((a : Archive W E) × (loop ≡ some (ok false, a))))

  -- The position behind an entry `start`: its name occurs no earlier, and `rest` is to come.
  pub record Behind (pre : List Text) (start : Text) (rest : List Text) (a : Archive W E)
      : Type 0 where
    pub ahead : Ahead l rest a
    pub current : a.current_entryname ≡ start
    pub named : start ≢ []
    pub split : all ≡ pre ++ start ∷ rest
    pub first : Absent start pre
    pub unread : a.content_ready ≡ true → l.Starts a.world start rest

  pub at_end :
      {name : Text} {c : Archive W E} (after : List Text)
      → Found l name (after ++ []) c
      → Found l name after c
  at_end {name} {c} after found = subst (λ t. Found l name t c) (append-nil after) found

  pub nonempty : (t : Text) → t ≢ [] → is_empty t ≡ false
  nonempty [] h = absurd (h refl)
  nonempty (x ∷ t) h = refl

  search_again-Decides :
      (fuel : ℕ) (name : Text) (pre : List Text) (start : Text) (rest : List Text) (a : Archive W E)
      → length all < fuel
      → Behind pre start rest a
      → Absent name rest
      → (b : Archive W E) → Ended l b
      → Decides name (search_again lib fuel name start (rewind lib b))
  unfolding search_again
  search_again-Decides fuel name pre start rest a h at absent b ended =
      let (b', rewound, ahead, _) = rewind-Ahead l b ended.open_lem ended.live in
      let total : length all ≡ length pre + suc (length rest) =
        ap length at.split ∙ length-append pre (start ∷ rest) in
      rw rewound
        (elim (search_until_lem l fuel name start pre rest b' (omega arith) at.first
          (subst (λ t. Ahead l t b') at.split ahead)) [
            | inl (before, after, c, r, split, there) ↦ inl (
              before,
              after ++ rest,
              c,
              r,
              at.split
                  ∙ sym (append_assoc pre (start ∷ []) rest)
                  ∙ ap (λ t. t ++ rest) split
                  ∙ append_assoc before (name ∷ after) rest,
              there,
            )
            | inr (absent', (c, r, _)) ↦
                inr (rw at.split (Absent-join name start pre rest absent' absent), (c, r))
          ])

  pub search_wrapped-Decides :
      (fuel : ℕ) (name : Text) (pre : List Text) (start : Text) (rest : List Text) (a : Archive W E)
      → length all < fuel
      → Behind pre start rest a
      → Decides name (search_wrapped lib fuel name start (search_forward_until_eof lib fuel name a))
  unfolding search_wrapped
  search_wrapped-Decides fuel name pre start rest a h at =
      let total : length all ≡ length pre + suc (length rest) =
        ap length at.split ∙ length-append pre (start ∷ rest) in
      elim (search_forward_lem l fuel name rest a (omega arith) at.ahead) [
        | inl (before, after, c, r, split, there) ↦ rw r (
            inl (
              pre ++ start ∷ before,
              after,
              c,
              refl,
              at.split
                  ∙ ap (λ t. pre ++ start ∷ t) split
                  ∙ sym (append_assoc pre (start ∷ before) (name ∷ after)),
              at_end after there,
            ))
        | inr (absent, (b, r, ended)) ↦ rw r (
            rw (nonempty start at.named)
              (search_again-Decides fuel name pre start rest a h at absent b ended))
      ]
