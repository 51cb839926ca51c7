-- ===== src/ArchiveReader/Search.antt =====
-- The two search loops of src/archive_type.cc in an archive that can be read to the end.
use mathlib.Core.Path.{subst}
use archive_r.Base.{
  sym, append-nil, append_assoc, ℕ, zero, suc, ◌<◌, ◌≡◌, ◌≢◌, refl, ap, ◌∙◌, ◌⊎◌, inl, inr, true,
  false, some, List, [], ◌∷◌, ◌++◌, Text, text_eqb, text_eqb_refl, text_eqb→eq, length, arith,
  Absent, Bool-cases,
}
use archive_r.Fault.{ok}
use archive_r.ArchiveReader.Handle.{LibArchive, Archive}
use archive_r.ArchiveReader.{search_forward_until_eof, search_until_position, Loop}
use archive_r.ArchiveReader.Steps.{
  Listing, Ahead, Ended, Found, next-Found, next-Ended, skip_data-Ahead,
}

pub text_eqb_ne : (a b : Text) → a ≢ b → text_eqb a b ≡ false
text_eqb_ne a b h = elim (Bool-cases (text_eqb a b)) [
  | inl e ↦ absurd (h (text_eqb→eq a b e))
  | inr e ↦ e
]

pub eqb_false-ne : (a b : Text) → text_eqb a b ≡ false → a ≢ b
eqb_false-ne a b h p = let t : text_eqb a b ≡ true = rw p (text_eqb_refl b) in cc

module _ {W E : Type 0} {lib : LibArchive W E} {all : List Text} (l : Listing lib all) where
  -- The search stops at an occurrence, with its data unread.
  abbrev pub Finds : Text → List Text → List Text → Loop lib → Type 0
  Finds name names beyond loop =
      (before after : List Text) × (a : Archive W E) × (loop ≡ some (ok true, a))
      × (names ≡ before ++ name ∷ after)
      × Found l name (after ++ beyond) a

  -- An entry of the right name is one of the name that is searched.
  pub Found-name :
      (n name : Text) (names : List Text) (a : Archive W E)
      → n ≡ name
      → Found l n names a
      → Found l name names a
  Found-name n name names a e found = subst (λ t. Found l t names a) e found

  -- The forward search stops at the next occurrence of the name, or finds none and is at the end.
  pub search_forward_lem :
      (fuel : ℕ) (name : Text) (names : List Text) (a : Archive W E)
      → length names < fuel
      → Ahead l names a
      → Finds name names [] (search_forward_until_eof lib fuel name a)
        ⊎ (Absent name names
            × ((a' : Archive W E) × (search_forward_until_eof lib fuel name a ≡ some (ok false, a'))
                × Ended l a'))
  unfolding search_forward_until_eof
  search_forward_lem zero name names a h ahead = absurd (omega arith)
  search_forward_lem (suc fuel) name [] a h ahead =
      let (a', e, ended) = next-Ended l a ahead in
      inr (tt, (a', rw (e, search_forward_until_eof) refl, ended))
  search_forward_lem (suc fuel) name (n ∷ names) a h ahead =
      let (a₁, e, found) = next-Found l n names a ahead in
      elim (Bool-cases (text_eqb n name)) [
        | inl same ↦
            let hit : text_eqb a₁.current_entryname name ≡ true =
              ap (λ t. text_eqb t name) found.current ∙ same in
            let is_name : n ≡ name = text_eqb→eq n name same in
            inl (
              [],
              names,
              a₁,
              rw (e, search_forward_until_eof) (rw hit refl),
              ap (λ t. t ∷ names) is_name,
              Found-name n name (names ++ []) a₁ is_name
                  (subst (λ t. Found l n t a₁) (sym (append-nil names)) found),
            )
        | inr other ↦
            let miss : text_eqb a₁.current_entryname name ≡ false =
              ap (λ t. text_eqb t name) found.current ∙ other in
            let (a₂, skipped, ahead₂) = skip_data-Ahead l names a₁ found.ahead in
            let step : search_forward_until_eof lib (suc fuel) name a
                ≡ search_forward_until_eof lib fuel name a₂ =
              rw (e, search_forward_until_eof) (rw miss (rw skipped refl)) in
            rw step (elim (search_forward_lem fuel name names a₂ (omega arith) ahead₂) [
              | inl (before, after, a₃, r, split, at) ↦
                  inl (n ∷ before, after, a₃, r, ap (◌∷◌ n) split, at)
              | inr (absent, rest) ↦ inr ((eqb_false-ne n name other, absent), rest)
            ])
      ]

  -- The second search, among names with the stop position behind `pre`: it finds the name at or
  -- before the stop position, or returns false there.
  pub search_until_lem :
      (fuel : ℕ) (name stop : Text) (pre rest : List Text) (a : Archive W E)
      → length pre < fuel
      → Absent stop pre
      → Ahead l (pre ++ stop ∷ rest) a
      → Finds name (pre ++ stop ∷ []) rest (search_until_position lib fuel name stop a)
        ⊎ (Absent name (pre ++ stop ∷ [])
            × ((a' : Archive W E) × (search_until_position lib fuel name stop a
                  ≡ some (ok false, a'))
                × Found l stop rest a'))
  unfolding search_until_position
  search_until_lem zero name stop pre rest a h fresh ahead = absurd (omega arith)
  search_until_lem (suc fuel) name stop [] rest a h fresh ahead =
      let (a₁, e, found) = next-Found l stop rest a ahead in
      elim (Bool-cases (text_eqb stop name)) [
        | inl same ↦
            let hit : text_eqb a₁.current_entryname name ≡ true =
              ap (λ t. text_eqb t name) found.current ∙ same in
            let is_name : stop ≡ name = text_eqb→eq stop name same in
            inl (
              [],
              [],
              a₁,
              rw (e, search_until_position) (rw hit refl),
              ap (λ t. t ∷ []) is_name,
              Found-name stop name rest a₁ is_name found,
            )
        | inr other ↦
            let miss : text_eqb a₁.current_entryname name ≡ false =
              ap (λ t. text_eqb t name) found.current ∙ other in
            let at_stop : text_eqb a₁.current_entryname stop ≡ true =
              ap (λ t. text_eqb t stop) found.current ∙ text_eqb_refl stop in
            inr (
              (eqb_false-ne stop name other, tt),
              (a₁, rw (e, search_until_position) (rw miss (rw at_stop refl)), found),
            )
      ]
  search_until_lem (suc fuel) name stop (n ∷ pre) rest a h fresh ahead =
      let (a₁, e, found) = next-Found l n (pre ++ stop ∷ rest) a ahead in
      elim (Bool-cases (text_eqb n name)) [
        | inl same ↦
            let hit : text_eqb a₁.current_entryname name ≡ true =
              ap (λ t. text_eqb t name) found.current ∙ same in
            let is_name : n ≡ name = text_eqb→eq n name same in
            inl (
              [],
              pre ++ stop ∷ [],
              a₁,
              rw (e, search_until_position) (rw hit refl),
              ap (λ t. t ∷ (pre ++ stop ∷ [])) is_name,
              Found-name n name ((pre ++ stop ∷ []) ++ rest) a₁ is_name
                  (subst (λ t. Found l n t a₁) (sym (append_assoc pre (stop ∷ []) rest)) found),
            )
        | inr other ↦
            let miss : text_eqb a₁.current_entryname name ≡ false =
              ap (λ t. text_eqb t name) found.current ∙ other in
            let before_stop : text_eqb a₁.current_entryname stop ≡ false =
              ap (λ t. text_eqb t stop) found.current ∙ text_eqb_ne n stop fresh.0 in
            let (a₂, skipped, ahead₂) = skip_data-Ahead l (pre ++ stop ∷ rest) a₁ found.ahead in
            let step : search_until_position lib (suc fuel) name stop a
                ≡ search_until_position lib fuel name stop a₂ =
              rw (e, search_until_position) (rw miss (rw before_stop (rw skipped refl))) in
            rw step
              (elim (search_until_lem fuel name stop pre rest a₂ (omega arith) fresh.1 ahead₂) [
                | inl (before, after, a₃, r, split, at) ↦
                    inl (n ∷ before, after, a₃, r, ap (◌∷◌ n) split, at)
                | inr (absent, rest') ↦ inr ((eqb_false-ne n name other, absent), rest')
              ])
      ]
