-- ===== src/ArchiveReader/Setup/Opened.antt =====
-- When `new_read_archive_common` of src/archive_type.cc returns a handle.
use archive_r.Base.{
  ℕ, suc, ◌≡◌, refl, sym, ap, ◌∙◌, ◌↔◌, Bool, true, false, Option, none, some, List, [], ◌∷◌, Text,
  arith,
}
use archive_r.Fault.{Exception, Result, ok, throws}
use archive_r.ArchiveReader.Setup.{
  Format, HandleCalls, find_format, format_handlers, c_str, added, set_passphrases, enabled,
  enable_format, enable_formats, configure_formats, checked_open, with_passphrases, with_formats,
  with_handle, new_read_archive_common,
}

abbrev value_or : {A : Type 0} → A → Result A → A
value_or a (ok b) = b
value_or a (throws e) = a

ok_inj : {A : Type 0} (a b : A) → ok a ≡ ok b → b ≡ a
ok_inj a b e = sym (ap (value_or a) e)

throws-ne-ok : {A B : Type 0} (e : Exception) (a : A) → throws e ≡ ok a → B
throws-ne-ok e a same = absurd (ground arith)

module _ {H : Type 0} (calls : HandleCalls H) where
  -- Every name is a format, and libarchive supports them one after the other.
  abbrev pub Supported : List Text → H → H → Type 0
  Supported [] h h' = h' ≡ h
  Supported (name ∷ names) h h' =
      (f : Format) × (h₁ : H) × (find_format name format_handlers ≡ some f)
      × (calls.support_format f h ≡ (true, h₁))
      × Supported names h₁ h'

  -- Without names, libarchive is asked for all formats.
  abbrev pub Formatted : List Text → H → H → Type 0
  Formatted [] h h' = h' ≡ calls.support_format_all h
  Formatted (name ∷ names) h h' = Supported (name ∷ names) h h'

  -- libarchive takes the passphrases one after the other.
  abbrev pub Accepted : List Text → H → H → Type 0
  Accepted [] h h' = h' ≡ h
  Accepted (passphrase ∷ passphrases) h h' =
      (h₁ : H) × (calls.add_passphrase (c_str passphrase) h ≡ (true, h₁))
      × Accepted passphrases h₁ h'

  Supported-enables :
      (names : List Text) (h h' : H) → Supported names h h' → enable_formats calls names h ≡ ok h'
  unfolding enable_formats enable_format enabled
  Supported-enables [] h h' same = ap ok (sym same)
  Supported-enables (name ∷ names) h h' (f, h₁, known, supported, rest) =
      ap (enable_format calls name (enable_formats calls names) h) known
      ∙ ap (enabled calls name (enable_formats calls names)) supported
      ∙ Supported-enables names h₁ h' rest

  enables-Supported :
      (names : List Text) (h h' : H) → enable_formats calls names h ≡ ok h' → Supported names h h'
  unfolding enable_formats enable_format enabled
  enables-Supported [] h h' e = ok_inj h h' e
  enables-Supported (name ∷ names) h h' e =
      known (find_format name format_handlers) refl e (λ h₁. enables-Supported names h₁ h')
    where
      supported :
          (f : Format) (m : Bool × H)
          → find_format name format_handlers ≡ some f
          → calls.support_format f h ≡ m
          → enabled calls name (enable_formats calls names) m ≡ ok h'
          → ((h₁ : H) → enable_formats calls names h₁ ≡ ok h' → Supported names h₁ h')
          → Supported (name ∷ names) h h'
      supported f (true, h₁) found step e rec = (f, h₁, found, step, rec h₁ e)
      supported f (false, h₁) found step e rec = throws-ne-ok _ h' e

      known :
          (o : Option Format)
          → find_format name format_handlers ≡ o
          → enable_format calls name (enable_formats calls names) h o ≡ ok h'
          → ((h₁ : H) → enable_formats calls names h₁ ≡ ok h' → Supported names h₁ h')
          → Supported (name ∷ names) h h'
      known none found e rec = throws-ne-ok _ h' e
      known (some f) found e rec = supported f (calls.support_format f h) found refl e rec

  Accepted-adds :
      (index : ℕ) (passphrases : List Text) (h h' : H)
      → Accepted passphrases h h'
      → set_passphrases calls index passphrases h ≡ ok h'
  unfolding set_passphrases added
  Accepted-adds index [] h h' same = ap ok (sym same)
  Accepted-adds index (passphrase ∷ passphrases) h h' (h₁, taken, rest) =
      ap (added calls index (set_passphrases calls (suc index) passphrases)) taken
      ∙ Accepted-adds (suc index) passphrases h₁ h' rest

  adds-Accepted :
      (index : ℕ) (passphrases : List Text) (h h' : H)
      → set_passphrases calls index passphrases h ≡ ok h'
      → Accepted passphrases h h'
  unfolding set_passphrases added
  adds-Accepted index [] h h' e = ok_inj h h' e
  adds-Accepted index (passphrase ∷ passphrases) h h' e =
      go (calls.add_passphrase (c_str passphrase) h) refl e
        (λ h₁. adds-Accepted (suc index) passphrases h₁ h')
    where
      go :
          (m : Bool × H)
          → calls.add_passphrase (c_str passphrase) h ≡ m
          → added calls index (set_passphrases calls (suc index) passphrases) m ≡ ok h'
          → ((h₁ : H)
              → set_passphrases calls (suc index) passphrases h₁ ≡ ok h'
              → Accepted passphrases h₁ h')
          → Accepted (passphrase ∷ passphrases) h h'
      go (true, h₁) taken e rec = (h₁, taken, rec h₁ e)
      go (false, h₁) taken e rec = throws-ne-ok _ h' e

  Formatted-configures :
      (names : List Text) (h h' : H)
      → Formatted names h h'
      → configure_formats calls names h ≡ ok h'
  unfolding configure_formats
  Formatted-configures [] h h' same = ap ok (sym same)
  Formatted-configures (name ∷ names) h h' supported =
      Supported-enables (name ∷ names) h h' supported

  configures-Formatted :
      (names : List Text) (h h' : H)
      → configure_formats calls names h ≡ ok h'
      → Formatted names h h'
  unfolding configure_formats
  configures-Formatted [] h h' e = ok_inj (calls.support_format_all h) h' e
  configures-Formatted (name ∷ names) h h' e = enables-Supported (name ∷ names) h h' e

  module _ {S : Type 0} (formats passphrases : List Text) (delegate : H × S → Result Bool × (H × S))
      (s : S) where
    -- Every step of the way to the handle `h` succeeds.
    abbrev pub Opens : H → S → Type 0
    Opens h s' =
        (h₀ h₁ h₂ : H) × (calls.read_new ≡ some h₀)
        × Formatted formats h₀ h₁
        × Accepted passphrases (calls.support_filter_all h₁) h₂
        × (delegate (h₂, s) ≡ (ok true, (h, s')))

    same_pair :
        {A B : Type 0} (a a' : A) (b b' : B)
        → ◌≡◌ {A = Result A × B} (ok a, b) (ok a', b')
        → (a ≡ a') × (b ≡ b')
    same_pair a a' b b' e = (ap (λ t. value_or a t.0) e, ap (λ t. t.1) e)

    not_ok :
        {A B C : Type 0} (x : Exception) (b b' : B) (a : A)
        → ◌≡◌ {A = Result A × B} (throws x, b) (ok a, b')
        → C
    not_ok x b b' a e = throws-ne-ok x a (ap (λ t. t.0) e)

    checked_open_lem :
        (h : H) (s' : S) (m : Result Bool × (H × S))
        → checked_open calls m ≡ (ok h, s')
        → m ≡ (ok true, (h, s'))
    unfolding checked_open
    checked_open_lem h s' (throws x, (h₃, s₃)) e = not_ok x s₃ s' h e
    checked_open_lem h s' (ok false, (h₃, s₃)) e = not_ok _ s₃ s' h e
    checked_open_lem h s' (ok true, (h₃, s₃)) e =
        let (same, same') = same_pair h₃ h s₃ s' e in
        ap (λ t. (ok true, (t, s₃))) same ∙ ap (λ t. (ok true, (h, t))) same'

    passphrases-Opens :
        (h h₀ h₁ : H) (s' : S) (m : Result H)
        → calls.read_new ≡ some h₀
        → Formatted formats h₀ h₁
        → set_passphrases calls 0 passphrases (calls.support_filter_all h₁) ≡ m
        → with_passphrases calls delegate s m ≡ (ok h, s')
        → Opens h s'
    unfolding with_passphrases
    passphrases-Opens h h₀ h₁ s' (throws x) new formatted step e = not_ok x s s' h e
    passphrases-Opens h h₀ h₁ s' (ok h₂) new formatted step e = (
      h₀,
      h₁,
      h₂,
      new,
      formatted,
      adds-Accepted 0 passphrases (calls.support_filter_all h₁) h₂ step,
      checked_open_lem h s' (delegate (h₂, s)) e,
    )

    formats-Opens :
        (h h₀ : H) (s' : S) (m : Result H)
        → calls.read_new ≡ some h₀
        → configure_formats calls formats h₀ ≡ m
        → with_formats calls passphrases delegate s m ≡ (ok h, s')
        → Opens h s'
    unfolding with_formats
    formats-Opens h h₀ s' (throws x) new step e = not_ok x s s' h e
    formats-Opens h h₀ s' (ok h₁) new step e =
        passphrases-Opens h h₀ h₁ s' _ new (configures-Formatted formats h₀ h₁ step) refl e

    handle-Opens :
        (h : H) (s' : S) (o : Option H)
        → calls.read_new ≡ o
        → with_handle calls passphrases formats delegate s o ≡ (ok h, s')
        → Opens h s'
    unfolding with_handle
    handle-Opens h s' none new e = not_ok _ s s' h e
    handle-Opens h s' (some h₀) new e = formats-Opens h h₀ s' _ new refl e

    -- `new_read_archive_common` returns a handle exactly if libarchive makes one, every format that is
    -- named is known and supported, or all are asked for if none is named, every passphrase is taken, and
    -- the delegate opens, one after the other: what is returned is then the handle after all these calls.
    pub new_read_archive_common-Opens :
        (h : H) (s' : S)
        → (new_read_archive_common calls passphrases formats delegate s ≡ (ok h, s')) ↔ Opens h s'
    unfolding new_read_archive_common with_handle with_formats with_passphrases checked_open
    new_read_archive_common-Opens h s' = (
      λ e. handle-Opens h s' calls.read_new refl e,
      λ (h₀, h₁, h₂, new, formatted, accepted, opened).
          ap (with_handle calls passphrases formats delegate s) new
          ∙ ap (with_formats calls passphrases delegate s)
              (Formatted-configures formats h₀ h₁ formatted)
          ∙ ap (with_passphrases calls delegate s)
              (Accepted-adds 0 passphrases (calls.support_filter_all h₁) h₂ accepted)
          ∙ ap (checked_open calls) opened,
    )
