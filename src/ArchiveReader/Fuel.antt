-- ===== src/ArchiveReader/Fuel.antt =====
-- The exceptions that the searches of src/archive_type.cc throw, and `stuck`, which the model throws for
-- fuel that ran out.
use archive_r.Base.{
  ℕ, zero, suc, ◌≡◌, refl, Bool, true, false, ◌&&◌, not, Option, none, some, Text, text_eqb,
  if◌then◌else◌,
}
use archive_r.Hierarchy.{is_empty}
use archive_r.Fault.{Exception, Result, ok, throws, make_entry_fault_error}
use archive_r.ArchiveReader.Handle.{HeaderRead, header, end_of_archive, broken, LibArchive, Archive}
use archive_r.ArchiveReader.{
  Step, null_handle, close_archive, rewind, rewound, reopened, name_entry, take_header,
  skip_to_next_header, skipped_data, skip_data, Loop, skip_then, forward_round,
  search_forward_until_eof, until_round, search_until_position, search_again, search_wrapped,
  search_from, skip_to_entry, raise_archive_error,
}

abbrev pub is_stuck : Exception → Bool
is_stuck Exception.stuck = true
is_stuck _ = false

-- What is thrown, if something is, is not that the fuel ran out.
abbrev pub IsFree : {A : Type 0} → Result A → Type 0
IsFree (ok a) = Unit {0}
IsFree (throws e) = is_stuck e ≡ false

pub either-IsFree :
    {A B : Type 0} (b : Bool) (m m' : Result A × B)
    → IsFree m.0
    → IsFree m'.0
    → IsFree (if b then m else m').0
either-IsFree true m m' free free' = free
either-IsFree false m m' free free' = free'

-- A loop that ends.
abbrev pub LoopFree : {W E : Type 0} → Option (Result Bool × Archive W E) → Type 0
LoopFree none = Unit {0}
LoopFree (some m) = IsFree m.0

either-LoopFree :
    {W E : Type 0} (b : Bool) (m m' : Option (Result Bool × Archive W E))
    → LoopFree m
    → LoopFree m'
    → LoopFree (if b then m else m')
either-LoopFree true m m' free free' = free
either-LoopFree false m m' free free' = free'

module _ {W E : Type 0} (lib : LibArchive W E) where
  name_entry-IsFree : (o : Option Text) (a : Archive W E) → IsFree (name_entry lib o a).0
  unfolding name_entry make_entry_fault_error
  name_entry-IsFree none a = refl
  name_entry-IsFree (some name) a = tt

  take_header-IsFree : (a : Archive W E) (m : HeaderRead E × W) → IsFree (take_header lib a m).0
  unfolding take_header raise_archive_error make_entry_fault_error
  take_header-IsFree a (end_of_archive, w) = tt
  take_header-IsFree a (broken, w) = refl
  take_header-IsFree a (header e, w) = name_entry-IsFree (lib.pathname e) _

  pub next-IsFree : (a : Archive W E) → IsFree (skip_to_next_header lib a).0
  unfolding skip_to_next_header
  next-IsFree a =
      either-IsFree (not a.is_open) (throws (null_handle lib), a) _ refl
        (either-IsFree a.at_eof _ (take_header lib a (lib.read_next_header a.world)) tt
          (take_header-IsFree a (lib.read_next_header a.world)))

  skipped_data-IsFree : (a : Archive W E) (m : Bool × W) → IsFree (skipped_data lib a m).0
  unfolding skipped_data raise_archive_error make_entry_fault_error
  skipped_data-IsFree a (true, w) = tt
  skipped_data-IsFree a (false, w) = refl

  skip_data-IsFree : (a : Archive W E) → IsFree (skip_data lib a).0
  unfolding skip_data
  skip_data-IsFree a =
      either-IsFree (not a.is_open) (throws (null_handle lib), a) _ refl
        (skipped_data-IsFree a (lib.read_data_skip a.world))

  skip_then-LoopFree :
      (next : Archive W E → Loop lib) (m : Step lib Bool)
      → IsFree m.0
      → ((a : Archive W E) → LoopFree (next a))
      → LoopFree (skip_then lib next m)
  unfolding skip_then
  skip_then-LoopFree next (throws e, a) free rec = free
  skip_then-LoopFree next (ok b, a) free rec = rec a

  forward-LoopFree :
      (entryname : Text) (next : Archive W E → Loop lib) (m : Step lib Bool)
      → IsFree m.0
      → ((a : Archive W E) → LoopFree (next a))
      → LoopFree (forward_round lib entryname next m)
  unfolding forward_round
  forward-LoopFree entryname next (throws e, a) free rec = free
  forward-LoopFree entryname next (ok false, a) free rec = tt
  forward-LoopFree entryname next (ok true, a) free rec =
      either-LoopFree (text_eqb a.current_entryname entryname) (some (ok true, a))
        (skip_then lib next (skip_data lib a)) tt
        (skip_then-LoopFree next (skip_data lib a) (skip_data-IsFree a) rec)

  search_forward-LoopFree :
      (fuel : ℕ) (entryname : Text) (a : Archive W E)
      → LoopFree (search_forward_until_eof lib fuel entryname a)
  unfolding search_forward_until_eof
  search_forward-LoopFree zero entryname a = tt
  search_forward-LoopFree (suc fuel) entryname a =
      forward-LoopFree entryname (search_forward_until_eof lib fuel entryname) _ (next-IsFree a)
        (search_forward-LoopFree fuel entryname)

  until-LoopFree :
      (entryname stop_position : Text) (next : Archive W E → Loop lib) (m : Step lib Bool)
      → IsFree m.0
      → ((a : Archive W E) → LoopFree (next a))
      → LoopFree (until_round lib entryname stop_position next m)
  unfolding until_round
  until-LoopFree entryname stop_position next (throws e, a) free rec = free
  until-LoopFree entryname stop_position next (ok false, a) free rec = tt
  until-LoopFree entryname stop_position next (ok true, a) free rec =
      let later = skip_then lib next (skip_data lib a) in
      either-LoopFree (text_eqb a.current_entryname entryname) (some (ok true, a))
        (if text_eqb a.current_entryname stop_position then some (ok false, a) else later) tt
        (either-LoopFree (text_eqb a.current_entryname stop_position) (some (ok false, a)) later tt
          (skip_then-LoopFree next (skip_data lib a) (skip_data-IsFree a) rec))

  search_until-LoopFree :
      (fuel : ℕ) (entryname stop_position : Text) (a : Archive W E)
      → LoopFree (search_until_position lib fuel entryname stop_position a)
  unfolding search_until_position
  search_until-LoopFree zero entryname stop_position a = tt
  search_until-LoopFree (suc fuel) entryname stop_position a =
      until-LoopFree entryname stop_position
        (search_until_position lib fuel entryname stop_position) _ (next-IsFree a)
        (search_until-LoopFree fuel entryname stop_position)

  again-LoopFree :
      (fuel : ℕ) (entryname start : Text) (m : Step lib (Unit {0}))
      → IsFree m.0
      → LoopFree (search_again lib fuel entryname start m)
  unfolding search_again
  again-LoopFree fuel entryname start (throws e, a) free = free
  again-LoopFree fuel entryname start (ok u, a) free = search_until-LoopFree fuel entryname start a

  pub reopened-IsFree :
      (a : Archive W E) (m : Result (Unit {0}) × W) → IsFree m.0 → IsFree (reopened lib a m).0
  unfolding reopened
  reopened-IsFree a (ok u, w) free = tt
  reopened-IsFree a (throws e, w) free = free

  module _ (rewinds : (w : W) → IsFree (lib.rewind_source w).0)
      (opens : (w : W) → IsFree (lib.open_handle w).0) where
    rewound-IsFree :
        (a : Archive W E) (m : Result (Unit {0}) × W) → IsFree m.0 → IsFree (rewound lib a m).0
    unfolding rewound
    rewound-IsFree a (throws e, w) free = free
    rewound-IsFree a (ok u, w) free =
        let closed = close_archive lib (record a { world = w }) in
        reopened-IsFree (record closed { at_eof = false }) (lib.open_handle closed.world)
          (opens closed.world)

    rewind-IsFree : (a : Archive W E) → IsFree (rewind lib a).0
    unfolding rewind
    rewind-IsFree a = rewound-IsFree a (lib.rewind_source a.world) (rewinds a.world)

    wrapped-LoopFree :
        (fuel : ℕ) (entryname start : Text) (m : Loop lib)
        → LoopFree m
        → LoopFree (search_wrapped lib fuel entryname start m)
    unfolding search_wrapped
    wrapped-LoopFree fuel entryname start none free = tt
    wrapped-LoopFree fuel entryname start (some (throws e, a)) free = free
    wrapped-LoopFree fuel entryname start (some (ok true, a)) free = tt
    wrapped-LoopFree fuel entryname start (some (ok false, a)) free =
        either-LoopFree (is_empty start) (some (ok false, a)) _ tt
          (again-LoopFree fuel entryname start (rewind lib a) (rewind-IsFree a))

    from-LoopFree :
        (fuel : ℕ) (entryname : Text) (m : Step lib (Unit {0}))
        → IsFree m.0
        → LoopFree (search_from lib fuel entryname m)
    unfolding search_from
    from-LoopFree fuel entryname (throws e, a) free = free
    from-LoopFree fuel entryname (ok u, a) free =
        wrapped-LoopFree fuel entryname a.current_entryname _
          (search_forward-LoopFree fuel entryname a)

    -- No exception of `skip_to_entry` is that the fuel ran out, if none of a rewind is.
    pub skip_to_entry-LoopFree :
        (fuel : ℕ) (entryname : Text) (a : Archive W E)
        → LoopFree (skip_to_entry lib fuel entryname a)
    unfolding skip_to_entry
    skip_to_entry-LoopFree fuel entryname a =
        either-LoopFree (text_eqb a.current_entryname entryname && a.content_ready)
          (some (ok true, a)) _ tt
          (from-LoopFree fuel entryname (if a.at_eof then rewind lib a else (ok tt, a))
            (either-IsFree a.at_eof (rewind lib a) (ok tt, a) (rewind-IsFree a) tt))
