-- ===== src/ArchiveReader/Finite.antt =====
-- Archives with finitely many headers: the loops of src/archive_type.cc over headers end.
use archive_r.Base.{
  ℕ, zero, suc, ◌≤◌, ◌<◌, ◌≡◌, ◌≢◌, refl, ap, Bool, true, false, ◌&&◌, not, inl, inr, Bool-cases,
  Option, none, some, Text, text_eqb, if◌then◌else◌, arith,
}
use archive_r.Hierarchy.{is_empty}
use archive_r.Fault.{entry_fault, ok, throws, make_entry_fault_error}
use archive_r.ArchiveReader.Handle.{HeaderRead, header, end_of_archive, broken, LibArchive, Archive}
use archive_r.ArchiveReader.{
  Step, null_handle, rewind, forget_entry, name_entry, take_header, skip_to_next_header,
  skipped_data, skip_data, Loop, skip_then, forward_round, search_forward_until_eof, until_round,
  search_until_position, search_again, search_wrapped, search_from, skip_to_entry,
  raise_archive_error,
}

-- Reading a header leaves fewer of them, no step of the data leaves more, and there are never more
-- than `bound`.
pub record FiniteHeaders {W E : Type 0} (lib : LibArchive W E) : Type 0 where
  pub headers : W → ℕ
  pub bound : ℕ
  pub within : (w : W) → headers w ≤ bound
  pub next_headers :
      (w : W) (e : E) (w' : W) → lib.read_next_header w ≡ (header e, w') → headers w' < headers w
  pub skip_headers : (w : W) → headers (lib.read_data_skip w).1 ≤ headers w

some-ne-none : {A : Type 0} {a : A} → some a ≢ none
some-ne-none e = ground arith

module _ {W E : Type 0} {lib : LibArchive W E} (finite : FiniteHeaders lib) where
  -- The headers that are left, and one more for the end.
  abbrev pub left_in : Archive W E → ℕ
  left_in a = if a.at_eof then 0 else suc (finite.headers a.world)

  pub left_in-bound : (a : Archive W E) → left_in a ≤ suc finite.bound
  left_in-bound a = ground (arith, finite.within a.world)

  -- A step of the headers leaves fewer, unless it returns false or throws something else than the
  -- fault of an entry.
  abbrev pub LeavesFewer : Archive W E → Step lib Bool → Type 0
  LeavesFewer a (ok true, a') = left_in a' < left_in a
  LeavesFewer a (ok false, a') = Unit {0}
  LeavesFewer a (throws (entry_fault f), a') = left_in a' < left_in a
  LeavesFewer a (throws e, a') = Unit {0}

  name_entry-fewer :
      (a : Archive W E) (o : Option Text) (e : E) (w : W)
      → a.at_eof ≡ false
      → finite.headers w < finite.headers a.world
      → LeavesFewer a (name_entry lib o (record a { current_entry = some e; world = w }))
  unfolding name_entry make_entry_fault_error
  name_entry-fewer a none e w eof_lem less = ground (arith, eof_lem)
  name_entry-fewer a (some name) e w eof_lem less = ground (arith, eof_lem)

  take_header-fewer :
      (a : Archive W E) (m : HeaderRead E × W)
      → a.at_eof ≡ false
      → ((e : E) → m.0 ≡ header e → finite.headers m.1 < finite.headers a.world)
      → LeavesFewer a (take_header lib a m)
  unfolding take_header forget_entry raise_archive_error make_entry_fault_error
  take_header-fewer a (end_of_archive, w) eof_lem fewer = tt
  take_header-fewer a (broken, w) eof_lem fewer = ground (arith, eof_lem)
  take_header-fewer a (header e, w) eof_lem fewer =
      name_entry-fewer a (lib.pathname e) e w eof_lem (fewer e refl)

  guarded-fewer :
      (a a' : Archive W E) (is_open at_eof : Bool) (m : Step lib Bool)
      → (at_eof ≡ false → LeavesFewer a m)
      → LeavesFewer a (
          if not is_open
          then (throws (null_handle lib), a)
          else if at_eof
          then (ok false, a')
          else m)
  guarded-fewer a a' false at_eof m fewer = tt
  guarded-fewer a a' true true m fewer = tt
  guarded-fewer a a' true false m fewer = fewer refl

  pub next-fewer : (a : Archive W E) → LeavesFewer a (skip_to_next_header lib a)
  unfolding skip_to_next_header
  next-fewer a = guarded-fewer a (forget_entry lib a) a.is_open a.at_eof _ (λ eof_lem.
      take_header-fewer a (lib.read_next_header a.world) eof_lem (λ e is_header.
        finite.next_headers a.world e (lib.read_next_header a.world).1
          (ap (λ t. (t, (lib.read_next_header a.world).1)) is_header)))

  -- After a step that goes on with fewer headers, less fuel is enough.
  skipped-left :
      (a : Archive W E) (m : Bool × W)
      → finite.headers m.1 ≤ finite.headers a.world
      → left_in (skipped_data lib a m).1 ≤ left_in a
  unfolding skipped_data
  skipped-left a (true, w) less = elim (Bool-cases a.at_eof) [
    | inl e ↦ rw e (omega arith)
    | inr e ↦ rw e (omega arith)
  ]
  skipped-left a (false, w) less = elim (Bool-cases a.at_eof) [
    | inl e ↦ rw e (omega arith)
    | inr e ↦ rw e (omega arith)
  ]

  either-left :
      (a : Archive W E) (b : Bool) (m m' : Step lib Bool)
      → left_in m.1 ≤ left_in a
      → left_in m'.1 ≤ left_in a
      → left_in (if not b then m else m').1 ≤ left_in a
  either-left a true m m' less less' = less'
  either-left a false m m' less less' = less

  skip_data-left : (a : Archive W E) → left_in (skip_data lib a).1 ≤ left_in a
  unfolding skip_data
  skip_data-left a =
      either-left a a.is_open (throws (null_handle lib), a) _ (omega arith)
        (skipped-left a (lib.read_data_skip a.world) (finite.skip_headers a.world))

  skip_then-ne-none :
      (next : Archive W E → Loop lib) (m : Step lib Bool)
      → (next m.1 ≢ none)
      → skip_then lib next m ≢ none
  unfolding skip_then
  skip_then-ne-none next (ok b, a) rec = rec
  skip_then-ne-none next (throws e, a) rec = λ e'. some-ne-none e'

  forward-ne-none :
      (entryname : Text) (next : Archive W E → Loop lib) (a : Archive W E) (m : Step lib Bool)
      → LeavesFewer a m
      → ((a' : Archive W E) → left_in a' < left_in a → next a' ≢ none)
      → forward_round lib entryname next m ≢ none
  unfolding forward_round
  forward-ne-none entryname next a (throws e, a') fewer rec = λ e'. some-ne-none e'
  forward-ne-none entryname next a (ok false, a') fewer rec = λ e'. some-ne-none e'
  forward-ne-none entryname next a (ok true, a') fewer rec =
      let skips = skip_data-left a' in
      let later =
        skip_then-ne-none next (skip_data lib a') (rec (skip_data lib a').1 (omega arith)) in
      elim (Bool-cases (text_eqb a'.current_entryname entryname)) [
        | inl e ↦ rw e (λ e'. some-ne-none e')
        | inr e ↦ rw e later
      ]

  -- Fuel above the headers that are left is enough for a forward search.
  pub search_forward-ne-none :
      (fuel : ℕ) (entryname : Text) (a : Archive W E)
      → left_in a < fuel
      → search_forward_until_eof lib fuel entryname a ≢ none
  unfolding search_forward_until_eof
  search_forward-ne-none zero entryname a less = absurd (omega arith)
  search_forward-ne-none (suc fuel) entryname a less =
      forward-ne-none entryname _ a _ (next-fewer a)
        (λ a' fewer. search_forward-ne-none fuel entryname a' (omega arith))

  until-ne-none :
      (entryname stop_position : Text) (next : Archive W E → Loop lib) (a : Archive W E)
      (m : Step lib Bool)
      → LeavesFewer a m
      → ((a' : Archive W E) → left_in a' < left_in a → next a' ≢ none)
      → until_round lib entryname stop_position next m ≢ none
  unfolding until_round
  until-ne-none entryname stop_position next a (throws e, a') fewer rec = λ e'. some-ne-none e'
  until-ne-none entryname stop_position next a (ok false, a') fewer rec = λ e'. some-ne-none e'
  until-ne-none entryname stop_position next a (ok true, a') fewer rec =
      let skips = skip_data-left a' in
      let later =
        skip_then-ne-none next (skip_data lib a') (rec (skip_data lib a').1 (omega arith)) in
      elim (Bool-cases (text_eqb a'.current_entryname entryname)) [
        | inl e ↦ rw e (λ e'. some-ne-none e')
        | inr e ↦ elim (Bool-cases (text_eqb a'.current_entryname stop_position)) [
          | inl stop ↦ rw (e, stop) (λ e'. some-ne-none e')
          | inr stop ↦ rw (e, stop) later
        ]
      ]

  pub search_until-ne-none :
      (fuel : ℕ) (entryname stop_position : Text) (a : Archive W E)
      → left_in a < fuel
      → search_until_position lib fuel entryname stop_position a ≢ none
  unfolding search_until_position
  search_until-ne-none zero entryname stop_position a less = absurd (omega arith)
  search_until-ne-none (suc fuel) entryname stop_position a less =
      until-ne-none entryname stop_position _ a _ (next-fewer a)
        (λ a' fewer. search_until-ne-none fuel entryname stop_position a' (omega arith))

  again-ne-none :
      (fuel : ℕ) (entryname start : Text) (m : Step lib (Unit {0}))
      → suc finite.bound < fuel
      → search_again lib fuel entryname start m ≢ none
  unfolding search_again
  again-ne-none fuel entryname start (throws e, a) enough = λ e'. some-ne-none e'
  again-ne-none fuel entryname start (ok u, a) enough =
      let most = left_in-bound a in search_until-ne-none fuel entryname start a (omega arith)

  wrapped-ne-none :
      (fuel : ℕ) (entryname start : Text) (m : Loop lib)
      → suc finite.bound < fuel
      → m ≢ none
      → search_wrapped lib fuel entryname start m ≢ none
  unfolding search_wrapped
  wrapped-ne-none fuel entryname start none enough ne = absurd (ne refl)
  wrapped-ne-none fuel entryname start (some (throws e, a)) enough ne = λ e'. some-ne-none e'
  wrapped-ne-none fuel entryname start (some (ok true, a)) enough ne = λ e'. some-ne-none e'
  wrapped-ne-none fuel entryname start (some (ok false, a)) enough ne =
      elim (Bool-cases (is_empty start)) [
        | inl e ↦ rw e (λ e'. some-ne-none e')
        | inr e ↦ rw e (again-ne-none fuel entryname start (rewind lib a) enough)
      ]

  from-ne-none :
      (fuel : ℕ) (entryname : Text) (m : Step lib (Unit {0}))
      → suc finite.bound < fuel
      → search_from lib fuel entryname m ≢ none
  unfolding search_from
  from-ne-none fuel entryname (throws e, a) enough = λ e'. some-ne-none e'
  from-ne-none fuel entryname (ok u, a) enough =
      let most = left_in-bound a in
      wrapped-ne-none fuel entryname a.current_entryname _ enough
        (search_forward-ne-none fuel entryname a (omega arith))

  -- `skip_to_entry` ends, whatever libarchive reports on the way: with fuel above the most headers that
  -- an archive has, and one more, the model's fuel does not run out.
  pub skip_to_entry-ne-none :
      (fuel : ℕ) (entryname : Text) (a : Archive W E)
      → suc finite.bound < fuel
      → skip_to_entry lib fuel entryname a ≢ none
  unfolding skip_to_entry
  skip_to_entry-ne-none fuel entryname a enough =
      elim (Bool-cases (text_eqb a.current_entryname entryname && a.content_ready)) [
        | inl e ↦ rw e (λ e'. some-ne-none e')
        | inr e ↦ rw e (from-ne-none fuel entryname _ enough)
      ]
