-- ===== src/ArchiveReader/Eof.antt =====
-- `skip_to_eof` of src/archive_type.cc ends on an archive with finitely many headers.
use archive_r.Base.{
  ℕ, zero, suc, ◌<◌, ◌≡◌, ◌≢◌, refl, Bool, true, false, not, Option, none, some, Text,
  if◌then◌else◌, arith,
}
use archive_r.Fault.{ok, throws}
use archive_r.ArchiveReader.Handle.{HeaderRead, header, end_of_archive, broken, LibArchive, Archive}
use archive_r.ArchiveReader.{
  Step, null_handle, forget_entry, name_entry, take_header, skip_to_next_header, Loop, skip_then,
  skip_to_eof,
}
use archive_r.ArchiveReader.Finite.{FiniteHeaders, left_in, LeavesFewer, next-fewer}
use archive_r.ArchiveReader.Fuel.{IsFree, LoopFree, next-IsFree}

fork :
    {A : Type 0} (P : A → Type 0) (b : Bool) (m m' : A)
    → (b ≡ true → P m)
    → (b ≡ false → P m')
    → P (if b then m else m')
fork P true m m' first second = first refl
fork P false m m' first second = second refl

module _ {W E : Type 0} (lib : LibArchive W E) where
  -- A step that returns false has reached the end.
  abbrev FalseAtEnd : Step lib Bool → Type 0
  FalseAtEnd (ok false, a) = a.at_eof ≡ true
  FalseAtEnd (ok true, a) = Unit {0}
  FalseAtEnd (throws e, a) = Unit {0}

  name_entry-FalseAtEnd : (o : Option Text) (a : Archive W E) → FalseAtEnd (name_entry lib o a)
  unfolding name_entry
  name_entry-FalseAtEnd none a = tt
  name_entry-FalseAtEnd (some name) a = tt

  take_header-FalseAtEnd :
      (a : Archive W E) (m : HeaderRead E × W) → FalseAtEnd (take_header lib a m)
  unfolding take_header
  take_header-FalseAtEnd a (end_of_archive, w) = refl
  take_header-FalseAtEnd a (broken, w) = tt
  take_header-FalseAtEnd a (header e, w) = name_entry-FalseAtEnd (lib.pathname e) _

  next-FalseAtEnd : (a : Archive W E) → FalseAtEnd (skip_to_next_header lib a)
  unfolding skip_to_next_header forget_entry
  next-FalseAtEnd a =
      fork FalseAtEnd (not a.is_open) (throws (null_handle lib), a) _ (λ e. tt)
        (λ e.
          fork FalseAtEnd a.at_eof (ok false, forget_entry lib a) _ (λ at_end. at_end)
            (λ e'. take_header-FalseAtEnd a (lib.read_next_header a.world)))

  skip_then-LoopFree :
      (next : Archive W E → Loop lib) (m : Step lib Bool)
      → IsFree m.0
      → ((a : Archive W E) → LoopFree (next a))
      → LoopFree (skip_then lib next m)
  unfolding skip_then
  skip_then-LoopFree next (throws e, a) free rec = free
  skip_then-LoopFree next (ok b, a) free rec = rec a

  -- What `skip_to_eof` throws is never that the fuel ran out.
  pub skip_to_eof-LoopFree : (fuel : ℕ) (a : Archive W E) → LoopFree (skip_to_eof lib fuel a)
  unfolding skip_to_eof
  skip_to_eof-LoopFree zero a = tt
  skip_to_eof-LoopFree (suc fuel) a =
      fork LoopFree a.at_eof (some (ok true, a)) _ (λ e. tt)
        (λ e.
          skip_then-LoopFree (skip_to_eof lib fuel) _ (next-IsFree lib a)
            (skip_to_eof-LoopFree fuel))

module _ {W E : Type 0} {lib : LibArchive W E} (finite : FiniteHeaders lib) where
  some-ne-none : {A : Type 0} {a : A} → some a ≢ none
  some-ne-none e = ground arith

  skip_then-ne-none :
      (next : Archive W E → Loop lib) (a : Archive W E) (m : Step lib Bool)
      → a.at_eof ≡ false
      → LeavesFewer finite a m
      → FalseAtEnd lib m
      → ((a' : Archive W E) → left_in finite a' < left_in finite a → next a' ≢ none)
      → skip_then lib next m ≢ none
  unfolding skip_then
  skip_then-ne-none next a (throws e, a') open_lem fewer ends rec = λ e'. some-ne-none e'
  skip_then-ne-none next a (ok true, a') open_lem fewer ends rec = rec a' fewer
  skip_then-ne-none next a (ok false, a') open_lem fewer ends rec =
      rec a' (ground (arith, open_lem, ends))

  -- With fuel above the headers that are left, `skip_to_eof` ends.
  pub skip_to_eof-ne-none :
      (fuel : ℕ) (a : Archive W E) → left_in finite a < fuel → skip_to_eof lib fuel a ≢ none
  unfolding skip_to_eof
  skip_to_eof-ne-none zero a less = absurd (omega arith)
  skip_to_eof-ne-none (suc fuel) a less =
      fork (λ m. m ≢ none) a.at_eof (some (ok true, a)) _ (λ e e'. some-ne-none e')
        (λ e.
          skip_then-ne-none (skip_to_eof lib fuel) a _ e (next-fewer finite a)
            (next-FalseAtEnd lib a) (λ a' fewer. skip_to_eof-ne-none fuel a' (omega arith)))
