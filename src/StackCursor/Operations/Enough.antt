-- ===== src/StackCursor/Operations/Enough.antt =====
-- The fuel of the loops over headers that an orchestrator starts through the cursor of
-- src/archive_stack_cursor.cc, for a library whose archives have finitely many headers.
use archive_r.Base.{
  ℕ, zero, suc, ◌<◌, ◌≢◌, refl, Bool, true, false, not, none, some, if◌then◌else◌, arith,
}
use archive_r.Hierarchy.{is_empty}
use archive_r.Fault.{ok, throws}
use archive_r.ArchiveReader.Handle.{LibArchive, Archive}
use archive_r.ArchiveReader.{Step, Loop}
use archive_r.ArchiveReader.Finite.{FiniteHeaders, left_in, left_in-bound, LeavesFewer, next-fewer}
use archive_r.ArchiveReader.Fuel.{IsFree, LoopFree, next-IsFree}
use archive_r.ArchiveReader.Eof.{skip_to_eof-LoopFree, skip_to_eof-ne-none}
use archive_r.StreamArchive.{ArchiveOption}
use archive_r.StackCursor.{
  Context, Chain, Opened, chain_stream, calls_of, Current, no_stream, Place, outside, inside,
}
use archive_r.StackCursor.Moves.{
  Move, named_round, skip_to_named, found_next, next_entry, next_from,
}
use archive_r.StackCursor.Sync.{descend, next, synchronize_to_hierarchy}
use archive_r.StackCursor.Sync.Enough.{create_current-IsFree, descend-IsFree, synchronize-IsFree}
use archive_r.StackCursor.Operations.{pushed, push_archive, stack_cursor}
use archive_r.StackCursor.Operations.Finite.{FiniteLibrary, finite_archive}
use archive_r.Orchestrator.Fuel.{NeverStuck}

some-ne-none : {A : Type 0} {a : A} → some a ≢ none
some-ne-none e = ground arith

module _ {W E : Type 0} {lib : LibArchive W E} (finite : FiniteHeaders lib) where
  named_round-LoopFree :
      (next : Archive W E → Loop lib) (m : Step lib Bool)
      → IsFree m.0
      → ((a : Archive W E) → LoopFree (next a))
      → LoopFree (named_round lib next m)
  unfolding named_round
  named_round-LoopFree next (throws e, a) free rec = free
  named_round-LoopFree next (ok false, a) free rec = tt
  named_round-LoopFree next (ok true, a) free rec = go (not (is_empty a.current_entryname))
    where
      go : (b : Bool) → LoopFree (if b then some (ok true, a) else next a)
      go true = tt
      go false = rec a

  skip_to_named-LoopFree : (fuel : ℕ) (a : Archive W E) → LoopFree (skip_to_named lib fuel a)
  unfolding skip_to_named
  skip_to_named-LoopFree zero a = tt
  skip_to_named-LoopFree (suc fuel) a =
      named_round-LoopFree (skip_to_named lib fuel) _ (next-IsFree lib a)
        (skip_to_named-LoopFree fuel)

  named_round-ne-none :
      (next : Archive W E → Loop lib) (a : Archive W E) (m : Step lib Bool)
      → LeavesFewer finite a m
      → ((a' : Archive W E) → left_in finite a' < left_in finite a → next a' ≢ none)
      → named_round lib next m ≢ none
  unfolding named_round
  named_round-ne-none next a (throws e, a') fewer rec = λ e'. some-ne-none e'
  named_round-ne-none next a (ok false, a') fewer rec = λ e'. some-ne-none e'
  named_round-ne-none next a (ok true, a') fewer rec = go (not (is_empty a'.current_entryname))
    where
      go : (b : Bool) → (if b then some (ok true, a') else next a') ≢ none
      go true = λ e'. some-ne-none e'
      go false = rec a' fewer

  -- The loop of `next` ends, with fuel above the headers that are left.
  skip_to_named-ne-none :
      (fuel : ℕ) (a : Archive W E) → left_in finite a < fuel → skip_to_named lib fuel a ≢ none
  unfolding skip_to_named
  skip_to_named-ne-none zero a less = absurd (omega arith)
  skip_to_named-ne-none (suc fuel) a less =
      named_round-ne-none (skip_to_named lib fuel) a _ (next-fewer finite a)
        (λ a' fewer. skip_to_named-ne-none fuel a' (omega arith))

module _ {H E W F C : Type 0} (x : Context H E W F C) where
  found_next-IsFree : (m : Move x (Unit {0})) → IsFree m.0 → IsFree (found_next x m).0
  unfolding found_next
  found_next-IsFree (throws e, p) free = free
  found_next-IsFree (ok u, p) free = tt

  next_entry-IsFree :
      (options : ArchiveOption) (chain : Chain F) (a : Opened x chain)
      (m : Loop (calls_of x options chain))
      → m ≢ none
      → LoopFree m
      → IsFree (next_entry x options chain a m).0
  unfolding next_entry
  next_entry-IsFree options chain a none ends free = absurd (ends refl)
  next_entry-IsFree options chain a (some (throws e, a')) ends free = free
  next_entry-IsFree options chain a (some (ok false, a')) ends free = tt
  next_entry-IsFree options chain a (some (ok true, a')) ends free =
      found_next-IsFree _ (create_current-IsFree x _ (inside options chain a' no_stream))

  pushed-IsFree :
      (options : ArchiveOption) (chain : Chain F) (a : Opened x chain) (s : Current x)
      (m : Loop (calls_of x options chain))
      → m ≢ none
      → LoopFree m
      → IsFree (pushed x options chain a s m).0
  unfolding pushed
  pushed-IsFree options chain a s none ends free = absurd (ends refl)
  pushed-IsFree options chain a s (some (result, a')) ends free = free

  module _ (finite : FiniteLibrary x.library) (enough : suc finite.bound < x.fuel) where
    below_fuel :
        (options : ArchiveOption) (chain : Chain F) (a : Opened x chain)
        → left_in (finite_archive finite (chain_stream x chain) options) a < x.fuel
    unfolding finite_archive
    below_fuel options chain a =
        let most = left_in-bound (finite_archive finite (chain_stream x chain) options) a in
        omega (arith, most, enough)

    next_from-IsFree : (p : Place x) → IsFree (next_from x p).0
    unfolding next_from
    next_from-IsFree (outside s) = tt
    next_from-IsFree (inside options chain a s) =
        let headers = finite_archive finite (chain_stream x chain) options in
        next_entry-IsFree options chain a _
          (skip_to_named-ne-none headers x.fuel a (below_fuel options chain a))
          (skip_to_named-LoopFree headers x.fuel a)

    push-IsFree : (p : Place x) → IsFree (push_archive x p).0
    unfolding push_archive
    push-IsFree (outside s) = tt
    push-IsFree (inside options chain a s) =
        let headers = finite_archive finite (chain_stream x chain) options in
        pushed-IsFree options chain a s _
          (skip_to_eof-ne-none headers x.fuel a (below_fuel options chain a))
          (skip_to_eof-LoopFree (calls_of x options chain) x.fuel a)

    -- With fuel above the most headers that an archive has, and one more, no member of the cursor runs
    -- out of it.
    pub stack_cursor-NeverStuck :
        ((f : F) (s : C) → IsFree ((x.custom_stream f).rewind s).0) → NeverStuck (stack_cursor x)
    unfolding stack_cursor next descend synchronize_to_hierarchy
    stack_cursor-NeverStuck customs = record {
      descends =
          λ cursor. descend-IsFree x finite enough customs cursor.options_snapshot cursor.place;
      nexts = λ cursor. next_from-IsFree cursor.place;
      synchronizes = λ h cursor.
          synchronize-IsFree x finite enough customs h cursor.options_snapshot cursor.place;
      pushes = λ cursor. push-IsFree cursor.place;
    }
