-- ===== src/StackCursor/Operations/Laws.antt =====
-- The laws of the cursor of src/archive_stack_cursor.cc that an orchestrator needs, for a library whose
-- archives have finitely many headers.
use archive_r.StackCursor.Operations.Finite.{
  FiniteLibrary, finite_archive, is_fault, no_fault, FaultsFewer, skip_to_named-FaultsFewer,
}
use mathlib.Core.Path.{subst}
use archive_r.Base.{
  ℕ, suc, ◌-◌, ◌<◌, ◌≡◌, refl, ap, sym, ◌∙◌, Bool, true, false, Bool-cases, inl, inr, Option, none,
  some, Text, ◌==◌, length, if◌then◌else◌, arith,
}
use archive_r.Hierarchy.{PathHierarchy}
use archive_r.HierarchyUtils.{pathhierarchy_volume_size}
use archive_r.Fault.{invalid_argument, Result, ok, throws}
use archive_r.VolumeStream.Parts.{Config, Stream, make_stream}
use archive_r.SystemFileStream.{SystemFile}
use archive_r.ArchiveReader.{Loop}
use archive_r.ArchiveReader.Finite.{left_in}
use archive_r.StreamArchive.{ArchiveOption}
use archive_r.PayloadStream.{make_payload}
use archive_r.StackCursor.{
  Context, Chain, root, nested, Opened, chain_stream, calls_of, RootStream, Current, no_stream,
  at_root, Place, outside, inside, Cursor, chain_depth, place_depth,
}
use archive_r.StackCursor.Moves.{
  Move, create_current, as_root, system_root, root_or_system, placed_root, placed_payload,
  make_root, found_next, next_entry, next_from, ascend_from, back_to,
}
use archive_r.StackCursor.Sync.{ascend, next, depth}
use archive_r.Orchestrator.{Orchestrator, Act, advance}
use archive_r.Orchestrator.Outcomes.{EndsWell, Extends, AdvancesFrom, advance-Advances}
use archive_r.StackCursor.Operations.{pushed, push_archive, stack_cursor}
use archive_r.Orchestrator.Rounds.{IsStack}
use archive_r.Orchestrator.Ending.{advance-Finishes}
use archive_r.Orchestrator.Fuel.{ActFree, advance-ActFree}
use archive_r.ArchiveReader.Fuel.{IsFree}
use archive_r.StackCursor.Operations.Enough.{stack_cursor-NeverStuck}

-- The refusals of the constructors are no faults of entries.
guarded_no_fault :
    {A : Type 0} (b : Bool) (message : Text) (a : A)
    → is_fault (if b then throws (invalid_argument message) else ok a) ≡ false
guarded_no_fault true message a = refl
guarded_no_fault false message a = refl

make_stream-no_fault :
    {B : Type 0} (h : PathHierarchy) (seeks : Bool) (device : B)
    → is_fault (make_stream h seeks device) ≡ false
unfolding make_stream
make_stream-no_fault h seeks device = guarded_no_fault (pathhierarchy_volume_size h == 0) _ _

module _ {H E W F C : Type 0} (x : Context H E W F C) where
  as_root-no_fault :
      (m : Result (Config × Stream (SystemFile W)))
      → is_fault m ≡ false
      → is_fault (as_root x m) ≡ false
  unfolding as_root
  as_root-no_fault (ok (c, s)) e = refl
  as_root-no_fault (throws t) e = e

  root_or_system-no_fault :
      (h : PathHierarchy) (o : Option (F × C)) → is_fault (root_or_system x h o) ≡ false
  unfolding root_or_system system_root
  root_or_system-no_fault h none = as_root-no_fault _ (make_stream-no_fault h true _)
  root_or_system-no_fault h (some (f, s)) = refl

  make_root-no_fault : (h : PathHierarchy) → is_fault (make_root x h) ≡ false
  unfolding make_root system_root
  make_root-no_fault h =
      elim x.factory
        as (λ o.
          is_fault
            (elim o [ none ↦ system_root x h | some factory ↦ root_or_system x h (factory h) ])
          ≡ false) [
            | none ↦ as_root-no_fault _ (make_stream-no_fault h true _)
            | some factory ↦ root_or_system-no_fault h (factory h)
          ]

  depth_of-ascend : (p : Place x) → place_depth x (ascend_from x p).1 ≡ place_depth x p - 1
  unfolding ascend_from back_to place_depth chain_depth
  depth_of-ascend (outside s) = refl
  depth_of-ascend (inside options (root r) a s) = refl
  depth_of-ascend (inside options (nested c outer chain) a s) = omega arith

  -- How much of the current archive is left.
  abbrev left_at : FiniteLibrary x.library → Place x → ℕ
  left_at finite (outside s) = 0
  left_at finite (inside options chain a s) =
      left_in (finite_archive finite (chain_stream x chain) options) a

  -- A stream that is made inside an archive: it stays the same archive, and no fault is thrown.
  abbrev Keeps : FiniteLibrary x.library → Place x → Move x (Unit {0}) → Type 0
  Keeps finite p m = (is_fault m.0 ≡ false) × (place_depth x m.1 ≡ place_depth x p)

  placed_root-Keeps :
      (finite : FiniteLibrary x.library) (options : ArchiveOption) (chain : Chain F)
      (a : Opened x chain) (s : Current x) (m : Result (RootStream x))
      → is_fault m ≡ false
      → Keeps finite
          (inside options chain a s)
          (placed_root x (inside options chain a s) (λ r. inside options chain a (at_root r)) m)
  unfolding placed_root place_depth
  placed_root-Keeps finite options chain a s (ok r) e = (refl, refl)
  placed_root-Keeps finite options chain a s (throws t) e = (e, refl)

  placed_payload-Keeps :
      (finite : FiniteLibrary x.library) (options : ArchiveOption) (chain : Chain F)
      (a : Opened x chain) (s : Current x) (m : Result (Config × Stream (Unit {0})))
      → is_fault m ≡ false
      → Keeps finite (inside options chain a s) (placed_payload x options chain a s m)
  unfolding placed_payload place_depth
  placed_payload-Keeps finite options chain a s (ok (c, p)) e = (refl, refl)
  placed_payload-Keeps finite options chain a s (throws t) e = (e, refl)

  create_current-Keeps :
      (finite : FiniteLibrary x.library) (h : PathHierarchy) (options : ArchiveOption)
      (chain : Chain F) (a : Opened x chain) (s : Current x)
      → Keeps finite (inside options chain a s) (create_current x h (inside options chain a s))
  unfolding create_current make_payload
  create_current-Keeps finite h options chain a s = elim (Bool-cases (length h == 1)) [
    | inl e ↦ rw e (placed_root-Keeps finite options chain a s _ (make_root-no_fault h))
    | inr e ↦
        rw e (placed_payload-Keeps finite options chain a s _ (make_stream-no_fault h false tt))
  ]

  -- `next` stays on the level, and a fault of an entry leaves fewer headers.
  abbrev NextLaws : FiniteLibrary x.library → Place x → Move x Bool → Type 0
  NextLaws finite p m =
      (place_depth x m.1 ≡ place_depth x p)
      × (is_fault m.0 ≡ true → left_at finite m.1 < left_at finite p)

  found-NextLaws :
      (finite : FiniteLibrary x.library) (p q : Place x) (m : Move x (Unit {0}))
      → place_depth x q ≡ place_depth x p
      → Keeps finite q m
      → NextLaws finite p (found_next x m)
  unfolding found_next
  found-NextLaws finite p q (ok u, q') same (ne, keeps) = (keeps ∙ same, λ e. no_fault e)
  found-NextLaws finite p q (throws t, q') same (ne, keeps) =
      (keeps ∙ same, λ e. no_fault (sym ne ∙ e))

  next_entry-NextLaws :
      (finite : FiniteLibrary x.library) (options : ArchiveOption) (chain : Chain F)
      (a : Opened x chain) (s : Current x) (m : Loop (calls_of x options chain))
      → FaultsFewer (finite_archive finite (chain_stream x chain) options) a m
      → NextLaws finite (inside options chain a s) (next_entry x options chain a m)
  unfolding next_entry place_depth
  next_entry-NextLaws finite options chain a s none fewer = (refl, λ e. no_fault e)
  next_entry-NextLaws finite options chain a s (some (throws t, a')) fewer = (refl, λ e. fewer e)
  next_entry-NextLaws finite options chain a s (some (ok false, a')) fewer = (refl, λ e. no_fault e)
  next_entry-NextLaws finite options chain a s (some (ok true, a')) fewer =
      found-NextLaws finite (inside options chain a s) (inside options chain a' no_stream) _ refl
        (create_current-Keeps finite _ options chain a' no_stream)

  next-NextLaws :
      (finite : FiniteLibrary x.library) (p : Place x) → NextLaws finite p (next_from x p)
  unfolding next_from
  next-NextLaws finite (outside s) = (refl, λ e. no_fault e)
  next-NextLaws finite (inside options chain a s) =
      next_entry-NextLaws finite options chain a s _
        (skip_to_named-FaultsFewer (finite_archive finite (chain_stream x chain) options) x.fuel a)

  pushed-depth :
      (options : ArchiveOption) (chain : Chain F) (a : Opened x chain) (s : Current x)
      (m : Loop (calls_of x options chain))
      → place_depth x (pushed x options chain a s m).1 ≡ place_depth x (inside options chain a s)
  unfolding pushed place_depth
  pushed-depth options chain a s none = refl
  pushed-depth options chain a s (some (result, a')) = refl

  push-depth : (p : Place x) → place_depth x (push_archive x p).1 ≡ place_depth x p
  unfolding push_archive
  push-depth (outside s) = refl
  push-depth (inside options chain a s) = pushed-depth options chain a s _

  -- The cursor is a stack as `advance` needs it.
  pub stack_cursor-IsStack : FiniteLibrary x.library → IsStack (stack_cursor x)
  unfolding stack_cursor next ascend depth
  stack_cursor-IsStack finite = record {
    left = λ cursor. left_at finite cursor.place;
    ascend_depth = λ cursor. depth_of-ascend cursor.place;
    next_depth = λ cursor. (next-NextLaws finite cursor.place).0;
    eof_depth = λ cursor. push-depth cursor.place;
    next_left = λ cursor f e. (next-NextLaws finite cursor.place).1 (ap is_fault e);
  }

  -- `advance` on the stack of archives ends, if libarchive reads archives of finitely many headers, the
  -- fuel of the loops over headers is above the most headers, and one more, and the rewinds of a
  -- factory's streams do not throw the model's `stuck`: some fuel is enough for its own loop, and
  -- `stuck` is not thrown, so that the loops of the cursor end too. It returns true when `next` has
  -- just returned true, or false when no archive is open, or throws something else than the fault of an
  -- entry; it only adds to the faults dispatched before.
  pub cursor-advance :
      (finite : FiniteLibrary x.library)
      → suc finite.bound < x.fuel
      → ((f : F) (s : C) → IsFree ((x.custom_stream f).rewind s).0)
      → (request : Bool) (o : Orchestrator (Cursor x))
      → (fuel : ℕ) × (m : Act (stack_cursor x) Bool) × (advance (stack_cursor x) fuel request o
          ≡ some m)
        × IsFree m.0
        × EndsWell (stack_cursor x) m
        × Extends (stack_cursor x) o m.1
  cursor-advance finite enough customs request o =
      let (fuel, m, done) =
        advance-Finishes (stack_cursor x) (stack_cursor-IsStack finite) request o in
      let never = stack_cursor-NeverStuck x finite enough customs in
      let free =
        subst (ActFree (stack_cursor x) never) done
          (advance-ActFree (stack_cursor x) never fuel request o) in
      let outcome =
        subst (AdvancesFrom (stack_cursor x) o) done
          (advance-Advances (stack_cursor x) fuel request o) in
      (fuel, m, done, free, outcome.0, outcome.1)
