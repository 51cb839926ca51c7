-- ===== src/EntryImpl/Descent.antt =====
-- Whether an entry of src/entry.cc can still be told to descend after it was read.
use mathlib.Core.Path.{subst}
use archive_r.Base.{
  ℕ, ◌≡◌, refl, ap, sym, ◌∙◌, Bool, true, false, ◌&&◌, not, none, some, List, [], ◌∷◌, codes, ◌==◌,
  if◌then◌else◌,
}
use archive_r.Fault.{EntryFault, Result, ok, throws}
use archive_r.VolumeStream.Parts.{PartRead, bytes, failed}
use archive_r.EntryImpl.{
  Orchestrators, Impl, emitted_fault, set_descent, Ensured, synchronized, open_detached,
  keep_or_open, ensure_held, ensure_orchestrator, delivered, refused, raised, ReadOutcome,
  after_read, after_ensure, read,
}

either_way :
    {A : Type 0} (b idle : Bool) (x y : A)
    → b ≡ not idle
    → (if not b then x else y) ≡ (if idle then x else y)
either_way b true x y e = ap (λ c. if not c then x else y) e
either_way b false x y e = ap (λ c. if not c then x else y) e

module _ {W R P : Type 0} (os : Orchestrators W R P) where
  -- Whether an orchestrator that was found is the traverser's.
  abbrev IsShared : Bool → Ensured os → Type 0
  IsShared shared (throws x, e, w, faults) = Unit
  IsShared shared (ok none, e, w, faults) = Unit
  IsShared shared (ok (some r), e, w, faults) = e.shares_traverser_orchestrator ≡ shared

  -- The same of an entry that was read.
  abbrev ReadShared : Bool → ReadOutcome os → Type 0
  ReadShared shared (delivered bs, e, w, faults) = e.shares_traverser_orchestrator ≡ shared
  ReadShared shared (refused, e, w, faults) = Unit
  ReadShared shared (raised x, e, w, faults) = Unit

  synchronized-IsShared :
      (r : R) (e : Impl R P) (res : Result Bool × W × List EntryFault)
      → IsShared false (synchronized os r e res)
  unfolding synchronized
  synchronized-IsShared r e (throws x, w, faults) = tt
  synchronized-IsShared r e (ok false, w, faults) = tt
  synchronized-IsShared r e (ok true, w, faults) = refl

  keep_or_open-IsShared :
      (idle : Bool) (r : R) (e : Impl R P) (w : W)
      → e.shares_traverser_orchestrator ≡ true
      → IsShared (not idle) (keep_or_open os idle r e w)
  unfolding keep_or_open open_detached
  keep_or_open-IsShared true r e w shared =
      synchronized-IsShared _
        (record e { orchestrator = none; shares_traverser_orchestrator = false }) _
  keep_or_open-IsShared false r e w shared = shared

  after_read-ReadShared :
      (before : List EntryFault) (e : Impl R P) (res : Result PartRead × W × List EntryFault)
      (shared : Bool)
      → e.shares_traverser_orchestrator ≡ shared
      → ReadShared shared (after_read os before e res)
  unfolding after_read
  after_read-ReadShared before e (throws x, w, faults) shared same = tt
  after_read-ReadShared before e (ok (failed n), w, faults) shared same = tt
  after_read-ReadShared before e (ok (bytes bs), w, faults) shared same = same

  after_ensure-ReadShared :
      (len : ℕ) (x : Ensured os) (shared : Bool)
      → IsShared shared x
      → ReadShared shared (after_ensure os len x)
  unfolding after_ensure
  after_ensure-ReadShared len (throws x, e, w, faults) shared same = tt
  after_ensure-ReadShared len (ok none, e, w, faults) shared same = tt
  after_ensure-ReadShared len (ok (some r), e, w, faults) shared same =
      after_read-ReadShared faults e _ shared same

  -- The orchestrator is the traverser's, and at depth 0 or not.
  read-ReadShared :
      (len : ℕ) (e : Impl R P) (r : R) (w : W)
      → e.orchestrator ≡ some r
      → e.shares_traverser_orchestrator ≡ true
      → ReadShared (not (os.stack_depth r w == 0)) (read os len e w)
  unfolding read ensure_orchestrator ensure_held
  read-ReadShared len e r w held shared =
      let idle = os.stack_depth r w == 0 in
      let ensured : ensure_held os e.orchestrator e w ≡ keep_or_open os idle r e w =
        ap (λ o. ensure_held os o e w) held ∙ ap (λ b. keep_or_open os (b && idle) r e w) shared in
      subst (λ x. ReadShared (not idle) (after_ensure os len x)) (sym ensured)
        (after_ensure-ReadShared len _ (not idle) (keep_or_open-IsShared idle r e w shared))

  -- After a read that delivers, of an entry that shares the traverser's orchestrator: if that was at depth 0,
  -- so that the entry lies in the file system, `set_descent` changes nothing and dispatches a fault; at any
  -- other depth it sets the flag.
  pub read-set_descent :
      (len : ℕ) (enabled : Bool) (e e' : Impl R P) (r : R) (w w' : W) (bs : List ℕ)
      (faults : List EntryFault)
      → e.orchestrator ≡ some r
      → e.shares_traverser_orchestrator ≡ true
      → read os len e w ≡ (delivered bs, e', w', faults)
      → set_descent os enabled e' ≡ (
          if os.stack_depth r w == 0
          then (
            e',
            emitted_fault os e' (codes "set_descent requires traverser-managed orchestrator") ∷ [],
          )
          else (record e' { descend_enabled = enabled }, []))
  unfolding set_descent
  read-set_descent len enabled e e' r w w' bs faults held shared run =
      let same : e'.shares_traverser_orchestrator ≡ not (os.stack_depth r w == 0) =
        subst (ReadShared (not (os.stack_depth r w == 0))) run
          (read-ReadShared len e r w held shared) in
      either_way e'.shares_traverser_orchestrator (os.stack_depth r w == 0) _ _ same
