-- ===== src/Orchestrator/Shrinking.antt =====
-- Each round of `advance` of src/archive_stack_orchestrator.cc takes away a group that waits, or else a
-- level of the stack, or else an entry of the current archive.
use archive_r.Orchestrator.Rounds.{
  IsStack, waiting, Before, After, RoundAfter, catches-After, Pended, pending-Pended, leave-After,
}
use mathlib.Core.Path.{subst}
use archive_r.Base.{
  ◌<◌, ◌≡◌, refl, ap, sym, ◌⊎◌, inl, inr, Bool, true, false, Bool-cases, ◌==◌, arith,
}
use archive_r.Fault.{
  EntryFault, Exception, entry_fault, invalid_argument, logic_error, Result, ok, throws,
}
use archive_r.Orchestrator.{
  CursorOps, Orchestrator, Act, move_head, dispatch_fault, depth, Round, ends, again, catches,
  pending_or, leave_archive, after_next, try_next, advance_round,
}

module _ {K : Type 0} (ops : CursorOps K) (stack : IsStack ops) where
  Pended-Before :
      (o o₁ : Orchestrator K) (m : Act ops Bool)
      → Before ops stack o o₁
      → Pended ops stack o₁ m
      → Before ops stack o m.1
  Pended-Before o o₁ m (inl less) (inl fewer) = inl (omega arith)
  Pended-Before o o₁ m (inr (same, level)) (inl fewer) = inl (omega arith)
  Pended-Before o o₁ m before (inr e) = subst (λ t. Before ops stack o t.1) (sym e) before

  abbrev is_true : Act ops Bool → Bool
  is_true (ok b, o) = b
  is_true (throws e, o) = false

  true-ne-false : {A : Type 0} → true ≡ false → A
  true-ne-false e = absurd (ground arith)

  -- A turn to a group that waits takes one away.
  Pended-fewer :
      (o o₁ o₂ : Orchestrator K)
      → Before ops stack o o₁
      → Pended ops stack o₁ (ok true, o₂)
      → waiting ops stack o₂ < waiting ops stack o
  Pended-fewer o o₁ o₂ (inl less) (inl fewer) = omega arith
  Pended-fewer o o₁ o₂ (inr (same, level)) (inl fewer) = omega arith
  Pended-fewer o o₁ o₂ before (inr e) = true-ne-false (ap is_true e)

  first-After :
      (o o₁ : Orchestrator K) (m : Act ops Bool)
      → 0 < ops.cursor_depth o.head
      → Before ops stack o o₁
      → Pended ops stack o₁ m
      → RoundAfter ops stack o (pending_or ops (leave_archive ops) m)
  unfolding pending_or dispatch_fault
  first-After o o₁ (ok true, o₂) deep before pended = inl (Pended-fewer o o₁ o₂ before pended)
  first-After o o₁ (ok false, o₂) deep before pended =
      leave-After ops stack o o₂ deep (Pended-Before o o₁ (ok false, o₂) before pended)
  first-After o o₁ (throws e, o₂) deep before pended =
      catches-After ops stack o o₂ (leave_archive ops) e (λ f.
        leave-After ops stack o (dispatch_fault ops f o₂) deep
          (Pended-Before o o₁ (throws e, o₂) before pended))

  -- What a round leaves when another one follows.
  abbrev pub Smaller : Orchestrator K → Orchestrator K → Type 0
  Smaller o o₁ =
      After ops stack o o₁
      ⊎ ((waiting ops stack o₁ ≡ waiting ops stack o)
          × (ops.cursor_depth o₁.head ≡ ops.cursor_depth o.head)
          × (stack.left o₁.head < stack.left o.head))

  abbrev pub RoundSmaller : Orchestrator K → Round ops → Type 0
  RoundSmaller o (ends m) = Unit {0}
  RoundSmaller o (again o₁) = Smaller o o₁

  After-Smaller : (o : Orchestrator K) (r : Round ops) → RoundAfter ops stack o r → RoundSmaller o r
  After-Smaller o (ends m) after = tt
  After-Smaller o (again o₁) after = inl after

  thrown-Smaller :
      (o : Orchestrator K) (k : K) (e : Exception)
      → ops.cursor_depth k ≡ ops.cursor_depth o.head
      → ((f : EntryFault) → e ≡ entry_fault f → stack.left k < stack.left o.head)
      → RoundSmaller o (catches ops again e (move_head k o))
  unfolding catches dispatch_fault
  thrown-Smaller o k (entry_fault f) level fewer = inr (refl, level, fewer f refl)
  thrown-Smaller o k (invalid_argument message) level fewer = tt
  thrown-Smaller o k (logic_error message) level fewer = tt
  thrown-Smaller o k Exception.undefined level fewer = tt
  thrown-Smaller o k Exception.stuck level fewer = tt
  thrown-Smaller o k Exception.filesystem_error level fewer = tt

  after_next-Smaller :
      (o : Orchestrator K) (m : Result Bool × K)
      → 0 < ops.cursor_depth o.head
      → ops.cursor_depth m.1 ≡ ops.cursor_depth o.head
      → ((f : EntryFault) → m.0 ≡ throws (entry_fault f) → stack.left m.1 < stack.left o.head)
      → RoundSmaller o (after_next ops (m.0, move_head m.1 o))
  unfolding after_next
  after_next-Smaller o (ok true, k) deep level fewer = tt
  after_next-Smaller o (ok false, k) deep level fewer = After-Smaller o _ (
      first-After o (move_head k o) _ deep (inr (refl, level))
        (pending-Pended ops stack (move_head k o)))
  after_next-Smaller o (throws e, k) deep level fewer =
      thrown-Smaller o k e level (λ f e'. fewer f (ap throws e'))

  pub round-Smaller : (o : Orchestrator K) → RoundSmaller o (advance_round ops false o)
  unfolding advance_round try_next depth
  round-Smaller o = elim (Bool-cases (ops.cursor_depth o.head == 0)) [
    | inl e ↦ rw e tt
    | inr e ↦ rw e (
        after_next-Smaller o (ops.next o.head) (ground (arith, e)) (stack.next_depth o.head)
          (stack.next_left o.head))
  ]
