-- ===== src/Orchestrator/Outcomes.antt =====
-- How `advance` of src/archive_stack_orchestrator.cc ends: what its results mean, what it throws, and
-- that what it dispatches is only added to what was dispatched.
use archive_r.Base.{
  ℕ, zero, suc, ◌≡◌, refl, ap, sym, ◌∙◌, Bool, true, false, Bool-cases, inl, inr, Option, none,
  some, List, [], ◌∷◌, ◌++◌, append-nil, append_assoc, ◌==◌, ==_iff, if◌then◌else◌,
}
use archive_r.HierarchyUtils.{pathhierarchy_is_multivolume}
use archive_r.Fault.{
  EntryFault, Exception, entry_fault, invalid_argument, logic_error, Result, ok, throws,
}
use archive_r.VolumeManager.{Popped, no_group, popped, fault, pop_multi_volume_group}
use archive_r.Orchestrator.{
  CursorOps, Orchestrator, Act, move_head, filled_fault, dispatch_fault, depth, then_descend,
  as_true, open_root_hierarchy, enter_group, current_hierarchy, descend_pending_multi_volumes,
  Round, ends, again, catches, pushed_to_eof, push_to_eof, pending_or, leave_archive, after_next,
  try_next, after_descend, advance_round, continue_round, advance,
}

-- An exception that `advance` lets through.
abbrev pub Escapes : Exception → Type 0
Escapes (entry_fault f) = ⊥
Escapes (invalid_argument message) = Unit {0}
Escapes (logic_error message) = Unit {0}
Escapes Exception.undefined = Unit {0}
Escapes Exception.stuck = Unit {0}
Escapes Exception.filesystem_error = Unit {0}

module _ {K : Type 0} (ops : CursorOps K) where
  -- Only faults were added at the end of those that were dispatched.
  abbrev pub Extends : Orchestrator K → Orchestrator K → Type 0
  Extends o o' = (more : List EntryFault) × (o'.dispatched ≡ o.dispatched ++ more)

  -- True: `next` has just returned true. False: no archive is left. No fault of an entry is thrown.
  abbrev pub EndsWell : Act ops Bool → Type 0
  EndsWell (ok true, o) = (k : K) × (ops.next k ≡ (ok true, o.head))
  EndsWell (ok false, o) = depth ops o ≡ 0
  EndsWell (throws e, o) = Escapes e

  abbrev RoundFrom : Orchestrator K → Round ops → Type 0
  RoundFrom o (ends m) = EndsWell m × Extends o m.1
  RoundFrom o (again o') = Extends o o'

  stays : (o : Orchestrator K) → Extends o o
  stays o = ([], sym (append-nil o.dispatched))

  Extends-trans : (o o₁ o₂ : Orchestrator K) → Extends o o₁ → Extends o₁ o₂ → Extends o o₂
  Extends-trans o o₁ o₂ (first, e) (later, e') =
      (first ++ later, e' ∙ ap (λ t. t ++ later) e ∙ append_assoc o.dispatched first later)

  dispatch-Extends : (f : EntryFault) (o : Orchestrator K) → Extends o (dispatch_fault ops f o)
  unfolding dispatch_fault
  dispatch-Extends f o = (filled_fault ops f o ∷ [], refl)

  catches-RoundFrom :
      (o o₁ : Orchestrator K) (goes_on : Orchestrator K → Round ops) (e : Exception)
      → Extends o o₁
      → ((o₂ : Orchestrator K) → Extends o o₂ → RoundFrom o (goes_on o₂))
      → RoundFrom o (catches ops goes_on e o₁)
  unfolding catches
  catches-RoundFrom o o₁ goes_on (entry_fault f) h rec =
      rec (dispatch_fault ops f o₁)
        (Extends-trans o o₁ (dispatch_fault ops f o₁) h (dispatch-Extends f o₁))
  catches-RoundFrom o o₁ goes_on (invalid_argument message) h rec = (tt, h)
  catches-RoundFrom o o₁ goes_on (logic_error message) h rec = (tt, h)
  catches-RoundFrom o o₁ goes_on Exception.undefined h rec = (tt, h)
  catches-RoundFrom o o₁ goes_on Exception.stuck h rec = (tt, h)
  catches-RoundFrom o o₁ goes_on Exception.filesystem_error h rec = (tt, h)

  pushed-RoundFrom :
      (o : Orchestrator K) (m : Act ops Bool) → Extends o m.1 → RoundFrom o (pushed_to_eof ops m)
  unfolding pushed_to_eof
  pushed-RoundFrom o (ok b, o₁) h = h
  pushed-RoundFrom o (throws e, o₁) h = catches-RoundFrom o o₁ again e h (λ o₂ h₂. h₂)

  pending_or-RoundFrom :
      (o : Orchestrator K) (otherwise : Orchestrator K → Round ops) (m : Act ops Bool)
      → Extends o m.1
      → ((o₂ : Orchestrator K) → Extends o o₂ → RoundFrom o (otherwise o₂))
      → RoundFrom o (pending_or ops otherwise m)
  unfolding pending_or
  pending_or-RoundFrom o otherwise (ok true, o₁) h rec = h
  pending_or-RoundFrom o otherwise (ok false, o₁) h rec = rec o₁ h
  pending_or-RoundFrom o otherwise (throws e, o₁) h rec = catches-RoundFrom o o₁ otherwise e h rec

  as_true-dispatched : (m : Act ops Bool) → (as_true ops m).1.dispatched ≡ m.1.dispatched
  unfolding as_true
  as_true-dispatched (ok b, o) = refl
  as_true-dispatched (throws e, o) = refl

  descend-dispatched : (m : Act ops Bool) → (then_descend ops m).1.dispatched ≡ m.1.dispatched
  unfolding then_descend
  descend-dispatched (ok b, o) = refl
  descend-dispatched (throws e, o) = refl

  -- A turn to the groups that wait dispatches nothing.
  enter-dispatched :
      (o : Orchestrator K) (p : Popped) → (enter_group ops o p).1.dispatched ≡ o.dispatched
  unfolding enter_group open_root_hierarchy
  enter-dispatched o no_group = refl
  enter-dispatched o fault = refl
  enter-dispatched o (popped target) =
      let m : Act ops Bool =
        ((ops.synchronize target o.head).0, move_head (ops.synchronize target o.head).1 o) in
      as_true-dispatched (then_descend ops m) ∙ descend-dispatched m

  pending-Extends :
      (o o₁ : Orchestrator K) → Extends o o₁ → Extends o (descend_pending_multi_volumes ops o₁).1
  unfolding descend_pending_multi_volumes
  pending-Extends o o₁ (more, e) =
      let (found, rest) = pop_multi_volume_group (current_hierarchy ops o₁) o₁.groups in
      (more, enter-dispatched (record o₁ { groups = rest }) found ∙ e)

  leave-RoundFrom : (o o₁ : Orchestrator K) → Extends o o₁ → RoundFrom o (leave_archive ops o₁)
  unfolding leave_archive push_to_eof
  leave-RoundFrom o o₁ h =
      let above = move_head (ops.ascend o₁.head).1 o₁ in
      elim (Bool-cases (pathhierarchy_is_multivolume (ops.entry_hierarchy o₁.head))) [
        | inl e ↦ rw e (
            pending_or-RoundFrom o _ (descend_pending_multi_volumes ops above)
              (pending-Extends o above h) (λ o₂ h₂. pushed-RoundFrom o _ h₂))
        | inr e ↦ rw e h
      ]

  after_next-RoundFrom :
      (o o₁ : Orchestrator K) (k : K) (m : Result Bool × K)
      → ops.next k ≡ m
      → Extends o o₁
      → RoundFrom o (after_next ops (m.0, move_head m.1 o₁))
  unfolding after_next
  after_next-RoundFrom o o₁ k (ok true, k') e h = ((k, e), h)
  after_next-RoundFrom o o₁ k (ok false, k') e h =
      pending_or-RoundFrom o _ _ (pending-Extends o (move_head k' o₁) h) (leave-RoundFrom o)
  after_next-RoundFrom o o₁ k (throws x, k') e h =
      catches-RoundFrom o (move_head k' o₁) again x h (λ o₂ h₂. h₂)

  try_next-RoundFrom : (o o₁ : Orchestrator K) → Extends o o₁ → RoundFrom o (try_next ops o₁)
  unfolding try_next
  try_next-RoundFrom o o₁ h = after_next-RoundFrom o o₁ o₁.head (ops.next o₁.head) refl h

  after_descend-RoundFrom :
      (o : Orchestrator K) (m : Act ops Bool) → Extends o m.1 → RoundFrom o (after_descend ops m)
  unfolding after_descend
  after_descend-RoundFrom o (ok b, o₁) h = try_next-RoundFrom o o₁ h
  after_descend-RoundFrom o (throws e, o₁) h = catches-RoundFrom o o₁ again e h (λ o₂ h₂. h₂)

  advance_round-RoundFrom :
      (request : Bool) (o : Orchestrator K) → RoundFrom o (advance_round ops request o)
  unfolding advance_round
  advance_round-RoundFrom request o = elim (Bool-cases (depth ops o == 0)) [
    | inl e ↦ rw e ((==_iff (depth ops o) 0).0 e, stays o)
    | inr e ↦ rw e (asked request)
  ]
    where
      asked :
          (b : Bool)
          → RoundFrom o (
              if b
              then after_descend ops ((ops.descend o.head).0, move_head (ops.descend o.head).1 o)
              else try_next ops o)
      asked true = after_descend-RoundFrom o _ (stays o)
      asked false = try_next-RoundFrom o o (stays o)

  -- What a call of `advance` may come to.
  abbrev pub AdvancesFrom : Orchestrator K → Option (Act ops Bool) → Type 0
  AdvancesFrom o none = Unit {0}
  AdvancesFrom o (some m) = EndsWell m × Extends o m.1

  Advances-trans :
      (o o₁ : Orchestrator K) (m : Option (Act ops Bool))
      → Extends o o₁
      → AdvancesFrom o₁ m
      → AdvancesFrom o m
  Advances-trans o o₁ none h at = tt
  Advances-trans o o₁ (some m) h (well, more) = (well, Extends-trans o o₁ m.1 h more)

  continue-Advances :
      (o : Orchestrator K) (next : Orchestrator K → Option (Act ops Bool)) (r : Round ops)
      → RoundFrom o r
      → ((o₁ : Orchestrator K) → AdvancesFrom o₁ (next o₁))
      → AdvancesFrom o (continue_round ops next r)
  unfolding continue_round
  continue-Advances o next (ends m) h rec = h
  continue-Advances o next (again o₁) h rec = Advances-trans o o₁ (next o₁) h (rec o₁)

  -- What `advance` does on any cursor, with any faults on the way, unless the model's fuel runs out: it
  -- returns true only with a cursor whose `next` has just returned true, and false only when no archive is
  -- open; what it throws is no fault of an entry; and the faults dispatched before stay, with new ones
  -- behind them.
  pub advance-Advances :
      (fuel : ℕ) (request : Bool) (o : Orchestrator K) → AdvancesFrom o (advance ops fuel request o)
  unfolding advance
  advance-Advances zero request o = tt
  advance-Advances (suc fuel) request o =
      continue-Advances o (advance ops fuel false) _ (advance_round-RoundFrom request o)
        (advance-Advances fuel false)
