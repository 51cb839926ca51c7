-- ===== src/Orchestrator/Rounds.antt =====
-- What a round of `advance` of src/archive_stack_orchestrator.cc leaves of the groups and of the stack, for a
-- cursor that is a stack of archives.
use mathlib.Core.Path.{subst}
use archive_r.Base.{
  ℕ, ◌-◌, ◌<◌, ◌≡◌, refl, ap, sym, ◌∙◌, ◌⊎◌, inl, inr, Bool, true, false, Bool-cases, arith,
}
use archive_r.HierarchyUtils.{pathhierarchy_is_multivolume}
use archive_r.Fault.{
  EntryFault, Exception, entry_fault, invalid_argument, logic_error, Result, ok, throws,
}
use archive_r.VolumeManager.{
  ParentGroupMap, Popped, no_group, popped, fault, pop_multi_volume_group,
}
use archive_r.VolumeManager.Counting.{count_groups, pop-count}
use archive_r.Orchestrator.{
  CursorOps, Orchestrator, Act, move_head, dispatch_fault, then_descend, as_true,
  open_root_hierarchy, enter_group, current_hierarchy, descend_pending_multi_volumes, Round, ends,
  again, catches, pushed_to_eof, push_to_eof, pending_or, leave_archive,
}

-- What the moves of a cursor do to its depth, and to a number of entries that are left in the current
-- archive: when `next` throws the fault of an entry, there are fewer.
pub record IsStack {K : Type 0} (ops : CursorOps K) : Type 0 where
  pub left : K → ℕ
  pub ascend_depth : (k : K) → ops.cursor_depth (ops.ascend k).1 ≡ ops.cursor_depth k - 1
  pub next_depth : (k : K) → ops.cursor_depth (ops.next k).1 ≡ ops.cursor_depth k
  pub eof_depth : (k : K) → ops.cursor_depth (ops.skip_to_eof k).1 ≡ ops.cursor_depth k
  pub next_left :
      (k : K) (f : EntryFault)
      → (ops.next k).0 ≡ throws (entry_fault f)
      → left (ops.next k).1 < left k

module _ {K : Type 0} (ops : CursorOps K) (stack : IsStack ops) where
  abbrev pub waiting : Orchestrator K → ℕ
  waiting o = count_groups o.groups

  -- A group fewer, or the same groups and the same level.
  abbrev pub Before : Orchestrator K → Orchestrator K → Type 0
  Before o o₁ =
      (waiting o₁ < waiting o)
      ⊎ ((waiting o₁ ≡ waiting o) × (ops.cursor_depth o₁.head ≡ ops.cursor_depth o.head))

  -- A group fewer, or the same groups and a level fewer.
  abbrev pub After : Orchestrator K → Orchestrator K → Type 0
  After o o₁ =
      (waiting o₁ < waiting o)
      ⊎ ((waiting o₁ ≡ waiting o) × (ops.cursor_depth o₁.head < ops.cursor_depth o.head))

  abbrev pub RoundAfter : Orchestrator K → Round ops → Type 0
  RoundAfter o (ends m) = Unit {0}
  RoundAfter o (again o₁) = After o o₁

  pub catches-After :
      (o o₁ : Orchestrator K) (goes_on : Orchestrator K → Round ops) (e : Exception)
      → ((f : EntryFault) → RoundAfter o (goes_on (dispatch_fault ops f o₁)))
      → RoundAfter o (catches ops goes_on e o₁)
  unfolding catches
  catches-After o o₁ goes_on (entry_fault f) rec = rec f
  catches-After o o₁ goes_on (invalid_argument message) rec = tt
  catches-After o o₁ goes_on (logic_error message) rec = tt
  catches-After o o₁ goes_on Exception.undefined rec = tt
  catches-After o o₁ goes_on Exception.stuck rec = tt
  catches-After o o₁ goes_on Exception.filesystem_error rec = tt

  -- `descend_pending_multi_volumes` takes a group away, or returns false and changes nothing.
  as_true-groups : (m : Act ops Bool) → (as_true ops m).1.groups ≡ m.1.groups
  unfolding as_true
  as_true-groups (ok b, o) = refl
  as_true-groups (throws e, o) = refl

  descend-groups : (m : Act ops Bool) → (then_descend ops m).1.groups ≡ m.1.groups
  unfolding then_descend
  descend-groups (ok b, o) = refl
  descend-groups (throws e, o) = refl

  enter-groups : (o : Orchestrator K) (p : Popped) → (enter_group ops o p).1.groups ≡ o.groups
  unfolding enter_group open_root_hierarchy
  enter-groups o no_group = refl
  enter-groups o fault = refl
  enter-groups o (popped target) =
      let m : Act ops Bool =
        ((ops.synchronize target o.head).0, move_head (ops.synchronize target o.head).1 o) in
      as_true-groups (then_descend ops m) ∙ descend-groups m

  abbrev pub Pended : Orchestrator K → Act ops Bool → Type 0
  Pended o m = (waiting m.1 < waiting o) ⊎ (m ≡ (ok false, o))

  enter-Pended :
      (o : Orchestrator K) (found : Popped) (rest : ParentGroupMap)
      → (count_groups rest < waiting o) ⊎ ((found ≡ no_group) × (rest ≡ o.groups))
      → Pended o (enter_group ops (record o { groups = rest }) found)
  unfolding enter_group
  enter-Pended o found rest (inl fewer) = inl (
      subst (λ t. count_groups t < waiting o)
        (sym (enter-groups (record o { groups = rest }) found)) fewer)
  enter-Pended o found rest (inr (none_lem, same)) = inr (
      ap (λ p. enter_group ops (record o { groups = rest }) p) none_lem
      ∙ ap (λ t. (ok false, record o { groups = t })) same)

  pub pending-Pended : (o : Orchestrator K) → Pended o (descend_pending_multi_volumes ops o)
  unfolding descend_pending_multi_volumes
  pending-Pended o =
      let popped_lem = pop_multi_volume_group (current_hierarchy ops o) o.groups in
      enter-Pended o popped_lem.0 popped_lem.1 (pop-count (current_hierarchy ops o) o.groups)

  Pended-After : (o o₁ : Orchestrator K) (m : Act ops Bool) → After o o₁ → Pended o₁ m → After o m.1
  Pended-After o o₁ m (inl less) (inl fewer) = inl (omega arith)
  Pended-After o o₁ m (inr (same, less)) (inl fewer) = inl (omega arith)
  Pended-After o o₁ m after (inr e) = subst (λ t. After o t.1) (sym e) after

  pushed-After :
      (o o₁ : Orchestrator K) (m : Result Bool × K)
      → ops.cursor_depth m.1 ≡ ops.cursor_depth o₁.head
      → After o o₁
      → RoundAfter o (pushed_to_eof ops (m.0, move_head m.1 o₁))
  unfolding pushed_to_eof dispatch_fault
  pushed-After o o₁ (ok b, k) level (inl less) = inl less
  pushed-After o o₁ (ok b, k) level (inr (same, less)) = inr (same, rw level less)
  pushed-After o o₁ (throws e, k) level (inl less) =
      catches-After o (move_head k o₁) again e (λ f. inl less)
  pushed-After o o₁ (throws e, k) level (inr (same, less)) =
      catches-After o (move_head k o₁) again e (λ f. inr (same, rw level less))

  push-After : (o o₁ : Orchestrator K) → After o o₁ → RoundAfter o (push_to_eof ops o₁)
  unfolding push_to_eof
  push-After o o₁ after =
      pushed-After o o₁ (ops.skip_to_eof o₁.head) (stack.eof_depth o₁.head) after

  pending_or-After :
      (o : Orchestrator K) (m : Act ops Bool)
      → After o m.1
      → RoundAfter o (pending_or ops (push_to_eof ops) m)
  unfolding pending_or dispatch_fault
  pending_or-After o (ok true, o₁) after = after
  pending_or-After o (ok false, o₁) after = push-After o o₁ after
  pending_or-After o (throws e, o₁) after =
      catches-After o o₁ (push_to_eof ops) e (λ f. push-After o (dispatch_fault ops f o₁) after)

  above-After :
      (o o₁ : Orchestrator K)
      → 0 < ops.cursor_depth o.head
      → Before o o₁
      → After o (move_head (ops.ascend o₁.head).1 o₁)
  above-After o o₁ deep (inl less) = inl less
  above-After o o₁ deep (inr (same, level)) = inr (same, omega (arith, stack.ascend_depth o₁.head))

  pub leave-After :
      (o o₁ : Orchestrator K)
      → 0 < ops.cursor_depth o.head
      → Before o o₁
      → RoundAfter o (leave_archive ops o₁)
  unfolding leave_archive
  leave-After o o₁ deep before =
      let above = move_head (ops.ascend o₁.head).1 o₁ in
      let after = above-After o o₁ deep before in
      elim (Bool-cases (pathhierarchy_is_multivolume (ops.entry_hierarchy o₁.head))) [
        | inl e ↦ rw e (
            pending_or-After o (descend_pending_multi_volumes ops above)
              (Pended-After o above _ after (pending-Pended above)))
        | inr e ↦ rw e after
      ]
