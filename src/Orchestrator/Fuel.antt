-- ===== src/Orchestrator/Fuel.antt =====
-- Over a cursor whose members never run out of the model's fuel, `advance` of
-- src/archive_stack_orchestrator.cc does not throw for fuel either.
use archive_r.Base.{
  ℕ, zero, suc, ◌≡◌, refl, Bool, true, false, not, Option, none, some, ◌==◌, if◌then◌else◌, arith,
}
use archive_r.Hierarchy.{PathHierarchy}
use archive_r.HierarchyUtils.{pathhierarchy_is_multivolume}
use archive_r.Fault.{Exception, entry_fault, invalid_argument, logic_error, ok, throws}
use archive_r.VolumeManager.{Popped, no_group, popped, fault}
use archive_r.ArchiveReader.Fuel.{is_stuck, IsFree}
use archive_r.Orchestrator.{
  CursorOps, Orchestrator, Act, move_head, dispatch_fault, depth, then_descend, as_true,
  open_root_hierarchy, enter_group, descend_pending_multi_volumes, Round, ends, again, catches,
  pushed_to_eof, push_to_eof, pending_or, leave_archive, after_next, try_next, after_descend,
  advance_round, continue_round, advance,
}

-- No member of the cursor throws that fuel ran out.
pub record NeverStuck {K : Type 0} (ops : CursorOps K) : Type 0 where
  pub descends : (k : K) → IsFree (ops.descend k).0
  pub nexts : (k : K) → IsFree (ops.next k).0
  pub synchronizes : (h : PathHierarchy) (k : K) → IsFree (ops.synchronize h k).0
  pub pushes : (k : K) → IsFree (ops.skip_to_eof k).0

module _ {K : Type 0} (ops : CursorOps K) (cursor : NeverStuck ops) where
  abbrev RoundFree : Round ops → Type 0
  RoundFree (ends m) = IsFree m.0
  RoundFree (again o) = Unit {0}

  either-RoundFree :
      (b : Bool) (r r' : Round ops) → RoundFree r → RoundFree r' → RoundFree (if b then r else r')
  either-RoundFree true r r' free free' = free
  either-RoundFree false r r' free free' = free'

  catches-RoundFree :
      (goes_on : Orchestrator K → Round ops) (e : Exception) (o : Orchestrator K)
      → is_stuck e ≡ false
      → ((o' : Orchestrator K) → RoundFree (goes_on o'))
      → RoundFree (catches ops goes_on e o)
  unfolding catches
  catches-RoundFree goes_on (entry_fault f) o free rec = rec (dispatch_fault ops f o)
  catches-RoundFree goes_on (invalid_argument message) o free rec = refl
  catches-RoundFree goes_on (logic_error message) o free rec = refl
  catches-RoundFree goes_on Exception.undefined o free rec = refl
  catches-RoundFree goes_on Exception.stuck o free rec = absurd (ground arith)
  catches-RoundFree goes_on Exception.filesystem_error o free rec = refl

  pushed-RoundFree : (m : Act ops Bool) → IsFree m.0 → RoundFree (pushed_to_eof ops m)
  unfolding pushed_to_eof
  pushed-RoundFree (ok b, o) free = tt
  pushed-RoundFree (throws e, o) free = catches-RoundFree again e o free (λ o'. tt)

  push-RoundFree : (o : Orchestrator K) → RoundFree (push_to_eof ops o)
  unfolding push_to_eof
  push-RoundFree o = pushed-RoundFree _ (cursor.pushes o.head)

  pending_or-RoundFree :
      (otherwise : Orchestrator K → Round ops) (m : Act ops Bool)
      → IsFree m.0
      → ((o : Orchestrator K) → RoundFree (otherwise o))
      → RoundFree (pending_or ops otherwise m)
  unfolding pending_or
  pending_or-RoundFree otherwise (ok true, o) free rec = tt
  pending_or-RoundFree otherwise (ok false, o) free rec = rec o
  pending_or-RoundFree otherwise (throws e, o) free rec = catches-RoundFree otherwise e o free rec

  then_descend-IsFree : (m : Act ops Bool) → IsFree m.0 → IsFree (then_descend ops m).0
  unfolding then_descend
  then_descend-IsFree (throws e, o) free = free
  then_descend-IsFree (ok b, o) free = cursor.descends o.head

  as_true-IsFree : (m : Act ops Bool) → IsFree m.0 → IsFree (as_true ops m).0
  unfolding as_true
  as_true-IsFree (throws e, o) free = free
  as_true-IsFree (ok b, o) free = tt

  enter-IsFree : (o : Orchestrator K) (found : Popped) → IsFree (enter_group ops o found).0
  unfolding enter_group open_root_hierarchy
  enter-IsFree o no_group = tt
  enter-IsFree o fault = refl
  enter-IsFree o (popped target) =
      as_true-IsFree _ (then_descend-IsFree _ (cursor.synchronizes target o.head))

  pending-IsFree : (o : Orchestrator K) → IsFree (descend_pending_multi_volumes ops o).0
  unfolding descend_pending_multi_volumes
  pending-IsFree o = enter-IsFree _ _

  leave-RoundFree : (o : Orchestrator K) → RoundFree (leave_archive ops o)
  unfolding leave_archive
  leave-RoundFree o =
      let above = move_head (ops.ascend o.head).1 o in
      either-RoundFree (not (pathhierarchy_is_multivolume (ops.entry_hierarchy o.head)))
        (again above) _ tt
        (pending_or-RoundFree (push_to_eof ops) _ (pending-IsFree above) push-RoundFree)

  after_next-RoundFree : (m : Act ops Bool) → IsFree m.0 → RoundFree (after_next ops m)
  unfolding after_next
  after_next-RoundFree (ok true, o) free = tt
  after_next-RoundFree (ok false, o) free =
      pending_or-RoundFree (leave_archive ops) _ (pending-IsFree o) leave-RoundFree
  after_next-RoundFree (throws e, o) free = catches-RoundFree again e o free (λ o'. tt)

  try_next-RoundFree : (o : Orchestrator K) → RoundFree (try_next ops o)
  unfolding try_next
  try_next-RoundFree o = after_next-RoundFree _ (cursor.nexts o.head)

  after_descend-RoundFree : (m : Act ops Bool) → IsFree m.0 → RoundFree (after_descend ops m)
  unfolding after_descend
  after_descend-RoundFree (ok b, o) free = try_next-RoundFree o
  after_descend-RoundFree (throws e, o) free = catches-RoundFree again e o free (λ o'. tt)

  round-RoundFree : (request : Bool) (o : Orchestrator K) → RoundFree (advance_round ops request o)
  unfolding advance_round
  round-RoundFree request o = either-RoundFree (depth ops o == 0) (ends (ok false, o)) _ tt (
      either-RoundFree request _ (try_next ops o)
        (after_descend-RoundFree _ (cursor.descends o.head)) (try_next-RoundFree o))

  abbrev pub ActFree : Option (Act ops Bool) → Type 0
  ActFree none = Unit {0}
  ActFree (some m) = IsFree m.0

  continue-ActFree :
      (next : Orchestrator K → Option (Act ops Bool)) (r : Round ops)
      → RoundFree r
      → ((o : Orchestrator K) → ActFree (next o))
      → ActFree (continue_round ops next r)
  unfolding continue_round
  continue-ActFree next (ends m) free rec = free
  continue-ActFree next (again o) free rec = rec o

  -- What `advance` throws is never that fuel ran out in the cursor.
  pub advance-ActFree :
      (fuel : ℕ) (request : Bool) (o : Orchestrator K) → ActFree (advance ops fuel request o)
  unfolding advance
  advance-ActFree zero request o = tt
  advance-ActFree (suc fuel) request o =
      continue-ActFree (advance ops fuel false) _ (round-RoundFree request o)
        (advance-ActFree fuel false)
