-- ===== src/Orchestrator/Ending.antt =====
-- The loop of `advance` of src/archive_stack_orchestrator.cc ends.
use mathlib.Core.Path.{subst}
use archive_r.Base.{ℕ, zero, suc, ◌<◌, ◌≡◌, refl, ◌∙◌, ◌⊎◌, inl, inr, Bool, false, some, arith}
use archive_r.Orchestrator.{
  CursorOps, Orchestrator, Act, Round, ends, again, advance_round, continue_round, advance,
}
use archive_r.Orchestrator.Rounds.{IsStack, waiting}
use archive_r.Orchestrator.Shrinking.{Smaller, RoundSmaller, round-Smaller}

module _ {K : Type 0} (ops : CursorOps K) (stack : IsStack ops) where
  -- Some fuel is enough for the loop from here.
  abbrev Finishes : Bool → Orchestrator K → Type 0
  Finishes request o = (fuel : ℕ) × (m : Act ops Bool) × (advance ops fuel request o ≡ some m)

  round-Finishes :
      (request : Bool) (o : Orchestrator K) (r : Round ops)
      → advance_round ops request o ≡ r
      → ((o₁ : Orchestrator K) → r ≡ again o₁ → Finishes false o₁)
      → Finishes request o
  unfolding advance continue_round
  round-Finishes request o (ends m) e rec = (1, m, rw e refl)
  round-Finishes request o (again o₁) e rec =
      let (fuel, m, done) = rec o₁ refl in (suc fuel, m, rw e done)

  Smaller-Finishes :
      (groups levels : ℕ) (o o₁ : Orchestrator K)
      → waiting ops stack o ≡ groups
      → ops.cursor_depth o.head ≡ levels
      → Smaller ops stack o o₁
      → ((o₂ : Orchestrator K)
          → (waiting ops stack o₂ < groups)
            ⊎ ((waiting ops stack o₂ ≡ groups) × (ops.cursor_depth o₂.head < levels))
          → Finishes false o₂)
      → (waiting ops stack o₁ ≡ groups
          → ops.cursor_depth o₁.head ≡ levels
          → stack.left o₁.head < stack.left o.head
          → Finishes false o₁)
      → Finishes false o₁
  Smaller-Finishes groups levels o o₁ same level (inl (inl fewer)) rec here =
      rec o₁ (inl (omega arith))
  Smaller-Finishes groups levels o o₁ same level (inl (inr (same₁, less))) rec here =
      rec o₁ (inr (same₁ ∙ same, omega arith))
  Smaller-Finishes groups levels o o₁ same level (inr (same₁, level₁, less)) rec here =
      here (same₁ ∙ same) (level₁ ∙ level) less

  finish_left :
      (bound groups levels : ℕ) (o : Orchestrator K)
      → waiting ops stack o ≡ groups
      → ops.cursor_depth o.head ≡ levels
      → stack.left o.head < bound
      → ((o₁ : Orchestrator K)
          → (waiting ops stack o₁ < groups)
            ⊎ ((waiting ops stack o₁ ≡ groups) × (ops.cursor_depth o₁.head < levels))
          → Finishes false o₁)
      → Finishes false o
  finish_left zero groups levels o same level within rec = absurd (omega arith)
  finish_left (suc bound) groups levels o same level within rec =
      round-Finishes false o (advance_round ops false o) refl (λ o₁ e.
        Smaller-Finishes groups levels o o₁ same level
          (subst (RoundSmaller ops stack o) e (round-Smaller ops stack o)) rec
          (λ same₁ level₁ less. finish_left bound groups levels o₁ same₁ level₁ (omega arith) rec))

  finish_depth :
      (bound groups : ℕ) (o : Orchestrator K)
      → waiting ops stack o ≡ groups
      → ops.cursor_depth o.head < bound
      → ((o₁ : Orchestrator K) → waiting ops stack o₁ < groups → Finishes false o₁)
      → Finishes false o
  finish_depth zero groups o same within rec = absurd (omega arith)
  finish_depth (suc bound) groups o same within rec =
      finish_left (suc (stack.left o.head)) groups (ops.cursor_depth o.head) o same refl
        (omega arith)
        (λ o₁ less. elim less [
          | inl fewer ↦ rec o₁ fewer
          | inr (same₁, lower) ↦ finish_depth bound groups o₁ same₁ (omega arith) rec
        ])

  finish_groups : (bound : ℕ) (o : Orchestrator K) → waiting ops stack o < bound → Finishes false o
  finish_groups zero o within = absurd (omega arith)
  finish_groups (suc bound) o within =
      finish_depth (suc (ops.cursor_depth o.head)) (waiting ops stack o) o refl (omega arith)
        (λ o₁ fewer. finish_groups bound o₁ (omega arith))

  -- `advance` ends, whatever the faults on the way: some fuel is enough for the loop.
  pub advance-Finishes :
      (request : Bool) (o : Orchestrator K)
      → (fuel : ℕ) × (m : Act ops Bool) × (advance ops fuel request o ≡ some m)
  advance-Finishes request o =
      round-Finishes request o (advance_round ops request o) refl
        (λ o₁ e. finish_groups (suc (waiting ops stack o₁)) o₁ (omega arith))
