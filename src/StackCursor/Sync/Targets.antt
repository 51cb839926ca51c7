-- ===== src/StackCursor/Sync/Targets.antt =====
-- `synchronize_to_hierarchy` of src/archive_stack_cursor.cc and its target: where the cursor stands
-- when it returns or throws.
use archive_r.StackCursor.Sync.Finds.{
  StandsAt, find_stream-At, found_stream-In, Reached, found_stream-Reached, Arrives, and_then_end,
  and_then-Arrives,
}
use archive_r.StackCursor.Sync.Ascents.{IsOpen, IsAlong, ascend_inside-Above}
use mathlib.Core.Path.{subst}
use archive_r.Base.{
  suc, ◌-◌, ◌≡◌, ◌≢◌, refl, sym, ap, ◌∙◌, ◌⊎◌, inl, inr, Bool, true, false, not, [], ◌∷◌, ◌++◌,
  append_assoc, append-nil, ltb, length, length-append, arith,
}
use archive_r.Hierarchy.{PathEntry, PathHierarchy, is_empty, pathhierarchy_prefix_until}
use archive_r.Hierarchy.Slices.{prefix_until-append}
use archive_r.Fault.{ok, throws}
use archive_r.StreamArchive.{ArchiveOption}
use archive_r.StackCursor.{Context, Place, outside, inside, place_depth}
use archive_r.StackCursor.Moves.{Move}
use archive_r.StackCursor.Moves.Nesting.{
  Reports, Below, IsNested, archive_hierarchy, NestedIn, Outcome, depth-length,
}
use archive_r.StackCursor.Sync.{ascend_to_common, find_stream, descend_to, synchronize_place}

module _ {H E W F C : Type 0} (x : Context H E W F C) where
  -- The part of the target that a round at the depth of `above` looks for.
  round_prefix :
      (above rest : PathHierarchy) (e : PathEntry)
      → pathhierarchy_prefix_until (above ++ e ∷ rest) (length above) ≡ above ++ e ∷ []
  round_prefix above rest e =
      ap (λ t. pathhierarchy_prefix_until t (length above)) (sym (append_assoc above (e ∷ []) rest))
      ∙ prefix_until-append (above ++ e ∷ []) rest (length above)
          (omega (arith, length-append above (e ∷ [])))

  round_last :
      (above rest : PathHierarchy) (e : PathEntry)
      → ltb (length above) (length (above ++ e ∷ rest) - 1) ≡ not (is_empty rest)
  round_last above [] e = ground (arith, length-append above (e ∷ []))
  round_last above (e' ∷ rest) e = ground (arith, length-append above (e ∷ e' ∷ rest))

  find_stream-In :
      Reports x
      → (above h : PathHierarchy) (p : Place x) → NestedIn x above p
      → Below x above h
      → Outcome x (λ u q. StandsAt x above h q) (NestedIn x above) (find_stream x h p)
  find_stream-In reports above h p (nested_lem, inside_lem) below =
      subst (λ t. Outcome x (λ u q. StandsAt x t h q) (NestedIn x t) (find_stream x h p)) inside_lem
        (find_stream-At x reports h p nested_lem (subst (λ t. Below x t h) (sym inside_lem) below))

  descend_to-Arrives :
      Reports x
      → (rest above : PathHierarchy) (e : PathEntry) (snapshot : ArchiveOption) (p : Place x)
      → NestedIn x above p
      → Arrives x
          (above ++ e ∷ rest)
          (descend_to x (suc (length rest)) (length above) (above ++ e ∷ rest) snapshot p)
  unfolding descend_to
  descend_to-Arrives reports [] above e snapshot p at = rw (round_last above [] e) (
      rw (round_prefix above [] e) (
        and_then_end x (above ++ e ∷ []) _ (
          found_stream-Reached x above (above ++ e ∷ []) snapshot _ (e, refl)
            (find_stream-In reports above (above ++ e ∷ []) p at (e, refl)))))
  descend_to-Arrives reports (e' ∷ rest) above e snapshot p at =
      let target = above ++ e ∷ e' ∷ rest in
      let h = above ++ e ∷ [] in
      let below : Below x above h = (e, refl) in
      let deeper : length h ≡ suc (length above) = omega (arith, length-append above (e ∷ [])) in
      let later : (q : Place x)
          → NestedIn x h q
          → Arrives x target
              (descend_to x (suc (length rest)) (suc (length above)) target snapshot q) =
        λ q at'.
          subst (λ d. Arrives x target (descend_to x (suc (length rest)) d target snapshot q))
            deeper
            (subst (λ t. Arrives x t (descend_to x (suc (length rest)) (length h) t snapshot q))
              (append_assoc above (e ∷ []) (e' ∷ rest))
              (descend_to-Arrives reports rest h e' snapshot q at')) in
      rw (round_last above (e' ∷ rest) e) (
        rw (round_prefix above (e' ∷ rest) e) (
          and_then-Arrives x h target _ _
            (found_stream-In x above h snapshot _ (find_stream-In reports above h p at below))
            later))

  -- The second loop, for what is left of the target below the archive.
  descend_rest :
      Reports x
      → (rest target : PathHierarchy) (snapshot : ArchiveOption) (p : Place x) → target ≢ []
      → IsNested x p
      → target ≡ archive_hierarchy x p ++ rest
      → Outcome x
          (λ b q. (b ≡ true) × (Reached x target q ⊎ ((q ≡ p) × (archive_hierarchy x p ≡ target))))
          (IsNested x)
          (descend_to x (length rest) (length (archive_hierarchy x p)) target snapshot p)
  unfolding descend_to
  descend_rest reports [] target snapshot p some_lem nested_lem split =
      (refl, inr (refl, sym (split ∙ append-nil (archive_hierarchy x p))))
  descend_rest reports (e ∷ rest) target snapshot p some_lem nested_lem split = arrived _ (
      subst
        (λ t.
          Arrives x t
            (descend_to x (suc (length rest)) (length (archive_hierarchy x p)) t snapshot p))
        (sym split)
        (descend_to-Arrives reports rest (archive_hierarchy x p) e snapshot p (nested_lem, refl)))
    where
      arrived :
          (m : Move x Bool)
          → Arrives x target m
          → Outcome x
              (λ b q.
                (b ≡ true) × (Reached x target q ⊎ ((q ≡ p) × (archive_hierarchy x p ≡ target))))
              (IsNested x)
              m
      arrived (throws e', q) at = at
      arrived (ok b, q) at = (at.0, inl at.1)

  above_IsOpen :
      (target : PathHierarchy) (p : Place x)
      → IsNested x p
      → IsNested x (ascend_to_common x target p)
        × IsAlong x target (ascend_to_common x target p)
        × ((archive_hierarchy x (ascend_to_common x target p) ≡ [])
            ⊎ IsOpen x (archive_hierarchy x (ascend_to_common x target p)) p)
  unfolding ascend_to_common
  above_IsOpen target (outside s) nested_lem = (nested_lem, (target, refl), inl refl)
  above_IsOpen target (inside options chain a s) nested_lem =
      ascend_inside-Above x target options chain a s nested_lem

  -- Where `synchronize_to_hierarchy` may end when it returns.
  abbrev pub EndsAt : PathHierarchy → Place x → Place x → Type 0
  EndsAt target p q =
      Reached x target q ⊎ (IsNested x q × (archive_hierarchy x q ≡ target) × IsOpen x target p)

  was_open :
      (target : PathHierarchy) (p q : Place x)
      → target ≢ []
      → IsNested x q
      → (archive_hierarchy x q ≡ []) ⊎ IsOpen x (archive_hierarchy x q) p
      → archive_hierarchy x q ≡ target
      → EndsAt target p q
  was_open target p q some_lem nested_lem (inl none_lem) e = absurd (some_lem (sym e ∙ none_lem))
  was_open target p q some_lem nested_lem (inr open_lem) e =
      inr (nested_lem, e, subst (λ t. IsOpen x t p) e open_lem)

  end-EndsAt :
      (target : PathHierarchy) (p above : Place x) (m : Move x Bool)
      → (archive_hierarchy x above ≡ target → EndsAt target p above)
      → Outcome x
          (λ b q.
            (b ≡ true)
            × (Reached x target q ⊎ ((q ≡ above) × (archive_hierarchy x above ≡ target))))
          (IsNested x)
          m
      → Outcome x (λ b q. (b ≡ true) × EndsAt target p q) (IsNested x) m
  end-EndsAt target p above (throws e, q) ends at = at
  end-EndsAt target p above (ok b, q) ends (true_lem, inl reached) = (true_lem, inl reached)
  end-EndsAt target p above (ok b, q) ends (true_lem, inr (same, e)) =
      (true_lem, subst (EndsAt target p) (sym same) (ends e))

  is_empty_ne : (h : PathHierarchy) → h ≢ [] → is_empty h ≡ false
  is_empty_ne [] ne = absurd (ne refl)
  is_empty_ne (e ∷ h) ne = refl

  -- What `synchronize_to_hierarchy` does on a nested stack with a target that is not empty, when a
  -- factory's streams report the hierarchy that they were made for. It throws, or it returns true: then
  -- the stream of the target is current, in the archive one entry above; or the target is itself the
  -- source of an archive that was open, and that archive is current. The stack is nested in all cases.
  pub synchronize-Reached :
      Reports x
      → (target : PathHierarchy) (snapshot : ArchiveOption) (p : Place x) → target ≢ []
      → IsNested x p
      → Outcome x
          (λ b q. (b ≡ true) × EndsAt target p q)
          (IsNested x)
          (synchronize_place x target snapshot p)
  unfolding synchronize_place
  synchronize-Reached reports target snapshot p some_lem nested_lem =
      let above = ascend_to_common x target p in
      let (nested_above, (rest, split), opened) = above_IsOpen target p nested_lem in
      let rounds : length target - place_depth x above ≡ length rest = omega (
        arith,
        ap length split,
        length-append (archive_hierarchy x above) rest,
        depth-length x above nested_above,
      ) in
      rw (is_empty_ne target some_lem) (
        rw rounds (
          rw (sym (depth-length x above nested_above)) (
            end-EndsAt target p above _ (was_open target p above some_lem nested_above opened)
              (descend_rest reports rest target snapshot above some_lem nested_above split))))
