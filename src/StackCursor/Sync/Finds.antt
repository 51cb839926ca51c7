-- ===== src/StackCursor/Sync/Finds.antt =====
-- One round of the second loop of `synchronize_to_hierarchy` of src/archive_stack_cursor.cc: the stream that
-- is current after it.
use archive_r.Base.{
  ◌≡◌, refl, sym, ap, ◌∙◌, inl, inr, Bool, true, false, Bool-cases, Option, none, some, [], ◌∷◌,
  ◌++◌, arith,
}
use archive_r.Hierarchy.{PathHierarchy}
use archive_r.Hierarchy.Order.{hierarchies_equal_iff}
use archive_r.Fault.{ok, throws}
use archive_r.StreamArchive.{ArchiveOption}
use archive_r.StackCursor.{
  Context, no_stream, payload, at_root, Place, outside, inside, stream_hierarchy,
}
use archive_r.StackCursor.Moves.{Move, create_current, back_to}
use archive_r.StackCursor.Moves.Nesting.{
  Reports, Below, IsNested, archive_hierarchy, NestedIn, Outcome, CreatedAt,
  create_current-CreatedAt,
}
use archive_r.StackCursor.Moves.Levels.{DescendedFrom, descend-Descended}
use archive_r.StackCursor.Sync.{
  rewound_root, rewound_payload, rewind_current, rewind_created, is_at, find_stream, found_stream,
  and_then,
}

abbrev or_empty : Option PathHierarchy → PathHierarchy
or_empty none = []
or_empty (some h) = h

module _ {H E W F C : Type 0} (x : Context H E W F C) where
  rewind-At :
      (p : Place x) (h : PathHierarchy)
      → IsNested x p
      → stream_hierarchy x p ≡ some h
      → NestedIn x (archive_hierarchy x p) (rewind_current x p).1
        × (stream_hierarchy x (rewind_current x p).1 ≡ some h)
  unfolding rewind_current rewound_root rewound_payload back_to stream_hierarchy
  rewind-At (outside none) h nested_lem here = ((nested_lem, refl), here)
  rewind-At (outside (some (r, s))) h nested_lem here = ((nested_lem, refl), here)
  rewind-At (inside options chain a no_stream) h nested_lem here = ((nested_lem, refl), here)
  rewind-At (inside options chain a (at_root s)) h (deeper, top) here = absurd top
  rewind-At (inside options chain a (payload c s)) h (deeper, top) here =
      (((deeper, top), refl), here)

  -- A place in this archive, with the stream of the hierarchy.
  abbrev pub StandsAt : PathHierarchy → PathHierarchy → Place x → Type 0
  StandsAt above h q = NestedIn x above q × (stream_hierarchy x q ≡ some h)

  rewind_created-At :
      (above h : PathHierarchy) (m : Move x (Unit {0}))
      → CreatedAt x above h m
      → Outcome x (λ u q. StandsAt above h q) (NestedIn x above) (rewind_created x m)
  unfolding rewind_created
  rewind_created-At above h (throws e, q) created = created
  rewind_created-At above h (ok u, q) ((nested_lem, inside_lem), here) =
      rewound-At (rewind_current x q) (rewind-At q h nested_lem here)
    where
      rewound-At :
          (m : Move x (Unit {0}))
          → NestedIn x (archive_hierarchy x q) m.1 × (stream_hierarchy x m.1 ≡ some h)
          → Outcome x (λ u q. StandsAt above h q) (NestedIn x above) m
      rewound-At (throws e, q') (stays, here') = (stays.0, stays.1 ∙ inside_lem)
      rewound-At (ok u', q') (stays, here') = ((stays.0, stays.1 ∙ inside_lem), here')

  is_at-eq : (h : PathHierarchy) (o : Option PathHierarchy) → is_at x h o ≡ true → o ≡ some h
  unfolding is_at
  is_at-eq h none e = absurd (ground arith)
  is_at-eq h (some current) e = ap some ((hierarchies_equal_iff current h).0 e)

  pub find_stream-At :
      Reports x
      → (h : PathHierarchy) (p : Place x) → IsNested x p
      → Below x (archive_hierarchy x p) h
      → Outcome x
          (λ u q. StandsAt (archive_hierarchy x p) h q)
          (NestedIn x (archive_hierarchy x p))
          (find_stream x h p)
  unfolding find_stream
  find_stream-At reports h p nested_lem below =
      elim (Bool-cases (is_at x h (stream_hierarchy x p))) [
        | inl e ↦ rw e ((nested_lem, refl), is_at-eq h _ e)
        | inr e ↦ rw e (
            rewind_created-At (archive_hierarchy x p) h (create_current x h p)
              (create_current-CreatedAt x reports h p nested_lem below))
      ]

  descended-In :
      (h : PathHierarchy) (p : Place x) (m : Move x Bool)
      → stream_hierarchy x p ≡ some h
      → DescendedFrom x p m
      → Outcome x (λ b q. NestedIn x h q) (IsNested x) m
  descended-In h p (throws e, q) here (stays, same) = stays.0
  descended-In h p (ok b, q) here (nested_lem, there) = (nested_lem, ap or_empty (there ∙ here))

  -- A round that is not the last one enters the archive of the hierarchy.
  pub found_stream-In :
      (above h : PathHierarchy) (snapshot : ArchiveOption) (m : Move x (Unit {0}))
      → Outcome x (λ u q. StandsAt above h q) (NestedIn x above) m
      → Outcome x (λ b q. NestedIn x h q) (IsNested x) (found_stream x false snapshot m)
  unfolding found_stream
  found_stream-In above h snapshot (throws e, q) at = at.0
  found_stream-In above h snapshot (ok u, q) ((nested_lem, inside_lem), here) =
      descended-In h q _ here (descend-Descended x snapshot q nested_lem)

  -- Where the cursor stands when the target is reached.
  abbrev pub Reached : PathHierarchy → Place x → Type 0
  Reached target q =
      IsNested x q × Below x (archive_hierarchy x q) target × (stream_hierarchy x q ≡ some target)

  -- A round whose stream is the target.
  pub found_stream-Reached :
      (above target : PathHierarchy) (snapshot : ArchiveOption) (m : Move x (Unit {0}))
      → Below x above target
      → Outcome x (λ u q. StandsAt above target q) (NestedIn x above) m
      → Outcome x
          (λ b q. (b ≡ true) × Reached target q)
          (IsNested x)
          (found_stream x true snapshot m)
  unfolding found_stream
  found_stream-Reached above target snapshot (throws e, q) below at = at.0
  found_stream-Reached above target snapshot (ok u, q) (e, split) ((nested_lem, inside_lem), here) =
      (refl, (nested_lem, (e, split ∙ ap (λ t. t ++ e ∷ []) (sym inside_lem)), here))

  abbrev pub Arrives : PathHierarchy → Move x Bool → Type 0
  Arrives target = Outcome x (λ b q. (b ≡ true) × Reached target q) (IsNested x)

  pub and_then_end :
      (target : PathHierarchy) (m : Move x Bool)
      → Arrives target m
      → Arrives target (and_then x (λ p. (ok true, p)) m)
  unfolding and_then
  and_then_end target (throws e, q) at = at
  and_then_end target (ok b, q) at = (refl, at.1)

  pub and_then-Arrives :
      (h target : PathHierarchy) (next : Place x → Move x Bool) (m : Move x Bool)
      → Outcome x (λ b q. NestedIn x h q) (IsNested x) m
      → ((q : Place x) → NestedIn x h q → Arrives target (next q))
      → Arrives target (and_then x next m)
  unfolding and_then
  and_then-Arrives h target next (throws e, q) at rec = at
  and_then-Arrives h target next (ok b, q) at rec = rec q at
