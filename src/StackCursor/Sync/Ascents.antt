-- ===== src/StackCursor/Sync/Ascents.antt =====
-- The first loop of `synchronize_to_hierarchy` of src/archive_stack_cursor.cc: the archive, on the way to
-- the target, where the ascent stops.
use archive_r.Base.{
  ℕ, suc, ◌+◌, ◌≤◌, ◌≡◌, refl, sym, ap, ◌∙◌, ◌⊎◌, inl, inr, Bool, true, false, ◌&&◌, [], ◌++◌, leb,
  length, drop, take-append-drop, arith, if◌then◌else◌,
}
use archive_r.Hierarchy.{PathHierarchy, hierarchies_equal, pathhierarchy_prefix_until}
use archive_r.Hierarchy.Order.{hierarchies_equal_iff}
use archive_r.Hierarchy.Slices.{prefix_until-eq-take}
use archive_r.VolumeStream.Parts.{Config}
use archive_r.StreamArchive.{ArchiveOption}
use archive_r.StackCursor.{
  Context, Chain, root, nested, attach, Opened, Current, payload, Place, outside, inside,
  root_hierarchy, source_hierarchy,
}
use archive_r.StackCursor.Moves.{ascend_from, released}
use archive_r.StackCursor.Moves.Nesting.{NestedChain, IsNested, archive_hierarchy, positive}
use archive_r.StackCursor.Sync.{last_index, is_common, ascend_inside}

module _ {H E W F C : Type 0} (x : Context H E W F C) where
  -- One of the chain's streams has this hierarchy.
  abbrev pub HasStream : PathHierarchy → Chain F → Type 0
  HasStream h (root r) = root_hierarchy x r ≡ h
  HasStream h (nested c options chain) = (c.logical_path ≡ h) ⊎ HasStream h chain

  -- An archive of the stack is read from the stream of this hierarchy.
  abbrev pub IsOpen : PathHierarchy → Place x → Type 0
  IsOpen h (outside s) = ⊥
  IsOpen h (inside options chain a s) = HasStream h chain

  -- The current archive is on the way to the target.
  abbrev pub IsAlong : PathHierarchy → Place x → Type 0
  IsAlong target q = (rest : PathHierarchy) × (target ≡ archive_hierarchy x q ++ rest)

  and_true : (a b : Bool) → (a && b) ≡ true → (a ≡ true) × (b ≡ true)
  and_true true true e = (refl, refl)
  and_true true false e = absurd (ground arith)
  and_true false b e = absurd (ground arith)

  prefix_Along :
      (target h : PathHierarchy) (n : ℕ)
      → length h ≡ suc n
      → length h ≤ length target
      → h ≡ pathhierarchy_prefix_until target (last_index (length h))
      → (rest : PathHierarchy) × (target ≡ h ++ rest)
  prefix_Along target h n size within e = (
    drop (n + 1) target,
    sym (take-append-drop (n + 1) target)
        ∙ ap (λ t. t ++ drop (n + 1) target)
            (sym (e ∙ (rw size (prefix_until-eq-take target n (omega arith))))),
  )

  is_common-Along :
      (target : PathHierarchy) (chain : Chain F)
      → NestedChain x chain
      → is_common x target chain ≡ true
      → (rest : PathHierarchy) × (target ≡ source_hierarchy x chain ++ rest)
  unfolding is_common
  is_common-Along target chain deeper e =
      let h = source_hierarchy x chain in
      let (n, size) = positive x chain deeper in
      let prefix = pathhierarchy_prefix_until target (last_index (length h)) in
      let both = and_true (leb (length h) (length target)) (hierarchies_equal h prefix) e in
      prefix_Along target h n size (ground (arith, both.0))
        ((hierarchies_equal_iff h prefix).0 both.1)

  HasStream-source : (chain : Chain F) → HasStream (source_hierarchy x chain) chain
  unfolding source_hierarchy
  HasStream-source (root r) = refl
  HasStream-source (nested c options chain) = inl refl

  -- What the first loop leaves.
  abbrev pub Above : PathHierarchy → Chain F → Place x → Type 0
  Above target chain q =
      IsNested x q
      × IsAlong target q
      × ((archive_hierarchy x q ≡ []) ⊎ HasStream (archive_hierarchy x q) chain)

  Above-deeper :
      (target : PathHierarchy) (c : Config) (options : ArchiveOption) (chain : Chain F)
      (q : Place x)
      → Above target chain q
      → Above target (nested c options chain) q
  Above-deeper target c options chain q (nested_lem, along, inl none_lem) =
      (nested_lem, along, inl none_lem)
  Above-deeper target c options chain q (nested_lem, along, inr open_lem) =
      (nested_lem, along, inr (inr open_lem))

  Above-here :
      (target : PathHierarchy) (options : ArchiveOption) (chain : Chain F) (a : Opened x chain)
      (s : Current x)
      → IsNested x (inside options chain a s)
      → is_common x target chain ≡ true
      → Above target chain (inside options chain a s)
  Above-here target options chain a s (deeper, top) e =
      ((deeper, top), is_common-Along target chain deeper e, inr (HasStream-source chain))

  Above-either :
      (target : PathHierarchy) (chain : Chain F) (b : Bool) (p q : Place x)
      → (b ≡ true → Above target chain p)
      → Above target chain q
      → Above target chain (if b then p else q)
  Above-either target chain true p q here above = here refl
  Above-either target chain false p q here above = above

  pub ascend_inside-Above :
      (target : PathHierarchy) (options : ArchiveOption) (chain : Chain F) (a : Opened x chain)
      (s : Current x)
      → IsNested x (inside options chain a s)
      → Above target chain (ascend_inside x target options chain a s)
  unfolding ascend_inside ascend_from
  ascend_inside-Above target options (root r) a s nested_lem =
      Above-either target (root r) (is_common x target (root r)) (inside options (root r) a s) _
        (Above-here target options (root r) a s nested_lem) (nested_lem.0, (target, refl), inl refl)
  ascend_inside-Above target options (nested c outer chain) a s nested_lem =
      let left = released x options (nested c outer chain) a in
      let rec =
        ascend_inside-Above target outer chain left.device (payload c (attach left tt))
          (nested_lem.0.1, nested_lem.0.0) in
      Above-either target (nested c outer chain) (is_common x target (nested c outer chain))
        (inside options (nested c outer chain) a s) _
        (Above-here target options (nested c outer chain) a s nested_lem)
        (Above-deeper target c outer chain _ rec)
