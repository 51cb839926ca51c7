-- ===== src/StackCursor/Moves/Nesting.antt =====
-- How the hierarchies of the stack of src/archive_stack_cursor.cc fit together: each stream is one entry below
-- the archive that it reads from, and every move keeps that.
use archive_r.Base.{
  ℕ, suc, ◌≡◌, refl, ap, ◌∙◌, Bool, true, false, Option, none, some, [], ◌∷◌, ◌++◌, ◌==◌, length,
  length-append, arith, if◌then◌else◌,
}
use archive_r.Hierarchy.{PathEntry, PathHierarchy}
use archive_r.HierarchyUtils.{pathhierarchy_volume_size}
use archive_r.Fault.{Exception, Result, ok, throws}
use archive_r.VolumeStream.Parts.{Config, Stream, make_stream}
use archive_r.SystemFileStream.{SystemFile}
use archive_r.StreamArchive.{ArchiveOption}
use archive_r.PayloadStream.{make_payload}
use archive_r.StackCursor.{
  Context, Chain, root, nested, Opened, RootStream, Current, no_stream, payload, at_root, Place,
  outside, inside, root_hierarchy, source_hierarchy, stream_hierarchy, chain_depth, place_depth,
}
use archive_r.StackCursor.Moves.{
  Move, as_root, system_root, root_or_system, make_root, placed_root, placed_payload,
  create_current,
}

-- A stream that is made has the hierarchy that it is made for.
abbrev MadeAt : {B : Type 0} → PathHierarchy → Result (Config × Stream B) → Type 0
MadeAt h (ok (c, s)) = c.logical_path ≡ h
MadeAt h (throws e) = Unit {0}

guarded :
    {B : Type 0} (h : PathHierarchy) (b : Bool) (e : Exception) (m : Result (Config × Stream B))
    → MadeAt h m
    → MadeAt h (if b then throws e else m)
guarded h true e m made = tt
guarded h false e m made = made

make_stream-MadeAt :
    {B : Type 0} (h : PathHierarchy) (seeks : Bool) (device : B)
    → MadeAt h (make_stream h seeks device)
unfolding make_stream
make_stream-MadeAt h seeks device = guarded h (pathhierarchy_volume_size h == 0) _ _ refl

module _ {H E W F C : Type 0} (x : Context H E W F C) where
  -- The streams of the factory report the hierarchy that they were made for.
  abbrev pub Reports : Type 0
  Reports =
      (make : PathHierarchy → Option (F × C)) (h : PathHierarchy) (f : F) (s : C)
      → x.factory ≡ some make
      → make h ≡ some (f, s)
      → x.custom_hierarchy f ≡ h

  -- The hierarchy is one entry below the other.
  abbrev pub Below : PathHierarchy → PathHierarchy → Type 0
  Below above h = (e : PathEntry) × (h ≡ above ++ e ∷ [])

  abbrev pub NestedChain : Chain F → Type 0
  NestedChain (root r) = Below [] (root_hierarchy x r)
  NestedChain (nested c options chain) =
      Below (source_hierarchy x chain) c.logical_path × NestedChain chain

  abbrev pub NestedStream : Chain F → Current x → Type 0
  NestedStream chain no_stream = Unit {0}
  NestedStream chain (payload c s) = Below (source_hierarchy x chain) c.logical_path
  NestedStream chain (at_root s) = ⊥

  abbrev pub IsNested : Place x → Type 0
  IsNested (outside none) = Unit {0}
  IsNested (outside (some (r, s))) = Below [] (root_hierarchy x r)
  IsNested (inside options chain a s) = NestedChain chain × NestedStream chain s

  -- The hierarchy of the current archive.
  abbrev pub archive_hierarchy : Place x → PathHierarchy
  archive_hierarchy (outside s) = []
  archive_hierarchy (inside options chain a s) = source_hierarchy x chain

  -- The place is nested, in an archive of this hierarchy.
  abbrev pub NestedIn : PathHierarchy → Place x → Type 0
  NestedIn h p = IsNested p × (archive_hierarchy p ≡ h)

  -- What holds when a move returns, and what holds when it throws.
  abbrev pub Outcome :
      {A : Type 0} → (A → Place x → Type 0) → (Place x → Type 0) → Move x A → Type 0
  Outcome returned thrown (ok a, p) = returned a p
  Outcome returned thrown (throws e, p) = thrown p

  pub length-Below : (above h : PathHierarchy) → Below above h → length h ≡ suc (length above)
  length-Below above h (e, split) = ap length split ∙ (ground (arith, length-append above (e ∷ [])))

  pub chain_depth-length :
      (chain : Chain F)
      → NestedChain chain
      → length (source_hierarchy x chain) ≡ chain_depth x chain
  unfolding source_hierarchy chain_depth
  chain_depth-length (root r) below = length-Below [] (root_hierarchy x r) below
  chain_depth-length (nested c options chain) (below, deeper) =
      length-Below (source_hierarchy x chain) c.logical_path below
      ∙ ap suc (chain_depth-length chain deeper)

  -- The depth of the cursor is the number of entries of the archive's hierarchy.
  pub depth-length : (p : Place x) → IsNested p → length (archive_hierarchy p) ≡ place_depth x p
  unfolding place_depth
  depth-length (outside s) nested_lem = refl
  depth-length (inside options chain a s) (deeper, top) = chain_depth-length chain deeper

  -- A root stream that `create_stream` makes has the hierarchy that it is made for.
  abbrev RootAt : PathHierarchy → Result (RootStream x) → Type 0
  RootAt h (ok (r, s)) = root_hierarchy x r ≡ h
  RootAt h (throws e) = Unit {0}

  as_root-RootAt :
      (h : PathHierarchy) (m : Result (Config × Stream (SystemFile W)))
      → MadeAt h m
      → RootAt h (as_root x m)
  unfolding as_root root_hierarchy
  as_root-RootAt h (ok (c, s)) made = made
  as_root-RootAt h (throws e) made = tt

  system_root-RootAt : (h : PathHierarchy) → RootAt h (system_root x h)
  unfolding system_root
  system_root-RootAt h = as_root-RootAt h _ (make_stream-MadeAt h true _)

  root_or_system-RootAt :
      (h : PathHierarchy) (o : Option (F × C))
      → ((f : F) (s : C) → o ≡ some (f, s) → x.custom_hierarchy f ≡ h)
      → RootAt h (root_or_system x h o)
  unfolding root_or_system root_hierarchy
  root_or_system-RootAt h none reports = system_root-RootAt h
  root_or_system-RootAt h (some (f, s)) reports = reports f s refl

  make_root-RootAt : Reports → (h : PathHierarchy) → RootAt h (make_root x h)
  unfolding make_root
  make_root-RootAt reports h = factory_RootAt x.factory refl
    where
      factory_RootAt :
          (o : Option (PathHierarchy → Option (F × C)))
          → x.factory ≡ o
          → RootAt h
              (elim o [ none ↦ system_root x h | some factory ↦ root_or_system x h (factory h) ])
      factory_RootAt none e = system_root-RootAt h
      factory_RootAt (some make) e =
          root_or_system-RootAt h (make h) (λ f s found. reports make h f s e found)

  -- What `create_current` leaves: the archive stays, and a stream that is made is the current one.
  abbrev pub CreatedAt : PathHierarchy → PathHierarchy → Move x (Unit {0}) → Type 0
  CreatedAt above h =
      Outcome (λ u q. NestedIn above q × (stream_hierarchy x q ≡ some h)) (NestedIn above)

  placed_root-CreatedAt :
      (h : PathHierarchy) (before : Option (RootStream x)) (m : Result (RootStream x))
      → IsNested (outside before)
      → Below [] h
      → RootAt h m
      → CreatedAt [] h (placed_root x (outside before) (λ r. outside (some r)) m)
  unfolding placed_root stream_hierarchy
  placed_root-CreatedAt h before (throws e) nested_lem below made = (nested_lem, refl)
  placed_root-CreatedAt h before (ok (r, s)) nested_lem (e, split) made =
      (((e, made ∙ split), refl), ap some made)

  placed_payload-CreatedAt :
      (h : PathHierarchy) (options : ArchiveOption) (chain : Chain F) (a : Opened x chain)
      (s : Current x) (m : Result (Config × Stream (Unit {0})))
      → IsNested (inside options chain a s)
      → Below (source_hierarchy x chain) h
      → MadeAt h m
      → CreatedAt (source_hierarchy x chain) h (placed_payload x options chain a s m)
  unfolding placed_payload stream_hierarchy
  placed_payload-CreatedAt h options chain a s (throws e) nested_lem below made = (nested_lem, refl)
  placed_payload-CreatedAt h options chain a s (ok (c, p)) (deeper, top) (e, split) made =
      (((deeper, (e, made ∙ split)), refl), ap some made)

  -- A chain has a source of at least one entry.
  pub positive :
      (chain : Chain F) → NestedChain chain → (n : ℕ) × (length (source_hierarchy x chain) ≡ suc n)
  unfolding source_hierarchy
  positive (root r) below = (0, length-Below [] (root_hierarchy x r) below)
  positive (nested c options chain) (below, deeper) = (
    length (source_hierarchy x chain),
    length-Below (source_hierarchy x chain) c.logical_path below,
  )

  pub create_current-CreatedAt :
      Reports
      → (h : PathHierarchy) (p : Place x) → IsNested p
      → Below (archive_hierarchy p) h
      → CreatedAt (archive_hierarchy p) h (create_current x h p)
  unfolding create_current make_payload
  create_current-CreatedAt reports h (outside s) nested_lem below =
      let one : (length h == 1) ≡ true = ground (arith, length-Below [] h below) in
      rw one
        (placed_root-CreatedAt h s (make_root x h) nested_lem below (make_root-RootAt reports h))
  create_current-CreatedAt reports h (inside options chain a s) nested_lem below =
      let (n, size) = positive chain nested_lem.0 in
      let many : (length h == 1) ≡ false =
        ground (arith, length-Below (source_hierarchy x chain) h below, size) in
      rw many (
        placed_payload-CreatedAt h options chain a s (make_payload h) nested_lem below
          (make_stream-MadeAt h false tt))
