-- ===== src/StackCursor/Moves/Levels.antt =====
-- What descend, ascend and next of src/archive_stack_cursor.cc do to the hierarchies of a nested stack.
use archive_r.Base.{
  ◌≡◌, ◌≢◌, refl, sym, ap, ◌∙◌, Bool, true, false, Bool-cases, not, inl, inr, ℕ, zero, suc, Option,
  none, some, [], ◌∷◌, ◌++◌, Text, ◌==◌, length, arith, if◌then◌else◌,
}
use archive_r.Hierarchy.{single, PathHierarchy, is_empty, append_single}
use archive_r.Fault.{Result, ok, throws}
use archive_r.VolumeStream.Parts.{Config, Stream}
use archive_r.ArchiveReader.Handle.{LibArchive, Archive}
use archive_r.ArchiveReader.{Loop, Step, skip_to_next_header}
use archive_r.StreamArchive.{ArchiveOption}
use archive_r.PayloadStream.{make_payload}
use archive_r.StackCursor.{
  Context, Root, Chain, root, nested, RootState, Opened, calls_of, RootStream, Current, no_stream,
  payload, at_root, Place, outside, inside, entry_hierarchy, root_hierarchy, source_hierarchy,
  stream_hierarchy,
}
use archive_r.StackCursor.Moves.{
  Move, placed_root, placed_payload, make_root, create_current, entered_root, descend_root,
  entered_payload, descend_payload, descend_from, ascend_from, next_entry, next_from, found_next,
  back_to, named_round, skip_to_named,
}
use archive_r.StackCursor.Moves.Nesting.{
  Reports, Below, NestedChain, IsNested, archive_hierarchy, NestedIn, Outcome, CreatedAt,
  create_current-CreatedAt,
}

-- An entry that a search stops at has a name.
abbrev IsNamed : {W E : Type 0} → Option (Result Bool × Archive W E) → Type 0
IsNamed (some (ok true, a)) = is_empty a.current_entryname ≡ false
IsNamed (some (ok false, a)) = Unit {0}
IsNamed (some (throws e, a)) = Unit {0}
IsNamed none = Unit {0}

false-ne-true : false ≢ true
false-ne-true e = ground arith

nonempty : (name : Text) → is_empty name ≡ false → name ≢ []
nonempty [] e h = ground arith
nonempty (b ∷ name) e h = ground arith

module _ {W E : Type 0} (lib : LibArchive W E) where
  round-IsNamed :
      (next : Archive W E → Loop lib) (a : Archive W E) (b : Bool)
      → is_empty a.current_entryname ≡ b
      → ((c : Archive W E) → IsNamed (next c))
      → IsNamed (if not b then some (ok true, a) else next a)
  round-IsNamed next a true e rec = rec a
  round-IsNamed next a false e rec = e

  named_round-IsNamed :
      (next : Archive W E → Loop lib) (m : Step lib Bool)
      → ((a : Archive W E) → IsNamed (next a))
      → IsNamed (named_round lib next m)
  unfolding named_round
  named_round-IsNamed next (throws e, a) rec = tt
  named_round-IsNamed next (ok false, a) rec = tt
  named_round-IsNamed next (ok true, a) rec =
      round-IsNamed next a (is_empty a.current_entryname) refl rec

  skip_to_named-IsNamed : (fuel : ℕ) (a : Archive W E) → IsNamed (skip_to_named lib fuel a)
  unfolding skip_to_named
  skip_to_named-IsNamed zero a = tt
  skip_to_named-IsNamed (suc fuel) a =
      named_round-IsNamed (skip_to_named lib fuel) (skip_to_next_header lib a)
        (skip_to_named-IsNamed fuel)

module _ {H E W F C : Type 0} (x : Context H E W F C) where
  -- After a descent the archive is that of the stream; when it throws, the stream is still current.
  abbrev pub DescendedFrom : Place x → Move x Bool → Type 0
  DescendedFrom p =
      Outcome x (λ b q. IsNested x q × (some (archive_hierarchy x q) ≡ stream_hierarchy x p))
        (λ q. NestedIn x (archive_hierarchy x p) q × (stream_hierarchy x q ≡ stream_hierarchy x p))

  entered_root-Descended :
      (snapshot : ArchiveOption) (r : Root F) (s : RootState x r)
      (m : Result (Unit {0}) × Opened x (root r))
      → Below x [] (root_hierarchy x r)
      → DescendedFrom
          (outside (some (r, s)))
          (entered_root x snapshot r (λ s'. outside (some (r, s'))) m)
  unfolding entered_root stream_hierarchy source_hierarchy
  entered_root-Descended snapshot r s (ok _, a) below = ((below, tt), refl)
  entered_root-Descended snapshot r s (throws e, a) below = ((below, refl), refl)

  entered_payload-Descended :
      (snapshot options : ArchiveOption) (c : Config) (chain : Chain F) (p : Place x)
      (m : Result (Unit {0}) × Opened x (nested c options chain))
      → Below x (source_hierarchy x chain) c.logical_path
      → NestedChain x chain
      → archive_hierarchy x p ≡ source_hierarchy x chain
      → stream_hierarchy x p ≡ some c.logical_path
      → DescendedFrom p (entered_payload x snapshot options c chain m)
  unfolding entered_payload back_to stream_hierarchy source_hierarchy
  entered_payload-Descended snapshot options c chain p (ok _, a) below deeper above here =
      (((below, deeper), tt), sym here)
  entered_payload-Descended snapshot options c chain p (throws e, a) below deeper above here =
      (((deeper, below), sym above), sym here)

  descend_payload-Descended :
      (snapshot options : ArchiveOption) (c : Config) (chain : Chain F) (p : Place x)
      (m : Result (Unit {0}) × Stream (Opened x chain))
      → Below x (source_hierarchy x chain) c.logical_path
      → NestedChain x chain
      → archive_hierarchy x p ≡ source_hierarchy x chain
      → stream_hierarchy x p ≡ some c.logical_path
      → DescendedFrom p (descend_payload x snapshot options c chain m)
  unfolding descend_payload back_to stream_hierarchy
  descend_payload-Descended snapshot options c chain p (ok _, s) below deeper above here =
      entered_payload-Descended snapshot options c chain p _ below deeper above here
  descend_payload-Descended snapshot options c chain p (throws e, s) below deeper above here =
      (((deeper, below), sym above), sym here)

  -- Descending from a nested stack keeps it nested. If `descend` returns, the current archive is that of
  -- the stream that was current; if it throws, the archive is the same and the stream is still current.
  pub descend-Descended :
      (snapshot : ArchiveOption) (p : Place x)
      → IsNested x p
      → DescendedFrom p (descend_from x snapshot p)
  unfolding descend_from descend_root stream_hierarchy
  descend-Descended snapshot (outside none) nested_lem = ((tt, refl), refl)
  descend-Descended snapshot (outside (some (r, s))) below =
      entered_root-Descended snapshot r s _ below
  descend-Descended snapshot (inside options chain a no_stream) nested_lem =
      ((nested_lem, refl), refl)
  descend-Descended snapshot (inside options chain a (at_root s)) (deeper, top) = absurd top
  descend-Descended snapshot (inside options chain a (payload c s)) (deeper, below) =
      descend_payload-Descended snapshot options c chain (inside options chain a (payload c s)) _
        below deeper refl refl

  -- After an ascent the archive's stream is current, in the archive that is one entry above.
  abbrev pub AscendedFrom : Place x → Bool × Place x → Type 0
  AscendedFrom (outside s) m = m ≡ (false, outside s)
  AscendedFrom (inside options chain a s) m =
      (m.0 ≡ true)
      × IsNested x m.1
      × (stream_hierarchy x m.1 ≡ some (source_hierarchy x chain))
      × Below x (archive_hierarchy x m.1) (source_hierarchy x chain)

  -- Ascending from a nested stack: without an archive it returns false and changes nothing. With one it
  -- returns true, the stack is nested, the stream of that archive is current, and the archive's hierarchy is
  -- one entry below that of the archive that is current then.
  pub ascend-Ascended : (p : Place x) → IsNested x p → AscendedFrom p (ascend_from x p)
  unfolding ascend_from back_to stream_hierarchy source_hierarchy
  ascend-Ascended (outside s) nested_lem = refl
  ascend-Ascended (inside options (root r) a s) (below, top) = (refl, below, refl, below)
  ascend-Ascended (inside options (nested c outer chain) a s) ((below, deeper), top) =
      (refl, (deeper, below), refl, below)

  -- After `next` the archive is the same; an entry that is found has a name, and its stream is current.
  abbrev pub NextFrom : Place x → Move x Bool → Type 0
  NextFrom p =
      Outcome x
        (λ b q.
          NestedIn x (archive_hierarchy x p) q
          × (b ≡ true
              → (name : Text) × (name ≢ [])
                × (entry_hierarchy x q ≡ archive_hierarchy x p ++ single name ∷ [])
                × (stream_hierarchy x q ≡ some (entry_hierarchy x q))))
        (NestedIn x (archive_hierarchy x p))

  -- A stream that is made inside an archive leaves the archive where it is.
  placed_root-entry :
      (options : ArchiveOption) (chain : Chain F) (a : Opened x chain) (s : Current x)
      (m : Result (RootStream x))
      → entry_hierarchy x
          (placed_root x (inside options chain a s) (λ r. inside options chain a (at_root r)) m).1
        ≡ entry_hierarchy x (inside options chain a s)
  unfolding placed_root entry_hierarchy
  placed_root-entry options chain a s (throws e) = refl
  placed_root-entry options chain a s (ok r) = refl

  placed_payload-entry :
      (options : ArchiveOption) (chain : Chain F) (a : Opened x chain) (s : Current x)
      (m : Result (Config × Stream (Unit {0})))
      → entry_hierarchy x (placed_payload x options chain a s m).1
        ≡ entry_hierarchy x (inside options chain a s)
  unfolding placed_payload entry_hierarchy
  placed_payload-entry options chain a s (throws e) = refl
  placed_payload-entry options chain a s (ok r) = refl

  create_current-entry :
      (h : PathHierarchy) (options : ArchiveOption) (chain : Chain F) (a : Opened x chain)
      (s : Current x)
      → entry_hierarchy x (create_current x h (inside options chain a s)).1
        ≡ entry_hierarchy x (inside options chain a s)
  unfolding create_current
  create_current-entry h options chain a s = elim (Bool-cases (length h == 1)) [
    | inl one ↦ rw one (placed_root-entry options chain a s (make_root x h))
    | inr many ↦ rw many (placed_payload-entry options chain a s (make_payload h))
  ]

  found_next-Next :
      (p : Place x) (name : Text) (h : PathHierarchy) (m : Move x (Unit {0}))
      → name ≢ []
      → h ≡ archive_hierarchy x p ++ single name ∷ []
      → entry_hierarchy x m.1 ≡ h
      → CreatedAt x (archive_hierarchy x p) h m
      → NextFrom p (found_next x m)
  unfolding found_next
  found_next-Next p name h (throws e, q) named split entry created = created
  found_next-Next p name h (ok u, q) named split entry (nested_lem, here) =
      (nested_lem, λ t. (name, named, entry ∙ split, here ∙ ap some (sym entry)))

  -- The entry of an archive that stands at a name.
  entry-named :
      (options : ArchiveOption) (chain : Chain F) (a : Opened x chain)
      → is_empty a.current_entryname ≡ false
      → entry_hierarchy x (inside options chain a no_stream)
        ≡ source_hierarchy x chain ++ single a.current_entryname ∷ []
  unfolding entry_hierarchy append_single
  entry-named options chain a named = rw named refl

  next_entry-Next :
      Reports x
      → (options : ArchiveOption) (chain : Chain F) (a b : Opened x chain) (s : Current x)
        (m : Loop (calls_of x options chain))
      → NestedChain x chain
      → IsNamed m
      → NextFrom (inside options chain b s) (next_entry x options chain a m)
  unfolding next_entry
  next_entry-Next reports options chain a b s none deeper named = ((deeper, tt), refl)
  next_entry-Next reports options chain a b s (some (throws e, a')) deeper named =
      ((deeper, tt), refl)
  next_entry-Next reports options chain a b s (some (ok false, a')) deeper named =
      (((deeper, tt), refl), λ t. absurd (false-ne-true t))
  next_entry-Next reports options chain a b s (some (ok true, a')) deeper named =
      let here = entry-named options chain a' named in
      found_next-Next (inside options chain b s) a'.current_entryname _ _
        (nonempty a'.current_entryname named) here
        (create_current-entry _ options chain a' no_stream)
        (create_current-CreatedAt x reports _ (inside options chain a' no_stream) (deeper, tt)
          (single a'.current_entryname, here))

  -- `next` on a nested stack, when a factory's streams report the hierarchy that they were made for: the
  -- stack stays nested and the archive the same, also when it throws. If it returns true, the current
  -- entry's hierarchy is the archive's with one more name, which is not empty, and the current stream is that
  -- of the entry.
  pub next-Next : Reports x → (p : Place x) → IsNested x p → NextFrom p (next_from x p)
  unfolding next_from
  next-Next reports (outside s) nested_lem = ((nested_lem, refl), λ t. absurd (false-ne-true t))
  next-Next reports (inside options chain a s) (deeper, top) =
      next_entry-Next reports options chain a a s _ deeper
        (skip_to_named-IsNamed (calls_of x options chain) x.fuel a)
