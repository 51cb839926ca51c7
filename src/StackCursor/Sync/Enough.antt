-- ===== src/StackCursor/Sync/Enough.antt =====
-- Fuel in `synchronize_to_hierarchy` of src/archive_stack_cursor.cc, from the searches of the reader to the
-- whole call.
use archive_r.Base.{
  ℕ, zero, suc, ◌-◌, ◌<◌, ◌≡◌, refl, Bool, true, false, not, Option, none, some, ◌==◌, ltb, length,
  if◌then◌else◌,
}
use archive_r.Hierarchy.{PathHierarchy, is_empty, pathhierarchy_prefix_until}
use archive_r.HierarchyUtils.{pathhierarchy_volume_size}
use archive_r.Fault.{Exception, Result, ok, throws, make_entry_fault_error}
use archive_r.VolumeStream.Parts.{Config, Stream, make_stream}
use archive_r.SystemFileStream.{SystemFile}
use archive_r.ArchiveReader.Fuel.{is_stuck, IsFree, either-IsFree}
use archive_r.StreamArchive.{ArchiveOption}
use archive_r.PayloadStream.{make_payload}
use archive_r.StackCursor.{
  Context, Root, Chain, root, nested, attach, RootState, Opened, root_stream, chain_stream,
  RootStream, Current, no_stream, payload, at_root, Place, outside, inside, place_depth,
  stream_hierarchy,
}
use archive_r.StackCursor.Moves.{
  Move, as_root, system_root, root_or_system, make_root, placed_root, placed_payload,
  create_current, entered_root, descend_root, entered_payload, descend_payload, descend_from,
}
use archive_r.StackCursor.Operations.Finite.{FiniteLibrary}
use archive_r.StackCursor.Sync.{
  rewound_root, rewound_payload, rewind_current, rewind_created, is_at, find_stream, found_stream,
  and_then, descend_to, ascend_to_common, synchronize_place,
}
use archive_r.StackCursor.Sync.Fuel.{made-IsFree, chain_rewind-IsFree, root_rewind-IsFree}

guarded-IsFree :
    {A : Type 0} (b : Bool) (e : Exception) (a : A)
    → is_stuck e ≡ false
    → IsFree (if b then throws e else ok a)
guarded-IsFree true e a free = free
guarded-IsFree false e a free = tt

make_stream-IsFree :
    {B : Type 0} (h : PathHierarchy) (seeks : Bool) (device : B)
    → IsFree (make_stream h seeks device)
unfolding make_stream
make_stream-IsFree h seeks device = guarded-IsFree (pathhierarchy_volume_size h == 0) _ _ refl

module _ {H E W F C : Type 0} (x : Context H E W F C) where
  as_root-IsFree : (m : Result (Config × Stream (SystemFile W))) → IsFree m → IsFree (as_root x m)
  unfolding as_root
  as_root-IsFree (ok (c, s)) free = tt
  as_root-IsFree (throws e) free = free

  system_root-IsFree : (h : PathHierarchy) → IsFree (system_root x h)
  unfolding system_root
  system_root-IsFree h = as_root-IsFree _ (make_stream-IsFree h true _)

  root_or_system-IsFree : (h : PathHierarchy) (o : Option (F × C)) → IsFree (root_or_system x h o)
  unfolding root_or_system
  root_or_system-IsFree h none = system_root-IsFree h
  root_or_system-IsFree h (some (f, s)) = tt

  make_root-IsFree : (h : PathHierarchy) → IsFree (make_root x h)
  unfolding make_root
  make_root-IsFree h =
      elim x.factory
        as (λ o.
          IsFree
            (elim o [ none ↦ system_root x h | some factory ↦ root_or_system x h (factory h) ])) [
              | none ↦ system_root-IsFree h
              | some factory ↦ root_or_system-IsFree h (factory h)
            ]

  placed_root-IsFree :
      (before : Place x) (after : RootStream x → Place x) (m : Result (RootStream x))
      → IsFree m
      → IsFree (placed_root x before after m).0
  unfolding placed_root
  placed_root-IsFree before after (ok s) free = tt
  placed_root-IsFree before after (throws e) free = free

  placed_payload-IsFree :
      (options : ArchiveOption) (chain : Chain F) (a : Opened x chain) (s : Current x)
      (m : Result (Config × Stream (Unit {0})))
      → IsFree m
      → IsFree (placed_payload x options chain a s m).0
  unfolding placed_payload
  placed_payload-IsFree options chain a s (ok (c, p)) free = tt
  placed_payload-IsFree options chain a s (throws e) free = free

  pub create_current-IsFree : (h : PathHierarchy) (p : Place x) → IsFree (create_current x h p).0
  unfolding create_current make_payload
  create_current-IsFree h (outside s) =
      either-IsFree (length h == 1) _ _
        (placed_root-IsFree (outside s) (λ r. outside (some r)) (make_root x h)
          (make_root-IsFree h))
        refl
  create_current-IsFree h (inside options chain a s) =
      either-IsFree (length h == 1) _ _
        (placed_root-IsFree (inside options chain a s) (λ r. inside options chain a (at_root r))
          (make_root x h) (make_root-IsFree h))
        (placed_payload-IsFree options chain a s (make_payload h) (make_stream-IsFree h false tt))

  module _ (finite : FiniteLibrary x.library) (enough : suc finite.bound < x.fuel)
      (customs : (f : F) (s : C) → IsFree ((x.custom_stream f).rewind s).0) where
    entered_root-IsFree :
        (snapshot : ArchiveOption) (r : Root F) (before : RootState x r → Place x)
        (m : Result (Unit {0}) × Opened x (root r))
        → IsFree m.0
        → IsFree (entered_root x snapshot r before m).0
    unfolding entered_root
    entered_root-IsFree snapshot r before (ok u, a) free = tt
    entered_root-IsFree snapshot r before (throws e, a) free = free

    descend_root-IsFree :
        (snapshot : ArchiveOption) (r : Root F) (before : RootState x r → Place x)
        (m : Result (Unit {0}) × RootState x r)
        → IsFree m.0
        → IsFree (descend_root x snapshot r before m).0
    unfolding descend_root
    descend_root-IsFree snapshot r before (throws e, s) free = free
    descend_root-IsFree snapshot r before (ok u, s) free =
        entered_root-IsFree snapshot r before _ (made-IsFree x.library (root_stream x r) snapshot s)

    entered_payload-IsFree :
        (snapshot options : ArchiveOption) (c : Config) (chain : Chain F)
        (m : Result (Unit {0}) × Opened x (nested c options chain))
        → IsFree m.0
        → IsFree (entered_payload x snapshot options c chain m).0
    unfolding entered_payload
    entered_payload-IsFree snapshot options c chain (ok u, a) free = tt
    entered_payload-IsFree snapshot options c chain (throws e, a) free = free

    descend_payload-IsFree :
        (snapshot options : ArchiveOption) (c : Config) (chain : Chain F)
        (m : Result (Unit {0}) × Stream (Opened x chain))
        → IsFree m.0
        → IsFree (descend_payload x snapshot options c chain m).0
    unfolding descend_payload
    descend_payload-IsFree snapshot options c chain (throws e, s) free = free
    descend_payload-IsFree snapshot options c chain (ok u, s) free =
        entered_payload-IsFree snapshot options c chain _
          (made-IsFree x.library (chain_stream x (nested c options chain)) snapshot s)

    pub descend-IsFree :
        (snapshot : ArchiveOption) (p : Place x) → IsFree (descend_from x snapshot p).0
    unfolding descend_from
    descend-IsFree snapshot (outside none) = refl
    descend-IsFree snapshot (outside (some (r, s))) =
        descend_root-IsFree snapshot r (λ s'. outside (some (r, s'))) (ok tt, s) tt
    descend-IsFree snapshot (inside options chain a no_stream) = refl
    descend-IsFree snapshot (inside options chain a (at_root (r, s))) =
        descend_root-IsFree snapshot r (λ s'. inside options chain a (at_root (r, s'))) _
          (either-IsFree a.content_ready (ok tt, s) _ tt
            (root_rewind-IsFree x finite enough customs r s))
    descend-IsFree snapshot (inside options chain a (payload c s)) =
        descend_payload-IsFree snapshot options c chain _ (
          either-IsFree a.content_ready (ok tt, attach s a) _ tt
            (chain_rewind-IsFree x finite enough customs (nested c options chain) (attach s a)))

    rewind-IsFree : (p : Place x) → IsFree (rewind_current x p).0
    unfolding rewind_current rewound_root rewound_payload
    rewind-IsFree (outside none) = refl
    rewind-IsFree (outside (some (r, s))) = root_rewind-IsFree x finite enough customs r s
    rewind-IsFree (inside options chain a no_stream) = refl
    rewind-IsFree (inside options chain a (at_root (r, s))) =
        root_rewind-IsFree x finite enough customs r s
    rewind-IsFree (inside options chain a (payload c s)) =
        chain_rewind-IsFree x finite enough customs (nested c options chain) (attach s a)

    created-IsFree : (m : Move x (Unit {0})) → IsFree m.0 → IsFree (rewind_created x m).0
    unfolding rewind_created
    created-IsFree (throws e, p) free = free
    created-IsFree (ok u, p) free = rewind-IsFree p

    find_stream-IsFree : (h : PathHierarchy) (p : Place x) → IsFree (find_stream x h p).0
    unfolding find_stream
    find_stream-IsFree h p =
        either-IsFree (not (is_at x h (stream_hierarchy x p))) _ (ok tt, p)
          (created-IsFree (create_current x h p) (create_current-IsFree h p)) tt

    found_stream-IsFree :
        (last : Bool) (snapshot : ArchiveOption) (m : Move x (Unit {0}))
        → IsFree m.0
        → IsFree (found_stream x last snapshot m).0
    unfolding found_stream
    found_stream-IsFree true snapshot (throws e, p) free = free
    found_stream-IsFree false snapshot (throws e, p) free = free
    found_stream-IsFree true snapshot (ok u, p) free = tt
    found_stream-IsFree false snapshot (ok u, p) free = descend-IsFree snapshot p

    and_then-IsFree :
        (next : Place x → Move x Bool) (m : Move x Bool)
        → IsFree m.0
        → ((p : Place x) → IsFree (next p).0)
        → IsFree (and_then x next m).0
    unfolding and_then
    and_then-IsFree next (throws e, p) free rec = free
    and_then-IsFree next (ok b, p) free rec = rec p

    descend_to-IsFree :
        (rounds d : ℕ) (target : PathHierarchy) (snapshot : ArchiveOption) (p : Place x)
        → IsFree (descend_to x rounds d target snapshot p).0
    unfolding descend_to
    descend_to-IsFree zero d target snapshot p = tt
    descend_to-IsFree (suc rounds) d target snapshot p =
        and_then-IsFree (descend_to x rounds (suc d) target snapshot) _
          (found_stream-IsFree (not (ltb d (length target - 1))) snapshot _
            (find_stream-IsFree (pathhierarchy_prefix_until target d) p))
          (descend_to-IsFree rounds (suc d) target snapshot)

    -- With fuel above the most headers that an archive has, and one more, and streams of a factory whose
    -- rewinds do not throw the model's `stuck`, `synchronize_to_hierarchy` does not throw it either: its loops
    -- over headers end, on every level of the stack.
    pub synchronize-IsFree :
        (target : PathHierarchy) (snapshot : ArchiveOption) (p : Place x)
        → IsFree (synchronize_place x target snapshot p).0
    unfolding synchronize_place make_entry_fault_error
    synchronize-IsFree target snapshot p = either-IsFree (is_empty target) _ _ refl (
        descend_to-IsFree (length target - place_depth x (ascend_to_common x target p))
          (place_depth x (ascend_to_common x target p)) target snapshot
          (ascend_to_common x target p))
