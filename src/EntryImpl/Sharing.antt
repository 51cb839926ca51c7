-- ===== src/EntryImpl/Sharing.antt =====
-- Which orchestrator an entry of src/entry.cc reads through, and what its operations report.
use mathlib.Core.Path.{subst}
use archive_r.Base.{
  ℕ, ◌≡◌, refl, ap, ◌∙◌, ◌⊎◌, inl, inr, List, ◌++◌, codes, Bool, true, false, ◌&&◌, Option, none,
  some, [], ◌∷◌, ◌==◌,
}
use archive_r.Hierarchy.{PathHierarchy}
use archive_r.Fault.{EntryFault, Result, ok, throws}
use archive_r.VolumeStream.Parts.{PartRead, bytes, failed}
use archive_r.EntryImpl.{
  Orchestrators, Impl, emitted_fault, Ensured, synchronized, open_detached, keep_or_open,
  ensure_held, ensure_orchestrator, delivered, refused, raised, ReadOutcome, after_read,
  after_ensure, read,
}

module _ {W R P : Type 0} (os : Orchestrators W R P) where
  -- The entry would get the same orchestrator again, without a change.
  abbrev Stays : Ensured os → Type 0
  Stays (throws x, e, w, faults) = Unit
  Stays (ok none, e, w, faults) = Unit
  Stays (ok (some r), e, w, faults) = ensure_orchestrator os e w ≡ (ok (some r), e, w, [])

  synchronized-Stays :
      (r : R) (e : Impl R P) (res : Result Bool × W × List EntryFault)
      → Stays (synchronized os r e res)
  unfolding synchronized ensure_orchestrator ensure_held
  synchronized-Stays r e (throws x, w, faults) = tt
  synchronized-Stays r e (ok false, w, faults) = tt
  synchronized-Stays r e (ok true, w, faults) = refl

  open_detached-Stays : (e : Impl R P) (w : W) → Stays (open_detached os e w)
  unfolding open_detached
  open_detached-Stays e w = synchronized-Stays _ e _

  keep_or_open-Stays :
      (idle : Bool) (r : R) (e : Impl R P) (w : W)
      → e.orchestrator ≡ some r
      → (e.shares_traverser_orchestrator && os.stack_depth r w == 0) ≡ idle
      → Stays (keep_or_open os idle r e w)
  unfolding keep_or_open ensure_orchestrator ensure_held
  keep_or_open-Stays true r e w held test =
      open_detached-Stays (record e { orchestrator = none; shares_traverser_orchestrator = false })
        w
  keep_or_open-Stays false r e w held test =
      ap (λ o. ensure_held os o e w) held ∙ ap (λ b. keep_or_open os b r e w) test

  ensure_held-Stays :
      (o : Option R) (e : Impl R P) (w : W) → e.orchestrator ≡ o → Stays (ensure_held os o e w)
  unfolding ensure_held
  ensure_held-Stays none e w held = open_detached-Stays e w
  ensure_held-Stays (some r) e w held = keep_or_open-Stays _ r e w held refl

  -- Once `ensure_orchestrator` has given an orchestrator, calling it again gives the same one and
  -- changes neither the entry nor any orchestrator, and dispatches nothing: nothing is opened twice.
  ensure_orchestrator_again :
      (e e' : Impl R P) (r : R) (w w' : W) (faults : List EntryFault)
      → ensure_orchestrator os e w ≡ (ok (some r), e', w', faults)
      → ensure_orchestrator os e' w' ≡ (ok (some r), e', w', [])
  unfolding ensure_orchestrator
  ensure_orchestrator_again e e' r w w' faults h =
      subst Stays h (ensure_held-Stays e.orchestrator e w refl)

  -- The path and the descent flag of the entry are those of `e`.
  abbrev Keeps : Impl R P → Ensured os → Type 0
  Keeps e (res, e', w, faults) =
      (e'.path_hierarchy ≡ e.path_hierarchy) × (e'.descend_enabled ≡ e.descend_enabled)

  synchronized-Keeps :
      (r : R) (e : Impl R P) (res : Result Bool × W × List EntryFault)
      → Keeps e (synchronized os r e res)
  unfolding synchronized
  synchronized-Keeps r e (throws x, w, faults) = (refl, refl)
  synchronized-Keeps r e (ok false, w, faults) = (refl, refl)
  synchronized-Keeps r e (ok true, w, faults) = (refl, refl)

  keep_or_open-Keeps :
      (idle : Bool) (r : R) (e : Impl R P) (w : W) → Keeps e (keep_or_open os idle r e w)
  unfolding keep_or_open open_detached
  keep_or_open-Keeps true r e w =
      synchronized-Keeps _ (record e { orchestrator = none; shares_traverser_orchestrator = false })
        _
  keep_or_open-Keeps false r e w = (refl, refl)

  ensure_held-Keeps : (o : Option R) (e : Impl R P) (w : W) → Keeps e (ensure_held os o e w)
  unfolding ensure_held open_detached
  ensure_held-Keeps none e w = synchronized-Keeps _ e _
  ensure_held-Keeps (some r) e w = keep_or_open-Keeps _ r e w

  -- What an orchestrator may dispatch itself: a fault if it could not be synchronized, and at most one if
  -- a read failed.
  abbrev pub SyncFaults : Result Bool × W × List EntryFault → Type 0
  SyncFaults (throws x, w, faults) = faults ≡ []
  SyncFaults (ok true, w, faults) = faults ≡ []
  SyncFaults (ok false, w, faults) = (f : EntryFault) × (faults ≡ f ∷ [])

  abbrev pub ReadFaults : Result PartRead × W × List EntryFault → Type 0
  ReadFaults (throws x, w, faults) = faults ≡ []
  ReadFaults (ok (bytes bs), w, faults) = faults ≡ []
  ReadFaults (ok (failed n), w, faults) = (faults ≡ []) ⊎ ((f : EntryFault) × (faults ≡ f ∷ []))

  pub record Dispatches : Type 0 where
    pub sync_faults :
        (r : R) (h : PathHierarchy) (w : W) → SyncFaults (os.synchronize_to_hierarchy r h w)
    pub read_faults : (r : R) (n : ℕ) (w : W) → ReadFaults (os.read_head r n w)

  -- The entry's own fault comes last, and at most one of the orchestrator before it.
  abbrev pub EndsWithOwn : PathHierarchy → List EntryFault → Type 0
  EndsWithOwn path faults =
      (own : EntryFault) × (own.hierarchy ≡ path)
      × ((faults ≡ own ∷ []) ⊎ ((cause : EntryFault) × (faults ≡ cause ∷ own ∷ [])))

  own_after :
      (path : PathHierarchy) (own : EntryFault) (faults : List EntryFault)
      → own.hierarchy ≡ path
      → (faults ≡ []) ⊎ ((f : EntryFault) × (faults ≡ f ∷ []))
      → EndsWithOwn path (faults ++ own ∷ [])
  own_after path own faults p (inl h) = (own, p, inl (ap (λ t. t ++ own ∷ []) h))
  own_after path own faults p (inr (f, h)) = (own, p, inr (f, ap (λ t. t ++ own ∷ []) h))

  -- What a read of an entry with this path and this flag leaves.
  abbrev pub Leaves : PathHierarchy → Bool → ReadOutcome os → Type 0
  Leaves path flag (delivered bs, e, w, faults) =
      (e.path_hierarchy ≡ path) × (e.descend_enabled ≡ false) × (faults ≡ [])
  Leaves path flag (refused, e, w, faults) =
      (e.path_hierarchy ≡ path) × (e.descend_enabled ≡ flag) × EndsWithOwn path faults
  Leaves path flag (raised x, e, w, faults) =
      (e.path_hierarchy ≡ path) × (e.descend_enabled ≡ flag) × (faults ≡ [])

  -- The faults of the way to an orchestrator.
  abbrev EnsureFaults : Ensured os → Type 0
  EnsureFaults (throws x, e, w, faults) = faults ≡ []
  EnsureFaults (ok (some r), e, w, faults) = faults ≡ []
  EnsureFaults (ok none, e, w, faults) = (f : EntryFault) × (faults ≡ f ∷ [])

  synchronized-EnsureFaults :
      (r : R) (e : Impl R P) (res : Result Bool × W × List EntryFault)
      → SyncFaults res
      → EnsureFaults (synchronized os r e res)
  unfolding synchronized
  synchronized-EnsureFaults r e (throws x, w, faults) h = h
  synchronized-EnsureFaults r e (ok false, w, faults) h = h
  synchronized-EnsureFaults r e (ok true, w, faults) h = h

  module _ (law : Dispatches) where
    keep_or_open-EnsureFaults :
        (idle : Bool) (r : R) (e : Impl R P) (w : W) → EnsureFaults (keep_or_open os idle r e w)
    unfolding keep_or_open open_detached
    keep_or_open-EnsureFaults true r e w =
        synchronized-EnsureFaults _
          (record e { orchestrator = none; shares_traverser_orchestrator = false }) _
          (law.sync_faults _ _ _)
    keep_or_open-EnsureFaults false r e w = refl

    ensure_held-EnsureFaults :
        (o : Option R) (e : Impl R P) (w : W) → EnsureFaults (ensure_held os o e w)
    unfolding ensure_held open_detached
    ensure_held-EnsureFaults none e w = synchronized-EnsureFaults _ e _ (law.sync_faults _ _ _)
    ensure_held-EnsureFaults (some r) e w = keep_or_open-EnsureFaults _ r e w

    after_read-Leaves :
        (e : Impl R P) (res : Result PartRead × W × List EntryFault) (path : PathHierarchy)
        (flag : Bool)
        → ReadFaults res
        → e.path_hierarchy ≡ path
        → e.descend_enabled ≡ flag
        → Leaves path flag (after_read os [] e res)
    unfolding after_read emitted_fault
    after_read-Leaves e (throws x, w, faults) path flag h p d = (p, d, h)
    after_read-Leaves e (ok (failed n), w, faults) path flag h p d = (
      p,
      d,
      own_after path (emitted_fault os e (codes "Failed to read entry content")) faults p h,
    )
    after_read-Leaves e (ok (bytes bs), w, faults) path flag h p d = (p, refl, h)

    after_ensure-Leaves :
        (len : ℕ) (x : Ensured os) (e : Impl R P)
        → EnsureFaults x
        → Keeps e x
        → Leaves e.path_hierarchy e.descend_enabled (after_ensure os len x)
    unfolding after_ensure emitted_fault
    after_ensure-Leaves len (throws x, e', w, faults) e h (p, d) = (p, d, h)
    after_ensure-Leaves len (ok none, e', w, faults) e (f, h) (p, d) = (
      p,
      d,
      own_after e.path_hierarchy
          (emitted_fault os e' (codes "Failed to initialize ArchiveStackOrchestrator")) faults p
          (inr (f, h)),
    )
    after_ensure-Leaves len (ok (some r), e', w, faults) e h (p, d) =
        rw h (after_read-Leaves e' _ _ _ (law.read_faults r len w) p d)

    -- A read through orchestrators that dispatch so keeps the entry's path. If it delivers, descent is
    -- off and no fault is dispatched; if it returns -1, the flag is as before, and the entry's own fault,
    -- for its path, is dispatched last, after at most one of the orchestrator; if it throws, the flag
    -- is as before and no fault is dispatched.
    pub dispatching_read-Leaves :
        (len : ℕ) (e : Impl R P) (w : W)
        → Leaves e.path_hierarchy e.descend_enabled (read os len e w)
    unfolding read ensure_orchestrator
    dispatching_read-Leaves len e w =
        after_ensure-Leaves len _ e (ensure_held-EnsureFaults e.orchestrator e w)
          (ensure_held-Keeps e.orchestrator e w)
