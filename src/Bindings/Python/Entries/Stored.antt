-- ===== src/Bindings/Python/Entries/Stored.antt =====
-- `PyEntry::read` of bindings/python/src/archive_r_py.cc through the orchestrators of a store, whose cursor has a
-- stream that can be read.
use archive_r.Base.{
  ℕ, zero, suc, ◌<◌, ◌≡◌, refl, ap, sym, arith, ◌∙◌, false, ◌&&◌, Option, none, some, List, [], ◌∷◌,
  ◌++◌, set, get_elem?, length, ◌==◌,
}
use archive_r.Fault.{ok}
use archive_r.RootMetadata.{FileSystem}
use archive_r.VolumeStream.Parts.{done, bytes}
use archive_r.StreamArchive.{ArchiveOption}
use archive_r.Orchestrator.{CursorOps, Orchestrator, read_head, caught_read, depth}
use archive_r.EntryImpl.{
  Impl, delivered, read, ensure_orchestrator, ensure_held, keep_or_open, after_ensure, after_read,
}
use archive_r.EntryImpl.Creation.{Source}
use archive_r.EntryImpl.Store.{Store, stored, act_at, depth_at, stored_orchestrators}
use archive_r.Bindings.Python.{returns}
use archive_r.Bindings.Python.Entries.{PyEntry}
use archive_r.Bindings.Python.Entries.Reading.{Used, read_step, Delivers, py_read, py_read-live}

get_elem?-set :
    {A : Type 0} (xs : List A) (i : ℕ) (x y : A)
    → get_elem? xs i ≡ some x
    → get_elem? (set xs i y) i ≡ some y
get_elem?-set [] i x y e = absurd (ground arith)
get_elem?-set (z ∷ zs) zero x y e = refl
get_elem?-set (z ∷ zs) (suc i) x y e = get_elem?-set zs i x y e

-- The current stream of a cursor, while it can be read: a read gives the first of the bytes that are unread,
-- none only if all are read, and leaves the cursor on its level.
pub record Readable {K : Type 0} (ops : CursorOps K) : Type 1 where
  pub Open : K → Type 0
  pub unread : K → List ℕ
  pub reads :
      (n : ℕ) (k : K)
      → 0 < n
      → Open k
      → (bs : List ℕ) × (k' : K) × (ops.read n k ≡ (done bs, k'))
        × Open k'
        × (ops.cursor_depth k' ≡ ops.cursor_depth k)
        × (unread k ≡ bs ++ unread k')
        × (bs ≡ [] → unread k ≡ [])

module _ {K : Type 0} {ops : CursorOps K} (readable : Readable ops) where
  abbrev pub Holder : Type 0
  Holder = Used (Store ops) ℕ ArchiveOption

  abbrev pub unread_at : Option (Orchestrator K) → List ℕ
  unread_at none = []
  unread_at (some o) = readable.unread o.head

  abbrev pub unread_through : Option ℕ → Store ops → List ℕ
  unread_through none store = []
  unread_through (some r) store = unread_at (get_elem? store r)

  -- The entry holds an orchestrator that it keeps, and the cursor of this can be read.
  pub record IsOpen (e : Impl ℕ ArchiveOption) (store : Store ops) : Type 0 where
    pub reference : ℕ
    pub object : Orchestrator K
    pub held : e.orchestrator ≡ some reference
    pub found : get_elem? store reference ≡ some object
    pub kept : (e.shares_traverser_orchestrator && depth ops object == 0) ≡ false
    pub open_lem : readable.Open object.head

  -- The object after a read.
  abbrev after : Orchestrator K → K → Orchestrator K
  after o k = record o { head = k; dispatched = o.dispatched ++ [] }

  ensured :
      (e : Impl ℕ ArchiveOption) (store : Store ops) (here : IsOpen e store)
      → ensure_orchestrator (stored_orchestrators ops) e store
        ≡ (ok (some here.reference), e, store, [])
  unfolding ensure_orchestrator ensure_held keep_or_open stored_orchestrators depth_at
  ensured e store here =
      ap (λ o. ensure_held (stored_orchestrators ops) o e store) here.held
      ∙ ap (λ b. keep_or_open (stored_orchestrators ops) b here.reference e store)
          (ap (λ o. e.shares_traverser_orchestrator && depth_at ops o == 0) here.found ∙ here.kept)

  held_read :
      (n r : ℕ) (store : Store ops) (o : Orchestrator K) (bs : List ℕ) (k : K)
      → get_elem? store r ≡ some o
      → ops.read n o.head ≡ (done bs, k)
      → (stored_orchestrators ops).read_head r n store
        ≡ (ok (bytes bs), set store r (after o k), [])
  unfolding stored_orchestrators act_at stored read_head caught_read
  held_read n r store o bs k found run =
      ap (λ x. act_at ops r (read_head ops n) store x) found ∙ rw run refl

  open_read :
      (n : ℕ) (e : Impl ℕ ArchiveOption) (store : Store ops) (here : IsOpen e store) (bs : List ℕ)
      (k : K)
      → ops.read n here.object.head ≡ (done bs, k)
      → read (stored_orchestrators ops) n e store ≡ (
        delivered bs,
        record e { descend_enabled = false },
        set store here.reference (after here.object k),
        [],
      )
  unfolding read after_ensure after_read
  open_read n e store here bs k run =
      ap (after_ensure (stored_orchestrators ops) n) (ensured e store here)
      ∙ ap (after_read (stored_orchestrators ops) [] e)
          (held_read n here.reference store here.object bs k here.found run)

  unread_open :
      (e : Impl ℕ ArchiveOption) (store : Store ops) (here : IsOpen e store)
      → unread_through e.orchestrator store ≡ readable.unread here.object.head
  unread_open e store here = ap (λ o. unread_through o store) here.held ∙ ap unread_at here.found

  stays_open :
      (e : Impl ℕ ArchiveOption) (store : Store ops) (here : IsOpen e store) (k : K)
      → readable.Open k
      → ops.cursor_depth k ≡ ops.cursor_depth here.object.head
      → IsOpen
          (record e { descend_enabled = false })
          (set store here.reference (after here.object k))
  unfolding depth
  stays_open e store here k opened level = record {
    reference = here.reference;
    object = after here.object k;
    held = here.held;
    found = get_elem?-set store here.reference here.object (after here.object k) here.found;
    kept = ap (λ d. e.shares_traverser_orchestrator && d == 0) level ∙ here.kept;
    open_lem = opened;
  }

  -- The orchestrators of a store deliver what their cursors can read.
  stored-Delivers : Delivers (read_step (stored_orchestrators ops))
  unfolding read_step stays_open
  stored-Delivers = record {
    Open = λ (e, store, faults). IsOpen e store;
    unread = λ (e, store, faults). unread_through e.orchestrator store;
    reads = λ n (e, store, faults) more here.
        let (bs, k, run, opened, level, split, last) =
          readable.reads n here.object.head more here.open_lem in
        let there = stays_open e store here k opened level in
        (
          bs,
          (
            record e { descend_enabled = false },
            set store here.reference (after here.object k),
            faults ++ [],
          ),
          ap (λ r. (r.0, (r.1, r.2, faults ++ r.3))) (open_read n e store here bs k run),
          there,
          unread_open e store here ∙ split ∙ ap (bs ++◌) (sym (unread_open _ _ there)),
          λ e'. unread_open e store here ∙ last e',
        );
  }

  -- Through the orchestrators of a store: a read without a size, of a live entry that holds an orchestrator
  -- which it keeps, and whose cursor is at a stream that can be read, returns all that is unread in the
  -- stream, if the fuel is above the number of these bytes, and leaves nothing unread.
  pub py_read-stored :
      {X P : Type 0} (fs : FileSystem) (view : ℕ → Store ops → Source ArchiveOption)
      (fuel object : ℕ) (e : PyEntry P ℕ ArchiveOption) (current : Impl ℕ ArchiveOption)
      (store : Store ops)
      → e.live_entry ≡ some object
      → IsOpen current store
      → length (unread_through current.orchestrator store) < fuel
      → let (r, e', current', store', faults) =
          py_read {X = X} (stored_orchestrators ops) fs view fuel none e current store in
        (r ≡ some (returns (unread_through current.orchestrator store)))
        × (unread_through current'.orchestrator store' ≡ [])
  unfolding stored-Delivers
  py_read-stored fs view fuel object e current store live here enough =
      py_read-live (stored_orchestrators ops) fs view stored-Delivers fuel object e current store
        live here enough
