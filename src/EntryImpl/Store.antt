-- ===== src/EntryImpl/Store.antt =====
-- The orchestrators of src/archive_stack_orchestrator.cc as the objects that the entries of src/entry.cc
-- read through: a store holds them, and a reference is a place in it.
use archive_r.Base.{
  ℕ, ◌≡◌, refl, inl, inr, Bool, Option, none, some, List, [], ◌∷◌, ◌++◌, get_elem?, set, length,
}
use archive_r.Hierarchy.{PathHierarchy}
use archive_r.Fault.{
  EntryFault, Exception, entry_fault, invalid_argument, logic_error, Result, ok, throws,
}
use archive_r.VolumeStream.Parts.{ReadEnd, done, code, thrown, out_of_fuel}
use archive_r.StreamArchive.{ArchiveOption, no_options}
use archive_r.Orchestrator.{
  CursorOps, Orchestrator, Act, make_orchestrator, depth, dispatch_fault, filled_fault, caught,
  synchronize_to_hierarchy, caught_read, read_head, mark_entry,
}
use archive_r.EntryImpl.{Orchestrators, Impl, read}
use archive_r.EntryImpl.Sharing.{
  SyncFaults, ReadFaults, Dispatches, Leaves, dispatching_read-Leaves,
}

module _ {K : Type 0} (ops : CursorOps K) where
  abbrev pub Store : Type 0
  Store = List (Orchestrator K)

  -- After an operation of the object at `r`, which began with an empty list of faults.
  unfoldable pub stored :
      {A : Type 0} → ℕ → Orchestrator K → Store → Act ops A → Result A × Store × List EntryFault
  stored r o store (result, o') = (
    result,
    set store r (record o' { dispatched = o.dispatched ++ o'.dispatched }),
    o'.dispatched,
  )

  -- An operation of the object at `r`; there is one for every reference.
  unfoldable pub act_at :
      {A : Type 0}
      → ℕ
      → (Orchestrator K → Act ops A)
      → Store
      → Option (Orchestrator K)
      → Result A × Store × List EntryFault
  unfolding stored
  act_at r act store none = (throws Exception.undefined, store, [])
  act_at r act store (some o) = stored r o store (act (record o { dispatched = [] }))

  pub mark_at : ℕ → (Orchestrator K → Orchestrator K) → Store → Option (Orchestrator K) → Store
  mark_at r mark store none = store
  mark_at r mark store (some o) = set store r (mark o)

  unfoldable pub depth_at : Option (Orchestrator K) → ℕ
  depth_at none = 0
  depth_at (some o) = depth ops o

  unfoldable pub stored_orchestrators : Orchestrators Store ℕ ArchiveOption
  unfolding act_at mark_at depth_at
  stored_orchestrators = record {
    default_options = no_options;
    create = λ options store. (length store, store ++ make_orchestrator ops options ∷ []);
    stack_depth = λ r store. depth_at (get_elem? store r);
    synchronize_to_hierarchy =
        λ r h store. act_at r (synchronize_to_hierarchy ops h) store (get_elem? store r);
    read_head = λ r n store. act_at r (read_head ops n) store (get_elem? store r);
    mark_entry = λ r h base_name ordering store.
        mark_at r (mark_entry ops h base_name ordering) store (get_elem? store r);
  }

  caught-SyncFaults :
      (r : ℕ) (o : Orchestrator K) (store : Store) (m : Act ops Bool)
      → m.1.dispatched ≡ []
      → SyncFaults stored_orchestrators (stored r o store (caught ops m))
  unfolding stored caught dispatch_fault
  caught-SyncFaults r o store (ok b, o') h = h
  caught-SyncFaults r o store (throws (entry_fault f), o') h = (filled_fault ops f o', rw h refl)
  caught-SyncFaults r o store (throws (invalid_argument message), o') h = h
  caught-SyncFaults r o store (throws (logic_error message), o') h = h
  caught-SyncFaults r o store (throws Exception.undefined, o') h = h
  caught-SyncFaults r o store (throws Exception.stuck, o') h = h
  caught-SyncFaults r o store (throws Exception.filesystem_error, o') h = h

  caught-ReadFaults :
      (r : ℕ) (o : Orchestrator K) (store : Store) (m : ReadEnd × Orchestrator K)
      → m.1.dispatched ≡ []
      → ReadFaults stored_orchestrators (stored r o store (caught_read ops m))
  unfolding stored caught_read dispatch_fault
  caught-ReadFaults r o store (done bs, o') h = h
  caught-ReadFaults r o store (code n, o') h = inl h
  caught-ReadFaults r o store (thrown (entry_fault f), o') h =
      inr (filled_fault ops f o', rw h refl)
  caught-ReadFaults r o store (thrown (invalid_argument message), o') h = h
  caught-ReadFaults r o store (thrown (logic_error message), o') h = h
  caught-ReadFaults r o store (thrown Exception.undefined, o') h = h
  caught-ReadFaults r o store (thrown Exception.stuck, o') h = h
  caught-ReadFaults r o store (thrown Exception.filesystem_error, o') h = h
  caught-ReadFaults r o store (out_of_fuel, o') h = h

  synchronize-SyncFaults :
      (r : ℕ) (h : PathHierarchy) (store : Store) (o : Option (Orchestrator K))
      → SyncFaults stored_orchestrators (act_at r (synchronize_to_hierarchy ops h) store o)
  unfolding act_at synchronize_to_hierarchy
  synchronize-SyncFaults r h store none = refl
  synchronize-SyncFaults r h store (some o) = caught-SyncFaults r o store _ refl

  read-ReadFaults :
      (r n : ℕ) (store : Store) (o : Option (Orchestrator K))
      → ReadFaults stored_orchestrators (act_at r (read_head ops n) store o)
  unfolding act_at read_head
  read-ReadFaults r n store none = refl
  read-ReadFaults r n store (some o) = caught-ReadFaults r o store _ refl

  pub stored-Dispatches : Dispatches stored_orchestrators
  unfolding stored_orchestrators
  stored-Dispatches = record {
    sync_faults = λ r h store. synchronize-SyncFaults r h store (get_elem? store r);
    read_faults = λ r n store. read-ReadFaults r n store (get_elem? store r);
  }

  -- A read through the orchestrators of a store, over any cursor, keeps the entry's path. If it delivers,
  -- descent is off and no fault is dispatched; if it returns -1, the flag is as before, and the entry's
  -- own fault, for its path, is dispatched last, after at most one of the orchestrator; if it throws,
  -- the flag is as before and no fault is dispatched.
  pub read-Leaves :
      (len : ℕ) (e : Impl ℕ ArchiveOption) (store : Store)
      → Leaves stored_orchestrators e.path_hierarchy e.descend_enabled
          (read stored_orchestrators len e store)
  read-Leaves len e store =
      dispatching_read-Leaves stored_orchestrators stored-Dispatches len e store
