-- ===== src/Bindings/Python/Entries/Reading.antt =====
-- `PyEntry::read` of bindings/python/src/archive_r_py.cc, through the iterator's entry, or an own one. The
-- loop runs on fuel: one more than the bytes that are unread is enough.
use archive_r.Base.{
  ℕ, zero, suc, ◌+◌, ◌*◌, ◌<◌, ◌≡◌, refl, ap, sym, ◌∙◌, Bool, true, false, Option, none, some, List,
  [], ◌∷◌, ◌++◌, append_assoc, append-nil, length, length-append, codes, ℤ, pos, negsuc, arith,
}
use archive_r.Fault.{EntryFault, Result, ok, throws}
use archive_r.RootMetadata.{FileSystem}
use archive_r.EntryImpl.{Orchestrators, Impl, ReadReply, delivered, refused, raised, read}
use archive_r.EntryImpl.Creation.{Source, make_entry}
use archive_r.Bindings.Python.{core, value_error, PyResult, returns, raises}
use archive_r.Bindings.Python.Entries.{PyEntry}

-- A loop that has not run out of fuel, and the state it leaves.
abbrev pub Loop : Type 0 → Type 0 → Type 0
Loop X S = Option (PyResult X (List ℕ)) × S

-- A size that is not given is -1.
abbrev pub requested : Option ℤ → ℤ
requested none = negsuc 0
requested (some size) = size

abbrev pub chunk_size : ℕ
chunk_size = 64 * 1024

module _ {X S : Type 0} (step : ℕ → S → ReadReply × S) where
  abbrev failed_read : PyResult X (List ℕ)
  failed_read = raises (value_error (codes "Failed to read entry data"))

  pub bounded : ReadReply × S → Loop X S
  bounded (delivered bs, s) = (some (returns bs), s)
  bounded (refused, s) = (some failed_read, s)
  bounded (raised x, s) = (some (raises (core x)), s)

  -- A round of the loop: what was read, and what goes on after a chunk that is not empty.
  pub drained : (List ℕ → S → Loop X S) → List ℕ → ReadReply × S → Loop X S
  drained next aggregate (delivered [], s) = (some (returns aggregate), s)
  drained next aggregate (delivered (b ∷ bs), s) = next (aggregate ++ b ∷ bs) s
  drained next aggregate (refused, s) = (some failed_read, s)
  drained next aggregate (raised x, s) = (some (raises (core x)), s)

  pub read_all : ℕ → List ℕ → S → Loop X S
  unfolding drained
  read_all zero aggregate s = (none, s)
  read_all (suc fuel) aggregate s = drained (read_all fuel) aggregate (step chunk_size s)

  pub read_requested : ℕ → ℤ → S → Loop X S
  unfolding read_all bounded
  read_requested fuel (pos zero) s = (some (returns []), s)
  read_requested fuel (pos (suc n)) s = bounded (step (suc n) s)
  read_requested fuel (negsuc n) s = read_all fuel [] s

-- A source of bytes, while it is open: what is read is the first of what is unread, and nothing only if all
-- is read, and the source stays open.
pub record Delivers {S : Type 0} (step : ℕ → S → ReadReply × S) : Type 1 where
  pub Open : S → Type 0
  pub unread : S → List ℕ
  pub reads :
      (n : ℕ) (s : S)
      → 0 < n
      → Open s
      → (bs : List ℕ) × (s' : S) × (step n s ≡ (delivered bs, s'))
        × Open s'
        × (unread s ≡ bs ++ unread s')
        × (bs ≡ [] → unread s ≡ [])

module _ {X S : Type 0} {step : ℕ → S → ReadReply × S} (source : Delivers step) where
  -- The loop returned these bytes, and nothing is unread.
  abbrev pub HasRead : List ℕ → Loop X S → Type 0
  HasRead bs (r, s) = (r ≡ some (returns bs)) × (source.unread s ≡ [])

  drained-HasRead :
      (fuel : ℕ) (aggregate bs : List ℕ) (s : S) (all : List ℕ)
      → all ≡ bs ++ source.unread s
      → (bs ≡ [] → all ≡ [])
      → length all < suc fuel
      → source.Open s
      → ((aggregate' : List ℕ) (s' : S)
          → length (source.unread s') < fuel
          → source.Open s'
          → HasRead (aggregate' ++ source.unread s') (read_all step fuel aggregate' s'))
      → HasRead (aggregate ++ all) (drained step (read_all step fuel) aggregate (delivered bs, s))
  unfolding drained
  drained-HasRead fuel aggregate [] s all split last enough opened rec =
      let none_left = last refl in (rw (none_left, append-nil) refl, sym split ∙ none_left)
  drained-HasRead fuel aggregate (b ∷ bs) s all split last enough opened rec =
      let shorter : length (source.unread s) < fuel =
        let size : length all ≡ length (b ∷ bs) + length (source.unread s) =
          ap length split ∙ length-append (b ∷ bs) (source.unread s) in
        omega arith in
      rw (split, ← append_assoc aggregate (b ∷ bs) (source.unread s))
        (rec (aggregate ++ b ∷ bs) s shorter opened)

  read_all-HasRead :
      (fuel : ℕ) (aggregate : List ℕ) (s : S)
      → length (source.unread s) < fuel
      → source.Open s
      → HasRead (aggregate ++ source.unread s) (read_all step fuel aggregate s)
  unfolding read_all
  read_all-HasRead zero aggregate s enough opened = absurd (ground arith)
  read_all-HasRead (suc fuel) aggregate s enough opened =
      let (bs, s', run, opened', split, last) = source.reads chunk_size s (omega arith) opened in
      rw run (
        drained-HasRead fuel aggregate bs s' (source.unread s) split last enough opened'
          (read_all-HasRead fuel))

-- An entry that is read, the store, and the faults that were dispatched on the way.
abbrev pub Used : Type 0 → Type 0 → Type 0 → Type 0
Used W R O = Impl R O × W × List EntryFault

-- One call of `Entry::read`.
unfoldable pub read_step :
    {W R O : Type 0} → Orchestrators W R O → ℕ → Used W R O → ReadReply × Used W R O
unfolding read
read_step os n (e, w, faults) =
    let (reply, e', w', more) = read os n e w in (reply, (e', w', faults ++ more))

-- What `ensure_detached_entry` leaves.
abbrev pub Ensured : Type 0 → Type 0 → Type 0 → Type 0 → Type 0 → Type 0
Ensured X P W R O = PyResult X (Unit {0}) × PyEntry P R O × W × List EntryFault

-- The Python object, the iterator's entry, the store, and the faults.
abbrev pub Read : Type 0 → Type 0 → Type 0 → Type 0 → Type 0 → Type 0
Read X P W R O = Option (PyResult X (List ℕ)) × PyEntry P R O × Impl R O × W × List EntryFault

module _ {X P W R O : Type 0} (os : Orchestrators W R O) (fs : FileSystem)
    (view : R → W → Source O) where
  pub reopened_entry : R → PyEntry P R O → Result Bool × W × List EntryFault → Ensured X P W R O
  reopened_entry r e (throws x, w, faults) =
      (raises (core x), record e { detached_orchestrator = some r }, w, faults)
  reopened_entry r e (ok false, w, faults) = (
    raises (value_error (codes "Failed to reopen entry payload")),
    record e { detached_orchestrator = none },
    w,
    faults,
  )
  reopened_entry r e (ok true, w, faults) = (
    returns tt,
    record e {
      detached_orchestrator = some r;
      detached_entry =
          some (make_entry fs e.path_hierarchy_native (some (r, view r w)) e.descent_enabled);
    },
    w,
    faults,
  )

  unfoldable pub ensure_detached_entry : PyEntry P R O → W → Ensured X P W R O
  unfolding reopened_entry
  ensure_detached_entry e w = elim e.detached_entry [
    | some d ↦ (returns tt, e, w, [])
    | none ↦
        let (r, w') = os.create e.archive_options w in
        reopened_entry r e (os.synchronize_to_hierarchy r e.path_hierarchy_native w')
  ]

  pub read_detached : ℕ → ℤ → Impl R O → Ensured X P W R O → Read X P W R O
  unfolding read_requested read_step
  read_detached fuel size current (raises x, e, w, faults) =
      (some (raises x), e, current, w, faults)
  read_detached fuel size current (returns u, e, w, before) = elim e.detached_entry [
    | none ↦ (
      some (raises (value_error (codes "entry payload is no longer available"))),
      e,
      current,
      w,
      before,
    )
    | some d ↦
        let (r, (d', w', faults)) = read_requested (read_step os) fuel size (d, w, before) in
        (r, record e { detached_entry = some d' }, current, w', faults)
  ]

  unfoldable pub py_read : ℕ → Option ℤ → PyEntry P R O → Impl R O → W → Read X P W R O
  unfolding read_detached ensure_detached_entry read_requested read_step
  py_read fuel size e current w = elim e.live_entry [
    | none ↦ read_detached fuel (requested size) current (ensure_detached_entry e w)
    | some object ↦
        let (r, (current', w', faults)) =
          read_requested (read_step os) fuel (requested size) (current, w, []) in
        (r, e, current', w', faults)
  ]

  -- Without a size, a read through a live entry that is open, and delivers its bytes while it is, returns
  -- all that is unread, and leaves nothing: fuel above the number of these bytes is enough.
  pub py_read-live :
      (source : Delivers (read_step os)) (fuel object : ℕ) (e : PyEntry P R O) (current : Impl R O)
      (w : W)
      → e.live_entry ≡ some object
      → source.Open (current, w, [])
      → length (source.unread (current, w, [])) < fuel
      → let (r, e', current', w', faults) = py_read fuel none e current w in
        (r ≡ some (returns (source.unread (current, w, []))))
        × (source.unread (current', w', faults) ≡ [])
  unfolding py_read
  py_read-live source fuel object e current w live opened enough =
      rw live (read_all-HasRead source fuel [] (current, w, []) enough opened)
