-- ===== src/StackCursor/Moves.antt =====
-- The moves of `ArchiveStackCursor` (src/archive_stack_cursor.cc): descend, ascend, next, read, and the
-- creation of streams. What is thrown is a value, and the state at the throw is kept.
pub mod Nesting
pub mod Levels
use archive_r.Base.{
  ℕ, zero, suc, Bool, true, false, ◌&&◌, not, Option, none, some, List, [], Text, codes, ◌==◌,
  if◌then◌else◌, length,
}
use archive_r.Hierarchy.{PathHierarchy, is_empty}
use archive_r.Fault.{Exception, logic_error, invalid_argument, Result, ok, throws}
use archive_r.VolumeStream.Parts.{Config, Stream, ReadEnd, done, thrown, make_stream}
use archive_r.SystemFileStream.{SystemFile}
use archive_r.DataStream.{DataStream}
use archive_r.ArchiveReader.Handle.{LibArchive, Archive}
use archive_r.ArchiveReader.{Step, Loop, skip_to_next_header, close_archive, read_current}
use archive_r.StreamArchive.{ArchiveOption, make_stream_archive}
use archive_r.PayloadStream.{make_payload}
use archive_r.StackCursor.{
  Context, Root, custom, system_file, Chain, root, nested, attach, RootState, State, Opened,
  root_stream, chain_stream, calls_of, RootStream, Current, no_stream, payload, at_root, Place,
  outside, inside, entry_hierarchy,
}

module _ {W E : Type 0} (lib : LibArchive W E) where
  -- A round of the loop of `next`, and the later rounds.
  unfoldable pub named_round : (Archive W E → Loop lib) → Step lib Bool → Loop lib
  named_round next (throws e, a) = some (throws e, a)
  named_round next (ok false, a) = some (ok false, a)
  named_round next (ok true, a) =
      if not (is_empty a.current_entryname) then some (ok true, a) else next a

  -- The loop of `next`, on fuel.
  unfoldable pub skip_to_named : ℕ → Archive W E → Loop lib
  unfolding named_round
  skip_to_named zero a = none
  skip_to_named (suc fuel) a = named_round (skip_to_named fuel) (skip_to_next_header lib a)

module _ {H E W F C : Type 0} (x : Context H E W F C) where
  -- What a member function returns or throws, and where the cursor is afterwards.
  abbrev pub Move : Type 0 → Type 0
  Move A = Result A × Place x

  unfoldable pub as_root : Result (Config × Stream (SystemFile W)) → Result (RootStream x)
  as_root (throws e) = throws e
  as_root (ok (c, s)) = ok (system_file c, s)

  -- `SystemFileStream` of a hierarchy.
  unfoldable pub system_root : PathHierarchy → Result (RootStream x)
  unfolding as_root
  system_root h =
      as_root
        (make_stream h true (record { has_handle = false; active_path = []; world = x.world }))

  unfoldable pub root_or_system : PathHierarchy → Option (F × C) → Result (RootStream x)
  unfolding system_root
  root_or_system h none = system_root h
  root_or_system h (some (f, s)) = ok (custom f, s)

  -- `create_stream` for a hierarchy of one entry.
  unfoldable pub make_root : PathHierarchy → Result (RootStream x)
  unfolding root_or_system
  make_root h = elim x.factory [
    | none ↦ system_root h
    | some factory ↦ root_or_system h (factory h)
  ]

  -- What `_current_stream = create_stream(...)` leaves.
  unfoldable pub placed_root :
      Place x → (RootStream x → Place x) → Result (RootStream x) → Move (Unit {0})
  placed_root before after (throws e) = (throws e, before)
  placed_root before after (ok s) = (ok tt, after s)

  unfoldable pub placed_payload :
      (options : ArchiveOption) (chain : Chain F)
      → Opened x chain
      → Current x
      → Result (Config × Stream (Unit {0}))
      → Move (Unit {0})
  placed_payload options chain a s (throws e) = (throws e, inside options chain a s)
  placed_payload options chain a s (ok (c, p)) = (ok tt, inside options chain a (payload c p))

  -- `_current_stream = create_stream(hierarchy)`. A payload stream without an archive is refused.
  unfoldable pub create_current : PathHierarchy → Place x → Move (Unit {0})
  unfolding placed_root placed_payload make_root make_payload
  create_current h (outside s) =
      if length h == 1
      then placed_root (outside s) (λ r. outside (some r)) (make_root h)
      else (throws (invalid_argument (codes "Invalid parent archive context")), outside s)
  create_current h (inside options chain a s) =
      if length h == 1
      then placed_root (inside options chain a s) (λ r. inside options chain a (at_root r))
          (make_root h)
      else placed_payload options chain a s (make_payload h)

  -- What the new archive over a root stream leaves; `before` is where the cursor stays on a throw.
  unfoldable pub entered_root :
      ArchiveOption
      → (r : Root F) → (RootState x r → Place x)
      → Result (Unit {0}) × Opened x (root r)
      → Move Bool
  entered_root options r before (ok _, a) = (ok true, inside options (root r) a no_stream)
  entered_root options r before (throws e, a) = (throws e, before a.world.1)

  -- `descend` on a root stream that is rewound, where that is needed.
  unfoldable pub descend_root :
      ArchiveOption
      → (r : Root F) → (RootState x r → Place x)
      → Result (Unit {0}) × RootState x r
      → Move Bool
  unfolding entered_root
  descend_root options r before (throws e, s) = (throws e, before s)
  descend_root options r before (ok _, s) =
      entered_root options r before (make_stream_archive x.library (root_stream x r) options s)

  -- The current archive and stream, when the payload stream is not the source of an archive.
  unfoldable pub back_to :
      (options : ArchiveOption) (c : Config) (chain : Chain F) → Stream (Opened x chain) → Place x
  back_to options c chain s = inside options chain s.device (payload c (attach s tt))

  unfoldable pub entered_payload :
      ArchiveOption
      → (options : ArchiveOption) (c : Config) (chain : Chain F)
      → Result (Unit {0}) × Opened x (nested c options chain)
      → Move Bool
  unfolding back_to
  entered_payload snapshot options c chain (ok _, a) =
      (ok true, inside snapshot (nested c options chain) a no_stream)
  entered_payload snapshot options c chain (throws e, a) =
      (throws e, back_to options c chain a.world.1)

  unfoldable pub descend_payload :
      ArchiveOption
      → (options : ArchiveOption) (c : Config) (chain : Chain F)
      → Result (Unit {0}) × Stream (Opened x chain)
      → Move Bool
  unfolding entered_payload
  descend_payload snapshot options c chain (throws e, s) = (throws e, back_to options c chain s)
  descend_payload snapshot options c chain (ok _, s) =
      entered_payload snapshot options c chain
        (make_stream_archive x.library (chain_stream x (nested c options chain)) snapshot s)

  abbrev no_current : Exception
  no_current = logic_error (codes "current stream is empty")

  -- `descend`, with the options of the cursor.
  unfoldable pub descend_from : ArchiveOption → Place x → Move Bool
  unfolding descend_root descend_payload
  descend_from snapshot (outside none) = (throws no_current, outside none)
  descend_from snapshot (outside (some (r, s))) =
      descend_root snapshot r (λ s'. outside (some (r, s'))) (ok tt, s)
  descend_from snapshot (inside options chain a no_stream) =
      (throws no_current, inside options chain a no_stream)
  descend_from snapshot (inside options chain a (at_root (r, s))) =
      descend_root snapshot r (λ s'. inside options chain a (at_root (r, s')))
        (if a.content_ready then (ok tt, s) else (root_stream x r).rewind s)
  descend_from snapshot (inside options chain a (payload c s)) =
      descend_payload snapshot options c chain (
        if a.content_ready
        then (ok tt, attach s a)
        else (chain_stream x (nested c options chain)).rewind (attach s a))

  -- The stream of an archive, when the archive is closed by its destructor.
  pub released : (options : ArchiveOption) (chain : Chain F) → Opened x chain → State x chain
  unfolding close_archive
  released options chain a = (close_archive (calls_of x options chain) a).world.1

  unfoldable pub ascend_from : Place x → Bool × Place x
  unfolding released back_to
  ascend_from (outside s) = (false, outside s)
  ascend_from (inside options (root r) a s) =
      (true, outside (some (r, released options (root r) a)))
  ascend_from (inside options (nested c outer chain) a s) =
      (true, back_to outer c chain (released options (nested c outer chain) a))

  unfoldable pub found_next : Move (Unit {0}) → Move Bool
  found_next (throws e, p) = (throws e, p)
  found_next (ok _, p) = (ok true, p)

  -- What follows the loop of `next`.
  unfoldable pub next_entry :
      (options : ArchiveOption) (chain : Chain F)
      → Opened x chain
      → Loop (calls_of x options chain)
      → Move Bool
  unfolding found_next
  next_entry options chain a none = (throws Exception.stuck, inside options chain a no_stream)
  next_entry options chain a (some (throws e, a')) = (throws e, inside options chain a' no_stream)
  next_entry options chain a (some (ok false, a')) = (ok false, inside options chain a' no_stream)
  next_entry options chain a (some (ok true, a')) = found_next (
      create_current (entry_hierarchy x (inside options chain a' no_stream))
        (inside options chain a' no_stream))

  unfoldable pub next_from : Place x → Move Bool
  unfolding next_entry skip_to_named
  next_from (outside s) = (ok false, outside s)
  next_from (inside options chain a s) =
      next_entry options chain a (skip_to_named (calls_of x options chain) x.fuel a)

  pub read_bytes :
      (options : ArchiveOption) (chain : Chain F)
      → Current x
      → Result (List ℕ) × Opened x chain
      → ReadEnd × Place x
  read_bytes options chain s (ok bs, a) = (done bs, inside options chain a s)
  read_bytes options chain s (throws e, a) = (thrown e, inside options chain a s)

  pub read_root : (r : Root F) → ReadEnd × RootState x r → ReadEnd × Place x
  read_root r (result, s) = (result, outside (some (r, s)))

  -- `read` of some bytes.
  pub read_place : ℕ → Place x → ReadEnd × Place x
  unfolding read_bytes read_root
  read_place len (outside none) = (done [], outside none)
  read_place len (outside (some (r, s))) = read_root r ((root_stream x r).read len s)
  read_place len (inside options chain a s) =
      read_bytes options chain s (read_current (calls_of x options chain) len a)

  unfoldable pub read_from : ℕ → Place x → ReadEnd × Place x
  unfolding read_place
  read_from len p = if len == 0 then (done [], p) else read_place len p
