-- ===== src/StackCursor/Sync.antt =====
-- `ArchiveStackCursor::synchronize_to_hierarchy` of src/archive_stack_cursor.cc, and the members that
-- also use the options of the cursor.
pub mod Finds
pub mod Ascents
pub mod Targets
pub mod Fuel
pub mod Enough
use archive_r.Base.{
  ℕ, zero, suc, ◌+◌, ◌-◌, ◌^◌, Bool, true, false, ◌&&◌, not, Option, none, some, List, [], Text,
  codes, pos, leb, ltb, if◌then◌else◌, length,
}
use archive_r.Hierarchy.{PathHierarchy, hierarchies_equal, is_empty, pathhierarchy_prefix_until}
use archive_r.Fault.{Exception, Result, ok, throws, make_entry_fault_error}
use archive_r.VolumeStream.Parts.{Config, Stream, ReadEnd}
use archive_r.StreamArchive.{ArchiveOption, no_options}
use archive_r.StackCursor.{
  Context, Root, Chain, root, nested, attach, RootState, State, Opened, root_stream, chain_stream,
  source_hierarchy, Current, no_stream, payload, at_root, Place, outside, inside, Cursor,
  place_depth, stream_hierarchy, entry_hierarchy,
}
use archive_r.StackCursor.Moves.{
  Move, create_current, released, back_to, descend_from, ascend_from, next_from, read_from,
}

-- `size - 1` of a `size_t`, which wraps around at 0.
abbrev pub last_index : ℕ → ℕ
last_index zero = 2 ^ 64 - 1
last_index (suc n) = n

module _ {H E W F C : Type 0} (x : Context H E W F C) where
  -- The archive that reads from the chain is an ancestor of the target, or its archive.
  unfoldable pub is_common : PathHierarchy → Chain F → Bool
  is_common target chain =
      leb (length (source_hierarchy x chain)) (length target)
      && hierarchies_equal (source_hierarchy x chain)
          (pathhierarchy_prefix_until target (last_index (length (source_hierarchy x chain))))

  -- The first loop: ascend until there is a common ancestor.
  pub ascend_inside :
      PathHierarchy
      → (options : ArchiveOption) (chain : Chain F) → Opened x chain
      → Current x
      → Place x
  unfolding ascend_from
  ascend_inside target options (root r) a s =
      if is_common target (root r)
      then inside options (root r) a s
      else (ascend_from x (inside options (root r) a s)).1
  ascend_inside target options (nested c outer chain) a s =
      let left = released x options (nested c outer chain) a in
      let above = ascend_inside target outer chain left.device (payload c (attach left tt)) in
      if is_common target (nested c outer chain)
      then inside options (nested c outer chain) a s
      else above

  pub ascend_to_common : PathHierarchy → Place x → Place x
  unfolding ascend_inside
  ascend_to_common target (outside s) = outside s
  ascend_to_common target (inside options chain a s) = ascend_inside target options chain a s

  pub rewound_root :
      (r : Root F)
      → (RootState x r → Place x)
      → Result (Unit {0}) × RootState x r
      → Move x (Unit {0})
  rewound_root r place (result, s) = (result, place s)

  pub rewound_payload :
      (options : ArchiveOption) (c : Config) (chain : Chain F)
      → Result (Unit {0}) × Stream (Opened x chain)
      → Move x (Unit {0})
  rewound_payload options c chain (result, s) = (result, back_to x options c chain s)

  -- `_current_stream->rewind()`.
  pub rewind_current : Place x → Move x (Unit {0})
  unfolding rewound_root rewound_payload
  rewind_current (outside none) = (throws Exception.undefined, outside none)
  rewind_current (outside (some (r, s))) =
      rewound_root r (λ s'. outside (some (r, s'))) ((root_stream x r).rewind s)
  rewind_current (inside options chain a no_stream) =
      (throws Exception.undefined, inside options chain a no_stream)
  rewind_current (inside options chain a (at_root (r, s))) =
      rewound_root r (λ s'. inside options chain a (at_root (r, s'))) ((root_stream x r).rewind s)
  rewind_current (inside options chain a (payload c s)) =
      rewound_payload options c chain
        ((chain_stream x (nested c options chain)).rewind (attach s a))

  pub rewind_created : Move x (Unit {0}) → Move x (Unit {0})
  unfolding rewind_current
  rewind_created (throws e, p) = (throws e, p)
  rewind_created (ok _, p) = rewind_current p

  pub is_at : PathHierarchy → Option PathHierarchy → Bool
  is_at prefix none = false
  is_at prefix (some current) = hierarchies_equal current prefix

  -- The current stream, or a new one, is that of the prefix.
  unfoldable pub find_stream : PathHierarchy → Place x → Move x (Unit {0})
  unfolding rewind_created is_at
  find_stream prefix p =
      if not (is_at prefix (stream_hierarchy x p))
      then rewind_created (create_current x prefix p)
      else (ok tt, p)

  pub found_stream : Bool → ArchiveOption → Move x (Unit {0}) → Move x Bool
  found_stream last snapshot (throws e, p) = (throws e, p)
  found_stream true snapshot (ok _, p) = (ok true, p)
  found_stream false snapshot (ok _, p) = descend_from x snapshot p

  -- The later rounds of the second loop.
  pub and_then : (Place x → Move x Bool) → Move x Bool → Move x Bool
  and_then next (throws e, p) = (throws e, p)
  and_then next (ok _, p) = next p

  -- The second loop: `rounds` rounds are left, at the depth `d`.
  pub descend_to : ℕ → ℕ → PathHierarchy → ArchiveOption → Place x → Move x Bool
  unfolding found_stream find_stream and_then
  descend_to zero d target snapshot p = (ok true, p)
  descend_to (suc rounds) d target snapshot p =
      and_then (descend_to rounds (suc d) target snapshot) (
        found_stream (not (ltb d (length target - 1))) snapshot
          (find_stream (pathhierarchy_prefix_until target d) p))

  pub synchronize_place : PathHierarchy → ArchiveOption → Place x → Move x Bool
  unfolding descend_to ascend_to_common
  synchronize_place target snapshot p =
      let above = ascend_to_common target p in
      if is_empty target
      then (
        throws (make_entry_fault_error (codes "target hierarchy cannot be empty") [] (pos 0)),
        p,
      )
      else descend_to (length target - place_depth x above) (place_depth x above) target snapshot
          above

  -- The cursor when its stream and archive have moved.
  pub moved : {A : Type 0} → Cursor x → Move x A → Result A × Cursor x
  moved cursor (result, p) = (result, record cursor { place = p })

  unfoldable pub descend : Cursor x → Result Bool × Cursor x
  unfolding moved
  descend cursor = moved cursor (descend_from x cursor.options_snapshot cursor.place)

  unfoldable pub ascend : Cursor x → Bool × Cursor x
  ascend cursor =
      let (result, p) = ascend_from x cursor.place in (result, record cursor { place = p })

  unfoldable pub next : Cursor x → Result Bool × Cursor x
  unfolding moved
  next cursor = moved cursor (next_from x cursor.place)

  unfoldable pub synchronize_to_hierarchy : PathHierarchy → Cursor x → Result Bool × Cursor x
  unfolding moved synchronize_place
  synchronize_to_hierarchy target cursor =
      moved cursor (synchronize_place target cursor.options_snapshot cursor.place)

  unfoldable pub read : ℕ → Cursor x → ReadEnd × Cursor x
  read len cursor =
      let (result, p) = read_from x len cursor.place in (result, record cursor { place = p })

  unfoldable pub depth : Cursor x → ℕ
  depth cursor = place_depth x cursor.place

  unfoldable pub current_entry_hierarchy : Cursor x → PathHierarchy
  current_entry_hierarchy cursor = entry_hierarchy x cursor.place

  -- The constructor.
  abbrev pub new_cursor : Cursor x
  new_cursor = record { options_snapshot = no_options; place = outside none }

  unfoldable pub configure : ArchiveOption → Cursor x → Cursor x
  configure options cursor = record cursor { options_snapshot = options }

  unfoldable pub reset : Cursor x → Cursor x
  reset cursor = new_cursor
