-- ===== src/StackCursor/Sync/Fuel.antt =====
-- Fuel in the rewinds that `synchronize_to_hierarchy` of src/archive_stack_cursor.cc starts, from the stream
-- of an entry to the root's.
use archive_r.Base.{ℕ, suc, ◌<◌, ◌≡◌, ◌≢◌, refl, true, false, Option, none, some, Text}
use archive_r.Hierarchy.{PathHierarchy}
use archive_r.HierarchyUtils.{pathhierarchy_select_single_part}
use archive_r.Fault.{
  Exception, entry_fault, invalid_argument, logic_error, Result, ok, throws, make_entry_fault_error,
}
use archive_r.VolumeStream.Parts.{Config, Stream}
use archive_r.VolumeStream.{rewind as rewind_volumes}
use archive_r.SystemFileStream.{path_of}
use archive_r.DataStream.{DataStream, volume_stream}
use archive_r.ArchiveReader.Handle.{LibArchive, Archive}
use archive_r.ArchiveReader.{Loop, skip_to_entry}
use archive_r.ArchiveReader.Setup.Messages.{
  FaultsShort, IsSetupFault, new_read_archive_common-FaultsShort,
}
use archive_r.ArchiveReader.Finite.{FiniteHeaders, skip_to_entry-ne-none}
use archive_r.ArchiveReader.Fuel.{
  reopened-IsFree, is_stuck, IsFree, LoopFree, skip_to_entry-LoopFree,
}
use archive_r.StreamArchive.{
  returned, ArchiveOption, Library, client, handled, open_archive, rewound_stream, stream_archive,
  make_stream_archive, unopened,
}
use archive_r.PayloadStream.{
  found_part, skip_to_name, open_entry, payload_io, rewound_payload, rewind_payload, payload_stream,
}
use archive_r.StackCursor.{
  Context, Root, custom, system_file, Chain, root, nested, RootState, State, chain_stream,
  root_stream,
}
use archive_r.StackCursor.Operations.Finite.{FiniteLibrary, finite_archive}

module _ {H E : Type 0} (lib : Library H E) {S : Type 0} (stream : DataStream S)
    (options : ArchiveOption) where
  setup-IsFree : (e : Exception) → IsSetupFault e → is_stuck e ≡ false
  setup-IsFree (entry_fault f) short = refl
  setup-IsFree (invalid_argument message) short = absurd short
  setup-IsFree (logic_error message) short = absurd short
  setup-IsFree Exception.undefined short = absurd short
  setup-IsFree Exception.stuck short = absurd short
  setup-IsFree Exception.filesystem_error short = absurd short

  handled-IsFree : (h : H) (m : Result H × S) → FaultsShort m.0 → IsFree (handled lib h m).0
  unfolding handled
  handled-IsFree h (ok h', s) short = tt
  handled-IsFree h (throws e, s) short = setup-IsFree e short

  open-IsFree : (w : H × S) → IsFree (open_archive lib stream options w).0
  unfolding open_archive
  open-IsFree (h, s) = handled-IsFree h _ (
      new_read_archive_common-FaultsShort lib.calls
        (λ w. returned lib stream options (lib.read_open (client stream) w)) (λ w. tt)
        options.passphrases options.formats s)

  pub made-IsFree : (s : S) → IsFree (make_stream_archive lib stream options s).0
  unfolding make_stream_archive
  made-IsFree s =
      reopened-IsFree (stream_archive lib stream options) (unopened lib s)
        (open_archive lib stream options (lib.null_handle, s)) (open-IsFree (lib.null_handle, s))

module _ {W E : Type 0} (lib : LibArchive W E) (finite : FiniteHeaders lib) (fuel : ℕ)
    (enough : suc finite.bound < fuel) (rewinds : (w : W) → IsFree (lib.rewind_source w).0)
    (opens : (w : W) → IsFree (lib.open_handle w).0) where
  found-IsFree :
      (part : PathHierarchy) (m : Loop lib) (a : Archive W E)
      → m ≢ none
      → LoopFree m
      → IsFree (found_part lib fuel part m a).0
  unfolding found_part make_entry_fault_error
  found-IsFree part none a ne free = absurd (ne refl)
  found-IsFree part (some (throws e, a')) a ne free = free
  found-IsFree part (some (ok true, a')) a ne free = tt
  found-IsFree part (some (ok false, a')) a ne free = refl

  skip-IsFree :
      (part : PathHierarchy) (o : Option Text) (a : Archive W E)
      → IsFree (skip_to_name lib fuel part o a).0
  unfolding skip_to_name
  skip-IsFree part none a = refl
  skip-IsFree part (some name) a =
      found-IsFree part (skip_to_entry lib fuel name a) a
        (skip_to_entry-ne-none finite fuel name a enough)
        (skip_to_entry-LoopFree lib rewinds opens fuel name a)

  pub rewind_payload-IsFree :
      (c : Config) (s : Stream (Archive W E)) → IsFree (rewind_payload lib fuel c s).0
  unfolding rewind_payload rewound_payload open_entry
  rewind_payload-IsFree c s =
      let part = pathhierarchy_select_single_part c.logical_path 0 in
      skip-IsFree part (path_of part) (rewind_volumes (payload_io lib fuel) c s).device

module _ {H E W F C : Type 0} (x : Context H E W F C) (finite : FiniteLibrary x.library)
    (enough : suc finite.bound < x.fuel)
    (customs : (f : F) (s : C) → IsFree ((x.custom_stream f).rewind s).0) where
  pub root_rewind-IsFree : (r : Root F) (s : RootState x r) → IsFree ((root_stream x r).rewind s).0
  unfolding root_stream volume_stream
  root_rewind-IsFree (custom f) s = customs f s
  root_rewind-IsFree (system_file c) s = tt

  -- The calls of an archive on a stream that rewinds.
  archive_rewind-IsFree :
      {S : Type 0} (stream : DataStream S) (options : ArchiveOption)
      → ((s : S) → IsFree (stream.rewind s).0)
      → (c : Config) (s : Stream (Archive (H × S) E))
      → IsFree (rewind_payload (stream_archive x.library stream options) x.fuel c s).0
  unfolding stream_archive rewound_stream finite_archive
  archive_rewind-IsFree stream options rec c s =
      rewind_payload-IsFree (stream_archive x.library stream options)
        (finite_archive finite stream options) x.fuel enough (λ w. rec w.1)
        (open-IsFree x.library stream options) c s

  pub chain_rewind-IsFree :
      (chain : Chain F) (s : State x chain) → IsFree ((chain_stream x chain).rewind s).0
  unfolding chain_stream payload_stream
  chain_rewind-IsFree (root r) s = root_rewind-IsFree r s
  chain_rewind-IsFree (nested c options chain) s =
      archive_rewind-IsFree (chain_stream x chain) options (chain_rewind-IsFree chain) c s
