-- ===== src/Lib.antt =====
-- archive_r: the core of a C++ library that walks through archives inside archives, some of them
-- split into several volumes.
--
-- Parts of the program and the files that model them:
--   Hierarchy: include/archive_r/path_hierarchy.h and src/path_hierarchy.cc. A `PathHierarchy` is the
--     list of its entries; `compare_hierarchies`, `hierarchies_equal` and the slices have the names of
--     the code, and `hierarchy_less` is `PathHierarchyLess`.
--   HierarchyUtils: src/path_hierarchy_utils.cc. `merge_multi_volume_sources` returns `none` where the
--     code throws, and `some []` for the empty hierarchy. `std::sort` is an insertion sort.
--   VolumeManager: src/multi_volume_manager.cc. The `std::map` of groups is the list of its entries,
--     and every operation takes it and returns it. `Popped` keeps the undefined behaviour of
--     `pop_multi_volume_group` apart, as `fault`.
--   Fault: src/entry_fault_error.cc. What is thrown is a value of `Exception`.
--   VolumeStream: src/multi_volume_stream_base.cc. `Stream` is the `Impl` record; the virtual functions
--     of the derived class are the record `PartIo`, a parameter.
--   ArchiveReader: `Archive` of src/archive_type.cc. libarchive is the record `LibArchive`, a
--     parameter, with the virtual `open_archive` and what an overriding `rewind` does first.
--     ArchiveReader/Setup: `new_read_archive_common`, over the calls `HandleCalls`.
--   DataStream: `IDataStream` of include/archive_r/data_stream.h, a record of functions over a state.
--   StreamArchive: that class of src/archive_stack_cursor.cc, with the callbacks it gives to libarchive.
--     libarchive is the record `Library` there; its calls work for any stream, through the callbacks.
--   PayloadStream: `EntryPayloadStream` of the same file, an instance of `PartIo` whose device is the
--     parent archive.
--   StackCursor: `ArchiveStackCursor` of the same file. The pointers between archives and streams form
--     one chain: `Chain` is what never changes in it, `State` what does. Moves has descend, ascend, next,
--     read and create_stream, Sync has synchronize_to_hierarchy, and Operations fills the interface that
--     the orchestrator uses.
--   Orchestrator: src/archive_stack_orchestrator.cc, over the record `CursorOps`. The faults that are
--     dispatched are a list.
--   Traverser: src/traverser.cc, over the same record; std::filesystem is the record `Directories`. An
--     end of a directory iterator is `none`.
--   EntryMetadata: include/archive_r/entry_metadata.h, and the statements that fill a metadata map.
--   Metadata: `Archive::current_entry_metadata` of src/archive_type.cc. libarchive's accessors are the
--     record `EntryReader`.
--   SystemFileStream: the class of src/system_file_stream.cc, an instance of `PartIo` over stdio, which
--     is the record `Stdio`.
--   RootMetadata: `collect_root_path_metadata` of that file, over the record `FileSystem`.
--   EntryImpl: `Entry::Impl` of src/entry.cc, its constructor in EntryImpl/Creation. Orchestrators
--     are objects of a store, and their operations are the record `Orchestrators`; an operation
--     also gives the faults that it dispatches. EntryImpl/Store fills that record with the
--     orchestrators of Orchestrator, in a list. EntryImpl/Handle has the class `Entry`, which owns
--     an `Impl`.
--   Bindings/Python: bindings/python/src/archive_r_py.cc. pybind11 and the interpreter are the record
--     `Objects`, and what a function raises is a value of `PyError`. Factory has the factory of root
--     streams, Entries the entries that Python holds, and Iteration the iterator: its entries are a list,
--     and its pointers to the entry of the iterator of C++ are numbers of the objects that this held.
--   Base: numbers, lists, strings as lists of bytes. Examples: runs at concrete inputs.
--
-- The manager's pop sorts and merges with HierarchyUtils; the hierarchy that it returns is what a
-- stream of VolumeStream takes apart again, volume by volume, with `pathhierarchy_select_single_part`.
-- A stream archive reads from a root stream or a payload stream, and a payload stream reads from the
-- stream archive below, so that an operation on one archive may move every archive below it: `State` of a
-- chain holds the states of all of them. The orchestrator moves the cursor, takes groups from the manager,
-- and dispatches faults; the traverser makes entries of what the orchestrator and the directories give.
--
-- Bounds and fuel: `std::size_t` counts in-memory objects and is ℕ. Offsets are ℤ with the 64-bit
-- limits written out: an overflow of `int64_t` is `undefined`, and casts of metadata wrap. The loop
-- of `read` runs on fuel `size + total_parts + 1`: a round gets a byte or goes on to the next
-- volume. The searches of the reader take fuel; one more than the number of entries is enough in an
-- archive that reads without an error, and two more than the most headers in any. Running out of it
-- in the cursor is the exception `stuck`. The loops of Python's entries and iterator take fuel too.
-- `advance` of the orchestrator takes fuel, one for each round of its loop. The assumptions on the
-- code outside the repository are records of laws: `Readable` for stdio on files that can be read;
-- `Listing` for an archive that libarchive reads without an error, with `Contents` for the data of
-- its entries; `FiniteHeaders` and `FiniteLibrary` for archives of finitely many headers, with any
-- errors; `Reports` for the streams of a registered factory. `Files`, with `Seekable`, is the
-- interface between the base class of the streams and the derived classes: SystemFileStream/Reading
-- fills it from `Readable`, PayloadStream/Reading from `Contents`. `IsStack` is that between the
-- orchestrator and its cursor, which StackCursor/Operations fills.
--
-- Not modelled: the state of stdio is shared by no two root streams, as each has its own; the locks
-- of the global variables, whose accesses are one step each; a callback for faults is taken to
-- return; what destructors do, but for the archive of an ascent; the profiler, the branches for
-- Windows; of the Python binding the parts of a user's stream, reference counts, metadata and the
-- callback for faults; and the Ruby binding, whose interpreter leaves a function by a jump.
pub mod Base
pub mod Hierarchy
pub mod HierarchyUtils
pub mod VolumeManager
pub mod Fault
pub mod VolumeStream
pub mod DataStream
pub mod ArchiveReader
pub mod Bindings
pub mod StreamArchive
pub mod PayloadStream
pub mod StackCursor
pub mod Orchestrator
pub mod EntryMetadata
pub mod Metadata
pub mod RootMetadata
pub mod SystemFileStream
pub mod EntryImpl
pub mod Traverser
pub mod Examples
