-- ===== src/StackCursor/Operations/Finite.antt =====
-- Archives of finitely many headers in a library, and the search for a named entry in `next` of
-- src/archive_stack_cursor.cc over one.
use archive_r.Base.{
  ℕ, zero, suc, ◌<◌, ◌≤◌, ◌≡◌, Bool, true, false, not, none, some, if◌then◌else◌, arith,
}
use archive_r.Hierarchy.{is_empty}
use archive_r.Fault.{Exception, entry_fault, invalid_argument, logic_error, Result, ok, throws}
use archive_r.ArchiveReader.Handle.{header, LibArchive, Archive}
use archive_r.ArchiveReader.{Step, Loop}
use archive_r.ArchiveReader.Finite.{FiniteHeaders, left_in, LeavesFewer, next-fewer}
use archive_r.DataStream.{DataStream}
use archive_r.StreamArchive.{ArchiveOption, Client, client, Library, stream_archive}
use archive_r.StackCursor.Moves.{named_round, skip_to_named}
use archive_r.StackCursor.Sync.{next}

-- libarchive reads archives of finitely many headers: a header that is read is one fewer, in whatever
-- stream, and none come back when data is skipped.
pub record FiniteLibrary {H E : Type 0} (lib : Library H E) : Type 1 where
  pub headers : H → ℕ
  pub bound : ℕ
  pub within : (h : H) → headers h ≤ bound
  pub next_headers :
      {S : Type 0} (c : Client S) (w : H × S) (e : E) (w' : H × S)
      → lib.read_next_header c w ≡ (header e, w')
      → headers w'.0 < headers w.0
  pub skip_headers :
      {S : Type 0} (c : Client S) (w : H × S) → headers (lib.read_data_skip c w).1.0 ≤ headers w.0

unfoldable pub finite_archive :
    {H E S : Type 0} {lib : Library H E} (finite : FiniteLibrary lib) (stream : DataStream S)
    (options : ArchiveOption)
    → FiniteHeaders (stream_archive lib stream options)
unfolding stream_archive
finite_archive finite stream options = record {
  headers = λ w. finite.headers w.0;
  bound = finite.bound;
  within = λ w. finite.within w.0;
  next_headers = finite.next_headers (client stream);
  skip_headers = finite.skip_headers (client stream);
}

-- What is thrown is the fault of an entry.
abbrev pub is_fault : {A : Type 0} → Result A → Bool
is_fault (throws (entry_fault f)) = true
is_fault _ = false

pub no_fault : {A : Type 0} → false ≡ true → A
no_fault e = absurd (ground arith)

module _ {W E : Type 0} {lib : LibArchive W E} (finite : FiniteHeaders lib) where
  -- A search that ends with the fault of an entry has read a header, or reached the end.
  abbrev pub FaultsFewer : Archive W E → Loop lib → Type 0
  FaultsFewer a none = Unit {0}
  FaultsFewer a (some m) = is_fault m.0 ≡ true → left_in finite m.1 < left_in finite a

  FaultsFewer-trans :
      (a a' : Archive W E) (m : Loop lib)
      → left_in finite a' < left_in finite a
      → FaultsFewer a' m
      → FaultsFewer a m
  FaultsFewer-trans a a' none less h = tt
  FaultsFewer-trans a a' (some m) less h = λ e. let later = h e in omega arith

  named-FaultsFewer :
      (next : Archive W E → Loop lib) (a a' : Archive W E) (b : Bool)
      → left_in finite a' < left_in finite a
      → FaultsFewer a' (next a')
      → FaultsFewer a (if not b then some (ok true, a') else next a')
  named-FaultsFewer next a a' true fewer rec = FaultsFewer-trans a a' (next a') fewer rec
  named-FaultsFewer next a a' false fewer rec = λ e. no_fault e

  round-FaultsFewer :
      (next : Archive W E → Loop lib) (a : Archive W E) (m : Step lib Bool)
      → LeavesFewer finite a m
      → ((a' : Archive W E) → FaultsFewer a' (next a'))
      → FaultsFewer a (named_round lib next m)
  unfolding named_round
  round-FaultsFewer next a (throws (entry_fault g), a') fewer rec = λ e. fewer
  round-FaultsFewer next a (throws (invalid_argument t), a') fewer rec = λ e. no_fault e
  round-FaultsFewer next a (throws (logic_error t), a') fewer rec = λ e. no_fault e
  round-FaultsFewer next a (throws Exception.undefined, a') fewer rec = λ e. no_fault e
  round-FaultsFewer next a (throws Exception.stuck, a') fewer rec = λ e. no_fault e
  round-FaultsFewer next a (throws Exception.filesystem_error, a') fewer rec = λ e. no_fault e
  round-FaultsFewer next a (ok false, a') fewer rec = λ e. no_fault e
  round-FaultsFewer next a (ok true, a') fewer rec =
      named-FaultsFewer next a a' (is_empty a'.current_entryname) fewer (rec a')

  pub skip_to_named-FaultsFewer :
      (fuel : ℕ) (a : Archive W E) → FaultsFewer a (skip_to_named lib fuel a)
  unfolding skip_to_named
  skip_to_named-FaultsFewer zero a = tt
  skip_to_named-FaultsFewer (suc fuel) a =
      round-FaultsFewer (skip_to_named lib fuel) a _ (next-fewer finite a)
        (skip_to_named-FaultsFewer fuel)
