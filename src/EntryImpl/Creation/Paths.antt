-- ===== src/EntryImpl/Creation/Paths.antt =====
-- The hierarchy of an entry that the constructor of src/entry.cc makes.
use archive_r.Base.{◌≡◌, refl, Bool, true, false, Option, none, some, ltb, length, if◌then◌else◌}
use archive_r.Hierarchy.{PathHierarchy}
use archive_r.RootMetadata.{FileSystem}
use archive_r.EntryImpl.{Impl}
use archive_r.EntryImpl.Creation.{
  ArchiveView, Source, make_entry, described, from_archive, from_root, with_default_type,
}

-- An entry has the hierarchy that it is made for.
abbrev pub HasPath : {R P : Type 0} → PathHierarchy → Impl R P → Type 0
HasPath h e = e.path_hierarchy ≡ h

either-HasPath :
    {R P : Type 0} (h : PathHierarchy) (b : Bool) (e e' : Impl R P)
    → HasPath h e
    → HasPath h e'
    → HasPath h (if b then e else e')
either-HasPath h true e e' here here' = here
either-HasPath h false e e' here here' = here'

root-HasPath :
    {R P : Type 0} (fs : FileSystem) (h : PathHierarchy) (e : Impl R P) (source : Source P)
    → HasPath h e
    → HasPath h (from_root fs e source)
unfolding from_root
root-HasPath fs h e source here = either-HasPath h _ _ e here here

typed-HasPath :
    {R P : Type 0} (fs : FileSystem) (h : PathHierarchy) (source : Source P) (e : Impl R P)
    → HasPath h e
    → HasPath h (with_default_type fs source e)
unfolding with_default_type
typed-HasPath fs h source e here = either-HasPath h _ _ e here here

described-HasPath :
    {R P : Type 0} (fs : FileSystem) (h : PathHierarchy) (e : Impl R P) (source : Source P)
    (o : Option ArchiveView)
    → HasPath h e
    → HasPath h (described fs e source o)
unfolding described from_archive
described-HasPath fs h e source none here = root-HasPath fs h e source here
described-HasPath {R} {P} fs h e source (some view) here =
    let archived : Impl R P = from_archive fs e source view in
    let rooted : Impl R P = from_root fs e source in
    let deep = ltb 1 (length e.path_hierarchy) in
    typed-HasPath fs h source (if deep then archived else rooted)
      (either-HasPath h deep archived rooted here (root-HasPath fs h e source here))

pub make_entry-HasPath :
    {R P : Type 0} (fs : FileSystem) (h : PathHierarchy) (o : Option (R × Source P)) (b : Bool)
    → HasPath h (make_entry fs h o b)
unfolding make_entry
make_entry-HasPath fs h none b = refl
make_entry-HasPath fs h (some (r, source)) b = described-HasPath fs h _ source source.archive refl
