-- ===== src/EntryImpl/Handle.antt =====
-- The class `Entry` of include/archive_r/entry.h and src/entry.cc: it owns an `Entry::Impl`, which it is without
-- after a move.
use archive_r.Base.{if◌then◌else◌, Bool, false, Option, none, some, Text, ◌≡◌, refl, codes, [], ◌∷◌}
use archive_r.Hierarchy.{PathHierarchy, PartsOrdering}
use archive_r.HierarchyUtils.{hierarchy_display}
use archive_r.EntryImpl.{
  Orchestrators, Impl, copy, set_descent, set_multi_volume_group, emitted_fault,
}
use archive_r.EntryImpl.Creation.{Source, make_entry}
use archive_r.RootMetadata.{FileSystem}

-- `none` is the null pointer of an entry that was moved from.
abbrev pub Entry : Type 0 → Type 0 → Type 0
Entry R P = Option (Impl R P)

-- `Entry::create`, and the constructor that it calls.
pub create_entry :
    {R P : Type 0} → FileSystem → PathHierarchy → Option (R × Source P) → Bool → Entry R P
create_entry fs hierarchy data_source_orchestrator default_descent =
    some (make_entry fs hierarchy data_source_orchestrator default_descent)

-- A member function forwards to the `Impl`; `none` is its call through the null pointer, which is undefined.
unfoldable pub through : {R P A : Type 0} → (Impl R P → A) → Entry R P → Option A
through f none = none
through f (some e) = some (f e)

unfoldable pub path : {R P : Type 0} → Entry R P → Option Text
unfolding through
path entry = through (λ e. hierarchy_display e.path_hierarchy) entry

module _ {W R P : Type 0} (os : Orchestrators W R P) where
  -- The copy constructor.
  pub copy_entry : Entry R P → Entry R P
  copy_entry none = none
  copy_entry (some e) = some (copy os e)

  -- The copy assignment; `same` tells whether both sides are one object.
  pub assign_entry : Bool → Entry R P → Entry R P → Entry R P
  unfolding copy_entry
  assign_entry same target other = if same then target else copy_entry other

  -- The move constructor and the move assignment: the new entry, and the one moved from.
  pub move_entry : Entry R P → Entry R P × Entry R P
  move_entry other = (other, none)

  -- An entry assigned from another object, even a traverser's, takes no directions for the traversal:
  -- enabling descent and marking it as a volume change nothing, and dispatch a fault each.
  assign_entry-refuses :
      (target : Entry R P) (e : Impl R P) (enabled : Bool) (base_name : Text) (o : PartsOrdering)
      (w : W)
      → let held = copy os e in
        (assign_entry false target (some e) ≡ some held)
        × (set_descent os enabled held ≡ (
          held,
          emitted_fault os held (codes "set_descent requires traverser-managed orchestrator") ∷ [],
        ))
        × (set_multi_volume_group os base_name o held w ≡ (
          held,
          w,
          emitted_fault os held
                (codes "set_multi_volume_group requires traverser-managed orchestrator")
              ∷ [],
        ))
  unfolding copy set_descent set_multi_volume_group assign_entry
  assign_entry-refuses target e enabled base_name o w = (refl, refl, refl)
