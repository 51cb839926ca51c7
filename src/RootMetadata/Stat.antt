-- ===== src/RootMetadata/Stat.antt =====
-- `collect_root_path_metadata` of src/system_file_stream.cc: that `stat` is called only for some
-- keys cannot be seen in the metadata, so that each key is independent of the others.
use archive_r.Base.{
  ℕ, zero, suc, ◌≡◌, refl, sym, ap, ◌∙◌, inl, inr, Bool, false, ◌&&◌, Option, none, some, List, [],
  ◌∷◌, Text, codes, ◌==◌, arith, Bool-cases, if◌then◌else◌,
}
use archive_r.Hierarchy.{single, multi_volume, PathHierarchy}
use archive_r.EntryMetadata.{
  EntryMetadataMap, lookup, contains, ◌then_do◌, store, nothing, when, uint64,
}
use archive_r.EntryMetadata.Local.{
  IsLocal, store-IsLocal, nothing-IsLocal, then_do-IsLocal, when-IsLocal, contains_self,
}
use archive_r.RootMetadata.{
  StatBuffer, FileSystem, needs_stat, store_size, store_name, store_stat, store_mode_of,
  stat_statements, root_statements, root_info, classify, collect_root_path_metadata,
  lookup_username, lookup_groupname, holds,
}

module _ (fs : FileSystem) where
  store_name_unwanted :
      (key : Text) (name : Option Text) (w : Text → Bool) (m : EntryMetadataMap)
      → w key ≡ false
      → store_name fs key name w m ≡ m
  unfolding store_name store nothing
  store_name_unwanted key none w m h = refl
  store_name_unwanted key (some name) w m h = rw h refl

  stat_unwanted :
      (buffer : StatBuffer) (w : Text → Bool) (m : EntryMetadataMap)
      → w (codes "uid") ≡ false
      → w (codes "gid") ≡ false
      → w (codes "uname") ≡ false
      → w (codes "gname") ≡ false
      → store_stat fs (some buffer) w m ≡ m
  unfolding store_stat ◌then_do◌ store
  stat_unwanted buffer w m uid gid uname gname =
      rw (uid, gid)
        (rw (store_name_unwanted (codes "uname") (lookup_username fs buffer.st_uid) w m uname)
          (store_name_unwanted (codes "gname") (lookup_groupname fs buffer.st_gid) w m gname))

  size_unneeded :
      (size : ℕ) (buffer : StatBuffer) (w : Text → Bool) (m : EntryMetadataMap)
      → (w (codes "size") && size == 0) ≡ false
      → store_size fs size none w m ≡ store_size fs size (some buffer) w m
  unfolding store_size when store nothing
  size_unneeded zero buffer w m h = ground (arith, h)
  size_unneeded (suc size) buffer w m h = ground (arith, h)

  -- Without a key that needs `stat` its result is not used.
  unneeded :
      (size : ℕ) (buffer : Option StatBuffer) (w : Text → Bool) (m : EntryMetadataMap)
      → needs_stat fs w size ≡ false
      → (store_size fs size none then_do store_stat fs none) w m
        ≡ (store_size fs size buffer then_do store_stat fs buffer) w m
  unfolding ◌then_do◌ nothing needs_stat store_stat
  unneeded size none w m h = refl
  unneeded size (some buffer) w m h =
      size_unneeded size buffer w m (ground (arith, h))
      ∙ sym (
          stat_unwanted buffer w (store_size fs size (some buffer) w m) (ground (arith, h))
            (ground (arith, h)) (ground (arith, h)) (ground (arith, h)))

  -- Calling `stat` only where a key needs it stores the same as calling it whatever is asked for.
  pub statements-stat :
      (size : ℕ) (target : Text) (w : Text → Bool) (m : EntryMetadataMap)
      → stat_statements fs size target w m
        ≡ (store_size fs size (fs.stat target) then_do store_stat fs (fs.stat target)) w m
  unfolding stat_statements
  statements-stat size target w m = elim (Bool-cases (needs_stat fs w size)) [
    | inl e ↦ rw e refl
    | inr e ↦ rw e (unneeded size (fs.stat target) w m e)
  ]

  store_size-IsLocal : (size : ℕ) (buffer : Option StatBuffer) → IsLocal (store_size fs size buffer)
  unfolding store_size
  store_size-IsLocal size none = when-IsLocal _ _ (store-IsLocal _ _)
  store_size-IsLocal size (some buffer) = store-IsLocal _ _

  store_name-IsLocal : (key : Text) (name : Option Text) → IsLocal (store_name fs key name)
  unfolding store_name
  store_name-IsLocal key none = nothing-IsLocal
  store_name-IsLocal key (some name) = store-IsLocal _ _

  store_stat-IsLocal : (buffer : Option StatBuffer) → IsLocal (store_stat fs buffer)
  unfolding store_stat
  store_stat-IsLocal none = nothing-IsLocal
  store_stat-IsLocal (some buffer) = then_do-IsLocal _ _ (store-IsLocal _ _) (
      then_do-IsLocal _ _ (store-IsLocal _ _)
        (then_do-IsLocal _ _ (store_name-IsLocal _ _) (store_name-IsLocal _ _)))

  store_mode_of-IsLocal : (target : Text) → IsLocal (store_mode_of fs target)
  unfolding store_mode_of
  store_mode_of-IsLocal target = by_bits (fs.permissions target)
    where
      by_bits :
          (bits : Option ℕ)
          → IsLocal (elim bits [ none ↦ nothing | some n ↦ store (codes "mode") (uint64 n) ])
      by_bits none = nothing-IsLocal
      by_bits (some n) = store-IsLocal _ _

  stat_statements-IsLocal : (size : ℕ) (target : Text) → IsLocal (stat_statements fs size target)
  stat_statements-IsLocal size target = record {
    agree = λ k w₁ w₂ m₁ m₂ h e.
        ap (lookup k) (statements-stat size target w₁ m₁)
        ∙ always.agree k w₁ w₂ m₁ m₂ h e
        ∙ sym (ap (lookup k) (statements-stat size target w₂ m₂));
    skip = λ k w m h. ap (lookup k) (statements-stat size target w m) ∙ always.skip k w m h;
  }
    where
      always : IsLocal (store_size fs size (fs.stat target) then_do store_stat fs (fs.stat target))
      always = then_do-IsLocal _ _ (store_size-IsLocal size _) (store_stat-IsLocal _)

  root_statements-IsLocal :
      (hierarchy : PathHierarchy) (target : Text) (c : ℕ × ℕ)
      → IsLocal (root_statements fs hierarchy target c)
  unfolding root_statements
  root_statements-IsLocal hierarchy target (filetype, size) =
      then_do-IsLocal _ _ (store-IsLocal _ _) (
        then_do-IsLocal _ _ (store-IsLocal _ _) (
          then_do-IsLocal _ _ (store_mode_of-IsLocal target) (stat_statements-IsLocal size target)))

  root_info-contains :
      (hierarchy : PathHierarchy) (target : Text) (c : ℕ × ℕ) (keys : List Text) (k : Text)
      → lookup k (root_info fs hierarchy target c keys).metadata ≡ (
          if contains keys k
          then lookup k (root_info fs hierarchy target c (k ∷ [])).metadata
          else none)
  unfolding root_info contains lookup
  root_info-contains hierarchy target (filetype, size) [] k = refl
  root_info-contains hierarchy target (filetype, size) (key ∷ keys) k =
      elim (Bool-cases (contains (key ∷ keys) k)) [
        | inl h ↦ rw h (
            (root_statements-IsLocal hierarchy target (filetype, size)).agree k
              (contains (key ∷ keys)) (contains (k ∷ [])) [] [] (h ∙ sym (contains_self k)) refl)
        | inr h ↦ rw h (
            (root_statements-IsLocal hierarchy target (filetype, size)).skip k
              (contains (key ∷ keys)) [] h)
      ]

-- The metadata of a root path is restricted to the allowed keys, and for an allowed key it is the
-- same whatever other keys are allowed, although `stat` is called only for some keys: under a key `k`,
-- the map for `keys` holds what the map for `k` alone holds if `k` is in `keys`, and nothing if it is
-- not.
pub collect_root_path_metadata-contains :
    (fs : FileSystem) (hierarchy : PathHierarchy) (keys : List Text) (k : Text)
    → lookup k (collect_root_path_metadata fs hierarchy keys).metadata ≡ (
        if contains keys k
        then lookup k (collect_root_path_metadata fs hierarchy (k ∷ [])).metadata
        else none)
unfolding collect_root_path_metadata lookup
collect_root_path_metadata-contains fs [] keys k = ground arith
collect_root_path_metadata-contains fs (multi_volume parts ∷ rest) keys k = ground arith
collect_root_path_metadata-contains fs (single target ∷ rest) keys k =
    elim (Bool-cases (fs.entry_opens target && holds (fs.exists target))) [
      | inl e ↦
          rw e (root_info-contains fs (single target ∷ rest) target (classify fs target) keys k)
      | inr e ↦ rw e (ground arith)
    ]
