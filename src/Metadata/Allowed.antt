-- ===== src/Metadata/Allowed.antt =====
-- What the set of allowed keys does in `Archive::current_entry_metadata` of src/archive_type.cc.
use archive_r.Base.{
  ◌≡◌, refl, sym, ◌∙◌, inl, inr, Bool, Option, none, some, List, [], ◌∷◌, Text, ℕ, arith,
  Bool-cases, if◌then◌else◌,
}
use archive_r.ArchiveReader.Handle.{Archive}
use archive_r.Metadata.Reader.{EntryReader}
use archive_r.Metadata.{
  store_names, store_owner, store_mode, store_devices, store_inode, record_time, store_times,
  store_fflags, store_encryption_flag, store_encryption, store_link_and_acl, store_xattrs,
  store_sparse, mac_block, store_digests, store_all, entry_metadata, current_entry_metadata,
}
use archive_r.EntryMetadata.{
  EntryMetadataValue, lookup, contains, store, nothing, when, store_text_or,
}
use archive_r.EntryMetadata.Local.{
  IsLocal, store-IsLocal, nothing-IsLocal, then_do-IsLocal, when-IsLocal, store_text_or-IsLocal,
  store_nonempty_or-IsLocal, nothing-OnlyKey, store_nonempty_or-OnlyKey, contains_self,
}

module _ {E : Type 0} (r : EntryReader E) (e : E) where
  plain_text-IsLocal : (o : Option Text) (key : Text) → IsLocal (store_text_or o key nothing)
  plain_text-IsLocal o key = store_text_or-IsLocal o key nothing nothing-IsLocal

  when-store-IsLocal :
      (b : Bool) (key : Text) (value : EntryMetadataValue) → IsLocal (when b (store key value))
  when-store-IsLocal b key value = when-IsLocal b (store key value) (store-IsLocal key value)

  store_names-IsLocal : IsLocal (store_names r e)
  unfolding store_names
  store_names-IsLocal =
      then_do-IsLocal _ _
        (store_nonempty_or-IsLocal _ _ _
          (store_nonempty_or-IsLocal _ _ _ nothing-IsLocal (nothing-OnlyKey _))
          (store_nonempty_or-OnlyKey _ _ _ (nothing-OnlyKey _)))
        (then_do-IsLocal _ _ (plain_text-IsLocal _ _) (
          then_do-IsLocal _ _ (plain_text-IsLocal _ _) (
            then_do-IsLocal _ _ (store_text_or-IsLocal _ _ _ (plain_text-IsLocal _ _)) (
              then_do-IsLocal _ _ (store_text_or-IsLocal _ _ _ (plain_text-IsLocal _ _))
                (store_text_or-IsLocal _ _ _ (plain_text-IsLocal _ _))))))

  store_owner-IsLocal : IsLocal (store_owner r e)
  unfolding store_owner
  store_owner-IsLocal = then_do-IsLocal _ _ (when-store-IsLocal _ _ _) (when-store-IsLocal _ _ _)

  store_mode-IsLocal : IsLocal (store_mode r e)
  unfolding store_mode
  store_mode-IsLocal = then_do-IsLocal _ _ (store-IsLocal _ _) (
      then_do-IsLocal _ _ (store-IsLocal _ _)
        (then_do-IsLocal _ _ (store-IsLocal _ _) (when-store-IsLocal _ _ _)))

  store_devices-IsLocal : IsLocal (store_devices r e)
  unfolding store_devices
  store_devices-IsLocal = then_do-IsLocal _ _ (when-store-IsLocal _ _ _) (when-store-IsLocal _ _ _)

  store_inode-IsLocal : IsLocal (store_inode r e)
  unfolding store_inode
  store_inode-IsLocal =
      then_do-IsLocal _ _
        (when-IsLocal _ _ (then_do-IsLocal _ _ (store-IsLocal _ _) (store-IsLocal _ _)))
        (then_do-IsLocal _ _ (store-IsLocal _ _) (plain_text-IsLocal _ _))

  store_times-IsLocal : IsLocal (store_times r e)
  unfolding store_times record_time
  store_times-IsLocal = then_do-IsLocal _ _ (when-store-IsLocal _ _ _) (
      then_do-IsLocal _ _ (when-store-IsLocal _ _ _)
        (then_do-IsLocal _ _ (when-store-IsLocal _ _ _) (when-store-IsLocal _ _ _)))

  store_fflags-IsLocal : IsLocal (store_fflags r e)
  unfolding store_fflags
  store_fflags-IsLocal = then_do-IsLocal _ _ (when-store-IsLocal _ _ _) (plain_text-IsLocal _ _)

  store_encryption-IsLocal : IsLocal (store_encryption r e)
  unfolding store_encryption store_encryption_flag
  store_encryption-IsLocal =
      then_do-IsLocal _ _ (when-store-IsLocal _ _ _)
        (then_do-IsLocal _ _ (when-store-IsLocal _ _ _) (when-store-IsLocal _ _ _))

  store_link_and_acl-IsLocal : IsLocal (store_link_and_acl r e)
  unfolding store_link_and_acl
  store_link_and_acl-IsLocal =
      then_do-IsLocal _ _ (when-store-IsLocal _ _ _)
        (then_do-IsLocal _ _ (plain_text-IsLocal _ _) (when-store-IsLocal _ _ _))

  store_xattrs-IsLocal : IsLocal (store_xattrs r e)
  unfolding store_xattrs
  store_xattrs-IsLocal = when-store-IsLocal _ _ _

  store_sparse-IsLocal : IsLocal (store_sparse r e)
  unfolding store_sparse
  store_sparse-IsLocal = when-store-IsLocal _ _ _

  mac_block-IsLocal : (bytes : Option (List ℕ)) → IsLocal (mac_block r e bytes)
  unfolding mac_block
  mac_block-IsLocal none = nothing-IsLocal
  mac_block-IsLocal (some bytes) = when-store-IsLocal _ _ _

  store_digests-IsLocal : IsLocal (store_digests r e)
  unfolding store_digests
  store_digests-IsLocal = when-store-IsLocal _ _ _

  store_all-IsLocal : IsLocal (store_all r e)
  unfolding store_all
  store_all-IsLocal = then_do-IsLocal _ _ store_names-IsLocal (
      then_do-IsLocal _ _ store_owner-IsLocal (
        then_do-IsLocal _ _ store_mode-IsLocal (
          then_do-IsLocal _ _ store_devices-IsLocal (
            then_do-IsLocal _ _ store_inode-IsLocal (
              then_do-IsLocal _ _ store_times-IsLocal (
                then_do-IsLocal _ _ store_fflags-IsLocal (
                  then_do-IsLocal _ _ store_encryption-IsLocal (
                    then_do-IsLocal _ _ store_link_and_acl-IsLocal (
                      then_do-IsLocal _ _ store_xattrs-IsLocal (
                        then_do-IsLocal _ _ store_sparse-IsLocal (
                          then_do-IsLocal _ _ (mac_block-IsLocal _) store_digests-IsLocal)))))))))))

entry_metadata-contains :
    {E : Type 0} (r : EntryReader E) (keys : List Text) (k : Text) (o : Option E)
    → lookup k (entry_metadata r keys o)
      ≡ (if contains keys k then lookup k (entry_metadata r (k ∷ []) o) else none)
unfolding entry_metadata contains lookup
entry_metadata-contains r keys k none = ground arith
entry_metadata-contains r [] k (some e) = refl
entry_metadata-contains r (key ∷ keys) k (some e) = elim (Bool-cases (contains (key ∷ keys) k)) [
  | inl h ↦ rw h (
      (store_all-IsLocal r e).agree k (contains (key ∷ keys)) (contains (k ∷ [])) [] []
        (h ∙ sym (contains_self k)) refl)
  | inr h ↦ rw h ((store_all-IsLocal r e).skip k (contains (key ∷ keys)) [] h)
]

-- The metadata of the current entry is restricted to the allowed keys, and for an allowed key it is
-- the same whatever other keys are allowed: under a key `k`, the map for `keys` holds what the map
-- for `k` alone holds if `k` is in `keys`, and nothing if it is not.
pub current_entry_metadata-contains :
    {W E : Type 0} (r : EntryReader E) (keys : List Text) (k : Text) (a : Archive W E)
    → lookup k (current_entry_metadata r keys a)
      ≡ (if contains keys k then lookup k (current_entry_metadata r (k ∷ []) a) else none)
unfolding current_entry_metadata
current_entry_metadata-contains r keys k a = entry_metadata-contains r keys k a.current_entry
