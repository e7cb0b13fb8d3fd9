-- ===== src/Metadata/Verify.antt =====
-- src/file/metadataManager.cpp: what a positive check of a merged file says.
use ai_optimized_distributed.Base.{
  ℕ, ◌≡◌, refl, ap, ◌∙◌, true, Option, none, some, Bytes, arith, Option-cases, Bool-cases, inl, inr,
  bytes_eq, bytes_eq→eq, bytes_eq_refl, is_empty, ◌↔◌, if◌then◌else◌,
}
use ai_optimized_distributed.Base.Decimal.{ℤ}
use ai_optimized_distributed.Disk.{Disk, open_in, exists}
use ai_optimized_distributed.Hash.{Evp, EvpLaws, compute_file_sha256, compute_string_sha256}
use ai_optimized_distributed.Hash.Digest.{compute_file_sha256-string}
use ai_optimized_distributed.Metadata.{
  FileMetadata, MetadataStore, add_file_metadata, get_file_metadata, chunk_metadata,
  build_and_store_metadata, verify_merged_file_hash, rounds_of, same_hash,
}

-- Metadata that was added is found under its own id, and other ids are found as before; metadata
-- with no id is refused and changes nothing.
pub get_file_metadata-add :
    (store : MetadataStore) (m : FileMetadata) (k : Bytes)
    → get_file_metadata (add_file_metadata store m).1 k ≡ (
        if is_empty m.file_id
        then get_file_metadata store k
        else if bytes_eq k m.file_id
        then some m
        else get_file_metadata store k)
unfolding get_file_metadata add_file_metadata
get_file_metadata-add store m k = ground arith

module _ (evp : Evp) (laws : EvpLaws evp) where
  add-stored :
      (store : MetadataStore) (m : FileMetadata)
      → (add_file_metadata store m).0 ≡ true
      → (add_file_metadata store m).1 m.file_id ≡ some m
  unfolding add_file_metadata
  add-stored store m h = ground (arith, bytes_eq_refl m.file_id)

  -- What a successful build leaves in the store.
  abbrev HasHash : Option FileMetadata → Bytes → Type 0
  HasHash o h = (m : FileMetadata) × (o ≡ some m) × (m.file_hash ≡ h)

  module _ (d : Disk) (store : MetadataStore) (input_path base file_id h : Bytes) (size : ℕ)
      (count : ℤ) where
    build-HasHash :
        compute_file_sha256 evp d input_path ≡ some h
        → (build_and_store_metadata evp d store input_path base file_id size count).0 ≡ true
        → HasHash
            ((build_and_store_metadata evp d store input_path base file_id size count).1 file_id)
            h
    unfolding build_and_store_metadata
    build-HasHash e = elim (Bool-cases (exists d input_path)) [
      | inr gone ↦ rw (build_and_store_metadata, gone) λ b. cc
      | inl here ↦ elim (Option-cases (chunk_metadata evp d base file_id (rounds_of evp count) 0)) [
        | inl broken ↦ rw (build_and_store_metadata, here, broken) λ b. cc
        | inr (chunks, read) ↦
            rw (build_and_store_metadata, here, read, e) λ b. (_, add-stored store _ b, refl)
      ]
    ]

  same_hash_iff : (h : Bytes) (o : Option Bytes) → (same_hash evp h o ≡ true) ↔ (o ≡ some h)
  same_hash_iff h none = (λ e. cc, λ e. cc)
  same_hash_iff h (some g) =
      (λ e. ap some (bytes_eq→eq g h e), λ e. let same : g ≡ h = cc in rw same (bytes_eq_refl h))

  -- Once the metadata of an input that can be read and hashed was stored, a merged file that can
  -- be read passes the check exactly when its contents have the hash that the input has.
  pub verify_merged_file_hash-build :
      (d d' : Disk) (store : MetadataStore) (input_path base file_id path s t h : Bytes) (size : ℕ)
      (count : ℤ)
      → open_in d input_path ≡ some s
      → compute_string_sha256 evp s ≡ some h
      → open_in d' path ≡ some t
      → (build_and_store_metadata evp d store input_path base file_id size count).0 ≡ true
      → (verify_merged_file_hash evp d'
            (build_and_store_metadata evp d store input_path base file_id size count).1
            file_id
            path
          ≡ true)
        ↔ (compute_string_sha256 evp t ≡ some h)
  unfolding verify_merged_file_hash
  verify_merged_file_hash-build d d' store input_path base file_id path s t h size count e hs e'
        built =
      let (m, found, same) =
        build-HasHash d store input_path base file_id h size count
          (compute_file_sha256-string evp laws d input_path s e ∙ hs) built in
      rw (verify_merged_file_hash, found, same, compute_file_sha256-string evp laws d' path t e')
        (same_hash_iff h (compute_string_sha256 evp t))
