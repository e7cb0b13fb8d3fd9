-- ===== src/Metadata.antt =====
-- src/file/metadataManager.cpp: what is known of a file, and the check of a merged file against it.
-- The global `metadataStore` is an argument, and a result where it changes; its last insertion
-- for a key is found first.
pub mod Verify
use ai_optimized_distributed.Base.{
  ℕ, zero, suc, ◌+◌, Bool, true, false, Option, none, some, List, [], ◌∷◌, ◌++◌, Bytes, bytes_eq,
  is_empty, if◌then◌else◌, ◌==◌,
}
use ai_optimized_distributed.Base.Decimal.{ℤ, pos, negsuc}
use ai_optimized_distributed.Disk.{Disk, file_size, exists}
use ai_optimized_distributed.Chunks.{get_chunk_path}
use ai_optimized_distributed.Hash.{Evp, compute_file_sha256}

pub record ChunkMetadata : Type 0 where
  pub chunk_index : ℕ
  pub chunk_path : Bytes
  pub chunk_size : ℕ
  pub chunk_hash : Bytes

pub record FileMetadata : Type 0 where
  pub file_id : Bytes
  pub file_name : Bytes
  pub file_size : ℕ
  pub chunk_size : ℕ
  pub total_chunks : ℤ
  pub file_hash : Bytes
  pub chunks : List ChunkMetadata

abbrev pub MetadataStore : Type 0
MetadataStore = Bytes → Option FileMetadata

unfoldable pub add_file_metadata : MetadataStore → FileMetadata → Bool × MetadataStore
add_file_metadata store metadata =
    if is_empty metadata.file_id
    then (false, store)
    else (true, λ k. if bytes_eq k metadata.file_id then some metadata else store k)

unfoldable pub get_file_metadata : MetadataStore → Bytes → Option FileMetadata
get_file_metadata store file_id = store file_id

abbrev found : Option FileMetadata → Bool
found none = false
found (some m) = true

unfoldable pub has_file_metadata : MetadataStore → Bytes → Bool
has_file_metadata store file_id = found (store file_id)

-- `filesystem::path(p).filename()`: what follows the last slash.
unfoldable pub file_name_of : Bytes → Bytes → Bytes
file_name_of seen [] = seen
file_name_of seen (c ∷ s) = file_name_of (if c == b'/' then [] else seen ++ c ∷ []) s

module _ (evp : Evp) where
  -- The loop over the chunks; `none` is a chunk that cannot be hashed.
  unfoldable pub chunk_metadata : Disk → Bytes → Bytes → ℕ → ℕ → Option (List ChunkMetadata)
  chunk_metadata d base_chunk_dir file_id zero chunk_index = some []
  chunk_metadata d base_chunk_dir file_id (suc rounds) chunk_index =
      let path = get_chunk_path base_chunk_dir file_id (pos chunk_index) in
      elim (compute_file_sha256 evp d path) [
        | none ↦ none
        | some chunk_hash ↦
            elim (chunk_metadata d base_chunk_dir file_id rounds (chunk_index + 1)) [
              | none ↦ none
              | some chunks ↦ some (
                  record {
                    chunk_index = chunk_index;
                    chunk_path = path;
                    chunk_size = file_size d path;
                    chunk_hash = chunk_hash;
                  }
                  ∷ chunks)
            ]
      ]

  abbrev pub rounds_of : ℤ → ℕ
  rounds_of (pos n) = n
  rounds_of (negsuc n) = 0

  -- A file that cannot be hashed keeps the empty hash that it was made with.
  abbrev pub hash_or_empty : Option Bytes → Bytes
  hash_or_empty none = []
  hash_or_empty (some h) = h

  -- `filesystem::file_size` throws for a file that is not there, which gives false.
  unfoldable pub build_and_store_metadata :
      Disk → MetadataStore → Bytes → Bytes → Bytes → ℕ → ℤ → Bool × MetadataStore
  unfolding chunk_metadata file_name_of add_file_metadata
  build_and_store_metadata d store input_path base_chunk_dir file_id chunk_size chunk_count =
      if exists d input_path
      then (elim (chunk_metadata d base_chunk_dir file_id (rounds_of chunk_count) 0) [
        | none ↦ (false, store)
        | some chunks ↦ add_file_metadata store (record {
          file_id = file_id;
          file_name = file_name_of [] input_path;
          file_size = file_size d input_path;
          chunk_size = chunk_size;
          total_chunks = chunk_count;
          file_hash = hash_or_empty (compute_file_sha256 evp d input_path);
          chunks = chunks;
        })
      ])
      else (false, store)

  abbrev pub same_hash : Bytes → Option Bytes → Bool
  same_hash file_hash none = false
  same_hash file_hash (some reconstructed_hash) = bytes_eq reconstructed_hash file_hash

  unfoldable pub verify_merged_file_hash : Disk → MetadataStore → Bytes → Bytes → Bool
  unfolding get_file_metadata
  verify_merged_file_hash d store file_id reconstructed_path =
      elim (get_file_metadata store file_id) [
        | none ↦ false
        | some metadata ↦
            same_hash metadata.file_hash (compute_file_sha256 evp d reconstructed_path)
      ]
