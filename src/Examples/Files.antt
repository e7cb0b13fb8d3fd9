-- ===== src/Examples/Files.antt =====
-- Runs of src/file/chunkManager.cpp, src/file/hashUtils.cpp and src/file/metadataManager.cpp.
use ai_optimized_distributed.Base.{
  ℕ, ◌≡◌, ◌≢◌, ◌↔◌, refl, true, none, some, [], bytes_eq, codes, arith, if◌then◌else◌,
}
use ai_optimized_distributed.Base.Decimal.{pos, to_string, to_string_ℕ}
use ai_optimized_distributed.Disk.{Disk, open_in}
use ai_optimized_distributed.Chunks.{get_chunk_path, split_file_into_chunks}
use ai_optimized_distributed.Chunks.Split.{path, SplitResult, split_file_into_chunks-SplitResult}
use ai_optimized_distributed.Chunks.Merge.{Restores, merge_chunks-split}
use ai_optimized_distributed.Hash.{compute_file_sha256, compute_string_sha256}
use ai_optimized_distributed.Hash.Digest.{compute_file_sha256-string}
use ai_optimized_distributed.Metadata.{
  MetadataStore, FileMetadata, build_and_store_metadata, verify_merged_file_hash,
}
use ai_optimized_distributed.Metadata.Verify.{verify_merged_file_hash-build}
use ai_optimized_distributed.Examples.{toy_evp, toy_laws, hello_hash, all_allowed, toy_disk}

readable : open_in toy_disk (codes "a") ≡ some (codes "hello")
unfolding open_in
readable = refl

split_file_into_chunks-SplitResult_example :
    SplitResult
      (codes "d")
      (codes "g")
      toy_disk
      (codes "hello")
      2
      (split_file_into_chunks (codes "d") (codes "g") toy_disk (codes "a") 2)
split_file_into_chunks-SplitResult_example =
    split_file_into_chunks-SplitResult (codes "d") (codes "g") toy_disk (codes "a") (codes "hello")
      2 readable (omega arith) (λ i. (refl, λ n. refl))

-- A chunk path starts with the directory, and `m` does not.
elsewhere : (j : ℕ) → path (codes "d") (codes "g") j ≢ codes "m"
unfolding get_chunk_path
elsewhere j e = cc e

merge_chunks-split_example :
    Restores
      (codes "d")
      (codes "g")
      (codes "m")
      (codes "hello")
      (split_file_into_chunks (codes "d") (codes "g") toy_disk (codes "a") 2)
merge_chunks-split_example =
    merge_chunks-split (codes "d") (codes "g") (codes "m") toy_disk (codes "a") (codes "hello") 2
      readable (omega arith) (λ i. (refl, λ n. refl)) (λ j. refl) (refl, λ n. refl) elsewhere

-- The two chunks of a file, in the directory `d`.
abbrev two_chunks : Disk
two_chunks = record {
  files = λ p.
      if bytes_eq p (codes "d/g/chunk_0")
      then some (codes "he")
      else if bytes_eq p (codes "d/g/chunk_1")
      then some (codes "y")
      else none;
  permissions = all_allowed;
}

chunk_0_there : two_chunks.files (path (codes "d") (codes "g") 0) ≡ some (codes "he")
unfolding get_chunk_path to_string to_string_ℕ
chunk_0_there = refl

chunk_1_there : two_chunks.files (path (codes "d") (codes "g") 1) ≡ some (codes "y")
unfolding get_chunk_path to_string to_string_ℕ
chunk_1_there = refl

chunk_2_missing : two_chunks.files (path (codes "d") (codes "g") 2) ≡ none
unfolding get_chunk_path to_string to_string_ℕ
chunk_2_missing = refl

compute_file_sha256-string_example :
    compute_file_sha256 toy_evp toy_disk (codes "a") ≡ compute_string_sha256 toy_evp (codes "hello")
compute_file_sha256-string_example =
    compute_file_sha256-string toy_evp toy_laws toy_disk (codes "a") (codes "hello") readable

abbrev empty_store : MetadataStore
empty_store k = none

abbrev a_file : FileMetadata
a_file = record {
  file_id = codes "g";
  file_name = codes "a";
  file_size = 5;
  chunk_size = 2;
  total_chunks = pos 3;
  file_hash = codes "14";
  chunks = [];
}

built :
    (build_and_store_metadata toy_evp toy_disk empty_store
      (codes "a")
      (codes "d")
      (codes "g")
      2
      (pos 0)).0
    ≡ true
unfolding build_and_store_metadata
built = refl

verify_merged_file_hash-build_example :
    (verify_merged_file_hash toy_evp toy_disk
        (build_and_store_metadata toy_evp toy_disk empty_store
          (codes "a")
          (codes "d")
          (codes "g")
          2
          (pos 0)).1
        (codes "g")
        (codes "a")
      ≡ true)
    ↔ (compute_string_sha256 toy_evp (codes "hello") ≡ some (codes "14"))
verify_merged_file_hash-build_example =
    verify_merged_file_hash-build toy_evp toy_laws toy_disk toy_disk empty_store (codes "a")
      (codes "d") (codes "g") (codes "a") (codes "hello") (codes "hello") (codes "14") 2 (pos 0)
      readable hello_hash readable built
