-- ===== src/Download/Verified.antt =====
-- src/peer/peer.cpp: a download that reports success has left a file with the hash of the metadata.
use ai_optimized_distributed.Base.{
  ℕ, zero, suc, ◌+◌, ◌<◌, ◌≡◌, refl, ap, sym, subst, ◌∙◌, inl, inr, Bool, true, false, Option, none,
  some, List, [], ◌∷◌, Bytes, bytes_eq→eq, arith, length, get_elem?, Option-cases, Bool-cases,
  is_empty,
}
use ai_optimized_distributed.Base.Decimal.{ℤ, pos, negsuc}
use ai_optimized_distributed.Disk.{Disk}
use ai_optimized_distributed.Chunks.{and_then, merge_chunks}
use ai_optimized_distributed.Hash.{Evp, compute_file_sha256}
use ai_optimized_distributed.Metadata.{
  MetadataStore, FileMetadata, get_file_metadata, same_hash, verify_merged_file_hash,
}
use ai_optimized_distributed.Peer.{PeerConfig, is_chunk_present_and_valid}
use ai_optimized_distributed.Scheduler.{ChunkScheduler, all_done}
use ai_optimized_distributed.Status.{
  ChunkDownloadStatus, is_done, not_started, in_progress, done, failed, find_missing_chunks,
}
use ai_optimized_distributed.StateFile.{
  save_download_state, verify_from, verify_all_chunks_complete,
}
use ai_optimized_distributed.Request.{Connection}
use ai_optimized_distributed.Download.{
  merge_and_verify, request_loop, download_file_from_peer, conclude_download,
}

is_done-eq : (s : ChunkDownloadStatus) → is_done s ≡ true → s ≡ done
is_done-eq not_started h = cc
is_done-eq in_progress h = cc
is_done-eq done h = refl
is_done-eq failed h = cc

verify_from-each :
    (config : PeerConfig) (d : Disk) (file_id : Bytes) (i : ℕ) (ss : List ChunkDownloadStatus)
    → verify_from config d file_id i ss ≡ true
    → (k : ℕ) → k < length ss
    → (get_elem? ss k ≡ some done)
      × (is_chunk_present_and_valid config d file_id (pos (i + k)) ≡ true)
unfolding verify_from
verify_from-each config d file_id i [] h k p = elim p [ ]
verify_from-each config d file_id i (s ∷ ss) h zero p =
    let here : i + 0 ≡ i = omega arith in
    let s_done : is_done s ≡ true = ground arith in
    let valid : is_chunk_present_and_valid config d file_id (pos i) ≡ true = ground arith in
    (ap some (is_done-eq s s_done), rw here valid)
verify_from-each config d file_id i (s ∷ ss) h (suc k) p =
    let next : i + suc k ≡ (i + 1) + k = omega arith in
    let later : verify_from config d file_id (i + 1) ss ≡ true = ground arith in
    rw next (verify_from-each config d file_id (i + 1) ss later k (omega arith))

module _ (evp : Evp) (config : PeerConfig) (store : MetadataStore)
    (file_id output_path : Bytes) where
  -- Success says that the metadata of the file is there and that the output has its hash.
  abbrev pub IsVerified : Bool × Disk → Type 0
  IsVerified (false, d) = Unit {0}
  IsVerified (true, d) =
      (m : FileMetadata) × (get_file_metadata store file_id ≡ some m)
      × (compute_file_sha256 evp d output_path ≡ some m.file_hash)

  no_metadata :
      (d : Disk)
      → get_file_metadata store file_id ≡ none
      → verify_merged_file_hash evp d store file_id output_path ≡ false
  unfolding verify_merged_file_hash
  no_metadata d f = rw (verify_merged_file_hash, f) refl

  compares_hash :
      (d : Disk) (m : FileMetadata)
      → get_file_metadata store file_id ≡ some m
      → verify_merged_file_hash evp d store file_id output_path
        ≡ same_hash evp m.file_hash (compute_file_sha256 evp d output_path)
  unfolding verify_merged_file_hash
  compares_hash d m f = rw (verify_merged_file_hash, f) refl

  verified :
      (d : Disk) (b : Bool)
      → verify_merged_file_hash evp d store file_id output_path ≡ b
      → IsVerified (b, d)
  verified d false e = tt
  verified d true e = elim (Option-cases (get_file_metadata store file_id)) [
    | inl f ↦ absurd (cc (no_metadata d f, e))
    | inr (m, f) ↦ elim (Option-cases (compute_file_sha256 evp d output_path)) [
      | inl g ↦ absurd (cc (compares_hash d m f ∙ ap (same_hash evp m.file_hash) g, e))
      | inr (h, g) ↦
          let compared = sym (compares_hash d m f ∙ ap (same_hash evp m.file_hash) g) ∙ e in
          (m, f, g ∙ ap some (bytes_eq→eq h m.file_hash compared))
    ]
  ]

  and_then-IsVerified :
      (r : Bool × Disk) (f : Disk → Bool × Disk)
      → ((d : Disk) → IsVerified (f d))
      → IsVerified (and_then r f)
  and_then-IsVerified (false, d) f h = tt
  and_then-IsVerified (true, d) f h = h d

  merge_and_verify-IsVerified :
      (d : Disk) (total : ℤ)
      → IsVerified (merge_and_verify evp config store file_id d total output_path)
  unfolding merge_and_verify
  merge_and_verify-IsVerified d total =
      and_then-IsVerified (merge_chunks config.download_dir file_id d total output_path) _
        (λ d'. verified d' (verify_merged_file_hash evp d' store file_id output_path) refl)

  -- When a download from one peer reports success, the metadata of the file is known and the output
  -- has the hash that it gives.
  pub download_file_from_peer-IsVerified :
      (connections : ℕ → Option Connection) (d : Disk) (total : ℤ)
      → IsVerified
          (download_file_from_peer evp config store file_id connections d total output_path)
  unfolding download_file_from_peer
  download_file_from_peer-IsVerified connections d (negsuc n) = tt
  download_file_from_peer-IsVerified connections d (pos n) =
      and_then-IsVerified (request_loop evp config store file_id n 0 connections d) _
        (λ d'. merge_and_verify-IsVerified d' (pos n))

  -- The tests before the merge, chunk by chunk.
  abbrev pub Concludes : Disk → ChunkScheduler → List ChunkDownloadStatus → Bool × Disk → Type 0
  Concludes d scheduler ss (false, d₂) = Unit {0}
  Concludes d scheduler ss (true, d₂) =
      IsVerified (true, d₂)
      × (all_done scheduler ≡ true)
      × ((k : ℕ)
          → k < length ss
          → (get_elem? ss k ≡ some done)
            × (is_chunk_present_and_valid config (save_download_state config d file_id ss).1 file_id
                  (pos k)
                ≡ true))

  Concludes-last :
      (d : Disk) (scheduler : ChunkScheduler) (ss : List ChunkDownloadStatus) (r : Bool × Disk)
      → all_done scheduler ≡ true
      → verify_all_chunks_complete config (save_download_state config d file_id ss).1 file_id ss
        ≡ true
      → IsVerified r
      → Concludes d scheduler ss r
  unfolding verify_all_chunks_complete
  Concludes-last d scheduler ss (false, d₂) h e v = tt
  Concludes-last d scheduler ss (true, d₂) h e v = (
    v,
    h,
    λ k p.
        let from_0 : 0 + k ≡ k = omega arith in
        subst
          (λ i.
            (get_elem? ss k ≡ some done)
            × (is_chunk_present_and_valid config (save_download_state config d file_id ss).1 file_id
                  (pos i)
                ≡ true))
          from_0
          (verify_from-each config (save_download_state config d file_id ss).1 file_id 0 ss e k p),
  )

  -- When a download from several peers reports success, every chunk has the status DONE and a file
  -- with some bytes in one of the two directories before the merge, `allDone` holds, the metadata of
  -- the file is known, and the output has the hash that it gives.
  pub conclude_download-Concludes :
      (d : Disk) (scheduler : ChunkScheduler) (ss : List ChunkDownloadStatus) (total : ℤ)
      → Concludes d scheduler ss
          (conclude_download evp config store file_id d scheduler ss total output_path)
  unfolding conclude_download
  conclude_download-Concludes d scheduler ss total = elim (Bool-cases (all_done scheduler)) [
    | inr unfinished ↦ rw (conclude_download, unfinished) tt
    | inl h ↦ elim (Bool-cases (is_empty (find_missing_chunks ss))) [
      | inr missing ↦ rw (conclude_download, h, missing) tt
      | inl none_missing ↦
          elim (Bool-cases (
            verify_all_chunks_complete config (save_download_state config d file_id ss).1 file_id
              ss)) [
                | inr broken ↦ rw (conclude_download, h, none_missing, broken) tt
                | inl whole ↦
                    rw (conclude_download, h, none_missing, whole)
                      (Concludes-last d scheduler ss _ h whole (
                        merge_and_verify-IsVerified (save_download_state config d file_id ss).1
                          total))
              ]
    ]
  ]
