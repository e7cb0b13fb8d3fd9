-- ===== src/Download.antt =====
-- src/peer/peer.cpp: `downloadFileFromPeer`, and `downloadFileFromMultiplePeers` from the return of
-- the workers on. The directories that they make are not kept.
pub mod Verified
use ai_optimized_distributed.Base.{
  ℕ, zero, suc, ◌+◌, Bool, true, false, not, Option, List, [], ◌∷◌, Bytes, is_empty, if◌then◌else◌,
}
use ai_optimized_distributed.Base.Decimal.{ℤ, pos, negsuc}
use ai_optimized_distributed.Disk.{Disk}
use ai_optimized_distributed.Chunks.{and_then, merge_chunks}
use ai_optimized_distributed.Hash.{Evp}
use ai_optimized_distributed.Metadata.{MetadataStore, verify_merged_file_hash}
use ai_optimized_distributed.Peer.{PeerConfig}
use ai_optimized_distributed.Scheduler.{ChunkScheduler, all_done}
use ai_optimized_distributed.Status.{ChunkDownloadStatus, find_missing_chunks}
use ai_optimized_distributed.StateFile.{save_download_state, verify_all_chunks_complete}
use ai_optimized_distributed.Request.{Connection, request_chunk_from_peer}

module _ (evp : Evp) (config : PeerConfig) (store : MetadataStore) (file_id : Bytes) where
  -- The end of both functions: the chunks are merged and the result is checked.
  unfoldable pub merge_and_verify : Disk → ℤ → Bytes → Bool × Disk
  merge_and_verify d total_chunks output_path =
      and_then (merge_chunks config.download_dir file_id d total_chunks output_path)
        (λ d'. (verify_merged_file_hash evp d' store file_id output_path, d'))

  -- The loop of `downloadFileFromPeer`. The first argument counts the rounds left; `connections`
  -- says what connecting for each chunk gives.
  unfoldable pub request_loop : ℕ → ℕ → (ℕ → Option Connection) → Disk → Bool × Disk
  request_loop zero chunk_id connections d = (true, d)
  request_loop (suc rounds) chunk_id connections d =
      and_then (request_chunk_from_peer evp config d (connections chunk_id) file_id (pos chunk_id))
        (λ d'. request_loop rounds (chunk_id + 1) connections d')

  unfoldable pub download_file_from_peer : (ℕ → Option Connection) → Disk → ℤ → Bytes → Bool × Disk
  unfolding request_loop merge_and_verify
  download_file_from_peer connections d (negsuc n) output_path = (false, d)
  download_file_from_peer connections d (pos total_chunks) output_path =
      and_then (request_loop total_chunks 0 connections d)
        (λ d'. merge_and_verify d' (pos total_chunks) output_path)

  -- What follows `pool.wait()`: the state is saved, whatever comes of it, and the tests are made in
  -- order.
  unfoldable pub conclude_download :
      Disk → ChunkScheduler → List ChunkDownloadStatus → ℤ → Bytes → Bool × Disk
  unfolding merge_and_verify
  conclude_download d scheduler chunk_status total_chunks output_path =
      let (saved, d') = save_download_state config d file_id chunk_status in
      if not (all_done scheduler)
      then (false, d')
      else if not (is_empty (find_missing_chunks chunk_status))
      then (false, d')
      else if not (verify_all_chunks_complete config d' file_id chunk_status)
      then (false, d')
      else merge_and_verify d' total_chunks output_path
