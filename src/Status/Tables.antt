-- ===== src/Status/Tables.antt =====
-- src/peer/peer.cpp: `findMissingChunks` and `allChunksDone` against the statuses one by one.
use ai_optimized_distributed.Base.{
  ℕ, suc, ◌+◌, ◌<◌, ◌≡◌, refl, List, [], ◌∷◌, some, arith, length, get_elem?,
}
use ai_optimized_distributed.Status.{
  ChunkDownloadStatus, not_started, in_progress, done, failed, chunk_status_to_string,
  string_to_chunk_status, missing_from, find_missing_chunks,
}

-- The text of each status is read back as that status.
pub string_to_chunk_status-to_string :
    (s : ChunkDownloadStatus) → string_to_chunk_status (chunk_status_to_string s) ≡ s
unfolding string_to_chunk_status chunk_status_to_string
string_to_chunk_status-to_string not_started = refl
string_to_chunk_status-to_string in_progress = refl
string_to_chunk_status-to_string done = refl
string_to_chunk_status-to_string failed = refl

missing_from-nil :
    (i : ℕ) (ss : List ChunkDownloadStatus)
    → ((k : ℕ) → k < length ss → get_elem? ss k ≡ some done)
    → missing_from i ss ≡ []
unfolding missing_from
missing_from-nil i [] h = refl
missing_from-nil i (s ∷ ss) h =
    ground (arith, h 0 (omega arith), missing_from-nil (i + 1) ss (λ k p. h (suc k) (omega arith)))

-- No chunk is missing when every status is done.
pub find_missing_chunks-nil :
    (ss : List ChunkDownloadStatus)
    → ((k : ℕ) → k < length ss → get_elem? ss k ≡ some done)
    → find_missing_chunks ss ≡ []
unfolding find_missing_chunks
find_missing_chunks-nil ss = missing_from-nil 0 ss
