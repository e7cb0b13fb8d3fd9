-- ===== src/Status.antt =====
-- src/peer/peer.cpp: the status of a chunk's download, its text, and the tests on all statuses.
pub mod Tables
use ai_optimized_distributed.Base.{
  ℕ, zero, suc, ◌+◌, Bool, true, false, List, [], ◌∷◌, Bytes, codes, bytes_eq, if◌then◌else◌,
}

pub data ChunkDownloadStatus : Type 0 where
  not_started in_progress done failed : ChunkDownloadStatus

abbrev pub is_done : ChunkDownloadStatus → Bool
is_done done = true
is_done _ = false

unfoldable pub chunk_status_to_string : ChunkDownloadStatus → Bytes
chunk_status_to_string not_started = codes "NOT_STARTED"
chunk_status_to_string in_progress = codes "IN_PROGRESS"
chunk_status_to_string done = codes "DONE"
chunk_status_to_string failed = codes "FAILED"

unfoldable pub string_to_chunk_status : Bytes → ChunkDownloadStatus
string_to_chunk_status text =
    if bytes_eq text (codes "NOT_STARTED")
    then not_started
    else if bytes_eq text (codes "IN_PROGRESS")
    then in_progress
    else if bytes_eq text (codes "DONE")
    then done
    else if bytes_eq text (codes "FAILED")
    then failed
    else not_started

-- The numbers of the chunks that are not done; the loop counter is the first argument.
missing_from : ℕ → List ChunkDownloadStatus → List ℕ
missing_from i [] = []
missing_from i (s ∷ ss) =
    let later = missing_from (i + 1) ss in if is_done s then later else i ∷ later

unfoldable pub find_missing_chunks : List ChunkDownloadStatus → List ℕ
unfolding missing_from
find_missing_chunks chunk_status = missing_from 0 chunk_status

unfoldable pub all_chunks_done : List ChunkDownloadStatus → Bool
all_chunks_done [] = true
all_chunks_done (s ∷ ss) = if is_done s then all_chunks_done ss else false
