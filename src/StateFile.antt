-- ===== src/StateFile.antt =====
-- src/peer/peer.cpp: the state file of a download, one line for each chunk, and the last test
-- before a merge.
pub mod RoundTrip
use ai_optimized_distributed.Base.{
  ℕ, zero, suc, ◌+◌, Bool, true, false, Option, none, some, List, [], ◌∷◌, ◌++◌, Bytes, codes,
  length, ltb, set, if◌then◌else◌,
}
use ai_optimized_distributed.Base.Decimal.{ℤ, pos, negsuc, to_string_ℕ, read_int}
use ai_optimized_distributed.Base.Stream.{read_word}
use ai_optimized_distributed.Disk.{Disk, open_in, open_out, write, exists}
use ai_optimized_distributed.Peer.{PeerConfig, is_chunk_present_and_valid}
use ai_optimized_distributed.Status.{
  ChunkDownloadStatus, is_done, chunk_status_to_string, string_to_chunk_status,
}

unfoldable pub get_download_state_path : PeerConfig → Bytes → Bytes
get_download_state_path config file_id = config.download_dir ++ (b'/' ∷ (file_id ++ codes ".state"))

-- One entry of the file; a chunk number out of range is passed over.
abbrev pub set_status : ℕ → ℤ → Bytes → List ChunkDownloadStatus → List ChunkDownloadStatus
set_status total_chunks (negsuc n) status_text chunk_status = chunk_status
set_status total_chunks (pos i) status_text chunk_status =
    if ltb i total_chunks
    then set chunk_status i (string_to_chunk_status status_text)
    else chunk_status

-- The loop `while (in >> chunkId >> statusText)`. Each round reads a byte or more, so the length of
-- the file is fuel enough.
unfoldable pub load_loop : ℕ → ℕ → Bytes → List ChunkDownloadStatus → List ChunkDownloadStatus
load_loop zero total_chunks s chunk_status = chunk_status
load_loop (suc fuel) total_chunks s chunk_status = elim (read_int s) [
  | none ↦ chunk_status
  | some (chunk_id, s₂) ↦ elim (read_word s₂) [
    | none ↦ chunk_status
    | some (status_text, rest) ↦
        load_loop fuel total_chunks rest (set_status total_chunks chunk_id status_text chunk_status)
  ]
]

unfoldable pub load_download_state :
    PeerConfig → Disk → Bytes → List ChunkDownloadStatus → ℤ → Bool × List ChunkDownloadStatus
unfolding load_loop
load_download_state config d file_id chunk_status (negsuc n) = (false, chunk_status)
load_download_state config d file_id chunk_status (pos zero) = (false, chunk_status)
load_download_state config d file_id chunk_status (pos (suc n)) =
    let state_path = get_download_state_path config file_id in
    if exists d state_path
    then (elim (open_in d state_path) [
      | none ↦ (false, chunk_status)
      | some s ↦ (true, load_loop (length s) (suc n) s chunk_status)
    ])
    else (true, chunk_status)

-- The insertions into the output, from entry `i` on.
unfoldable pub insertions : ℕ → List ChunkDownloadStatus → List Bytes
insertions i [] = []
insertions i (s ∷ ss) =
    to_string_ℕ i ∷ codes " " ∷ chunk_status_to_string s ∷ (b'\n' ∷ []) ∷ insertions (i + 1) ss

-- A failed insertion leaves the stream failed, which nobody tests: the rest is not written.
unfoldable pub insert_all : Bytes → Disk → List Bytes → Disk
insert_all path d [] = d
insert_all path d (b ∷ bs) = elim (write d path b) [ none ↦ d | some d' ↦ insert_all path d' bs ]

unfoldable pub save_download_state :
    PeerConfig → Disk → Bytes → List ChunkDownloadStatus → Bool × Disk
unfolding insertions insert_all
save_download_state config d file_id chunk_status =
    let path = get_download_state_path config file_id in
    elim (open_out d path) [
      | none ↦ (false, d)
      | some d' ↦ (true, insert_all path d' (insertions 0 chunk_status))
    ]

unfoldable pub verify_from : PeerConfig → Disk → Bytes → ℕ → List ChunkDownloadStatus → Bool
verify_from config d file_id i [] = true
verify_from config d file_id i (s ∷ ss) =
    let later = verify_from config d file_id (i + 1) ss in
    if is_done s
    then (if is_chunk_present_and_valid config d file_id (pos i) then later else false)
    else false

unfoldable pub verify_all_chunks_complete :
    PeerConfig → Disk → Bytes → List ChunkDownloadStatus → Bool
unfolding verify_from
verify_all_chunks_complete config d file_id chunk_status =
    verify_from config d file_id 0 chunk_status
