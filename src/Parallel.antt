-- ===== src/Parallel.antt =====
-- src/peer/peer.cpp, `downloadFileFromMultiplePeers` as a whole: the tests before the workers, the
-- tasks with all that they do to the disk, and the end. A step lets one task run one critical
-- section, or one request, whose files are those of its own chunk. Who is next, and what the network
-- does in each attempt of a request, is the schedule.
pub mod Refinement
pub mod Whole
use ai_optimized_distributed.Base.{
  ℕ, zero, suc, ◌+◌, ◌%◌, Bool, true, false, ◌&&◌, not, Option, none, some, List, [], ◌∷◌, ◌++◌,
  Bytes, get_elem?, length, set, replicate, is_empty, if◌then◌else◌, ◌==◌, min,
}
use ai_optimized_distributed.Base.Decimal.{ℤ, pos, negsuc}
use ai_optimized_distributed.Disk.{Disk}
use ai_optimized_distributed.Download.{conclude_download}
use ai_optimized_distributed.Hash.{Evp}
use ai_optimized_distributed.Metadata.{MetadataStore}
use ai_optimized_distributed.Peer.{PeerConfig, PeerEndpoint, local_chunk_already_exists}
use ai_optimized_distributed.Request.{Attempt, Call, request_chunk_from_any_peer}
use ai_optimized_distributed.Scheduler.{ChunkScheduler, get_next_chunk, mark_done, mark_failed}
use ai_optimized_distributed.StateFile.{load_download_state, save_download_state}
use ai_optimized_distributed.Status.{ChunkDownloadStatus, not_started, in_progress, done, failed}
use ai_optimized_distributed.UsablePeers.{filter_usable_peers}
use ai_optimized_distributed.Workers.{start_download}

-- Where a task stands: before `getNextChunk`, with a chunk in hand, before the request for it, with
-- the result of the request, or at its end.
pub data Task : Type 0 where
  starting over : Task
  picked asking : ℕ → Task
  told : ℕ → Bool → Task

-- `calls` is what the tracker and the peers saw.
pub record SharedState : Type 0 where
  pub scheduler : ChunkScheduler
  pub chunk_status : List ChunkDownloadStatus
  pub tasks : List Task
  pub disk : Disk
  pub calls : List Call

abbrev pub Turn : Type 0
Turn = ℕ × (ℕ → Attempt)

abbrev pub pick : SharedState → ℕ → Option ℕ × ChunkScheduler → SharedState
pick p w (none, s) = record p { scheduler = s; tasks = set p.tasks w over }
pick p w (some c, s) = record p { scheduler = s; tasks = set p.tasks w (picked c) }

abbrev pub answered : SharedState → ℕ → ℕ → Bool × Disk × List Call → SharedState
answered p w c (ok, d, cs) = record p {
  tasks = set p.tasks w (told c ok);
  disk = d;
  calls = p.calls ++ cs;
}

abbrev pub all_over : List Task → Bool
all_over [] = true
all_over (over ∷ ts) = all_over ts
all_over (starting ∷ ts) = false
all_over (picked c ∷ ts) = false
all_over (asking c ∷ ts) = false
all_over (told c ok ∷ ts) = false

abbrev pub worker_count : ℕ → ℕ → ℕ → ℕ
worker_count peers total_chunks cpu_count =
    min peers (min total_chunks (if cpu_count == 0 then 4 else cpu_count))

module _ (evp : Evp) (config : PeerConfig) (file_id : Bytes) where
  -- The state is saved under the mutex, whatever comes of it.
  abbrev pub saved : SharedState → SharedState
  saved p = record p { disk = (save_download_state config p.disk file_id p.chunk_status).1 }

  abbrev pub conclude_chunk : SharedState → ℕ → ℕ → Bool → SharedState
  conclude_chunk p w c true = saved (record p {
    scheduler = mark_done p.scheduler (pos c);
    chunk_status = set p.chunk_status c done;
    tasks = set p.tasks w starting;
  })
  conclude_chunk p w c false = saved (record p {
    scheduler = mark_failed p.scheduler (pos c);
    chunk_status = set p.chunk_status c failed;
    tasks = set p.tasks w starting;
  })

  module _ (usable_peers : List PeerEndpoint) where
    -- The step of task `w`, which stands at `t`.
    abbrev pub perform : SharedState → ℕ → (ℕ → Attempt) → Option Task → SharedState
    perform p w env none = p
    perform p w env (some over) = p
    perform p w env (some starting) = pick p w (get_next_chunk p.scheduler)
    perform p w env (some (picked c)) = saved (record p {
      chunk_status = set p.chunk_status c in_progress;
      tasks = set p.tasks w (asking c);
    })
    perform p w env (some (asking c)) = answered p w c (
        request_chunk_from_any_peer evp config file_id (pos c) usable_peers
          (c % length usable_peers) env p.disk)
    perform p w env (some (told c ok)) = conclude_chunk p w c ok

    unfoldable pub run_tasks : SharedState → List Turn → SharedState
    run_tasks p [] = p
    run_tasks p ((w, env) ∷ es) = run_tasks (perform p w env (get_elem? p.tasks w)) es

    -- The state in which the tasks are added.
    unfoldable pub start_tasks : ℕ → ℕ → List ChunkDownloadStatus → Disk → SharedState
    start_tasks cpu_count total_chunks loaded d =
        let started =
          start_download (worker_count (length usable_peers) total_chunks cpu_count) total_chunks
            (λ i. local_chunk_already_exists config d file_id (pos i)) loaded in
        record {
          scheduler = started.scheduler;
          chunk_status = started.chunk_status;
          tasks = replicate (worker_count (length usable_peers) total_chunks cpu_count) starting;
          disk = d;
          calls = [];
        }

  module _ (store : MetadataStore) where
    -- `pool.wait()` comes back when all tasks are over; `none` is a schedule at whose end it still waits.
    abbrev pub await : ℤ → Bytes → SharedState → Option (Bool × Disk)
    await total_chunks output_path p =
        if all_over p.tasks
        then some (
            conclude_download evp config store file_id p.disk p.scheduler p.chunk_status
              total_chunks output_path)
        else none

    abbrev pub with_state :
        List PeerEndpoint
        → ℕ
        → ℕ
        → Bytes
        → List Turn
        → Disk
        → Bool × List ChunkDownloadStatus
        → Option (Bool × Disk)
    with_state usable_peers cpu_count total_chunks output_path es d (false, loaded) =
        some (false, d)
    with_state usable_peers cpu_count total_chunks output_path es d (true, loaded) =
        await (pos total_chunks) output_path
          (run_tasks usable_peers (start_tasks usable_peers cpu_count total_chunks loaded d) es)

    unfoldable pub download_file_from_multiple_peers :
        ℕ → List PeerEndpoint → ℤ → Bytes → List Turn → Disk → Option (Bool × Disk)
    unfolding run_tasks start_tasks
    download_file_from_multiple_peers cpu_count peers (negsuc n) output_path es d = some (false, d)
    download_file_from_multiple_peers cpu_count peers (pos zero) output_path es d = some (false, d)
    download_file_from_multiple_peers cpu_count peers (pos (suc n)) output_path es d =
        let usable_peers = filter_usable_peers config peers in
        if is_empty usable_peers
        then some (false, d)
        else with_state usable_peers cpu_count (suc n) output_path es d
            (load_download_state config d file_id (replicate (suc n) not_started) (pos (suc n)))
