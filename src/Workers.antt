-- ===== src/Workers.antt =====
-- src/peer/peer.cpp, `downloadFileFromMultiplePeers`: the worker tasks and their shared state.
-- A step lets one worker run one critical section: `getNextChunk` under the scheduler's mutex, the
-- mark IN_PROGRESS under `stateMutex`, or the outcome of a request under `stateMutex`. The
-- scheduler decides which worker is next, so a schedule is a list of workers, each with the
-- outcome that a request for each chunk would have at that moment.
pub mod Holding
pub mod Completion
pub mod Starvation
pub mod Termination
use ai_optimized_distributed.Base.{
  ℕ, zero, suc, ◌+◌, Bool, true, false, Option, none, some, List, [], ◌∷◌, get_elem?, get_or, ◌||◌,
  set, replicate, if◌then◌else◌, ◌==◌,
}
use ai_optimized_distributed.Base.Decimal.{pos}
use ai_optimized_distributed.Scheduler.{
  ChunkScheduler, new_scheduler, get_next_chunk, mark_done, mark_failed,
}
use ai_optimized_distributed.Status.{
  ChunkDownloadStatus, is_done, not_started, in_progress, done, failed,
}

-- Where a worker stands: before `getNextChunk`, with a chunk in hand, in the request for it, or
-- returned.
pub data Worker : Type 0 where
  ready : Worker
  assigned requesting : ℕ → Worker
  returned : Worker

pub record Download : Type 0 where
  pub scheduler : ChunkScheduler
  pub chunk_status : List ChunkDownloadStatus
  pub workers : List Worker

-- The loop before the workers start: a chunk that is DONE in the loaded state, or that lies in a
-- directory, is marked done in both places. The first argument counts the rounds left.
unfoldable pub mark_present :
    ℕ
    → ℕ
    → (ℕ → Bool)
    → ChunkScheduler
    → List ChunkDownloadStatus
    → ChunkScheduler × List ChunkDownloadStatus
mark_present zero i exists sched status = (sched, status)
mark_present (suc rounds) i exists sched status =
    let here = is_done (get_or status i not_started) || exists i in
    mark_present rounds (i + 1) exists (if here then mark_done sched (pos i) else sched)
      (if here then set status i done else status)

-- The state in which the pool starts: every worker is before its first `getNextChunk`.
unfoldable pub start_download : ℕ → ℕ → (ℕ → Bool) → List ChunkDownloadStatus → Download
unfolding mark_present
start_download worker_count total_chunks exists loaded =
    let (sched, status) = mark_present total_chunks 0 exists (new_scheduler total_chunks) loaded in
    record { scheduler = sched; chunk_status = status; workers = replicate worker_count ready }

unfoldable pub took : Download → ℕ → Option ℕ × ChunkScheduler → Download
took d w (none, s) = record d { scheduler = s; workers = set d.workers w returned }
took d w (some c, s) = record d { scheduler = s; workers = set d.workers w (assigned c) }

unfoldable pub finish : Download → ℕ → ℕ → Bool → Download
finish d w c true = record {
  scheduler = mark_done d.scheduler (pos c);
  chunk_status = set d.chunk_status c done;
  workers = set d.workers w ready;
}
finish d w c false = record {
  scheduler = mark_failed d.scheduler (pos c);
  chunk_status = set d.chunk_status c failed;
  workers = set d.workers w ready;
}

-- The step of worker `w`, which stands at `p`.
unfoldable pub advance : Download → ℕ → (ℕ → Bool) → Option Worker → Download
advance d w outcome none = d
advance d w outcome (some ready) = took d w (get_next_chunk d.scheduler)
advance d w outcome (some (assigned c)) = record d {
  chunk_status = set d.chunk_status c in_progress;
  workers = set d.workers w (requesting c);
}
advance d w outcome (some (requesting c)) = finish d w c (outcome c)
advance d w outcome (some returned) = d

unfoldable pub step : Download → ℕ × (ℕ → Bool) → Download
unfolding advance took finish
step d (w, outcome) = advance d w outcome (get_elem? d.workers w)

abbrev pub Schedule : Type 0
Schedule = List (ℕ × (ℕ → Bool))

unfoldable pub run : Download → Schedule → Download
unfolding step
run d [] = d
run d (e ∷ es) = run (step d e) es
