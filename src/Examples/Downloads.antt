-- ===== src/Examples/Downloads.antt =====
-- Runs of src/peer/chunkScheduler.cpp and of the worker tasks of src/peer/peer.cpp.
use ai_optimized_distributed.Base.{
  ℕ, length, ◌*◌, ◌+◌, ◌⊎◌, ◌≤◌, ◌≡◌, refl, Bool, true, false, List, [], ◌∷◌, arith, ◌==◌,
}
use ai_optimized_distributed.Scheduler.{new_scheduler, is_done, get_next_chunk, mark_done}
use ai_optimized_distributed.Status.{ChunkDownloadStatus, not_started, failed}
use ai_optimized_distributed.Workers.{Schedule, start_download, step, run}
use ai_optimized_distributed.Workers.Holding.{Inv, run-Inv}
use ai_optimized_distributed.Workers.Completion.{all_returned, start_download-Inv}
use ai_optimized_distributed.Workers.Termination.{AllWork, CanWork, run_terminates}
use ai_optimized_distributed.Workers.Starvation.{run_never_returns}

-- Two workers, two chunks, of which the second lies in a directory.
abbrev lies_there : ℕ → Bool
lies_there i = i == 1

abbrev loaded : List ChunkDownloadStatus
loaded = not_started ∷ failed ∷ []

abbrev delivers : ℕ → Bool
delivers c = true

abbrev refuses : ℕ → Bool
refuses c = false

-- Worker 0 takes chunk 0 and fails, worker 1 takes it over and is served, and both return.
abbrev takes_over : Schedule
takes_over =
    (0, refuses)
    ∷ (0, refuses)
    ∷ (0, refuses)
    ∷ (1, delivers)
    ∷ (1, delivers)
    ∷ (1, delivers)
    ∷ (0, delivers)
    ∷ (1, delivers)
    ∷ []

run-Inv_example : Inv (run (start_download 2 2 lies_there loaded) takes_over)
run-Inv_example =
    run-Inv (start_download 2 2 lies_there loaded) takes_over
      (start_download-Inv 2 2 lies_there loaded refl)

-- Only worker 0 is served, and never with chunk 0.
abbrev in_vain : Schedule
in_vain = (0, refuses) ∷ (0, refuses) ∷ (0, refuses) ∷ (0, refuses) ∷ (1, refuses) ∷ []

not_there : is_done (start_download 2 2 lies_there loaded).scheduler 0 ≡ false
unfolding start_download mark_done new_scheduler
not_there = refl

run_never_returns_example :
    all_returned (run (start_download 2 2 lies_there loaded) in_vain).workers ≡ false
run_never_returns_example =
    run_never_returns 2 2 0 lies_there loaded in_vain (omega arith) refl (omega arith) not_there
      (refl, (refl, (refl, (refl, (refl, tt)))))

-- The second worker finds no chunk; the first fetches the one that is missing.
abbrev served_in_turn : Schedule
served_in_turn = (0, delivers) ∷ (1, delivers) ∷ (0, delivers) ∷ (0, delivers) ∷ (0, delivers) ∷ []

all_work : AllWork (start_download 2 2 lies_there loaded) served_in_turn
unfolding start_download step mark_done get_next_chunk new_scheduler
all_work = (tt, (tt, (tt, (refl, (tt, tt)))))

run_terminates_example :
    (length served_in_turn ≤ 3 * 2 + 2)
    × ((all_returned (run (start_download 2 2 lies_there loaded) served_in_turn).workers ≡ true)
        ⊎ CanWork (run (start_download 2 2 lies_there loaded) served_in_turn).workers)
run_terminates_example = run_terminates 2 2 lies_there loaded served_in_turn refl all_work
