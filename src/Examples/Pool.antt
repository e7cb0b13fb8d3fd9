-- ===== src/Examples/Pool.antt =====
-- Runs of the thread pool of src/peer/threadPool.cpp, and of a scheduler beside its description.
use ai_optimized_distributed.Base.{◌≡◌, refl, inl, List, [], ◌∷◌, arith, replicate}
use ai_optimized_distributed.Base.Decimal.{pos, negsuc}
use ai_optimized_distributed.Scheduler.{new_scheduler}
use ai_optimized_distributed.Scheduler.Abstract.{
  free, Command, next, done_with, failed_with, ask_all, replies, plain_replies,
}
use ai_optimized_distributed.Scheduler.Refinement.{new_scheduler-replies}
use ai_optimized_distributed.ThreadPool.{Event, add_task, turn, call_wait, new_pool, run, step}
use ai_optimized_distributed.ThreadPool.Threads.{Inv, new_pool-Inv}
use ai_optimized_distributed.ThreadPool.Heard.{NoLateTask, pool_run-Inv}
use ai_optimized_distributed.ThreadPool.Waiting.{WaitReturns, AllFinished, wait_or_join-AllFinished}

-- Two threads, one task, and a caller that waits.
abbrev one_task : List Event
one_task = add_task 5 ∷ turn 0 ∷ turn 1 ∷ turn 0 ∷ call_wait ∷ []

one_task-NoLateTask : NoLateTask (new_pool 2).stop one_task
unfolding new_pool
one_task-NoLateTask = (refl, tt)

pool_run-Inv_example : Inv (run (new_pool 2) one_task)
pool_run-Inv_example =
    pool_run-Inv (new_pool 2) one_task one_task-NoLateTask (new_pool-Inv 2 (omega arith))

one_task-WaitReturns : WaitReturns (run (new_pool 2) one_task)
unfolding run step new_pool
one_task-WaitReturns = ((λ e. cc e), refl)

wait_or_join-AllFinished_example : AllFinished (run (new_pool 2) one_task)
wait_or_join-AllFinished_example =
    wait_or_join-AllFinished (new_pool 2) one_task one_task-NoLateTask
      (new_pool-Inv 2 (omega arith)) (inl one_task-WaitReturns)

-- Two chunks; a chunk that is given back is given out again, and numbers out of range do nothing.
abbrev commands : List Command
commands =
    next
    ∷ next
    ∷ next
    ∷ failed_with (pos 0)
    ∷ next
    ∷ done_with (pos 7)
    ∷ done_with (negsuc 0)
    ∷ done_with (pos 0)
    ∷ ask_all
    ∷ done_with (pos 1)
    ∷ ask_all
    ∷ []

new_scheduler-replies_example :
    replies (new_scheduler 2) commands ≡ plain_replies (replicate 2 free) commands
new_scheduler-replies_example = new_scheduler-replies 2 commands
