-- ===== src/ThreadPool/Waiting.antt =====
-- src/peer/threadPool.cpp, `wait` and the destructor: they come back only when all work is done.
use ai_optimized_distributed.Base.{
  ℕ, ◌≡◌, ◌≢◌, refl, sym, ap, ◌∙◌, inl, inr, ◌⊎◌, ◌&&◌, List, [], ◌∷◌, ◌++◌, append-nil, arith,
  length, total, is_empty, if◌then◌else◌, ◌==◌,
}
use ai_optimized_distributed.ThreadPool.{
  Thread, awake, asleep, returned, running, Waiter, away, checking, dozing, through, ThreadPool,
  Event, waiter_turn, check_done, step, run,
}
use ai_optimized_distributed.ThreadPool.Counts.{
  in_task, has_left, count, all_threads, in_task_of-in_task,
}
use ai_optimized_distributed.ThreadPool.Threads.{Inv}
use ai_optimized_distributed.ThreadPool.Heard.{NoLateTask, pool_run-Inv}

-- Every task that was added was started, and each has finished as often as it was added.
abbrev pub AllFinished : ThreadPool → Type 0
AllFinished p = (p.started ≡ p.added) × ((a : ℕ) → count a p.finished ≡ count a p.added)

idle-AllFinished : (p : ThreadPool) → Inv p → p.tasks ≡ [] → p.active_tasks ≡ 0 → AllFinished p
idle-AllFinished p v e f =
    let all_started : p.started ≡ p.added =
      sym (append-nil p.started) ∙ ap (λ ts. p.started ++ ts) (sym e) ∙ v.in_order in
    (
      all_started,
      λ a. omega (
        arith,
        v.accounted a,
        in_task_of-in_task a p.threads (sym v.counted ∙ f),
        ap (count a) all_started,
      ),
    )

tested :
    (ts : List ℕ) (n : ℕ)
    → (if is_empty ts && (n == 0) then through else dozing) ≡ through
    → (ts ≡ []) × (n ≡ 0)
tested [] n e = (refl, ground arith)
tested (t ∷ ts) n e = cc

gets_through :
    (p : ThreadPool) (w : Waiter)
    → w ≢ through
    → (check_done p w).waiter ≡ through
    → p.waiter ≡ w
    → (p.tasks ≡ []) × (p.active_tasks ≡ 0)
unfolding check_done
gets_through p away n e f = cc
gets_through p checking n e f = tested p.tasks p.active_tasks e
gets_through p dozing n e f = cc
gets_through p through n e f = absurd (n refl)

has_left-all : (ts : List Thread) → total has_left ts ≡ length ts → total in_task ts ≡ 0
has_left-all [] h = refl
has_left-all (awake ∷ ts) h = absurd (omega (arith, all_threads ts))
has_left-all (asleep ∷ ts) h = absurd (omega (arith, all_threads ts))
has_left-all (returned ∷ ts) h = omega (arith, has_left-all ts (omega arith))
has_left-all (running a ∷ ts) h = absurd (omega (arith, all_threads ts))

-- `wait` comes back in the caller's next turn.
abbrev pub WaitReturns : ThreadPool → Type 0
WaitReturns p = (p.waiter ≢ through) × ((step p waiter_turn).waiter ≡ through)

-- The joins of the destructor are through.
abbrev pub AllReturned : ThreadPool → Type 0
AllReturned p = total has_left p.threads ≡ length p.threads

-- After any schedule of a pool that meets the invariant at the start and gets no task once the
-- destructor has begun: where the caller's next turn lets `wait` come back, or every thread has
-- returned, so that the destructor's joins are through, every task that was added up to then
-- has been started and has finished.
pub wait_or_join-AllFinished :
    (p : ThreadPool) (es : List Event)
    → NoLateTask p.stop es
    → Inv p
    → WaitReturns (run p es) ⊎ AllReturned (run p es)
    → AllFinished (run p es)
unfolding step
wait_or_join-AllFinished p es h v (inl (before, after)) =
    let q = run p es in
    let (none_left, none_active) = gets_through q q.waiter before after refl in
    idle-AllFinished q (pool_run-Inv p es h v) none_left none_active
wait_or_join-AllFinished p es h v (inr all_left) =
    let q = run p es in
    let u = pool_run-Inv p es h v in
    idle-AllFinished q u (u.left (omega (arith, u.some_thread))).1
      (u.counted ∙ has_left-all q.threads all_left)
