-- ===== src/ThreadPool/Heard.antt =====
-- src/peer/threadPool.cpp: the tasks are started in order, each once, and no wake-up is lost.
use ai_optimized_distributed.Base.{
  ℕ, zero, suc, ◌<◌, ◌≡◌, refl, sym, ◌∙◌, Bool, true, false, ◌&&◌, Option, none, some, List, [],
  ◌∷◌, arith, get_elem?, total, is_empty, if◌then◌else◌, ◌==◌,
}
use ai_optimized_distributed.ThreadPool.{
  Thread, awake, asleep, returned, running, Waiter, away, checking, dozing, through, ThreadPool,
  Event, add_task, notify, spurious, turn, call_wait, waiter_turn, destroy, any_asleep, wake_all,
  idle, take_task, finish_task, take_turn, deliver, wake_up, check_done, step, run,
}
use ai_optimized_distributed.ThreadPool.Counts.{
  in_task, in_task_of, is_busy, has_left, all_threads, total-wake_all, sleeps-wake_all,
  length-wake_all,
}
use ai_optimized_distributed.ThreadPool.Threads.{
  Inv, add_task-Inv, deliver-Inv, wake_up-Inv, take_turn-Inv,
}

-- No task is added once the destructor has begun.
abbrev pub NoLateTask : Bool → List Event → Type 0
NoLateTask b [] = Unit {0}
NoLateTask b (add_task a ∷ es) = (b ≡ false) × NoLateTask b es
NoLateTask b (notify i ∷ es) = NoLateTask b es
NoLateTask b (spurious i ∷ es) = NoLateTask b es
NoLateTask b (turn i ∷ es) = NoLateTask b es
NoLateTask b (call_wait ∷ es) = NoLateTask b es
NoLateTask b (waiter_turn ∷ es) = NoLateTask b es
NoLateTask b (destroy ∷ es) = NoLateTask true es

with_waiter-Inv :
    (p : ThreadPool) (w : Waiter)
    → (w ≡ dozing → p.tasks ≡ [] → 0 < p.active_tasks)
    → Inv p
    → Inv (record p { waiter = w })
with_waiter-Inv p w h v = record {
  some_thread = v.some_thread;
  counted = v.counted;
  in_order = v.in_order;
  accounted = v.accounted;
  heard = v.heard;
  left = v.left;
  noticed = h;
}

still_busy :
    (ts : List ℕ) (n : ℕ)
    → (if is_empty ts && (n == 0) then through else dozing) ≡ dozing
    → ts ≡ []
    → 0 < n
still_busy [] zero e f = cc
still_busy [] (suc n) e f = omega arith
still_busy (t ∷ ts) n e f = cc

check_done-Inv : (p : ThreadPool) (w : Waiter) → Inv p → Inv (check_done p w)
unfolding check_done
check_done-Inv p away v = v
check_done-Inv p checking v = with_waiter-Inv p _ (still_busy p.tasks p.active_tasks) v
check_done-Inv p dozing v = v
check_done-Inv p through v = v

destroy-Inv : (p : ThreadPool) → Inv p → Inv (step p destroy)
unfolding step
destroy-Inv p v = record {
  some_thread = omega (arith, v.some_thread, length-wake_all p.threads);
  counted = v.counted ∙ sym (total-wake_all in_task p.threads refl);
  in_order = v.in_order;
  accounted = λ a. omega (arith, v.accounted a, total-wake_all (in_task_of a) p.threads refl);
  heard = λ n (b : total is_busy (wake_all p.threads) ≡ 0).
      (v.left (
        omega (
          arith,
          b,
          v.some_thread,
          all_threads (wake_all p.threads),
          sleeps-wake_all p.threads,
          length-wake_all p.threads,
          total-wake_all has_left p.threads refl,
        ))).1;
  left = λ q. (refl, (v.left (omega (arith, q, total-wake_all has_left p.threads refl))).1);
  noticed = v.noticed;
}

if-stop :
    (p : ThreadPool) (b : Bool) (n : ℕ) → (if b then p else record p { notified = n }).stop ≡ p.stop
if-stop p true n = refl
if-stop p false n = refl

deliver-stop :
    (p : ThreadPool) (i : ℕ) (t : Option Thread) (n : ℕ) → (deliver p i t n).stop ≡ p.stop
unfolding deliver
deliver-stop p i none zero = refl
deliver-stop p i (some t) zero = refl
deliver-stop p i none (suc n) = if-stop p (any_asleep p.threads) n
deliver-stop p i (some awake) (suc n) = if-stop p (any_asleep p.threads) n
deliver-stop p i (some asleep) (suc n) = refl
deliver-stop p i (some returned) (suc n) = if-stop p (any_asleep p.threads) n
deliver-stop p i (some (running a)) (suc n) = if-stop p (any_asleep p.threads) n

wake_up-stop : (p : ThreadPool) (i : ℕ) (t : Option Thread) → (wake_up p i t).stop ≡ p.stop
unfolding wake_up
wake_up-stop p i none = refl
wake_up-stop p i (some awake) = refl
wake_up-stop p i (some asleep) = refl
wake_up-stop p i (some returned) = refl
wake_up-stop p i (some (running a)) = refl

idle-stop : (p : ThreadPool) (i : ℕ) (b : Bool) → (idle p i b).stop ≡ p.stop
unfolding idle
idle-stop p i true = refl
idle-stop p i false = refl

take_task-stop : (p : ThreadPool) (i : ℕ) (ts : List ℕ) → (take_task p i ts).stop ≡ p.stop
unfolding take_task
take_task-stop p i [] = idle-stop p i p.stop
take_task-stop p i (t ∷ ts) = refl

take_turn-stop : (p : ThreadPool) (i : ℕ) (t : Option Thread) → (take_turn p i t).stop ≡ p.stop
unfolding take_turn finish_task
take_turn-stop p i none = refl
take_turn-stop p i (some awake) = take_task-stop p i p.tasks
take_turn-stop p i (some asleep) = refl
take_turn-stop p i (some returned) = refl
take_turn-stop p i (some (running a)) = refl

check_done-stop : (p : ThreadPool) (w : Waiter) → (check_done p w).stop ≡ p.stop
unfolding check_done
check_done-stop p away = refl
check_done-stop p checking = refl
check_done-stop p dozing = refl
check_done-stop p through = refl

-- One step keeps what holds, and what the rest of the schedule may do.
pub step-Inv :
    (p : ThreadPool) (e : Event) (es : List Event)
    → NoLateTask p.stop (e ∷ es)
    → Inv p
    → Inv (step p e) × NoLateTask (step p e).stop es
unfolding step
step-Inv p (add_task a) es (h, hs) v = (add_task-Inv p a h v, hs)
step-Inv p (notify i) es h v =
    let t = get_elem? p.threads i in
    (deliver-Inv p i v t p.notified refl, rw (deliver-stop p i t p.notified) h)
step-Inv p (spurious i) es h v =
    let t = get_elem? p.threads i in (wake_up-Inv p i v t refl, rw (wake_up-stop p i t) h)
step-Inv p (turn i) es h v =
    let t = get_elem? p.threads i in (take_turn-Inv p i v t refl, rw (take_turn-stop p i t) h)
step-Inv p call_wait es h v = (with_waiter-Inv p checking (λ q f. cc) v, h)
step-Inv p waiter_turn es h v = (check_done-Inv p p.waiter v, rw (check_done-stop p p.waiter) h)
step-Inv p destroy es h v = (destroy-Inv p v, h)

-- From a state in which this holds, it holds after every schedule of the threads that adds no task
-- once the destructor has begun: there is a thread; `active_tasks` is the number of threads in a task; the tasks are
-- started in the order in which they were added, each once, and each that was started has finished
-- or is in a thread; tasks that wait have a notification on its way or a thread that is not asleep,
-- so no wake-up is lost; a thread has returned only after the destructor began and with no task
-- left; and a caller of `wait` sleeps only while there is work.
pub pool_run-Inv :
    (p : ThreadPool) (es : List Event) → NoLateTask p.stop es → Inv p → Inv (run p es)
unfolding run
pool_run-Inv p [] h v = v
pool_run-Inv p (e ∷ es) h v = let (v', h') = step-Inv p e es h v in pool_run-Inv (step p e) es h' v'
