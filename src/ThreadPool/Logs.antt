-- ===== src/ThreadPool/Logs.antt =====
-- src/peer/threadPool.cpp: which logs of the pool a step of a thread changes.
use ai_optimized_distributed.Base.{
  ℕ, zero, suc, ◌≡◌, refl, Bool, true, false, Option, none, some, List, [], ◌∷◌, ◌++◌, get_elem?,
  if◌then◌else◌,
}
use ai_optimized_distributed.ThreadPool.{
  Thread, awake, asleep, returned, running, ThreadPool, any_asleep, idle, take_task, finish_task,
  take_turn, deliver, wake_up, notify, spurious, turn, step,
}

-- The same tasks were added and have finished, and the pool stops or it does not.
abbrev pub Keeps : ThreadPool → ThreadPool → Type 0
Keeps p q = (q.added ≡ p.added) × (q.finished ≡ p.finished) × (q.stop ≡ p.stop)

if_none_asleep-Keeps :
    (p : ThreadPool) (n : ℕ) (b : Bool) → Keeps p (if b then p else record p { notified = n })
if_none_asleep-Keeps p n true = (refl, refl, refl)
if_none_asleep-Keeps p n false = (refl, refl, refl)

deliver-Keeps : (p : ThreadPool) (i : ℕ) (t : Option Thread) (n : ℕ) → Keeps p (deliver p i t n)
unfolding deliver
deliver-Keeps p i none zero = (refl, refl, refl)
deliver-Keeps p i (some t) zero = (refl, refl, refl)
deliver-Keeps p i none (suc n) = if_none_asleep-Keeps p n (any_asleep p.threads)
deliver-Keeps p i (some awake) (suc n) = if_none_asleep-Keeps p n (any_asleep p.threads)
deliver-Keeps p i (some asleep) (suc n) = (refl, refl, refl)
deliver-Keeps p i (some returned) (suc n) = if_none_asleep-Keeps p n (any_asleep p.threads)
deliver-Keeps p i (some (running a)) (suc n) = if_none_asleep-Keeps p n (any_asleep p.threads)

wake_up-Keeps : (p : ThreadPool) (i : ℕ) (t : Option Thread) → Keeps p (wake_up p i t)
unfolding wake_up
wake_up-Keeps p i none = (refl, refl, refl)
wake_up-Keeps p i (some awake) = (refl, refl, refl)
wake_up-Keeps p i (some asleep) = (refl, refl, refl)
wake_up-Keeps p i (some returned) = (refl, refl, refl)
wake_up-Keeps p i (some (running a)) = (refl, refl, refl)

idle-Keeps : (p : ThreadPool) (i : ℕ) (b : Bool) → Keeps p (idle p i b)
unfolding idle
idle-Keeps p i true = (refl, refl, refl)
idle-Keeps p i false = (refl, refl, refl)

take_task-Keeps : (p : ThreadPool) (i : ℕ) (ts : List ℕ) → Keeps p (take_task p i ts)
unfolding take_task
take_task-Keeps p i [] = idle-Keeps p i p.stop
take_task-Keeps p i (t ∷ ts) = (refl, refl, refl)

-- A turn of a thread that is in a task ends the task, and any other keeps the logs.
abbrev pub Turned : ThreadPool → Option Thread → ThreadPool → Type 0
Turned p none q = Keeps p q
Turned p (some awake) q = Keeps p q
Turned p (some asleep) q = Keeps p q
Turned p (some returned) q = Keeps p q
Turned p (some (running t)) q =
    (q.added ≡ p.added) × (q.finished ≡ p.finished ++ t ∷ []) × (q.stop ≡ p.stop)

take_turn-Turned : (p : ThreadPool) (i : ℕ) (t : Option Thread) → Turned p t (take_turn p i t)
unfolding take_turn finish_task
take_turn-Turned p i none = (refl, refl, refl)
take_turn-Turned p i (some awake) = take_task-Keeps p i p.tasks
take_turn-Turned p i (some asleep) = (refl, refl, refl)
take_turn-Turned p i (some returned) = (refl, refl, refl)
take_turn-Turned p i (some (running a)) = (refl, refl, refl)

module _ (p : ThreadPool) (i : ℕ) where
  pub step-notify-Keeps : Keeps p (step p (notify i))
  unfolding step
  step-notify-Keeps = deliver-Keeps p i (get_elem? p.threads i) p.notified

  pub step-spurious-Keeps : Keeps p (step p (spurious i))
  unfolding step
  step-spurious-Keeps = wake_up-Keeps p i (get_elem? p.threads i)

  pub step-turn-Turned : Turned p (get_elem? p.threads i) (step p (turn i))
  unfolding step
  step-turn-Turned = take_turn-Turned p i (get_elem? p.threads i)
