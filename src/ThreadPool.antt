-- ===== src/ThreadPool.antt =====
-- src/peer/threadPool.cpp and include/peer/threadPool.h: the queue of tasks, the worker threads,
-- `wait` and the destructor. A step is one stretch under the mutex, or one wake-up; the system
-- decides which comes next, so a schedule is a list of events. A task is known by a number.
pub mod Counts
pub mod Threads
pub mod Heard
pub mod Waiting
pub mod Logs
pub mod Joins
use ai_optimized_distributed.Base.{
  ℕ, zero, suc, ◌+◌, ◌-◌, Bool, true, false, ◌&&◌, ◌||◌, not, Option, none, some, List, [], ◌∷◌,
  ◌++◌, get_elem?, set, replicate, is_empty, if◌then◌else◌, ◌==◌,
}

-- A thread before its test of `cv.wait`, asleep in it, in a task, or returned from `worker`.
pub data Thread : Type 0 where
  awake asleep returned : Thread
  running : ℕ → Thread

-- The caller of `wait`: elsewhere, before its test, asleep, or past it.
pub data Waiter : Type 0 where
  away checking dozing through : Waiter

-- `notified` counts the calls of `cv.notify_one` that have not reached a thread yet. The three logs
-- at the end are not kept by the code: what was added, what was started, and what has finished.
pub record ThreadPool : Type 0 where
  pub threads : List Thread
  pub tasks : List ℕ
  pub stop : Bool
  pub active_tasks : ℕ
  pub notified : ℕ
  pub waiter : Waiter
  pub added : List ℕ
  pub started : List ℕ
  pub finished : List ℕ

pub data Event : Type 0 where
  add_task : ℕ → Event
  notify spurious turn : ℕ → Event
  call_wait waiter_turn destroy : Event

unfoldable pub new_pool : ℕ → ThreadPool
new_pool thread_count = record {
  threads = replicate thread_count awake;
  tasks = [];
  stop = false;
  active_tasks = 0;
  notified = 0;
  waiter = away;
  added = [];
  started = [];
  finished = [];
}

abbrev pub is_asleep : Thread → Bool
is_asleep asleep = true
is_asleep _ = false

abbrev pub any_asleep : List Thread → Bool
any_asleep [] = false
any_asleep (t ∷ ts) = is_asleep t || any_asleep ts

abbrev pub wake_all : List Thread → List Thread
wake_all [] = []
wake_all (t ∷ ts) = (if is_asleep t then awake else t) ∷ wake_all ts

-- The joins of the destructor are over when every thread has returned.
abbrev pub is_returned : Thread → Bool
is_returned awake = false
is_returned asleep = false
is_returned returned = true
is_returned (running t) = false

abbrev pub all_returned : List Thread → Bool
all_returned [] = true
all_returned (t ∷ ts) = is_returned t && all_returned ts

-- `doneCv.notify_all`.
abbrev pub stir : Waiter → Waiter
stir dozing = checking
stir w = w

-- With no task, a thread returns if the pool stops, and goes to sleep if it does not.
idle : ThreadPool → ℕ → Bool → ThreadPool
idle p i true = record p { threads = set p.threads i returned }
idle p i false = record p { threads = set p.threads i asleep }

-- The test of `cv.wait` and what follows it: with a task, the first one is taken.
take_task : ThreadPool → ℕ → List ℕ → ThreadPool
unfolding idle
take_task p i [] = idle p i p.stop
take_task p i (task ∷ rest) = record p {
  threads = set p.threads i (running task);
  tasks = rest;
  active_tasks = p.active_tasks + 1;
  started = p.started ++ task ∷ [];
}

-- The stretch under the mutex after a task.
finish_task : ThreadPool → ℕ → ℕ → ThreadPool
finish_task p i task = record p {
  threads = set p.threads i awake;
  active_tasks = p.active_tasks - 1;
  waiter = if is_empty p.tasks && (p.active_tasks - 1 == 0) then stir p.waiter else p.waiter;
  finished = p.finished ++ task ∷ [];
}

pub take_turn : ThreadPool → ℕ → Option Thread → ThreadPool
take_turn p i none = p
take_turn p i (some awake) = take_task p i p.tasks
take_turn p i (some asleep) = p
take_turn p i (some returned) = p
take_turn p i (some (running task)) = finish_task p i task

-- One notification reaches thread `i`, if that is asleep; it is lost if no thread is.
pub deliver : ThreadPool → ℕ → Option Thread → ℕ → ThreadPool
deliver p i t zero = p
deliver p i (some asleep) (suc n) = record p { threads = set p.threads i awake; notified = n }
deliver p i t (suc n) = if any_asleep p.threads then p else record p { notified = n }

pub wake_up : ThreadPool → ℕ → Option Thread → ThreadPool
wake_up p i (some asleep) = record p { threads = set p.threads i awake }
wake_up p i t = p

check_done : ThreadPool → Waiter → ThreadPool
check_done p checking = record p {
  waiter = if is_empty p.tasks && (p.active_tasks == 0) then through else dozing;
}
check_done p w = p

unfoldable pub step : ThreadPool → Event → ThreadPool
unfolding take_turn take_task finish_task deliver wake_up check_done
step p (add_task a) = record p {
  tasks = p.tasks ++ a ∷ [];
  notified = p.notified + 1;
  added = p.added ++ a ∷ [];
}
step p (notify i) = deliver p i (get_elem? p.threads i) p.notified
step p (spurious i) = wake_up p i (get_elem? p.threads i)
step p (turn i) = take_turn p i (get_elem? p.threads i)
step p call_wait = record p { waiter = checking }
step p waiter_turn = check_done p p.waiter
step p destroy = record p { stop = true; threads = wake_all p.threads }

unfoldable pub run : ThreadPool → List Event → ThreadPool
unfolding step
run p [] = p
run p (e ∷ es) = run (step p e) es
