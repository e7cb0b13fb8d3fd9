-- ===== src/ThreadPool/Counts.antt =====
-- src/peer/threadPool.cpp: threads and tasks counted.
use ai_optimized_distributed.Base.{
  ℕ, ◌+◌, ◌≡◌, refl, false, List, [], ◌∷◌, arith, length, total, if◌then◌else◌, ◌==◌,
}
use ai_optimized_distributed.ThreadPool.{
  Thread, awake, asleep, returned, running, any_asleep, wake_all,
}

-- 1 for a thread in a task; in task `a`; ready to go on by itself; asleep; returned.
abbrev pub in_task : Thread → ℕ
in_task awake = 0
in_task asleep = 0
in_task returned = 0
in_task (running a) = 1

abbrev pub in_task_of : ℕ → Thread → ℕ
in_task_of a awake = 0
in_task_of a asleep = 0
in_task_of a returned = 0
in_task_of a (running b) = if b == a then 1 else 0

abbrev pub is_busy : Thread → ℕ
is_busy awake = 1
is_busy asleep = 0
is_busy returned = 0
is_busy (running a) = 1

abbrev pub sleeps : Thread → ℕ
sleeps awake = 0
sleeps asleep = 1
sleeps returned = 0
sleeps (running a) = 0

abbrev pub has_left : Thread → ℕ
has_left awake = 0
has_left asleep = 0
has_left returned = 1
has_left (running a) = 0

-- How often `a` stands in a list.
abbrev pub count : ℕ → List ℕ → ℕ
count a = total (λ b. if b == a then 1 else 0)

pub all_threads :
    (ts : List Thread) → total is_busy ts + total sleeps ts + total has_left ts ≡ length ts
all_threads [] = omega arith
all_threads (awake ∷ ts) = omega (arith, all_threads ts)
all_threads (asleep ∷ ts) = omega (arith, all_threads ts)
all_threads (returned ∷ ts) = omega (arith, all_threads ts)
all_threads (running a ∷ ts) = omega (arith, all_threads ts)

pub none_asleep : (ts : List Thread) → any_asleep ts ≡ false → total sleeps ts ≡ 0
none_asleep [] h = refl
none_asleep (awake ∷ ts) h = omega (arith, none_asleep ts h)
none_asleep (asleep ∷ ts) h = cc
none_asleep (returned ∷ ts) h = omega (arith, none_asleep ts h)
none_asleep (running a ∷ ts) h = omega (arith, none_asleep ts h)

pub total-wake_all :
    (w : Thread → ℕ) (ts : List Thread) → w awake ≡ w asleep → total w (wake_all ts) ≡ total w ts
total-wake_all w [] h = refl
total-wake_all w (awake ∷ ts) h = omega (arith, total-wake_all w ts h)
total-wake_all w (asleep ∷ ts) h = omega (arith, h, total-wake_all w ts h)
total-wake_all w (returned ∷ ts) h = omega (arith, total-wake_all w ts h)
total-wake_all w (running a ∷ ts) h = omega (arith, total-wake_all w ts h)

pub sleeps-wake_all : (ts : List Thread) → total sleeps (wake_all ts) ≡ 0
sleeps-wake_all [] = refl
sleeps-wake_all (awake ∷ ts) = omega (arith, sleeps-wake_all ts)
sleeps-wake_all (asleep ∷ ts) = omega (arith, sleeps-wake_all ts)
sleeps-wake_all (returned ∷ ts) = omega (arith, sleeps-wake_all ts)
sleeps-wake_all (running a ∷ ts) = omega (arith, sleeps-wake_all ts)

pub length-wake_all : (ts : List Thread) → length (wake_all ts) ≡ length ts
length-wake_all [] = refl
length-wake_all (t ∷ ts) = omega (arith, length-wake_all ts)

-- A thread in a task counts in both ways.
pub in_task_of-in_task :
    (a : ℕ) (ts : List Thread) → total in_task ts ≡ 0 → total (in_task_of a) ts ≡ 0
in_task_of-in_task a [] h = refl
in_task_of-in_task a (awake ∷ ts) h = omega (arith, in_task_of-in_task a ts (omega arith))
in_task_of-in_task a (asleep ∷ ts) h = omega (arith, in_task_of-in_task a ts (omega arith))
in_task_of-in_task a (returned ∷ ts) h = omega (arith, in_task_of-in_task a ts (omega arith))
in_task_of-in_task a (running b ∷ ts) h = absurd (omega arith)
