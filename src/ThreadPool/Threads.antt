-- ===== src/ThreadPool/Threads.antt =====
-- src/peer/threadPool.cpp: what the steps of one thread keep, of its own place and of the counts.
use ai_optimized_distributed.Base.{
  ℕ, zero, suc, ◌+◌, ◌-◌, ◌<◌, ◌≡◌, ◌≢◌, refl, sym, ap, ◌∙◌, Bool, true, false, ◌&&◌, Option, none,
  some, List, [], ◌∷◌, ◌++◌, append_assoc, arith, length, get_elem?, set, length-set,
  length-replicate, replicate, total, total-set, total-append, is_empty, if◌then◌else◌, ◌==◌,
}
use ai_optimized_distributed.ThreadPool.{
  Thread, awake, asleep, returned, running, Waiter, away, checking, dozing, through, ThreadPool,
  add_task, any_asleep, stir, new_pool, idle, take_task, finish_task, take_turn, deliver, wake_up,
  step,
}
use ai_optimized_distributed.ThreadPool.Counts.{
  in_task, in_task_of, is_busy, has_left, count, all_threads, none_asleep,
}

-- There is a thread; `active_tasks` is the number of threads in a task; the tasks are started in the order in which
-- they were added, and each that was started has finished or is in a thread; tasks that wait have a
-- notification on its way or a thread that is not asleep; a thread has returned only after the
-- destructor began and with no task left; and a caller of `wait` sleeps only while there is work.
pub record Inv (p : ThreadPool) : Type 0 where
  pub some_thread : 0 < length p.threads
  pub counted : p.active_tasks ≡ total in_task p.threads
  pub in_order : p.started ++ p.tasks ≡ p.added
  pub accounted : (a : ℕ) → count a p.finished + total (in_task_of a) p.threads ≡ count a p.started
  pub heard : p.notified ≡ 0 → total is_busy p.threads ≡ 0 → p.tasks ≡ []
  pub left : 0 < total has_left p.threads → (p.stop ≡ true) × (p.tasks ≡ [])
  pub noticed : p.waiter ≡ dozing → p.tasks ≡ [] → 0 < p.active_tasks

pub total-replicate : (w : Thread → ℕ) (n : ℕ) (t : Thread) → w t ≡ 0 → total w (replicate n t) ≡ 0
total-replicate w zero t h = refl
total-replicate w (suc n) t h = omega (arith, h, total-replicate w n t h)

pub new_pool-Inv : (n : ℕ) → 0 < n → Inv (new_pool n)
unfolding new_pool
new_pool-Inv n h = record {
  some_thread = omega (arith, length-replicate n awake);
  counted = sym (total-replicate in_task n awake refl);
  in_order = refl;
  accounted = λ a. omega (arith, total-replicate (in_task_of a) n awake refl);
  heard = λ e f. refl;
  left = λ q. absurd (omega (arith, total-replicate has_left n awake refl));
  noticed = λ e. cc;
}

pub nonempty_append : (xs : List ℕ) (a : ℕ) → xs ++ a ∷ [] ≢ []
nonempty_append [] a e = cc e
nonempty_append (x ∷ xs) a e = cc e

pub add_task-Inv : (p : ThreadPool) (a : ℕ) → p.stop ≡ false → Inv p → Inv (step p (add_task a))
unfolding step
add_task-Inv p a open_pool v = record {
  some_thread = v.some_thread;
  counted = v.counted;
  in_order = sym (append_assoc p.started p.tasks (a ∷ [])) ∙ ap (λ x. x ++ a ∷ []) v.in_order;
  accounted = v.accounted;
  heard = λ e f. absurd (omega arith);
  left = λ q. cc ((v.left q).0, open_pool);
  noticed = λ e f. absurd (nonempty_append p.tasks a f);
}

-- The caller of `wait` is stirred when the last task ends.
pub stirred :
    (ts : List ℕ) (w : Waiter) (n : ℕ)
    → (if is_empty ts && (n == 0) then stir w else w) ≡ dozing
    → ts ≡ []
    → 0 < n
stirred [] away zero e f = cc
stirred [] checking zero e f = cc
stirred [] dozing zero e f = cc
stirred [] through zero e f = cc
stirred [] w (suc n) e f = omega arith
stirred (t ∷ ts) w n e f = cc

-- A thread that falls asleep or wakes up.
module _ (p : ThreadPool) (i : ℕ) (v : Inv p) where
  idle-Inv :
      (b : Bool) → p.stop ≡ b → p.tasks ≡ [] → get_elem? p.threads i ≡ some awake → Inv (idle p i b)
  unfolding idle
  idle-Inv true stopped e g = record {
    some_thread = omega (arith, v.some_thread, length-set p.threads i returned);
    counted = omega (arith, v.counted, total-set in_task p.threads i awake returned g);
    in_order = v.in_order;
    accounted =
        λ a. omega (arith, v.accounted a, total-set (in_task_of a) p.threads i awake returned g);
    heard = λ n b. e;
    left = λ q. (stopped, e);
    noticed = v.noticed;
  }
  idle-Inv false running_on e g = record {
    some_thread = omega (arith, v.some_thread, length-set p.threads i asleep);
    counted = omega (arith, v.counted, total-set in_task p.threads i awake asleep g);
    in_order = v.in_order;
    accounted =
        λ a. omega (arith, v.accounted a, total-set (in_task_of a) p.threads i awake asleep g);
    heard = λ n b. e;
    left = λ q. v.left (omega (arith, total-set has_left p.threads i awake asleep g));
    noticed = v.noticed;
  }

  take_task-Inv :
      (ts : List ℕ) → p.tasks ≡ ts → get_elem? p.threads i ≡ some awake → Inv (take_task p i ts)
  unfolding take_task
  take_task-Inv [] e g = idle-Inv p.stop refl e g
  take_task-Inv (task ∷ rest) e g =
      let busy = total-set is_busy p.threads i awake (running task) g in
      let was_busy = total-set is_busy p.threads i awake asleep g in
      record {
        some_thread = omega (arith, v.some_thread, length-set p.threads i (running task));
        counted = omega (arith, v.counted, total-set in_task p.threads i awake (running task) g);
        in_order =
            append_assoc p.started (task ∷ []) rest
            ∙ ap (λ ts. p.started ++ ts) (sym e)
            ∙ v.in_order;
        accounted = λ a. omega (
          arith,
          v.accounted a,
          total-set (in_task_of a) p.threads i awake (running task) g,
          total-append (λ b. if b == a then 1 else 0) p.started (task ∷ []),
        );
        heard = λ n b. absurd (omega arith);
        left = λ q.
            let was_left : 0 < total has_left p.threads =
              omega (arith, total-set has_left p.threads i awake (running task) g) in
            cc ((v.left was_left).1, e);
        noticed = λ q f. omega arith;
      }

  -- A thread is woken, by a notification or by itself.
  woken-Inv :
      (n : ℕ)
      → get_elem? p.threads i ≡ some asleep
      → Inv (record p { threads = set p.threads i awake; notified = n })
  woken-Inv n g =
      let busy = total-set is_busy p.threads i asleep awake g in
      record {
        some_thread = omega (arith, v.some_thread, length-set p.threads i awake);
        counted = omega (arith, v.counted, total-set in_task p.threads i asleep awake g);
        in_order = v.in_order;
        accounted =
            λ a. omega (arith, v.accounted a, total-set (in_task_of a) p.threads i asleep awake g);
        heard = λ n b. absurd (omega arith);
        left = λ q. v.left (omega (arith, total-set has_left p.threads i asleep awake g));
        noticed = v.noticed;
      }

  -- A notification that finds no thread asleep is not needed.
  lost-Inv : (n : ℕ) → any_asleep p.threads ≡ false → Inv (record p { notified = n })
  lost-Inv n none_sleeps = record {
    some_thread = v.some_thread;
    counted = v.counted;
    in_order = v.in_order;
    accounted = v.accounted;
    heard = λ m b.
        (v.left (
          omega
            (arith, v.some_thread, all_threads p.threads, none_asleep p.threads none_sleeps))).1;
    left = v.left;
    noticed = v.noticed;
  }

  if_none_asleep-Inv :
      (n : ℕ) (b : Bool)
      → any_asleep p.threads ≡ b
      → Inv (if b then p else record p { notified = n })
  if_none_asleep-Inv n true e = v
  if_none_asleep-Inv n false e = lost-Inv n e

  pub deliver-Inv : (t : Option Thread) (n : ℕ) → get_elem? p.threads i ≡ t → Inv (deliver p i t n)
  unfolding deliver
  deliver-Inv none zero g = v
  deliver-Inv (some t) zero g = v
  deliver-Inv none (suc n) g = if_none_asleep-Inv n (any_asleep p.threads) refl
  deliver-Inv (some awake) (suc n) g = if_none_asleep-Inv n (any_asleep p.threads) refl
  deliver-Inv (some asleep) (suc n) g = woken-Inv n g
  deliver-Inv (some returned) (suc n) g = if_none_asleep-Inv n (any_asleep p.threads) refl
  deliver-Inv (some (running a)) (suc n) g = if_none_asleep-Inv n (any_asleep p.threads) refl

  pub wake_up-Inv : (t : Option Thread) → get_elem? p.threads i ≡ t → Inv (wake_up p i t)
  unfolding wake_up
  wake_up-Inv none g = v
  wake_up-Inv (some awake) g = v
  wake_up-Inv (some asleep) g = woken-Inv p.notified g
  wake_up-Inv (some returned) g = v
  wake_up-Inv (some (running a)) g = v

  finish_task-Inv :
      (task : ℕ) → get_elem? p.threads i ≡ some (running task) → Inv (finish_task p i task)
  unfolding finish_task
  finish_task-Inv task g =
      let busy = total-set is_busy p.threads i (running task) awake g in
      let was_busy = total-set is_busy p.threads i (running task) asleep g in
      let fewer = total-set in_task p.threads i (running task) awake g in
      record {
        some_thread = omega (arith, v.some_thread, length-set p.threads i awake);
        counted = omega (arith, v.counted);
        in_order = v.in_order;
        accounted = λ a. omega (
          arith,
          v.accounted a,
          total-set (in_task_of a) p.threads i (running task) awake g,
          total-append (λ b. if b == a then 1 else 0) p.finished (task ∷ []),
        );
        heard = λ n b.
            let none_busy : total is_busy (set p.threads i awake) ≡ 0 = b in
            absurd (omega (arith, none_busy, busy, was_busy));
        left = λ q. v.left (omega (arith, total-set has_left p.threads i (running task) awake g));
        noticed = λ e f. stirred p.tasks p.waiter (p.active_tasks - 1) e f;
      }

  pub take_turn-Inv : (t : Option Thread) → get_elem? p.threads i ≡ t → Inv (take_turn p i t)
  unfolding take_turn
  take_turn-Inv none g = v
  take_turn-Inv (some awake) g = take_task-Inv p.tasks refl g
  take_turn-Inv (some asleep) g = v
  take_turn-Inv (some returned) g = v
  take_turn-Inv (some (running a)) g = finish_task-Inv a g
