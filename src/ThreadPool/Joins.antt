-- ===== src/ThreadPool/Joins.antt =====
-- src/peer/threadPool.cpp, the destructor: its joins come to an end.
use ai_optimized_distributed.Base.{
  ℕ, zero, suc, ◌+◌, ◌*◌, ◌≤◌, ◌≡◌, refl, sym, ap, subst, Bool, true, false, Option, none, some,
  List, [], ◌∷◌, arith, length, get_elem?, total, total-set, if◌then◌else◌,
}
use ai_optimized_distributed.ThreadPool.{
  Thread, awake, asleep, returned, running, ThreadPool, any_asleep, is_returned, all_returned, idle,
  take_task, finish_task, take_turn, deliver, wake_up, notify, spurious, turn, destroy, step,
}
use ai_optimized_distributed.ThreadPool.Counts.{sleeps, sleeps-wake_all}

-- The turns that a thread has before it before it can return, and those of the whole pool.
abbrev pub turns_of : Thread → ℕ
turns_of awake = 1
turns_of asleep = 0
turns_of returned = 0
turns_of (running t) = 2

abbrev pub turns_left : ThreadPool → ℕ
turns_left p = 2 * length p.tasks + total turns_of p.threads

-- The destructor has begun: the pool stops, and no thread sleeps.
abbrev pub Winding : ThreadPool → Type 0
Winding p = (p.stop ≡ true) × (total sleeps p.threads ≡ 0)

-- A step keeps that, and the turns left do not grow.
abbrev pub Winds : ThreadPool → ThreadPool → Type 0
Winds p q = Winding q × (turns_left q ≤ turns_left p)

not_asleep :
    (ts : List Thread) (i : ℕ) → total sleeps ts ≡ 0 → get_elem? ts i ≡ some asleep → 0 ≡ suc zero
not_asleep ts i none_sleeps g =
    absurd (omega (arith, none_sleeps, total-set sleeps ts i asleep awake g))

if_none_asleep-Winds :
    (p : ThreadPool) (n : ℕ) (b : Bool)
    → Winding p
    → Winds p (if b then p else record p { notified = n })
if_none_asleep-Winds p n true w = (w, omega arith)
if_none_asleep-Winds p n false w = (w, omega arith)

deliver-Winds :
    (p : ThreadPool) (i : ℕ) (t : Option Thread) (n : ℕ)
    → get_elem? p.threads i ≡ t
    → Winding p
    → Winds p (deliver p i t n)
unfolding deliver
deliver-Winds p i none zero g w = (w, omega arith)
deliver-Winds p i (some t) zero g w = (w, omega arith)
deliver-Winds p i none (suc n) g w = if_none_asleep-Winds p n (any_asleep p.threads) w
deliver-Winds p i (some awake) (suc n) g w = if_none_asleep-Winds p n (any_asleep p.threads) w
deliver-Winds p i (some asleep) (suc n) g w = absurd (omega (arith, not_asleep p.threads i w.1 g))
deliver-Winds p i (some returned) (suc n) g w = if_none_asleep-Winds p n (any_asleep p.threads) w
deliver-Winds p i (some (running a)) (suc n) g w = if_none_asleep-Winds p n (any_asleep p.threads) w

wake_up-Winds :
    (p : ThreadPool) (i : ℕ) (t : Option Thread)
    → get_elem? p.threads i ≡ t
    → Winding p
    → Winds p (wake_up p i t)
unfolding wake_up
wake_up-Winds p i none g w = (w, omega arith)
wake_up-Winds p i (some awake) g w = (w, omega arith)
wake_up-Winds p i (some asleep) g w = absurd (omega (arith, not_asleep p.threads i w.1 g))
wake_up-Winds p i (some returned) g w = (w, omega arith)
wake_up-Winds p i (some (running a)) g w = (w, omega arith)

-- A turn of a thread that has not returned is one turn less.
module _ (p : ThreadPool) (i : ℕ) (w : Winding p) where
  OneLess : ThreadPool → Type 0
  OneLess q = Winding q × (suc (turns_left q) ≡ turns_left p)

  idle-OneLess : (b : Bool) → b ≡ true → get_elem? p.threads i ≡ some awake → OneLess (idle p i b)
  unfolding idle OneLess
  idle-OneLess false e g = cc
  idle-OneLess true e g = (
    (w.0, omega (arith, w.1, total-set sleeps p.threads i awake returned g)),
    omega (arith, total-set turns_of p.threads i awake returned g),
  )

  take_task-OneLess :
      (ts : List ℕ) → p.tasks ≡ ts → get_elem? p.threads i ≡ some awake → OneLess (take_task p i ts)
  unfolding take_task OneLess
  take_task-OneLess [] e g = idle-OneLess p.stop w.0 g
  take_task-OneLess (task ∷ rest) e g = (
    (w.0, omega (arith, w.1, total-set sleeps p.threads i awake (running task) g)),
    omega (arith, ap length e, total-set turns_of p.threads i awake (running task) g),
  )

  finish_task-OneLess :
      (task : ℕ) → get_elem? p.threads i ≡ some (running task) → OneLess (finish_task p i task)
  unfolding finish_task OneLess
  finish_task-OneLess task g = (
    (w.0, omega (arith, w.1, total-set sleeps p.threads i (running task) awake g)),
    omega (arith, total-set turns_of p.threads i (running task) awake g),
  )

  take_turn-OneLess :
      (t : Thread)
      → get_elem? p.threads i ≡ some t
      → is_returned t ≡ false
      → OneLess (take_turn p i (some t))
  unfolding take_turn
  take_turn-OneLess awake g e = take_task-OneLess p.tasks refl g
  take_turn-OneLess asleep g e = absurd (omega (arith, not_asleep p.threads i w.1 g))
  take_turn-OneLess returned g e = cc
  take_turn-OneLess (running a) g e = finish_task-OneLess a g

  take_turn-Winds : (t : Option Thread) → get_elem? p.threads i ≡ t → Winds p (take_turn p i t)
  unfolding take_turn OneLess
  take_turn-Winds none g = (w, omega arith)
  take_turn-Winds (some awake) g =
      let (w', less) = take_turn-OneLess awake g refl in (w', omega (arith, less))
  take_turn-Winds (some asleep) g = (w, omega arith)
  take_turn-Winds (some returned) g = (w, omega arith)
  take_turn-Winds (some (running a)) g =
      let (w', less) = take_turn-OneLess (running a) g refl in (w', omega (arith, less))

  pub step-notify-Winds : Winds p (step p (notify i))
  unfolding step
  step-notify-Winds = deliver-Winds p i (get_elem? p.threads i) p.notified refl w

  pub step-spurious-Winds : Winds p (step p (spurious i))
  unfolding step
  step-spurious-Winds = wake_up-Winds p i (get_elem? p.threads i) refl w

  pub step-turn-Winds : Winds p (step p (turn i))
  unfolding step
  step-turn-Winds = take_turn-Winds (get_elem? p.threads i) refl

  pub turns_left-step-turn :
      (t : Thread)
      → get_elem? p.threads i ≡ some t
      → is_returned t ≡ false
      → suc (turns_left (step p (turn i))) ≡ turns_left p
  unfolding step OneLess
  turns_left-step-turn t g e =
      subst (λ r. suc (turns_left (take_turn p i r)) ≡ turns_left p) (sym g)
        (take_turn-OneLess t g e).1

pub step-destroy-Winding : (p : ThreadPool) → Winding (step p destroy)
unfolding step
step-destroy-Winding p = (refl, sleeps-wake_all p.threads)

-- While a thread has not returned there is one that can go on.
pub unreturned :
    (ts : List Thread)
    → all_returned ts ≡ false
    → (i : ℕ) × (t : Thread) × (get_elem? ts i ≡ some t) × (is_returned t ≡ false)
unreturned [] e = cc
unreturned (awake ∷ ts) e = (0, awake, refl, refl)
unreturned (asleep ∷ ts) e = (0, asleep, refl, refl)
unreturned (returned ∷ ts) e = let (i, t, g, f) = unreturned ts e in (suc i, t, g, f)
unreturned (running a ∷ ts) e = (0, running a, refl, refl)
