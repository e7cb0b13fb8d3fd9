-- ===== src/PeerServer/Serving.antt =====
-- src/peer/peer.cpp, `startPeerServer`: what holds while it serves, and the turns of the pool.
use ai_optimized_distributed.Base.{
  ℕ, ◌+◌, ◌≤◌, ◌<◌, ◌≡◌, ◌≢◌, refl, ap, sym, subst, ◌∙◌, inr, true, false, Option, none, some, List,
  [], ◌∷◌, ◌++◌, map, map-append, arith, All, if◌then◌else◌, length, total, total-append, total-set,
  get_elem?, ◌==◌,
}
use ai_optimized_distributed.Disk.{Disk}
use ai_optimized_distributed.Hash.{Evp}
use ai_optimized_distributed.Socket.{Socket}
use ai_optimized_distributed.Descriptors.{close_socket}
use ai_optimized_distributed.Peer.{PeerConfig}
use ai_optimized_distributed.ThreadPool.{
  Thread, awake, asleep, returned, running, ThreadPool, turn, all_returned, step, run,
}
use ai_optimized_distributed.ThreadPool.Counts.{count, in_task_of, has_left}
use ai_optimized_distributed.ThreadPool.Threads.{Inv}
use ai_optimized_distributed.ThreadPool.Waiting.{AllFinished, wait_or_join-AllFinished}
use ai_optimized_distributed.ThreadPool.Joins.{Winding}
use ai_optimized_distributed.PeerServer.{
  Place, accepting, refused, unwinding, joining, left, Server, while_there, pool_step, handle,
  task_body,
}
use ai_optimized_distributed.PeerServer.Closing.{
  close_open, count-is_open, count-without, close-next_fd,
}
use ai_optimized_distributed.ThreadPool.Logs.{Keeps, Turned}

-- How often `a` is the listening socket while that is open, and how often it was closed too much.
abbrev pub listens_on : ℕ → ℕ → Place → ℕ
listens_on fd a accepting = if fd == a then 1 else 0
listens_on fd a refused = 0
listens_on fd a unwinding = 0
listens_on fd a joining = 0
listens_on fd a left = 0

abbrev pub closed_again : Place → ℕ
closed_again accepting = 0
closed_again refused = 0
closed_again unwinding = 1
closed_again joining = 1
closed_again left = 1

-- A connection that was handed to the pool is open until its task has finished.
pub record Accounts (evp : Evp) (config : PeerConfig) (found : ℕ → Disk × Socket) (fd : ℕ)
    (base : List ℕ) (bad : ℕ) (s : Server) : Type 0 where
  pub pool_inv : Inv s.pool
  pub balance :
      (a : ℕ)
      → count a s.os.open_fds + count a s.pool.finished
        ≡ count a s.pool.added + listens_on fd a s.place + count a base
  pub named : All (λ t. fd < t) s.pool.added
  pub closes : s.os.bad_closes ≡ bad + closed_again s.place
  pub next : fd < s.os.next_fd
  pub adding : s.place ≡ accepting → s.pool.stop ≡ false
  pub served : s.handled ≡ map (handle evp config found) s.pool.finished
  pub winding : s.place ≡ joining → Winding s.pool
  pub joined : s.place ≡ left → AllFinished s.pool

in_task_of-itself : (t : ℕ) → in_task_of t (running t) ≡ 1
in_task_of-itself t = ground arith

pub listens_on-itself : (fd : ℕ) → listens_on fd fd accepting ≡ 1
listens_on-itself fd = ground arith

all_returned-has_left : (ts : List Thread) → all_returned ts ≡ true → total has_left ts ≡ length ts
all_returned-has_left [] h = refl
all_returned-has_left (awake ∷ ts) h = cc
all_returned-has_left (asleep ∷ ts) h = cc
all_returned-has_left (returned ∷ ts) h = omega (arith, all_returned-has_left ts h)
all_returned-has_left (running t ∷ ts) h = cc

pub joined-AllFinished : (p : ThreadPool) → Inv p → all_returned p.threads ≡ true → AllFinished p
unfolding run
joined-AllFinished p v all =
    wait_or_join-AllFinished p [] tt v (inr (all_returned-has_left p.threads all))

-- No more tasks have finished than were added, and a task in a thread is not among these.
pub finished-added :
    (p : ThreadPool) (a : ℕ)
    → Inv p
    → count a p.finished + total (in_task_of a) p.threads ≤ count a p.added
finished-added p a v = omega (
  arith,
  v.accounted a,
  total-append (λ b. if b == a then 1 else 0) p.started p.tasks,
  ap (count a) v.in_order,
)

module _ (evp : Evp) (config : PeerConfig) (found : ℕ → Disk × Socket) (fd : ℕ) (base : List ℕ)
    (bad : ℕ) where
  abbrev Acc : Server → Type 0
  Acc = Accounts evp config found fd base bad

  -- A thread's step that adds no task and ends none.
  pub kept :
      (s : Server) (q : ThreadPool)
      → s.place ≢ left
      → Inv q
      → (Winding s.pool → Winding q)
      → Keeps s.pool q
      → Acc s
      → Acc (record s { pool = q })
  kept s q there v winds (same_added, same_finished, same_stop) h = record {
    pool_inv = v;
    balance = λ a. omega (arith, h.balance a, ap (count a) same_added, ap (count a) same_finished);
    named = subst (λ ts. All (λ t. fd < t) ts) (sym same_added) h.named;
    closes = h.closes;
    next = h.next;
    adding = λ e. same_stop ∙ h.adding e;
    served = h.served ∙ ap (map (handle evp config found)) (sym same_finished);
    winding = λ e. winds (h.winding e);
    joined = λ e. absurd (there e);
  }

  -- A task ends: its connection was open, and is closed.
  ended :
      (s : Server) (i t : ℕ) (q : ThreadPool)
      → s.place ≢ left
      → get_elem? s.pool.threads i ≡ some (running t)
      → Inv q
      → (Winding s.pool → Winding q)
      → Turned s.pool (some (running t)) q
      → Acc s
      → Acc (record (task_body evp config found (some (running t)) s) { pool = q })
  unfolding close_socket
  ended s i t q there g v winds (same_added, one_more, same_stop) h =
      let was_in : 0 < total (in_task_of t) s.pool.threads = omega (
        arith,
        total-set (in_task_of t) s.pool.threads i (running t) awake g,
        in_task_of-itself t,
      ) in
      let counted : 0 < count t s.os.open_fds =
        omega (arith, h.balance t, finished-added s.pool t h.pool_inv, was_in) in
      let was_open = count-is_open t s.os.open_fds counted in
      let (closed_fds, no_bad) = close_open t s.os was_open in
      record {
        pool_inv = v;
        balance = λ a. omega (
          arith,
          h.balance a,
          ap (count a) closed_fds,
          count-without a t s.os.open_fds was_open,
          ap (count a) same_added,
          ap (count a) one_more,
          total-append (λ b. if b == a then 1 else 0) s.pool.finished (t ∷ []),
        );
        named = subst (λ ts. All (λ t. fd < t) ts) (sym same_added) h.named;
        closes = no_bad ∙ h.closes;
        next = omega (arith, h.next, close-next_fd t s.os);
        adding = λ e. same_stop ∙ h.adding e;
        served =
            ap (λ l. l ++ handle evp config found t ∷ []) h.served
            ∙ sym (map-append (handle evp config found) s.pool.finished (t ∷ []))
            ∙ ap (map (handle evp config found)) (sym one_more);
        winding = λ e. winds (h.winding e);
        joined = λ e. absurd (there e);
      }

  pub turned :
      (s : Server) (i : ℕ) (t : Option Thread)
      → s.place ≢ left
      → get_elem? s.pool.threads i ≡ t
      → Inv (step s.pool (turn i))
      → (Winding s.pool → Winding (step s.pool (turn i)))
      → Turned s.pool t (step s.pool (turn i))
      → Acc s
      → Acc (pool_step (turn i) (task_body evp config found t s))
  turned s i none there g v winds k h = kept s (step s.pool (turn i)) there v winds k h
  turned s i (some awake) there g v winds k h = kept s (step s.pool (turn i)) there v winds k h
  turned s i (some asleep) there g v winds k h = kept s (step s.pool (turn i)) there v winds k h
  turned s i (some returned) there g v winds k h = kept s (step s.pool (turn i)) there v winds k h
  turned s i (some (running t)) there g v winds k h =
      ended s i t (step s.pool (turn i)) there g v winds k h

  pub while_there-Accounts :
      (s s' : Server) (place : Place)
      → s.place ≡ place
      → (s.place ≢ left → Acc s')
      → Acc s
      → Acc (while_there place s s')
  while_there-Accounts s s' accepting e k h = k (λ f. cc (e, f))
  while_there-Accounts s s' refused e k h = k (λ f. cc (e, f))
  while_there-Accounts s s' unwinding e k h = k (λ f. cc (e, f))
  while_there-Accounts s s' joining e k h = k (λ f. cc (e, f))
  while_there-Accounts s s' left e k h = h
