-- ===== src/PeerServer/MainThread.antt =====
-- src/peer/peer.cpp, `startPeerServer`: the turns of the main thread.
use ai_optimized_distributed.Base.{
  ℕ, ◌<◌, ◌≡◌, ap, ◌∙◌, Bool, true, false, Option, none, some, List, [], ◌∷◌, arith, All,
  All-append, if◌then◌else◌, total-append, ◌==◌,
}
use ai_optimized_distributed.Disk.{Disk}
use ai_optimized_distributed.Hash.{Evp}
use ai_optimized_distributed.Socket.{Socket}
use ai_optimized_distributed.Descriptors.{Os, close, or_close_server}
use ai_optimized_distributed.Descriptors.Balance.{Balanced, Opens}
use ai_optimized_distributed.Peer.{PeerConfig}
use ai_optimized_distributed.ThreadPool.{add_task, destroy, all_returned, step}
use ai_optimized_distributed.ThreadPool.Counts.{count}
use ai_optimized_distributed.ThreadPool.Heard.{step-Inv}
use ai_optimized_distributed.ThreadPool.Joins.{step-destroy-Winding}
use ai_optimized_distributed.PeerServer.{
  accepting, refused, unwinding, joining, Server, join_threads, serve_accepted, main_step,
}
use ai_optimized_distributed.PeerServer.Closing.{
  close_open, close_unknown, count-is_open, count-not_open, count-without, count-above, count-below,
  close-next_fd,
}
use ai_optimized_distributed.PeerServer.Serving.{
  listens_on, closed_again, Accounts, listens_on-itself, joined-AllFinished, finished-added,
}

module _ (evp : Evp) (config : PeerConfig) (found : ℕ → Disk × Socket) (fd : ℕ) (base : List ℕ)
    (bad : ℕ) where
  abbrev Acc : Server → Type 0
  Acc = Accounts evp config found fd base bad

  -- A connection was accepted, and its task is in the queue.
  handed_over :
      (s : Server) (os : Os) (t : ℕ)
      → s.place ≡ accepting
      → fd < t
      → (os.open_fds ≡ t ∷ s.os.open_fds) × (os.bad_closes ≡ s.os.bad_closes) × (fd < os.next_fd)
      → Acc s
      → Acc (serve_accepted evp config found fd (some t, os) s)
  unfolding step
  handed_over s os t e new (opened_one, no_bad, next) h = record {
    pool_inv = (step-Inv s.pool (add_task t) [] (h.adding e, tt) h.pool_inv).0;
    balance = λ a. omega (
      arith,
      h.balance a,
      ap (count a) opened_one,
      total-append (λ b. if b == a then 1 else 0) s.pool.added (t ∷ []),
    );
    named = All-append _ s.pool.added (t ∷ []) h.named (new, tt);
    closes = no_bad ∙ h.closes;
    next = next;
    adding = h.adding;
    served = h.served;
    winding = λ f. cc (e, f);
    joined = λ f. cc (e, f);
  }

  -- `accept` has failed, and `acceptClient` closes the listening socket, which is open.
  listening_ends :
      (s : Server) (os : Os)
      → s.place ≡ accepting
      → Balanced s.os os
      → Acc s
      → Acc (serve_accepted evp config found fd (none, close fd os) s)
  listening_ends s os e (same, good, later) h =
      let counted : 0 < count fd os.open_fds = omega (
        arith,
        h.balance fd,
        finished-added s.pool fd h.pool_inv,
        ap (count fd) same,
        ap (listens_on fd fd) e,
        listens_on-itself fd,
      ) in
      let was_open = count-is_open fd os.open_fds counted in
      let (closed_fds, no_bad) = close_open fd os was_open in
      record {
        pool_inv = h.pool_inv;
        balance = λ a. omega (
          arith,
          h.balance a,
          ap (count a) same,
          ap (count a) closed_fds,
          count-without a fd os.open_fds was_open,
          ap (listens_on fd a) e,
        );
        named = h.named;
        closes = omega (arith, no_bad, good, h.closes, ap closed_again e);
        next = omega (arith, h.next, later, close-next_fd fd os);
        adding = λ f. cc f;
        served = h.served;
        winding = λ f. cc f;
        joined = λ f. cc f;
      }

  pub accepted :
      (s : Server) (r : Option ℕ × Os)
      → s.place ≡ accepting
      → Opens s.os r
      → Acc s
      → Acc (serve_accepted evp config found fd (or_close_server fd r) s)
  accepted s (none, os) e b h = listening_ends s os e b h
  accepted s (some t, os) e (top, good, new, next) h =
      handed_over s os t e (omega (arith, h.next, new))
        (top, good, omega (arith, h.next, new, next)) h

  -- The second `close` of the listening socket.
  pub closed_twice :
      (s : Server)
      → All (λ t. t < fd) base
      → s.place ≡ refused
      → Acc s
      → Acc (main_step evp config found fd refused s)
  closed_twice s below e h =
      let not_counted : count fd s.os.open_fds ≡ 0 = omega (
        arith,
        h.balance fd,
        count-above fd s.pool.added h.named,
        count-below fd base below,
        ap (listens_on fd fd) e,
      ) in
      let (same, one_bad) = close_unknown fd s.os (count-not_open fd s.os.open_fds not_counted) in
      record {
        pool_inv = h.pool_inv;
        balance = λ a. omega (arith, h.balance a, ap (count a) same, ap (listens_on fd a) e);
        named = h.named;
        closes = omega (arith, one_bad, h.closes, ap closed_again e);
        next = omega (arith, h.next, close-next_fd fd s.os);
        adding = λ f. cc f;
        served = h.served;
        winding = λ f. cc f;
        joined = λ f. cc f;
      }

  pub unwound :
      (s : Server) → s.place ≡ unwinding → Acc s → Acc (main_step evp config found fd unwinding s)
  unfolding step
  unwound s e h = record {
    pool_inv = (step-Inv s.pool destroy [] tt h.pool_inv).0;
    balance = λ a. omega (arith, h.balance a, ap (listens_on fd a) e);
    named = h.named;
    closes = omega (arith, h.closes, ap closed_again e);
    next = h.next;
    adding = λ f. cc f;
    served = h.served;
    winding = λ f. step-destroy-Winding s.pool;
    joined = λ f. cc f;
  }

  pub joins :
      (s : Server) (b : Bool)
      → all_returned s.pool.threads ≡ b
      → s.place ≡ joining
      → Acc s
      → Acc (join_threads b s)
  joins s false all e h = h
  joins s true all e h = record {
    pool_inv = h.pool_inv;
    balance = λ a. omega (arith, h.balance a, ap (listens_on fd a) e);
    named = h.named;
    closes = omega (arith, h.closes, ap closed_again e);
    next = h.next;
    adding = λ f. cc f;
    served = h.served;
    winding = λ f. cc f;
    joined = λ f. joined-AllFinished s.pool h.pool_inv all;
  }
