-- ===== src/PeerServer.antt =====
-- src/peer/peer.cpp, `startPeerServer`: the directories, the listening socket, the loop that hands
-- each connection to the pool, the tasks, and the destructor of the pool. The main thread and the
-- threads of the pool take their turns in an order that the system decides, so a run has a list of
-- events as its schedule. A task is known by the descriptor of its connection.
pub mod Closing
pub mod Serving
pub mod MainThread
pub mod Returning
pub mod Accounts
use ai_optimized_distributed.Base.{
  ℕ, ◌+◌, Bool, true, false, ◌&&◌, Option, none, some, List, [], ◌∷◌, ◌++◌, Bytes, is_empty,
  if◌then◌else◌, ◌==◌, get_elem?,
}
use ai_optimized_distributed.Disk.{Disk}
use ai_optimized_distributed.Hash.{Evp}
use ai_optimized_distributed.Socket.{Socket}
use ai_optimized_distributed.Descriptors.{
  Os, close, close_socket, create_server_socket, accept_client,
}
use ai_optimized_distributed.Peer.{PeerConfig}
use ai_optimized_distributed.Transfer.{handle_peer_request}
use ai_optimized_distributed.ThreadPool.{
  Thread, awake, asleep, returned, running, ThreadPool, Event, add_task, notify, spurious, turn,
  destroy, new_pool, all_returned, step,
}

-- `creates` says which directories the system creates; the first failure is an exception.
module _ (creates : Bytes → Bool) where
  abbrev ensure_directory : Bytes → Bool
  ensure_directory folder = if is_empty folder then true else creates folder

  unfoldable pub ensure_peer_storage_layout : PeerConfig → Bool
  ensure_peer_storage_layout config =
      ensure_directory config.local_root_dir
      && ensure_directory config.chunk_dir
      && ensure_directory config.download_dir
      && ensure_directory config.reconstructed_dir

-- The main thread: in the loop, behind an `acceptClient` that failed, behind the second `close` of
-- the listening socket, in the joins of the destructor, or back in the caller, with false.
pub data Place : Type 0 where
  accepting refused unwinding joining left : Place

-- `handled` is not kept by the code: the connections whose task is over, with what
-- `handlePeerRequest` gave and what became of the connection.
pub record Server : Type 0 where
  pub place : Place
  pub pool : ThreadPool
  pub os : Os
  pub handled : List (ℕ × (Bool × Socket))

-- A turn of the main thread; a notification or a wake-up for a thread of the pool, or its turn.
pub data ServerEvent : Type 0 where
  main_turn : ServerEvent
  notified woken thread_turn : ℕ → ServerEvent

-- `hardware_concurrency`, or 4 where that is not known.
abbrev pub pool_size : ℕ → ℕ
pool_size concurrency = if concurrency == 0 then 4 else concurrency

unfoldable pub new_server : ℕ → Os → Server
new_server concurrency os = record {
  place = accepting;
  pool = new_pool (pool_size concurrency);
  os = os;
  handled = [];
}

-- The joins are over when every thread has returned.
abbrev pub join_threads : Bool → Server → Server
join_threads true s = record s { place = left }
join_threads false s = s

-- The pool is gone when the function is back.
abbrev pub while_there : Place → Server → Server → Server
while_there accepting s s' = s'
while_there refused s s' = s'
while_there unwinding s s' = s'
while_there joining s s' = s'
while_there left s s' = s

abbrev pub pool_step : Event → Server → Server
pool_step e s = record s { pool = step s.pool e }

-- `found` says on which disk and with which connection the task of a descriptor works.
module _ (evp : Evp) (config : PeerConfig) (found : ℕ → Disk × Socket) where
  abbrev pub handle : ℕ → ℕ × (Bool × Socket)
  handle fd = (fd, handle_peer_request evp config (found fd).0 (found fd).1)

  -- What is done in the task, if the thread is in one: the request is handled, the connection closed.
  abbrev pub task_body : Option Thread → Server → Server
  task_body none s = s
  task_body (some awake) s = s
  task_body (some asleep) s = s
  task_body (some returned) s = s
  task_body (some (running fd)) s = record s {
    os = close_socket (some fd) s.os;
    handled = s.handled ++ handle fd ∷ [];
  }

  module _ (server_fd : ℕ) where
    -- A failed accept leaves the loop; `acceptClient` has closed the socket then.
    abbrev pub serve_accepted : Option ℕ × Os → Server → Server
    serve_accepted (none, os) s = record s { place = refused; os = os }
    serve_accepted (some fd, os) s = record s { pool = step s.pool (add_task fd); os = os }

    abbrev pub main_step : Place → Server → Server
    main_step accepting s = serve_accepted (accept_client server_fd s.os) s
    main_step refused s = record s { place = unwinding; os = close server_fd s.os }
    main_step unwinding s = record s { place = joining; pool = step s.pool destroy }
    main_step joining s = join_threads (all_returned s.pool.threads) s
    main_step left s = s

    -- The body of a task is placed at the turn of its thread that ends the task; a schedule in which
    -- that turn does not come is one in which `handlePeerRequest` still waits.
    unfoldable pub server_step : Server → ServerEvent → Server
    server_step s main_turn = main_step s.place s
    server_step s (notified i) = while_there s.place s (pool_step (notify i) s)
    server_step s (woken i) = while_there s.place s (pool_step (spurious i) s)
    server_step s (thread_turn i) =
        while_there s.place s (pool_step (turn i) (task_body (get_elem? s.pool.threads i) s))

    unfoldable pub server_run : Server → List ServerEvent → Server
    unfolding server_step
    server_run s [] = s
    server_run s (e ∷ es) = server_run (server_step s e) es

-- The function is back with false before there is a pool, or it serves on a descriptor.
pub data PeerServer : Type 0 where
  not_started : Os → PeerServer
  started : ℕ → Server → PeerServer

module _ (evp : Evp) (found : ℕ → Disk × Socket) (creates : Bytes → Bool) (concurrency : ℕ)
    (schedule : List ServerEvent) where
  abbrev pub serve : PeerConfig → Option ℕ × Os → PeerServer
  serve config (none, os) = not_started os
  serve config (some server_fd, os) =
      started server_fd (server_run evp config found server_fd (new_server concurrency os) schedule)

  unfoldable pub start_peer_server : PeerConfig → Os → PeerServer
  unfolding server_run
  start_peer_server config os =
      if ensure_peer_storage_layout creates config
      then serve config (create_server_socket os)
      else not_started os
