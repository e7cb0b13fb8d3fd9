-- ===== src/PeerServer/Accounts.antt =====
-- src/peer/peer.cpp, `startPeerServer`: which descriptors are open while it runs and at its end.
use ai_optimized_distributed.Base.{
  ℕ, zero, suc, ◌<◌, ◌≡◌, refl, ap, subst, ◌∙◌, Bool, true, false, Option, none, some, List, [],
  ◌∷◌, map, Bytes, arith, All, if◌then◌else◌, get_elem?,
}
use ai_optimized_distributed.Disk.{Disk}
use ai_optimized_distributed.Hash.{Evp}
use ai_optimized_distributed.Socket.{Socket}
use ai_optimized_distributed.Descriptors.{Os, open_call, create_server_socket, accept_client}
use ai_optimized_distributed.Descriptors.Balance.{
  Balanced, Opens, create_server_socket-Opens, open_call-Opens,
}
use ai_optimized_distributed.Peer.{PeerConfig}
use ai_optimized_distributed.ThreadPool.{notify, spurious, turn, new_pool, all_returned, step}
use ai_optimized_distributed.ThreadPool.Counts.{count}
use ai_optimized_distributed.ThreadPool.Threads.{new_pool-Inv}
use ai_optimized_distributed.ThreadPool.Heard.{step-Inv}
use ai_optimized_distributed.ThreadPool.Joins.{
  step-notify-Winds, step-spurious-Winds, step-turn-Winds,
}
use ai_optimized_distributed.PeerServer.{
  Place, accepting, refused, unwinding, joining, left, Server, ServerEvent, main_turn, notified,
  woken, thread_turn, pool_size, new_server, handle, main_step, server_step, server_run, PeerServer,
  not_started, started, serve, start_peer_server, ensure_peer_storage_layout,
}
use ai_optimized_distributed.PeerServer.Closing.{All-below}
use ai_optimized_distributed.ThreadPool.Logs.{
  step-notify-Keeps, step-spurious-Keeps, step-turn-Turned,
}
use ai_optimized_distributed.PeerServer.Serving.{
  listens_on, closed_again, Accounts, kept, turned, while_there-Accounts,
}
use ai_optimized_distributed.PeerServer.Returning.{
  JoinsGoOn, ComesBack, joining-JoinsGoOn, joining-ComesBack,
}
use ai_optimized_distributed.PeerServer.MainThread.{accepted, closed_twice, unwound, joins}

module _ (evp : Evp) (config : PeerConfig) (found : ℕ → Disk × Socket) (fd : ℕ) (base : List ℕ)
    (bad : ℕ) (below : All (λ t. t < fd) base) where
  abbrev Acc : Server → Type 0
  Acc = Accounts evp config found fd base bad

  main_step-Accounts :
      (s : Server) (place : Place)
      → s.place ≡ place
      → Acc s
      → Acc (main_step evp config found fd place s)
  unfolding accept_client
  main_step-Accounts s accepting e h =
      accepted evp config found fd base bad s (open_call s.os) e (open_call-Opens s.os) h
  main_step-Accounts s refused e h = closed_twice evp config found fd base bad s below e h
  main_step-Accounts s unwinding e h = unwound evp config found fd base bad s e h
  main_step-Accounts s joining e h =
      joins evp config found fd base bad s (all_returned s.pool.threads) refl e h
  main_step-Accounts s left e h = h

  server_step-Accounts :
      (s : Server) (e : ServerEvent) → Acc s → Acc (server_step evp config found fd s e)
  unfolding server_step
  server_step-Accounts s main_turn h = main_step-Accounts s s.place refl h
  server_step-Accounts s (notified i) h =
      while_there-Accounts evp config found fd base bad s _ s.place refl
        (λ there.
          kept evp config found fd base bad s (step s.pool (notify i)) there
            (step-Inv s.pool (notify i) [] tt h.pool_inv).0 (λ w. (step-notify-Winds s.pool i w).0)
            (step-notify-Keeps s.pool i) h)
        h
  server_step-Accounts s (woken i) h =
      while_there-Accounts evp config found fd base bad s _ s.place refl
        (λ there.
          kept evp config found fd base bad s (step s.pool (spurious i)) there
            (step-Inv s.pool (spurious i) [] tt h.pool_inv).0
            (λ w. (step-spurious-Winds s.pool i w).0) (step-spurious-Keeps s.pool i) h)
        h
  server_step-Accounts s (thread_turn i) h =
      while_there-Accounts evp config found fd base bad s _ s.place refl
        (λ there.
          turned evp config found fd base bad s i (get_elem? s.pool.threads i) there refl
            (step-Inv s.pool (turn i) [] tt h.pool_inv).0 (λ w. (step-turn-Winds s.pool i w).0)
            (step-turn-Turned s.pool i) h)
        h

  server_run-Accounts :
      (s : Server) (es : List ServerEvent) → Acc s → Acc (server_run evp config found fd s es)
  unfolding server_run
  server_run-Accounts s [] h = h
  server_run-Accounts s (e ∷ es) h =
      server_run-Accounts (server_step evp config found fd s e) es (server_step-Accounts s e h)

-- The server is back: what is open is what was open before, one `close` was too many, and each
-- connection that was handed to the pool has been handled, once.
abbrev pub ServerEnd : Os → Server → Type 0
ServerEnd os s =
    ((a : ℕ) → count a s.os.open_fds ≡ count a os.open_fds)
    × (s.os.bad_closes ≡ suc os.bad_closes)
    × ((a : ℕ) → count a (map (λ h. h.0) s.handled) ≡ count a s.pool.added)

handled_fds :
    (evp : Evp) (config : PeerConfig) (found : ℕ → Disk × Socket) (fds : List ℕ)
    → map (λ h. h.0) (map (handle evp config found) fds) ≡ fds
handled_fds evp config found [] = refl
handled_fds evp config found (t ∷ fds) = ap (λ l. t ∷ l) (handled_fds evp config found fds)

Accounts-ServerEnd :
    (evp : Evp) (config : PeerConfig) (found : ℕ → Disk × Socket) (fd : ℕ) (os : Os) (s : Server)
    → Accounts evp config found fd os.open_fds os.bad_closes s
    → s.place ≡ left
    → ServerEnd os s
Accounts-ServerEnd evp config found fd os s h e =
    let (all_started, all_finished) = h.joined e in
    (
      λ a. omega (arith, h.balance a, all_finished a, ap (listens_on fd a) e),
      omega (arith, h.closes, ap closed_again e),
      λ a.
          ap (λ l. count a (map (λ h. h.0) l)) h.served
          ∙ ap (count a) (handled_fds evp config found s.pool.finished)
          ∙ all_finished a,
    )

-- After `createServerSocket`, or without it: the server serves on the socket, or it is back.
abbrev pub ServerRuns : Evp → PeerConfig → (ℕ → Disk × Socket) → Os → Option ℕ → PeerServer → Type 0
ServerRuns evp config found os none (not_started os') = Balanced os os'
ServerRuns evp config found os none (started fd s) = ⊥
ServerRuns evp config found os (some fd) (not_started os') = ⊥
ServerRuns evp config found os (some fd) (started fd' s) =
    (fd' ≡ fd)
    × Accounts evp config found fd os.open_fds os.bad_closes s
    × (s.place ≡ joining → JoinsGoOn evp config found fd s × ComesBack evp config found fd s)
    × (s.place ≡ left → ServerEnd os s)

abbrev pub listening_fd : Bool → Os → Option ℕ
listening_fd true os = (create_server_socket os).0
listening_fd false os = none

pool_size-positive : (concurrency : ℕ) → 0 < pool_size concurrency
pool_size-positive zero = ground arith
pool_size-positive (suc n) = ground arith

module _ (evp : Evp) (config : PeerConfig) (found : ℕ → Disk × Socket) where
  new_server-Accounts :
      (fd : ℕ) (base : List ℕ) (concurrency : ℕ) (os : Os)
      → os.open_fds ≡ fd ∷ base
      → fd < os.next_fd
      → Accounts evp config found fd base os.bad_closes (new_server concurrency os)
  unfolding new_server new_pool
  new_server-Accounts fd base concurrency os top next = record {
    pool_inv = new_pool-Inv (pool_size concurrency) (pool_size-positive concurrency);
    balance = λ a. omega (arith, ap (count a) top);
    named = tt;
    closes = omega arith;
    next = next;
    adding = λ e. refl;
    served = refl;
    winding = λ e. cc e;
    joined = λ e. cc e;
  }

  serve-ServerRuns :
      (creates : Bytes → Bool) (concurrency : ℕ) (schedule : List ServerEvent) (os : Os)
      (r : Option ℕ × Os)
      → All (λ t. t < os.next_fd) os.open_fds
      → Opens os r
      → ServerRuns evp config found os r.0 (serve evp found creates concurrency schedule config r)
  serve-ServerRuns creates concurrency schedule os (none, os') h b = b
  serve-ServerRuns creates concurrency schedule os (some fd, os') h (top, good, new, next) =
      let start : Accounts evp config found fd os.open_fds os.bad_closes
          (new_server concurrency os') =
        subst (λ bad. Accounts evp config found fd os.open_fds bad (new_server concurrency os'))
          good (new_server-Accounts fd os.open_fds concurrency os' top next) in
      let now =
        server_run-Accounts evp config found fd os.open_fds os.bad_closes
          (All-below fd os.next_fd os.open_fds new h) (new_server concurrency os') schedule start in
      (
        refl,
        now,
        (λ e. (
          joining-JoinsGoOn evp config found fd _ e (now.winding e),
          joining-ComesBack evp config found fd _ e (now.winding e),
        )),
        Accounts-ServerEnd evp config found fd os _ now,
      )

  -- On a system in which every open descriptor was named before, whatever the tasks find, and
  -- after every schedule of the main thread and the threads of the pool. If a directory cannot be
  -- made, or no listening socket opened, `startPeerServer` is back and nothing is open that was
  -- not open before. Otherwise: besides what was open before, exactly the connections whose task
  -- has not finished are open, and the listening socket until `accept` fails; every `close` is of
  -- an open descriptor, but for the one of the listening socket after `acceptClient` has closed it
  -- already (a descriptor is known by the call that gave it, whatever its number stands for
  -- later); each task that has finished has handled its own connection; and the pool keeps its
  -- invariant. In the joins of the destructor, where the turn that ends a task says that its
  -- `handlePeerRequest` has returned, no event adds to the turns that the pool's threads have
  -- left, the turn of a thread that has not returned is one less, there is such a thread or the
  -- main thread's next turn is the return, and so some events bring it back. Once it is back, the
  -- open descriptors are those from before, exactly one `close` was too many, and each connection
  -- that was handed to the pool has been handled once.
  pub start_peer_server-ServerRuns :
      (creates : Bytes → Bool) (concurrency : ℕ) (schedule : List ServerEvent) (os : Os)
      → All (λ t. t < os.next_fd) os.open_fds
      → ServerRuns evp config found os
          (listening_fd (ensure_peer_storage_layout creates config) os)
          (start_peer_server evp found creates concurrency schedule config os)
  unfolding start_peer_server
  start_peer_server-ServerRuns creates concurrency schedule os fresh =
      by_layout (ensure_peer_storage_layout creates config)
    where
      by_layout :
          (b : Bool)
          → ServerRuns evp config found os (listening_fd b os) (
              if b
              then serve evp found creates concurrency schedule config (create_server_socket os)
              else not_started os)
      by_layout true =
          serve-ServerRuns creates concurrency schedule os (create_server_socket os) fresh
            (create_server_socket-Opens os)
      by_layout false = (refl, refl, omega arith)
