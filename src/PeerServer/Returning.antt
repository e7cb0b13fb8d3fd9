-- ===== src/PeerServer/Returning.antt =====
-- src/peer/peer.cpp, `startPeerServer`: the joins at its end come to an end.
use ai_optimized_distributed.Base.{
  ℕ, zero, suc, ◌≤◌, ◌≡◌, refl, ap, sym, subst, ◌∙◌, inl, inr, ◌⊎◌, Bool, true, false, Option, none,
  some, List, [], ◌∷◌, arith, get_elem?,
}
use ai_optimized_distributed.Disk.{Disk}
use ai_optimized_distributed.Hash.{Evp}
use ai_optimized_distributed.Socket.{Socket}
use ai_optimized_distributed.Peer.{PeerConfig}
use ai_optimized_distributed.ThreadPool.{
  Thread, awake, asleep, returned, running, notify, spurious, turn, is_returned, all_returned, step,
}
use ai_optimized_distributed.ThreadPool.Joins.{
  Winding, turns_left, step-notify-Winds, step-spurious-Winds, step-turn-Winds,
  turns_left-step-turn, unreturned,
}
use ai_optimized_distributed.PeerServer.{
  joining, left, Server, ServerEvent, main_turn, notified, woken, thread_turn, join_threads,
  while_there, pool_step, task_body, main_step, server_step, server_run,
}

join_threads-pool : (b : Bool) (s : Server) → (join_threads b s).pool ≡ s.pool
join_threads-pool true s = refl
join_threads-pool false s = refl

module _ (evp : Evp) (config : PeerConfig) (found : ℕ → Disk × Socket) (fd : ℕ) (s : Server) where
  -- A thread of the pool that has not returned.
  abbrev pub CanGoOn : ℕ → Type 0
  CanGoOn i = (t : Thread) × (get_elem? s.pool.threads i ≡ some t) × (is_returned t ≡ false)

  -- No event adds to the turns that are left, the turn of a thread that has not returned is one
  -- less, and there is such a thread or the main thread's next turn is the return.
  abbrev pub JoinsGoOn : Type 0
  JoinsGoOn =
      ((e : ServerEvent)
        → turns_left (server_step evp config found fd s e).pool ≤ turns_left s.pool)
      × ((i : ℕ)
          → CanGoOn i
          → suc (turns_left (server_step evp config found fd s (thread_turn i)).pool)
            ≡ turns_left s.pool)
      × (((i : ℕ) × CanGoOn i) ⊎ ((server_step evp config found fd s main_turn).place ≡ left))

  task_body-pool : (t : Option Thread) → (task_body evp config found t s).pool ≡ s.pool
  task_body-pool none = refl
  task_body-pool (some awake) = refl
  task_body-pool (some asleep) = refl
  task_body-pool (some returned) = refl
  task_body-pool (some (running t)) = refl

  task_body-place : (t : Option Thread) → (task_body evp config found t s).place ≡ s.place
  task_body-place none = refl
  task_body-place (some awake) = refl
  task_body-place (some asleep) = refl
  task_body-place (some returned) = refl
  task_body-place (some (running t)) = refl

  module _ (e : s.place ≡ joining) where
    while_joining : (s' : Server) → (while_there s.place s s').pool ≡ s'.pool
    while_joining s' = ap (λ place. (while_there place s s').pool) e

    pool-thread_turn :
        (i : ℕ) → (server_step evp config found fd s (thread_turn i)).pool ≡ step s.pool (turn i)
    unfolding server_step
    pool-thread_turn i =
        let t = get_elem? s.pool.threads i in
        while_joining (pool_step (turn i) (task_body evp config found t s))
        ∙ ap (λ p. step p (turn i)) (task_body-pool t)

    no_more :
        (w : Winding s.pool) (event : ServerEvent)
        → turns_left (server_step evp config found fd s event).pool ≤ turns_left s.pool
    unfolding server_step
    no_more w main_turn =
        let same : (main_step evp config found fd s.place s).pool ≡ s.pool =
          ap (λ place. (main_step evp config found fd place s).pool) e
          ∙ join_threads-pool (all_returned s.pool.threads) s in
        omega (arith, ap turns_left same)
    no_more w (notified i) = omega (
      arith,
      ap turns_left (while_joining (pool_step (notify i) s)),
      (step-notify-Winds s.pool i w).1,
    )
    no_more w (woken i) = omega (
      arith,
      ap turns_left (while_joining (pool_step (spurious i) s)),
      (step-spurious-Winds s.pool i w).1,
    )
    no_more w (thread_turn i) =
        omega (arith, ap turns_left (pool-thread_turn i), (step-turn-Winds s.pool i w).1)

    goes_on :
        (b : Bool)
        → all_returned s.pool.threads ≡ b
        → ((i : ℕ) × CanGoOn i) ⊎ ((server_step evp config found fd s main_turn).place ≡ left)
    unfolding server_step
    goes_on true all = inr (
        ap (λ place. (main_step evp config found fd place s).place) e
        ∙ ap (λ b. (join_threads b s).place) all)
    goes_on false all = let (i, t, g, f) = unreturned s.pool.threads all in inl (i, (t, g, f))

    pub joining-JoinsGoOn : Winding s.pool → JoinsGoOn
    joining-JoinsGoOn w = (
      no_more w,
      (λ i (t, g, f).
          ap (λ p. suc (turns_left p)) (pool-thread_turn i)
          ∙ turns_left-step-turn s.pool i w t g f),
      goes_on (all_returned s.pool.threads) refl,
    )

    place-thread_turn :
        (i : ℕ) → (server_step evp config found fd s (thread_turn i)).place ≡ joining
    unfolding server_step
    place-thread_turn i =
        let t = get_elem? s.pool.threads i in
        ap
          (λ place.
            (while_there place s (pool_step (turn i) (task_body evp config found t s))).place)
          e
        ∙ task_body-place t
        ∙ e

    thread_turn-Winding :
        (i : ℕ) → Winding s.pool → Winding (server_step evp config found fd s (thread_turn i)).pool
    thread_turn-Winding i w =
        subst Winding (sym (pool-thread_turn i)) (step-turn-Winds s.pool i w).0

module _ (evp : Evp) (config : PeerConfig) (found : ℕ → Disk × Socket) (fd : ℕ) where
  -- From here some events bring `startPeerServer` back.
  abbrev pub ComesBack : Server → Type 0
  ComesBack s = (es : List ServerEvent) × ((server_run evp config found fd s es).place ≡ left)

  -- The next thread goes on, or the main thread returns.
  go_on :
      (s : Server)
      → ((i : ℕ)
          → CanGoOn evp config found fd s i
          → ComesBack (server_step evp config found fd s (thread_turn i)))
      → ((i : ℕ) × CanGoOn evp config found fd s i)
        ⊎ ((server_step evp config found fd s main_turn).place ≡ left)
      → ComesBack s
  unfolding server_run
  go_on s k (inl (i, c)) = let (es, back) = k i c in (thread_turn i ∷ es, back)
  go_on s k (inr back) = (main_turn ∷ [], back)

  comes_back :
      (fuel : ℕ) (s : Server)
      → turns_left s.pool ≤ fuel
      → s.place ≡ joining
      → Winding s.pool
      → ComesBack s
  comes_back zero s h e w =
      let (_, less, next) = joining-JoinsGoOn evp config found fd s e w in
      go_on s (λ i c. absurd (omega (arith, h, less i c))) next
  comes_back (suc fuel) s h e w =
      let (_, less, next) = joining-JoinsGoOn evp config found fd s e w in
      go_on s
        (λ i c.
          comes_back fuel (server_step evp config found fd s (thread_turn i))
            (omega (arith, h, less i c)) (place-thread_turn evp config found fd s e i)
            (thread_turn-Winding evp config found fd s e i w))
        next

  pub joining-ComesBack : (s : Server) → s.place ≡ joining → Winding s.pool → ComesBack s
  joining-ComesBack s e w = comes_back (turns_left s.pool) s (omega arith) e w
