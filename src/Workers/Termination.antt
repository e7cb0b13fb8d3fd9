-- ===== src/Workers/Termination.antt =====
-- src/peer/peer.cpp, the workers: where every request succeeds, they come to an end.
use ai_optimized_distributed.Base.{
  total, total-set, ℕ, zero, suc, ◌+◌, ◌*◌, ◌≤◌, ◌<◌, ◌≡◌, refl, sym, ◌∙◌, Bool, true, false, inl,
  inr, ◌⊎◌, ◌&&◌, not, Option, none, some, List, [], ◌∷◌, arith, length, get_elem?, get_or, set,
  if◌then◌else◌, lt→ltb, replicate,
}
use ai_optimized_distributed.Scheduler.{ChunkScheduler, get_next_chunk, claim, next_from, mark_done}
use ai_optimized_distributed.Scheduler.Claims.{IsValid, Takes, get_next_chunk-Takes}
use ai_optimized_distributed.Status.{ChunkDownloadStatus}
use ai_optimized_distributed.Workers.{
  Worker, ready, assigned, requesting, returned, Download, Schedule, advance, took, finish, step,
  run, start_download,
}
use ai_optimized_distributed.Workers.Completion.{
  all_returned, start_download-total, start_download-Inv,
}
use ai_optimized_distributed.Workers.Holding.{Inv, in_hand, step-Inv}

abbrev free_bit : Bool → Bool → ℕ
free_bit d k = if not d && not k then 1 else 0

-- How many chunks nobody has and nobody holds.
abbrev pub open_chunks : List Bool → List Bool → ℕ
open_chunks [] ks = 0
open_chunks (d ∷ ds) [] = 0
open_chunks (d ∷ ds) (k ∷ ks) = free_bit d k + open_chunks ds ks

open_chunks-claim :
    (ds ks : List Bool) (c : ℕ)
    → length ds ≡ length ks
    → c < length ks
    → not (get_or ds c false) && not (get_or ks c false) ≡ true
    → open_chunks ds (set ks c true) + 1 ≡ open_chunks ds ks
open_chunks-claim [] [] c e h o = absurd (omega (arith, h))
open_chunks-claim [] (k ∷ ks) c e h o = absurd (omega (arith, e))
open_chunks-claim (d ∷ ds) [] c e h o = absurd (omega (arith, e))
open_chunks-claim (d ∷ ds) (k ∷ ks) zero e h o = ground arith
open_chunks-claim (d ∷ ds) (k ∷ ks) (suc c) e h o =
    omega (arith, open_chunks-claim ds ks c (omega (arith, e)) (omega (arith, h)) o)

open_chunks-done :
    (ds ks : List Bool) (c : ℕ)
    → get_or ks c false ≡ true
    → open_chunks (set ds c true) (set ks c false) ≡ open_chunks ds ks
open_chunks-done [] ks c h = refl
open_chunks-done (d ∷ ds) [] c h = ground arith
open_chunks-done (d ∷ ds) (k ∷ ks) zero h = ground arith
open_chunks-done (d ∷ ds) (k ∷ ks) (suc c) h = omega (arith, open_chunks-done ds ks c h)

-- The turns that a worker still needs for what it has in hand, and for its last call.
abbrev pub turns_left : Worker → ℕ
turns_left ready = 1
turns_left (assigned c) = 3
turns_left (requesting c) = 2
turns_left returned = 0

abbrev pub remaining : Download → ℕ
remaining d = 3 * open_chunks d.scheduler.done d.scheduler.claimed + total turns_left d.workers

-- A turn of a worker that has not returned, in which a request, if it ends, succeeds.
abbrev pub Works : (ℕ → Bool) → Option Worker → Type 0
Works outcome none = ⊥
Works outcome (some ready) = Unit
Works outcome (some (assigned c)) = Unit
Works outcome (some (requesting c)) = outcome c ≡ true
Works outcome (some returned) = ⊥

abbrev pub AllWork : Download → Schedule → Type 0
AllWork d [] = Unit
AllWork d ((w, outcome) ∷ es) =
    Works outcome (get_elem? d.workers w) × AllWork (step d (w, outcome)) es

-- What a call of `getNextChunk` leaves open.
Leaves : ChunkScheduler → Option ℕ × ChunkScheduler → Type 0
Leaves s (none, t) = open_chunks t.done t.claimed ≡ open_chunks s.done s.claimed
Leaves s (some c, t) = open_chunks t.done t.claimed + 1 ≡ open_chunks s.done s.claimed

claim-Leaves :
    (s : ChunkScheduler) (o : Option ℕ) → IsValid s → Takes s (claim s o) → Leaves s (claim s o)
unfolding claim Leaves
claim-Leaves s none v t = refl
claim-Leaves s (some c) v (below, open_here, first, flags, valid) =
    open_chunks-claim s.done s.claimed c (v.done_size ∙ sym v.claimed_size)
      (omega (arith, below, v.claimed_size)) open_here

took-remaining :
    (d : Download) (w : ℕ) (r : Option ℕ × ChunkScheduler)
    → get_elem? d.workers w ≡ some ready
    → Leaves d.scheduler r
    → remaining (took d w r) + 1 ≡ remaining d
unfolding took Leaves
took-remaining d w (none, t) e l =
    omega (arith, l, total-set turns_left d.workers w ready returned e)
took-remaining d w (some c, t) e l =
    omega (arith, l, total-set turns_left d.workers w ready (assigned c) e)

finish-remaining :
    (d : Download) (w c : ℕ) (ok : Bool)
    → Inv d
    → get_elem? d.workers w ≡ some (requesting c)
    → ok ≡ true
    → remaining (finish d w c ok) + 1 ≡ remaining d
unfolding finish mark_done
finish-remaining d w c false v e h = cc
finish-remaining d w c true v e h =
    let (claimed, undone, below) = in_hand d v w c (requesting c) e (ground arith) in
    rw (lt→ltb c d.scheduler.total_chunks below) (
      omega (
        arith,
        open_chunks-done d.scheduler.done d.scheduler.claimed c claimed,
        total-set turns_left d.workers w (requesting c) ready e,
      ))

advance-remaining :
    (d : Download) (w : ℕ) (outcome : ℕ → Bool) (p : Option Worker)
    → Inv d
    → get_elem? d.workers w ≡ p
    → Works outcome p
    → remaining (advance d w outcome p) + 1 ≡ remaining d
unfolding advance get_next_chunk
advance-remaining d w outcome none v e h = absurd h
advance-remaining d w outcome (some returned) v e h = absurd h
advance-remaining d w outcome (some ready) v e h =
    took-remaining d w (get_next_chunk d.scheduler) e (
      claim-Leaves d.scheduler (next_from d.scheduler.total_chunks 0 d.scheduler) v.valid
        (get_next_chunk-Takes d.scheduler v.valid))
advance-remaining d w outcome (some (assigned c)) v e h =
    omega (arith, total-set turns_left d.workers w (assigned c) (requesting c) e)
advance-remaining d w outcome (some (requesting c)) v e h = finish-remaining d w c (outcome c) v e h

run-remaining :
    (d : Download) (es : Schedule)
    → Inv d
    → AllWork d es
    → length es + remaining (run d es) ≡ remaining d
unfolding run step
run-remaining d [] v h = omega arith
run-remaining d ((w, outcome) ∷ es) v (h, hs) = omega (
  arith,
  run-remaining (step d (w, outcome)) es (step-Inv d (w, outcome) v) hs,
  advance-remaining d w outcome (get_elem? d.workers w) v refl h,
)

open_chunks-le : (ds ks : List Bool) → open_chunks ds ks ≤ length ks
open_chunks-le [] ks = omega arith
open_chunks-le (d ∷ ds) [] = omega arith
open_chunks-le (d ∷ ds) (k ∷ ks) = ground (arith, open_chunks-le ds ks)

total-ready : (n : ℕ) → total turns_left (replicate n ready) ≡ n
total-ready zero = refl
total-ready (suc n) = omega (arith, total-ready n)

start-workers :
    (workers n : ℕ) (exists : ℕ → Bool) (loaded : List ChunkDownloadStatus)
    → total turns_left (start_download workers n exists loaded).workers ≡ workers
unfolding start_download
start-workers workers n exists loaded = total-ready workers

start-remaining :
    (workers n : ℕ) (exists : ℕ → Bool) (loaded : List ChunkDownloadStatus)
    → length loaded ≡ n
    → remaining (start_download workers n exists loaded) ≤ 3 * n + workers
start-remaining workers n exists loaded h =
    let d = start_download workers n exists loaded in
    omega (
      arith,
      open_chunks-le d.scheduler.done d.scheduler.claimed,
      (start_download-Inv workers n exists loaded h).valid.claimed_size,
      start_download-total workers n exists loaded h,
      start-workers workers n exists loaded,
    )

-- Some worker has a turn in which its request, if there is one, succeeds.
abbrev pub CanWork : List Worker → Type 0
CanWork ws = (w : ℕ) × Works (λ c. true) (get_elem? ws w)

later : (x : Worker) (ws : List Worker) → CanWork ws → CanWork (x ∷ ws)
later x ws (w, h) = (suc w, h)

over_or_working : (ws : List Worker) → (all_returned ws ≡ true) ⊎ CanWork ws
over_or_working [] = inl refl
over_or_working (ready ∷ ws) = inr (0, tt)
over_or_working (assigned c ∷ ws) = inr (0, tt)
over_or_working (requesting c ∷ ws) = inr (0, refl)
over_or_working (returned ∷ ws) = elim (over_or_working ws) [
  | inl h ↦ inl h
  | inr h ↦ inr (later returned ws h)
]

-- Where every request succeeds, the workers come to an end, whatever their order: from the start of a download
-- of `n` chunks, no sequence of turns of workers that have not returned is longer than three for each chunk
-- and one for each worker, and after each such sequence either all workers have returned or one of
-- them has another turn.
pub run_terminates :
    (workers n : ℕ) (exists : ℕ → Bool) (loaded : List ChunkDownloadStatus) (es : Schedule)
    → length loaded ≡ n
    → AllWork (start_download workers n exists loaded) es
    → (length es ≤ 3 * n + workers)
      × ((all_returned (run (start_download workers n exists loaded) es).workers ≡ true)
          ⊎ CanWork (run (start_download workers n exists loaded) es).workers)
run_terminates workers n exists loaded es h work =
    let d = start_download workers n exists loaded in
    (
      omega (
        arith,
        run-remaining d es (start_download-Inv workers n exists loaded h) work,
        start-remaining workers n exists loaded h,
      ),
      over_or_working (run d es).workers,
    )
