-- ===== src/Workers/Completion.antt =====
-- src/peer/peer.cpp, the workers: what holds when `pool.wait()` returns, when every task is over.
use ai_optimized_distributed.Base.{
  ℕ, zero, suc, ◌+◌, ◌<◌, ◌≡◌, refl, subst, sym, ap, ◌∙◌, inl, inr, Bool, true, false, ◌&&◌, ◌||◌,
  Option, none, some, List, [], ◌∷◌, arith, length, get_elem?, get_or, set, replicate, length-set,
  Bool-cases,
}
use ai_optimized_distributed.Base.Decimal.{pos}
use native.Mathlib.Decide.{ℕ_discrete}
use ai_optimized_distributed.Scheduler
use ai_optimized_distributed.Scheduler.{
  ChunkScheduler, new_scheduler, is_claimed, get_next_chunk, mark_done, mark_failed, all_done,
}
use ai_optimized_distributed.Scheduler.Claims.{
  IsValid, Takes, get_next_chunk-Takes, mark_done-Flags, new_scheduler-IsValid, get_or-replicate,
  all_done_iff,
}
use ai_optimized_distributed.Status.{
  ChunkDownloadStatus, not_started, in_progress, done, failed, find_missing_chunks,
}
use ai_optimized_distributed.Status
use ai_optimized_distributed.Status.Tables.{find_missing_chunks-nil}
use ai_optimized_distributed.Workers.{
  Worker, ready, assigned, requesting, returned, Download, Schedule, advance, took, finish, step,
  run, mark_present, start_download,
}
use ai_optimized_distributed.Workers.Holding.{Inv, held, status-set, step-Inv}

-- `pool.wait()`: every worker task has returned.
abbrev has_returned : Worker → Bool
has_returned returned = true
has_returned _ = false

abbrev pub all_returned : List Worker → Bool
all_returned [] = true
all_returned (p ∷ ps) = has_returned p && all_returned ps

held-all_returned : (i : ℕ) (ws : List Worker) → all_returned ws ≡ true → held i ws ≡ 0
held-all_returned i [] h = refl
held-all_returned i (returned ∷ ws) h = omega (arith, held-all_returned i ws h)
held-all_returned i (ready ∷ ws) h = cc
held-all_returned i (assigned c ∷ ws) h = cc
held-all_returned i (requesting c ∷ ws) h = cc

-- A worker that is put back to work keeps the pool waiting.
set_working :
    (ws : List Worker) (w : ℕ) (p q : Worker)
    → get_elem? ws w ≡ some p
    → has_returned q ≡ false
    → all_returned (set ws w q) ≡ false
set_working [] w p q e h = cc
set_working (x ∷ ws) zero p q e h = rw h
set_working (x ∷ ws) (suc w) p q e h = ground (arith, set_working ws w p q e h)

abbrev AllDone : ChunkScheduler → Type 0
AllDone s = (i : ℕ) → i < s.total_chunks → Scheduler.is_done s i ≡ true

-- Once all workers are gone, every chunk is done.
abbrev Finished : Download → Type 0
Finished d = all_returned d.workers ≡ true → AllDone d.scheduler

took-Finished :
    (d : Download) (w : ℕ) (r : Option ℕ × ChunkScheduler)
    → Inv d
    → get_elem? d.workers w ≡ some ready
    → Takes d.scheduler r
    → Inv (took d w r)
    → Finished (took d w r)
unfolding took
took-Finished d w (some c, t) v e k v' h = cc (h, set_working d.workers w ready (assigned c) e refl)
took-Finished d w (none, t) v e (same, shut) v' h = subst AllDone (sym same) λ i inside. ground (
  arith,
  shut i inside,
  held-all_returned i (set d.workers w returned) h,
  v'.one_holder i,
  ap (λ s. is_claimed s i) same,
)

advance-Finished :
    (d : Download) (w : ℕ) (outcome : ℕ → Bool) (p : Option Worker)
    → get_elem? d.workers w ≡ p
    → Inv d
    → Inv (advance d w outcome p)
    → Finished d
    → Finished (advance d w outcome p)
unfolding advance finish
advance-Finished d w outcome none e v v' f = f
advance-Finished d w outcome (some ready) e v v' f =
    took-Finished d w (get_next_chunk d.scheduler) v e (get_next_chunk-Takes d.scheduler v.valid) v'
advance-Finished d w outcome (some (assigned c)) e v v' f =
    λ h. cc (h, set_working d.workers w (assigned c) (requesting c) e refl)
advance-Finished d w outcome (some (requesting c)) e v v' f = elim (Bool-cases (outcome c)) [
  | inl ok ↦ rw ok λ h. cc (h, set_working d.workers w (requesting c) ready e refl)
  | inr ko ↦ rw ko λ h. cc (h, set_working d.workers w (requesting c) ready e refl)
]
advance-Finished d w outcome (some returned) e v v' f = f

run-Finished :
    (d : Download) (es : Schedule) → Inv d → Finished d → Inv (run d es) × Finished (run d es)
unfolding run step
run-Finished d [] v f = (v, f)
run-Finished d ((w, outcome) ∷ es) v f =
    let v' = step-Inv d (w, outcome) v in
    run-Finished (step d (w, outcome)) es v'
      (advance-Finished d w outcome (get_elem? d.workers w) refl v v' f)

-- The state after the loop that skips what is present: nothing is claimed yet.
record Prepared (n : ℕ) (s : ChunkScheduler) (ss : List ChunkDownloadStatus) : Type 0 where
  valid : IsValid s
  total : s.total_chunks ≡ n
  sized : length ss ≡ n
  free : (i : ℕ) → is_claimed s i ≡ false
  marked : (i : ℕ) → Scheduler.is_done s i ≡ true → get_or ss i not_started ≡ done

mark_one-Prepared :
    (n i : ℕ) (s : ChunkScheduler) (ss : List ChunkDownloadStatus)
    → i < n
    → Prepared n s ss
    → Prepared n (mark_done s (pos i)) (set ss i done)
mark_one-Prepared n i s ss h p =
    let (flags, valid) = mark_done-Flags s i p.valid (subst (λ k. i < k) (sym p.total) h) in
    record {
      valid = valid;
      total = flags.0 ∙ p.total;
      sized = length-set ss i done ∙ p.sized;
      free = λ j. elim (ℕ_discrete i j) [
        | yes same ↦ subst (λ k. is_claimed (mark_done s (pos i)) k ≡ false) same flags.2
        | no other ↦ (flags.3 j (λ q. other (sym q))).1 ∙ p.free j
      ];
      marked = λ j e. elim (ℕ_discrete i j) [
        | yes same ↦
            subst (λ k. get_or (set ss i done) k not_started ≡ done) same
              (ground (arith, status-set ss i i done, p.sized))
        | no other ↦
            ground (arith, status-set ss i j done, (flags.3 j (λ q. other (sym q))).0, p.marked j)
      ];
    }

mark_present-Prepared :
    (rounds i n : ℕ) (exists : ℕ → Bool) (s : ChunkScheduler) (ss : List ChunkDownloadStatus)
    → i + rounds ≡ n
    → Prepared n s ss
    → Prepared n (mark_present rounds i exists s ss).0 (mark_present rounds i exists s ss).1
unfolding mark_present
mark_present-Prepared zero i n exists s ss e p = p
mark_present-Prepared (suc rounds) i n exists s ss e p =
    elim (Bool-cases (Status.is_done (get_or ss i not_started) || exists i)) [
      | inl here ↦
          rw (mark_present, here)
            (mark_present-Prepared rounds (i + 1) n exists (mark_done s (pos i)) (set ss i done)
              (omega arith) (mark_one-Prepared n i s ss (omega arith) p))
      | inr away ↦
          rw (mark_present, away)
            (mark_present-Prepared rounds (i + 1) n exists s ss (omega arith) p)
    ]

held-replicate : (i n : ℕ) → held i (replicate n ready) ≡ 0
held-replicate i zero = refl
held-replicate i (suc n) = omega (arith, held-replicate i n)

start_download-Prepared :
    (n : ℕ) (exists : ℕ → Bool) (loaded : List ChunkDownloadStatus)
    → length loaded ≡ n
    → let p = mark_present n 0 exists (new_scheduler n) loaded in Prepared n p.0 p.1
unfolding new_scheduler
start_download-Prepared n exists loaded h =
    mark_present-Prepared n 0 n exists (new_scheduler n) loaded (omega arith) (record {
      valid = new_scheduler-IsValid n;
      total = refl;
      sized = h;
      free = get_or-replicate n;
      marked = λ i e. cc (e, get_or-replicate n i);
    })

module _ (workers n : ℕ) (exists : ℕ → Bool) (loaded : List ChunkDownloadStatus)
    (h : length loaded ≡ n) where
  pub start_download-total : (start_download workers n exists loaded).scheduler.total_chunks ≡ n
  unfolding start_download
  start_download-total = (start_download-Prepared n exists loaded h).total

  pub start_download-Inv : Inv (start_download workers n exists loaded)
  unfolding start_download
  start_download-Inv =
      let p = start_download-Prepared n exists loaded h in
      record {
        valid = p.valid;
        sized = p.sized ∙ sym p.total;
        one_holder = λ i. rw (p.free i) (held-replicate i workers);
        marked = p.marked;
      }

get_or→get_elem? :
    (ss : List ChunkDownloadStatus) (i : ℕ)
    → i < length ss
    → get_or ss i not_started ≡ done
    → get_elem? ss i ≡ some done
get_or→get_elem? [] i h e = elim h [ ]
get_or→get_elem? (s ∷ ss) zero h e = ap some e
get_or→get_elem? (s ∷ ss) (suc i) h e = get_or→get_elem? ss i (omega arith) e

-- When a pool of at least one worker, started with one loaded status for each chunk, has come to
-- rest, `allDone` holds and no chunk is missing, in every interleaving and whatever the requests
-- returned on the way.
pub run_complete :
    (workers n : ℕ) (exists : ℕ → Bool) (loaded : List ChunkDownloadStatus) (es : Schedule)
    → 0 < workers
    → length loaded ≡ n
    → all_returned (run (start_download workers n exists loaded) es).workers ≡ true
    → let d = run (start_download workers n exists loaded) es in
      (all_done d.scheduler ≡ true) × (find_missing_chunks d.chunk_status ≡ [])
run_complete (suc k) n exists loaded es p h rest =
    let (v, f) =
      run-Finished (start_download (suc k) n exists loaded) es
        (start_download-Inv (suc k) n exists loaded h) (unfold start_download in λ e. cc) in
    (
      (all_done_iff _ v.valid).1 (f rest),
      find_missing_chunks-nil _
          λ i q. get_or→get_elem? _ i q (v.marked i (f rest i (omega (arith, v.sized)))),
    )
run_complete zero n exists loaded es p h rest = elim p [ ]
