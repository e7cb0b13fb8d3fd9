-- ===== src/Workers/Holding.antt =====
-- src/peer/peer.cpp, the workers: a claimed chunk is in the hands of exactly one worker.
use ai_optimized_distributed.Base.{
  total, total-set, ℕ, zero, suc, ◌+◌, ◌≤◌, ◌<◌, ◌≡◌, refl, subst, sym, ◌∙◌, Bool, true, false,
  ◌&&◌, Option, none, some, List, [], ◌∷◌, arith, length, get_elem?, get_or, set, ltb, ◌==◌,
  if◌then◌else◌, length-set,
}
use native.Mathlib.Decide.{ℕ_discrete}
use ai_optimized_distributed.Base.Decimal.{pos}
use ai_optimized_distributed.Scheduler
use ai_optimized_distributed.Scheduler.{
  ChunkScheduler, is_claimed, get_next_chunk, mark_done, mark_failed,
}
use ai_optimized_distributed.Scheduler.Claims.{
  IsValid, Flags, Takes, get_next_chunk-Takes, mark_done-Flags, mark_failed-Flags,
}
use ai_optimized_distributed.Status.{ChunkDownloadStatus, not_started, in_progress, done, failed}
use ai_optimized_distributed.Workers.{
  Worker, ready, assigned, requesting, returned, Download, Schedule, advance, took, finish, step,
  run,
}

-- 1 for a worker that has chunk `i` in hand, else 0.
abbrev pub holds : ℕ → Worker → ℕ
holds i ready = 0
holds i (assigned c) = if c == i then 1 else 0
holds i (requesting c) = if c == i then 1 else 0
holds i returned = 0

-- How many workers have chunk `i` in hand.
abbrev pub held : ℕ → List Worker → ℕ
held i = total (holds i)

pub held-set :
    (i : ℕ) (ws : List Worker) (w : ℕ) (p q : Worker)
    → get_elem? ws w ≡ some p
    → held i (set ws w q) + holds i p ≡ held i ws + holds i q
held-set i = total-set (holds i)

pub holds-le-held :
    (i : ℕ) (ws : List Worker) (w : ℕ) (p : Worker)
    → get_elem? ws w ≡ some p
    → holds i p ≤ held i ws
holds-le-held i [] w p h = cc
holds-le-held i (x ∷ ws) zero p h =
    let e : x ≡ p = cc in subst (λ r. holds i r ≤ holds i x + held i ws) e (omega arith)
holds-le-held i (x ∷ ws) (suc w) p h = omega (arith, holds-le-held i ws w p h)

abbrev pub bit : Bool → ℕ
bit b = if b then 1 else 0

abbrev pub status_of : Download → ℕ → ChunkDownloadStatus
status_of d i = get_or d.chunk_status i not_started

-- The flags of the scheduler tell the truth: a chunk is claimed exactly while one worker, and only
-- one, has it in hand, and a chunk whose done flag is set has the status DONE.
pub record Inv (d : Download) : Type 0 where
  pub valid : IsValid d.scheduler
  pub sized : length d.chunk_status ≡ d.scheduler.total_chunks
  pub one_holder : (i : ℕ) → held i d.workers ≡ bit (is_claimed d.scheduler i)
  pub marked : (i : ℕ) → Scheduler.is_done d.scheduler i ≡ true → status_of d i ≡ done

get_or_in_range : (xs : List Bool) (i : ℕ) → get_or xs i false ≡ true → i < length xs
get_or_in_range [] i h = cc
get_or_in_range (x ∷ xs) zero h = omega arith
get_or_in_range (x ∷ xs) (suc i) h = omega (arith, get_or_in_range xs i h)

pub status-set :
    (ss : List ChunkDownloadStatus) (c i : ℕ) (s : ChunkDownloadStatus)
    → get_or (set ss c s) i not_started
      ≡ (if (c == i) && ltb i (length ss) then s else get_or ss i not_started)
status-set [] c i s = ground arith
status-set (x ∷ ss) zero zero s = ground arith
status-set (x ∷ ss) zero (suc i) s = ground arith
status-set (x ∷ ss) (suc c) zero s = ground arith
status-set (x ∷ ss) (suc c) (suc i) s = ground (arith, status-set ss c i s)

module _ (d : Download) (v : Inv d) (w c : ℕ) where
  -- A chunk in hand is claimed, so it exists and is not done.
  pub in_hand :
      (p : Worker)
      → get_elem? d.workers w ≡ some p
      → holds c p ≡ 1
      → (is_claimed d.scheduler c ≡ true)
        × (Scheduler.is_done d.scheduler c ≡ false)
        × (c < d.scheduler.total_chunks)
  in_hand p e h =
      let claimed : is_claimed d.scheduler c ≡ true =
        ground (arith, v.one_holder c, holds-le-held c d.workers w p e) in
      (
        claimed,
        ground (arith, v.valid.apart c),
        omega (arith, get_or_in_range d.scheduler.claimed c claimed, v.valid.claimed_size),
      )

  assigned-Inv :
      get_elem? d.workers w ≡ some (assigned c)
      → Inv (record d {
        chunk_status = set d.chunk_status c in_progress;
        workers = set d.workers w (requesting c);
      })
  assigned-Inv e = record {
    valid = v.valid;
    sized = length-set d.chunk_status c in_progress ∙ v.sized;
    one_holder =
        λ i. omega (arith, held-set i d.workers w (assigned c) (requesting c) e, v.one_holder i);
    marked = λ i h. ground (
      arith,
      status-set d.chunk_status c i in_progress,
      v.marked i h,
      in_hand (assigned c) e (ground arith),
    );
  }

  -- When the worker lets the chunk go, its flag falls and all else stays.
  let_go :
      (t : ChunkScheduler) (b : Bool)
      → get_elem? d.workers w ≡ some (requesting c)
      → Flags d.scheduler t c b false
      → (i : ℕ) → held i (set d.workers w ready) ≡ bit (is_claimed t i)
  let_go t b e (_, _, gone, rest) i = elim (ℕ_discrete c i) [
    | yes same ↦
        subst (λ k. held k (set d.workers w ready) ≡ bit (is_claimed t k)) same
          (ground (
            arith,
            gone,
            held-set c d.workers w (requesting c) ready e,
            v.one_holder c,
            in_hand (requesting c) e (ground arith),
          ))
    | no other ↦ ground (
      arith,
      rest i (λ q. other (sym q)),
      held-set i d.workers w (requesting c) ready e,
      v.one_holder i,
    )
  ]

  finish-Inv : (ok : Bool) → get_elem? d.workers w ≡ some (requesting c) → Inv (finish d w c ok)
  unfolding finish
  finish-Inv true e =
      let (_, _, inside) = in_hand (requesting c) e (ground arith) in
      let (flags, valid) = mark_done-Flags d.scheduler c v.valid inside in
      record {
        valid = valid;
        sized = length-set d.chunk_status c done ∙ v.sized ∙ sym flags.0;
        one_holder = let_go (mark_done d.scheduler (pos c)) true e flags;
        marked = λ i h. elim (ℕ_discrete c i) [
          | yes same ↦
              subst (λ k. get_or (set d.chunk_status c done) k not_started ≡ done) same
                (ground (arith, status-set d.chunk_status c c done, v.sized))
          | no other ↦ ground (
            arith,
            status-set d.chunk_status c i done,
            (flags.3 i (λ q. other (sym q))).0,
            v.marked i,
          )
        ];
      }
  finish-Inv false e =
      let (_, undone, inside) = in_hand (requesting c) e (ground arith) in
      let (flags, valid) = mark_failed-Flags d.scheduler c v.valid inside in
      record {
        valid = valid;
        sized = length-set d.chunk_status c failed ∙ v.sized ∙ sym flags.0;
        one_holder =
            let_go (mark_failed d.scheduler (pos c)) (Scheduler.is_done d.scheduler c) e flags;
        marked = λ i h. elim (ℕ_discrete c i) [
          | yes same ↦ absurd (
              ground (
                arith,
                subst (λ k. Scheduler.is_done (mark_failed d.scheduler (pos c)) k ≡ true) (sym same)
                    h,
                flags.1,
                undone,
              ))
          | no other ↦ ground (
            arith,
            status-set d.chunk_status c i failed,
            (flags.3 i (λ q. other (sym q))).0,
            v.marked i,
          )
        ];
      }

took-Inv :
    (d : Download) (w : ℕ) (r : Option ℕ × ChunkScheduler)
    → Inv d
    → get_elem? d.workers w ≡ some ready
    → Takes d.scheduler r
    → Inv (took d w r)
unfolding took
took-Inv d w (none, t) v e (same, _) =
    subst (λ s. Inv (record d { scheduler = s; workers = set d.workers w returned })) (sym same)
      (record {
        valid = v.valid;
        sized = v.sized;
        one_holder = λ i. omega (arith, held-set i d.workers w ready returned e, v.one_holder i);
        marked = v.marked;
      })
took-Inv d w (some c, t) v e (inside, was_open, _, flags, valid) = record {
  valid = valid;
  sized = v.sized ∙ sym flags.0;
  one_holder = λ i. elim (ℕ_discrete c i) [
    | yes same ↦
        subst (λ k. held k (set d.workers w (assigned c)) ≡ bit (is_claimed t k)) same
          (ground
            (arith, flags.2, held-set c d.workers w ready (assigned c) e, v.one_holder c, was_open))
    | no other ↦ ground (
      arith,
      (flags.3 i (λ q. other (sym q))).1,
      held-set i d.workers w ready (assigned c) e,
      v.one_holder i,
    )
  ];
  marked = λ i h. elim (ℕ_discrete c i) [
    | yes same ↦
        absurd (ground (arith, subst (λ k. Scheduler.is_done t k ≡ true) (sym same) h, flags.1))
    | no other ↦ ground (arith, (flags.3 i (λ q. other (sym q))).0, v.marked i)
  ];
}

advance-Inv :
    (d : Download) (w : ℕ) (outcome : ℕ → Bool) (p : Option Worker)
    → get_elem? d.workers w ≡ p
    → Inv d
    → Inv (advance d w outcome p)
unfolding advance
advance-Inv d w outcome none e v = v
advance-Inv d w outcome (some ready) e v =
    took-Inv d w (get_next_chunk d.scheduler) v e (get_next_chunk-Takes d.scheduler v.valid)
advance-Inv d w outcome (some (assigned c)) e v = assigned-Inv d v w c e
advance-Inv d w outcome (some (requesting c)) e v = finish-Inv d v w c (outcome c) e
advance-Inv d w outcome (some returned) e v = v

pub step-Inv : (d : Download) (e : ℕ × (ℕ → Bool)) → Inv d → Inv (step d e)
unfolding step
step-Inv d (w, outcome) = advance-Inv d w outcome (get_elem? d.workers w) refl

-- From a state in which this holds, it holds after every interleaving of the workers, whatever the
-- requests return: the lists have one entry for each chunk, each claimed chunk is in the hands of
-- exactly one worker, each chunk that is not claimed is in nobody's, no claimed chunk is done, and
-- each chunk marked done has the status DONE.
pub run-Inv : (d : Download) (es : Schedule) → Inv d → Inv (run d es)
unfolding run
run-Inv d [] v = v
run-Inv d (e ∷ es) v = run-Inv (step d e) es (step-Inv d e v)
