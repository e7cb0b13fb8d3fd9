-- ===== src/Workers/Starvation.antt =====
-- src/peer/peer.cpp, the workers: a chunk that no request delivers is asked for without end.
use ai_optimized_distributed.Base.{
  ℕ, ◌<◌, ◌≡◌, refl, subst, sym, ap, ◌∙◌, inl, inr, Bool, true, false, Option, none, some, List, [],
  ◌∷◌, arith, length, get_elem?, All, Bool-cases,
}
use ai_optimized_distributed.Base.Decimal.{pos}
use native.Mathlib.Decide.{ℕ_discrete}
use ai_optimized_distributed.Scheduler
use ai_optimized_distributed.Scheduler.{
  ChunkScheduler, claim, get_next_chunk, mark_done, mark_failed, all_done,
}
use ai_optimized_distributed.Scheduler.Claims.{
  Takes, get_next_chunk-Takes, mark_done-Flags, mark_failed-Flags, all_done_iff,
}
use ai_optimized_distributed.Status.{ChunkDownloadStatus}
use ai_optimized_distributed.Workers.{
  Worker, ready, assigned, requesting, returned, Download, Schedule, advance, took, finish, step,
  run, start_download,
}
use ai_optimized_distributed.Workers.Holding.{Inv, in_hand, step-Inv, run-Inv}
use ai_optimized_distributed.Workers.Completion.{
  all_returned, start_download-Inv, start_download-total, run_complete,
}

abbrev pub Undone : ℕ → Download → Type 0
Undone c d = Scheduler.is_done d.scheduler c ≡ false

took-Undone :
    (c : ℕ) (d : Download) (w : ℕ) (r : Option ℕ × ChunkScheduler)
    → Takes d.scheduler r
    → Undone c d
    → Undone c (took d w r)
unfolding took
took-Undone c d w (none, t) (same, _) u = ap (λ s. Scheduler.is_done s c) same ∙ u
took-Undone c d w (some b, t) (_, _, _, flags, _) u = elim (ℕ_discrete b c) [
  | yes same ↦ subst (λ k. Scheduler.is_done t k ≡ false) same flags.1
  | no other ↦ (flags.3 c (λ q. other (sym q))).0 ∙ u
]

finish-Undone :
    (c : ℕ) (d : Download) (w b : ℕ) (ok : Bool)
    → Inv d
    → get_elem? d.workers w ≡ some (requesting b)
    → (c ≡ b → ok ≡ false)
    → Undone c d
    → Undone c (finish d w b ok)
unfolding finish
finish-Undone c d w b true v e h u =
    let (_, _, inside) = in_hand d v w b (requesting b) e (ground arith) in
    let (flags, _) = mark_done-Flags d.scheduler b v.valid inside in
    (flags.3 c (λ q. cc (h q))).0 ∙ u
finish-Undone c d w b false v e h u =
    let (_, undone, inside) = in_hand d v w b (requesting b) e (ground arith) in
    let (flags, _) = mark_failed-Flags d.scheduler b v.valid inside in
    elim (ℕ_discrete b c) [
      | yes same ↦
          subst (λ k. Scheduler.is_done (mark_failed d.scheduler (pos b)) k ≡ false) same
            (flags.1 ∙ undone)
      | no other ↦ (flags.3 c (λ q. other (sym q))).0 ∙ u
    ]

advance-Undone :
    (c : ℕ) (d : Download) (w : ℕ) (outcome : ℕ → Bool) (p : Option Worker)
    → Inv d
    → get_elem? d.workers w ≡ p
    → outcome c ≡ false
    → Undone c d
    → Undone c (advance d w outcome p)
unfolding advance
advance-Undone c d w outcome none v e h u = u
advance-Undone c d w outcome (some ready) v e h u =
    took-Undone c d w (get_next_chunk d.scheduler) (get_next_chunk-Takes d.scheduler v.valid) u
advance-Undone c d w outcome (some (assigned b)) v e h u = u
advance-Undone c d w outcome (some (requesting b)) v e h u =
    finish-Undone c d w b (outcome b) v e (λ q. subst (λ k. outcome k ≡ false) q h) u
advance-Undone c d w outcome (some returned) v e h u = u

-- No request for chunk `c` succeeds in the schedule.
abbrev pub NeverDelivers : ℕ → Schedule → Type 0
NeverDelivers c = All (λ e. e.1 c ≡ false)

run-Undone :
    (c : ℕ) (d : Download) (es : Schedule)
    → Inv d
    → NeverDelivers c es
    → Undone c d
    → Undone c (run d es)
unfolding run step
run-Undone c d [] v h u = u
run-Undone c d ((w, outcome) ∷ es) v (h, hs) u =
    run-Undone c (step d (w, outcome)) es (step-Inv d (w, outcome) v) hs
      (advance-Undone c d w outcome (get_elem? d.workers w) v refl h u)

advance-total :
    (d : Download) (w : ℕ) (outcome : ℕ → Bool) (p : Option Worker)
    → Inv d
    → (advance d w outcome p).scheduler.total_chunks ≡ d.scheduler.total_chunks
unfolding advance took finish get_next_chunk claim mark_done mark_failed
advance-total d w outcome none v = refl
advance-total d w outcome (some ready) v = ground arith
advance-total d w outcome (some (assigned b)) v = refl
advance-total d w outcome (some (requesting b)) v = ground arith
advance-total d w outcome (some returned) v = refl

run-total :
    (d : Download) (es : Schedule)
    → Inv d
    → (run d es).scheduler.total_chunks ≡ d.scheduler.total_chunks
unfolding run step
run-total d [] v = refl
run-total d ((w, outcome) ∷ es) v =
    run-total (step d (w, outcome)) es (step-Inv d (w, outcome) v)
    ∙ advance-total d w outcome (get_elem? d.workers w) v

-- With one worker or more and one loaded status for each chunk: while one chunk that is not done
-- at the start is delivered by no request, the workers never all return, however long they run, so
-- `pool.wait()` waits without end and the branch that reports an incomplete download is not
-- reached.
pub run_never_returns :
    (workers n c : ℕ) (exists : ℕ → Bool) (loaded : List ChunkDownloadStatus) (es : Schedule)
    → 0 < workers
    → length loaded ≡ n
    → c < n
    → Undone c (start_download workers n exists loaded)
    → NeverDelivers c es
    → all_returned (run (start_download workers n exists loaded) es).workers ≡ false
run_never_returns workers n c exists loaded es p h inside u never =
    elim (Bool-cases (all_returned (run (start_download workers n exists loaded) es).workers)) [
      | inl over ↦
          let d = start_download workers n exists loaded in
          let v = start_download-Inv workers n exists loaded h in
          let (complete, _) = run_complete workers n exists loaded es p h over in
          let total = run-total d es v ∙ start_download-total workers n exists loaded h in
          absurd (
            cc (
              run-Undone c d es v never u,
              (all_done_iff _ (run-Inv d es v).valid).0 complete c
                  (subst (λ k. c < k) (sym total) inside),
            ))
      | inr e ↦ e
    ]
