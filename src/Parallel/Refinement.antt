-- ===== src/Parallel/Refinement.antt =====
-- src/peer/peer.cpp: the tasks with the disk run as the workers of Workers do.
use ai_optimized_distributed.Base.{
  ℕ, zero, suc, ◌%◌, ◌≡◌, refl, ap, sym, ◌∙◌, Bool, true, false, Option, none, some, List, [], ◌∷◌,
  ◌++◌, Bytes, get_elem?, length, set, map,
}
use ai_optimized_distributed.Base.Decimal.{pos}
use ai_optimized_distributed.Disk.{Disk}
use ai_optimized_distributed.Hash.{Evp}
use ai_optimized_distributed.Peer.{PeerConfig, PeerEndpoint}
use ai_optimized_distributed.Request.{Attempt, Call, request_chunk_from_any_peer}
use ai_optimized_distributed.Scheduler.{ChunkScheduler, get_next_chunk, mark_done, mark_failed}
use ai_optimized_distributed.Status.{ChunkDownloadStatus, in_progress, done, failed}
use ai_optimized_distributed.Workers.{
  Worker, ready, assigned, requesting, returned, Download, Schedule, advance, took, finish, step,
  run,
}
use ai_optimized_distributed.Parallel.{
  Task, starting, picked, asking, told, over, SharedState, Turn, pick, answered, conclude_chunk,
  perform, run_tasks,
}

-- The result of a request is not seen before the section that acts on it.
abbrev pub worker_of : Task → Worker
worker_of starting = ready
worker_of (picked c) = assigned c
worker_of (asking c) = requesting c
worker_of (told c ok) = requesting c
worker_of over = returned

-- What is left of a state without the disk and the calls.
abbrev pub view : SharedState → Download
view p = record {
  scheduler = p.scheduler;
  chunk_status = p.chunk_status;
  workers = map worker_of p.tasks;
}

run-append : (d : Download) (es fs : Schedule) → run d (es ++ fs) ≡ run (run d es) fs
unfolding run
run-append d [] fs = refl
run-append d (e ∷ es) fs = run-append (step d e) es fs

set_same : (ws : List Worker) (w : ℕ) (v : Worker) → get_elem? ws w ≡ some v → set ws w v ≡ ws
set_same [] w v e = refl
set_same (x ∷ ws) zero v e = ap (λ y. y ∷ ws) (sym (cc e))
set_same (x ∷ ws) (suc w) v e = ap (λ r. x ∷ r) (set_same ws w v e)

-- The step of a worker that a step of its task is: none for the request itself.
abbrev pub steps_of : ℕ → Option Task → Schedule
steps_of w (some (asking c)) = []
steps_of w (some (told c ok)) = (w, λ n. ok) ∷ []
steps_of w t = (w, λ n. false) ∷ []

map-set :
    (ts : List Task) (w : ℕ) (t : Task)
    → map worker_of (set ts w t) ≡ set (map worker_of ts) w (worker_of t)
map-set [] w t = refl
map-set (x ∷ ts) zero t = refl
map-set (x ∷ ts) (suc w) t = ap (λ r. worker_of x ∷ r) (map-set ts w t)

abbrev seen : Option Task → Option Worker
seen none = none
seen (some t) = some (worker_of t)

get_elem?-map : (ts : List Task) (w : ℕ) → get_elem? (map worker_of ts) w ≡ seen (get_elem? ts w)
get_elem?-map [] w = refl
get_elem?-map (x ∷ ts) zero = refl
get_elem?-map (x ∷ ts) (suc w) = get_elem?-map ts w

abbrev with_workers : ChunkScheduler → List ChunkDownloadStatus → List Worker → Download
with_workers s ss ws = record { scheduler = s; chunk_status = ss; workers = ws }

pick-view :
    (p : SharedState) (w : ℕ) (r : Option ℕ × ChunkScheduler)
    → view (pick p w r) ≡ took (view p) w r
unfolding took
pick-view p w (none, s) = ap (with_workers s p.chunk_status) (map-set p.tasks w over)
pick-view p w (some c, s) = ap (with_workers s p.chunk_status) (map-set p.tasks w (picked c))

-- A request changes the disk, and nothing that is seen of the task.
answered-view :
    (p : SharedState) (w c : ℕ) (r : Bool × Disk × List Call)
    → get_elem? p.tasks w ≡ some (asking c)
    → view (answered p w c r) ≡ view p
answered-view p w c (ok, d, cs) e = ap (with_workers p.scheduler p.chunk_status) (
    map-set p.tasks w (told c ok)
    ∙ set_same (map worker_of p.tasks) w (requesting c) (get_elem?-map p.tasks w ∙ ap seen e))

module _ (evp : Evp) (config : PeerConfig) (file_id : Bytes) where
  conclude_chunk-view :
      (p : SharedState) (w c : ℕ) (ok : Bool)
      → view (conclude_chunk evp config file_id p w c ok) ≡ finish (view p) w c ok
  unfolding finish
  conclude_chunk-view p w c true =
      ap (with_workers (mark_done p.scheduler (pos c)) (set p.chunk_status c done))
        (map-set p.tasks w starting)
  conclude_chunk-view p w c false =
      ap (with_workers (mark_failed p.scheduler (pos c)) (set p.chunk_status c failed))
        (map-set p.tasks w starting)

  module _ (usable_peers : List PeerEndpoint) where
    perform-run :
        (p : SharedState) (w : ℕ) (env : ℕ → Attempt) (t : Option Task)
        → get_elem? p.tasks w ≡ t
        → view (perform evp config file_id usable_peers p w env t) ≡ run (view p) (steps_of w t)
    unfolding run step advance
    perform-run p w env none e =
        sym (ap (advance (view p) w (λ n. false)) (get_elem?-map p.tasks w ∙ ap seen e))
    perform-run p w env (some over) e =
        sym (ap (advance (view p) w (λ n. false)) (get_elem?-map p.tasks w ∙ ap seen e))
    perform-run p w env (some starting) e =
        pick-view p w (get_next_chunk p.scheduler)
        ∙ sym (ap (advance (view p) w (λ n. false)) (get_elem?-map p.tasks w ∙ ap seen e))
    perform-run p w env (some (picked c)) e =
        ap (with_workers p.scheduler (set p.chunk_status c in_progress))
          (map-set p.tasks w (asking c))
        ∙ sym (ap (advance (view p) w (λ n. false)) (get_elem?-map p.tasks w ∙ ap seen e))
    perform-run p w env (some (asking c)) e =
        answered-view p w c
          (request_chunk_from_any_peer evp config file_id (pos c) usable_peers
            (c % length usable_peers) env p.disk)
          e
    perform-run p w env (some (told c ok)) e =
        conclude_chunk-view p w c ok
        ∙ sym (ap (advance (view p) w (λ n. ok)) (get_elem?-map p.tasks w ∙ ap seen e))

    -- The steps of the workers that a run of the tasks is.
    abbrev pub schedule_of : SharedState → List Turn → Schedule
    schedule_of p [] = []
    schedule_of p ((w, env) ∷ es) =
        steps_of w (get_elem? p.tasks w)
        ++ schedule_of (perform evp config file_id usable_peers p w env (get_elem? p.tasks w)) es

    -- The tasks of a download, with all their requests and all that they do to the disk and to the saved
    -- state, implement the workers of the plain description: after any sequence of turns from any
    -- state, scheduler, statuses and workers are those that the description reaches by the same
    -- critical sections in the same order, with the results that the requests had.
    pub run_tasks-run :
        (p : SharedState) (es : List Turn)
        → view (run_tasks evp config file_id usable_peers p es) ≡ run (view p) (schedule_of p es)
    unfolding run_tasks
    run_tasks-run p [] = unfold run in refl
    run_tasks-run p ((w, env) ∷ es) =
        let t = get_elem? p.tasks w in
        let p' = perform evp config file_id usable_peers p w env t in
        run_tasks-run p' es
        ∙ ap (λ d. run d (schedule_of p' es)) (perform-run p w env t refl)
        ∙ sym (run-append (view p) (steps_of w t) (schedule_of p' es))
