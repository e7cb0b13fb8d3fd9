-- ===== src/Parallel/Whole.antt =====
-- src/peer/peer.cpp, `downloadFileFromMultiplePeers`: what its result says once it has one.
use ai_optimized_distributed.Base.{
  ℕ, zero, suc, ◌<◌, ◌≡◌, refl, ap, sym, subst, ◌∙◌, inl, inr, Bool, true, false, not, none, some,
  List, [], ◌∷◌, Bytes, length, map, replicate, length-set, length-replicate, arith, is_empty,
  if◌then◌else◌, Bool-cases, Option-cases,
}
use ai_optimized_distributed.Base.Decimal.{ℤ, pos, negsuc, read_int}
use ai_optimized_distributed.Base.Stream.{read_word}
use ai_optimized_distributed.Disk.{Disk, exists, open_in}
use ai_optimized_distributed.Download.{merge_and_verify, conclude_download}
use ai_optimized_distributed.Download.Verified.{Concludes, conclude_download-Concludes}
use ai_optimized_distributed.Hash.{Evp}
use ai_optimized_distributed.Metadata.{MetadataStore}
use ai_optimized_distributed.Peer.{PeerConfig, PeerEndpoint, local_chunk_already_exists}
use ai_optimized_distributed.Scheduler.{ChunkScheduler, all_done}
use ai_optimized_distributed.StateFile.{
  get_download_state_path, set_status, load_loop, load_download_state, save_download_state,
  verify_all_chunks_complete,
}
use ai_optimized_distributed.Status.{
  ChunkDownloadStatus, not_started, find_missing_chunks, string_to_chunk_status,
}
use ai_optimized_distributed.UsablePeers.{filter_usable_peers}
use ai_optimized_distributed.Workers.{ready, run, start_download}
use ai_optimized_distributed.Workers.Completion.{all_returned, run_complete}
use ai_optimized_distributed.Parallel.{
  Task, starting, picked, asking, told, over, SharedState, Turn, all_over, worker_count, run_tasks,
  start_tasks, await, with_state, download_file_from_multiple_peers,
}
use ai_optimized_distributed.Parallel.Refinement.{worker_of, view, schedule_of, run_tasks-run}

length-set_status :
    (total : ℕ) (z : ℤ) (text : Bytes) (ss : List ChunkDownloadStatus)
    → length (set_status total z text ss) ≡ length ss
length-set_status total (negsuc n) text ss = refl
length-set_status total (pos i) text ss =
    ground (arith, length-set ss i (string_to_chunk_status text))

length-load_loop :
    (fuel total : ℕ) (s : Bytes) (ss : List ChunkDownloadStatus)
    → length (load_loop fuel total s ss) ≡ length ss
unfolding load_loop
length-load_loop zero total s ss = refl
length-load_loop (suc fuel) total s ss = elim (Option-cases (read_int s)) [
  | inl e ↦ rw (load_loop, e) refl
  | inr ((z, s₂), e) ↦ elim (Option-cases (read_word s₂)) [
    | inl f ↦ rw (load_loop, e, f) refl
    | inr ((text, rest), f) ↦
        rw (load_loop, e, f)
          (length-load_loop fuel total rest (set_status total z text ss)
            ∙ length-set_status total z text ss)
  ]
]

length-load_download_state :
    (config : PeerConfig) (d : Disk) (file_id : Bytes) (ss : List ChunkDownloadStatus) (total : ℤ)
    → length (load_download_state config d file_id ss total).1 ≡ length ss
unfolding load_download_state
length-load_download_state config d file_id ss (negsuc n) = refl
length-load_download_state config d file_id ss (pos zero) = refl
length-load_download_state config d file_id ss (pos (suc n)) =
    let path = get_download_state_path config file_id in
    elim (Bool-cases (exists d path)) [
      | inr absent ↦ rw (load_download_state, absent) refl
      | inl present ↦ elim (Option-cases (open_in d path)) [
        | inl e ↦ rw (load_download_state, present, e) refl
        | inr (s, e) ↦
            rw (load_download_state, present, e) (length-load_loop (length s) (suc n) s ss)
      ]
    ]

all_over-all_returned :
    (ts : List Task) → all_over ts ≡ true → all_returned (map worker_of ts) ≡ true
all_over-all_returned [] h = refl
all_over-all_returned (over ∷ ts) h = all_over-all_returned ts h
all_over-all_returned (starting ∷ ts) h = cc
all_over-all_returned (picked c ∷ ts) h = cc
all_over-all_returned (asking c ∷ ts) h = cc
all_over-all_returned (told c ok ∷ ts) h = cc

map-starting : (n : ℕ) → map worker_of (replicate n starting) ≡ replicate n ready
map-starting zero = refl
map-starting (suc n) = ap (λ ws. ready ∷ ws) (map-starting n)

some_worker :
    (peers : List PeerEndpoint) (n cpu : ℕ)
    → is_empty peers ≡ false
    → 0 < worker_count (length peers) (suc n) cpu
some_worker [] n cpu h = cc
some_worker (x ∷ peers) n cpu h = ground arith

module _ (evp : Evp) (config : PeerConfig) (file_id : Bytes)
    (usable_peers : List PeerEndpoint) where
  view-start_tasks :
      (cpu_count total_chunks : ℕ) (loaded : List ChunkDownloadStatus) (d : Disk)
      → view (start_tasks evp config file_id usable_peers cpu_count total_chunks loaded d)
        ≡ start_download
            (worker_count (length usable_peers) total_chunks cpu_count)
            total_chunks
            (λ i. local_chunk_already_exists config d file_id (pos i))
            loaded
  unfolding start_tasks start_download
  view-start_tasks cpu_count total_chunks loaded d =
      ap
        (λ ws.
          let started =
            start_download (worker_count (length usable_peers) total_chunks cpu_count) total_chunks
              (λ i. local_chunk_already_exists config d file_id (pos i)) loaded in
          record {
            scheduler = started.scheduler;
            chunk_status = started.chunk_status;
            workers = ws;
          })
        (map-starting (worker_count (length usable_peers) total_chunks cpu_count))

  -- When all tasks are over, no chunk is missing.
  tasks_complete :
      (cpu_count n : ℕ) (loaded : List ChunkDownloadStatus) (d : Disk) (es : List Turn)
      → is_empty usable_peers ≡ false
      → length loaded ≡ suc n
      → let p =
          run_tasks evp config file_id usable_peers
            (start_tasks evp config file_id usable_peers cpu_count (suc n) loaded d)
            es in
        all_over p.tasks ≡ true
        → (all_done p.scheduler ≡ true) × (find_missing_chunks p.chunk_status ≡ [])
  tasks_complete cpu_count n loaded d es some_peer sized h =
      let start = start_tasks evp config file_id usable_peers cpu_count (suc n) loaded d in
      let p = run_tasks evp config file_id usable_peers start es in
      let present : ℕ → Bool = λ i. local_chunk_already_exists config d file_id (pos i) in
      let count = worker_count (length usable_peers) (suc n) cpu_count in
      let schedule = schedule_of evp config file_id usable_peers start es in
      let same : view p ≡ run (start_download count (suc n) present loaded) schedule =
        run_tasks-run evp config file_id usable_peers start es
        ∙ ap (λ x. run x schedule) (view-start_tasks cpu_count (suc n) loaded d) in
      subst (λ x. (all_done x.scheduler ≡ true) × (find_missing_chunks x.chunk_status ≡ []))
        (sym same)
        (run_complete count (suc n) present loaded schedule
          (some_worker usable_peers n cpu_count some_peer) sized
          (ap (λ x. all_returned x.workers) (sym same) ∙ all_over-all_returned p.tasks h))

-- Saving the state, testing the file of every chunk, and then merging and testing the result.
abbrev pub tests_and_merge :
    Evp
    → PeerConfig
    → Bytes
    → MetadataStore
    → ℤ
    → Bytes
    → Disk
    → List ChunkDownloadStatus
    → Bool × Disk
tests_and_merge evp config file_id store total output_path d ss =
    let d' = (save_download_state config d file_id ss).1 in
    if verify_all_chunks_complete config d' file_id ss
    then merge_and_verify evp config store file_id d' total output_path
    else (false, d')

swap_branches : {A : Type 0} (b : Bool) (x y : A) → (if not b then x else y) ≡ (if b then y else x)
swap_branches true x y = refl
swap_branches false x y = refl

conclude_download_complete :
    (evp : Evp) (config : PeerConfig) (file_id : Bytes) (store : MetadataStore) (total : ℤ)
    (output_path : Bytes) (d : Disk) (s : ChunkScheduler) (ss : List ChunkDownloadStatus)
    → all_done s ≡ true
    → find_missing_chunks ss ≡ []
    → conclude_download evp config store file_id d s ss total output_path
      ≡ tests_and_merge evp config file_id store total output_path d ss
unfolding conclude_download
conclude_download_complete evp config file_id store total output_path d s ss h k =
    rw (conclude_download, h, k)
      (swap_branches
        (verify_all_chunks_complete config (save_download_state config d file_id ss).1 file_id ss) _
        _)

module _ (evp : Evp) (config : PeerConfig) (file_id : Bytes) (store : MetadataStore)
    (cpu_count n : ℕ) (peers : List PeerEndpoint) (output_path : Bytes) (es : List Turn)
    (d : Disk) where
  -- The state that the turns lead to.
  abbrev pub end_state : SharedState
  end_state =
      run_tasks evp config file_id (filter_usable_peers config peers)
        (start_tasks evp config file_id (filter_usable_peers config peers) cpu_count (suc n)
          (load_download_state config d file_id (replicate (suc n) not_started) (pos (suc n))).1 d)
        es

  loaded_then :
      (r : Bool × List ChunkDownloadStatus)
      → r.0 ≡ true
      → with_state evp config file_id store
          (filter_usable_peers config peers)
          cpu_count
          (suc n)
          output_path
          es
          d
          r
        ≡ await evp config file_id store (pos (suc n)) output_path (
            run_tasks evp config file_id
              (filter_usable_peers config peers)
              (start_tasks evp config file_id
                (filter_usable_peers config peers)
                cpu_count
                (suc n)
                r.1
                d)
              es)
  loaded_then (true, loaded) h = refl
  loaded_then (false, loaded) h = cc

  -- A download from several peers, with a positive number of chunks, a usable peer and a saved state that can be
  -- read or is not there: once the turns of the tasks, in any order and with any behaviour of the network,
  -- have brought every task to its end, `allDone` holds and no chunk is missing, so that the result is
  -- that of the test of the chunk files, the merge and the hash test on the disk as the tasks left it, and
  -- a success means that every chunk has status DONE and a nonempty file, and that the output has the
  -- hash of the metadata.
  pub download_file_from_multiple_peers-tests_and_merge :
      is_empty (filter_usable_peers config peers) ≡ false
      → (load_download_state config d file_id (replicate (suc n) not_started) (pos (suc n))).0
        ≡ true
      → all_over end_state.tasks ≡ true
      → (download_file_from_multiple_peers evp config file_id store cpu_count peers
            (pos (suc n))
            output_path
            es
            d
          ≡ some (
              tests_and_merge evp config file_id store
                (pos (suc n))
                output_path
                end_state.disk
                end_state.chunk_status))
        × (all_done end_state.scheduler ≡ true)
        × (find_missing_chunks end_state.chunk_status ≡ [])
        × Concludes evp config store file_id output_path end_state.disk end_state.scheduler
            end_state.chunk_status
            (tests_and_merge evp config file_id store
              (pos (suc n))
              output_path
              end_state.disk
              end_state.chunk_status)
  unfolding download_file_from_multiple_peers
  download_file_from_multiple_peers-tests_and_merge some_peer loads h =
      let r = load_download_state config d file_id (replicate (suc n) not_started) (pos (suc n)) in
      let sized : length r.1 ≡ suc n =
        length-load_download_state config d file_id (replicate (suc n) not_started) (pos (suc n))
        ∙ length-replicate (suc n) not_started in
      let (all, nothing_missing) =
        tasks_complete evp config file_id (filter_usable_peers config peers) cpu_count n r.1 d es
          some_peer sized h in
      let same =
        conclude_download_complete evp config file_id store (pos (suc n)) output_path end_state.disk
          end_state.scheduler end_state.chunk_status all nothing_missing in
      (
        ap
              (λ b.
                if b
                then some (false, d)
                else with_state evp config file_id store (filter_usable_peers config peers)
                    cpu_count (suc n) output_path es d r)
              some_peer
            ∙ loaded_then r loads
            ∙ ap
                (λ b.
                  if b
                  then some (
                      conclude_download evp config store file_id end_state.disk end_state.scheduler
                        end_state.chunk_status (pos (suc n)) output_path)
                  else none)
                h
            ∙ ap some same,
        all,
        nothing_missing,
        subst
            (Concludes evp config store file_id output_path end_state.disk end_state.scheduler
              end_state.chunk_status)
            same
            (conclude_download-Concludes evp config store file_id output_path end_state.disk
              end_state.scheduler end_state.chunk_status (pos (suc n))),
      )
