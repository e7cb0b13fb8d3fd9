-- ===== src/Examples/Parallel.antt =====
-- A whole download by `downloadFileFromMultiplePeers` of src/peer/peer.cpp: one chunk, two peers, of
-- which the first does not answer.
use ai_optimized_distributed.Base.{
  ℕ, ◌≡◌, ◌==◌, refl, true, false, none, some, List, [], ◌∷◌, codes, replicate, is_empty,
  if◌then◌else◌,
}
use ai_optimized_distributed.Base.Decimal.{
  pos, to_string, to_string_ℕ, read_int, scan_digits, scan_sign, scan_signed, skip_space, stoll,
}
use ai_optimized_distributed.Chunks.{get_chunk_path, chunk_exists}
use ai_optimized_distributed.Download.Verified.{Concludes}
use ai_optimized_distributed.Metadata.{MetadataStore}
use ai_optimized_distributed.Peer.{PeerEndpoint, is_safe_file_id, local_chunk_already_exists}
use ai_optimized_distributed.Request.{
  Attempt, Connection, request_chunk_from_any_peer, request_chunk_from_peer, accept_header,
  exchange, retry_loop,
}
use ai_optimized_distributed.Scheduler.{
  all_done, get_next_chunk, new_scheduler, claim, mark_done, mark_failed, next_from,
}
use ai_optimized_distributed.Socket.{arrives, recv, send_all, send_loop}
use ai_optimized_distributed.StateFile.{
  load_download_state, get_download_state_path, insert_all, insertions, load_loop,
  save_download_state,
}
use ai_optimized_distributed.Status.{
  not_started, find_missing_chunks, chunk_status_to_string, string_to_chunk_status,
}
use ai_optimized_distributed.UsablePeers.{
  filter_usable_peers, is_unusable, seen_before, key_of, filter_loop,
}
use ai_optimized_distributed.Workers.{run, start_download, mark_present}
use ai_optimized_distributed.Parallel.{
  SharedState, Turn, starting, all_over, run_tasks, start_tasks, download_file_from_multiple_peers,
}
use ai_optimized_distributed.Parallel.Refinement.{view, schedule_of, run_tasks-run}
use ai_optimized_distributed.Parallel.Whole.{
  end_state, tests_and_merge, download_file_from_multiple_peers-tests_and_merge,
}
use ai_optimized_distributed.Base.Stream.{break_word, get_line, read_word}
use ai_optimized_distributed.Disk.{open_in, open_out, put, remove, write}
use ai_optimized_distributed.Disk.Blocks.{blocks, blocks_from}
use ai_optimized_distributed.Hash.{bytes_to_hex, compute_file_sha256, hex_digit, update_all}
use ai_optimized_distributed.Protocol.{
  accept_chunk_id, accept_chunk_size, build_request_message, finish_chunk, finish_request,
  parse_message, trim_new_line,
}
use ai_optimized_distributed.Transfer.{
  break_line, check_hash, header_loop, read_chunk_header, receive_body, receive_chunk_data,
  receive_loop, write_initial,
}
use ai_optimized_distributed.Examples.{toy_evp, toy_disk, toy_config, toy_peer}

abbrev two_peers : List PeerEndpoint
two_peers =
    toy_peer (codes "A")
    ∷ record { peer_id = codes "B"; ip = codes "10.0.0.2"; port = pos 9002 }
    ∷ []

abbrev serving : Connection
serving = record {
  socket = record {
    incoming = arrives (codes "CHUNK f 0 3 26\na") ∷ arrives (codes "bc") ∷ [];
    takes = replicate 20 1;
    sent = [];
  };
  recv_timeout_set = true;
  send_timeout_set = true;
}

-- The second attempt is served.
abbrev network : ℕ → Attempt
network attempt = record {
  reserved = true;
  connection = if attempt == 1 then some serving else none;
  released = true;
}

abbrev turns : List Turn
turns = (0, network) ∷ (0, network) ∷ (0, network) ∷ (0, network) ∷ (0, network) ∷ []

abbrev no_metadata : MetadataStore
no_metadata file_id = none

some_peer : is_empty (filter_usable_peers toy_config two_peers) ≡ false
unfolding filter_usable_peers is_unusable seen_before
some_peer = refl

loads :
    (load_download_state toy_config toy_disk (codes "f") (replicate 1 not_started) (pos 1)).0 ≡ true
unfolding load_download_state get_download_state_path
loads = refl

finished :
    all_over
      (end_state toy_evp toy_config
        (codes "f")
        no_metadata
        0
        0
        two_peers
        (codes "o")
        turns
        toy_disk).tasks
    ≡ true
unfolding run_tasks start_tasks filter_usable_peers load_download_state local_chunk_already_exists
    get_chunk_path to_string to_string_ℕ is_safe_file_id chunk_exists is_unusable seen_before key_of
    filter_loop get_next_chunk new_scheduler claim mark_done mark_failed next_from start_download
    mark_present get_download_state_path insert_all insertions load_loop save_download_state
    request_chunk_from_any_peer request_chunk_from_peer accept_header exchange retry_loop read_int
    scan_digits scan_sign scan_signed skip_space stoll break_word get_line read_word open_in
    open_out put remove write blocks blocks_from bytes_to_hex compute_file_sha256 hex_digit
    update_all accept_chunk_id accept_chunk_size build_request_message finish_chunk finish_request
    parse_message trim_new_line recv send_all send_loop chunk_status_to_string
    string_to_chunk_status break_line check_hash header_loop read_chunk_header receive_body
    receive_chunk_data receive_loop write_initial
finished = refl

abbrev last_state : SharedState
last_state =
    end_state toy_evp toy_config (codes "f") no_metadata 0 0 two_peers (codes "o") turns toy_disk

download_file_from_multiple_peers-tests_and_merge_example :
    (download_file_from_multiple_peers toy_evp toy_config
        (codes "f")
        no_metadata
        0
        two_peers
        (pos 1)
        (codes "o")
        turns
        toy_disk
      ≡ some (
          tests_and_merge toy_evp toy_config
            (codes "f")
            no_metadata
            (pos 1)
            (codes "o")
            last_state.disk
            last_state.chunk_status))
    × (all_done last_state.scheduler ≡ true)
    × (find_missing_chunks last_state.chunk_status ≡ [])
    × Concludes toy_evp toy_config no_metadata
        (codes "f")
        (codes "o")
        last_state.disk
        last_state.scheduler
        last_state.chunk_status
        (tests_and_merge toy_evp toy_config
          (codes "f")
          no_metadata
          (pos 1)
          (codes "o")
          last_state.disk
          last_state.chunk_status)
download_file_from_multiple_peers-tests_and_merge_example =
    download_file_from_multiple_peers-tests_and_merge toy_evp toy_config (codes "f") no_metadata 0 0
      two_peers (codes "o") turns toy_disk some_peer loads finished

-- Two tasks for one chunk: the one that comes second finds none.
abbrev two_tasks : SharedState
two_tasks = record {
  scheduler = new_scheduler 1;
  chunk_status = not_started ∷ [];
  tasks = starting ∷ starting ∷ [];
  disk = toy_disk;
  calls = [];
}

run_tasks-run_example :
    view (run_tasks toy_evp toy_config (codes "f") two_peers two_tasks ((1, network) ∷ turns))
    ≡ run
        (view two_tasks)
        (schedule_of toy_evp toy_config (codes "f") two_peers two_tasks ((1, network) ∷ turns))
run_tasks-run_example =
    run_tasks-run toy_evp toy_config (codes "f") two_peers two_tasks ((1, network) ∷ turns)
