-- ===== src/Examples/States.antt =====
-- Runs of the state file, the peer filter and the ends of downloads of src/peer/peer.cpp, and of a
-- request that a server takes.
use ai_optimized_distributed.Base.{
  ◌↔◌, ℕ, ◌≤◌, ◌≡◌, refl, true, false, Option, bytes_eq, if◌then◌else◌, none, some, Bytes, List, [],
  ◌∷◌, codes, arith, length, All, min,
}
use ai_optimized_distributed.Base.Decimal.{pos, to_string, to_string_ℕ}
use ai_optimized_distributed.Protocol.{build_request_message}
use ai_optimized_distributed.Disk.{Disk}
use ai_optimized_distributed.Metadata.{MetadataStore}
use ai_optimized_distributed.Scheduler.{ChunkScheduler}
use ai_optimized_distributed.Socket.{Socket, arrives}
use ai_optimized_distributed.Peer.{PeerEndpoint, is_safe_file_id}
use ai_optimized_distributed.Status.{ChunkDownloadStatus, not_started, in_progress, done, failed}
use ai_optimized_distributed.StateFile.{load_download_state, save_download_state}
use ai_optimized_distributed.StateFile.RoundTrip.{load_download_state-save_download_state}
use ai_optimized_distributed.UsablePeers.Address.{CanBeAsked}
use ai_optimized_distributed.UsablePeers.{key_of, is_unusable, filter_usable_peers}
use ai_optimized_distributed.UsablePeers.Distinct.{count_address, filter_usable_peers-count_address}
use ai_optimized_distributed.Request.{Connection}
use ai_optimized_distributed.Download.{download_file_from_peer}
use ai_optimized_distributed.Download.Verified.{IsVerified, download_file_from_peer-IsVerified}
use ai_optimized_distributed.Transfer.{serve_requested_chunk, handle_peer_request}
use ai_optimized_distributed.Transfer.Handle.{handle_peer_request-build_request_message}
use ai_optimized_distributed.Examples.{toy_evp, all_allowed, toy_disk, toy_config, toy_peer}

abbrev saved_statuses : List ChunkDownloadStatus
saved_statuses = done ∷ failed ∷ in_progress ∷ []

abbrev fresh_statuses : List ChunkDownloadStatus
fresh_statuses = not_started ∷ not_started ∷ not_started ∷ []

load_download_state-save_download_state_example :
    ((save_download_state toy_config toy_disk (codes "g") saved_statuses).0 ≡ true)
    × (load_download_state toy_config
          (save_download_state toy_config toy_disk (codes "g") saved_statuses).1
          (codes "g")
          fresh_statuses
          (pos 3)
        ≡ (true, saved_statuses))
load_download_state-save_download_state_example =
    load_download_state-save_download_state toy_config toy_disk (codes "g") saved_statuses
      fresh_statuses (refl, λ n. refl) refl (omega arith) (omega arith) refl

-- The peer itself, and one address twice.
abbrev some_peers : List PeerEndpoint
some_peers = toy_peer (codes "p1") ∷ toy_peer (codes "A") ∷ toy_peer (codes "B") ∷ []

filter_usable_peers-count_address_example :
    All (λ p. is_unusable toy_config p ≡ false) (filter_usable_peers toy_config some_peers)
    × (count_address toy_config (codes "10.0.0.1:9001") (filter_usable_peers toy_config some_peers)
        ≡ min 1 (count_address toy_config (codes "10.0.0.1:9001") some_peers))
    × All (CanBeAsked toy_config) (filter_usable_peers toy_config some_peers)
    × ((p : PeerEndpoint) → (is_unusable toy_config p ≡ false) ↔ CanBeAsked toy_config p)
    × ((p q : PeerEndpoint)
        → CanBeAsked toy_config p
        → CanBeAsked toy_config q
        → key_of p ≡ key_of q
        → (p.ip ≡ q.ip) × (p.port ≡ q.port))
filter_usable_peers-count_address_example =
    filter_usable_peers-count_address toy_config some_peers (codes "10.0.0.1:9001")

-- The metadata of the file `g`, with a hash.
abbrev store_of : Bytes → MetadataStore
store_of h k = some (record {
  file_id = codes "g";
  file_name = codes "a";
  file_size = 2;
  chunk_size = 2;
  total_chunks = pos 1;
  file_hash = h;
  chunks = [];
})

-- The peer answers with the one chunk of the file.
abbrev one_answer : ℕ → Option Connection
one_answer i = some (record {
  socket = record {
    incoming = arrives (codes "CHUNK g 0 2 cd\nh") ∷ arrives (codes "e") ∷ [];
    takes = 100 ∷ [];
    sent = [];
  };
  recv_timeout_set = true;
  send_timeout_set = true;
})

download_file_from_peer-IsVerified_example :
    IsVerified toy_evp toy_config (store_of (codes "cd")) (codes "g") (codes "m") (
      download_file_from_peer toy_evp toy_config
        (store_of (codes "cd"))
        (codes "g")
        one_answer
        toy_disk
        (pos 1)
        (codes "m"))
download_file_from_peer-IsVerified_example =
    download_file_from_peer-IsVerified toy_evp toy_config (store_of (codes "cd")) (codes "g")
      (codes "m") one_answer toy_disk (pos 1)

-- Both chunks of a file lie in the download directory.
abbrev downloaded : Disk
downloaded = record {
  files = λ p.
      if bytes_eq p (codes "down/g/chunk_0")
      then some (codes "he")
      else if bytes_eq p (codes "down/g/chunk_1")
      then some (codes "y")
      else none;
  permissions = all_allowed;
}

abbrev both_done : ChunkScheduler
both_done = record { total_chunks = 2; done = true ∷ true ∷ []; claimed = false ∷ false ∷ [] }

abbrev asked_socket : Socket
asked_socket = record {
  incoming = arrives (build_request_message (codes "f") (pos 3)) ∷ [];
  takes = 100 ∷ [];
  sent = [];
}

f_is_safe : is_safe_file_id (codes "f") ≡ true
unfolding is_safe_file_id
f_is_safe = refl

request_fits : length (build_request_message (codes "f") (pos 3)) ≤ 1023
unfolding build_request_message to_string to_string_ℕ
request_fits = omega arith

handle_peer_request-build_request_message_example :
    handle_peer_request toy_evp toy_config toy_disk asked_socket
    ≡ serve_requested_chunk toy_evp toy_config toy_disk
        (record asked_socket { incoming = arrives [] ∷ [] })
        (codes "f")
        (pos 3)
handle_peer_request-build_request_message_example =
    handle_peer_request-build_request_message toy_evp toy_config toy_disk asked_socket (codes "f") 3
      [] f_is_safe (omega arith) request_fits refl
