-- ===== src/Examples/Services.antt =====
-- Calls of the tracker's service as src/peer/peer.cpp makes them.
use ai_optimized_distributed.Base.{
  bytes_eq, if◌then◌else◌, ◌||◌, none, ◌≤◌, ◌≡◌, refl, true, false, Option, some, List, [], ◌∷◌,
  Bytes, codes, arith, length, All, replicate, map, take, drop, take-append-drop, append-nil, sym,
}
use ai_optimized_distributed.Base.Decimal.{pos, to_string, to_string_ℕ}
use ai_optimized_distributed.Base.Search.{find_after, strip, contains, lacks-Lacks}
use ai_optimized_distributed.Socket.{Socket, arrives, fails}
use ai_optimized_distributed.Socket.Receiving.{Delivers}
use ai_optimized_distributed.Tracker.SharedFiles.{Directories, collect_shared_files}
use ai_optimized_distributed.Tracker.SharedFiles.Sorted.{
  Increasing, is_among, lies_in, collect_shared_files-Increasing,
}
use ai_optimized_distributed.Tracker.{
  post_request, files_request, build_register_body, build_heartbeat_body,
  register_peer_with_service, send_heartbeat_to_service, reserve_peer_load_remote,
  release_peer_load_remote, request_peers_for_file_service,
}
use ai_optimized_distributed.Tracker.Answer.{service_calls-Unreached}
use ai_optimized_distributed.Tracker.Listing.{Listed, endpoint_of, IsPlain, IsUsable}
use ai_optimized_distributed.Tracker.Peers.{
  listing, IsLine, request_peers-listing, request_peers-IsUsable, posting_calls-Answers,
}
use ai_optimized_distributed.Examples.{All-positive, toy_config}

abbrev ip : Bytes
ip = codes "127.0.0.1"

-- The folders of the peer: two shared files, of which one lies in both, and a file between them.
abbrev folders : Directories
folders folder =
    if bytes_eq folder (codes "up")
    then some ((codes "g", true) ∷ (codes "note", false) ∷ (codes "f", true) ∷ [])
    else if bytes_eq folder (codes "down")
    then some ((codes "f", true) ∷ [])
    else none

collect_shared_files-Increasing_example :
    Increasing (collect_shared_files folders toy_config)
    × ((n : Bytes)
        → is_among n (collect_shared_files folders toy_config)
          ≡ lies_in n folders toy_config.download_dir || lies_in n folders toy_config.chunk_dir)
collect_shared_files-Increasing_example = collect_shared_files-Increasing folders toy_config

-- An answer that is OK as far as it goes, and then a broken connection.
abbrev broken : Option Socket
broken = some (record {
  incoming = arrives (codes "HTTP/1.1 200 OK\r\n") ∷ fails ∷ [];
  takes = replicate 400 1;
  sent = [];
})

service_calls-Unreached_example :
    (register_peer_with_service broken folders toy_config ip ip (pos 8080) ≡ false)
    × (send_heartbeat_to_service broken toy_config ip (pos 8080) ≡ false)
    × (reserve_peer_load_remote broken ip (pos 8080) (codes "p2") ≡ false)
    × (release_peer_load_remote broken ip (pos 8080) (codes "p2") ≡ false)
    × (request_peers_for_file_service broken ip (pos 8080) (codes "f") ≡ (false, []))
service_calls-Unreached_example =
    service_calls-Unreached broken toy_config ip ip (pos 8080) folders (codes "p2") (codes "f") tt

abbrev two_peers : List Listed
two_peers =
    record { peer_id = codes "p1"; ip = codes "10.0.0.1"; port = 9001; others = [] }
    ∷ record {
      peer_id = codes "p2";
      ip = codes "10.0.0.2";
      port = 9002;
      others = codes ",\"files\":[\"f\"],\"online\":true";
    }
    ∷ []

two_peers-IsPlain : All IsPlain two_peers
two_peers-IsPlain = (
  (
    refl,
    refl,
    omega arith,
    omega arith,
    (lacks-Lacks b'"' (codes "p1") refl, lacks-Lacks b'"' (codes "10.0.0.1") refl),
    (lacks-Lacks b'}' (codes "p1") refl, lacks-Lacks b'}' (codes "10.0.0.1") refl, tt),
    refl,
  ),
  (
    (
      refl,
      refl,
      omega arith,
      omega arith,
      (lacks-Lacks b'"' (codes "p2") refl, lacks-Lacks b'"' (codes "10.0.0.2") refl),
      (
        lacks-Lacks b'}' (codes "p2") refl,
        lacks-Lacks b'}' (codes "10.0.0.2") refl,
        lacks-Lacks b'}' (codes ",\"files\":[\"f\"],\"online\":true") refl,
      ),
      refl,
    ),
    tt,
  ),
)

abbrev header_lines : List Bytes
header_lines = codes "Content-Type: application/json" ∷ codes "Connection: close" ∷ []

header_lines-IsLine : All IsLine header_lines
header_lines-IsLine = (
  (refl, lacks-Lacks 13 (codes "Content-Type: application/json") refl),
  ((refl, lacks-Lacks 13 (codes "Connection: close") refl), tt),
)

-- An answer in two pieces, to a client that sends byte by byte.
abbrev service : Bytes → Socket
service s = record {
  incoming = arrives (take 11 s) ∷ arrives (drop 11 s) ∷ [];
  takes = replicate 250 1;
  sent = [];
}

in_two : (s : Bytes) → Delivers (service s).incoming s
in_two s = (drop 11 s, sym (take-append-drop 11 s), ([], sym (append-nil (drop 11 s)), refl))

short_request : length (files_request ip (pos 8080) (codes "f")) ≤ 250
unfolding files_request to_string to_string_ℕ
short_request = omega arith

abbrev service_listing : Socket
service_listing = service (listing header_lines two_peers)

request_peers-listing_example :
    request_peers_for_file_service (some service_listing) ip (pos 8080) (codes "f")
    ≡ (true, map endpoint_of two_peers)
request_peers-listing_example =
    request_peers-listing service_listing ip (pos 8080) (codes "f") header_lines two_peers
      header_lines-IsLine two_peers-IsPlain
      (All-positive 0 250, short_request, in_two (listing header_lines two_peers))

-- An answer with an object that has no port.
request_peers-IsUsable_example :
    All IsUsable
      (request_peers_for_file_service
        (some (service (codes "HTTP/1.1 200 OK\r\n\r\n[{\"peerId\":\"a\",\"ip\":\"b\"}]")))
        ip
        (pos 8080)
        (codes "f")).1
request_peers-IsUsable_example =
    request_peers-IsUsable
      (some (service (codes "HTTP/1.1 200 OK\r\n\r\n[{\"peerId\":\"a\",\"ip\":\"b\"}]"))) ip
      (pos 8080) (codes "f")

-- A failure whose text has the words in it.
abbrev refusal : Bytes
refusal = codes "HTTP/1.1 500 Error\r\n\r\nwanted 200 OK"

short_register :
    length
      (post_request (codes "/register") ip (pos 8080) (build_register_body folders toy_config ip))
    ≤ 250
unfolding post_request build_register_body collect_shared_files to_string to_string_ℕ
short_register = omega arith

short_heartbeat :
    length (post_request (codes "/heartbeat") ip (pos 8080) (build_heartbeat_body (codes "p1")))
    ≤ 250
unfolding post_request build_heartbeat_body to_string to_string_ℕ
short_heartbeat = omega arith

short_reserve :
    length (post_request (codes "/load/reserve") ip (pos 8080) (build_heartbeat_body (codes "p2")))
    ≤ 250
unfolding post_request build_heartbeat_body to_string to_string_ℕ
short_reserve = omega arith

short_release :
    length (post_request (codes "/load/release") ip (pos 8080) (build_heartbeat_body (codes "p2")))
    ≤ 250
unfolding post_request build_heartbeat_body to_string to_string_ℕ
short_release = omega arith

posting_calls-Answers_example :
    (register_peer_with_service (some (service refusal)) folders toy_config ip ip (pos 8080)
      ≡ contains (codes "200 OK") refusal)
    × (send_heartbeat_to_service (some (service refusal)) toy_config ip (pos 8080)
        ≡ contains (codes "200 OK") refusal)
    × (reserve_peer_load_remote (some (service refusal)) ip (pos 8080) (codes "p2")
        ≡ contains (codes "200 OK") refusal)
    × (release_peer_load_remote (some (service refusal)) ip (pos 8080) (codes "p2")
        ≡ contains (codes "200 OK") refusal)
posting_calls-Answers_example =
    posting_calls-Answers (service refusal) toy_config ip ip (pos 8080) folders (codes "p2") refusal
      (All-positive 0 250, short_register, in_two refusal)
      (All-positive 0 250, short_heartbeat, in_two refusal)
      (All-positive 0 250, short_reserve, in_two refusal)
      (All-positive 0 250, short_release, in_two refusal)

taken_for_ok : contains (codes "200 OK") refusal ≡ true
unfolding contains find_after strip
taken_for_ok = refl
