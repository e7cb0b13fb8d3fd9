-- ===== src/Tracker.antt =====
-- src/peer/peer.cpp: the client of the tracker's HTTP service. Connecting is an input: a socket, or
-- none. The bytes that the service answers are what arrives on that socket.
pub mod Answer
pub mod Listing
pub mod Fields
pub mod Peers
pub mod SharedFiles
use ai_optimized_distributed.Base.{
  ℕ, zero, suc, ◌+◌, Bool, true, false, ◌&&◌, not, Option, none, some, List, [], ◌∷◌, ◌++◌, Bytes,
  codes, length, is_empty, if◌then◌else◌,
}
use ai_optimized_distributed.Base.Decimal.{ℤ, pos, negsuc, is_digit, to_string, to_string_ℕ, stoi}
use ai_optimized_distributed.Base.Search.{find_after, contains, break_at}
use ai_optimized_distributed.Socket.{
  Arrival, arrives, fails, Received, got, closed, failed, recv, pending, Socket, send_all,
}
use ai_optimized_distributed.Peer.{PeerConfig, PeerEndpoint}
use ai_optimized_distributed.Tracker.SharedFiles.{Directories, collect_shared_files}

abbrev pub crlf : Bytes
crlf = codes "\r\n"

-- `Host:` with the address of the service.
host_line : Bytes → ℤ → Bytes
host_line service_ip service_port =
    codes "Host: " ++ (service_ip ++ (b':' ∷ (to_string service_port ++ crlf)))

-- The request text of the four calls that post a body, which differ in their path only.
unfoldable pub post_request : Bytes → Bytes → ℤ → Bytes → Bytes
unfolding host_line
post_request path service_ip service_port body =
    codes "POST "
    ++ (path
        ++ (codes " HTTP/1.1\r\n"
            ++ (host_line service_ip service_port
                ++ (codes "Content-Type: application/json\r\nContent-Length: "
                    ++ (to_string_ℕ (length body)
                        ++ (codes "\r\nConnection: close\r\n\r\n" ++ body))))))

unfoldable pub files_request : Bytes → ℤ → Bytes → Bytes
unfolding host_line
files_request service_ip service_port file_id =
    codes "GET /files?fileId="
    ++ (file_id
        ++ (codes " HTTP/1.1\r\n"
            ++ (host_line service_ip service_port ++ codes "Connection: close\r\n\r\n")))

abbrev pub receive_round :
    (List Arrival → Bytes → Option Bytes) → Bytes → Received × List Arrival → Option Bytes
receive_round go_on response (closed, rest) = some response
receive_round go_on response (failed, rest) = none
receive_round go_on response (got b, rest) = go_on rest (response ++ b)

-- The loop `while (true)` around `recv`; `none` is a failure. Each round takes a byte or more, so a
-- fuel above what is pending lasts.
unfoldable pub receive_loop : ℕ → List Arrival → Bytes → Option Bytes
receive_loop zero arrivals response = none
receive_loop (suc fuel) arrivals response =
    receive_round (λ rest r. receive_loop fuel rest r) response (recv 1024 arrivals)

-- The request is sent and the whole answer read, until the service closes the connection.
abbrev pub after_send : Option ℕ × Socket → Option Bytes
after_send (none, sock) = none
after_send (some n, sock) = receive_loop (suc (pending sock.incoming)) sock.incoming []

unfoldable pub call_service : Option Socket → Bytes → Option Bytes
unfolding receive_loop
call_service none request_text = none
call_service (some sock) request_text = after_send (send_all sock request_text)

abbrev pub is_ok : Option Bytes → Bool
is_ok none = false
is_ok (some response) = contains (codes "200 OK") response

unfoldable pub build_heartbeat_body : Bytes → Bytes
build_heartbeat_body peer_id = codes "{\"peerId\":\"" ++ (peer_id ++ codes "\"}")

-- `files` with a comma before each but the first.
quoted_names : Bool → List Bytes → Bytes
quoted_names first [] = []
quoted_names first (name ∷ names) =
    (if first then [] else codes ",") ++ (b'"' ∷ (name ++ (b'"' ∷ quoted_names false names)))

unfoldable pub build_register_body : Directories → PeerConfig → Bytes → Bytes
unfolding quoted_names
build_register_body directories config peer_ip =
    codes "{\"peerId\":\""
    ++ (config.peer_id
        ++ (codes "\",\"ip\":\""
            ++ (peer_ip
                ++ (codes "\",\"port\":"
                    ++ (to_string config.port
                        ++ (codes ",\"files\":["
                            ++ (quoted_names true (collect_shared_files directories config)
                                ++ codes "]}")))))))

unfoldable pub register_peer_with_service :
    Option Socket → Directories → PeerConfig → Bytes → Bytes → ℤ → Bool
unfolding call_service
register_peer_with_service sock directories config peer_ip service_ip service_port = is_ok (
    call_service sock (
      post_request (codes "/register") service_ip service_port
        (build_register_body directories config peer_ip)))

unfoldable pub send_heartbeat_to_service : Option Socket → PeerConfig → Bytes → ℤ → Bool
unfolding call_service
send_heartbeat_to_service sock config service_ip service_port = is_ok (
    call_service sock (
      post_request (codes "/heartbeat") service_ip service_port
        (build_heartbeat_body config.peer_id)))

unfoldable pub reserve_peer_load_remote : Option Socket → Bytes → ℤ → Bytes → Bool
unfolding call_service
reserve_peer_load_remote sock service_ip service_port peer_id = is_ok (
    call_service sock
      (post_request (codes "/load/reserve") service_ip service_port (build_heartbeat_body peer_id)))

unfoldable pub release_peer_load_remote : Option Socket → Bytes → ℤ → Bytes → Bool
unfolding call_service
release_peer_load_remote sock service_ip service_port peer_id = is_ok (
    call_service sock
      (post_request (codes "/load/release") service_ip service_port (build_heartbeat_body peer_id)))

abbrev pub or_empty : Option Bytes → Bytes
or_empty none = []
or_empty (some s) = s

-- What follows the blank line, or nothing.
unfoldable pub extract_http_body : Bytes → Bytes
extract_http_body response = or_empty (find_after (codes "\r\n\r\n") response)

abbrev pub up_to_quote : Option (Bytes × Bytes) → Bytes
up_to_quote none = []
up_to_quote (some (value, rest)) = value

abbrev pub quoted_value : Option Bytes → Bytes
quoted_value none = []
quoted_value (some s) = up_to_quote (break_at b'"' s)

unfoldable pub extract_json_string_field : Bytes → Bytes → Bytes
extract_json_string_field object_text key =
    quoted_value (find_after (b'"' ∷ (key ++ codes "\":\"")) object_text)

-- The digits at the front.
unfoldable pub leading_digits : Bytes → Bytes
leading_digits [] = []
leading_digits (c ∷ s) = let more = leading_digits s in if is_digit c then c ∷ more else []

abbrev pub digits_value : Option Bytes → Option ℤ
digits_value none = none
digits_value (some s) = if is_empty (leading_digits s) then none else stoi (leading_digits s)

-- `none` is false: no key, no digit, or a number that `stoi` does not take.
unfoldable pub extract_json_int_field : Bytes → Bytes → Option ℤ
unfolding leading_digits
extract_json_int_field object_text key =
    digits_value (find_after (b'"' ∷ (key ++ codes "\":")) object_text)

-- A peer is kept if it has an id, an address and a positive port.
abbrev pub keep_peer : Bytes → Bytes → Option ℤ → List PeerEndpoint → List PeerEndpoint
keep_peer peer_id ip none later = later
keep_peer peer_id ip (some (negsuc n)) later = later
keep_peer peer_id ip (some (pos zero)) later = later
keep_peer peer_id ip (some (pos (suc n))) later =
    if not (is_empty peer_id) && not (is_empty ip)
    then record { peer_id = peer_id; ip = ip; port = pos (suc n) } ∷ later
    else later

unfoldable pub read_object : Bytes → List PeerEndpoint → List PeerEndpoint
read_object object_text later =
    keep_peer (extract_json_string_field object_text (codes "peerId"))
      (extract_json_string_field object_text (codes "ip"))
      (extract_json_int_field object_text (codes "port")) later

-- A round of the loop, from the end of an object on, and from its start on.
abbrev pub end_object : (Bytes → List PeerEndpoint) → Option (Bytes × Bytes) → List PeerEndpoint
end_object go_on none = []
end_object go_on (some (fields, rest)) = read_object (b'{' ∷ (fields ++ b'}' ∷ [])) (go_on rest)

abbrev pub start_object : (Bytes → List PeerEndpoint) → Option (Bytes × Bytes) → List PeerEndpoint
start_object go_on none = []
start_object go_on (some (before, s)) = end_object go_on (break_at b'}' s)

-- The loop over the objects of the body. Each round passes over a character or more, so the length of
-- the body is fuel enough.
unfoldable pub read_peers : ℕ → Bytes → List PeerEndpoint
read_peers zero body = []
read_peers (suc fuel) body = start_object (read_peers fuel) (break_at b'{' body)

-- The result and the peers; without an answer that is OK there are none.
abbrev pub peers_of : Option Bytes → Bool × List PeerEndpoint
peers_of none = (false, [])
peers_of (some response) =
    if contains (codes "200 OK") response
    then (true, read_peers (length (extract_http_body response)) (extract_http_body response))
    else (false, [])

unfoldable pub request_peers_for_file_service :
    Option Socket → Bytes → ℤ → Bytes → Bool × List PeerEndpoint
unfolding call_service
request_peers_for_file_service sock service_ip service_port file_id =
    peers_of (call_service sock (files_request service_ip service_port file_id))
