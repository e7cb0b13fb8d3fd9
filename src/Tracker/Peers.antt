-- ===== src/Tracker/Peers.antt =====
-- src/peer/peer.cpp, `requestPeersForFileService`: from the bytes of the service's answer to the
-- peers of a file, and what the calls that post make of an answer.
use ai_optimized_distributed.Base.{
  ℕ, ◌≡◌, ◌≢◌, refl, ap, ◌∙◌, Bool, true, false, Option, none, some, List, [], ◌∷◌, ◌++◌,
  append_assoc, Bytes, codes, length, arith, All, is_empty, map, if◌then◌else◌,
}
use ai_optimized_distributed.Base.Decimal.{ℤ}
use ai_optimized_distributed.Base.Search.{
  contains, find_after, strip, Lacks, lacks-Lacks, find_after-skip,
}
use ai_optimized_distributed.Peer.{PeerConfig, PeerEndpoint}
use ai_optimized_distributed.Socket.{Socket}
use ai_optimized_distributed.Tracker.SharedFiles.{Directories}
use ai_optimized_distributed.Tracker.{
  crlf, post_request, build_register_body, build_heartbeat_body, files_request, call_service, is_ok,
  or_empty, peers_of, extract_http_body, read_peers, register_peer_with_service,
  send_heartbeat_to_service, reserve_peer_load_remote, release_peer_load_remote,
  request_peers_for_file_service,
}
use ai_optimized_distributed.Tracker.Answer.{Answers, call_service-Answers}
use ai_optimized_distributed.Tracker.Listing.{
  IsUsable, read_peers-IsUsable, Listed, endpoint_of, IsPlain, print_more, length-print_more,
  read_peers-print,
}

-- The header lines of an answer and the blank line.
unfoldable pub print_headers : List Bytes → Bytes
print_headers [] = crlf
print_headers (line ∷ lines) = line ++ (crlf ++ print_headers lines)

abbrev pub IsLine : Bytes → Type 0
IsLine line = (is_empty line ≡ false) × Lacks 13 line

abbrev blank_line : Bytes
blank_line = codes "\r\n\r\n"

-- A line that is not empty does not make the blank line.
next_line :
    (c : ℕ) (s : Bytes)
    → c ≢ 13
    → find_after blank_line (crlf ++ (c ∷ s)) ≡ find_after blank_line (c ∷ s)
unfolding find_after strip
next_line c s h = ground arith

print_headers-append :
    (line : Bytes) (lines : List Bytes) (body : Bytes)
    → print_headers (line ∷ lines) ++ body ≡ line ++ (crlf ++ (print_headers lines ++ body))
unfolding print_headers
print_headers-append line lines body = append_assoc line (crlf ++ print_headers lines) body

headers_end :
    (line : Bytes) (lines : List Bytes) (body : Bytes)
    → Lacks 13 line
    → All IsLine lines
    → find_after blank_line (line ++ (crlf ++ (print_headers lines ++ body))) ≡ some body
unfolding print_headers
headers_end line [] body h p =
    find_after-skip 13 (codes "\n\r\n") line (blank_line ++ body) h
    ∙ unfold find_after strip in refl
headers_end line ([] ∷ lines) body h ((q, r), p) = cc
headers_end line ((c ∷ next) ∷ lines) body h ((q, (r, rs)), p) =
    ap (λ s. find_after blank_line (line ++ (crlf ++ s)))
      (print_headers-append (c ∷ next) lines body)
    ∙ find_after-skip 13 (codes "\n\r\n") line _ h
    ∙ next_line c _ r
    ∙ headers_end (c ∷ next) lines body (r, rs) p

-- An answer that is OK: its header lines, whatever they are, a blank line, and the body.
unfoldable pub ok_answer : List Bytes → Bytes → Bytes
unfolding print_headers
ok_answer lines body = codes "HTTP/1.1 200 OK" ++ (crlf ++ (print_headers lines ++ body))

ok_answer-is_ok :
    (lines : List Bytes) (body : Bytes) → contains (codes "200 OK") (ok_answer lines body) ≡ true
unfolding ok_answer contains find_after strip
ok_answer-is_ok lines body = refl

extract_http_body-ok_answer :
    (lines : List Bytes) (body : Bytes)
    → All IsLine lines
    → extract_http_body (ok_answer lines body) ≡ body
unfolding ok_answer extract_http_body
extract_http_body-ok_answer lines body p = ap or_empty (
    headers_end (codes "HTTP/1.1 200 OK") lines body (lacks-Lacks 13 (codes "HTTP/1.1 200 OK") refl)
      p)

peers_of-ok_answer :
    (lines : List Bytes) (body : Bytes)
    → All IsLine lines
    → peers_of (some (ok_answer lines body)) ≡ (true, read_peers (length body) body)
peers_of-ok_answer lines body p =
    rw (ok_answer-is_ok lines body, extract_http_body-ok_answer lines body p)

-- The answer of the service to `GET /files`.
abbrev pub listing : List Bytes → List Listed → Bytes
listing lines es = ok_answer lines (print_more true es)

-- Where the socket takes a byte or more at each call, for as many calls as the request has bytes,
-- and the service answers with a list of peers, the client gets true and these peers, all of
-- them, in order, however the network cuts the answer and whatever its header lines are, each
-- with something in it and no carriage return. The ids and addresses of the peers are not empty
-- and hold no quote and no closing brace, the ports are positive and an `int` holds them, and the
-- text of the other fields has no closing brace and does not begin with a digit.
pub request_peers-listing :
    (sock : Socket) (service_ip : Bytes) (service_port : ℤ) (file_id : Bytes)
    → (lines : List Bytes) (es : List Listed) → All IsLine lines
    → All IsPlain es
    → Answers sock (files_request service_ip service_port file_id) (listing lines es)
    → request_peers_for_file_service (some sock) service_ip service_port file_id
      ≡ (true, map endpoint_of es)
unfolding request_peers_for_file_service
request_peers-listing sock service_ip service_port file_id lines es p q a =
    ap peers_of (call_service-Answers sock _ _ a)
    ∙ peers_of-ok_answer lines (print_more true es) p
    ∙ ap (λ ps. (true, ps))
        (read_peers-print (length (print_more true es)) true es (length-print_more true es) q)

either-IsUsable :
    (b : Bool) (r q : Bool × List PeerEndpoint)
    → All IsUsable r.1
    → All IsUsable q.1
    → All IsUsable (if b then r else q).1
either-IsUsable true r q h k = h
either-IsUsable false r q h k = k

peers_of-IsUsable : (answer : Option Bytes) → All IsUsable (peers_of answer).1
peers_of-IsUsable none = tt
peers_of-IsUsable (some response) =
    either-IsUsable (contains (codes "200 OK") response) _ (false, []) (read_peers-IsUsable _ _) tt

-- Whatever arrives from the service, text that is no listing included, every peer that the client
-- takes from it has a nonempty id, a nonempty address and a positive port.
pub request_peers-IsUsable :
    (sock : Option Socket) (service_ip : Bytes) (service_port : ℤ) (file_id : Bytes)
    → All IsUsable (request_peers_for_file_service sock service_ip service_port file_id).1
unfolding request_peers_for_file_service
request_peers-IsUsable sock service_ip service_port file_id =
    peers_of-IsUsable (call_service sock (files_request service_ip service_port file_id))

-- Where the socket takes a byte or more at each call, for as many calls as each request has
-- bytes, and the service answers each request, cut in any way, and closes, registering, the
-- heartbeat and the two calls on a peer's load are true exactly if the answer has the text "200
-- OK" in it, wherever.
pub posting_calls-Answers :
    (sock : Socket) (config : PeerConfig) (peer_ip service_ip : Bytes) (service_port : ℤ)
    → (directories : Directories) (peer_id s : Bytes)
    → Answers sock
        (post_request
          (codes "/register")
          service_ip
          service_port
          (build_register_body directories config peer_ip))
        s
    → Answers sock
        (post_request
          (codes "/heartbeat")
          service_ip
          service_port
          (build_heartbeat_body config.peer_id))
        s
    → Answers sock
        (post_request
          (codes "/load/reserve")
          service_ip
          service_port
          (build_heartbeat_body peer_id))
        s
    → Answers sock
        (post_request
          (codes "/load/release")
          service_ip
          service_port
          (build_heartbeat_body peer_id))
        s
    → (register_peer_with_service (some sock) directories config peer_ip service_ip service_port
        ≡ contains (codes "200 OK") s)
      × (send_heartbeat_to_service (some sock) config service_ip service_port
          ≡ contains (codes "200 OK") s)
      × (reserve_peer_load_remote (some sock) service_ip service_port peer_id
          ≡ contains (codes "200 OK") s)
      × (release_peer_load_remote (some sock) service_ip service_port peer_id
          ≡ contains (codes "200 OK") s)
unfolding register_peer_with_service send_heartbeat_to_service reserve_peer_load_remote
    release_peer_load_remote
posting_calls-Answers sock config peer_ip service_ip service_port directories peer_id s a b c d = (
  ap is_ok (call_service-Answers sock _ s a),
  ap is_ok (call_service-Answers sock _ s b),
  ap is_ok (call_service-Answers sock _ s c),
  ap is_ok (call_service-Answers sock _ s d),
)
