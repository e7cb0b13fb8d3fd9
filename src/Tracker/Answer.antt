-- ===== src/Tracker/Answer.antt =====
-- src/peer/peer.cpp: reading the whole answer of the service, and what the posting calls make of it.
use ai_optimized_distributed.Base.{
  ℕ, zero, suc, ◌≤◌, ◌<◌, ◌≡◌, refl, ap, sym, subst, ◌∙◌, false, Option, none, some, List, [], ◌∷◌,
  ◌++◌, append_assoc, append-nil, Bytes, length, arith, All,
}
use ai_optimized_distributed.Socket.{
  Arrival, arrives, fails, Received, got, closed, failed, recv, pending, Socket, send_all,
}
use ai_optimized_distributed.Socket.Receiving.{Delivers, Takes, recv-Takes}
use ai_optimized_distributed.Base.Decimal.{ℤ}
use ai_optimized_distributed.Peer.{PeerConfig}
use ai_optimized_distributed.Socket.Sending.{send_all-SendResult, send_all_total}
use ai_optimized_distributed.Tracker.SharedFiles.{Directories}
use ai_optimized_distributed.Tracker.{
  receive_round, register_peer_with_service, send_heartbeat_to_service, reserve_peer_load_remote,
  release_peer_load_remote, request_peers_for_file_service, peers_of, receive_loop, after_send,
  call_service, is_ok,
}

round-Takes :
    (go_on : List Arrival → Bytes → Option Bytes) (p : ℕ) (s response : Bytes)
    → (r : Received × List Arrival)
    → ((rest : List Arrival) (t so_far : Bytes)
        → pending rest < p
        → Delivers rest t
        → go_on rest so_far ≡ some (so_far ++ t))
    → Takes p s r
    → receive_round go_on response r ≡ some (response ++ s)
round-Takes go_on p s response (got b, rest) ih (t, e, d, l) =
    ih rest t (response ++ b) l d
    ∙ ap some (append_assoc response b t ∙ ap (λ u. response ++ u) (sym e))
round-Takes go_on p s response (closed, rest) ih e =
    ap some (sym (append-nil response) ∙ ap (λ u. response ++ u) (sym e))
round-Takes go_on p s response (failed, rest) ih e = absurd e

-- With fuel for all that is to come, the loop gives everything, however it is cut.
pub receive_loop-Delivers :
    (fuel : ℕ) (arrivals : List Arrival) (s response : Bytes)
    → pending arrivals < fuel
    → Delivers arrivals s
    → receive_loop fuel arrivals response ≡ some (response ++ s)
unfolding receive_loop
receive_loop-Delivers zero arrivals s response h d = absurd (omega (arith, h))
receive_loop-Delivers (suc fuel) arrivals s response h d =
    round-Takes (λ rest r. receive_loop fuel rest r) (pending arrivals) s response
      (recv 1024 arrivals)
      (λ rest t so_far l d'. receive_loop-Delivers fuel rest t so_far (omega (arith, h, l)) d')
      (recv-Takes 1023 arrivals s d)

-- The connection fails before the service closes it.
abbrev pub Breaks : List Arrival → Type 0
Breaks [] = ⊥
Breaks (fails ∷ rest) = Unit
Breaks (arrives b ∷ rest) = Breaks rest

-- What one call of `recv` does to such a connection.
abbrev StillBreaks : Received × List Arrival → Type 0
StillBreaks (got b, rest) = Breaks rest
StillBreaks (closed, rest) = ⊥
StillBreaks (failed, rest) = Unit

recv-StillBreaks :
    (n : ℕ) (arrivals : List Arrival) → Breaks arrivals → StillBreaks (recv n arrivals)
unfolding recv
recv-StillBreaks n [] d = d
recv-StillBreaks n (fails ∷ rest) d = tt
recv-StillBreaks n (arrives [] ∷ rest) d = recv-StillBreaks n rest d
recv-StillBreaks n (arrives (c ∷ b) ∷ rest) d = d

round-StillBreaks :
    (go_on : List Arrival → Bytes → Option Bytes) (response : Bytes) (r : Received × List Arrival)
    → ((rest : List Arrival) (so_far : Bytes) → Breaks rest → go_on rest so_far ≡ none)
    → StillBreaks r
    → receive_round go_on response r ≡ none
round-StillBreaks go_on response (got b, rest) ih d = ih rest (response ++ b) d
round-StillBreaks go_on response (closed, rest) ih d = absurd d
round-StillBreaks go_on response (failed, rest) ih d = refl

receive_loop-Breaks :
    (fuel : ℕ) (arrivals : List Arrival) (response : Bytes)
    → Breaks arrivals
    → receive_loop fuel arrivals response ≡ none
unfolding receive_loop
receive_loop-Breaks zero arrivals response d = refl
receive_loop-Breaks (suc fuel) arrivals response d =
    round-StillBreaks (λ rest r. receive_loop fuel rest r) response (recv 1024 arrivals)
      (receive_loop-Breaks fuel) (recv-StillBreaks 1024 arrivals d)

-- There is no connection, or it fails before the answer has ended.
abbrev pub Unreached : Option Socket → Type 0
Unreached none = Unit
Unreached (some sock) = Breaks sock.incoming

after_send-Breaks : (r : Option ℕ × Socket) → Breaks r.1.incoming → after_send r ≡ none
after_send-Breaks (none, sock) d = refl
after_send-Breaks (some n, sock) d =
    receive_loop-Breaks (suc (pending sock.incoming)) sock.incoming [] d

call_service-Unreached :
    (sock : Option Socket) (request_text : Bytes)
    → Unreached sock
    → call_service sock request_text ≡ none
unfolding call_service
call_service-Unreached none request_text d = refl
call_service-Unreached (some sock) request_text d =
    after_send-Breaks (send_all sock request_text)
      (subst Breaks (sym (send_all-SendResult sock request_text).1) d)

-- A call to the service fails where there is no connection to it, or where the connection fails
-- before the answer has ended, whatever arrived until then, an answer that is OK included: the four
-- calls that post give false, and the search for the peers of a file gives false and no peers.
pub service_calls-Unreached :
    (sock : Option Socket) (config : PeerConfig) (peer_ip service_ip : Bytes) (service_port : ℤ)
    → (directories : Directories) (peer_id file_id : Bytes) → Unreached sock
    → (register_peer_with_service sock directories config peer_ip service_ip service_port ≡ false)
      × (send_heartbeat_to_service sock config service_ip service_port ≡ false)
      × (reserve_peer_load_remote sock service_ip service_port peer_id ≡ false)
      × (release_peer_load_remote sock service_ip service_port peer_id ≡ false)
      × (request_peers_for_file_service sock service_ip service_port file_id ≡ (false, []))
unfolding register_peer_with_service send_heartbeat_to_service reserve_peer_load_remote
    release_peer_load_remote request_peers_for_file_service
service_calls-Unreached sock config peer_ip service_ip service_port directories peer_id file_id d =
    (
      ap is_ok (call_service-Unreached sock _ d),
      ap is_ok (call_service-Unreached sock _ d),
      ap is_ok (call_service-Unreached sock _ d),
      ap is_ok (call_service-Unreached sock _ d),
      ap peers_of (call_service-Unreached sock _ d),
    )

-- The socket takes a byte or more at each call, for as many calls as the request has bytes, and the
-- service answers `s`, cut in any way, and closes.
abbrev pub Answers : Socket → Bytes → Bytes → Type 0
Answers sock request_text s =
    All (λ k. 0 < k) sock.takes
    × (length request_text ≤ length sock.takes)
    × Delivers sock.incoming s

after_send-Delivers :
    (r : Option ℕ × Socket) (n : ℕ) (s : Bytes)
    → r.0 ≡ some n
    → Delivers r.1.incoming s
    → after_send r ≡ some s
after_send-Delivers (none, sock) n s h d = cc
after_send-Delivers (some m, sock) n s h d =
    receive_loop-Delivers (suc (pending sock.incoming)) sock.incoming s [] (omega arith) d

pub call_service-Answers :
    (sock : Socket) (request_text s : Bytes)
    → Answers sock request_text s
    → call_service (some sock) request_text ≡ some s
unfolding call_service
call_service-Answers sock request_text s (p, l, d) =
    after_send-Delivers (send_all sock request_text) (length request_text) s
      (send_all_total sock request_text p l).0
      (subst (λ a. Delivers a s) (sym (send_all-SendResult sock request_text).1) d)
