-- ===== src/Examples/Transfers.antt =====
-- Runs of src/network/socketUtils.cpp and of the transfers and retries of src/peer/peer.cpp.
use ai_optimized_distributed.Base.{
  ℕ, ◌≡◌, refl, true, none, some, List, [], ◌∷◌, codes, arith, not, ◌==◌,
}
use ai_optimized_distributed.Base.Decimal.{pos}
use ai_optimized_distributed.Socket.{Socket, Arrival, arrives, fails, send_all}
use ai_optimized_distributed.Socket.Sending.{SendResult, send_all-SendResult, send_all_total}
use ai_optimized_distributed.Socket.Receiving.{Delivers}
use ai_optimized_distributed.Peer.{PeerEndpoint}
use ai_optimized_distributed.Transfer.{read_chunk_header, receive_chunk_data, serve_requested_chunk}
use ai_optimized_distributed.Transfer.Header.{NoNewline, Reads, read_chunk_header-Reads}
use ai_optimized_distributed.Transfer.Receive.{IsIntact, receive_chunk_data-IsIntact}
use ai_optimized_distributed.Transfer.Deliver.{Gets, receive_chunk_data-Gets}
use ai_optimized_distributed.Transfer.Serve.{Serves, serve_requested_chunk-Serves}
use ai_optimized_distributed.Request.{Attempt, request_chunk_from_any_peer}
use ai_optimized_distributed.Request.Retry.{Follows, request_chunk_from_any_peer-Follows}
use ai_optimized_distributed.Examples.{
  toy_evp, toy_laws, hello_hash, toy_disk, toy_config, toy_peer,
}

-- A connection that takes two bytes and then one at a time.
abbrev slow_socket : Socket
slow_socket = record { incoming = []; takes = 2 ∷ 1 ∷ 1 ∷ 1 ∷ []; sent = codes "x" }

send_all-SendResult_example :
    SendResult slow_socket (codes "abc") (send_all slow_socket (codes "abc"))
send_all-SendResult_example = send_all-SendResult slow_socket (codes "abc")

send_all_total_example :
    ((send_all slow_socket (codes "abc")).0 ≡ some 3)
    × ((send_all slow_socket (codes "abc")).1.sent ≡ codes "xabc")
send_all_total_example =
    send_all_total slow_socket (codes "abc")
      (omega arith, (omega arith, (omega arith, (omega arith, tt)))) (omega arith)

-- A header line in two pieces, the second with the first byte of the data.
abbrev header_arrivals : List Arrival
header_arrivals = arrives (codes "CHU") ∷ arrives (codes "NK\nd") ∷ arrives (codes "ata") ∷ []

header_arrivals-Delivers : Delivers header_arrivals (codes "CHUNK\ndata")
header_arrivals-Delivers = (codes "NK\ndata", refl, (codes "ata", refl, ([], refl, refl)))

header-NoNewline : NoNewline (codes "CHUNK")
header-NoNewline = (omega arith, (omega arith, (omega arith, (omega arith, (omega arith, tt)))))

read_chunk_header-Reads_example :
    Reads (codes "CHUNK") (codes "data") (read_chunk_header header_arrivals)
read_chunk_header-Reads_example =
    read_chunk_header-Reads (codes "CHUNK") (codes "data") (omega arith) header-NoNewline
      header_arrivals header_arrivals-Delivers

receive_chunk_data-IsIntact_example : IsIntact toy_evp (codes "c") 5 (codes "14") (
    receive_chunk_data toy_evp
      (arrives (codes "lo") ∷ fails ∷ [])
      (codes "c")
      5
      (codes "he")
      (codes "14")
      toy_disk)
receive_chunk_data-IsIntact_example =
    receive_chunk_data-IsIntact toy_evp (arrives (codes "lo") ∷ fails ∷ []) (codes "c") 5
      (codes "he") (codes "14") toy_disk refl

receive_chunk_data-Gets_example : Gets (codes "c") toy_disk [] (codes "hello") [] (
    receive_chunk_data toy_evp
      (arrives (codes "l") ∷ arrives (codes "lo") ∷ [])
      (codes "c")
      5
      (codes "he")
      (codes "14")
      toy_disk)
receive_chunk_data-Gets_example =
    receive_chunk_data-Gets toy_evp toy_laws (codes "he") (codes "llo") (codes "14") (codes "c")
      toy_disk (arrives (codes "l") ∷ arrives (codes "lo") ∷ []) (refl, λ n. refl) refl hello_hash
      (codes "lo", refl, ([], refl, refl))

-- A connection that takes the header and the chunk.
abbrev fast_socket : Socket
fast_socket = record { incoming = []; takes = 100 ∷ 100 ∷ []; sent = codes "x" }

serve_requested_chunk-Serves_example :
    Serves toy_evp toy_config toy_disk fast_socket
      (codes "f")
      (pos 3)
      (serve_requested_chunk toy_evp toy_config toy_disk fast_socket (codes "f") (pos 3))
serve_requested_chunk-Serves_example =
    serve_requested_chunk-Serves toy_evp toy_config toy_disk fast_socket (codes "f") (pos 3)

abbrev three_peers : List PeerEndpoint
three_peers = toy_peer (codes "A") ∷ toy_peer (codes "B") ∷ toy_peer (codes "C") ∷ []

-- The second peer that is tried is not reserved, and nobody can be reached.
abbrev unreachable : ℕ → Attempt
unreachable n = record { reserved = not (n == 1); connection = none; released = true }

request_chunk_from_any_peer-Follows_example : Follows (codes "B" ∷ codes "C" ∷ codes "A" ∷ []) (
    request_chunk_from_any_peer toy_evp toy_config
      (codes "f")
      (pos 3)
      three_peers
      1
      unreachable
      toy_disk)
request_chunk_from_any_peer-Follows_example =
    request_chunk_from_any_peer-Follows toy_evp toy_config (codes "f") (pos 3) three_peers 1
      unreachable toy_disk (omega arith)
