-- ===== src/Request.antt =====
-- src/peer/peer.cpp: a chunk is asked for from one peer, and from all usable peers in turn.
-- What the network and the tracker do in one attempt is data: whether the tracker took the
-- reservation, the connection if there is one, and whether it took the release.
pub mod Retry
pub mod Answer
pub mod EndToEnd
use ai_optimized_distributed.Base.{
  ℕ, zero, suc, ◌+◌, ◌%◌, Bool, true, false, not, ◌&&◌, Option, none, some, List, [], ◌∷◌, ◌++◌,
  Bytes, length, get_elem?, is_empty, if◌then◌else◌,
}
use ai_optimized_distributed.Base.Decimal.{ℤ, pos}
use ai_optimized_distributed.Protocol.{
  ParsedMessage, MessageType, chunk, parse_message, build_request_message,
}
use ai_optimized_distributed.Disk.{Disk}
use ai_optimized_distributed.Chunks.{get_chunk_path}
use ai_optimized_distributed.Hash.{Evp}
use ai_optimized_distributed.Socket.{Socket, Arrival, send_all}
use ai_optimized_distributed.Peer.{PeerConfig, PeerEndpoint, is_safe_file_id}
use ai_optimized_distributed.Transfer.{HeaderResult, Outcome, read_chunk_header, receive_chunk_data}

-- A connection that was made, and whether its two timeouts could be set.
pub record Connection : Type 0 where
  pub socket : Socket
  pub recv_timeout_set : Bool
  pub send_timeout_set : Bool

abbrev is_chunk : MessageType → Bool
is_chunk chunk = true
is_chunk _ = false

pub record Attempt : Type 0 where
  pub reserved : Bool
  pub connection : Option Connection
  pub released : Bool

-- The calls that the tracker and the peers see, in order, with their results.
pub data Call : Type 0 where
  reserve ask release : Bytes → Bool → Call

abbrev pub prefix_calls : List Call → Bool × Disk × List Call → Bool × Disk × List Call
prefix_calls cs (ok, d, later) = (ok, d, cs ++ later)

module _ (evp : Evp) where
  abbrev pub disk_of : Outcome → Bool × Disk
  disk_of (ok, (arrivals, d)) = (ok, d)

  -- The header line is parsed; only a valid CHUNK message is followed by data.
  unfoldable pub accept_header : ParsedMessage → List Arrival → Bytes → Bytes → Disk → Bool × Disk
  accept_header header arrivals output_path payload d =
      if header.valid && is_chunk header.type
      then disk_of (
          receive_chunk_data evp arrivals output_path header.chunk_size payload header.chunk_hash d)
      else (false, d)

  abbrev pub accept_response : HeaderResult → Bytes → Disk → Bool × Disk
  accept_response (none, arrivals) output_path d = (false, d)
  accept_response (some (raw_header, payload), arrivals) output_path d =
      accept_header (parse_message raw_header) arrivals output_path payload d

  -- Once the request is out, the answer is read.
  abbrev pub after_request : Bytes → Disk → Option ℕ × Socket → Bool × Disk
  after_request output_path d (none, sock) = (false, d)
  after_request output_path d (some n, sock) =
      accept_response (read_chunk_header sock.incoming) output_path d

  unfoldable pub exchange : PeerConfig → Disk → Socket → Bytes → ℤ → Bool × Disk
  unfolding accept_header
  exchange config d sock file_id chunk_id =
      after_request (get_chunk_path config.download_dir file_id chunk_id) d
        (send_all sock (build_request_message file_id chunk_id))

  unfoldable pub request_chunk_from_peer :
      PeerConfig → Disk → Option Connection → Bytes → ℤ → Bool × Disk
  unfolding exchange
  request_chunk_from_peer config d none file_id chunk_id = (false, d)
  request_chunk_from_peer config d (some c) file_id chunk_id =
      if c.recv_timeout_set && c.send_timeout_set && is_safe_file_id file_id
      then exchange config d c.socket file_id chunk_id
      else (false, d)

  -- One round of the retry loop: without a reservation it goes on to the next peer at once; with
  -- one it asks, releases whatever came of it, and stops at a success.
  abbrev pub after_ask :
      (Disk → Bool × Disk × List Call)
      → PeerEndpoint
      → Attempt
      → Bool × Disk
      → Bool × Disk × List Call
  after_ask go_on peer a (true, d) = (
    true,
    d,
    reserve peer.peer_id true ∷ ask peer.peer_id true ∷ release peer.peer_id a.released ∷ [],
  )
  after_ask go_on peer a (false, d) =
      prefix_calls
        (reserve peer.peer_id true ∷ ask peer.peer_id false ∷ release peer.peer_id a.released ∷ [])
        (go_on d)

  module _ (config : PeerConfig) (file_id : Bytes) (chunk_id : ℤ) where
    abbrev pub attempt_peer :
        (Disk → Bool × Disk × List Call)
        → Attempt
        → Disk
        → Option PeerEndpoint
        → Bool × Disk × List Call
    attempt_peer go_on a d none = go_on d
    attempt_peer go_on a d (some peer) =
        if a.reserved
        then after_ask go_on peer a (request_chunk_from_peer config d a.connection file_id chunk_id)
        else prefix_calls (reserve peer.peer_id false ∷ []) (go_on d)

    -- `for (attempt = 0; attempt < usablePeers.size(); attempt++)`: the first argument counts the
    -- rounds left. The index is always within the list.
    unfoldable pub retry_loop :
        ℕ → ℕ → List PeerEndpoint → ℕ → (ℕ → Attempt) → Disk → Bool × Disk × List Call
    retry_loop zero attempt peers start env d = (false, d, [])
    retry_loop (suc rounds) attempt peers start env d =
        attempt_peer (λ d'. retry_loop rounds (attempt + 1) peers start env d') (env attempt) d
          (get_elem? peers ((start + attempt) % length peers))

    unfoldable pub request_chunk_from_any_peer :
        List PeerEndpoint → ℕ → (ℕ → Attempt) → Disk → Bool × Disk × List Call
    unfolding retry_loop
    request_chunk_from_any_peer usable_peers start_peer_index env d =
        if is_empty usable_peers
        then (false, d, [])
        else retry_loop (length usable_peers) 0 usable_peers start_peer_index env d
