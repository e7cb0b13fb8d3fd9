-- ===== src/Transfer.antt =====
-- src/peer/peer.cpp: a chunk on its way from the peer that serves it to the peer that asked.
-- A connection is a `Socket`; sending a message is `send_all`, whose result the code ignores where
-- it reports an error to the other peer.
pub mod Header
pub mod Receive
pub mod Deliver
pub mod Serve
pub mod Handle
use ai_optimized_distributed.Base.{
  ℕ, zero, suc, ◌+◌, ◌-◌, Bool, true, false, not, Option, none, some, List, [], ◌∷◌, ◌++◌, Bytes,
  codes, bytes_eq, length, take, drop, is_empty, ltb, ◌==◌, if◌then◌else◌, min,
}
use ai_optimized_distributed.Base.Decimal.{ℤ, pos, negsuc}
use ai_optimized_distributed.Protocol.{
  ParsedMessage, MessageType, connect, request, chunk, complete, error, unknown, parse_message,
  build_request_message, build_chunk_message, build_error_message,
}
use ai_optimized_distributed.Disk.{Disk, open_in, open_out, write, remove, exists, file_size}
use ai_optimized_distributed.Disk.Blocks.{blocks}
use ai_optimized_distributed.Chunks.{k_transfer_buffer_size, get_chunk_path}
use ai_optimized_distributed.Hash.{Evp, compute_file_sha256}
use ai_optimized_distributed.Socket.{Socket, Arrival, Received, got, closed, failed, recv, send_all}
use ai_optimized_distributed.Peer.{PeerConfig, is_safe_file_id, find_servable_chunk_path}

abbrev pub prepend : ℕ → Option (Bytes × Bytes) → Option (Bytes × Bytes)
prepend c none = none
prepend c (some (line, rest)) = some (c ∷ line, rest)

-- `find('\n')` and the two `substr`: the line with its newline, and what follows.
unfoldable pub break_line : Bytes → Option (Bytes × Bytes)
break_line [] = none
break_line (c ∷ s) = if c == b'\n' then some (c ∷ [], s) else prepend c (break_line s)

abbrev pub max_header : ℕ
max_header = 8192

abbrev pub HeaderResult : Type 0
HeaderResult = Option (Bytes × Bytes) × List Arrival

-- A line ends the loop; without one, more than `max_header` bytes end it too.
abbrev pub stop_or_go :
    (List Arrival → Bytes → HeaderResult)
    → Bytes
    → List Arrival
    → Option (Bytes × Bytes)
    → HeaderResult
stop_or_go go_on accumulated rest (some (line, remainder)) = (some (line, remainder), rest)
stop_or_go go_on accumulated rest none = elim (ltb max_header (length accumulated)) [
  | true ↦ (none, rest)
  | false ↦ go_on rest accumulated
]

abbrev pub header_round :
    (List Arrival → Bytes → HeaderResult) → Bytes → Received × List Arrival → HeaderResult
header_round go_on accumulated (closed, rest) = (none, rest)
header_round go_on accumulated (failed, rest) = (none, rest)
header_round go_on accumulated (got b, rest) =
    stop_or_go go_on (accumulated ++ b) rest (break_line (accumulated ++ b))

-- The loop of `readChunkHeader`. Each round adds a byte or more and stops above `max_header`, so
-- the fuel of `read_chunk_header` is not used up.
unfoldable pub header_loop : ℕ → List Arrival → Bytes → HeaderResult
header_loop zero arrivals accumulated = (none, arrivals)
header_loop (suc fuel) arrivals accumulated =
    header_round (λ rest acc. header_loop fuel rest acc) accumulated
      (recv k_transfer_buffer_size arrivals)

unfoldable pub read_chunk_header : List Arrival → HeaderResult
unfolding header_loop
read_chunk_header arrivals = header_loop (max_header + 1) arrivals []

-- Success, what is still to arrive, and the disk.
abbrev pub Outcome : Type 0
Outcome = Bool × (List Arrival × Disk)

abbrev pub after_write :
    (ℕ → List Arrival → Disk → Outcome) → ℕ → List Arrival → Disk → Option Disk → Outcome
after_write go_on remaining rest d none = (false, (rest, d))
after_write go_on remaining rest d (some d') = go_on remaining rest d'

abbrev pub receive_round :
    (ℕ → List Arrival → Disk → Outcome) → ℕ → Bytes → Disk → Received × List Arrival → Outcome
receive_round go_on remaining output_path d (closed, rest) = (false, (rest, d))
receive_round go_on remaining output_path d (failed, rest) = (false, (rest, d))
receive_round go_on remaining output_path d (got b, rest) =
    after_write go_on (remaining - length b) rest d (write d output_path b)

-- The loop `while (remaining > 0)`; each round takes a byte or more, so the fuel `remaining` lasts.
unfoldable pub receive_loop : ℕ → Bytes → ℕ → List Arrival → Disk → Outcome
receive_loop fuel output_path zero arrivals d = (true, (arrivals, d))
receive_loop zero output_path (suc r) arrivals d = (false, (arrivals, d))
receive_loop (suc fuel) output_path (suc r) arrivals d =
    receive_round (λ m rest d'. receive_loop fuel output_path m rest d') (suc r) output_path d
      (recv (min k_transfer_buffer_size (suc r)) arrivals)

abbrev pub after_initial : ℕ → Option Disk → Option (ℕ × Disk)
after_initial remaining none = none
after_initial remaining (some d) = some (remaining, d)

-- What came with the header goes first: `none` is a failed write.
unfoldable pub write_initial : Disk → Bytes → ℕ → Bytes → Option (ℕ × Disk)
write_initial d output_path remaining initial_payload =
    let n = min remaining (length initial_payload) in
    if is_empty initial_payload
    then some (remaining, d)
    else after_initial (remaining - n) (write d output_path (take n initial_payload))

-- Every failure after the file is open closes it and removes it.
abbrev pub keep_or_remove : Bytes → Outcome → Outcome
keep_or_remove output_path (true, s) = (true, s)
keep_or_remove output_path (false, (arrivals, d)) = (false, (arrivals, remove d output_path))

-- What `sendAll` leaves to its caller: a result other than -1, and it goes on.
abbrev pub send_then : Option ℕ × Socket → (Socket → Bool × Socket) → Bool × Socket
send_then (none, sock) go_on = (false, sock)
send_then (some n, sock) go_on = go_on sock

-- The loop of `sendChunkFileInBuffers`.
unfoldable pub send_pieces : Socket → List Bytes → Bool × Socket
send_pieces sock [] = (true, sock)
send_pieces sock (b ∷ bs) = send_then (send_all sock b) (λ sock'. send_pieces sock' bs)

unfoldable pub send_chunk_file_in_buffers : Socket → Disk → Bytes → Bool × Socket
unfolding send_pieces
send_chunk_file_in_buffers sock d chunk_path = elim (open_in d chunk_path) [
  | none ↦ (false, sock)
  | some s ↦ send_pieces sock (blocks k_transfer_buffer_size s)
]

-- Sends an error message, whatever becomes of it, and returns false.
unfoldable pub refuse : Socket → Bytes → Bool × Socket
refuse sock text = (false, (send_all sock (build_error_message text)).1)

-- `string rawMessage(buffer)` ends at the first zero byte.
unfoldable pub c_string : Bytes → Bytes
c_string [] = []
c_string (c ∷ s) = if c == 0 then [] else c ∷ c_string s

module _ (evp : Evp) where
  abbrev pub hash_matches : Bytes → Option Bytes → Bool
  hash_matches expected none = false
  hash_matches expected (some actual_hash) = bytes_eq actual_hash expected

  unfoldable pub check_hash : Disk → Bytes → Bytes → Bool
  check_hash d output_path expected =
      if is_empty expected
      then true
      else hash_matches expected (compute_file_sha256 evp d output_path)

  abbrev pub then_check : Bytes → Bytes → Outcome → Outcome
  then_check output_path expected (false, s) = (false, s)
  then_check output_path expected (true, (arrivals, d)) =
      (check_hash d output_path expected, (arrivals, d))

  unfoldable pub receive_body : List Arrival → Bytes → ℕ → Bytes → Bytes → Disk → Outcome
  unfolding check_hash receive_loop write_initial
  receive_body arrivals output_path chunk_size initial_payload expected d =
      elim (write_initial d output_path chunk_size initial_payload) [
        | none ↦ (false, (arrivals, d))
        | some (remaining, d') ↦
            then_check output_path expected
              (receive_loop remaining output_path remaining arrivals d')
      ]

  unfoldable pub receive_chunk_data : List Arrival → Bytes → ℕ → Bytes → Bytes → Disk → Outcome
  unfolding receive_body
  receive_chunk_data arrivals output_path chunk_size initial_payload expected d =
      elim (open_out d output_path) [
        | none ↦ (false, (arrivals, d))
        | some d' ↦
            keep_or_remove output_path
              (receive_body arrivals output_path chunk_size initial_payload expected d')
      ]

  unfoldable pub serve_requested_chunk : PeerConfig → Disk → Socket → Bytes → ℤ → Bool × Socket
  unfolding send_chunk_file_in_buffers refuse
  serve_requested_chunk config d sock file_id chunk_id =
      let chunk_path = find_servable_chunk_path config d file_id chunk_id in
      if not (is_safe_file_id file_id)
      then refuse sock (codes "invalid_file_id")
      else if is_empty chunk_path
      then refuse sock (codes "chunk_not_found")
      else (elim (compute_file_sha256 evp d chunk_path) [
        | none ↦ refuse sock (codes "chunk_hash_failed")
        | some chunk_hash ↦
            send_then
              (send_all sock
                (build_chunk_message file_id chunk_id (file_size d chunk_path) chunk_hash))
              (λ sock'. send_chunk_file_in_buffers sock' d chunk_path)
      ])

  abbrev is_request : MessageType → Bool
  is_request request = true
  is_request _ = false

  unfoldable pub answer : PeerConfig → Disk → Socket → ParsedMessage → Bool × Socket
  unfolding refuse serve_requested_chunk
  answer config d sock msg =
      if not msg.valid
      then refuse sock (codes "invalid_request")
      else if not (is_safe_file_id msg.file_id)
      then refuse sock (codes "invalid_file_id")
      else if is_request msg.type
      then serve_requested_chunk config d sock msg.file_id msg.chunk_id
      else refuse sock (codes "unsupported_command")

  abbrev pub respond : PeerConfig → Disk → Socket → Received × List Arrival → Bool × Socket
  respond config d sock (closed, rest) = (false, record sock { incoming = rest })
  respond config d sock (failed, rest) = (false, record sock { incoming = rest })
  respond config d sock (got b, rest) =
      answer config d (record sock { incoming = rest }) (parse_message (c_string b))

  -- One `recv` of at most 1023 bytes is taken for the whole request.
  unfoldable pub handle_peer_request : PeerConfig → Disk → Socket → Bool × Socket
  unfolding answer c_string
  handle_peer_request config d sock = respond config d sock (recv 1023 sock.incoming)
