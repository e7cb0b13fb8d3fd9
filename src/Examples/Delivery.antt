-- ===== src/Examples/Delivery.antt =====
-- A chunk on its way from one peer to another, as src/peer/peer.cpp serves and requests it.
use ai_optimized_distributed.Base.{
  ◌≤◌, ◌<◌, ◌≡◌, refl, true, some, [], ◌∷◌, codes, arith, length, All,
}
use ai_optimized_distributed.Base.Decimal.{pos, to_string, to_string_ℕ}
use ai_optimized_distributed.Protocol.{build_chunk_message, build_request_message}
use ai_optimized_distributed.Disk.{open_in}
use ai_optimized_distributed.Disk.Blocks.{blocks}
use ai_optimized_distributed.Chunks.{get_chunk_path}
use ai_optimized_distributed.Hash.{
  hex_digit, bytes_to_hex, compute_file_sha256, compute_string_sha256,
}
use ai_optimized_distributed.Socket.{Socket, arrives, send_all}
use ai_optimized_distributed.Socket.Receiving.{Delivers}
use ai_optimized_distributed.Peer.{find_servable_chunk_path, is_safe_file_id}
use ai_optimized_distributed.Transfer.{max_header, serve_requested_chunk}
use ai_optimized_distributed.Request.{Connection, request_chunk_from_peer}
use ai_optimized_distributed.Request.Answer.{Stores}
use ai_optimized_distributed.Request.EndToEnd.{request_chunk_from_peer-serve_requested_chunk}
use ai_optimized_distributed.Examples.{toy_evp, toy_laws, toy_disk, toy_config}

abbrev server_socket : Socket
server_socket = record { incoming = []; takes = 9 ∷ 100 ∷ 100 ∷ []; sent = [] }

-- The answer in three pieces, none of which ends where the header does.
abbrev connection : Connection
connection = record {
  socket = record {
    incoming = arrives (codes "CHUNK f 3") ∷ arrives (codes " 3 26\na") ∷ arrives (codes "bc") ∷ [];
    takes = 1 ∷ 1 ∷ 1 ∷ 1 ∷ 1 ∷ 1 ∷ 1 ∷ 1 ∷ 1 ∷ 1 ∷ 1 ∷ 1 ∷ [];
    sent = [];
  };
  recv_timeout_set = true;
  send_timeout_set = true;
}

served_file :
    open_in toy_disk (find_servable_chunk_path toy_config toy_disk (codes "f") (pos 3))
    ≡ some (codes "abc")
unfolding open_in find_servable_chunk_path get_chunk_path to_string to_string_ℕ
served_file = refl

abc_hash : compute_string_sha256 toy_evp (codes "abc") ≡ some (codes "26")
unfolding compute_string_sha256 bytes_to_hex hex_digit
abc_hash = refl

served :
    (serve_requested_chunk toy_evp toy_config toy_disk server_socket (codes "f") (pos 3)).0 ≡ true
unfolding serve_requested_chunk find_servable_chunk_path get_chunk_path is_safe_file_id to_string
    to_string_ℕ compute_file_sha256 open_in blocks send_all build_chunk_message bytes_to_hex
    hex_digit
served = refl

short : length (build_chunk_message (codes "f") (pos 3) 3 (codes "26")) ≤ max_header
unfolding build_chunk_message to_string to_string_ℕ
short = omega arith

arrived :
    Delivers connection.socket.incoming
      (serve_requested_chunk toy_evp toy_config toy_disk server_socket (codes "f") (pos 3)).1.sent
unfolding serve_requested_chunk find_servable_chunk_path get_chunk_path is_safe_file_id to_string
    to_string_ℕ compute_file_sha256 open_in blocks send_all build_chunk_message bytes_to_hex
    hex_digit
arrived = (codes " 3 26\nabc", refl, (codes "bc", refl, ([], refl, refl)))

taken : All (λ k. 0 < k) connection.socket.takes
taken = (
  omega arith,
  (
    omega arith,
    (
      omega arith,
      (
        omega arith,
        (
          omega arith,
          (
            omega arith,
            (
              omega arith,
              (omega arith, (omega arith, (omega arith, (omega arith, (omega arith, tt))))),
            ),
          ),
        ),
      ),
    ),
  ),
)

enough : length (build_request_message (codes "f") (pos 3)) ≤ length connection.socket.takes
unfolding build_request_message to_string to_string_ℕ
enough = omega arith

request_chunk_from_peer-serve_requested_chunk_example :
    Stores
      (get_chunk_path (codes "down") (codes "f") (pos 3))
      (codes "abc")
      toy_disk
      (request_chunk_from_peer toy_evp toy_config toy_disk (some connection) (codes "f") (pos 3))
request_chunk_from_peer-serve_requested_chunk_example =
    request_chunk_from_peer-serve_requested_chunk toy_evp toy_laws toy_config toy_config toy_disk
      toy_disk server_socket connection (codes "f") (codes "abc") (codes "26") 3 refl served_file
      served (omega arith) (omega arith) (omega arith) abc_hash short arrived (refl, refl) taken
      enough (refl, λ n. refl) refl
