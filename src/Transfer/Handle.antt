-- ===== src/Transfer/Handle.antt =====
-- src/peer/peer.cpp, `handlePeerRequest`: a request that arrives in one piece is served.
use ai_optimized_distributed.Base.{
  ℕ, zero, suc, ◌≤◌, ◌≡◌, ◌≢◌, refl, ap, ◌∙◌, true, List, [], ◌∷◌, Bytes, codes, arith, length, All,
  All-append, take, drop,
}
use ai_optimized_distributed.Base.Decimal.{
  pos, to_string, to_string_ℕ, to_string-IsDigits, IsDigits,
}
use ai_optimized_distributed.Protocol.{
  ParsedMessage, blank, request, parse_message, build_request_message, k_max_chunk_id,
}
use ai_optimized_distributed.Protocol.RoundTrip.{parse_message-build_request_message}
use ai_optimized_distributed.Disk.{Disk}
use ai_optimized_distributed.Hash.{Evp}
use ai_optimized_distributed.Socket.{Socket, Arrival, got, arrives, recv}
use ai_optimized_distributed.Peer.{PeerConfig, is_safe_file_id}
use ai_optimized_distributed.Peer.FileId.{is_safe_file_id-IsWord, is_safe_file_id-NoZero}
use ai_optimized_distributed.Transfer.{
  c_string, answer, respond, serve_requested_chunk, handle_peer_request,
}

abbrev NoZero : Bytes → Type 0
NoZero = All (λ c. c ≢ 0)

c_string_whole : (s : Bytes) → NoZero s → c_string s ≡ s
unfolding c_string
c_string_whole [] h = refl
c_string_whole (c ∷ s) h = ground (arith, c_string_whole s h.1)

IsDigits-NoZero : (s : Bytes) → IsDigits s → NoZero s
IsDigits-NoZero [] h = tt
IsDigits-NoZero (c ∷ s) h = (ground arith, IsDigits-NoZero s h.1)

request-NoZero :
    (file_id : Bytes) (n : ℕ)
    → is_safe_file_id file_id ≡ true
    → NoZero (build_request_message file_id (pos n))
unfolding build_request_message to_string
request-NoZero file_id n safe = All-append _ (codes "REQUEST ") _ (omega arith) (
    All-append _ file_id _ (is_safe_file_id-NoZero file_id safe) (
      omega arith,
      All-append _ (to_string_ℕ n) _ (IsDigits-NoZero (to_string_ℕ n) (to_string-IsDigits n))
          (omega arith, tt),
    ))

take_whole : (k : ℕ) (s : Bytes) → length s ≤ k → take k s ≡ s
take_whole zero [] h = refl
take_whole (suc k) [] h = refl
take_whole zero (c ∷ s) h = absurd (omega arith)
take_whole (suc k) (c ∷ s) h = ap (λ t. c ∷ t) (take_whole k s (omega arith))

drop_whole : (k : ℕ) (s : Bytes) → length s ≤ k → drop k s ≡ []
drop_whole zero [] h = refl
drop_whole (suc k) [] h = refl
drop_whole zero (c ∷ s) h = absurd (omega arith)
drop_whole (suc k) (c ∷ s) h = drop_whole k s (omega arith)

-- A message that fits is received whole.
recv_whole :
    (k : ℕ) (s : Bytes) (rest : List Arrival)
    → s ≢ []
    → length s ≤ k
    → recv k (arrives s ∷ rest) ≡ (got s, arrives [] ∷ rest)
unfolding recv
recv_whole k [] rest h fits = absurd (h refl)
recv_whole k (c ∷ s) rest h fits =
    rw (recv, take_whole k (c ∷ s) fits, drop_whole k (c ∷ s) fits) refl

abbrev request_of : Bytes → ℕ → ParsedMessage
request_of file_id n = record blank {
  type = request;
  command = codes "REQUEST";
  file_id = file_id;
  chunk_id = pos n;
  valid = true;
}

answer-request_of :
    (evp : Evp) (config : PeerConfig) (d : Disk) (sock : Socket) (file_id : Bytes) (n : ℕ)
    → is_safe_file_id file_id ≡ true
    → answer evp config d sock (request_of file_id n)
      ≡ serve_requested_chunk evp config d sock file_id (pos n)
unfolding answer
answer-request_of evp config d sock file_id n safe = rw (answer, safe) refl

answer-request :
    (evp : Evp) (config : PeerConfig) (d : Disk) (sock : Socket) (file_id : Bytes) (n : ℕ)
    → is_safe_file_id file_id ≡ true
    → n ≤ k_max_chunk_id
    → answer evp config d sock (parse_message (build_request_message file_id (pos n)))
      ≡ serve_requested_chunk evp config d sock file_id (pos n)
answer-request evp config d sock file_id n safe h =
    let (some_bytes, plain, _, _) = is_safe_file_id-IsWord file_id safe in
    ap (answer evp config d sock)
      (parse_message-build_request_message file_id n (some_bytes, plain) h)
    ∙ answer-request_of evp config d sock file_id n safe

request_nonempty : (file_id : Bytes) (n : ℕ) → build_request_message file_id (pos n) ≢ []
unfolding build_request_message
request_nonempty file_id n e = cc e

-- A request that arrives in one piece of at most 1023 bytes, with a safe file id and a chunk number
-- in range, is answered as a request for exactly that chunk of that file.
pub handle_peer_request-build_request_message :
    (evp : Evp) (config : PeerConfig) (d : Disk) (sock : Socket) (file_id : Bytes) (n : ℕ)
    (rest : List Arrival)
    → is_safe_file_id file_id ≡ true
    → n ≤ k_max_chunk_id
    → length (build_request_message file_id (pos n)) ≤ 1023
    → sock.incoming ≡ arrives (build_request_message file_id (pos n)) ∷ rest
    → handle_peer_request evp config d sock
      ≡ serve_requested_chunk evp config d
          (record sock { incoming = arrives [] ∷ rest })
          file_id
          (pos n)
unfolding handle_peer_request
handle_peer_request-build_request_message evp config d sock file_id n rest safe h fits e =
    let message = build_request_message file_id (pos n) in
    let received : recv 1023 sock.incoming ≡ (got message, arrives [] ∷ rest) =
      ap (recv 1023) e ∙ recv_whole 1023 message rest (request_nonempty file_id n) fits in
    let sock' : Socket = record sock { incoming = arrives [] ∷ rest } in
    ap (respond evp config d sock) received
    ∙ ap (λ s. answer evp config d sock' (parse_message s))
        (c_string_whole message (request-NoZero file_id n safe))
    ∙ answer-request evp config d sock' file_id n safe h
