-- ===== src/Request/Answer.antt =====
-- src/peer/peer.cpp, `requestChunkFromPeer`: what a client stores when a well-formed answer arrives.
use ai_optimized_distributed.Base.{
  ℕ, ◌≤◌, ◌<◌, ◌≡◌, ◌≢◌, refl, ap, sym, subst, ◌∙◌, Bool, true, Option, none, some, List, [], ◌∷◌,
  ◌++◌, append_assoc, Bytes, codes, arith, All, All-append, length, length-append,
}
use ai_optimized_distributed.Base.Decimal.{pos, to_string, to_string_ℕ, to_string-IsDigits}
use ai_optimized_distributed.Base.Stream.{NoSpace, IsDigits-NoSpace}
use ai_optimized_distributed.Protocol.{
  parse_message, build_chunk_message, build_request_message, k_max_chunk_id, k_max_chunk_size,
}
use ai_optimized_distributed.Protocol.RoundTrip.{parse_message-build_chunk_message}
use ai_optimized_distributed.Disk.{Disk, MayRead, MayWrite}
use ai_optimized_distributed.Chunks.{get_chunk_path}
use ai_optimized_distributed.Hash.{Evp, EvpLaws, compute_string_sha256}
use ai_optimized_distributed.Hash.Digest.{compute_string_sha256-IsWord}
use ai_optimized_distributed.Socket.{Socket, Arrival, send_all}
use ai_optimized_distributed.Socket.Sending.{send_all-SendResult, send_all_total}
use ai_optimized_distributed.Socket.Receiving.{Delivers}
use ai_optimized_distributed.Peer.{PeerConfig, is_safe_file_id}
use ai_optimized_distributed.Peer.FileId.{is_safe_file_id-IsWord}
use ai_optimized_distributed.Transfer.{
  HeaderResult, Outcome, max_header, read_chunk_header, receive_chunk_data,
}
use ai_optimized_distributed.Transfer.Header.{NoNewline, Reads, read_chunk_header-Reads}
use ai_optimized_distributed.Transfer.Deliver.{Gets, receive_chunk_data-Gets}
use ai_optimized_distributed.Request.{
  disk_of, accept_header, accept_response, after_request, exchange,
}

NoSpace-NoNewline : (s : Bytes) → NoSpace s → NoNewline s
NoSpace-NoNewline [] h = tt
NoSpace-NoNewline (c ∷ s) h = (ground arith, NoSpace-NoNewline s h.1)

to_string-NoNewline : (n : ℕ) → NoNewline (to_string_ℕ n)
to_string-NoNewline n =
    NoSpace-NoNewline (to_string_ℕ n) (IsDigits-NoSpace (to_string_ℕ n) (to_string-IsDigits n))

-- The header line without its newline.
header_line : Bytes → ℕ → ℕ → Bytes → Bytes
header_line file_id n size h =
    codes "CHUNK " ++ (file_id ++ (32 ∷ (to_string_ℕ n ++ (32 ∷ (to_string_ℕ size ++ (32 ∷ h))))))

build_chunk_message-line :
    (file_id : Bytes) (n size : ℕ) (h : Bytes)
    → build_chunk_message file_id (pos n) size h ≡ header_line file_id n size h ++ b'\n' ∷ []
unfolding build_chunk_message header_line to_string
build_chunk_message-line file_id n size h = sym (simp append_assoc)

header_line-NoNewline :
    (file_id : Bytes) (n size : ℕ) (h : Bytes)
    → NoSpace file_id
    → NoSpace h
    → NoNewline (header_line file_id n size h)
unfolding header_line
header_line-NoNewline file_id n size h w v = All-append _ (codes "CHUNK ") _ (omega arith) (
    All-append _ file_id _ (NoSpace-NoNewline file_id w) (
      omega arith,
      All-append _ (to_string_ℕ n) _ (to_string-NoNewline n) (
        omega arith,
        All-append _ (to_string_ℕ size) _ (to_string-NoNewline size)
            (omega arith, NoSpace-NoNewline h v),
      ),
    ))

-- The chunk file is the chunk, and no other file has changed.
abbrev pub Stores : Bytes → Bytes → Disk → Bool × Disk → Type 0
Stores p s d (ok, d') =
    (ok ≡ true) × (d'.files p ≡ some s) × ((q : Bytes) → q ≢ p → d'.files q ≡ d.files q)

module _ (evp : Evp) (laws : EvpLaws evp) where
  Gets-Stores :
      (p s : Bytes) (d : Disk) (r : Outcome) → Gets p d [] s [] r → Stores p s d (disk_of evp r)
  Gets-Stores p s d (ok, (arrivals, d')) (done, held, _, rest, _) = (done, held, rest)

  module _ (file_id s h p : Bytes) (n : ℕ) (d : Disk) (safe : is_safe_file_id file_id ≡ true)
      (in_range : n ≤ k_max_chunk_id) (some_bytes : 0 < length s)
      (bounded : length s ≤ k_max_chunk_size) (digest : compute_string_sha256 evp s ≡ some h)
      (short : length (build_chunk_message file_id (pos n) (length s) h) ≤ max_header)
      (w : MayWrite d.permissions p) (a : MayRead d.permissions p) where
    accept_header-Stores :
        (payload more : Bytes) (arrivals : List Arrival)
        → payload ++ more ≡ s
        → Delivers arrivals more
        → Stores p s d (
            accept_header evp
              (parse_message (build_chunk_message file_id (pos n) (length s) h))
              arrivals
              p
              payload
              d)
    unfolding accept_header
    accept_header-Stores payload more arrivals e coming =
        let (g, g', _, _) = is_safe_file_id-IsWord file_id safe in
        let v = compute_string_sha256-IsWord evp laws s h digest in
        rw
          (parse_message-build_chunk_message file_id n (length s) h (g, g') in_range some_bytes
            bounded v)
          (Gets-Stores p s d (receive_chunk_data evp arrivals p (length s) payload h d) (
            subst
              (λ t.
                compute_string_sha256 evp t ≡ some h
                → Gets p d [] t [] (receive_chunk_data evp arrivals p (length t) payload h d))
              e
              (λ digest'.
                receive_chunk_data-Gets evp laws payload more h p d arrivals w a digest' coming)
              digest))

    accept_response-Stores :
        (r : HeaderResult)
        → Reads (header_line file_id n (length s) h) s r
        → Stores p s d (accept_response evp r p d)
    accept_response-Stores (none, arrivals) reads = absurd reads
    accept_response-Stores (some (l, payload), arrivals) (e, (more, whole, coming)) =
        subst (λ x. Stores p s d (accept_header evp (parse_message x) arrivals p payload d))
          (build_chunk_message-line file_id n (length s) h ∙ sym e)
          (accept_header-Stores payload more arrivals whole coming)

    after_request-Stores :
        (incoming : List Arrival) (r : Option ℕ × Socket)
        → r.0 ≢ none
        → r.1.incoming ≡ incoming
        → Delivers incoming (build_chunk_message file_id (pos n) (length s) h ++ s)
        → Stores p s d (after_request evp p d r)
    after_request-Stores incoming (none, sock) went same coming = absurd (went refl)
    after_request-Stores incoming (some k, sock) went same coming =
        let line = header_line file_id n (length s) h in
        let (_, plain, _, _) = is_safe_file_id-IsWord file_id safe in
        let (_, hash_plain) = compute_string_sha256-IsWord evp laws s h digest in
        let whole : build_chunk_message file_id (pos n) (length s) h ++ s ≡ line ++ b'\n' ∷ s =
          ap (λ x. x ++ s) (build_chunk_message-line file_id n (length s) h)
          ∙ append_assoc line (b'\n' ∷ []) s in
        let line_short : length line ≤ max_header = omega (
          arith,
          short,
          ap length (build_chunk_message-line file_id n (length s) h),
          length-append line (b'\n' ∷ []),
        ) in
        accept_response-Stores (read_chunk_header sock.incoming) (
          read_chunk_header-Reads line s line_short
            (header_line-NoNewline file_id n (length s) h plain hash_plain) sock.incoming
            (subst (λ x. Delivers x (line ++ b'\n' ∷ s)) (sym same)
              (subst (Delivers incoming) whole coming)))

    -- The socket takes at least one byte of the request at each call of `send`, and enough calls.
    abbrev pub TakesRequest : Socket → Type 0
    TakesRequest sock =
        All (λ k. 0 < k) sock.takes
        × (length (build_request_message file_id (pos n)) ≤ length sock.takes)

    pub exchange-Stores :
        (config : PeerConfig) (sock : Socket)
        → p ≡ get_chunk_path config.download_dir file_id (pos n)
        → TakesRequest sock
        → Delivers sock.incoming (build_chunk_message file_id (pos n) (length s) h ++ s)
        → Stores p s d (exchange evp config d sock file_id (pos n))
    unfolding exchange
    exchange-Stores config sock e (takes, enough) coming =
        let request_bytes = build_request_message file_id (pos n) in
        let (sent, _) = send_all_total sock request_bytes takes enough in
        let (_, same) = send_all-SendResult sock request_bytes in
        subst (λ q. Stores p s d (after_request evp q d (send_all sock request_bytes))) e
          (after_request-Stores sock.incoming (send_all sock request_bytes) (λ f. cc (sent, f)) same
            coming)
