-- ===== src/Transfer/Serve.antt =====
-- src/peer/peer.cpp, `serveRequestedChunk` and `handlePeerRequest`: what goes out to the other peer.
use ai_optimized_distributed.Base.{
  ℕ, ◌≡◌, refl, ap, sym, subst, ◌∙◌, inl, inr, Bool, true, false, Option, none, some, List, [], ◌∷◌,
  ◌++◌, append_assoc, append-nil, Bytes, arith, length, is_empty, Option-cases, Bool-cases,
}
use ai_optimized_distributed.Base.Decimal.{ℤ}
use ai_optimized_distributed.Protocol.{build_chunk_message}
use ai_optimized_distributed.Chunks.{k_transfer_buffer_size}
use ai_optimized_distributed.Disk.{Disk, open_in, file_size, file_size-open_in}
use ai_optimized_distributed.Disk.Blocks.{blocks, concat, concat-blocks}
use ai_optimized_distributed.Hash.{Evp, compute_file_sha256}
use ai_optimized_distributed.Hash.Digest.{compute_file_sha256-none}
use ai_optimized_distributed.Socket.{Socket, send_all}
use ai_optimized_distributed.Socket.Sending.{SendResult, send_all-SendResult}
use ai_optimized_distributed.Peer.{PeerConfig, is_safe_file_id, find_servable_chunk_path}
use ai_optimized_distributed.Transfer.{
  send_then, send_pieces, send_chunk_file_in_buffers, refuse, serve_requested_chunk,
}

-- Success says that exactly `s` went out.
abbrev pub Emits : Socket → Bytes → Bool × Socket → Type 0
Emits sock s (true, sock') = sock'.sent ≡ sock.sent ++ s
Emits sock s (false, sock') = Unit {0}

Emits-after :
    (sock sock' : Socket) (s t : Bytes) (r : Bool × Socket)
    → sock'.sent ≡ sock.sent ++ s
    → Emits sock' t r
    → Emits sock (s ++ t) r
Emits-after sock sock' s t (true, sock₂) e f = f ∙ ap (λ x. x ++ t) e ∙ append_assoc sock.sent s t
Emits-after sock sock' s t (false, sock₂) e f = tt

send_then-Emits :
    (sock : Socket) (s t : Bytes) (r : Option ℕ × Socket) (k : Socket → Bool × Socket)
    → SendResult sock s r
    → ((sock' : Socket) → Emits sock' t (k sock'))
    → Emits sock (s ++ t) (send_then r k)
send_then-Emits sock s t (none, sock') k e f = tt
send_then-Emits sock s t (some n, sock') k ((_, e), _) f =
    Emits-after sock sock' s t (k sock') e (f sock')

send_pieces-Emits : (sock : Socket) (bs : List Bytes) → Emits sock (concat bs) (send_pieces sock bs)
unfolding send_pieces
send_pieces-Emits sock [] = sym (append-nil sock.sent)
send_pieces-Emits sock (b ∷ bs) =
    send_then-Emits sock b (concat bs) (send_all sock b) (λ sock'. send_pieces sock' bs)
      (send_all-SendResult sock b) (λ sock'. send_pieces-Emits sock' bs)

send_chunk_file-Emits :
    (sock : Socket) (d : Disk) (path s : Bytes)
    → open_in d path ≡ some s
    → Emits sock s (send_chunk_file_in_buffers sock d path)
unfolding send_chunk_file_in_buffers
send_chunk_file-Emits sock d path s e =
    rw (send_chunk_file_in_buffers, e)
      (subst (λ x. Emits sock x (send_pieces sock (blocks k_transfer_buffer_size s)))
        (concat-blocks k_transfer_buffer_size s (omega arith))
        (send_pieces-Emits sock (blocks k_transfer_buffer_size s)))

module _ (evp : Evp) (config : PeerConfig) (d : Disk) (sock : Socket) (file_id : Bytes)
    (id : ℤ) where
  -- A served chunk: the header with the size and the hash of the file at the path, and the file.
  abbrev pub Serves : Bool × Socket → Type 0
  Serves (false, sock') = Unit {0}
  Serves (true, sock') =
      (s : Bytes) × (h : Bytes) × (is_safe_file_id file_id ≡ true)
      × (open_in d (find_servable_chunk_path config d file_id id) ≡ some s)
      × (compute_file_sha256 evp d (find_servable_chunk_path config d file_id id) ≡ some h)
      × (sock'.sent ≡ sock.sent ++ (build_chunk_message file_id id (length s) h ++ s))

  Emits-Serves :
      (s h : Bytes) (r : Bool × Socket)
      → is_safe_file_id file_id ≡ true
      → open_in d (find_servable_chunk_path config d file_id id) ≡ some s
      → compute_file_sha256 evp d (find_servable_chunk_path config d file_id id) ≡ some h
      → Emits sock (build_chunk_message file_id id (length s) h ++ s) r
      → Serves r
  Emits-Serves s h (true, sock') safe e f g = (s, h, safe, e, f, g)
  Emits-Serves s h (false, sock') safe e f g = tt

  serve_file :
      (h : Bytes) (o : Option Bytes)
      → is_safe_file_id file_id ≡ true
      → open_in d (find_servable_chunk_path config d file_id id) ≡ o
      → compute_file_sha256 evp d (find_servable_chunk_path config d file_id id) ≡ some h
      → Serves (
          send_then
            (send_all sock (
              build_chunk_message file_id id
                (file_size d (find_servable_chunk_path config d file_id id))
                h))
            (λ sock'.
              send_chunk_file_in_buffers sock' d (find_servable_chunk_path config d file_id id)))
  serve_file h none safe e f = cc (e, f, compute_file_sha256-none evp d _ e)
  serve_file h (some s) safe e f =
      subst
        (λ n. Serves (
          send_then (send_all sock (build_chunk_message file_id id n h)) (λ sock'.
            send_chunk_file_in_buffers sock' d (find_servable_chunk_path config d file_id id))))
        (sym (file_size-open_in d _ s e))
        (Emits-Serves s h _ safe e f (
          send_then-Emits sock _ s (send_all sock (build_chunk_message file_id id (length s) h)) _
            (send_all-SendResult sock _) (λ sock'. send_chunk_file-Emits sock' d _ s e)))

  -- When the server reports success, the file id is safe, the file at the path that it chose could
  -- be read and hashed, and what went out is the header with the file's size and hash and then
  -- the file, byte for byte.
  pub serve_requested_chunk-Serves : Serves (serve_requested_chunk evp config d sock file_id id)
  unfolding serve_requested_chunk refuse
  serve_requested_chunk-Serves = elim (Bool-cases (is_safe_file_id file_id)) [
    | inr unsafe ↦ rw (serve_requested_chunk, unsafe) tt
    | inl safe ↦ elim (Bool-cases (is_empty (find_servable_chunk_path config d file_id id))) [
      | inl missing ↦ rw (serve_requested_chunk, safe, missing) tt
      | inr present ↦
          elim (Option-cases
            (compute_file_sha256 evp d (find_servable_chunk_path config d file_id id))) [
              | inl e ↦ rw (serve_requested_chunk, safe, present, e) tt
              | inr (h, e) ↦
                  rw (serve_requested_chunk, safe, present, e)
                    (serve_file h (open_in d (find_servable_chunk_path config d file_id id)) safe
                      refl e)
            ]
    ]
  ]
