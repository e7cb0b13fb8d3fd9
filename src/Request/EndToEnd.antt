-- ===== src/Request/EndToEnd.antt =====
-- src/peer/peer.cpp: what one peer serves is what the other stores.
use ai_optimized_distributed.Base.{
  ℕ, ◌≤◌, ◌<◌, ◌≡◌, refl, subst, Bool, true, false, some, [], ◌++◌, Bytes, All, length,
}
use ai_optimized_distributed.Base.Decimal.{ℤ, pos}
use ai_optimized_distributed.Protocol.{
  build_chunk_message, build_request_message, k_max_chunk_id, k_max_chunk_size,
}
use ai_optimized_distributed.Disk.{Disk, open_in, MayRead, MayWrite}
use ai_optimized_distributed.Chunks.{get_chunk_path}
use ai_optimized_distributed.Hash.{Evp, EvpLaws, compute_string_sha256}
use ai_optimized_distributed.Hash.Digest.{compute_file_sha256-string}
use ai_optimized_distributed.Socket.{Socket}
use ai_optimized_distributed.Socket.Receiving.{Delivers}
use ai_optimized_distributed.Peer.{PeerConfig, is_safe_file_id, find_servable_chunk_path}
use ai_optimized_distributed.Transfer.{max_header, serve_requested_chunk}
use ai_optimized_distributed.Transfer.Serve.{Serves, serve_requested_chunk-Serves}
use ai_optimized_distributed.Request.{Connection, request_chunk_from_peer}
use ai_optimized_distributed.Request.Answer.{Stores, exchange-Stores}

module _ (evp : Evp) (laws : EvpLaws evp) where
  -- What a server that reports success has sent, for a chunk file that it could read.
  Serves-sent :
      (config : PeerConfig) (d : Disk) (sock : Socket) (file_id s h : Bytes) (id : ℤ)
      (r : Bool × Socket)
      → Serves evp config d sock file_id id r
      → r.0 ≡ true
      → sock.sent ≡ []
      → open_in d (find_servable_chunk_path config d file_id id) ≡ some s
      → compute_string_sha256 evp s ≡ some h
      → (is_safe_file_id file_id ≡ true)
        × (r.1.sent ≡ build_chunk_message file_id id (length s) h ++ s)
  Serves-sent config d sock file_id s h id (false, sock') served done fresh e digest = cc done
  Serves-sent config d sock file_id s h id (true, sock') (s', h', safe, e', digest', sent) done
        fresh e digest =
      let same : s' ≡ s = cc (e, e') in
      let path = find_servable_chunk_path config d file_id id in
      let of_file = compute_file_sha256-string evp laws d path s e in
      let same_hash : h' ≡ h = cc (digest, digest', of_file) in
      (safe, cc (sent, fresh, same, same_hash))

  -- A chunk goes from one peer to another byte for byte: if the server reports success for a chunk
  -- file whose size and number the protocol allows, its answer is all that arrives at the client,
  -- cut into pieces anywhere, the client's socket took the request and its timeouts, the header
  -- fits 8192 bytes, and the client may write and read its chunk file, then the request succeeds,
  -- the client's chunk file is the server's, and no other file of the client has changed.
  pub request_chunk_from_peer-serve_requested_chunk :
      (server client : PeerConfig) (server_disk d : Disk) (sock : Socket) (c : Connection)
      (file_id s h : Bytes) (n : ℕ)
      → sock.sent ≡ []
      → open_in server_disk (find_servable_chunk_path server server_disk file_id (pos n)) ≡ some s
      → (serve_requested_chunk evp server server_disk sock file_id (pos n)).0 ≡ true
      → n ≤ k_max_chunk_id
      → 0 < length s
      → length s ≤ k_max_chunk_size
      → compute_string_sha256 evp s ≡ some h
      → length (build_chunk_message file_id (pos n) (length s) h) ≤ max_header
      → Delivers c.socket.incoming
          (serve_requested_chunk evp server server_disk sock file_id (pos n)).1.sent
      → (c.recv_timeout_set ≡ true) × (c.send_timeout_set ≡ true)
      → All (λ k. 0 < k) c.socket.takes
      → length (build_request_message file_id (pos n)) ≤ length c.socket.takes
      → MayWrite d.permissions (get_chunk_path client.download_dir file_id (pos n))
      → MayRead d.permissions (get_chunk_path client.download_dir file_id (pos n))
      → Stores
          (get_chunk_path client.download_dir file_id (pos n))
          s
          d
          (request_chunk_from_peer evp client d (some c) file_id (pos n))
  unfolding request_chunk_from_peer
  request_chunk_from_peer-serve_requested_chunk server client server_disk d sock c file_id s h n
        fresh e done in_range some_bytes bounded digest short coming (recv_set, send_set) takes
        enough w a =
      let r = serve_requested_chunk evp server server_disk sock file_id (pos n) in
      let (safe, sent) =
        Serves-sent server server_disk sock file_id s h (pos n) r
          (serve_requested_chunk-Serves evp server server_disk sock file_id (pos n)) done fresh e
          digest in
      rw (request_chunk_from_peer, recv_set, send_set, safe)
        (exchange-Stores evp laws file_id s h _ n d safe in_range some_bytes bounded digest short w
          a client c.socket refl (takes, enough) (subst (Delivers c.socket.incoming) sent coming))
