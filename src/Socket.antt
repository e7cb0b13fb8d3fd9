-- ===== src/Socket.antt =====
-- src/network/socketUtils.cpp, `sendAll`, and the socket calls `send` and `recv` that it and the
-- transfers use. The network is data: what arrives, piece by piece, and how many bytes each call
-- of `send` takes. When the pieces are used up the other side has closed.
pub mod Sending
pub mod Receiving
use ai_optimized_distributed.Base.{
  ℕ, zero, suc, ◌+◌, Bool, true, false, Option, none, some, List, [], ◌∷◌, ◌++◌, Bytes, take, drop,
  length, is_empty, if◌then◌else◌, ◌==◌, min,
}

pub data Arrival : Type 0 where
  arrives : Bytes → Arrival
  fails : Arrival

pub data Received : Type 0 where
  got : Bytes → Received
  closed failed : Received

-- `recv(fd, buffer, n, 0)`: at most `n` bytes of the first piece; the rest of it stays.
unfoldable pub recv : ℕ → List Arrival → Received × List Arrival
recv n [] = (closed, [])
recv n (fails ∷ rest) = (failed, rest)
recv n (arrives [] ∷ rest) = recv n rest
recv n (arrives (c ∷ s) ∷ rest) = (got (take n (c ∷ s)), arrives (drop n (c ∷ s)) ∷ rest)

-- The bytes and pieces still to come: fuel for a loop that receives until the other side closes.
abbrev pub pending : List Arrival → ℕ
pending [] = 0
pending (fails ∷ rest) = 1 + pending rest
pending (arrives b ∷ rest) = 1 + length b + pending rest

-- One end of a connection. `takes` says how many bytes each `send` takes; past its end `send`
-- fails.
pub record Socket : Type 0 where
  pub incoming : List Arrival
  pub takes : List ℕ
  pub sent : Bytes

-- The loop of `sendAll`; `byte_sent` bytes are out and `rest` is to go. `none` is -1.
unfoldable pub send_loop : List ℕ → ℕ → Bytes → Bytes → Option ℕ × (List ℕ × Bytes)
send_loop ks byte_sent [] sent = (some byte_sent, (ks, sent))
send_loop [] byte_sent (c ∷ s) sent = (none, ([], sent))
send_loop (zero ∷ ks) byte_sent (c ∷ s) sent = (none, (ks, sent))
send_loop (suc k ∷ ks) byte_sent (c ∷ s) sent =
    send_loop ks (byte_sent + min (suc k) (length (c ∷ s))) (drop k s)
      (sent ++ take (suc k) (c ∷ s))

unfoldable pub send_all : Socket → Bytes → Option ℕ × Socket
unfolding send_loop
send_all sock buffer =
    let (result, (ks, sent)) = send_loop sock.takes 0 buffer sock.sent in
    (result, record sock { takes = ks; sent = sent })
