-- ===== src/FileTransfer.antt =====
-- src/file/fileTransfer.cpp: a whole file over one connection, and the programs in client.cpp and
-- server.cpp that do the same by themselves. The end of the file is the end of the connection.
pub mod Sending
pub mod Whole
use ai_optimized_distributed.Base.{
  ℕ, zero, suc, ◌+◌, ◌*◌, Bool, true, false, Option, none, some, List, [], ◌∷◌, ◌++◌, Bytes, length,
  take, drop, min,
}
use ai_optimized_distributed.Base.Decimal.{ℤ, pos, negsuc}
use ai_optimized_distributed.Disk.{Disk, open_in, open_out, write}
use ai_optimized_distributed.Disk.Blocks.{blocks}
use ai_optimized_distributed.Socket.{
  Arrival, Received, got, closed, failed, recv, pending, Socket, send_all,
}

abbrev pub k_transfer_buffer_size : ℕ
k_transfer_buffer_size = 16 * 1024

-- What follows a call of `sendAll` on a piece: a failure leaves the loop.
abbrev pub after_piece : (Socket → ℕ → ℕ × Socket) → ℕ → ℕ → Option ℕ × Socket → ℕ × Socket
after_piece go_on send_file_byte byte_read (none, sock) = (send_file_byte, sock)
after_piece go_on send_file_byte byte_read (some n, sock) = go_on sock (send_file_byte + byte_read)

-- The loop of `sendFile`.
unfoldable pub send_rest : Socket → ℕ → List Bytes → ℕ × Socket
send_rest sock send_file_byte [] = (send_file_byte, sock)
send_rest sock send_file_byte (b ∷ bs) =
    after_piece (λ sock' total. send_rest sock' total bs) send_file_byte (length b)
      (send_all sock b)

abbrev pub as_long_long : ℕ × Socket → ℤ × Socket
as_long_long (n, sock) = (pos n, sock)

abbrev pub send_opened : Socket → Option Bytes → ℤ × Socket
send_opened sock none = (negsuc 0, sock)
send_opened sock (some s) = as_long_long (send_rest sock 0 (blocks k_transfer_buffer_size s))

unfoldable pub send_file : Socket → Disk → Bytes → ℤ × Socket
send_file sock d input_path = send_opened sock (open_in d input_path)

-- `outputFile.write`, whose result is not looked at: a stream that has failed takes no more.
abbrev pub write_unchecked : Option Disk → Disk → Bool × Disk
write_unchecked none d = (false, d)
write_unchecked (some d') d = (true, d')

abbrev pub write_on : Bool → Disk → Bytes → Bytes → Bool × Disk
write_on false d path s = (false, d)
write_on true d path s = write_unchecked (write d path s) d

abbrev pub Stored : Type 0
Stored = ℕ × (List Arrival × Disk)

abbrev pub receive_round :
    (ℕ → List Arrival → Bool × Disk → Stored)
    → Bytes
    → ℕ
    → Bool × Disk
    → Received × List Arrival
    → Stored
receive_round go_on output_path receive_file_byte (good, d) (closed, rest) =
    (receive_file_byte, (rest, d))
receive_round go_on output_path receive_file_byte (good, d) (failed, rest) =
    (receive_file_byte, (rest, d))
receive_round go_on output_path receive_file_byte (good, d) (got b, rest) =
    go_on (receive_file_byte + length b) rest (write_on good d output_path b)

-- The loop `while (true)` around `recv` for at most `size` bytes. Each round takes a byte or more,
-- so a fuel above what is pending lasts.
unfoldable pub receive_rest : ℕ → ℕ → Bytes → ℕ → List Arrival → Bool × Disk → Stored
receive_rest zero size output_path receive_file_byte arrivals (good, d) =
    (receive_file_byte, (arrivals, d))
receive_rest (suc fuel) size output_path receive_file_byte arrivals (good, d) =
    receive_round (λ total rest out. receive_rest fuel size output_path total rest out) output_path
      receive_file_byte (good, d) (recv size arrivals)

abbrev pub stored_long_long : Stored → ℤ × (List Arrival × Disk)
stored_long_long (n, rest) = (pos n, rest)

abbrev pub recv_opened : List Arrival → Disk → Bytes → Option Disk → ℤ × (List Arrival × Disk)
recv_opened arrivals d output_path none = (negsuc 0, (arrivals, d))
recv_opened arrivals d output_path (some d') =
    stored_long_long (
      receive_rest (suc (pending arrivals)) k_transfer_buffer_size output_path 0 arrivals
        (true, d'))

unfoldable pub recv_file : List Arrival → Disk → Bytes → ℤ × (List Arrival × Disk)
recv_file arrivals d output_path = recv_opened arrivals d output_path (open_out d output_path)
