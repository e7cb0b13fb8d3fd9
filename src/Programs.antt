-- ===== src/Programs.antt =====
-- src/client.cpp and src/server.cpp, which send and store one file, and the first client.cpp and
-- server.cpp in the root, which do it by themselves. Exit codes are integers.
pub mod Ends
pub mod Copy
pub mod First
use ai_optimized_distributed.Base.{
  ℕ, zero, suc, ◌+◌, ◌*◌, ◌-◌, Bool, true, false, Option, none, some, List, [], ◌∷◌, ◌++◌, Bytes,
  codes, is_empty, if◌then◌else◌, length, take, drop, min,
}
use ai_optimized_distributed.Base.Decimal.{ℤ, pos, negsuc}
use ai_optimized_distributed.Descriptors.{
  Os, close, close_socket, create_server_socket, accept_client, connect_to_server,
}
use ai_optimized_distributed.Disk.{Disk, open_in, open_out}
use ai_optimized_distributed.Disk.Blocks.{blocks}
use ai_optimized_distributed.FileTransfer.{Stored, receive_rest, send_file, recv_file}
use ai_optimized_distributed.Socket.{Arrival, fails, pending, Socket}

-- The exit code, the total if it is printed, and the rest.
abbrev pub ClientRun : Type 0
ClientRun = ℤ × Option ℤ × Socket × Os

abbrev client_close : ℕ → Os → ℤ × Socket → ClientRun
client_close fd os (total, sock) = (pos 0, some total, sock, close_socket (some fd) os)

abbrev pub client_connected : Socket → Disk → Option ℕ × Os → ClientRun
client_connected sock d (none, os) = (negsuc 0, none, sock, os)
client_connected sock d (some fd, os) =
    client_close fd os (send_file sock d (codes "data/input.txt"))

-- `main` of src/client.cpp; `sock` is the connection, if it can be made.
unfoldable pub client_main : Os → Socket → Disk → ClientRun
client_main os sock d = client_connected sock d (connect_to_server os)

abbrev pub ServerRun : Type 0
ServerRun = ℤ × Option ℤ × Disk × Os

-- What arrives on the descriptor -1: `recv` fails.
abbrev incoming_on : Option ℕ → List Arrival → List Arrival
incoming_on none arrivals = fails ∷ []
incoming_on (some fd) arrivals = arrivals

abbrev server_close : ℕ → Option ℕ → Os → ℤ × (List Arrival × Disk) → ServerRun
server_close server_fd fd os (total, (rest, d)) =
    (pos 0, some total, d, close_socket (some server_fd) (close_socket fd os))

-- A failed accept is reported and the program goes on.
abbrev pub server_accepted : ℕ → List Arrival → Disk → Option ℕ × Os → ServerRun
server_accepted server_fd arrivals d (fd, os) =
    server_close server_fd fd os (recv_file (incoming_on fd arrivals) d (codes "data/output.txt"))

abbrev pub server_listening : List Arrival → Disk → Option ℕ × Os → ServerRun
server_listening arrivals d (none, os) = (negsuc 0, none, d, os)
server_listening arrivals d (some server_fd, os) =
    server_accepted server_fd arrivals d (accept_client server_fd os)

-- `main` of src/server.cpp; `arrivals` is what comes over the connection, if one is accepted.
unfoldable pub server_main : Os → List Arrival → Disk → ServerRun
server_main os arrivals d = server_listening arrivals d (create_server_socket os)

-- The inner loop of client.cpp over one buffer: `current_send` bytes of it are out and `rest` is to go.
-- A call that fails or takes nothing leaves this loop only.
unfoldable pub send_buffer : List ℕ → ℕ → Bytes → ℕ → Bytes → ℕ × (List ℕ × Bytes)
send_buffer ks current_send [] total_byte_sent sent = (total_byte_sent, (ks, sent))
send_buffer [] current_send (c ∷ s) total_byte_sent sent = (total_byte_sent, ([], sent))
send_buffer (zero ∷ ks) current_send (c ∷ s) total_byte_sent sent = (total_byte_sent, (ks, sent))
send_buffer (suc k ∷ ks) current_send (c ∷ s) total_byte_sent sent =
    send_buffer ks (current_send + min (suc k) (length (c ∷ s))) (drop k s)
      (total_byte_sent + (current_send + min (suc k) (length (c ∷ s))))
      (sent ++ take (suc k) (c ∷ s))

-- The outer loop, over the buffers that are read.
abbrev pub next_buffer :
    (ℕ → List ℕ × Bytes → ℕ × (List ℕ × Bytes)) → ℕ × (List ℕ × Bytes) → ℕ × (List ℕ × Bytes)
next_buffer go_on (total_byte_sent, out) = go_on total_byte_sent out

unfoldable pub send_buffers : ℕ → List ℕ × Bytes → List Bytes → ℕ × (List ℕ × Bytes)
unfolding send_buffer
send_buffers total_byte_sent (ks, sent) [] = (total_byte_sent, (ks, sent))
send_buffers total_byte_sent (ks, sent) (b ∷ bs) =
    next_buffer (λ total out. send_buffers total out bs) (send_buffer ks 0 b total_byte_sent sent)

-- The exit code, the total that is printed, what went out, and the system.
abbrev pub FirstClientRun : Type 0
FirstClientRun = ℤ × Option ℕ × Bytes × Os

abbrev pub first_client_close : ℕ → Os → ℕ × (List ℕ × Bytes) → FirstClientRun
first_client_close fd os (total, (ks, sent)) = (pos 0, some total, sent, close fd os)

abbrev pub first_client_opened : ℕ → Os → List ℕ → Option Bytes → FirstClientRun
first_client_opened fd os takes none = (negsuc 0, none, [], close fd os)
first_client_opened fd os takes (some s) =
    first_client_close fd os (send_buffers 0 (takes, []) (blocks 4096 s))

abbrev pub first_client_connected : List ℕ → Disk → Option ℕ × Os → FirstClientRun
first_client_connected takes d (none, os) = (negsuc 0, none, [], os)
first_client_connected takes d (some fd, os) =
    first_client_opened fd os takes (open_in d (codes "input.txt"))

-- `main` of client.cpp in the root: the calls up to `connect` are those of `connectToServer`.
unfoldable pub first_client_main : Os → List ℕ → Disk → FirstClientRun
unfolding send_buffers
first_client_main os takes d = first_client_connected takes d (connect_to_server os)

-- The exit code, the total that is printed, the disk and the system.
abbrev pub FirstServerRun : Type 0
FirstServerRun = ℤ × Option ℕ × Disk × Os

abbrev first_server_close : ℕ → ℕ → Os → Stored → FirstServerRun
first_server_close server_fd fd os (total, (rest, d)) =
    (pos 0, some total, d, close server_fd (close fd os))

abbrev pub first_server_opened : ℕ → ℕ → Os → List Arrival → Disk → Option Disk → FirstServerRun
first_server_opened server_fd fd os arrivals d none =
    (negsuc 0, none, d, close server_fd (close fd os))
first_server_opened server_fd fd os arrivals d (some d') =
    first_server_close server_fd fd os
      (receive_rest (suc (pending arrivals)) 4095 (codes "output.txt") 0 arrivals (true, d'))

abbrev pub first_server_accepted : ℕ → List Arrival → Disk → Option ℕ × Os → FirstServerRun
first_server_accepted server_fd arrivals d (none, os) = (negsuc 0, none, d, os)
first_server_accepted server_fd arrivals d (some fd, os) =
    first_server_opened server_fd fd os arrivals d (open_out d (codes "output.txt"))

abbrev pub first_server_listening : List Arrival → Disk → Option ℕ × Os → FirstServerRun
first_server_listening arrivals d (none, os) = (negsuc 0, none, d, os)
first_server_listening arrivals d (some server_fd, os) =
    first_server_accepted server_fd arrivals d (accept_client server_fd os)

-- `main` of server.cpp in the root: the calls up to `accept` are those of `createServerSocket` and
-- `acceptClient`, and so is what they close on a failure.
unfoldable pub first_server_main : Os → List Arrival → Disk → FirstServerRun
first_server_main os arrivals d = first_server_listening arrivals d (create_server_socket os)
