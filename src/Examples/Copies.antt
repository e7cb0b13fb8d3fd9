-- ===== src/Examples/Copies.antt =====
-- Runs of the whole-file transfer, of the set-up of sockets, of the peer server and of the programs.
use ai_optimized_distributed.Base.{
  ℕ, map, ◌≡◌, ◌≢◌, refl, true, false, Bool, Option, none, some, List, [], ◌∷◌, Bytes, bytes_eq,
  if◌then◌else◌, codes, arith, replicate,
}
use ai_optimized_distributed.Base.Decimal.{pos}
use ai_optimized_distributed.Disk.{Disk, open_in}
use ai_optimized_distributed.Disk.Blocks.{blocks}
use ai_optimized_distributed.Socket.{Socket, Arrival, arrives, send_all}
use ai_optimized_distributed.Socket.Receiving.{Delivers}
use ai_optimized_distributed.Descriptors.{
  close, Os, system_call, open_call, create_server_socket, accept_client, close_socket,
  connect_to_server, connect_to_peer, set_socket_recv_timeout, set_socket_send_timeout,
}
use ai_optimized_distributed.Descriptors.Balance.{Opens, Balanced, Accepts, setup-Balanced}
use ai_optimized_distributed.FileTransfer.{send_rest, send_file, recv_file}
use ai_optimized_distributed.FileTransfer.Whole.{send_file-recv_file}
use ai_optimized_distributed.ThreadPool.{step, new_pool}
use ai_optimized_distributed.PeerServer.{
  Place, left, ServerEvent, main_turn, thread_turn, PeerServer, not_started, started, new_server,
  ensure_peer_storage_layout, start_peer_server,
}
use ai_optimized_distributed.PeerServer.Accounts.{
  ServerRuns, listening_fd, start_peer_server-ServerRuns,
}
use ai_optimized_distributed.Programs.{
  client_main, server_main, first_client_main, first_server_main,
}
use ai_optimized_distributed.Programs.Ends.{RefusedEnd, server_main-refused}
use ai_optimized_distributed.Programs.Copy.{Copied, client_main-server_main}
use ai_optimized_distributed.Programs.First.{
  ClientSent, ServerStored, first_client_main-ClientSent, first_server_main-ServerStored,
}
use ai_optimized_distributed.Examples.{toy_evp, All-positive, all_allowed, toy_disk, toy_config}

-- A client that sends two bytes at a time, and what the other end receives of "hello".
abbrev sender : Socket
sender = record { incoming = []; takes = replicate 9 2; sent = [] }

abbrev in_pieces : List Arrival
in_pieces = arrives (codes "he") ∷ arrives [] ∷ arrives (codes "llo") ∷ []

-- The inputs of the programs.
abbrev input_disk : Disk
input_disk = record {
  files = λ p.
      if bytes_eq p (codes "a")
      then some (codes "hello")
      else if bytes_eq p (codes "input.txt")
      then some (codes "hello")
      else if bytes_eq p (codes "data/input.txt")
      then some (codes "hello")
      else none;
  permissions = all_allowed;
}

delivered : Delivers in_pieces (send_file sender toy_disk (codes "a")).1.sent
unfolding send_file open_in blocks send_all send_rest
delivered = (codes "llo", refl, (codes "llo", refl, ([], refl, refl)))

send_file-recv_file_example :
    ((send_file sender toy_disk (codes "a")).0 ≡ pos 5)
    × ((recv_file in_pieces toy_disk (codes "b")).0 ≡ pos 5)
    × ((recv_file in_pieces toy_disk (codes "b")).1.1.files (codes "b")
        ≡ toy_disk.files (codes "a"))
    × ((q : Bytes)
        → q ≢ codes "b"
        → (recv_file in_pieces toy_disk (codes "b")).1.1.files q ≡ toy_disk.files q)
send_file-recv_file_example =
    send_file-recv_file sender toy_disk toy_disk (codes "a") (codes "b") (codes "hello") in_pieces
      refl refl (refl, λ n. refl) refl (All-positive 1 9) (omega arith) delivered

-- One descriptor is open, and the next call of `bind` fails.
abbrev bind_fails : Os
bind_fails = record {
  answers = true ∷ true ∷ false ∷ [];
  next_fd = 4;
  open_fds = 3 ∷ [];
  bad_closes = 0;
}

setup-Balanced_example :
    Opens bind_fails (create_server_socket bind_fails)
    × Opens bind_fails (connect_to_server bind_fails)
    × Balanced bind_fails (connect_to_peer bind_fails).1
    × Balanced bind_fails (set_socket_recv_timeout bind_fails).1
    × Balanced bind_fails (set_socket_send_timeout bind_fails).1
    × Accepts bind_fails [] (accept_client 3 bind_fails)
setup-Balanced_example = setup-Balanced bind_fails 3 [] refl

-- The socket, its three calls, two connections, and a failure of `accept`.
abbrev two_clients : Os
two_clients = record {
  answers = true ∷ true ∷ true ∷ true ∷ true ∷ true ∷ false ∷ [];
  next_fd = 4;
  open_fds = 3 ∷ [];
  bad_closes = 0;
}

abbrev all_created : Bytes → Bool
all_created folder = true

-- Each task finds a connection that its client has closed.
abbrev gone : ℕ → Disk × Socket
gone fd = (toy_disk, record { incoming = []; takes = []; sent = [] })

-- The first connection is served between two calls of `accept`, the second one in the joins.
abbrev two_rounds : List ServerEvent
two_rounds =
    main_turn
    ∷ thread_turn 0
    ∷ thread_turn 0
    ∷ main_turn
    ∷ main_turn
    ∷ main_turn
    ∷ main_turn
    ∷ thread_turn 1
    ∷ main_turn
    ∷ thread_turn 1
    ∷ thread_turn 0
    ∷ thread_turn 1
    ∷ main_turn
    ∷ []

start_peer_server-ServerRuns_example :
    ServerRuns toy_evp toy_config gone two_clients
      (listening_fd (ensure_peer_storage_layout all_created toy_config) two_clients)
      (start_peer_server toy_evp gone all_created 2 two_rounds toy_config two_clients)
start_peer_server-ServerRuns_example =
    start_peer_server-ServerRuns toy_evp toy_config gone all_created 2 two_rounds two_clients
      (omega arith, tt)

-- A system on which a server comes to listen, and then one call more has an answer or none has.
abbrev listening : List Bool → Os
listening rest = record {
  answers = true ∷ true ∷ true ∷ true ∷ rest;
  next_fd = 3;
  open_fds = [];
  bad_closes = 0;
}

abbrev listens_on : List Bool → Os
listens_on rest = record { answers = rest; next_fd = 4; open_fds = 3 ∷ []; bad_closes = 0 }

listens : (rest : List Bool) → create_server_socket (listening rest) ≡ (some 3, listens_on rest)
unfolding create_server_socket open_call system_call
listens rest = refl

refused_now : (open_call (listens_on [])).0 ≡ none
unfolding open_call system_call
refused_now = refl

server_main-refused_example :
    RefusedEnd (listening []) toy_disk (server_main (listening []) [] toy_disk)
server_main-refused_example =
    server_main-refused (listening []) (listens_on []) 3 [] toy_disk (refl, λ n. refl) tt
      (listens []) refused_now

abbrev accepted_on : Os
accepted_on = record { answers = []; next_fd = 5; open_fds = 4 ∷ 3 ∷ []; bad_closes = 0 }

accepts : accept_client 3 (listens_on (true ∷ [])) ≡ (some 4, accepted_on)
unfolding accept_client open_call system_call
accepts = refl

-- A system on which a client connects.
abbrev connecting : Os
connecting = record {
  answers = true ∷ true ∷ true ∷ [];
  next_fd = 7;
  open_fds = [];
  bad_closes = 0;
}

abbrev connected_on : Os
connected_on = record { answers = []; next_fd = 8; open_fds = 7 ∷ []; bad_closes = 0 }

connects : connect_to_server connecting ≡ (some 7, connected_on)
unfolding connect_to_server open_call system_call
connects = refl

delivered_input : Delivers in_pieces (send_file sender input_disk (codes "data/input.txt")).1.sent
unfolding send_file open_in blocks send_all send_rest
delivered_input = (codes "llo", refl, (codes "llo", refl, ([], refl, refl)))

client_main-server_main_example :
    Copied connecting
      (listening (true ∷ []))
      input_disk
      (client_main connecting sender input_disk)
      (server_main (listening (true ∷ [])) in_pieces toy_disk)
client_main-server_main_example =
    client_main-server_main connecting connected_on (listening (true ∷ [])) (listens_on (true ∷ []))
      accepted_on 7 3 4 sender input_disk toy_disk (codes "hello") in_pieces connects
      (listens (true ∷ [])) accepts refl (refl, λ n. refl) refl refl (All-positive 1 9)
      (omega arith) delivered_input

first_client_main-ClientSent_example :
    ClientSent connecting (codes "hello") (first_client_main connecting (replicate 9 2) input_disk)
first_client_main-ClientSent_example =
    first_client_main-ClientSent connecting connected_on 7 (replicate 9 2) input_disk
      (codes "hello") connects refl refl (All-positive 1 9) (omega arith)

first_server_main-ServerStored_example :
    ServerStored
      (listening (true ∷ []))
      toy_disk
      (codes "hello")
      (first_server_main (listening (true ∷ [])) in_pieces toy_disk)
first_server_main-ServerStored_example =
    first_server_main-ServerStored (listening (true ∷ [])) (listens_on (true ∷ [])) accepted_on 3 4
      toy_disk (codes "hello") in_pieces (listens (true ∷ [])) accepts (refl, λ n. refl)
      (codes "llo", refl, (codes "llo", refl, ([], refl, refl)))

-- Five bytes that go out one by one are counted as 1 + 2 + 3 + 4 + 5.
over_count : (first_client_main connecting (replicate 5 1) input_disk).1 ≡ some 15
unfolding first_client_main connect_to_server open_call system_call open_in blocks
over_count = refl

-- The place, the open descriptors, the closes too many, and the connections that were handled.
abbrev summary : PeerServer → Option (Place × List ℕ × ℕ × List ℕ)
summary (not_started os) = none
summary (started fd s) = some (s.place, s.os.open_fds, s.os.bad_closes, map (λ h. h.0) s.handled)

-- The server is back: both connections were handled, and one `close` was too many.
server_back :
    summary (start_peer_server toy_evp gone all_created 2 two_rounds toy_config two_clients)
    ≡ some (left, 3 ∷ [], 1, 5 ∷ 6 ∷ [])
unfolding start_peer_server ensure_peer_storage_layout create_server_socket open_call new_server
    accept_client step new_pool close_socket close
server_back = refl
