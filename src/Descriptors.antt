-- ===== src/Descriptors.antt =====
-- src/network/socketUtils.cpp: opening, accepting and closing sockets. The operating system is data:
-- whether each call that can fail succeeds, in order. A descriptor is named by the number of the
-- call that gave it, so that none is used twice; -1 is `none`.
pub mod Balance
use ai_optimized_distributed.Base.{
  ℕ, zero, suc, ◌+◌, Bool, true, false, Option, none, some, List, [], ◌∷◌, ◌==◌, if◌then◌else◌,
}

-- The answers still to come; past their end every call fails. `bad_closes` counts the calls of
-- `close` on what is not an open descriptor.
pub record Os : Type 0 where
  pub answers : List Bool
  pub next_fd : ℕ
  pub open_fds : List ℕ
  pub bad_closes : ℕ

-- `setsockopt`, `bind`, `listen`, `inet_pton`, `connect`: a call that opens nothing.
abbrev pub take_answer : Os → List Bool → Bool × Os
take_answer os [] = (false, os)
take_answer os (ok ∷ rest) = (ok, record os { answers = rest })

unfoldable pub system_call : Os → Bool × Os
system_call os = take_answer os os.answers

-- `socket` and `accept`: a call that opens a descriptor.
abbrev pub opened : Bool × Os → Option ℕ × Os
opened (false, os) = (none, os)
opened (true, os) =
    (some os.next_fd, record os { next_fd = suc os.next_fd; open_fds = os.next_fd ∷ os.open_fds })

unfoldable pub open_call : Os → Option ℕ × Os
unfolding system_call
open_call os = opened (system_call os)

abbrev pub is_open : ℕ → List ℕ → Bool
is_open fd [] = false
is_open fd (other ∷ fds) = if fd == other then true else is_open fd fds

abbrev pub without : ℕ → List ℕ → List ℕ
without fd [] = []
without fd (other ∷ fds) = if fd == other then fds else other ∷ without fd fds

abbrev pub close_among : ℕ → Os → List ℕ → Os
close_among fd os fds =
    if is_open fd fds
    then record os { open_fds = without fd fds }
    else record os { bad_closes = suc os.bad_closes }

unfoldable pub close : ℕ → Os → Os
close fd os = close_among fd os os.open_fds

-- `closeSocket`, also of -1.
unfoldable pub close_socket : Option ℕ → Os → Os
close_socket none os = record os { bad_closes = suc os.bad_closes }
close_socket (some fd) os = close fd os

-- The step after a call that may fail: on failure the socket is closed and the result is -1.
abbrev pub or_close : ℕ → (Os → Option ℕ × Os) → Bool × Os → Option ℕ × Os
or_close fd go_on (false, os) = (none, close fd os)
or_close fd go_on (true, os) = go_on os

abbrev pub with_socket : (ℕ → Os → Option ℕ × Os) → Option ℕ × Os → Option ℕ × Os
with_socket go_on (none, os) = (none, os)
with_socket go_on (some fd, os) = go_on fd os

abbrev pub return_socket : ℕ → Os → Option ℕ × Os
return_socket fd os = (some fd, os)

-- `setsockopt`, `bind` and `listen` follow `socket`.
unfoldable pub create_server_socket : Os → Option ℕ × Os
create_server_socket os =
    with_socket
      (λ fd os₁.
        or_close fd
          (λ os₂.
            or_close fd (λ os₃. or_close fd (return_socket fd) (system_call os₃)) (system_call os₂))
          (system_call os₁))
      (open_call os)

-- A failure closes the socket of the server.
abbrev pub or_close_server : ℕ → Option ℕ × Os → Option ℕ × Os
or_close_server server_fd (none, os) = (none, close server_fd os)
or_close_server server_fd (some fd, os) = (some fd, os)

unfoldable pub accept_client : ℕ → Os → Option ℕ × Os
accept_client server_fd os = or_close_server server_fd (open_call os)

-- `inet_pton` and `connect` follow `socket`.
unfoldable pub connect_to_server : Os → Option ℕ × Os
connect_to_server os =
    with_socket
      (λ fd os₁.
        or_close fd (λ os₂. or_close fd (return_socket fd) (system_call os₂)) (system_call os₁))
      (open_call os)

-- `connectToPeer`: whether a connection can be made; it is closed at once.
abbrev pub close_again : Option ℕ × Os → Bool × Os
close_again (none, os) = (false, os)
close_again (some fd, os) = (true, close_socket (some fd) os)

unfoldable pub connect_to_peer : Os → Bool × Os
connect_to_peer os = close_again (connect_to_server os)

-- `setSocketRecvTimeout` and `setSocketSendTimeout`: whether `setsockopt` succeeds.
unfoldable pub set_socket_recv_timeout : Os → Bool × Os
set_socket_recv_timeout os = system_call os

unfoldable pub set_socket_send_timeout : Os → Bool × Os
set_socket_send_timeout os = system_call os
