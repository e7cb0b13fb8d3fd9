-- ===== src/Programs/Copy.antt =====
-- src/client.cpp and src/server.cpp: a file that goes from one program to the other.
use ai_optimized_distributed.Base.{
  All, ◌≤◌, ◌<◌, ℕ, ◌≡◌, refl, ap, sym, subst, ◌∙◌, Option, none, some, List, [], Bytes, length,
  codes,
}
use ai_optimized_distributed.Base.Decimal.{pos}
use ai_optimized_distributed.Descriptors.{
  Os, open_call, close, close_socket, or_close_server, create_server_socket, accept_client,
  connect_to_server,
}
use ai_optimized_distributed.Descriptors.Balance.{
  OneMore, Opens, open_call-Opens, create_server_socket-Opens, connect_to_server-Opens, close-top,
}
use ai_optimized_distributed.Disk.{Disk, MayWrite, MayRead}
use ai_optimized_distributed.Socket.{Arrival, Socket}
use ai_optimized_distributed.Socket.Receiving.{Delivers}
use ai_optimized_distributed.FileTransfer.{send_file}
use ai_optimized_distributed.FileTransfer.Whole.{send_file-recv_file}
use ai_optimized_distributed.Programs.{
  ClientRun, ServerRun, client_connected, client_main, server_accepted, server_listening,
  server_main,
}

-- Closing the connection and then the listening socket.
pub close_two :
    (os os₁ os₂ : Os) (fd t : ℕ)
    → OneMore fd os os₁
    → OneMore t os₁ os₂
    → ((close_socket (some fd) (close_socket (some t) os₂)).open_fds ≡ os.open_fds)
      × ((close_socket (some fd) (close_socket (some t) os₂)).bad_closes ≡ os.bad_closes)
unfolding close_socket
close_two os os₁ os₂ fd t (top, good, new, next) (top', good', new', next') =
    let (fds, bad, rest) = close-top t os₂ os₁.open_fds top' in
    let (fds', bad', rest') = close-top fd (close t os₂) os.open_fds (fds ∙ top) in
    (fds', bad' ∙ bad ∙ good' ∙ good)

-- Where both programs connect, and the client's `sendFile` reports the whole length.
abbrev pub Copied : Os → Os → Disk → ClientRun → ServerRun → Type 0
Copied os_c os_s d (code_c, total_c, sock, os_c') (code_s, total_s, d', os_s') =
    (code_c ≡ pos 0)
    × (code_s ≡ pos 0)
    × (total_s ≡ total_c)
    × (d'.files (codes "data/output.txt") ≡ d.files (codes "data/input.txt"))
    × ((os_c'.open_fds ≡ os_c.open_fds) × (os_c'.bad_closes ≡ os_c.bad_closes))
    × ((os_s'.open_fds ≡ os_s.open_fds) × (os_s'.bad_closes ≡ os_s.bad_closes))

close_one :
    (os os₁ : Os) (fd : ℕ)
    → OneMore fd os os₁
    → ((close_socket (some fd) os₁).open_fds ≡ os.open_fds)
      × ((close_socket (some fd) os₁).bad_closes ≡ os.bad_closes)
unfolding close_socket
close_one os os₁ fd (top, good, new, next) =
    let (fds, bad, rest) = close-top fd os₁ os.open_fds top in (fds, bad ∙ good)

accepted-OneMore :
    (fd t : ℕ) (os₁ os₂ : Os) (r : Option ℕ × Os)
    → Opens os₁ r
    → or_close_server fd r ≡ (some t, os₂)
    → OneMore t os₁ os₂
accepted-OneMore fd t os₁ os₂ (none, os') h e = cc
accepted-OneMore fd t os₁ os₂ (some t', os') h e = subst (Opens os₁) e h

pub accept_client-OneMore :
    (fd t : ℕ) (os₁ os₂ : Os) → accept_client fd os₁ ≡ (some t, os₂) → OneMore t os₁ os₂
unfolding accept_client
accept_client-OneMore fd t os₁ os₂ e =
    accepted-OneMore fd t os₁ os₂ (open_call os₁) (open_call-Opens os₁) e

-- src/client.cpp and src/server.cpp copy a file: where the client connects, the server accepts,
-- data/input.txt may be read and data/output.txt be written, the client's connection is new and
-- takes a byte or more at each call of `send`, for as many calls as the file has bytes, and the
-- server receives what was sent, cut in any way, both end with exit code 0 and the same total, data/output.txt on the server's disk is
-- data/input.txt of the client's, and neither leaves a descriptor open or closes one twice.
pub client_main-server_main :
    (os_c os_c' os_s os₁ os₂ : Os) (fd_c fd_s t : ℕ) (sock : Socket) (d d' : Disk) (s : Bytes)
    → (arrivals : List Arrival) → connect_to_server os_c ≡ (some fd_c, os_c')
    → create_server_socket os_s ≡ (some fd_s, os₁)
    → accept_client fd_s os₁ ≡ (some t, os₂)
    → MayRead d.permissions (codes "data/input.txt")
    → MayWrite d'.permissions (codes "data/output.txt")
    → d.files (codes "data/input.txt") ≡ some s
    → sock.sent ≡ []
    → All (λ k. 0 < k) sock.takes
    → length s ≤ length sock.takes
    → Delivers arrivals (send_file sock d (codes "data/input.txt")).1.sent
    → Copied os_c os_s d (client_main os_c sock d) (server_main os_s arrivals d')
unfolding client_main server_main
client_main-server_main os_c os_c' os_s os₁ os₂ fd_c fd_s t sock d d' s arrivals connects listens
      accepts may_read may_write here new positive enough delivered =
    let (sent, count, held, others) =
      send_file-recv_file sock d d' (codes "data/input.txt") (codes "data/output.txt") s arrivals
        may_read here may_write new positive enough delivered in
    let top : OneMore fd_s os_s os₁ =
      subst (Opens os_s) listens (create_server_socket-Opens os_s) in
    subst
      (λ r.
        Copied os_c os_s d (client_connected sock d r)
          (server_listening arrivals d' (create_server_socket os_s)))
      (sym connects)
      (subst
        (λ r.
          Copied os_c os_s d (client_connected sock d (some fd_c, os_c'))
            (server_listening arrivals d' r))
        (sym listens)
        (subst
          (λ r.
            Copied os_c os_s d (client_connected sock d (some fd_c, os_c'))
              (server_accepted fd_s arrivals d' r))
          (sym accepts)
          (
            refl,
            refl,
            ap some (count ∙ sym sent),
            held,
            close_one os_c os_c' fd_c (subst (Opens os_c) connects (connect_to_server-Opens os_c)),
            close_two os_s os₁ os₂ fd_s t top (accept_client-OneMore fd_s t os₁ os₂ accepts),
          )))
