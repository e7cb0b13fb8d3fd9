-- ===== src/Programs/Ends.antt =====
-- src/server.cpp, `main`: what it leaves behind.
use ai_optimized_distributed.Base.{
  ℕ, suc, ◌+◌, ◌<◌, ◌≡◌, refl, ap, sym, subst, ◌∙◌, Option, none, some, List, [], ◌∷◌, Bytes, arith,
  All, codes,
}
use ai_optimized_distributed.Base.Decimal.{pos}
use ai_optimized_distributed.Descriptors.{
  Os, open_call, close, close_socket, or_close_server, create_server_socket, accept_client,
}
use ai_optimized_distributed.Descriptors.Balance.{
  OneMore, Opens, open_call-Opens, create_server_socket-Opens, close-top,
}
use ai_optimized_distributed.Disk.{Disk, put, MayWrite, open_out-put, files-put_self}
use ai_optimized_distributed.Socket.{Arrival, fails, recv}
use ai_optimized_distributed.FileTransfer.{recv_file, recv_opened, receive_rest}
use ai_optimized_distributed.PeerServer.Closing.{close_unknown, is_open-none, All-below}
use ai_optimized_distributed.Programs.{ServerRun, server_accepted, server_listening, server_main}

-- What a server that receives nothing leaves at the output path.
recv_file-fails :
    (d : Disk) (out : Bytes)
    → MayWrite d.permissions out
    → recv_file (fails ∷ []) d out ≡ (pos 0, ([], put d out (some [])))
unfolding recv_file receive_rest recv
recv_file-fails d out a = ap (recv_opened (fails ∷ []) d out) (open_out-put d out a)

-- The two calls of `close` at the end, of -1 and of the socket that is closed already.
close_both :
    (fd : ℕ) (os : Os)
    → All (λ t. t < fd) os.open_fds
    → ((close_socket (some fd) (close_socket none os)).open_fds ≡ os.open_fds)
      × ((close_socket (some fd) (close_socket none os)).bad_closes ≡ 2 + os.bad_closes)
unfolding close_socket
close_both fd os below =
    let (same, bad) =
      close_unknown fd (record os { bad_closes = suc os.bad_closes })
        (is_open-none fd [] os.open_fds tt below) in
    (same, omega (arith, bad))

-- The end of a server that accepted nothing.
abbrev pub RefusedEnd : Os → Disk → ServerRun → Type 0
RefusedEnd os d (code, total, d', os') =
    (code ≡ pos 0)
    × (total ≡ some (pos 0))
    × (d'.files (codes "data/output.txt") ≡ some [])
    × (os'.open_fds ≡ os.open_fds)
    × (os'.bad_closes ≡ 2 + os.bad_closes)

server_accepted-RefusedEnd :
    (fd : ℕ) (os os' : Os) (d : Disk) (arrivals : List Arrival)
    → MayWrite d.permissions (codes "data/output.txt")
    → All (λ t. t < fd) os.open_fds
    → (os'.open_fds ≡ os.open_fds) × (os'.bad_closes ≡ os.bad_closes)
    → RefusedEnd os d (server_accepted fd arrivals d (none, os'))
server_accepted-RefusedEnd fd os os' d arrivals may below (same, good) =
    let (fds, bad) = close_both fd os' (subst (All (λ t. t < fd)) (sym same) below) in
    let e = recv_file-fails d (codes "data/output.txt") may in
    (
      refl,
      ap (λ r. some r.0) e,
      ap (λ r. r.1.1.files (codes "data/output.txt")) e
          ∙ files-put_self d (codes "data/output.txt") (some []),
      fds ∙ same,
      omega (arith, bad, good),
    )

refused :
    (fd : ℕ) (os os₁ : Os) (d : Disk) (arrivals : List Arrival) (r : Option ℕ × Os)
    → MayWrite d.permissions (codes "data/output.txt")
    → All (λ t. t < os.next_fd) os.open_fds
    → OneMore fd os os₁
    → r.0 ≡ none
    → Opens os₁ r
    → RefusedEnd os d (server_accepted fd arrivals d (or_close_server fd r))
refused fd os os₁ d arrivals (some t, os₂) may fresh (top, good, new, next) none_came b = cc
refused fd os os₁ d arrivals (none, os₂) may fresh (top, good, new, next) none_came
      (same, good', later) =
    let (fds, bad, rest) = close-top fd os₂ os.open_fds (same ∙ top) in
    server_accepted-RefusedEnd fd os (close fd os₂) d arrivals may
      (All-below fd os.next_fd os.open_fds new fresh) (fds, bad ∙ good' ∙ good)

-- Where the server of src/server.cpp listens, but its `accept` fails, on a system in which every
-- open descriptor was named before, and data/output.txt may be written, it goes on: the exit code
-- is 0, a total of 0 is printed, data/output.txt is empty, and two calls of `close` are of what
-- is not open, -1 and the listening socket again. No descriptor stays open.
pub server_main-refused :
    (os os₁ : Os) (fd : ℕ) (arrivals : List Arrival) (d : Disk)
    → MayWrite d.permissions (codes "data/output.txt")
    → All (λ t. t < os.next_fd) os.open_fds
    → create_server_socket os ≡ (some fd, os₁)
    → (open_call os₁).0 ≡ none
    → RefusedEnd os d (server_main os arrivals d)
unfolding server_main accept_client
server_main-refused os os₁ fd arrivals d may fresh listens fails_now =
    subst (λ r. RefusedEnd os d (server_listening arrivals d r)) (sym listens)
      (refused fd os os₁ d arrivals (open_call os₁) may fresh
        (subst (Opens os) listens (create_server_socket-Opens os)) fails_now (open_call-Opens os₁))
