-- ===== src/Descriptors/Balance.antt =====
-- src/network/socketUtils.cpp: which descriptors are open after each call.
use ai_optimized_distributed.Base.{
  ℕ, ◌≤◌, ◌<◌, ◌≡◌, refl, ap, sym, subst, ◌∙◌, Bool, true, false, Option, none, some, List, [], ◌∷◌,
  arith,
}
use ai_optimized_distributed.Descriptors.{
  Os, take_answer, close_among, system_call, opened, open_call, close, close_socket, or_close,
  with_socket, return_socket, create_server_socket, or_close_server, accept_client,
  connect_to_server, close_again, connect_to_peer, set_socket_recv_timeout, set_socket_send_timeout,
}

-- The same descriptors are open as before, and no `close` went wrong.
abbrev pub Balanced : Os → Os → Type 0
Balanced os os' =
    (os'.open_fds ≡ os.open_fds) × (os'.bad_closes ≡ os.bad_closes) × (os.next_fd ≤ os'.next_fd)

-- One more is open, on top, with a name of its own.
abbrev pub OneMore : ℕ → Os → Os → Type 0
OneMore fd os os' =
    (os'.open_fds ≡ fd ∷ os.open_fds)
    × (os'.bad_closes ≡ os.bad_closes)
    × (os.next_fd ≤ fd)
    × (fd < os'.next_fd)

-- A result of -1 leaves nothing open; any other is the one descriptor more.
abbrev pub Opens : Os → Option ℕ × Os → Type 0
Opens os (none, os') = Balanced os os'
Opens os (some fd, os') = OneMore fd os os'

system_call-Balanced : (os : Os) → Balanced os (system_call os).1
unfolding system_call
system_call-Balanced os = by_answers os.answers
  where
    by_answers : (answers : List Bool) → Balanced os (take_answer os answers).1
    by_answers [] = (refl, refl, omega arith)
    by_answers (ok ∷ rest) = (refl, refl, omega arith)

opened-Opens : (os : Os) (r : Bool × Os) → Balanced os r.1 → Opens os (opened r)
opened-Opens os (false, os') h = h
opened-Opens os (true, os') (same, good, later) =
    (ap (λ fds. os'.next_fd ∷ fds) same, good, later, omega arith)

pub open_call-Opens : (os : Os) → Opens os (open_call os)
unfolding open_call
open_call-Opens os = opened-Opens os (system_call os) (system_call-Balanced os)

-- The descriptors are now `fds`, and nothing else has changed.
abbrev pub Closed : Os → List ℕ → Os → Type 0
Closed os fds os' =
    (os'.open_fds ≡ fds) × (os'.bad_closes ≡ os.bad_closes) × (os'.next_fd ≡ os.next_fd)

close_among-top : (fd : ℕ) (os : Os) (fds : List ℕ) → Closed os fds (close_among fd os (fd ∷ fds))
close_among-top fd os fds = ground arith

pub close-top :
    (fd : ℕ) (os : Os) (fds : List ℕ) → os.open_fds ≡ fd ∷ fds → Closed os fds (close fd os)
unfolding close
close-top fd os fds h =
    subst (λ l. Closed os fds (close_among fd os l)) (sym h) (close_among-top fd os fds)

after-OneMore :
    (fd : ℕ) (os os₁ os₂ : Os) → OneMore fd os os₁ → Balanced os₁ os₂ → OneMore fd os os₂
after-OneMore fd os os₁ os₂ (top, good, new, below) (same, good', later) =
    (same ∙ top, good' ∙ good, new, omega (arith, below, later))

close-Balanced : (fd : ℕ) (os os' : Os) → OneMore fd os os' → Balanced os (close fd os')
close-Balanced fd os os' (top, good, new, below) =
    let (fds, same, later) = close-top fd os' os.open_fds top in
    (fds, same ∙ good, omega (arith, later, new, below))

or_close-Opens :
    (fd : ℕ) (os : Os) (go_on : Os → Option ℕ × Os) (r : Bool × Os)
    → OneMore fd os r.1
    → ((os' : Os) → OneMore fd os os' → Opens os (go_on os'))
    → Opens os (or_close fd go_on r)
or_close-Opens fd os go_on (false, os') h ih = close-Balanced fd os os' h
or_close-Opens fd os go_on (true, os') h ih = ih os' h

-- One call more on the way.
call-Opens :
    (fd : ℕ) (os os' : Os) (go_on : Os → Option ℕ × Os)
    → OneMore fd os os'
    → ((os₂ : Os) → OneMore fd os os₂ → Opens os (go_on os₂))
    → Opens os (or_close fd go_on (system_call os'))
call-Opens fd os os' go_on h ih =
    or_close-Opens fd os go_on (system_call os')
      (after-OneMore fd os os' (system_call os').1 h (system_call-Balanced os')) ih

with_socket-Opens :
    (os : Os) (go_on : ℕ → Os → Option ℕ × Os) (r : Option ℕ × Os)
    → Opens os r
    → ((fd : ℕ) (os' : Os) → OneMore fd os os' → Opens os (go_on fd os'))
    → Opens os (with_socket go_on r)
with_socket-Opens os go_on (none, os') h ih = h
with_socket-Opens os go_on (some fd, os') h ih = ih fd os' h

pub create_server_socket-Opens : (os : Os) → Opens os (create_server_socket os)
unfolding create_server_socket
create_server_socket-Opens os =
    with_socket-Opens os _ (open_call os) (open_call-Opens os) (λ fd os₁ h₁.
      call-Opens fd os os₁ _ h₁ (λ os₂ h₂.
        call-Opens fd os os₂ _ h₂
          (λ os₃ h₃. call-Opens fd os os₃ (return_socket fd) h₃ (λ os₄ h₄. h₄))))

pub connect_to_server-Opens : (os : Os) → Opens os (connect_to_server os)
unfolding connect_to_server
connect_to_server-Opens os =
    with_socket-Opens os _ (open_call os) (open_call-Opens os) (λ fd os₁ h₁.
      call-Opens fd os os₁ _ h₁
        (λ os₂ h₂. call-Opens fd os os₂ (return_socket fd) h₂ (λ os₃ h₃. h₃)))

close_again-Balanced : (os : Os) (r : Option ℕ × Os) → Opens os r → Balanced os (close_again r).1
unfolding close_socket
close_again-Balanced os (none, os') h = h
close_again-Balanced os (some fd, os') h = close-Balanced fd os os' h

-- `acceptClient` on the socket that was opened last: the connection on top of it, or -1, and then that
-- socket is closed.
abbrev pub Accepts : Os → List ℕ → Option ℕ × Os → Type 0
Accepts os fds (none, os') = (os'.open_fds ≡ fds) × (os'.bad_closes ≡ os.bad_closes)
Accepts os fds (some fd, os') = OneMore fd os os'

or_close_server-Accepts :
    (server_fd : ℕ) (os : Os) (fds : List ℕ) (r : Option ℕ × Os)
    → os.open_fds ≡ server_fd ∷ fds
    → Opens os r
    → Accepts os fds (or_close_server server_fd r)
or_close_server-Accepts server_fd os fds (none, os') e (same, good, later) =
    let (top, good', next) = close-top server_fd os' fds (same ∙ e) in (top, good' ∙ good)
or_close_server-Accepts server_fd os fds (some fd, os') e h = h

-- However the calls of the system turn out, the set-up of sockets leaks nothing and closes
-- nothing that is not open. Where `createServerSocket` or `connectToServer` gives -1, the open
-- descriptors are those from before; where it gives a descriptor, that is the one descriptor
-- more, of a new name. `connectToPeer` and the setting of the timeouts leave what was open. `acceptClient`, on the socket that
-- was opened last, gives one descriptor more, or fails and closes that socket.
pub setup-Balanced :
    (os : Os) (server_fd : ℕ) (fds : List ℕ)
    → os.open_fds ≡ server_fd ∷ fds
    → Opens os (create_server_socket os)
      × Opens os (connect_to_server os)
      × Balanced os (connect_to_peer os).1
      × Balanced os (set_socket_recv_timeout os).1
      × Balanced os (set_socket_send_timeout os).1
      × Accepts os fds (accept_client server_fd os)
unfolding connect_to_peer accept_client set_socket_recv_timeout set_socket_send_timeout
setup-Balanced os server_fd fds e = (
  create_server_socket-Opens os,
  connect_to_server-Opens os,
  close_again-Balanced os (connect_to_server os) (connect_to_server-Opens os),
  system_call-Balanced os,
  system_call-Balanced os,
  or_close_server-Accepts server_fd os fds (open_call os) e (open_call-Opens os),
)
