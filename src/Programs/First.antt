-- ===== src/Programs/First.antt =====
-- client.cpp and server.cpp in the root: what goes out, what is stored and what is counted.
use ai_optimized_distributed.Base.{
  ℕ, zero, suc, ◌+◌, ◌≤◌, ◌<◌, ◌≡◌, ◌≢◌, refl, ap, sym, subst, ◌∙◌, some, List, [], ◌∷◌, ◌++◌,
  append_assoc, append-nil, Bytes, take, drop, take-append-drop, arith, All, length, length-drop,
  length-append, codes, min,
}
use ai_optimized_distributed.Base.Decimal.{pos}
use ai_optimized_distributed.Descriptors.{
  Os, close_socket, create_server_socket, accept_client, connect_to_server,
}
use ai_optimized_distributed.Descriptors.Balance.{
  OneMore, Opens, create_server_socket-Opens, connect_to_server-Opens, close-top,
}
use ai_optimized_distributed.Disk.{
  Disk, put, MayRead, MayWrite, open_in-some, open_out-put, files-put_self, files-put_ne,
  permissions-put,
}
use ai_optimized_distributed.Disk.Blocks.{blocks, concat, concat-blocks}
use ai_optimized_distributed.Socket.{Arrival, pending}
use ai_optimized_distributed.Socket.Receiving.{Delivers}
use ai_optimized_distributed.FileTransfer.Whole.{receive_rest-Stores}
use ai_optimized_distributed.Programs.Copy.{close_two, accept_client-OneMore}
use ai_optimized_distributed.Programs.{
  send_buffer, next_buffer, send_buffers, FirstClientRun, first_client_close, first_client_opened,
  first_client_connected, first_client_main, FirstServerRun, first_server_opened,
  first_server_accepted, first_server_listening, first_server_main,
}

-- All of a text went out; the total rose by its length or more, and the calls of `send` that are left are
-- enough for what else they were enough for.
Out : List ℕ → ℕ → Bytes → Bytes → ℕ × (List ℕ × Bytes) → Type 0
Out ks total s sent (total', (ks', sent')) =
    (sent' ≡ sent ++ s)
    × (total + length s ≤ total')
    × All (λ k. 0 < k) ks'
    × (length ks ≤ length ks' + length s)

Out-step :
    (k : ℕ) (ks : List ℕ) (current total : ℕ) (s sent : Bytes) (r : ℕ × (List ℕ × Bytes))
    → 0 < length s
    → Out ks
        (total + (current + min (suc k) (length s)))
        (drop (suc k) s)
        (sent ++ take (suc k) s)
        r
    → Out (suc k ∷ ks) total s sent r
unfolding Out
Out-step k ks current total s sent (total', (ks', sent')) some_bytes (out, count, good, many) = (
  out
      ∙ append_assoc sent (take (suc k) s) (drop (suc k) s)
      ∙ ap (λ t. sent ++ t) (take-append-drop (suc k) s),
  omega (arith, count, length-drop (suc k) s),
  good,
  omega (arith, many, some_bytes, length-drop (suc k) s),
)

send_buffer-Out :
    (ks : List ℕ) (current : ℕ) (s : Bytes) (total : ℕ) (sent : Bytes)
    → All (λ k. 0 < k) ks
    → length s ≤ length ks
    → Out ks total s sent (send_buffer ks current s total sent)
unfolding send_buffer Out
send_buffer-Out [] current [] total sent p h = (sym (append-nil sent), omega arith, tt, omega arith)
send_buffer-Out (k ∷ ks) current [] total sent p h =
    (sym (append-nil sent), omega arith, p, omega arith)
send_buffer-Out [] current (c ∷ s) total sent p h = absurd (omega (arith, h))
send_buffer-Out (zero ∷ ks) current (c ∷ s) total sent (p, ps) h = absurd (omega (arith, p))
send_buffer-Out (suc k ∷ ks) current (c ∷ s) total sent (p, ps) h =
    Out-step k ks current total (c ∷ s) sent _ (omega arith) (
      send_buffer-Out ks (current + min (suc k) (length (c ∷ s))) (drop k s)
        (total + (current + min (suc k) (length (c ∷ s)))) (sent ++ take (suc k) (c ∷ s)) ps
        (omega (arith, h, length-drop k s)))

next_buffer-Out :
    (go_on : ℕ → List ℕ × Bytes → ℕ × (List ℕ × Bytes)) (ks : List ℕ) (total : ℕ) (b s sent : Bytes)
    → (r : ℕ × (List ℕ × Bytes))
    → ((total' : ℕ) (ks' : List ℕ) (sent' : Bytes)
        → All (λ k. 0 < k) ks'
        → length s ≤ length ks'
        → Out ks' total' s sent' (go_on total' (ks', sent')))
    → length (b ++ s) ≤ length ks
    → Out ks total b sent r
    → Out ks total (b ++ s) sent (next_buffer go_on r)
unfolding Out
next_buffer-Out go_on ks total b s sent (total', (ks', sent')) ih h (out, count, good, many) =
    by_rest (go_on total' (ks', sent'))
      (ih total' ks' sent' good (omega (arith, h, many, length-append b s)))
  where
    by_rest : (r : ℕ × (List ℕ × Bytes)) → Out ks' total' s sent' r → Out ks total (b ++ s) sent r
    by_rest (n, (ls, done)) (out', count', good', many') = (
      out' ∙ ap (λ t. t ++ s) out ∙ append_assoc sent b s,
      omega (arith, count, count', length-append b s),
      good',
      omega (arith, many, many', length-append b s),
    )

send_buffers-Out :
    (bs : List Bytes) (total : ℕ) (ks : List ℕ) (sent : Bytes)
    → All (λ k. 0 < k) ks
    → length (concat bs) ≤ length ks
    → Out ks total (concat bs) sent (send_buffers total (ks, sent) bs)
unfolding send_buffers
send_buffers-Out [] total ks sent p h =
    unfold Out in (sym (append-nil sent), omega arith, p, omega arith)
send_buffers-Out (b ∷ bs) total ks sent p h =
    next_buffer-Out (λ n out. send_buffers n out bs) ks total b (concat bs) sent
      (send_buffer ks 0 b total sent) (send_buffers-Out bs) h
      (send_buffer-Out ks 0 b total sent p (omega (arith, h, length-append b (concat bs))))

-- A client that sent `s`; the number that it prints is not below the length.
abbrev pub ClientSent : Os → Bytes → FirstClientRun → Type 0
ClientSent os s (code, printed, sent, os') =
    (code ≡ pos 0)
    × (sent ≡ s)
    × ((n : ℕ) × (printed ≡ some n) × (length s ≤ n))
    × (os'.open_fds ≡ os.open_fds)
    × (os'.bad_closes ≡ os.bad_closes)

closed_client :
    (fd : ℕ) (os os' : Os) (s : Bytes) (takes : List ℕ)
    → OneMore fd os os'
    → All (λ k. 0 < k) takes
    → length s ≤ length takes
    → ClientSent os s (first_client_opened fd os' takes (some s))
unfolding Out
closed_client fd os os' s takes (top, good, new, next) p h =
    by_end (send_buffers 0 (takes, []) (blocks 4096 s)) (
      subst (λ t. Out takes 0 t [] (send_buffers 0 (takes, []) (blocks 4096 s)))
        (concat-blocks 4096 s (omega arith))
        (send_buffers-Out (blocks 4096 s) 0 takes [] p
          (subst (λ t. length t ≤ length takes) (sym (concat-blocks 4096 s (omega arith))) h)))
  where
    by_end :
        (r : ℕ × (List ℕ × Bytes))
        → Out takes 0 s [] r
        → ClientSent os s (first_client_close fd os' r)
    by_end (n, (ks, sent)) o =
        let (out, count, good_left, many) = o in
        let (fds, bad, later) = close-top fd os' os.open_fds top in
        (refl, out, (n, refl, omega (arith, count)), fds, bad ∙ good)

-- Where client.cpp connects, input.txt is there and may be read, and every call of `send` takes a
-- byte or more, for as many calls as the file has bytes, the whole file goes out, in order, the
-- exit code is 0 and the descriptor is closed; the total that is printed is not below the file's
-- length.
pub first_client_main-ClientSent :
    (os os' : Os) (fd : ℕ) (takes : List ℕ) (d : Disk) (s : Bytes)
    → connect_to_server os ≡ (some fd, os')
    → MayRead d.permissions (codes "input.txt")
    → d.files (codes "input.txt") ≡ some s
    → All (λ k. 0 < k) takes
    → length s ≤ length takes
    → ClientSent os s (first_client_main os takes d)
unfolding first_client_main
first_client_main-ClientSent os os' fd takes d s connects may here p h =
    subst (λ r. ClientSent os s (first_client_connected takes d r)) (sym connects)
      (subst (λ c. ClientSent os s (first_client_opened fd os' takes c))
        (sym (open_in-some d (codes "input.txt") s may here))
        (closed_client fd os os' s takes (subst (Opens os) connects (connect_to_server-Opens os)) p
          h))

-- A server that stored `s`.
abbrev pub ServerStored : Os → Disk → Bytes → FirstServerRun → Type 0
ServerStored os d s (code, printed, d', os') =
    (code ≡ pos 0)
    × (printed ≡ some (length s))
    × (d'.files (codes "output.txt") ≡ some s)
    × ((q : Bytes) → q ≢ codes "output.txt" → d'.files q ≡ d.files q)
    × (os'.open_fds ≡ os.open_fds)
    × (os'.bad_closes ≡ os.bad_closes)

stored_server :
    (fd t : ℕ) (os os₁ os₂ : Os) (d : Disk) (s : Bytes) (arrivals : List Arrival)
    → OneMore fd os os₁
    → OneMore t os₁ os₂
    → MayWrite d.permissions (codes "output.txt")
    → Delivers arrivals s
    → ServerStored os d s
        (first_server_opened fd t os₂ arrivals d (some (put d (codes "output.txt") (some []))))
unfolding close_socket
stored_server fd t os os₁ os₂ d s arrivals top top' may g =
    let out = codes "output.txt" in
    let d' = put d out (some []) in
    let (count, held, others) =
      receive_rest-Stores out (suc (pending arrivals)) 4094 0 arrivals d' [] s (omega arith)
        (subst (λ x. MayWrite x out) (sym (permissions-put d out (some []))) may)
        (files-put_self d out (some [])) g in
    let (fds, bad) = close_two os os₁ os₂ fd t top top' in
    (
      refl,
      ap some (omega (arith, count)),
      held,
      (λ q h. others q h ∙ files-put_ne d out q (some []) h),
      fds,
      bad,
    )

-- Where server.cpp listens, accepts a connection and may write output.txt, and `s` arrives on it, cut in any
-- way, it stores exactly `s`, prints its length, changes no other file, closes both
-- descriptors and ends with exit code 0.
pub first_server_main-ServerStored :
    (os os₁ os₂ : Os) (fd t : ℕ) (d : Disk) (s : Bytes) (arrivals : List Arrival)
    → create_server_socket os ≡ (some fd, os₁)
    → accept_client fd os₁ ≡ (some t, os₂)
    → MayWrite d.permissions (codes "output.txt")
    → Delivers arrivals s
    → ServerStored os d s (first_server_main os arrivals d)
unfolding first_server_main
first_server_main-ServerStored os os₁ os₂ fd t d s arrivals listens accepts may g =
    subst (λ r. ServerStored os d s (first_server_listening arrivals d r)) (sym listens)
      (subst (λ r. ServerStored os d s (first_server_accepted fd arrivals d r)) (sym accepts)
        (subst (λ o. ServerStored os d s (first_server_opened fd t os₂ arrivals d o))
          (sym (open_out-put d (codes "output.txt") may))
          (stored_server fd t os os₁ os₂ d s arrivals
            (subst (Opens os) listens (create_server_socket-Opens os))
            (accept_client-OneMore fd t os₁ os₂ accepts) may g)))
