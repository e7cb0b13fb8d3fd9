-- ===== src/FileTransfer/Whole.antt =====
-- src/file/fileTransfer.cpp: `sendFile` at one end of a connection and `recvFile` at the other.
use ai_optimized_distributed.Base.{
  All, ◌≤◌, ◌<◌, ℕ, zero, suc, ◌+◌, ◌<◌, ◌≡◌, ◌≢◌, refl, ap, sym, subst, ◌∙◌, Bool, true, some,
  List, [], ◌++◌, append_assoc, append-nil, Bytes, length, length-append, arith,
}
use ai_optimized_distributed.Base.Decimal.{ℤ, pos, negsuc}
use ai_optimized_distributed.Disk.{
  Disk, put, MayWrite, MayRead, open_in-some, open_out-put, files-put_self, files-put_ne,
  permissions-put, write-put,
}
use ai_optimized_distributed.Socket.{Arrival, Received, got, closed, failed, recv, pending, Socket}
use ai_optimized_distributed.Socket.Receiving.{Delivers, Takes, recv-Takes}
use ai_optimized_distributed.FileTransfer.Sending.{
  SendReport, send_file-SendReport, send_file_total,
}
use ai_optimized_distributed.FileTransfer.{
  write_unchecked, Stored, receive_round, receive_rest, recv_opened, recv_file, send_file,
  k_transfer_buffer_size,
}

-- All of `s` was counted and written behind `t`, and no other file has changed.
abbrev pub Stores : Bytes → Disk → ℕ → Bytes → Bytes → Stored → Type 0
Stores p d total t s (n, (rest, d')) =
    (n ≡ total + length s)
    × (d'.files p ≡ some (t ++ s))
    × ((q : Bytes) → q ≢ p → d'.files q ≡ d.files q)

Stores-put :
    (p : Bytes) (d : Disk) (total : ℕ) (t b u s : Bytes) (r : Stored)
    → s ≡ b ++ u
    → Stores p (put d p (some (t ++ b))) (total + length b) (t ++ b) u r
    → Stores p d total t s r
Stores-put p d total t b u s (n, (rest, d')) e (count, held, others) = (
  omega (arith, count, ap length e, length-append b u),
  held ∙ ap some (append_assoc t b u ∙ ap (λ x. t ++ x) (sym e)),
  (λ q h. others q h ∙ files-put_ne d p q (some (t ++ b)) h),
)

module _ (p : Bytes) where
  abbrev StoresLater : (ℕ → List Arrival → Bool × Disk → Stored) → ℕ → Type 0
  StoresLater go_on limit =
      (total : ℕ) (rest : List Arrival) (d : Disk) (t s : Bytes)
      → pending rest < limit
      → MayWrite d.permissions p
      → d.files p ≡ some t
      → Delivers rest s
      → Stores p d total t s (go_on total rest (true, d))

  receive_round-Stores :
      (go_on : ℕ → List Arrival → Bool × Disk → Stored) (limit total : ℕ) (d : Disk) (t s : Bytes)
      → (r : Received × List Arrival) → StoresLater go_on limit
      → MayWrite d.permissions p
      → d.files p ≡ some t
      → Takes limit s r
      → Stores p d total t s (receive_round go_on p total (true, d) r)
  receive_round-Stores go_on limit total d t s (failed, rest) ih a f g = absurd g
  receive_round-Stores go_on limit total d t s (closed, rest) ih a f e = (
    omega (arith, ap length e),
    f ∙ ap some (sym (append-nil t) ∙ ap (λ x. t ++ x) (sym e)),
    (λ q h. refl),
  )
  receive_round-Stores go_on limit total d t s (got b, rest) ih a f (u, e, more, fewer) =
      subst (λ w. Stores p d total t s (go_on (total + length b) rest (write_unchecked w d)))
        (sym (write-put d p b t a f))
        (Stores-put p d total t b u s
          (go_on (total + length b) rest (true, put d p (some (t ++ b)))) e
          (ih (total + length b) rest (put d p (some (t ++ b))) (t ++ b) u fewer
            (subst (λ x. MayWrite x p) (sym (permissions-put d p (some (t ++ b)))) a)
            (files-put_self d p (some (t ++ b))) more))

  pub receive_rest-Stores : (fuel size : ℕ) → StoresLater (receive_rest fuel (suc size) p) fuel
  unfolding receive_rest
  receive_rest-Stores zero size total rest d t s h a f g = absurd (omega (arith, h))
  receive_rest-Stores (suc fuel) size total rest d t s h a f g =
      receive_round-Stores (λ n rest' out. receive_rest fuel (suc size) p n rest' out)
        (pending rest) total d t s (recv (suc size) rest)
        (λ n rest' d' t' s' l. receive_rest-Stores fuel size n rest' d' t' s' (omega (arith, l, h)))
        a f (recv-Takes size rest s g)

-- All of a delivered text is stored and reported.
recv_file-Delivers :
    (arrivals : List Arrival) (d : Disk) (out s : Bytes)
    → MayWrite d.permissions out
    → Delivers arrivals s
    → ((recv_file arrivals d out).0 ≡ pos (length s))
      × ((recv_file arrivals d out).1.1.files out ≡ some s)
      × ((q : Bytes) → q ≢ out → (recv_file arrivals d out).1.1.files q ≡ d.files q)
unfolding recv_file
recv_file-Delivers arrivals d out s a g =
    let d' = put d out (some []) in
    let kept : MayWrite d'.permissions out =
      subst (λ x. MayWrite x out) (sym (permissions-put d out (some []))) a in
    let r =
      receive_rest (suc (pending arrivals)) k_transfer_buffer_size out 0 arrivals (true, d') in
    let (count, held, others) =
      receive_rest-Stores out (suc (pending arrivals)) 16383 0 arrivals d' [] s (omega arith) kept
        (files-put_self d out (some [])) g in
    subst
      (λ o.
        ((recv_opened arrivals d out o).0 ≡ pos (length s))
        × ((recv_opened arrivals d out o).1.1.files out ≡ some s)
        × ((q : Bytes) → q ≢ out → (recv_opened arrivals d out o).1.1.files q ≡ d.files q))
      (sym (open_out-put d out a))
      (ap pos (omega (arith, count)), held, (λ q h. others q h ∙ files-put_ne d out q (some []) h))

-- What went out where the whole length was reported.
reported_whole :
    (sock : Socket) (s : Bytes) (r : ℤ × Socket)
    → SendReport sock (some s) r
    → r.0 ≡ pos (length s)
    → r.1.sent ≡ sock.sent ++ s
reported_whole sock s (negsuc m, sock') (e, same) h = cc
reported_whole sock s (pos m, sock') (s', e, (part, rest, split, out, few, all)) h =
    let same : s ≡ s' = cc e in
    let count : m ≡ length s = cc h in
    let whole : rest ≡ [] = all (omega (arith, count, ap length same)) in
    out
    ∙ ap (λ t. sock.sent ++ t)
        (sym (append-nil part) ∙ ap (λ t. part ++ t) (sym whole) ∙ sym split ∙ sym same)

-- Where the whole length is reported, the file arrives.
transfer_reported :
    (sock : Socket) (d d' : Disk) (path out s : Bytes) (arrivals : List Arrival)
    → MayRead d.permissions path
    → d.files path ≡ some s
    → MayWrite d'.permissions out
    → sock.sent ≡ []
    → (send_file sock d path).0 ≡ pos (length s)
    → Delivers arrivals (send_file sock d path).1.sent
    → ((recv_file arrivals d' out).0 ≡ (send_file sock d path).0)
      × ((recv_file arrivals d' out).1.1.files out ≡ d.files path)
      × ((q : Bytes) → q ≢ out → (recv_file arrivals d' out).1.1.files q ≡ d'.files q)
transfer_reported sock d d' path out s arrivals may here a new reported g =
    let whole : (send_file sock d path).1.sent ≡ s =
      reported_whole sock s (send_file sock d path)
        (subst (λ c. SendReport sock c (send_file sock d path)) (open_in-some d path s may here)
          (send_file-SendReport sock d path))
        reported
      ∙ ap (λ t. t ++ s) new in
    let (count, held, others) =
      recv_file-Delivers arrivals d' out s a (subst (Delivers arrivals) whole g) in
    (count ∙ sym reported, held ∙ sym here, others)

-- A file goes over a connection whole: where `sendFile` sends a readable file on a new connection that takes
-- a byte or more at each call of `send`, for as many calls as the file has bytes, and the other end
-- receives what was sent, cut in any way, and may write its output, both calls return the file's length, the
-- output is exactly the file, and every other file there is as it was.
pub send_file-recv_file :
    (sock : Socket) (d d' : Disk) (path out s : Bytes) (arrivals : List Arrival)
    → MayRead d.permissions path
    → d.files path ≡ some s
    → MayWrite d'.permissions out
    → sock.sent ≡ []
    → All (λ k. 0 < k) sock.takes
    → length s ≤ length sock.takes
    → Delivers arrivals (send_file sock d path).1.sent
    → ((send_file sock d path).0 ≡ pos (length s))
      × ((recv_file arrivals d' out).0 ≡ pos (length s))
      × ((recv_file arrivals d' out).1.1.files out ≡ d.files path)
      × ((q : Bytes) → q ≢ out → (recv_file arrivals d' out).1.1.files q ≡ d'.files q)
send_file-recv_file sock d d' path out s arrivals may here a new p enough g =
    let reported = send_file_total sock d path s (open_in-some d path s may here) p enough in
    let (count, held, others) =
      transfer_reported sock d d' path out s arrivals may here a new reported g in
    (reported, count ∙ reported, held, others)
