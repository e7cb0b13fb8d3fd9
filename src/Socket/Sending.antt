-- ===== src/Socket/Sending.antt =====
-- src/network/socketUtils.cpp, `sendAll`: all bytes in order, or an error after a part of them.
use ai_optimized_distributed.Base.{
  ℕ, zero, suc, ◌+◌, ◌≤◌, ◌<◌, ◌≡◌, refl, ap, sym, ◌∙◌, Option, none, some, List, [], ◌∷◌, ◌++◌,
  append_assoc, append-nil, Bytes, take, drop, take-append-drop, length, length-drop, arith, All,
  min,
}
use ai_optimized_distributed.Socket.{Socket, send_loop, send_all}

-- All of `s` went out behind what was sent, or an error came when `rest` of it was still to go.
abbrev pub Sends : ℕ → Bytes → Bytes → Option ℕ × (List ℕ × Bytes) → Type 0
Sends n s sent (some m, (ks, sent')) = (m ≡ n + length s) × (sent' ≡ sent ++ s)
Sends n s sent (none, (ks, sent')) =
    (part : Bytes) × (rest : Bytes) × (s ≡ part ++ rest)
    × (0 < length rest)
    × (sent' ≡ sent ++ part)

length-take-drop : (k : ℕ) (s : Bytes) → min k (length s) + length (drop k s) ≡ length s
length-take-drop k s = omega (arith, length-drop k s)

Sends-step :
    (n k : ℕ) (s sent : Bytes) (r : Option ℕ × (List ℕ × Bytes))
    → Sends (n + min k (length s)) (drop k s) (sent ++ take k s) r
    → Sends n s sent r
Sends-step n k s sent (some m, (ks, sent')) (count, all) = (
  omega (arith, length-take-drop k s),
  all ∙ append_assoc sent (take k s) (drop k s) ∙ ap (λ t. sent ++ t) (take-append-drop k s),
)
Sends-step n k s sent (none, (ks, sent')) (part, rest, split, more, out) = (
  take k s ++ part,
  rest,
  sym (take-append-drop k s)
      ∙ ap (λ t. take k s ++ t) split
      ∙ sym (append_assoc (take k s) part rest),
  more,
  out ∙ append_assoc sent (take k s) part,
)

send_loop-Sends : (ks : List ℕ) (n : ℕ) (s sent : Bytes) → Sends n s sent (send_loop ks n s sent)
unfolding send_loop
send_loop-Sends [] n [] sent = (omega arith, sym (append-nil sent))
send_loop-Sends (k ∷ ks) n [] sent = (omega arith, sym (append-nil sent))
send_loop-Sends [] n (c ∷ s) sent = ([], c ∷ s, refl, omega arith, sym (append-nil sent))
send_loop-Sends (zero ∷ ks) n (c ∷ s) sent = ([], c ∷ s, refl, omega arith, sym (append-nil sent))
send_loop-Sends (suc k ∷ ks) n (c ∷ s) sent = Sends-step n (suc k) (c ∷ s) sent _ (
    send_loop-Sends ks (n + min (suc k) (length (c ∷ s))) (drop k s) (sent ++ take (suc k) (c ∷ s)))

abbrev pub SendResult : Socket → Bytes → Option ℕ × Socket → Type 0
SendResult sock s (r, sock') =
    Sends 0 s sock.sent (r, (sock'.takes, sock'.sent)) × (sock'.incoming ≡ sock.incoming)

-- On success the result is the length of the buffer and exactly its bytes went out, in order; on
-- failure a proper part of it, from the front, went out. What arrives is not touched.
pub send_all-SendResult : (sock : Socket) (s : Bytes) → SendResult sock s (send_all sock s)
unfolding send_all
send_all-SendResult sock s = (send_loop-Sends sock.takes 0 s sock.sent, refl)

send_loop_total :
    (ks : List ℕ) (n : ℕ) (s sent : Bytes)
    → All (λ k. 0 < k) ks
    → length s ≤ length ks
    → (m : ℕ) × ((send_loop ks n s sent).0 ≡ some m)
unfolding send_loop
send_loop_total [] n [] sent p h = (n, refl)
send_loop_total (k ∷ ks) n [] sent p h = (n, refl)
send_loop_total [] n (c ∷ s) sent p h = elim h [ ]
send_loop_total (zero ∷ ks) n (c ∷ s) sent (p, ps) h = elim p [ ]
send_loop_total (suc k ∷ ks) n (c ∷ s) sent (p, ps) h =
    send_loop_total ks (n + min (suc k) (length (c ∷ s))) (drop k s) (sent ++ take (suc k) (c ∷ s))
      ps (omega (arith, length-drop k s))

-- A socket that takes at least one byte at each call, for as many calls as there are bytes, gets
-- the whole buffer out: the loop ends and `sendAll` returns the buffer's length.
pub send_all_total :
    (sock : Socket) (s : Bytes)
    → All (λ k. 0 < k) sock.takes
    → length s ≤ length sock.takes
    → ((send_all sock s).0 ≡ some (length s)) × ((send_all sock s).1.sent ≡ sock.sent ++ s)
unfolding send_all
send_all_total sock s p h =
    let (m, e) = send_loop_total sock.takes 0 s sock.sent p h in
    success (send_loop sock.takes 0 s sock.sent) m e (send_loop-Sends sock.takes 0 s sock.sent)
  where
    success :
        (r : Option ℕ × (List ℕ × Bytes)) (m : ℕ)
        → r.0 ≡ some m
        → Sends 0 s sock.sent r
        → (r.0 ≡ some (length s)) × (r.1.1 ≡ sock.sent ++ s)
    success (some m', (ks, sent')) m e (count, all) = (ap some (omega (arith, count)), all)
    success (none, (ks, sent')) m e g = cc
