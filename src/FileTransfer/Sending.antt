-- ===== src/FileTransfer/Sending.antt =====
-- src/file/fileTransfer.cpp, `sendFile`: what goes out and what is reported.
use ai_optimized_distributed.Base.{
  zero, suc, min, take, drop, length-drop, ◌<◌, All, ℕ, ◌+◌, ◌≤◌, ◌≡◌, refl, ap, sym, subst, ◌∙◌,
  Option, none, some, List, [], ◌∷◌, ◌++◌, append_assoc, append-nil, Bytes, length, length-append,
  arith,
}
use ai_optimized_distributed.Base.Decimal.{ℤ, pos, negsuc}
use ai_optimized_distributed.Disk.{Disk, open_in}
use ai_optimized_distributed.Disk.Blocks.{blocks, concat, concat-blocks}
use ai_optimized_distributed.Socket.{Socket, send_loop, send_all}
use ai_optimized_distributed.Socket.Sending.{SendResult, send_all-SendResult}
use ai_optimized_distributed.FileTransfer.{
  after_piece, send_rest, send_file, as_long_long, send_opened, k_transfer_buffer_size,
}

-- A part of `s` went out, from the front and in order; the count is of no more than that part, and it is
-- of all of `s` only if all went out.
abbrev pub SendsPart : Socket → ℕ → Bytes → ℕ × Socket → Type 0
SendsPart sock total s (n, sock') =
    (part : Bytes) × (rest : Bytes) × (s ≡ part ++ rest)
    × (sock'.sent ≡ sock.sent ++ part)
    × (n ≤ total + length part)
    × (n ≡ total + length s → rest ≡ [])

nothing_left : (rest : Bytes) → length rest ≡ 0 → rest ≡ []
nothing_left [] h = refl
nothing_left (c ∷ s) h = absurd (omega (arith, h))

after_piece-SendsPart :
    (go_on : Socket → ℕ → ℕ × Socket) (sock : Socket) (total : ℕ) (b s : Bytes)
    (r : Option ℕ × Socket)
    → ((sock' : Socket) (m : ℕ) → SendsPart sock' m s (go_on sock' m))
    → SendResult sock b r
    → SendsPart sock total (b ++ s) (after_piece go_on total (length b) r)
after_piece-SendsPart go_on sock total b s (none, sock') ih ((part, rest, split, more, out), same) =
    (
      part,
      rest ++ s,
      ap (λ t. t ++ s) split ∙ append_assoc part rest s,
      out,
      omega (arith),
      (λ e.
          absurd
            (omega (arith, more, e, length-append b s, ap length split, length-append part rest))),
    )
after_piece-SendsPart go_on sock total b s (some n, sock') ih ((count, out), same) =
    by_rest (go_on sock' (total + length b)) (ih sock' (total + length b))
  where
    by_rest :
        (r : ℕ × Socket) → SendsPart sock' (total + length b) s r → SendsPart sock total (b ++ s) r
    by_rest (m, sock₂) (part, rest, split, out', few, all) = (
      b ++ part,
      rest,
      ap (λ t. b ++ t) split ∙ sym (append_assoc b part rest),
      out' ∙ ap (λ t. t ++ part) out ∙ append_assoc sock.sent b part,
      omega (arith, few, length-append b part),
      (λ e. all (omega (arith, e, length-append b s))),
    )

send_rest-SendsPart :
    (bs : List Bytes) (sock : Socket) (total : ℕ)
    → SendsPart sock total (concat bs) (send_rest sock total bs)
unfolding send_rest
send_rest-SendsPart [] sock total =
    ([], [], refl, sym (append-nil sock.sent), omega arith, (λ e. refl))
send_rest-SendsPart (b ∷ bs) sock total =
    after_piece-SendsPart (λ sock' m. send_rest sock' m bs) sock total b (concat bs)
      (send_all sock b) (send_rest-SendsPart bs) (send_all-SendResult sock b)

-- What `sendFile` promises of its result, where `contents` is what the file that it opens holds.
abbrev pub SendReport : Socket → Option Bytes → ℤ × Socket → Type 0
SendReport sock contents (pos n, sock') =
    (s : Bytes) × (contents ≡ some s) × SendsPart sock 0 s (n, sock')
SendReport sock contents (negsuc n, sock') = (contents ≡ none) × (sock' ≡ sock)

as_long_long-SendReport :
    (sock : Socket) (s : Bytes) (r : ℕ × Socket)
    → SendsPart sock 0 s r
    → SendReport sock (some s) (as_long_long r)
as_long_long-SendReport sock s (n, sock') h = (s, refl, h)

send_opened-SendReport :
    (sock : Socket) (opened : Option Bytes) → SendReport sock opened (send_opened sock opened)
send_opened-SendReport sock none = (refl, refl)
send_opened-SendReport sock (some s) =
    as_long_long-SendReport sock s (send_rest sock 0 (blocks k_transfer_buffer_size s)) (
      subst (λ t. SendsPart sock 0 t (send_rest sock 0 (blocks k_transfer_buffer_size s)))
        (concat-blocks k_transfer_buffer_size s (omega arith))
        (send_rest-SendsPart (blocks k_transfer_buffer_size s) sock 0))

-- `sendFile` reports -1 exactly if the file cannot be opened, and then nothing goes out. In
-- every other case a part of the file goes out, from the front and in order; the number that is reported
-- is not above the length of that part, and if it is the file's length then the whole file went out.
pub send_file-SendReport :
    (sock : Socket) (d : Disk) (path : Bytes)
    → SendReport sock (open_in d path) (send_file sock d path)
unfolding send_file
send_file-SendReport sock d path = send_opened-SendReport sock (open_in d path)

-- The calls of `send` that are left after a text went out are enough for what else they were enough for.
Left : List ℕ → Bytes → Option ℕ × (List ℕ × Bytes) → Type 0
Left ks s (none, rest) = ⊥
Left ks s (some m, (ks', sent')) = All (λ k. 0 < k) ks' × (length ks ≤ length ks' + length s)

Left-step :
    (k : ℕ) (ks : List ℕ) (s t : Bytes) (r : Option ℕ × (List ℕ × Bytes))
    → length t < length s
    → Left ks t r
    → Left (k ∷ ks) s r
unfolding Left
Left-step k ks s t (none, rest) h l = l
Left-step k ks s t (some m, (ks', sent')) h (good, many) = (good, omega (arith, many, h))

send_loop-Left :
    (ks : List ℕ) (n : ℕ) (s sent : Bytes)
    → All (λ k. 0 < k) ks
    → length s ≤ length ks
    → Left ks s (send_loop ks n s sent)
unfolding send_loop Left
send_loop-Left [] n [] sent p h = (tt, omega arith)
send_loop-Left (k ∷ ks) n [] sent p h = (p, omega arith)
send_loop-Left [] n (c ∷ s) sent p h = absurd (omega (arith, h))
send_loop-Left (zero ∷ ks) n (c ∷ s) sent (p, ps) h = absurd (omega (arith, p))
send_loop-Left (suc k ∷ ks) n (c ∷ s) sent (p, ps) h =
    Left-step (suc k) ks (c ∷ s) (drop k s) _ (omega (arith, length-drop k s)) (
      send_loop-Left ks (n + min (suc k) (length (c ∷ s))) (drop k s) (sent ++ take (suc k) (c ∷ s))
        ps (omega (arith, h, length-drop k s)))

after_piece_total :
    (go_on : Socket → ℕ → ℕ × Socket) (ks : List ℕ) (total : ℕ) (b s : Bytes)
    (r : Option ℕ × Socket)
    → ((sock : Socket) (m : ℕ)
        → All (λ k. 0 < k) sock.takes
        → length s ≤ length sock.takes
        → (go_on sock m).0 ≡ m + length s)
    → length (b ++ s) ≤ length ks
    → Left ks b (r.0, (r.1.takes, r.1.sent))
    → (after_piece go_on total (length b) r).0 ≡ total + length (b ++ s)
unfolding Left
after_piece_total go_on ks total b s (none, sock) ih h l = absurd l
after_piece_total go_on ks total b s (some m, sock) ih h (good, many) =
    let rest : (go_on sock (total + length b)).0 ≡ (total + length b) + length s =
      ih sock (total + length b) good (omega (arith, h, many, length-append b s)) in
    omega (arith, rest, length-append b s)

send_rest_total :
    (bs : List Bytes) (sock : Socket) (total : ℕ)
    → All (λ k. 0 < k) sock.takes
    → length (concat bs) ≤ length sock.takes
    → (send_rest sock total bs).0 ≡ total + length (concat bs)
unfolding send_rest
send_rest_total [] sock total p h = omega arith
send_rest_total (b ∷ bs) sock total p h =
    after_piece_total (λ sock' m. send_rest sock' m bs) sock.takes total b (concat bs)
      (send_all sock b) (send_rest_total bs) h
      (unfold send_all in
        send_loop-Left sock.takes 0 b sock.sent p (omega (arith, h, length-append b (concat bs))))

send_opened_total :
    (sock : Socket) (s : Bytes) (r : ℕ × Socket)
    → r.0 ≡ length s
    → (as_long_long r).0 ≡ pos (length s)
send_opened_total sock s (n, sock') h = ap pos h

-- Where every call of `send` takes a byte or more, for as many calls as the file has bytes, the whole
-- length is reported.
pub send_file_total :
    (sock : Socket) (d : Disk) (path s : Bytes)
    → open_in d path ≡ some s
    → All (λ k. 0 < k) sock.takes
    → length s ≤ length sock.takes
    → (send_file sock d path).0 ≡ pos (length s)
unfolding send_file
send_file_total sock d path s e p h =
    let bs = blocks k_transfer_buffer_size s in
    let whole : concat bs ≡ s = concat-blocks k_transfer_buffer_size s (omega arith) in
    let fits : length (concat bs) ≤ length sock.takes =
      subst (λ t. length t ≤ length sock.takes) (sym whole) h in
    ap (λ o. (send_opened sock o).0) e
    ∙ send_opened_total sock s (send_rest sock 0 bs)
        (send_rest_total bs sock 0 p fits ∙ omega (arith, ap length whole))
