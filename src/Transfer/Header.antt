-- ===== src/Transfer/Header.antt =====
-- src/peer/peer.cpp, `readChunkHeader`: the header line is cut out of the bytes that arrive.
use ai_optimized_distributed.Base.{
  ℕ, zero, suc, ◌+◌, ◌≤◌, ◌<◌, ◌≡◌, ◌≢◌, refl, ap, sym, subst, ◌∙◌, Option, none, some, List, [],
  ◌∷◌, ◌++◌, append_assoc, Bytes, arith, All, length, length-append,
}
use ai_optimized_distributed.Chunks.{k_transfer_buffer_size}
use ai_optimized_distributed.Socket.{Arrival, Received, got, closed, failed, recv}
use ai_optimized_distributed.Socket.Receiving.{Delivers, Progresses, recv-Progresses}
use ai_optimized_distributed.Transfer.{
  HeaderResult, stop_or_go, header_round, prepend, break_line, max_header, header_loop,
  read_chunk_header,
}

abbrev nl : ℕ
nl = b'\n'

abbrev pub NoNewline : Bytes → Type 0
NoNewline = All (λ c. c ≢ b'\n')

-- A part `x` of a stream `line ++ nl ∷ rest`, of which `t` is still to come, either lies within the
-- line or is cut right behind its newline.
abbrev Breaks : Bytes → Bytes → Bytes → Bytes → Option (Bytes × Bytes) → Type 0
Breaks x t line rest none = (u : Bytes) × (line ≡ x ++ u)
Breaks x t line rest (some (l, r)) = (l ≡ line ++ nl ∷ []) × (r ++ t ≡ rest)

Breaks-cons :
    (c : ℕ) (x t line rest : Bytes) (o : Option (Bytes × Bytes))
    → Breaks x t line rest o
    → Breaks (c ∷ x) t (c ∷ line) rest (prepend c o)
Breaks-cons c x t line rest none (u, e) = (u, ap (λ s. c ∷ s) e)
Breaks-cons c x t line rest (some (l, r)) (e, f) = (ap (λ s. c ∷ s) e, f)

break_line-cons : (c : ℕ) (x : Bytes) → c ≢ nl → break_line (c ∷ x) ≡ prepend c (break_line x)
unfolding break_line
break_line-cons c x h = ground arith

break_line-nl : (c : ℕ) (x : Bytes) → c ≡ nl → break_line (c ∷ x) ≡ some (c ∷ [], x)
unfolding break_line
break_line-nl c x h = ground arith

break_line-Breaks :
    (x t line rest : Bytes)
    → NoNewline line
    → x ++ t ≡ line ++ nl ∷ rest
    → Breaks x t line rest (break_line x)
break_line-Breaks [] t line rest h e = unfold break_line in (line, refl)
break_line-Breaks (c ∷ x) t [] rest h e =
    let p : c ≡ nl = cc in
    let q : x ++ t ≡ rest = cc in rw (break_line-nl c x p) (ap (λ d. d ∷ []) p, q)
break_line-Breaks (c ∷ x) t (a ∷ line) rest (k, h) e =
    let p : c ≡ a = cc in
    let q : x ++ t ≡ line ++ nl ∷ rest = cc in
    subst (λ d. Breaks (c ∷ x) t (d ∷ line) rest (break_line (c ∷ x))) p
      (rw (break_line-cons c x (λ same. k (sym p ∙ same)))
        (Breaks-cons c x t line rest (break_line x) (break_line-Breaks x t line rest h q)))

-- The header came whole, and what came with it and what is still to come make up the rest.
abbrev pub Reads : Bytes → Bytes → HeaderResult → Type 0
Reads line rest (none, arrivals) = ⊥
Reads line rest (some (l, r), arrivals) =
    (l ≡ line ++ b'\n' ∷ []) × ((t : Bytes) × (r ++ t ≡ rest) × Delivers arrivals t)

-- While the part read so far lies within the line, there is more to come.
more_to_come :
    (acc s line rest : Bytes) (u : Bytes) → line ≡ acc ++ u → acc ++ s ≡ line ++ nl ∷ rest → s ≢ []
more_to_come acc s line rest u e f g = absurd (
    omega (
      arith,
      ap length f,
      ap length e,
      ap length g,
      length-append acc s,
      length-append acc u,
      length-append line (nl ∷ rest),
    ))

append-length-le : (acc line u : Bytes) → line ≡ acc ++ u → length acc ≤ length line
append-length-le acc line u e = omega (arith, ap length e, length-append acc u)

module _ (line rest : Bytes) (fits : length line ≤ max_header) (clean : NoNewline line) where
  -- The loop is right from a longer part on.
  abbrev GoesOn : (List Arrival → Bytes → HeaderResult) → ℕ → Type 0
  GoesOn k n =
      (arrivals : List Arrival) (acc s u : Bytes)
      → n < length acc
      → line ≡ acc ++ u
      → acc ++ s ≡ line ++ nl ∷ rest
      → Delivers arrivals s
      → Reads line rest (k arrivals acc)

  no_line_yet :
      (k : List Arrival → Bytes → HeaderResult) (acc : Bytes) (arrivals : List Arrival)
      → length acc ≤ length line
      → stop_or_go k acc arrivals none ≡ k arrivals acc
  no_line_yet k acc arrivals h = ground (arith, fits)

  stop_or_go-Reads :
      (k : List Arrival → Bytes → HeaderResult) (n : ℕ) (acc t : Bytes) (arrivals : List Arrival)
      (o : Option (Bytes × Bytes))
      → GoesOn k n
      → n < length acc
      → acc ++ t ≡ line ++ nl ∷ rest
      → Delivers arrivals t
      → Breaks acc t line rest o
      → Reads line rest (stop_or_go k acc arrivals o)
  stop_or_go-Reads k n acc t arrivals (some (l, r)) go more e d (p, q) = (p, (t, q, d))
  stop_or_go-Reads k n acc t arrivals none go more e d (u, p) =
      subst (Reads line rest) (sym (no_line_yet k acc arrivals (append-length-le acc line u p)))
        (go arrivals acc t u more p e d)

  header_round-Reads :
      (k : List Arrival → Bytes → HeaderResult) (acc s : Bytes) (r : Received × List Arrival)
      → GoesOn k (length acc)
      → acc ++ s ≡ line ++ nl ∷ rest
      → Progresses k_transfer_buffer_size s r
      → Reads line rest (header_round k acc r)
  header_round-Reads k acc s (closed, arrivals) go e p = absurd p
  header_round-Reads k acc s (failed, arrivals) go e p = absurd p
  header_round-Reads k acc s (got b, arrivals) go e (t, cut, some_bytes, _, d) =
      let whole : (acc ++ b) ++ t ≡ line ++ nl ∷ rest =
        append_assoc acc b t ∙ ap (λ x. acc ++ x) (sym cut) ∙ e in
      stop_or_go-Reads k (length acc) (acc ++ b) t arrivals (break_line (acc ++ b)) go
        (omega (arith, length-append acc b)) whole d
        (break_line-Breaks (acc ++ b) t line rest clean whole)

  header_loop-Reads :
      (fuel : ℕ) (arrivals : List Arrival) (acc s u : Bytes)
      → max_header < fuel + length acc
      → line ≡ acc ++ u
      → acc ++ s ≡ line ++ nl ∷ rest
      → Delivers arrivals s
      → Reads line rest (header_loop fuel arrivals acc)
  unfolding header_loop
  header_loop-Reads zero arrivals acc s u p e f d =
      absurd (omega (arith, fits, append-length-le acc line u e))
  header_loop-Reads (suc fuel) arrivals acc s u p e f d =
      header_round-Reads (λ a b. header_loop fuel a b) acc s (recv k_transfer_buffer_size arrivals)
        (λ a b t v more g h i. header_loop-Reads fuel a b t v (omega arith) g h i) f
        (recv-Progresses k_transfer_buffer_size arrivals s (omega arith)
          (more_to_come acc s line rest u e f) d)

  -- However the network cuts the bytes into pieces, a header line of at most 8192 bytes is read
  -- whole and alone, and nothing of what follows it is lost: what came with it, with what is still
  -- to come, is the rest.
  pub read_chunk_header-Reads :
      (arrivals : List Arrival)
      → Delivers arrivals (line ++ b'\n' ∷ rest)
      → Reads line rest (read_chunk_header arrivals)
  unfolding read_chunk_header
  read_chunk_header-Reads arrivals d =
      header_loop-Reads (max_header + 1) arrivals [] (line ++ nl ∷ rest) line (omega arith) refl
        refl d
