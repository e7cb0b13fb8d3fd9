-- ===== src/Transfer/Receive.antt =====
-- src/peer/peer.cpp, `receiveChunkData`: what lies at the output path afterwards.
use ai_optimized_distributed.Base.{
  ℕ, zero, suc, ◌+◌, ◌-◌, ◌≤◌, ◌≡◌, ◌≢◌, refl, ap, sym, subst, ◌∙◌, inl, inr, Bool, true, false,
  Option, none, some, List, [], ◌∷◌, ◌++◌, Bytes, arith, length, length-append, length-take, take,
  Option-cases, min, bytes_eq→eq,
}
use ai_optimized_distributed.Chunks.{k_transfer_buffer_size}
use ai_optimized_distributed.Disk.{
  Disk, open_out, write, remove, files-put_self, contents_of, open_out-allowed, write-eq,
  open_out-eq,
}
use ai_optimized_distributed.Hash.{Evp, compute_file_sha256}
use ai_optimized_distributed.Socket.{Arrival, arrives, fails, Received, got, closed, failed, recv}
use ai_optimized_distributed.Transfer.{
  Outcome, after_write, receive_round, receive_loop, after_initial, write_initial, keep_or_remove,
  hash_matches, check_hash, then_check, receive_body, receive_chunk_data,
}

-- One call of `recv` gives no more than was asked for.
abbrev Fits : ℕ → Received × List Arrival → Type 0
Fits n (got b, rest) = length b ≤ n
Fits n (closed, rest) = Unit {0}
Fits n (failed, rest) = Unit {0}

recv-Fits : (n : ℕ) (arrivals : List Arrival) → Fits n (recv n arrivals)
unfolding recv
recv-Fits n [] = tt
recv-Fits n (fails ∷ rest) = tt
recv-Fits n (arrives [] ∷ rest) = recv-Fits n rest
recv-Fits n (arrives (c ∷ b) ∷ rest) = omega (arith, length-take n (c ∷ b))

-- The file holds exactly `n` bytes if all went well.
abbrev Holds : Bytes → ℕ → Outcome → Type 0
Holds p n (true, (arrivals, d)) = length (contents_of (d.files p)) ≡ n
Holds p n (false, (arrivals, d)) = Unit {0}

length-write :
    (d d' : Disk) (p s : Bytes)
    → write d p s ≡ some d'
    → length (contents_of (d'.files p)) ≡ length (contents_of (d.files p)) + length s
length-write d d' p s e =
    let eq : d'.files p ≡ some (contents_of (d.files p) ++ s) =
      ap (λ x. x.files p) (write-eq d d' p s e)
      ∙ files-put_self d p (some (contents_of (d.files p) ++ s)) in
    ap (λ c. length (contents_of c)) eq ∙ length-append (contents_of (d.files p)) s

module _ (p : Bytes) where
  abbrev HoldsLater : (ℕ → List Arrival → Disk → Outcome) → Type 0
  HoldsLater k =
      (m : ℕ) (rest : List Arrival) (d : Disk)
      → Holds p (length (contents_of (d.files p)) + m) (k m rest d)

  receive_round-Holds :
      (k : ℕ → List Arrival → Disk → Outcome) (r n : ℕ) (d : Disk) (x : Received × List Arrival)
      → HoldsLater k
      → Fits n x
      → n ≤ r
      → Holds p (length (contents_of (d.files p)) + r) (receive_round k r p d x)
  receive_round-Holds k r n d (closed, rest) go f h = tt
  receive_round-Holds k r n d (failed, rest) go f h = tt
  receive_round-Holds k r n d (got b, rest) go f h = elim (Option-cases (write d p b)) [
    | inl e ↦
        subst
          (λ w.
            Holds p (length (contents_of (d.files p)) + r) (after_write k (r - length b) rest d w))
          (sym e) tt
    | inr (d', e) ↦
        subst
          (λ w.
            Holds p (length (contents_of (d.files p)) + r) (after_write k (r - length b) rest d w))
          (sym e)
          (subst (λ m. Holds p m (k (r - length b) rest d'))
            (omega (arith, length-write d d' p b e)) (go (r - length b) rest d'))
  ]

  receive_loop-Holds : (fuel : ℕ) → HoldsLater (receive_loop fuel p)
  unfolding receive_loop
  receive_loop-Holds zero zero rest d = omega arith
  receive_loop-Holds zero (suc m) rest d = tt
  receive_loop-Holds (suc fuel) zero rest d = omega arith
  receive_loop-Holds (suc fuel) (suc m) rest d =
      receive_round-Holds (λ a b c. receive_loop fuel p a b c) (suc m)
        (min k_transfer_buffer_size (suc m)) d _ (receive_loop-Holds fuel)
        (recv-Fits (min k_transfer_buffer_size (suc m)) rest) (omega arith)

-- What is written at first and what remains make up the chunk.
write_initial-Holds :
    (d d' : Disk) (p payload : Bytes) (size m : ℕ)
    → write_initial d p size payload ≡ some (m, d')
    → length (contents_of (d'.files p)) + m ≡ length (contents_of (d.files p)) + size
unfolding write_initial
write_initial-Holds d d' p [] size m e =
    let same : d ≡ d' = cc in let all : size ≡ m = cc in rw (← same, ← all)
write_initial-Holds d d' p (c ∷ s) size m e =
    let n : ℕ = min size (length (c ∷ s)) in
    elim (Option-cases (write d p (take n (c ∷ s)))) [
      | inl w ↦ cc (ap (λ o. after_initial (size - n) o) w, e)
      | inr (d₂, w) ↦
          let written : ◌≡◌ {A = Option (ℕ × Disk)} (some (size - n, d₂)) (some (m, d')) =
            ap (λ o. after_initial (size - n) o) (sym w) ∙ e in
          let same : d₂ ≡ d' = cc written in
          let rest : size - n ≡ m = cc written in
          subst
            (λ x. length (contents_of (x.files p)) + m ≡ length (contents_of (d.files p)) + size)
            same
            (omega (arith, length-write d d₂ p (take n (c ∷ s)) w, length-take n (c ∷ s), rest))
    ]

module _ (evp : Evp) where
  -- The promise on a result: either the file has the size and the hash of the header, or there is
  -- no file.
  abbrev pub IsIntact : Bytes → ℕ → Bytes → Outcome → Type 0
  IsIntact p size expected (true, (arrivals, d)) =
      (length (contents_of (d.files p)) ≡ size)
      × (expected ≢ [] → compute_file_sha256 evp d p ≡ some expected)
  IsIntact p size expected (false, (arrivals, d)) = d.files p ≡ none

  check_hash-eq :
      (d : Disk) (p expected : Bytes)
      → check_hash evp d p expected ≡ true
      → expected ≢ []
      → compute_file_sha256 evp d p ≡ some expected
  unfolding check_hash
  check_hash-eq d p [] h k = absurd (k refl)
  check_hash-eq d p (c ∷ s) h k = elim (Option-cases (compute_file_sha256 evp d p)) [
    | inl e ↦ cc (ap (hash_matches evp (c ∷ s)) e, h)
    | inr (g, e) ↦ e ∙ ap some (bytes_eq→eq g (c ∷ s) (sym (ap (hash_matches evp (c ∷ s)) e) ∙ h))
  ]

  -- Before the clean-up: a success is intact.
  abbrev Succeeds : Bytes → ℕ → Bytes → Outcome → Type 0
  Succeeds p size expected (true, s) = IsIntact p size expected (true, s)
  Succeeds p size expected (false, s) = Unit {0}

  then_check-Succeeds :
      (p : Bytes) (size : ℕ) (expected : Bytes) (r : Outcome)
      → Holds p size r
      → Succeeds p size expected (then_check evp p expected r)
  then_check-Succeeds p size expected (false, s) h = tt
  then_check-Succeeds p size expected (true, (arrivals, d)) h =
      checked (check_hash evp d p expected) refl
    where
      checked :
          (b : Bool) → check_hash evp d p expected ≡ b → Succeeds p size expected (b, (arrivals, d))
      checked true e = (h, check_hash-eq d p expected e)
      checked false e = tt

  keep_or_remove-IsIntact :
      (p : Bytes) (size : ℕ) (expected : Bytes) (r : Outcome)
      → Succeeds p size expected r
      → IsIntact p size expected (keep_or_remove p r)
  unfolding remove
  keep_or_remove-IsIntact p size expected (true, s) h = h
  keep_or_remove-IsIntact p size expected (false, (arrivals, d)) h = files-put_self d p none

  receive_body-Succeeds :
      (arrivals : List Arrival) (p : Bytes) (size : ℕ) (payload expected : Bytes) (d : Disk)
      → contents_of (d.files p) ≡ []
      → Succeeds p size expected (receive_body evp arrivals p size payload expected d)
  unfolding receive_body
  receive_body-Succeeds arrivals p size payload expected d h =
      elim (Option-cases (write_initial d p size payload)) [
        | inl e ↦ rw (receive_body, e) tt
        | inr ((m, d'), e) ↦
            rw (receive_body, e)
              (then_check-Succeeds p size expected (receive_loop m p m arrivals d') (
                subst (λ n. Holds p n (receive_loop m p m arrivals d'))
                  (omega (arith, write_initial-Holds d d' p payload size m e, ap length h))
                  (receive_loop-Holds p m m arrivals d')))
      ]

  -- Whatever arrives on the connection, and whether or not writes fail, on a disk where a file can
  -- be removed: if the output can be opened, then afterwards either the call succeeded and the file holds exactly as many bytes as
  -- the header said, with the hash that the header gave, if it gave one, or the call failed and no
  -- file is left at the path.
  pub receive_chunk_data-IsIntact :
      (arrivals : List Arrival) (output_path : Bytes) (chunk_size : ℕ) (payload expected : Bytes)
      (d : Disk)
      → d.can_write output_path ≡ true
      → IsIntact output_path chunk_size expected
          (receive_chunk_data evp arrivals output_path chunk_size payload expected d)
  unfolding receive_chunk_data
  receive_chunk_data-IsIntact arrivals p size payload expected d h =
      elim (Option-cases (open_out d p)) [
        | inl e ↦ cc (e, open_out-allowed d p h)
        | inr (d', e) ↦
            rw (receive_chunk_data, e)
              (keep_or_remove-IsIntact p size expected _ (
                receive_body-Succeeds arrivals p size payload expected d' (
                  ap (λ x. contents_of (x.files p)) (open_out-eq d d' p e)
                  ∙ ap contents_of (files-put_self d p (some [])))))
      ]
