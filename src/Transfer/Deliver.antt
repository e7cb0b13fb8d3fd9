-- ===== src/Transfer/Deliver.antt =====
-- src/peer/peer.cpp, `receiveChunkData`: a chunk that arrives whole is stored whole.
use ai_optimized_distributed.Base.{
  ℕ, zero, suc, ◌-◌, ◌≤◌, ◌≡◌, ◌≢◌, refl, ap, sym, subst, ◌∙◌, true, false, some, List, [], ◌∷◌,
  ◌++◌, append_assoc, append-nil, Bytes, arith, length, length-append, take, min, bytes_eq_refl,
}
use ai_optimized_distributed.Chunks.{k_transfer_buffer_size}
use ai_optimized_distributed.Disk.{
  Disk, write, put, MayWrite, MayRead, open_in-some, files-put_self, files-put_ne, permissions-put,
  open_out-put, write-put,
}
use ai_optimized_distributed.Hash.{Evp, EvpLaws, compute_file_sha256, compute_string_sha256}
use ai_optimized_distributed.Hash.Digest.{compute_file_sha256-string}
use ai_optimized_distributed.Socket.{Arrival, Received, got, closed, failed}
use ai_optimized_distributed.Socket.Receiving.{Delivers, Progresses, recv-Progresses}
use ai_optimized_distributed.Transfer.{
  Outcome, after_write, receive_round, receive_loop, after_initial, write_initial, keep_or_remove,
  hash_matches, check_hash, then_check, receive_body, receive_chunk_data,
}

-- A piece that is shorter than what is wanted is a part of it.
prefix_split :
    (b t want extra : Bytes)
    → want ++ extra ≡ b ++ t
    → length b ≤ length want
    → (w : Bytes) × (want ≡ b ++ w) × (t ≡ w ++ extra)
prefix_split [] t want extra e h = (want, refl, sym e)
prefix_split (c ∷ b) t [] extra e h = elim h [ ]
prefix_split (c ∷ b) t (a ∷ want) extra e h =
    let (w, p, q) = prefix_split b t want extra (cc e) (omega arith) in
    let same : a ≡ c = cc e in (w, cc (same, p), q)

-- The wanted bytes were all written behind `t`, and `extra` is still to come.
abbrev pub Gets : Bytes → Disk → Bytes → Bytes → Bytes → Outcome → Type 0
Gets p d t want extra (ok, (arrivals, d')) =
    (ok ≡ true)
    × (d'.files p ≡ some (t ++ want))
    × (d'.permissions ≡ d.permissions)
    × ((q : Bytes) → q ≢ p → d'.files q ≡ d.files q)
    × Delivers arrivals extra

Gets-put :
    (p : Bytes) (d : Disk) (t b w want extra : Bytes) (r : Outcome)
    → want ≡ b ++ w
    → Gets p (put d p (some (t ++ b))) (t ++ b) w extra r
    → Gets p d t want extra r
Gets-put p d t b w want extra (ok, (arrivals, d')) e (done, held, same, rest, more) = (
  done,
  held ∙ ap some (append_assoc t b w ∙ ap (λ x. t ++ x) (sym e)),
  same ∙ permissions-put d p (some (t ++ b)),
  (λ q h. rest q h ∙ files-put_ne d p q (some (t ++ b)) h),
  more,
)

module _ (p extra : Bytes) where
  abbrev GetsLater : (ℕ → List Arrival → Disk → Outcome) → ℕ → Type 0
  GetsLater k n =
      (m : ℕ) (rest : List Arrival) (d : Disk) (t want : Bytes)
      → m ≤ n
      → length want ≡ m
      → MayWrite d.permissions p
      → d.files p ≡ some t
      → Delivers rest (want ++ extra)
      → Gets p d t want extra (k m rest d)

  receive_round-Gets :
      (k : ℕ → List Arrival → Disk → Outcome) (r n : ℕ) (d : Disk) (t want : Bytes)
      (x : Received × List Arrival)
      → GetsLater k r
      → length want ≡ suc r
      → n ≤ suc r
      → MayWrite d.permissions p
      → d.files p ≡ some t
      → Progresses n (want ++ extra) x
      → Gets p d t want extra (receive_round k (suc r) p d x)
  receive_round-Gets k r n d t want (closed, rest) go e h a f g = absurd g
  receive_round-Gets k r n d t want (failed, rest) go e h a f g = absurd g
  receive_round-Gets k r n d t want (got b, rest) go e h a f (u, cut, some_bytes, small, more) =
      let (w, whole, tail) = prefix_split b u want extra cut (omega arith) in
      let d' = put d p (some (t ++ b)) in
      subst (λ o. Gets p d t want extra (after_write k (suc r - length b) rest d o))
        (sym (write-put d p b t a f))
        (Gets-put p d t b w want extra (k (suc r - length b) rest d') whole (
          go (suc r - length b) rest d' (t ++ b) w (omega arith)
            (omega (arith, ap length whole, length-append b w))
            (rw (permissions-put d p (some (t ++ b))) a) (files-put_self d p (some (t ++ b)))
            (subst (Delivers rest) tail more)))

  receive_loop-Gets : (fuel : ℕ) → GetsLater (receive_loop fuel p) fuel
  unfolding receive_loop
  receive_loop-Gets zero zero rest d t [] h e a f g =
      (refl, f ∙ ap some (sym (append-nil t)), refl, (λ q k. refl), g)
  receive_loop-Gets (suc fuel) zero rest d t [] h e a f g =
      (refl, f ∙ ap some (sym (append-nil t)), refl, (λ q k. refl), g)
  receive_loop-Gets zero zero rest d t (c ∷ s) h e a f g = absurd (omega arith)
  receive_loop-Gets (suc fuel) zero rest d t (c ∷ s) h e a f g = absurd (omega arith)
  receive_loop-Gets zero (suc m) rest d t want h e a f g = elim h [ ]
  receive_loop-Gets (suc fuel) (suc m) rest d t want h e a f g =
      receive_round-Gets (λ x y z. receive_loop fuel p x y z) m (min k_transfer_buffer_size (suc m))
        d t want _ (λ x y z t' w' i. receive_loop-Gets fuel x y z t' w' (omega arith)) e
        (omega arith) a f
        (recv-Progresses (min k_transfer_buffer_size (suc m)) rest (want ++ extra) (omega arith)
          (λ q. absurd (omega (arith, ap length q, length-append want extra))) g)

module _ (evp : Evp) (laws : EvpLaws evp) where
  then_check-Gets :
      (p : Bytes) (d : Disk) (t want h : Bytes) (r : Outcome)
      → MayRead d.permissions p
      → compute_string_sha256 evp (t ++ want) ≡ some h
      → Gets p d t want [] r
      → Gets p d t want [] (then_check evp p h r)
  unfolding check_hash
  then_check-Gets p d t want h (false, (arrivals, d')) a e g = cc (g.0)
  then_check-Gets p d t want h (true, (arrivals, d')) a e (done, held, same, rest, coming) =
      let digest : compute_file_sha256 evp d' p ≡ some h =
        compute_file_sha256-string evp laws d' p (t ++ want)
          (open_in-some d' p (t ++ want) (rw same a) held)
        ∙ e in
      (checked h digest, held, same, rest, coming)
    where
      checked : (h : Bytes) → compute_file_sha256 evp d' p ≡ some h → check_hash evp d' p h ≡ true
      checked [] e = refl
      checked (c ∷ s) e = ap (hash_matches evp (c ∷ s)) e ∙ bytes_eq_refl (c ∷ s)

  keep_or_remove-Gets :
      (p : Bytes) (d : Disk) (t want : Bytes) (r : Outcome)
      → Gets p d t want [] r
      → Gets p d t want [] (keep_or_remove p r)
  keep_or_remove-Gets p d t want (true, s) g = g
  keep_or_remove-Gets p d t want (false, s) g = cc (g.0)

  Gets-trans :
      (p : Bytes) (d d' : Disk) (s t want : Bytes) (r : Outcome)
      → d'.permissions ≡ d.permissions
      → ((q : Bytes) → q ≢ p → d'.files q ≡ d.files q)
      → Gets p d' t want [] r
      → t ++ want ≡ s
      → Gets p d [] s [] r
  Gets-trans p d d' s t want (ok, (arrivals, d₂)) same rest (done, held, same', rest', more) e =
      (done, held ∙ ap some e, same' ∙ same, (λ q h. rest' q h ∙ rest q h), more)

  take_whole : (s t : Bytes) → take (min (length (s ++ t)) (length s)) s ≡ s
  take_whole s t = take_all s (min (length (s ++ t)) (length s)) (omega (arith, length-append s t))
    where
      take_all : (s : Bytes) (n : ℕ) → n ≡ length s → take n s ≡ s
      take_all [] zero e = refl
      take_all [] (suc n) e = refl
      take_all (c ∷ s) zero e = absurd (omega arith)
      take_all (c ∷ s) (suc n) e = ap (λ x. c ∷ x) (take_all s n (omega arith))

  -- What came with the header is written first and whole.
  write_initial-cons :
      (d : Disk) (p : Bytes) (c : ℕ) (s more : Bytes)
      → MayWrite d.permissions p
      → d.files p ≡ some []
      → write_initial d p (length ((c ∷ s) ++ more)) (c ∷ s)
        ≡ some (length more, put d p (some (c ∷ s)))
  unfolding write_initial
  write_initial-cons d p c s more w f =
      ap
        (after_initial (length ((c ∷ s) ++ more) - min (length ((c ∷ s) ++ more)) (length (c ∷ s))))
        (ap (write d p) (take_whole (c ∷ s) more) ∙ write-put d p (c ∷ s) [] w f)
      ∙ ap (λ n. some (n, put d p (some (c ∷ s)))) (omega (arith, length-append s more))

  receive_body-Gets :
      (payload more h p : Bytes) (d : Disk) (arrivals : List Arrival)
      → MayWrite d.permissions p
      → MayRead d.permissions p
      → d.files p ≡ some []
      → compute_string_sha256 evp (payload ++ more) ≡ some h
      → Delivers arrivals more
      → Gets p d []
          (payload ++ more)
          []
          (receive_body evp arrivals p (length (payload ++ more)) payload h d)
  unfolding receive_body write_initial
  receive_body-Gets [] more h p d arrivals w a f digest coming =
      then_check-Gets p d [] more h _ a digest (
        receive_loop-Gets p [] (length more) (length more) arrivals d [] more (omega arith) refl w f
          (subst (Delivers arrivals) (sym (append-nil more)) coming))
  receive_body-Gets (c ∷ s) more h p d arrivals w a f digest coming =
      let t : Bytes = c ∷ s in
      let d' = put d p (some t) in
      let same = permissions-put d p (some t) in
      rw (receive_body, write_initial-cons d p c s more w f)
        (Gets-trans p d d' (t ++ more) t more _ same (λ q k. files-put_ne d p q (some t) k)
          (then_check-Gets p d' t more h _ (rw same a) digest (
            receive_loop-Gets p [] (length more) (length more) arrivals d' t more (omega arith) refl
              (rw same w) (files-put_self d p (some t))
              (subst (Delivers arrivals) (sym (append-nil more)) coming)))
          refl)

  -- If all the bytes of a chunk arrive, in whatever pieces and however many of them together with
  -- the header, the output can be written and read, and the header gave the chunk's size and hash,
  -- then the call succeeds, the file at the output path is the chunk, byte for byte, and no other
  -- file has changed.
  pub receive_chunk_data-Gets :
      (payload more h output_path : Bytes) (d : Disk) (arrivals : List Arrival)
      → MayWrite d.permissions output_path
      → MayRead d.permissions output_path
      → compute_string_sha256 evp (payload ++ more) ≡ some h
      → Delivers arrivals more
      → Gets output_path d []
          (payload ++ more)
          []
          (receive_chunk_data evp arrivals output_path (length (payload ++ more)) payload h d)
  unfolding receive_chunk_data
  receive_chunk_data-Gets payload more h p d arrivals w a digest coming =
      let d' = put d p (some []) in
      let same = permissions-put d p (some []) in
      rw (receive_chunk_data, open_out-put d p w)
        (keep_or_remove-Gets p d [] (payload ++ more) _ (
          Gets-trans p d d' (payload ++ more) [] (payload ++ more) _ same
            (λ q k. files-put_ne d p q (some []) k)
            (receive_body-Gets payload more h p d' arrivals (rw same w) (rw same a)
              (files-put_self d p (some [])) digest coming)
            refl))
