-- ===== src/Socket/Receiving.antt =====
-- `recv`: what it gives of a connection on which nothing fails, however the bytes are cut.
use ai_optimized_distributed.Base.{
  ℕ, ◌≤◌, ◌<◌, ◌≡◌, ◌≢◌, refl, ap, sym, subst, ◌∙◌, List, [], ◌∷◌, ◌++◌, append_assoc, Bytes, take,
  drop, take-append-drop, length, length-take, length-drop, suc, arith,
}
use ai_optimized_distributed.Socket.{
  Arrival, arrives, fails, Received, got, closed, failed, recv, pending,
}

-- The bytes still to come, where no piece is a failure.
abbrev pub Delivers : List Arrival → Bytes → Type 0
Delivers [] s = s ≡ []
Delivers (fails ∷ rest) s = ⊥
Delivers (arrives b ∷ rest) s = (t : Bytes) × (s ≡ b ++ t) × Delivers rest t

-- One call takes a nonempty part that fits the buffer, and the rest is still to come.
abbrev pub Progresses : ℕ → Bytes → Received × List Arrival → Type 0
Progresses n s (got b, rest) =
    (t : Bytes) × (s ≡ b ++ t) × (0 < length b) × (length b ≤ n) × Delivers rest t
Progresses n s (closed, rest) = ⊥
Progresses n s (failed, rest) = ⊥

pub recv-Progresses :
    (n : ℕ) (arrivals : List Arrival) (s : Bytes)
    → 0 < n
    → s ≢ []
    → Delivers arrivals s
    → Progresses n s (recv n arrivals)
unfolding recv
recv-Progresses n [] s p h d = absurd (h d)
recv-Progresses n (fails ∷ rest) s p h d = absurd d
recv-Progresses n (arrives [] ∷ rest) s p h (t, e, d) =
    recv-Progresses n rest s p h (subst (Delivers rest) (sym e) d)
recv-Progresses n (arrives (c ∷ b) ∷ rest) s p h (t, e, d) = (
  drop n (c ∷ b) ++ t,
  e
      ∙ ap (λ u. u ++ t) (sym (take-append-drop n (c ∷ b)))
      ∙ append_assoc (take n (c ∷ b)) (drop n (c ∷ b)) t,
  omega (arith, length-take n (c ∷ b)),
  omega (arith, length-take n (c ∷ b)),
  (t, refl, d),
)

-- What a call of `recv` does to a connection on which nothing fails: it takes a
-- nonempty part, or nothing is left.
abbrev pub Takes : ℕ → Bytes → Received × List Arrival → Type 0
Takes p s (got b, rest) = (t : Bytes) × (s ≡ b ++ t) × Delivers rest t × (pending rest < p)
Takes p s (closed, rest) = s ≡ []
Takes p s (failed, rest) = ⊥

Takes-more : (p q : ℕ) (s : Bytes) (r : Received × List Arrival) → p ≤ q → Takes p s r → Takes q s r
Takes-more p q s (got b, rest) h (t, e, d, l) = (t, e, d, omega (arith, h, l))
Takes-more p q s (closed, rest) h t = t
Takes-more p q s (failed, rest) h t = t

pub recv-Takes :
    (n : ℕ) (arrivals : List Arrival) (s : Bytes)
    → Delivers arrivals s
    → Takes (pending arrivals) s (recv (suc n) arrivals)
unfolding recv
recv-Takes n [] s d = d
recv-Takes n (fails ∷ rest) s d = d
recv-Takes n (arrives [] ∷ rest) s (t, e, d) =
    Takes-more (pending rest) _ s _ (omega arith)
      (recv-Takes n rest s (subst (Delivers rest) (sym e) d))
recv-Takes n (arrives (c ∷ b) ∷ rest) s (t, e, d) = (
  drop n b ++ t,
  e
      ∙ ap (λ u. c ∷ (u ++ t)) (sym (take-append-drop n b))
      ∙ ap (λ u. c ∷ u) (append_assoc (take n b) (drop n b) t),
  (t, refl, d),
  omega (arith, length-drop n b),
)
