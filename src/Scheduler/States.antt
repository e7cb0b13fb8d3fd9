-- ===== src/Scheduler/States.antt =====
-- src/peer/chunkScheduler.cpp: the lists of chunk states, looked at by index, and the flags that they stand for.
use ai_optimized_distributed.Base.{
  ℕ, zero, suc, ◌≤◌, ◌<◌, ◌≡◌, ◌≢◌, refl, ap, Bool, true, false, not, ◌&&◌, none, some, List, [],
  ◌∷◌, arith, length, get_or, set, ◌==◌, if◌then◌else◌,
}
use ai_optimized_distributed.Scheduler.Abstract.{
  ChunkState, free, held, stored, behind, take_free, given_back, give_back,
}

-- The state that the two flags of a chunk stand for.
abbrev pub state_of : Bool → Bool → ChunkState
state_of true claimed_here = stored
state_of false true = held
state_of false false = free

abbrev pub at : List ChunkState → ℕ → ChunkState
at cs i = get_or cs i stored

pub at-set :
    (cs : List ChunkState) (i j : ℕ) (c : ChunkState)
    → j < length cs
    → at (set cs i c) j ≡ (if i == j then c else at cs j)
at-set [] i j c h = absurd (omega (arith, h))
at-set (d ∷ cs) zero zero c h = ground arith
at-set (d ∷ cs) zero (suc j) c h = ground arith
at-set (d ∷ cs) (suc i) zero c h = ground arith
at-set (d ∷ cs) (suc i) (suc j) c h = ground (arith, at-set cs i j c (omega (arith, h)))

pub at-give_back :
    (cs : List ChunkState) (i j : ℕ)
    → at (give_back cs i) j ≡ (if i == j then given_back (at cs j) else at cs j)
at-give_back [] i j = ground arith
at-give_back (d ∷ cs) zero zero = ground arith
at-give_back (d ∷ cs) zero (suc j) = ground arith
at-give_back (d ∷ cs) (suc i) zero = ground arith
at-give_back (d ∷ cs) (suc i) (suc j) = ground (arith, at-give_back cs i j)

pub length-give_back : (cs : List ChunkState) (i : ℕ) → length (give_back cs i) ≡ length cs
length-give_back [] i = refl
length-give_back (c ∷ cs) zero = refl
length-give_back (c ∷ cs) (suc i) = ap suc (length-give_back cs i)

pub set_outside : (cs : List ChunkState) (i : ℕ) (c : ChunkState) → length cs ≤ i → set cs i c ≡ cs
set_outside [] i c h = refl
set_outside (d ∷ cs) zero c h = absurd (omega (arith, h))
set_outside (d ∷ cs) (suc i) c h = ap (λ t. d ∷ t) (set_outside cs i c (omega (arith, h)))

pub give_back_outside : (cs : List ChunkState) (i : ℕ) → length cs ≤ i → give_back cs i ≡ cs
give_back_outside [] i h = refl
give_back_outside (d ∷ cs) zero h = absurd (omega (arith, h))
give_back_outside (d ∷ cs) (suc i) h = ap (λ t. d ∷ t) (give_back_outside cs i (omega (arith, h)))

pub take_free-none :
    (cs : List ChunkState) → ((k : ℕ) → k < length cs → at cs k ≢ free) → take_free cs ≡ (none, cs)
take_free-none [] h = refl
take_free-none (free ∷ cs) h = absurd (h 0 (omega arith) refl)
take_free-none (held ∷ cs) h =
    ap (behind held) (take_free-none cs (λ k l. h (suc k) (omega (arith, l))))
take_free-none (stored ∷ cs) h =
    ap (behind stored) (take_free-none cs (λ k l. h (suc k) (omega (arith, l))))

pub take_free-some :
    (cs : List ChunkState) (c : ℕ)
    → c < length cs
    → at cs c ≡ free
    → ((k : ℕ) → k < c → at cs k ≢ free)
    → take_free cs ≡ (some c, set cs c held)
take_free-some [] c h e f = absurd (omega (arith, h))
take_free-some (free ∷ cs) zero h e f = refl
take_free-some (held ∷ cs) zero h e f = cc
take_free-some (stored ∷ cs) zero h e f = cc
take_free-some (free ∷ cs) (suc c) h e f = absurd (f 0 (omega arith) refl)
take_free-some (held ∷ cs) (suc c) h e f =
    ap (behind held)
      (take_free-some cs c (omega (arith, h)) e (λ k l. f (suc k) (omega (arith, l))))
take_free-some (stored ∷ cs) (suc c) h e f =
    ap (behind stored)
      (take_free-some cs c (omega (arith, h)) e (λ k l. f (suc k) (omega (arith, l))))

pub state_of-free : (d k : Bool) → not d && not k ≡ true → state_of d k ≡ free
state_of-free true k h = cc
state_of-free false true h = cc
state_of-free false false h = refl

pub state_of-taken : (d k : Bool) → not d && not k ≡ false → state_of d k ≢ free
state_of-taken true k h e = cc
state_of-taken false true h e = cc
state_of-taken false false h e = cc
