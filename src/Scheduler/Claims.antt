-- ===== src/Scheduler/Claims.antt =====
-- src/peer/chunkScheduler.cpp: what each operation does to the two flags of every chunk.
use ai_optimized_distributed.Base.{
  ℕ, zero, suc, ◌+◌, ◌≤◌, ◌<◌, ◌≡◌, ◌≢◌, refl, subst, ◌∙◌, ◌↔◌, lt→ltb, inl, inr, Bool, true, false,
  not, ◌&&◌, Option, none, some, List, [], ◌∷◌, arith, length, get_or, set, replicate, ltb, ◌==◌,
  if◌then◌else◌, length-set, Bool-cases, length-replicate,
}
use native.Mathlib.Decide.{ℕ_discrete}
use ai_optimized_distributed.Base.Decimal.{ℤ, pos, negsuc}
use ai_optimized_distributed.Scheduler.{
  ChunkScheduler, new_scheduler, is_done, is_claimed, next_from, claim, get_next_chunk, mark_done,
  mark_failed, all_true, all_done,
}

pub get_or-set :
    (xs : List Bool) (i j : ℕ) (v : Bool)
    → get_or (set xs i v) j false ≡ (if (i == j) && ltb j (length xs) then v else get_or xs j false)
get_or-set [] i j v = ground arith
get_or-set (x ∷ xs) zero zero v = ground arith
get_or-set (x ∷ xs) zero (suc j) v = ground arith
get_or-set (x ∷ xs) (suc i) zero v = ground arith
get_or-set (x ∷ xs) (suc i) (suc j) v = ground (arith, get_or-set xs i j v)

pub get_or-replicate : (n i : ℕ) → get_or (replicate n false) i false ≡ false
get_or-replicate zero i = refl
get_or-replicate (suc n) zero = refl
get_or-replicate (suc n) (suc i) = get_or-replicate n i

-- Both flags are kept for every chunk, and a chunk that is done is never claimed.
pub record IsValid (s : ChunkScheduler) : Type 0 where
  pub done_size : length s.done ≡ s.total_chunks
  pub claimed_size : length s.claimed ≡ s.total_chunks
  pub apart : (i : ℕ) → is_done s i && is_claimed s i ≡ false

pub new_scheduler-IsValid : (n : ℕ) → IsValid (new_scheduler n)
unfolding new_scheduler
new_scheduler-IsValid n = record {
  done_size = length-replicate n false;
  claimed_size = length-replicate n false;
  apart = λ i. rw (get_or-replicate n i) refl;
}

-- A chunk that nobody has done and nobody holds.
abbrev pub is_open : ChunkScheduler → ℕ → Bool
is_open s i = not (is_done s i) && not (is_claimed s i)

-- The scan gives the first open chunk of its range, and `none` only if there is none.
abbrev Finds : ChunkScheduler → ℕ → ℕ → Option ℕ → Type 0
Finds s i j none = (k : ℕ) → i ≤ k → k < j → is_open s k ≡ false
Finds s i j (some c) =
    (i ≤ c) × (c < j) × (is_open s c ≡ true) × ((k : ℕ) → i ≤ k → k < c → is_open s k ≡ false)

Finds-step :
    (s : ChunkScheduler) (i j : ℕ) (o : Option ℕ)
    → is_open s i ≡ false
    → Finds s (i + 1) j o
    → Finds s i j o
Finds-step s i j none h f = λ k p q. elim (ℕ_discrete i k) [
  | yes e ↦ subst (λ t. is_open s t ≡ false) e h
  | no d ↦ f k (omega arith) q
]
Finds-step s i j (some c) h (a, b, o, f) = (
  omega arith,
  b,
  o,
  λ k p q. elim (ℕ_discrete i k) [
    | yes e ↦ subst (λ t. is_open s t ≡ false) e h
    | no d ↦ f k (omega arith) q
  ],
)

next_from-Finds : (n i j : ℕ) (s : ChunkScheduler) → i + n ≡ j → Finds s i j (next_from n i s)
unfolding next_from
next_from-Finds zero i j s e = λ k p q. absurd (omega arith)
next_from-Finds (suc n) i j s e = elim (Bool-cases (is_open s i)) [
  | inl open_here ↦
      rw open_here (omega arith, omega arith, open_here, λ k p q. absurd (omega arith))
  | inr shut ↦
      rw shut (
        Finds-step s i j (next_from n (i + 1) s) shut (next_from-Finds n (i + 1) j s (omega arith)))
]

-- A scheduler after chunk `c` got its two flags, and all else as before.
abbrev pub Flags : ChunkScheduler → ChunkScheduler → ℕ → Bool → Bool → Type 0
Flags s t c d k =
    (t.total_chunks ≡ s.total_chunks)
    × (is_done t c ≡ d)
    × (is_claimed t c ≡ k)
    × ((j : ℕ) → j ≢ c → (is_done t j ≡ is_done s j) × (is_claimed t j ≡ is_claimed s j))

abbrev pub Takes : ChunkScheduler → Option ℕ × ChunkScheduler → Type 0
Takes s (none, t) = (t ≡ s) × ((k : ℕ) → k < s.total_chunks → is_open s k ≡ false)
Takes s (some c, t) =
    (c < s.total_chunks)
    × (is_open s c ≡ true)
    × ((k : ℕ) → k < c → is_open s k ≡ false)
    × Flags s t c false true
    × IsValid t

claim-Takes :
    (s : ChunkScheduler) (o : Option ℕ)
    → IsValid s
    → Finds s 0 s.total_chunks o
    → Takes s (claim s o)
unfolding claim
claim-Takes s none v f = (refl, λ k h. f k (omega arith) h)
claim-Takes s (some c) v (_, b, o, f) = (
  b,
  o,
  λ k h. f k (omega arith) h,
  (
    refl,
    ground arith,
    ground (arith, get_or-set s.claimed c c true, v.claimed_size),
    λ j h. (refl, ground (arith, get_or-set s.claimed c j true)),
  ),
  record {
    done_size = v.done_size;
    claimed_size = length-set s.claimed c true ∙ v.claimed_size;
    apart = λ i. ground (arith, get_or-set s.claimed c i true, v.apart i);
  },
)

-- In a valid state, a worker gets the first chunk that is neither done nor claimed, exactly that
-- chunk becomes claimed, and the state stays valid; it gets none only if every chunk is done or
-- claimed, and then nothing changes.
pub get_next_chunk-Takes : (s : ChunkScheduler) → IsValid s → Takes s (get_next_chunk s)
unfolding get_next_chunk
get_next_chunk-Takes s v =
    claim-Takes s _ v (next_from-Finds s.total_chunks 0 s.total_chunks s (omega arith))

-- In a valid state, marking a chunk in range done sets its flag and gives up its claim; no other
-- chunk changes, and the state stays valid.
pub mark_done-Flags :
    (s : ChunkScheduler) (c : ℕ)
    → IsValid s
    → c < s.total_chunks
    → Flags s (mark_done s (pos c)) c true false × IsValid (mark_done s (pos c))
unfolding mark_done
mark_done-Flags s c v h = rw (lt→ltb c s.total_chunks h) (
  (
    refl,
    ground (arith, get_or-set s.done c c true, v.done_size),
    ground (arith, get_or-set s.claimed c c false, v.claimed_size),
    λ j k. (
      ground (arith, get_or-set s.done c j true),
      ground (arith, get_or-set s.claimed c j false),
    ),
  ),
  record {
    done_size = length-set s.done c true ∙ v.done_size;
    claimed_size = length-set s.claimed c false ∙ v.claimed_size;
    apart = λ i. ground (
      arith,
      get_or-set s.done c i true,
      get_or-set s.claimed c i false,
      v.apart i,
      v.claimed_size,
    );
  },
)

-- In a valid state, marking a chunk in range failed gives up its claim and changes nothing else,
-- and the state stays valid.
pub mark_failed-Flags :
    (s : ChunkScheduler) (c : ℕ)
    → IsValid s
    → c < s.total_chunks
    → Flags s (mark_failed s (pos c)) c (is_done s c) false × IsValid (mark_failed s (pos c))
unfolding mark_failed
mark_failed-Flags s c v h = rw (lt→ltb c s.total_chunks h) (
  (
    refl,
    refl,
    ground (arith, get_or-set s.claimed c c false, v.claimed_size),
    λ j k. (refl, ground (arith, get_or-set s.claimed c j false)),
  ),
  record {
    done_size = v.done_size;
    claimed_size = length-set s.claimed c false ∙ v.claimed_size;
    apart = λ i. ground (arith, get_or-set s.claimed c i false, v.apart i);
  },
)

-- A chunk number out of range, also a negative one, changes nothing.
pub mark_out_of_range :
    (s : ChunkScheduler) (z : ℤ)
    → ((c : ℕ) → z ≡ pos c → s.total_chunks ≤ c)
    → (mark_done s z ≡ s) × (mark_failed s z ≡ s)
unfolding mark_done mark_failed
mark_out_of_range s (negsuc n) h = (refl, refl)
mark_out_of_range s (pos c) h = let k = h c refl in (ground arith, ground arith)

all_true→get_or :
    (bs : List Bool) → all_true bs ≡ true → (i : ℕ) → i < length bs → get_or bs i false ≡ true
unfolding all_true
all_true→get_or [] h i k = elim k [ ]
all_true→get_or (b ∷ bs) h zero k = ground arith
all_true→get_or (b ∷ bs) h (suc i) k = all_true→get_or bs (ground arith) i (omega arith)

get_or→all_true :
    (bs : List Bool) → ((i : ℕ) → i < length bs → get_or bs i false ≡ true) → all_true bs ≡ true
unfolding all_true
get_or→all_true [] h = refl
get_or→all_true (b ∷ bs) h =
    rw (h 0 (omega arith)) (get_or→all_true bs (λ i k. h (suc i) (omega arith)))

-- In a valid state `allDone` holds exactly when every chunk has its done flag.
pub all_done_iff :
    (s : ChunkScheduler)
    → IsValid s
    → (all_done s ≡ true) ↔ ((i : ℕ) → i < s.total_chunks → is_done s i ≡ true)
unfolding all_done
all_done_iff s v = (
  λ h i k. all_true→get_or s.done h i (rw v.done_size k),
  λ h. get_or→all_true s.done (λ i k. h i (rw v.done_size at k)),
)
