-- ===== src/Disk/Blocks.antt =====
-- The read loop of the program, `while (in) { in.read(buffer, n); bytes = in.gcount(); … }`: the
-- pieces of a file that it meets with `bytes > 0`, in order.
use native.Mathlib.Decide.{dec_lt}
use ai_optimized_distributed.Base.{
  ℕ, zero, suc, ◌+◌, ◌-◌, ◌*◌, ◌≤◌, ◌<◌, ◌≡◌, refl, ap, subst, sym, ◌∙◌, List, [], ◌∷◌, ◌++◌, arith,
  Bytes, is_empty, if◌then◌else◌, length, take, drop, take-append-drop, length-take, length-drop,
  All,
}

-- The fuel is at least the length of what is left; each round takes one byte or more.
unfoldable pub blocks_from : ℕ → ℕ → Bytes → List Bytes
blocks_from zero n s = []
blocks_from (suc fuel) n s =
    let rest = blocks_from fuel n (drop n s) in if is_empty (take n s) then [] else take n s ∷ rest

unfoldable pub blocks : ℕ → Bytes → List Bytes
unfolding blocks_from
blocks n s = blocks_from (length s) n s

abbrev pub concat : List Bytes → Bytes
concat [] = []
concat (b ∷ bs) = b ++ concat bs

take-drop-step :
    (n : ℕ) (s : Bytes) (bs : List Bytes) → concat bs ≡ drop n s → take n s ++ concat bs ≡ s
take-drop-step n s bs h = ap (λ t. take n s ++ t) h ∙ take-append-drop n s

concat-blocks_from :
    (fuel n : ℕ) (s : Bytes) → length s ≤ fuel → concat (blocks_from fuel (suc n) s) ≡ s
unfolding blocks_from
concat-blocks_from zero n [] h = refl
concat-blocks_from zero n (c ∷ s) h = elim h [ ]
concat-blocks_from (suc fuel) n [] h = refl
concat-blocks_from (suc fuel) n (c ∷ s) h =
    take-drop-step (suc n) (c ∷ s) (blocks_from fuel (suc n) (drop n s))
      (concat-blocks_from fuel n (drop n s) (omega (arith, length-drop n s)))

-- The pieces make up the whole file, whatever the size of the buffer.
pub concat-blocks : (n : ℕ) (s : Bytes) → 0 < n → concat (blocks n s) ≡ s
unfolding blocks
concat-blocks zero s h = elim h [ ]
concat-blocks (suc n) s h = concat-blocks_from (length s) n s (omega arith)

abbrev pub IsBlock : ℕ → Bytes → Type 0
IsBlock n b = (0 < length b) × (length b ≤ n)

blocks_from-IsBlock : (fuel n : ℕ) (s : Bytes) → All (IsBlock (suc n)) (blocks_from fuel (suc n) s)
unfolding blocks_from
blocks_from-IsBlock zero n s = tt
blocks_from-IsBlock (suc fuel) n [] = tt
blocks_from-IsBlock (suc fuel) n (c ∷ s) =
    ((omega arith, omega (arith, length-take n s)), blocks_from-IsBlock fuel n (drop n s))

-- Each piece holds at least one byte and fits the buffer.
pub blocks-IsBlock : (n : ℕ) (s : Bytes) → 0 < n → All (IsBlock n) (blocks n s)
unfolding blocks
blocks-IsBlock zero s h = elim h [ ]
blocks-IsBlock (suc n) s h = blocks_from-IsBlock (length s) n s

-- How many pieces there are: as many full ones as fit, and one for the rest.
abbrev pub CoversIn : ℕ → ℕ → ℕ → Type 0
CoversIn n size k = (size ≤ k * n) × (k * n < size + n)

none_needed : (k n : ℕ) → k * suc n < suc n → k ≡ 0
none_needed zero n h = refl
none_needed (suc k) n h = absurd (omega arith)

covers_step :
    (k n size rest : ℕ)
    → rest ≡ size - n
    → CoversIn (suc n) rest k
    → CoversIn (suc n) (suc size) (suc k)
covers_step k n size rest e (low, high) = (
  omega arith,
  elim (dec_lt n size) [
    | yes more ↦ omega arith
    | no last ↦
        subst (λ t. suc t * suc n < suc size + suc n) (sym (none_needed k n (omega arith)))
          (omega arith)
  ],
)

blocks_from-Covers :
    (fuel n : ℕ) (s : Bytes)
    → length s ≤ fuel
    → CoversIn (suc n) (length s) (length (blocks_from fuel (suc n) s))
unfolding blocks_from
blocks_from-Covers zero n [] h = (omega arith, omega arith)
blocks_from-Covers zero n (c ∷ s) h = elim h [ ]
blocks_from-Covers (suc fuel) n [] h = (omega arith, omega arith)
blocks_from-Covers (suc fuel) n (c ∷ s) h =
    covers_step _ n (length s) (length (drop n s)) (length-drop n s)
      (blocks_from-Covers fuel n (drop n s) (omega (arith, length-drop n s)))

pub blocks-Covers : (n : ℕ) (s : Bytes) → 0 < n → CoversIn n (length s) (length (blocks n s))
unfolding blocks
blocks-Covers zero s h = elim h [ ]
blocks-Covers (suc n) s h = blocks_from-Covers (length s) n s (omega arith)
