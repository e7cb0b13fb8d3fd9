-- ===== src/Base/Search.antt =====
-- `std::string::find` for a text and for one character, and what the code cuts out by it.
use mathlib.Core.Bool.{Bool, true, false, ◌&&◌, not}
use mathlib.Core.List.{[], ◌∷◌, ◌++◌}
use mathlib.Core.Logic.{◌≢◌}
use mathlib.Core.Option.{Option, none, some}
use mathlib.Core.Path.{◌≡◌, refl}
use Prim.Native.Nat.{ℕ}
use native.Mathlib.Omega.{arith}
use ai_optimized_distributed.Base.Tests.{◌==◌, if◌then◌else◌}
use ai_optimized_distributed.Base.Text.{Bytes, All}

-- What follows a text at the front.
unfoldable pub strip : Bytes → Bytes → Option Bytes
strip [] s = some s
strip (c ∷ needle) [] = none
strip (c ∷ needle) (d ∷ s) = if c == d then strip needle s else none

-- What follows the first occurrence: `substr(find(needle) + needle.size())`, or `npos`.
unfoldable pub find_after : Bytes → Bytes → Option Bytes
unfolding strip
find_after needle [] = strip needle []
find_after needle (c ∷ s) = elim (strip needle (c ∷ s)) [
  | none ↦ find_after needle s
  | some rest ↦ some rest
]

abbrev is_found : Option Bytes → Bool
is_found none = false
is_found (some s) = true

-- `find(needle) != npos`.
unfoldable pub contains : Bytes → Bytes → Bool
unfolding find_after
contains needle s = is_found (find_after needle s)

abbrev push_front : ℕ → Option (Bytes × Bytes) → Option (Bytes × Bytes)
push_front c none = none
push_front c (some (before, rest)) = some (c ∷ before, rest)

-- What stands before the first `stop`, and what follows it.
unfoldable pub break_at : ℕ → Bytes → Option (Bytes × Bytes)
break_at stop [] = none
break_at stop (c ∷ s) = if c == stop then some ([], s) else push_front c (break_at stop s)

abbrev pub Lacks : ℕ → Bytes → Type 0
Lacks stop = All (λ c. c ≢ stop)

-- The same as a test, for literals.
abbrev pub lacks : ℕ → Bytes → Bool
lacks stop [] = true
lacks stop (c ∷ s) = not (c == stop) && lacks stop s

pub lacks-Lacks : (stop : ℕ) (s : Bytes) → lacks stop s ≡ true → Lacks stop s
lacks-Lacks stop [] h = tt
lacks-Lacks stop (c ∷ s) h = (ground arith, lacks-Lacks stop s (ground arith))

pub break_at-append :
    (stop : ℕ) (s rest : Bytes) → Lacks stop s → break_at stop (s ++ stop ∷ rest) ≡ some (s, rest)
unfolding break_at
break_at-append stop [] rest h = ground arith
break_at-append stop (c ∷ s) rest (h, hs) = ground (arith, break_at-append stop s rest hs)

pub break_at-none : (stop : ℕ) (s : Bytes) → Lacks stop s → break_at stop s ≡ none
unfolding break_at
break_at-none stop [] h = refl
break_at-none stop (c ∷ s) (h, hs) = ground (arith, break_at-none stop s hs)

-- Text without the first character of the needle is passed over.
pub find_after-skip :
    (c : ℕ) (needle s rest : Bytes)
    → Lacks c s
    → find_after (c ∷ needle) (s ++ rest) ≡ find_after (c ∷ needle) rest
unfolding find_after
find_after-skip c needle [] rest h = refl
find_after-skip c needle (d ∷ s) rest (h, hs) = ground (arith, find_after-skip c needle s rest hs)
