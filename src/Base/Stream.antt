-- ===== src/Base/Stream.antt =====
-- Words and lines of an input stream: `stream >> word` and `getline`.
use mathlib.Core.Bool.{Bool, true, false}
use mathlib.Core.List.{[], ◌∷◌, ◌++◌, append-nil}
use mathlib.Core.Logic.{◌≢◌, ◌⊎◌, inl, inr}
use mathlib.Core.Option.{Option, none, some}
use mathlib.Core.Path.{◌≡◌, refl, subst}
use native.Mathlib.Omega.{arith}
use ai_optimized_distributed.Base.Tests.{◌==◌, if◌then◌else◌}
use ai_optimized_distributed.Base.Text.{Bytes, All}
use ai_optimized_distributed.Base.Decimal.{is_space, skip_space, IsDigits}

-- What stands before the first white space, and the rest with that space.
unfoldable pub break_word : Bytes → Bytes × Bytes
break_word [] = ([], [])
break_word (c ∷ s) =
    let (w, rest) = break_word s in if is_space c then ([], c ∷ s) else (c ∷ w, rest)

abbrev if_nonempty : Bytes × Bytes → Option (Bytes × Bytes)
if_nonempty ([], rest) = none
if_nonempty (c ∷ w, rest) = some (c ∷ w, rest)

-- `stream >> word`; `none` is a failed extraction.
unfoldable pub read_word : Bytes → Option (Bytes × Bytes)
unfolding break_word skip_space
read_word s = if_nonempty (break_word (skip_space s))

-- `getline`: up to the first newline.
unfoldable pub get_line : Bytes → Bytes
get_line [] = []
get_line (c ∷ s) = if c == b'\n' then [] else c ∷ get_line s

-- A word: bytes that are no white space.
abbrev pub NoSpace : Bytes → Type 0
NoSpace = All (λ c. is_space c ≡ false)

abbrev pub starts_with_space : Bytes → Bool
starts_with_space [] = true
starts_with_space (c ∷ s) = is_space c

break_word-append :
    (w rest : Bytes)
    → NoSpace w
    → starts_with_space rest ≡ true
    → break_word (w ++ rest) ≡ (w, rest)
unfolding break_word
break_word-append [] [] h k = refl
break_word-append [] (c ∷ rest) h k = ground arith
break_word-append (c ∷ w) rest h k = ground (arith, break_word-append w rest h.1 k)

-- A word at the front of a stream, behind at most one space, is read whole.
pub read_word-append :
    (w rest : Bytes)
    → w ≢ []
    → NoSpace w
    → starts_with_space rest ≡ true
    → read_word (w ++ rest) ≡ some (w, rest)
unfolding read_word
read_word-append [] rest h k e = absurd (h refl)
read_word-append (c ∷ w) rest h k e = ground (arith, break_word-append (c ∷ w) rest k e)

pub read_word-space :
    (w rest : Bytes)
    → w ≢ []
    → NoSpace w
    → starts_with_space rest ≡ true
    → read_word (32 ∷ (w ++ rest)) ≡ some (w, rest)
unfolding read_word
read_word-space w rest h k e = read_word-append w rest h k e

pub read_word-last : (w : Bytes) → w ≢ [] → NoSpace w → read_word (32 ∷ w) ≡ some (w, [])
read_word-last w h k =
    subst (λ t. read_word (32 ∷ t) ≡ some (w, [])) (append-nil w) (read_word-space w [] h k refl)

pub IsDigits-NoSpace : (s : Bytes) → IsDigits s → NoSpace s
IsDigits-NoSpace [] h = tt
IsDigits-NoSpace (c ∷ s) h = (ground arith, IsDigits-NoSpace s h.1)

pub get_line_whole : (s : Bytes) → All (λ c. c ≢ b'\n') s → get_line s ≡ s
unfolding get_line
get_line_whole [] h = refl
get_line_whole (c ∷ s) h = ground (arith, get_line_whole s h.1)

if_nonempty-cases :
    (p : Bytes × Bytes)
    → (if_nonempty p ≡ none)
      ⊎ ((w : Bytes) × (rest : Bytes) × (if_nonempty p ≡ some (w, rest)) × (w ≢ []))
if_nonempty-cases ([], rest) = inl refl
if_nonempty-cases (c ∷ w, rest) = inr (c ∷ w, rest, refl, λ e. cc)

-- A word that is read is not empty.
pub read_word-cases :
    (s : Bytes)
    → (read_word s ≡ none)
      ⊎ ((w : Bytes) × (rest : Bytes) × (read_word s ≡ some (w, rest)) × (w ≢ []))
unfolding read_word
read_word-cases s = if_nonempty-cases (break_word (skip_space s))
