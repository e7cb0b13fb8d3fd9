-- ===== src/Base/Decimal.antt =====
-- Decimal numbers as the C++ standard library writes and reads them: `std::to_string`,
-- `std::stoll` and `stream >> int`, all over one scan of an optional sign and digits.
use Prim.Native.Nat.{ℕ, zero, suc, ◌+◌, ◌-◌, ◌*◌, ◌/◌, ◌%◌, ◌^◌, ◌<◌}
use mathlib.Core.Bool.{Bool, true, false, ◌&&◌, ◌||◌}
use mathlib.Core.List.{[], ◌∷◌, ◌++◌, append_assoc, append-nil}
use mathlib.Core.Option.{Option, none, some}
use mathlib.Core.Logic.{◌≢◌, inl, inr}
use mathlib.Core.Path.{◌≡◌, refl, subst}
use native.Mathlib.Omega.{arith}
use ai_optimized_distributed.Base.Tests.{ltb, leb, ◌==◌, if◌then◌else◌, Bool-cases}
use ai_optimized_distributed.Base.Text.{Bytes, All, All-append}

-- `negsuc n` is -(n + 1).
pub data ℤ : Type 0 where
  pos : ℕ → ℤ
  negsuc : ℕ → ℤ

-- `isspace` in the C locale.
abbrev pub is_space : ℕ → Bool
is_space c = (c == 32) || (leb 9 c && leb c 13)

abbrev pub is_digit : ℕ → Bool
is_digit c = leb b'0' c && leb c b'9'

-- Decimal digits; the fuel is above the number, and each round divides that by ten.
pub digits : ℕ → ℕ → Bytes
digits zero n = []
digits (suc f) n = elim (ltb n 10) [
  | true ↦ (b'0' + n) ∷ []
  | false ↦ digits f (n / 10) ++ (b'0' + n % 10) ∷ []
]

unfoldable pub to_string_ℕ : ℕ → Bytes
unfolding digits
to_string_ℕ n = digits (suc n) n

unfoldable pub to_string : ℤ → Bytes
to_string (pos n) = to_string_ℕ n
to_string (negsuc n) = b'-' ∷ to_string_ℕ (suc n)

unfoldable pub skip_space : Bytes → Bytes
skip_space [] = []
skip_space (c ∷ s) = if is_space c then skip_space s else c ∷ s

-- The value of the digits that lead a text, behind `n`, and what follows them.
unfoldable pub scan_digits : ℕ → Bytes → ℕ × Bytes
scan_digits n [] = (n, [])
scan_digits n (c ∷ s) =
    let more = scan_digits (n * 10 + (c - b'0')) s in if is_digit c then more else (n, c ∷ s)

abbrev pub starts_with_digit : Bytes → Bool
starts_with_digit [] = false
starts_with_digit (c ∷ s) = is_digit c

abbrev negate : ℕ → ℤ
negate zero = pos 0
negate (suc n) = negsuc n

unfoldable pub scan_signed : Bool → Bytes → Option (ℤ × Bytes)
unfolding scan_digits
scan_signed negative s =
    if starts_with_digit s
    then (let (n, rest) = scan_digits 0 s in some (if negative then negate n else pos n, rest))
    else none

unfoldable pub scan_sign : Bytes → Option (ℤ × Bytes)
unfolding scan_signed
scan_sign [] = none
scan_sign (c ∷ s) =
    if c == b'-'
    then scan_signed true s
    else if c == b'+'
    then scan_signed false s
    else scan_signed false (c ∷ s)

abbrev pub in_range : ℕ → ℤ → Bool
in_range w (pos n) = ltb n (2 ^ w)
in_range w (negsuc n) = ltb n (2 ^ w)

abbrev if_in_range : ℕ → Option (ℤ × Bytes) → Option (ℤ × Bytes)
if_in_range w none = none
if_in_range w (some (z, rest)) = if in_range w z then some (z, rest) else none

-- `std::stoll`: `none` is an exception, `invalid_argument` or `out_of_range`. What follows the
-- number is ignored.
abbrev value_of : Option (ℤ × Bytes) → Option ℤ
value_of none = none
value_of (some (z, rest)) = some z

unfoldable pub stoll : Bytes → Option ℤ
unfolding scan_sign skip_space
stoll s = value_of (if_in_range 63 (scan_sign (skip_space s)))

unfoldable pub stoi : Bytes → Option ℤ
unfolding scan_sign skip_space
stoi s = value_of (if_in_range 31 (scan_sign (skip_space s)))

-- `stream >> n` for an `int`.
unfoldable pub read_int : Bytes → Option (ℤ × Bytes)
unfolding scan_sign skip_space
read_int s = if_in_range 31 (scan_sign (skip_space s))

abbrev pub IsDigits : Bytes → Type 0
IsDigits = All (λ c. is_digit c ≡ true)

digits_small : (f n : ℕ) → ltb n 10 ≡ true → digits (suc f) n ≡ (b'0' + n) ∷ []
unfolding digits
digits_small f n h = ground arith

digits_big :
    (f n : ℕ) → ltb n 10 ≡ false → digits (suc f) n ≡ digits f (n / 10) ++ (b'0' + n % 10) ∷ []
unfolding digits
digits_big f n h = ground arith

digits-IsDigits : (f n : ℕ) → IsDigits (digits f n)
unfolding digits
digits-IsDigits zero n = tt
digits-IsDigits (suc f) n = elim (Bool-cases (ltb n 10)) [
  | inl small ↦ rw (digits_small f n small) (ground arith, tt)
  | inr big ↦
      rw (digits_big f n big)
        (All-append _ (digits f (n / 10)) _ (digits-IsDigits f (n / 10)) (ground arith, tt))
]

-- Some digit is written, given enough fuel.
abbrev StartsWithDigit : Bytes → Type 0
StartsWithDigit s = starts_with_digit s ≡ true

append-StartsWithDigit : (s t : Bytes) → StartsWithDigit s → StartsWithDigit (s ++ t)
append-StartsWithDigit [] t h = cc
append-StartsWithDigit (c ∷ s) t h = h

digits-StartsWithDigit : (f n : ℕ) → n < f → StartsWithDigit (digits f n)
digits-StartsWithDigit zero n h = elim h [ ]
digits-StartsWithDigit (suc f) n h = elim (Bool-cases (ltb n 10)) [
  | inl small ↦ rw (digits_small f n small) (ground arith)
  | inr big ↦ rw (digits_big f n big) (
      append-StartsWithDigit (digits f (n / 10)) _
        (digits-StartsWithDigit f (n / 10) (ground arith)))
]

-- Reading the digits of a number back gives the number, whatever follows.
scan_digits-digits :
    (f n : ℕ) (rest : Bytes) → n < f → scan_digits 0 (digits f n ++ rest) ≡ scan_digits n rest
scan_digits-digits zero n rest h = elim h [ ]
scan_digits-digits (suc f) n rest h = elim (Bool-cases (ltb n 10)) [
  | inl small ↦ rw (digits_small f n small) (unfold scan_digits in ground arith)
  | inr big ↦
      rw (digits_big f n big, append_assoc, scan_digits-digits f (n / 10) _ (ground arith))
        (unfold scan_digits in ground arith)
]

scan_number :
    (s : Bytes)
    → StartsWithDigit s
    → scan_sign (skip_space s) ≡ some (pos (scan_digits 0 s).0, (scan_digits 0 s).1)
unfolding scan_sign skip_space scan_signed
scan_number [] h = cc
scan_number (c ∷ s) h = ground arith

stop_at_nondigit : (n : ℕ) (s : Bytes) → starts_with_digit s ≡ false → scan_digits n s ≡ (n, s)
unfolding scan_digits
stop_at_nondigit n [] h = refl
stop_at_nondigit n (c ∷ s) h = ground arith

pub scan-to_string :
    (n : ℕ) (rest : Bytes)
    → starts_with_digit rest ≡ false
    → scan_sign (skip_space (to_string_ℕ n ++ rest)) ≡ some (pos n, rest)
unfolding to_string_ℕ
scan-to_string n rest h = rw (
  scan_number (digits (suc n) n ++ rest) (
      append-StartsWithDigit (digits (suc n) n) rest
        (digits-StartsWithDigit (suc n) n (omega arith))),
  scan_digits-digits (suc n) n rest (omega arith),
  stop_at_nondigit n rest h,
)

pub stoll-to_string : (n : ℕ) → n < 2 ^ 63 → stoll (to_string_ℕ n) ≡ some (pos n)
unfolding stoll
stoll-to_string n h =
    let scanned = scan-to_string n [] refl in
    rw (← append-nil (to_string_ℕ n), scanned) (ground arith)

pub stoi-to_string : (n : ℕ) → n < 2 ^ 31 → stoi (to_string_ℕ n) ≡ some (pos n)
unfolding stoi
stoi-to_string n h =
    let scanned = scan-to_string n [] refl in
    rw (← append-nil (to_string_ℕ n), scanned) (ground arith)

pub read_int-to_string :
    (n : ℕ) (rest : Bytes)
    → n < 2 ^ 31
    → starts_with_digit rest ≡ false
    → read_int (to_string_ℕ n ++ rest) ≡ some (pos n, rest)
unfolding read_int
read_int-to_string n rest h k = rw (scan-to_string n rest k) (ground arith)

pub to_string-IsDigits : (n : ℕ) → IsDigits (to_string_ℕ n)
unfolding to_string_ℕ
to_string-IsDigits n = digits-IsDigits (suc n) n

pub to_string_nonempty : (n : ℕ) → to_string_ℕ n ≢ []
unfolding to_string_ℕ
to_string_nonempty n e =
    cc (subst StartsWithDigit e (digits-StartsWithDigit (suc n) n (omega arith)))
