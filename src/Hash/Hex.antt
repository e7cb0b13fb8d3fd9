-- ===== src/Hash/Hex.antt =====
-- src/file/hashUtils.cpp, `bytesToHex`: two digits for each byte, from which the bytes can be told.
use ai_optimized_distributed.Base.{
  ℕ, ◌*◌, ◌/◌, ◌%◌, ◌<◌, ◌≡◌, ◌≢◌, refl, false, [], ◌∷◌, Bytes, arith, All, length,
}
use ai_optimized_distributed.Base.Decimal.{is_space}
use ai_optimized_distributed.Base.Stream.{NoSpace}
use ai_optimized_distributed.Hash.{hex_digit, bytes_to_hex}

pub length-bytes_to_hex : (bs : Bytes) → length (bytes_to_hex bs) ≡ 2 * length bs
unfolding bytes_to_hex
length-bytes_to_hex [] = refl
length-bytes_to_hex (b ∷ bs) = omega (arith, length-bytes_to_hex bs)

abbrev IsByte : ℕ → Type 0
IsByte b = b < 256

hex_digit_value : (n m : ℕ) → n < 16 → m < 16 → hex_digit n ≡ hex_digit m → n ≡ m
unfolding hex_digit
hex_digit_value n m h k e = ground arith

byte_of_digits : (a b : ℕ) → a / 16 ≡ b / 16 → a % 16 ≡ b % 16 → a ≡ b
byte_of_digits a b h k = omega arith

-- Different sequences of numbers below 256 have different texts, so comparing two texts compares the digests.
pub bytes_to_hex-injective :
    (xs ys : Bytes)
    → All (λ b. b < 256) xs
    → All (λ b. b < 256) ys
    → bytes_to_hex xs ≡ bytes_to_hex ys
    → xs ≡ ys
unfolding bytes_to_hex
bytes_to_hex-injective [] [] h k e = refl
bytes_to_hex-injective [] (y ∷ ys) h k e = cc
bytes_to_hex-injective (x ∷ xs) [] h k e = cc
bytes_to_hex-injective (x ∷ xs) (y ∷ ys) (hx, h) (hy, k) e =
    let high : hex_digit (x / 16) ≡ hex_digit (y / 16) = cc in
    let low : hex_digit (x % 16) ≡ hex_digit (y % 16) = cc in
    let rest : bytes_to_hex xs ≡ bytes_to_hex ys = cc in
    cc (
      byte_of_digits x y (hex_digit_value (x / 16) (y / 16) (omega arith) (omega arith) high)
          (hex_digit_value (x % 16) (y % 16) (omega arith) (omega arith) low),
      bytes_to_hex-injective xs ys h k rest,
    )

hex_digit-NoSpace : (n : ℕ) → is_space (hex_digit n) ≡ false
unfolding hex_digit
hex_digit-NoSpace n = ground arith

-- A digest's text is fit for a word of a message.
pub bytes_to_hex-NoSpace : (bs : Bytes) → NoSpace (bytes_to_hex bs)
unfolding bytes_to_hex
bytes_to_hex-NoSpace [] = tt
bytes_to_hex-NoSpace (b ∷ bs) =
    (hex_digit-NoSpace (b / 16), (hex_digit-NoSpace (b % 16), bytes_to_hex-NoSpace bs))

pub bytes_to_hex_nonempty : (bs : Bytes) → bs ≢ [] → bytes_to_hex bs ≢ []
unfolding bytes_to_hex
bytes_to_hex_nonempty [] h e = h refl
bytes_to_hex_nonempty (b ∷ bs) h e = cc
