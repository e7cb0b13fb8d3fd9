-- ===== src/Hash.antt =====
-- src/file/hashUtils.cpp: SHA-256 of a file and of a string, as hexadecimal text. OpenSSL is not
-- part of the program: its digest interface is a parameter, with the laws that its manual states.
pub mod Digest
pub mod Hex
use ai_optimized_distributed.Base.{
  ℕ, zero, suc, ◌+◌, ◌-◌, ◌/◌, ◌%◌, ◌<◌, ◌≡◌, ◌≢◌, Bool, true, false, Option, none, some, List, [],
  ◌∷◌, ◌++◌, Bytes, ltb, if◌then◌else◌, All, bytes_eq,
}
use ai_optimized_distributed.Disk.{Disk, open_in}
use ai_optimized_distributed.Disk.Blocks.{blocks}

infixl 5 ◌>>=◌
abbrev pub ◌>>=◌ {ℓ κ} : {A : Type ℓ} {B : Type κ} → Option A → (A → Option B) → Option B
none >>= f = none
some a >>= f = f a

-- The calls of OpenSSL's EVP interface; `none` is a null pointer or a result other than 1.
pub record Evp : Type 1 where
  pub Context : Type 0
  pub new_context : Option Context
  pub digest_init : Context → Option Context
  pub digest_update : Context → Bytes → Option Context
  pub digest_final : Context → Option Bytes

-- What the manual says of them: data may be given in pieces, no data changes nothing, and a digest
-- is a nonempty sequence of bytes.
pub record EvpLaws (evp : Evp) : Type 0 where
  pub update_nil : (c : evp.Context) → evp.digest_update c [] ≡ some c
  pub update-append :
      (c : evp.Context) (s t : Bytes)
      → evp.digest_update c (s ++ t) ≡ (evp.digest_update c s >>= λ c'. evp.digest_update c' t)
  pub final_bytes :
      (c : evp.Context) (h : Bytes) → evp.digest_final c ≡ some h → All (λ b. b < 256) h
  pub final_nonempty : (c : evp.Context) (h : Bytes) → evp.digest_final c ≡ some h → h ≢ []

abbrev hash_buffer_size : ℕ
hash_buffer_size = 4096

unfoldable pub hex_digit : ℕ → ℕ
hex_digit n = if ltb n 10 then b'0' + n else b'a' + (n - 10)

-- `hex << setfill('0') << setw(2)` of each byte: two digits.
unfoldable pub bytes_to_hex : Bytes → Bytes
bytes_to_hex [] = []
bytes_to_hex (b ∷ bs) = hex_digit (b / 16) ∷ hex_digit (b % 16) ∷ bytes_to_hex bs

module _ (evp : Evp) where
  open evp use {Context, new_context, digest_init, digest_update, digest_final}

  -- The loop `while (ok && input)`: a failed update ends it.
  unfoldable pub update_all : Context → List Bytes → Option Context
  update_all c [] = some c
  update_all c (b ∷ bs) = digest_update c b >>= λ c'. update_all c' bs

  -- `none` is a result of false; the digest is then left alone.
  unfoldable pub compute_file_sha256 : Disk → Bytes → Option Bytes
  unfolding update_all
  compute_file_sha256 d file_path = do
    s ← open_in d file_path
    ctx ← new_context
    c ← digest_init ctx
    c' ← update_all c (blocks hash_buffer_size s)
    digest ← digest_final c'
    some (bytes_to_hex digest)

  unfoldable pub compute_string_sha256 : Bytes → Option Bytes
  compute_string_sha256 input = do
    ctx ← new_context
    c ← digest_init ctx
    c' ← digest_update c input
    digest ← digest_final c'
    some (bytes_to_hex digest)
