-- ===== src/Examples.antt =====
-- Small concrete inputs for the theorems: a digest that adds up the bytes, a disk with two chunk
-- files, and connections that deliver in pieces.
pub mod Messages
pub mod Downloads
pub mod Files
pub mod Transfers
pub mod Delivery
pub mod States
pub mod Pool
pub mod Services
pub mod Copies
pub mod Parallel
use ai_optimized_distributed.Base.{
  ℕ, zero, suc, replicate, ◌+◌, ◌%◌, ◌<◌, ◌≡◌, ◌≢◌, refl, true, Option, none, some, [], ◌∷◌, ◌++◌,
  append-nil, append_assoc, sym, ap, Bytes, codes, bytes_eq, arith, All, if◌then◌else◌,
}
use ai_optimized_distributed.Base.Decimal.{pos}
use ai_optimized_distributed.Disk.{Permissions, Disk}
use ai_optimized_distributed.Hash.{Evp, EvpLaws, hex_digit, bytes_to_hex, compute_string_sha256}
use ai_optimized_distributed.Peer.{PeerConfig, PeerEndpoint}

-- A digest whose context keeps the bytes and whose result is their sum, in one byte.
abbrev sum_bytes : Bytes → ℕ
sum_bytes [] = 0
sum_bytes (c ∷ s) = c + sum_bytes s

abbrev pub toy_evp : Evp
toy_evp = record {
  Context = Bytes;
  new_context = some [];
  digest_init = λ c. some c;
  digest_update = λ c s. some (c ++ s);
  digest_final = λ c. some (sum_bytes c % 256 ∷ []);
}

pub toy_laws : EvpLaws toy_evp
toy_laws = record {
  update_nil = λ c. ap some (append-nil c);
  update-append = λ c s t. ap some (sym (append_assoc c s t));
  final_bytes = λ c h e. toy_bytes c h e;
  final_nonempty = λ c h e. toy_nonempty c h e;
}
  where
    toy_bytes : (c h : Bytes) → toy_evp.digest_final c ≡ some h → All (λ b. b < 256) h
    toy_bytes c [] e = tt
    toy_bytes c (b ∷ []) e = let f : b ≡ sum_bytes c % 256 = cc e in (omega arith, tt)
    toy_bytes c (b ∷ b' ∷ h) e = absurd (cc e)

    toy_nonempty : (c h : Bytes) → toy_evp.digest_final c ≡ some h → h ≢ []
    toy_nonempty c h e f = cc (e, f)

pub hello_hash : compute_string_sha256 toy_evp (codes "hello") ≡ some (codes "14")
unfolding compute_string_sha256 bytes_to_hex hex_digit
hello_hash = refl

abbrev pub all_allowed : Permissions
all_allowed = record { can_read = λ p. true; can_write = λ p. true; accepts = λ p n. true }

-- One file, `a`, with five bytes; `up/f/chunk_3` with three.
abbrev pub toy_disk : Disk
toy_disk = record {
  files = λ p.
      if bytes_eq p (codes "a")
      then some (codes "hello")
      else if bytes_eq p (codes "up/f/chunk_3")
      then some (codes "abc")
      else none;
  permissions = all_allowed;
}

abbrev pub toy_config : PeerConfig
toy_config = record {
  peer_id = codes "p1";
  port = pos 9000;
  local_root_dir = codes "root";
  chunk_dir = codes "up";
  download_dir = codes "down";
  reconstructed_dir = codes "out";
  tracker_ip = codes "127.0.0.1";
  tracker_port = pos 8080;
}

abbrev pub toy_peer : Bytes → PeerEndpoint
toy_peer name = record { peer_id = name; ip = codes "10.0.0.1"; port = pos 9001 }

-- A socket that takes the same number of bytes at each call.
pub All-positive : (k n : ℕ) → All (λ m. 0 < m) (replicate n (suc k))
All-positive k zero = tt
All-positive k (suc n) = (omega arith, All-positive k n)
