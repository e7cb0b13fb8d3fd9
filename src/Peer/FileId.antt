-- ===== src/Peer/FileId.antt =====
-- src/peer/peer.cpp, `isSafeFileId`: what an accepted id is.
use ai_optimized_distributed.Base.{◌≤◌, ◌≡◌, ◌≢◌, true, [], ◌∷◌, Bytes, arith, length, All}
use ai_optimized_distributed.Base.Stream.{NoSpace}
use ai_optimized_distributed.Peer.{all_safe, is_safe_file_id}

all_safe-All : (s : Bytes) → all_safe s ≡ true → NoSpace s × All (λ c. c ≢ b'/') s
unfolding all_safe
all_safe-All [] h = (tt, tt)
all_safe-All (c ∷ s) h =
    let (p, q) = all_safe-All s (ground arith) in ((ground arith, p), (ground arith, q))

-- An accepted id is one word of at most 128 bytes without a slash, so it travels as a field of a
-- message and adds no directory level to a path.
pub is_safe_file_id-IsWord :
    (s : Bytes)
    → is_safe_file_id s ≡ true
    → (s ≢ []) × NoSpace s × All (λ c. c ≢ b'/') s × (length s ≤ 128)
unfolding is_safe_file_id
is_safe_file_id-IsWord [] h = cc
is_safe_file_id-IsWord (c ∷ s) h =
    let (p, q) = all_safe-All (c ∷ s) (ground arith) in (λ e. cc, p, q, ground arith)

-- No zero byte ends an accepted id early.
all_safe-NoZero : (s : Bytes) → all_safe s ≡ true → All (λ c. c ≢ 0) s
unfolding all_safe
all_safe-NoZero [] h = tt
all_safe-NoZero (c ∷ s) h = (ground arith, all_safe-NoZero s (ground arith))

pub is_safe_file_id-NoZero : (s : Bytes) → is_safe_file_id s ≡ true → All (λ c. c ≢ 0) s
unfolding is_safe_file_id
is_safe_file_id-NoZero s h = all_safe-NoZero s (ground arith)
