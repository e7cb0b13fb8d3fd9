-- ===== src/Chunks/Paths.antt =====
-- src/file/chunkManager.cpp: chunks of one file have paths of their own.
use ai_optimized_distributed.Base.{ℕ, ◌≡◌, refl, ap, [], ◌∷◌, ◌++◌, Bytes, codes}
use ai_optimized_distributed.Base.Decimal.{
  pos, to_string, to_string_ℕ, scan-to_string, scan_sign, skip_space,
}
use ai_optimized_distributed.Chunks.{get_chunk_path}

append-cancel_left : (s t u : Bytes) → s ++ t ≡ s ++ u → t ≡ u
append-cancel_left [] t u h = h
append-cancel_left (c ∷ s) t u h = append-cancel_left s t u (cc h)

to_string-injective : (m n : ℕ) → to_string_ℕ m ≡ to_string_ℕ n → m ≡ n
to_string-injective m n h = cc (
  ap (λ s. scan_sign (skip_space s)) (ap (λ s. s ++ []) h),
  scan-to_string m [] refl,
  scan-to_string n [] refl,
)

-- Two chunks of a file have the same path only if they are the same chunk.
pub get_chunk_path-injective :
    (base file_id : Bytes) (m n : ℕ)
    → get_chunk_path base file_id (pos m) ≡ get_chunk_path base file_id (pos n)
    → m ≡ n
unfolding get_chunk_path to_string
get_chunk_path-injective base file_id m n h = to_string-injective m n (
    append-cancel_left (codes "/chunk_") _ _ (
      append-cancel_left file_id _ _
        (append-cancel_left (b'/' ∷ []) _ _ (append-cancel_left base _ _ h))))
