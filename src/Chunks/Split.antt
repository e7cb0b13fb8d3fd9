-- ===== src/Chunks/Split.antt =====
-- src/file/chunkManager.cpp, `splitFileIntoChunks`: the chunk files hold the pieces in order.
use ai_optimized_distributed.Base.{
  ℕ, ◌+◌, ◌≤◌, ◌<◌, ◌≡◌, ◌≢◌, refl, subst, sym, ◌∙◌, some, List, [], ◌∷◌, Bytes, arith, length, All,
}
use ai_optimized_distributed.Base.Decimal.{ℤ, pos, negsuc}
use ai_optimized_distributed.Disk.{
  Disk, open_in, put, MayWrite, files-put_self, files-put_ne, permissions-put, open_out-put,
  write-put,
}
use ai_optimized_distributed.Disk.Blocks.{blocks, IsBlock, CoversIn, blocks-IsBlock, blocks-Covers}
use ai_optimized_distributed.Chunks.{get_chunk_path, split_loop, split_file_into_chunks}
use ai_optimized_distributed.Chunks.Paths.{get_chunk_path-injective}

module _ (base file_id : Bytes) where
  abbrev pub path : ℕ → Bytes
  path i = get_chunk_path base file_id (pos i)

  -- The pieces lie in the chunk files from number `i` on.
  abbrev pub Stored : Disk → ℕ → List Bytes → Type 0
  Stored d i [] = Unit {0}
  Stored d i (b ∷ bs) = (d.files (path i) ≡ some b) × Stored d (i + 1) bs

  abbrev pub MayWriteChunks : Disk → Type 0
  MayWriteChunks d = (i : ℕ) → MayWrite d.permissions (path i)

  abbrev written : Disk → ℕ → Bytes → Disk
  written d i b = put (put d (path i) (some [])) (path i) (some b)

  split_loop-cons :
      (d : Disk) (i : ℕ) (b : Bytes) (bs : List Bytes)
      → MayWriteChunks d
      → split_loop base file_id d i (b ∷ bs) ≡ split_loop base file_id (written d i b) (i + 1) bs
  unfolding split_loop
  split_loop-cons d i b bs h = rw (
    split_loop,
    open_out-put d (path i) (h i),
    write-put (put d (path i) (some [])) (path i) b []
        (rw (permissions-put d (path i) (some [])) (h i)) (files-put_self d (path i) (some [])),
  )

  -- Paths of no chunk from `i` on keep their contents.
  abbrev pub Untouched : Disk → Disk → ℕ → Type 0
  Untouched d d' i = (q : Bytes) → ((j : ℕ) → i ≤ j → q ≢ path j) → d'.files q ≡ d.files q

  abbrev pub Splits : Disk → ℕ → List Bytes → ℕ × Disk → Type 0
  Splits d i bs (k, d') =
      (k ≡ i + length bs) × Stored d' i bs × (d'.permissions ≡ d.permissions) × Untouched d d' i

  files-written :
      (d : Disk) (i : ℕ) (b q : Bytes) → q ≢ path i → (written d i b).files q ≡ d.files q
  files-written d i b q h =
      files-put_ne (put d (path i) (some [])) (path i) q (some b) h
      ∙ files-put_ne d (path i) q (some []) h

  permissions-written : (d : Disk) (i : ℕ) (b : Bytes) → (written d i b).permissions ≡ d.permissions
  permissions-written d i b =
      permissions-put (put d (path i) (some [])) (path i) (some b)
      ∙ permissions-put d (path i) (some [])

  Splits-cons :
      (d : Disk) (i : ℕ) (b : Bytes) (bs : List Bytes) (r : ℕ × Disk)
      → Splits (written d i b) (i + 1) bs r
      → Splits d i (b ∷ bs) r
  Splits-cons d i b bs (k, d') (count, stored, same, rest) = (
    omega arith,
    (
      rest (path i)
            (λ j h e. absurd (ne_of_next i j h (get_chunk_path-injective base file_id i j e)))
          ∙ files-put_self (put d (path i) (some [])) (path i) (some b),
      stored,
    ),
    same ∙ permissions-written d i b,
    λ q h. rest q (λ j g. h j (omega arith)) ∙ files-written d i b q (h i (omega arith)),
  )
    where
      ne_of_next : (i j : ℕ) → i + 1 ≤ j → i ≢ j
      ne_of_next i j h = omega arith

  split_loop-Splits :
      (d : Disk) (i : ℕ) (bs : List Bytes)
      → MayWriteChunks d
      → Splits d i bs (split_loop base file_id d i bs)
  split_loop-Splits d i [] h = unfold split_loop in (omega arith, tt, refl, λ q g. refl)
  split_loop-Splits d i (b ∷ bs) h =
      subst (Splits d i (b ∷ bs)) (sym (split_loop-cons d i b bs h)) (
        Splits-cons d i b bs _ (
          split_loop-Splits (written d i b) (i + 1) bs (λ j. rw (permissions-written d i b) (h j))))

  abbrev pub SplitResult : Disk → Bytes → ℕ → ℤ × Disk → Type 0
  SplitResult d s size (negsuc n, d') = ⊥
  SplitResult d s size (pos k, d') =
      Splits d 0 (blocks size s) (k, d')
      × CoversIn size (length s) k
      × All (IsBlock size) (blocks size s)

  -- If the input can be read and the chunk files be written, the chunk files numbered from 0 hold
  -- the pieces of the input in order, no other file changes, the result is their number, which is
  -- the least that covers the input, and no chunk is empty or larger than the chunk size.
  pub split_file_into_chunks-SplitResult :
      (d : Disk) (input_path s : Bytes) (chunk_size : ℕ)
      → open_in d input_path ≡ some s
      → 0 < chunk_size
      → MayWriteChunks d
      → SplitResult d s chunk_size (split_file_into_chunks base file_id d input_path chunk_size)
  unfolding split_file_into_chunks
  split_file_into_chunks-SplitResult d input_path s chunk_size e p h =
      rw (split_file_into_chunks, e)
        (let r = split_loop-Splits d 0 (blocks chunk_size s) h in
          let count : length (blocks chunk_size s)
              ≡ (split_loop base file_id d 0 (blocks chunk_size s)).0 =
            omega (arith, r.0) in
          (
            r,
            subst (CoversIn chunk_size (length s)) count (blocks-Covers chunk_size s p),
            blocks-IsBlock chunk_size s p,
          ))
