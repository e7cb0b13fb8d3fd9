-- ===== src/Chunks/Merge.antt =====
-- src/file/chunkManager.cpp, `mergeChunks`: the output is the chunk files one behind the other.
use native.Mathlib.Decide.{ℕ_discrete}
use ai_optimized_distributed.Base.{
  ℕ, zero, suc, ◌+◌, ◌≤◌, ◌<◌, ◌≡◌, ◌≢◌, refl, ap, inl, inr, Option-cases, Bool-cases, subst, sym,
  ◌∙◌, Bool, true, false, some, none, List, [], ◌∷◌, ◌++◌, append_assoc, append-nil, Bytes, arith,
  length,
}
use ai_optimized_distributed.Base.Decimal.{ℤ, pos, negsuc}
use ai_optimized_distributed.Disk.{
  Disk, open_in, open_out, write, put, MayWrite, MayRead, files-put_self, files-put_ne,
  permissions-put, open_out-put, write-put, open_in-some, write-keeps, open_out-keeps,
}
use ai_optimized_distributed.Disk.Blocks.{blocks, concat, concat-blocks}
use ai_optimized_distributed.Chunks.{
  k_transfer_buffer_size, chunk_exists, and_then, copy_pieces, merge_one, merge_loop, merge_chunks,
  split_file_into_chunks,
}
use ai_optimized_distributed.Chunks.Split.{
  path, Stored, MayWriteChunks, SplitResult, split_file_into_chunks-SplitResult,
}

module _ (base file_id output_path : Bytes) where
  -- The output got `s` behind `t`, and nothing else changed.
  abbrev pub Appends : Disk → Bytes → Bytes → Bool × Disk → Type 0
  Appends d t s (ok, d') =
      (ok ≡ true)
      × (d'.files output_path ≡ some (t ++ s))
      × (d'.permissions ≡ d.permissions)
      × ((q : Bytes) → q ≢ output_path → d'.files q ≡ d.files q)

  Appends-after :
      (d : Disk) (t b s : Bytes) (r : Bool × Disk)
      → Appends (put d output_path (some (t ++ b))) (t ++ b) s r
      → Appends d t (b ++ s) r
  Appends-after d t b s (ok, d') (done, grown, same, rest) = (
    done,
    grown ∙ ap some (append_assoc t b s),
    same ∙ permissions-put d output_path (some (t ++ b)),
    λ q h. rest q h ∙ files-put_ne d output_path q (some (t ++ b)) h,
  )

  copy_pieces-cons :
      (d : Disk) (t b : Bytes) (bs : List Bytes)
      → MayWrite d.permissions output_path
      → d.files output_path ≡ some t
      → copy_pieces output_path d (b ∷ bs)
        ≡ copy_pieces output_path (put d output_path (some (t ++ b))) bs
  unfolding copy_pieces
  copy_pieces-cons d t b bs h e = rw (copy_pieces, write-put d output_path b t h e)

  copy_pieces-Appends :
      (d : Disk) (t : Bytes) (bs : List Bytes)
      → MayWrite d.permissions output_path
      → d.files output_path ≡ some t
      → Appends d t (concat bs) (copy_pieces output_path d bs)
  copy_pieces-Appends d t [] h e =
      unfold copy_pieces in (refl, e ∙ ap some (sym (append-nil t)), refl, λ q k. refl)
  copy_pieces-Appends d t (b ∷ bs) h e =
      let d' = put d output_path (some (t ++ b)) in
      subst (Appends d t (b ++ concat bs)) (sym (copy_pieces-cons d t b bs h e)) (
        Appends-after d t b (concat bs) _ (
          copy_pieces-Appends d' (t ++ b) bs (rw (permissions-put d output_path (some (t ++ b))) h)
            (files-put_self d output_path (some (t ++ b)))))

  merge_one-Appends :
      (d : Disk) (t b : Bytes) (i : ℕ)
      → MayWrite d.permissions output_path
      → MayRead d.permissions (path base file_id i)
      → d.files (path base file_id i) ≡ some b
      → d.files output_path ≡ some t
      → Appends d t b (merge_one base file_id output_path d i)
  unfolding merge_one chunk_exists
  merge_one-Appends d t b i h k stored e =
      rw (merge_one, stored, open_in-some d (path base file_id i) b k stored)
        (subst (λ s. Appends d t s (copy_pieces output_path d (blocks k_transfer_buffer_size b)))
          (concat-blocks k_transfer_buffer_size b (omega arith))
          (copy_pieces-Appends d t (blocks k_transfer_buffer_size b) h e))

  Stored-same :
      (d d' : Disk) (i : ℕ) (bs : List Bytes)
      → ((j : ℕ) → d'.files (path base file_id j) ≡ d.files (path base file_id j))
      → Stored base file_id d i bs
      → Stored base file_id d' i bs
  Stored-same d d' i [] h s = tt
  Stored-same d d' i (b ∷ bs) h (here, later) = (h i ∙ here, Stored-same d d' (i + 1) bs h later)

  -- One chunk was appended; the rest of the loop goes on from there.
  and_then-Appends :
      (d : Disk) (t b s : Bytes) (r : Bool × Disk) (f : Disk → Bool × Disk)
      → Appends d t b r
      → ((d' : Disk) → Appends d t b (true, d') → Appends d' (t ++ b) s (f d'))
      → Appends d t (b ++ s) (and_then r f)
  and_then-Appends d t b s (false, d') f a k = cc (a.0)
  and_then-Appends d t b s (true, d') f a k = chain (f d') (k d' a)
    where
      chain : (r : Bool × Disk) → Appends d' (t ++ b) s r → Appends d t (b ++ s) r
      chain (ok, d₂) (done, grown, same, rest) =
          (done, grown ∙ ap some (append_assoc t b s), same ∙ a.2, λ q h. rest q h ∙ a.3 q h)

  merge_loop-Appends :
      (d : Disk) (t : Bytes) (i : ℕ) (bs : List Bytes)
      → MayWrite d.permissions output_path
      → ((j : ℕ) → MayRead d.permissions (path base file_id j))
      → ((j : ℕ) → path base file_id j ≢ output_path)
      → Stored base file_id d i bs
      → d.files output_path ≡ some t
      → Appends d t (concat bs) (merge_loop base file_id output_path (length bs) i d)
  unfolding merge_loop
  merge_loop-Appends d t i [] h k apart s e =
      (refl, e ∙ ap some (sym (append-nil t)), refl, λ q g. refl)
  merge_loop-Appends d t i (b ∷ bs) h k apart (here, later) e =
      and_then-Appends d t b (concat bs) (merge_one base file_id output_path d i) _
        (merge_one-Appends d t b i h (k i) here e)
        λ d' a.
          merge_loop-Appends d' (t ++ b) (i + 1) bs (rw a.2 h) (λ j. rw a.2 (k j)) apart
            (Stored-same d d' (i + 1) bs (λ j. a.3 (path base file_id j) (apart j)) later) a.1

  merge_chunks-open_out :
      (d : Disk) (n : ℕ)
      → MayWrite d.permissions output_path
      → merge_chunks base file_id d (pos n) output_path
        ≡ merge_loop base file_id output_path n 0 (put d output_path (some []))
  unfolding merge_chunks
  merge_chunks-open_out d n h = rw (merge_chunks, open_out-put d output_path h) refl

  -- Merging as many chunks as there are pieces gives the pieces one behind the other.
  abbrev pub Merges : Disk → List Bytes → Type 0
  Merges d bs = Appends d [] (concat bs) (merge_chunks base file_id d (pos (length bs)) output_path)

  -- If every chunk file that `bs` lists is there and can be read, and the output, which is no
  -- chunk file, can be written, merging that many chunks succeeds, the output holds the chunks
  -- one behind the other and nothing else, and no other file changes.
  pub merge_chunks-Appends :
      (d : Disk) (bs : List Bytes)
      → MayWrite d.permissions output_path
      → ((j : ℕ) → MayRead d.permissions (path base file_id j))
      → ((j : ℕ) → path base file_id j ≢ output_path)
      → Stored base file_id d 0 bs
      → Merges d bs
  merge_chunks-Appends d bs h k apart s = rw (merge_chunks-open_out d (length bs) h) (
      let d' = put d output_path (some []) in
      let same = permissions-put d output_path (some []) in
      let (done, held, kept, rest) =
        merge_loop-Appends d' [] 0 bs (rw same h) (λ j. rw same (k j)) apart
          (Stored-same d d' 0 bs
            (λ j. files-put_ne d output_path (path base file_id j) (some []) (apart j)) s)
          (files-put_self d output_path (some [])) in
      (done, held, kept ∙ same, λ q g. rest q g ∙ files-put_ne d output_path q (some []) g))

  -- The output of a merge of the chunks that a split has made.
  abbrev pub Restores : Bytes → ℤ × Disk → Type 0
  Restores s (n, d) = Appends d [] s (merge_chunks base file_id d n output_path)

  SplitResult-Restores :
      (d : Disk) (s : Bytes) (chunk_size : ℕ) (r : ℤ × Disk)
      → 0 < chunk_size
      → MayWrite d.permissions output_path
      → ((j : ℕ) → MayRead d.permissions (path base file_id j))
      → ((j : ℕ) → path base file_id j ≢ output_path)
      → SplitResult base file_id d s chunk_size r
      → Restores s r
  SplitResult-Restores d s chunk_size (negsuc n, d') p h k apart split = absurd split
  SplitResult-Restores d s chunk_size (pos n, d') p h k apart ((count, stored, same, _), _, _) =
      let bs = blocks chunk_size s in
      let e : length bs ≡ n = omega (arith, count) in
      subst (λ m. Restores s (pos m, d')) e
        (subst (λ u. Appends d' [] u (merge_chunks base file_id d' (pos (length bs)) output_path))
          (concat-blocks chunk_size s p)
          (merge_chunks-Appends d' bs (rw same h) (λ j. rw same (k j)) apart stored))

  -- Merging the chunks of a split gives the input back, byte for byte, for every input and every
  -- positive chunk size, if the input can be read, the chunk files can be written and read, the
  -- output can be written, and the output is no chunk file.
  pub merge_chunks-split :
      (d : Disk) (input_path s : Bytes) (chunk_size : ℕ)
      → open_in d input_path ≡ some s
      → 0 < chunk_size
      → MayWriteChunks base file_id d
      → ((j : ℕ) → MayRead d.permissions (path base file_id j))
      → MayWrite d.permissions output_path
      → ((j : ℕ) → path base file_id j ≢ output_path)
      → Restores s (split_file_into_chunks base file_id d input_path chunk_size)
  merge_chunks-split d input_path s chunk_size e p w k h apart =
      SplitResult-Restores d s chunk_size _ p h k apart
        (split_file_into_chunks-SplitResult base file_id d input_path s chunk_size e p w)

  copy_pieces-keeps :
      (d : Disk) (bs : List Bytes) (q : Bytes)
      → q ≢ output_path
      → (copy_pieces output_path d bs).1.files q ≡ d.files q
  unfolding copy_pieces
  copy_pieces-keeps d [] q h = refl
  copy_pieces-keeps d (b ∷ bs) q h = elim (Option-cases (write d output_path b)) [
    | inl e ↦ rw (copy_pieces, e)
    | inr (d', e) ↦
        rw (copy_pieces, e) (copy_pieces-keeps d' bs q h ∙ write-keeps d d' output_path q b e h)
  ]

  merge_one-keeps :
      (d : Disk) (i : ℕ) (q : Bytes)
      → q ≢ output_path
      → (merge_one base file_id output_path d i).1.files q ≡ d.files q
  unfolding merge_one
  merge_one-keeps d i q h = elim (Bool-cases (chunk_exists d base file_id (pos i))) [
    | inr e ↦ rw (merge_one, e)
    | inl e ↦ elim (Option-cases (open_in d (path base file_id i))) [
      | inl e₂ ↦ rw (merge_one, e, e₂)
      | inr (s, e₂) ↦
          rw (merge_one, e, e₂) (copy_pieces-keeps d (blocks k_transfer_buffer_size s) q h)
    ]
  ]

  and_then-false :
      (r : Bool × Disk) (f : Disk → Bool × Disk) → (f r.1).0 ≡ false → (and_then r f).0 ≡ false
  and_then-false (true, d) f h = h
  and_then-false (false, d) f h = refl

  merge_one-missing :
      (d : Disk) (i : ℕ)
      → d.files (path base file_id i) ≡ none
      → (merge_one base file_id output_path d i).0 ≡ false
  unfolding merge_one chunk_exists
  merge_one-missing d i e = rw (merge_one, e)

  merge_loop-missing :
      (d : Disk) (rounds i j : ℕ)
      → path base file_id j ≢ output_path
      → d.files (path base file_id j) ≡ none
      → i ≤ j
      → j < i + rounds
      → (merge_loop base file_id output_path rounds i d).0 ≡ false
  unfolding merge_loop
  merge_loop-missing d zero i j h e p q = absurd (omega arith)
  merge_loop-missing d (suc rounds) i j h e p q = elim (ℕ_discrete i j) [
    | yes here ↦
        and_then-stops (merge_one base file_id output_path d i) _
          (merge_one-missing d i (subst (λ k. d.files (path base file_id k) ≡ none) (sym here) e))
    | no later ↦ and_then-false (merge_one base file_id output_path d i) _ (
        merge_loop-missing (merge_one base file_id output_path d i).1 rounds (i + 1) j h
          (merge_one-keeps d i (path base file_id j) h ∙ e) (omega arith) (omega arith))
  ]
    where
      and_then-stops :
          (r : Bool × Disk) (f : Disk → Bool × Disk) → r.0 ≡ false → (and_then r f).0 ≡ false
      and_then-stops (true, d) f h = cc
      and_then-stops (false, d) f h = refl

  -- A merge never reports success without every chunk: if one chunk file that it needs is missing
  -- at the start, and that is not the output itself, it fails, whatever else the disk holds.
  pub merge_chunks-missing :
      (d : Disk) (total_chunks j : ℕ)
      → j < total_chunks
      → path base file_id j ≢ output_path
      → d.files (path base file_id j) ≡ none
      → (merge_chunks base file_id d (pos total_chunks) output_path).0 ≡ false
  unfolding merge_chunks
  merge_chunks-missing d total_chunks j p h e = elim (Option-cases (open_out d output_path)) [
    | inl shut ↦ rw (merge_chunks, shut)
    | inr (d', opened) ↦
        rw (merge_chunks, opened)
          (merge_loop-missing d' total_chunks 0 j h
            (open_out-keeps d d' output_path (path base file_id j) opened h ∙ e) (omega arith)
            (omega arith))
  ]
