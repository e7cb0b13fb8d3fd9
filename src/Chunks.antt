-- ===== src/Chunks.antt =====
-- src/file/chunkManager.cpp: a file is split into chunk files, and chunk files are merged.
pub mod Paths
pub mod Split
pub mod Merge
use ai_optimized_distributed.Base.{
  ℕ, zero, suc, ◌+◌, ◌*◌, Bool, true, false, Option, none, some, List, [], ◌∷◌, ◌++◌, Bytes, codes,
  if◌then◌else◌,
}
use ai_optimized_distributed.Base.Decimal.{ℤ, pos, negsuc, to_string}
use ai_optimized_distributed.Disk.{Disk, open_in, open_out, write, exists}
use ai_optimized_distributed.Disk.Blocks.{blocks}

abbrev pub k_transfer_buffer_size : ℕ
k_transfer_buffer_size = 16 * 1024

unfoldable pub get_chunk_path : Bytes → Bytes → ℤ → Bytes
get_chunk_path base_chunk_dir file_id chunk_index =
    base_chunk_dir ++ (b'/' ∷ (file_id ++ (codes "/chunk_" ++ to_string chunk_index)))

unfoldable pub chunk_exists : Disk → Bytes → Bytes → ℤ → Bool
chunk_exists d base_chunk_dir file_id (negsuc n) = false
chunk_exists d base_chunk_dir file_id (pos i) =
    exists d (get_chunk_path base_chunk_dir file_id (pos i))

-- The inner loop, over the pieces of one chunk file.
unfoldable pub copy_pieces : Bytes → Disk → List Bytes → Bool × Disk
copy_pieces output_path d [] = (true, d)
copy_pieces output_path d (piece ∷ pieces) = elim (write d output_path piece) [
  | none ↦ (false, d)
  | some d' ↦ copy_pieces output_path d' pieces
]

abbrev pub and_then : Bool × Disk → (Disk → Bool × Disk) → Bool × Disk
and_then (true, d) f = f d
and_then (false, d) f = (false, d)

module _ (base_chunk_dir file_id : Bytes) where
  -- The loop over the pieces of the input; a chunk file that cannot be opened or written ends it.
  unfoldable pub split_loop : Disk → ℕ → List Bytes → ℕ × Disk
  split_loop d chunk_index [] = (chunk_index, d)
  split_loop d chunk_index (piece ∷ pieces) =
      let path = get_chunk_path base_chunk_dir file_id (pos chunk_index) in
      elim (open_out d path) [
        | none ↦ (chunk_index, d)
        | some d₁ ↦ elim (write d₁ path piece) [
          | none ↦ (chunk_index, d₁)
          | some d₂ ↦ split_loop d₂ (chunk_index + 1) pieces
        ]
      ]

  -- The result is the number of chunks, or -1 if the input cannot be opened.
  unfoldable pub split_file_into_chunks : Disk → Bytes → ℕ → ℤ × Disk
  unfolding split_loop
  split_file_into_chunks d input_path chunk_size = elim (open_in d input_path) [
    | none ↦ (negsuc 0, d)
    | some s ↦ (let (n, d') = split_loop d 0 (blocks chunk_size s) in (pos n, d'))
  ]

  -- One round: the chunk file must exist and open, and is copied whole.
  unfoldable pub merge_one : Bytes → Disk → ℕ → Bool × Disk
  unfolding copy_pieces chunk_exists
  merge_one output_path d chunk_index =
      let path = get_chunk_path base_chunk_dir file_id (pos chunk_index) in
      if chunk_exists d base_chunk_dir file_id (pos chunk_index)
      then (elim (open_in d path) [
        | none ↦ (false, d)
        | some s ↦ copy_pieces output_path d (blocks k_transfer_buffer_size s)
      ])
      else (false, d)

  -- The loop over the chunk numbers; the first argument counts the rounds left.
  unfoldable pub merge_loop : Bytes → ℕ → ℕ → Disk → Bool × Disk
  unfolding merge_one
  merge_loop output_path zero chunk_index d = (true, d)
  merge_loop output_path (suc rounds) chunk_index d =
      and_then (merge_one output_path d chunk_index)
        (λ d'. merge_loop output_path rounds (chunk_index + 1) d')

  unfoldable pub merge_chunks : Disk → ℤ → Bytes → Bool × Disk
  unfolding merge_loop
  merge_chunks d (negsuc n) output_path = (false, d)
  merge_chunks d (pos total_chunks) output_path = elim (open_out d output_path) [
    | none ↦ (false, d)
    | some d' ↦ merge_loop output_path total_chunks 0 d'
  ]
