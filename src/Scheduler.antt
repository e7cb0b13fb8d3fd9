-- ===== src/Scheduler.antt =====
-- src/peer/chunkScheduler.cpp: which chunk a worker takes next. Each operation holds the mutex for
-- its whole body, so it is one function on the state. `get_next_chunk` gives `none` for -1.
pub mod Claims
pub mod Abstract
pub mod States
pub mod Refinement
use ai_optimized_distributed.Base.{
  ℕ, zero, suc, ◌+◌, Bool, true, false, not, ◌&&◌, Option, none, some, List, [], ◌∷◌, get_or, set,
  replicate, ltb, if◌then◌else◌,
}
use ai_optimized_distributed.Base.Decimal.{ℤ, pos, negsuc}

pub record ChunkScheduler : Type 0 where
  pub total_chunks : ℕ
  pub done : List Bool
  pub claimed : List Bool

unfoldable pub new_scheduler : ℕ → ChunkScheduler
new_scheduler n = record { total_chunks = n; done = replicate n false; claimed = replicate n false }

abbrev pub is_done : ChunkScheduler → ℕ → Bool
is_done s i = get_or s.done i false

abbrev pub is_claimed : ChunkScheduler → ℕ → Bool
is_claimed s i = get_or s.claimed i false

-- `for (int i = 0; i < totalChunks; i++)`: the first argument counts the rounds left.
unfoldable pub next_from : ℕ → ℕ → ChunkScheduler → Option ℕ
next_from zero i s = none
next_from (suc rounds) i s =
    let later = next_from rounds (i + 1) s in
    if not (is_done s i) && not (is_claimed s i) then some i else later

unfoldable pub claim : ChunkScheduler → Option ℕ → Option ℕ × ChunkScheduler
claim s none = (none, s)
claim s (some i) = (some i, record s { claimed = set s.claimed i true })

unfoldable pub get_next_chunk : ChunkScheduler → Option ℕ × ChunkScheduler
unfolding claim next_from
get_next_chunk s = claim s (next_from s.total_chunks 0 s)

unfoldable pub mark_done : ChunkScheduler → ℤ → ChunkScheduler
mark_done s (negsuc n) = s
mark_done s (pos i) =
    if ltb i s.total_chunks
    then record s { done = set s.done i true; claimed = set s.claimed i false }
    else s

unfoldable pub mark_failed : ChunkScheduler → ℤ → ChunkScheduler
mark_failed s (negsuc n) = s
mark_failed s (pos i) =
    if ltb i s.total_chunks then record s { claimed = set s.claimed i false } else s

all_true : List Bool → Bool
all_true [] = true
all_true (b ∷ bs) = if b then all_true bs else false

unfoldable pub all_done : ChunkScheduler → Bool
unfolding all_true
all_done s = all_true s.done
