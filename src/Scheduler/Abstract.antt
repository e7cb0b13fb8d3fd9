-- ===== src/Scheduler/Abstract.antt =====
-- src/peer/chunkScheduler.cpp against a plain description of it: a list with one state for each
-- chunk, and no indices, bounds or flags.
use ai_optimized_distributed.Base.{
  ℕ, zero, suc, Bool, true, false, ◌&&◌, Option, none, some, List, [], ◌∷◌, set,
}
use ai_optimized_distributed.Base.Decimal.{ℤ, pos, negsuc}
use ai_optimized_distributed.Scheduler.{
  ChunkScheduler, get_next_chunk, mark_done, mark_failed, all_done,
}

-- A chunk that nobody has, that a worker holds, or that is there.
pub data ChunkState : Type 0 where
  free held stored : ChunkState

-- The first free chunk becomes held.
abbrev pub behind : ChunkState → Option ℕ × List ChunkState → Option ℕ × List ChunkState
behind c (none, cs) = (none, c ∷ cs)
behind c (some i, cs) = (some (suc i), c ∷ cs)

abbrev pub take_free : List ChunkState → Option ℕ × List ChunkState
take_free [] = (none, [])
take_free (free ∷ cs) = (some 0, held ∷ cs)
take_free (held ∷ cs) = behind held (take_free cs)
take_free (stored ∷ cs) = behind stored (take_free cs)

-- Storing a chunk, and giving a held one back; both do nothing where there is no such chunk.
abbrev pub store_at : List ChunkState → ℕ → List ChunkState
store_at cs i = set cs i stored

abbrev pub given_back : ChunkState → ChunkState
given_back held = free
given_back c = c

abbrev pub give_back : List ChunkState → ℕ → List ChunkState
give_back [] i = []
give_back (c ∷ cs) zero = given_back c ∷ cs
give_back (c ∷ cs) (suc i) = c ∷ give_back cs i

abbrev pub is_stored : ChunkState → Bool
is_stored stored = true
is_stored c = false

abbrev pub all_stored : List ChunkState → Bool
all_stored [] = true
all_stored (c ∷ cs) = is_stored c && all_stored cs

-- The calls on a scheduler, and their results.
pub data Command : Type 0 where
  next : Command
  done_with failed_with : ℤ → Command
  ask_all : Command

pub data Reply : Type 0 where
  gives : Option ℕ → Reply
  nothing : Reply
  all_are : Bool → Reply

abbrev pub given {ℓ} : {A : Type ℓ} → Option ℕ × A → Reply × A
given (o, a) = (gives o, a)

abbrev pub call : ChunkScheduler → Command → Reply × ChunkScheduler
call s next = given (get_next_chunk s)
call s (done_with c) = (nothing, mark_done s c)
call s (failed_with c) = (nothing, mark_failed s c)
call s ask_all = (all_are (all_done s), s)

abbrev pub plain_call : List ChunkState → Command → Reply × List ChunkState
plain_call cs next = given (take_free cs)
plain_call cs (done_with (negsuc n)) = (nothing, cs)
plain_call cs (done_with (pos i)) = (nothing, store_at cs i)
plain_call cs (failed_with (negsuc n)) = (nothing, cs)
plain_call cs (failed_with (pos i)) = (nothing, give_back cs i)
plain_call cs ask_all = (all_are (all_stored cs), cs)

abbrev pub replies : ChunkScheduler → List Command → List Reply
replies s [] = []
replies s (c ∷ cs) = (call s c).0 ∷ replies (call s c).1 cs

abbrev pub plain_replies : List ChunkState → List Command → List Reply
plain_replies s [] = []
plain_replies s (c ∷ cs) = (plain_call s c).0 ∷ plain_replies (plain_call s c).1 cs
