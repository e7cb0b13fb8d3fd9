-- ===== src/Scheduler/Refinement.antt =====
-- src/peer/chunkScheduler.cpp: the scheduler answers as the list of chunk states does.
use ai_optimized_distributed.Base.{
  ℕ, zero, suc, ◌≤◌, ◌<◌, ◌≡◌, ◌≢◌, refl, ap, sym, subst, ◌∙◌, Bool, true, false, Option, none,
  some, List, [], ◌∷◌, arith, length, get_or, set, replicate, length-set, length-replicate,
}
use native.Mathlib.Decide.{ℕ_discrete, dec_lt}
use ai_optimized_distributed.Base.Decimal.{pos, negsuc}
use ai_optimized_distributed.Scheduler.{
  ChunkScheduler, new_scheduler, is_done, is_claimed, get_next_chunk, mark_done, mark_failed,
  all_true, all_done,
}
use ai_optimized_distributed.Scheduler.Claims.{
  IsValid, new_scheduler-IsValid, Takes, Flags, get_or-replicate, get_next_chunk-Takes,
  mark_done-Flags, mark_failed-Flags, mark_out_of_range,
}
use ai_optimized_distributed.Scheduler.States.{
  state_of, at, at-set, at-give_back, length-give_back, set_outside, give_back_outside,
  take_free-none, take_free-some, state_of-free, state_of-taken,
}
use ai_optimized_distributed.Scheduler.Abstract.{
  ChunkState, free, held, stored, take_free, store_at, given_back, give_back, is_stored, all_stored,
  Command, next, done_with, failed_with, ask_all, Reply, gives, all_are, given, call, plain_call,
  replies, plain_replies,
}

-- The list says of each chunk what its flags say.
record Refines (s : ChunkScheduler) (cs : List ChunkState) : Type 0 where
  size : length cs ≡ s.total_chunks
  valid : IsValid s
  same : (i : ℕ) → i < s.total_chunks → at cs i ≡ state_of (is_done s i) (is_claimed s i)

-- One chunk changes, in both.
one_change :
    (s t : ChunkScheduler) (cs cs' : List ChunkState) (c : ℕ) (d k : Bool)
    → Refines s cs
    → Flags s t c d k
    → IsValid t
    → length cs' ≡ length cs
    → at cs' c ≡ state_of d k
    → ((j : ℕ) → j < s.total_chunks → j ≢ c → at cs' j ≡ at cs j)
    → Refines t cs'
one_change s t cs cs' c d k r (total, fd, fk, others) v len here there = record {
  size = len ∙ r.size ∙ sym total;
  valid = v;
  same = λ i l. elim (ℕ_discrete i c) [
    | yes e ↦
        subst (λ j. at cs' j ≡ state_of (is_done t j) (is_claimed t j)) (sym e)
          (here ∙ ap (λ b. state_of b k) (sym fd) ∙ ap (state_of (is_done t c)) (sym fk))
    | no n ↦
        there i (omega (arith, l, total)) n
        ∙ r.same i (omega (arith, l, total))
        ∙ ap (λ b. state_of b (is_claimed s i)) (sym (others i n).0)
        ∙ ap (state_of (is_done t i)) (sym (others i n).1)
  ];
}

-- The same result, and states that still fit.
Agrees : Reply × ChunkScheduler → Reply × List ChunkState → Type 0
Agrees (a, s) (b, cs) = (a ≡ b) × Refines s cs

take-Agrees :
    (s : ChunkScheduler) (cs : List ChunkState) (r : Option ℕ × ChunkScheduler)
    → Refines s cs
    → Takes s r
    → Agrees (given r) (given (take_free cs))
unfolding Agrees
take-Agrees s cs (none, t) r (same_state, none_open) =
    let none_free : take_free cs ≡ (none, cs) = take_free-none cs (λ k l e.
      state_of-taken (is_done s k) (is_claimed s k) (none_open k (omega (arith, l, r.size)))
        (sym (r.same k (omega (arith, l, r.size))) ∙ e)) in
    subst (λ q. Agrees (gives none, t) (given q)) (sym none_free)
      (refl, subst (λ u. Refines u cs) (sym same_state) r)
take-Agrees s cs (some c, t) r (below, open_here, first, flags, v) =
    let taken : take_free cs ≡ (some c, set cs c held) =
      take_free-some cs c (omega (arith, below, r.size))
        (r.same c below ∙ state_of-free (is_done s c) (is_claimed s c) open_here)
        (λ k l e.
          state_of-taken (is_done s k) (is_claimed s k) (first k l)
            (sym (r.same k (omega (arith, l, below))) ∙ e)) in
    subst (λ q. Agrees (gives (some c), t) (given q)) (sym taken)
      (
        refl,
        one_change s t cs (set cs c held) c false true r flags v (length-set cs c held)
            (ground (arith, at-set cs c c held (omega (arith, below, r.size))))
            (λ j l n. ground (arith, at-set cs c j held (omega (arith, l, r.size)))),
      )

outside :
    (s : ChunkScheduler) (c : ℕ)
    → (c < s.total_chunks → ⊥)
    → (b : ℕ) → pos c ≡ pos b
    → s.total_chunks ≤ b
outside s c n b e = let f : c ≡ b = cc e in omega (arith, f, n)

done-Refines :
    (s : ChunkScheduler) (cs : List ChunkState) (c : ℕ)
    → Refines s cs
    → Refines (mark_done s (pos c)) (store_at cs c)
done-Refines s cs c r = elim (dec_lt c s.total_chunks) [
  | yes l ↦
      let (flags, v) = mark_done-Flags s c r.valid l in
      one_change s (mark_done s (pos c)) cs (store_at cs c) c true false r flags v
        (length-set cs c stored) (ground (arith, at-set cs c c stored (omega (arith, l, r.size))))
        (λ j m n. ground (arith, at-set cs c j stored (omega (arith, m, r.size))))
  | no n ↦
      subst (λ t. Refines t (store_at cs c)) (sym (mark_out_of_range s (pos c) (outside s c n)).0)
        (subst (Refines s) (sym (set_outside cs c stored (omega (arith, n, r.size)))) r)
]

given_back-state_of : (d k : Bool) → given_back (state_of d k) ≡ state_of d false
given_back-state_of true k = refl
given_back-state_of false true = refl
given_back-state_of false false = refl

failed-Refines :
    (s : ChunkScheduler) (cs : List ChunkState) (c : ℕ)
    → Refines s cs
    → Refines (mark_failed s (pos c)) (give_back cs c)
failed-Refines s cs c r = elim (dec_lt c s.total_chunks) [
  | yes l ↦
      let (flags, v) = mark_failed-Flags s c r.valid l in
      let here : at (give_back cs c) c ≡ given_back (at cs c) =
        ground (arith, at-give_back cs c c) in
      one_change s (mark_failed s (pos c)) cs (give_back cs c) c (is_done s c) false r flags v
        (length-give_back cs c)
        (here ∙ ap given_back (r.same c l) ∙ given_back-state_of (is_done s c) (is_claimed s c))
        (λ j m n. ground (arith, at-give_back cs c j))
  | no n ↦
      subst (λ t. Refines t (give_back cs c)) (sym (mark_out_of_range s (pos c) (outside s c n)).1)
        (subst (Refines s) (sym (give_back_outside cs c (omega (arith, n, r.size)))) r)
]

all_true-all_stored :
    (bs : List Bool) (cs : List ChunkState)
    → length bs ≡ length cs
    → ((i : ℕ) → i < length cs → is_stored (at cs i) ≡ get_or bs i false)
    → all_true bs ≡ all_stored cs
unfolding all_true
all_true-all_stored [] [] e h = refl
all_true-all_stored [] (c ∷ cs) e h = absurd (omega (arith, e))
all_true-all_stored (b ∷ bs) [] e h = absurd (omega (arith, e))
all_true-all_stored (b ∷ bs) (c ∷ cs) e h =
    let first : is_stored c ≡ b = h 0 (omega arith) in
    let rest = all_true-all_stored bs cs (omega (arith, e)) (λ i l. h (suc i) (omega (arith, l))) in
    ground (arith, first, rest)

is_stored-state_of : (d k : Bool) → is_stored (state_of d k) ≡ d
is_stored-state_of true k = refl
is_stored-state_of false true = refl
is_stored-state_of false false = refl

call-Agrees :
    (s : ChunkScheduler) (cs : List ChunkState) (c : Command)
    → Refines s cs
    → Agrees (call s c) (plain_call cs c)
unfolding Agrees all_done
call-Agrees s cs next r = take-Agrees s cs (get_next_chunk s) r (get_next_chunk-Takes s r.valid)
call-Agrees s cs (done_with (negsuc n)) r =
    (refl, subst (λ t. Refines t cs) (sym (mark_out_of_range s (negsuc n) (λ b e. cc e)).0) r)
call-Agrees s cs (done_with (pos c)) r = (refl, done-Refines s cs c r)
call-Agrees s cs (failed_with (negsuc n)) r =
    (refl, subst (λ t. Refines t cs) (sym (mark_out_of_range s (negsuc n) (λ b e. cc e)).1) r)
call-Agrees s cs (failed_with (pos c)) r = (refl, failed-Refines s cs c r)
call-Agrees s cs ask_all r = (
  ap all_are (
      all_true-all_stored s.done cs (r.valid.done_size ∙ sym r.size) (λ i l.
        ap is_stored (r.same i (omega (arith, l, r.size)))
        ∙ is_stored-state_of (is_done s i) (is_claimed s i))),
  r,
)

go_on-replies :
    (a : Reply × ChunkScheduler) (b : Reply × List ChunkState) (rest : List Command)
    → Agrees a b
    → ((s : ChunkScheduler) (cs : List ChunkState)
        → Refines s cs
        → replies s rest ≡ plain_replies cs rest)
    → a.0 ∷ replies a.1 rest ≡ b.0 ∷ plain_replies b.1 rest
unfolding Agrees
go_on-replies (a, s) (b, cs) rest (same, r) ih = rw (same, ih s cs r)

replies-plain :
    (commands : List Command) (s : ChunkScheduler) (cs : List ChunkState)
    → Refines s cs
    → replies s commands ≡ plain_replies cs commands
replies-plain [] s cs r = refl
replies-plain (c ∷ rest) s cs r =
    go_on-replies (call s c) (plain_call cs c) rest (call-Agrees s cs c r) (replies-plain rest)

at-replicate : (n i : ℕ) → i < n → at (replicate n free) i ≡ free
at-replicate zero i l = absurd (omega (arith, l))
at-replicate (suc n) zero l = refl
at-replicate (suc n) (suc i) l = at-replicate n i (omega (arith, l))

new_scheduler-Refines : (n : ℕ) → Refines (new_scheduler n) (replicate n free)
unfolding new_scheduler
new_scheduler-Refines n = record {
  size = length-replicate n free;
  valid = new_scheduler-IsValid n;
  same = λ i l. rw (get_or-replicate n i) (at-replicate n i l);
}

-- A new scheduler of any size answers every sequence of `getNextChunk`, `markDone`, `markFailed` and
-- `allDone`, with any numbers, in and out of range, exactly as the plain description does: a list of
-- states, all free at first, in which the first free chunk is given out and held, a stored
-- chunk stays stored, and a held one that is given back is free.
pub new_scheduler-replies :
    (n : ℕ) (commands : List Command)
    → replies (new_scheduler n) commands ≡ plain_replies (replicate n free) commands
new_scheduler-replies n commands =
    replies-plain commands (new_scheduler n) (replicate n free) (new_scheduler-Refines n)
