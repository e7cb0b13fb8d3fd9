-- ===== src/PeerServer/Closing.antt =====
-- src/network/socketUtils.cpp, `close`: open descriptors counted, and closed once or once too often.
use ai_optimized_distributed.Base.{
  ℕ, suc, ◌+◌, ◌≤◌, ◌<◌, ◌≡◌, refl, true, false, List, [], ◌∷◌, ◌++◌, arith, All, if◌then◌else◌,
  ◌==◌,
}
use ai_optimized_distributed.Descriptors.{Os, close, without, is_open}
use ai_optimized_distributed.ThreadPool.Counts.{count}

pub is_open-none :
    (fd : ℕ) (tasks base : List ℕ)
    → All (λ t. fd < t) tasks
    → All (λ t. t < fd) base
    → is_open fd (tasks ++ base) ≡ false
is_open-none fd [] [] h k = refl
is_open-none fd [] (b ∷ base) h (k, ks) = ground (arith, is_open-none fd [] base tt ks)
is_open-none fd (t ∷ tasks) base (h, hs) k = ground (arith, is_open-none fd tasks base hs k)

pub close_open :
    (fd : ℕ) (os : Os)
    → is_open fd os.open_fds ≡ true
    → ((close fd os).open_fds ≡ without fd os.open_fds) × ((close fd os).bad_closes ≡ os.bad_closes)
unfolding close
close_open fd os h = ground arith

pub close_unknown :
    (fd : ℕ) (os : Os)
    → is_open fd os.open_fds ≡ false
    → ((close fd os).open_fds ≡ os.open_fds) × ((close fd os).bad_closes ≡ suc os.bad_closes)
unfolding close
close_unknown fd os h = ground arith

pub close-next_fd : (fd : ℕ) (os : Os) → (close fd os).next_fd ≡ os.next_fd
unfolding close
close-next_fd fd os = ground arith

-- A descriptor that is counted is open, and one that is not counted is not.
pub count-is_open : (fd : ℕ) (fds : List ℕ) → 0 < count fd fds → is_open fd fds ≡ true
count-is_open fd [] h = absurd (omega arith)
count-is_open fd (t ∷ fds) h = ground (arith, count-is_open fd fds)

pub count-not_open : (fd : ℕ) (fds : List ℕ) → count fd fds ≡ 0 → is_open fd fds ≡ false
count-not_open fd [] h = refl
count-not_open fd (t ∷ fds) h = ground (arith, count-not_open fd fds)

-- `close` takes one away.
pub count-without :
    (a fd : ℕ) (fds : List ℕ)
    → is_open fd fds ≡ true
    → count a (without fd fds) + (if fd == a then 1 else 0) ≡ count a fds
count-without a fd [] h = cc
count-without a fd (t ∷ fds) h = ground (arith, count-without a fd fds)

pub count-above : (fd : ℕ) (fds : List ℕ) → All (λ t. fd < t) fds → count fd fds ≡ 0
count-above fd [] h = refl
count-above fd (t ∷ fds) (h, hs) = ground (arith, count-above fd fds hs)

pub count-below : (fd : ℕ) (fds : List ℕ) → All (λ t. t < fd) fds → count fd fds ≡ 0
count-below fd [] h = refl
count-below fd (t ∷ fds) (h, hs) = ground (arith, count-below fd fds hs)

pub All-below :
    (fd next : ℕ) (fds : List ℕ) → next ≤ fd → All (λ t. t < next) fds → All (λ t. t < fd) fds
All-below fd next [] h k = tt
All-below fd next (t ∷ fds) h (k, ks) = (omega (arith, h, k), All-below fd next fds h ks)
