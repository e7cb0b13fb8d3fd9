-- ===== src/Disk.antt =====
-- Files as the program sees them through `std::ifstream`, `std::ofstream` and `std::filesystem`:
-- a path has contents or none, and the system may refuse to open a file or to take more bytes.
-- Directories are not kept: a file is known by its path alone. Removing a file succeeds.
pub mod Blocks
use ai_optimized_distributed.Base.{
  ℕ, zero, suc, ◌+◌, ◌≡◌, ◌≢◌, refl, ap, sym, ◌∙◌, Bool, true, false, Option, none, some, List, [],
  ◌∷◌, ◌++◌, arith, Bytes, bytes_eq, bytes_eq→eq, bytes_eq_refl, if◌then◌else◌, length, Bool-cases,
  inl, inr,
}

-- What the system allows: opening for reading, opening for writing, and growing to a size.
pub record Permissions : Type 0 where
  pub can_read : Bytes → Bool
  pub can_write : Bytes → Bool
  pub accepts : Bytes → ℕ → Bool

pub record Disk : Type 0 where
  pub files : Bytes → Option Bytes
  pub permissions : Permissions
  pub open permissions use *

unfoldable pub put : Disk → Bytes → Option Bytes → Disk
put d path contents = record d { files = λ p. if bytes_eq p path then contents else d.files p }

-- `ifstream in(path)`: the contents that are read, or a stream that tests false.
unfoldable pub open_in : Disk → Bytes → Option Bytes
open_in d path = if d.can_read path then d.files path else none

-- `ofstream out(path)`: an empty file, or a stream that tests false.
unfoldable pub open_out : Disk → Bytes → Option Disk
unfolding put
open_out d path = if d.can_write path then some (put d path (some [])) else none

abbrev pub contents_of : Option Bytes → Bytes
contents_of none = []
contents_of (some s) = s

-- `out.write(…)` at the end of an open file; `none` is a stream that tests false.
unfoldable pub write : Disk → Bytes → Bytes → Option Disk
unfolding put
write d path s =
    let grown : Bytes = contents_of (d.files path) ++ s in
    if d.accepts path (length grown) then some (put d path (some grown)) else none

abbrev is_some {ℓ} : {A : Type ℓ} → Option A → Bool
is_some none = false
is_some (some a) = true

-- `filesystem::exists` and `filesystem::file_size`.
abbrev pub exists : Disk → Bytes → Bool
exists d path = is_some (d.files path)

abbrev pub file_size : Disk → Bytes → ℕ
file_size d path = length (contents_of (d.files path))

unfoldable pub remove : Disk → Bytes → Disk
unfolding put
remove d path = put d path none

pub bytes_eq_ne : (s t : Bytes) → s ≢ t → bytes_eq s t ≡ false
bytes_eq_ne s t h = elim (Bool-cases (bytes_eq s t)) [
  | inl e ↦ absurd (h (bytes_eq→eq s t e))
  | inr e ↦ e
]

pub files-put_self : (d : Disk) (p : Bytes) (c : Option Bytes) → (put d p c).files p ≡ c
unfolding put
files-put_self d p c = rw (bytes_eq_refl p)

pub files-put_ne :
    (d : Disk) (p q : Bytes) (c : Option Bytes) → q ≢ p → (put d p c).files q ≡ d.files q
unfolding put
files-put_ne d p q c h = rw (bytes_eq_ne q p h)

-- The system lets a path be written to any size; the system lets it be read.
abbrev pub MayWrite : Permissions → Bytes → Type 0
MayWrite a p = (a.can_write p ≡ true) × ((n : ℕ) → a.accepts p n ≡ true)

abbrev pub MayRead : Permissions → Bytes → Type 0
MayRead a p = a.can_read p ≡ true

pub permissions-put :
    (d : Disk) (p : Bytes) (c : Option Bytes) → (put d p c).permissions ≡ d.permissions
unfolding put
permissions-put d p c = refl

pub open_out-put :
    (d : Disk) (p : Bytes) → MayWrite d.permissions p → open_out d p ≡ some (put d p (some []))
unfolding open_out
open_out-put d p (h, _) = rw h

pub write-put :
    (d : Disk) (p s t : Bytes)
    → MayWrite d.permissions p
    → d.files p ≡ some t
    → write d p s ≡ some (put d p (some (t ++ s)))
unfolding write
write-put d p s t (_, h) e = rw (e, h (length (t ++ s)))

pub open_in-some :
    (d : Disk) (p s : Bytes) → MayRead d.permissions p → d.files p ≡ some s → open_in d p ≡ some s
unfolding open_in
open_in-some d p s h e = rw (h, e)

-- A write and an open change no other file.
pub write-keeps :
    (d d' : Disk) (p q s : Bytes) → write d p s ≡ some d' → q ≢ p → d'.files q ≡ d.files q
unfolding write
write-keeps d d' p q s e h = ground (arith, bytes_eq_ne q p h)

pub open_out-keeps :
    (d d' : Disk) (p q : Bytes) → open_out d p ≡ some d' → q ≢ p → d'.files q ≡ d.files q
unfolding open_out
open_out-keeps d d' p q e h = ground (arith, bytes_eq_ne q p h)

-- What a write that succeeds has done.
pub write-eq :
    (d d' : Disk) (p s : Bytes)
    → write d p s ≡ some d'
    → d' ≡ put d p (some (contents_of (d.files p) ++ s))
unfolding write
write-eq d d' p s e = ground arith

pub open_out-eq : (d d' : Disk) (p : Bytes) → open_out d p ≡ some d' → d' ≡ put d p (some [])
unfolding open_out
open_out-eq d d' p e = ground arith

pub open_out-allowed :
    (d : Disk) (p : Bytes) → d.can_write p ≡ true → open_out d p ≡ some (put d p (some []))
unfolding open_out
open_out-allowed d p h = rw h

pub file_size-open_in : (d : Disk) (p s : Bytes) → open_in d p ≡ some s → file_size d p ≡ length s
unfolding open_in
file_size-open_in d p s e = elim (Bool-cases (d.can_read p)) [
  | inl y ↦ ap (λ c. length (contents_of c)) (sym (ap (λ b. if b then d.files p else none) y) ∙ e)
  | inr n ↦ cc (sym (ap (λ b. if b then d.files p else none) n) ∙ e)
]
