-- ===== src/Tracker/SharedFiles/Sorted.antt =====
-- src/peer/peer.cpp, `collectSharedFiles`: which names are collected, and that none comes twice.
use ai_optimized_distributed.Base.{
  ◌≡◌, refl, ap, sym, ◌∙◌, Bool, true, false, ◌&&◌, ◌||◌, not, inl, inr, Bool-cases, Option, none,
  some, List, [], ◌∷◌, Bytes, bytes_eq, bytes_eq→eq, is_empty, arith,
}
use ai_optimized_distributed.Peer.{PeerConfig}
use ai_optimized_distributed.Tracker.SharedFiles.{
  Directories, less, insert, insert_directories, scan_entries, scan_directory, collect_shared_files,
}

abbrev pub is_among : Bytes → List Bytes → Bool
is_among name [] = false
is_among name (other ∷ names) = bytes_eq other name || is_among name names

-- Each name is below the next.
abbrev pub Increasing : List Bytes → Type 0
Increasing [] = Unit
Increasing (name ∷ []) = Unit
Increasing (name ∷ other ∷ names) = (less name other ≡ true) × Increasing (other ∷ names)

less_total : (s t : Bytes) → bytes_eq s t ≡ false → less s t ≡ false → less t s ≡ true
less_total [] [] h k = cc
less_total [] (d ∷ t) h k = cc
less_total (c ∷ s) [] h k = refl
less_total (c ∷ s) (d ∷ t) h k = ground (arith, less_total s t)

twice : (a b : Bool) → a || b ≡ a || (a || b)
twice true b = refl
twice false b = refl

swap : (a b c : Bool) → a || (b || c) ≡ b || (a || c)
swap true true c = refl
swap true false c = refl
swap false b c = refl

assoc : (a b c : Bool) → (a || b) || c ≡ a || (b || c)
assoc true b c = refl
assoc false b c = refl

or_false : (a : Bool) → a || false ≡ a
or_false true = refl
or_false false = refl

below_insert :
    (low name : Bytes) (names : List Bytes)
    → less low name ≡ true
    → Increasing (low ∷ names)
    → Increasing (low ∷ insert name names)
below_insert low name [] h k = (h, tt)
below_insert low name (other ∷ names) h (k, ks) = elim (Bool-cases (bytes_eq name other)) [
  | inl same ↦ rw same (k, ks)
  | inr new ↦ elim (Bool-cases (less name other)) [
    | inl below ↦ rw (new, below) (h, (below, ks))
    | inr above ↦
        rw (new, above) (k, below_insert other name names (less_total name other new above) ks)
  ]
]

insert-Increasing :
    (name : Bytes) (names : List Bytes) → Increasing names → Increasing (insert name names)
insert-Increasing name [] h = tt
insert-Increasing name (other ∷ names) h = elim (Bool-cases (bytes_eq name other)) [
  | inl same ↦ rw same h
  | inr new ↦ elim (Bool-cases (less name other)) [
    | inl below ↦ rw (new, below) (below, h)
    | inr above ↦
        rw (new, above) (below_insert other name names (less_total name other new above) h)
  ]
]

is_among-insert :
    (n name : Bytes) (names : List Bytes)
    → is_among n (insert name names) ≡ bytes_eq name n || is_among n names
is_among-insert n name [] = refl
is_among-insert n name (other ∷ names) = elim (Bool-cases (bytes_eq name other)) [
  | inl same ↦ rw (same, bytes_eq→eq name other same) (twice (bytes_eq other n) (is_among n names))
  | inr new ↦ elim (Bool-cases (less name other)) [
    | inl below ↦ rw (new, below) refl
    | inr above ↦
        rw (new, above)
          (ap (λ b. bytes_eq other n || b) (is_among-insert n name names)
            ∙ swap (bytes_eq other n) (bytes_eq name n) (is_among n names))
  ]
]

-- The names of the directories in a folder.
abbrev pub is_listed : Bytes → List (Bytes × Bool) → Bool
is_listed n [] = false
is_listed n ((name, true) ∷ entries) = bytes_eq name n || is_listed n entries
is_listed n ((name, false) ∷ entries) = is_listed n entries

abbrev pub is_listed_in : Bytes → Option (List (Bytes × Bool)) → Bool
is_listed_in n none = false
is_listed_in n (some entries) = is_listed n entries

-- A folder with a name that exists has a directory of this name in it.
abbrev pub lies_in : Bytes → Directories → Bytes → Bool
lies_in n directories folder = not (is_empty folder) && is_listed_in n (directories folder)

insert_directories-Increasing :
    (entries : List (Bytes × Bool)) (names : List Bytes)
    → Increasing names
    → Increasing (insert_directories entries names)
insert_directories-Increasing [] names h = h
insert_directories-Increasing ((name, true) ∷ entries) names h =
    insert_directories-Increasing entries (insert name names) (insert-Increasing name names h)
insert_directories-Increasing ((name, false) ∷ entries) names h =
    insert_directories-Increasing entries names h

is_among-insert_directories :
    (n : Bytes) (entries : List (Bytes × Bool)) (names : List Bytes)
    → is_among n (insert_directories entries names) ≡ is_listed n entries || is_among n names
is_among-insert_directories n [] names = refl
is_among-insert_directories n ((name, true) ∷ entries) names =
    is_among-insert_directories n entries (insert name names)
    ∙ ap (λ b. is_listed n entries || b) (is_among-insert n name names)
    ∙ swap (is_listed n entries) (bytes_eq name n) (is_among n names)
    ∙ sym (assoc (bytes_eq name n) (is_listed n entries) (is_among n names))
is_among-insert_directories n ((name, false) ∷ entries) names =
    is_among-insert_directories n entries names

scan_directory-Increasing :
    (directories : Directories) (folder : Bytes) (names : List Bytes)
    → Increasing names
    → Increasing (scan_directory directories folder names)
scan_directory-Increasing directories [] names h = h
scan_directory-Increasing directories (c ∷ folder) names h = by_entries (directories (c ∷ folder))
  where
    by_entries : (found : Option (List (Bytes × Bool))) → Increasing (scan_entries found names)
    by_entries none = h
    by_entries (some entries) = insert_directories-Increasing entries names h

is_among-scan_directory :
    (n : Bytes) (directories : Directories) (folder : Bytes) (names : List Bytes)
    → is_among n (scan_directory directories folder names)
      ≡ lies_in n directories folder || is_among n names
is_among-scan_directory n directories [] names = refl
is_among-scan_directory n directories (c ∷ folder) names = by_entries (directories (c ∷ folder))
  where
    by_entries :
        (found : Option (List (Bytes × Bool)))
        → is_among n (scan_entries found names) ≡ is_listed_in n found || is_among n names
    by_entries none = refl
    by_entries (some entries) = is_among-insert_directories n entries names

-- The shared files are the names of the directories that lie in the chunk directory or in the
-- download directory, exactly these, in increasing order and so each once.
pub collect_shared_files-Increasing :
    (directories : Directories) (config : PeerConfig)
    → Increasing (collect_shared_files directories config)
      × ((n : Bytes)
          → is_among n (collect_shared_files directories config)
            ≡ lies_in n directories config.download_dir || lies_in n directories config.chunk_dir)
unfolding collect_shared_files
collect_shared_files-Increasing directories config =
    let first = scan_directory directories config.chunk_dir [] in
    (
      scan_directory-Increasing directories config.download_dir first
          (scan_directory-Increasing directories config.chunk_dir [] tt),
      (λ n.
          is_among-scan_directory n directories config.download_dir first
          ∙ ap (λ b. lies_in n directories config.download_dir || b)
              (is_among-scan_directory n directories config.chunk_dir []
                ∙ or_false (lies_in n directories config.chunk_dir))),
    )
