-- ===== src/Tracker/SharedFiles.antt =====
-- src/peer/peer.cpp, `scanDirectory` and `collectSharedFiles`: the names of the directories in which
-- chunks lie. What a directory holds, in the order in which the system gives it, is an input; the
-- `std::set` is a list in increasing order.
pub mod Sorted
use ai_optimized_distributed.Base.{
  ℕ, Bool, true, false, Option, none, some, List, [], ◌∷◌, Bytes, bytes_eq, is_empty, ltb, ◌==◌,
  if◌then◌else◌,
}
use ai_optimized_distributed.Peer.{PeerConfig}

-- The entries of a directory, each with whether it is a directory; `none` is a path that does not exist.
abbrev pub Directories : Type 0
Directories = Bytes → Option (List (Bytes × Bool))

-- `<` on strings.
abbrev pub less : Bytes → Bytes → Bool
less s [] = false
less [] (d ∷ t) = true
less (c ∷ s) (d ∷ t) = if c == d then less s t else ltb c d

-- `fileIds.insert(folderName)`.
abbrev pub insert : Bytes → List Bytes → List Bytes
insert name [] = name ∷ []
insert name (other ∷ names) =
    let rest = insert name names in
    if bytes_eq name other
    then other ∷ names
    else if less name other
    then name ∷ other ∷ names
    else other ∷ rest

abbrev pub insert_directories : List (Bytes × Bool) → List Bytes → List Bytes
insert_directories [] file_ids = file_ids
insert_directories ((name, true) ∷ entries) file_ids =
    insert_directories entries (insert name file_ids)
insert_directories ((name, false) ∷ entries) file_ids = insert_directories entries file_ids

abbrev pub scan_entries : Option (List (Bytes × Bool)) → List Bytes → List Bytes
scan_entries none file_ids = file_ids
scan_entries (some entries) file_ids = insert_directories entries file_ids

abbrev pub scan_directory : Directories → Bytes → List Bytes → List Bytes
scan_directory directories folder file_ids =
    if is_empty folder then file_ids else scan_entries (directories folder) file_ids

unfoldable pub collect_shared_files : Directories → PeerConfig → List Bytes
collect_shared_files directories config =
    scan_directory directories config.download_dir (scan_directory directories config.chunk_dir [])
