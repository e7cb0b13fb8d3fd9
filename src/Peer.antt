-- ===== src/Peer.antt =====
-- include/peer/peer.h: a peer's configuration and the address of another peer; from
-- src/peer/peer.cpp, the test on file ids and the places of a peer's chunks.
pub mod FileId
use ai_optimized_distributed.Base.{
  ℕ, Bool, true, false, not, ◌&&◌, ◌||◌, List, [], ◌∷◌, ◌++◌, Bytes, codes, length, ltb, leb, ◌==◌,
  is_empty, if◌then◌else◌,
}
use ai_optimized_distributed.Base.Decimal.{ℤ, pos}
use ai_optimized_distributed.Disk.{Disk, exists, file_size}
use ai_optimized_distributed.Chunks.{get_chunk_path, chunk_exists}

pub record PeerConfig : Type 0 where
  pub peer_id : Bytes
  pub port : ℤ
  pub local_root_dir : Bytes
  pub chunk_dir : Bytes
  pub download_dir : Bytes
  pub reconstructed_dir : Bytes
  pub tracker_ip : Bytes
  pub tracker_port : ℤ

pub record PeerEndpoint : Type 0 where
  pub peer_id : Bytes
  pub ip : Bytes
  pub port : ℤ

-- The characters of `[A-Za-z0-9._-]`.
abbrev pub is_safe_char : ℕ → Bool
is_safe_char c =
    (leb b'A' c && leb c b'Z')
    || (leb b'a' c && leb c b'z')
    || (leb b'0' c && leb c b'9')
    || (c == b'.')
    || (c == b'_')
    || (c == b'-')

all_safe : Bytes → Bool
all_safe [] = true
all_safe (c ∷ s) = is_safe_char c && all_safe s

unfoldable pub is_safe_file_id : Bytes → Bool
unfolding all_safe
is_safe_file_id file_id =
    if is_empty file_id || ltb 128 (length file_id) then false else all_safe file_id

-- The upload directory comes first, then the download directory; an empty path means none.
unfoldable pub find_servable_chunk_path : PeerConfig → Disk → Bytes → ℤ → Bytes
find_servable_chunk_path config d file_id chunk_id =
    let upload_path = get_chunk_path config.chunk_dir file_id chunk_id in
    let download_path = get_chunk_path config.download_dir file_id chunk_id in
    if exists d upload_path
    then upload_path
    else if exists d download_path
    then download_path
    else []

unfoldable pub local_chunk_already_exists : PeerConfig → Disk → Bytes → ℤ → Bool
unfolding chunk_exists
local_chunk_already_exists config d file_id chunk_id =
    chunk_exists d config.download_dir file_id chunk_id
    || chunk_exists d config.chunk_dir file_id chunk_id

-- The download directory comes first here; the chunk must not be empty.
unfoldable pub is_chunk_present_and_valid : PeerConfig → Disk → Bytes → ℤ → Bool
is_chunk_present_and_valid config d file_id chunk_id =
    let download_path = get_chunk_path config.download_dir file_id chunk_id in
    let chunk_path = get_chunk_path config.chunk_dir file_id chunk_id in
    if exists d download_path
    then ltb 0 (file_size d download_path)
    else if exists d chunk_path
    then ltb 0 (file_size d chunk_path)
    else false
