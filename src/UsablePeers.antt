-- ===== src/UsablePeers.antt =====
-- src/peer/peer.cpp, `filterUsablePeers`: the peers that a download may ask. The set `seen` is a
-- list of keys.
pub mod Address
pub mod Distinct
use ai_optimized_distributed.Base.{
  zero, suc, Bool, true, false, ◌||◌, List, [], ◌∷◌, ◌++◌, Bytes, bytes_eq, is_empty,
}
use ai_optimized_distributed.Base.Decimal.{ℤ, pos, negsuc, to_string}
use ai_optimized_distributed.Peer.{PeerConfig, PeerEndpoint}

abbrev pub not_positive : ℤ → Bool
not_positive (pos zero) = true
not_positive (pos (suc n)) = false
not_positive (negsuc n) = true

-- `peer.ip + ":" + to_string(peer.port)`.
unfoldable pub key_of : PeerEndpoint → Bytes
key_of peer = peer.ip ++ (b':' ∷ to_string peer.port)

unfoldable pub seen_before : List Bytes → Bytes → Bool
seen_before [] key = false
seen_before (k ∷ ks) key = bytes_eq k key || seen_before ks key

-- The peer itself, and a peer without an address.
unfoldable pub is_unusable : PeerConfig → PeerEndpoint → Bool
is_unusable config peer =
    bytes_eq peer.peer_id config.peer_id || (is_empty peer.ip || not_positive peer.port)

unfoldable pub filter_loop : PeerConfig → List Bytes → List PeerEndpoint → List PeerEndpoint
filter_loop config seen [] = []
filter_loop config seen (peer ∷ peers) = elim (is_unusable config peer) [
  | true ↦ filter_loop config seen peers
  | false ↦ elim (seen_before seen (key_of peer)) [
    | true ↦ filter_loop config seen peers
    | false ↦ peer ∷ filter_loop config (key_of peer ∷ seen) peers
  ]
]

unfoldable pub filter_usable_peers : PeerConfig → List PeerEndpoint → List PeerEndpoint
unfolding filter_loop
filter_usable_peers config peers = filter_loop config [] peers
