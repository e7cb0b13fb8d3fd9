-- ===== src/UsablePeers/Distinct.antt =====
-- src/peer/peer.cpp, `filterUsablePeers`: each address once, and no peer that cannot be asked.
use ai_optimized_distributed.Base.{
  ℕ, ◌+◌, ◌≡◌, ◌↔◌, subst, inl, inr, Bool, true, false, List, [], ◌∷◌, Bytes, bytes_eq, bytes_eq→eq,
  arith, All, if◌then◌else◌, Bool-cases, min,
}
use ai_optimized_distributed.Peer.{PeerConfig, PeerEndpoint}
use ai_optimized_distributed.UsablePeers.Address.{CanBeAsked, is_unusable_iff, key_of-address}
use ai_optimized_distributed.UsablePeers.{
  key_of, seen_before, is_unusable, filter_loop, filter_usable_peers,
}

-- How many usable peers of a list have this address.
abbrev pub count_address : PeerConfig → Bytes → List PeerEndpoint → ℕ
count_address config key [] = 0
count_address config key (peer ∷ peers) =
    (if is_unusable config peer then 0 else if bytes_eq (key_of peer) key then 1 else 0)
    + count_address config key peers

same_key :
    (p : PeerEndpoint) (key : Bytes) (seen : List Bytes) (b : Bool)
    → bytes_eq (key_of p) key ≡ true
    → seen_before seen (key_of p) ≡ b
    → seen_before seen key ≡ b
same_key p key seen b same e =
    subst (λ k. seen_before seen k ≡ b) (bytes_eq→eq (key_of p) key same) e

loop-count :
    (config : PeerConfig) (key : Bytes) (seen : List Bytes) (peers : List PeerEndpoint)
    → count_address config key (filter_loop config seen peers)
      ≡ (if seen_before seen key then 0 else min 1 (count_address config key peers))
unfolding filter_loop seen_before
loop-count config key seen [] = ground arith
loop-count config key seen (p ∷ peers) = elim (Bool-cases (is_unusable config p)) [
  | inl bad ↦ ground (arith, bad, loop-count config key seen peers)
  | inr good ↦ elim (Bool-cases (seen_before seen (key_of p))) [
    | inl old ↦ elim (Bool-cases (bytes_eq (key_of p) key)) [
      | inl same ↦
          let known : seen_before seen key ≡ true = same_key p key seen true same old in
          ground (arith, good, old, same, known, loop-count config key seen peers)
      | inr other ↦ ground (arith, good, old, other, loop-count config key seen peers)
    ]
    | inr new ↦ elim (Bool-cases (bytes_eq (key_of p) key)) [
      | inl same ↦
          let unknown : seen_before seen key ≡ false = same_key p key seen false same new in
          ground (arith, good, new, same, unknown, loop-count config key (key_of p ∷ seen) peers)
      | inr other ↦ ground (arith, good, new, other, loop-count config key (key_of p ∷ seen) peers)
    ]
  ]
]

loop-usable :
    (config : PeerConfig) (seen : List Bytes) (peers : List PeerEndpoint)
    → All (λ p. is_unusable config p ≡ false) (filter_loop config seen peers)
unfolding filter_loop
loop-usable config seen [] = tt
loop-usable config seen (p ∷ peers) = elim (Bool-cases (is_unusable config p)) [
  | inl bad ↦ rw (filter_loop, bad) (loop-usable config seen peers)
  | inr good ↦ elim (Bool-cases (seen_before seen (key_of p))) [
    | inl old ↦ rw (filter_loop, good, old) (loop-usable config seen peers)
    | inr new ↦ rw (filter_loop, good, new) (good, loop-usable config (key_of p ∷ seen) peers)
  ]
]

filtered-CanBeAsked :
    (config : PeerConfig) (peers : List PeerEndpoint)
    → All (λ p. is_unusable config p ≡ false) peers
    → All (CanBeAsked config) peers
filtered-CanBeAsked config [] h = tt
filtered-CanBeAsked config (p ∷ peers) (h, hs) =
    ((is_unusable_iff config p).0 h, filtered-CanBeAsked config peers hs)

-- The result holds no peer that is the caller or has no address, and each address that some usable
-- peer of the list has exactly once, and no other address. Every peer of the result has another id
-- than the caller, an ip, and a port above 0; a peer counts as usable exactly if that is so; and
-- two usable peers have the same key only if they have the same ip and the same port.
pub filter_usable_peers-count_address :
    (config : PeerConfig) (peers : List PeerEndpoint) (key : Bytes)
    → All (λ p. is_unusable config p ≡ false) (filter_usable_peers config peers)
      × (count_address config key (filter_usable_peers config peers)
          ≡ min 1 (count_address config key peers))
      × All (CanBeAsked config) (filter_usable_peers config peers)
      × ((p : PeerEndpoint) → (is_unusable config p ≡ false) ↔ CanBeAsked config p)
      × ((p q : PeerEndpoint)
          → CanBeAsked config p
          → CanBeAsked config q
          → key_of p ≡ key_of q
          → (p.ip ≡ q.ip) × (p.port ≡ q.port))
unfolding filter_usable_peers seen_before
filter_usable_peers-count_address config peers key =
    let usable = loop-usable config [] peers in
    (
      usable,
      loop-count config key [] peers,
      filtered-CanBeAsked config (filter_loop config [] peers) usable,
      is_unusable_iff config,
      key_of-address config,
    )
