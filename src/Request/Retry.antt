-- ===== src/Request/Retry.antt =====
-- src/peer/peer.cpp, `requestChunkFromAnyPeer`: reservations, and who is asked.
use native.Mathlib.Nat.{mod-eq_of_lt, mod-eq-sub-mod}
use ai_optimized_distributed.Base.{
  ℕ, zero, suc, ◌+◌, ◌-◌, ◌%◌, ◌≤◌, ◌<◌, ◌≡◌, refl, ap, subst, ◌∙◌, Bool, true, false, Option, none,
  some, List, [], ◌∷◌, ◌++◌, Bytes, arith, length, get_elem?, if◌then◌else◌, map, take, drop,
  length-drop,
}
use ai_optimized_distributed.Base.Decimal.{ℤ}
use ai_optimized_distributed.Disk.{Disk}
use ai_optimized_distributed.Hash.{Evp}
use ai_optimized_distributed.Peer.{PeerConfig, PeerEndpoint}
use ai_optimized_distributed.Request.{
  Attempt, Call, reserve, ask, release, prefix_calls, after_ask, attempt_peer, retry_loop,
  request_chunk_from_any_peer, request_chunk_from_peer,
}

-- Every reservation that the tracker took is followed by one request to that peer and one release
-- for it, and a reservation that was not taken by neither. Only the last request succeeds, and
-- that exactly if the result is true.
abbrev pub IsBalanced : Bool → List Call → Type 0
IsBalanced ok [] = ok ≡ false
IsBalanced ok (reserve p false ∷ cs) = IsBalanced ok cs
IsBalanced ok (reserve p true ∷ ask q true ∷ release r b ∷ cs) =
    (q ≡ p) × (r ≡ p) × (ok ≡ true) × (cs ≡ [])
IsBalanced ok (reserve p true ∷ ask q false ∷ release r b ∷ cs) =
    (q ≡ p) × (r ≡ p) × IsBalanced ok cs
IsBalanced ok _ = ⊥

-- The peers that reservations were tried for, in order.
abbrev pub tried : List Call → List Bytes
tried [] = []
tried (reserve p b ∷ cs) = p ∷ tried cs
tried (ask p b ∷ cs) = tried cs
tried (release p b ∷ cs) = tried cs

-- The calls are balanced and go to the front of `order`, to all of it if the result is false.
abbrev pub Follows : List Bytes → Bool × Disk × List Call → Type 0
Follows order (ok, d, cs) =
    IsBalanced ok cs
    × ((later : List Bytes) × (tried cs ++ later ≡ order) × (ok ≡ false → later ≡ []))

if-Follows :
    (order : List Bytes) (b : Bool) (x y : Bool × Disk × List Call)
    → Follows order x
    → Follows order y
    → Follows order (if b then x else y)
if-Follows order true x y h k = h
if-Follows order false x y h k = k

refused-Follows :
    (p : Bytes) (order : List Bytes) (r : Bool × Disk × List Call)
    → Follows order r
    → Follows (p ∷ order) (prefix_calls (reserve p false ∷ []) r)
refused-Follows p order (ok, d, cs) (balanced, (later, e, all)) =
    (balanced, (later, ap (λ x. p ∷ x) e, all))

module _ (evp : Evp) (config : PeerConfig) (file_id : Bytes) (chunk_id : ℤ) where
  after_ask-Follows :
      (k : Disk → Bool × Disk × List Call) (peer : PeerEndpoint) (a : Attempt) (r : Bool × Disk)
      (order : List Bytes)
      → ((d : Disk) → Follows order (k d))
      → Follows (peer.peer_id ∷ order) (after_ask evp k peer a r)
  after_ask-Follows k peer a (true, d) order h = ((refl, refl, refl, refl), (order, refl, λ e. cc))
  after_ask-Follows k peer a (false, d) order h =
      let (balanced, (later, e, all)) = h d in
      ((refl, refl, balanced), (later, ap (λ x. peer.peer_id ∷ x) e, all))

  attempt_peer-Follows :
      (k : Disk → Bool × Disk × List Call) (peer : PeerEndpoint) (a : Attempt) (d : Disk)
      (order : List Bytes)
      → ((d' : Disk) → Follows order (k d'))
      → Follows (peer.peer_id ∷ order) (attempt_peer evp config file_id chunk_id k a d (some peer))
  attempt_peer-Follows k peer a d order h =
      if-Follows (peer.peer_id ∷ order) a.reserved _ _
        (after_ask-Follows k peer a
          (request_chunk_from_peer evp config d a.connection file_id chunk_id) order h)
        (refused-Follows peer.peer_id order (k d) (h d))

module _ (peers : List PeerEndpoint) (start : ℕ) where
  -- The peers that the rounds would visit if all failed.
  abbrev cons_some : Option PeerEndpoint → List Bytes → List Bytes
  cons_some none ps = ps
  cons_some (some p) ps = p.peer_id ∷ ps

  visits : ℕ → ℕ → List Bytes
  visits zero attempt = []
  visits (suc rounds) attempt =
      cons_some (get_elem? peers ((start + attempt) % length peers)) (visits rounds (attempt + 1))

module _ (evp : Evp) (config : PeerConfig) (file_id : Bytes) (chunk_id : ℤ)
    (peers : List PeerEndpoint) (start : ℕ) (env : ℕ → Attempt) where
  attempt-visits :
      (k : Disk → Bool × Disk × List Call) (a : Attempt) (d : Disk) (o : Option PeerEndpoint)
      (order : List Bytes)
      → ((d' : Disk) → Follows order (k d'))
      → Follows (cons_some peers start o order) (attempt_peer evp config file_id chunk_id k a d o)
  attempt-visits k a d none order h = h d
  attempt-visits k a d (some peer) order h =
      attempt_peer-Follows evp config file_id chunk_id k peer a d order h

  retry_loop-Follows :
      (rounds attempt : ℕ) (d : Disk)
      → Follows
          (visits peers start rounds attempt)
          (retry_loop evp config file_id chunk_id rounds attempt peers start env d)
  unfolding retry_loop visits
  retry_loop-Follows zero attempt d = (refl, ([], refl, λ e. refl))
  retry_loop-Follows (suc rounds) attempt d =
      attempt-visits
        (λ d'. retry_loop evp config file_id chunk_id rounds (attempt + 1) peers start env d')
        (env attempt) d (get_elem? peers ((start + attempt) % length peers)) _
        (λ d'. retry_loop-Follows rounds (attempt + 1) d')

-- From `i` on, the visits that stay within the list go along it.
take-drop-get :
    (xs : List PeerEndpoint) (start i r : ℕ)
    → i < length xs
    → cons_some xs start (get_elem? xs i) (map (λ p. p.peer_id) (take r (drop (suc i) xs)))
      ≡ map (λ p. p.peer_id) (take (suc r) (drop i xs))
take-drop-get [] start i r h = elim h [ ]
take-drop-get (x ∷ xs) start zero r h = refl
take-drop-get (x ∷ xs) start (suc i) r h = take-drop-get xs start i r (omega arith)

module _ (peers : List PeerEndpoint) (start : ℕ) where
  abbrev ids : List PeerEndpoint → List Bytes
  ids = map (λ p. p.peer_id)

  visits-along :
      (r a i : ℕ)
      → ((b : ℕ) → b < r → (start + (a + b)) % length peers ≡ i + b)
      → i + r ≤ length peers
      → visits peers start r a ≡ ids (take r (drop i peers))
  unfolding visits
  visits-along zero a i h k = refl
  visits-along (suc r) a i h k =
      let n = length peers in
      let now : a ≡ a + 0 = omega arith in
      let here : (start + a) % n ≡ i =
        ap (λ t. (start + t) % n) now ∙ h 0 (omega arith) ∙ omega arith in
      let next : suc i ≡ i + 1 = omega arith in
      let later =
        visits-along r (a + 1) (suc i) (λ b q. shifted a i b (h (suc b) (omega arith)))
          (omega arith) in
      rw here (
        ap (cons_some peers start (get_elem? peers i)) later
        ∙ take-drop-get peers start i r (omega arith))
    where
      shifted :
          (a i b : ℕ)
          → (start + (a + suc b)) % length peers ≡ i + suc b
          → (start + ((a + 1) + b)) % length peers ≡ suc i + b
      shifted a i b h =
          let e : (a + 1) + b ≡ a + suc b = omega arith in
          ap (λ t. (start + t) % length peers) e ∙ h ∙ omega arith

  cons_some-append :
      (o : Option PeerEndpoint) (xs ys : List Bytes)
      → cons_some peers start o (xs ++ ys) ≡ cons_some peers start o xs ++ ys
  cons_some-append none xs ys = refl
  cons_some-append (some p) xs ys = refl

  visits-append :
      (r r' a : ℕ)
      → visits peers start (r + r') a ≡ visits peers start r a ++ visits peers start r' (a + r)
  unfolding visits
  visits-append zero r' a =
      let e : zero + r' ≡ r' = omega arith in
      let f : a ≡ a + zero = omega arith in
      ap (λ m. visits peers start m a) e ∙ ap (visits peers start r') f
  visits-append (suc r) r' a =
      let e : suc r + r' ≡ suc (r + r') = omega arith in
      let f : (a + 1) + r ≡ a + suc r = omega arith in
      ap (λ m. visits peers start m a) e
      ∙ ap (cons_some peers start (get_elem? peers ((start + a) % length peers))) (
          visits-append r r' (a + 1)
          ∙ ap (λ m. visits peers start r (a + 1) ++ visits peers start r' m) f)
      ∙ cons_some-append (get_elem? peers ((start + a) % length peers))
          (visits peers start r (a + 1)) _

  take-length : (n : ℕ) (xs : List PeerEndpoint) → length xs ≤ n → take n xs ≡ xs
  take-length zero [] h = refl
  take-length zero (x ∷ xs) h = elim h [ ]
  take-length (suc n) [] h = refl
  take-length (suc n) (x ∷ xs) h = ap (λ t. x ∷ t) (take-length n xs (omega arith))

  -- Past the end of the list the index starts again at 0.
  wraps :
      (m b : ℕ)
      → length peers ≡ m + start
      → b < start
      → start < length peers
      → (start + ((0 + m) + b)) % length peers ≡ 0 + b
  wraps m b e q h =
      let t : ℕ = start + ((0 + m) + b) in
      mod-eq-sub-mod {n = t} {m = length peers} (omega arith)
      ∙ mod-eq_of_lt {n = t - length peers} {m = length peers} (omega arith)
      ∙ omega arith

  visits-rotation :
      start < length peers
      → visits peers start (length peers) 0 ≡ ids (drop start peers) ++ ids (take start peers)
  visits-rotation h =
      let n = length peers in
      let m : ℕ = n - start in
      let e : n ≡ m + start = omega arith in
      let whole : take m (drop start peers) ≡ drop start peers =
        take-length m (drop start peers) (omega (arith, length-drop start peers)) in
      let first =
        visits-along m 0 start
          (λ b q. mod-eq_of_lt {n = start + (0 + b)} {m = n} (omega arith) ∙ omega arith)
          (omega arith)
        ∙ ap ids whole in
      let second =
        visits-along start (0 + m) 0 (λ b q. wraps m b e q (omega arith)) (omega arith) in
      ap (λ k. visits peers start k 0) e
      ∙ visits-append m start 0
      ∙ ap (λ xs. xs ++ visits peers start start (0 + m)) first
      ∙ ap (λ xs. ids (drop start peers) ++ xs) second

module _ (evp : Evp) (config : PeerConfig) (file_id : Bytes) (chunk_id : ℤ) where
  -- With a start index within the list, the peers are tried in the order of the list from the start
  -- index on and then from its beginning, each at most once, and all of them before the call
  -- fails; every reservation that the tracker took is followed by one request and one release for
  -- the same peer, in that order, and the call succeeds exactly if its last request did.
  pub request_chunk_from_any_peer-Follows :
      (peers : List PeerEndpoint) (start : ℕ) (env : ℕ → Attempt) (d : Disk)
      → start < length peers
      → Follows
          (map (λ p. p.peer_id) (drop start peers) ++ map (λ p. p.peer_id) (take start peers))
          (request_chunk_from_any_peer evp config file_id chunk_id peers start env d)
  unfolding request_chunk_from_any_peer
  request_chunk_from_any_peer-Follows [] start env d h = elim h [ ]
  request_chunk_from_any_peer-Follows (p ∷ ps) start env d h =
      subst
        (λ order.
          Follows order
            (retry_loop evp config file_id chunk_id (length (p ∷ ps)) 0 (p ∷ ps) start env d))
        (visits-rotation (p ∷ ps) start h)
        (retry_loop-Follows evp config file_id chunk_id (p ∷ ps) start env (length (p ∷ ps)) 0 d)
