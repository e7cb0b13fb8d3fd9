-- ===== src/UsablePeers/Address.antt =====
-- src/peer/peer.cpp, `filterUsablePeers`: who can be asked, and what a key says of an address.
use ai_optimized_distributed.Base.{
  ℕ, zero, suc, ◌≡◌, ◌≢◌, ◌↔◌, refl, sym, ap, subst, ◌∙◌, inl, inr, Bool, true, false, ◌||◌, some,
  [], ◌∷◌, ◌++◌, Bytes, bytes_eq, bytes_eq→eq, is_empty, arith, All, Bool-cases,
}
use ai_optimized_distributed.Base.Decimal.{
  ℤ, pos, negsuc, to_string, to_string_ℕ, scan_sign, skip_space, scan-to_string, IsDigits,
  to_string-IsDigits,
}
use ai_optimized_distributed.Peer.{PeerConfig, PeerEndpoint}
use ai_optimized_distributed.UsablePeers.{not_positive, key_of, is_unusable}

-- The peer is another one than the caller, with an ip and a port above 0.
abbrev pub CanBeAsked : PeerConfig → PeerEndpoint → Type 0
CanBeAsked config peer =
    (peer.peer_id ≢ config.peer_id) × (peer.ip ≢ []) × ((n : ℕ) × (peer.port ≡ pos (suc n)))

bytes_eq_itself : (s : Bytes) → bytes_eq s s ≡ true
bytes_eq_itself [] = refl
bytes_eq_itself (c ∷ s) = ground (arith, bytes_eq_itself s)

differs : (s t : Bytes) → bytes_eq s t ≡ false → s ≢ t
differs s t h e = cc (h, bytes_eq_itself s, ap (bytes_eq s) e)

differ : (s t : Bytes) → s ≢ t → bytes_eq s t ≡ false
differ s t h = elim (Bool-cases (bytes_eq s t)) [
  | inl same ↦ absurd (h (bytes_eq→eq s t same))
  | inr other ↦ other
]

none_of : (a b c : Bool) → (a || (b || c)) ≡ false → (a ≡ false) × (b ≡ false) × (c ≡ false)
none_of false false false h = (refl, refl, refl)
none_of false false true h = cc
none_of false true c h = cc
none_of true b c h = cc

nonempty : (s : Bytes) → is_empty s ≡ false → s ≢ []
nonempty [] h = cc
nonempty (c ∷ s) h = λ e. cc e

not_empty : (s : Bytes) → s ≢ [] → is_empty s ≡ false
not_empty [] h = absurd (h refl)
not_empty (c ∷ s) h = refl

positive : (port : ℤ) → not_positive port ≡ false → (n : ℕ) × (port ≡ pos (suc n))
positive (pos zero) h = cc
positive (pos (suc n)) h = (n, refl)
positive (negsuc n) h = cc

pub is_unusable_iff :
    (config : PeerConfig) (peer : PeerEndpoint)
    → (is_unusable config peer ≡ false) ↔ CanBeAsked config peer
unfolding is_unusable
is_unusable_iff config peer = (
  λ h.
      let (other, named, above) =
        none_of (bytes_eq peer.peer_id config.peer_id) (is_empty peer.ip) (not_positive peer.port)
          h in
      (differs peer.peer_id config.peer_id other, nonempty peer.ip named, positive peer.port above),
  λ (other, named, (n, e)).
      let a = differ peer.peer_id config.peer_id other in
      let b = not_empty peer.ip named in
      let c : not_positive peer.port ≡ false = ap not_positive e in cc (a, b, c),
)

-- The last colon of a text is found from behind.
abbrev NoColon : Bytes → Type 0
NoColon = All (λ c. c ≢ b':')

colon_behind : (xs ys : Bytes) → NoColon (xs ++ b':' ∷ ys) → zero ≡ suc zero
colon_behind [] ys (h, hs) = absurd (h refl)
colon_behind (x ∷ xs) ys (h, hs) = colon_behind xs ys hs

digits-NoColon : (ds : Bytes) → IsDigits ds → NoColon ds
digits-NoColon [] h = tt
digits-NoColon (c ∷ ds) (h, hs) = (ground arith, digits-NoColon ds hs)

tail : Bytes → Bytes
tail [] = []
tail (c ∷ s) = s

first : Bytes → ℕ
first [] = 0
first (c ∷ s) = c

last_colon :
    (xs ys ds es : Bytes)
    → NoColon ds
    → NoColon es
    → xs ++ b':' ∷ ds ≡ ys ++ b':' ∷ es
    → (xs ≡ ys) × (ds ≡ es)
unfolding tail first
last_colon [] [] ds es h k e = (refl, ap tail e)
last_colon [] (y ∷ ys) ds es h k e =
    let same : ds ≡ ys ++ b':' ∷ es = ap tail e in
    absurd (omega (arith, colon_behind ys es (subst NoColon same h)))
last_colon (x ∷ xs) [] ds es h k e =
    let same : es ≡ xs ++ b':' ∷ ds = sym (ap tail e) in
    absurd (omega (arith, colon_behind xs ds (subst NoColon same k)))
last_colon (x ∷ xs) (y ∷ ys) ds es h k e =
    let (front, back) = last_colon xs ys ds es h k (ap tail e) in
    let top : x ≡ y = ap first e in (cc (top, front), back)

to_string_ℕ-injective : (n m : ℕ) → to_string_ℕ n ≡ to_string_ℕ m → n ≡ m
to_string_ℕ-injective n m e =
    let same : some (pos n, []) ≡ some (pos m, []) =
      sym (scan-to_string n [] refl)
      ∙ ap (λ s. scan_sign (skip_space (s ++ []))) e
      ∙ scan-to_string m [] refl in
    cc same

-- The texts of two addresses with positive ports agree only where ip and port do.
same_address :
    (p q : PeerEndpoint) (n m : ℕ)
    → p.port ≡ pos n
    → q.port ≡ pos m
    → key_of p ≡ key_of q
    → (p.ip ≡ q.ip) × (p.port ≡ q.port)
unfolding key_of to_string
same_address p q n m e f same =
    let texts : p.ip ++ b':' ∷ to_string_ℕ n ≡ q.ip ++ b':' ∷ to_string_ℕ m =
      ap (λ port. p.ip ++ b':' ∷ to_string port) (sym e)
      ∙ same
      ∙ ap (λ port. q.ip ++ b':' ∷ to_string port) f in
    let (ips, ports) =
      last_colon p.ip q.ip (to_string_ℕ n) (to_string_ℕ m)
        (digits-NoColon (to_string_ℕ n) (to_string-IsDigits n))
        (digits-NoColon (to_string_ℕ m) (to_string-IsDigits m)) texts in
    (ips, e ∙ ap pos (to_string_ℕ-injective n m ports) ∙ sym f)

pub key_of-address :
    (config : PeerConfig) (p q : PeerEndpoint)
    → CanBeAsked config p
    → CanBeAsked config q
    → key_of p ≡ key_of q
    → (p.ip ≡ q.ip) × (p.port ≡ q.port)
key_of-address config p q (_, _, (n, e)) (_, _, (m, f)) same =
    same_address p q (suc n) (suc m) e f same
