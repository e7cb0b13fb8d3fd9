-- ===== src/Tracker/Listing.antt =====
-- src/peer/peer.cpp: reading the list of peers out of the service's answer.
use ai_optimized_distributed.Base.{
  List, ℕ, zero, suc, ◌<◌, ◌≤◌, ◌^◌, ◌≡◌, ◌≢◌, refl, ap, ◌∙◌, Bool, true, false, Option, none, some,
  [], ◌∷◌, ◌++◌, Bytes, codes, arith, All, is_empty, length, length-append, map,
}
use ai_optimized_distributed.Base.Decimal.{ℤ, pos, negsuc, starts_with_digit}
use ai_optimized_distributed.Base.Search.{break_at, Lacks, break_at-append}
use ai_optimized_distributed.Peer.{PeerEndpoint}
use ai_optimized_distributed.Tracker.{keep_peer, read_object, read_peers, end_object, start_object}
use ai_optimized_distributed.Tracker.Fields.{
  fields_of, fields_of-append, fields_of-Lacks, string_field_id, string_field_ip, int_field_port,
}

-- What every peer of an answer has.
abbrev pub IsUsable : PeerEndpoint → Type 0
IsUsable peer = (peer.peer_id ≢ []) × (peer.ip ≢ []) × ((n : ℕ) × (peer.port ≡ pos (suc n)))

nonempty : (s : Bytes) → is_empty s ≡ false → s ≢ []
nonempty s h e = ground arith

keep_peer-IsUsable :
    (peer_id ip : Bytes) (port : Option ℤ) (later : List PeerEndpoint)
    → All IsUsable later
    → All IsUsable (keep_peer peer_id ip port later)
keep_peer-IsUsable peer_id ip none later h = h
keep_peer-IsUsable peer_id ip (some (negsuc n)) later h = h
keep_peer-IsUsable peer_id ip (some (pos zero)) later h = h
keep_peer-IsUsable [] ip (some (pos (suc n))) later h = h
keep_peer-IsUsable (c ∷ peer_id) [] (some (pos (suc n))) later h = h
keep_peer-IsUsable (c ∷ peer_id) (d ∷ ip) (some (pos (suc n))) later h =
    ((nonempty (c ∷ peer_id) refl, nonempty (d ∷ ip) refl, (n, refl)), h)

end_object-IsUsable :
    (go_on : Bytes → List PeerEndpoint) (found : Option (Bytes × Bytes))
    → ((s : Bytes) → All IsUsable (go_on s))
    → All IsUsable (end_object go_on found)
unfolding read_object
end_object-IsUsable go_on none h = tt
end_object-IsUsable go_on (some (fields, rest)) h = keep_peer-IsUsable _ _ _ _ (h rest)

start_object-IsUsable :
    (go_on : Bytes → List PeerEndpoint) (found : Option (Bytes × Bytes))
    → ((s : Bytes) → All IsUsable (go_on s))
    → All IsUsable (start_object go_on found)
start_object-IsUsable go_on none h = tt
start_object-IsUsable go_on (some (before, s)) h = end_object-IsUsable go_on (break_at b'}' s) h

pub read_peers-IsUsable : (fuel : ℕ) (body : Bytes) → All IsUsable (read_peers fuel body)
unfolding read_peers
read_peers-IsUsable zero body = tt
read_peers-IsUsable (suc fuel) body =
    start_object-IsUsable (read_peers fuel) (break_at b'{' body) (read_peers-IsUsable fuel)

-- A peer as the service knows it; `others` is the text of the fields that are not read.
pub record Listed : Type 0 where
  pub peer_id : Bytes
  pub ip : Bytes
  pub port : ℕ
  pub others : Bytes

abbrev pub endpoint_of : Listed → PeerEndpoint
endpoint_of e = record { peer_id = e.peer_id; ip = e.ip; port = pos e.port }

abbrev pub IsPlain : Listed → Type 0
IsPlain e =
    (is_empty e.peer_id ≡ false)
    × (is_empty e.ip ≡ false)
    × (0 < e.port)
    × (e.port < 2 ^ 31)
    × (Lacks b'"' e.peer_id × Lacks b'"' e.ip)
    × (Lacks b'}' e.peer_id × Lacks b'}' e.ip × Lacks b'}' e.others)
    × (starts_with_digit e.others ≡ false)

-- The objects, a comma between them, and the end of the list.
abbrev separator : Bool → ℕ
separator true = b'['
separator false = b','

no_brace : (first : Bool) → separator first ≢ b'{'
no_brace true = omega arith
no_brace false = omega arith

unfoldable pub print_more : Bool → List Listed → Bytes
print_more first [] = codes "]\n"
print_more first (e ∷ es) =
    separator first
    ∷ b'{'
    ∷ (fields_of e.peer_id e.ip e.port e.others ++ b'}' ∷ print_more false es)

print_more-cons :
    (first : Bool) (e : Listed) (es : List Listed)
    → print_more first (e ∷ es)
      ≡ separator first
        ∷ b'{'
        ∷ (fields_of e.peer_id e.ip e.port e.others ++ b'}' ∷ print_more false es)
unfolding print_more
print_more-cons first e es = refl

-- Every object is longer than its comma.
pub length-print_more : (first : Bool) (es : List Listed) → length es ≤ length (print_more first es)
unfolding print_more
length-print_more first [] = omega arith
length-print_more first (e ∷ es) = omega (
  arith,
  length-print_more false es,
  length-append (fields_of e.peer_id e.ip e.port e.others) (b'}' ∷ print_more false es),
)

keep_endpoint :
    (id ip : Bytes) (port : ℕ) (later : List PeerEndpoint)
    → is_empty id ≡ false
    → is_empty ip ≡ false
    → 0 < port
    → keep_peer id ip (some (pos port)) later
      ≡ record { peer_id = id; ip = ip; port = pos port } ∷ later
keep_endpoint id ip zero later h k l = absurd (omega (arith, l))
keep_endpoint [] ip (suc n) later h k l = ground arith
keep_endpoint (c ∷ id) [] (suc n) later h k l = ground arith
keep_endpoint (c ∷ id) (d ∷ ip) (suc n) later h k l = refl

ends_number : (s : Bytes) → starts_with_digit s ≡ false → starts_with_digit (s ++ b'}' ∷ []) ≡ false
ends_number [] h = refl
ends_number (c ∷ s) h = h

keep_peer_cong :
    (later : List PeerEndpoint) {id id' ip ip' : Bytes} {port port' : Option ℤ}
    → id ≡ id'
    → ip ≡ ip'
    → port ≡ port'
    → keep_peer id ip port later ≡ keep_peer id' ip' port' later
keep_peer_cong later h k l = cc

read_object-object_of :
    (e : Listed) (later : List PeerEndpoint)
    → IsPlain e
    → read_object (b'{' ∷ (fields_of e.peer_id e.ip e.port e.others ++ b'}' ∷ [])) later
      ≡ endpoint_of e ∷ later
unfolding read_object
read_object-object_of e later (h, k, l, m, (q, r), braces, t) =
    let tail = e.others ++ b'}' ∷ [] in
    ap (λ s. read_object (b'{' ∷ s) later)
      (fields_of-append e.peer_id e.ip e.port e.others (b'}' ∷ []))
    ∙ keep_peer_cong later (string_field_id e.peer_id e.ip tail e.port q r)
        (string_field_ip e.peer_id e.ip tail e.port q r)
        (int_field_port e.peer_id e.ip tail e.port q r m (ends_number e.others t))
    ∙ keep_endpoint e.peer_id e.ip e.port later h k l

-- One round of the loop, at an object behind one other character.
read_peers-step :
    (fuel c : ℕ) (e : Listed) (rest : Bytes)
    → c ≢ b'{'
    → IsPlain e
    → read_peers (suc fuel) (c ∷ b'{' ∷ (fields_of e.peer_id e.ip e.port e.others ++ b'}' ∷ rest))
      ≡ endpoint_of e ∷ read_peers fuel rest
unfolding read_peers
read_peers-step fuel c e rest n p =
    let fields = fields_of e.peer_id e.ip e.port e.others in
    ap (start_object (read_peers fuel))
      (break_at-append b'{' (c ∷ []) (fields ++ b'}' ∷ rest) (n, tt))
    ∙ ap (end_object (read_peers fuel)) (
        break_at-append b'}' fields rest
          (fields_of-Lacks e.peer_id e.ip e.port e.others p.5.0 p.5.1 p.5.2))
    ∙ read_object-object_of e (read_peers fuel rest) p

read_peers-end : (fuel : ℕ) (first : Bool) → read_peers fuel (print_more first []) ≡ []
unfolding read_peers print_more break_at
read_peers-end zero first = refl
read_peers-end (suc fuel) first = refl

pub read_peers-print :
    (fuel : ℕ) (first : Bool) (es : List Listed)
    → length es ≤ fuel
    → All IsPlain es
    → read_peers fuel (print_more first es) ≡ map endpoint_of es
read_peers-print fuel first [] h p = read_peers-end fuel first
read_peers-print zero first (e ∷ es) h p = absurd (omega (arith, h))
read_peers-print (suc fuel) first (e ∷ es) h (p, ps) =
    ap (read_peers (suc fuel)) (print_more-cons first e es)
    ∙ read_peers-step fuel (separator first) e (print_more false es) (no_brace first) p
    ∙ ap (λ ps. endpoint_of e ∷ ps) (read_peers-print fuel false es (omega (arith, h)) ps)
