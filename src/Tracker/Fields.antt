-- ===== src/Tracker/Fields.antt =====
-- src/peer/peer.cpp: the fields of one object of the service's answer.
use ai_optimized_distributed.Base.{
  List, ℕ, ◌<◌, ◌^◌, ◌≡◌, ◌≢◌, refl, ap, ◌∙◌, false, none, some, [], ◌∷◌, ◌++◌, append_assoc, Bytes,
  codes, arith, All-append, is_empty,
}
use ai_optimized_distributed.Base.Decimal.{
  pos, is_digit, starts_with_digit, to_string_ℕ, stoi-to_string, to_string-IsDigits,
  to_string_nonempty, IsDigits,
}
use ai_optimized_distributed.Base.Search.{
  strip, find_after, Lacks, lacks-Lacks, break_at-append, find_after-skip,
}
use ai_optimized_distributed.Tracker.{
  up_to_quote, quoted_value, digits_value, extract_json_string_field, extract_json_int_field,
  leading_digits,
}

-- An object as the service writes it, from behind its brace on: the three fields that are read, and
-- then `tail`, which ends the number and holds what other fields there are.
abbrev pub fields_of : Bytes → Bytes → ℕ → Bytes → Bytes
fields_of id ip port tail =
    codes "\"peerId\":\""
    ++ (id
        ++ (codes "\",\"ip\":\"" ++ (ip ++ (codes "\",\"port\":" ++ (to_string_ℕ port ++ tail)))))

abbrev pub object_of : Bytes → Bytes → ℕ → Bytes → Bytes
object_of id ip port tail = b'{' ∷ fields_of id ip port tail

-- A text value is not taken for a key, since a comma follows it.
not_the_key :
    (key t value rest : Bytes)
    → Lacks b'"' key
    → Lacks b'"' value
    → strip (key ++ b'"' ∷ b':' ∷ t) (value ++ b'"' ∷ b',' ∷ rest) ≡ none
unfolding strip
not_the_key [] t [] rest h k = refl
not_the_key [] t (d ∷ value) rest h (k, ks) = ground arith
not_the_key (c ∷ key) t [] rest (h, hs) k = ground arith
not_the_key (c ∷ key) t (d ∷ value) rest (h, hs) (k, ks) =
    ground (arith, not_the_key key t value rest hs ks)

pass_value :
    (c : ℕ) (key t value rest : Bytes)
    → c ≢ b','
    → Lacks b'"' (c ∷ key)
    → Lacks b'"' value
    → find_after (b'"' ∷ ((c ∷ key) ++ b'"' ∷ b':' ∷ t)) (b'"' ∷ (value ++ b'"' ∷ b',' ∷ rest))
      ≡ find_after (b'"' ∷ ((c ∷ key) ++ b'"' ∷ b':' ∷ t)) rest
unfolding find_after
pass_value c key t value rest n h k =
    rw (find_after, strip, not_the_key (c ∷ key) t value rest h k)
      (find_after-skip b'"' ((c ∷ key) ++ b'"' ∷ b':' ∷ t) value (b'"' ∷ b',' ∷ rest) k
        ∙ ground arith)

-- The digits at the front of a number, whatever follows it.
leading_digits-append :
    (n rest : Bytes) → IsDigits n → starts_with_digit rest ≡ false → leading_digits (n ++ rest) ≡ n
unfolding leading_digits
leading_digits-append [] [] h k = refl
leading_digits-append [] (c ∷ rest) h k = ground arith
leading_digits-append (c ∷ n) rest (h, hs) k = ground (arith, leading_digits-append n rest hs k)

is_empty-nonempty : {A : Type 0} (s : List A) → s ≢ [] → is_empty s ≡ false
is_empty-nonempty [] h = absurd (h refl)
is_empty-nonempty (c ∷ s) h = refl

digits_value-to_string :
    (port : ℕ) (tail : Bytes)
    → port < 2 ^ 31
    → starts_with_digit tail ≡ false
    → digits_value (some (to_string_ℕ port ++ tail)) ≡ some (pos port)
digits_value-to_string port tail h k =
    rw
      (
        leading_digits-append (to_string_ℕ port) tail (to_string-IsDigits port) k,
        is_empty-nonempty (to_string_ℕ port) (to_string_nonempty port),
      )
      (stoi-to_string port h)

module _ (id ip tail : Bytes) (port : ℕ) (plain_id : Lacks b'"' id) (plain_ip : Lacks b'"' ip) where
  pub string_field_id : extract_json_string_field (object_of id ip port tail) (codes "peerId") ≡ id
  unfolding extract_json_string_field find_after strip
  string_field_id = ap up_to_quote (
      break_at-append b'"' id
        (codes ",\"ip\":\"" ++ (ip ++ (codes "\",\"port\":" ++ (to_string_ℕ port ++ tail))))
        plain_id)

  pub string_field_ip : extract_json_string_field (object_of id ip port tail) (codes "ip") ≡ ip
  unfolding extract_json_string_field find_after strip
  string_field_ip =
      ap quoted_value (
        pass_value b'i' (codes "p") (codes "\"") id
          (codes "\"ip\":\"" ++ (ip ++ (codes "\",\"port\":" ++ (to_string_ℕ port ++ tail))))
          (omega arith) (lacks-Lacks b'"' (codes "ip") refl) plain_id)
      ∙ ap up_to_quote
          (break_at-append b'"' ip (codes ",\"port\":" ++ (to_string_ℕ port ++ tail)) plain_ip)

  pub int_field_port :
      port < 2 ^ 31
      → starts_with_digit tail ≡ false
      → extract_json_int_field (object_of id ip port tail) (codes "port") ≡ some (pos port)
  unfolding extract_json_int_field find_after strip
  int_field_port h k =
      ap digits_value (
        pass_value b'p' (codes "ort") [] id
          (codes "\"ip\":\"" ++ (ip ++ (codes "\",\"port\":" ++ (to_string_ℕ port ++ tail))))
          (omega arith) (lacks-Lacks b'"' (codes "port") refl) plain_id
        ∙ pass_value b'p' (codes "ort") [] ip (codes "\"port\":" ++ (to_string_ℕ port ++ tail))
            (omega arith) (lacks-Lacks b'"' (codes "port") refl) plain_ip)
      ∙ digits_value-to_string port tail h k

pub fields_of-append :
    (id ip : Bytes) (port : ℕ) (tail more : Bytes)
    → fields_of id ip port tail ++ more ≡ fields_of id ip port (tail ++ more)
fields_of-append id ip port tail more = simp (append_assoc)

-- Digits are no closing brace.
digits-Lacks : (s : Bytes) → IsDigits s → Lacks b'}' s
digits-Lacks [] h = tt
digits-Lacks (c ∷ s) (h, hs) = (ground (arith, is_digit), digits-Lacks s hs)

pub fields_of-Lacks :
    (id ip : Bytes) (port : ℕ) (tail : Bytes)
    → Lacks b'}' id
    → Lacks b'}' ip
    → Lacks b'}' tail
    → Lacks b'}' (fields_of id ip port tail)
fields_of-Lacks id ip port tail h k l =
    All-append _ (codes "\"peerId\":\"") _ (lacks-Lacks b'}' (codes "\"peerId\":\"") refl) (
      All-append _ id _ h (
        All-append _ (codes "\",\"ip\":\"") _ (lacks-Lacks b'}' (codes "\",\"ip\":\"") refl) (
          All-append _ ip _ k (
            All-append _ (codes "\",\"port\":") _ (lacks-Lacks b'}' (codes "\",\"port\":") refl) (
              All-append _ (to_string_ℕ port) tail (digits-Lacks _ (to_string-IsDigits port)) l)))))
