-- ===== src/Protocol/Bounds.antt =====
-- src/protocol/protocolParser.cpp: what a message is that the parser calls valid.
use ai_optimized_distributed.Base.{
  ℕ, ◌≤◌, ◌<◌, ◌≡◌, ◌≢◌, ◌⊎◌, inl, inr, refl, subst, sym, if◌then◌else◌, true, Option, none, some,
  [], ◌∷◌, arith, Bytes, bytes_eq, codes, Option-cases, Bool-cases, bytes_eq→eq,
}
use ai_optimized_distributed.Base.Decimal.{ℤ, pos, negsuc, stoll}
use ai_optimized_distributed.Base.Stream.{read_word-cases}
use ai_optimized_distributed.Protocol.{
  ParsedMessage, MessageType, connect, request, chunk, complete, error, unknown, blank,
  k_max_chunk_id, k_max_chunk_size, accept_chunk_id, accept_chunk_size, parse_command,
  parse_connect, parse_request, parse_chunk, parse_chunk_fields, parse_error, finish_request,
  finish_chunk, parse_trimmed, parse_message, trim_new_line,
}

accept_chunk_id-le : (z : Option ℤ) (n : ℕ) → accept_chunk_id z ≡ some n → n ≤ k_max_chunk_id
unfolding accept_chunk_id
accept_chunk_id-le none n h = cc
accept_chunk_id-le (some (pos m)) n h = ground arith
accept_chunk_id-le (some (negsuc m)) n h = cc

accept_chunk_size-bounds :
    (z : Option ℤ) (n : ℕ) → accept_chunk_size z ≡ some n → (0 < n) × (n ≤ k_max_chunk_size)
unfolding accept_chunk_size
accept_chunk_size-bounds none n h = cc
accept_chunk_size-bounds (some (pos m)) n h = ground arith
accept_chunk_size-bounds (some (negsuc m)) n h = cc

-- What a valid result holds, by its type.
abbrev pub HasFields : MessageType → ParsedMessage → Type 0
HasFields connect m = (m.command ≡ codes "CONNECT") × (m.payload ≢ [])
HasFields request m =
    (m.command ≡ codes "REQUEST")
    × (m.file_id ≢ [])
    × ((n : ℕ) × (m.chunk_id ≡ pos n) × (n ≤ k_max_chunk_id))
HasFields chunk m =
    (m.command ≡ codes "CHUNK")
    × (m.file_id ≢ [])
    × (m.chunk_hash ≢ [])
    × ((n : ℕ) × (m.chunk_id ≡ pos n) × (n ≤ k_max_chunk_id))
    × (0 < m.chunk_size)
    × (m.chunk_size ≤ k_max_chunk_size)
HasFields complete m = m.command ≡ codes "COMPLETE"
HasFields error m = m.command ≡ codes "ERROR"
HasFields unknown m = ⊥

abbrev refused : Bytes → ParsedMessage
refused command = record blank { command = command }

-- A result is a refusal that holds no more than a command, or valid with its fields in range.
abbrev pub IsSound : ParsedMessage → Type 0
IsSound m = (m ≡ refused m.command) ⊎ ((m.valid ≡ true) × HasFields m.type m)

parse_connect-IsSound : (iss : Bytes) → IsSound (parse_connect (refused (codes "CONNECT")) iss)
unfolding parse_connect
parse_connect-IsSound iss = elim (read_word-cases iss) [
  | inl e ↦ rw (parse_connect, e) (inl refl)
  | inr (w, rest, e, h) ↦ rw (parse_connect, e) (inr (refl, (refl, h)))
]

finish_request-IsSound :
    (file_id : Bytes) (z : Option ℤ)
    → file_id ≢ []
    → IsSound (finish_request (refused (codes "REQUEST")) file_id (accept_chunk_id z))
unfolding finish_request
finish_request-IsSound file_id z h = elim (Option-cases (accept_chunk_id z)) [
  | inl e ↦ rw e (inl refl)
  | inr (n, e) ↦ rw e (inr (refl, (refl, h, (n, refl, accept_chunk_id-le z n e))))
]

parse_request-IsSound : (iss : Bytes) → IsSound (parse_request (refused (codes "REQUEST")) iss)
unfolding parse_request
parse_request-IsSound iss = elim (read_word-cases iss) [
  | inl e ↦ rw (parse_request, e) (inl refl)
  | inr (w, iss₂, e, h) ↦ elim (read_word-cases iss₂) [
    | inl e₂ ↦ rw (parse_request, e, e₂) (inl refl)
    | inr (t, rest, e₂, _) ↦ rw (parse_request, e, e₂) (finish_request-IsSound w (stoll t) h)
  ]
]

finish_chunk-IsSound :
    (file_id chunk_hash : Bytes) (z y : Option ℤ)
    → file_id ≢ []
    → chunk_hash ≢ []
    → IsSound (
        finish_chunk
          (refused (codes "CHUNK"))
          file_id
          chunk_hash
          (accept_chunk_id z)
          (accept_chunk_size y))
unfolding finish_chunk
finish_chunk-IsSound file_id chunk_hash z y h k = elim (Option-cases (accept_chunk_id z)) [
  | inl e ↦ rw e (inl refl)
  | inr (n, e) ↦ elim (Option-cases (accept_chunk_size y)) [
    | inl d ↦ rw (e, d) (inl refl)
    | inr (m, d) ↦
        let (low, high) = accept_chunk_size-bounds y m d in
        rw (e, d) (inr (refl, (refl, h, k, (n, refl, accept_chunk_id-le z n e), low, high)))
  ]
]

parse_chunk_fields-IsSound :
    (file_id chunk_text size_text iss : Bytes)
    → file_id ≢ []
    → IsSound (parse_chunk_fields (refused (codes "CHUNK")) file_id chunk_text size_text iss)
unfolding parse_chunk_fields
parse_chunk_fields-IsSound file_id chunk_text size_text iss h = elim (read_word-cases iss) [
  | inl e ↦ rw (parse_chunk_fields, e) (inl refl)
  | inr (w, rest, e, k) ↦
      rw (parse_chunk_fields, e)
        (finish_chunk-IsSound file_id w (stoll chunk_text) (stoll size_text) h k)
]

parse_chunk-IsSound : (iss : Bytes) → IsSound (parse_chunk (refused (codes "CHUNK")) iss)
unfolding parse_chunk
parse_chunk-IsSound iss = elim (read_word-cases iss) [
  | inl e ↦ rw (parse_chunk, e) (inl refl)
  | inr (w, iss₂, e, h) ↦ elim (read_word-cases iss₂) [
    | inl e₂ ↦ rw (parse_chunk, e, e₂) (inl refl)
    | inr (t, iss₃, e₂, _) ↦ elim (read_word-cases iss₃) [
      | inl e₃ ↦ rw (parse_chunk, e, e₂, e₃) (inl refl)
      | inr (u, iss₄, e₃, _) ↦ rw (parse_chunk, e, e₂, e₃) (parse_chunk_fields-IsSound w t u iss₄ h)
    ]
  ]
]

-- A branch of the test on the command, with the command that it has matched put in.
branch-IsSound :
    (command name : Bytes) (x : Bytes → ParsedMessage) (y : ParsedMessage)
    → IsSound (x name)
    → IsSound y
    → IsSound (if bytes_eq command name then x command else y)
branch-IsSound command name x y h k = elim (Bool-cases (bytes_eq command name)) [
  | inl e ↦ rw e (subst (λ c. IsSound (x c)) (sym (bytes_eq→eq command name e)) h)
  | inr e ↦ rw e k
]

parse_command-IsSound : (command iss : Bytes) → IsSound (parse_command command iss)
unfolding parse_command
parse_command-IsSound command iss =
    branch-IsSound command (codes "CONNECT") (λ c. parse_connect (refused c) iss) _
      (parse_connect-IsSound iss)
      (branch-IsSound command (codes "REQUEST") (λ c. parse_request (refused c) iss) _
        (parse_request-IsSound iss)
        (branch-IsSound command (codes "CHUNK") (λ c. parse_chunk (refused c) iss) _
          (parse_chunk-IsSound iss)
          (branch-IsSound command (codes "COMPLETE")
            (λ c. record (refused c) { type = complete; valid = true }) _ (inr (refl, refl))
            (branch-IsSound command (codes "ERROR") (λ c. parse_error (refused c) iss) _
              (inr (refl, refl)) (inl refl)))))

parse_trimmed-IsSound : (message : Bytes) → IsSound (parse_trimmed message)
unfolding parse_trimmed
parse_trimmed-IsSound [] = inl refl
parse_trimmed-IsSound (c ∷ s) = elim (read_word-cases (c ∷ s)) [
  | inl e ↦ rw (parse_trimmed, e) (inl refl)
  | inr (command, iss, e, _) ↦ rw (parse_trimmed, e) (parse_command-IsSound command iss)
]

-- Whatever bytes arrive, the result is either a refusal, which holds nothing but a command, or
-- valid with the fields that its type needs: words that are not empty, a chunk number between 0
-- and 1000000, and a chunk size between 1 and 64 MiB.
pub parse_message-IsSound : (raw_message : Bytes) → IsSound (parse_message raw_message)
unfolding parse_message
parse_message-IsSound raw_message = parse_trimmed-IsSound (trim_new_line raw_message)
