-- ===== src/Protocol/RoundTrip.antt =====
-- src/protocol: what the builders write is what the parser reads.
use ai_optimized_distributed.Base.{
  ℕ, ◌≤◌, ◌<◌, ◌≡◌, refl, sym, ap, ◌∙◌, ◌≢◌, true, [], ◌∷◌, ◌++◌, append_assoc, arith, Bytes, codes,
  All, some,
}
use ai_optimized_distributed.Base.Decimal.{
  pos, to_string, to_string_ℕ, stoll, stoll-to_string, to_string-IsDigits, to_string_nonempty,
}
use ai_optimized_distributed.Base.Stream.{
  read_word, NoSpace, read_word-space, IsDigits-NoSpace, get_line_whole, read_word-last,
}
use ai_optimized_distributed.Protocol.{
  connect, request, chunk, error, ParsedMessage, blank, k_max_chunk_id, k_max_chunk_size,
  build_connect_message, build_request_message, build_chunk_message, build_error_message,
  trim_new_line, accept_chunk_id, accept_chunk_size, parse_trimmed, parse_message, parse_connect,
  parse_request, parse_chunk, parse_error, finish_request, finish_chunk, parse_chunk_fields,
  drop_space,
}

trim_new_line-append : (s : Bytes) → trim_new_line (s ++ b'\n' ∷ []) ≡ s
unfolding trim_new_line
trim_new_line-append [] = refl
trim_new_line-append (c ∷ []) = refl
trim_new_line-append (c ∷ d ∷ s) = ground (arith, trim_new_line-append (d ∷ s))

parse_message-line : (s : Bytes) → parse_message (s ++ b'\n' ∷ []) ≡ parse_trimmed s
unfolding parse_message
parse_message-line s = rw (trim_new_line-append s)

to_string-NoSpace : (n : ℕ) → NoSpace (to_string_ℕ n)
to_string-NoSpace n = IsDigits-NoSpace (to_string_ℕ n) (to_string-IsDigits n)

-- What a field must be to travel as one word of a message.
abbrev pub IsWord : Bytes → Type 0
IsWord w = (w ≢ []) × NoSpace w

to_string-IsWord : (n : ℕ) → IsWord (to_string_ℕ n)
to_string-IsWord n = (to_string_nonempty n, to_string-NoSpace n)

accept_chunk_id-to_string :
    (n : ℕ) → n ≤ k_max_chunk_id → accept_chunk_id (stoll (to_string_ℕ n)) ≡ some n
unfolding accept_chunk_id
accept_chunk_id-to_string n h = rw (stoll-to_string n (omega arith)) (ground arith)

accept_chunk_size-to_string :
    (n : ℕ) → 0 < n → n ≤ k_max_chunk_size → accept_chunk_size (stoll (to_string_ℕ n)) ≡ some n
unfolding accept_chunk_size
accept_chunk_size-to_string n p h = rw (stoll-to_string n (omega arith)) (ground arith)

-- A trimmed line that starts with a command and a space goes to that command's branch.
abbrev after_command : Bytes → ParsedMessage
after_command c = record blank { command = c }

trimmed_request :
    (s : Bytes)
    → parse_trimmed (codes "REQUEST " ++ s)
      ≡ parse_request (after_command (codes "REQUEST")) (32 ∷ s)
unfolding parse_trimmed read_word
trimmed_request s = refl

trimmed_chunk :
    (s : Bytes)
    → parse_trimmed (codes "CHUNK " ++ s) ≡ parse_chunk (after_command (codes "CHUNK")) (32 ∷ s)
unfolding parse_trimmed read_word
trimmed_chunk s = refl

trimmed_connect :
    (s : Bytes)
    → parse_trimmed (codes "CONNECT " ++ s)
      ≡ parse_connect (after_command (codes "CONNECT")) (32 ∷ s)
unfolding parse_trimmed read_word
trimmed_connect s = refl

trimmed_error :
    (s : Bytes)
    → parse_trimmed (codes "ERROR " ++ s) ≡ parse_error (after_command (codes "ERROR")) (32 ∷ s)
unfolding parse_trimmed read_word
trimmed_error s = refl

parse_request_lem :
    (r : ParsedMessage) (file_id : Bytes) (n : ℕ)
    → IsWord file_id
    → n ≤ k_max_chunk_id
    → parse_request r (32 ∷ (file_id ++ (32 ∷ to_string_ℕ n)))
      ≡ record r { type = request; file_id = file_id; chunk_id = pos n; valid = true }
unfolding parse_request finish_request
parse_request_lem r file_id n (w, w') h =
    let (t, t') = to_string-IsWord n in
    rw (
      parse_request,
      read_word-space file_id (32 ∷ to_string_ℕ n) w w' refl,
      read_word-last (to_string_ℕ n) t t',
      accept_chunk_id-to_string n h,
    )

parse_chunk_lem :
    (r : ParsedMessage) (file_id : Bytes) (n size : ℕ) (chunk_hash : Bytes)
    → IsWord file_id
    → n ≤ k_max_chunk_id
    → 0 < size
    → size ≤ k_max_chunk_size
    → IsWord chunk_hash
    → parse_chunk r
        (32 ∷ (file_id ++ (32 ∷ (to_string_ℕ n ++ (32 ∷ (to_string_ℕ size ++ (32 ∷ chunk_hash)))))))
      ≡ record r {
        chunk_id = pos n;
        chunk_size = size;
        chunk_hash = chunk_hash;
        type = chunk;
        file_id = file_id;
        valid = true;
      }
unfolding parse_chunk finish_chunk
parse_chunk_lem r file_id n size chunk_hash (w, w') h p q (v, v') =
    let (t, t') = to_string-IsWord n in
    let (u, u') = to_string-IsWord size in
    rw (
      parse_chunk,
      read_word-space file_id
          (32 ∷ (to_string_ℕ n ++ (32 ∷ (to_string_ℕ size ++ (32 ∷ chunk_hash))))) w w' refl,
      read_word-space (to_string_ℕ n) (32 ∷ (to_string_ℕ size ++ (32 ∷ chunk_hash))) t t' refl,
      read_word-space (to_string_ℕ size) (32 ∷ chunk_hash) u u' refl,
      parse_chunk_fields,
      read_word-last chunk_hash v v',
      accept_chunk_id-to_string n h,
      accept_chunk_size-to_string size p q,
    )

-- A request for a chunk whose number is in range is read back as it was written: any file id
-- that is one word, and the number.
pub parse_message-build_request_message :
    (file_id : Bytes) (n : ℕ)
    → IsWord file_id
    → n ≤ k_max_chunk_id
    → parse_message (build_request_message file_id (pos n)) ≡ record blank {
      type = request;
      command = codes "REQUEST";
      file_id = file_id;
      chunk_id = pos n;
      valid = true;
    }
unfolding build_request_message to_string
parse_message-build_request_message file_id n w h =
    let number = to_string_ℕ n in
    let line : Bytes = codes "REQUEST " ++ (file_id ++ (32 ∷ number)) in
    ap parse_message
      (ap (◌++◌ (codes "REQUEST ")) (sym (append_assoc file_id (32 ∷ number) (b'\n' ∷ []))))
    ∙ parse_message-line line
    ∙ trimmed_request (file_id ++ (32 ∷ number))
    ∙ parse_request_lem (after_command (codes "REQUEST")) file_id n w h

-- A chunk header is read back as it was written, if the file id and the hash are words, the number
-- is in range, and the size is between 1 and 64 MiB.
pub parse_message-build_chunk_message :
    (file_id : Bytes) (n size : ℕ) (chunk_hash : Bytes)
    → IsWord file_id
    → n ≤ k_max_chunk_id
    → 0 < size
    → size ≤ k_max_chunk_size
    → IsWord chunk_hash
    → parse_message (build_chunk_message file_id (pos n) size chunk_hash) ≡ record blank {
      type = chunk;
      command = codes "CHUNK";
      file_id = file_id;
      chunk_id = pos n;
      chunk_size = size;
      chunk_hash = chunk_hash;
      valid = true;
    }
unfolding build_chunk_message to_string
parse_message-build_chunk_message file_id n size chunk_hash w h p q v =
    let number = to_string_ℕ n in
    let bytes = to_string_ℕ size in
    let fields : Bytes = file_id ++ (32 ∷ (number ++ (32 ∷ (bytes ++ (32 ∷ chunk_hash))))) in
    ap parse_message (ap (◌++◌ (codes "CHUNK ")) (sym (simp append_assoc)))
    ∙ parse_message-line (codes "CHUNK " ++ fields)
    ∙ trimmed_chunk fields
    ∙ parse_chunk_lem (after_command (codes "CHUNK")) file_id n size chunk_hash w h p q v

-- A peer id that is one word comes back from a connect message.
pub parse_message-build_connect_message :
    (peer_id : Bytes)
    → IsWord peer_id
    → parse_message (build_connect_message peer_id)
      ≡ record blank { type = connect; command = codes "CONNECT"; payload = peer_id; valid = true }
unfolding build_connect_message parse_connect
parse_message-build_connect_message peer_id (w, w') =
    rw (parse_message-line (codes "CONNECT " ++ peer_id), trimmed_connect peer_id)
      (rw (parse_connect, read_word-last peer_id w w'))

-- Any error text on one line comes back whole, also an empty one and one that starts with a space.
pub parse_message-build_error_message :
    (error_text : Bytes)
    → All (λ c. c ≢ b'\n') error_text
    → parse_message (build_error_message error_text)
      ≡ record blank { type = error; command = codes "ERROR"; payload = error_text; valid = true }
unfolding build_error_message
parse_message-build_error_message error_text h =
    rw (parse_message-line (codes "ERROR " ++ error_text), trimmed_error error_text)
      (unfold parse_error drop_space in rw (get_line_whole (32 ∷ error_text) (omega arith, h)))
