-- ===== src/Protocol.antt =====
-- src/protocol/protocol.cpp and src/protocol/protocolParser.cpp: the text messages of peers.
-- A message is the list of its bytes. `parse_message` builds one result, as `parseMessage` fills
-- its local `result`; a return before `valid` is set returns the fields filled so far.
pub mod RoundTrip
pub mod Bounds
use ai_optimized_distributed.Base.{
  ℕ, zero, suc, ◌*◌, ◌^◌, Bool, true, false, ◌||◌, Option, none, some, List, [], ◌∷◌, ◌++◌, Bytes,
  codes, bytes_eq, is_empty, ltb, leb, ◌==◌, if◌then◌else◌,
}
use ai_optimized_distributed.Base.Decimal.{ℤ, pos, negsuc, to_string, to_string_ℕ, stoll}
use ai_optimized_distributed.Base.Stream.{read_word, get_line}

pub data MessageType : Type 0 where
  connect request chunk complete error unknown : MessageType

pub record ParsedMessage : Type 0 where
  pub type : MessageType
  pub command : Bytes
  pub file_id : Bytes
  pub chunk_id : ℤ
  pub chunk_size : ℕ
  pub chunk_hash : Bytes
  pub payload : Bytes
  pub valid : Bool

-- The result before anything is read.
abbrev pub blank : ParsedMessage
blank = record {
  type = unknown;
  command = [];
  file_id = [];
  chunk_id = negsuc 0;
  chunk_size = 0;
  chunk_hash = [];
  payload = [];
  valid = false;
}

abbrev pub k_max_chunk_id : ℕ
k_max_chunk_id = 1_000_000

abbrev pub k_max_chunk_size : ℕ
k_max_chunk_size = 64 * 1024 * 1024

unfoldable pub build_connect_message : Bytes → Bytes
build_connect_message peer_id = codes "CONNECT " ++ (peer_id ++ b'\n' ∷ [])

unfoldable pub build_request_message : Bytes → ℤ → Bytes
build_request_message file_id chunk_id =
    codes "REQUEST " ++ (file_id ++ (32 ∷ (to_string chunk_id ++ b'\n' ∷ [])))

unfoldable pub build_chunk_message : Bytes → ℤ → ℕ → Bytes → Bytes
build_chunk_message file_id chunk_id chunk_size chunk_hash =
    codes "CHUNK "
    ++ (file_id
        ++ (32
            ∷ (to_string chunk_id
                ++ (32 ∷ (to_string_ℕ chunk_size ++ (32 ∷ (chunk_hash ++ b'\n' ∷ [])))))))

unfoldable pub build_complete_message : Bytes
build_complete_message = codes "COMPLETE" ++ b'\n' ∷ []

unfoldable pub build_error_message : Bytes → Bytes
build_error_message error_text = codes "ERROR " ++ (error_text ++ b'\n' ∷ [])

-- Drops one newline at the end, if there is one.
unfoldable pub trim_new_line : Bytes → Bytes
trim_new_line [] = []
trim_new_line (c ∷ []) = if c == b'\n' then [] else c ∷ []
trim_new_line (c ∷ d ∷ s) = c ∷ trim_new_line (d ∷ s)

-- A number in range, or `none` for an exception and for an early return: both give `result` back.
unfoldable pub accept_chunk_id : Option ℤ → Option ℕ
accept_chunk_id none = none
accept_chunk_id (some (negsuc n)) = none
accept_chunk_id (some (pos n)) = if ltb k_max_chunk_id n then none else some n

unfoldable pub accept_chunk_size : Option ℤ → Option ℕ
accept_chunk_size none = none
accept_chunk_size (some (negsuc n)) = none
accept_chunk_size (some (pos n)) = if leb n 0 || ltb k_max_chunk_size n then none else some n

parse_connect : ParsedMessage → Bytes → ParsedMessage
parse_connect result iss = elim (read_word iss) [
  | none ↦ result
  | some (peer_id, rest) ↦ record result { type = connect; payload = peer_id; valid = true }
]

unfoldable pub finish_request : ParsedMessage → Bytes → Option ℕ → ParsedMessage
finish_request result file_id none = result
finish_request result file_id (some n) = record result {
  type = request;
  file_id = file_id;
  chunk_id = pos n;
  valid = true;
}

parse_request : ParsedMessage → Bytes → ParsedMessage
unfolding finish_request
parse_request result iss = elim (read_word iss) [
  | none ↦ result
  | some (file_id, iss₂) ↦ elim (read_word iss₂) [
    | none ↦ result
    | some (chunk_text, rest) ↦ finish_request result file_id (accept_chunk_id (stoll chunk_text))
  ]
]

-- The tests come in the source's order: both numbers are read before either range is tested, and
-- a failure at any point returns the same `result`.
unfoldable pub finish_chunk : ParsedMessage → Bytes → Bytes → Option ℕ → Option ℕ → ParsedMessage
finish_chunk result file_id chunk_hash none size = result
finish_chunk result file_id chunk_hash (some n) none = result
finish_chunk result file_id chunk_hash (some n) (some k) = record result {
  chunk_id = pos n;
  chunk_size = k;
  chunk_hash = chunk_hash;
  type = chunk;
  file_id = file_id;
  valid = true;
}

parse_chunk_fields : ParsedMessage → Bytes → Bytes → Bytes → Bytes → ParsedMessage
unfolding finish_chunk
parse_chunk_fields result file_id chunk_text size_text iss = elim (read_word iss) [
  | none ↦ result
  | some (chunk_hash, rest) ↦
      finish_chunk result file_id chunk_hash (accept_chunk_id (stoll chunk_text))
        (accept_chunk_size (stoll size_text))
]

parse_chunk : ParsedMessage → Bytes → ParsedMessage
unfolding parse_chunk_fields
parse_chunk result iss = elim (read_word iss) [
  | none ↦ result
  | some (file_id, iss₂) ↦ elim (read_word iss₂) [
    | none ↦ result
    | some (chunk_text, iss₃) ↦ elim (read_word iss₃) [
      | none ↦ result
      | some (size_text, iss₄) ↦ parse_chunk_fields result file_id chunk_text size_text iss₄
    ]
  ]
]

-- `errorText.erase(0, 1)` when the text starts with a space.
drop_space : Bytes → Bytes
drop_space [] = []
drop_space (c ∷ s) = if c == 32 then s else c ∷ s

parse_error : ParsedMessage → Bytes → ParsedMessage
unfolding drop_space
parse_error result iss = record result {
  type = error;
  payload = drop_space (get_line iss);
  valid = true;
}

parse_command : Bytes → Bytes → ParsedMessage
unfolding parse_connect parse_request parse_chunk parse_error
parse_command command iss =
    let result : ParsedMessage = record blank { command = command } in
    if bytes_eq command (codes "CONNECT")
    then parse_connect result iss
    else if bytes_eq command (codes "REQUEST")
    then parse_request result iss
    else if bytes_eq command (codes "CHUNK")
    then parse_chunk result iss
    else if bytes_eq command (codes "COMPLETE")
    then record result { type = complete; valid = true }
    else if bytes_eq command (codes "ERROR")
    then parse_error result iss
    else result

parse_trimmed : Bytes → ParsedMessage
unfolding parse_command
parse_trimmed message =
    if is_empty message
    then blank
    else elim (read_word message) [ none ↦ blank | some (command, iss) ↦ parse_command command iss ]

unfoldable pub parse_message : Bytes → ParsedMessage
unfolding parse_trimmed trim_new_line
parse_message raw_message = parse_trimmed (trim_new_line raw_message)

unfoldable pub message_type_to_string : MessageType → Bytes
message_type_to_string connect = codes "CONNECT"
message_type_to_string request = codes "REQUEST"
message_type_to_string chunk = codes "CHUNK"
message_type_to_string complete = codes "COMPLETE"
message_type_to_string error = codes "ERROR"
message_type_to_string unknown = codes "UNKNOWN"
