-- ===== src/Examples/Messages.antt =====
-- Runs of src/protocol/protocol.cpp, src/protocol/protocolParser.cpp and the test on file ids.
use ai_optimized_distributed.Base.{◌≤◌, ◌≡◌, ◌≢◌, refl, true, [], codes, arith, All, length}
use ai_optimized_distributed.Base.Decimal.{pos}
use ai_optimized_distributed.Base.Stream.{NoSpace}
use ai_optimized_distributed.Protocol.{
  blank, request, chunk, parse_message, build_request_message, build_chunk_message,
}
use ai_optimized_distributed.Protocol.RoundTrip.{
  IsWord, parse_message-build_request_message, parse_message-build_chunk_message,
}
use ai_optimized_distributed.Protocol.Bounds.{IsSound, parse_message-IsSound}
use ai_optimized_distributed.Peer.{is_safe_file_id}
use ai_optimized_distributed.Peer.FileId.{is_safe_file_id-IsWord}

file-IsWord : IsWord (codes "f.1")
file-IsWord = (λ e. cc e, (refl, (refl, (refl, tt))))

hash-IsWord : IsWord (codes "a0")
hash-IsWord = (λ e. cc e, (refl, (refl, tt)))

parse_message-build_request_message_example :
    parse_message (build_request_message (codes "f.1") (pos 12)) ≡ record blank {
      type = request;
      command = codes "REQUEST";
      file_id = codes "f.1";
      chunk_id = pos 12;
      valid = true;
    }
parse_message-build_request_message_example =
    parse_message-build_request_message (codes "f.1") 12 file-IsWord (omega arith)

parse_message-build_chunk_message_example :
    parse_message (build_chunk_message (codes "f.1") (pos 12) 300 (codes "a0")) ≡ record blank {
      type = chunk;
      command = codes "CHUNK";
      file_id = codes "f.1";
      chunk_id = pos 12;
      chunk_size = 300;
      chunk_hash = codes "a0";
      valid = true;
    }
parse_message-build_chunk_message_example =
    parse_message-build_chunk_message (codes "f.1") 12 300 (codes "a0") file-IsWord (omega arith)
      (omega arith) (omega arith) hash-IsWord

parse_message-IsSound_example : IsSound (parse_message (codes "CHUNK f 1 0 x"))
parse_message-IsSound_example = parse_message-IsSound (codes "CHUNK f 1 0 x")

accepted : is_safe_file_id (codes "f.1") ≡ true
unfolding is_safe_file_id
accepted = refl

is_safe_file_id-IsWord_example :
    (codes "f.1" ≢ [])
    × NoSpace (codes "f.1")
    × All (λ c. c ≢ b'/') (codes "f.1")
    × (length (codes "f.1") ≤ 128)
is_safe_file_id-IsWord_example = is_safe_file_id-IsWord (codes "f.1") accepted
