-- ===== src/Tests/Client.antt =====
-- Runs of the client program.
use vsr_kv.Message.{VsrMessage}
use vsr_kv.Client.Requests.{set_message, arrived, Logged, set_line-Logged}
use vsr_kv.Replica.{client_entry}
use vsr_kv.ReplicaState.{new_state}
use vsr_kv.Replica.Normal.{handle_request}
use vsr_kv.Protocol.Delivery.{receive}
use vsr_kv.Protocol.Stream.{FrameFits}
use vsr_kv.Protocol.{ProtocolHandler}
use vsr_kv.Common.{
  ◌≡◌, refl, ◌⊎◌, none, some, [], ◌∷◌, ◌++◌, append-nil, arith, ℕ, ap, ◌∙◌, List, take, drop,
  take-append-drop,
}
use vsr_kv.Common.Map.{find}
use vsr_kv.Common.Map.Text.{text_key, text_lt}
use vsr_kv.Tests.Data.{toy_blake3, set_request, new_replica}
use vsr_kv.Message.Codec.{serialize, sealed}
use vsr_kv.Message.Layout.{header_pod}
use vsr_kv.Wire.Bytes.{to_bytes}
use vsr_kv.TcpClient.{TcpClient, State}
use vsr_kv.Client.{ClientProgram, numbered, send_message, on_message, parse_line, message_of}
use vsr_kv.Client.Failover.{SentTo, NotSent, next_request, send_message-SentTo}
use vsr_kv.Client.Commands.{Word, set_line, get_line, machine_after, reply_to, set_line-get_line}
use vsr_kv.Client.Replies.{on_message-read}

-- Replica 1 alone is connected.
abbrev up : TcpClient
up = record {
  state = State.connected;
  connection = some 7;
  pending = [];
  called = [];
  dropped = [];
}

abbrev program : ClientProgram
program = record { clients = (1, up) ∷ []; current_target_replica_id = 0; next_request_number = 1 }

send_message-SentTo_example :
    let result = send_message toy_blake3 set_request 3 program in
    SentTo 3 3 (serialize toy_blake3 (numbered set_request program)) (next_request program) result
    ⊎ NotSent 3 (next_request program) result
send_message-SentTo_example = send_message-SentTo toy_blake3 set_request 3 program (omega arith)

word : Word (b'k' ∷ [])
word = Word.last refl

value : Word (b'v' ∷ b'1' ∷ [])
value = Word.more refl (Word.last refl)

set_line-get_line_example :
    reply_to (get_line (b'k' ∷ [])) (machine_after (set_line (b'k' ∷ []) (b'v' ∷ b'1' ∷ [])) [])
    ≡ b'v' ∷ b'1' ∷ []
unfolding text_lt
set_line-get_line_example = set_line-get_line word value word []

-- Two replies in one read.
on_message-read_example :
    on_message toy_blake3 (serialize toy_blake3 set_request ++ serialize toy_blake3 set_request)
    ≡ none
unfolding serialize sealed header_pod to_bytes
on_message-read_example =
    on_message-read toy_blake3 set_request
      (serialize toy_blake3 set_request ++ serialize toy_blake3 set_request) []
      (serialize toy_blake3 set_request) (omega arith)
      (append-nil (serialize toy_blake3 set_request ++ serialize toy_blake3 set_request))

abbrev quiet : ProtocolHandler
quiet = record { connection_buffers = []; received = []; closed = [] }

abbrev command : VsrMessage
command = numbered (set_message (b'k' ∷ []) (b'v' ∷ b'1' ∷ [])) program

command-Fits : FrameFits command
unfolding numbered
command-Fits = record { fits = omega arith; limit = omega arith }

abbrev chunks : List (List ℕ)
chunks = take 100 (serialize toy_blake3 command) ∷ drop 100 (serialize toy_blake3 command) ∷ []

set_line-Logged_example :
    (message_of (parse_line (set_line (b'k' ∷ []) (b'v' ∷ b'1' ∷ [])))
      ≡ some (set_message (b'k' ∷ []) (b'v' ∷ b'1' ∷ [])))
    × ((receive toy_blake3 5 chunks quiet).received ≡ (5, sealed toy_blake3 command) ∷ [])
    × Logged
        (b'k' ∷ [])
        (b'v' ∷ b'1' ∷ [])
        program
        (new_replica 0)
        (handle_request (arrived none (sealed toy_blake3 command)) (new_replica 0))
unfolding new_state find client_entry
set_line-Logged_example =
    set_line-Logged toy_blake3 word value program 5 chunks quiet (new_replica 0) none command-Fits
      (ap (◌++◌ (take 100 (serialize toy_blake3 command)))
          (append-nil (drop 100 (serialize toy_blake3 command)))
        ∙ take-append-drop 100 (serialize toy_blake3 command))
      refl (omega arith)
