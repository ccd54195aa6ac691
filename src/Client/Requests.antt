-- ===== src/Client/Requests.antt =====
-- The way of a command from the line of the user into the log of the primary.
use vsr_kv.Common.{ℕ, ◌<◌, ◌≡◌, refl, sym, ap, ◌∙◌, some, List, [], ◌∷◌, ◌++◌, append-nil}
use vsr_kv.Common.Map.{find, insert, find-insert, nat_key}
use vsr_kv.Common.Map.Text.{text_key}
use vsr_kv.Message.{VsrMessage, Operation}
use vsr_kv.Message.Checksum.{Blake3}
use vsr_kv.Message.Codec.{serialize, sealed}
use vsr_kv.Serialization.{LogEntry}
use vsr_kv.ReplicaState.{inc64}
use vsr_kv.Replica.{Replica, InboundMessage, Connection, client_entry}
use vsr_kv.Replica.Execute.{StateMachine, run_operation}
use vsr_kv.Replica.Normal.{handle_request, handle_new_request, log_request, request_entry}
use vsr_kv.Replica.Normal.Retry.{handle_request_new, touched}
use vsr_kv.Protocol.{ProtocolHandler, buffer_of}
use vsr_kv.Protocol.Stream.{FrameFits, concat}
use vsr_kv.Protocol.Delivery.{receive, receive-stream}
use vsr_kv.Client.{ClientProgram, self_client_id, numbered, parse_line, message_of, request_of}
use vsr_kv.Client.Commands.{Word, set_line, parse_line-set, executed-set}

-- The message of the command `set key value`.
abbrev pub set_message : List ℕ → List ℕ → VsrMessage
set_message key value = request_of Operation.set (key ++ (b' ' ∷ value))

-- The message as it comes from a connection.
abbrev pub arrived : Connection → VsrMessage → InboundMessage
arrived connection msg = record { connection = connection; message = msg }

-- The primary has logged the command under the next operation number.
pub record Logged (key value : List ℕ) (p : ClientProgram) (r s : Replica) : Type 0 where
  pub entry : LogEntry
  pub logged : find (inc64 r.state.op) s.state.log ≡ some entry
  pub client : entry.client_id ≡ self_client_id
  pub request : entry.request_num ≡ p.next_request_number
  pub effect :
      (machine : StateMachine)
      → (run_operation entry.op_type entry.payload machine).0 ≡ insert key value machine

module _ (blake3 : Blake3) where
  handle_new_request-Logged :
      {key value : List ℕ}
      → Word key
      → Word value
      → (p : ClientProgram) (r : Replica) (connection : Connection)
      → Logged key value p r (
          handle_new_request
            (arrived connection (sealed blake3 (numbered (set_message key value) p)))
            (touched (arrived connection (sealed blake3 (numbered (set_message key value) p))) r))
  unfolding handle_new_request log_request sealed numbered request_entry message_of
  handle_new_request-Logged {key = key} {value = value} k v p r connection = record {
    entry = request_entry (sealed blake3 (numbered (set_message key value) p)) r.state;
    logged =
        rw
          (
            find-insert (inc64 r.state.op) (inc64 r.state.op)
                (request_entry (sealed blake3 (numbered (set_message key value) p)) r.state)
                r.state.log,
            (nat_key.equiv_iff (inc64 r.state.op) (inc64 r.state.op)).1 refl,
          )
          refl;
    client = refl;
    request = refl;
    effect = λ machine. executed-set k v machine;
  }

  -- The line `set key value` of the user, for words without white space, becomes a message. Its
  -- bytes, if the message is in range and not over the limit, are handed on by the server as this
  -- message, however they are divided into reads. A primary that knows no request of the client
  -- with this number or a later one logs it, under the next operation number, as an entry that
  -- puts the value under the key when it is run.
  pub set_line-Logged :
      {key value : List ℕ}
      → Word key
      → Word value
      → (p : ClientProgram) (socket_fd : ℕ) (chunks : List (List ℕ)) (h : ProtocolHandler)
        (r : Replica) (connection : Connection)
      → let msg = numbered (set_message key value) p in
        let request = arrived connection (sealed blake3 msg) in
        FrameFits msg
        → concat chunks ≡ serialize blake3 msg
        → buffer_of socket_fd h.connection_buffers ≡ []
        → (client_entry self_client_id r.state.client_table).request_number < p.next_request_number
        → (message_of (parse_line (set_line key value)) ≡ some (set_message key value))
          × ((receive blake3 socket_fd chunks h).received
              ≡ h.received ++ ((socket_fd, sealed blake3 msg) ∷ []))
          × Logged key value p r (handle_request request r)
  unfolding message_of
  set_line-Logged {key = key} {value = value} k v p socket_fd chunks h r connection f e b n =
      let msg = numbered (set_message key value) p in
      (
        ap message_of (parse_line-set k v),
        (receive-stream blake3 socket_fd chunks (msg ∷ []) h (f, tt)
            (e ∙ sym (append-nil (serialize blake3 msg))) b).received,
        rw
            (handle_request_new (arrived connection (sealed blake3 msg)) r
              (unfold sealed numbered in n))
            (handle_new_request-Logged k v p r connection),
      )
