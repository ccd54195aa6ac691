-- ===== src/Client.antt =====
-- client/client_main.cpp: the client program. The threads meet in the map of clients and in the
-- atomic numbers; each call below is one turn of the input loop.
pub mod Failover
pub mod Commands
pub mod Replies
pub mod Requests
use vsr_kv.Common.{
  ℕ, zero, suc, ◌+◌, ◌-◌, ◌*◌, ◌/◌, ◌%◌, ◌^◌, ◌≤◌, ◌<◌, max, ◌≡◌, refl, sym, ap, subst, ◌∙◌, ◌≢◌,
  ◌↔◌, ◌⊎◌, inl, inr, Bool, true, false, not, ◌&&◌, ◌||◌, Option, none, some, List, [], ◌∷◌, ◌++◌,
  map, foldl, append-nil, append_assoc, arith, ℕ_discrete, dec_lt, ltb, leb, ◌==◌, if◌then◌else◌,
  ltb→lt, lt→ltb, le→ltb, ==_iff, ==_refl, Bool-cases, Option-cases, length, take, drop, replicate,
  All, length-append, length-drop, length-take_of_le, take-append, drop-append, take-append-drop,
  All-append, All-take, All-drop, ltb_false→le, take-append_of_le, drop-append_of_le,
}
use vsr_kv.Common.Map.{Map, find, insert, nat_key}
use vsr_kv.Utilities.{U128}
use vsr_kv.Message.{VsrMessage, Command, Operation, empty_message}
use vsr_kv.Message.Checksum.{Blake3}
use vsr_kv.Message.Codec.{serialize, deserialize}
use vsr_kv.ReplicaState.{inc32}
use vsr_kv.Replica.Execute.{extract}
use vsr_kv.TcpClient.{TcpClient, is_connected, send, connect, new_client}

pub record ReplicaInfo : Type 0 where
  pub id : ℕ
  pub host : List ℕ
  pub port : ℕ

abbrev localhost : List ℕ
localhost = b'l' ∷ b'o' ∷ b'c' ∷ b'a' ∷ b'l' ∷ b'h' ∷ b'o' ∷ b's' ∷ b't' ∷ []

abbrev replica_info : ℕ → ReplicaInfo
replica_info id = record { id = id; host = localhost; port = 8080 + id }

unfoldable pub cluster_config : List ReplicaInfo
cluster_config = replica_info 0 ∷ replica_info 1 ∷ replica_info 2 ∷ []

abbrev pub self_client_id : U128
self_client_id = record { high = 0xDEADBEEF; low = 0xCAFEF00D }

pub record ClientProgram : Type 0 where
  pub clients : Map ℕ TcpClient
  pub current_target_replica_id : ℕ
  pub next_request_number : ℕ

-- Whether a replica has a client, and it is connected.
unfoldable pub connected_to : ℕ → Map ℕ TcpClient → Bool
connected_to id clients = elim (find id clients) [
  | none ↦ false
  | some client ↦ is_connected client.state
]

unfoldable pub advance_to_next_replica : ℕ → ClientProgram → ClientProgram
advance_to_next_replica total_replicas p = record p {
  current_target_replica_id = (p.current_target_replica_id + 1) % total_replicas;
}

-- `client_to_use->send(char_vec)`
unfoldable pub send_through : List ℕ → ClientProgram → ClientProgram
send_through bytes p = elim (find p.current_target_replica_id p.clients) [
  | none ↦ p
  | some client ↦ record p {
    clients = insert p.current_target_replica_id (send bytes client) p.clients;
  }
]

-- The loop over the attempts. The second part is the replica that the message went to; `none`
-- is the error that is printed at the end.
unfoldable pub attempts : ℕ → ℕ → List ℕ → ClientProgram → ClientProgram × Option ℕ
unfolding advance_to_next_replica send_through
attempts zero total_replicas bytes p = (p, none)
attempts (suc rounds) total_replicas bytes p =
    elim (connected_to p.current_target_replica_id p.clients) [
      | true ↦ (send_through bytes p, some p.current_target_replica_id)
      | false ↦ attempts rounds total_replicas bytes (advance_to_next_replica total_replicas p)
    ]

-- The message with the client's id and the next request number.
unfoldable pub numbered : VsrMessage → ClientProgram → VsrMessage
numbered msg p = record msg {
  header = record (msg.header) { client = self_client_id; request = p.next_request_number };
}

-- What the user asks for.
pub data UserCommand : Type 0 where
  quit nothing help status ping get_usage set_usage unknown : UserCommand
  get_key : List ℕ → UserCommand
  set_key : List ℕ → List ℕ → UserCommand

unfoldable pub same_text : List ℕ → List ℕ → Bool
same_text [] [] = true
same_text (a ∷ s) (b ∷ t) = a == b && same_text s t
same_text _ _ = false

-- The words of the program.
abbrev pub word_get : List ℕ
word_get = b'g' ∷ b'e' ∷ b't' ∷ []

abbrev pub word_set : List ℕ
word_set = b's' ∷ b'e' ∷ b't' ∷ []

abbrev word_ping : List ℕ
word_ping = b'p' ∷ b'i' ∷ b'n' ∷ b'g' ∷ []

abbrev word_help : List ℕ
word_help = b'h' ∷ b'e' ∷ b'l' ∷ b'p' ∷ []

abbrev word_status : List ℕ
word_status = b's' ∷ b't' ∷ b'a' ∷ b't' ∷ b'u' ∷ b's' ∷ []

abbrev word_exit : List ℕ
word_exit = b'e' ∷ b'x' ∷ b'i' ∷ b't' ∷ []

abbrev word_quit : List ℕ
word_quit = b'q' ∷ b'u' ∷ b'i' ∷ b't' ∷ []

-- `ss >> key` fails where no word is left.
unfoldable pub get_command : List ℕ → UserCommand
unfolding extract
get_command ss =
    let (key, rest) = extract ss in
    elim key [ [] ↦ UserCommand.get_usage | c ∷ cs ↦ UserCommand.get_key (c ∷ cs) ]

-- `ss >> key >> value` fails where there are not two.
unfoldable pub set_command : List ℕ → UserCommand
unfolding extract
set_command ss =
    let (key, rest) = extract ss in
    elim ((extract rest).0) [
      | [] ↦ UserCommand.set_usage
      | c ∷ value ↦ UserCommand.set_key key (c ∷ value)
    ]

unfoldable pub parse_line : List ℕ → UserCommand
unfolding extract get_command set_command same_text
parse_line line =
    let (command, ss) = extract line in
    if same_text line word_exit || same_text line word_quit
    then UserCommand.quit
    else if same_text command []
    then UserCommand.nothing
    else if same_text command word_help
    then UserCommand.help
    else if same_text command word_status
    then UserCommand.status
    else if same_text command word_ping
    then UserCommand.ping
    else if same_text command word_get
    then get_command ss
    else if same_text command word_set
    then set_command ss
    else UserCommand.unknown

abbrev pub request_of : Operation → List ℕ → VsrMessage
request_of operation payload = record empty_message {
  header = record (empty_message.header) { command = Command.request; operation = operation };
  payload = payload;
}

-- The message of a command, if it sends one.
unfoldable pub message_of : UserCommand → Option VsrMessage
message_of UserCommand.ping =
    some
      (record empty_message { header = record (empty_message.header) { command = Command.ping } })
message_of (UserCommand.get_key key) = some (request_of Operation.get key)
message_of (UserCommand.set_key key value) = some (request_of Operation.set (key ++ (b' ' ∷ value)))
message_of _ = none

-- What a turn of the input loop prints: the replica that the message went to or the failure, the
-- states of the connections, or a text that depends on the command alone.
pub data Printed : Type 0 where
  text : Printed
  sent : Option ℕ → Printed
  states : ℕ → List (ℕ × Bool) → Printed

module _ (blake3 : Blake3) where
  unfoldable pub send_message : VsrMessage → ℕ → ClientProgram → ClientProgram × Option ℕ
  unfolding attempts numbered
  send_message msg total_replicas p =
      attempts total_replicas total_replicas (serialize blake3 (numbered msg p))
        (record p { next_request_number = inc32 p.next_request_number })

  unfoldable pub sent_by : Option VsrMessage → ClientProgram → ClientProgram × Printed
  unfolding send_message cluster_config
  sent_by none p = (p, Printed.text)
  sent_by (some msg) p =
      let (q, target) = send_message msg (length cluster_config) p in (q, Printed.sent target)

  unfoldable pub handle_command : UserCommand → ClientProgram → ClientProgram × Printed
  unfolding connected_to sent_by message_of cluster_config
  handle_command UserCommand.status p = (
    p,
    Printed.states p.current_target_replica_id
        (map (λ (c : ReplicaInfo). (c.id, connected_to c.id p.clients)) cluster_config),
  )
  handle_command command p = sent_by (message_of command) p

  -- The lines up to the end of the input or the command to quit.
  unfoldable pub handle_user_input : List (List ℕ) → ClientProgram → ClientProgram × List Printed
  handle_user_input [] p = (p, [])
  handle_user_input (line ∷ lines) p = elim (parse_line line) [
    | quit ↦ (p, [])
    | command ↦
        let (q, printed) = handle_command command p in
        let (r, more) = handle_user_input lines q in (r, printed ∷ more)
  ]

  -- The payload of a reply, or the failure that is printed.
  unfoldable pub on_message : List ℕ → Option (List ℕ)
  on_message bytes = elim (deserialize blake3 bytes empty_message) [
    | none ↦ none
    | some msg ↦ some msg.payload
  ]

-- The clients of the program, each of which starts to connect.
unfoldable pub start_clients : List ReplicaInfo → ClientProgram → ClientProgram
unfolding connect
start_clients [] p = p
start_clients (info ∷ config) p =
    start_clients config (record p { clients = insert info.id (connect new_client) p.clients })

unfoldable pub start : ClientProgram
unfolding start_clients cluster_config
start =
    start_clients cluster_config
      (record { clients = []; current_target_replica_id = 0; next_request_number = 1 })
