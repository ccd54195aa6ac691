-- ===== src/Replica.antt =====
-- server/replica.hpp: a replica as its state, its queue, and what it has handed to the
-- protocol handler. The operations of server/replica.cpp are in the modules below.
pub mod Execute
pub mod Commit
pub mod Normal
pub mod ViewChange
pub mod Recovery
pub mod Queue
pub mod Invariant
pub mod Events
use vsr_kv.Common.{
  ℕ, zero, suc, ◌+◌, ◌-◌, ◌*◌, ◌/◌, ◌%◌, ◌^◌, ◌≤◌, ◌<◌, max, ◌≡◌, refl, sym, ap, subst, ◌∙◌, ◌≢◌,
  ◌↔◌, ◌⊎◌, inl, inr, Bool, true, false, not, ◌&&◌, ◌||◌, Option, none, some, List, [], ◌∷◌, ◌++◌,
  map, foldl, append-nil, append_assoc, arith, ltb, leb, ◌==◌, if◌then◌else◌, ltb→lt, lt→ltb,
  le→ltb, ==_iff, ==_refl, Bool-cases, Option-cases, length, take, drop, replicate, All,
  length-append, length-drop, length-take_of_le, take-append, drop-append, take-append-drop,
  All-append,
}
use vsr_kv.Common.Map.{Map, find, insert}
use vsr_kv.Utilities.{U128, u128_key}
use vsr_kv.Message.{VsrMessage, VsrHeader, Command, zero_header}
use vsr_kv.Serialization.{ClientTableEntry, new_client_table_entry}
use vsr_kv.ReplicaState.{ReplicaState}

-- A connection object is known by a number; `none` is the null pointer.
abbrev pub Connection : Type 0
Connection = Option ℕ

pub record InboundMessage : Type 0 where
  pub connection : Connection
  pub message : VsrMessage

-- The calls of `send_message`, `send_to_peer` and `broadcast_to_peers`.
pub data Output : Type 0 where
  send_message : Connection → VsrMessage → Output
  send_to_peer : Option ℕ → VsrMessage → Output
  broadcast_to_peers : VsrMessage → Output

-- What an event reads of its surroundings: the steady clock in nanoseconds, the clock of
-- `generate_nonce`, and what an uninitialised `last_normal_view` happens to hold.
pub record Env : Type 0 where
  pub now : ℕ
  pub tv_sec : ℕ
  pub tv_nsec : ℕ
  pub uninitialised : ℕ

pub record Replica : Type 0 where
  pub state : ReplicaState
  pub client_connections : Map U128 Connection
  pub message_queue : List InboundMessage
  pub last_primary_contact : ℕ
  -- The process-local counter of `generate_nonce`.
  pub nonce_counter : ℕ
  -- The outgoing messages in the order of the calls, for the statements about them.
  pub sent : List Output

abbrev pub emit : Output → Replica → Replica
emit o r = record r { sent = r.sent ++ (o ∷ []) }

abbrev pub with_state : ReplicaState → Replica → Replica
with_state s r = record r { state = s }

-- A new message with a command; the callers add the other members.
abbrev pub header_of : Command → VsrHeader
header_of command = record zero_header { command = command }

abbrev pub ClientTable : Type 0
ClientTable = Map U128 ClientTableEntry

-- `client_table_[client]`: the entry, which is made where there is none.
unfoldable pub client_entry : U128 → ClientTable → ClientTableEntry
client_entry client table = elim (find client table) [
  | none ↦ new_client_table_entry
  | some entry ↦ entry
]

unfoldable pub touch_entry : U128 → ClientTable → ClientTable
touch_entry client table = elim (find client table) [
  | none ↦ insert client new_client_table_entry table
  | some entry ↦ table
]
