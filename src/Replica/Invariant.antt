-- ===== src/Replica/Invariant.antt =====
-- What holds of a replica between two events: every number lies in the range of its type, the
-- log is in order, and all that the replica keeps or sends can be carried by a message.
pub mod Execute
pub mod Normal
pub mod ViewChange
pub mod StartView
pub mod Recovery
pub mod Queue
pub mod Reach
use vsr_kv.Common.{
  ℕ, zero, suc, ◌+◌, ◌-◌, ◌*◌, ◌/◌, ◌%◌, ◌^◌, ◌≤◌, ◌<◌, max, ◌≡◌, refl, sym, ap, subst, ◌∙◌, ◌≢◌,
  ◌↔◌, ◌⊎◌, inl, inr, Bool, true, false, not, ◌&&◌, ◌||◌, Option, none, some, List, [], ◌∷◌, ◌++◌,
  map, foldl, append-nil, append_assoc, arith, ℕ_discrete, dec_lt, ltb, leb, ◌==◌, if◌then◌else◌,
  ltb→lt, lt→ltb, le→ltb, ==_iff, ==_refl, Bool-cases, Option-cases, length, take, drop, replicate,
  All, length-append, length-drop, length-take_of_le, take-append, drop-append, take-append-drop,
  All-append, All-take, All-drop, ltb_false→le, take-append_of_le, drop-append_of_le,
}
use vsr_kv.Common.Map.{Map}
use vsr_kv.Utilities.{U128}
use vsr_kv.Message.{VsrMessage}
use vsr_kv.Message.Layout.{HeaderFits, U128Fits}
use vsr_kv.Serialization.{ClientTableEntry}
use vsr_kv.Message.Ranges.{Bytes, InRange}
use vsr_kv.Serialization.Ranges.{LogInRange}
use vsr_kv.ReplicaState.{ReplicaState}
use vsr_kv.Replica.{Replica, InboundMessage, Output, emit, with_state}

-- A message that has arrived is of bounded size as well.
abbrev pub InboundInRange : InboundMessage → Type 0
InboundInRange inbound = InRange inbound.message × (length inbound.message.payload < 2 ^ 64)

abbrev pub OutputInRange : Output → Type 0
OutputInRange (Output.send_message connection msg) = InRange msg
OutputInRange (Output.send_to_peer peer msg) = InRange msg
OutputInRange (Output.broadcast_to_peers msg) = InRange msg

abbrev pub ValueBytes : List ℕ × List ℕ → Type 0
ValueBytes (key, value) = Bytes value

abbrev pub ResultBytes : U128 × ClientTableEntry → Type 0
ResultBytes (client, entry) = Bytes entry.result

pub record StateInv (s : ReplicaState) : Type 0 where
  pub view : s.view < 2 ^ 32
  pub op : s.op < 2 ^ 64
  pub commit : s.commit < 2 ^ 64
  pub last_executed_op : s.last_executed_op < 2 ^ 64
  pub last_normal_view : s.last_normal_view < 2 ^ 32
  pub recovery_nonce : U128Fits s.recovery_nonce
  pub log : LogInRange s.log
  pub client_table : All ResultBytes s.client_table
  pub state_machine : All ValueBytes s.state_machine
  pub recovery_responses : All InRange s.recovery_responses
  pub do_view_change_received : All InRange s.do_view_change_received

pub record Inv (r : Replica) : Type 0 where
  pub state : StateInv r.state
  pub message_queue : All InboundInRange r.message_queue
  pub nonce_counter : r.nonce_counter < 2 ^ 32
  pub sent : All OutputInRange r.sent

pub emit-Inv : (o : Output) (r : Replica) → OutputInRange o → Inv r → Inv (emit o r)
emit-Inv o r h v = record {
  state = v.state;
  message_queue = v.message_queue;
  nonce_counter = v.nonce_counter;
  sent = All-append OutputInRange r.sent (o ∷ []) v.sent (h, tt);
}

pub with_state-Inv : (s : ReplicaState) (r : Replica) → StateInv s → Inv r → Inv (with_state s r)
with_state-Inv s r h v = record {
  state = h;
  message_queue = v.message_queue;
  nonce_counter = v.nonce_counter;
  sent = v.sent;
}
