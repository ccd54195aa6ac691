-- ===== src/Replica/Recovery.antt =====
-- Recovery in server/replica.cpp, and `generate_nonce` of common/utilities.cpp.
pub mod Best
pub mod Following
use vsr_kv.Common.{
  ℕ, ◌+◌, ◌*◌, ◌%◌, ◌^◌, Bool, not, ◌&&◌, none, some, [], ◌∷◌, ◌++◌, foldl, ltb, ◌==◌,
  if◌then◌else◌, length,
}
use Prim.Native.Nat.{bit_or}
use vsr_kv.Common.Map.{nat_key}
use vsr_kv.Utilities.{U128, u128_key, u128_eq, zero_u128}
use vsr_kv.Message.{VsrMessage, Command}
use vsr_kv.Serialization.{
  Log, serialize_recovery_request, deserialize_recovery_request, serialize_recovery_response,
  deserialize_recovery_response,
}
use vsr_kv.ReplicaState.{ReplicaState, ReplicaStatus, inc32, is_normal, is_recovery}
use vsr_kv.Replica.{Replica, InboundMessage, Env, Output, emit, with_state, header_of}
use vsr_kv.Replica.Execute.{execute_commited_ops}
use vsr_kv.Replica.ViewChange.{note_request}

-- The nonce for a replica and a value of the counter.
unfoldable pub generate_nonce : Env → ℕ → ℕ → U128
generate_nonce env replica_id counter = record {
  high = (env.tv_sec * 1_000_000_000 + env.tv_nsec) % 2 ^ 64;
  low = bit_or (replica_id * 2 ^ 32 % 2 ^ 64) counter;
}

unfoldable pub recovery_message : U128 → ℕ → VsrMessage
recovery_message nonce id = record {
  header = record (header_of Command.recovery) { replica = id % 256 };
  payload = serialize_recovery_request nonce;
}

unfoldable pub initiate_recovery : Env → Replica → Replica
initiate_recovery env r =
    let s = r.state in
    let nonce = generate_nonce env s.id r.nonce_counter in
    if is_recovery s.status
    then r
    else emit (Output.broadcast_to_peers (recovery_message nonce s.id)) (record r {
      state = record s {
        status = ReplicaStatus.recovery;
        recovery_nonce = nonce;
        recovery_responses = [];
      };
      nonce_counter = inc32 r.nonce_counter;
    })

unfoldable pub check_can_process_recovery_request : VsrMessage → ReplicaState → Bool
check_can_process_recovery_request msg s = is_normal s.status

unfoldable pub recovery_response_message : U128 → ReplicaState → VsrMessage
recovery_response_message nonce s = record {
  header = record (header_of Command.recovery_response) {
    replica = s.id % 256;
    view = s.view;
    op = s.op;
    commit = s.commit;
  };
  payload = serialize_recovery_response (record { nonce = nonce; log = s.log });
}

unfoldable pub handle_recovery_request : InboundMessage → Replica → Replica
handle_recovery_request inbound r = elim (deserialize_recovery_request inbound.message.payload) [
  | none ↦ r
  | some nonce ↦
      emit
        (Output.send_to_peer (some inbound.message.header.replica)
          (recovery_response_message nonce r.state))
        r
]

unfoldable pub check_can_process_recovery_response : VsrMessage → ReplicaState → Bool
check_can_process_recovery_response msg s = is_recovery s.status

-- The later view wins, and in one view the higher operation number.
unfoldable pub better_response : VsrMessage → VsrMessage → VsrMessage
better_response best current =
    if ltb best.header.view current.header.view
    then current
    else if current.header.view == best.header.view && ltb best.header.op current.header.op
    then current
    else best

-- `recovery_response_payload best_payload;` leaves the nonce uninitialised, and nothing reads it.
unfoldable pub response_log : VsrMessage → Log
response_log msg =
    (deserialize_recovery_response msg.payload (record { nonce = zero_u128; log = [] })).1.log

unfoldable pub adopt_response : Env → VsrMessage → Replica → Replica
adopt_response env best r =
    let log = response_log best in
    record r {
      state = record (r.state) {
        view = best.header.view;
        op = best.header.op;
        commit = best.header.commit;
        log = log;
        last_executed_op = 0;
        status = ReplicaStatus.normal;
        client_table = foldl note_request [] log;
      };
      last_primary_contact = env.now;
    }

unfoldable pub finish_recovery : Env → VsrMessage → Replica → Replica
finish_recovery env best r =
    let r1 = execute_commited_ops (adopt_response env best r) in
    with_state (record (r1.state) { recovery_nonce = zero_u128; recovery_responses = [] }) r1

-- A response with the right nonce.
unfoldable pub collect_response : Env → VsrMessage → Replica → Replica
collect_response env response_msg r =
    let s = r.state in
    let waiting : Replica =
      with_state (record s { recovery_responses = s.recovery_responses ++ (response_msg ∷ []) })
        r in
    elim (s.recovery_responses ++ (response_msg ∷ [])) [
      | [] ↦ waiting
      | first ∷ rest ↦
          if ltb (length (first ∷ rest)) (s.fault_tolerance_f + 1)
          then waiting
          else finish_recovery env (foldl better_response first rest) waiting
    ]

unfoldable pub handle_recovery_response : Env → InboundMessage → Replica → Replica
handle_recovery_response env inbound r =
    let response_msg = inbound.message in
    let (done, res_payload) =
      deserialize_recovery_response response_msg.payload (record { nonce = zero_u128; log = [] }) in
    if not done
    then r
    else if not (u128_eq res_payload.nonce r.state.recovery_nonce)
    then r
    else collect_response env response_msg r
