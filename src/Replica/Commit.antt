-- ===== src/Replica/Commit.antt =====
-- `Replica::advance_primary_commit_number` and `handle_prepare_ok`.
pub mod Quorum
use vsr_kv.Common.{
  ℕ, zero, suc, ◌+◌, Bool, true, false, not, ◌&&◌, none, some, ltb, ◌==◌, if◌then◌else◌, length,
}
use vsr_kv.Common.Map.{find, insert, nat_key}
use vsr_kv.Common.IntSet
use vsr_kv.Message.{VsrMessage}
use vsr_kv.Serialization.{LogEntry, Log}
use vsr_kv.ReplicaState.{ReplicaState, inc64, is_primary, is_normal}
use vsr_kv.Replica.{Replica, InboundMessage, with_state}
use vsr_kv.Replica.Execute.{execute_commited_ops}

-- Enough acknowledgements, the primary's own among them.
unfoldable pub has_quorum : ℕ → LogEntry → Bool
has_quorum f entry = not (ltb (length entry.prepare_ok_acks) (f + 1))

-- The commit number that the loop reaches.
unfoldable pub advance_loop : ℕ → ℕ → Log → ℕ → ℕ
advance_loop zero f log commit = commit
advance_loop (suc rounds) f log commit =
    let next_op_to_commit = inc64 commit in
    elim (find next_op_to_commit log) [
      | none ↦ commit
      | some entry ↦ elim (has_quorum f entry) [
        | false ↦ commit
        | true ↦ advance_loop rounds f log next_op_to_commit
      ]
    ]

-- Each round passes another entry of the log.
unfoldable pub advance_primary_commit_number : Replica → Replica
unfolding advance_loop
advance_primary_commit_number r =
    let s = r.state in
    if not (is_primary s)
    then r
    else execute_commited_ops (
        with_state
          (record s { commit = advance_loop (length s.log) s.fault_tolerance_f s.log s.commit }) r)

unfoldable pub check_can_process_prepare_ok : VsrMessage → ReplicaState → Bool
check_can_process_prepare_ok msg s = is_normal s.status && is_primary s && msg.header.view == s.view

unfoldable pub handle_prepare_ok : InboundMessage → Replica → Replica
unfolding advance_primary_commit_number
handle_prepare_ok inbound r =
    let ok_msg = inbound.message in
    let op_num = ok_msg.header.op in
    let backup_id = ok_msg.header.replica in
    let s = r.state in
    elim (find op_num s.log) [
      | none ↦ r
      | some entry ↦
          let entry' : LogEntry = record entry {
            prepare_ok_acks = IntSet.add backup_id entry.prepare_ok_acks;
          } in
          advance_primary_commit_number
            (with_state (record s { log = insert op_num entry' s.log }) r)
    ]
