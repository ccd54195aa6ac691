-- ===== src/Tests/Recovery.antt =====
-- A replica that recovers from two responders.
use vsr_kv.Common.{ℕ, refl, some, [], ◌∷◌, arith, All}
use vsr_kv.Tests.Data.{client_id, two_entries, new_replica, noon}
use vsr_kv.Tests.Wire.{two_entries-Fits}
use vsr_kv.ReplicaState.{new_state, ReplicaState, ReplicaStatus}
use vsr_kv.Replica.{Replica, with_state}
use vsr_kv.Replica.Recovery.{recovery_response_message, handle_recovery_response}
use vsr_kv.Replica.Recovery.Best.{NotAfter, OneOf}
use vsr_kv.Replica.Recovery.Following.{Follows, handle_recovery_response-Follows}

abbrev responder : ℕ → ℕ → ReplicaState
responder id view = record ((new_replica id).state) {
  view = view;
  op = 2;
  commit = 1;
  log = two_entries;
}

abbrev recovering : Replica
recovering =
    with_state
      (record ((new_replica 0).state) {
        status = ReplicaStatus.recovery;
        recovery_nonce = client_id;
        recovery_responses = recovery_response_message client_id (responder 1 3) ∷ [];
      })
      (new_replica 0)

handle_recovery_response-Follows_example :
    OneOf
      (λ best.
        Follows
          (handle_recovery_response noon
            (record {
              connection = some 9;
              message = recovery_response_message client_id (responder 2 4);
            })
            recovering)
          best
        × All (NotAfter best) (responder 1 3 ∷ responder 2 4 ∷ []))
      (responder 1 3 ∷ responder 2 4 ∷ [])
unfolding new_state
handle_recovery_response-Follows_example =
    handle_recovery_response-Follows noon (some 9) (responder 1 3 ∷ []) (responder 2 4) recovering
      (omega arith) (two_entries-Fits, (two_entries-Fits, tt)) refl (omega arith)
