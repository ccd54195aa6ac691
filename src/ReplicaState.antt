-- ===== src/ReplicaState.antt =====
-- server/replica_state.hpp.
pub mod Primary
use vsr_kv.Common.{
  ℕ, ◌+◌, ◌-◌, ◌*◌, ◌/◌, ◌%◌, ◌^◌, Bool, true, false, Option, none, some, List, [], ◌∷◌, ◌==◌,
  if◌then◌else◌, length,
}
use vsr_kv.Common.Map.{Map, insert, nat_key}
use vsr_kv.Common.IntSet
use vsr_kv.Utilities.{U128, zero_u128}
use vsr_kv.Message.{VsrMessage}
use vsr_kv.Serialization.{Log, ClientTableEntry}

pub data ReplicaStatus : Type 0 where
  normal view_change recovery : ReplicaStatus

pub record PeerConfig : Type 0 where
  pub id : ℕ
  pub host : List ℕ
  pub port : ℕ

-- Replica ids are the non-negative ones of the cluster configuration.
pub record ReplicaState : Type 0 where
  pub id : ℕ
  pub fault_tolerance_f : ℕ
  pub cluster_config : Map ℕ PeerConfig
  pub status : ReplicaStatus
  pub view : ℕ
  pub op : ℕ
  pub commit : ℕ
  pub last_executed_op : ℕ
  pub log : Log
  pub client_table : Map U128 ClientTableEntry
  pub state_machine : Map (List ℕ) (List ℕ)
  pub recovery_nonce : U128
  pub recovery_responses : List VsrMessage
  pub last_normal_view : ℕ
  pub start_view_change_received : List ℕ
  pub do_view_change_received : List VsrMessage

-- `++` on a `uint32_t` and on a `uint64_t`.
abbrev pub inc32 : ℕ → ℕ
inc32 n = (n + 1) % 2 ^ 32

abbrev pub inc64 : ℕ → ℕ
inc64 n = (n + 1) % 2 ^ 64

unfoldable pub configure : Map ℕ PeerConfig → List PeerConfig → Map ℕ PeerConfig
configure m [] = m
configure m (peer ∷ config) = configure (insert peer.id peer m) config

-- The constructor. `config.size() - 1` is unsigned; the quotient is stored in an `int`.
unfoldable pub new_state : ℕ → List PeerConfig → ReplicaState
unfolding configure
new_state id config = record {
  id = id;
  fault_tolerance_f = (length config + 2 ^ 64 - 1) % 2 ^ 64 / 2 % 2 ^ 32;
  cluster_config = configure [] config;
  status = ReplicaStatus.normal;
  view = 0;
  op = 0;
  commit = 0;
  last_executed_op = 0;
  log = [];
  client_table = [];
  state_machine = [];
  recovery_nonce = zero_u128;
  recovery_responses = [];
  last_normal_view = 0;
  start_view_change_received = [];
  do_view_change_received = [];
}

unfoldable pub get_primary_id : ReplicaState → ℕ
get_primary_id s = s.view % (2 * s.fault_tolerance_f + 1)

unfoldable pub is_primary : ReplicaState → Bool
unfolding get_primary_id
is_primary s = s.id == get_primary_id s

abbrev pub is_normal : ReplicaStatus → Bool
is_normal ReplicaStatus.normal = true
is_normal _ = false

abbrev pub is_view_change : ReplicaStatus → Bool
is_view_change ReplicaStatus.view_change = true
is_view_change _ = false

abbrev pub is_recovery : ReplicaStatus → Bool
is_recovery ReplicaStatus.recovery = true
is_recovery _ = false

unfoldable pub enter_new_view : ℕ → ReplicaState → ReplicaState
enter_new_view new_view s = record s {
  last_normal_view = if is_normal s.status then s.view else s.last_normal_view;
  view = new_view;
  status = ReplicaStatus.view_change;
  start_view_change_received = IntSet.add s.id [];
  do_view_change_received = [];
}

-- `none` is the result -1.
unfoldable pub get_primary_id_for_view : ReplicaState → ℕ → Option ℕ
get_primary_id_for_view s view_num =
    let cluster_size = length s.cluster_config in
    if cluster_size == 0 then none else some (view_num % cluster_size)

-- A comparison of such a result with a replica id.
abbrev pub is_id : Option ℕ → ℕ → Bool
is_id none id = false
is_id (some p) id = p == id
