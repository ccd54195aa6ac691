-- ===== src/Tests/Data.antt =====
-- A cluster of three replicas, and messages between them.
use vsr_kv.Common.{
  ℕ, zero, suc, ◌+◌, ◌%◌, ◌<◌, refl, some, List, [], ◌∷◌, arith, length, replicate, All,
}
use vsr_kv.Utilities.{U128}
use vsr_kv.Message.{VsrMessage, Command, Operation, zero_header}
use vsr_kv.Message.Checksum.{Blake3}
use vsr_kv.Wire.Bytes.{IsByte}
use vsr_kv.Serialization.{LogEntry, Log}
use vsr_kv.ReplicaState.{PeerConfig, new_state}
use vsr_kv.Replica.{Replica, InboundMessage, Env}

abbrev pub peers : ℕ → ℕ → List PeerConfig
peers zero first = []
peers (suc n) first = (record { id = first; host = []; port = 8080 + first }) ∷ peers n (suc first)

abbrev pub new_replica : ℕ → Replica
new_replica id = record {
  state = new_state id (peers 3 0);
  client_connections = [];
  message_queue = [];
  last_primary_contact = 0;
  nonce_counter = 0;
  sent = [];
}

abbrev pub noon : Env
noon = record { now = 5000; tv_sec = 43; tv_nsec = 7; uninitialised = 0 }

abbrev pub client_id : U128
client_id = record { high = 0xDEADBEEF; low = 0xCAFEF00D }

-- The payload "k v".
abbrev pub key_and_value : List ℕ
key_and_value = b'k' ∷ b' ' ∷ b'v' ∷ []

abbrev pub set_entry : ℕ → List ℕ → LogEntry
set_entry request acks = record {
  view = 0;
  op_type = Operation.set;
  client_id = client_id;
  request_num = request;
  payload = key_and_value;
  prepare_ok_acks = acks;
}

abbrev pub two_entries : Log
two_entries = (1, set_entry 1 (0 ∷ 1 ∷ [])) ∷ (2, set_entry 2 (0 ∷ [])) ∷ []

abbrev pub set_request : VsrMessage
set_request = record {
  header = record zero_header {
    command = Command.request;
    operation = Operation.set;
    client = client_id;
    request = 1;
  };
  payload = key_and_value;
}

abbrev pub from_connection : ℕ → VsrMessage → InboundMessage
from_connection c m = record { connection = some c; message = m }

abbrev pub plain : Command → ℕ → VsrMessage
plain command view = record {
  header = record zero_header { command = command; view = view };
  payload = [];
}

-- A stand-in for the digest: 32 bytes that depend on the length of the input.
abbrev pub toy_digest : List ℕ → List ℕ
toy_digest input = replicate 32 (length input % 256)

toy_IsByte : (n b : ℕ) → b < 256 → All IsByte (replicate n b)
toy_IsByte zero b h = tt
toy_IsByte (suc n) b h = (h, toy_IsByte n b h)

toy_digest-IsByte : (input : List ℕ) → All IsByte (toy_digest input)
toy_digest-IsByte input = toy_IsByte 32 (length input % 256) (omega arith)

pub toy_blake3 : Blake3
toy_blake3 = record {
  digest = toy_digest;
  length_digest = λ input. refl;
  digest_IsByte = toy_digest-IsByte;
}
