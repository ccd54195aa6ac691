-- ===== src/Tests/TcpClient.antt =====
-- Runs of the client's connection.
use vsr_kv.Common.{◌≡◌, refl, false, none, some, [], ◌∷◌}
use vsr_kv.TcpClient.{
  State, Pending, Callback, TcpClient, Outcome, new_client, connect, fire, open_socket,
  connect_done, start_reading, Step, Reach,
}
use vsr_kv.TcpClient.Attempts.{Trying, Reach-Trying}
use vsr_kv.TcpClient.Stale.{failure, success, read_after_write_failure}

abbrev outcome : Outcome
outcome = record { socket = some 5; failed = false; received = [] }

abbrev opened : TcpClient
opened = record {
  state = State.connecting;
  connection = none;
  pending = Pending.connect_submitted 5 ∷ [];
  called = [];
  dropped = [];
}

abbrev connected : TcpClient
connected = record {
  state = State.connected;
  connection = some 5;
  pending = Pending.read_submitted 5 ∷ [];
  called = Callback.on_connect 5 ∷ [];
  dropped = [];
}

opens : Step (connect new_client) opened
unfolding connect fire open_socket
opens = Step.fires (connect new_client) opened [] Pending.connect_task [] outcome refl refl

connects : Step opened connected
unfolding fire connect_done start_reading
connects = Step.fires opened connected [] (Pending.connect_submitted 5) [] outcome refl refl

-- Connected, and then the read finds no entry in the ring.
abbrev silent : TcpClient
silent = record connected { pending = []; dropped = Pending.read_submitted 5 ∷ [] }

drops_read : Step connected silent
drops_read = Step.drops connected [] (Pending.read_submitted 5) [] refl refl

Reach-Trying_example : Trying silent
Reach-Trying_example =
    Reach-Trying (Reach.next (Reach.next (Reach.next Reach.started opens) connects) drops_read)

read_after_write_failure_example :
    (d : TcpClient) × (fire failure (Pending.write_submitted 5 (1 ∷ [])) connected ≡ some d)
    × (d.state ≡ State.disconnected)
    × (fire (success (2 ∷ [])) (Pending.read_submitted 5) d ≡ none)
read_after_write_failure_example = read_after_write_failure connected 5 (1 ∷ []) (2 ∷ []) refl
