-- ===== src/TcpClient/Stale.antt =====
-- A read that is still submitted when a write has failed.
use vsr_kv.Common.{ℕ, ◌≡◌, refl, true, false, none, some, List, [], ◌∷◌, ◌++◌, arith}
use vsr_kv.TcpClient.{
  State, Pending, Callback, TcpClient, Outcome, schedule_reconnect, handle_disconnect, read_done,
  write_done, fire,
}

abbrev pub failure : Outcome
failure = record { socket = none; failed = true; received = [] }

abbrev pub success : List ℕ → Outcome
success bytes = record { socket = none; failed = false; received = bytes }

-- A connected client: when a write fails, the connection is given up while its read is still
-- submitted. The read that then brings bytes follows a null pointer.
pub read_after_write_failure :
    (c : TcpClient) (sock : ℕ) (written bytes : List ℕ)
    → c.state ≡ State.connected
    → (d : TcpClient) × (fire failure (Pending.write_submitted sock written) c ≡ some d)
      × (d.state ≡ State.disconnected)
      × (fire (success bytes) (Pending.read_submitted sock) d ≡ none)
unfolding fire write_done handle_disconnect schedule_reconnect read_done
read_after_write_failure c sock written bytes e =
    (handle_disconnect c, refl, ground arith, ground arith)

-- A client that is connected again: the failure of the read of its former connection takes the
-- new connection down.
stale_read_disconnects :
    (c : TcpClient) (former sock : ℕ)
    → c.state ≡ State.connected
    → c.connection ≡ some sock
    → (d : TcpClient) × (fire failure (Pending.read_submitted former) c ≡ some d)
      × (d.state ≡ State.disconnected)
      × (d.connection ≡ none)
      × (d.called ≡ c.called ++ (Callback.on_disconnect sock ∷ []))
unfolding fire handle_disconnect schedule_reconnect read_done
stale_read_disconnects c former sock e f =
    (handle_disconnect c, refl, ground arith, ground arith, ground arith)
