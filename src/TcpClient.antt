-- ===== src/TcpClient.antt =====
-- common/tcp_client.hpp and tcp_client.cpp: the client's connection to one replica, as a state
-- machine that the callbacks of the event loop drive.
pub mod Attempts
pub mod Stale
use vsr_kv.Common.{
  ℕ, zero, suc, ◌+◌, ◌-◌, ◌*◌, ◌/◌, ◌%◌, ◌^◌, ◌≤◌, ◌<◌, max, ◌≡◌, refl, sym, ap, subst, ◌∙◌, ◌≢◌,
  ◌↔◌, ◌⊎◌, inl, inr, Bool, true, false, not, ◌&&◌, ◌||◌, Option, none, some, List, [], ◌∷◌, ◌++◌,
  map, foldl, append-nil, append_assoc, arith, ℕ_discrete, dec_lt, ltb, leb, ◌==◌, if◌then◌else◌,
  ltb→lt, lt→ltb, le→ltb, ==_iff, ==_refl, Bool-cases, Option-cases, length, take, drop, replicate,
  All, length-append, length-drop, length-take_of_le, take-append, drop-append, take-append-drop,
  All-append, All-take, All-drop, ltb_false→le, take-append_of_le, drop-append_of_le,
}

pub data State : Type 0 where
  disconnected connecting connected : State

-- What the event loop holds for the client: tasks that have been posted, and operations that
-- have been submitted and not completed. A socket stands for its connection object.
pub data Pending : Type 0 where
  connect_task : Pending
  connect_submitted : ℕ → Pending
  read_submitted : ℕ → Pending
  write_task : List ℕ → Pending
  write_submitted : ℕ → List ℕ → Pending
  reconnect_task reconnect_timer : Pending

-- The callbacks of the program.
pub data Callback : Type 0 where
  on_connect on_disconnect : ℕ → Callback
  on_connect_failed : Callback
  on_message : List ℕ → Callback

-- The callbacks that have been called are kept in their order, and so are the operations for which
-- the ring had no entry, for the statements about them.
pub record TcpClient : Type 0 where
  pub state : State
  pub connection : Option ℕ
  pub pending : List Pending
  pub called : List Callback
  pub dropped : List Pending

-- How a task or an operation ends: the new socket, if there is one; whether the result is an
-- error; and, where it was none, what the buffer of the present connection then holds.
pub record Outcome : Type 0 where
  pub socket : Option ℕ
  pub failed : Bool
  pub received : List ℕ

abbrev pub new_client : TcpClient
new_client = record {
  state = State.disconnected;
  connection = none;
  pending = [];
  called = [];
  dropped = [];
}

abbrev post : Pending → TcpClient → TcpClient
post p c = record c { pending = c.pending ++ (p ∷ []) }

abbrev call : Callback → TcpClient → TcpClient
call f c = record c { called = c.called ++ (f ∷ []) }

abbrev pub is_connected : State → Bool
is_connected State.connected = true
is_connected _ = false

unfoldable pub schedule_reconnect : TcpClient → TcpClient
schedule_reconnect c = post Pending.reconnect_task c

-- By the state: nothing unless the client is disconnected.
unfoldable pub connect_in : State → TcpClient → TcpClient
connect_in State.disconnected c = post Pending.connect_task (record c { state = State.connecting })
connect_in _ c = c

unfoldable pub connect : TcpClient → TcpClient
unfolding connect_in
connect c = connect_in c.state c

unfoldable pub connect_failed : TcpClient → TcpClient
unfolding schedule_reconnect
connect_failed c =
    schedule_reconnect (record (call Callback.on_connect_failed c) { state = State.disconnected })

-- The task that `connect` posts.
unfoldable pub open_socket : Option ℕ → TcpClient → TcpClient
unfolding connect_failed
open_socket none c = connect_failed c
open_socket (some sock) c = post (Pending.connect_submitted sock) c

-- `connection_->get_buffer()`: `none` is the null pointer that is followed.
unfoldable pub start_reading : TcpClient → Option TcpClient
start_reading c = elim (c.connection) [
  | none ↦ none
  | some sock ↦ some (post (Pending.read_submitted sock) c)
]

-- The completion of the connect operation.
unfoldable pub connect_done : Bool → ℕ → TcpClient → Option TcpClient
unfolding connect_failed start_reading
connect_done failed sock c =
    if failed
    then some (connect_failed c)
    else start_reading (
        call (Callback.on_connect sock)
          (record c { state = State.connected; connection = some sock }))

unfoldable pub send : List ℕ → TcpClient → TcpClient
send bytes c = elim (c.connection) [
  | none ↦ c
  | some sock ↦ if is_connected c.state then post (Pending.write_task bytes) c else c
]

-- The task that `send` posts: the connection may be gone by then.
unfoldable pub submit_write : List ℕ → TcpClient → TcpClient
submit_write bytes c = elim (c.connection) [
  | none ↦ c
  | some sock ↦ post (Pending.write_submitted sock bytes) c
]

abbrev lost : Option ℕ → TcpClient → TcpClient
lost none c = c
lost (some sock) c = call (Callback.on_disconnect sock) c

-- The exchange of the state succeeds only in the state `connected`.
unfoldable pub handle_disconnect : TcpClient → TcpClient
unfolding schedule_reconnect
handle_disconnect c =
    if is_connected c.state
    then schedule_reconnect
        (record (lost c.connection (record c { state = State.disconnected })) { connection = none })
    else c

-- The completion of a read: the bytes are taken from the buffer of the present connection.
unfoldable pub read_done : Bool → List ℕ → TcpClient → Option TcpClient
unfolding handle_disconnect start_reading
read_done failed bytes c = if failed then some (handle_disconnect c) else elim (c.connection) [
  | none ↦ none
  | some sock ↦ start_reading (call (Callback.on_message bytes) c)
]

unfoldable pub write_done : Bool → TcpClient → TcpClient
unfolding handle_disconnect
write_done failed c = if failed then handle_disconnect c else c

-- The loop runs a task or completes an operation. `none` is the null pointer that is followed.
unfoldable pub fire : Outcome → Pending → TcpClient → Option TcpClient
unfolding open_socket connect_done read_done submit_write write_done connect
fire o Pending.connect_task c = some (open_socket o.socket c)
fire o (Pending.connect_submitted sock) c = connect_done o.failed sock c
fire o (Pending.read_submitted sock) c = read_done o.failed o.received c
fire o (Pending.write_task bytes) c = some (submit_write bytes c)
fire o (Pending.write_submitted sock bytes) c = some (write_done o.failed c)
fire o Pending.reconnect_task c = some (post Pending.reconnect_timer c)
fire o Pending.reconnect_timer c = some (connect c)

-- What goes to the ring of the event loop, and not to its list of tasks.
abbrev pub is_submission : Pending → Bool
is_submission (Pending.connect_submitted sock) = true
is_submission (Pending.read_submitted sock) = true
is_submission (Pending.write_submitted sock bytes) = true
is_submission Pending.reconnect_timer = true
is_submission _ = false

-- The pending ones complete in any order. A submission for which the ring has no entry is dropped
-- with its callback (`if (!sqe) return`): here, at some point before it would complete.
pub data Step : TcpClient → TcpClient → Type 0 where
  sends : (c : TcpClient) (bytes : List ℕ) → Step c (send bytes c)
  fires :
      (c d : TcpClient) (before : List Pending) (p : Pending) (after : List Pending) (o : Outcome)
      → c.pending ≡ before ++ (p ∷ after)
      → fire o p (record c { pending = before ++ after }) ≡ some d
      → Step c d
  drops :
      (c : TcpClient) (before : List Pending) (p : Pending) (after : List Pending)
      → c.pending ≡ before ++ (p ∷ after)
      → is_submission p ≡ true
      → Step c (record c { pending = before ++ after; dropped = c.dropped ++ (p ∷ []) })

-- From the call of `connect` in the program on.
pub data Reach : TcpClient → Type 0 where
  started : Reach (connect new_client)
  next : {c d : TcpClient} → Reach c → Step c d → Reach d
