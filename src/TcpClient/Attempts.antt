-- ===== src/TcpClient/Attempts.antt =====
-- The client never makes two attempts to connect at a time, and stops trying only where the ring
-- drops its attempt or its pause.
use vsr_kv.Common.{
  ℕ, ◌+◌, ◌≡◌, refl, ap, subst, inl, inr, Bool, true, false, Option, none, some, List, [], ◌∷◌,
  ◌++◌, arith, Option-cases,
}
use vsr_kv.TcpClient.{
  State, Pending, TcpClient, Outcome, schedule_reconnect, connect_in, connect, connect_failed,
  open_socket, start_reading, connect_done, send, submit_write, handle_disconnect, read_done,
  write_done, fire, Step, Reach,
}

-- The pending parts of an attempt to connect.
abbrev pub dials : Pending → ℕ
dials Pending.connect_task = 1
dials (Pending.connect_submitted sock) = 1
dials _ = 0

-- The pending parts of the pause before the next attempt.
abbrev pub pauses : Pending → ℕ
pauses Pending.reconnect_task = 1
pauses Pending.reconnect_timer = 1
pauses _ = 0

abbrev pub total : (Pending → ℕ) → List Pending → ℕ
total f [] = 0
total f (p ∷ ps) = f p + total f ps

total-append :
    (f : Pending → ℕ) (ps qs : List Pending) → total f (ps ++ qs) ≡ total f ps + total f qs
total-append f [] qs = omega arith
total-append f (p ∷ ps) qs = omega (arith, total-append f ps qs)

abbrev pub IsSome : Option ℕ → Type 0
IsSome none = ⊥
IsSome (some sock) = Unit

abbrev Balanced : State → Option ℕ → ℕ → ℕ → Type 0
Balanced State.disconnected connection d p = (connection ≡ none) × (d ≡ 0) × (p ≡ 1)
Balanced State.connecting connection d p = (connection ≡ none) × (d ≡ 1) × (p ≡ 0)
Balanced State.connected connection d p = IsSome connection × (d ≡ 0) × (p ≡ 0)

-- The attempts to connect: those under way, and those that the ring dropped.
abbrev pub attempts : TcpClient → ℕ
attempts c = total dials c.pending + total dials c.dropped

-- The pauses before an attempt, likewise.
abbrev pub waits : TcpClient → ℕ
waits c = total pauses c.pending + total pauses c.dropped

-- A connected client has a connection, and no attempt and no pause. One that is connecting has no
-- connection and one attempt, a disconnected one has no connection and one pause.
abbrev pub Trying : TcpClient → Type 0
Trying c = Balanced c.state c.connection (attempts c) (waits c)

-- Without one of its pending parts.
abbrev TryingWith : Pending → TcpClient → Type 0
TryingWith q c = Balanced c.state c.connection (dials q + attempts c) (pauses q + waits c)

-- A pending part that is added is counted.
abbrev Posted : Pending → List Pending → Type 0
Posted q ps =
    (total dials (ps ++ (q ∷ [])) ≡ total dials ps + dials q)
    × (total pauses (ps ++ (q ∷ [])) ≡ total pauses ps + pauses q)

posted : (q : Pending) (ps : List Pending) → Posted q ps
posted q ps =
    (omega (arith, total-append dials ps (q ∷ [])), omega (arith, total-append pauses ps (q ∷ [])))

-- A result, if there is one.
abbrev Tries : Option TcpClient → Type 0
Tries none = Unit
Tries (some c) = Trying c

open_socket-Trying :
    (socket : Option ℕ) (c : TcpClient)
    → TryingWith Pending.connect_task c
    → Trying (open_socket socket c)
unfolding open_socket connect_failed schedule_reconnect
open_socket-Trying none c t = ground (arith, posted Pending.reconnect_task c.pending)
open_socket-Trying (some sock) c t =
    ground (arith, posted (Pending.connect_submitted sock) c.pending)

connect_done-Trying :
    (failed : Bool) (sock : ℕ) (c : TcpClient)
    → TryingWith (Pending.connect_submitted sock) c
    → Tries (connect_done failed sock c)
unfolding connect_done connect_failed schedule_reconnect start_reading
connect_done-Trying true sock c t = ground (arith, posted Pending.reconnect_task c.pending)
connect_done-Trying false sock c t = ground (arith, posted (Pending.read_submitted sock) c.pending)

handle_disconnect-Trying : (c : TcpClient) → Trying c → Trying (handle_disconnect c)
unfolding handle_disconnect schedule_reconnect
handle_disconnect-Trying c t = ground (arith, posted Pending.reconnect_task c.pending)

read_done-Trying :
    (failed : Bool) (bytes : List ℕ) (c : TcpClient) → Trying c → Tries (read_done failed bytes c)
unfolding read_done start_reading
read_done-Trying true bytes c t = handle_disconnect-Trying c t
read_done-Trying false bytes c t = elim (Option-cases c.connection) [
  | inl e ↦ rw e tt
  | inr (sock, e) ↦ ground (arith, e, posted (Pending.read_submitted sock) c.pending)
]

submit_write-Trying : (bytes : List ℕ) (c : TcpClient) → Trying c → Trying (submit_write bytes c)
unfolding submit_write
submit_write-Trying bytes c t = elim (Option-cases c.connection) [
  | inl e ↦ ground (arith, e)
  | inr (sock, e) ↦ ground (arith, e, posted (Pending.write_submitted sock bytes) c.pending)
]

connect-Trying : (c : TcpClient) → TryingWith Pending.reconnect_timer c → Trying (connect c)
unfolding connect connect_in
connect-Trying c t = ground (arith, posted Pending.connect_task c.pending)

write_done-Trying : (failed : Bool) (c : TcpClient) → Trying c → Trying (write_done failed c)
unfolding write_done
write_done-Trying true c t = handle_disconnect-Trying c t
write_done-Trying false c t = t

fire-Trying : (o : Outcome) (q : Pending) (c : TcpClient) → TryingWith q c → Tries (fire o q c)
unfolding fire
fire-Trying o Pending.connect_task c t = open_socket-Trying o.socket c t
fire-Trying o (Pending.connect_submitted sock) c t = connect_done-Trying o.failed sock c t
fire-Trying o (Pending.read_submitted sock) c t =
    read_done-Trying o.failed o.received c (ground arith)
fire-Trying o (Pending.write_task bytes) c t = submit_write-Trying bytes c (ground arith)
fire-Trying o (Pending.write_submitted sock bytes) c t = write_done-Trying o.failed c (ground arith)
fire-Trying o Pending.reconnect_task c t = ground (arith, posted Pending.reconnect_timer c.pending)
fire-Trying o Pending.reconnect_timer c t = connect-Trying c t

send-Trying : (bytes : List ℕ) (c : TcpClient) → Trying c → Trying (send bytes c)
unfolding send
send-Trying bytes c t = elim (Option-cases c.connection) [
  | inl e ↦ ground (arith, e)
  | inr (sock, e) ↦ ground (arith, e, posted (Pending.write_task bytes) c.pending)
]

-- Taking a pending part out.
removed :
    (before : List Pending) (q : Pending) (after : List Pending) (c : TcpClient)
    → c.pending ≡ before ++ (q ∷ after)
    → Trying c
    → TryingWith q (record c { pending = before ++ after })
removed before q after c e t = ground (
  arith,
  ap (total dials) e,
  ap (total pauses) e,
  total-append dials before (q ∷ after),
  total-append pauses before (q ∷ after),
  total-append dials before after,
  total-append pauses before after,
)

-- A dropped part is counted still.
dropped-Trying :
    (before : List Pending) (q : Pending) (after : List Pending) (c : TcpClient)
    → c.pending ≡ before ++ (q ∷ after)
    → Trying c
    → Trying (record c { pending = before ++ after; dropped = c.dropped ++ (q ∷ []) })
dropped-Trying before q after c e t =
    ground (arith, removed before q after c e t, posted q c.dropped)

Step-Trying : {c d : TcpClient} → Step c d → Trying c → Trying d
Step-Trying (Step.sends c bytes) t = send-Trying bytes c t
Step-Trying (Step.fires c d before p after o e f) t =
    subst Tries f
      (fire-Trying o p (record c { pending = before ++ after }) (removed before p after c e t))
Step-Trying (Step.drops c before p after e h) t = dropped-Trying before p after c e t

-- In whatever order and with whatever results the tasks and operations complete, and whichever of
-- them the ring drops: a client that is connected has a connection, and no attempt or pause before
-- an attempt. Any other has no connection, and exactly one of the two: one attempt if it is
-- connecting, one pause if it is disconnected, which is under way or else was dropped for want of
-- an entry of the ring. So there are never two attempts at a time, and a client that the ring
-- dropped nothing of tries until it is connected.
pub Reach-Trying : {c : TcpClient} → Reach c → Trying c
Reach-Trying Reach.started = unfold connect connect_in in (refl, omega arith, omega arith)
Reach-Trying (Reach.next r st) = Step-Trying st (Reach-Trying r)
