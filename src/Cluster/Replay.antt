-- ===== src/Cluster/Replay.antt =====
-- The operations of a log run one after the other, as a single server would run them.
use vsr_kv.Common.{
  ℕ, zero, suc, ◌≤◌, ◌<◌, ◌≡◌, refl, sym, ap, ◌∙◌, ◌≢◌, Option, none, some, [], arith,
}
use vsr_kv.Common.Map.{find, nat_key}
use vsr_kv.Serialization.{LogEntry, Log}
use vsr_kv.Replica.Execute.{StateMachine, run_operation}
use vsr_kv.Cluster.History.{bare}

abbrev pub run_one : Option LogEntry → StateMachine → StateMachine
run_one none machine = machine
run_one (some e) machine = (run_operation e.op_type e.payload machine).0

-- The state machine after the first operations of a log, each of them run once.
abbrev pub replay : ℕ → Log → StateMachine
replay zero log = []
replay (suc k) log = run_one (find (suc k) log) (replay k log)

-- Two logs with the same entries up to a number, apart from the acknowledgements.
abbrev pub Agree : ℕ → Log → Log → Type 0
Agree b log log' = (k : ℕ) → 0 < k → k ≤ b → bare (find k log') ≡ bare (find k log)

run_one-bare : (x : Option LogEntry) (m : StateMachine) → run_one (bare x) m ≡ run_one x m
run_one-bare none m = refl
run_one-bare (some e) m = refl

pub run_one-same :
    (x y : Option LogEntry) (m : StateMachine) → bare x ≡ bare y → run_one x m ≡ run_one y m
run_one-same x y m h = sym (run_one-bare x m) ∙ ap (λ x. run_one x m) h ∙ run_one-bare y m

pub replay-Agree : (b : ℕ) (log log' : Log) → Agree b log log' → replay b log' ≡ replay b log
replay-Agree zero log log' h = refl
replay-Agree (suc b) log log' h =
    run_one-same (find (suc b) log') (find (suc b) log) (replay b log')
      (h (suc b) (omega arith) (omega arith))
    ∙ ap (run_one (find (suc b) log)) (replay-Agree b log log' (λ k p l. h k p (omega arith)))

-- No client's request is logged twice under the first numbers.
abbrev pub NoRepeats : ℕ → Log → Type 0
NoRepeats b log =
    (j k : ℕ) (d e : LogEntry)
    → 0 < j
    → j < k
    → k ≤ b
    → find j log ≡ some d
    → find k log ≡ some e
    → d.client_id ≡ e.client_id
    → d.request_num ≢ e.request_num

-- The client and the request of an entry.
pub record SameRequest (d e : LogEntry) : Type 0 where
  pub client : d.client_id ≡ e.client_id
  pub request : d.request_num ≡ e.request_num

pub bare-SameRequest : (d e : LogEntry) → bare (some d) ≡ bare (some e) → SameRequest d e
bare-SameRequest d e h = record { client = cc h; request = cc h }

pub bare_find :
    (x : Option LogEntry) (e : LogEntry)
    → bare x ≡ bare (some e)
    → (d : LogEntry) × (x ≡ some d) × (bare (some d) ≡ bare (some e))
bare_find none e h = cc
bare_find (some d) e h = (d, refl, h)

pub NoRepeats-Agree :
    (b : ℕ) (log log' : Log) → Agree b log log' → NoRepeats b log' → NoRepeats b log
NoRepeats-Agree b log log' a n j k d e p l m x y c r =
    let (d', x', s) = bare_find (find j log') d (a j p (omega arith) ∙ ap bare x) in
    let (e', y', t) = bare_find (find k log') e (a k (omega arith) m ∙ ap bare y) in
    let u = bare-SameRequest d' d s in
    let v = bare-SameRequest e' e t in
    n j k d' e' p l m x' y' (u.client ∙ c ∙ sym v.client) (u.request ∙ r ∙ sym v.request)
