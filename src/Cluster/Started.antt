-- ===== src/Cluster/Started.antt =====
-- The cluster when its replicas start.
use vsr_kv.Common.{ℕ, ◌<◌, ◌≡◌, refl, sym, ap, subst, ◌∙◌, none, some, List, [], arith}
use vsr_kv.Common.Map.{Key, find, nat_key}
use vsr_kv.Serialization.{LogEntry}
use vsr_kv.ReplicaState.{PeerConfig, new_state}
use vsr_kv.Replica.{Replica, Env}
use vsr_kv.Replica.Events.{construct, run}
use vsr_kv.Cluster.{Cluster}
use vsr_kv.Cluster.History.{Core, core, History, Follows, Sound}
use vsr_kv.Cluster.Runs.{Runs}
use vsr_kv.Cluster.Executed.{Executed}
use vsr_kv.Cluster.Members.{hist, Inv}

find-nil : {K V : Type 0} ⦃key : Key K⦄ (k : K) → find {V = V} k [] ≡ none
unfolding find
find-nil k = refl

constructed-state :
    (id : ℕ) (config : List PeerConfig) (r : Replica)
    → construct id config ≡ some r
    → r.state ≡ new_state id config
unfolding construct
constructed-state id config r e = ground (arith, e)

empty-Executed :
    Executed [] (record { state_machine = []; client_table = []; last_executed_op = 0 })
empty-Executed = record {
  table = λ client entry f e. absurd (cc (find-nil client, f));
  machine = λ n. refl;
}

-- A replica that starts has executed nothing.
new-Runs :
    (id : ℕ) (config : List PeerConfig) (env : Env) (r : Replica)
    → construct id config ≡ some r
    → Runs (run env r)
unfolding run new_state
new-Runs id config env r e =
    let x = constructed-state id config r e in
    record {
      within = omega (arith, ap (λ s. s.last_executed_op) x, ap (λ s. s.op) x);
      committed = omega (arith, ap (λ s. s.last_executed_op) x, ap (λ s. s.commit) x);
      executed =
          subst
            (λ s. Executed s.log (record {
              state_machine = s.state_machine;
              client_table = s.client_table;
              last_executed_op = s.last_executed_op;
            }))
            (sym x) empty-Executed;
    }

-- What `run` starts from.
started-core :
    (id : ℕ) (config : List PeerConfig) (env : Env) (r : Replica)
    → construct id config ≡ some r
    → (core (run env r).state ≡ core (new_state id config))
      × ((run env r).sent ≡ [])
      × ((run env r).message_queue ≡ [])
unfolding construct run
started-core id config env r e = ground (arith, e)

empty-Sound :
    (n : ℕ) (h : History) (config : List PeerConfig)
    → h.primary ≡ core (new_state 0 config)
    → Sound n h
unfolding new_state
empty-Sound n h config e = record {
  fits = omega (arith, ap (λ c. c.op) e);
  full = λ k a b. absurd (omega (arith, ap (λ c. c.op) e));
  keys = rw (ap (λ c. c.log) e) tt;
  commit = omega (arith, ap (λ c. c.commit) e);
  acks = λ k x f. absurd (cc (find-nil {V = LogEntry} k, sym (ap (λ c. find k c.log) e) ∙ f));
  quorum = λ k a b. absurd (omega (arith, ap (λ c. c.commit) e));
}

empty-Follows :
    (h : History) (i : ℕ) (config : List PeerConfig) (c : Core)
    → c ≡ core (new_state i config)
    → h.held i ≡ c.op
    → Follows h i c
unfolding new_state
empty-Follows h i config c e a = record {
  id = ap (λ c. c.id) e;
  view = ap (λ c. c.view) e;
  status = ap (λ c. c.status) e;
  op = omega (arith, ap (λ c. c.op) e);
  commit = omega (arith, ap (λ c. c.commit) e);
  within = λ k a b. absurd (omega (arith, ap (λ c. c.op) e));
  outside = λ k x. ap (λ c. find k c.log) e ∙ find-nil k;
  held = a;
}

-- The number of failures that the configuration allows.
abbrev pub fault_of : List PeerConfig → ℕ
fault_of config = (new_state 0 config).fault_tolerance_f

pub started-Inv :
    (n : ℕ) (config : List PeerConfig) (c : Cluster) (env : ℕ → Env)
    → 0 < n
    → ((i : ℕ) → i < n → (r : Replica) × (construct i config ≡ some r) × (c i ≡ run (env i) r))
    → Inv n (fault_of config) c
started-Inv n config c env p s = record {
  sound = empty-Sound n (hist c) config (fresh 0 p).0;
  fault = ap (λ c. c.fault_tolerance_f) (fresh 0 p).0;
  members = λ i l.
      let (e, s, q) = fresh i l in
      record {
        follows = empty-Follows (hist c) i config (core (c i).state) e refl;
        sent = rw s tt;
        queue = rw q tt;
        runs = fresh-Runs i l;
      };
}
  where
    fresh-Runs : (i : ℕ) → i < n → Runs (c i)
    fresh-Runs i l = let (r, e, x) = s i l in subst Runs (sym x) (new-Runs i config (env i) r e)

    fresh :
        (i : ℕ)
        → i < n
        → (core (c i).state ≡ core (new_state i config))
          × ((c i).sent ≡ [])
          × ((c i).message_queue ≡ [])
    fresh i l =
        let (r, e, x) = s i l in
        subst
          (λ r. (core r.state ≡ core (new_state i config)) × (r.sent ≡ []) × (r.message_queue ≡ []))
          (sym x) (started-core i config (env i) r e)
