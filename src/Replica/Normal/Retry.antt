-- ===== src/Replica/Normal/Retry.antt =====
-- A request that is sent again.
use vsr_kv.Common.{
  ℕ, ◌<◌, ◌≡◌, refl, sym, ap, subst, ◌∙◌, ◌≢◌, false, some, List, [], ◌∷◌, ◌++◌, append-nil,
  append_assoc, arith, ltb, ◌==◌, le→ltb, ==_refl, All,
}
use vsr_kv.Common.Map.{find, nat_key, find-insert_self, find-insert_other}
use vsr_kv.ReplicaState.{inc64}
use vsr_kv.Message.{VsrMessage, Command}
use vsr_kv.Serialization.{ClientTableEntry}
use vsr_kv.Utilities.{U128, u128_key}
use vsr_kv.Replica.{
  Replica, InboundMessage, Output, client_entry, touch_entry, ClientTable, emit, header_of,
}
use vsr_kv.Replica.Normal.{
  pending_entry, cached_reply, request_entry, log_request, handle_new_request, handle_request,
}

known_entry :
    (client : U128) (e : ClientTableEntry) (table : ClientTable)
    → find client table ≡ some e
    → (client_entry client table ≡ e) × (touch_entry client table ≡ table)
unfolding client_entry touch_entry
known_entry client e table h = (rw (h, client_entry), rw (h, touch_entry))

-- The reply to a request that has been logged and not yet executed: it has no payload.
abbrev pub empty_reply : VsrMessage → VsrMessage
empty_reply request_msg = record {
  header = record (header_of Command.reply) {
    client = request_msg.header.client;
    request = request_msg.header.request;
  };
  payload = [];
}

-- A request whose number the client table has as pending is not logged again: the state stays as
-- it is, nothing is broadcast, and the client gets a reply with an empty payload.
handle_request_pending :
    (inbound : InboundMessage) (r : Replica)
    → find inbound.message.header.client r.state.client_table
      ≡ some (pending_entry inbound.message.header.request)
    → handle_request inbound r
      ≡ emit (Output.send_message inbound.connection (empty_reply inbound.message)) r
unfolding handle_request cached_reply
handle_request_pending inbound r h =
    let request = inbound.message.header.request in
    let k =
      known_entry inbound.message.header.client (pending_entry request) r.state.client_table h in
    rw (k.0, le→ltb request request (omega arith), ==_refl request, handle_request)
      (ap
        (λ t.
          emit (Output.send_message inbound.connection (empty_reply inbound.message))
            (record r { state = record (r.state) { client_table = t } }))
        k.1)

-- The replica with an entry for the client.
abbrev pub touched : InboundMessage → Replica → Replica
touched inbound r = record r {
  state = record (r.state) {
    client_table = touch_entry inbound.message.header.client r.state.client_table;
  };
}

pub handle_request_new :
    (inbound : InboundMessage) (r : Replica)
    → (client_entry inbound.message.header.client r.state.client_table).request_number
      < inbound.message.header.request
    → handle_request inbound r ≡ handle_new_request inbound (touched inbound r)
unfolding handle_request
handle_request_new inbound r h = rw (not_old, not_same, handle_request)
  where
    recorded : ℕ
    recorded = (client_entry inbound.message.header.client r.state.client_table).request_number

    not_old : ltb inbound.message.header.request recorded ≡ false
    not_old = le→ltb _ _ (omega arith)

    not_same : (recorded == inbound.message.header.request) ≡ false
    not_same = ground arith

-- The log and the numbers after a new request: it is logged under the next number, with the
-- primary's acknowledgement, and the client's entry is pending.
pub record LoggedNext (inbound : InboundMessage) (r once : Replica) : Type 0 where
  pub op : once.state.op ≡ inc64 r.state.op
  pub entry :
      find (inc64 r.state.op) once.state.log
      ≡ some (record {
        view = r.state.view;
        op_type = inbound.message.header.operation;
        client_id = inbound.message.header.client;
        request_num = inbound.message.header.request;
        payload = inbound.message.payload;
        prepare_ok_acks = r.state.id ∷ [];
      })
  pub others : (k : ℕ) → k ≢ inc64 r.state.op → find k once.state.log ≡ find k r.state.log
  pub pending :
      find inbound.message.header.client once.state.client_table
      ≡ some (pending_entry inbound.message.header.request)

handle_new_request-LoggedNext :
    (inbound : InboundMessage) (r : Replica) → LoggedNext inbound r (handle_new_request inbound r)
unfolding handle_new_request log_request request_entry
handle_new_request-LoggedNext inbound r = record {
  op = refl;
  entry = find-insert_self _ _ r.state.log;
  others = λ k h. find-insert_other _ k _ r.state.log h;
  pending = find-insert_self _ _ r.state.client_table;
}

touched_Logged :
    (inbound : InboundMessage) (r once : Replica)
    → LoggedNext inbound (touched inbound r) once
    → LoggedNext inbound r once
touched_Logged inbound r once l = record {
  op = l.op;
  entry = l.entry;
  others = l.others;
  pending = l.pending;
}

-- The same request again, from any connection and with any payload.
pub record Repeats (inbound again : InboundMessage) : Type 0 where
  pub client : again.message.header.client ≡ inbound.message.header.client
  pub request : again.message.header.request ≡ inbound.message.header.request

abbrev pub handle_all : List InboundMessage → Replica → Replica
handle_all [] r = r
handle_all (m ∷ ms) r = handle_all ms (handle_request m r)

abbrev pub empty_replies : List InboundMessage → List Output
empty_replies [] = []
empty_replies (m ∷ ms) = Output.send_message m.connection (empty_reply m.message) ∷ empty_replies ms

Repeats-pending :
    (inbound : InboundMessage) (again : List InboundMessage) (t : Replica)
    → All (Repeats inbound) again
    → find inbound.message.header.client t.state.client_table
      ≡ some (pending_entry inbound.message.header.request)
    → handle_all again t ≡ record t { sent = t.sent ++ empty_replies again }
Repeats-pending inbound [] t a h = ap (λ l. record t { sent = l }) (sym (append-nil t.sent))
Repeats-pending inbound (m ∷ again) t a h =
    let o = Output.send_message m.connection (empty_reply m.message) in
    let known : find m.message.header.client t.state.client_table
        ≡ some (pending_entry m.message.header.request) =
      ap (λ c. find c t.state.client_table) (a.0).client
      ∙ h
      ∙ ap (λ n. some (pending_entry n)) (sym (a.0).request) in
    ap (handle_all again) (handle_request_pending m t known)
    ∙ Repeats-pending inbound again (emit o t) a.1 h
    ∙ ap (λ l. record t { sent = l }) (append_assoc t.sent (o ∷ []) (empty_replies again))

-- A request with a new number is logged once, under the next operation number. In any later
-- state in which the client's entry is still the pending one, whatever number of repetitions
-- follow, from any connections: each is answered with an empty payload, and apart from that
-- nothing changes, so nothing is logged or broadcast again.
pub handle_request_repeated :
    (inbound : InboundMessage) (r later : Replica) (again : List InboundMessage)
    → (client_entry inbound.message.header.client r.state.client_table).request_number
      < inbound.message.header.request
    → find inbound.message.header.client later.state.client_table
      ≡ some (pending_entry inbound.message.header.request)
    → All (Repeats inbound) again
    → LoggedNext inbound r (handle_request inbound r)
      × (handle_all again later ≡ record later { sent = later.sent ++ empty_replies again })
handle_request_repeated inbound r later again h p a = (
  subst (LoggedNext inbound r) (sym (handle_request_new inbound r h))
      (touched_Logged inbound r _ (handle_new_request-LoggedNext inbound (touched inbound r))),
  Repeats-pending inbound again later a p,
)
