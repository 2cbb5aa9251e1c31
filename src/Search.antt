-- ===== src/Search.antt =====
-- A search by two plugins (src/greynet.cpp): start_resolving of the one that asks, message_received
-- and send_response of the one that answers, message_received of the one that asks, and the
-- strategy for the item that was found (ss_greynet::factory of src/ss_greynet.cpp).
pub mod Hop
use greynet.Base.{
  ℕ, suc, Str, codes, ◌≡◌, refl, inl, inr, true, false, none, some, List, ◌∷◌, arith, nat_eq,
  str_eq, contains, Option-cases, ==_refl,
}
use greynet.Base.Dict.{lookup, insert, lookup-insert}
use greynet.Json.{obj, Members, get_obj, get_str, member_of, push_back}
use greynet.Messages.{Message, query, queryresult, query_message, query_result_message, response}
use greynet.Platform.{Env, State, Conn, Call, Log, ok, emit}
use greynet.Queries.{
  stream_url, set_query_origin, get_query_origin, start_resolving, parse_query, accept_query,
  handle_query, send_response, report, handle_queryresult,
}
use greynet.Dispatch.{message_received, handle_message, is_stream, mark_seen}
use greynet.Dispatch.Origins.{RemembersQueries, Known, message_received-Later}
use greynet.Dispatch.Replies.{run, run-send_response}
use greynet.Handshake.Exchange.{ReadsBack}
use greynet.Strategy.{new_ss, factory}
use greynet.Strategy.Factory.{factory-stream_url}

-- The message of a query, as the reader's libraries take it.
pub record QueryReads (writer reader : Env) (rq rq' : ℕ) (m : Message) : Type 0 where
  pub typed : reader.msg_type m ≡ query
  pub payload : reader.msg_payload m ≡ writer.write (writer.query_json rq)
  pub parses : reader.read (writer.write (writer.query_json rq)) ≡ some (obj (writer.query_json rq))
  pub made : reader.query_from_json (writer.query_json rq) ≡ some rq'
  pub named : reader.query_id rq' ≡ writer.query_id rq

-- The item that a result is about, without its url.
abbrev pub sent_item : Env → ℕ → Members
sent_item env rip = env.item_json (env.item_rm_json_value rip (codes "url"))

-- The message of a result, as the reader's libraries take it.
pub record ResultReads (writer reader : Env) (qid : Str) (rip rip' : ℕ) (m : Message) : Type 0 where
  pub typed : reader.msg_type m ≡ queryresult
  pub payload : reader.msg_payload m ≡ writer.write (response qid (sent_item writer rip))
  pub reads :
      ReadsBack reader
        (writer.write (response qid (sent_item writer rip)))
        (response qid (sent_item writer rip))
  pub made : reader.item_from_json (sent_item writer rip) ≡ some rip'
  pub named : reader.item_id rip' ≡ writer.item_id rip

-- The message of a query, and of a result, after a log.
abbrev pub asking : Env → ℕ → Log → Message
asking env rq log = query_message env.write (env.query_json rq) (env.uuid (Call.gen_uuid ∷ log))

abbrev pub answering : Env → Str → ℕ → Log → Message
answering env qid rip log =
    query_result_message env.write qid (sent_item env rip) (env.uuid (Call.gen_uuid ∷ log))

-- A new query, after it was handled.
abbrev pub asked : Env → Message → Conn → ℕ → State → State
asked env m conn rq t = record t {
  seen_guids = env.msg_guid m ∷ t.seen_guids;
  qidorigins = insert (env.query_id rq) conn t.qidorigins;
  log = Call.fwd_timer conn m (env.query_id rq) 100 ∷ Call.dispatch rq ∷ t.log;
}

-- A result, after it was handled: the item is reported with the url of the other's item.
abbrev pub reported : Env → Env → Str → ℕ → ℕ → Conn → Message → State → State
reported us them qid rip rip' c m s = record s {
  seen_guids = us.msg_guid m ∷ s.seen_guids;
  log =
      Call.report_results qid
        (us.item_json (us.item_set_url rip' (stream_url (us.conn_name s.log c) (them.item_id rip))))
      ∷ s.log;
}

module _ (env : Env) (m : Message) (conn : Conn) (s : State) where
  message_received-handle_query :
      env.msg_type m ≡ query
      → contains (env.msg_guid m) s.seen_guids ≡ false
      → message_received env m conn s ≡ handle_query env conn m (mark_seen (env.msg_guid m) s)
  unfolding message_received is_stream handle_message
  message_received-handle_query h new = rw (h, new) refl

  message_received-handle_queryresult :
      env.msg_type m ≡ queryresult
      → contains (env.msg_guid m) s.seen_guids ≡ false
      → message_received env m conn s ≡ handle_queryresult env conn m (mark_seen (env.msg_guid m) s)
  unfolding message_received is_stream handle_message
  message_received-handle_queryresult h new = rw (h, new) refl

module _ (us them : Env) where
  not_asked :
      (law : RemembersQueries them) (qid : Str) (t : State)
      → Known them law t
      → them.query_exists t.log qid ≡ false
      → lookup qid t.qidorigins ≡ none
  not_asked law qid t known unknown = elim (Option-cases (lookup qid t.qidorigins)) [
    | inl e ↦ e
    | inr (c, e) ↦ let k = known qid c e in absurd (cc)
  ]

  pub message_received-query :
      (law : RemembersQueries them) (rq rq' : ℕ) (m : Message) (conn : Conn) (t : State)
      → Known them law t
      → QueryReads us them rq rq' m
      → contains (them.msg_guid m) t.seen_guids ≡ false
      → them.query_exists t.log (them.query_id rq') ≡ false
      → message_received them m conn t ≡ ok (asked them m conn rq' t)
  unfolding handle_query parse_query accept_query set_query_origin get_obj
  message_received-query law rq rq' m conn t known q new unknown =
      let none_yet = not_asked law (them.query_id rq') t known unknown in
      let back = law.returns rq' t.log in
      let parsed : parse_query them (them.msg_payload m) ≡ some rq' =
        rw (q.payload) (rw (parse_query, q.parses, get_obj, q.made) refl) in
      rw (message_received-handle_query them m conn t q.typed new) (
        rw (handle_query, parsed, unknown)
          (rw (accept_query, set_query_origin, none_yet, back, ==_refl (them.query_id rq')) refl))

  pub message_received-queryresult :
      (qid : Str) (rip rip' : ℕ) (m : Message) (conn : Conn) (s : State)
      → ResultReads them us qid rip rip' m
      → contains (us.msg_guid m) s.seen_guids ≡ false
      → message_received us m conn s ≡ ok (reported us them qid rip rip' conn m s)
  unfolding handle_queryresult report response get_obj get_str member_of push_back
  message_received-queryresult qid rip rip' m conn s r new =
      let f = r.reads.finds (codes "qid") in
      let g = r.reads.finds (codes "result") in
      rw (message_received-handle_queryresult us m conn s r.typed new) (
        rw (handle_queryresult, r.payload, r.reads.parses, get_obj, f, g)
          (rw (report, r.made, r.named) refl))

  -- A search through, by two plugins whose libraries read each other's texts. The one sends a query;
  -- the other does not know it, takes it in, and then handles any run of messages. A result that it
  -- then has goes to the connection that the query came from, if that is alive. The first, to which
  -- the message is new, reports the item with a url. Where the name of the connection that the result
  -- came from has no `;` and is still that connection's, the url makes a strategy for that connection
  -- and the item's id with the plugin that answered.
  pub start_resolving-factory :
      (law : RemembersQueries them) (rq rq' rip rip' : ℕ) (conn c : Conn)
      (msgs : List (Message × Conn)) (s t v w : State)
      → Known them law t
      → QueryReads us them rq rq' (asking us rq s.log)
      → contains (them.msg_guid (asking us rq s.log)) t.seen_guids ≡ false
      → them.query_exists t.log (us.query_id rq) ≡ false
      → run them ((asking us rq s.log, conn) ∷ msgs) t ≡ ok v
      → them.conn_alive v.log conn ≡ true
      → ResultReads them us (us.query_id rq) rip rip' (answering them (us.query_id rq) rip v.log)
      → contains (us.msg_guid (answering them (us.query_id rq) rip v.log)) w.seen_guids ≡ false
      → contains b';' (us.conn_name w.log c) ≡ false
      → us.connection_by_name
          (reported us them
            (us.query_id rq)
            rip
            rip'
            c
            (answering them (us.query_id rq) rip v.log)
            w).log
          (us.conn_name w.log c)
        ≡ some c
      → let qid = us.query_id rq in
        let url = stream_url (us.conn_name w.log c) (them.item_id rip) in
        let x = reported us them qid rip rip' c (answering them qid rip v.log) w in
        (start_resolving us rq s ≡ record s {
          log =
              Call.write_all_except
                (asking us rq s.log)
                (get_query_origin us qid (emit Call.gen_uuid s))
              ∷ Call.gen_uuid
              ∷ s.log;
        })
        × (send_response them qid rip v ≡ record v {
          log = Call.async_write conn (answering them qid rip v.log) ∷ Call.gen_uuid ∷ v.log;
        })
        × (message_received us (answering them qid rip v.log) c w
            ≡ ok (reported us them qid rip rip' c (answering them qid rip v.log) w))
        × (factory us url x ≡ (
          some x.next_address,
          record x {
            strategies = insert x.next_address (new_ss c (them.item_id rip)) x.strategies;
            next_address = suc x.next_address;
          },
        ))
  unfolding start_resolving
  start_resolving-factory law rq rq' rip rip' conn c msgs s t v w known q new unknown e alive r new'
        plain name =
      let m = asking us rq s.log in
      let qid = us.query_id rq in
      let unknown' : them.query_exists t.log (them.query_id rq') ≡ false = rw (q.named) unknown in
      let taken = message_received-query law rq rq' m conn t known q new unknown' in
      let t' : State = asked them m conn rq' t in
      let known' = ((message_received-Later them law m conn t known).at t' taken).known in
      let e' : run them msgs t' ≡ ok v = rw taken at e in
      let origin : lookup qid t'.qidorigins ≡ some conn =
        ground (arith, lookup-insert qid (them.query_id rq') conn t.qidorigins) in
      (
        refl,
        run-send_response them law msgs t' v qid conn rip known' origin e' alive,
        message_received-queryresult qid rip rip' (answering them qid rip v.log) c w r new',
        rw (factory-stream_url us (us.conn_name w.log c) (them.item_id rip) _ plain) (rw name refl),
      )
