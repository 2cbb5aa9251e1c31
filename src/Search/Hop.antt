-- ===== src/Search/Hop.antt =====
-- A search over one hop (src/greynet.cpp): a plugin that asks, one that relays the query by
-- fwd_search and the result by handle_queryresult and send_response, and one that answers.
use greynet.Base.{
  ℕ, suc, Str, ◌≡◌, refl, ◌∙◌, true, false, some, List, [], ◌∷◌, arith, nat_eq, str_eq, contains,
}
use greynet.Base.Dict.{lookup, insert, lookup-insert}
use greynet.Messages.{Message}
use greynet.Platform.{Env, State, Conn, Call, ok, emit}
use greynet.Queries.{stream_url, fwd_search, send_response}
use greynet.Dispatch.{message_received}
use greynet.Dispatch.Origins.{RemembersQueries, Known, message_received-Later, Kept-Later}
use greynet.Dispatch.Replies.{run, run-Later, run-send_response}
use greynet.Queries.Keeps.{emit-Kept}
use greynet.Strategy.{new_ss, factory}
use greynet.Strategy.Factory.{factory-stream_url}
use greynet.Search.{
  QueryReads, ResultReads, asking, answering, asked, reported, message_received-query,
  message_received-queryresult,
}

-- A plugin to which a query is new, in a state where it knows every query that has an origin.
pub record Takes (writer reader : Env) (law : RemembersQueries reader) (rq rq' : ℕ) (m : Message)
    (t : State) : Type 0 where
  pub known : Known reader law t
  pub reads : QueryReads writer reader rq rq' m
  pub new : contains (reader.msg_guid m) t.seen_guids ≡ false
  pub unknown : reader.query_exists t.log (writer.query_id rq) ≡ false

-- A plugin to which a result is new, in a state.
pub record Hears (writer reader : Env) (qid : Str) (rip rip' : ℕ) (m : Message) (t : State)
    : Type 0 where
  pub reads : ResultReads writer reader qid rip rip' m
  pub new : contains (reader.msg_guid m) t.seen_guids ≡ false

module _ (us them : Env) (law : RemembersQueries them) (rq rq' : ℕ) (m : Message)
    (conn : Conn) where
  -- The query is taken in, and its origin is known after any run of messages.
  taken :
      (t : State)
      → Takes us them law rq rq' m t
      → message_received them m conn t ≡ ok (asked them m conn rq' t)
  taken t k =
      let n = k.reads.named in
      message_received-query us them law rq rq' m conn t k.known k.reads k.new (rw n (k.unknown))

  taken-run :
      (msgs : List (Message × Conn)) (t v : State)
      → Takes us them law rq rq' m t
      → run them ((m, conn) ∷ msgs) t ≡ ok v
      → Known them law v × (lookup (us.query_id rq) v.qidorigins ≡ some conn)
  taken-run msgs t v k e =
      let t' : State = asked them m conn rq' t in
      let first = taken t k in
      let known = ((message_received-Later them law m conn t k.known).at t' first).known in
      let n = k.reads.named in
      let origin : lookup (us.query_id rq) t'.qidorigins ≡ some conn =
        ground (arith, lookup-insert (us.query_id rq) (them.query_id rq') conn t.qidorigins) in
      let later = (run-Later them law msgs t' known).at v (rw first at e) in
      (later.known, later.fixed (us.query_id rq) conn origin)

module _ (env : Env) (law : RemembersQueries env) (qid : Str) (conn : Conn) where
  answered :
      (v : State) (rip : ℕ)
      → Known env law v
      → lookup qid v.qidorigins ≡ some conn
      → env.conn_alive v.log conn ≡ true
      → send_response env qid rip v ≡ record v {
        log = Call.async_write conn (answering env qid rip v.log) ∷ Call.gen_uuid ∷ v.log;
      }
  answered v rip known origin alive =
      run-send_response env law [] v v qid conn rip known origin refl alive

-- The state of a plugin that has passed a query on, and heard of an item.
abbrev pub passed_on : Message → Conn → State → State
passed_on m conn v = emit (Call.write_all_except m (some conn)) v

module _ (us mid far : Env) (law : RemembersQueries mid) (far_law : RemembersQueries far)
    (rq far_rip mid_rip sent rip : ℕ) (conn c mid_c : Conn) (s v far_v w : State) where
  abbrev qid : Str
  qid = us.query_id rq

  -- The query of the first plugin.
  abbrev m : Message
  m = asking us rq s.log

  -- The result of the far one, and the one in the middle after it.
  abbrev answer : Message
  answer = answering far qid far_rip far_v.log

  abbrev heard : State
  heard = reported mid far qid far_rip mid_rip mid_c answer (passed_on m conn v)

  -- The result of the one in the middle, and the first one after it.
  abbrev relayed : Message
  relayed = answering mid qid sent heard.log

  abbrev told : State
  told = reported us mid qid sent rip c relayed w

  -- A search over one hop, by three plugins whose libraries read each other's texts. The one in the
  -- middle, to which the query was new, handles any run of messages and passes the query on, as it is,
  -- if it is neither solved nor stopped then. The far one, to which it is new, handles any run of
  -- messages too, and answers the one in the middle. That one, to which the result is new, reports the
  -- item; with a result of the reported item's id it answers the first, if that is still connected.
  -- The first, to which this result is new, reports a url. Where the name of the connection to the
  -- middle has no `;` and is still that connection's, the url makes a strategy for that connection
  -- and the item's id with the far one.
  pub fwd_search-factory :
      (mid_rq far_rq : ℕ) (far_conn : Conn) (msgs far_msgs : List (Message × Conn))
      (t far_t : State)
      → Takes us mid law rq mid_rq m t
      → run mid ((m, conn) ∷ msgs) t ≡ ok v
      → mid.solved v.log qid ≡ false
      → mid.stopped v.log qid ≡ false
      → Takes us far far_law rq far_rq m far_t
      → run far ((m, far_conn) ∷ far_msgs) far_t ≡ ok far_v
      → far.conn_alive far_v.log far_conn ≡ true
      → Hears far mid qid far_rip mid_rip answer v
      → mid.item_id sent ≡ mid.item_id mid_rip
      → mid.conn_alive heard.log conn ≡ true
      → Hears mid us qid sent rip relayed w
      → contains b';' (us.conn_name w.log c) ≡ false
      → us.connection_by_name told.log (us.conn_name w.log c) ≡ some c
      → (fwd_search mid false conn m qid v ≡ passed_on m conn v)
        × (send_response far qid far_rip far_v
            ≡ record far_v { log = Call.async_write far_conn answer ∷ Call.gen_uuid ∷ far_v.log })
        × (message_received mid answer mid_c (passed_on m conn v) ≡ ok heard)
        × (send_response mid qid sent heard
            ≡ record heard { log = Call.async_write conn relayed ∷ Call.gen_uuid ∷ heard.log })
        × (message_received us relayed c w ≡ ok told)
        × (factory us (stream_url (us.conn_name w.log c) (mid.item_id sent)) told ≡ (
          some told.next_address,
          record told {
            strategies = insert told.next_address (new_ss c (far.item_id far_rip)) told.strategies;
            next_address = suc told.next_address;
          },
        ))
  unfolding fwd_search
  fwd_search-factory mid_rq far_rq far_conn msgs far_msgs t far_t takes e unsolved going far_takes
        far_e far_alive hears same alive hears_us plain name =
      let p : State = passed_on m conn v in
      let k = taken-run us mid law rq mid_rq m conn msgs t v takes e in
      let l = taken-run us far far_law rq far_rq m far_conn far_msgs far_t far_v far_takes far_e in
      let known =
        (Kept-Later mid law k.0 (emit-Kept (Call.write_all_except m (some conn)) v refl)).known in
      let hearing =
        message_received-queryresult mid far qid far_rip mid_rip answer mid_c p hears.reads
          hears.new in
      let known' = ((message_received-Later mid law answer mid_c p known).at heard hearing).known in
      let id : mid.item_id sent ≡ far.item_id far_rip = same ∙ hears.reads.named in
      (
        rw (unsolved, going) refl,
        answered far far_law qid far_conn far_v far_rip l.0 l.1 far_alive,
        hearing,
        answered mid law qid conn heard sent known' k.1 alive,
        message_received-queryresult us mid qid sent rip relayed c w hears_us.reads hears_us.new,
        rw (factory-stream_url us (us.conn_name w.log c) (mid.item_id sent) told plain)
            (rw (name, id) refl),
      )
