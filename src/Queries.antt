-- ===== src/Queries.antt =====
-- src/greynet.cpp and src/greynet.h: queries, the way of their results back, and their end.
pub mod Keeps
pub mod Faults
pub mod Stop
use greynet.Base.{
  ℕ, Str, codes, Bool, false, Option, none, some, ◌∷◌, ◌++◌, ◌==◌, nat_eq, str_eq, if◌then◌else◌,
}
use greynet.Base.Dict.{lookup, insert}
use greynet.Json.{Value, get_obj, get_str}
use greynet.Messages.{Message, query_message, query_result_message}
use greynet.Platform.{
  Env, State, Conn, Call, Result, ok, fault, uncaught_exception, failed_assertion, emit, or_fault,
  ◌>>=◌,
}

-- `get_query_origin(qid) != conn`, negated.
unfoldable pub is_origin : Option Conn → Conn → Bool
unfolding nat_eq
is_origin none conn = false
is_origin (some c) conn = c == conn

-- The url under which a peer's item can be streamed.
unfoldable pub stream_url : Str → Str → Str
stream_url name id = codes "greynet://" ++ (name ++ (b';' ∷ id))

unfoldable pub set_query_origin : Str → Conn → State → Result State
set_query_origin qid conn s = elim (lookup qid s.qidorigins) [
  | none ↦ ok (record s { qidorigins = insert qid conn s.qidorigins })
  | some _ ↦ fault failed_assertion
]

module _ (env : Env) where
  open env use {
    conn_alive, read, write, find, uuid, query_from_json, query_id, query_exists, solved, stopped,
    item_from_json, item_json, msg_payload, msg_guid,
  }

  -- A dead weak pointer throws, and that is caught.
  unfoldable pub get_query_origin : Str → State → Option Conn
  get_query_origin qid s = elim (lookup qid s.qidorigins) [
    | none ↦ none
    | some conn ↦ if conn_alive s.log conn then some conn else none
  ]

  -- A query of our own, or one that is relayed.
  unfoldable pub start_resolving : ℕ → State → State
  unfolding get_query_origin
  start_resolving rq s =
      let t = emit Call.gen_uuid s in
      emit
        (Call.write_all_except (query_message write (env.query_json rq) (uuid t.log))
          (get_query_origin (query_id rq) t))
        t

  -- The block under `try`: a throw of `get_obj` or `from_json` ends as invalid JSON does.
  unfoldable pub parse_query : Str → Option ℕ
  unfolding get_obj
  parse_query text = elim (read text) [
    | none ↦ none
    | some v ↦ elim (get_obj v) [ none ↦ none | some o ↦ query_from_json o ]
  ]

  -- A query that playdar does not know yet.
  unfoldable pub accept_query : Conn → Message → ℕ → State → Result State
  unfolding set_query_origin
  accept_query conn msg rq s = do
    t ← set_query_origin (query_id rq) conn s
    let u = emit (Call.dispatch rq) t
    let qid = env.dispatched u.log rq
    if query_id rq == qid
        then ok (emit (Call.fwd_timer conn msg qid 100) u)
        else fault failed_assertion

  unfoldable pub handle_query : Conn → Message → State → Result State
  handle_query conn msg s = elim (parse_query (msg_payload msg)) [
    | none ↦ ok (emit (Call.fin conn) s)
    | some rq ↦ if query_exists s.log (query_id rq) then ok s else accept_query conn msg rq s
  ]

  unfoldable pub handle_querystop : Conn → Message → State → State
  handle_querystop conn msg s =
      if query_exists s.log (msg_guid msg)
      then if is_origin (get_query_origin (msg_guid msg) s) conn
        then emit (Call.write_all_except msg (some conn)) (emit (Call.stop_query (msg_guid msg)) s)
        else s
      else s

  -- `failed` is the timer's error code.
  unfoldable pub fwd_search : Bool → Conn → Message → Str → State → State
  fwd_search failed conn msg qid s =
      if failed
      then s
      else if solved s.log qid
      then s
      else if stopped s.log qid
      then s
      else emit (Call.write_all_except msg (some conn)) s

  -- A result for a query, sent to where the query came from, without its url.
  unfoldable pub send_response : Str → ℕ → State → State
  unfolding get_query_origin
  send_response qid rip s = elim (get_query_origin qid s) [
    | none ↦ s
    | some origin ↦
        let t = emit Call.gen_uuid s in
        emit
          (Call.async_write origin (
            query_result_message write qid (item_json (env.item_rm_json_value rip (codes "url")))
              (uuid t.log)))
          t
  ]

  -- The fields `qid` and `result` of a response.
  unfoldable pub report : Conn → Value → Value → State → Result State
  report conn qid_value result_value s = do
    qid ← or_fault (get_str qid_value) uncaught_exception
    resobj ← or_fault (get_obj result_value) uncaught_exception
    elim (item_from_json resobj) [
      | none ↦ ok (emit (Call.fin conn) s)
      | some rip ↦ ok (
          emit
            (Call.report_results qid (
              item_json
                (env.item_set_url rip (stream_url (env.conn_name s.log conn) (env.item_id rip)))))
            s)
    ]

  -- The accessors stand outside any `try`.
  unfoldable pub handle_queryresult : Conn → Message → State → Result State
  handle_queryresult conn msg s = elim (read (msg_payload msg)) [
    | none ↦ ok (emit (Call.fin conn) s)
    | some v ↦ or_fault (get_obj v) uncaught_exception >>= λ o. elim (find o (codes "qid")) [
      | none ↦ ok (emit (Call.fin conn) s)
      | some qid ↦ elim (find o (codes "result")) [
        | none ↦ ok (emit (Call.fin conn) s)
        | some result ↦ report conn qid result s
      ]
    ]
  ]
