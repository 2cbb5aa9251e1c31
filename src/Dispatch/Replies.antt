-- ===== src/Dispatch/Replies.antt =====
-- The way of results back (src/greynet.cpp, src/greynet.h), over any run of messages.
use greynet.Base.{ℕ, Str, codes, ◌≡◌, ◌≢◌, refl, true, some, List, [], ◌∷◌, arith, nat_eq, str_eq}
use greynet.Base.Dict.{lookup}
use greynet.Messages.{Message, query_result_message}
use greynet.Platform.{Env, State, Conn, Call, Log, Result, ok, fault, failed_assertion, ◌>>=◌}
use greynet.Platform.Frame.{Kept-refl, Ensures, Ensures-ok, Ensures-fault}
use greynet.Queries.{handle_query, get_query_origin, send_response}
use greynet.Dispatch.{message_received}
use greynet.Dispatch.Origins.{
  RemembersQueries, Known, Later, Later-trans, Kept-Later, handle_query-asked,
  message_received-Later,
}

module _ (env : Env) where
  -- A run of messages, each from its connection.
  abbrev pub run : List (Message × Conn) → State → Result State
  run [] s = ok s
  run ((msg, conn) ∷ rest) s = message_received env msg conn s >>= λ t. run rest t

module _ (env : Env) (law : RemembersQueries env) where
  Later-bind :
      (s : State) (r : Result State) (f : State → Result State)
      → Ensures (Later env law s) r
      → ((t : State) → Later env law s t → Ensures (Later env law t) (f t))
      → Ensures (Later env law s) (r >>= f)
  Later-bind s (ok t) f k h =
      let l = k.at t refl in record { at = λ u e. Later-trans env law l ((h t l).at u e) }
  Later-bind s (fault e) f k h = Ensures-fault e

  pub run-Later :
      (msgs : List (Message × Conn)) (s : State)
      → Known env law s
      → Ensures (Later env law s) (run env msgs s)
  run-Later [] s n = Ensures-ok s (Kept-Later env law n (Kept-refl s))
  run-Later ((msg, conn) ∷ rest) s n =
      Later-bind s (message_received env msg conn s) _ (message_received-Later env law msg conn s n)
        λ t l. run-Later rest t l.known

  -- With playdar's promises, from a state where every query with an origin is known: whatever
  -- messages are handled in between, a result for a query goes to the connection that the query came
  -- from, if that is alive, without its url, and nothing else is done.
  pub run-send_response :
      (msgs : List (Message × Conn)) (s t : State) (qid : Str) (conn : Conn) (rip : ℕ)
      → Known env law s
      → lookup qid s.qidorigins ≡ some conn
      → run env msgs s ≡ ok t
      → env.conn_alive t.log conn ≡ true
      → let asked : Log = Call.gen_uuid ∷ t.log in
        send_response env qid rip t ≡ record t {
          log =
              Call.async_write conn (
                query_result_message env.write qid
                  (env.item_json (env.item_rm_json_value rip (codes "url")))
                  (env.uuid asked))
              ∷ asked;
        }
  unfolding send_response get_query_origin
  run-send_response msgs s t qid conn rip n h e a =
      let kept = ((run-Later msgs s n).at t e).fixed qid conn h in ground arith

  -- With playdar's promises, from a state where every query with an origin is known: after any run of
  -- messages that returns, a query from any connection does not fail the assertions of handle_query
  -- and set_query_origin.
  pub run-handle_query :
      (msgs : List (Message × Conn)) (s t : State) (msg : Message) (conn : Conn)
      → Known env law s
      → run env msgs s ≡ ok t
      → handle_query env conn msg t ≢ fault failed_assertion
  run-handle_query msgs s t msg conn n e f =
      let h = handle_query-asked env law conn msg t ((run-Later msgs s n).at t e).known in cc
