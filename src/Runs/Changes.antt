-- ===== src/Runs/Changes.antt =====
-- What the events of a run (src/greynet.cpp) leave alone: all but three handlers keep what the plugin
-- remembers, and start no timer for a query.
use greynet.Base.{
  ℕ, Str, ◌≡◌, refl, inl, inr, ◌⊎◌, ◌==◌, Bool, true, false, List, [], ◌∷◌, arith, nat_eq, str_eq,
  Option-cases, Bool-cases, some,
}
use greynet.Base.Dict.{lookup}
use greynet.Messages.{Message, query}
use greynet.Platform.{Env, State, Conn, Ref, Sink, relay, Result, ok}
use greynet.Platform.Frame.{
  Kept, Kept-of, Kept-refl, Keeps, whole, Keeps-ok, Keeps-if, Keeps-or_fault, Keeps-bind,
  Keeps-from, Ensures, Ensures-ok, Ensures-if, Ensures-split,
}
use greynet.Strategy.{
  parse_url, create, factory, start_reply, start_sidrequest, timeout_cb, cancel_handler,
}
use greynet.Strategy.Keeps.{
  cancel_handler-Keeps, sink_content-Keeps, sink_finish-Keeps, sink_cancel-Keeps,
  set_status_code-Keeps, set_mime_type-Keeps, set_content_length-Keeps,
}
use greynet.Registry.{register_sidtransfer, find}
use greynet.Transfers.{cancel_all, connection_terminated, sids_of}
use greynet.Transfers.Keeps.{
  handle_sidrequest-Kept, handle_siddata-Keeps, handle_sidheaders-Keeps, handle_sidfail-Keeps,
}
use greynet.Handshake.Keeps.{
  new_incoming_connection-Kept, new_outgoing_connection-Keeps, new_connection_timeout-Kept,
  expect_ident-Keeps, jabber_msg_received-Keeps,
}
use greynet.Queries.{handle_query, start_resolving, send_response, fwd_search, get_query_origin}
use greynet.Queries.Keeps.{emit-Kept, handle_queryresult-Keeps, handle_querystop-Kept}
use greynet.Dispatch.{message_received, handle_message, handle_ping}
use greynet.Runs.{
  Step, message, terminated, incoming, outgoing, identified, advertised, peer, made, copied,
  started, resolving, response, visited, content, finished, cancelled, status, mime_type, size,
  watched, forwarded, expired, bot_started, bot_connected,
}
use greynet.Web.Keeps.{anon_http_handler-Asks}
use greynet.Handshake.{jabber_new_peer}

module _ (env : Env) where
  handle_ping-Kept : (conn : Conn) (s : State) → Kept s (handle_ping env conn s)
  unfolding handle_ping
  handle_ping-Kept conn s = Kept-of (_ ∷ _ ∷ []) s _ refl refl refl refl refl refl

  query_type : (msg : Message) → (env.msg_type msg == query) ≡ true → env.msg_type msg ≡ query
  query_type msg h = ground arith

  Ensures-Keeps :
      (msg : Message) (conn : Conn) (s : State) (r : Result State)
      → Keeps whole s r
      → Ensures
          (λ t. Kept s t ⊎ ((env.msg_type msg ≡ query) × (handle_query env conn msg s ≡ ok t)))
          r
  Ensures-Keeps msg conn s r k = record { at = λ t e. inl (k.at t e) }

  -- Of the handlers of messages, that of queries alone changes more than its own.
  pub handle_message-cases :
      (msg : Message) (conn : Conn) (s : State)
      → Ensures
          (λ t. Kept s t ⊎ ((env.msg_type msg ≡ query) × (handle_query env conn msg s ≡ ok t)))
          (handle_message env msg conn s)
  unfolding handle_message
  handle_message-cases msg conn s =
      let quiet = λ (r : Result State) (k : Keeps whole s r). Ensures-Keeps msg conn s r k in
      Ensures-if _ _ _ (Ensures-ok _ (inl (handle_ping-Kept conn s))) (
        Ensures-if _ _ _ (Ensures-ok s (inl (Kept-refl s))) (
          Ensures-split _ _ _ (λ e. record { at = λ t h. inr (query_type msg e, h) })
            λ _.
              (Ensures-if _ _ _ (quiet _ (handle_queryresult-Keeps env conn msg s)) (
                Ensures-if _ _ _ (Ensures-ok _ (inl (handle_querystop-Kept env conn msg s))) (
                  Ensures-if _ _ _ (Ensures-ok _ (inl (handle_sidrequest-Kept env conn msg s))) (
                    Ensures-if _ _ _ (quiet _ (handle_siddata-Keeps env msg s)) (
                      Ensures-if _ _ _ (quiet _ (handle_sidheaders-Keeps env msg s)) (
                        Ensures-if _ _ _ (quiet _ (handle_sidfail-Keeps env msg s))
                          (Ensures-ok s (inl (Kept-refl s)))))))))))

  cancel_all-Keeps : (sids : List Str) (s : State) → Keeps whole s (cancel_all env sids s)
  unfolding cancel_all
  cancel_all-Keeps [] s = Keeps-ok s s (Kept-refl s)
  cancel_all-Keeps (sid ∷ sids) s = Keeps-or_fault {A = Ref} s (lookup sid s.sid2ss) _ _ λ r _.
      Keeps-bind s (cancel_handler env r s) _ (cancel_handler-Keeps env r s)
        λ t. cancel_all-Keeps sids t

  connection_terminated-Keeps :
      (conn : Conn) (s : State) → Keeps whole s (connection_terminated env conn s)
  unfolding connection_terminated
  connection_terminated-Keeps conn s = cancel_all-Keeps (sids_of (find conn s.conn2sid)) s

  factory-Kept : (url : Str) (s : State) → Kept s ((factory env url s).1)
  unfolding factory create
  factory-Kept url s = elim (Option-cases (parse_url url)) [
    | inl e ↦ rw (e, factory) (Kept-refl s)
    | inr ((username, sid), e) ↦
        rw (e, factory)
          (elim (Option-cases (env.connection_by_name s.log username)) [
            | inl f ↦ rw (f, create) (Kept-refl s)
            | inr (conn, f) ↦ rw (f, create) (Kept-of [] s _ refl refl refl refl refl refl)
          ])
  ]

  start_reply-Keeps : (r : Ref) (aa : Sink) (s : State) → Keeps whole s (start_reply env r aa s)
  unfolding start_reply start_sidrequest register_sidtransfer
  start_reply-Keeps r aa s = Keeps-or_fault s (lookup r s.strategies) _ _ λ x _.
      Keeps-if s (env.conn_ready s.log x.conn) _ _
        (λ _. Keeps-ok s _ (Kept-of (_ ∷ _ ∷ _ ∷ []) s _ refl refl refl refl refl refl))
        (λ _.
          Keeps-from _ (Kept-of [] s _ refl refl refl refl refl refl)
            (cancel_handler-Keeps env r _))

  timeout_cb-Keeps :
      (failed : Bool) (r : Ref) (s : State) → Keeps whole s (timeout_cb env failed r s)
  unfolding timeout_cb
  timeout_cb-Keeps failed r s =
      Keeps-if s failed _ _ (λ _. Keeps-ok s s (Kept-refl s)) (λ _. cancel_handler-Keeps env r s)

  start_resolving-Kept : (rq : ℕ) (s : State) → Kept s (start_resolving env rq s)
  unfolding start_resolving
  start_resolving-Kept rq s = Kept-of (_ ∷ _ ∷ []) s _ refl refl refl refl refl refl

  send_response-Kept : (qid : Str) (rip : ℕ) (s : State) → Kept s (send_response env qid rip s)
  unfolding send_response
  send_response-Kept qid rip s = elim (Option-cases (get_query_origin env qid s)) [
    | inl e ↦ rw (e, send_response) (Kept-refl s)
    | inr (c, e) ↦ rw (e, send_response) (Kept-of (_ ∷ _ ∷ []) s _ refl refl refl refl refl refl)
  ]

  fwd_search-Kept :
      (failed : Bool) (conn : Conn) (msg : Message) (qid : Str) (s : State)
      → Kept s (fwd_search env failed conn msg qid s)
  unfolding fwd_search
  fwd_search-Kept true conn msg qid s = Kept-refl s
  fwd_search-Kept false conn msg qid s = elim (Bool-cases (env.solved s.log qid)) [
    | inl e ↦ rw e (Kept-refl s)
    | inr e ↦ elim (Bool-cases (env.stopped s.log qid)) [
      | inl k ↦ rw (e, k) (Kept-refl s)
      | inr k ↦ rw (e, k) (emit-Kept _ s refl)
    ]
  ]

  -- Each event keeps what is remembered, or is a peer's coming, a message, or the bot's change
  -- of its jid.
  pub Step-cases :
      (s t : State)
      → Step env s t
      → Kept s t
        ⊎ ((jid : Str) × (jabber_new_peer env jid s ≡ ok t))
        ⊎ ((msg : Message) × (conn : Conn) × (message_received env msg conn s ≡ ok t))
        ⊎ ((me jid : Str) × (s.jbot_jid ≡ some me) × (t ≡ record s { jbot_jid = some jid }))
  Step-cases s t (message msg conn e) = inr (inr (inl (msg, conn, e)))
  Step-cases s t (terminated conn e) = inl ((connection_terminated-Keeps conn s).at t e)
  Step-cases s t (incoming conn e) = rw e (inl (new_incoming_connection-Kept env conn s))
  Step-cases s t (outgoing conn e) = inl ((new_outgoing_connection-Keeps env conn s).at t e)
  Step-cases s t (identified msg conn inbound e) =
      inl ((expect_ident-Keeps env msg conn inbound s).at t e)
  Step-cases s t (advertised msg jid e) = inl ((jabber_msg_received-Keeps env msg jid s).at t e)
  Step-cases s t (peer jid e) = inr (inl (jid, e))
  Step-cases s t (bot_started g loglevel b h e) = inr (inr (inr (b.jid, _, h, e)))
  Step-cases s t (bot_connected g resource b h e) = inr (inr (inr (b.jid, _, h, e)))
  Step-cases s t (made url e) = rw e (inl (factory-Kept url s))
  Step-cases s t (copied r x held e) = rw e (inl (Kept-of [] s _ refl refl refl refl refl refl))
  Step-cases s t (started r x aa held there unknown e) = inl ((start_reply-Keeps r aa s).at t e)
  Step-cases s t (resolving rq e) = rw e (inl (start_resolving-Kept rq s))
  Step-cases s t (response qid rip e) = rw e (inl (send_response-Kept qid rip s))
  Step-cases s t (visited req html e) =
      let k = (anon_http_handler-Asks env req s).at (html, t) e in inl k.kept
  Step-cases s t (content i buffer e) = inl ((sink_content-Keeps env (relay i) buffer s).at t e)
  Step-cases s t (finished i e) = inl ((sink_finish-Keeps env (relay i) s).at t e)
  Step-cases s t (cancelled i e) = inl ((sink_cancel-Keeps env (relay i) s).at t e)
  Step-cases s t (status i code e) = inl ((set_status_code-Keeps env (relay i) code s).at t e)
  Step-cases s t (mime_type i mime e) = inl ((set_mime_type-Keeps env (relay i) mime s).at t e)
  Step-cases s t (size i len e) = inl ((set_content_length-Keeps env (relay i) len s).at t e)
  Step-cases s t (watched conn e) = rw e (inl (new_connection_timeout-Kept env conn s))
  Step-cases s t (forwarded failed conn msg qid e) =
      rw e (inl (fwd_search-Kept failed conn msg qid s))
  Step-cases s t (expired failed r x held known e) = inl ((timeout_cb-Keeps failed r s).at t e)
