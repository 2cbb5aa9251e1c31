-- ===== src/Runs/Reached.antt =====
-- The other events (src/greynet.cpp, src/ss_greynet.cpp), and the transfers in all states that a run
-- reaches.
use greynet.Base.{
  ◌⊎◌, Str, ◌≡◌, refl, inl, inr, Bool, true, false, none, some, arith, nat_eq, str_eq, Option-cases,
}
use greynet.Base.Dict.{lookup, insert-insert, lookup-insert}
use greynet.Platform.{Env, State, Ss, Ref, Sink, relay}
use greynet.Platform.Frame.{Ensures, Ensures-ok, Ensures-if, Ensures-weaken}
use greynet.Registry.{register_sidtransfer}
use greynet.Strategy.{
  store, copy_ss, create, new_ss, parse_url, factory, start_sidrequest, start_reply, timeout_cb,
  cancel_handler,
}
use greynet.Runs.{
  Step, message, terminated, incoming, outgoing, identified, advertised, peer, made, copied,
  started, resolving, response, visited, content, finished, cancelled, status, mime_type, size,
  watched, forwarded, expired, Reach, here, next, bot_started, bot_connected,
}
use greynet.Web.Keeps.{anon_http_handler-Asks}
use greynet.Runs.Linked.{Exists, Linked, Linked-Updates, Updates-of}
use greynet.Runs.Outcome.{
  Outcome-Linked_absent, cancel_handler-Outcome, sink_content-Updates, sink_finish-Updates,
  sink_cancel-Updates, set_status_code-Updates, set_mime_type-Updates, set_content_length-Updates,
}
use greynet.Runs.Started.{registered-Linked, allocated-Linked, stored-Linked}
use greynet.Runs.Quiet.{
  new_incoming_connection-Updates, new_outgoing_connection-Updates, new_connection_timeout-Updates,
  expect_ident-Updates, jabber_msg_received-Updates, jabber_new_peer-Updates,
  start_resolving-Updates, send_response-Updates, fwd_search-Updates,
}
use greynet.Runs.Steps.{
  Updates-Linked, found-Linked, message_received-Linked, connection_terminated-Linked,
}

module _ (env : Env) where
  start_reply-Linked :
      (r : Ref) (x : Ss) (aa : Sink) (s : State)
      → Linked s
      → lookup r s.strategies ≡ some x
      → Exists aa s.adaptors
      → lookup x.sid s.sid2ss ≡ none
      → Ensures Linked (start_reply env r aa s)
  unfolding start_reply start_sidrequest register_sidtransfer
  start_reply-Linked r x aa s l held there unknown =
      let x' : Ss = record x {
        finished = false;
        contentlength = 0;
        bytes_transferred = 0;
        aa = some aa;
      } in
      let y : Ss = record x' { timer = true } in
      rw held (
        Ensures-if (env.conn_ready s.log x.conn) _ _
          (Ensures-ok _ (
            rw (insert-insert r y x' s.strategies)
              (registered-Linked r x y aa _ s l held refl refl refl refl there unknown)))
          (Ensures-weaken (cancel_handler env r (store r x' s))
            (λ t w.
              Outcome-Linked_absent x.conn x.sid (store r x' s) t
                (stored-Linked r x x' s l held unknown) unknown w)
            (cancel_handler-Outcome env r x' (store r x' s)
              (ground (arith, lookup-insert r r x' s.strategies)))))

  factory-Linked : (url : Str) (s : State) → Linked s → Linked ((factory env url s).1)
  unfolding factory create new_ss
  factory-Linked url s l = elim (Option-cases (parse_url url)) [
    | inl e ↦ rw (e, factory) l
    | inr ((username, sid), e) ↦
        rw (e, factory)
          (elim (Option-cases (env.connection_by_name s.log username)) [
            | inl f ↦ rw (f, create) l
            | inr (conn, f) ↦ rw (f, create) (allocated-Linked _ s l)
          ])
  ]

  timeout_cb-Linked :
      (failed : Bool) (r : Ref) (x : Ss) (s : State)
      → Linked s
      → lookup r s.strategies ≡ some x
      → (lookup x.sid s.sid2ss ≡ some r) ⊎ (lookup x.sid s.sid2ss ≡ none)
      → Ensures Linked (timeout_cb env failed r s)
  unfolding timeout_cb
  timeout_cb-Linked failed r x s l held (inl known) =
      Ensures-if failed _ _ (Ensures-ok s l)
        (found-Linked env x.sid r s _ l known λ z k. cancel_handler-Outcome env r z s k)
  timeout_cb-Linked failed r x s l held (inr unknown) = Ensures-if failed _ _ (Ensures-ok s l) (
      Ensures-weaken (cancel_handler env r s)
        (λ t w. Outcome-Linked_absent x.conn x.sid s t l unknown w)
        (cancel_handler-Outcome env r x s held))

  Step-Linked : (s t : State) → Step env s t → Linked s → Linked t
  Step-Linked s t (message msg conn e) l = (message_received-Linked env msg conn s l).at t e
  Step-Linked s t (terminated conn e) l = (connection_terminated-Linked env conn s l).at t e
  Step-Linked s t (incoming conn e) l =
      rw e (Linked-Updates s _ (new_incoming_connection-Updates env conn s) l)
  Step-Linked s t (outgoing conn e) l =
      (Updates-Linked s _ l (new_outgoing_connection-Updates env conn s)).at t e
  Step-Linked s t (identified msg conn inbound e) l =
      (Updates-Linked s _ l (expect_ident-Updates env msg conn inbound s)).at t e
  Step-Linked s t (advertised msg jid e) l =
      (Updates-Linked s _ l (jabber_msg_received-Updates env msg jid s)).at t e
  Step-Linked s t (peer jid e) l = (Updates-Linked s _ l (jabber_new_peer-Updates env jid s)).at t e
  Step-Linked s t (bot_started g loglevel b h e) l =
      rw e (Linked-Updates s _ (Updates-of s _ refl refl refl refl refl) l)
  Step-Linked s t (bot_connected g resource b h e) l =
      rw e (Linked-Updates s _ (Updates-of s _ refl refl refl refl refl) l)
  Step-Linked s t (made url e) l = rw e (factory-Linked url s l)
  Step-Linked s t (copied r x held e) l = rw e (allocated-Linked (copy_ss x) s l)
  Step-Linked s t (started r x aa held there unknown e) l =
      (start_reply-Linked r x aa s l held there unknown).at t e
  Step-Linked s t (resolving rq e) l =
      rw e (Linked-Updates s _ (start_resolving-Updates env rq s) l)
  Step-Linked s t (response qid rip e) l =
      rw e (Linked-Updates s _ (send_response-Updates env qid rip s) l)
  Step-Linked s t (visited req html e) l =
      let k = (anon_http_handler-Asks env req s).at (html, t) e in Linked-Updates s t k.updates l
  Step-Linked s t (content i buffer e) l =
      (Updates-Linked s _ l (sink_content-Updates env (relay i) buffer s)).at t e
  Step-Linked s t (finished i e) l =
      (Updates-Linked s _ l (sink_finish-Updates env (relay i) s)).at t e
  Step-Linked s t (cancelled i e) l =
      (Updates-Linked s _ l (sink_cancel-Updates env (relay i) s)).at t e
  Step-Linked s t (status i code e) l =
      (Updates-Linked s _ l (set_status_code-Updates env (relay i) code s)).at t e
  Step-Linked s t (mime_type i mime e) l =
      (Updates-Linked s _ l (set_mime_type-Updates env (relay i) mime s)).at t e
  Step-Linked s t (size i len e) l =
      (Updates-Linked s _ l (set_content_length-Updates env (relay i) len s)).at t e
  Step-Linked s t (watched conn e) l =
      rw e (Linked-Updates s _ (new_connection_timeout-Updates env conn s) l)
  Step-Linked s t (forwarded failed conn msg qid e) l =
      rw e (Linked-Updates s _ (fwd_search-Updates env failed conn msg qid s) l)
  Step-Linked s t (expired failed r x held known e) l =
      (timeout_cb-Linked failed r x s l held known).at t e

  -- In every state that a run reaches from one in which the transfers are linked, they are linked: the
  -- multimap is in the order of its connections and has no sid twice; it and the map have the same
  -- sids; and the strategy that the map has for a sid is an object of that sid and of the entry's
  -- connection, plays into an adaptor that is there, and has a timer.
  pub Reach-Linked : (s t : State) → Linked s → Reach env s t → Linked t
  Reach-Linked s t l here = l
  Reach-Linked s t l (next run step) = Step-Linked _ t step (Reach-Linked s _ l run)
