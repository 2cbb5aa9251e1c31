-- ===== src/Runs/Quiet.antt =====
-- The handlers of src/greynet.cpp that are not about transfers, and the transfers.
use greynet.Base.{
  ℕ, Str, codes, ◌≡◌, refl, inl, inr, Bool, true, false, [], ◌∷◌, ◌==◌, arith, nat_eq, str_eq,
  Option-cases, Bool-cases,
}
use greynet.Base.Dict.{lookup}
use greynet.Json.{Value, get_obj, get_str}
use greynet.Messages.{Message}
use greynet.Platform.{Env, State, Conn, Call, emit}
use greynet.Platform.Frame.{
  Ensures, Ensures-ok, Ensures-fault, Ensures-if, Ensures-or_fault, Ensures-bind,
}
use greynet.Handshake.{
  send_ident, new_connection_watchdog, new_incoming_connection, new_outgoing_connection,
  new_connection_timeout, expect_ident, read_object, parse_advert, connect_to_peer,
  jabber_msg_received, advertise, jabber_new_peer,
}
use greynet.Handshake.Ident.{Accepted, expect_ident_sound}
use greynet.Queries.{
  set_query_origin, get_query_origin, start_resolving, parse_query, accept_query, handle_query,
  handle_querystop, fwd_search, send_response, report, handle_queryresult,
}
use greynet.Dispatch.{handle_ping}
use greynet.Runs.Linked.{Updates, Updates-refl, Updates-trans, Updates-of}
use greynet.Runs.Outcome.{emitted-Updates}

-- States that differ only in the members that are not about transfers.
record Same (s t : State) : Type 0 where
  conn2sid : t.conn2sid ≡ s.conn2sid
  sid2ss : t.sid2ss ≡ s.sid2ss
  next_address : t.next_address ≡ s.next_address
  strategies : t.strategies ≡ s.strategies
  adaptors : t.adaptors ≡ s.adaptors

Same-Updates : (s t : State) → Same s t → Updates s t
Same-Updates s t k = Updates-of s t k.conn2sid k.sid2ss k.next_address k.strategies k.adaptors

module _ (env : Env) where
  open env use {msg_payload}

  pub new_incoming_connection-Updates :
      (conn : Conn) (s : State) → Updates s (new_incoming_connection env conn s)
  unfolding new_incoming_connection
  new_incoming_connection-Updates conn s = Updates-of s _ refl refl refl refl refl

  send_ident-Updates : (conn : Conn) (s : State) → Ensures (Updates s) (send_ident env conn s)
  unfolding send_ident
  send_ident-Updates conn s =
      Ensures-or_fault s.jbot_jid _ _
        λ jid _. Ensures-ok _ (Updates-of s _ refl refl refl refl refl)

  pub new_outgoing_connection-Updates :
      (conn : Conn) (s : State) → Ensures (Updates s) (new_outgoing_connection env conn s)
  unfolding new_outgoing_connection new_connection_watchdog
  new_outgoing_connection-Updates conn s =
      let t : State = emit (Call.push_ident conn false) s in
      Ensures-bind (send_ident env conn t) _ (send_ident-Updates conn t) λ u k.
        Ensures-ok _ (Updates-trans (emitted-Updates _ s) (Updates-trans k (emitted-Updates _ u)))

  pub new_connection_timeout-Updates :
      (conn : Conn) (s : State) → Updates s (new_connection_timeout env conn s)
  unfolding new_connection_timeout
  new_connection_timeout-Updates conn s = elim (Bool-cases (env.conn_ready s.log conn)) [
    | inl e ↦ rw e (Updates-refl s)
    | inr e ↦ rw e (emitted-Updates _ s)
  ]

  Accepted-Updates :
      (conn : Conn) (incoming : Bool) (name : Str) (s t : State)
      → Accepted env conn incoming name s t
      → Updates s t
  Accepted-Updates conn true name s t (jid, j, e) = rw e (Updates-of s _ refl refl refl refl refl)
  Accepted-Updates conn false name s t e = rw e (Updates-of s _ refl refl refl refl refl)

  pub expect_ident-Updates :
      (msg : Message) (conn : Conn) (incoming : Bool) (s : State)
      → Ensures (Updates s) (expect_ident env msg conn incoming s)
  expect_ident-Updates msg conn incoming s = record {
    at = λ t h. elim (expect_ident_sound env msg conn incoming s t h) [
      | inl e ↦ rw e (emitted-Updates _ s)
      | inr (o, name, i, a) ↦ Accepted-Updates conn incoming name s t a
    ];
  }

  pub jabber_msg_received-Updates :
      (msg jid : Str) (s : State) → Ensures (Updates s) (jabber_msg_received env msg jid s)
  unfolding jabber_msg_received connect_to_peer
  jabber_msg_received-Updates msg jid s = elim (Option-cases (read_object env msg)) [
    | inl e ↦ rw (e, jabber_msg_received) (Ensures-ok s (Updates-refl s))
    | inr (o, e) ↦ elim (Option-cases (parse_advert env o)) [
      | inl k ↦ rw (e, k, jabber_msg_received) (Ensures-ok s (Updates-refl s))
      | inr (a, k) ↦
          rw (e, k, jabber_msg_received)
            (Ensures-or_fault (env.parse_ipv4 a.peer_ip) _ _
              λ address _. Ensures-ok _ (emitted-Updates _ s))
    ]
  ]

  pub jabber_new_peer-Updates :
      (jid : Str) (s : State) → Ensures (Updates s) (jabber_new_peer env jid s)
  unfolding jabber_new_peer advertise
  jabber_new_peer-Updates jid s = Ensures-or_fault s.jbot_jid _ _ λ me _.
      Ensures-if (jid == me) _ _ (Ensures-ok s (Updates-refl s)) (
        Ensures-if (s.publicip == []) _ _ (Ensures-ok s (Updates-refl s))
          (elim (Option-cases (env.connection_by_name s.log jid)) [
            | inr (c, e) ↦ rw e (Ensures-ok s (Updates-refl s))
            | inl e ↦ rw e (Ensures-ok _ (Updates-of s _ refl refl refl refl refl))
          ]))

  pub start_resolving-Updates : (rq : ℕ) (s : State) → Updates s (start_resolving env rq s)
  unfolding start_resolving
  start_resolving-Updates rq s = Updates-of s _ refl refl refl refl refl

  pub send_response-Updates :
      (qid : Str) (rip : ℕ) (s : State) → Updates s (send_response env qid rip s)
  unfolding send_response
  send_response-Updates qid rip s = elim (Option-cases (get_query_origin env qid s)) [
    | inl e ↦ rw (e, send_response) (Updates-refl s)
    | inr (c, e) ↦ rw (e, send_response) (Updates-of s _ refl refl refl refl refl)
  ]

  pub fwd_search-Updates :
      (failed : Bool) (conn : Conn) (msg : Message) (qid : Str) (s : State)
      → Updates s (fwd_search env failed conn msg qid s)
  unfolding fwd_search
  fwd_search-Updates failed conn msg qid s =
      Same-Updates s (fwd_search env failed conn msg qid s) (record {
        conn2sid = ground arith;
        sid2ss = ground arith;
        next_address = ground arith;
        strategies = ground arith;
        adaptors = ground arith;
      })

  set_query_origin-Updates :
      (qid : Str) (conn : Conn) (s : State) → Ensures (Updates s) (set_query_origin qid conn s)
  unfolding set_query_origin
  set_query_origin-Updates qid conn s = elim (Option-cases (lookup qid s.qidorigins)) [
    | inr (c, k) ↦ rw (k, set_query_origin) (Ensures-fault _)
    | inl k ↦ rw (k, set_query_origin) (Ensures-ok _ (Updates-of s _ refl refl refl refl refl))
  ]

  accept_query-Updates :
      (conn : Conn) (msg : Message) (rq : ℕ) (s : State)
      → Ensures (Updates s) (accept_query env conn msg rq s)
  unfolding accept_query
  accept_query-Updates conn msg rq s =
      Ensures-bind (set_query_origin (env.query_id rq) conn s) _
        (set_query_origin-Updates (env.query_id rq) conn s)
        λ t k.
          Ensures-if (env.query_id rq == env.dispatched (Call.dispatch rq ∷ t.log) rq) _ _
            (Ensures-ok _ (Updates-trans k (Updates-of t _ refl refl refl refl refl)))
            (Ensures-fault _)

  pub handle_query-Updates :
      (conn : Conn) (msg : Message) (s : State) → Ensures (Updates s) (handle_query env conn msg s)
  unfolding handle_query
  handle_query-Updates conn msg s = elim (Option-cases (parse_query env (msg_payload msg))) [
    | inl e ↦ rw (e, handle_query) (Ensures-ok _ (emitted-Updates _ s))
    | inr (rq, e) ↦
        rw (e, handle_query)
          (Ensures-if (env.query_exists s.log (env.query_id rq)) _ _ (Ensures-ok s (Updates-refl s))
            (accept_query-Updates conn msg rq s))
  ]

  pub handle_querystop-Updates :
      (conn : Conn) (msg : Message) (s : State) → Updates s (handle_querystop env conn msg s)
  unfolding handle_querystop
  handle_querystop-Updates conn msg s = Same-Updates s (handle_querystop env conn msg s) (record {
    conn2sid = ground arith;
    sid2ss = ground arith;
    next_address = ground arith;
    strategies = ground arith;
    adaptors = ground arith;
  })

  report-Updates :
      (conn : Conn) (q w : Value) (s : State) → Ensures (Updates s) (report env conn q w s)
  unfolding report
  report-Updates conn q w s = Ensures-or_fault (get_str q) _ _ λ qid _.
      Ensures-or_fault (get_obj w) _ _ λ o _. (elim (Option-cases (env.item_from_json o)) [
        | inl e ↦ rw e (Ensures-ok _ (emitted-Updates _ s))
        | inr (rip, e) ↦ rw e (Ensures-ok _ (emitted-Updates _ s))
      ])

  pub handle_queryresult-Updates :
      (conn : Conn) (msg : Message) (s : State)
      → Ensures (Updates s) (handle_queryresult env conn msg s)
  unfolding handle_queryresult
  handle_queryresult-Updates conn msg s = elim (Option-cases (env.read (msg_payload msg))) [
    | inl e ↦ rw (e, handle_queryresult) (Ensures-ok _ (emitted-Updates _ s))
    | inr (v, e) ↦
        rw (e, handle_queryresult)
          (Ensures-or_fault (get_obj v) _ _ λ o _. (elim (Option-cases (env.find o (codes "qid"))) [
            | inl k ↦ rw k (Ensures-ok _ (emitted-Updates _ s))
            | inr (q, k) ↦ elim (Option-cases (env.find o (codes "result"))) [
              | inl l ↦ rw (k, l) (Ensures-ok _ (emitted-Updates _ s))
              | inr (w, l) ↦ rw (k, l) (report-Updates conn q w s)
            ]
          ]))
  ]

  pub handle_ping-Updates : (conn : Conn) (s : State) → Updates s (handle_ping env conn s)
  unfolding handle_ping
  handle_ping-Updates conn s = Updates-of s _ refl refl refl refl refl
