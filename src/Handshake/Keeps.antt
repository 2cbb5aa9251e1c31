-- ===== src/Handshake/Keeps.antt =====
-- The handlers of a connection's start and of an advertisement (src/greynet.cpp), and the plugin's
-- maps.
use greynet.Base.{Str, refl, inl, inr, Bool, true, false, [], ◌∷◌, str_eq, Option-cases, Bool-cases}
use greynet.Messages.{Message}
use greynet.Platform.{Env, State, Conn, Call, emit}
use greynet.Platform.Frame.{
  Kept, Kept-of, Kept-refl, Keeps, whole, Keeps-ok, Keeps-or_fault, Keeps-bind, Keeps-from,
}
use greynet.Handshake.{
  send_ident, new_connection_watchdog, new_incoming_connection, new_outgoing_connection,
  new_connection_timeout, expect_ident, read_object, parse_advert, connect_to_peer,
  jabber_msg_received,
}
use greynet.Handshake.Ident.{Accepted, expect_ident_sound}
use greynet.Queries.Keeps.{emit-Kept}

module _ (env : Env) where
  pub new_incoming_connection-Kept :
      (conn : Conn) (s : State) → Kept s (new_incoming_connection env conn s)
  unfolding new_incoming_connection
  new_incoming_connection-Kept conn s = Kept-of (_ ∷ _ ∷ []) s _ refl refl refl refl refl refl

  send_ident-Keeps : (conn : Conn) (s : State) → Keeps whole s (send_ident env conn s)
  unfolding send_ident
  send_ident-Keeps conn s =
      Keeps-or_fault {A = Str} s s.jbot_jid _ _
        λ jid _. Keeps-ok s _ (Kept-of (_ ∷ _ ∷ []) s _ refl refl refl refl refl refl)

  pub new_outgoing_connection-Keeps :
      (conn : Conn) (s : State) → Keeps whole s (new_outgoing_connection env conn s)
  unfolding new_outgoing_connection new_connection_watchdog
  new_outgoing_connection-Keeps conn s =
      let t : State = emit (Call.push_ident conn false) s in
      Keeps-bind s (send_ident env conn t) _
        (Keeps-from (send_ident env conn t) (emit-Kept _ s refl) (send_ident-Keeps conn t))
        λ u. Keeps-ok u _ (emit-Kept _ u refl)

  pub new_connection_timeout-Kept :
      (conn : Conn) (s : State) → Kept s (new_connection_timeout env conn s)
  unfolding new_connection_timeout
  new_connection_timeout-Kept conn s = elim (Bool-cases (env.conn_ready s.log conn)) [
    | inl e ↦ rw e (Kept-refl s)
    | inr e ↦ rw e (emit-Kept _ s refl)
  ]

  Accepted-Kept :
      (conn : Conn) (incoming : Bool) (name : Str) (s t : State)
      → Accepted env conn incoming name s t
      → Kept s t
  Accepted-Kept conn true name s t (jid, j, e) =
      rw e (Kept-of (_ ∷ _ ∷ _ ∷ _ ∷ _ ∷ _ ∷ []) s _ refl refl refl refl refl refl)
  Accepted-Kept conn false name s t e =
      rw e (Kept-of (_ ∷ _ ∷ _ ∷ []) s _ refl refl refl refl refl refl)

  pub expect_ident-Keeps :
      (msg : Message) (conn : Conn) (incoming : Bool) (s : State)
      → Keeps whole s (expect_ident env msg conn incoming s)
  expect_ident-Keeps msg conn incoming s = record {
    at = λ t h. elim (expect_ident_sound env msg conn incoming s t h) [
      | inl e ↦ rw e (emit-Kept _ s refl)
      | inr (o, name, i, a) ↦ Accepted-Kept conn incoming name s t a
    ];
  }

  pub jabber_msg_received-Keeps :
      (msg jid : Str) (s : State) → Keeps whole s (jabber_msg_received env msg jid s)
  unfolding jabber_msg_received connect_to_peer
  jabber_msg_received-Keeps msg jid s = elim (Option-cases (read_object env msg)) [
    | inl e ↦ rw (e, jabber_msg_received) (Keeps-ok s s (Kept-refl s))
    | inr (o, e) ↦ elim (Option-cases (parse_advert env o)) [
      | inl k ↦ rw (e, k, jabber_msg_received) (Keeps-ok s s (Kept-refl s))
      | inr (a, k) ↦
          rw (e, k, jabber_msg_received)
            (Keeps-or_fault s (env.parse_ipv4 a.peer_ip) _ _
              λ address _. Keeps-ok s _ (emit-Kept _ s refl))
    ]
  ]
