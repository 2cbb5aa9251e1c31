-- ===== src/Handshake/Cookies.antt =====
-- The cookies of src/greynet.cpp: what expect_ident and send_ident do with them.
use greynet.Base.{Str, codes, ◌≡◌, refl, true, none, some, arith, str_eq}
use greynet.Json.{Members}
use greynet.Messages.{Message, ident}
use greynet.Platform.{Env, State, Conn, ok}
use greynet.Handshake.{find_str, read_object, expect_ident}
use greynet.Handshake.Ident.{IsIdent, Accepted, expect_ident_complete}

module _ (env : Env) where
  open env use {msg_type, msg_payload, conn_get, connection_by_name, write, uuid}

  Accepted-peer_cookies :
      (conn : Conn) (name : Str) (s t : State)
      → Accepted env conn true name s t
      → (t.peer_cookies ≡ s.peer_cookies) × (t.jbot_jid ≡ s.jbot_jid)
  Accepted-peer_cookies conn name s t (jid, j, e) = ground arith

  -- A cookie lets in any number of peers, under any names: after a peer was let in with it, an IDENT
  -- with the same cookie and another name is let in on another connection.
  pub cookie_reuse :
      (first second : Message) (c d : Conn) (s t : State) (o p : Members) (name other jid : Str)
      → IsIdent env first true s o name
      → s.jbot_jid ≡ some jid
      → expect_ident env first c true s ≡ ok t
      → msg_type second ≡ ident
      → read_object env (msg_payload second) ≡ some p
      → find_str env p (codes "name") ≡ some other
      → find_str env p (codes "cookie") ≡ find_str env o (codes "cookie")
      → connection_by_name t.log other ≡ none
      → (u : State) × (expect_ident env second d true t ≡ ok u) × Accepted env d true other t u
  cookie_reuse first second c d s t o p name other jid i j run typed parsed named same fresh =
      let (t', run', a) = expect_ident_complete env first c true s o name jid i j in
      let kept = Accepted-peer_cookies c name s t' a in
      let e : t ≡ t' = ground arith in
      let (cookie, peer, f, n, k) = i.invited refl in
      expect_ident_complete env second d true t p other jid
        (record {
          typed = typed;
          parsed = parsed;
          named = named;
          fresh = fresh;
          invited = λ _. (cookie, peer, ground arith, n, ground arith);
        })
        (ground arith)
