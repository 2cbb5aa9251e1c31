-- ===== src/Runs/Cookies.antt =====
-- Cookies over a run (src/greynet.cpp, jabber_new_peer and expect_ident).
use greynet.Base.{Str, codes, ◌≡◌, ◌≢◌, true, none, some, [], str_eq}
use greynet.Base.Dict.{lookup}
use greynet.Json.{Members}
use greynet.Messages.{Message, ident}
use greynet.Platform.{Env, State, Conn, ok}
use greynet.Handshake.{find_str, read_object, expect_ident}
use greynet.Handshake.Ident.{Accepted, expect_ident_complete}
use greynet.Runs.{Reach}
use greynet.Runs.Memory.{Reach-Grows}

module _ (env : Env) where
  -- A cookie that was given out is good for ever. After any run from a state that has it, with a bot,
  -- an incoming connection whose IDENT shows the cookie and a name that no connection has is let in
  -- under that name: whoever used the cookie before, and whatever jid it was given to.
  pub Reach-expect_ident :
      (msg : Message) (conn : Conn) (s t : State) (o : Members) (cookie jid name me : Str)
      → lookup cookie s.peer_cookies ≡ some jid
      → cookie ≢ []
      → s.jbot_jid ≡ some me
      → Reach env s t
      → env.msg_type msg ≡ ident
      → read_object env (env.msg_payload msg) ≡ some o
      → find_str env o (codes "cookie") ≡ some cookie
      → find_str env o (codes "name") ≡ some name
      → env.connection_by_name t.log name ≡ none
      → (u : State) × (expect_ident env msg conn true t ≡ ok u) × Accepted env conn true name t u
  Reach-expect_ident msg conn s t o cookie jid name me given filled bot run typed parsed shown named
        fresh =
      let g = Reach-Grows env s t run in
      let (now, kept) = g.cookies cookie jid given in
      let (now_me, still) = g.jbot_jid me bot in
      expect_ident_complete env msg conn true t o name now_me
        (record {
          typed = typed;
          parsed = parsed;
          named = named;
          fresh = fresh;
          invited = λ _. (cookie, now, shown, filled, kept);
        })
        still
