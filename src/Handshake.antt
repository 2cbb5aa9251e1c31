-- ===== src/Handshake.antt =====
-- src/greynet.cpp: how a peer is found and let in. Addresses are told over XMPP with a cookie, and
-- the first message of a connection must be an IDENT. src/jbot.cpp is in Jbot.antt.
pub mod Keeps
pub mod Ident
pub mod Exchange
pub mod Cookies
pub mod Reply
use greynet.Base.{
  ℕ, Str, codes, Bool, true, false, Option, none, some, [], ◌^◌, ◌==◌, nat_eq, str_eq,
  if◌then◌else◌,
}
use greynet.Base.Dict.{Dict, lookup, insert}
use greynet.Base.Int.{ℤ, pos, to_unsigned}
use greynet.Json.{str, int, Members, end, push_back, get_obj, get_str, get_int}
use greynet.Messages.{Message, ident, ident_message}
use greynet.Platform.{
  Env, State, Conn, Call, Result, ok, uncaught_exception, null_pointer, emit, or_fault, ◌>>=◌,
}

-- `IDENT` of ourselves: our jid, and the connection's cookie if it has one.
unfoldable pub ident_object : Str → Str → Members
unfolding push_back str_eq
ident_object jid cookie =
    let o = push_back end (codes "name") (str jid) in
    if cookie == [] then o else push_back o (codes "cookie") (str cookie)

-- What we tell a peer over XMPP.
unfoldable pub advertisement : Str → ℕ → Str → Members
unfolding push_back
advertisement ip port cookie =
    push_back
      (push_back
        (push_back (push_back end (codes "playdar-greynet") (str (codes "0.2"))) (codes "peer_ip")
          (str ip))
        (codes "peer_port") (int (pos port)))
      (codes "cookie") (str cookie)

-- The four fields of an advertisement that its tests let through.
pub record Advert : Type 0 where
  pub version : Str
  pub peer_ip : Str
  pub peer_port : ℤ
  pub cookie : Str

module _ (env : Env) where
  open env use {read, write, write_formatted, find, conn_ready, conn_get, connection_by_name}

  -- `m.find(key) != m.end() && m[key].type() == str_type`, with the string.
  unfoldable pub find_str : Members → Str → Option Str
  unfolding get_str
  find_str o key = elim (find o key) [ none ↦ none | some v ↦ get_str v ]

  unfoldable pub find_int : Members → Str → Option ℤ
  unfolding get_int
  find_int o key = elim (find o key) [ none ↦ none | some v ↦ get_int v ]

  -- `read` and the test for an object.
  unfoldable pub read_object : Str → Option Members
  unfolding get_obj
  read_object text = elim (read text) [ none ↦ none | some v ↦ get_obj v ]

  -- Our IDENT, sent: it needs the jabber bot, for our name.
  unfoldable pub send_ident : Conn → State → Result State
  send_ident conn s = do
    jid ← or_fault s.jbot_jid null_pointer
    let body = write (ident_object jid (conn_get s.log conn (codes "cookie")))
    let t = emit Call.gen_uuid s
    ok (emit (Call.async_write conn (ident_message body (env.uuid t.log))) t)

  unfoldable pub new_connection_watchdog : Conn → ℕ → State → State
  new_connection_watchdog conn timeout s = emit (Call.watchdog conn timeout) s

  unfoldable pub new_incoming_connection : Conn → State → State
  unfolding new_connection_watchdog
  new_incoming_connection conn s =
      new_connection_watchdog conn 2000 (emit (Call.push_ident conn true) s)

  unfoldable pub new_outgoing_connection : Conn → State → Result State
  unfolding send_ident new_connection_watchdog
  new_outgoing_connection conn s = do
    t ← send_ident conn (emit (Call.push_ident conn false) s)
    ok (new_connection_watchdog conn 2000 t)

  unfoldable pub new_connection_timeout : Conn → State → State
  new_connection_timeout conn s = if conn_ready s.log conn then s else emit (Call.fin conn) s

  -- The end of expect_ident: the connection is ready for normal messages.
  unfoldable pub accept : Conn → Str → State → State
  accept conn name s =
      emit (Call.set_name conn name)
        (emit (Call.set_ready conn true) (emit (Call.pop_ident conn) s))

  -- The part of expect_ident for a peer that connected to us.
  unfoldable pub check_cookie : Conn → Str → Option Str → State → Result State
  unfolding accept
  check_cookie conn name none s = ok (emit (Call.fin conn) s)
  check_cookie conn name (some cookie) s = elim (lookup cookie s.peer_cookies) [
    | none ↦ ok (emit (Call.fin conn) s)
    | some _ ↦ if cookie == [] then ok (emit (Call.fin conn) s) else (do
      t ← send_ident conn (emit (Call.set_prop conn (codes "cookie") []) s)
      ok (accept conn name t))
  ]

  -- expect_ident from the test on the name on.
  unfoldable pub check_name : Conn → Bool → Members → Option Str → State → Result State
  unfolding check_cookie find_str
  check_name conn incoming o none s = ok (emit (Call.fin conn) s)
  check_name conn incoming o (some name) s = elim (connection_by_name s.log name) [
    | some _ ↦ ok (emit (Call.fin conn) s)
    | none ↦
        if incoming
        then check_cookie conn name (find_str o (codes "cookie")) s
        else ok (accept conn name s)
  ]

  unfoldable pub expect_ident : Message → Conn → Bool → State → Result State
  unfolding check_name read_object
  expect_ident msg conn incoming s =
      if env.msg_type msg == ident
      then elim (read_object (env.msg_payload msg)) [
        | none ↦ ok (emit (Call.fin conn) s)
        | some o ↦ check_name conn incoming o (find_str o (codes "name")) s
      ]
      else ok (emit (Call.fin conn) s)

  -- `remote_port` is an unsigned short.
  unfoldable pub connect_to_peer : Str → ℕ → Dict Str Str → State → Result State
  connect_to_peer ip port props s = do
    address ← or_fault (env.parse_ipv4 ip) uncaught_exception
    ok (emit (Call.connect_to_remote address port props) s)

  -- The tests of jabber_msg_received on the fields.
  unfoldable pub parse_advert : Members → Option Advert
  unfolding find_str find_int
  parse_advert o = elim (find_str o (codes "playdar-greynet")) [
    | none ↦ none
    | some version ↦ elim (find_str o (codes "peer_ip")) [
      | none ↦ none
      | some ip ↦ elim (find_int o (codes "peer_port")) [
        | none ↦ none
        | some port ↦ elim (find_str o (codes "cookie")) [
          | none ↦ none
          | some cookie ↦
              some (record { version = version; peer_ip = ip; peer_port = port; cookie = cookie })
        ]
      ]
    ]
  ]

  unfoldable pub jabber_msg_received : Str → Str → State → Result State
  unfolding connect_to_peer
  jabber_msg_received msg jid s = elim (read_object msg) [
    | none ↦ ok s
    | some o ↦ elim (parse_advert o) [
      | none ↦ ok s
      | some a ↦
          connect_to_peer a.peer_ip (to_unsigned (2 ^ 16) a.peer_port)
            (insert (codes "jid") jid (insert (codes "cookie") a.cookie [])) s
    ]
  ]

  -- The last branch of jabber_new_peer.
  unfoldable pub advertise : Str → State → State
  advertise jid s =
      let t = emit Call.gen_uuid s in
      let cookie = env.uuid t.log in
      emit (Call.send_to jid (write_formatted (advertisement s.publicip s.port cookie)))
        (record t { peer_cookies = insert cookie jid s.peer_cookies })

  unfoldable pub jabber_new_peer : Str → State → Result State
  unfolding advertise
  jabber_new_peer jid s = do
    me ← or_fault s.jbot_jid null_pointer
    if jid == me
        then ok s
        else if s.publicip == []
        then ok s
        else elim (connection_by_name s.log jid) [ some _ ↦ ok s | none ↦ ok (advertise jid s) ]
