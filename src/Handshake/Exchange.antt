-- ===== src/Handshake/Exchange.antt =====
-- The two halves of a handshake between two plugins (src/greynet.cpp): the advertisement over XMPP
-- that makes the other side connect, and the IDENT by which that connection is let in.
use greynet.Base.{
  ℕ, ◌<◌, ◌^◌, Str, codes, ◌≡◌, ◌≢◌, refl, ◌∙◌, true, false, none, some, [], ◌∷◌, arith, str_eq,
}
use greynet.Base.Dict.{Dict, lookup, insert}
use greynet.Base.Int.{pos, to_unsigned}
use greynet.Json.{str, int, obj, Members, end, push_back, member_of}
use greynet.Messages.{Message, ident, ident_message}
use greynet.Platform.{Env, State, Conn, Call, Log, ok}
use greynet.Handshake.{
  advertisement, ident_object, find_str, find_int, read_object, parse_advert, jabber_msg_received,
  jabber_new_peer, new_outgoing_connection, expect_ident,
}
use greynet.Handshake.Ident.{IsIdent, Accepted, expect_ident_complete}

-- The JSON library reads a text as the object, and finds what was pushed into it.
pub record ReadsBack (env : Env) (text : Str) (o : Members) : Type 0 where
  pub parses : env.read text ≡ some (obj o)
  pub finds : (key : Str) → env.find o key ≡ member_of o key

abbrev pub props_of : Str → Str → Dict Str Str
props_of cookie jid = insert (codes "jid") jid (insert (codes "cookie") cookie [])

advert_fields :
    (ip : Str) (port : ℕ) (cookie : Str)
    → let o = advertisement ip port cookie in
      (member_of o (codes "playdar-greynet") ≡ some (str (codes "0.2")))
      × (member_of o (codes "peer_ip") ≡ some (str ip))
      × (member_of o (codes "peer_port") ≡ some (int (pos port)))
      × (member_of o (codes "cookie") ≡ some (str cookie))
unfolding advertisement member_of
advert_fields ip port cookie = (refl, refl, refl, refl)

pub find_str_found :
    (env : Env) (o : Members) (key value : Str)
    → env.find o key ≡ some (str value)
    → find_str env o key ≡ some value
unfolding find_str
find_str_found env o key value h = ground arith

find_int_found :
    (env : Env) (o : Members) (key : Str) (value : ℕ)
    → env.find o key ≡ some (int (pos value))
    → find_int env o key ≡ some (pos value)
unfolding find_int
find_int_found env o key value h = ground arith

pub read_object_found :
    (env : Env) (text : Str) (o : Members) → ReadsBack env text o → read_object env text ≡ some o
unfolding read_object
read_object_found env text o r = ground arith

parse_advert-advertisement :
    (env : Env) (text ip : Str) (port : ℕ) (cookie : Str)
    → ReadsBack env text (advertisement ip port cookie)
    → parse_advert env (advertisement ip port cookie)
      ≡ some (record { version = codes "0.2"; peer_ip = ip; peer_port = pos port; cookie = cookie })
unfolding parse_advert
parse_advert-advertisement env text ip port cookie r =
    let o : Members = advertisement ip port cookie in
    let (v, i, p, c) = advert_fields ip port cookie in
    ground (
      arith,
      find_str_found env o (codes "playdar-greynet") (codes "0.2")
          (r.finds (codes "playdar-greynet") ∙ v),
      find_str_found env o (codes "peer_ip") ip (r.finds (codes "peer_ip") ∙ i),
      find_int_found env o (codes "peer_port") port (r.finds (codes "peer_port") ∙ p),
      find_str_found env o (codes "cookie") cookie (r.finds (codes "cookie") ∙ c),
    )

-- `us` and `them` are the two plugins' libraries.
module _ (us them : Env) where
  -- The cookie that the next advertisement carries, and its text.
  abbrev pub next_cookie : State → Str
  next_cookie s = us.uuid (Call.gen_uuid ∷ s.log)

  abbrev pub next_text : State → Str
  next_text s = us.write_formatted (advertisement s.publicip s.port (next_cookie s))

  -- A peer that is not us and not connected is told our address, if we have a public one, with a
  -- cookie that is kept under its jid. The peer's plugin, once its JSON library has read the text
  -- back and the address parses, connects to just that address and port, with the cookie as a
  -- property of the connection.
  pub jabber_new_peer-msg_received :
      (s t : State) (me jid : Str) (address : ℕ)
      → s.jbot_jid ≡ some me
      → jid ≢ me
      → s.publicip ≢ []
      → us.connection_by_name s.log jid ≡ none
      → s.port < 2 ^ 16
      → ReadsBack them (next_text s) (advertisement s.publicip s.port (next_cookie s))
      → them.parse_ipv4 s.publicip ≡ some address
      → (jabber_new_peer us jid s
          ≡ ok (record s {
            peer_cookies = insert (next_cookie s) jid s.peer_cookies;
            log = Call.send_to jid (next_text s) ∷ Call.gen_uuid ∷ s.log;
          }))
        × (jabber_msg_received them (next_text s) me t
            ≡ ok (record t {
              log = Call.connect_to_remote address s.port (props_of (next_cookie s) me) ∷ t.log;
            }))
  unfolding jabber_new_peer jabber_msg_received to_unsigned
  jabber_new_peer-msg_received s t me jid address j n p c w r a = (
    ground arith,
    ground (
      arith,
      read_object_found them (next_text s) (advertisement s.publicip s.port (next_cookie s)) r,
      parse_advert-advertisement them (next_text s) s.publicip s.port (next_cookie s) r,
    ),
  )

pub ident_fields :
    (jid cookie : Str)
    → cookie ≢ []
    → (member_of (ident_object jid cookie) (codes "name") ≡ some (str jid))
      × (member_of (ident_object jid cookie) (codes "cookie") ≡ some (str cookie))
unfolding ident_object
ident_fields jid cookie n =
    let e : ident_object jid cookie
        ≡ push_back (push_back end (codes "name") (str jid)) (codes "cookie") (str cookie) =
      ground arith in
    rw e (unfold push_back member_of in (refl, refl))

-- An IDENT whose text reads back as our object of a jid and a cookie.
pub ident_object-IsIdent :
    (env : Env) (msg : Message) (s : State) (text jid peer cookie : Str)
    → cookie ≢ []
    → lookup cookie s.peer_cookies ≡ some peer
    → env.msg_type msg ≡ ident
    → env.msg_payload msg ≡ text
    → ReadsBack env text (ident_object jid cookie)
    → env.connection_by_name s.log jid ≡ none
    → IsIdent env msg true s (ident_object jid cookie) jid
ident_object-IsIdent env msg s text jid peer cookie n kept typed body r f =
    let o : Members = ident_object jid cookie in
    let (named, shown) = ident_fields jid cookie n in
    record {
      typed = typed;
      parsed = rw body (read_object_found env text o r);
      named = find_str_found env o (codes "name") jid (r.finds (codes "name") ∙ named);
      fresh = f;
      invited = λ _. (
        cookie,
        peer,
        find_str_found env o (codes "cookie") cookie (r.finds (codes "cookie") ∙ shown),
        n,
        kept,
      );
    }

module _ (us them : Env) where
  -- The body of the IDENT that a connection's opener sends.
  abbrev pub opening_body : Conn → Str → State → Str
  opening_body conn jid t =
      them.write (
        ident_object jid (them.conn_get (Call.push_ident conn false ∷ t.log) conn (codes "cookie")))

  -- The opener of a connection whose `cookie` property is a cookie that we gave out sends an IDENT as
  -- soon as the connection stands. When a message with that body, of type IDENT, reaches us on a
  -- connection that came in, and no connection has the opener's name, we make the connection ready
  -- under that name.
  pub new_outgoing_connection-expect_ident :
      (s t : State) (me jid peer cookie : Str) (c d : Conn) (msg : Message)
      → s.jbot_jid ≡ some me
      → t.jbot_jid ≡ some jid
      → them.conn_get (Call.push_ident d false ∷ t.log) d (codes "cookie") ≡ cookie
      → cookie ≢ []
      → lookup cookie s.peer_cookies ≡ some peer
      → us.msg_type msg ≡ ident
      → us.msg_payload msg ≡ opening_body d jid t
      → ReadsBack us (opening_body d jid t) (ident_object jid cookie)
      → us.connection_by_name s.log jid ≡ none
      → let pushed : Log = Call.push_ident d false ∷ t.log in
        (new_outgoing_connection them d t
          ≡ ok (record t {
            log =
                Call.watchdog d 2000
                ∷ Call.async_write d
                    (ident_message (opening_body d jid t) (them.uuid (Call.gen_uuid ∷ pushed)))
                ∷ Call.gen_uuid
                ∷ pushed;
          }))
        × ((s' : State) × (expect_ident us msg c true s ≡ ok s') × Accepted us c true jid s s')
  unfolding new_outgoing_connection
  new_outgoing_connection-expect_ident s t me jid peer cookie c d msg j k got n kept typed body r
        f =
      (
        ground arith,
        expect_ident_complete us msg c true s (ident_object jid cookie) jid me
            (ident_object-IsIdent us msg s (opening_body d jid t) jid peer cookie n kept typed body
              r f)
            j,
      )
