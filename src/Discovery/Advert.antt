-- ===== src/Discovery/Advert.antt =====
-- From a presence to two connected plugins: handleRosterPresence and handleMessage (src/jbot.cpp),
-- jabber_new_peer, jabber_msg_received, and the handshake (src/greynet.cpp).
use greynet.Base.{
  ℕ, ◌<◌, ◌^◌, Str, codes, ◌≡◌, ◌≢◌, refl, true, false, none, some, [], ◌∷◌, arith, nat_eq, str_eq,
  contains, occurs,
}
use greynet.Base.Dict.{lookup, insert, lookup-insert_self}
use greynet.Platform.{Env, State, Conn, Call, Log, ok}
use greynet.Handshake.{advertisement, ident_object, jabber_new_peer, jabber_msg_received}
use greynet.Handshake.Exchange.{
  ReadsBack, opening_body, props_of, next_cookie, next_text, jabber_new_peer-msg_received,
}
use greynet.Jbot.{Gloox, Presence, Jbot, is_offline, handle_message, handle_roster_presence}
use greynet.Jbot.Google.{SetsResource, handle_roster_presence_guess}
use greynet.Discovery.{told, dialled, perform, hear, discover}
use greynet.Discovery.Meet.{ReadsIdents, invited, opened, plain, joined, admitted, meet_lem}

lookup-props_of : (cookie jid : Str) → lookup (codes "cookie") (props_of cookie jid) ≡ some cookie
unfolding lookup insert str_eq
lookup-props_of cookie jid = refl

module _ (us them : Env) where
  -- We have advertised ourselves to a jid.
  abbrev pub told_them : Str → State → State
  told_them jid s = record s {
    peer_cookies = insert (next_cookie us them s) jid s.peer_cookies;
    log = Call.send_to jid (next_text us them s) ∷ Call.gen_uuid ∷ s.log;
  }

  -- They connect to what `s` advertised.
  abbrev pub dialling : ℕ → Str → State → State → State
  dialling address me s t = record t {
    log = Call.connect_to_remote address s.port (props_of (next_cookie us them s) me) ∷ t.log;
  }

module _ (us them : Env) (g : Gloox) where
  heard_lem :
      (from text : Str) (b : Jbot) (t t1 : State)
      → b.on_message ≡ true
      → text ≢ codes "quit"
      → jabber_msg_received them text from t ≡ ok t1
      → hear them g from b (some text) t ≡ ok t1
  unfolding hear perform handle_message
  heard_lem from text b t t1 m q h = ground arith

  performed_lem :
      (item resource : Str) (p : Presence) (a : Jbot) (s s1 : State)
      → SetsResource g
      → a.on_new_peer ≡ true
      → is_offline p ≡ false
      → contains item a.peers ≡ false
      → contains (g.with_resource item resource) a.peers ≡ false
      → occurs (codes "playdar") resource ≡ true
      → jabber_new_peer us (g.with_resource item resource) s ≡ ok s1
      → perform us (handle_roster_presence g item resource p a).1 s ≡ ok s1
  unfolding perform
  performed_lem item resource p a s s1 law n o k m h e =
      rw (handle_roster_presence_guess g item resource p a law n o k h, m, e)

  -- The whole way from a presence to two connected plugins.
  -- The presence: not offline, of an item that is no known peer, with `playdar` in its resource, and
  -- its jid is new to our bot, whose callback is set. It is the jid of the peer's bot, which is
  -- another than ours and not connected; each plugin knows its bot's jid. We have a public address,
  -- which the peer parses, and our advertisement is not `quit`. The connection that the peer opens
  -- has the properties asked for, each JSON library reads back what the other has written, and
  -- neither side has a connection under the other's jid when it gets the IDENT. Then both ends are
  -- made ready, each under the other's jid: we keep a new cookie for the peer and tell it our address,
  -- the peer connects there, and the two IDENTs are exchanged; nothing else happens.
  pub discover_lem :
      (item resource : Str) (p : Presence) (a b : Jbot) (c d : Conn) (address : ℕ) (s t : State)
      → SetsResource g
      → a.on_new_peer ≡ true
      → b.on_message ≡ true
      → is_offline p ≡ false
      → contains item a.peers ≡ false
      → contains b.jid a.peers ≡ false
      → occurs (codes "playdar") resource ≡ true
      → g.with_resource item resource ≡ b.jid
      → s.jbot_jid ≡ some a.jid
      → t.jbot_jid ≡ some b.jid
      → b.jid ≢ a.jid
      → s.publicip ≢ []
      → us.connection_by_name s.log b.jid ≡ none
      → s.port < 2 ^ 16
      → them.parse_ipv4 s.publicip ≡ some address
      → next_text us them s ≢ codes "quit"
      → next_cookie us them s ≢ []
      → ReadsIdents us
      → ReadsIdents them
      → ((log : Log) (e : Conn) (k v : Str) → us.conn_get (Call.set_prop e k v ∷ log) e k ≡ v)
      → ReadsBack them
          (next_text us them s)
          (advertisement s.publicip s.port (next_cookie us them s))
      → let s1 = told_them us them b.jid s in
        let t1 = dialling us them address a.jid s t in
        ((k v : Str)
          → lookup k (props_of (next_cookie us them s) a.jid) ≡ some v
          → them.conn_get (Call.push_ident d false ∷ t1.log) d k ≡ v)
        → ReadsBack us
            (opening_body us them d b.jid t1)
            (ident_object b.jid (next_cookie us them s))
        → ReadsBack them (us.write (plain us a.jid)) (plain us a.jid)
        → us.connection_by_name (invited us c s1).log b.jid ≡ none
        → them.connection_by_name (opened them d b.jid t1).log a.jid ≡ none
        → discover us them g item resource p a b c d s t
          ≡ ok (joined us c a.jid b.jid s1, admitted them d b.jid a.jid t1)
  unfolding discover told dialled nat_eq str_eq
  discover_lem item resource p a b c d address s t law n m o k fresh h e j w ne ip away port parsed
        quit full ours theirs props advert set opening reply f i =
      let s1 : State = told_them us them b.jid s in
      let t1 : State = dialling us them address a.jid s t in
      let (first, second) =
        jabber_new_peer-msg_received us them s t a.jid b.jid address j ne ip away port advert
          parsed in
      let seen : perform us (handle_roster_presence g item resource p a).1 s ≡ ok s1 =
        performed_lem item resource p a s s1 law n o k (rw e fresh) h (rw e first) in
      let heard : hear them g a.jid b (some (next_text us them s)) t ≡ ok t1 =
        heard_lem a.jid (next_text us them s) b t t1 m quit second in
      let met =
        meet_lem us them s1 t1 a.jid b.jid b.jid (next_cookie us them s) c d ours theirs props j w
          (set (codes "cookie") (next_cookie us them s) (lookup-props_of _ _)) full
          (lookup-insert_self (next_cookie us them s) b.jid s.peer_cookies) opening reply f i in
      rw (seen, heard, met)
