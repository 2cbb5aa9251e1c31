-- ===== src/Discovery/Meet.antt =====
-- The handshake of a new connection on both its ends (src/greynet.cpp): new_outgoing_connection,
-- new_incoming_connection, and expect_ident twice.
use greynet.Base.{
  Str, codes, ◌≡◌, ◌≢◌, refl, ◌∙◌, ap, Bool, true, false, none, some, [], ◌∷◌, arith, nat_eq,
  str_eq, ==_refl,
}
use greynet.Base.Dict.{lookup}
use greynet.Json.{str, Members, member, end, member_of}
use greynet.Messages.{Message, ident, ident_message}
use greynet.Platform.{Env, State, Conn, Call, Log, ok}
use greynet.Handshake.{
  find_str, ident_object, expect_ident, new_incoming_connection, new_outgoing_connection,
  send_ident,
}
use greynet.Handshake.Ident.{ready_calls, expect_ident_complete}
use greynet.Handshake.Exchange.{
  ReadsBack, opening_body, ident_object-IsIdent, find_str_found, read_object_found,
}
use greynet.Handshake.Reply.{expect_ident-reply}
use greynet.Stream.Sent.{since, since-push_all, sent_calls}
use greynet.Discovery.{awaited, deliver, deliver_all, meet}

-- An IDENT keeps what it is made of.
pub record ReadsIdents (env : Env) : Type 0 where
  pub types : (body guid : Str) → env.msg_type (ident_message body guid) ≡ ident
  pub payloads : (body guid : Str) → env.msg_payload (ident_message body guid) ≡ body

module _ (env : Env) where
  -- The one message that a connection is given, where it awaits an IDENT.
  deliver_all-ident :
      (c : Conn) (incoming : Bool) (msg : Message) (s t : State)
      → awaited c s.log ≡ some incoming
      → expect_ident env msg c incoming s ≡ ok t
      → deliver_all env c (msg ∷ []) s ≡ ok t
  unfolding deliver_all deliver
  deliver_all-ident c incoming msg s t h k = ground arith

  -- What an opened connection leaves.
  abbrev pub opening : Conn → Str → State → Log
  opening d jid t =
      let asked : Log = Call.gen_uuid ∷ Call.push_ident d false ∷ t.log in
      Call.async_write d (ident_message (opening_body env env d jid t) (env.uuid asked)) ∷ asked

  abbrev pub opened : Conn → Str → State → State
  opened d jid t = record t { log = Call.watchdog d 2000 ∷ opening d jid t }

  new_outgoing_connection-opened :
      (d : Conn) (jid : Str) (t : State)
      → t.jbot_jid ≡ some jid
      → new_outgoing_connection env d t ≡ ok (opened d jid t)
  unfolding new_outgoing_connection send_ident
  new_outgoing_connection-opened d jid t h = rw h

  -- What a connection that came in leaves.
  abbrev pub invited : Conn → State → State
  invited c s = record s { log = Call.watchdog c 2000 ∷ Call.push_ident c true ∷ s.log }

  -- Our own IDENT, without a cookie, as the answer to an IDENT.
  abbrev pub plain : Str → Members
  plain me = member (codes "name") (str me) end

  abbrev pub answering : Conn → Str → State → Log
  answering c me s =
      let asked : Log = Call.gen_uuid ∷ Call.set_prop c (codes "cookie") [] ∷ (invited c s).log in
      Call.async_write c (ident_message (env.write (plain me)) (env.uuid asked)) ∷ asked

  -- Both ends after the handshake, with the other's jid.
  abbrev pub joined : Conn → Str → Str → State → State
  joined c me jid s = record s { log = ready_calls env c jid (answering c me s) }

  abbrev pub admitted : Conn → Str → Str → State → State
  admitted d jid me t = record t { log = ready_calls env d me (opened d jid t).log }

  plain-named :
      (text me : Str)
      → ReadsBack env text (plain me)
      → find_str env (plain me) (codes "name") ≡ some me
  unfolding member_of
  plain-named text me r =
      find_str_found env (plain me) (codes "name") me (r.finds (codes "name") ∙ refl)

  -- An IDENT without a cookie, on a connection that we opened.
  expect_ident-plain :
      (msg : Message) (d : Conn) (t : State) (me jid text : Str)
      → env.msg_type msg ≡ ident
      → env.msg_payload msg ≡ text
      → ReadsBack env text (plain me)
      → env.connection_by_name t.log me ≡ none
      → t.jbot_jid ≡ some jid
      → expect_ident env msg d false t ≡ ok (record t { log = ready_calls env d me t.log })
  expect_ident-plain msg d t me jid text typed body r h j =
      let (u, run, e) =
        expect_ident_complete env msg d false t (plain me) me jid
          (record {
            typed = typed;
            parsed = rw body (read_object_found env text (plain me) r);
            named = plain-named text me r;
            fresh = h;
            invited = λ e. cc;
          })
          j in
      rw run (ap ok e)

module _ (us them : Env) where
  -- The peer opens a connection with the property `cookie` at a cookie that we gave out, and we take
  -- it; the JSON libraries read the IDENTs back, and neither side has a connection under the other's
  -- jid when it gets the IDENT. Then both ends are ready under the other's jid. We have answered with
  -- our jid and no cookie, and the cookie of our end is cleared; nothing else is sent.
  pub meet_lem :
      (s t : State) (me jid peer cookie : Str) (c d : Conn)
      → ReadsIdents us
      → ReadsIdents them
      → ((log : Log) (e : Conn) (k v : Str) → us.conn_get (Call.set_prop e k v ∷ log) e k ≡ v)
      → s.jbot_jid ≡ some me
      → t.jbot_jid ≡ some jid
      → them.conn_get (Call.push_ident d false ∷ t.log) d (codes "cookie") ≡ cookie
      → cookie ≢ []
      → lookup cookie s.peer_cookies ≡ some peer
      → ReadsBack us (opening_body us them d jid t) (ident_object jid cookie)
      → ReadsBack them (us.write (plain us me)) (plain us me)
      → us.connection_by_name (invited us c s).log jid ≡ none
      → them.connection_by_name (opened them d jid t).log me ≡ none
      → meet us them c d s t ≡ ok (joined us c me jid s, admitted them d jid me t)
  unfolding meet awaited sent_calls new_incoming_connection nat_eq
  meet_lem s t me jid peer cookie c d ours theirs law j k got n kept r q f h =
      let s1 : State = invited us c s in
      let t1 : State = opened them d jid t in
      let pushed : Log = Call.push_ident d false ∷ t.log in
      let text = opening_body us them d jid t in
      let msg : Message = ident_message text (them.uuid (Call.gen_uuid ∷ pushed)) in
      let cleared : Log = Call.set_prop c (codes "cookie") [] ∷ s1.log in
      let reply : Message =
        ident_message (us.write (plain us me)) (us.uuid (Call.gen_uuid ∷ cleared)) in
      let wrote : since d t t1 ≡ msg ∷ [] =
        since-push_all d
          (Call.push_ident d false
            ∷ Call.gen_uuid
            ∷ Call.async_write d msg
            ∷ Call.watchdog d 2000
            ∷ [])
          t t1 refl
        ∙ rw (==_refl d) in
      let s2 : State = joined us c me jid s in
      let answered : since c s1 s2 ≡ reply ∷ [] =
        since-push_all c
          (Call.set_prop c (codes "cookie") []
            ∷ Call.gen_uuid
            ∷ Call.async_write c reply
            ∷ Call.pop_ident c
            ∷ Call.set_ready c true
            ∷ Call.set_name c jid
            ∷ [])
          s1 s2 refl
        ∙ rw (==_refl c) in
      let good =
        ident_object-IsIdent us msg s1 text jid peer cookie n kept (ours.types text _)
          (ours.payloads text _) r f in
      let first : deliver_all us c (msg ∷ []) s1 ≡ ok s2 =
        deliver_all-ident us c true msg s1 s2 (rw (==_refl c))
          (expect_ident-reply us msg c s1 (ident_object jid cookie) jid me law good j) in
      let second : deliver_all them d (reply ∷ []) t1 ≡ ok (admitted them d jid me t) =
        deliver_all-ident them d false reply t1 (admitted them d jid me t) (rw (==_refl d)) (
          expect_ident-plain them reply d t1 me jid (us.write (plain us me)) (theirs.types _ _)
            (theirs.payloads _ _) q h k) in
      rw (new_outgoing_connection-opened them d jid t k, wrote, first, answered, second)
