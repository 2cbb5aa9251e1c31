-- ===== src/Handshake/Reply.antt =====
-- expect_ident and send_ident (src/greynet.cpp): what our answer to a peer's IDENT says.
use greynet.Base.{Str, codes, ◌≡◌, refl, true, some, [], ◌∷◌, arith, str_eq}
use greynet.Json.{str, Members, member, end}
use greynet.Messages.{Message, ident_message}
use greynet.Platform.{Env, State, Conn, Call, Log, ok}
use greynet.Handshake.{ident_object, expect_ident}
use greynet.Handshake.Ident.{IsIdent, ready_calls, expect_ident_complete}

ident_object-nil : (jid : Str) → ident_object jid [] ≡ member (codes "name") (str jid) end
unfolding ident_object
ident_object-nil jid = refl

module _ (env : Env) where
  open env use {conn_get, write, uuid}

  -- Where a property that was set to a value is then read as that value: a peer that connected to us
  -- with an IDENT in good order gets an IDENT with our name and no cookie, before the connection is
  -- made ready.
  pub expect_ident-reply :
      (msg : Message) (conn : Conn) (s : State) (o : Members) (name jid : Str)
      → ((log : Log) (c : Conn) (k v : Str) → conn_get (Call.set_prop c k v ∷ log) c k ≡ v)
      → IsIdent env msg true s o name
      → s.jbot_jid ≡ some jid
      → let asked : Log = Call.gen_uuid ∷ Call.set_prop conn (codes "cookie") [] ∷ s.log in
        expect_ident env msg conn true s
        ≡ ok (record s {
          log = ready_calls env conn name (
              Call.async_write conn
                (ident_message (write (member (codes "name") (str jid) end)) (uuid asked))
              ∷ asked);
        })
  expect_ident-reply msg conn s o name jid law i j =
      let (t, run, (me, k, e)) = expect_ident_complete env msg conn true s o name jid i j in
      ground (arith, law s.log conn (codes "cookie") [], ident_object-nil me)
