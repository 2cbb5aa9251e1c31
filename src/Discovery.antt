-- ===== src/Discovery.antt =====
-- How two plugins find each other. The callbacks that jabber_start (src/greynet.cpp) sets lead from
-- the bot (src/jbot.cpp) to the plugin, and the messages of a new connection go to expect_ident until
-- it takes its own callback off again. Here stand the runs that the children's theorems are about.
pub mod Meet
pub mod Advert
use greynet.Base.{
  Str, Bool, true, false, Option, none, some, List, [], ◌∷◌, ◌==◌, nat_eq, if◌then◌else◌,
}
use greynet.Messages.{Message}
use greynet.Platform.{Env, State, Conn, Call, Log, Result, ok, ◌>>=◌}
use greynet.Handshake.{
  jabber_new_peer, jabber_msg_received, new_incoming_connection, new_outgoing_connection,
  expect_ident,
}
use greynet.Dispatch.{message_received}
use greynet.Stream.Sent.{since}
use greynet.Jbot.{
  Gloox, Presence, Jbot, Effect, new_peer, msg_received, handle_message, handle_roster_presence,
}

-- Whether a connection awaits an IDENT, and whether it then came in: its newest callback.
unfoldable pub awaited : Conn → Log → Option Bool
awaited c [] = none
awaited c (Call.push_ident d incoming ∷ log) =
    let rest = awaited c log in if d == c then some incoming else rest
awaited c (Call.pop_ident d ∷ log) = let rest = awaited c log in if d == c then none else rest
awaited c (_ ∷ log) = awaited c log

-- The text that the newest call sends over XMPP.
unfoldable pub told : Log → Option Str
told (Call.send_to jid text ∷ log) = some text
told _ = none

-- Whether the newest call connects to a peer.
unfoldable pub dialled : Log → Bool
dialled (Call.connect_to_remote address port props ∷ log) = true
dialled _ = false

module _ (env : Env) where
  -- What a handler of the bot asks of the plugin, by the callbacks.
  unfoldable pub perform : List Effect → State → Result State
  perform [] s = ok s
  perform (new_peer jid ∷ effects) s = jabber_new_peer env jid s >>= λ t. perform effects t
  perform (msg_received msg jid ∷ effects) s =
      jabber_msg_received env msg jid s >>= λ t. perform effects t
  perform (_ ∷ effects) s = perform effects s

  -- A message of a connection, to its newest callback.
  unfoldable pub deliver : Conn → Message → State → Result State
  deliver conn msg s = elim (awaited conn s.log) [
    | none ↦ message_received env msg conn s
    | some incoming ↦ expect_ident env msg conn incoming s
  ]

  unfoldable pub deliver_all : Conn → List Message → State → Result State
  unfolding deliver
  deliver_all conn [] s = ok s
  deliver_all conn (msg ∷ msgs) s = deliver conn msg s >>= λ t. deliver_all conn msgs t

  -- A text that reaches the bot `b` over XMPP from the jid `from`.
  unfoldable pub hear : Gloox → Str → Jbot → Option Str → State → Result State
  unfolding perform
  hear g from b none s = ok s
  hear g from b (some text) s = perform (handle_message g from text b) s

module _ (us them : Env) where
  -- They open a connection, their end `d` and ours `c`; each side gets what the other has written.
  unfoldable pub meet : Conn → Conn → State → State → Result (State × State)
  meet c d s t = do
    t1 ← new_outgoing_connection them d t
    let s1 = new_incoming_connection us c s
    s2 ← deliver_all us c (since d t t1) s1
    t2 ← deliver_all them d (since c s1 s2) t1
    ok (s2, t2)

  -- Our bot `a` sees a presence; their bot `b` hears what we tell it; if they then connect, we meet.
  unfoldable pub discover :
      Gloox
      → Str
      → Str
      → Presence
      → Jbot
      → Jbot
      → Conn
      → Conn
      → State
      → State
      → Result (State × State)
  unfolding hear
  discover g item resource p a b c d s t = do
    s1 ← perform us (handle_roster_presence g item resource p a).1 s
    t1 ← hear them g a.jid b (told s1.log) t
    elim (dialled t1.log) [ false ↦ ok (s1, t1) | true ↦ meet c d s1 t1 ]
