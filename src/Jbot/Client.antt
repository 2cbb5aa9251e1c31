-- ===== src/Jbot/Client.antt =====
-- The gloox client behind the bot (src/jbot.cpp): start() makes it, receives on it, and deletes it, and
-- the other members use it through the pointer `j`.
pub mod Ends
use greynet.Base.{Str, Bool, true, false, not, ◌||◌, List, [], ◌∷◌, ◌++◌, if◌then◌else◌}
use greynet.Platform.{Result, ok, fault, dangling_pointer, ◌>>=◌}
use greynet.Json.{Values}
use greynet.Jbot.{
  Gloox, Presence, Jbot, Effect, new_peer, msg_received, on_connect, on_tls_connect, handle_message,
  handle_roster_presence, handle_self_presence, handle_disco_info, handle_subscription_request,
}
use greynet.Jbot
use greynet.Jbot.Roster.{Contact}
use greynet.Jbot.Roster

-- The pointer `j`: not set before start(), and not reset after the delete.
pub data Client : Type 0 where
  unset live deleted : Client

-- The callbacks that do more than print, with what gloox hands them.
pub data Callback : Type 0 where
  connected : Str → Callback
  tls_connected : Str → Callback
  -- whether the error is ConnAuthenticationFailed
  disconnected : Bool → Callback
  message : Str → Str → Callback
  roster_presence : Str → Str → Presence → Callback
  self_presence : Str → Str → Presence → Callback
  disco_info : Str → Bool → Callback
  subscription_request : Str → Callback

-- One `j->recv()`: the callbacks that it makes, and whether it returns an error.
pub record Recv : Type 0 where
  pub callbacks : List Callback
  pub failed : Bool

-- The bot with its client, and all that was asked for so far.
pub record Session : Type 0 where
  pub bot : Jbot
  pub client : Client
  pub effects : List Effect

-- What the constructor leaves.
unfoldable pub new_session : Jbot → Session
new_session b = record { bot = b; client = unset; effects = [] }

-- All but the two callbacks to the plugin go through `j`.
unfoldable pub needs_client : List Effect → Bool
needs_client [] = false
needs_client (new_peer jid ∷ effects) = needs_client effects
needs_client (msg_received body from ∷ effects) = needs_client effects
needs_client (_ ∷ effects) = true

-- `j->…`
unfoldable pub dereference : Session → Result Session
dereference s = elim s.client [
  | live ↦ ok s
  | unset ↦ fault dangling_pointer
  | deleted ↦ fault dangling_pointer
]

unfoldable pub request : List Effect → Session → Result Session
unfolding dereference
request effects s = do
  t ← if needs_client effects then dereference s else ok s
  ok (record t { effects = t.effects ++ effects })

-- A handler's new bot, and what it asks for.
abbrev pub apply : Jbot × List Effect → Session → Result Session
apply (b, effects) s = request effects (record s { bot = b })

module _ (g : Gloox) where
  -- onConnect and onTLSConnect read the resource of `j`, and onDisconnect the reason that
  -- authentication failed.
  unfoldable pub call_back : Callback → Session → Result Session
  call_back (connected resource) s = do
    t ← dereference s
    ok (record t { bot = on_connect g resource t.bot })
  call_back (tls_connected resource) s = do
    t ← dereference s
    ok (record t { bot = on_tls_connect g resource t.bot })
  call_back (disconnected auth_failed) s = if auth_failed then dereference s else ok s
  call_back (message from body) s = request (handle_message g from body s.bot) s
  call_back (roster_presence item resource p) s =
      apply (handle_roster_presence g item resource p s.bot) s
  call_back (self_presence item resource p) s =
      apply (handle_self_presence g item resource p s.bot) s
  call_back (disco_info from capable) s = apply (handle_disco_info from capable s.bot) s
  call_back (subscription_request jid) s = request (handle_subscription_request jid) s

  unfoldable pub recv : List Callback → Session → Result Session
  recv [] s = ok s
  recv (c ∷ callbacks) s = call_back c s >>= λ t. recv callbacks t

  -- The loop of start() and the delete behind it; at the list's end the next `recv` has not returned.
  unfoldable pub recv_loop : List Recv → Session → Result Session
  recv_loop [] s = ok s
  recv_loop (r ∷ rs) s = recv r.callbacks s >>= λ t.
      let rest = recv_loop rs t in if r.failed then ok (record t { client = deleted }) else rest

  -- The rest of start(), where `connects` says what `j->connect` returns.
  unfoldable pub start : Str → Bool → List Recv → Session → Result Session
  unfolding recv_loop
  start loglevel connects rs s =
      let (b, effects) = Jbot.start g loglevel s.bot in
      let t : Session = record s { bot = b; client = live; effects = s.effects ++ effects } in
      if connects then recv_loop rs t else ok (record t { client = deleted })

unfoldable pub stop : Session → Result Session
stop s = request Jbot.stop s

unfoldable pub send_to : Str → Str → Session → Result Session
send_to to msg s = request (Jbot.send_to to msg) s

-- With no peers, `j` is not touched.
unfoldable pub broadcast_msg : Str → Session → Result Session
broadcast_msg msg s = request (Jbot.broadcast_msg msg s.bot) s

-- `j->rosterManager()->roster()`
unfoldable pub get_roster : (Str → Bool) → Gloox → List Contact → Session → Result Values
get_roster is_connected g roster s = do
  t ← dereference s
  ok (Roster.get_roster g is_connected t.bot roster)
