-- ===== src/Jbot.antt =====
-- src/jbot.cpp and src/jbot.h: the XMPP side. A handler returns the bot and what it asks of gloox and
-- of the plugin, in order. Its lock of the peer set is not modelled: each block under it is atomic.
pub mod Peers
pub mod Google
pub mod Presences
pub mod Roster
pub mod Client
use greynet.Base.{
  ℕ, Str, codes, Bool, true, false, not, ◌&&◌, ◌||◌, List, [], ◌∷◌, ◌++◌, map, ◌==◌, nat_eq, str_eq,
  if◌then◌else◌, contains, occurs,
}
use greynet.Base.Sets.{set_insert, set_erase}

-- gloox's `JID`, read from a text: `bare()`, `server()`, `resource()`, and `full()` after
-- `setResource`.
pub record Gloox : Type 0 where
  pub bare : Str → Str
  pub server : Str → Str
  pub resource : Str → Str
  pub with_resource : Str → Str → Str

-- `Presence::PresenceType`
pub data Presence : Type 0 where
  available chat away dnd xa unavailable probe error invalid : Presence

pub data LogLevel : Type 0 where
  debug warning error : LogLevel

-- What the bot asks for: of the client, of the disco and roster managers, and its two callbacks.
pub data Effect : Type 0 where
  new_client : Str → Str → Effect
  set_server : Str → Effect
  set_port : ℕ → Effect
  register_listeners : Effect
  add_feature : Str → Effect
  log_from : LogLevel → Effect
  set_presence : Presence → Effect
  connect : Effect
  remove_listeners : Effect
  disconnect : Effect
  send : Str → Str → Effect
  get_disco_info : Str → Effect
  subscribe : Str → Effect
  new_peer : Str → Effect
  msg_received : Str → Str → Effect

pub record Jbot : Type 0 where
  pub jid : Str
  pub pass : Str
  pub server : Str
  pub port : ℕ
  -- `m_playdarpeers`
  pub peers : List Str
  -- whether the callbacks are set
  pub on_message : Bool
  pub on_new_peer : Bool

unfoldable pub new_jbot : Str → Str → Str → ℕ → Jbot
new_jbot jid pass server port = record {
  jid = jid;
  pass = pass;
  server = server;
  port = port;
  peers = [];
  on_message = false;
  on_new_peer = false;
}

abbrev pub set_msg_received_callback : Jbot → Jbot
set_msg_received_callback b = record b { on_message = true }

abbrev pub set_new_peer_callback : Jbot → Jbot
set_new_peer_callback b = record b { on_new_peer = true }

abbrev pub clear_msg_received_callback : Jbot → Jbot
clear_msg_received_callback b = record b { on_message = false }

-- Presences that mean that a peer cannot be queried.
unfoldable pub is_offline : Presence → Bool
is_offline unavailable = true
is_offline error = true
is_offline invalid = true
is_offline _ = false

unfoldable pub send_to : Str → Str → List Effect
send_to to msg = send to msg ∷ []

-- To each peer, in the set's order.
unfoldable pub broadcast_msg : Str → Jbot → List Effect
broadcast_msg msg b = map (λ peer. send peer msg) b.peers

unfoldable pub stop : List Effect
stop = set_presence unavailable ∷ remove_listeners ∷ disconnect ∷ []

unfoldable pub log_level : Str → LogLevel
unfolding str_eq
log_level level =
    if level == codes "error"
    then LogLevel.error
    else if level == codes "warning"
    then LogLevel.warning
    else LogLevel.debug

-- Adding a peer to the set, with the callback if it is new and the callback is set.
unfoldable pub add_peer : Str → Jbot → Jbot × List Effect
add_peer peer b = if contains peer b.peers then (b, []) else (
  record b { peers = set_insert peer b.peers },
  if b.on_new_peer then new_peer peer ∷ [] else [],
)

module _ (g : Gloox) where
  open g use {bare, server as server_of, resource as resource_of, with_resource}

  -- Servers of Google filter features that they do not know.
  unfoldable pub is_google : Str → Bool
  is_google server =
      occurs (codes "googlemail.") server
      || occurs (codes "gmail.") server
      || occurs (codes "gtalk.") server

  -- The jid under which start() logs in.
  unfoldable pub forced_jid : Str → Str
  forced_jid jid =
      if is_google (server_of jid) && not (occurs (codes "playdar") (resource_of jid))
      then with_resource jid (codes "playdar_" ++ resource_of jid)
      else jid

  -- start() up to the loop that receives.
  unfoldable pub start : Str → Jbot → Jbot × List Effect
  unfolding log_level str_eq
  start loglevel b = (
    record b { jid = forced_jid b.jid },
    new_client (forced_jid b.jid) b.pass
        ∷ ((if b.server == [] then [] else set_server b.server ∷ [])
            ++ (set_port b.port
                ∷ register_listeners
                ∷ add_feature (codes "playdar:resolver")
                ∷ log_from (log_level loglevel)
                ∷ set_presence xa
                ∷ connect
                ∷ [])),
  )

  -- `resource` is the one that the server bound.
  unfoldable pub on_connect : Str → Jbot → Jbot
  on_connect resource b = record b { jid = with_resource b.jid resource }

  unfoldable pub on_tls_connect : Str → Jbot → Jbot
  unfolding on_connect
  on_tls_connect resource b = on_connect resource b

  -- `from` is the full jid of the sender.
  unfoldable pub handle_message : Str → Str → Jbot → List Effect
  unfolding stop str_eq
  handle_message from body b =
      if bare from == bare b.jid && body == codes "quit"
      then stop
      else if b.on_message
      then msg_received body from ∷ []
      else []

  -- The hack for gtalk: a resource with `playdar` in it is taken to be capable.
  unfoldable pub guess_capable : Str → Jbot → Jbot × List Effect
  guess_capable jid b =
      if occurs (codes "playdar") (resource_of jid) then add_peer jid b else (b, [])

  -- `item_jid` is the roster item's jid.
  unfoldable pub handle_roster_presence : Str → Str → Presence → Jbot → Jbot × List Effect
  unfolding is_offline
  handle_roster_presence item_jid resource presence b =
      let jid = with_resource item_jid resource in
      if is_offline presence
      then (record b { peers = set_erase jid b.peers }, [])
      else if contains item_jid b.peers
      then (b, [])
      else (let (b', effects) = guess_capable jid b in (b', effects ++ (get_disco_info jid ∷ [])))

  unfoldable pub handle_self_presence : Str → Str → Presence → Jbot → Jbot × List Effect
  unfolding handle_roster_presence
  handle_self_presence item_jid resource presence b =
      handle_roster_presence item_jid resource presence b

-- `capable` says that the info has the feature `playdar:resolver`.
unfoldable pub handle_disco_info : Str → Bool → Jbot → Jbot × List Effect
handle_disco_info from capable b = if capable then add_peer from b else (b, [])

unfoldable pub handle_subscription_request : Str → List Effect
handle_subscription_request jid = subscribe jid ∷ []
