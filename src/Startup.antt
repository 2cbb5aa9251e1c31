-- ===== src/Startup.antt =====
-- src/greynet.cpp: init, detect_ip, jabber_start and the destructor.
pub mod Address
pub mod Shutdown
use greynet.Base.{
  ℕ, Str, codes, Bool, true, false, ◌||◌, Option, none, some, List, [], ◌∷◌, ◌++◌, ◌^◌, ◌==◌,
  nat_eq, str_eq, if◌then◌else◌,
}
use greynet.Base.Int.{ℤ, pos, to_unsigned}
use greynet.Platform.{Result, ok, ◌>>=◌}
use greynet.Jbot.{Gloox, new_jbot, set_msg_received_callback, set_new_peer_callback}
use greynet.Jbot.Client.{Session, Recv, new_session}
use greynet.Jbot

-- What is asked of the network, the threads and the NAT router, in order.
pub data Step : Type 0 where
  listen : ℕ → Step
  run_router : Step
  run_io_service : Step
  find_router : ℕ → Step
  add_forward : ℕ → Step
  -- with the log level
  run_bot : Str → Step
  stop_router : Step
  stop_io_service : Step
  join_threads : Step
  stop_bot : Step
  join_bot : Step
  remove_forward : ℕ → Step

-- playdar's configuration, where `get` returns its second argument for a key that is not set, and
-- the answers of `Portfwd`.
pub record Site : Type 0 where
  pub get : Str → Str → Str
  pub get_int : Str → ℤ → ℤ
  pub found_router : Bool
  pub external_ip : Str
  pub added_forward : ℕ → Bool

-- The members that are set up.
pub record Plugin : Type 0 where
  pub port : ℕ
  pub publicip : Str
  -- whether `m_pf` is set
  pub pf : Bool
  pub jbot : Option Session
  pub steps : List Step

abbrev pub note : List Step → Plugin → Plugin
note steps p = record p { steps = p.steps ++ steps }

module _ (site : Site) where
  open site use {get, get_int, found_router, external_ip, added_forward}

  -- The branch behind a NAT router, with the port forward.
  unfoldable pub detect_nat : Plugin → Plugin
  unfolding str_eq
  detect_nat p =
      let extip = get (codes "plugins.greynet.ip") external_ip in
      let q = note (find_router 2500 ∷ []) (record p { pf = true }) in
      let r = note (add_forward p.port ∷ []) q in
      if found_router
      then if extip == []
        then q
        else if added_forward p.port
        then record r { publicip = extip }
        else r
      else q

  unfoldable pub detect_direct : Plugin → Plugin
  unfolding str_eq
  detect_direct p =
      let extip = get (codes "plugins.greynet.ip") [] in
      if extip == [] then p else record p { publicip = extip }

  unfoldable pub detect_ip : Plugin → Plugin
  unfolding detect_nat detect_direct str_eq
  detect_ip p =
      if get (codes "plugins.greynet.connection") (codes "nat") == codes "nat"
      then detect_nat p
      else detect_direct p

  unfoldable pub jabber_start : Str → Str → Str → ℕ → Plugin → Plugin
  unfolding str_eq
  jabber_start jid pass server port p =
      if jid == [] || pass == []
      then p
      else note (run_bot (get (codes "plugins.greynet.loglevel") (codes "error")) ∷ []) (record p {
        jbot = some (
            new_session
              (set_new_peer_callback (set_msg_received_callback (new_jbot jid pass server port))));
      })

  -- The bot's thread, which jabber_start starts: what connecting and receiving come to.
  unfoldable pub run_jbot : Gloox → Bool → List Recv → Plugin → Result Plugin
  unfolding str_eq
  run_jbot g connects rs p = elim p.jbot [
    | none ↦ ok p
    | some s ↦ (do
      t ← Jbot.Client.start g (get (codes "plugins.greynet.loglevel") (codes "error")) connects rs s
      ok (record p { jbot = some t }))
  ]

  -- `m_port` and the port of jabber_start are unsigned shorts.
  unfoldable pub init : Plugin → Plugin
  unfolding detect_ip jabber_start
  init p =
      let port = to_unsigned (2 ^ 16) (get_int (codes "plugins.greynet.port") (pos 60211)) in
      let q = note (listen port ∷ run_router ∷ run_io_service ∷ []) (record p { port = port }) in
      jabber_start (get (codes "plugins.greynet.jabber.jid") [])
        (get (codes "plugins.greynet.jabber.password") [])
        (get (codes "plugins.greynet.jabber.server") [])
        (to_unsigned (2 ^ 16) (get_int (codes "plugins.greynet.jabber.port") (pos 5222)))
        (detect_ip q)

-- What the constructor leaves.
abbrev pub new_plugin : Plugin
new_plugin = record { port = 0; publicip = []; pf = false; jbot = none; steps = [] }

-- The bot's stop() goes through its client, and its thread is then waited for.
unfoldable pub stop_jbot : Option Session → Result (List Step)
stop_jbot none = ok []
stop_jbot (some s) = Jbot.Client.stop s >>= λ _. ok (stop_bot ∷ join_bot ∷ [])

-- The destructor.
unfoldable pub shutdown : Plugin → Result (List Step)
unfolding stop_jbot
shutdown p = do
  stopped ← stop_jbot p.jbot
  ok (
      stop_router
      ∷ stop_io_service
      ∷ join_threads
      ∷ (stopped ++ (if p.pf then remove_forward p.port ∷ [] else [])))
