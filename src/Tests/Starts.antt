-- ===== src/Tests/Starts.antt =====
-- The start and the end of a plugin, at a concrete site.
use greynet.Base.{
  codes, ◌≡◌, refl, ◌≢◌, ◌⊎◌, true, false, none, not, ◌&&◌, [], str_eq, ◌==◌, if◌then◌else◌,
}
use greynet.Platform.{ok, fault, dangling_pointer}
use greynet.Handshake.{jabber_new_peer}
use greynet.Startup.{Site, detect_ip, init, jabber_start, new_plugin, shutdown, Plugin, run_jbot}
use greynet.Startup.Address.{Reachable, init-jabber_new_peer}
use greynet.Startup.Shutdown.{Cleans, init-shutdown}
use greynet.Jbot.Client.Ends.{any_failed}
use greynet.Tests.Peers.{gloox}
use greynet.Tests.Clients.{receives}
use greynet.Tests.Libraries.{libraries}
use greynet.Tests.Streams.{idle}

-- Behind a router that forwards the port, with a jid and a password.
abbrev home : Site
home = record {
  get = λ key default.
      if key == codes "plugins.greynet.jabber.jid"
      then codes "me"
      else if key == codes "plugins.greynet.jabber.password"
      then codes "pw"
      else default;
  get_int = λ key default. default;
  found_router = true;
  external_ip = codes "1.2.3.4";
  added_forward = λ port. true;
}

address_found : idle.publicip ≡ (init home new_plugin).publicip
unfolding init detect_ip jabber_start str_eq
address_found = refl

init-jabber_new_peer_example :
    Reachable home (init home new_plugin)
    ⊎ (((init home new_plugin).publicip ≡ [])
        × (jabber_new_peer libraries (codes "bob") idle ≡ ok idle))
init-jabber_new_peer_example =
    init-jabber_new_peer home libraries (codes "bob") (codes "me") idle address_found refl

-- The bot's connection is lost in the end.
init-shutdown_example :
    let p = init home new_plugin in
    (q : Plugin) × (run_jbot home gloox true receives p ≡ ok q)
    × (((p.jbot ≡ none) × Cleans p q)
        ⊎ ((p.jbot ≢ none)
            × ((true && not (any_failed receives)) ≡ true)
            × Cleans p q
            × (shutdown p ≡ fault dangling_pointer))
        ⊎ ((p.jbot ≢ none)
            × ((true && not (any_failed receives)) ≡ false)
            × (shutdown q ≡ fault dangling_pointer)
            × (shutdown p ≡ fault dangling_pointer)))
init-shutdown_example = init-shutdown home gloox true receives
