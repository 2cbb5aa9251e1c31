-- ===== src/Tests/Clients.antt =====
-- The bot's client, at a concrete run.
use greynet.Base.{codes, ◌≡◌, ◌⊎◌, true, false, not, ◌&&◌, List, [], ◌∷◌, nat_eq, str_eq}
use greynet.Platform.{ok}
use greynet.Jbot.{available}
use greynet.Jbot.Client.{
  Recv, Session, connected, roster_presence, message, new_session, start, disconnected,
}
use greynet.Jbot.Client.Ends.{any_failed, Serves, Dangles, start-cases}
use greynet.Tests.Peers.{gloox, listening_bot}

-- The bot connects, sees a peer, and is told to quit; then its connection is gone.
abbrev pub receives : List Recv
receives =
    record { callbacks = connected (codes "me") ∷ []; failed = false }
    ∷ record {
      callbacks = roster_presence (codes "bob") (codes "playdar_1") available ∷ [];
      failed = false;
    }
    ∷ record {
      callbacks = message (codes "me") (codes "quit") ∷ disconnected false ∷ [];
      failed = true;
    }
    ∷ []

start-cases_example :
    (t : Session) × (start gloox (codes "error") true receives (new_session listening_bot) ≡ ok t)
    × ((((true && not (any_failed receives)) ≡ true) × Serves gloox t)
        ⊎ (((true && not (any_failed receives)) ≡ false) × Dangles gloox t))
start-cases_example = start-cases gloox (codes "error") true receives (new_session listening_bot)
