-- ===== src/Tests/Peers.antt =====
-- Handshakes and the XMPP side, at concrete states.
use greynet.Base.{
  not, ◌&&◌, ◌||◌, ◌==◌, if◌then◌else◌, Str, codes, ◌≡◌, refl, ◌⊎◌, true, false, List, [], ◌∷◌,
  arith, nat_eq, str_eq, contains, occurs, ◌+◌,
}
use greynet.Base.Dict.{lookup, insert}
use greynet.Json.{get_obj, get_str, Members, push_back, member_of}
use greynet.Messages.{Message, ident}
use greynet.Platform.{State, Call, ok, emit}
use greynet.Handshake.{
  advertisement, ident_object, find_str, read_object, expect_ident, check_name, check_cookie,
  send_ident, accept, jabber_new_peer, jabber_msg_received,
}
use greynet.Handshake.Ident.{
  IsIdent, Accepted, ready_calls, ident_calls, expect_ident_sound, expect_ident_complete,
}
use greynet.Handshake.Exchange.{ReadsBack, props_of, jabber_new_peer-msg_received}
use greynet.Jbot.{
  Gloox, Jbot, new_peer, get_disco_info, available, unavailable, new_jbot, is_google, is_offline,
  forced_jid, handle_roster_presence,
}
use greynet.Jbot.Peers.{
  Event, presence, disco, announcements, departures, finish, count, one_if,
  announcements-departures,
}
use greynet.Jbot.Google.{SetsResource, forced_jid-playdar}
use greynet.Jbot.Presences.{handle_roster_presence-cases}
use greynet.Tests.Libraries.{libraries, read_text}
use greynet.Tests.Streams.{idle}

-- An IDENT whose text reads as the object of `bob` with the cookie `uuid`, and one of `eve`.
abbrev pub from_bob : Message
from_bob = libraries.general_message ident (codes "ident") (codes "guid")

abbrev from_eve : Message
from_eve = libraries.general_message ident (codes "other") (codes "guid")

-- A plugin that has given out the cookie `uuid`.
abbrev pub inviting : State
inviting = record idle { peer_cookies = (codes "uuid", codes "bob") ∷ [] }

abbrev pub bob : Members
bob = ident_object (codes "bob") (codes "uuid")

-- `inviting` after bob was let in on connection 1.
abbrev bob_inside : State
bob_inside = record inviting {
  log = ready_calls libraries 1 (codes "bob") (ident_calls libraries 1 (codes "me") []);
}

pub from_bob-IsIdent : IsIdent libraries from_bob true inviting bob (codes "bob")
unfolding read_object find_str get_obj get_str lookup read_text member_of push_back ident_object
    nat_eq str_eq
from_bob-IsIdent = record {
  typed = refl;
  parsed = refl;
  named = refl;
  fresh = refl;
  invited = λ _. (codes "uuid", codes "bob", refl, (λ e. cc), refl);
}

bob_enters : expect_ident libraries from_bob 1 true inviting ≡ ok bob_inside
unfolding expect_ident check_name check_cookie send_ident accept read_object find_str get_obj
    get_str lookup read_text member_of push_back ident_object nat_eq str_eq
bob_enters = refl

expect_ident_sound_example :
    (bob_inside ≡ emit (Call.fin 1) inviting)
    ⊎ ((o : Members) × (name : Str) × IsIdent libraries from_bob true inviting o name
        × Accepted libraries 1 true name inviting bob_inside)
expect_ident_sound_example =
    expect_ident_sound libraries from_bob 1 true inviting bob_inside bob_enters

expect_ident_complete_example :
    (t : State) × (expect_ident libraries from_bob 1 true inviting ≡ ok t)
    × Accepted libraries 1 true (codes "bob") inviting t
expect_ident_complete_example =
    expect_ident_complete libraries from_bob 1 true inviting bob (codes "bob") (codes "me")
      from_bob-IsIdent refl

advert_reads :
    ReadsBack libraries (codes "advert") (advertisement (codes "1.2.3.4") 60211 (codes "uuid"))
unfolding read_text str_eq
advert_reads = record { parses = refl; finds = λ key. refl }

jabber_new_peer-msg_received_example :
    (jabber_new_peer libraries (codes "bob") idle
      ≡ ok (record idle {
        peer_cookies = (codes "uuid", codes "bob") ∷ [];
        log = Call.send_to (codes "bob") (codes "advert") ∷ Call.gen_uuid ∷ [];
      }))
    × (jabber_msg_received libraries (codes "advert") (codes "me") idle
        ≡ ok (record idle {
          log = Call.connect_to_remote 7 60211 (props_of (codes "uuid") (codes "me")) ∷ [];
        }))
unfolding insert str_eq
jabber_new_peer-msg_received_example =
    jabber_new_peer-msg_received libraries libraries idle idle (codes "me") (codes "bob") 7 refl
      (λ e. cc) (λ e. cc) refl (omega arith) advert_reads refl

-- One Google server, where a jid is its own resource.
abbrev pub gloox : Gloox
gloox = record {
  bare = λ jid. jid;
  server = λ jid. codes "gmail.com";
  resource = λ jid. jid;
  with_resource = λ jid r. r;
}

pub gloox-SetsResource : SetsResource gloox
gloox-SetsResource = record { server = λ jid r. refl; resource = λ jid r. refl }

abbrev pub listening_bot : Jbot
listening_bot = record (new_jbot (codes "me") (codes "pw") [] 0) { on_new_peer = true }

forced_jid-playdar_example :
    (((is_google gloox (codes "gmail.com") ≡ true)
        × (occurs (codes "playdar") (forced_jid gloox (codes "me")) ≡ true))
      ⊎ ((is_google gloox (codes "gmail.com") ≡ false)
          × (forced_jid gloox (codes "me") ≡ codes "me")))
    × (forced_jid gloox (forced_jid gloox (codes "me")) ≡ forced_jid gloox (codes "me"))
forced_jid-playdar_example = forced_jid-playdar gloox (codes "me") gloox-SetsResource

handle_roster_presence-cases_example :
    let out =
      handle_roster_presence gloox (codes "bob") (codes "playdar_1") available listening_bot in
    ((is_offline available ≡ true)
      × (out.1 ≡ [])
      × ((j : Str)
          → contains j out.0.peers
            ≡ (not (j == codes "playdar_1") && contains j listening_bot.peers)))
    ⊎ ((is_offline available ≡ false)
        × (contains (codes "bob") listening_bot.peers ≡ true)
        × (out ≡ (listening_bot, [])))
    ⊎ ((is_offline available ≡ false)
        × (contains (codes "bob") listening_bot.peers ≡ false)
        × ((j : Str)
            → contains j out.0.peers ≡ (
                (j == codes "playdar_1" && occurs (codes "playdar") (codes "playdar_1"))
                || contains j listening_bot.peers))
        × (out.1 ≡ (
            if occurs (codes "playdar") (codes "playdar_1")
              && not (contains (codes "playdar_1") listening_bot.peers)
              && listening_bot.on_new_peer
            then new_peer (codes "playdar_1") ∷ get_disco_info (codes "playdar_1") ∷ []
            else get_disco_info (codes "playdar_1") ∷ [])))
handle_roster_presence-cases_example =
    handle_roster_presence-cases gloox (codes "bob") (codes "playdar_1") available listening_bot
      gloox-SetsResource

-- A peer comes, is asked for, leaves, and comes again.
abbrev comings : List Event
comings =
    presence (codes "bob") (codes "r") available
    ∷ disco (codes "r") true
    ∷ disco (codes "r") true
    ∷ presence (codes "bob") (codes "r") unavailable
    ∷ disco (codes "r") true
    ∷ []

announcements-departures_example :
    one_if (contains (codes "r") listening_bot.peers)
      + count (codes "r") (announcements gloox comings listening_bot)
    ≡ one_if (contains (codes "r") (finish gloox comings listening_bot).peers)
      + departures gloox (codes "r") comings listening_bot
unfolding new_jbot
announcements-departures_example =
    announcements-departures gloox (codes "r") comings listening_bot refl
