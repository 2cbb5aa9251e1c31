-- ===== src/Tests/Meetings.antt =====
-- Two plugins that find each other, at concrete states.
use greynet.Base.{
  Str, codes, ◌≡◌, refl, true, none, some, [], arith, ◌==◌, nat_eq, str_eq, if◌then◌else◌, contains,
  occurs,
}
use greynet.Base.Dict.{lookup, insert}
use greynet.Json.{obj}
use greynet.Messages.{ident_message}
use greynet.Platform.{Env, State, ok}
use greynet.Handshake.{advertisement, ident_object}
use greynet.Handshake.Exchange.{props_of}
use greynet.Jbot.{Jbot, new_jbot, available, is_offline}
use greynet.Discovery.{discover}
use greynet.Discovery.Meet.{ReadsIdents, plain, joined, admitted}
use greynet.Discovery.Advert.{told_them, dialling, discover_lem}
use greynet.Tests.Libraries.{libraries, prop_of-set_prop}
use greynet.Tests.Streams.{idle}
use greynet.Tests.Peers.{gloox, gloox-SetsResource}

abbrev their_jid : Str
their_jid = codes "playdar_bob"

-- Our libraries read their IDENT, and theirs our advertisement and our IDENT.
abbrev ours : Env
ours = record libraries {
  write = λ o. codes "plain";
  read = λ text. some (obj (ident_object their_jid (codes "uuid")));
}

abbrev theirs : Env
theirs = record libraries {
  conn_get =
      λ log c k. elim (lookup k (props_of (codes "uuid") (codes "me"))) [ none ↦ [] | some v ↦ v ];
  read = λ text. some (
      obj (
        if text == codes "advert"
        then advertisement (codes "1.2.3.4") 60211 (codes "uuid")
        else plain libraries (codes "me")));
}

abbrev our_bot : Jbot
our_bot = record (new_jbot (codes "me") (codes "pw") [] 0) { on_new_peer = true }

abbrev their_bot : Jbot
their_bot = record (new_jbot their_jid (codes "pw") [] 0) { on_message = true }

abbrev their_state : State
their_state = record idle { jbot_jid = some their_jid }

ours-ReadsIdents : ReadsIdents ours
unfolding ident_message
ours-ReadsIdents = record { types = λ body guid. refl; payloads = λ body guid. refl }

theirs-ReadsIdents : ReadsIdents theirs
unfolding ident_message
theirs-ReadsIdents = record { types = λ body guid. refl; payloads = λ body guid. refl }

discover_lem_example :
    discover ours theirs gloox
      (codes "bob")
      their_jid
      available
      our_bot
      their_bot
      1
      5
      idle
      their_state
    ≡ ok (
      joined ours 1 (codes "me") their_jid (told_them ours theirs their_jid idle),
      admitted theirs 5 their_jid
          (codes "me")
          (dialling ours theirs 7 (codes "me") idle their_state),
    )
unfolding new_jbot is_offline contains occurs lookup insert nat_eq str_eq
discover_lem_example =
    discover_lem ours theirs gloox (codes "bob") their_jid available our_bot their_bot 1 5 7 idle
      their_state gloox-SetsResource refl refl refl refl refl refl refl refl refl (λ e. cc)
      (λ e. cc) refl (omega arith) refl (λ e. cc) (λ e. cc) ours-ReadsIdents theirs-ReadsIdents
      prop_of-set_prop (record { parses = refl; finds = λ key. refl }) (λ k v h. ground arith)
      (record { parses = refl; finds = λ key. refl })
      (record { parses = refl; finds = λ key. refl }) refl refl
