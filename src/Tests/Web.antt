-- ===== src/Tests/Web.antt =====
-- The web interface and the roster, at concrete states.
use greynet.Base.{
  Str, codes, ◌≡◌, refl, ◌⊎◌, Bool, true, false, Option, none, some, List, [], ◌∷◌, ◌++◌, map,
  str_eq, nat_eq, ◌==◌, if◌then◌else◌, suc, ◌≢◌,
}
use greynet.Base.Int.{pos}
use greynet.Json.{arr, Values, get_obj, get_str, push_back, member_of}
use greynet.Base.Dict.{lookup}
use greynet.Platform.{
  Env, State, Call, Log, ok, fault, null_pointer, uncaught_exception, ◌>>=◌, dangling_pointer,
}
use greynet.Handshake.{expect_ident, find_str, read_object, ident_object}
use greynet.Handshake.Ident.{IsIdent}
use greynet.Jbot.{available, away}
use greynet.Jbot.Client.{Session, live}
use greynet.Jbot.Roster.{Contact, get_roster}
use greynet.Jbot.Roster.Reads.{Replaces, see_roster, actual, mutual_contacts, see_roster-get_roster}
use greynet.Web.{Request, Form, read_form, anon_http_handler, authed_http_handler, asks_roster}
use greynet.Web.Token.{connects, Admitted, anon_http_handler-cases}
use greynet.Web.Page.{Within, ListsNames, expect_ident-anon_http_handler}
use greynet.Web.Json.{authed_http_handler-see_roster}
use greynet.Tests.Libraries.{libraries, read_text}
use greynet.Tests.Streams.{idle}
use greynet.Tests.Peers.{from_bob, inviting, bob, gloox, listening_bot}

-- The names that connections were given, the last first.
unfoldable names_of : Log → List Str
names_of [] = []
names_of (Call.set_name c name ∷ log) = name ∷ names_of log
names_of (_ ∷ log) = names_of log

-- A contact with two resources, and one who has not accepted us.
abbrev roster : List Contact
roster =
    record {
      jid = codes "bob";
      name = codes "Bob";
      online = true;
      both = true;
      resources =
          record {
            name = codes "r";
            priority = pos 1;
            message = [];
            presence = available;
            extensions = [];
          }
          ∷ record {
            name = codes "home";
            priority = pos 0;
            message = codes "gone";
            presence = away;
            extensions = codes "<x/>" ∷ [];
          }
          ∷ [];
    }
    ∷ record { jid = codes "eve"; name = []; online = false; both = false; resources = [] }
    ∷ []

abbrev is_bob : Str → Bool
is_bob name = name == codes "bob"

gloox-Replaces : Replaces gloox
gloox-Replaces = record { last = λ jid a b. refl }

see_roster-get_roster_example :
    see_roster (get_roster gloox is_bob listening_bot roster)
    ≡ map (actual gloox is_bob listening_bot) (mutual_contacts roster)
see_roster-get_roster_example =
    see_roster-get_roster gloox is_bob listening_bot roster gloox-Replaces

-- Libraries with the router's list of names, and whose array text reads as the roster's.
abbrev listing : Env
listing = record libraries {
  connected_names = names_of;
  read = λ text.
      if text == codes "array"
      then some (arr (get_roster gloox is_bob listening_bot roster))
      else read_text text;
}

listing-ListsNames : ListsNames listing
unfolding names_of
listing-ListsNames = record { lists = λ c name log. ([], names_of log, refl) }

-- A form, and a path that asks for the roster.
abbrev form_variable : Str → Option Str
form_variable key =
    if key == codes "formtoken"
    then some (codes "uuid")
    else if key == codes "newaddr"
    then some (codes "1.2.3.4")
    else if key == codes "newport"
    then some (codes "60211")
    else none

abbrev plain_request : Request
plain_request = record {
  postvar = λ key. none;
  getvar = λ key. none;
  parts = codes "greynet" ∷ codes "get_roster" ∷ [];
}

abbrev form_request : Request
form_request = record plain_request { postvar = form_variable }

anon_http_handler-cases_example :
    ((html : Str) × (t : State) × (anon_http_handler libraries form_request idle ≡ ok (html, t))
      × (connects t.log ≡ connects idle.log)
      × ((form : Form) → ¬ Admitted libraries form_request form idle))
    ⊎ ((form : Form) × Admitted libraries form_request form idle
        × (((html : Str) × (t : State) × (anon_http_handler libraries form_request idle
                ≡ ok (html, t))
              × (connects t.log ≡ suc (connects idle.log)))
            ⊎ ((anon_http_handler libraries form_request idle ≡ fault uncaught_exception)
                × ((libraries.parse_port form.port ≡ none)
                    ⊎ (libraries.parse_ipv4 form.addr ≡ none)))))
anon_http_handler-cases_example = anon_http_handler-cases libraries form_request idle

from_bob-listed : IsIdent listing from_bob true inviting bob (codes "bob")
unfolding read_object find_str get_obj get_str lookup read_text member_of push_back ident_object
    nat_eq str_eq
from_bob-listed = record {
  typed = refl;
  parsed = refl;
  named = refl;
  fresh = refl;
  invited = λ _. (codes "uuid", codes "bob", refl, (λ e. cc), refl);
}

expect_ident-anon_http_handler_example :
    (html : Str) × (u : State) × ((expect_ident listing from_bob 1 true inviting >>= λ t.
    anon_http_handler listing plain_request t)
      ≡ ok (html, u))
    × Within (codes "<tr><td>" ++ (codes "bob" ++ codes "</td><td>todo</td></tr>")) html
unfolding read_form
expect_ident-anon_http_handler_example =
    expect_ident-anon_http_handler listing from_bob 1 inviting bob (codes "bob") (codes "me")
      plain_request from_bob-listed refl listing-ListsNames refl refl

-- The listening bot with its client.
abbrev online_bot : Session
online_bot = record { bot = listening_bot; client = live; effects = [] }

authed_http_handler-see_roster_example :
    ((asks_roster plain_request.parts ≡ true)
      × (authed_http_handler listing gloox is_bob roster none plain_request ≡ fault null_pointer)
      × (((online_bot.client ≡ live)
            × ((text : Str) × (a : Values) × (authed_http_handler listing gloox is_bob roster
                    (some online_bot)
                    plain_request
                  ≡ ok (some text))
                × (listing.read text ≡ some (arr a))
                × (see_roster a
                    ≡ map (actual gloox is_bob online_bot.bot) (mutual_contacts roster))))
          ⊎ ((online_bot.client ≢ live)
              × (authed_http_handler listing gloox is_bob roster (some online_bot) plain_request
                  ≡ fault dangling_pointer))))
    ⊎ ((asks_roster plain_request.parts ≡ false)
        × (authed_http_handler listing gloox is_bob roster none plain_request ≡ ok none)
        × (authed_http_handler listing gloox is_bob roster (some online_bot) plain_request
            ≡ ok none))
unfolding str_eq
authed_http_handler-see_roster_example =
    authed_http_handler-see_roster listing gloox is_bob roster online_bot plain_request refl
      gloox-Replaces refl
