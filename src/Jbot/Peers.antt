-- ===== src/Jbot/Peers.antt =====
-- The set of playdar peers (src/jbot.cpp) and what the plugin is told of it.
use greynet.Base.{
  ℕ, ◌+◌, Str, ◌≡◌, refl, ap, Bool, true, not, ◌&&◌, List, [], ◌∷◌, ◌++◌, arith, ◌==◌, nat_eq,
  str_eq, if◌then◌else◌, contains,
}
use greynet.Base.Sets.{contains-set_insert, contains-set_erase}
use greynet.Jbot.{
  Gloox, Presence, Jbot, Effect, new_peer, add_peer, guess_capable, handle_disco_info,
  handle_roster_presence, get_disco_info,
}

-- The jids that `m_new_peer_cb` is called with.
abbrev pub announced : List Effect → List Str
announced [] = []
announced (new_peer jid ∷ effects) = jid ∷ announced effects
announced (_ ∷ effects) = announced effects

-- What happens to the peer set: presences of roster items, and answers to disco.
pub data Event : Type 0 where
  presence : Str → Str → Presence → Event
  disco : Str → Bool → Event

announced-append :
    (xs : List Effect) (jid : Str) → announced (xs ++ get_disco_info jid ∷ []) ≡ announced xs
announced-append [] jid = refl
announced-append (new_peer j ∷ xs) jid = ap (◌∷◌ j) (announced-append xs jid)
announced-append (_ ∷ xs) jid = announced-append xs jid

module _ (g : Gloox) where
  abbrev pub step : Event → Jbot → Jbot × List Effect
  step (presence item resource p) b = handle_roster_presence g item resource p b
  step (disco from capable) b = handle_disco_info from capable b

abbrev pub one_if : Bool → ℕ
one_if b = if b then 1 else 0

abbrev pub count : Str → List Str → ℕ
count jid [] = 0
count jid (x ∷ xs) = one_if (jid == x) + count jid xs

count-append : (jid : Str) (xs ys : List Str) → count jid (xs ++ ys) ≡ count jid xs + count jid ys
count-append jid [] ys = omega arith
count-append jid (x ∷ xs) ys = ground (arith, count-append jid xs ys)

-- Whether a jid comes into a set, or leaves it.
abbrev enters : Str → Jbot → Jbot → Bool
enters jid b b' = contains jid b'.peers && not (contains jid b.peers)

abbrev leaves : Str → Jbot → Jbot → Bool
leaves jid b b' = contains jid b.peers && not (contains jid b'.peers)

-- One step as the laws below see it: the callback stays set, and is called for just those who enter.
record Faithful (jid : Str) (b b' : Jbot) (told : List Str) : Type 0 where
  listening : b'.on_new_peer ≡ true
  tells : count jid told ≡ one_if (enters jid b b')

add_peer-Faithful :
    (jid peer : Str) (b : Jbot)
    → b.on_new_peer ≡ true
    → Faithful jid b (add_peer peer b).0 (announced (add_peer peer b).1)
unfolding add_peer
add_peer-Faithful jid peer b h = record {
  listening = ground arith;
  tells = ground (arith, contains-set_insert jid peer b.peers);
}

module _ (g : Gloox) where
  step-Faithful :
      (jid : Str) (e : Event) (b : Jbot)
      → b.on_new_peer ≡ true
      → Faithful jid b (step g e b).0 (announced (step g e b).1)
  unfolding handle_disco_info handle_roster_presence guess_capable
  step-Faithful jid (disco from capable) b h = record {
    listening = ground (arith, (add_peer-Faithful jid from b h).listening);
    tells = ground (arith, (add_peer-Faithful jid from b h).tells);
  }
  step-Faithful jid (presence item resource p) b h =
      let peer = g.with_resource item resource in
      let k = add_peer-Faithful jid peer b h in
      record {
        listening = ground (arith, k.listening);
        tells = ground (
          arith,
          k.tells,
          announced-append (add_peer peer b).1 peer,
          contains-set_erase jid peer b.peers,
        );
      }

  -- All announcements of a run, how often a jid leaves the set in it, and the bot at its end.
  abbrev pub announcements : List Event → Jbot → List Str
  announcements [] b = []
  announcements (e ∷ es) b = announced (step g e b).1 ++ announcements es (step g e b).0

  abbrev pub departures : Str → List Event → Jbot → ℕ
  departures jid [] b = 0
  departures jid (e ∷ es) b =
      one_if (leaves jid b (step g e b).0) + departures jid es (step g e b).0

  abbrev pub finish : List Event → Jbot → Jbot
  finish [] b = b
  finish (e ∷ es) b = finish es (step g e b).0

  -- Over any run of presences and disco answers, with the callback set: a jid was announced to the
  -- plugin exactly as often as it came into the set of peers, so that its announcements and whether
  -- it was in the set at first add up to its departures and whether it is in the set at the end.
  pub announcements-departures :
      (jid : Str) (es : List Event) (b : Jbot)
      → b.on_new_peer ≡ true
      → one_if (contains jid b.peers) + count jid (announcements es b)
        ≡ one_if (contains jid (finish es b).peers) + departures jid es b
  announcements-departures jid [] b h = refl
  announcements-departures jid (e ∷ es) b h =
      let k = step-Faithful jid e b h in
      ground (
        arith,
        k.tells,
        count-append jid (announced (step g e b).1) (announcements es (step g e b).0),
        announcements-departures jid es (step g e b).0 k.listening,
      )
