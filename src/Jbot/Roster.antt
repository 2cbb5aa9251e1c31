-- ===== src/Jbot/Roster.antt =====
-- src/jbot.cpp, get_roster: the roster as JSON, with the peers that are known to run playdar.
pub mod Reads
use greynet.Base.{Str, codes, Bool, true, false, List, [], ◌∷◌, str_eq, contains}
use greynet.Base.Int.{ℤ}
use greynet.Json.{Value, obj, arr, str, int, bool, Members, end, Values, nil, cons, push_back}
use greynet.Jbot.{
  Gloox, Jbot, Presence, available, chat, away, dnd, xa, unavailable, probe, error, invalid,
}

-- gloox's `Resource`, with its key in the map of its roster item.
pub record Resource : Type 0 where
  pub name : Str
  pub priority : ℤ
  pub message : Str
  pub presence : Presence
  -- the XML of each of its extensions
  pub extensions : List Str

-- gloox's `RosterItem`, with its key in the roster.
pub record Contact : Type 0 where
  pub jid : Str
  pub name : Str
  pub online : Bool
  -- `subscription() == S10nBoth`
  pub both : Bool
  pub resources : List Resource

-- `m_presences`, which the constructor fills for every type of presence.
unfoldable pub presence_name : Presence → Str
presence_name available = codes "available"
presence_name chat = codes "chat"
presence_name away = codes "away"
presence_name dnd = codes "dnd"
presence_name xa = codes "xa"
presence_name unavailable = codes "unavailable"
presence_name probe = codes "probe"
presence_name Presence.error = codes "error"
presence_name invalid = codes "invalid"

unfoldable pub extension_array : List Str → Values
extension_array [] = nil
extension_array (xml ∷ rest) = cons (str xml) (extension_array rest)

-- `connected` says whether the router has a connection of that name.
module _ (g : Gloox) (connected : Str → Bool) (b : Jbot) where
  -- The object of a resource, whose full jid is `jid`.
  unfoldable pub resource_object : Str → Resource → Members
  unfolding push_back presence_name
  resource_object jid r =
      let o = push_back end (codes "jid_full") (str jid) in
      let o = push_back o (codes "playdar-capable") (bool (contains jid b.peers)) in
      let o = push_back o (codes "playdar-connected") (bool (connected jid)) in
      let o = push_back o (codes "priority") (int r.priority) in
      let o = push_back o (codes "message") (str r.message) in
      let o = push_back o (codes "presence") (str (presence_name r.presence)) in
      push_back o (codes "extensions") (arr (extension_array r.extensions))

  -- The inner loop: one jid is set to each resource in turn.
  unfoldable pub add_resources : Str → List Resource → Members → Members
  unfolding push_back
  add_resources jid [] o = o
  add_resources jid (r ∷ rest) o =
      let full = g.with_resource jid r.name in
      add_resources full rest (push_back o r.name (obj (resource_object full r)))

  unfoldable pub contact_object : Contact → Members
  unfolding push_back add_resources
  contact_object c =
      let o = push_back end (codes "jid") (str c.jid) in
      let o = push_back o (codes "name") (str c.name) in
      let o = push_back o (codes "online") (bool c.online) in
      push_back o (codes "resources") (obj (add_resources c.jid c.resources end))

  unfoldable pub get_roster : List Contact → Values
  get_roster [] = nil
  get_roster (c ∷ roster) = elim c.both [
    | true ↦ cons (obj (contact_object c)) (get_roster roster)
    | false ↦ get_roster roster
  ]
