-- ===== src/Jbot/Roster/Reads.antt =====
-- What a reader of the JSON of get_roster (src/jbot.cpp) learns from it.
use greynet.Base.{
  Str, codes, ◌≡◌, refl, ◌∙◌, ap, sym, Bool, true, false, Option, none, some, List, [], ◌∷◌, ◌++◌,
  map, str_eq, contains, Bool-cases, inl, inr,
}
use mathlib.Core.List.{append_assoc, append-nil}
use greynet.Json.{
  Value, obj, str, bool, Members, end, member, Values, nil, cons, push_back, member_of,
}
use greynet.Jbot.{Gloox, Jbot}
use greynet.Jbot.Roster.{
  Resource, Contact, presence_name, resource_object, add_resources, contact_object, get_roster,
}

-- A resource as the reader sees it: its name, its full jid, the two flags and the presence.
pub record Seen : Type 0 where
  pub name : Str
  pub full : Option Value
  pub capable : Option Value
  pub connected : Option Value
  pub presence : Option Value

pub record SeenContact : Type 0 where
  pub jid : Option Value
  pub name : Option Value
  pub online : Option Value
  pub resources : List Seen

see_resource : Str → Value → Seen
see_resource key (obj o) = record {
  name = key;
  full = member_of o (codes "jid_full");
  capable = member_of o (codes "playdar-capable");
  connected = member_of o (codes "playdar-connected");
  presence = member_of o (codes "presence");
}
see_resource key _ = record {
  name = key;
  full = none;
  capable = none;
  connected = none;
  presence = none;
}

see_resources : Members → List Seen
see_resources end = []
see_resources (member key v rest) = see_resource key v ∷ see_resources rest

see_resources_value : Option Value → List Seen
see_resources_value (some (obj o)) = see_resources o
see_resources_value _ = []

see_contact : Value → SeenContact
see_contact (obj o) = record {
  jid = member_of o (codes "jid");
  name = member_of o (codes "name");
  online = member_of o (codes "online");
  resources = see_resources_value (member_of o (codes "resources"));
}
see_contact _ = record { jid = none; name = none; online = none; resources = [] }

-- The reader: each element of the array, in order.
pub see_roster : Values → List SeenContact
see_roster nil = []
see_roster (cons v rest) = see_contact v ∷ see_roster rest

-- `setResource` replaces an earlier resource.
pub record Replaces (g : Gloox) : Type 0 where
  pub last : (jid a b : Str) → g.with_resource (g.with_resource jid a) b ≡ g.with_resource jid b

abbrev pub mutual_contacts : List Contact → List Contact
mutual_contacts [] = []
mutual_contacts (c ∷ roster) = elim c.both [
  | true ↦ c ∷ mutual_contacts roster
  | false ↦ mutual_contacts roster
]

see_resources-push_back :
    (o : Members) (key : Str) (v : Value)
    → see_resources (push_back o key v) ≡ see_resources o ++ see_resource key v ∷ []
unfolding see_resources push_back
see_resources-push_back end key v = refl
see_resources-push_back (member k w rest) key v =
    ap (◌∷◌ (see_resource k w)) (see_resources-push_back rest key v)

module _ (g : Gloox) (connected : Str → Bool) (b : Jbot) where
  -- A resource as it is.
  abbrev pub actual_resource : Str → Resource → Seen
  actual_resource jid r =
      let full = g.with_resource jid r.name in
      record {
        name = r.name;
        full = some (str full);
        capable = some (bool (contains full b.peers));
        connected = some (bool (connected full));
        presence = some (str (presence_name r.presence));
      }

  abbrev pub actual : Contact → SeenContact
  actual c = record {
    jid = some (str c.jid);
    name = some (str c.name);
    online = some (bool c.online);
    resources = map (actual_resource c.jid) c.resources;
  }

  see_resource-resource_object :
      (jid : Str) (r : Resource)
      → see_resource r.name (obj (resource_object g connected b (g.with_resource jid r.name) r))
        ≡ actual_resource jid r
  unfolding see_resource resource_object member_of
  see_resource-resource_object jid r = refl

  -- `jid` is the contact's jid with any resource set, `base` the contact's jid.
  see_resources-add_resources :
      (base jid : Str) (rs : List Resource) (o : Members)
      → Replaces g
      → ((a : Str) → g.with_resource jid a ≡ g.with_resource base a)
      → see_resources (add_resources g connected b jid rs o)
        ≡ see_resources o ++ map (actual_resource base) rs
  unfolding add_resources
  see_resources-add_resources base jid [] o law same = sym (append-nil (see_resources o))
  see_resources-add_resources base jid (r ∷ rs) o law same =
      let full = g.with_resource jid r.name in
      let v : Value = obj (resource_object g connected b full r) in
      see_resources-add_resources base full rs (push_back o r.name v) law
        (λ a. law.last jid r.name a ∙ same a)
      ∙ ap (λ xs. xs ++ map (actual_resource base) rs)
          (see_resources-push_back o r.name v
            ∙ ap (λ x. see_resources o ++ x ∷ [])
                (see_resource-resource_object jid r ∙ rw (same r.name) refl))
      ∙ append_assoc (see_resources o) (actual_resource base r ∷ []) (map (actual_resource base) rs)

  contact_fields :
      (c : Contact)
      → let o = contact_object g connected b c in
        (member_of o (codes "jid") ≡ some (str c.jid))
        × (member_of o (codes "name") ≡ some (str c.name))
        × (member_of o (codes "online") ≡ some (bool c.online))
        × (member_of o (codes "resources")
            ≡ some (obj (add_resources g connected b c.jid c.resources end)))
  unfolding contact_object member_of
  contact_fields c = (refl, refl, refl, refl)

  see_contact-contact_object :
      (c : Contact) → Replaces g → see_contact (obj (contact_object g connected b c)) ≡ actual c
  unfolding see_contact see_resources_value
  see_contact-contact_object c law =
      let (j, n, on, rs) = contact_fields c in
      let seen = see_resources-add_resources c.jid c.jid c.resources end law (λ a. refl) in
      rw (j, n, on, rs)
        (unfold see_resources in
          (ap
            (λ (l : List Seen).
              let s : SeenContact = record {
                jid = some (str c.jid);
                name = some (str c.name);
                online = some (bool c.online);
                resources = l;
              } in
              s)
            seen))

  -- Where `setResource` replaces a resource that was set before: a reader of the roster's JSON sees
  -- just the contacts with a mutual subscription, in the roster's order, each with its jid, its name
  -- and whether it is online; and of each just its resources, in their order, each with its full jid,
  -- its presence, whether that jid is a known playdar peer, and whether we have a connection of that
  -- name.
  pub see_roster-get_roster :
      (roster : List Contact)
      → Replaces g
      → see_roster (get_roster g connected b roster) ≡ map actual (mutual_contacts roster)
  unfolding see_roster get_roster
  see_roster-get_roster [] law = refl
  see_roster-get_roster (c ∷ roster) law = elim (Bool-cases c.both) [
    | inl e ↦
        rw (e, get_roster, mutual_contacts)
          (rw (see_contact-contact_object c law)
            (ap (◌∷◌ (actual c)) (see_roster-get_roster roster law)))
    | inr e ↦ rw (e, get_roster, mutual_contacts) (see_roster-get_roster roster law)
  ]
