-- ===== src/Jbot/Google.antt =====
-- The workaround for Google's servers (src/jbot.cpp): a bot forces `playdar` into its resource, and
-- takes others with that in theirs for playdar.
use greynet.Base.{
  Bool-cases, ◌⊎◌, inl, inr, Str, codes, ◌≡◌, refl, true, false, [], ◌∷◌, ◌++◌, arith, nat_eq,
  str_eq, if◌then◌else◌, contains, occurs,
}
use greynet.Base.Sets.{set_insert}
use greynet.Jbot.{
  Gloox, Presence, Jbot, new_peer, get_disco_info, add_peer, is_offline, is_google, forced_jid,
  guess_capable, handle_roster_presence,
}

-- `setResource` changes the resource alone.
pub record SetsResource (g : Gloox) : Type 0 where
  pub server : (jid r : Str) → g.server (g.with_resource jid r) ≡ g.server jid
  pub resource : (jid r : Str) → g.resource (g.with_resource jid r) ≡ r

prefixed : (r : Str) → occurs (codes "playdar") (codes "playdar_" ++ r) ≡ true
unfolding occurs nat_eq
prefixed r = refl

module _ (g : Gloox) where
  -- Where `setResource` changes the resource alone: on a Google server the jid of a bot that starts
  -- has `playdar` in its resource; on any other it is as configured. A second start changes nothing.
  pub forced_jid-playdar :
      (jid : Str)
      → SetsResource g
      → (((is_google g (g.server jid) ≡ true)
            × (occurs (codes "playdar") (g.resource (forced_jid g jid)) ≡ true))
          ⊎ ((is_google g (g.server jid) ≡ false) × (forced_jid g jid ≡ jid)))
        × (forced_jid g (forced_jid g jid) ≡ forced_jid g jid)
  unfolding forced_jid
  forced_jid-playdar jid law =
      let r = codes "playdar_" ++ g.resource jid in
      let a = law.server jid r in
      let b = law.resource jid r in
      let c = prefixed (g.resource jid) in
      elim (Bool-cases (is_google g (g.server jid))) [
        | inl h ↦ (inl (h, ground arith), ground arith)
        | inr h ↦ (inr (h, ground arith), ground arith)
      ]

  -- Where `setResource` changes the resource alone: a presence that is not offline, of an item that
  -- is no known peer, with a resource that has `playdar` in it, makes the jid a peer, calls the
  -- callback if it was none before, and asks disco all the same.
  pub handle_roster_presence_guess :
      (item resource : Str) (p : Presence) (b : Jbot)
      → SetsResource g
      → b.on_new_peer ≡ true
      → is_offline p ≡ false
      → contains item b.peers ≡ false
      → occurs (codes "playdar") resource ≡ true
      → let jid = g.with_resource item resource in
        handle_roster_presence g item resource p b ≡ (
          if contains jid b.peers then (b, get_disco_info jid ∷ []) else (
            record b { peers = set_insert jid b.peers },
            new_peer jid ∷ get_disco_info jid ∷ [],
          ))
  unfolding handle_roster_presence guess_capable add_peer
  handle_roster_presence_guess item resource p b law n o k h =
      let e = law.resource item resource in ground arith
