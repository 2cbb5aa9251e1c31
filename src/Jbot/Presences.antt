-- ===== src/Jbot/Presences.antt =====
-- handleRosterPresence (src/jbot.cpp) on every presence.
use greynet.Base.{
  Str, codes, ◌≡◌, ◌⊎◌, inl, inr, true, false, not, ◌&&◌, ◌||◌, [], ◌∷◌, arith, ◌==◌, nat_eq,
  str_eq, if◌then◌else◌, contains, occurs, Bool-cases,
}
use greynet.Base.Sets.{contains-set_insert, contains-set_erase}
use greynet.Jbot.{
  Gloox, Presence, Jbot, new_peer, get_disco_info, is_offline, add_peer, guess_capable,
  handle_roster_presence,
}
use greynet.Jbot.Google.{SetsResource}

module _ (g : Gloox) where
  offline_lem :
      (item resource : Str) (p : Presence) (b : Jbot) (j : Str)
      → is_offline p ≡ true
      → let jid = g.with_resource item resource in
        contains j (handle_roster_presence g item resource p b).0.peers
        ≡ (not (j == jid) && contains j b.peers)
  unfolding handle_roster_presence
  offline_lem item resource p b j h =
      ground (arith, contains-set_erase j (g.with_resource item resource) b.peers)

  guessed_lem :
      (item resource : Str) (p : Presence) (b : Jbot) (j : Str)
      → SetsResource g
      → is_offline p ≡ false
      → contains item b.peers ≡ false
      → let jid = g.with_resource item resource in
        contains j (handle_roster_presence g item resource p b).0.peers
        ≡ ((j == jid && occurs (codes "playdar") resource) || contains j b.peers)
  unfolding handle_roster_presence guess_capable add_peer
  guessed_lem item resource p b j law h k =
      let e = law.resource item resource in
      ground (arith, contains-set_insert j (g.with_resource item resource) b.peers)

  -- Where `setResource` changes the resource alone, every presence goes one of three ways. If it is
  -- offline, just the jid with its resource leaves the peers, and nothing is asked. If it is not, and
  -- the item's own jid is a peer, nothing happens. Otherwise just the jid with its resource joins the
  -- peers, and only if the resource has `playdar` in it; the callback, if it is set, is called if the
  -- jid joined; and then disco is asked, be it a peer already or not.
  pub handle_roster_presence-cases :
      (item resource : Str) (p : Presence) (b : Jbot)
      → SetsResource g
      → let jid = g.with_resource item resource in
        let out = handle_roster_presence g item resource p b in
        ((is_offline p ≡ true)
          × (out.1 ≡ [])
          × ((j : Str) → contains j out.0.peers ≡ (not (j == jid) && contains j b.peers)))
        ⊎ ((is_offline p ≡ false) × (contains item b.peers ≡ true) × (out ≡ (b, [])))
        ⊎ ((is_offline p ≡ false)
            × (contains item b.peers ≡ false)
            × ((j : Str)
                → contains j out.0.peers
                  ≡ ((j == jid && occurs (codes "playdar") resource) || contains j b.peers))
            × (out.1 ≡ (
                if occurs (codes "playdar") resource && not (contains jid b.peers) && b.on_new_peer
                then new_peer jid ∷ get_disco_info jid ∷ []
                else get_disco_info jid ∷ [])))
  unfolding handle_roster_presence guess_capable add_peer
  handle_roster_presence-cases item resource p b law =
      let e = law.resource item resource in
      elim (Bool-cases (is_offline p)) [
        | inl h ↦ inl (h, ground arith, λ j. offline_lem item resource p b j h)
        | inr h ↦ elim (Bool-cases (contains item b.peers)) [
          | inl k ↦ inr (inl (h, k, ground arith))
          | inr k ↦ inr (inr (h, k, λ j. guessed_lem item resource p b j law h k, ground arith))
        ]
      ]
