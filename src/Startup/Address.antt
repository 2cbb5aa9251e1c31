-- ===== src/Startup/Address.antt =====
-- The public address that init finds (src/greynet.cpp), and what jabber_new_peer makes of it.
use greynet.Base.{
  ℕ, Str, codes, ◌≡◌, ◌≢◌, refl, ◌⊎◌, inl, inr, true, some, [], ◌∷◌, ◌∙◌, ◌^◌, arith, nat_eq,
  str_eq, Bool-cases,
}
use greynet.Base.Int.{pos, to_unsigned}
use greynet.Platform.{Env, State, ok}
use greynet.Handshake.{jabber_new_peer}
use greynet.Startup.{
  Site, Plugin, note, listen, run_router, run_io_service, detect_ip, jabber_start, init, new_plugin,
}

-- That the plugin can be reached: it has an address, and behind a NAT router, which is the default,
-- the router forwards its port.
abbrev pub Reachable : Site → Plugin → Type 0
Reachable site p =
    (p.publicip ≢ [])
    × (site.get (codes "plugins.greynet.connection") (codes "nat") ≡ codes "nat"
        → (site.found_router ≡ true) × (site.added_forward p.port ≡ true))

module _ (site : Site) where
  detect_ip-cases :
      (p : Plugin)
      → p.publicip ≡ []
      → ((detect_ip site p).publicip ≡ []) ⊎ Reachable site (detect_ip site p)
  unfolding detect_ip
  detect_ip-cases p h =
      elim (str_eq.dec (site.get (codes "plugins.greynet.connection") (codes "nat"))
        (codes "nat")) [
          | yes e ↦ elim (str_eq.dec (site.get (codes "plugins.greynet.ip") site.external_ip) []) [
            | yes k ↦ inl (ground arith)
            | no k ↦ elim (Bool-cases site.found_router) [
              | inr f ↦ inl (ground arith)
              | inl f ↦ elim (Bool-cases (site.added_forward p.port)) [
                | inr a ↦ inl (ground arith)
                | inl a ↦ inr ((ground arith), λ _. (f, ground arith))
              ]
            ]
          ]
          | no n ↦ elim (str_eq.dec (site.get (codes "plugins.greynet.ip") []) []) [
            | yes k ↦ inl (ground arith)
            | no k ↦ inr (ground arith, λ e. absurd (n e))
          ]
        ]

  jabber_start-address :
      (jid pass server : Str) (port : ℕ) (p : Plugin)
      → ((jabber_start site jid pass server port p).publicip ≡ p.publicip)
        × ((jabber_start site jid pass server port p).port ≡ p.port)
  unfolding jabber_start
  jabber_start-address jid pass server port p = (ground arith, ground arith)

  init-address : ((init site new_plugin).publicip ≡ []) ⊎ Reachable site (init site new_plugin)
  unfolding init
  init-address =
      let port = to_unsigned (2 ^ 16) (site.get_int (codes "plugins.greynet.port") (pos 60211)) in
      let q : Plugin =
        note (listen port ∷ run_router ∷ run_io_service ∷ []) (record new_plugin { port = port }) in
      let k =
        jabber_start-address (site.get (codes "plugins.greynet.jabber.jid") [])
          (site.get (codes "plugins.greynet.jabber.password") [])
          (site.get (codes "plugins.greynet.jabber.server") [])
          (to_unsigned (2 ^ 16) (site.get_int (codes "plugins.greynet.jabber.port") (pos 5222)))
          (detect_ip site q) in
      elim (detect_ip-cases q refl) [
        | inl e ↦ inl (k.0 ∙ e)
        | inr (n, f) ↦ inr (rw (k.0) n, rw (k.1) f)
      ]

  -- A plugin with the address and port that init found either has a public address, and behind a NAT
  -- router, the default, the router was found and forwards the port; or it has none, and then it
  -- tells no peer how to connect: jabber_new_peer changes nothing and calls nothing.
  pub init-jabber_new_peer :
      (env : Env) (jid me : Str) (s : State)
      → s.publicip ≡ (init site new_plugin).publicip
      → s.jbot_jid ≡ some me
      → Reachable site (init site new_plugin)
        ⊎ (((init site new_plugin).publicip ≡ []) × (jabber_new_peer env jid s ≡ ok s))
  unfolding jabber_new_peer
  init-jabber_new_peer env jid me s same j = elim init-address [
    | inr r ↦ inl r
    | inl e ↦ inr (e, (let k : s.publicip ≡ [] = same ∙ e in ground arith))
  ]
