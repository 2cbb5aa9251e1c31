-- ===== src/Startup/Shutdown.antt =====
-- The destructor (src/greynet.cpp) and what init started.
use greynet.Base.{
  ℕ, suc, Str, codes, ◌≡◌, ◌≢◌, refl, ap, ◌⊎◌, inl, inr, true, ◌||◌, none, List, [], ◌∷◌, ◌++◌, ◌^◌,
  arith, ◌==◌, nat_eq, str_eq, Bool-cases, ◌&&◌, not, Bool, some, false, if◌then◌else◌,
}
use greynet.Base.Int.{pos, to_unsigned}
use greynet.Platform.{ok, fault, dangling_pointer}
use greynet.Jbot.{Gloox}
use greynet.Jbot.Client.{Session, Recv, unset, new_session, request, dereference, needs_client}
use greynet.Jbot.Client.Ends.{any_failed, start-cases}
use greynet.Jbot
use greynet.Startup.{
  Site, Plugin, Step, add_forward, remove_forward, run_bot, join_bot, detect_ip, jabber_start, init,
  new_plugin, shutdown, listen, run_router, run_io_service, note, stop_jbot, run_jbot, stop_router,
  stop_io_service, join_threads, stop_bot,
}

-- The ports of the forwards that are asked for, and of those that are removed.
abbrev pub forwards : List Step → List ℕ
forwards [] = []
forwards (add_forward port ∷ steps) = port ∷ forwards steps
forwards (_ ∷ steps) = forwards steps

abbrev pub removals : List Step → List ℕ
removals [] = []
removals (remove_forward port ∷ steps) = port ∷ removals steps
removals (_ ∷ steps) = removals steps

-- How many threads of the bot are started, and how many are waited for.
abbrev pub bots_run : List Step → ℕ
bots_run [] = 0
bots_run (run_bot level ∷ steps) = suc (bots_run steps)
bots_run (_ ∷ steps) = bots_run steps

abbrev pub bots_joined : List Step → ℕ
bots_joined [] = 0
bots_joined (join_bot ∷ steps) = suc (bots_joined steps)
bots_joined (_ ∷ steps) = bots_joined steps

forwards-run_bot :
    (steps : List Step) (level : Str) → forwards (steps ++ run_bot level ∷ []) ≡ forwards steps
forwards-run_bot [] level = refl
forwards-run_bot (add_forward port ∷ steps) level = ap (◌∷◌ port) (forwards-run_bot steps level)
forwards-run_bot (_ ∷ steps) level = forwards-run_bot steps level

bots_run-run_bot :
    (steps : List Step) (level : Str)
    → bots_run (steps ++ run_bot level ∷ []) ≡ suc (bots_run steps)
bots_run-run_bot [] level = refl
bots_run-run_bot (run_bot l ∷ steps) level = ap suc (bots_run-run_bot steps level)
bots_run-run_bot (_ ∷ steps) level = bots_run-run_bot steps level

-- The plugin that init gives to detect_ip.
abbrev listening : ℕ → Plugin
listening port =
    note (listen port ∷ run_router ∷ run_io_service ∷ []) (record new_plugin { port = port })

-- A forward is asked for once at most, and then `m_pf` is set; a bot that is set was given one thread,
-- which has not begun.
record Owes (p : Plugin) : Type 0 where
  forward : (forwards p.steps ≡ []) ⊎ ((forwards p.steps ≡ p.port ∷ []) × (p.pf ≡ true))
  bot :
      ((p.jbot ≡ none) × (bots_run p.steps ≡ 0))
      ⊎ ((b : Session) × (p.jbot ≡ some b) × (b.client ≡ unset) × (bots_run p.steps ≡ 1))

module _ (site : Site) where
  detect_ip-Owes : (port : ℕ) → Owes (detect_ip site (listening port))
  unfolding detect_ip
  detect_ip-Owes port =
      elim (str_eq.dec (site.get (codes "plugins.greynet.connection") (codes "nat"))
        (codes "nat")) [
          | no n ↦ record { forward = inl (ground arith); bot = inl (ground arith, ground arith) }
          | yes e ↦ elim (str_eq.dec (site.get (codes "plugins.greynet.ip") site.external_ip) []) [
            | yes k ↦ record {
              forward = inl (ground arith);
              bot = inl (ground arith, ground arith);
            }
            | no k ↦ elim (Bool-cases site.found_router) [
              | inr f ↦ record {
                forward = inl (ground arith);
                bot = inl (ground arith, ground arith);
              }
              | inl f ↦ record {
                forward = inr (ground arith, ground arith);
                bot = inl (ground arith, ground arith);
              }
            ]
          ]
        ]

  detect_ip-jbot : (p : Plugin) → (detect_ip site p).jbot ≡ p.jbot
  unfolding detect_ip
  detect_ip-jbot p = ground arith

  jabber_start-Owes :
      (jid pass server : Str) (port : ℕ) (p : Plugin)
      → p.jbot ≡ none
      → Owes p
      → Owes (jabber_start site jid pass server port p)
  unfolding jabber_start new_session
  jabber_start-Owes jid pass server port p n o =
      let level = site.get (codes "plugins.greynet.loglevel") (codes "error") in
      let k = o.forward in
      let m = o.bot in
      elim (Bool-cases (jid == [] || pass == [])) [
        | inl e ↦ rw e o
        | inr e ↦ record {
          forward = rw e (ground (arith, forwards-run_bot p.steps level));
          bot = rw e (inr (_, refl, refl, ground (arith, bots_run-run_bot p.steps level)));
        }
      ]

  init-Owes : Owes (init site new_plugin)
  unfolding init
  init-Owes =
      let port = to_unsigned (2 ^ 16) (site.get_int (codes "plugins.greynet.port") (pos 60211)) in
      jabber_start-Owes (site.get (codes "plugins.greynet.jabber.jid") [])
        (site.get (codes "plugins.greynet.jabber.password") [])
        (site.get (codes "plugins.greynet.jabber.server") [])
        (to_unsigned (2 ^ 16) (site.get_int (codes "plugins.greynet.jabber.port") (pos 5222)))
        (detect_ip site (listening port)) (detect_ip-jbot (listening port)) (detect_ip-Owes port)

-- The destructor runs through: a forward that the first plugin asked for is removed, and the threads of
-- the bot that it started are waited for.
abbrev pub Cleans : Plugin → Plugin → Type 0
Cleans p q =
    (steps : List Step) × (shutdown q ≡ ok steps)
    × ((forwards p.steps ≡ []) ⊎ (forwards p.steps ≡ removals steps))
    × (bots_run p.steps ≡ bots_joined steps)

shutdown-no_bot : (p : Plugin) → Owes p → p.jbot ≡ none → Cleans p p
unfolding shutdown stop_jbot
shutdown-no_bot p o e =
    let k = o.forward in
    let m = o.bot in
    let steps : List Step =
      stop_router
      ∷ stop_io_service
      ∷ join_threads
      ∷ (if p.pf then remove_forward p.port ∷ [] else []) in
    (steps, rw e, ground arith, ground arith)

shutdown-stopped :
    (p : Plugin) (b t u : Session)
    → Owes p
    → p.jbot ≡ some b
    → Jbot.Client.stop t ≡ ok u
    → Cleans p (record p { jbot = some t })
unfolding shutdown stop_jbot
shutdown-stopped p b t u o e h =
    let k = o.forward in
    let m = o.bot in
    let steps : List Step =
      stop_router
      ∷ stop_io_service
      ∷ join_threads
      ∷ stop_bot
      ∷ join_bot
      ∷ (if p.pf then remove_forward p.port ∷ [] else []) in
    (steps, rw h, ground arith, ground arith)

shutdown-dangling :
    (p : Plugin) (b : Session)
    → p.jbot ≡ some b
    → Jbot.Client.stop b ≡ fault dangling_pointer
    → shutdown p ≡ fault dangling_pointer
unfolding shutdown stop_jbot
shutdown-dangling p b e h = rw (e, h)

stop-unset : (b : Session) → b.client ≡ unset → Jbot.Client.stop b ≡ fault dangling_pointer
unfolding Jbot.Client.stop request dereference needs_client Jbot.stop
stop-unset b h = rw h

module _ (site : Site) (g : Gloox) where
  -- The destructor after init and after what the bot's thread has done until then. Without a bot, or
  -- with one that has connected and still receives, the destructor runs through: if init asked for a
  -- port forward, it removes just that one, and it waits for the bot's thread exactly if init started
  -- one. With a bot that could not connect or whose receiving has failed, and with one whose thread has
  -- not begun, stop() goes through a pointer that dangles.
  pub init-shutdown :
      (connects : Bool) (rs : List Recv)
      → let p = init site new_plugin in
        (q : Plugin) × (run_jbot site g connects rs p ≡ ok q)
        × (((p.jbot ≡ none) × Cleans p q)
            ⊎ ((p.jbot ≢ none)
                × ((connects && not (any_failed rs)) ≡ true)
                × Cleans p q
                × (shutdown p ≡ fault dangling_pointer))
            ⊎ ((p.jbot ≢ none)
                × ((connects && not (any_failed rs)) ≡ false)
                × (shutdown q ≡ fault dangling_pointer)
                × (shutdown p ≡ fault dangling_pointer)))
  unfolding run_jbot
  init-shutdown connects rs =
      let p = init site new_plugin in
      let o = init-Owes site in
      let level = site.get (codes "plugins.greynet.loglevel") (codes "error") in
      elim (o.bot) [
        | inl (e, zero) ↦ (p, rw e, inl (e, shutdown-no_bot p o e))
        | inr (b, e, new, one) ↦
            let (t, run, ends) = start-cases g level connects rs b in
            let q : Plugin = record p { jbot = some t } in
            let early = shutdown-dangling p b e (stop-unset b new) in
            (
              q,
              rw (e, run),
              elim ends [
                | inl (k, serves) ↦
                    inr (inl (λ h. cc, k, shutdown-stopped p b t _ o e serves.0, early))
                | inr (k, dangles) ↦
                    inr (inr (λ h. cc, k, shutdown-dangling q t refl dangles.0, early))
              ],
            )
      ]
