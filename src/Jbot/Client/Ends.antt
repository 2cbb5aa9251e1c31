-- ===== src/Jbot/Client/Ends.antt =====
-- The client of src/jbot.cpp while start() runs and after its end.
use greynet.Base.{
  Str, ◌≡◌, refl, ◌⊎◌, inl, inr, Bool, true, false, not, ◌&&◌, ◌||◌, List, [], ◌∷◌, ◌++◌,
  if◌then◌else◌, arith, Bool-cases,
}
use greynet.Platform.{Result, ok, fault, dangling_pointer}
use greynet.Jbot.{Gloox, Jbot, Effect}
use greynet.Jbot
use greynet.Jbot.Roster.{Contact}
use greynet.Jbot.Roster
use greynet.Jbot.Client.{
  live, deleted, Callback, connected, tls_connected, message, roster_presence, self_presence,
  disco_info, subscription_request, Recv, Session, dereference, request, call_back, recv, recv_loop,
  start, needs_client, stop, send_to, get_roster, disconnected,
}

-- Whether a `recv` returned an error.
abbrev pub any_failed : List Recv → Bool
any_failed [] = false
any_failed (r ∷ rs) = r.failed || any_failed rs

-- A call that returns, and leaves a live client.
abbrev StaysLive : Result Session → Type 0
StaysLive q = (t : Session) × (q ≡ ok t) × (t.client ≡ live)

dereference-live : (s : Session) → s.client ≡ live → dereference s ≡ ok s
unfolding dereference
dereference-live s h = rw h

request-live :
    (effects : List Effect) (s : Session)
    → s.client ≡ live
    → request effects s ≡ ok (record s { effects = s.effects ++ effects })
unfolding request
request-live effects s h = ground (arith, dereference-live s h)

request-StaysLive :
    (effects : List Effect) (s : Session) → s.client ≡ live → StaysLive (request effects s)
request-StaysLive effects s h =
    (record s { effects = s.effects ++ effects }, request-live effects s h, h)

module _ (g : Gloox) where
  call_back-StaysLive : (c : Callback) (s : Session) → s.client ≡ live → StaysLive (call_back g c s)
  unfolding call_back
  call_back-StaysLive (connected resource) s h =
      (record s { bot = Jbot.on_connect g resource s.bot }, rw (dereference-live s h), h)
  call_back-StaysLive (tls_connected resource) s h =
      (record s { bot = Jbot.on_tls_connect g resource s.bot }, rw (dereference-live s h), h)
  call_back-StaysLive (disconnected true) s h = (s, dereference-live s h, h)
  call_back-StaysLive (disconnected false) s h = (s, refl, h)
  call_back-StaysLive (message from body) s h = request-StaysLive _ s h
  call_back-StaysLive (roster_presence item resource p) s h =
      request-StaysLive _ (record s { bot = _ }) h
  call_back-StaysLive (self_presence item resource p) s h =
      request-StaysLive _ (record s { bot = _ }) h
  call_back-StaysLive (disco_info from capable) s h = request-StaysLive _ (record s { bot = _ }) h
  call_back-StaysLive (subscription_request jid) s h = request-StaysLive _ s h

  recv-StaysLive : (cs : List Callback) (s : Session) → s.client ≡ live → StaysLive (recv g cs s)
  unfolding recv
  recv-StaysLive [] s h = (s, refl, h)
  recv-StaysLive (c ∷ cs) s h =
      let (t, run, k) = call_back-StaysLive c s h in
      let (u, rest, l) = recv-StaysLive cs t k in (u, rw (run, rest), l)

  recv_loop-client :
      (rs : List Recv) (s : Session)
      → s.client ≡ live
      → (t : Session) × (recv_loop g rs s ≡ ok t)
        × (t.client ≡ (if any_failed rs then deleted else live))
  unfolding recv_loop
  recv_loop-client [] s h = (s, refl, h)
  recv_loop-client (r ∷ rs) s h =
      let (t, run, k) = recv-StaysLive r.callbacks s h in
      let (u, rest, l) = recv_loop-client rs t k in
      elim (Bool-cases r.failed) [
        | inl f ↦ (record t { client = deleted }, ground arith, ground arith)
        | inr f ↦ (u, ground arith, ground arith)
      ]

  start-client :
      (loglevel : Str) (connects : Bool) (rs : List Recv) (s : Session)
      → (t : Session) × (start g loglevel connects rs s ≡ ok t)
        × (t.client ≡ (if connects && not (any_failed rs) then live else deleted))
  unfolding start
  start-client loglevel true rs s =
      let (b, effects) = Jbot.start g loglevel s.bot in
      let (t, run, h) =
        recv_loop-client rs (record s { bot = b; client = live; effects = s.effects ++ effects })
          refl in
      (t, run, ground arith)
  start-client loglevel false rs s = (_, refl, refl)

  -- What the members that use the client do with one that is there, and with one that is deleted.
  abbrev pub Serves : Session → Type 0
  Serves t =
      (stop t ≡ ok (record t { effects = t.effects ++ Jbot.stop }))
      × ((to msg : Str)
          → send_to to msg t ≡ ok (record t { effects = t.effects ++ Jbot.send_to to msg }))
      × ((is_connected : Str → Bool) (roster : List Contact)
          → get_roster is_connected g roster t ≡ ok (Roster.get_roster g is_connected t.bot roster))

  abbrev pub Dangles : Session → Type 0
  Dangles t =
      (stop t ≡ fault dangling_pointer)
      × ((to msg : Str) → send_to to msg t ≡ fault dangling_pointer)
      × ((is_connected : Str → Bool) (roster : List Contact)
          → get_roster is_connected g roster t ≡ fault dangling_pointer)

  live-Serves : (t : Session) → t.client ≡ live → Serves t
  unfolding stop send_to get_roster
  live-Serves t h = (
    request-live Jbot.stop t h,
    λ to msg. request-live (Jbot.send_to to msg) t h,
    λ is_connected roster. rw (dereference-live t h),
  )

  deleted-Dangles : (t : Session) → t.client ≡ deleted → Dangles t
  unfolding stop send_to get_roster request dereference needs_client Jbot.stop Jbot.send_to
  deleted-Dangles t h = (rw h, λ to msg. rw h, λ is_connected roster. rw h)

  -- However connecting and receiving go, no callback that start() makes uses a client that is not
  -- there. If connecting failed or a `recv` returned an error, the client is then deleted, and stop(),
  -- which the destructor of the plugin calls, send_to() and get_roster() go through the dangling
  -- pointer; otherwise start() still receives, and they do what they ask of the client.
  pub start-cases :
      (loglevel : Str) (connects : Bool) (rs : List Recv) (s : Session)
      → (t : Session) × (start g loglevel connects rs s ≡ ok t)
        × ((((connects && not (any_failed rs)) ≡ true) × Serves t)
            ⊎ (((connects && not (any_failed rs)) ≡ false) × Dangles t))
  start-cases loglevel connects rs s =
      let (t, run, h) = start-client loglevel connects rs s in
      elim (Bool-cases (connects && not (any_failed rs))) [
        | inl k ↦ (t, run, inl (k, live-Serves t (ground arith)))
        | inr k ↦ (t, run, inr (k, deleted-Dangles t (ground arith)))
      ]
