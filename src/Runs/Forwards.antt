-- ===== src/Runs/Forwards.antt =====
-- How often a message is forwarded (src/greynet.cpp, message_received and handle_query).
use greynet.Base.{
  ℕ, ◌+◌, ◌≤◌, Str, ◌≡◌, ◌≢◌, refl, ap, ◌⊎◌, inl, inr, true, false, List, [], ◌∷◌, arith, ◌==◌,
  nat_eq, str_eq, contains, if◌then◌else◌, Option-cases,
}
use greynet.Base.Dict.{lookup}
use greynet.Messages.{Message, query}
use greynet.Platform.{Env, State, Conn, Log, Call}
use greynet.Platform.Frame.{
  forwards, Kept, Ensures, Ensures-ok, Ensures-fault, Ensures-if, Ensures-split, Ensures-bind,
  Ensures-or_fault,
}
use greynet.Handshake.{jabber_new_peer, advertise}
use greynet.Queries.{set_query_origin, parse_query, accept_query, handle_query}
use greynet.Dispatch.{message_received, is_stream, mark_seen}
use greynet.Runs.{Step, Reach, here, next}
use greynet.Runs.Changes.{handle_message-cases, Step-cases}

-- The second state has the first's seen messages, and at most a timer for the message more.
record Forwards (msg : Message) (s t : State) : Type 0 where
  seen_guids : t.seen_guids ≡ s.seen_guids
  timers : (forwards t.log ≡ forwards s.log) ⊎ (forwards t.log ≡ msg ∷ forwards s.log)

module _ (env : Env) where
  set_query_origin-quiet :
      (qid : Str) (conn : Conn) (s : State)
      → Ensures (λ t. (t.seen_guids ≡ s.seen_guids) × (t.log ≡ s.log)) (set_query_origin qid conn s)
  unfolding set_query_origin
  set_query_origin-quiet qid conn s = elim (Option-cases (lookup qid s.qidorigins)) [
    | inr (c, k) ↦ rw (k, set_query_origin) (Ensures-fault _)
    | inl k ↦ rw (k, set_query_origin) (Ensures-ok _ (refl, refl))
  ]

  accept_query-Forwards :
      (conn : Conn) (msg : Message) (rq : ℕ) (s : State)
      → Ensures (Forwards msg s) (accept_query env conn msg rq s)
  unfolding accept_query
  accept_query-Forwards conn msg rq s =
      Ensures-bind (set_query_origin (env.query_id rq) conn s) _
        (set_query_origin-quiet (env.query_id rq) conn s)
        λ t (seen, log).
          Ensures-if (env.query_id rq == env.dispatched (Call.dispatch rq ∷ t.log) rq) _ _
            (Ensures-ok _
              (record { seen_guids = seen; timers = inr (ap (λ l. msg ∷ forwards l) log) }))
            (Ensures-fault _)

  handle_query-Forwards :
      (conn : Conn) (msg : Message) (s : State)
      → Ensures (Forwards msg s) (handle_query env conn msg s)
  unfolding handle_query
  handle_query-Forwards conn msg s = elim (Option-cases (parse_query env (env.msg_payload msg))) [
    | inl e ↦ rw (e, handle_query) (Ensures-ok _ (record { seen_guids = refl; timers = inl refl }))
    | inr (rq, e) ↦
        rw (e, handle_query)
          (Ensures-if (env.query_exists s.log (env.query_id rq)) _ _
            (Ensures-ok s (record { seen_guids = refl; timers = inl refl }))
            (accept_query-Forwards conn msg rq s))
  ]

  -- The messages with a guid.
  abbrev count : Str → List Message → ℕ
  count guid [] = 0
  count guid (msg ∷ msgs) = (if env.msg_guid msg == guid then 1 else 0) + count guid msgs

  -- How many timers were started to forward a message with this guid.
  unfoldable pub forwarded : Str → Log → ℕ
  forwarded guid log = count guid (forwards log)

  -- 1 for a guid that was not seen yet.
  abbrev pub unseen : Str → State → ℕ
  unseen guid s = if contains guid s.seen_guids then 0 else 1

  abbrev Bounded : Str → State → State → Type 0
  Bounded guid s t = forwarded guid t.log + unseen guid t ≤ forwarded guid s.log + unseen guid s

  Kept-Bounded : (guid : Str) (s t : State) → Kept s t → Bounded guid s t
  unfolding forwarded
  Kept-Bounded guid s t k = rw (k.seen_guids, k.timers) (omega arith)

  advertise-Bounded :
      (guid jid : Str) (s : State) → Ensures (Bounded guid s) (jabber_new_peer env jid s)
  unfolding jabber_new_peer advertise forwarded
  advertise-Bounded guid jid s = Ensures-or_fault s.jbot_jid _ _ λ me _.
      Ensures-if (jid == me) _ _ (Ensures-ok s (omega arith)) (
        Ensures-if (s.publicip == []) _ _ (Ensures-ok s (omega arith))
          (elim (Option-cases (env.connection_by_name s.log jid)) [
            | inr (c, e) ↦ rw e (Ensures-ok s (omega arith))
            | inl e ↦ rw e (Ensures-ok _ (omega arith))
          ]))

  -- A query that was not seen before.
  Forwards-Bounded :
      (guid : Str) (msg : Message) (s t : State)
      → contains (env.msg_guid msg) s.seen_guids ≡ false
      → Forwards msg (mark_seen (env.msg_guid msg) s) t
      → Bounded guid s t
  unfolding forwarded contains
  Forwards-Bounded guid msg s t h k =
      let seen = k.seen_guids in
      elim (str_eq.dec (env.msg_guid msg) guid) [
        | yes p ↦ elim k.timers [
          | inl e ↦ rw (seen, e) (ground arith)
          | inr e ↦ rw (seen, e) (ground arith)
        ]
        | no n ↦ elim k.timers [
          | inl e ↦ rw (seen, e) (ground arith)
          | inr e ↦ rw (seen, e) (ground arith)
        ]
      ]

  stream-query : (msg : Message) → is_stream (env.msg_type msg) ≡ true → env.msg_type msg ≢ query
  unfolding is_stream nat_eq
  stream-query msg h p = ground arith

  mark_seen-Bounded : (guid g : Str) (s : State) → Bounded guid s (mark_seen g s)
  unfolding contains
  mark_seen-Bounded guid g s = ground arith

  message_received-Bounded :
      (guid : Str) (msg : Message) (conn : Conn) (s : State)
      → Ensures (Bounded guid s) (message_received env msg conn s)
  unfolding message_received
  message_received-Bounded guid msg conn s =
      let m : State = mark_seen (env.msg_guid msg) s in
      Ensures-split _ _ _
        (λ stream. record {
          at = λ t e. elim ((handle_message-cases env msg conn s).at t e) [
            | inl k ↦ Kept-Bounded guid s t k
            | inr (typed, h) ↦ absurd (stream-query msg stream typed)
          ];
        })
        λ _.
          Ensures-split _ _ _ (λ _. Ensures-ok s (omega arith))
            λ (new : contains (env.msg_guid msg) s.seen_guids ≡ false). record {
              at = λ t e. elim ((handle_message-cases env msg conn m).at t e) [
                | inl k ↦
                    omega
                      (arith, Kept-Bounded guid m t k, mark_seen-Bounded guid (env.msg_guid msg) s)
                | inr (typed, h) ↦
                    Forwards-Bounded guid msg s t new ((handle_query-Forwards conn msg m).at t h)
              ];
            }

  Step-Bounded : (guid : Str) (s t : State) → Step env s t → Bounded guid s t
  Step-Bounded guid s t step = elim (Step-cases env s t step) [
    | inl k ↦ Kept-Bounded guid s t k
    | inr (inl (jid, e)) ↦ (advertise-Bounded guid jid s).at t e
    | inr (inr (inl (msg, conn, e))) ↦ (message_received-Bounded guid msg conn s).at t e
    | inr (inr (inr (me, jid, h, e))) ↦ rw e (omega arith)
  ]

  Reach-Bounded : (guid : Str) (s t : State) → Reach env s t → Bounded guid s t
  Reach-Bounded guid s t here = omega arith
  Reach-Bounded guid s t (next {t = u} run step) =
      omega (arith, Reach-Bounded guid s u run, Step-Bounded guid u t step)

  -- Over a run of any events, from any connections and in any order, the plugin starts at most one
  -- timer to forward messages with one guid, and none at all if the guid was seen before the run.
  pub Reach-forwarded :
      (guid : Str) (s t : State)
      → Reach env s t
      → forwarded guid t.log ≤ forwarded guid s.log + (if contains guid s.seen_guids then 0 else 1)
  Reach-forwarded guid s t run = omega (arith, Reach-Bounded guid s t run)
