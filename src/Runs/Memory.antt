-- ===== src/Runs/Memory.antt =====
-- What the plugin (src/greynet.cpp) remembers over a run.
use greynet.Base.{
  ◌≡◌, refl, inl, inr, true, false, arith, nat_eq, str_eq, contains, Bool-cases, ==_refl,
}
use greynet.Messages.{Message}
use greynet.Platform.{Env, State, Conn, ok}
use greynet.Platform.Frame.{Ensures, Ensures-ok, Ensures-if, Ensures-weaken}
use greynet.Dispatch.{message_received, handle_message, is_stream, mark_seen}
use greynet.Runs.{Step, Reach, here, next}
use greynet.Runs.Grows.{
  Grows, Grows-refl, Grows-trans, Kept-Grows, mark_seen-Grows, jabber_new_peer-Grows,
  handle_query-Grows, jbot_jid-Grows,
}
use greynet.Runs.Changes.{handle_message-cases, Step-cases}

module _ (env : Env) where
  handle_message-Grows :
      (msg : Message) (conn : Conn) (s : State) → Ensures (Grows s) (handle_message env msg conn s)
  handle_message-Grows msg conn s = record {
    at = λ t e. elim ((handle_message-cases env msg conn s).at t e) [
      | inl k ↦ Kept-Grows k
      | inr (typed, h) ↦ (handle_query-Grows env conn msg s).at t h
    ];
  }

  message_received-Grows :
      (msg : Message) (conn : Conn) (s : State)
      → Ensures (Grows s) (message_received env msg conn s)
  unfolding message_received
  message_received-Grows msg conn s =
      let m : State = mark_seen (env.msg_guid msg) s in
      Ensures-if _ _ _ (handle_message-Grows msg conn s) (
        Ensures-if _ _ _ (Ensures-ok s (Grows-refl s)) (
          Ensures-weaken (handle_message env msg conn m)
            (λ t k. Grows-trans (mark_seen-Grows (env.msg_guid msg) s) k)
            (handle_message-Grows msg conn m)))

  Step-Grows : (s t : State) → Step env s t → Grows s t
  Step-Grows s t step = elim (Step-cases env s t step) [
    | inl k ↦ Kept-Grows k
    | inr (inl (jid, e)) ↦ (jabber_new_peer-Grows env jid s).at t e
    | inr (inr (inl (msg, conn, e))) ↦ (message_received-Grows msg conn s).at t e
    | inr (inr (inr (me, jid, h, e))) ↦ rw e (jbot_jid-Grows me jid s h)
  ]

  -- Over a run of any events the plugin's memory only grows: no origin of a query is changed or
  -- forgotten, no cookie that was given out is withdrawn, no message that was seen is forgotten, a
  -- bot stays, though its jid may change, and calls are only added.
  pub Reach-Grows : (s t : State) → Reach env s t → Grows s t
  Reach-Grows s t here = Grows-refl s
  Reach-Grows s t (next run step) = Grows-trans (Reach-Grows s _ run) (Step-Grows _ t step)

  message_received-seen :
      (msg : Message) (conn : Conn) (s : State)
      → is_stream (env.msg_type msg) ≡ false
      → Ensures
          (λ t. contains (env.msg_guid msg) t.seen_guids ≡ true)
          (message_received env msg conn s)
  unfolding message_received contains
  message_received-seen msg conn s n =
      let guid = env.msg_guid msg in
      let m : State = mark_seen guid s in
      let marked : contains guid m.seen_guids ≡ true = ground (arith, ==_refl guid) in
      elim (Bool-cases (contains guid s.seen_guids)) [
        | inl h ↦ rw (n, h) (Ensures-ok s h)
        | inr h ↦
            rw (n, h)
              (Ensures-weaken (handle_message env msg conn m) (λ t k. k.seen guid marked)
                (handle_message-Grows msg conn m))
      ]

  ignored :
      (msg : Message) (conn : Conn) (t : State)
      → is_stream (env.msg_type msg) ≡ false
      → contains (env.msg_guid msg) t.seen_guids ≡ true
      → message_received env msg conn t ≡ ok t
  unfolding message_received
  ignored msg conn t n h = rw (n, h) refl

  -- A message of any type but the three of a stream that was handled once is not handled again in the
  -- whole run: after any events, coming from any connection, it leaves the state as it is.
  pub Reach-message_received_twice :
      (msg : Message) (conn again : Conn) (s t u : State)
      → is_stream (env.msg_type msg) ≡ false
      → message_received env msg conn s ≡ ok t
      → Reach env t u
      → message_received env msg again u ≡ ok u
  Reach-message_received_twice msg conn again s t u n h run =
      let seen = (message_received-seen msg conn s n).at t h in
      ignored msg again u n ((Reach-Grows t u run).seen (env.msg_guid msg) seen)
