-- ===== src/Dispatch/Dupes.antt =====
-- message_received (src/greynet.cpp) on a message that comes again.
use greynet.Base.{
  ℕ, ◌≡◌, false, arith, nat_eq, str_eq, ==_refl, contains, Option-cases, inl, inr, codes,
}
use greynet.Json.{get_obj}
use greynet.Messages.{Message}
use greynet.Platform.{Env, State, Conn, ok}
use greynet.Transfers.{handle_sidrequest}
use greynet.Queries.{
  parse_query, handle_query, accept_query, handle_queryresult, report, handle_querystop,
}
use greynet.Dispatch.{message_received, handle_message, is_stream, mark_seen}

module _ (env : Env) where
  accept_query-seen_guids :
      (conn : Conn) (msg : Message) (rq : ℕ) (s t : State)
      → accept_query env conn msg rq s ≡ ok t
      → t.seen_guids ≡ s.seen_guids
  unfolding accept_query
  accept_query-seen_guids conn msg rq s t h = ground arith

  handle_query-seen_guids :
      (conn : Conn) (msg : Message) (s t : State)
      → handle_query env conn msg s ≡ ok t
      → t.seen_guids ≡ s.seen_guids
  unfolding handle_query
  handle_query-seen_guids conn msg s t h =
      elim (Option-cases (parse_query env (env.msg_payload msg))) [
        | inl e ↦ ground arith
        | inr (rq, e) ↦ ground (arith, accept_query-seen_guids conn msg rq s t)
      ]

  report-seen_guids :
      (conn : Conn) (v w : greynet.Json.Value) (s t : State)
      → report env conn v w s ≡ ok t
      → t.seen_guids ≡ s.seen_guids
  unfolding report
  report-seen_guids conn v w s t h = ground arith

  handle_queryresult-seen_guids :
      (conn : Conn) (msg : Message) (s t : State)
      → handle_queryresult env conn msg s ≡ ok t
      → t.seen_guids ≡ s.seen_guids
  unfolding handle_queryresult
  handle_queryresult-seen_guids conn msg s t h =
      elim (Option-cases (env.read (env.msg_payload msg))) [
        | inl e ↦ ground arith
        | inr (v, e) ↦ elim (Option-cases (get_obj v)) [
          | inl k ↦ absurd (ground arith)
          | inr (o, k) ↦ elim (Option-cases (env.find o (codes "qid"))) [
            | inl f ↦ ground arith
            | inr (q, f) ↦ elim (Option-cases (env.find o (codes "result"))) [
              | inl g ↦ ground arith
              | inr (w, g) ↦ report-seen_guids conn q w s t (ground arith)
            ]
          ]
        ]
      ]

  handle_querystop-seen_guids :
      (conn : Conn) (msg : Message) (s : State)
      → (handle_querystop env conn msg s).seen_guids ≡ s.seen_guids
  unfolding handle_querystop
  handle_querystop-seen_guids conn msg s = ground arith

  handle_sidrequest-seen_guids :
      (conn : Conn) (msg : Message) (s : State)
      → (handle_sidrequest env conn msg s).seen_guids ≡ s.seen_guids
  unfolding handle_sidrequest
  handle_sidrequest-seen_guids conn msg s = ground arith

  handle_message-seen_guids :
      (msg : Message) (conn : Conn) (s t : State)
      → is_stream (env.msg_type msg) ≡ false
      → handle_message env msg conn s ≡ ok t
      → t.seen_guids ≡ s.seen_guids
  unfolding is_stream handle_message
  handle_message-seen_guids msg conn s t n h = ground (
    arith,
    handle_query-seen_guids conn msg s t,
    handle_queryresult-seen_guids conn msg s t,
    handle_querystop-seen_guids conn msg s,
    handle_sidrequest-seen_guids conn msg s,
  )

  -- A message of any type but the three of a stream is handled at most once: when it comes again,
  -- from any connection, the state stays as the first time left it.
  pub message_received_twice :
      (msg : Message) (conn again : Conn) (s t : State)
      → is_stream (env.msg_type msg) ≡ false
      → message_received env msg conn s ≡ ok t
      → message_received env msg again t ≡ ok t
  unfolding message_received contains
  message_received_twice msg conn again s t n h = ground (
    arith,
    handle_message-seen_guids msg conn (mark_seen (env.msg_guid msg) s) t n,
    ==_refl (env.msg_guid msg),
  )
