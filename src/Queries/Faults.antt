-- ===== src/Queries/Faults.antt =====
-- handle_queryresult (src/greynet.cpp): the messages that throw past it.
use greynet.Base.{Str, codes, ◌≡◌, ◌⊎◌, inl, inr, ◌↔◌, none, some, arith, Option-cases}
use greynet.Json.{Value, Members, get_obj, get_str}
use greynet.Messages.{Message}
use greynet.Platform.{Env, State, Conn, fault, uncaught_exception}
use greynet.Queries.{report, handle_queryresult}

module _ (env : Env) where
  -- A payload that is JSON, but no object; or an object with both fields, of which `qid` is no string
  -- or `result` no object.
  abbrev pub Throws : Str → Type 0
  Throws payload =
      (v : Value) × (env.read payload ≡ some v)
      × ((get_obj v ≡ none)
          ⊎ ((o : Members) × (q : Value) × (w : Value) × (get_obj v ≡ some o)
              × (env.find o (codes "qid") ≡ some q)
              × (env.find o (codes "result") ≡ some w)
              × ((get_str q ≡ none) ⊎ (get_obj w ≡ none))))

  report-Throws :
      (conn : Conn) (q w : Value) (s : State)
      → report env conn q w s ≡ fault uncaught_exception
      → (get_str q ≡ none) ⊎ (get_obj w ≡ none)
  unfolding report
  report-Throws conn q w s h = elim (Option-cases (get_str q)) [
    | inl e ↦ inl e
    | inr (qid, e) ↦ elim (Option-cases (get_obj w)) [
      | inl k ↦ inr k
      | inr (o, k) ↦ absurd (ground arith)
    ]
  ]

  Throws-forth :
      (conn : Conn) (msg : Message) (s : State)
      → handle_queryresult env conn msg s ≡ fault uncaught_exception
      → Throws (env.msg_payload msg)
  unfolding handle_queryresult
  Throws-forth conn msg s h = elim (Option-cases (env.read (env.msg_payload msg))) [
    | inl e ↦ absurd (ground arith)
    | inr (v, e) ↦ elim (Option-cases (get_obj v)) [
      | inl k ↦ (v, e, inl k)
      | inr (o, k) ↦ elim (Option-cases (env.find o (codes "qid"))) [
        | inl f ↦ absurd (ground arith)
        | inr (q, f) ↦ elim (Option-cases (env.find o (codes "result"))) [
          | inl g ↦ absurd (ground arith)
          | inr (w, g) ↦ (v, e, inr (o, q, w, k, f, g, report-Throws conn q w s (ground arith)))
        ]
      ]
    ]
  ]

  Throws-back :
      (conn : Conn) (msg : Message) (s : State)
      → Throws (env.msg_payload msg)
      → handle_queryresult env conn msg s ≡ fault uncaught_exception
  unfolding handle_queryresult report
  Throws-back conn msg s (v, e, inl k) = ground arith
  Throws-back conn msg s (v, e, inr (o, q, w, k, f, g, inl h)) = ground arith
  Throws-back conn msg s (v, e, inr (o, q, w, k, f, g, inr h)) = ground arith

  -- A QUERYRESULT ends in an uncaught exception exactly when its payload is JSON but no object, or an
  -- object with both fields of which `qid` is no string or `result` no object.
  pub handle_queryresult-Throws :
      (conn : Conn) (msg : Message) (s : State)
      → (handle_queryresult env conn msg s ≡ fault uncaught_exception)
        ↔ Throws (env.msg_payload msg)
  handle_queryresult-Throws conn msg s = (Throws-forth conn msg s, Throws-back conn msg s)
