-- ===== src/Queries/Keeps.antt =====
-- The handlers of src/greynet.cpp that answer queries, beside handle_query, and the plugin's maps.
use greynet.Base.{
  ℕ, Str, codes, ◌≡◌, refl, inl, inr, Option, none, some, [], ◌∷◌, str_eq, Option-cases, Bool-cases,
}
use greynet.Json.{Value, Members, get_obj, get_str}
use greynet.Messages.{Message}
use greynet.Platform.{Env, State, Conn, Call, Result, ok, fault, emit, or_fault, ◌>>=◌}
use greynet.Platform.Frame.{
  forwards, Kept, Kept-of, Kept-refl, Keeps, whole, Keeps-ok, Keeps-or_fault,
}
use greynet.Queries.{
  report, handle_queryresult, handle_querystop, is_origin, get_query_origin, stream_url,
}

pub emit-Kept : (c : Call) (s : State) → forwards (c ∷ s.log) ≡ forwards s.log → Kept s (emit c s)
emit-Kept c s h = Kept-of (c ∷ []) s (emit c s) refl refl refl refl refl h

module _ (env : Env) where
  report-Keeps : (conn : Conn) (q w : Value) (s : State) → Keeps whole s (report env conn q w s)
  unfolding report
  report-Keeps conn q w s =
      Keeps-or_fault {A = Str} s (get_str q) _ _
        λ qid _. Keeps-or_fault {A = Members} s (get_obj w) _ _ λ o _. go qid (env.item_from_json o)
    where
      go :
          (qid : Str) (item : Option ℕ)
          → Keeps whole s (elim item [
            | none ↦ ok (emit (Call.fin conn) s)
            | some rip ↦ ok (
                emit
                  (Call.report_results qid (
                    env.item_json (
                      env.item_set_url rip
                        (stream_url (env.conn_name s.log conn) (env.item_id rip)))))
                  s)
          ])
      go qid none = Keeps-ok s _ (emit-Kept _ s refl)
      go qid (some rip) = Keeps-ok s _ (emit-Kept _ s refl)

  pub handle_queryresult-Keeps :
      (conn : Conn) (msg : Message) (s : State) → Keeps whole s (handle_queryresult env conn msg s)
  unfolding handle_queryresult
  handle_queryresult-Keeps conn msg s = elim (Option-cases (env.read (env.msg_payload msg))) [
    | inl e ↦ rw (e, handle_queryresult) (Keeps-ok s _ (emit-Kept _ s refl))
    | inr (v, e) ↦ elim (Option-cases (get_obj v)) [
      | inl o ↦ rw (e, o, handle_queryresult) (greynet.Platform.Frame.Keeps-fault s _)
      | inr (o, h) ↦ elim (Option-cases (env.find o (codes "qid"))) [
        | inl k ↦ rw (e, h, k, handle_queryresult) (Keeps-ok s _ (emit-Kept _ s refl))
        | inr (q, k) ↦ elim (Option-cases (env.find o (codes "result"))) [
          | inl l ↦ rw (e, h, k, l, handle_queryresult) (Keeps-ok s _ (emit-Kept _ s refl))
          | inr (w, l) ↦ rw (e, h, k, l, handle_queryresult) (report-Keeps conn q w s)
        ]
      ]
    ]
  ]

  pub handle_querystop-Kept :
      (conn : Conn) (msg : Message) (s : State) → Kept s (handle_querystop env conn msg s)
  unfolding handle_querystop
  handle_querystop-Kept conn msg s = elim (Bool-cases (env.query_exists s.log (env.msg_guid msg))) [
    | inr e ↦ rw (e, handle_querystop) (Kept-refl s)
    | inl e ↦ elim (Bool-cases (is_origin (get_query_origin env (env.msg_guid msg) s) conn)) [
      | inr o ↦ rw (e, o, handle_querystop) (Kept-refl s)
      | inl o ↦ rw (e, o, handle_querystop) (Kept-of (_ ∷ _ ∷ []) s _ refl refl refl refl refl refl)
    ]
  ]
