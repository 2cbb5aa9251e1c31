-- ===== src/Dispatch/Origins.antt =====
-- The origins of queries (`m_qidorigins` of src/greynet.h) over any run of messages.
use greynet.Base.{
  ℕ, Str, ◌≡◌, refl, inl, inr, true, false, none, some, List, [], ◌∷◌, ◌++◌, arith, ◌==◌, nat_eq,
  str_eq, if◌then◌else◌, Option-cases, Bool-cases,
}
use greynet.Base.Dict.{lookup, insert, lookup-insert}
use greynet.Messages.{Message}
use greynet.Platform.{Env, State, Conn, Call, Log, Result, ok, emit}
use greynet.Platform.Frame.{Kept, Kept-of, Kept-refl, Keeps, whole, Ensures, Ensures-ok, Ensures-if}
use greynet.Transfers.Keeps.{
  handle_sidrequest-Kept, handle_siddata-Keeps, handle_sidheaders-Keeps, handle_sidfail-Keeps,
}
use greynet.Queries.{parse_query, accept_query, handle_query}
use greynet.Queries.Keeps.{emit-Kept, handle_queryresult-Keeps, handle_querystop-Kept}
use greynet.Dispatch.{message_received, handle_message, handle_ping, mark_seen}

-- What playdar promises of its queries: `dispatch` returns the query's id and makes it known, and no
-- later call of ours makes a query unknown.
pub record RemembersQueries (env : Env) : Type 0 where
  pub returns : (rq : ℕ) (log : Log) → env.dispatched (Call.dispatch rq ∷ log) rq ≡ env.query_id rq
  pub learns :
      (rq : ℕ) (log : Log) → env.query_exists (Call.dispatch rq ∷ log) (env.query_id rq) ≡ true
  pub keeps :
      (c : Call) (log : Log) (qid : Str)
      → env.query_exists log qid ≡ true
      → env.query_exists (c ∷ log) qid ≡ true

module _ (env : Env) (law : RemembersQueries env) where
  -- Every query that has an origin is known to playdar.
  abbrev pub Known : State → Type 0
  Known s =
      (qid : Str) (conn : Conn)
      → lookup qid s.qidorigins ≡ some conn
      → env.query_exists s.log qid ≡ true

  -- A later state: it is `Known` too, and no origin has changed.
  pub record Later (s t : State) : Type 0 where
    pub known : Known t
    pub fixed :
        (qid : Str) (conn : Conn)
        → lookup qid s.qidorigins ≡ some conn
        → lookup qid t.qidorigins ≡ some conn

  keeps_all :
      (calls : List Call) (log : Log) (qid : Str)
      → env.query_exists log qid ≡ true
      → env.query_exists (calls ++ log) qid ≡ true
  keeps_all [] log qid h = h
  keeps_all (c ∷ calls) log qid h = law.keeps c (calls ++ log) qid (keeps_all calls log qid h)

  pub Kept-Later : {s t : State} → Known s → Kept s t → Later s t
  Kept-Later {s} {t} n k = record {
    known = λ qid conn h.
        let (calls, e) = k.log in
        rw e (keeps_all calls s.log qid (n qid conn (rw k.qidorigins at h)));
    fixed = λ qid conn h. rw k.qidorigins h;
  }

  Keeps-Later : (s : State) (r : Result State) → Known s → Keeps whole s r → Ensures (Later s) r
  Keeps-Later s r n k = record { at = λ t e. Kept-Later n (k.at t e) }

  pub accepted : Conn → Message → ℕ → State → State
  accepted conn msg rq s = record s {
    qidorigins = insert (env.query_id rq) conn s.qidorigins;
    log = Call.fwd_timer conn msg (env.query_id rq) 100 ∷ Call.dispatch rq ∷ s.log;
  }

  -- A query that playdar does not know has no origin.
  no_origin :
      (qid : Str) (s : State)
      → Known s
      → env.query_exists s.log qid ≡ false
      → lookup qid s.qidorigins ≡ none
  no_origin qid s n h = elim (Option-cases (lookup qid s.qidorigins)) [
    | inl e ↦ e
    | inr (conn, e) ↦ let k = n qid conn e in cc
  ]

  accept_query-accepted :
      (conn : Conn) (msg : Message) (rq : ℕ) (s : State)
      → Known s
      → env.query_exists s.log (env.query_id rq) ≡ false
      → accept_query env conn msg rq s ≡ ok (accepted conn msg rq s)
  unfolding accept_query accepted
  accept_query-accepted conn msg rq s n h =
      ground (arith, no_origin (env.query_id rq) s n h, law.returns rq s.log)

  accepted-Later :
      (conn : Conn) (msg : Message) (rq : ℕ) (s : State)
      → Known s
      → env.query_exists s.log (env.query_id rq) ≡ false
      → Later s (accepted conn msg rq s)
  unfolding accepted
  accepted-Later conn msg rq s n h = record {
    known = λ qid c e.
        let f = Call.fwd_timer conn msg (env.query_id rq) 100 in
        let d = Call.dispatch rq in
        let e' : (if qid == env.query_id rq then some conn else lookup qid s.qidorigins) ≡ some c =
          rw lookup-insert at e in
        elim (str_eq.dec qid (env.query_id rq)) [
          | yes p ↦ rw p (law.keeps f (d ∷ s.log) (env.query_id rq) (law.learns rq s.log))
          | no m ↦ law.keeps f (d ∷ s.log) qid (law.keeps d s.log qid (n qid c (ground arith)))
        ];
    fixed = λ qid c e. rw lookup-insert (ground (arith, no_origin (env.query_id rq) s n h));
  }

  -- handle_query without its assertions.
  pub asked : Conn → Message → State → State
  asked conn msg s = elim (parse_query env (env.msg_payload msg)) [
    | none ↦ emit (Call.fin conn) s
    | some rq ↦ if env.query_exists s.log (env.query_id rq) then s else accepted conn msg rq s
  ]

  pub handle_query-asked :
      (conn : Conn) (msg : Message) (s : State)
      → Known s
      → handle_query env conn msg s ≡ ok (asked conn msg s)
  unfolding handle_query asked
  handle_query-asked conn msg s n = elim (Option-cases (parse_query env (env.msg_payload msg))) [
    | inl e ↦ rw (e, handle_query, asked)
    | inr (rq, e) ↦ elim (Bool-cases (env.query_exists s.log (env.query_id rq))) [
      | inl h ↦ rw (e, handle_query, asked, h)
      | inr h ↦ rw (e, handle_query, asked, h) (accept_query-accepted conn msg rq s n h)
    ]
  ]

  asked-Later : (conn : Conn) (msg : Message) (s : State) → Known s → Later s (asked conn msg s)
  unfolding asked
  asked-Later conn msg s n = elim (Option-cases (parse_query env (env.msg_payload msg))) [
    | inl e ↦ rw (e, asked) (Kept-Later n (emit-Kept (Call.fin conn) s refl))
    | inr (rq, e) ↦ elim (Bool-cases (env.query_exists s.log (env.query_id rq))) [
      | inl h ↦ rw (e, h, asked) (Kept-Later n (Kept-refl s))
      | inr h ↦ rw (e, h, asked) (accepted-Later conn msg rq s n h)
    ]
  ]

  handle_query-Later :
      (conn : Conn) (msg : Message) (s : State)
      → Known s
      → Ensures (Later s) (handle_query env conn msg s)
  handle_query-Later conn msg s n =
      rw (handle_query-asked conn msg s n)
        (Ensures-ok (asked conn msg s) (asked-Later conn msg s n))

  handle_ping-Kept : (conn : Conn) (s : State) → Kept s (handle_ping env conn s)
  unfolding handle_ping
  handle_ping-Kept conn s = Kept-of (_ ∷ _ ∷ []) s _ refl refl refl refl refl refl

  handle_message-Later :
      (msg : Message) (conn : Conn) (s : State)
      → Known s
      → Ensures (Later s) (handle_message env msg conn s)
  unfolding handle_message
  handle_message-Later msg conn s n =
      Ensures-if _ _ _ (Ensures-ok _ (Kept-Later n (handle_ping-Kept conn s))) (
        Ensures-if _ _ _ (Ensures-ok s (Kept-Later n (Kept-refl s))) (
          Ensures-if _ _ _ (handle_query-Later conn msg s n) (
            Ensures-if _ _ _ (Keeps-Later s _ n (handle_queryresult-Keeps env conn msg s)) (
              Ensures-if _ _ _ (Ensures-ok _ (Kept-Later n (handle_querystop-Kept env conn msg s)))
                (Ensures-if _ _ _
                  (Ensures-ok _ (Kept-Later n (handle_sidrequest-Kept env conn msg s)))
                  (Ensures-if _ _ _ (Keeps-Later s _ n (handle_siddata-Keeps env msg s)) (
                    Ensures-if _ _ _ (Keeps-Later s _ n (handle_sidheaders-Keeps env msg s)) (
                      Ensures-if _ _ _ (Keeps-Later s _ n (handle_sidfail-Keeps env msg s))
                        (Ensures-ok s (Kept-Later n (Kept-refl s)))))))))))

  marked-Later : (guid : Str) (s : State) → Known s → Later s (mark_seen guid s)
  marked-Later guid s n = record { known = n; fixed = λ qid c h. h }

  pub Later-trans : {s t u : State} → Later s t → Later t u → Later s u
  Later-trans k l = record { known = l.known; fixed = λ qid c h. l.fixed qid c (k.fixed qid c h) }

  pub message_received-Later :
      (msg : Message) (conn : Conn) (s : State)
      → Known s
      → Ensures (Later s) (message_received env msg conn s)
  unfolding message_received
  message_received-Later msg conn s n =
      let m : State = mark_seen (env.msg_guid msg) s in
      Ensures-if _ _ _ (handle_message-Later msg conn s n) (
        Ensures-if _ _ _ (Ensures-ok s (Kept-Later n (Kept-refl s))) (record {
          at = λ t e.
              Later-trans (marked-Later (env.msg_guid msg) s n)
                ((handle_message-Later msg conn m n).at t e);
        }))
