-- ===== src/Queries/Stop.antt =====
-- handle_querystop and fwd_search (src/greynet.cpp) on a query that is stopped.
use greynet.Base.{
  Str, ◌≡◌, ◌≢◌, refl, ◌⊎◌, inl, inr, Bool, true, false, Option, none, some, List, [], ◌∷◌, ◌++◌,
  arith, nat_eq, str_eq,
}
use greynet.Messages.{Message}
use greynet.Platform.{Env, State, Conn, Call, Log}
use greynet.Platform.Frame.{Extends}
use greynet.Queries.{is_origin, get_query_origin, handle_querystop, fwd_search}

-- What playdar promises: a stopped query is stopped, and stays so whatever we call.
pub record RemembersStops (env : Env) : Type 0 where
  pub stops : (qid : Str) (log : Log) → env.stopped (Call.stop_query qid ∷ log) qid ≡ true
  pub stays :
      (c : Call) (log : Log) (qid : Str)
      → env.stopped log qid ≡ true
      → env.stopped (c ∷ log) qid ≡ true

is_origin-cases :
    (o : Option Conn) (conn : Conn)
    → ((o ≡ some conn) × (is_origin o conn ≡ true)) ⊎ ((o ≢ some conn) × (is_origin o conn ≡ false))
unfolding is_origin
is_origin-cases none conn = inr (λ e. cc, refl)
is_origin-cases (some c) conn = elim (nat_eq.dec c conn) [
  | yes p ↦ inl (cc, ground arith)
  | no n ↦ inr (λ e. n (cc), ground arith)
]

module _ (env : Env) where
  stays_all :
      (calls : List Call) (log : Log) (qid : Str)
      → RemembersStops env
      → env.stopped log qid ≡ true
      → env.stopped (calls ++ log) qid ≡ true
  stays_all [] log qid law h = h
  stays_all (c ∷ calls) log qid law h =
      law.stays c (calls ++ log) qid (stays_all calls log qid law h)

  fwd_search_stopped :
      (failed : Bool) (conn : Conn) (msg : Message) (qid : Str) (s : State)
      → env.stopped s.log qid ≡ true
      → fwd_search env failed conn msg qid s ≡ s
  unfolding fwd_search
  fwd_search_stopped failed conn msg qid s h = ground arith

  -- With playdar's promises, of a QUERYSTOP for a query that is known: from the live connection that
  -- the query came from, it stops the query and is passed on to all other connections, and the timer
  -- of the query, in any state reached by later calls, forwards nothing. From any other connection
  -- it does nothing.
  pub handle_querystop-fwd_search :
      (conn : Conn) (msg query : Message) (failed : Bool) (s : State)
      → RemembersStops env
      → env.query_exists s.log (env.msg_guid msg) ≡ true
      → let t = handle_querystop env conn msg s in
        ((get_query_origin env (env.msg_guid msg) s ≡ some conn)
          × (t ≡ record s {
            log =
                Call.write_all_except msg (some conn) ∷ Call.stop_query (env.msg_guid msg) ∷ s.log;
          })
          × ((later : State)
              → Extends t.log later.log
              → fwd_search env failed conn query (env.msg_guid msg) later ≡ later))
        ⊎ ((get_query_origin env (env.msg_guid msg) s ≢ some conn) × (t ≡ s))
  unfolding handle_querystop
  handle_querystop-fwd_search conn msg query failed s law k =
      let qid = env.msg_guid msg in
      let o = get_query_origin env qid s in
      elim (is_origin-cases o conn) [
        | inr (n, f) ↦ inr (n, ground arith)
        | inl (e, f) ↦
            let log : Log = Call.write_all_except msg (some conn) ∷ Call.stop_query qid ∷ s.log in
            let h : handle_querystop env conn msg s ≡ record s { log = log } = ground arith in
            inl (
              e,
              h,
              λ later (calls, g). fwd_search_stopped failed conn query qid later (
                  rw (g, h)
                    (stays_all calls log qid law (
                      law.stays (Call.write_all_except msg (some conn))
                        (Call.stop_query qid ∷ s.log) qid (law.stops qid s.log)))),
            )
      ]
