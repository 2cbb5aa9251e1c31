-- ===== src/Runs/Grows.antt =====
-- What the plugin (src/greynet.h) remembers of queries, cookies and messages, and the handlers that
-- add to it (src/greynet.cpp, jabber_new_peer and handle_query).
use greynet.Base.{
  ℕ, Str, ◌≡◌, ◌≢◌, refl, inl, inr, true, some, [], ◌∷◌, ◌==◌, arith, nat_eq, str_eq, contains,
  Option-cases,
}
use greynet.Base.Dict.{lookup, lookup-insert}
use greynet.Messages.{Message}
use greynet.Platform.{Env, State, Conn, Call, Result}
use greynet.Platform.Frame.{
  Extends, Extends-refl, Extends-trans, Extends-cons, Kept, Kept-refl, Keeps, whole, Ensures,
  Ensures-ok, Ensures-fault, Ensures-if, Ensures-or_fault, Ensures-bind,
}
use greynet.Handshake.{advertise, jabber_new_peer}
use greynet.Queries.{set_query_origin, parse_query, accept_query, handle_query}
use greynet.Queries.Keeps.{emit-Kept}
use greynet.Dispatch.{mark_seen}

-- The second state has the first's origins of queries, its bot and its cookies, though the bot may have
-- another jid and a cookie stand for another, its seen messages, and its calls first.
pub record Grows (s t : State) : Type 0 where
  pub jbot_jid : (jid : Str) → s.jbot_jid ≡ some jid → (now : Str) × (t.jbot_jid ≡ some now)
  pub origins :
      (qid : Str) (conn : Conn)
      → lookup qid s.qidorigins ≡ some conn
      → lookup qid t.qidorigins ≡ some conn
  pub cookies :
      (cookie jid : Str)
      → lookup cookie s.peer_cookies ≡ some jid
      → (now : Str) × (lookup cookie t.peer_cookies ≡ some now)
  pub seen : (guid : Str) → contains guid s.seen_guids ≡ true → contains guid t.seen_guids ≡ true
  pub log : Extends s.log t.log

pub Kept-Grows : {s t : State} → Kept s t → Grows s t
Kept-Grows k = record {
  jbot_jid = λ jid h. (jid, rw (k.jbot_jid) h);
  origins = λ qid conn h. rw (k.qidorigins) h;
  cookies = λ cookie jid h. (jid, rw (k.peer_cookies) h);
  seen = λ guid h. rw (k.seen_guids) h;
  log = k.log;
}

pub Grows-refl : (s : State) → Grows s s
Grows-refl s = Kept-Grows (Kept-refl s)

pub Grows-trans : {s t u : State} → Grows s t → Grows t u → Grows s u
Grows-trans k l = record {
  jbot_jid = λ jid h. let (now, e) = k.jbot_jid jid h in l.jbot_jid now e;
  origins = λ qid conn h. l.origins qid conn (k.origins qid conn h);
  cookies = λ cookie jid h. let (now, e) = k.cookies cookie jid h in l.cookies cookie now e;
  seen = λ guid h. l.seen guid (k.seen guid h);
  log = Extends-trans k.log l.log;
}

pub Keeps-Grows : (s : State) (r : Result State) → Keeps whole s r → Ensures (Grows s) r
Keeps-Grows s r k = record { at = λ t e. Kept-Grows (k.at t e) }

pub jbot_jid-Grows :
    (me jid : Str) (s : State) → s.jbot_jid ≡ some me → Grows s (record s { jbot_jid = some jid })
jbot_jid-Grows me jid s e = record {
  jbot_jid = λ was h. (jid, refl);
  origins = λ qid conn h. h;
  cookies = λ cookie was h. (was, h);
  seen = λ guid h. h;
  log = Extends-refl s.log;
}

pub mark_seen-Grows : (guid : Str) (s : State) → Grows s (mark_seen guid s)
unfolding contains
mark_seen-Grows guid s = record {
  jbot_jid = λ jid h. (jid, h);
  origins = λ qid conn h. h;
  cookies = λ cookie jid h. (jid, h);
  seen = λ g h. ground arith;
  log = Extends-refl s.log;
}

module _ (env : Env) where
  advertise-Grows : (jid : Str) (s : State) → Grows s (advertise env jid s)
  unfolding advertise
  advertise-Grows jid s =
      let cookie = env.uuid (Call.gen_uuid ∷ s.log) in
      record {
        jbot_jid = λ jid h. (jid, h);
        origins = λ qid conn h. h;
        cookies = λ c j h. elim (str_eq.dec c cookie) [
          | yes p ↦ (jid, ground (arith, lookup-insert c cookie jid s.peer_cookies))
          | no n ↦ (j, ground (arith, lookup-insert c cookie jid s.peer_cookies))
        ];
        seen = λ guid h. h;
        log = Extends-cons _ (Extends-cons _ (Extends-refl s.log));
      }

  pub jabber_new_peer-Grows :
      (jid : Str) (s : State) → Ensures (Grows s) (jabber_new_peer env jid s)
  unfolding jabber_new_peer
  jabber_new_peer-Grows jid s = Ensures-or_fault s.jbot_jid _ _ λ me _.
      Ensures-if (jid == me) _ _ (Ensures-ok s (Grows-refl s)) (
        Ensures-if (s.publicip == []) _ _ (Ensures-ok s (Grows-refl s))
          (elim (Option-cases (env.connection_by_name s.log jid)) [
            | inr (c, e) ↦ rw e (Ensures-ok s (Grows-refl s))
            | inl e ↦ rw e (Ensures-ok _ (advertise-Grows jid s))
          ]))

  set_query_origin-Grows :
      (qid : Str) (conn : Conn) (s : State) → Ensures (Grows s) (set_query_origin qid conn s)
  unfolding set_query_origin
  set_query_origin-Grows qid conn s = elim (Option-cases (lookup qid s.qidorigins)) [
    | inr (c, k) ↦ rw (k, set_query_origin) (Ensures-fault _)
    | inl k ↦
        rw (k, set_query_origin)
          (Ensures-ok _ (record {
            jbot_jid = λ jid h. (jid, h);
            origins = λ q c h.
                let n : q ≢ qid = λ p. (ground arith) in
                ground (arith, lookup-insert q qid conn s.qidorigins);
            cookies = λ cookie jid h. (jid, h);
            seen = λ guid h. h;
            log = Extends-refl s.log;
          }))
  ]

  accept_query-Grows :
      (conn : Conn) (msg : Message) (rq : ℕ) (s : State)
      → Ensures (Grows s) (accept_query env conn msg rq s)
  unfolding accept_query
  accept_query-Grows conn msg rq s =
      Ensures-bind (set_query_origin (env.query_id rq) conn s) _
        (set_query_origin-Grows (env.query_id rq) conn s)
        λ t k.
          Ensures-if (env.query_id rq == env.dispatched (Call.dispatch rq ∷ t.log) rq) _ _
            (Ensures-ok _ (
              Grows-trans k (record {
                jbot_jid = λ jid h. (jid, h);
                origins = λ q c h. h;
                cookies = λ cookie jid h. (jid, h);
                seen = λ guid h. h;
                log = (_ ∷ _ ∷ [], refl);
              })))
            (Ensures-fault _)

  pub handle_query-Grows :
      (conn : Conn) (msg : Message) (s : State) → Ensures (Grows s) (handle_query env conn msg s)
  unfolding handle_query
  handle_query-Grows conn msg s = elim (Option-cases (parse_query env (env.msg_payload msg))) [
    | inl e ↦ rw (e, handle_query) (Ensures-ok _ (Kept-Grows (emit-Kept _ s refl)))
    | inr (rq, e) ↦
        rw (e, handle_query)
          (Ensures-if (env.query_exists s.log (env.query_id rq)) _ _ (Ensures-ok s (Grows-refl s))
            (accept_query-Grows conn msg rq s))
  ]
