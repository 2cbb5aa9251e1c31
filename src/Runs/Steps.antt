-- ===== src/Runs/Steps.antt =====
-- Messages and the end of a connection (src/greynet.cpp, message_received and
-- connection_terminated), and the transfers.
use greynet.Base.{
  Str, ◌≡◌, refl, inl, inr, some, List, [], ◌∷◌, arith, nat_eq, str_eq, Option-cases,
}
use greynet.Base.Dict.{lookup}
use greynet.Messages.{Message}
use greynet.Platform.{Env, State, Ss, Conn, Ref, Result}
use greynet.Platform.Frame.{
  Ensures, Ensures-ok, Ensures-if, Ensures-or_fault, Ensures-bind, Ensures-weaken,
}
use greynet.Registry.{find}
use greynet.Strategy.{cancel_handler}
use greynet.Transfers.{
  sids_of, cancel_all, connection_terminated, handle_sidrequest, handle_siddata, handle_sidheaders,
  handle_sidfail,
}
use greynet.Dispatch.{message_received, handle_message, mark_seen}
use greynet.Runs.Linked.{Entry, Linked, Updates, Updates-of, Updates-adaptor, Linked-Updates}
use greynet.Runs.Outcome.{
  Outcome, Outcome-Linked, emitted-Updates, cancel_handler-Outcome, siddata_handler-Outcome,
}
use greynet.Runs.Headers.{sidheaders_handler-Outcome}
use greynet.Runs.Quiet.{
  handle_query-Updates, handle_querystop-Updates, handle_queryresult-Updates, handle_ping-Updates,
}

-- The strategy that the map has for a sid.
pub record Owner (sid : Str) (r : Ref) (s : State) : Type 0 where
  pub object : Ss
  pub held : lookup r s.strategies ≡ some object
  pub named : object.sid ≡ sid
  pub entry : Entry object.conn object.sid s.conn2sid

pub lookup-Owner :
    (sid : Str) (r : Ref) (s : State) → Linked s → lookup sid s.sid2ss ≡ some r → Owner sid r s
lookup-Owner sid r s l h =
    let (c, e) = l.listed sid r h in
    let k = l.tracked c sid e in
    let f = k.found in
    let q : k.address ≡ r = cc in
    record {
      object = k.object;
      held = rw (← q) (k.held);
      named = k.named;
      entry = rw (k.owner, k.named) e;
    }

pub Updates-Linked :
    (s : State) (r : Result State) → Linked s → Ensures (Updates s) r → Ensures Linked r
Updates-Linked s r l k = Ensures-weaken r (λ t u. Linked-Updates s t u l) k

module _ (env : Env) where
  -- A handler of the strategy that is found for a sid.
  pub found-Linked :
      (sid : Str) (r : Ref) (s : State) (f : Result State)
      → Linked s
      → lookup sid s.sid2ss ≡ some r
      → ((x : Ss) → lookup r s.strategies ≡ some x → Ensures (Outcome x.conn x.sid s) f)
      → Ensures Linked f
  found-Linked sid r s f l h k =
      let o = lookup-Owner sid r s l h in
      Ensures-weaken f (λ t w. Outcome-Linked o.object.conn o.object.sid s t l o.entry w)
        (k o.object o.held)

  handle_siddata-Linked :
      (msg : Message) (s : State) → Linked s → Ensures Linked (handle_siddata env msg s)
  unfolding handle_siddata
  handle_siddata-Linked msg s l = elim (Option-cases (lookup (env.msg_guid msg) s.sid2ss)) [
    | inl e ↦ rw (e, handle_siddata) (Ensures-ok s l)
    | inr (r, e) ↦
        rw (e, handle_siddata)
          (found-Linked (env.msg_guid msg) r s _ l e
            λ x h. siddata_handler-Outcome env r x (env.msg_payload msg) s h)
  ]

  handle_sidheaders-Linked :
      (msg : Message) (s : State) → Linked s → Ensures Linked (handle_sidheaders env msg s)
  unfolding handle_sidheaders
  handle_sidheaders-Linked msg s l = elim (Option-cases (lookup (env.msg_guid msg) s.sid2ss)) [
    | inl e ↦ rw (e, handle_sidheaders) (Ensures-ok s l)
    | inr (r, e) ↦
        rw (e, handle_sidheaders)
          (found-Linked (env.msg_guid msg) r s _ l e
            λ x h. sidheaders_handler-Outcome env r x msg s h)
  ]

  handle_sidfail-Linked :
      (msg : Message) (s : State) → Linked s → Ensures Linked (handle_sidfail env msg s)
  unfolding handle_sidfail
  handle_sidfail-Linked msg s l = elim (Option-cases (lookup (env.msg_guid msg) s.sid2ss)) [
    | inl e ↦ rw (e, handle_sidfail) (Ensures-ok s l)
    | inr (r, e) ↦
        rw (e, handle_sidfail)
          (found-Linked (env.msg_guid msg) r s _ l e λ x h. cancel_handler-Outcome env r x s h)
  ]

  handle_sidrequest-Updates :
      (conn : Conn) (msg : Message) (s : State) → Updates s (handle_sidrequest env conn msg s)
  unfolding handle_sidrequest
  handle_sidrequest-Updates conn msg s =
      elim (Option-cases (env.get_ss s.log (env.msg_payload msg))) [
        | inl e ↦ rw (e, handle_sidrequest) (emitted-Updates _ s)
        | inr (ss, e) ↦
            let a = greynet.Adaptor.new_adaptor conn (env.msg_payload msg) in
            let k = Updates-adaptor s.next_address a s in
            rw (e, handle_sidrequest)
              (record {
                conn2sid = refl;
                sid2ss = refl;
                next_address = omega arith;
                objects = k.objects;
                known = k.known;
                sinks = k.sinks;
              })
      ]

  handle_message-Linked :
      (msg : Message) (conn : Conn) (s : State)
      → Linked s
      → Ensures Linked (handle_message env msg conn s)
  unfolding handle_message
  handle_message-Linked msg conn s l =
      let quiet =
        λ (t : State) (u : Updates s t). Ensures-ok {P = Linked} t (Linked-Updates s t u l) in
      Ensures-if _ _ _ (quiet _ (handle_ping-Updates env conn s)) (
        Ensures-if _ _ _ (Ensures-ok s l) (
          Ensures-if _ _ _ (Updates-Linked s _ l (handle_query-Updates env conn msg s)) (
            Ensures-if _ _ _ (Updates-Linked s _ l (handle_queryresult-Updates env conn msg s)) (
              Ensures-if _ _ _ (quiet _ (handle_querystop-Updates env conn msg s)) (
                Ensures-if _ _ _ (quiet _ (handle_sidrequest-Updates conn msg s)) (
                  Ensures-if _ _ _ (handle_siddata-Linked msg s l) (
                    Ensures-if _ _ _ (handle_sidheaders-Linked msg s l)
                      (Ensures-if _ _ _ (handle_sidfail-Linked msg s l) (Ensures-ok s l)))))))))

  pub message_received-Linked :
      (msg : Message) (conn : Conn) (s : State)
      → Linked s
      → Ensures Linked (message_received env msg conn s)
  unfolding message_received
  message_received-Linked msg conn s l =
      let m : State = mark_seen (env.msg_guid msg) s in
      Ensures-if _ _ _ (handle_message-Linked msg conn s l) (
        Ensures-if _ _ _ (Ensures-ok s l) (
          handle_message-Linked msg conn m
            (Linked-Updates s m (Updates-of s m refl refl refl refl refl) l)))

  cancel_all-Linked :
      (sids : List Str) (s : State) → Linked s → Ensures Linked (cancel_all env sids s)
  unfolding cancel_all
  cancel_all-Linked [] s l = Ensures-ok s l
  cancel_all-Linked (sid ∷ sids) s l = Ensures-or_fault (lookup sid s.sid2ss) _ _ λ r h.
      Ensures-bind (cancel_handler env r s) _
        (found-Linked sid r s _ l h λ x k. cancel_handler-Outcome env r x s k)
        λ t m. cancel_all-Linked sids t m

  pub connection_terminated-Linked :
      (conn : Conn) (s : State) → Linked s → Ensures Linked (connection_terminated env conn s)
  unfolding connection_terminated
  connection_terminated-Linked conn s l = cancel_all-Linked (sids_of (find conn s.conn2sid)) s l
