-- ===== src/Runs/Safe.antt =====
-- The messages of a transfer (src/greynet.cpp, handle_siddata, handle_sidheaders, handle_sidfail) in
-- the states that a run reaches: how their handlers can fail to return.
use greynet.Base.{Str, ◌≡◌, ◌≢◌, refl, ◌⊎◌, inl, inr, some, ◌∷◌, str_eq, Option-cases}
use greynet.Base.Dict.{lookup}
use greynet.Messages.{Message, siddata, sidheaders, sidfail}
use greynet.Platform.{Env, State, Conn, Ref, Result, ok, fault, Fault, endless_loop}
use greynet.Platform.Fails.{Fails, Fails-ok}
use greynet.Registry.{Transfers, find}
use greynet.Transfers.{handle_siddata, handle_sidheaders, handle_sidfail}
use greynet.Dispatch.{message_received}
use greynet.Dispatch.Streams.{
  message_received-siddata, message_received-sidheaders, message_received-sidfail,
}
use greynet.Runs.{Reach}
use greynet.Runs.Linked.{Entry, Linked}
use greynet.Runs.Playing.{
  Stuck, Playing, siddata_handler-Fails, sidheaders_handler-Fails, cancel_handler-Fails,
}
use greynet.Runs.Reached.{Reach-Linked}

-- The sid is of a transfer whose connection has another transfer ahead of it, and the fault is the
-- endless loop.
abbrev pub Behind : Str → Transfers → Fault → Type 0
Behind sid m f =
    (f ≡ endless_loop)
    × ((c : Conn) × Entry c sid m
        × ((t : Str) × (rest : Transfers) × (find c m ≡ (c, t) ∷ rest) × (t ≢ sid)))

lookup-Playing :
    (sid : Str) (r : Ref) (s : State)
    → Linked s
    → lookup sid s.sid2ss ≡ some r
    → (c : Conn) × Entry c sid s.conn2sid × Playing c sid r s
lookup-Playing sid r s l h =
    let (c, e) = l.listed sid r h in
    let k = l.tracked c sid e in
    let f = k.found in
    let q : k.address ≡ r = cc in
    (
      c,
      e,
      record {
        object = k.object;
        sink = k.sink;
        held = rw (← q) (k.held);
        playing = k.playing;
        exists = k.exists;
        owner = k.owner;
        named = k.named;
        timed = k.timed;
      },
    )

-- A handler of the strategy that is found for a sid.
found-Fails :
    (sid : Str) (r : Ref) (s : State) (q : Result State)
    → Linked s
    → lookup sid s.sid2ss ≡ some r
    → ((c : Conn) → Playing c sid r s → Fails (Stuck c sid s.conn2sid) q)
    → Fails (Behind sid s.conn2sid) q
found-Fails sid r s q l h k =
    let (c, e, p) = lookup-Playing sid r s l h in
    record { at = λ f i. let (a, b) = (k c p).at f i in (a, (c, e, b)) }

module _ (env : Env) where
  handle_siddata-Fails :
      (msg : Message) (s : State)
      → Linked s
      → Fails (Behind (env.msg_guid msg) s.conn2sid) (handle_siddata env msg s)
  unfolding handle_siddata
  handle_siddata-Fails msg s l = elim (Option-cases (lookup (env.msg_guid msg) s.sid2ss)) [
    | inl e ↦ rw (e, handle_siddata) (Fails-ok s)
    | inr (r, e) ↦
        rw (e, handle_siddata)
          (found-Fails (env.msg_guid msg) r s _ l e
            λ c p. siddata_handler-Fails env c (env.msg_guid msg) r (env.msg_payload msg) s p)
  ]

  handle_sidheaders-Fails :
      (msg : Message) (s : State)
      → Linked s
      → Fails (Behind (env.msg_guid msg) s.conn2sid) (handle_sidheaders env msg s)
  unfolding handle_sidheaders
  handle_sidheaders-Fails msg s l = elim (Option-cases (lookup (env.msg_guid msg) s.sid2ss)) [
    | inl e ↦ rw (e, handle_sidheaders) (Fails-ok s)
    | inr (r, e) ↦
        rw (e, handle_sidheaders)
          (found-Fails (env.msg_guid msg) r s _ l e
            λ c p. sidheaders_handler-Fails env c (env.msg_guid msg) r msg s p)
  ]

  handle_sidfail-Fails :
      (msg : Message) (s : State)
      → Linked s
      → Fails (Behind (env.msg_guid msg) s.conn2sid) (handle_sidfail env msg s)
  unfolding handle_sidfail
  handle_sidfail-Fails msg s l = elim (Option-cases (lookup (env.msg_guid msg) s.sid2ss)) [
    | inl e ↦ rw (e, handle_sidfail) (Fails-ok s)
    | inr (r, e) ↦
        rw (e, handle_sidfail)
          (found-Fails (env.msg_guid msg) r s _ l e
            λ c p. cancel_handler-Fails env c (env.msg_guid msg) r s p)
  ]

  transfer-Fails :
      (msg : Message) (conn : Conn) (s : State)
      → Linked s
      → (env.msg_type msg ≡ siddata)
        ⊎ (env.msg_type msg ≡ sidheaders)
        ⊎ (env.msg_type msg ≡ sidfail)
      → Fails (Behind (env.msg_guid msg) s.conn2sid) (message_received env msg conn s)
  transfer-Fails msg conn s l (inl h) =
      rw (message_received-siddata env msg conn s h) (handle_siddata-Fails msg s l)
  transfer-Fails msg conn s l (inr (inl h)) =
      rw (message_received-sidheaders env msg conn s h) (handle_sidheaders-Fails msg s l)
  transfer-Fails msg conn s l (inr (inr h)) =
      rw (message_received-sidfail env msg conn s h) (handle_sidfail-Fails msg s l)

  Behind-or-ok :
      (sid : Str) (m : Transfers) (q : Result State)
      → Fails (Behind sid m) q
      → ((u : State) × (q ≡ ok u)) ⊎ ((q ≡ fault endless_loop) × Behind sid m endless_loop)
  Behind-or-ok sid m (ok u) k = inl (u, refl)
  Behind-or-ok sid m (fault f) k = let (e, b) = k.at f refl in inr (rw e refl, (refl, b))

  -- A message of a transfer (SIDDATA, SIDHEADERS or SIDFAIL), whatever its sid and its payload, from
  -- whatever connection, in every state that a run reaches from one in which the transfers are
  -- linked: its handler returns, or is in the endless loop, and then the sid is of a transfer whose
  -- connection has another transfer ahead of it. It never goes through a null pointer.
  pub Reach-message_received :
      (msg : Message) (conn : Conn) (s t : State)
      → Linked s
      → Reach env s t
      → (env.msg_type msg ≡ siddata)
        ⊎ (env.msg_type msg ≡ sidheaders)
        ⊎ (env.msg_type msg ≡ sidfail)
      → ((u : State) × (message_received env msg conn t ≡ ok u))
        ⊎ ((message_received env msg conn t ≡ fault endless_loop)
            × Behind (env.msg_guid msg) t.conn2sid endless_loop)
  Reach-message_received msg conn s t l run kind =
      Behind-or-ok (env.msg_guid msg) t.conn2sid (message_received env msg conn t)
        (transfer-Fails msg conn t (Reach-Linked env s t l run) kind)
