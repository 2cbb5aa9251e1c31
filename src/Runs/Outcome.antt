-- ===== src/Runs/Outcome.antt =====
-- What a handler of src/ss_greynet.cpp does to the transfers: it updates objects, and may end by
-- unregistering its strategy's transfer.
use greynet.Base.{
  ℕ, ◌+◌, ◌%◌, ◌^◌, Str, ◌≡◌, refl, ◌⊎◌, inl, inr, true, none, some, [], ◌==◌, nat_eq, str_eq,
  length, Bool-cases,
}
use greynet.Base.Int.{ℤ}
use greynet.Base.Dict.{lookup, insert}
use greynet.Platform.{Env, State, Ss, Adaptor, Conn, Ref, Sink, http, relay, Call, ok, emit}
use greynet.Platform.Frame.{
  Ensures, Ensures-ok, Ensures-if, Ensures-or_fault, Ensures-bind, Ensures-weaken,
}
use greynet.Adaptor.{
  write_content, send_headers, sink_content, sink_finish, sink_cancel, set_status_code,
  set_mime_type, set_content_length,
}
use greynet.Registry.{unregister_sidtransfer}
use greynet.Strategy.{store, finish, pass_on, cancel_handler, siddata_handler}
use greynet.Runs.Linked.{
  Entry, Linked, Updates, Updates-trans, Updates-of, Updates-strategy, Updates-adaptor,
  Linked-Updates,
}
use greynet.Runs.Register.{unregister_sidtransfer-Linked, unregister_sidtransfer-Linked_absent}

-- The objects were updated, and then the transfer was unregistered or not.
abbrev pub Outcome : Conn → Str → State → State → Type 0
Outcome c sid s t =
    Updates s t ⊎ ((u : State) × Updates s u × (unregister_sidtransfer c sid u ≡ ok t))

pub Outcome-Linked :
    (c : Conn) (sid : Str) (s t : State)
    → Linked s
    → Entry c sid s.conn2sid
    → Outcome c sid s t
    → Linked t
Outcome-Linked c sid s t l e (inl u) = Linked-Updates s t u l
Outcome-Linked c sid s t l e (inr (v, u, h)) =
    unregister_sidtransfer-Linked c sid v t (Linked-Updates s v u l) (rw (u.conn2sid) e) h

pub Outcome-Linked_absent :
    (c : Conn) (sid : Str) (s t : State)
    → Linked s
    → lookup sid s.sid2ss ≡ none
    → Outcome c sid s t
    → Linked t
Outcome-Linked_absent c sid s t l n (inl u) = Linked-Updates s t u l
Outcome-Linked_absent c sid s t l n (inr (v, u, h)) =
    unregister_sidtransfer-Linked_absent c sid v t (Linked-Updates s v u l) (rw (u.sid2ss) n) h

pub Outcome-from :
    (c : Conn) (sid : Str) (s u t : State) → Updates s u → Outcome c sid u t → Outcome c sid s t
Outcome-from c sid s u t k (inl l) = inl (Updates-trans k l)
Outcome-from c sid s u t k (inr (v, l, h)) = inr (v, Updates-trans k l, h)

pub emitted-Updates : (call : Call) (s : State) → Updates s (emit call s)
emitted-Updates call s = Updates-of s (emit call s) refl refl refl refl refl

module _ (env : Env) where
  pub write_content-Updates :
      (i : ℕ) (a : Adaptor) (b : Str) (s : State) → Updates s (write_content env i a b s)
  unfolding write_content send_headers
  write_content-Updates i a b s = elim (Bool-cases a.sentfirst) [
    | inl e ↦ rw (e, write_content) (Updates-of s _ refl refl refl refl refl)
    | inr e ↦
        let c : Adaptor = record a { sentfirst = true } in
        let t : State = record s { adaptors = insert i c s.adaptors } in
        rw (e, write_content)
          (Updates-trans (Updates-adaptor i c s) (Updates-of t _ refl refl refl refl refl))
  ]

  pub sink_content-Updates :
      (aa : Sink) (b : Str) (s : State) → Ensures (Updates s) (sink_content env aa b s)
  unfolding sink_content
  sink_content-Updates (http i) b s = Ensures-ok _ (emitted-Updates _ s)
  sink_content-Updates (relay i) b s =
      Ensures-or_fault (lookup i s.adaptors) _ _ λ a _. Ensures-ok _ (write_content-Updates i a b s)

  pub sink_finish-Updates : (aa : Sink) (s : State) → Ensures (Updates s) (sink_finish env aa s)
  unfolding sink_finish
  sink_finish-Updates (http i) s = Ensures-ok _ (emitted-Updates _ s)
  sink_finish-Updates (relay i) s =
      Ensures-or_fault (lookup i s.adaptors) _ _
        λ a _. Ensures-ok _ (write_content-Updates i a [] s)

  pub sink_cancel-Updates : (aa : Sink) (s : State) → Ensures (Updates s) (sink_cancel env aa s)
  unfolding sink_cancel
  sink_cancel-Updates (http i) s = Ensures-ok _ (emitted-Updates _ s)
  sink_cancel-Updates (relay i) s =
      Ensures-or_fault (lookup i s.adaptors) _ _ λ a _. Ensures-ok _ (emitted-Updates _ s)

  pub set_status_code-Updates :
      (aa : Sink) (z : ℤ) (s : State) → Ensures (Updates s) (set_status_code aa z s)
  unfolding set_status_code
  set_status_code-Updates (http i) z s = Ensures-ok _ (emitted-Updates _ s)
  set_status_code-Updates (relay i) z s =
      Ensures-or_fault (lookup i s.adaptors) _ _ λ a _. Ensures-ok _ (Updates-adaptor i _ s)

  pub set_mime_type-Updates :
      (aa : Sink) (m : Str) (s : State) → Ensures (Updates s) (set_mime_type aa m s)
  unfolding set_mime_type
  set_mime_type-Updates (http i) m s = Ensures-ok _ (emitted-Updates _ s)
  set_mime_type-Updates (relay i) m s =
      Ensures-or_fault (lookup i s.adaptors) _ _ λ a _. Ensures-ok _ (Updates-adaptor i _ s)

  pub set_content_length-Updates :
      (aa : Sink) (z : ℤ) (s : State) → Ensures (Updates s) (set_content_length aa z s)
  unfolding set_content_length
  set_content_length-Updates (http i) z s = Ensures-ok _ (emitted-Updates _ s)
  set_content_length-Updates (relay i) z s =
      Ensures-or_fault (lookup i s.adaptors) _ _ λ a _. Ensures-ok _ (Updates-adaptor i _ s)

  -- The end of a handler: the transfer is unregistered after the updates.
  unregistered :
      (c : Conn) (sid : Str) (s u : State)
      → Updates s u
      → Ensures (Outcome c sid s) (unregister_sidtransfer c sid u)
  unregistered c sid s u k = record { at = λ t h. inr (u, k, h) }

  pub cancel_handler-Outcome :
      (r : Ref) (x : Ss) (s : State)
      → lookup r s.strategies ≡ some x
      → Ensures (Outcome x.conn x.sid s) (cancel_handler env r s)
  unfolding cancel_handler
  cancel_handler-Outcome r x s h = rw h (
      Ensures-or_fault x.aa _ _ λ aa _.
        Ensures-bind (sink_cancel env aa s) _ (sink_cancel-Updates aa s)
          λ u k. unregistered x.conn x.sid s u k)

  pub siddata_handler-Outcome :
      (r : Ref) (x : Ss) (b : Str) (s : State)
      → lookup r s.strategies ≡ some x
      → Ensures (Outcome x.conn x.sid s) (siddata_handler env r b s)
  unfolding siddata_handler finish pass_on
  siddata_handler-Outcome r x b s h =
      let y : Ss = record x { finished = true } in
      let z : Ss = record x { bytes_transferred = (x.bytes_transferred + length b) % 2 ^ 64 } in
      let k = Updates-strategy r x y s h refl refl refl refl in
      let l = Updates-strategy r x z s h refl refl refl refl in
      rw h (
        Ensures-or_fault x.aa _ _ λ aa _.
          Ensures-if (length b == 0) _ _
            (Ensures-bind (sink_finish env aa (store r y s)) _
              (sink_finish-Updates aa (store r y s))
              λ u m. unregistered x.conn x.sid s u (Updates-trans k m))
            (Ensures-weaken (sink_content env aa b (store r z s)) (λ u m. inl (Updates-trans l m))
              (sink_content-Updates aa b (store r z s))))
