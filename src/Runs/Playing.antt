-- ===== src/Runs/Playing.antt =====
-- The handlers of src/ss_greynet.cpp on an object that plays: how they can fail to return.
use greynet.Base.{
  Str, codes, ◌≡◌, ◌≢◌, ◌∙◌, inl, inr, Bool, true, false, some, List, [], ◌∷◌, ◌==◌, nat_eq, str_eq,
  length,
}
use greynet.Base.Int.{ℤ}
use greynet.Base.Decimal.{atoi}
use greynet.Base.Dict.{lookup}
use greynet.Messages.{Message}
use greynet.Platform.{
  Env, State, Ss, Conn, Ref, Sink, http, relay, Call, ok, Fault, endless_loop, emit,
}
use greynet.Platform.Fails.{Fails, Fails-ok, Fails-if, Fails-bind, Fails-or_fault}
use greynet.Adaptor.{
  sink_content, sink_finish, sink_cancel, set_status_code, set_mime_type, set_content_length,
}
use greynet.Registry.{Transfers, find, unregister_sidtransfer}
use greynet.Registry.Loop.{unregister_sidtransfer-cases}
use greynet.Strategy.{
  store, finish, pass_on, cancel_handler, siddata_handler, handle_status, handle_mime_type,
  handle_content_length, handle_header, handle_parts, header_lines, sidheaders_handler, is_200,
}
use greynet.Runs.Linked.{Exists, Exists-Updates, Updates}
use greynet.Runs.Outcome.{
  cancel_handler-Outcome, emitted-Updates, sink_finish-Updates, sink_cancel-Updates,
  set_status_code-Updates, set_mime_type-Updates, set_content_length-Updates,
}
use greynet.Runs.Headers.{AfterLine, handle_parts-AfterLine}

-- The endless loop, of a connection whose first transfer is another's.
abbrev pub Stuck : Conn → Str → Transfers → Fault → Type 0
Stuck c sid m f =
    (f ≡ endless_loop) × ((t : Str) × (rest : Transfers) × (find c m ≡ (c, t) ∷ rest) × (t ≢ sid))

-- An object of a transfer that plays into an adaptor and has a timer.
pub record Playing (c : Conn) (sid : Str) (r : Ref) (s : State) : Type 0 where
  pub object : Ss
  pub sink : Sink
  pub held : lookup r s.strategies ≡ some object
  pub playing : object.aa ≡ some sink
  pub exists : Exists sink s.adaptors
  pub owner : object.conn ≡ c
  pub named : object.sid ≡ sid
  pub timed : object.timer ≡ true

Playing-Updates :
    (c : Conn) (sid : Str) (r : Ref) (s t : State)
    → Updates s t
    → Playing c sid r s
    → Playing c sid r t
Playing-Updates c sid r s t u p =
    let (y, h, a, b, e, d) = u.objects r p.object p.held in
    record {
      object = y;
      sink = p.sink;
      held = h;
      playing = e ∙ p.playing;
      exists = Exists-Updates p.sink s t u p.exists;
      owner = a ∙ p.owner;
      named = b ∙ p.named;
      timed = d ∙ p.timed;
    }

unregister_sidtransfer-Fails :
    (c : Conn) (sid : Str) (s : State)
    → Fails (Stuck c sid s.conn2sid) (unregister_sidtransfer c sid s)
unregister_sidtransfer-Fails c sid s = record {
  at = λ f e. elim (unregister_sidtransfer-cases c sid s) [
    | inl (g, k) ↦ absurd (cc)
    | inr (inl (rest, g, k)) ↦ absurd (cc)
    | inr (inr (t, rest, g, n, k, always)) ↦ (cc, (t, rest, g, n))
  ];
}

module _ (env : Env) {P : Fault → Type 0} where
  sink_finish-Fails :
      (aa : Sink) (s : State) → Exists aa s.adaptors → Fails P (sink_finish env aa s)
  unfolding sink_finish
  sink_finish-Fails (http i) s e = Fails-ok _
  sink_finish-Fails (relay i) s (a, h) = rw h (Fails-ok _)

  sink_cancel-Fails :
      (aa : Sink) (s : State) → Exists aa s.adaptors → Fails P (sink_cancel env aa s)
  unfolding sink_cancel
  sink_cancel-Fails (http i) s e = Fails-ok _
  sink_cancel-Fails (relay i) s (a, h) = rw h (Fails-ok _)

  sink_content-Fails :
      (aa : Sink) (b : Str) (s : State) → Exists aa s.adaptors → Fails P (sink_content env aa b s)
  unfolding sink_content
  sink_content-Fails (http i) b s e = Fails-ok _
  sink_content-Fails (relay i) b s (a, h) = rw h (Fails-ok _)

module _ {P : Fault → Type 0} where
  set_status_code-Fails :
      (aa : Sink) (z : ℤ) (s : State) → Exists aa s.adaptors → Fails P (set_status_code aa z s)
  unfolding set_status_code
  set_status_code-Fails (http i) z s e = Fails-ok _
  set_status_code-Fails (relay i) z s (a, h) = rw h (Fails-ok _)

  set_mime_type-Fails :
      (aa : Sink) (m : Str) (s : State) → Exists aa s.adaptors → Fails P (set_mime_type aa m s)
  unfolding set_mime_type
  set_mime_type-Fails (http i) m s e = Fails-ok _
  set_mime_type-Fails (relay i) m s (a, h) = rw h (Fails-ok _)

  set_content_length-Fails :
      (aa : Sink) (z : ℤ) (s : State) → Exists aa s.adaptors → Fails P (set_content_length aa z s)
  unfolding set_content_length
  set_content_length-Fails (http i) z s e = Fails-ok _
  set_content_length-Fails (relay i) z s (a, h) = rw h (Fails-ok _)

module _ (env : Env) (c : Conn) (sid : Str) (r : Ref) where
  pub cancel_handler-Fails :
      (s : State) → Playing c sid r s → Fails (Stuck c sid s.conn2sid) (cancel_handler env r s)
  unfolding cancel_handler
  cancel_handler-Fails s p =
      rw (p.held, p.playing, p.owner, p.named)
        (Fails-bind (sink_cancel env p.sink s) _ (sink_cancel-Updates env p.sink s)
          (sink_cancel-Fails env p.sink s p.exists)
          λ t u. rw (← u.conn2sid) (unregister_sidtransfer-Fails c sid t))

  pub siddata_handler-Fails :
      (b : Str) (s : State)
      → Playing c sid r s
      → Fails (Stuck c sid s.conn2sid) (siddata_handler env r b s)
  unfolding siddata_handler finish pass_on
  siddata_handler-Fails b s p =
      let x = p.object in
      let y : Ss = record x { finished = true } in
      rw p.held (
        Fails-or_fault x.aa _ _ p.sink p.playing (
          Fails-if (length b == 0) _ _
            (Fails-bind (sink_finish env p.sink (store r y s)) _
              (sink_finish-Updates env p.sink (store r y s))
              (sink_finish-Fails env p.sink (store r y s) p.exists)
              λ t u. rw (← u.conn2sid, p.owner, p.named) (unregister_sidtransfer-Fails c sid t))
            (sink_content-Fails env p.sink b _ p.exists)))

  handle_status-Fails :
      (aa : Sink) (z : ℤ) (s : State)
      → Exists aa s.adaptors
      → Playing c sid r s
      → Fails (Stuck c sid s.conn2sid) (handle_status env aa z r s)
  unfolding handle_status
  handle_status-Fails aa z s e p =
      Fails-bind (set_status_code aa z s) _ (set_status_code-Updates env aa z s)
        (set_status_code-Fails aa z s e)
        λ t u.
          let q = Playing-Updates c sid r s t u p in
          Fails-if (is_200 z) _ _ (Fails-ok _) (
            Fails-bind (cancel_handler env r t) _ (cancel_handler-Outcome env r q.object t q.held)
              (rw (← u.conn2sid) (cancel_handler-Fails t q)) λ v w. Fails-ok _)

  handle_header-Fails :
      (key value : Str) (s : State)
      → Playing c sid r s
      → Fails (Stuck c sid s.conn2sid) (handle_header env key value r s)
  unfolding handle_header handle_mime_type handle_content_length
  handle_header-Fails key value s p =
      let aa = p.sink in
      rw p.held (
        Fails-or_fault p.object.aa _ _ aa p.playing (
          Fails-if (key == codes "status") _ _ (handle_status-Fails aa (atoi value) s p.exists p) (
            Fails-if (key == codes "mime-type") _ _
              (Fails-bind (set_mime_type aa value s) _ (set_mime_type-Updates env aa value s)
                (set_mime_type-Fails aa value s p.exists) λ t u. Fails-ok _)
              (Fails-if (key == codes "content-length") _ _
                (Fails-bind (set_content_length aa (atoi value) s) _
                  (set_content_length-Updates env aa (atoi value) s)
                  (set_content_length-Fails aa (atoi value) s p.exists) λ t u. Fails-ok _)
                (Fails-ok _)))))

  handle_parts-Fails :
      (parts : List Str) (s : State)
      → Playing c sid r s
      → Fails (Stuck c sid s.conn2sid) (handle_parts env parts r s)
  unfolding handle_parts
  handle_parts-Fails (key ∷ value ∷ []) s p = handle_header-Fails key value s p
  handle_parts-Fails _ s p = Fails-ok _

  header_lines-Fails :
      (lines : List Str) (s : State)
      → Playing c sid r s
      → Fails (Stuck c sid s.conn2sid) (header_lines env lines r s)
  unfolding header_lines
  header_lines-Fails [] s p = Fails-ok _
  header_lines-Fails (line ∷ lines) s p =
      Fails-bind (handle_parts env (env.split 9 line) r s) _
        (handle_parts-AfterLine env (env.split 9 line) r p.object s p.held)
        (handle_parts-Fails (env.split 9 line) s p)
        λ out. go out.0 out.1 (header_lines-Fails lines out.1)
    where
      go :
          (stop : Bool) (t : State)
          → (Playing c sid r t → Fails (Stuck c sid t.conn2sid) (header_lines env lines r t))
          → AfterLine env p.object.conn p.object.sid s (stop, t)
          → Fails
              (Stuck c sid s.conn2sid)
              (elim stop [ true ↦ ok t | false ↦ header_lines env lines r t ])
      go true t rest k = Fails-ok t
      go false t rest k = rw (← k.conn2sid) (rest (Playing-Updates c sid r s t k p))

  pub sidheaders_handler-Fails :
      (msg : Message) (s : State)
      → Playing c sid r s
      → Fails (Stuck c sid s.conn2sid) (sidheaders_handler env r msg s)
  unfolding sidheaders_handler
  sidheaders_handler-Fails msg s p =
      let lines : List Str = env.split 10 (env.msg_payload msg) in
      let t : State = emit (Call.cancel_timer r) s in
      rw (p.held, p.timed)
        (header_lines-Fails lines t
          (Playing-Updates c sid r s t (emitted-Updates (Call.cancel_timer r) s) p))
