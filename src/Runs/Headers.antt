-- ===== src/Runs/Headers.antt =====
-- What sidheaders_handler (src/ss_greynet.cpp) does to the transfers.
use greynet.Base.{
  ◌^◌, Str, codes, ◌≡◌, sym, inl, Bool, true, false, some, List, [], ◌∷◌, ◌==◌, nat_eq, str_eq,
}
use greynet.Base.Int.{ℤ, to_unsigned}
use greynet.Base.Decimal.{atoi}
use greynet.Base.Dict.{lookup}
use greynet.Messages.{Message}
use greynet.Platform.{Env, State, Ss, Conn, Ref, Sink, Call, ok, emit}
use greynet.Platform.Frame.{
  Ensures, Ensures-ok, Ensures-fault, Ensures-if, Ensures-or_fault, Ensures-bind, Ensures-weaken,
}
use greynet.Adaptor.{set_status_code, set_mime_type, set_content_length}
use greynet.Strategy.{
  store, cancel_handler, handle_status, handle_mime_type, handle_content_length, handle_header,
  handle_parts, header_lines, sidheaders_handler, is_200,
}
use greynet.Runs.Linked.{Updates, Updates-refl, Updates-trans, Updates-strategy}
use greynet.Runs.Outcome.{
  Outcome, Outcome-from, emitted-Updates, cancel_handler-Outcome, set_status_code-Updates,
  set_mime_type-Updates, set_content_length-Updates,
}

module _ (env : Env) where
  -- A header line: the flag says that the handler is left, and then the outcome is settled.
  abbrev pub AfterLine : Conn → Str → State → Bool × State → Type 0
  AfterLine c sid s (true, t) = Outcome c sid s t
  AfterLine c sid s (false, t) = Updates s t

  handle_status-AfterLine :
      (aa : Sink) (z : ℤ) (r : Ref) (x : Ss) (s : State)
      → lookup r s.strategies ≡ some x
      → Ensures (AfterLine x.conn x.sid s) (handle_status env aa z r s)
  unfolding handle_status
  handle_status-AfterLine aa z r x s h =
      Ensures-bind (set_status_code aa z s) _ (set_status_code-Updates env aa z s) λ t k.
        let (y, g, c, d, a, b) = k.objects r x h in
        Ensures-if (is_200 z) _ _ (Ensures-ok (false, t) k) (
          Ensures-bind (cancel_handler env r t) _ (cancel_handler-Outcome env r y t g)
            λ u o. Ensures-ok (true, u) (Outcome-from x.conn x.sid s t u k (rw (← c, ← d) o)))

  handle_header-AfterLine :
      (key value : Str) (r : Ref) (x : Ss) (s : State)
      → lookup r s.strategies ≡ some x
      → Ensures (AfterLine x.conn x.sid s) (handle_header env key value r s)
  unfolding handle_header handle_mime_type handle_content_length
  handle_header-AfterLine key value r x s h = rw h (
      Ensures-or_fault x.aa _ _ λ aa _.
        Ensures-if (key == codes "status") _ _ (handle_status-AfterLine aa (atoi value) r x s h) (
          Ensures-if (key == codes "mime-type") _ _
            (Ensures-bind (set_mime_type aa value s) _ (set_mime_type-Updates env aa value s)
              λ t k. Ensures-ok (false, t) k)
            (Ensures-if (key == codes "content-length") _ _
              (Ensures-bind (set_content_length aa (atoi value) s) _
                (set_content_length-Updates env aa (atoi value) s) λ t k. stored t k)
              (Ensures-ok (false, s) (Updates-refl s)))))
    where
      stored :
          (t : State)
          → Updates s t
          → Ensures (AfterLine x.conn x.sid s) (
              ok
                (false, store r (record x { contentlength = to_unsigned (2 ^ 64) (atoi value) }) t))
      stored t k =
          let (y, g, c, d, a, b) = k.objects r x h in
          Ensures-ok (false, _)
            (Updates-trans k (Updates-strategy r y _ t g (sym c) (sym d) (sym a) (sym b)))

  pub handle_parts-AfterLine :
      (parts : List Str) (r : Ref) (x : Ss) (s : State)
      → lookup r s.strategies ≡ some x
      → Ensures (AfterLine x.conn x.sid s) (handle_parts env parts r s)
  unfolding handle_parts
  handle_parts-AfterLine (key ∷ value ∷ []) r x s h = handle_header-AfterLine key value r x s h
  handle_parts-AfterLine _ r x s h = Ensures-ok (false, s) (Updates-refl s)

  header_lines-Outcome :
      (lines : List Str) (r : Ref) (x : Ss) (s : State)
      → lookup r s.strategies ≡ some x
      → Ensures (Outcome x.conn x.sid s) (header_lines env lines r s)
  unfolding header_lines
  header_lines-Outcome [] r x s h = Ensures-ok s (inl (Updates-refl s))
  header_lines-Outcome (line ∷ lines) r x s h =
      Ensures-bind (handle_parts env (env.split 9 line) r s) _
        (handle_parts-AfterLine (env.split 9 line) r x s h)
        λ out. go out.0 out.1 (λ y g. header_lines-Outcome lines r y out.1 g)
    where
      go :
          (stop : Bool) (t : State)
          → ((y : Ss)
              → lookup r t.strategies ≡ some y
              → Ensures (Outcome y.conn y.sid t) (header_lines env lines r t))
          → AfterLine x.conn x.sid s (stop, t)
          → Ensures
              (Outcome x.conn x.sid s)
              (elim stop [ true ↦ ok t | false ↦ header_lines env lines r t ])
      go true t rest k = Ensures-ok t k
      go false t rest k =
          let (y, g, c, d, a, b) = k.objects r x h in
          Ensures-weaken (header_lines env lines r t)
            (λ u o. Outcome-from x.conn x.sid s t u k (rw (← c, ← d) o)) (rest y g)

  pub sidheaders_handler-Outcome :
      (r : Ref) (x : Ss) (msg : Message) (s : State)
      → lookup r s.strategies ≡ some x
      → Ensures (Outcome x.conn x.sid s) (sidheaders_handler env r msg s)
  unfolding sidheaders_handler
  sidheaders_handler-Outcome r x msg s h =
      let lines : List Str = env.split 10 (env.msg_payload msg) in
      let t : State = emit (Call.cancel_timer r) s in
      rw h (
        Ensures-if x.timer _ _
          (Ensures-weaken (header_lines env lines r t)
            (λ u o. Outcome-from x.conn x.sid s t u (emitted-Updates (Call.cancel_timer r) s) o)
            (header_lines-Outcome lines r x t h))
          (Ensures-fault _))
