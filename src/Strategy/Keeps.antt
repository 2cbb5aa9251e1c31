-- ===== src/Strategy/Keeps.antt =====
-- The methods of src/ss_greynet.cpp and of the adaptors, and the members that are not about
-- transfers.
use greynet.Base.{
  ℕ, ◌+◌, ◌%◌, ◌^◌, Str, codes, refl, inl, inr, Bool, true, false, List, [], ◌∷◌, ◌==◌, nat_eq,
  str_eq, length, Bool-cases,
}
use greynet.Base.Int.{ℤ}
use greynet.Base.Decimal.{atoi}
use greynet.Base.Dict.{lookup, erase}
use greynet.Messages.{Message}
use greynet.Platform.{Env, State, Ss, Adaptor, Conn, Ref, Sink, http, relay, Call, ok, emit}
use greynet.Platform.Frame.{
  Kept, Kept-of, Kept-refl, Keeps, whole, Keeps-ok, Keeps-fault, Keeps-if, Keeps-or_fault,
  Keeps-bind, Keeps-from,
}
use greynet.Adaptor.{
  write_content, write_finish, write_cancel, send_headers, sink_content, sink_finish, sink_cancel,
  set_status_code, set_mime_type, set_content_length,
}
use greynet.Registry.{Transfers, unregister_sidtransfer}
use greynet.Strategy.{
  store, finish, cancel_handler, siddata_handler, handle_status, handle_mime_type,
  handle_content_length, handle_header, handle_parts, header_lines, sidheaders_handler, is_200,
  pass_on,
}

erased-Kept :
    (sid : Str) (m : Transfers) (s : State)
    → Kept s (record s { conn2sid = m; sid2ss = erase sid s.sid2ss })
erased-Kept sid m s = Kept-of [] s _ refl refl refl refl refl refl

unregister_sidtransfer-Keeps :
    (c : Conn) (sid : Str) (s : State) → Keeps whole s (unregister_sidtransfer c sid s)
unfolding unregister_sidtransfer
unregister_sidtransfer-Keeps c sid s =
    Keeps-or_fault s _ _ _ λ m _. Keeps-ok s _ (erased-Kept sid m s)

module _ (env : Env) where
  pub write_content-Kept :
      (i : ℕ) (a : Adaptor) (b : Str) (s : State) → Kept s (write_content env i a b s)
  unfolding write_content
  write_content-Kept i a b s = elim (Bool-cases a.sentfirst) [
    | inl e ↦ rw (e, write_content) (Kept-of (_ ∷ []) s _ refl refl refl refl refl refl)
    | inr e ↦ rw (e, write_content) (Kept-of (_ ∷ _ ∷ []) s _ refl refl refl refl refl refl)
  ]

  write_cancel-Kept : (a : Adaptor) (s : State) → Kept s (write_cancel env a s)
  unfolding write_cancel
  write_cancel-Kept a s = Kept-of (_ ∷ []) s _ refl refl refl refl refl refl

  pub sink_content-Keeps :
      (aa : Sink) (b : Str) (s : State) → Keeps whole s (sink_content env aa b s)
  unfolding sink_content
  sink_content-Keeps (http i) b s =
      Keeps-ok s _ (Kept-of (_ ∷ []) s _ refl refl refl refl refl refl)
  sink_content-Keeps (relay i) b s =
      Keeps-or_fault s _ _ _ λ a _. Keeps-ok s _ (write_content-Kept i a b s)

  pub sink_finish-Keeps : (aa : Sink) (s : State) → Keeps whole s (sink_finish env aa s)
  unfolding sink_finish
  sink_finish-Keeps (http i) s = Keeps-ok s _ (Kept-of (_ ∷ []) s _ refl refl refl refl refl refl)
  sink_finish-Keeps (relay i) s =
      Keeps-or_fault s _ _ _ λ a _. Keeps-ok s _ (write_content-Kept i a [] s)

  pub sink_cancel-Keeps : (aa : Sink) (s : State) → Keeps whole s (sink_cancel env aa s)
  unfolding sink_cancel
  sink_cancel-Keeps (http i) s = Keeps-ok s _ (Kept-of (_ ∷ []) s _ refl refl refl refl refl refl)
  sink_cancel-Keeps (relay i) s = Keeps-or_fault s _ _ _ λ a _. Keeps-ok s _ (write_cancel-Kept a s)

  pub cancel_handler-Keeps : (r : Ref) (s : State) → Keeps whole s (cancel_handler env r s)
  unfolding cancel_handler
  cancel_handler-Keeps r s = Keeps-or_fault {A = Ss} s (lookup r s.strategies) _ _ λ x _.
      Keeps-or_fault {A = Sink} s x.aa _ _ λ aa _.
        Keeps-bind s (sink_cancel env aa s) _ (sink_cancel-Keeps aa s)
          λ t. unregister_sidtransfer-Keeps x.conn x.sid t

  stored-Kept : (r : Ref) (x : Ss) (s : State) → Kept s (store r x s)
  stored-Kept r x s = Kept-of [] s _ refl refl refl refl refl refl

  finish-Keeps : (r : Ref) (x : Ss) (aa : Sink) (s : State) → Keeps whole s (finish env r x aa s)
  unfolding finish
  finish-Keeps r x aa s =
      let y : Ss = record x { finished = true } in
      Keeps-bind s (sink_finish env aa (store r y s)) _
        (Keeps-from _ (stored-Kept r y s) (sink_finish-Keeps aa (store r y s)))
        λ t. unregister_sidtransfer-Keeps x.conn x.sid t

  pass_on-Keeps :
      (r : Ref) (x : Ss) (aa : Sink) (b : Str) (s : State) → Keeps whole s (pass_on env r x aa b s)
  unfolding pass_on
  pass_on-Keeps r x aa b s =
      let t : State =
        store r (record x { bytes_transferred = (x.bytes_transferred + length b) % 2 ^ 64 }) s in
      Keeps-from (sink_content env aa b t) (stored-Kept r _ s) (sink_content-Keeps aa b t)

  pub siddata_handler-Keeps :
      (r : Ref) (b : Str) (s : State) → Keeps whole s (siddata_handler env r b s)
  unfolding siddata_handler
  siddata_handler-Keeps r b s = Keeps-or_fault {A = Ss} s (lookup r s.strategies) _ _ λ x _.
      Keeps-or_fault {A = Sink} s x.aa _ _ λ aa _.
        Keeps-if s (length b == 0) (finish env r x aa s) (pass_on env r x aa b s)
          (λ _. finish-Keeps r x aa s) (λ _. pass_on-Keeps r x aa b s)

  pub set_status_code-Keeps :
      (aa : Sink) (z : ℤ) (s : State) → Keeps whole s (set_status_code aa z s)
  unfolding set_status_code
  set_status_code-Keeps (http i) z s =
      Keeps-ok s _ (Kept-of (_ ∷ []) s _ refl refl refl refl refl refl)
  set_status_code-Keeps (relay i) z s =
      Keeps-or_fault {A = Adaptor} s (lookup i s.adaptors) _ _ λ a _. Keeps-ok s _ (kept a)
    where
      kept : (a : Adaptor) → Kept s (greynet.Adaptor.store i (record a { status = z }) s)
      kept a = Kept-of [] s _ refl refl refl refl refl refl

  pub set_mime_type-Keeps : (aa : Sink) (m : Str) (s : State) → Keeps whole s (set_mime_type aa m s)
  unfolding set_mime_type
  set_mime_type-Keeps (http i) m s =
      Keeps-ok s _ (Kept-of (_ ∷ []) s _ refl refl refl refl refl refl)
  set_mime_type-Keeps (relay i) m s =
      Keeps-or_fault {A = Adaptor} s (lookup i s.adaptors) _ _ λ a _. Keeps-ok s _ (kept a)
    where
      kept : (a : Adaptor) → Kept s (greynet.Adaptor.store i (record a { mimetype = m }) s)
      kept a = Kept-of [] s _ refl refl refl refl refl refl

  pub set_content_length-Keeps :
      (aa : Sink) (z : ℤ) (s : State) → Keeps whole s (set_content_length aa z s)
  unfolding set_content_length
  set_content_length-Keeps (http i) z s =
      Keeps-ok s _ (Kept-of (_ ∷ []) s _ refl refl refl refl refl refl)
  set_content_length-Keeps (relay i) z s =
      Keeps-or_fault {A = Adaptor} s (lookup i s.adaptors) _ _ λ a _. Keeps-ok s _ (kept a)
    where
      kept : (a : Adaptor) → Kept s (greynet.Adaptor.store i (record a { contentlength = z }) s)
      kept a = Kept-of [] s _ refl refl refl refl refl refl

  abbrev after_line : Bool × State → State
  after_line out = out.1

  handle_status-Keeps :
      (aa : Sink) (z : ℤ) (r : Ref) (s : State) → Keeps after_line s (handle_status env aa z r s)
  unfolding handle_status
  handle_status-Keeps aa z r s =
      Keeps-bind s (set_status_code aa z s) _ (set_status_code-Keeps aa z s) λ t.
        Keeps-if t (is_200 z) (ok (false, t)) _ (λ _. Keeps-ok t (false, t) (Kept-refl t))
          (λ _.
            Keeps-bind t (cancel_handler env r t) _ (cancel_handler-Keeps r t)
              λ u. Keeps-ok u (true, u) (Kept-refl u))

  handle_mime_type-Keeps :
      (aa : Sink) (m : Str) (s : State) → Keeps after_line s (handle_mime_type env aa m s)
  unfolding handle_mime_type
  handle_mime_type-Keeps aa m s =
      Keeps-bind s (set_mime_type aa m s) _ (set_mime_type-Keeps aa m s)
        λ t. Keeps-ok t (false, t) (Kept-refl t)

  handle_content_length-Keeps :
      (aa : Sink) (z : ℤ) (r : Ref) (x : Ss) (s : State)
      → Keeps after_line s (handle_content_length env aa z r x s)
  unfolding handle_content_length
  handle_content_length-Keeps aa z r x s =
      Keeps-bind s (set_content_length aa z s) _ (set_content_length-Keeps aa z s)
        λ t. Keeps-ok t (false, _) (stored-Kept r _ t)

  handle_header-Keeps :
      (key value : Str) (r : Ref) (s : State) → Keeps after_line s (handle_header env key value r s)
  unfolding handle_header
  handle_header-Keeps key value r s = Keeps-or_fault {A = Ss} s (lookup r s.strategies) _ _ λ x _.
      Keeps-or_fault {A = Sink} s x.aa _ _ λ aa _.
        Keeps-if s (key == codes "status") (handle_status env aa (atoi value) r s) _
          (λ _. handle_status-Keeps aa (atoi value) r s)
          (λ _.
            Keeps-if s (key == codes "mime-type") (handle_mime_type env aa value s) _
              (λ _. handle_mime_type-Keeps aa value s)
              (λ _.
                Keeps-if s (key == codes "content-length")
                  (handle_content_length env aa (atoi value) r x s) (ok (false, s))
                  (λ _. handle_content_length-Keeps aa (atoi value) r x s)
                  (λ _. Keeps-ok s (false, s) (Kept-refl s))))

  handle_parts-Keeps :
      (parts : List Str) (r : Ref) (s : State) → Keeps after_line s (handle_parts env parts r s)
  unfolding handle_parts
  handle_parts-Keeps (key ∷ value ∷ []) r s = handle_header-Keeps key value r s
  handle_parts-Keeps _ r s = Keeps-ok s (false, s) (Kept-refl s)

  header_lines-Keeps :
      (lines : List Str) (r : Ref) (s : State) → Keeps whole s (header_lines env lines r s)
  unfolding header_lines
  header_lines-Keeps [] r s = Keeps-ok s s (Kept-refl s)
  header_lines-Keeps (line ∷ lines) r s =
      Keeps-bind s (handle_parts env (env.split 9 line) r s) _
        (handle_parts-Keeps (env.split 9 line) r s)
        λ out. go out.0 out.1 (header_lines-Keeps lines r out.1)
    where
      go :
          (stop : Bool) (t : State)
          → Keeps whole t (header_lines env lines r t)
          → Keeps whole t (elim stop [ true ↦ ok t | false ↦ header_lines env lines r t ])
      go true t k = Keeps-ok t t (Kept-refl t)
      go false t k = k

  pub sidheaders_handler-Keeps :
      (r : Ref) (msg : Message) (s : State) → Keeps whole s (sidheaders_handler env r msg s)
  unfolding sidheaders_handler
  sidheaders_handler-Keeps r msg s =
      let lines : List Str = env.split 10 (env.msg_payload msg) in
      let t : State = emit (Call.cancel_timer r) s in
      Keeps-or_fault {A = Ss} s (lookup r s.strategies) _ _ λ x _.
        Keeps-if s x.timer (header_lines env lines r t) _
          (λ _.
            Keeps-from (header_lines env lines r t)
              (Kept-of (Call.cancel_timer r ∷ []) s t refl refl refl refl refl refl)
              (header_lines-Keeps lines r t))
          (λ _. Keeps-fault s _)
