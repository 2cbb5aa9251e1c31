-- ===== src/Stream/Refused.antt =====
-- A request for a stream that a peer does not have: handle_sidrequest (src/greynet.cpp) answers with
-- headers, and sidheaders_handler (src/ss_greynet.cpp) gives up.
use greynet.Base.{
  ℕ, Str, codes, ◌≡◌, refl, ◌∙◌, ap, true, none, [], ◌∷◌, ◌++◌, nat_eq, str_eq, contains, arith,
}
use greynet.Base.Int.{pos}
use greynet.Base.Decimal.{atoi}
use greynet.Base.Dict.{erase}
use greynet.Messages.{Message, sidheaders}
use greynet.Platform.{Env, State, Ss, Conn, Ref, Call, ok, emit}
use greynet.Adaptor.{set_status_code, sink_cancel}
use greynet.Registry.{Transfers, erase_found}
use greynet.Registry.Loop.{unregister_found}
use greynet.Strategy.{
  is_200, cancel_handler, handle_status, handle_parts, header_lines, sidheaders_handler,
}
use greynet.Transfers.{handle_sidrequest}
use greynet.Dispatch.{message_received}
use greynet.Stream.Headers.{IsSplit, field, sidheaders_handler-lines}
use greynet.Stream.Data.{IsGeneral, IsPlaying}
use greynet.Stream.Receive.{handle_sidheaders_found}

abbrev not_found : Str
not_found = codes "status" ++ (9 ∷ codes "404" ++ (10 ∷ []))

module _ (env : Env) where
  pub cancel_handler-IsPlaying :
      (r : Ref) (x : Ss) (j : ℕ) (rest : Transfers) (s : State)
      → IsPlaying r x j rest s
      → cancel_handler env r s
        ≡ ok (record s {
          conn2sid = erase_found x.conn s.conn2sid;
          sid2ss = erase x.sid s.sid2ss;
          log = Call.write_cancel j ∷ s.log;
        })
  unfolding cancel_handler sink_cancel
  cancel_handler-IsPlaying r x j rest s i =
      rw (i.held, i.playing)
        (unregister_found x.conn x.sid rest (emit (Call.write_cancel j) s) i.first)

  split-not_found :
      IsSplit env.split
      → (env.split 10 not_found ≡ field "status" (codes "404") ∷ [] ∷ [])
        × (env.split 9 (field "status" (codes "404")) ≡ codes "status" ∷ codes "404" ∷ [])
  unfolding contains nat_eq
  split-not_found law = (
    law.next 10 (field "status" (codes "404")) [] refl
        ∙ ap (◌∷◌ (field "status" (codes "404"))) (law.last 10 [] refl),
    law.next 9 (codes "status") (codes "404") refl
        ∙ ap (◌∷◌ (codes "status")) (law.last 9 (codes "404") refl),
  )

  handle_status-not_found :
      (r : Ref) (x : Ss) (j : ℕ) (rest : Transfers) (s : State)
      → IsPlaying r x j rest s
      → handle_parts env (codes "status" ∷ codes "404" ∷ []) r s
        ≡ ok (
          true,
          record s {
            conn2sid = erase_found x.conn s.conn2sid;
            sid2ss = erase x.sid s.sid2ss;
            log = Call.write_cancel j ∷ Call.set_status_code j (pos 404) ∷ s.log;
          },
        )
  unfolding handle_parts str_eq nat_eq set_status_code is_200 handle_status atoi
  handle_status-not_found r x j rest s i =
      let t : State = emit (Call.set_status_code j (pos 404)) s in
      let p : IsPlaying r x j rest t = record {
        registered = i.registered;
        is_guid = i.is_guid;
        held = i.held;
        playing = i.playing;
        first = i.first;
      } in
      rw (i.held, i.playing, cancel_handler-IsPlaying r x j rest t p) refl

  sidheaders_handler-not_found :
      (r : Ref) (x : Ss) (j : ℕ) (rest : Transfers) (msg : Message) (s : State)
      → IsSplit env.split
      → env.msg_payload msg ≡ not_found
      → IsPlaying r x j rest s
      → x.timer ≡ true
      → sidheaders_handler env r msg s
        ≡ ok (record s {
          conn2sid = erase_found x.conn s.conn2sid;
          sid2ss = erase x.sid s.sid2ss;
          log =
              Call.write_cancel j ∷ Call.set_status_code j (pos 404) ∷ Call.cancel_timer r ∷ s.log;
        })
  unfolding header_lines
  sidheaders_handler-not_found r x j rest msg s law body i timed =
      let t : State = emit (Call.cancel_timer r) s in
      let p : IsPlaying r x j rest t = record {
        registered = i.registered;
        is_guid = i.is_guid;
        held = i.held;
        playing = i.playing;
        first = i.first;
      } in
      let (lines, parts) = split-not_found law in
      sidheaders_handler-lines env r x msg not_found s body i.held timed
      ∙ rw (lines, parts, handle_status-not_found r x j rest t p) refl

module _ (us them : Env) where
  -- Two plugins that build messages alike. A peer that has no stream for the sid of a request answers
  -- with one message and does nothing else. When that message reaches us, the sid has 36 bytes, and
  -- its strategy is its connection's first transfer, has a timer and plays into an adaptor of playdar's, we cancel
  -- the timer, give the adaptor the status 404, cancel it, unregister the transfer, and do nothing
  -- else.
  pub handle_sidrequest-message_received :
      (request : Message) (c conn : Conn) (r : Ref) (x : Ss) (j : ℕ) (rest : Transfers)
      (s t : State)
      → ((type : ℕ) (p g : Str) → them.general_message type p g ≡ us.general_message type p g)
      → IsGeneral us
      → IsSplit us.split
      → them.msg_payload request ≡ x.sid
      → them.get_ss t.log x.sid ≡ none
      → IsPlaying r x j rest s
      → x.timer ≡ true
      → (answer : Message) × (handle_sidrequest them c request t
          ≡ record t { log = Call.async_write c answer ∷ t.log })
        × (message_received us answer conn s
            ≡ ok (record s {
              conn2sid = erase_found x.conn s.conn2sid;
              sid2ss = erase x.sid s.sid2ss;
              log =
                  Call.write_cancel j
                  ∷ Call.set_status_code j (pos 404)
                  ∷ Call.cancel_timer r
                  ∷ s.log;
            }))
  unfolding handle_sidrequest
  handle_sidrequest-message_received request c conn r x j rest s t alike law split asked gone i
        timed =
      (
        us.general_message sidheaders not_found x.sid,
        rw (asked, gone, alike) refl,
        handle_sidheaders_found us r x.sid not_found s conn law i.is_guid i.registered
            ∙ sidheaders_handler-not_found us r x j rest
                (us.general_message sidheaders not_found x.sid) s split
                (law.payloads sidheaders not_found x.sid (omega arith)) i timed,
      )
