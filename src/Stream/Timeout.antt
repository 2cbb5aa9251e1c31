-- ===== src/Stream/Timeout.antt =====
-- The timer for the headers (src/ss_greynet.cpp, timeout_cb) against a SIDFAIL that comes first.
use greynet.Base.{ℕ, Str, ◌≡◌, false, some, [], ◌∷◌, arith, nat_eq, str_eq, length}
use greynet.Base.Dict.{lookup, erase}
use greynet.Messages.{sidfail}
use greynet.Platform.{Env, State, Ss, Conn, Ref, Call, ok, ◌>>=◌}
use greynet.Adaptor.{sink_cancel}
use greynet.Registry.{Transfers, find, erase_found}
use greynet.Registry.Loop.{unregister_absent}
use greynet.Strategy.{cancel_handler, timeout_cb}
use greynet.Transfers.{handle_sidfail}
use greynet.Dispatch.{message_received}
use greynet.Dispatch.Streams.{message_received-sidfail}
use greynet.Stream.Data.{IsGeneral, IsPlaying}
use greynet.Stream.Refused.{cancel_handler-IsPlaying}

module _ (env : Env) where
  message_received-cancel_handler :
      (r : Ref) (sid : Str) (conn : Conn) (s : State)
      → IsGeneral env
      → length sid ≡ 36
      → lookup sid s.sid2ss ≡ some r
      → message_received env (env.general_message sidfail [] sid) conn s ≡ cancel_handler env r s
  unfolding handle_sidfail
  message_received-cancel_handler r sid conn s g l h =
      let guid = g.guids sidfail [] sid l in
      let here = message_received-sidfail env _ conn s (g.types sidfail [] sid (omega arith)) in
      ground arith

  -- A SIDFAIL for a strategy that has a sid of 36 bytes, is its connection's first transfer and plays into an adaptor of
  -- playdar's does not cancel the strategy's timer: if that then expires, with the strategy still
  -- there and no other transfer on the connection, the adaptor is cancelled a second time.
  pub message_received-timeout_cb :
      (r : Ref) (x : Ss) (j : ℕ) (rest : Transfers) (conn : Conn) (s : State)
      → IsGeneral env
      → IsPlaying r x j rest s
      → find x.conn (erase_found x.conn s.conn2sid) ≡ []
      → (message_received env (env.general_message sidfail [] x.sid) conn s >>= λ t.
          timeout_cb env false r t)
        ≡ ok (record s {
          conn2sid = erase_found x.conn s.conn2sid;
          sid2ss = erase x.sid (erase x.sid s.sid2ss);
          log = Call.write_cancel j ∷ Call.write_cancel j ∷ s.log;
        })
  unfolding timeout_cb cancel_handler sink_cancel
  message_received-timeout_cb r x j rest conn s g i alone =
      let t : State = record s {
        conn2sid = erase_found x.conn s.conn2sid;
        sid2ss = erase x.sid s.sid2ss;
        log = Call.write_cancel j ∷ Call.write_cancel j ∷ s.log;
      } in
      rw (message_received-cancel_handler r x.sid conn s g i.is_guid i.registered) (
        rw (cancel_handler-IsPlaying env r x j rest s i)
          (rw (i.held, i.playing) (unregister_absent x.conn x.sid t alone)))
