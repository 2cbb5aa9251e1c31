-- ===== src/Stream/Passing.antt =====
-- A whole stream on the side that passes it on: start_reply (src/ss_greynet.cpp) into an adaptor of
-- ours (src/greynet_asyncadaptor.hpp), and the messages that answer it.
use greynet.Base.{
  ℕ, ◌+◌, ◌%◌, ◌^◌, Str, ◌≡◌, refl, true, false, none, some, List, [], ◌∷◌, arith, nat_eq, str_eq,
  contains, length, ◌<◌,
}
use greynet.Adaptor.{header_text}
use greynet.Base.Int.{pos, to_unsigned}
use greynet.Base.Dict.{lookup, insert, insert-insert, lookup-insert_self, erase-insert}
use greynet.Platform.{Env, State, Ss, Adaptor, Conn, Ref, Call, ok, relay, push_all, ◌>>=◌}
use greynet.Registry.{find}
use greynet.Strategy.{start_reply}
use greynet.Stream.{receive, stream_messages, writes}
use greynet.Stream.Headers.{IsSplit}
use greynet.Stream.Data.{IsGeneral, AllChunks, total}
use greynet.Stream.Relay.{IsRelaying}
use greynet.Stream.Hop.{described, receive-stream_messages_relay}
use greynet.Stream.Session.{
  find-insert_pair, erase_found-insert_pair, started, request_calls, after_start, start_reply_lem,
}

module _ (env : Env) where
  -- A strategy whose connection is ready and has no transfer, and whose sid is not registered, starts
  -- a reply into an adaptor of ours that has sent nothing; then the messages of a stream arrive. The
  -- same stream is then sent on under the adaptor's sid, and the transfers are those from before.
  pub start_reply-receive_relay :
      (a : Adaptor) (r : Ref) (x : Ss) (i : ℕ) (b : Adaptor) (conn : Conn) (chunks : List Str)
      (s : State)
      → IsGeneral env
      → IsSplit env.split
      → a.status ≡ pos 200
      → contains 10 a.mimetype ≡ false
      → contains 9 a.mimetype ≡ false
      → length (header_text a) < 2 ^ 32
      → a.sid ≡ x.sid
      → length x.sid ≡ 36
      → AllChunks chunks
      → lookup r s.strategies ≡ some x
      → lookup i s.adaptors ≡ some b
      → b.sentfirst ≡ false
      → env.conn_ready s.log x.conn ≡ true
      → find x.conn s.conn2sid ≡ []
      → lookup x.sid s.sid2ss ≡ none
      → (start_reply env r (relay i) s >>= λ t. receive env conn (stream_messages env a chunks) t)
        ≡ ok (record s {
          strategies =
              insert r
                (record x {
                  bytes_transferred = total chunks % 2 ^ 64;
                  contentlength = to_unsigned (2 ^ 64) a.contentlength;
                  timer = true;
                  aa = some (relay i);
                  finished = true;
                })
                s.strategies;
          adaptors = insert i (record (described b a) { sentfirst = true }) s.adaptors;
          log =
              push_all
                (Call.cancel_timer r ∷ writes b.conn (stream_messages env (described b a) chunks))
                (push_all (request_calls env r x s.log) s.log);
        })
  start_reply-receive_relay a r x i b conn chunks s law split e h k z same l n held sink fresh ready
        free unknown =
      let y : Ss = started env x (relay i) in
      let t : State = after_start env r x (relay i) s in
      let (rest, first) = find-insert_pair x.conn x.sid s.conn2sid free in
      let p : IsRelaying r y i b rest t = record {
        registered = lookup-insert_self x.sid r s.sid2ss;
        is_guid = l;
        held = lookup-insert_self r y s.strategies;
        playing = refl;
        sink = sink;
        first = first;
      } in
      let received =
        receive-stream_messages_relay env a r y i b rest conn chunks t law split e h k z same n p
          fresh refl (omega arith) in
      let zero_add : 0 + total chunks ≡ total chunks = omega arith in
      rw (start_reply_lem env r x (relay i) s held ready) (
        ground (
          arith,
          received,
          zero_add,
          erase_found-insert_pair x.conn x.sid s.conn2sid free,
          erase-insert x.sid r s.sid2ss unknown,
          insert-insert r
              (record y {
                bytes_transferred = total chunks % 2 ^ 64;
                contentlength = to_unsigned (2 ^ 64) a.contentlength;
                finished = true;
              })
              y s.strategies,
        ))
