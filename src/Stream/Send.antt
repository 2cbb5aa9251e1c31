-- ===== src/Stream/Send.antt =====
-- What a `greynet_asyncadaptor` (src/greynet_asyncadaptor.hpp) writes to its connection.
use greynet.Base.{ℕ, Str, ◌≡◌, refl, true, false, some, List, [], ◌∷◌, arith, nat_eq}
use greynet.Base.Dict.{lookup, insert, lookup-insert_self}
use greynet.Platform.{Env, State, Adaptor, Call, ok, push_all}
use greynet.Adaptor.{write_content, write_finish, send_headers, sink_content, sink_finish}
use greynet.Stream.{play, data_messages, stream_messages, writes}

module _ (env : Env) where
  play_started :
      (i : ℕ) (a : Adaptor) (chunks : List Str) (s : State)
      → lookup i s.adaptors ≡ some a
      → a.sentfirst ≡ true
      → play env i chunks s
        ≡ ok (record s { log = push_all (writes a.conn (data_messages env a.sid chunks)) s.log })
  unfolding play sink_content sink_finish
  play_started i a [] s h k = ground arith
  play_started i a (chunk ∷ chunks) s h k =
      let t : State = record s {
        log =
            Call.async_write a.conn (env.general_message greynet.Messages.siddata chunk a.sid)
            ∷ s.log;
      } in
      ground (arith, play_started i a chunks t h k)

  -- An adaptor that has sent nothing yet writes to its connection, and does nothing else: its headers
  -- once, ahead of all data; the chunks in their order; and an empty SIDDATA at the end, also where
  -- there was no chunk.
  pub play-stream_messages :
      (i : ℕ) (a : Adaptor) (chunks : List Str) (s : State)
      → lookup i s.adaptors ≡ some a
      → a.sentfirst ≡ false
      → play env i chunks s
        ≡ ok (record s {
          adaptors = insert i (record a { sentfirst = true }) s.adaptors;
          log = push_all (writes a.conn (stream_messages env a chunks)) s.log;
        })
  unfolding play sink_content sink_finish
  play-stream_messages i a [] s h k = ground arith
  play-stream_messages i a (chunk ∷ chunks) s h k =
      let b : Adaptor = record a { sentfirst = true } in
      let t : State = record s {
        adaptors = insert i b s.adaptors;
        log =
            Call.async_write a.conn (env.general_message greynet.Messages.siddata chunk a.sid)
            ∷ Call.async_write a.conn (
                env.general_message greynet.Messages.sidheaders (greynet.Adaptor.header_text a)
                  a.sid)
            ∷ s.log;
      } in
      ground (arith, play_started i b chunks t (lookup-insert_self i b s.adaptors) refl)
