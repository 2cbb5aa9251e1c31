-- ===== src/Stream/Receive.antt =====
-- The receiving side of a stream (src/greynet.cpp, src/ss_greynet.cpp), from the messages to playdar's
-- adaptor, and the way from a source's adaptor to there.
use greynet.Base.{
  ℕ, ◌+◌, ◌%◌, ◌^◌, ◌<◌, Str, ◌≡◌, false, true, some, List, ◌∷◌, arith, nat_eq, str_eq, length,
  contains,
}
use greynet.Base.Int.{pos, to_unsigned}
use greynet.Base.Dict.{lookup, insert, erase, insert-insert, lookup-insert_self}
use greynet.Messages.{sidheaders}
use greynet.Platform.{Env, State, Ss, Adaptor, Conn, Ref, Call, ok, push_all}
use greynet.Adaptor.{header_text}
use greynet.Registry.{Transfers, erase_found}
use greynet.Strategy.{sidheaders_handler}
use greynet.Transfers.{handle_sidheaders}
use greynet.Dispatch.{message_received}
use greynet.Dispatch.Streams.{message_received-sidheaders}
use greynet.Stream.{receive, stream_messages}
use greynet.Stream.Headers.{IsSplit, sidheaders_handler-header_text}
use greynet.Stream.Data.{IsGeneral, AllChunks, total, playback, IsPlaying, receive_data}

module _ (env : Env) where
  pub handle_sidheaders_found :
      (r : Ref) (sid text : Str) (s : State) (conn : Conn)
      → IsGeneral env
      → length sid ≡ 36
      → lookup sid s.sid2ss ≡ some r
      → message_received env (env.general_message sidheaders text sid) conn s
        ≡ sidheaders_handler env r (env.general_message sidheaders text sid) s
  unfolding handle_sidheaders
  handle_sidheaders_found r sid text s conn g l h =
      let guid = g.guids sidheaders text sid l in
      let here =
        message_received-sidheaders env _ conn s (g.types sidheaders text sid (omega arith)) in
      ground arith

  -- The messages of a stream with status 200, a type without tabs and line ends, headers under
  -- 2 ^ 32 bytes, and chunks that are not empty and under 2 ^ 32 bytes each, reach a strategy that
  -- has the stream's sid, of 36 bytes, is its connection's first transfer, has a timer and plays into an
  -- adaptor of playdar's. The adaptor is then given the status, the type and the length, each chunk
  -- in its order, and the end, each once; the strategy has counted the bytes and is finished; and its
  -- transfer is no longer registered.
  pub receive-stream_messages :
      (a : Adaptor) (r : Ref) (x : Ss) (j : ℕ) (rest : Transfers) (conn : Conn) (chunks : List Str)
      (s : State)
      → IsGeneral env
      → IsSplit env.split
      → a.status ≡ pos 200
      → contains 10 a.mimetype ≡ false
      → contains 9 a.mimetype ≡ false
      → length (header_text a) < 2 ^ 32
      → a.sid ≡ x.sid
      → AllChunks chunks
      → IsPlaying r x j rest s
      → x.timer ≡ true
      → x.bytes_transferred < 2 ^ 64
      → receive env conn (stream_messages env a chunks) s
        ≡ ok (record s {
          strategies =
              insert r
                (record x {
                  contentlength = to_unsigned (2 ^ 64) a.contentlength;
                  bytes_transferred = (x.bytes_transferred + total chunks) % 2 ^ 64;
                  finished = true;
                })
                s.strategies;
          conn2sid = erase_found x.conn s.conn2sid;
          sid2ss = erase x.sid s.sid2ss;
          log =
              push_all
                (Call.cancel_timer r
                  ∷ Call.set_status_code j (pos 200)
                  ∷ Call.set_mime_type j a.mimetype
                  ∷ Call.set_content_length j a.contentlength
                  ∷ playback j chunks)
                s.log;
        })
  unfolding receive
  receive-stream_messages a r x j rest conn chunks s g law e h k z same n i timed b =
      let y : Ss = record x { contentlength = to_unsigned (2 ^ 64) a.contentlength } in
      let t : State = record s {
        strategies = insert r y s.strategies;
        log =
            Call.set_content_length j a.contentlength
            ∷ Call.set_mime_type j a.mimetype
            ∷ Call.set_status_code j (pos 200)
            ∷ Call.cancel_timer r
            ∷ s.log;
      } in
      let p : IsPlaying r y j rest t = record {
        registered = i.registered;
        is_guid = i.is_guid;
        held = lookup-insert_self r y s.strategies;
        playing = i.playing;
        first = i.first;
      } in
      let headers =
        sidheaders_handler-header_text env a r x j
          (env.general_message sidheaders (header_text a) x.sid) s law e h k
          (g.payloads sidheaders (header_text a) x.sid z) i.held i.playing timed in
      ground (
        arith,
        handle_sidheaders_found r x.sid (header_text a) s conn g i.is_guid i.registered,
        headers,
        receive_data env r y j rest conn chunks t g p b n,
        insert-insert r
            (record y {
              bytes_transferred = (y.bytes_transferred + total chunks) % 2 ^ 64;
              finished = true;
            })
            y s.strategies,
      )
