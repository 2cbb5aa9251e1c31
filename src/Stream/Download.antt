-- ===== src/Stream/Download.antt =====
-- A stream between two plugins from the request to the end: start_reply (src/ss_greynet.cpp) asks,
-- handle_sidrequest (src/greynet.cpp) hands the peer's strategy an adaptor
-- (src/greynet_asyncadaptor.hpp), and what that writes is received again.
use greynet.Base.{
  ℕ, suc, ◌%◌, ◌^◌, Str, ◌≡◌, refl, ◌∙◌, true, false, none, some, List, [], ◌∷◌, nat_eq, str_eq,
  contains, ==_refl, length, arith, ◌<◌,
}
use greynet.Base.Int.{ℤ, pos, to_unsigned}
use greynet.Base.Dict.{lookup, insert, insert-insert, lookup-insert_self}
use greynet.Messages.{sidrequest, siddata, sidheaders}
use greynet.Platform.{
  Env, State, Ss, Adaptor, Conn, Ref, Sink, Call, Result, ok, http, relay, push_all, ◌>>=◌,
}
use greynet.Adaptor.{header_text, new_adaptor}
use greynet.Registry.{find}
use greynet.Strategy.{start_reply}
use greynet.Dispatch.{message_received}
use greynet.Stream.{receive, stream_messages, data_messages, writes}
use greynet.Stream.Headers.{IsSplit}
use greynet.Stream.Data.{IsGeneral, AllChunks, total, playback}
use greynet.Stream.Session.{request_calls, after_start, start_reply_lem, start_reply-receive}
use greynet.Stream.Sent.{since, since-push_all, sent_calls, sent_calls-writes}
use greynet.Stream.Source.{serving, asked, answer, write_stream_lem, message_received-sidrequest}

module _ (us them : Env) where
  -- The strategy `r` asks for its stream; the peer gets what was written to our connection `c`, and
  -- answers; we get what it has written to its end `d` of the connection.
  unfoldable pub download :
      Ref → ℕ → Conn → Conn → Str → ℤ → List Str → State → State → Result (State × State)
  download r j c d mime len chunks s t = do
    s1 ← start_reply us r (http j) s
    t1 ← receive them d (since c s s1) t
    t2 ← answer them mime len chunks t1
    s2 ← receive us c (since d t t2) s1
    ok (s2, t2)

  -- The adaptor at the peer's end.
  abbrev pub sender : Conn → Str → Str → ℤ → Adaptor
  sender d sid mime len = record (new_adaptor d sid) {
    status = pos 200;
    mimetype = mime;
    contentlength = len;
  }

  data_messages-alike :
      (sid : Str) (chunks : List Str)
      → ((type : ℕ) (p g : Str) → them.general_message type p g ≡ us.general_message type p g)
      → data_messages them sid chunks ≡ data_messages us sid chunks
  data_messages-alike sid [] alike = rw (alike siddata [] sid) refl
  data_messages-alike sid (chunk ∷ chunks) alike =
      rw (alike siddata chunk sid, data_messages-alike sid chunks alike) refl

  pub stream_messages-alike :
      (a : Adaptor) (chunks : List Str)
      → ((type : ℕ) (p g : Str) → them.general_message type p g ≡ us.general_message type p g)
      → stream_messages them a chunks ≡ stream_messages us a chunks
  stream_messages-alike a chunks alike =
      rw (alike sidheaders (header_text a) a.sid, data_messages-alike a.sid chunks alike) refl

  pub requested :
      (r : Ref) (x : Ss) (aa : Sink) (s : State)
      → let guid = us.uuid (Call.gen_uuid ∷ s.log) in
        since x.conn s (after_start us r x aa s) ≡ us.general_message sidrequest x.sid guid ∷ []
  unfolding sent_calls nat_eq
  requested r x aa s =
      since-push_all x.conn (request_calls us r x s.log) s (after_start us r x aa s) refl
      ∙ rw (==_refl x.conn) refl

  pub served :
      (d : Conn) (x : Ss) (mime : Str) (len : ℤ) (chunks : List Str) (guid : Str) (ss : ℕ)
      (t t2 : State)
      → ((type : ℕ) (p g : Str) → them.general_message type p g ≡ us.general_message type p g)
      → t2.log
        ≡ push_all
            (writes d (stream_messages them (sender d x.sid mime len) chunks))
            (serving d x.sid guid ss t).log
      → since d t t2 ≡ stream_messages us (sender d x.sid mime len) chunks
  unfolding sent_calls new_adaptor
  served d x mime len chunks guid ss t t2 alike e =
      let a = sender d x.sid mime len in
      since-push_all d
        (Call.start_reply ss (relay t.next_address) ∷ writes d (stream_messages them a chunks)) t t2
        e
      ∙ sent_calls-writes d (stream_messages them a chunks)
      ∙ stream_messages-alike a chunks alike

  -- Two plugins that build messages alike; all that a connection is given arrives at its other end.
  -- Our strategy's connection is ready and has no transfer, and its sid is not registered; the peer
  -- has a source for the sid, and has not seen the guid of our request; the source writes a stream
  -- with a type without tabs and line ends, headers under 2 ^ 32 bytes, and chunks that are not empty
  -- and under 2 ^ 32 bytes each; the sid and the guid have 36 bytes. Then the download comes
  -- to its end: playdar's adaptor is given status 200, the source's type and length, each chunk in its
  -- order, and the end; the strategy has counted the bytes and is finished, and our transfers are
  -- those from before. The peer has one more adaptor and one more guid, and has done nothing but to
  -- hand the adaptor to the source, and to write the headers, each chunk and the end to the
  -- connection.
  pub download_lem :
      (r : Ref) (x : Ss) (j : ℕ) (d : Conn) (mime : Str) (len : ℤ) (chunks : List Str) (ss : ℕ)
      (s t : State)
      → ((type : ℕ) (p g : Str) → them.general_message type p g ≡ us.general_message type p g)
      → IsGeneral us
      → IsGeneral them
      → IsSplit us.split
      → contains 10 mime ≡ false
      → contains 9 mime ≡ false
      → length (header_text (sender d x.sid mime len)) < 2 ^ 32
      → AllChunks chunks
      → length x.sid ≡ 36
      → length (us.uuid (Call.gen_uuid ∷ s.log)) ≡ 36
      → lookup r s.strategies ≡ some x
      → us.conn_ready s.log x.conn ≡ true
      → find x.conn s.conn2sid ≡ []
      → lookup x.sid s.sid2ss ≡ none
      → contains (us.uuid (Call.gen_uuid ∷ s.log)) t.seen_guids ≡ false
      → them.get_ss t.log x.sid ≡ some ss
      → let guid = us.uuid (Call.gen_uuid ∷ s.log) in
        let a = sender d x.sid mime len in
        download r j x.conn d mime len chunks s t
        ≡ ok (
          record s {
            strategies =
                insert r
                  (record x {
                    bytes_transferred = total chunks % 2 ^ 64;
                    contentlength = to_unsigned (2 ^ 64) len;
                    timer = true;
                    aa = some (http j);
                    finished = true;
                  })
                  s.strategies;
            log =
                push_all
                  (Call.cancel_timer r
                    ∷ Call.set_status_code j (pos 200)
                    ∷ Call.set_mime_type j mime
                    ∷ Call.set_content_length j len
                    ∷ playback j chunks)
                  (push_all (request_calls us r x s.log) s.log);
          },
          record t {
            seen_guids = guid ∷ t.seen_guids;
            adaptors = insert t.next_address (record a { sentfirst = true }) t.adaptors;
            next_address = suc t.next_address;
            log =
                push_all
                  (Call.start_reply ss (relay t.next_address)
                    ∷ writes d (stream_messages them a chunks))
                  t.log;
          },
        )
  unfolding download receive answer asked new_adaptor
  download_lem r x j d mime len chunks ss s t alike g g' law e h z n l u held ready free unknown new
        has =
      let guid : Str = us.uuid (Call.gen_uuid ∷ s.log) in
      let a : Adaptor = sender d x.sid mime len in
      let s1 : State = after_start us r x (http j) s in
      let b : Adaptor = new_adaptor d x.sid in
      let t1 : State = serving d x.sid guid ss t in
      let first = start_reply_lem us r x (http j) s held ready in
      let heard : message_received them (us.general_message sidrequest x.sid guid) d t ≡ ok t1 =
        rw (← alike sidrequest x.sid guid)
          (message_received-sidrequest them x.sid guid ss d t g' u (omega arith) new has) in
      let wrote =
        write_stream_lem them mime len chunks t.next_address b t1
          (lookup-insert_self t.next_address b t.adaptors) refl in
      let got =
        start_reply-receive us a r x j x.conn chunks s g law refl e h z refl l n held ready free
          unknown in
      let c : Adaptor = record a { sentfirst = true } in
      let t2 : State = record t1 {
        adaptors = insert t.next_address c t1.adaptors;
        log = push_all (writes d (stream_messages them a chunks)) t1.log;
      } in
      rw (
        first,
        requested r x (http j) s,
        heard,
        wrote,
        served d x mime len chunks guid ss t t2 alike refl,
        rw first at got,
        insert-insert t.next_address c b t.adaptors,
      )
