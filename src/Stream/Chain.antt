-- ===== src/Stream/Chain.antt =====
-- A stream over three plugins, from the request to the end (src/ss_greynet.cpp, src/greynet.cpp and
-- src/greynet_asyncadaptor.hpp): one asks, one passes the stream on, and one has it.
use greynet.Base.{
  ℕ, suc, ◌%◌, ◌^◌, Str, ◌≡◌, ◌≢◌, refl, ◌∙◌, true, false, none, some, List, [], ◌∷◌, ◌==◌, nat_eq,
  str_eq, contains, arith, length, ◌<◌,
}
use greynet.Base.Int.{ℤ, pos, to_unsigned}
use greynet.Base.Dict.{lookup, insert, insert-insert, lookup-insert_self}
use greynet.Messages.{sidrequest}
use greynet.Platform.{
  Env, State, Ss, Adaptor, Conn, Ref, Call, Result, ok, http, relay, push_all, ◌>>=◌,
}
use greynet.Adaptor.{new_adaptor, header_text}
use greynet.Registry.{find}
use greynet.Strategy.{start_reply}
use greynet.Dispatch.{message_received}
use greynet.Stream.{receive, stream_messages, writes}
use greynet.Stream.Headers.{IsSplit}
use greynet.Stream.Data.{IsGeneral, AllChunks, total, playback}
use greynet.Stream.Session.{request_calls, start_reply_lem, start_reply-receive}
use greynet.Stream.Sent.{since, since-push_all, sent_calls, sent_calls-writes}
use greynet.Stream.Source.{serving, asked, answer, write_stream_lem, message_received-sidrequest}
use greynet.Stream.Passing.{start_reply-receive_relay}
use greynet.Stream.Download.{sender, requested, served, stream_messages-alike}

module _ (us mid far : Env) where
  -- Our strategy `r` asks for its stream over our connection `c`, the next plugin's `d`. There playdar
  -- hands the adaptor to the strategy `q`, which asks over its connection `e`, the last plugin's `f`.
  -- Each gets what was written to the other end.
  unfoldable pub chain :
      Ref
      → ℕ
      → Conn
      → Conn
      → Ref
      → Conn
      → Conn
      → Str
      → ℤ
      → List Str
      → State
      → State
      → State
      → Result (State × State × State)
  chain r j c d q e f mime len chunks s m t = do
    s1 ← start_reply us r (http j) s
    m1 ← receive mid d (since c s s1) m
    elim (asked m1.log) [
      | none ↦ ok (s1, m1, t)
      | some i ↦ (do
        m2 ← start_reply mid q (relay i) m1
        t1 ← receive far f (since e m1 m2) t
        t2 ← answer far mime len chunks t1
        m3 ← receive mid e (since f t t2) m2
        s2 ← receive us c (since d m m3) s1
        ok (s2, m3, t2))
    ]

  -- What the next plugin has done in the end.
  abbrev pub passed : Ref → Ss → Str → Conn → Str → ℤ → List Str → Str → ℕ → State → State
  passed q y sid d mime len chunks guid ss m =
      let a : Adaptor = sender us mid d sid mime len in
      let m1 : State = serving d sid guid ss m in
      record m {
        seen_guids = guid ∷ m.seen_guids;
        strategies =
            insert q
              (record y {
                bytes_transferred = total chunks % 2 ^ 64;
                contentlength = to_unsigned (2 ^ 64) len;
                timer = true;
                aa = some (relay m.next_address);
                finished = true;
              })
              m.strategies;
        adaptors = insert m.next_address (record a { sentfirst = true }) m.adaptors;
        next_address = suc m.next_address;
        log =
            push_all (Call.cancel_timer q ∷ writes d (stream_messages mid a chunks))
              (push_all (request_calls mid q y m1.log) m1.log);
      }

  pub passed_on :
      (q : Ref) (y : Ss) (sid : Str) (d : Conn) (mime : Str) (len : ℤ) (chunks : List Str)
      (guid : Str) (ss : ℕ) (m : State)
      → ((type : ℕ) (p g : Str) → mid.general_message type p g ≡ us.general_message type p g)
      → y.conn ≢ d
      → since d m (passed q y sid d mime len chunks guid ss m)
        ≡ stream_messages us (sender us mid d sid mime len) chunks
  unfolding sent_calls new_adaptor
  passed_on q y sid d mime len chunks guid ss m alike n =
      let a : Adaptor = sender us mid d sid mime len in
      let m1 : State = serving d sid guid ss m in
      let other : (y.conn == d) ≡ false = ground arith in
      since-push_all d
        (Call.start_reply ss (relay m.next_address)
          ∷ Call.gen_uuid
          ∷ Call.async_write y.conn
              (mid.general_message sidrequest y.sid (mid.uuid (Call.gen_uuid ∷ m1.log)))
          ∷ Call.headers_timer q 5000
          ∷ Call.cancel_timer q
          ∷ writes d (stream_messages mid a chunks))
        m (passed q y sid d mime len chunks guid ss m) refl
      ∙ rw other (sent_calls-writes d (stream_messages mid a chunks))
      ∙ stream_messages-alike us mid a chunks alike

  -- Three plugins that build messages alike; all that a connection is given arrives at its other end,
  -- and the one in the middle has different connections to the other two. In both hops, the strategy's
  -- connection is ready and has no transfer, its sid is not registered, and the plugin that is asked
  -- has not seen the guid of the request and has a strategy or a source for the sid. The last one's
  -- source writes a stream with a type without tabs and line ends, headers under 2 ^ 32 bytes, and
  -- chunks that are not empty and under 2 ^ 32 bytes each. Both sids and both guids have 36 bytes.
  -- Then the stream comes to its end everywhere: playdar's adaptor on our side is given status 200, the
  -- source's type and length, each chunk in its order, and the end; both strategies have counted the
  -- bytes and are finished, and no transfer is left of it; the one in the middle has sent the headers,
  -- each chunk and the end on, once, under the sid that we asked for.
  pub chain_lem :
      (r : Ref) (x : Ss) (j : ℕ) (d : Conn) (q : Ref) (y : Ss) (f : Conn) (mime : Str) (len : ℤ)
      (chunks : List Str) (ss source : ℕ) (s m t : State)
      → ((type : ℕ) (p g : Str) → mid.general_message type p g ≡ us.general_message type p g)
      → ((type : ℕ) (p g : Str) → far.general_message type p g ≡ mid.general_message type p g)
      → IsGeneral us
      → IsGeneral mid
      → IsGeneral far
      → IsSplit us.split
      → IsSplit mid.split
      → contains 10 mime ≡ false
      → contains 9 mime ≡ false
      → length (header_text (sender us mid d x.sid mime len)) < 2 ^ 32
      → AllChunks chunks
      → y.conn ≢ d
      → length x.sid ≡ 36
      → length y.sid ≡ 36
      → length (us.uuid (Call.gen_uuid ∷ s.log)) ≡ 36
      → lookup r s.strategies ≡ some x
      → us.conn_ready s.log x.conn ≡ true
      → find x.conn s.conn2sid ≡ []
      → lookup x.sid s.sid2ss ≡ none
      → contains (us.uuid (Call.gen_uuid ∷ s.log)) m.seen_guids ≡ false
      → mid.get_ss m.log x.sid ≡ some ss
      → let guid = us.uuid (Call.gen_uuid ∷ s.log) in
        let m1 = serving d x.sid guid ss m in
        let next_guid = mid.uuid (Call.gen_uuid ∷ m1.log) in
        length next_guid ≡ 36
        → lookup q m.strategies ≡ some y
        → mid.conn_ready m1.log y.conn ≡ true
        → find y.conn m.conn2sid ≡ []
        → lookup y.sid m.sid2ss ≡ none
        → contains next_guid t.seen_guids ≡ false
        → far.get_ss t.log y.sid ≡ some source
        → let a = sender mid far f y.sid mime len in
          chain r j x.conn d q y.conn f mime len chunks s m t
          ≡ ok (
            record s {
              strategies =
                  insert r
                    (record x {
                      bytes_transferred = total chunks % 2 ^ 64;
                      contentlength = to_unsigned (2 ^ 64) len;
                      timer = true;
                      aa = some (http j);
                      finished = true;
                    })
                    s.strategies;
              log =
                  push_all
                    (Call.cancel_timer r
                      ∷ Call.set_status_code j (pos 200)
                      ∷ Call.set_mime_type j mime
                      ∷ Call.set_content_length j len
                      ∷ playback j chunks)
                    (push_all (request_calls us r x s.log) s.log);
            },
            passed q y x.sid d mime len chunks guid ss m,
            record t {
              seen_guids = next_guid ∷ t.seen_guids;
              adaptors = insert t.next_address (record a { sentfirst = true }) t.adaptors;
              next_address = suc t.next_address;
              log =
                  push_all
                    (Call.start_reply source (relay t.next_address)
                      ∷ writes f (stream_messages far a chunks))
                    t.log;
            },
          )
  unfolding chain receive answer asked new_adaptor header_text
  chain_lem r x j d q y f mime len chunks ss source s m t alike like g g1 g2 law law1 e h z n other
        l l1 u held ready free unknown new has u1 held1 ready1 free1 unknown1 new1 has1 =
      let guid : Str = us.uuid (Call.gen_uuid ∷ s.log) in
      let m1 : State = serving d x.sid guid ss m in
      let next_guid : Str = mid.uuid (Call.gen_uuid ∷ m1.log) in
      let i : ℕ = m.next_address in
      let first = start_reply_lem us r x (http j) s held ready in
      let heard : message_received mid (us.general_message sidrequest x.sid guid) d m ≡ ok m1 =
        rw (← alike sidrequest x.sid guid)
          (message_received-sidrequest mid x.sid guid ss d m g1 u (omega arith) new has) in
      let second = start_reply_lem mid q y (relay i) m1 held1 ready1 in
      let t1 : State = serving f y.sid next_guid source t in
      let heard1 : message_received far (mid.general_message sidrequest y.sid next_guid) f t
          ≡ ok t1 =
        rw (← like sidrequest y.sid next_guid) (
          message_received-sidrequest far y.sid next_guid source f t g2 u1 (omega arith) new1
            has1) in
      let b : Adaptor = new_adaptor f y.sid in
      let wrote =
        write_stream_lem far mime len chunks t.next_address b t1
          (lookup-insert_self t.next_address b t.adaptors) refl in
      let a : Adaptor = sender mid far f y.sid mime len in
      let t2 : State = record t1 {
        adaptors = insert t.next_address (record a { sentfirst = true }) t1.adaptors;
        log = push_all (writes f (stream_messages far a chunks)) t1.log;
      } in
      let b1 : Adaptor = new_adaptor d x.sid in
      let relayed =
        start_reply-receive_relay mid a q y i b1 y.conn chunks m1 g1 law1 refl e h z refl l1 n held1
          (lookup-insert_self i b1 m.adaptors) refl ready1 free1 unknown1 in
      let got =
        start_reply-receive us (sender us mid d x.sid mime len) r x j x.conn chunks s g law refl e h
          z refl l n held ready free unknown in
      rw (
        first,
        requested us mid r x (http j) s,
        heard,
        second,
        requested mid far q y (relay i) m1,
        heard1,
        wrote,
        served mid far f y mime len chunks next_guid source t t2 like refl,
        rw second at relayed,
        insert-insert i (record (sender us mid d x.sid mime len) { sentfirst = true }) b1
            m.adaptors,
        passed_on q y x.sid d mime len chunks guid ss m alike other,
        rw first at got,
        insert-insert t.next_address (record a { sentfirst = true }) b t.adaptors,
      )
