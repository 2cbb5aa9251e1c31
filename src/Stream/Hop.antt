-- ===== src/Stream/Hop.antt =====
-- One hop of a stream (src/ss_greynet.cpp, src/greynet_asyncadaptor.hpp): in on one connection, and
-- out on another.
use greynet.Base.{
  ℕ, ◌^◌, ◌<◌, Str, codes, ◌≡◌, refl, ◌∙◌, ap, false, true, some, List, [], ◌∷◌, arith, nat_eq,
  str_eq, contains, length,
}
use greynet.Base.Int.{pos, to_unsigned}
use greynet.Base.Decimal.{show_int, atoi}
use greynet.Base.Decimal.RoundTrip.{atoi-show_int, contains-show_int}
use greynet.Base.Dict.{lookup, insert, erase, insert-insert, lookup-insert_self}
use greynet.Messages.{Message, sidheaders}
use greynet.Platform.{Env, State, Ss, Adaptor, Conn, Ref, Call, ok, relay, emit, push_all}
use greynet.Adaptor.{header_text, set_status_code, set_mime_type, set_content_length, store}
use greynet.Registry.{Transfers, erase_found}
use greynet.Strategy.{sidheaders_handler, header_lines, handle_parts}
use greynet.Stream.{receive, stream_messages, writes}
use greynet.Stream.Headers.{
  IsSplit, field, split-header_text, split-field, header_lines-next, header_lines-end,
  sidheaders_handler-lines,
}
use greynet.Stream.Data.{IsGeneral, AllChunks}
use greynet.Stream.Receive.{handle_sidheaders_found}
use greynet.Stream.Relay.{IsRelaying, relayed, relay_data}

-- Our adaptor with the fields of the headers.
abbrev pub described : Adaptor → Adaptor → Adaptor
described b a = record b {
  status = pos 200;
  mimetype = a.mimetype;
  contentlength = a.contentlength;
}

module _ (env : Env) where
  status_line :
      (r : Ref) (x : Ss) (i : ℕ) (b : Adaptor) (value : Str) (s : State)
      → lookup r s.strategies ≡ some x
      → x.aa ≡ some (relay i)
      → lookup i s.adaptors ≡ some b
      → atoi value ≡ pos 200
      → handle_parts env (codes "status" ∷ value ∷ []) r s
        ≡ ok (false, store i (record b { status = pos 200 }) s)
  unfolding handle_parts str_eq set_status_code
  status_line r x i b value s h k l e = rw (h, k, l, e)

  mime_type_line :
      (r : Ref) (x : Ss) (i : ℕ) (b : Adaptor) (value : Str) (s : State)
      → lookup r s.strategies ≡ some x
      → x.aa ≡ some (relay i)
      → lookup i s.adaptors ≡ some b
      → handle_parts env (codes "mime-type" ∷ value ∷ []) r s
        ≡ ok (false, store i (record b { mimetype = value }) s)
  unfolding handle_parts str_eq set_mime_type
  mime_type_line r x i b value s h k l = rw (h, k, l)

  content_length_line :
      (r : Ref) (x : Ss) (i : ℕ) (b : Adaptor) (value : Str) (s : State)
      → lookup r s.strategies ≡ some x
      → x.aa ≡ some (relay i)
      → lookup i s.adaptors ≡ some b
      → handle_parts env (codes "content-length" ∷ value ∷ []) r s
        ≡ ok (
          false,
          greynet.Strategy.store r
              (record x { contentlength = to_unsigned (2 ^ 64) (atoi value) })
              (store i (record b { contentlength = atoi value }) s),
        )
  unfolding handle_parts str_eq set_content_length
  content_length_line r x i b value s h k l = rw (h, k, l)

  sidheaders_handler-relay :
      (a : Adaptor) (r : Ref) (x : Ss) (i : ℕ) (b : Adaptor) (msg : Message) (s : State)
      → IsSplit env.split
      → a.status ≡ pos 200
      → contains 10 a.mimetype ≡ false
      → contains 9 a.mimetype ≡ false
      → env.msg_payload msg ≡ header_text a
      → lookup r s.strategies ≡ some x
      → x.aa ≡ some (relay i)
      → lookup i s.adaptors ≡ some b
      → x.timer ≡ true
      → sidheaders_handler env r msg s
        ≡ ok (record s {
          strategies =
              insert r
                (record x { contentlength = to_unsigned (2 ^ 64) a.contentlength })
                s.strategies;
          adaptors = insert i (described b a) s.adaptors;
          log = Call.cancel_timer r ∷ s.log;
        })
  unfolding contains nat_eq
  sidheaders_handler-relay a r x i b msg s law e h k body held playing sink timed =
      let nine : 9 < 45 = omega arith in
      let b1 : Adaptor = record b { status = pos 200 } in
      let b2 : Adaptor = record b1 { mimetype = a.mimetype } in
      let s0 : State = emit (Call.cancel_timer r) s in
      let s1 : State = store i b1 s0 in
      let s2 : State = store i b2 s1 in
      let l1 =
        header_lines-next env (field "status" (show_int a.status)) _ _ r s0 s1
          (split-field env.split law "status" _ refl (contains-show_int 9 a.status nine))
          (status_line r x i b (show_int a.status) s0 held playing sink
            (atoi-show_int a.status ∙ e)) in
      let l2 =
        header_lines-next env (field "mime-type" a.mimetype) _ _ r s1 s2
          (split-field env.split law "mime-type" _ refl k)
          (mime_type_line r x i b1 a.mimetype s1 held playing
            (lookup-insert_self i b1 s.adaptors)) in
      let l3 =
        header_lines-next env (field "content-length" (show_int a.contentlength)) ([] ∷ []) _ r s2 _
          (split-field env.split law "content-length" _ refl
            (contains-show_int 9 a.contentlength nine))
          (content_length_line r x i b2 (show_int a.contentlength) s2 held playing
            (lookup-insert_self i b2 s1.adaptors)) in
      let start : sidheaders_handler env r msg s
          ≡ header_lines env (env.split 10 (header_text a)) r s0 =
        sidheaders_handler-lines env r x msg (header_text a) s body held timed in
      start
      ∙ ap (λ lines. header_lines env lines r s0) (split-header_text env.split law a h)
      ∙ l1
      ∙ l2
      ∙ l3
      ∙ header_lines-end env r _ (law.last 9 [] refl)
      ∙ ground (
        arith,
        atoi-show_int a.contentlength,
        insert-insert i b2 b1 s.adaptors,
        insert-insert i (described b a) b1 s.adaptors,
        insert-insert i (described b a) b2 (insert i b1 s.adaptors),
      )

  -- The messages of a stream with status 200, a type without tabs and line ends, headers under
  -- 2 ^ 32 bytes, and chunks that are not empty and under 2 ^ 32 bytes each, reach a strategy that
  -- has the stream's sid, of 36 bytes, is its connection's first transfer, has a timer and plays into an
  -- adaptor of ours that has sent nothing yet. Then the messages of the same stream go out on the
  -- adaptor's connection, under the adaptor's sid: the same status, type and length, the same chunks
  -- in their order, and the end. Besides, the timer is cancelled, the strategy has counted the bytes
  -- and is finished, the adaptor has the headers, and the transfer is no longer registered.
  pub receive-stream_messages_relay :
      (a : Adaptor) (r : Ref) (x : Ss) (i : ℕ) (b : Adaptor) (rest : Transfers) (conn : Conn)
      (chunks : List Str) (s : State)
      → IsGeneral env
      → IsSplit env.split
      → a.status ≡ pos 200
      → contains 10 a.mimetype ≡ false
      → contains 9 a.mimetype ≡ false
      → length (header_text a) < 2 ^ 32
      → a.sid ≡ x.sid
      → AllChunks chunks
      → IsRelaying r x i b rest s
      → b.sentfirst ≡ false
      → x.timer ≡ true
      → x.bytes_transferred < 2 ^ 64
      → receive env conn (stream_messages env a chunks) s
        ≡ ok (record s {
          strategies =
              insert r
                (relayed (record x { contentlength = to_unsigned (2 ^ 64) a.contentlength }) chunks)
                s.strategies;
          adaptors = insert i (record (described b a) { sentfirst = true }) s.adaptors;
          conn2sid = erase_found x.conn s.conn2sid;
          sid2ss = erase x.sid s.sid2ss;
          log =
              push_all
                (Call.cancel_timer r ∷ writes b.conn (stream_messages env (described b a) chunks))
                s.log;
        })
  unfolding receive
  receive-stream_messages_relay a r x i b rest conn chunks s g law e h k z same n l f timed w =
      let y : Ss = record x { contentlength = to_unsigned (2 ^ 64) a.contentlength } in
      let c : Adaptor = described b a in
      let t : State = record s {
        strategies = insert r y s.strategies;
        adaptors = insert i c s.adaptors;
        log = Call.cancel_timer r ∷ s.log;
      } in
      let p : IsRelaying r y i c rest t = record {
        registered = l.registered;
        is_guid = l.is_guid;
        held = lookup-insert_self r y s.strategies;
        playing = l.playing;
        sink = lookup-insert_self i c s.adaptors;
        first = l.first;
      } in
      let headers =
        sidheaders_handler-relay a r x i b (env.general_message sidheaders (header_text a) x.sid) s
          law e h k (g.payloads sidheaders (header_text a) x.sid z) l.held l.playing l.sink timed in
      ground (
        arith,
        handle_sidheaders_found env r x.sid (header_text a) s conn g l.is_guid l.registered,
        headers,
        relay_data env r y i c rest conn chunks t g p f w n,
        insert-insert r (relayed y chunks) y s.strategies,
        insert-insert i (record c { sentfirst = true }) c s.adaptors,
      )
