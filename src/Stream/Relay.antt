-- ===== src/Stream/Relay.antt =====
-- A stream that is passed on: a strategy (src/ss_greynet.cpp) that plays into the adaptor of another
-- connection (src/greynet_asyncadaptor.hpp), as handle_sidrequest (src/greynet.cpp) makes it.
use greynet.Base.{
  ℕ, ◌+◌, ◌%◌, ◌^◌, ◌<◌, Str, ◌≡◌, ◌≢◌, refl, false, true, some, List, [], ◌∷◌, arith, nat_eq,
  str_eq, length,
}
use greynet.Base.Dict.{lookup, insert, erase, insert-insert, lookup-insert_self}
use greynet.Messages.{siddata, sidheaders}
use greynet.Platform.{Env, State, Ss, Adaptor, Conn, Ref, Call, ok, relay, push_all}
use greynet.Adaptor.{
  header_text, send_headers, write_content, write_finish, sink_content, sink_finish,
}
use greynet.Registry.{Transfers, find, erase_found}
use greynet.Registry.Loop.{unregister_found}
use greynet.Strategy.{finish, pass_on, siddata_handler}
use greynet.Stream.{receive, data_messages, stream_messages, writes}
use greynet.Stream.Data.{IsGeneral, AllChunks, total, handle_siddata_found}

-- A strategy with a sid as long as a guid that plays into our adaptor `b` at the address `i`,
-- registered as its connection's first transfer.
pub record IsRelaying (r : Ref) (x : Ss) (i : ℕ) (b : Adaptor) (rest : Transfers) (s : State)
    : Type 0 where
  pub registered : lookup x.sid s.sid2ss ≡ some r
  pub is_guid : length x.sid ≡ 36
  pub held : lookup r s.strategies ≡ some x
  pub playing : x.aa ≡ some (relay i)
  pub sink : lookup i s.adaptors ≡ some b
  pub first : find x.conn s.conn2sid ≡ (x.conn, x.sid) ∷ rest

-- What the strategy becomes once it has passed its chunks on.
abbrev pub relayed : Ss → List Str → Ss
relayed x chunks = record x {
  bytes_transferred = (x.bytes_transferred + total chunks) % 2 ^ 64;
  finished = true;
}

module _ (env : Env) where
  -- The calls of one chunk.
  abbrev chunk_call : Adaptor → Str → Call
  chunk_call b chunk = Call.async_write b.conn (env.general_message siddata chunk b.sid)

  abbrev headers_call : Adaptor → Call
  headers_call b = Call.async_write b.conn (env.general_message sidheaders (header_text b) b.sid)

  siddata_started :
      (r : Ref) (x : Ss) (i : ℕ) (b : Adaptor) (rest : Transfers) (chunk : Str) (s : State)
      → IsRelaying r x i b rest s
      → b.sentfirst ≡ true
      → chunk ≢ []
      → siddata_handler env r chunk s
        ≡ ok (record s {
          strategies =
              insert r
                (record x { bytes_transferred = (x.bytes_transferred + length chunk) % 2 ^ 64 })
                s.strategies;
          log = chunk_call b chunk ∷ s.log;
        })
  unfolding siddata_handler pass_on sink_content write_content nat_eq
  siddata_started r x i b rest [] s l f n = absurd (n refl)
  siddata_started r x i b rest (c ∷ chunk) s l f n =
      let h = l.held in let k = l.playing in let m = l.sink in ground arith

  siddata_first :
      (r : Ref) (x : Ss) (i : ℕ) (b : Adaptor) (rest : Transfers) (chunk : Str) (s : State)
      → IsRelaying r x i b rest s
      → b.sentfirst ≡ false
      → chunk ≢ []
      → siddata_handler env r chunk s
        ≡ ok (record s {
          strategies =
              insert r
                (record x { bytes_transferred = (x.bytes_transferred + length chunk) % 2 ^ 64 })
                s.strategies;
          adaptors = insert i (record b { sentfirst = true }) s.adaptors;
          log = chunk_call b chunk ∷ headers_call b ∷ s.log;
        })
  unfolding siddata_handler pass_on sink_content write_content send_headers nat_eq
  siddata_first r x i b rest [] s l f n = absurd (n refl)
  siddata_first r x i b rest (c ∷ chunk) s l f n =
      let h = l.held in let k = l.playing in let m = l.sink in ground arith

  siddata_end_started :
      (r : Ref) (x : Ss) (i : ℕ) (b : Adaptor) (rest : Transfers) (s : State)
      → IsRelaying r x i b rest s
      → b.sentfirst ≡ true
      → siddata_handler env r [] s
        ≡ ok (record s {
          strategies = insert r (record x { finished = true }) s.strategies;
          conn2sid = erase_found x.conn s.conn2sid;
          sid2ss = erase x.sid s.sid2ss;
          log = chunk_call b [] ∷ s.log;
        })
  unfolding siddata_handler finish sink_finish write_finish write_content nat_eq
  siddata_end_started r x i b rest s l f =
      let t : State = record s {
        strategies = insert r (record x { finished = true }) s.strategies;
        log = chunk_call b [] ∷ s.log;
      } in
      let h = l.held in
      let k = l.playing in
      let m = l.sink in ground (arith, unregister_found x.conn x.sid rest t l.first)

  siddata_end_first :
      (r : Ref) (x : Ss) (i : ℕ) (b : Adaptor) (rest : Transfers) (s : State)
      → IsRelaying r x i b rest s
      → b.sentfirst ≡ false
      → siddata_handler env r [] s
        ≡ ok (record s {
          strategies = insert r (record x { finished = true }) s.strategies;
          adaptors = insert i (record b { sentfirst = true }) s.adaptors;
          conn2sid = erase_found x.conn s.conn2sid;
          sid2ss = erase x.sid s.sid2ss;
          log = chunk_call b [] ∷ headers_call b ∷ s.log;
        })
  unfolding siddata_handler finish sink_finish write_finish write_content send_headers nat_eq
  siddata_end_first r x i b rest s l f =
      let t : State = record s {
        strategies = insert r (record x { finished = true }) s.strategies;
        adaptors = insert i (record b { sentfirst = true }) s.adaptors;
        log = chunk_call b [] ∷ headers_call b ∷ s.log;
      } in
      let h = l.held in
      let k = l.playing in
      let m = l.sink in ground (arith, unregister_found x.conn x.sid rest t l.first)

  relay_data_started :
      (r : Ref) (x : Ss) (i : ℕ) (b : Adaptor) (rest : Transfers) (conn : Conn) (chunks : List Str)
      (s : State)
      → IsGeneral env
      → IsRelaying r x i b rest s
      → b.sentfirst ≡ true
      → x.bytes_transferred < 2 ^ 64
      → AllChunks chunks
      → receive env conn (data_messages env x.sid chunks) s
        ≡ ok (record s {
          strategies = insert r (relayed x chunks) s.strategies;
          conn2sid = erase_found x.conn s.conn2sid;
          sid2ss = erase x.sid s.sid2ss;
          log = push_all (writes b.conn (data_messages env b.sid chunks)) s.log;
        })
  unfolding receive
  relay_data_started r x i b rest conn [] s g l f w n =
      let e : (x.bytes_transferred + 0) % 2 ^ 64 ≡ x.bytes_transferred = omega arith in
      ground (
        arith,
        handle_siddata_found env r x.sid [] s conn g l.is_guid (omega arith) l.registered,
        siddata_end_started r x i b rest s l f,
      )
  relay_data_started r x i b rest conn (chunk ∷ chunks) s g l f w n =
      let y : Ss = record x { bytes_transferred = (x.bytes_transferred + length chunk) % 2 ^ 64 } in
      let t : State = record s {
        strategies = insert r y s.strategies;
        log = chunk_call b chunk ∷ s.log;
      } in
      let e : (y.bytes_transferred + total chunks) % 2 ^ 64
          ≡ (x.bytes_transferred + total (chunk ∷ chunks)) % 2 ^ 64 =
        omega arith in
      let p : IsRelaying r y i b rest t = record {
        registered = l.registered;
        is_guid = l.is_guid;
        held = lookup-insert_self r y s.strategies;
        playing = l.playing;
        sink = l.sink;
        first = l.first;
      } in
      ground (
        arith,
        handle_siddata_found env r x.sid chunk s conn g l.is_guid n.1 l.registered,
        siddata_started r x i b rest chunk s l f n.0,
        relay_data_started r y i b rest conn chunks t g p f (omega arith) n.2,
        insert-insert r (relayed y chunks) y s.strategies,
      )

  pub relay_data :
      (r : Ref) (x : Ss) (i : ℕ) (b : Adaptor) (rest : Transfers) (conn : Conn) (chunks : List Str)
      (s : State)
      → IsGeneral env
      → IsRelaying r x i b rest s
      → b.sentfirst ≡ false
      → x.bytes_transferred < 2 ^ 64
      → AllChunks chunks
      → receive env conn (data_messages env x.sid chunks) s
        ≡ ok (record s {
          strategies = insert r (relayed x chunks) s.strategies;
          adaptors = insert i (record b { sentfirst = true }) s.adaptors;
          conn2sid = erase_found x.conn s.conn2sid;
          sid2ss = erase x.sid s.sid2ss;
          log = push_all (writes b.conn (stream_messages env b chunks)) s.log;
        })
  unfolding receive
  relay_data r x i b rest conn [] s g l f w n =
      let e : (x.bytes_transferred + 0) % 2 ^ 64 ≡ x.bytes_transferred = omega arith in
      ground (
        arith,
        handle_siddata_found env r x.sid [] s conn g l.is_guid (omega arith) l.registered,
        siddata_end_first r x i b rest s l f,
      )
  relay_data r x i b rest conn (chunk ∷ chunks) s g l f w n =
      let y : Ss = record x { bytes_transferred = (x.bytes_transferred + length chunk) % 2 ^ 64 } in
      let c : Adaptor = record b { sentfirst = true } in
      let t : State = record s {
        strategies = insert r y s.strategies;
        adaptors = insert i c s.adaptors;
        log = chunk_call b chunk ∷ headers_call b ∷ s.log;
      } in
      let e : (y.bytes_transferred + total chunks) % 2 ^ 64
          ≡ (x.bytes_transferred + total (chunk ∷ chunks)) % 2 ^ 64 =
        omega arith in
      let p : IsRelaying r y i c rest t = record {
        registered = l.registered;
        is_guid = l.is_guid;
        held = lookup-insert_self r y s.strategies;
        playing = l.playing;
        sink = lookup-insert_self i c s.adaptors;
        first = l.first;
      } in
      ground (
        arith,
        handle_siddata_found env r x.sid chunk s conn g l.is_guid n.1 l.registered,
        siddata_first r x i b rest chunk s l f n.0,
        relay_data_started r y i c rest conn chunks t g p refl (omega arith) n.2,
        insert-insert r (relayed y chunks) y s.strategies,
      )
