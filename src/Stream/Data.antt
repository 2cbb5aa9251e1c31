-- ===== src/Stream/Data.antt =====
-- The data messages of a stream (src/greynet.cpp, src/ss_greynet.cpp), as a strategy that plays into
-- playdar's adaptor receives them.
use greynet.Base.{
  ℕ, ◌+◌, ◌%◌, ◌^◌, ◌<◌, Str, ◌≡◌, ◌≢◌, refl, true, some, List, [], ◌∷◌, arith, nat_eq, str_eq,
  length,
}
use greynet.Base.Dict.{lookup, insert, erase, insert-insert, lookup-insert_self}
use greynet.Messages.{siddata}
use greynet.Platform.{Env, State, Ss, Conn, Ref, Call, ok, http, push_all}
use greynet.Adaptor.{sink_content, sink_finish}
use greynet.Registry.{Transfers, find, erase_found}
use greynet.Registry.Loop.{unregister_found}
use greynet.Strategy.{finish, pass_on, siddata_handler}
use greynet.Transfers.{handle_siddata}
use greynet.Dispatch.{message_received}
use greynet.Dispatch.Streams.{message_received-siddata}
use greynet.Stream.{receive, data_messages}

-- `GeneralMessage` keeps what it is made of, as far as its header can hold it: the type in a char, the
-- length of the payload in 32 bits, and the guid in 36 bytes.
pub record IsGeneral (env : Env) : Type 0 where
  pub types : (t : ℕ) (p g : Str) → t < 128 → env.msg_type (env.general_message t p g) ≡ t
  pub payloads :
      (t : ℕ) (p g : Str) → length p < 2 ^ 32 → env.msg_payload (env.general_message t p g) ≡ p
  pub guids : (t : ℕ) (p g : Str) → length g ≡ 36 → env.msg_guid (env.general_message t p g) ≡ g

abbrev pub total : List Str → ℕ
total [] = 0
total (chunk ∷ chunks) = length chunk + total chunks

-- Chunks that a message each can carry, none of them the end marker.
abbrev pub AllChunks : List Str → Type 0
AllChunks [] = Unit {0}
AllChunks (chunk ∷ chunks) = (chunk ≢ []) × (length chunk < 2 ^ 32) × AllChunks chunks

-- The calls on playdar's adaptor, in their order.
abbrev pub playback : ℕ → List Str → List Call
playback j [] = Call.write_finish j ∷ []
playback j (chunk ∷ chunks) = Call.write_content j chunk ∷ playback j chunks

-- A strategy with a sid as long as a guid that plays into playdar's adaptor `j`, registered as its
-- connection's first transfer.
pub record IsPlaying (r : Ref) (x : Ss) (j : ℕ) (rest : Transfers) (s : State) : Type 0 where
  pub registered : lookup x.sid s.sid2ss ≡ some r
  pub is_guid : length x.sid ≡ 36
  pub held : lookup r s.strategies ≡ some x
  pub playing : x.aa ≡ some (http j)
  pub first : find x.conn s.conn2sid ≡ (x.conn, x.sid) ∷ rest

module _ (env : Env) where
  siddata_chunk :
      (r : Ref) (x : Ss) (j : ℕ) (rest : Transfers) (chunk : Str) (s : State)
      → IsPlaying r x j rest s
      → chunk ≢ []
      → siddata_handler env r chunk s
        ≡ ok (record s {
          strategies =
              insert r
                (record x { bytes_transferred = (x.bytes_transferred + length chunk) % 2 ^ 64 })
                s.strategies;
          log = Call.write_content j chunk ∷ s.log;
        })
  unfolding siddata_handler pass_on sink_content nat_eq
  siddata_chunk r x j rest [] s i n = absurd (n refl)
  siddata_chunk r x j rest (b ∷ chunk) s i n = let h = i.held in let k = i.playing in ground arith

  siddata_end :
      (r : Ref) (x : Ss) (j : ℕ) (rest : Transfers) (s : State)
      → IsPlaying r x j rest s
      → siddata_handler env r [] s
        ≡ ok (record s {
          strategies = insert r (record x { finished = true }) s.strategies;
          conn2sid = erase_found x.conn s.conn2sid;
          sid2ss = erase x.sid s.sid2ss;
          log = Call.write_finish j ∷ s.log;
        })
  unfolding siddata_handler finish sink_finish nat_eq
  siddata_end r x j rest s i =
      let t : State = record s {
        strategies = insert r (record x { finished = true }) s.strategies;
        log = Call.write_finish j ∷ s.log;
      } in
      let h = i.held in
      let k = i.playing in ground (arith, unregister_found x.conn x.sid rest t i.first)

  pub handle_siddata_found :
      (r : Ref) (sid chunk : Str) (s : State) (conn : Conn)
      → IsGeneral env
      → length sid ≡ 36
      → length chunk < 2 ^ 32
      → lookup sid s.sid2ss ≡ some r
      → message_received env (env.general_message siddata chunk sid) conn s
        ≡ siddata_handler env r chunk s
  unfolding handle_siddata
  handle_siddata_found r sid chunk s conn g l z h =
      let guid = g.guids siddata chunk sid l in
      let payload = g.payloads siddata chunk sid z in
      let here = message_received-siddata env _ conn s (g.types siddata chunk sid (omega arith)) in
      ground arith

  pub receive_data :
      (r : Ref) (x : Ss) (j : ℕ) (rest : Transfers) (conn : Conn) (chunks : List Str) (s : State)
      → IsGeneral env
      → IsPlaying r x j rest s
      → x.bytes_transferred < 2 ^ 64
      → AllChunks chunks
      → receive env conn (data_messages env x.sid chunks) s
        ≡ ok (record s {
          strategies =
              insert r
                (record x {
                  bytes_transferred = (x.bytes_transferred + total chunks) % 2 ^ 64;
                  finished = true;
                })
                s.strategies;
          conn2sid = erase_found x.conn s.conn2sid;
          sid2ss = erase x.sid s.sid2ss;
          log = push_all (playback j chunks) s.log;
        })
  unfolding receive
  receive_data r x j rest conn [] s g i b n =
      let e : (x.bytes_transferred + 0) % 2 ^ 64 ≡ x.bytes_transferred = omega arith in
      ground (
        arith,
        handle_siddata_found r x.sid [] s conn g i.is_guid (omega arith) i.registered,
        siddata_end r x j rest s i,
      )
  receive_data r x j rest conn (chunk ∷ chunks) s g i b n =
      let y : Ss = record x { bytes_transferred = (x.bytes_transferred + length chunk) % 2 ^ 64 } in
      let t : State = record s {
        strategies = insert r y s.strategies;
        log = Call.write_content j chunk ∷ s.log;
      } in
      let e : (y.bytes_transferred + total chunks) % 2 ^ 64
          ≡ (x.bytes_transferred + total (chunk ∷ chunks)) % 2 ^ 64 =
        omega arith in
      let p : IsPlaying r y j rest t = record {
        registered = i.registered;
        is_guid = i.is_guid;
        held = lookup-insert_self r y s.strategies;
        playing = i.playing;
        first = i.first;
      } in
      ground (
        arith,
        handle_siddata_found r x.sid chunk s conn g i.is_guid n.1 i.registered,
        siddata_chunk r x j rest chunk s i n.0,
        receive_data r y j rest conn chunks t g p (omega arith) n.2,
        insert-insert r
            (record y {
              bytes_transferred = (y.bytes_transferred + total chunks) % 2 ^ 64;
              finished = true;
            })
            y s.strategies,
      )
