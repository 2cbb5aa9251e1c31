-- ===== src/Stream/Source.antt =====
-- The side of a stream that has it: handle_sidrequest (src/greynet.cpp) gives a source of playdar's an
-- adaptor, and the source writes into it (src/greynet_asyncadaptor.hpp).
use greynet.Base.{
  ℕ, suc, Str, ◌≡◌, refl, true, false, Option, none, some, List, ◌∷◌, nat_eq, str_eq, contains,
  length, arith, ◌<◌, ◌^◌,
}
use greynet.Base.Int.{ℤ, pos}
use greynet.Base.Dict.{lookup, insert, insert-insert, lookup-insert_self}
use greynet.Messages.{sidrequest}
use greynet.Platform.{Env, State, Adaptor, Conn, Call, Log, Result, ok, relay, push_all, ◌>>=◌}
use greynet.Adaptor.{new_adaptor, store, set_status_code, set_mime_type, set_content_length}
use greynet.Transfers.{handle_sidrequest}
use greynet.Dispatch.{handle_message, message_received}
use greynet.Stream.{play, stream_messages, writes}
use greynet.Stream.Send.{play-stream_messages}
use greynet.Stream.Data.{IsGeneral}

-- A plugin that has handed a strategy of playdar's an adaptor for a connection.
abbrev pub serving : Conn → Str → Str → ℕ → State → State
serving d sid guid ss t = record t {
  seen_guids = guid ∷ t.seen_guids;
  adaptors = insert t.next_address (new_adaptor d sid) t.adaptors;
  next_address = suc t.next_address;
  log = Call.start_reply ss (relay t.next_address) ∷ t.log;
}

-- What the newest call asked of a source of playdar's: to write into an adaptor of ours.
unfoldable pub asked : Log → Option ℕ
asked (Call.start_reply ss (relay i) ∷ log) = some i
asked _ = none

module _ (env : Env) where
  -- A source of playdar's that writes a whole stream into the adaptor at an address.
  unfoldable pub write_stream : Str → ℤ → List Str → ℕ → State → Result State
  write_stream mime len chunks i s = do
    s1 ← set_status_code (relay i) (pos 200) s
    s2 ← set_mime_type (relay i) mime s1
    s3 ← set_content_length (relay i) len s2
    play env i chunks s3

  unfoldable pub answer : Str → ℤ → List Str → State → Result State
  answer mime len chunks s = elim (asked s.log) [
    | none ↦ ok s
    | some i ↦ write_stream mime len chunks i s
  ]

  pub write_stream_lem :
      (mime : Str) (len : ℤ) (chunks : List Str) (i : ℕ) (b : Adaptor) (s : State)
      → lookup i s.adaptors ≡ some b
      → b.sentfirst ≡ false
      → let a : Adaptor = record b { status = pos 200; mimetype = mime; contentlength = len } in
        write_stream mime len chunks i s
        ≡ ok (record s {
          adaptors = insert i (record a { sentfirst = true }) s.adaptors;
          log = push_all (writes b.conn (stream_messages env a chunks)) s.log;
        })
  unfolding write_stream set_status_code set_mime_type set_content_length
  write_stream_lem mime len chunks i b s h f =
      let b1 : Adaptor = record b { status = pos 200 } in
      let b2 : Adaptor = record b1 { mimetype = mime } in
      let a : Adaptor = record b2 { contentlength = len } in
      let c : Adaptor = record a { sentfirst = true } in
      let s1 : State = store i b1 s in
      let s2 : State = store i b2 s1 in
      let s3 : State = store i a s2 in
      rw
        (
          h,
          lookup-insert_self i b1 s.adaptors,
          lookup-insert_self i b2 s1.adaptors,
          play-stream_messages env i a chunks s3 (lookup-insert_self i a s2.adaptors) f,
        )
        (rw (
          insert-insert i c a s2.adaptors,
          insert-insert i c b2 s1.adaptors,
          insert-insert i c b1 s.adaptors,
        ))

  pub message_received-sidrequest :
      (sid guid : Str) (ss : ℕ) (d : Conn) (t : State)
      → IsGeneral env
      → length guid ≡ 36
      → length sid < 2 ^ 32
      → contains guid t.seen_guids ≡ false
      → env.get_ss t.log sid ≡ some ss
      → message_received env (env.general_message sidrequest sid guid) d t
        ≡ ok (serving d sid guid ss t)
  unfolding message_received handle_message handle_sidrequest
  message_received-sidrequest sid guid ss d t g l z h k =
      rw (g.types sidrequest sid guid (omega arith), g.guids sidrequest sid guid l, h)
        (rw (g.payloads sidrequest sid guid z, k) refl)
