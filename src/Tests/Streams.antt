-- ===== src/Tests/Streams.antt =====
-- Streams and their ends, at concrete states.
use greynet.Base.{
  ℕ, Str, codes, ◌≡◌, ◌≢◌, refl, ◌⊎◌, true, false, none, some, List, [], ◌∷◌, arith, nat_eq, str_eq,
  contains, ◌<◌, ◌^◌, length,
}
use greynet.Base.Decimal.{show_int}
use greynet.Adaptor.{header_text}
use greynet.Base.Dict.{lookup, insert, erase}
use greynet.Base.Int.{pos, to_unsigned}
use greynet.Platform.{Env, State, Ss, Adaptor, http, Call, ok, fault, endless_loop, push_all}
use greynet.Registry.{Transfers, find, erase_found, unregister_loop, unregister_sidtransfer}
use greynet.Registry.Order.{before}
use greynet.Registry.Loop.{unregister_sidtransfer-cases}
use greynet.Transfers.{connection_terminated}
use greynet.Transfers.Terminated.{connection_terminated_lem}
use greynet.Stream.{play, receive, stream_messages, writes}
use greynet.Stream.Send.{play-stream_messages}
use greynet.Stream.Data.{AllChunks}
use greynet.Stream.Receive.{receive-stream_messages}
use greynet.Tests.Libraries.{libraries, libraries-IsGeneral, split-IsSplit}

-- A plugin that has nothing to do.
abbrev pub idle : State
idle = record {
  port = 60211;
  publicip = codes "1.2.3.4";
  jbot_jid = some (codes "me");
  peer_cookies = [];
  qidorigins = [];
  sid2ss = [];
  seen_guids = [];
  conn2sid = [];
  strategies = [];
  adaptors = [];
  next_address = 40;
  log = [];
}

-- A strategy that plays a sid of a connection into one of playdar's adaptors.
abbrev pub playing : ℕ → Str → ℕ → Ss
playing conn sid j = record {
  bytes_transferred = 0;
  contentlength = 0;
  timer = true;
  aa = some (http j);
  conn = conn;
  sid = sid;
  finished = false;
}

-- Connection 1 plays one stream, and connection 2 another.
abbrev two_streams : State
two_streams = record idle {
  conn2sid = (1, codes "a") ∷ (2, codes "b") ∷ [];
  sid2ss = (codes "a", 10) ∷ (codes "b", 11) ∷ [];
  strategies = (10, playing 1 (codes "a") 20) ∷ (11, playing 2 (codes "b") 21) ∷ [];
}

connection_terminated_lem_example :
    connection_terminated libraries 1 two_streams
    ≡ ok (record two_streams {
      conn2sid = [];
      sid2ss = [];
      log = Call.write_cancel 21 ∷ Call.write_cancel 20 ∷ [];
    })
unfolding find before lookup erase contains nat_eq str_eq
connection_terminated_lem_example =
    connection_terminated_lem libraries 1 (Call.write_cancel 20 ∷ Call.write_cancel 21 ∷ [])
      two_streams ((omega arith, tt), (tt, tt)) (refl, (refl, tt))
      (
        record {
          address = 10;
          object = playing 1 (codes "a") 20;
          sink = http 20;
          found = refl;
          held = refl;
          playing = refl;
          owner = refl;
          named = refl;
          calls = refl;
        },
        (
          record {
            address = 11;
            object = playing 2 (codes "b") 21;
            sink = http 21;
            found = refl;
            held = refl;
            playing = refl;
            owner = refl;
            named = refl;
            calls = refl;
          },
          tt,
        ),
      )

-- A connection that plays two streams, of which the second ends first.
abbrev second_ends : State
second_ends = record idle {
  conn2sid = (1, codes "a") ∷ (1, codes "b") ∷ [];
  sid2ss = (codes "a", 10) ∷ (codes "b", 11) ∷ [];
}

unregister_sidtransfer-cases_example :
    ((find 1 second_ends.conn2sid ≡ [])
      × (unregister_sidtransfer 1 (codes "b") second_ends
          ≡ ok (record second_ends { sid2ss = erase (codes "b") second_ends.sid2ss })))
    ⊎ ((rest : Transfers) × (find 1 second_ends.conn2sid ≡ (1, codes "b") ∷ rest)
        × (unregister_sidtransfer 1 (codes "b") second_ends
            ≡ ok (record second_ends {
              conn2sid = erase_found 1 second_ends.conn2sid;
              sid2ss = erase (codes "b") second_ends.sid2ss;
            })))
    ⊎ ((t : Str) × (rest : Transfers) × (find 1 second_ends.conn2sid ≡ (1, t) ∷ rest)
        × (t ≢ codes "b")
        × (unregister_sidtransfer 1 (codes "b") second_ends ≡ fault endless_loop)
        × ((fuel : ℕ) → unregister_loop fuel 1 (codes "b") second_ends.conn2sid ≡ none))
unregister_sidtransfer-cases_example = unregister_sidtransfer-cases 1 (codes "b") second_ends

-- Sids, as long as a guid.
abbrev pub a_sid : Str
a_sid = codes "00000000-0000-0000-0000-000000000001"

abbrev pub own_sid : Str
own_sid = codes "00000000-0000-0000-0000-000000000002"

abbrev pub last_sid : Str
last_sid = codes "00000000-0000-0000-0000-000000000003"

-- The adaptor of a stream that a peer asked for.
abbrev pub fresh_adaptor : Adaptor
fresh_adaptor = record {
  sid = a_sid;
  conn = 3;
  sentfirst = false;
  status = pos 200;
  mimetype = codes "audio/mpeg";
  contentlength = pos 5;
}

abbrev sending : State
sending = record idle { adaptors = (30, fresh_adaptor) ∷ [] }

abbrev pub two_chunks : List Str
two_chunks = codes "abc" ∷ codes "de" ∷ []

play-stream_messages_example :
    play libraries 30 two_chunks sending
    ≡ ok (record sending {
      adaptors = insert 30 (record fresh_adaptor { sentfirst = true }) sending.adaptors;
      log = push_all (writes 3 (stream_messages libraries fresh_adaptor two_chunks)) [];
    })
unfolding lookup nat_eq
play-stream_messages_example =
    play-stream_messages libraries 30 fresh_adaptor two_chunks sending refl refl

pub two_chunks-AllChunks : AllChunks two_chunks
two_chunks-AllChunks = ((λ e. cc), omega arith, ((λ e. cc), omega arith, tt))

pub headers_fit : length (header_text fresh_adaptor) < 2 ^ 32
unfolding header_text show_int
headers_fit = omega arith

abbrev pub receiving : State
receiving = record idle {
  conn2sid = (3, a_sid) ∷ [];
  sid2ss = (a_sid, 10) ∷ [];
  strategies = (10, playing 3 a_sid 20) ∷ [];
}

receive-stream_messages_example :
    receive libraries 3 (stream_messages libraries fresh_adaptor two_chunks) receiving
    ≡ ok (record receiving {
      strategies =
          (
            10,
            record (playing 3 a_sid 20) {
              contentlength = 5;
              bytes_transferred = 5;
              finished = true;
            },
          )
          ∷ [];
      conn2sid = [];
      sid2ss = [];
      log =
          Call.write_finish 20
          ∷ Call.write_content 20 (codes "de")
          ∷ Call.write_content 20 (codes "abc")
          ∷ Call.set_content_length 20 (pos 5)
          ∷ Call.set_mime_type 20 (codes "audio/mpeg")
          ∷ Call.set_status_code 20 (pos 200)
          ∷ Call.cancel_timer 10
          ∷ [];
    })
unfolding find erase_found lookup insert erase contains nat_eq str_eq to_unsigned
receive-stream_messages_example =
    receive-stream_messages libraries fresh_adaptor 10 (playing 3 a_sid 20) 20 [] 3 two_chunks
      receiving libraries-IsGeneral split-IsSplit refl refl refl headers_fit refl
      two_chunks-AllChunks
      (record { registered = refl; is_guid = refl; held = refl; playing = refl; first = refl }) refl
      (omega arith)

-- Every name is that of connection 3.
abbrev connected : Env
connected = record libraries { connection_by_name = λ log name. some 3 }
