-- ===== src/Tests/Downloads.antt =====
-- A stream between two plugins, at concrete states.
use greynet.Base.{codes, ◌≡◌, refl, true, some, [], ◌∷◌, nat_eq, str_eq, contains, Str}
use greynet.Adaptor.{new_adaptor, header_text}
use greynet.Base.Dict.{lookup, insert}
use greynet.Base.Int.{pos, to_unsigned}
use greynet.Messages.{sidrequest}
use greynet.Platform.{Env, State, Call, ok, relay, push_all}
use greynet.Registry.{find}
use greynet.Strategy.{new_ss}
use greynet.Stream.{stream_messages, writes}
use greynet.Stream.Data.{IsGeneral}
use greynet.Stream.Download.{sender, download, download_lem}
use greynet.Stream.Chain.{chain, passed, chain_lem}
use greynet.Stream.Darknet.{chain-download}
use greynet.Stream.Sent.{since}
use greynet.Tests.Libraries.{libraries, split-IsSplit}
use greynet.Tests.Streams.{
  idle, playing, two_chunks, a_sid, own_sid, two_chunks-AllChunks, headers_fit,
}
use greynet.Tests.Hops.{ready_to_play}

-- Libraries whose guids have the length of a uuid.
abbrev a_guid : Str
a_guid = codes "00000000-0000-0000-0000-00000000000a"

abbrev asking : Env
asking = record libraries { uuid = λ log. a_guid }

asking-IsGeneral : IsGeneral asking
asking-IsGeneral = record {
  types = λ t p g h. refl;
  payloads = λ t p g h. refl;
  guids = λ t p g h. refl;
}

-- The libraries of a peer whose playdar has a source for each sid.
abbrev having : Env
having = record asking { get_ss = λ log sid. some 9 }

having-IsGeneral : IsGeneral having
having-IsGeneral = record {
  types = λ t p g h. refl;
  payloads = λ t p g h. refl;
  guids = λ t p g h. refl;
}

download_lem_example :
    download asking having 10 20 3 8 (codes "audio/mpeg") (pos 5) two_chunks ready_to_play idle
    ≡ ok (
      record ready_to_play {
        strategies =
            (
              10,
              record (playing 3 a_sid 20) {
                contentlength = 5;
                bytes_transferred = 5;
                finished = true;
              },
            )
            ∷ [];
        log =
            Call.write_finish 20
            ∷ Call.write_content 20 (codes "de")
            ∷ Call.write_content 20 (codes "abc")
            ∷ Call.set_content_length 20 (pos 5)
            ∷ Call.set_mime_type 20 (codes "audio/mpeg")
            ∷ Call.set_status_code 20 (pos 200)
            ∷ Call.cancel_timer 10
            ∷ Call.headers_timer 10 5000
            ∷ Call.async_write 3 (asking.general_message sidrequest a_sid a_guid)
            ∷ Call.gen_uuid
            ∷ [];
      },
      record idle {
        seen_guids = a_guid ∷ [];
        adaptors =
            (
              40,
              record (sender asking having 8 a_sid (codes "audio/mpeg") (pos 5)) {
                sentfirst = true;
              },
            )
            ∷ [];
        next_address = 41;
        log =
            push_all
              (Call.start_reply 9 (relay 40)
                ∷ writes 8 (
                    stream_messages having
                      (sender asking having 8 a_sid (codes "audio/mpeg") (pos 5))
                      two_chunks))
              [];
      },
    )
unfolding new_ss find lookup insert contains nat_eq str_eq to_unsigned new_adaptor header_text
download_lem_example =
    download_lem asking having 10 (new_ss 3 a_sid) 20 8 (codes "audio/mpeg") (pos 5) two_chunks 9
      ready_to_play idle (λ type p g. refl) asking-IsGeneral having-IsGeneral split-IsSplit refl
      refl headers_fit two_chunks-AllChunks refl refl refl refl refl refl refl refl

-- A plugin that can pass the stream on, from its connection 4 and under a sid of its own.
abbrev between : State
between = record idle { strategies = (11, new_ss 4 own_sid) ∷ [] }

chain_lem_example :
    let a = sender having having 9 own_sid (codes "audio/mpeg") (pos 5) in
    chain asking having having 10 20 3 8 11 4 9
      (codes "audio/mpeg")
      (pos 5)
      two_chunks
      ready_to_play
      between
      idle
    ≡ ok (
      record ready_to_play {
        strategies =
            (
              10,
              record (playing 3 a_sid 20) {
                contentlength = 5;
                bytes_transferred = 5;
                finished = true;
              },
            )
            ∷ [];
        log =
            Call.write_finish 20
            ∷ Call.write_content 20 (codes "de")
            ∷ Call.write_content 20 (codes "abc")
            ∷ Call.set_content_length 20 (pos 5)
            ∷ Call.set_mime_type 20 (codes "audio/mpeg")
            ∷ Call.set_status_code 20 (pos 200)
            ∷ Call.cancel_timer 10
            ∷ Call.headers_timer 10 5000
            ∷ Call.async_write 3 (asking.general_message sidrequest a_sid a_guid)
            ∷ Call.gen_uuid
            ∷ [];
      },
      passed asking having having 11
          (new_ss 4 own_sid)
          a_sid
          8
          (codes "audio/mpeg")
          (pos 5)
          two_chunks
          a_guid
          9
          between,
      record idle {
        seen_guids = a_guid ∷ [];
        adaptors = (40, record a { sentfirst = true }) ∷ [];
        next_address = 41;
        log =
            push_all
              (Call.start_reply 9 (relay 40) ∷ writes 9 (stream_messages having a two_chunks))
              [];
      },
    )
unfolding new_ss find lookup insert contains nat_eq str_eq to_unsigned new_adaptor header_text
chain_lem_example =
    chain_lem asking having having 10 (new_ss 3 a_sid) 20 8 11 (new_ss 4 own_sid) 9
      (codes "audio/mpeg") (pos 5) two_chunks 9 9 ready_to_play between idle (λ type p g. refl)
      (λ type p g. refl) asking-IsGeneral having-IsGeneral having-IsGeneral split-IsSplit
      split-IsSplit refl refl headers_fit two_chunks-AllChunks (λ e. cc) refl refl refl refl refl
      refl refl refl refl refl refl refl refl refl refl refl

chain-download_example :
    (s1 m1 m2 t1 : State) × (chain asking having having 10 20 3 8 11 4 9
        (codes "audio/mpeg")
        (pos 5)
        two_chunks
        ready_to_play
        between
        idle
      ≡ ok (s1, m1, t1))
    × (download asking having 10 20 3 8
          (codes "audio/mpeg")
          (pos 5)
          two_chunks
          ready_to_play
          between
        ≡ ok (s1, m2))
    × (since 8 between m1 ≡ since 8 between m2)
unfolding new_ss find lookup contains nat_eq str_eq new_adaptor header_text
chain-download_example =
    chain-download asking having having 10 (new_ss 3 a_sid) 20 8 11 (new_ss 4 own_sid) 9
      (codes "audio/mpeg") (pos 5) two_chunks 9 9 ready_to_play between idle (λ type p g. refl)
      (λ type p g. refl) asking-IsGeneral having-IsGeneral having-IsGeneral split-IsSplit
      split-IsSplit refl refl headers_fit two_chunks-AllChunks (λ e. cc) refl refl refl refl refl
      refl refl refl refl refl refl refl refl refl refl refl
