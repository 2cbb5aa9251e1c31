-- ===== src/Tests/Hops.antt =====
-- Streams that are asked for, refused and passed on, at concrete states.
use greynet.Base.{List, codes, ◌≡◌, refl, false, some, [], ◌∷◌, arith, nat_eq, str_eq, contains}
use greynet.Base.Dict.{lookup, erase}
use greynet.Base.Int.{pos}
use greynet.Messages.{Message, sidfail, sidrequest}
use greynet.Platform.{State, Ss, Adaptor, Call, ok, relay, ◌>>=◌}
use greynet.Registry.{find, erase_found}
use greynet.Strategy.{new_ss, timeout_cb}
use greynet.Transfers.{handle_sidrequest}
use greynet.Dispatch.{message_received}
use greynet.Stream.{stream_messages}
use greynet.Stream.Refused.{handle_sidrequest-message_received}
use greynet.Stream.Timeout.{message_received-timeout_cb}
use greynet.Stream.Path.{Hop, Carries, AllThrough, arriving, path, path_lem}
use greynet.Tests.Libraries.{libraries, libraries-IsGeneral, split-IsSplit}
use greynet.Tests.Streams.{
  idle, playing, fresh_adaptor, two_chunks, receiving, a_sid, own_sid, last_sid,
  two_chunks-AllChunks, headers_fit,
}

-- A new strategy for a sid of connection 3.
abbrev pub ready_to_play : State
ready_to_play = record idle { strategies = (10, new_ss 3 a_sid) ∷ [] }

-- The request for the sid, as it reaches the peer.
abbrev request : Message
request = libraries.general_message sidrequest a_sid (codes "guid")

handle_sidrequest-message_received_example :
    (answer : Message) × (handle_sidrequest libraries 8 request idle
      ≡ record idle { log = Call.async_write 8 answer ∷ [] })
    × (message_received libraries answer 3 receiving
        ≡ ok (record receiving {
          conn2sid = [];
          sid2ss = [];
          log =
              Call.write_cancel 20 ∷ Call.set_status_code 20 (pos 404) ∷ Call.cancel_timer 10 ∷ [];
        }))
unfolding find erase_found lookup erase nat_eq str_eq
handle_sidrequest-message_received_example =
    handle_sidrequest-message_received libraries libraries request 8 3 10 (playing 3 a_sid 20) 20 []
      receiving idle (λ t p g. refl) libraries-IsGeneral split-IsSplit refl refl
      (record { registered = refl; is_guid = refl; held = refl; playing = refl; first = refl }) refl

-- The adaptor of a peer on connection 4 that asked us for the sid, under a sid of its own.
abbrev onward : Adaptor
onward = record {
  sid = own_sid;
  conn = 4;
  sentfirst = false;
  status = pos 200;
  mimetype = codes "application/binary";
  contentlength = pos 0;
}

abbrev passing_on : Ss
passing_on = record (playing 3 a_sid 20) { aa = some (relay 30) }

abbrev relaying : State
relaying = record receiving { strategies = (10, passing_on) ∷ []; adaptors = (30, onward) ∷ [] }

abbrev first_hop : Hop
first_hop = record {
  env = libraries;
  conn = 3;
  strategy = 10;
  object = passing_on;
  address = 30;
  adaptor = onward;
  rest = [];
  state = relaying;
}

-- That peer, which passes the stream on to connection 7.
abbrev second_hop : Hop
second_hop = record {
  env = libraries;
  conn = 5;
  strategy = 11;
  object = record (playing 5 own_sid 20) { aa = some (relay 31) };
  address = 31;
  adaptor = record onward { sid = last_sid; conn = 7 };
  rest = [];
  state = record idle {
    conn2sid = (5, own_sid) ∷ [];
    sid2ss = (own_sid, 11) ∷ [];
    strategies = (11, record (playing 5 own_sid 20) { aa = some (relay 31) }) ∷ [];
    adaptors = (31, record onward { sid = last_sid; conn = 7 }) ∷ [];
  };
}

abbrev two_hops : List Hop
two_hops = first_hop ∷ second_hop ∷ []

first_hop-Carries : Carries libraries a_sid first_hop
unfolding find lookup nat_eq str_eq
first_hop-Carries = record {
  alike = λ type p g. refl;
  general = libraries-IsGeneral;
  splits = split-IsSplit;
  named = refl;
  relaying = record {
    registered = refl;
    is_guid = refl;
    held = refl;
    playing = refl;
    sink = refl;
    first = refl;
  };
  fresh = refl;
  timed = refl;
  counted = omega arith;
}

second_hop-Carries : Carries libraries own_sid second_hop
unfolding find lookup nat_eq str_eq
second_hop-Carries = record {
  alike = λ type p g. refl;
  general = libraries-IsGeneral;
  splits = split-IsSplit;
  named = refl;
  relaying = record {
    registered = refl;
    is_guid = refl;
    held = refl;
    playing = refl;
    sink = refl;
    first = refl;
  };
  fresh = refl;
  timed = refl;
  counted = omega arith;
}

path_lem_example :
    let b = arriving fresh_adaptor two_hops in
    (b.status ≡ pos 200)
    × (b.mimetype ≡ fresh_adaptor.mimetype)
    × (b.contentlength ≡ fresh_adaptor.contentlength)
    × ((states : List State) × (path two_hops (stream_messages libraries fresh_adaptor two_chunks)
          ≡ ok (states, stream_messages libraries b two_chunks))
        × AllThrough fresh_adaptor two_chunks two_hops states)
unfolding contains nat_eq
path_lem_example =
    path_lem libraries fresh_adaptor two_hops two_chunks refl refl refl headers_fit
      two_chunks-AllChunks (first_hop-Carries, (second_hop-Carries, tt))

message_received-timeout_cb_example :
    (message_received libraries (libraries.general_message sidfail [] a_sid) 3 receiving >>= λ t.
    timeout_cb libraries false 10 t)
    ≡ ok (record receiving {
      conn2sid = [];
      sid2ss = [];
      log = Call.write_cancel 20 ∷ Call.write_cancel 20 ∷ [];
    })
unfolding find erase_found lookup erase nat_eq str_eq
message_received-timeout_cb_example =
    message_received-timeout_cb libraries 10 (playing 3 a_sid 20) 20 [] 3 receiving
      libraries-IsGeneral
      (record { registered = refl; is_guid = refl; held = refl; playing = refl; first = refl }) refl
