-- ===== src/Tests/Sessions.antt =====
-- Queries and messages, at concrete states.
use greynet.Base.{
  Str, codes, ◌≡◌, ◌≢◌, refl, ◌⊎◌, ◌↔◌, false, some, [], ◌∷◌, arith, nat_eq, str_eq, contains,
}
use greynet.Base.Dict.{lookup}
use greynet.Json.{end}
use greynet.Messages.{
  Message, ping, pong, ident, query, queryresult, querystop, ping_message, pong_message,
  ident_message, query_message, query_result_message,
}
use greynet.Messages.Framing.{IsFramed, messages-IsFramed}
use greynet.Platform.{State, Call, ok, fault, uncaught_exception, failed_assertion}
use greynet.Platform.Frame.{Extends}
use greynet.Queries.{
  handle_query, handle_queryresult, handle_querystop, fwd_search, get_query_origin, send_response,
}
use greynet.Queries.Stop.{handle_querystop-fwd_search}
use greynet.Queries.Faults.{Throws, handle_queryresult-Throws}
use greynet.Dispatch.{message_received, is_stream, handle_message, handle_ping}
use greynet.Dispatch.Origins.{Known}
use greynet.Dispatch.Replies.{run, run-send_response, run-handle_query}
use greynet.Tests.Libraries.{
  libraries, was_dispatched, query_id, libraries-RemembersQueries, libraries-RemembersStops,
}
use greynet.Tests.Streams.{idle}

-- A PING, and a query that reads as playdar's query 5.
abbrev a_ping : Message
a_ping = libraries.general_message ping [] (codes "guid")

abbrev a_query : Message
a_query = libraries.general_message query (codes "ident") (codes "other guid")

-- Query 5 came from connection 2.
abbrev asked : State
asked = record idle { qidorigins = (query_id 5, 2) ∷ []; log = Call.dispatch 5 ∷ [] }

asked-Known : Known libraries libraries-RemembersQueries asked
unfolding lookup str_eq nat_eq was_dispatched
asked-Known qid conn h = ground arith

-- `asked` after a PING from connection 3.
abbrev pinged : State
pinged = record asked {
  seen_guids = codes "guid" ∷ [];
  log = Call.async_write 3 (pong_message (codes "uuid")) ∷ Call.gen_uuid ∷ Call.dispatch 5 ∷ [];
}

asked-run : run libraries ((a_ping, 3) ∷ []) asked ≡ ok pinged
unfolding message_received is_stream contains handle_message handle_ping nat_eq str_eq
asked-run = refl

run-send_response_example : send_response libraries (query_id 5) 9 pinged ≡ record pinged {
  log =
      Call.async_write 2 (query_result_message libraries.write (query_id 5) end (codes "uuid"))
      ∷ Call.gen_uuid
      ∷ pinged.log;
}
unfolding lookup str_eq nat_eq
run-send_response_example =
    run-send_response libraries libraries-RemembersQueries ((a_ping, 3) ∷ []) asked pinged
      (query_id 5) 2 9 asked-Known refl asked-run refl

run-handle_query_example : handle_query libraries 4 a_query pinged ≢ fault failed_assertion
run-handle_query_example =
    run-handle_query libraries libraries-RemembersQueries ((a_ping, 3) ∷ []) asked pinged a_query 4
      asked-Known asked-run

-- The end of query 5.
abbrev a_stop : Message
a_stop = libraries.general_message querystop [] (query_id 5)

handle_querystop-fwd_search_example :
    let t = handle_querystop libraries 2 a_stop asked in
    ((get_query_origin libraries (query_id 5) asked ≡ some 2)
      × (t ≡ record asked {
        log = Call.write_all_except a_stop (some 2) ∷ Call.stop_query (query_id 5) ∷ asked.log;
      })
      × ((later : State)
          → Extends t.log later.log
          → fwd_search libraries false 2 a_query (query_id 5) later ≡ later))
    ⊎ ((get_query_origin libraries (query_id 5) asked ≢ some 2) × (t ≡ asked))
unfolding was_dispatched nat_eq str_eq
handle_querystop-fwd_search_example =
    handle_querystop-fwd_search libraries 2 a_stop a_query false asked libraries-RemembersStops refl

-- A QUERYRESULT whose payload is JSON, but no object.
abbrev a_string : Message
a_string = libraries.general_message queryresult (codes "number") (codes "guid")

handle_queryresult-Throws_example :
    (handle_queryresult libraries 2 a_string idle ≡ fault uncaught_exception)
    ↔ Throws libraries (codes "number")
handle_queryresult-Throws_example = handle_queryresult-Throws libraries 2 a_string idle

abbrev uuid : Str
uuid = codes "0f8fad5b-d9cb-469f-a165-70867728950e"

messages-IsFramed_example :
    IsFramed ping uuid [] (ping_message uuid)
    × IsFramed pong uuid [] (pong_message uuid)
    × IsFramed ident uuid (codes "body") (ident_message (codes "body") uuid)
    × IsFramed query uuid (codes "ident") (query_message libraries.write end uuid)
    × IsFramed queryresult uuid
        (codes "ident")
        (query_result_message libraries.write (query_id 5) end uuid)
messages-IsFramed_example =
    messages-IsFramed libraries.write (codes "body") (query_id 5) uuid end end refl (omega arith)
      (omega arith) (omega arith)
