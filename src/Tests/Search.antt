-- ===== src/Tests/Search.antt =====
-- A search, at concrete libraries and states.
use greynet.Base.{
  false, length, Str, codes, ◌≡◌, refl, none, some, [], ◌∷◌, nat_eq, str_eq, contains, ◌==◌,
  if◌then◌else◌, Option,
}
use greynet.Base.Dict.{lookup, insert}
use greynet.Json.{get_obj, Value, obj, end, member_of, push_back}
use greynet.Messages.{Message, ping, pong_message, query_message, query_result_message, response}
use greynet.Platform.{Log, Env, State, Call, ok, emit}
use greynet.Queries.{
  handle_query, parse_query, accept_query, set_query_origin, stream_url, get_query_origin,
  fwd_search, start_resolving, send_response,
}
use greynet.Dispatch.{message_received, is_stream, handle_message, handle_ping}
use greynet.Dispatch.Origins.{RemembersQueries, Known}
use greynet.Dispatch.Replies.{run}
use greynet.Strategy.{new_ss, factory}
use greynet.Search.{
  QueryReads, ResultReads, asking, answering, asked, reported, start_resolving-factory,
}
use greynet.Search.Hop.{Takes, Hears, passed_on, fwd_search-factory}
use greynet.Tests.Libraries.{
  libraries, query_id, was_dispatched, was_stopped, libraries-RemembersQueries,
}
use greynet.Tests.Streams.{idle}

-- Texts for the query 5 and for a result of it.
abbrev read_search : Str → Option Value
read_search text =
    if text == codes "query"
    then some (obj end)
    else if text == codes "result"
    then some (obj (response (query_id 5) end))
    else none

-- Libraries that read these texts, and where bob is connection 4.
abbrev pub searching : Env
searching = record libraries {
  write = λ o. elim (member_of o (codes "qid")) [ none ↦ codes "query" | some v ↦ codes "result" ];
  read = read_search;
  connection_by_name = λ log name. some 4;
  uuid = λ log. length log ∷ [];
}

searching-RemembersQueries : RemembersQueries searching
searching-RemembersQueries = record {
  returns = libraries-RemembersQueries.returns;
  learns = libraries-RemembersQueries.learns;
  keeps = libraries-RemembersQueries.keeps;
}

idle-Known : Known searching searching-RemembersQueries idle
unfolding lookup
idle-Known qid conn h = absurd (cc)

abbrev pub the_query : Message
the_query = asking searching 5 idle.log

query-QueryReads : QueryReads searching searching 5 5 the_query
unfolding query_message member_of str_eq
query-QueryReads = record { typed = refl; payload = refl; parses = refl; made = refl; named = refl }

-- The query from connection 2, and then a PING from connection 3.
abbrev a_ping : Message
a_ping = libraries.general_message ping [] (codes "guid")

abbrev pub query_taken : State
query_taken = asked searching the_query 2 5 idle

abbrev pinged : State
pinged = record query_taken {
  seen_guids = codes "guid" ∷ query_taken.seen_guids;
  log = Call.async_write 3 (pong_message (3 ∷ [])) ∷ Call.gen_uuid ∷ query_taken.log;
}

the_run : run searching ((the_query, 2) ∷ (a_ping, 3) ∷ []) idle ≡ ok pinged
unfolding message_received is_stream contains handle_message handle_ping handle_query parse_query
    accept_query set_query_origin get_obj lookup query_message member_of was_dispatched nat_eq
    str_eq
the_run = refl

abbrev the_result : Message
the_result = answering searching (query_id 5) 3 pinged.log

answering-ResultReads :
    (log : Log)
    → ResultReads searching searching (query_id 5) 3 3 (answering searching (query_id 5) 3 log)
unfolding query_result_message response member_of push_back str_eq
answering-ResultReads log = record {
  typed = refl;
  payload = refl;
  reads = record { parses = refl; finds = λ key. refl };
  made = refl;
  named = refl;
}

start_resolving-factory_example :
    (start_resolving searching 5 idle ≡ record idle {
      log =
          Call.write_all_except the_query
            (get_query_origin searching (query_id 5) (emit Call.gen_uuid idle))
          ∷ Call.gen_uuid
          ∷ idle.log;
    })
    × (send_response searching (query_id 5) 3 pinged
        ≡ record pinged { log = Call.async_write 2 the_result ∷ Call.gen_uuid ∷ pinged.log })
    × (message_received searching the_result 4 idle
        ≡ ok (reported searching searching (query_id 5) 3 3 4 the_result idle))
    × (factory searching
          (stream_url (codes "bob") (codes "sid"))
          (reported searching searching (query_id 5) 3 3 4 the_result idle)
        ≡ (
          some 40,
          record (reported searching searching (query_id 5) 3 3 4 the_result idle) {
            strategies = insert 40 (new_ss 4 (codes "sid")) idle.strategies;
            next_address = 41;
          },
        ))
unfolding was_dispatched contains nat_eq str_eq
start_resolving-factory_example =
    start_resolving-factory searching searching searching-RemembersQueries 5 5 3 3 2 4
      ((a_ping, 3) ∷ []) idle idle pinged idle idle-Known query-QueryReads refl refl the_run refl
      (answering-ResultReads pinged.log) refl refl refl

-- The same query and result by way of a plugin in the middle, which has the item as 3 as well.
abbrev passed : State
passed = passed_on the_query 2 pinged

abbrev far_answer : Message
far_answer = answering searching (query_id 5) 3 query_taken.log

abbrev item_heard : State
item_heard = reported searching searching (query_id 5) 3 3 6 far_answer passed

abbrev relayed_result : Message
relayed_result = answering searching (query_id 5) 3 item_heard.log

abbrev url_reported : State
url_reported = reported searching searching (query_id 5) 3 3 4 relayed_result idle

idle-Takes : Takes searching searching searching-RemembersQueries 5 5 the_query idle
unfolding was_dispatched contains
idle-Takes = record { known = idle-Known; reads = query-QueryReads; new = refl; unknown = refl }

far_answer-Hears : Hears searching searching (query_id 5) 3 3 far_answer pinged
unfolding query_message query_result_message contains nat_eq str_eq
far_answer-Hears = record { reads = answering-ResultReads query_taken.log; new = refl }

relayed_result-Hears : Hears searching searching (query_id 5) 3 3 relayed_result idle
unfolding contains
relayed_result-Hears = record { reads = answering-ResultReads item_heard.log; new = refl }

far_run : run searching ((the_query, 2) ∷ []) idle ≡ ok query_taken
unfolding message_received is_stream contains handle_message handle_query parse_query accept_query
    set_query_origin get_obj lookup query_message member_of was_dispatched nat_eq str_eq
far_run = refl

fwd_search-factory_example :
    (fwd_search searching false 2 the_query (query_id 5) pinged ≡ passed)
    × (send_response searching (query_id 5) 3 query_taken ≡ record query_taken {
      log = Call.async_write 2 far_answer ∷ Call.gen_uuid ∷ query_taken.log;
    })
    × (message_received searching far_answer 6 passed ≡ ok item_heard)
    × (send_response searching (query_id 5) 3 item_heard ≡ record item_heard {
      log = Call.async_write 2 relayed_result ∷ Call.gen_uuid ∷ item_heard.log;
    })
    × (message_received searching relayed_result 4 idle ≡ ok url_reported)
    × (factory searching (stream_url (codes "bob") (codes "sid")) url_reported ≡ (
      some 40,
      record url_reported {
        strategies = insert 40 (new_ss 4 (codes "sid")) idle.strategies;
        next_address = 41;
      },
    ))
unfolding contains nat_eq was_stopped
fwd_search-factory_example =
    fwd_search-factory searching searching searching searching-RemembersQueries
      searching-RemembersQueries 5 3 3 3 3 2 4 6 idle pinged query_taken idle 5 5 2
      ((a_ping, 3) ∷ []) [] idle idle idle-Takes the_run refl refl idle-Takes far_run refl
      far_answer-Hears refl refl relayed_result-Hears refl refl
