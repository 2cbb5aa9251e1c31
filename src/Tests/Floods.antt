-- ===== src/Tests/Floods.antt =====
-- A query that comes twice, at concrete states.
use greynet.Base.{◌+◌, ◌≤◌, ◌≡◌, refl, nat_eq, str_eq, contains}
use greynet.Base.Dict.{lookup}
use greynet.Json.{get_obj, member_of}
use greynet.Messages.{query_message}
use greynet.Platform.{ok}
use greynet.Queries.{handle_query, parse_query, accept_query, set_query_origin}
use greynet.Dispatch.{message_received, is_stream, handle_message}
use greynet.Runs.{message, here, next}
use greynet.Runs.Forwards.{forwarded, Reach-forwarded}
use greynet.Tests.Libraries.{was_dispatched}
use greynet.Tests.Search.{searching, the_query, query_taken}
use greynet.Tests.Streams.{idle}

taken : message_received searching the_query 2 idle ≡ ok query_taken
unfolding message_received is_stream contains handle_message handle_query parse_query accept_query
    set_query_origin get_obj lookup query_message member_of was_dispatched nat_eq str_eq
taken = refl

ignored : message_received searching the_query 3 query_taken ≡ ok query_taken
unfolding message_received is_stream contains query_message nat_eq str_eq
ignored = refl

Reach-forwarded_example :
    forwarded searching (searching.msg_guid the_query) query_taken.log
    ≤ forwarded searching (searching.msg_guid the_query) idle.log + 1
unfolding contains
Reach-forwarded_example =
    Reach-forwarded searching (searching.msg_guid the_query) idle query_taken
      (next (next here (message the_query 2 taken)) (message the_query 3 ignored))
