-- ===== src/Tests/Runs.antt =====
-- Runs, and the transfers that are registered in them, at concrete states.
use greynet.Base.{
  ◌⊎◌, inl, Str, codes, ◌≡◌, refl, none, some, [], ◌∷◌, arith, nat_eq, str_eq, find_char, substr,
  true,
}
use greynet.Base.Dict.{lookup, insert}
use greynet.Messages.{Message, sidrequest, siddata}
use greynet.Dispatch.{message_received}
use greynet.Runs.Safe.{Behind, Reach-message_received}
use greynet.Platform.{Env, State, Ss, Conn, http, Call, ok, fault, null_pointer, endless_loop}
use greynet.Registry.{find, insert_pair, register_sidtransfer, unregister_sidtransfer}
use greynet.Registry.Twice.{connection_terminated-register_sidtransfer_twice}
use greynet.Registry.Queues.{
  queue, join, leave, Leaves, queue-register_sidtransfer-unregister_sidtransfer,
}
use greynet.Strategy.{new_ss, create, parse_url, factory, start_reply, start_sidrequest}
use greynet.Transfers.{connection_terminated}
use greynet.Runs.{Step, made, started, Reach, here, next}
use greynet.Runs.Linked.{Entry, Linked}
use greynet.Runs.Reached.{Reach-Linked}
use greynet.Runs.Ends.{Reach-connection_terminated}
use greynet.Tests.Libraries.{libraries}
use greynet.Tests.Streams.{idle}

-- Libraries where bob is connection 3.
abbrev hosting : Env
hosting = record libraries { connection_by_name = λ log name. some 3 }

idle-Linked : Linked idle
unfolding lookup
idle-Linked = record {
  ordered = tt;
  distinct = tt;
  tracked = λ c sid e. elim e [ ];
  listed = λ sid r h. absurd (cc);
  fresh = λ r x h. absurd (cc);
}

abbrev url : Str
url = codes "greynet://bob;sid"

-- After the url was resolved, and after the reply was started into playdar's adaptor 20.
abbrev strategy_made : State
strategy_made = (factory hosting url idle).1

abbrev strategy : Ss
strategy = new_ss 3 (codes "sid")

abbrev reply_started : State
reply_started = record idle {
  conn2sid = (3, codes "sid") ∷ [];
  sid2ss = (codes "sid", 40) ∷ [];
  strategies = (40, record strategy { aa = some (http 20); timer = true }) ∷ [];
  next_address = 41;
  log =
      Call.headers_timer 40 5000
      ∷ Call.async_write 3 (libraries.general_message sidrequest (codes "sid") (codes "uuid"))
      ∷ Call.gen_uuid
      ∷ [];
}

starts : Step hosting strategy_made reply_started
unfolding start_reply start_sidrequest register_sidtransfer insert_pair factory create parse_url
    new_ss find_char substr lookup insert nat_eq str_eq
starts = started 40 strategy (http 20) refl tt refl refl

the_run : Reach hosting idle reply_started
the_run = next (next here (made url refl)) starts

Reach-Linked_example : Linked reply_started
Reach-Linked_example = Reach-Linked hosting idle reply_started idle-Linked the_run

Reach-connection_terminated_example :
    (u : State) × (connection_terminated hosting 3 reply_started ≡ ok u)
    × (find 3 u.conn2sid ≡ [])
    × ((sid : Str) → Entry 3 sid reply_started.conn2sid → lookup sid u.sid2ss ≡ none)
Reach-connection_terminated_example =
    Reach-connection_terminated hosting 3 idle reply_started idle-Linked the_run

-- The first of the stream's data, before its headers.
abbrev first_data : Message
first_data = libraries.general_message siddata (codes "abc") (codes "sid")

Reach-message_received_example :
    ((u : State) × (message_received hosting first_data 3 reply_started ≡ ok u))
    ⊎ ((message_received hosting first_data 3 reply_started ≡ fault endless_loop)
        × Behind (codes "sid") reply_started.conn2sid endless_loop)
Reach-message_received_example =
    Reach-message_received hosting first_data 3 idle reply_started idle-Linked the_run (inl refl)

connection_terminated-register_sidtransfer_twice_example :
    (t : State) × (unregister_sidtransfer 3
        (codes "sid")
        (register_sidtransfer 3 (codes "sid") 41 (register_sidtransfer 3 (codes "sid") 40 idle))
      ≡ ok t)
    × (connection_terminated libraries 3 t ≡ fault null_pointer)
unfolding find
connection_terminated-register_sidtransfer_twice_example =
    connection_terminated-register_sidtransfer_twice libraries 3 (codes "sid") 40 41 idle refl

-- Connection 1 has two transfers, and connection 2 one.
abbrev three_streams : State
three_streams = record idle {
  conn2sid = (1, codes "a") ∷ (1, codes "b") ∷ (2, codes "c") ∷ [];
  sid2ss = (codes "a", 10) ∷ (codes "b", 11) ∷ (codes "c", 12) ∷ [];
}

queue-register_sidtransfer-unregister_sidtransfer_example :
    ((c : Conn)
      → queue c (register_sidtransfer 1 (codes "b") 13 three_streams).conn2sid
        ≡ join 1 (codes "b") c (queue c three_streams.conn2sid))
    × Leaves 1 three_streams
        (unregister_sidtransfer 1 (codes "b") three_streams)
        (leave (codes "b") (queue 1 three_streams.conn2sid))
queue-register_sidtransfer-unregister_sidtransfer_example =
    queue-register_sidtransfer-unregister_sidtransfer 1 (codes "b") 13 three_streams
      ((omega arith, (omega arith, tt)), ((omega arith, tt), (tt, tt)))
