-- ===== src/Lib.antt =====
-- Greynet is a playdar resolver plugin: it finds peers over XMPP, connects to them, and relays
-- queries, results and streams between them. This library models its code, file by file, over
-- parameters that stand for libf2f, playdar, gloox, json_spirit and boost.
--
-- The parts and their files:
--
-- - Platform: the members of `greynet` (src/greynet.h), `ss_greynet` (src/ss_greynet.h) and
--   `greynet_asyncadaptor` (src/greynet_asyncadaptor.hpp) as records; the calls that the code makes
--   of the libraries, as a log; and the record `Env` of what the libraries answer, which every
--   operation takes. An answer that can change may depend on the whole log. Objects that the code
--   shares by pointer stand in the state under addresses. A way to end other than a return is a
--   `Fault`. Platform.Frame has the rules by which a handler is seen to leave members alone.
-- - Messages: the message types and classes of src/greynet_messages.hpp.
-- - Json: the values and accessors of json_spirit that the code uses.
-- - Adaptor: src/greynet_asyncadaptor.hpp (`write_content`, `write_finish`, `write_cancel`, the
--   setters), and the virtual calls on an adaptor.
-- - Registry: `register_sidtransfer` and `unregister_sidtransfer` of src/greynet.cpp, with the
--   multimap `m_conn2sid` as an ordered list and the map `m_sid2ss`.
-- - Strategy: src/ss_greynet.cpp (`factory`, `start_reply`, `timeout_cb`, `siddata_handler`,
--   `sidheaders_handler`, `cancel_handler`), and `start_sidrequest` of src/greynet.cpp.
-- - Transfers: `connection_terminated` and the handlers of SIDREQUEST, SIDDATA, SIDHEADERS and
--   SIDFAIL of src/greynet.cpp.
-- - Handshake: `expect_ident`, `send_ident`, `new_incoming_connection`, `new_outgoing_connection`,
--   the watchdog, `connect_to_peer`, `jabber_msg_received` and `jabber_new_peer` of src/greynet.cpp.
-- - Queries: `start_resolving`, `handle_query`, `handle_querystop`, `fwd_search`, `send_response` and
--   `handle_queryresult` of src/greynet.cpp, and the query origins of src/greynet.h.
-- - Dispatch: `message_received` of src/greynet.cpp.
-- - Jbot: src/jbot.cpp and src/jbot.h. A handler returns the bot and what it asks of gloox and of
--   the plugin. Jbot.Roster is `get_roster`, over gloox's roster as a list.
--   Jbot.Client is the gloox client that start() makes and deletes, and what the members do through the
--   pointer to it, which is a fault where the client is not there.
-- - Web: `anon_http_handler` and `authed_http_handler` of src/greynet.cpp, with the text of the page.
--   The second reads the roster through the bot's client.
-- - Startup: `init`, `detect_ip`, `jabber_start` and the destructor of src/greynet.cpp, as the steps that
--   they ask of the network, the threads and the NAT router, and `run_jbot`, what the bot's thread
--   does.
-- - Stream: runs of the two ends of a stream, for the theorems about whole streams. What libf2f's
--   `GeneralMessage` keeps of a type, a payload and a guid is assumed (`IsGeneral`) for a type that
--   fits a char, a payload of a length that fits 32 bits, and a guid of 36 bytes alone.
--   Stream.Download is a stream between two plugins, each with libraries of its own: what one has
--   written to its end of a connection, as its log has it, the other is given at its end.
--   Stream.Chain is the same with a third plugin between the two, Stream.Path a stream that any
--   number of plugins pass on, and Stream.Darknet compares the first two.
-- - Discovery: two plugins with their bots, from a presence over XMPP to a connection that is ready on
--   both ends. The callbacks that `jabber_start` sets, and those of a connection that awaits an IDENT,
--   are read off the bot's effects and the log.
-- - Search: a search by two plugins, or by three over one hop, each with libraries of its own, from the
--   query to the strategy for the item that was found.
-- - Runs: all events that call the plugin once it is set up, as a relation `Step` between states, and
--   the states that they reach in any order and number. Two of the events change the bot's jid inside
--   the bot: its start, and the resource that the server gives it. `Linked` (Runs.Linked) says of a state that the
--   multimap and the map of the transfers agree, and that each transfer has its object, an adaptor that
--   is there, and a timer. An event is in `Step` where its handler returns; Runs.Safe and Runs.Ends are
--   about whether it does. Two events come under a condition on their sid: a reply starts under one of
--   no transfer, and a timer for headers expires under one of no other object's transfer.
--   Registry.Twice is about the first without it. `Grows` (Runs.Grows) relates what the plugin
--   remembers before and after a run, and Runs.Changes sorts the events by what they add to it.
-- - Base: lists, strings as lists of codes, maps, sets, integers and their decimal texts.
-- - Tests: small libraries that behave as documented, and the theorems at concrete states.
--
-- How the parts interact: libf2f calls Dispatch for each message of a ready connection, Handshake for
-- the first one, and Transfers when a connection ends. Dispatch calls Transfers and Queries. Transfers
-- calls the Strategy that Registry knows for a sid, and Strategy calls the adaptor that it plays into
-- and, at its end, Registry. Jbot calls Handshake by its two callbacks.
--
-- Bounds and fuel: a `size_t` is kept modulo 2 ^ 64, the length field modulo 2 ^ 32, a port modulo
-- 2 ^ 16. An `int` has no bounds: what `atoi` makes of a text past them is undefined in C, and is not
-- modelled. The loop of `unregister_sidtransfer` runs on fuel 1: a round either ends the loop or
-- changes nothing, so that more rounds decide no more. The digits of a number are made on a fuel of
-- the number and one. Every other loop is by recursion on its list.
--
-- Not modelled: output to the console, statistics and start times; XMPP callbacks that only print;
-- exceptions of the sockets that `init` opens. Handlers run one after the other: the code's threads
-- share its maps without locks, and such races are outside the model.
pub mod Base
pub mod Json
pub mod Messages
pub mod Platform
pub mod Adaptor
pub mod Registry
pub mod Strategy
pub mod Transfers
pub mod Handshake
pub mod Queries
pub mod Dispatch
pub mod Jbot
pub mod Startup
pub mod Web
pub mod Runs
pub mod Stream
pub mod Discovery
pub mod Search
pub mod Tests
