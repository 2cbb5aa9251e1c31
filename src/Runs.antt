-- ===== src/Runs.antt =====
-- Runs of the plugin (src/greynet.cpp, src/ss_greynet.cpp): any order of the events that call it.
pub mod Linked
pub mod Entries
pub mod Register
pub mod Started
pub mod Outcome
pub mod Headers
pub mod Quiet
pub mod Steps
pub mod Playing
pub mod Safe
pub mod Reached
pub mod Grows
pub mod Changes
pub mod Memory
pub mod Forwards
pub mod Cookies
pub mod Ends
use greynet.Base.{ℕ, suc, Str, Bool, none, some, ◌≡◌, ◌⊎◌, nat_eq, str_eq}
use greynet.Base.Dict.{lookup, insert}
use greynet.Base.Int.{ℤ}
use greynet.Messages.{Message}
use greynet.Platform.{Env, State, Ss, Conn, Ref, Sink, relay, ok}
use greynet.Adaptor.{
  sink_content, sink_finish, sink_cancel, set_status_code, set_mime_type, set_content_length,
}
use greynet.Strategy.{copy_ss, factory, start_reply, timeout_cb}
use greynet.Transfers.{connection_terminated}
use greynet.Handshake.{
  new_incoming_connection, new_outgoing_connection, new_connection_timeout, expect_ident,
  jabber_msg_received, jabber_new_peer,
}
use greynet.Queries.{start_resolving, fwd_search, send_response}
use greynet.Dispatch.{message_received}
use greynet.Jbot.{Gloox, Jbot, on_connect}
use greynet.Web.{Request, anon_http_handler}
use greynet.Runs.Linked.{Exists}

-- One event, from a state in which it may come, to the state that its handler returns.
pub data Step (env : Env) (s t : State) : Type 0 where
  -- from the router
  message : (msg : Message) (conn : Conn) → message_received env msg conn s ≡ ok t → Step env s t
  terminated : (conn : Conn) → connection_terminated env conn s ≡ ok t → Step env s t
  incoming : (conn : Conn) → t ≡ new_incoming_connection env conn s → Step env s t
  outgoing : (conn : Conn) → new_outgoing_connection env conn s ≡ ok t → Step env s t
  identified :
      (msg : Message) (conn : Conn) (inbound : Bool)
      → expect_ident env msg conn inbound s ≡ ok t
      → Step env s t
  -- from the bot
  advertised : (msg jid : Str) → jabber_msg_received env msg jid s ≡ ok t → Step env s t
  peer : (jid : Str) → jabber_new_peer env jid s ≡ ok t → Step env s t
  -- in the bot, whose jid changes as it starts and with the resource that the server gives it
  bot_started :
      (g : Gloox) (loglevel : Str) (b : Jbot)
      → s.jbot_jid ≡ some b.jid
      → t ≡ record s { jbot_jid = some (greynet.Jbot.start g loglevel b).0.jid }
      → Step env s t
  bot_connected :
      (g : Gloox) (resource : Str) (b : Jbot)
      → s.jbot_jid ≡ some b.jid
      → t ≡ record s { jbot_jid = some (on_connect g resource b).jid }
      → Step env s t
  -- from playdar: a strategy is made for a url or copied, and starts its reply. Its sid is then of
  -- no transfer.
  made : (url : Str) → t ≡ (factory env url s).1 → Step env s t
  copied :
      (r : Ref) (x : Ss)
      → lookup r s.strategies ≡ some x
      → t ≡ record s {
        strategies = insert s.next_address (copy_ss x) s.strategies;
        next_address = suc s.next_address;
      }
      → Step env s t
  started :
      (r : Ref) (x : Ss) (aa : Sink)
      → lookup r s.strategies ≡ some x
      → Exists aa s.adaptors
      → lookup x.sid s.sid2ss ≡ none
      → start_reply env r aa s ≡ ok t
      → Step env s t
  resolving : (rq : ℕ) → t ≡ start_resolving env rq s → Step env s t
  response : (qid : Str) (rip : ℕ) → t ≡ send_response env qid rip s → Step env s t
  -- from a browser
  visited : (req : Request) (html : Str) → anon_http_handler env req s ≡ ok (html, t) → Step env s t
  -- from a source of playdar's, to an adaptor of ours
  content : (i : ℕ) (buffer : Str) → sink_content env (relay i) buffer s ≡ ok t → Step env s t
  finished : (i : ℕ) → sink_finish env (relay i) s ≡ ok t → Step env s t
  cancelled : (i : ℕ) → sink_cancel env (relay i) s ≡ ok t → Step env s t
  status : (i : ℕ) (code : ℤ) → set_status_code (relay i) code s ≡ ok t → Step env s t
  mime_type : (i : ℕ) (mime : Str) → set_mime_type (relay i) mime s ≡ ok t → Step env s t
  size : (i : ℕ) (len : ℤ) → set_content_length (relay i) len s ≡ ok t → Step env s t
  -- from timers; that for headers, of a strategy whose sid is of no other's transfer
  watched : (conn : Conn) → t ≡ new_connection_timeout env conn s → Step env s t
  forwarded :
      (failed : Bool) (conn : Conn) (msg : Message) (qid : Str)
      → t ≡ fwd_search env failed conn msg qid s
      → Step env s t
  expired :
      (failed : Bool) (r : Ref) (x : Ss)
      → lookup r s.strategies ≡ some x
      → (lookup x.sid s.sid2ss ≡ some r) ⊎ (lookup x.sid s.sid2ss ≡ none)
      → timeout_cb env failed r s ≡ ok t
      → Step env s t

-- The states that a run can reach.
pub data Reach (env : Env) (s : State) : State → Type 0 where
  here : Reach env s s
  next : {t u : State} → Reach env s t → Step env t u → Reach env s u
