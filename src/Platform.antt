-- ===== src/Platform.antt =====
-- What src/greynet.cpp, src/ss_greynet.cpp and src/greynet_asyncadaptor.hpp stand on: the calls that
-- they make of libf2f, playdar, gloox and the timers, the answers that they get, and the plugin's
-- state (src/greynet.h, src/ss_greynet.h, src/greynet_asyncadaptor.hpp).
pub mod Frame
pub mod Fails
use greynet.Base.{ℕ, Str, Bool, Option, none, some, List, [], ◌∷◌}
use greynet.Base.Dict.{Dict}
use greynet.Base.Int.{ℤ}
use greynet.Json.{Value, Members, Values}
use greynet.Messages.{Message}

-- `connection_ptr`s and other pointers to objects of the libraries: equal numbers, the same object.
abbrev pub Conn : Type 0
Conn = ℕ

-- The address of an `ss_greynet`.
abbrev pub Ref : Type 0
Ref = ℕ

-- `AsyncAdaptor_ptr`: an adaptor of playdar's, or a `greynet_asyncadaptor` at an address.
pub data Sink : Type 0 where
  http : ℕ → Sink
  relay : ℕ → Sink

pub data Call : Type 0 where
  -- `Connection`
  async_write : Conn → Message → Call
  fin : Conn → Call
  set_ready : Conn → Bool → Call
  set_name : Conn → Str → Call
  set_prop : Conn → Str → Str → Call
  -- `push_message_received_cb` of `expect_ident`, with `incoming`
  push_ident : Conn → Bool → Call
  pop_ident : Conn → Call
  -- `Router`
  write_all_except : Message → Option Conn → Call
  send_all : Message → Call
  connect_to_remote : ℕ → ℕ → Dict Str Str → Call
  -- deadline timers, with their handler's arguments and their milliseconds
  watchdog : Conn → ℕ → Call
  fwd_timer : Conn → Message → Str → ℕ → Call
  headers_timer : Ref → ℕ → Call
  cancel_timer : Ref → Call
  -- `PluginAdaptor` and the queries and strategies that it keeps
  gen_uuid : Call
  dispatch : ℕ → Call
  stop_query : Str → Call
  report_results : Str → Members → Call
  start_reply : ℕ → Sink → Call
  -- an adaptor of playdar's
  write_content : ℕ → Str → Call
  write_finish : ℕ → Call
  write_cancel : ℕ → Call
  set_status_code : ℕ → ℤ → Call
  set_mime_type : ℕ → Str → Call
  set_content_length : ℕ → ℤ → Call
  -- playdar's `auth`, of the web interface
  consume_formtoken : Str → Call
  add_formtoken : Str → Call
  -- `jbot::send_to`
  send_to : Str → Str → Call

-- All calls so far, the newest first.
abbrev pub Log : Type 0
Log = List Call

-- The answers of the libraries. Where an answer may change, it may depend on all calls made so far.
-- A query (`rq_ptr`), an item (`ri_ptr`) and a strategy of playdar's (`ss_ptr`) are handles.
pub record Env : Type 0 where
  -- `GeneralMessage(type, payload, guid)`, and the accessors of a message
  pub general_message : ℕ → Str → Str → Message
  pub msg_type : Message → ℕ
  pub msg_guid : Message → Str
  pub msg_payload : Message → Str
  -- `ready()`, `get(key)`, `name()`; whether a weak pointer to the connection can be locked
  pub conn_ready : Log → Conn → Bool
  pub conn_get : Log → Conn → Str → Str
  pub conn_name : Log → Conn → Str
  pub conn_alive : Log → Conn → Bool
  pub connection_by_name : Log → Str → Option Conn
  -- `address_v4::from_string`, which throws on what is no address
  pub parse_ipv4 : Str → Option ℕ
  pub connected_names : Log → List Str
  -- `lexical_cast<unsigned short>`, which throws on what is no such number
  pub parse_port : Str → Option ℕ
  -- whether `consume_formtoken` accepted the token
  pub token_valid : Log → Str → Bool
  -- json_spirit's `read`, `write`, `write_formatted`, and `obj_to_map` followed by `find`
  pub read : Str → Option Value
  pub write : Members → Str
  pub write_formatted : Members → Str
  pub write_array : Values → Str
  pub find : Members → Str → Option Value
  -- `boost::split` at one character
  pub split : ℕ → Str → List Str
  -- playdar
  pub uuid : Log → Str
  pub query_from_json : Members → Option ℕ
  pub query_id : ℕ → Str
  pub query_json : ℕ → Members
  pub query_exists : Log → Str → Bool
  -- what `dispatch` returned
  pub dispatched : Log → ℕ → Str
  pub solved : Log → Str → Bool
  pub stopped : Log → Str → Bool
  pub item_from_json : Members → Option ℕ
  pub item_id : ℕ → Str
  pub item_json : ℕ → Members
  pub item_set_url : ℕ → Str → ℕ
  pub item_rm_json_value : ℕ → Str → ℕ
  pub get_ss : Log → Str → Option ℕ

-- `ss_greynet`, less its start time, which only its printed statistics read.
pub record Ss : Type 0 where
  pub bytes_transferred : ℕ
  pub contentlength : ℕ
  -- set once a timer was made
  pub timer : Bool
  pub aa : Option Sink
  pub conn : Conn
  pub sid : Str
  pub finished : Bool

-- `greynet_asyncadaptor`
pub record Adaptor : Type 0 where
  pub sid : Str
  pub conn : Conn
  pub sentfirst : Bool
  pub status : ℤ
  pub mimetype : Str
  pub contentlength : ℤ

-- The members of `greynet` that its handlers use, the objects that it allocates, and the calls made.
pub record State : Type 0 where
  pub port : ℕ
  pub publicip : Str
  -- `m_jbot->jid()`; `none` is a null `m_jbot`
  pub jbot_jid : Option Str
  -- cookie to jid
  pub peer_cookies : Dict Str Str
  pub qidorigins : Dict Str Conn
  pub sid2ss : Dict Str Ref
  pub seen_guids : List Str
  -- the multimap, in its order
  pub conn2sid : List (Conn × Str)
  pub strategies : Dict Ref Ss
  pub adaptors : Dict ℕ Adaptor
  pub next_address : ℕ
  pub log : Log

-- How a handler can take the process down, or never return.
pub data Fault : Type 0 where
  uncaught_exception null_pointer dangling_pointer failed_assertion endless_loop : Fault

pub data Result {ℓ} (A : Type ℓ) : Type ℓ where
  ok : A → Result A
  fault : Fault → Result A

infixl 5 ◌>>=◌
abbrev pub ◌>>=◌ {ℓ κ} : {A : Type ℓ} {B : Type κ} → Result A → (A → Result B) → Result B
ok a >>= f = f a
fault e >>= f = fault e

abbrev pub or_fault {ℓ} : {A : Type ℓ} → Option A → Fault → Result A
or_fault none e = fault e
or_fault (some a) e = ok a

abbrev pub emit : Call → State → State
emit c s = record s { log = c ∷ s.log }

-- Calls in their order, made after a log.
abbrev pub push_all : List Call → Log → Log
push_all [] log = log
push_all (c ∷ cs) log = push_all cs (c ∷ log)
