-- ===== src/Messages.antt =====
-- src/greynet_messages.hpp: the message types and the five message classes.
pub mod Framing
use greynet.Base.{codes, ℕ, ◌+◌, ◌*◌, ◌/◌, ◌%◌, ◌^◌, [], Str, take, length}
use greynet.Json.{Value, str, obj, Members, end, push_back}

-- The `#define`s of the message types.
abbrev pub ping : ℕ
ping = 0

abbrev pub pong : ℕ
pong = 1

abbrev pub ident : ℕ
ident = 2

abbrev pub query : ℕ
query = 3

abbrev pub queryresult : ℕ
queryresult = 4

abbrev pub querystop : ℕ
querystop = 5

abbrev pub sidrequest : ℕ
sidrequest = 6

abbrev pub siddata : ℕ
siddata = 7

abbrev pub sidfail : ℕ
sidfail = 8

abbrev pub sidheaders : ℕ
sidheaders = 9

-- The fields of `libf2f::message_header` that the classes fill in.
pub record Header : Type 0 where
  pub guid : Str
  pub type : ℕ
  pub ttl : ℕ
  pub hops : ℕ
  pub length_field : ℕ

-- `m_header` and `m_payload` of a `libf2f::Message`.
pub record Message : Type 0 where
  pub header : Header
  pub payload : Str

-- `htonl` on a little-endian host: a `uint32_t` with its four bytes in the opposite order.
unfoldable pub htonl : ℕ → ℕ
htonl n = n % 256 * 2 ^ 24 + n / 2 ^ 8 % 256 * 2 ^ 16 + n / 2 ^ 16 % 256 * 2 ^ 8 + n / 2 ^ 24 % 256

-- What the five constructors share. `memcpy` takes 36 bytes of the uuid.
make : ℕ → Str → Str → Message
make t body uuid = record {
  header = record {
    guid = take 36 uuid;
    type = t;
    ttl = 1;
    hops = 0;
    length_field = htonl (length body);
  };
  payload = body;
}

-- A message with no payload: its length is a plain 0.
bare : ℕ → Str → Message
bare t uuid = record {
  header = record { guid = take 36 uuid; type = t; ttl = 1; hops = 0; length_field = 0 };
  payload = [];
}

unfoldable pub pong_message : Str → Message
unfolding bare
pong_message uuid = bare pong uuid

unfoldable pub ping_message : Str → Message
unfolding bare
ping_message uuid = bare ping uuid

unfoldable pub ident_message : Str → Str → Message
unfolding make
ident_message body uuid = make ident body uuid

-- `write` is the JSON library's, and `jq` is `rq->get_json()`.
unfoldable pub query_message : (Members → Str) → Members → Str → Message
unfolding make
query_message write jq uuid = make query (write jq) uuid

-- The response object: the query's id and `rip->get_json()`.
unfoldable pub response : Str → Members → Members
unfolding push_back
response qid item = push_back (push_back end (codes "qid") (str qid)) (codes "result") (obj item)

unfoldable pub query_result_message : (Members → Str) → Str → Members → Str → Message
unfolding make
query_result_message write qid item uuid = make queryresult (write (response qid item)) uuid
