-- ===== src/Messages/Framing.antt =====
-- src/greynet_messages.hpp: the headers of the classes and their payloads.
use greynet.Base.{ℕ, ◌<◌, ◌^◌, ◌≡◌, refl, Str, [], take, length, take-length, arith}
use greynet.Json.{Members}
use greynet.Messages.{
  Message, htonl, make, bare, ping, pong, ident, query, queryresult, ping_message, pong_message,
  ident_message, query_message, query_result_message, response,
}

-- Reversing the bytes twice gives the number back.
pub htonl_involutive : (n : ℕ) → n < 2 ^ 32 → htonl (htonl n) ≡ n
unfolding htonl
htonl_involutive n h = omega arith

-- What a receiver relies on: the type, the whole uuid as guid, one hop to live, and a length field
-- that in network byte order is the payload's length.
pub record IsFramed (t : ℕ) (uuid body : Str) (m : Message) : Type 0 where
  pub typed : m.header.type ≡ t
  pub identified : m.header.guid ≡ uuid
  pub one_hop : (m.header.ttl ≡ 1) × (m.header.hops ≡ 0)
  pub carries : m.payload ≡ body
  pub measured : htonl m.header.length_field ≡ length body

take_whole : (n : ℕ) (uuid : Str) → length uuid ≡ n → take n uuid ≡ uuid
take_whole n uuid h = rw (← h) (take-length uuid)

make-IsFramed :
    (t : ℕ) (body uuid : Str)
    → length uuid ≡ 36
    → length body < 2 ^ 32
    → IsFramed t uuid body (make t body uuid)
unfolding make
make-IsFramed t body uuid h k = record {
  typed = refl;
  identified = take_whole 36 uuid h;
  one_hop = (refl, refl);
  carries = refl;
  measured = htonl_involutive (length body) k;
}

bare-IsFramed : (t : ℕ) (uuid : Str) → length uuid ≡ 36 → IsFramed t uuid [] (bare t uuid)
unfolding bare htonl
bare-IsFramed t uuid h = record {
  typed = refl;
  identified = take_whole 36 uuid h;
  one_hop = (refl, refl);
  carries = refl;
  measured = refl;
}

-- For a uuid of 36 bytes and payloads under 2 ^ 32 bytes, each of the five message classes builds
-- a message of its own type, identified by the whole uuid, with one hop to live, whose payload is
-- the written body and whose length field, read in network byte order, is that payload's length.
pub messages-IsFramed :
    (write : Members → Str) (body qid uuid : Str) (jq item : Members)
    → length uuid ≡ 36
    → length body < 2 ^ 32
    → length (write jq) < 2 ^ 32
    → length (write (response qid item)) < 2 ^ 32
    → IsFramed ping uuid [] (ping_message uuid)
      × IsFramed pong uuid [] (pong_message uuid)
      × IsFramed ident uuid body (ident_message body uuid)
      × IsFramed query uuid (write jq) (query_message write jq uuid)
      × IsFramed queryresult uuid
          (write (response qid item))
          (query_result_message write qid item uuid)
unfolding ping_message pong_message ident_message query_message query_result_message
messages-IsFramed write body qid uuid jq item h k l m = (
  bare-IsFramed ping uuid h,
  bare-IsFramed pong uuid h,
  make-IsFramed ident body uuid h k,
  make-IsFramed query (write jq) uuid h l,
  make-IsFramed queryresult (write (response qid item)) uuid h m,
)
