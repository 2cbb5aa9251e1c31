-- ===== src/Dispatch.antt =====
-- src/greynet.cpp, message_received: the handler of each message type, and the guard against guids
-- that were seen before.
pub mod Streams
pub mod Dupes
pub mod Origins
pub mod Replies
use greynet.Base.{ℕ, Str, Bool, ◌||◌, ◌∷◌, ◌==◌, nat_eq, str_eq, if◌then◌else◌, contains}
use greynet.Messages.{
  Message, ping, pong, query, queryresult, querystop, sidrequest, siddata, sidfail, sidheaders,
  pong_message,
}
use greynet.Platform.{Env, State, Conn, Call, Result, ok, emit}
use greynet.Transfers.{handle_sidrequest, handle_siddata, handle_sidheaders, handle_sidfail}
use greynet.Queries.{handle_query, handle_queryresult, handle_querystop}

-- The first switch: all messages of one stream have its sid for a guid.
unfoldable pub is_stream : ℕ → Bool
unfolding nat_eq
is_stream t = t == siddata || t == sidfail || t == sidheaders

-- The default branch of the first switch, past its test.
abbrev pub mark_seen : Str → State → State
mark_seen guid s = record s { seen_guids = guid ∷ s.seen_guids }

module _ (env : Env) where
  open env use {msg_type, msg_guid, uuid}

  unfoldable pub handle_ping : Conn → State → State
  handle_ping conn s =
      let t = emit Call.gen_uuid s in emit (Call.async_write conn (pong_message (uuid t.log))) t

  -- The second switch.
  unfoldable pub handle_message : Message → Conn → State → Result State
  unfolding handle_ping nat_eq
  handle_message msg conn s =
      if msg_type msg == ping
      then ok (handle_ping conn s)
      else if msg_type msg == pong
      then ok s
      else if msg_type msg == query
      then handle_query env conn msg s
      else if msg_type msg == queryresult
      then handle_queryresult env conn msg s
      else if msg_type msg == querystop
      then ok (handle_querystop env conn msg s)
      else if msg_type msg == sidrequest
      then ok (handle_sidrequest env conn msg s)
      else if msg_type msg == siddata
      then handle_siddata env msg s
      else if msg_type msg == sidheaders
      then handle_sidheaders env msg s
      else if msg_type msg == sidfail
      then handle_sidfail env msg s
      else ok s

  unfoldable pub message_received : Message → Conn → State → Result State
  unfolding is_stream
  message_received msg conn s =
      if is_stream (msg_type msg)
      then handle_message msg conn s
      else if contains (msg_guid msg) s.seen_guids
      then ok s
      else handle_message msg conn (mark_seen (msg_guid msg) s)
