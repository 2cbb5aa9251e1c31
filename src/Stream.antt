-- ===== src/Stream.antt =====
-- A stream from one plugin to another: src/greynet_asyncadaptor.hpp sends it, src/greynet.cpp and
-- src/ss_greynet.cpp receive it. Here stand the runs that the theorems below are about.
pub mod Send
pub mod Headers
pub mod Data
pub mod Receive
pub mod Session
pub mod Refused
pub mod Relay
pub mod Hop
pub mod Timeout
pub mod Sent
pub mod Source
pub mod Download
pub mod Passing
pub mod Chain
pub mod Path
pub mod Darknet
use greynet.Base.{ℕ, Str, List, [], ◌∷◌, ◌++◌, map}
use greynet.Messages.{Message, siddata, sidheaders}
use greynet.Platform.{Env, State, Adaptor, Conn, Sink, relay, Call, Result, ok, ◌>>=◌}
use greynet.Adaptor.{header_text, sink_content, sink_finish}
use greynet.Dispatch.{message_received}

module _ (env : Env) where
  -- A source that writes its chunks into the adaptor at an address, and finishes.
  unfoldable pub play : ℕ → List Str → State → Result State
  play i [] s = sink_finish env (relay i) s
  play i (chunk ∷ chunks) s = sink_content env (relay i) chunk s >>= λ t. play i chunks t

  -- The messages of one connection, in their order.
  unfoldable pub receive : Conn → List Message → State → Result State
  receive conn [] s = ok s
  receive conn (msg ∷ msgs) s = message_received env msg conn s >>= λ t. receive conn msgs t

  -- SIDDATA for each chunk, and an empty one.
  abbrev pub data_messages : Str → List Str → List Message
  data_messages sid [] = env.general_message siddata [] sid ∷ []
  data_messages sid (chunk ∷ chunks) =
      env.general_message siddata chunk sid ∷ data_messages sid chunks

  abbrev pub stream_messages : Adaptor → List Str → List Message
  stream_messages a chunks =
      env.general_message sidheaders (header_text a) a.sid ∷ data_messages a.sid chunks

abbrev pub writes : Conn → List Message → List Call
writes conn = map (Call.async_write conn)
