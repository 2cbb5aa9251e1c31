-- ===== src/Stream/Path.antt =====
-- A stream that is passed on by any number of plugins (src/ss_greynet.cpp,
-- src/greynet_asyncadaptor.hpp), one after the other.
use greynet.Base.{
  ℕ, ◌^◌, ◌<◌, Str, ◌≡◌, refl, ◌∙◌, false, true, some, List, [], ◌∷◌, nat_eq, str_eq, contains,
  length,
}
use greynet.Adaptor.{header_text}
use greynet.Base.Int.{pos, to_unsigned}
use greynet.Base.Dict.{lookup, erase, lookup-insert_self}
use greynet.Messages.{Message}
use greynet.Platform.{Env, State, Ss, Adaptor, Conn, Ref, Call, Result, ok, ◌>>=◌}
use greynet.Registry.{Transfers, erase_found}
use greynet.Stream.{receive, stream_messages, writes}
use greynet.Stream.Headers.{IsSplit}
use greynet.Stream.Data.{IsGeneral, AllChunks}
use greynet.Stream.Relay.{IsRelaying, relayed}
use greynet.Stream.Hop.{described, receive-stream_messages_relay}
use greynet.Stream.Sent.{since, since-push_all, sent_calls, sent_calls-writes}
use greynet.Stream.Download.{stream_messages-alike}

-- A plugin on the way: its libraries, the connection that the stream comes in on, the strategy that
-- plays it, and the adaptor that it plays into.
pub record Hop : Type 0 where
  pub env : Env
  pub conn : Conn
  pub strategy : Ref
  pub object : Ss
  pub address : ℕ
  pub adaptor : Adaptor
  pub rest : Transfers
  pub state : State

-- Each plugin gets what the one before it has written to the connection of its adaptor: the plugins'
-- states afterwards, and what the last one has written.
unfoldable pub path : List Hop → List Message → Result (List State × List Message)
path [] msgs = ok ([], msgs)
path (h ∷ hops) msgs = receive h.env h.conn msgs h.state >>= λ s.
    path hops (since h.adaptor.conn h.state s) >>= λ (states, last). ok (s ∷ states, last)

-- The plugin builds messages as `us`, and relays a stream with this sid into an adaptor that has
-- sent nothing yet.
pub record Carries (us : Env) (sid : Str) (h : Hop) : Type 0 where
  pub alike : (type : ℕ) (p g : Str) → h.env.general_message type p g ≡ us.general_message type p g
  pub general : IsGeneral h.env
  pub splits : IsSplit h.env.split
  pub named : sid ≡ h.object.sid
  pub relaying : IsRelaying h.strategy h.object h.address h.adaptor h.rest h.state
  pub fresh : h.adaptor.sentfirst ≡ false
  pub timed : h.object.timer ≡ true
  pub counted : h.object.bytes_transferred < 2 ^ 64

-- Each plugin carries the stream under the sid of the adaptor before it.
abbrev pub AllCarry : Env → Str → List Hop → Type 0
AllCarry us sid [] = Unit {0}
AllCarry us sid (h ∷ hops) = Carries us sid h × AllCarry us h.adaptor.sid hops

-- The last adaptor with the headers of the first.
abbrev pub arriving : Adaptor → List Hop → Adaptor
arriving a [] = a
arriving a (h ∷ hops) = arriving (described h.adaptor a) hops

-- The plugin's strategy has counted the bytes and is finished, and its transfer is gone.
abbrev pub IsThrough : Adaptor → List Str → Hop → State → Type 0
IsThrough a chunks h s =
    (lookup h.strategy s.strategies
      ≡ some (
          relayed (record h.object { contentlength = to_unsigned (2 ^ 64) a.contentlength })
            chunks))
    × (s.conn2sid ≡ erase_found h.object.conn h.state.conn2sid)
    × (s.sid2ss ≡ erase h.object.sid h.state.sid2ss)

abbrev pub AllThrough : Adaptor → List Str → List Hop → List State → Type 0
AllThrough a chunks [] states = states ≡ []
AllThrough a chunks (h ∷ hops) [] = ⊥
AllThrough a chunks (h ∷ hops) (s ∷ states) =
    IsThrough a chunks h s × AllThrough (described h.adaptor a) chunks hops states

module _ (us : Env) where
  hop_lem :
      (a : Adaptor) (h : Hop) (chunks : List Str)
      → a.status ≡ pos 200
      → contains 10 a.mimetype ≡ false
      → contains 9 a.mimetype ≡ false
      → length (header_text a) < 2 ^ 32
      → AllChunks chunks
      → Carries us a.sid h
      → (s : State) × (receive h.env h.conn (stream_messages us a chunks) h.state ≡ ok s)
        × (since h.adaptor.conn h.state s ≡ stream_messages us (described h.adaptor a) chunks)
        × IsThrough a chunks h s
  unfolding sent_calls
  hop_lem a h chunks e k l z n c =
      let out : Adaptor = described h.adaptor a in
      let msgs = stream_messages h.env out chunks in
      let run =
        receive-stream_messages_relay h.env a h.strategy h.object h.address h.adaptor h.rest h.conn
          chunks h.state c.general c.splits e k l z c.named n c.relaying c.fresh c.timed
          c.counted in
      (
        _,
        rw (stream_messages-alike us h.env a chunks c.alike) at run,
        since-push_all h.adaptor.conn (Call.cancel_timer h.strategy ∷ writes h.adaptor.conn msgs)
              h.state _ refl
            ∙ sent_calls-writes h.adaptor.conn msgs
            ∙ stream_messages-alike us h.env out chunks c.alike,
        (lookup-insert_self h.strategy _ h.state.strategies, refl, refl),
      )

  -- A stream with status 200, a type without tabs and line ends, headers under 2 ^ 32 bytes, and
  -- chunks that are not empty and under 2 ^ 32 bytes each, passed on by any number of plugins,
  -- each of which relays it, and gets it under a sid of its own, of 36 bytes: every plugin receives
  -- it without a fault, its strategy has then counted the bytes and is finished, and its transfer is
  -- gone; and the last plugin writes the messages of one stream with the first one's status, type
  -- and length, and the same chunks in their order.
  pub path_lem :
      (a : Adaptor) (hops : List Hop) (chunks : List Str)
      → a.status ≡ pos 200
      → contains 10 a.mimetype ≡ false
      → contains 9 a.mimetype ≡ false
      → length (header_text a) < 2 ^ 32
      → AllChunks chunks
      → AllCarry us a.sid hops
      → let b = arriving a hops in
        (b.status ≡ pos 200)
        × (b.mimetype ≡ a.mimetype)
        × (b.contentlength ≡ a.contentlength)
        × ((states : List State) × (path hops (stream_messages us a chunks)
              ≡ ok (states, stream_messages us b chunks))
            × AllThrough a chunks hops states)
  unfolding path header_text
  path_lem a [] chunks e k l z n c = (e, refl, refl, ([], refl, refl))
  path_lem a (h ∷ hops) chunks e k l z n (c, cs) =
      let (s, run, wrote, through) = hop_lem a h chunks e k l z n c in
      let (status, mime, len, (states, rest, others)) =
        path_lem (described h.adaptor a) hops chunks refl k l (rw (e) at z) n cs in
      (status, mime, len, (s ∷ states, rw (run, wrote, rest), (through, others)))
