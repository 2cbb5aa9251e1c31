-- ===== src/Stream/Darknet.antt =====
-- What a plugin can tell of the one behind its peer (src/ss_greynet.cpp, src/greynet.cpp,
-- src/greynet_asyncadaptor.hpp). README.txt: if Alice requests to stream a file, Bob requests to Charlie and
-- acts as a proxy, so Alice only ever knows about Bob.
use greynet.Base.{
  ℕ, Str, ◌≡◌, ◌≢◌, refl, ◌∙◌, sym, true, false, none, some, List, [], ◌∷◌, nat_eq, str_eq,
  contains, length, ◌<◌, ◌^◌,
}
use greynet.Adaptor.{header_text}
use greynet.Base.Int.{ℤ}
use greynet.Base.Dict.{lookup}
use greynet.Platform.{Env, State, Ss, Conn, Ref, Call, ok}
use greynet.Registry.{find}
use greynet.Stream.Headers.{IsSplit}
use greynet.Stream.Data.{IsGeneral, AllChunks}
use greynet.Stream.Sent.{since}
use greynet.Stream.Source.{serving}
use greynet.Stream.Chain.{chain, passed_on, chain_lem}
use greynet.Stream.Download.{download, download_lem, served, sender}

module _ (us mid far : Env) where
  -- Three plugins that build messages alike; all that a connection is given arrives at its other end,
  -- and the one in the middle has different connections to the other two. In both hops, the strategy's
  -- connection is ready and has no transfer, its sid is not registered, and the plugin that is asked
  -- has not seen the guid of the request and has a strategy or a source for the sid. The last one's
  -- source writes a stream with a type without tabs and line ends, headers under 2 ^ 32 bytes, and
  -- chunks that are not empty and under 2 ^ 32 bytes each. Both sids and both guids have 36 bytes. Then
  -- it makes no difference to us whether the plugin in the middle passes that stream on, or has a
  -- source that writes it: we end in the same state, and get the same messages from it.
  pub chain-download :
      (r : Ref) (x : Ss) (j : ℕ) (d : Conn) (q : Ref) (y : Ss) (f : Conn) (mime : Str) (len : ℤ)
      (chunks : List Str) (ss source : ℕ) (s m t : State)
      → ((type : ℕ) (p g : Str) → mid.general_message type p g ≡ us.general_message type p g)
      → ((type : ℕ) (p g : Str) → far.general_message type p g ≡ mid.general_message type p g)
      → IsGeneral us
      → IsGeneral mid
      → IsGeneral far
      → IsSplit us.split
      → IsSplit mid.split
      → contains 10 mime ≡ false
      → contains 9 mime ≡ false
      → length (header_text (sender us mid d x.sid mime len)) < 2 ^ 32
      → AllChunks chunks
      → y.conn ≢ d
      → length x.sid ≡ 36
      → length y.sid ≡ 36
      → length (us.uuid (Call.gen_uuid ∷ s.log)) ≡ 36
      → lookup r s.strategies ≡ some x
      → us.conn_ready s.log x.conn ≡ true
      → find x.conn s.conn2sid ≡ []
      → lookup x.sid s.sid2ss ≡ none
      → contains (us.uuid (Call.gen_uuid ∷ s.log)) m.seen_guids ≡ false
      → mid.get_ss m.log x.sid ≡ some ss
      → let guid = us.uuid (Call.gen_uuid ∷ s.log) in
        let m1 = serving d x.sid guid ss m in
        let next_guid = mid.uuid (Call.gen_uuid ∷ m1.log) in
        length next_guid ≡ 36
        → lookup q m.strategies ≡ some y
        → mid.conn_ready m1.log y.conn ≡ true
        → find y.conn m.conn2sid ≡ []
        → lookup y.sid m.sid2ss ≡ none
        → contains next_guid t.seen_guids ≡ false
        → far.get_ss t.log y.sid ≡ some source
        → (s1 m1 m2 t1 : State) × (chain us mid far r j x.conn d q y.conn f mime len chunks s m t
            ≡ ok (s1, m1, t1))
          × (download us mid r j x.conn d mime len chunks s m ≡ ok (s1, m2))
          × (since d m m1 ≡ since d m m2)
  chain-download r x j d q y f mime len chunks ss source s m t alike like g g1 g2 law law1 e h z n
        other l l1 u held ready free unknown new has u1 held1 ready1 free1 unknown1 new1 has1 =
      let guid : Str = us.uuid (Call.gen_uuid ∷ s.log) in
      let whole =
        chain_lem us mid far r x j d q y f mime len chunks ss source s m t alike like g g1 g2 law
          law1 e h z n other l l1 u held ready free unknown new has u1 held1 ready1 free1 unknown1
          new1 has1 in
      let direct =
        download_lem us mid r x j d mime len chunks ss s m alike g g1 law e h z n l u held ready
          free unknown new has in
      (
        _,
        _,
        _,
        _,
        whole,
        direct,
        passed_on us mid far q y x.sid d mime len chunks guid ss m alike other
            ∙ sym (served us mid d x mime len chunks guid ss m _ alike refl),
      )
