-- ===== src/Stream/Session.antt =====
-- A whole stream on the side that asked for it: start_reply (src/ss_greynet.cpp), and the messages
-- that answer it.
use greynet.Base.{
  ℕ, ◌+◌, ◌%◌, ◌^◌, Str, ◌≡◌, refl, true, false, none, some, List, [], ◌∷◌, leb, if◌then◌else◌,
  arith, nat_eq, str_eq, contains, length, ◌<◌,
}
use greynet.Adaptor.{header_text}
use greynet.Base.Int.{pos, to_unsigned}
use greynet.Base.Dict.{lookup, insert, insert-insert, lookup-insert_self, erase-insert}
use greynet.Messages.{sidrequest}
use greynet.Platform.{
  Env, State, Ss, Adaptor, Conn, Ref, Sink, Call, Log, ok, http, push_all, ◌>>=◌,
}
use greynet.Registry.{Transfers, find, erase_found, insert_pair}
use greynet.Strategy.{start_reply}
use greynet.Stream.{receive, stream_messages}
use greynet.Stream.Headers.{IsSplit}
use greynet.Stream.Data.{IsGeneral, IsPlaying, AllChunks, total, playback}
use greynet.Stream.Receive.{receive-stream_messages}

-- The first transfer of a connection is found once it is inserted, and erased again.
pub find-insert_pair :
    (c : Conn) (sid : Str) (m : Transfers)
    → find c m ≡ []
    → (rest : Transfers) × (find c (insert_pair c sid m) ≡ (c, sid) ∷ rest)
unfolding find insert_pair
find-insert_pair c sid [] h = ([], ground arith)
find-insert_pair c sid ((d, t) ∷ m) h = elim (nat_eq.dec d c) [
  | yes p ↦ absurd (ground arith)
  | no n ↦
      let (rest, e) = find-insert_pair c sid m (ground arith) in
      (if leb d c then rest else (d, t) ∷ m, ground arith)
]

pub erase_found-insert_pair :
    (c : Conn) (sid : Str) (m : Transfers) → find c m ≡ [] → erase_found c (insert_pair c sid m) ≡ m
unfolding find erase_found insert_pair
erase_found-insert_pair c sid [] h = ground arith
erase_found-insert_pair c sid ((d, t) ∷ m) h = ground (arith, erase_found-insert_pair c sid m)

module _ (env : Env) where
  -- What start_reply leaves: the strategy, and the calls, the newest first.
  abbrev pub started : Ss → Sink → Ss
  started x aa = record x {
    bytes_transferred = 0;
    contentlength = 0;
    timer = true;
    aa = some aa;
    finished = false;
  }

  abbrev pub request_calls : Ref → Ss → Log → List Call
  request_calls r x log =
      Call.gen_uuid
      ∷ Call.async_write x.conn
          (env.general_message sidrequest x.sid (env.uuid (Call.gen_uuid ∷ log)))
      ∷ Call.headers_timer r 5000
      ∷ []

  abbrev pub after_start : Ref → Ss → Sink → State → State
  after_start r x aa s = record s {
    strategies = insert r (started x aa) s.strategies;
    sid2ss = insert x.sid r s.sid2ss;
    conn2sid = insert_pair x.conn x.sid s.conn2sid;
    log = push_all (request_calls r x s.log) s.log;
  }

  pub start_reply_lem :
      (r : Ref) (x : Ss) (aa : Sink) (s : State)
      → lookup r s.strategies ≡ some x
      → env.conn_ready s.log x.conn ≡ true
      → start_reply env r aa s ≡ ok (after_start r x aa s)
  unfolding start_reply greynet.Strategy.start_sidrequest greynet.Registry.register_sidtransfer
  start_reply_lem r x aa s h k =
      rw (h, k)
        (ground (
          arith,
          insert-insert r (started x aa) (record (started x aa) { timer = x.timer }) s.strategies,
        ))

  -- From the request to the end. A strategy whose connection is ready and has no transfer, and whose
  -- sid is not registered, starts a reply into an adaptor of playdar's; then the messages of a stream
  -- with its sid, of 36 bytes, status 200, a type without tabs and line ends, headers under 2 ^ 32
  -- bytes, and chunks that are not empty and under 2 ^ 32 bytes each arrive. The handlers have then asked the peer for the stream, started the timer for the headers
  -- and cancelled it, and given playdar's adaptor the status, the type, the length, each chunk in its
  -- order and the end; the strategy has counted the bytes and is finished; and the registered
  -- transfers are again those from before.
  pub start_reply-receive :
      (a : Adaptor) (r : Ref) (x : Ss) (j : ℕ) (conn : Conn) (chunks : List Str) (s : State)
      → IsGeneral env
      → IsSplit env.split
      → a.status ≡ pos 200
      → contains 10 a.mimetype ≡ false
      → contains 9 a.mimetype ≡ false
      → length (header_text a) < 2 ^ 32
      → a.sid ≡ x.sid
      → length x.sid ≡ 36
      → AllChunks chunks
      → lookup r s.strategies ≡ some x
      → env.conn_ready s.log x.conn ≡ true
      → find x.conn s.conn2sid ≡ []
      → lookup x.sid s.sid2ss ≡ none
      → (start_reply env r (http j) s >>= λ t. receive env conn (stream_messages env a chunks) t)
        ≡ ok (record s {
          strategies =
              insert r
                (record x {
                  bytes_transferred = total chunks % 2 ^ 64;
                  contentlength = to_unsigned (2 ^ 64) a.contentlength;
                  timer = true;
                  aa = some (http j);
                  finished = true;
                })
                s.strategies;
          log =
              push_all
                (Call.cancel_timer r
                  ∷ Call.set_status_code j (pos 200)
                  ∷ Call.set_mime_type j a.mimetype
                  ∷ Call.set_content_length j a.contentlength
                  ∷ playback j chunks)
                (push_all (request_calls r x s.log) s.log);
        })
  start_reply-receive a r x j conn chunks s law split e h k z same l n held ready free unknown =
      let t : State = after_start r x (http j) s in
      let (rest, first) = find-insert_pair x.conn x.sid s.conn2sid free in
      let p : IsPlaying r (started x (http j)) j rest t = record {
        registered = lookup-insert_self x.sid r s.sid2ss;
        is_guid = l;
        held = lookup-insert_self r (started x (http j)) s.strategies;
        playing = refl;
        first = first;
      } in
      let received =
        receive-stream_messages env a r (started x (http j)) j rest conn chunks t law split e h k z
          same n p refl (omega arith) in
      let zero_add : 0 + total chunks ≡ total chunks = omega arith in
      rw (start_reply_lem r x (http j) s held ready) (
        ground (
          arith,
          received,
          zero_add,
          erase_found-insert_pair x.conn x.sid s.conn2sid free,
          erase-insert x.sid r s.sid2ss unknown,
          insert-insert r
              (record (started x (http j)) {
                bytes_transferred = total chunks % 2 ^ 64;
                contentlength = to_unsigned (2 ^ 64) a.contentlength;
                finished = true;
              })
              (started x (http j)) s.strategies,
        ))
