-- ===== src/Strategy.antt =====
-- src/ss_greynet.cpp and src/ss_greynet.h: a stream that arrives from a peer. An object is named by
-- its address in `strategies`. Left out are the start time and what print_stats prints from it.
pub mod Url
pub mod Factory
pub mod Keeps
use greynet.Base.{
  ℕ, suc, ◌+◌, ◌-◌, ◌%◌, ◌^◌, Str, codes, Bool, true, false, Option, none, some, List, [], ◌∷◌,
  ◌==◌, nat_eq, str_eq, if◌then◌else◌, length, find_char, substr,
}
use greynet.Base.Dict.{lookup, insert}
use greynet.Base.Int.{ℤ, pos, to_unsigned}
use greynet.Base.Decimal.{atoi}
use greynet.Messages.{Message, sidrequest}
use greynet.Platform.{
  Env, State, Ss, Ref, Conn, Sink, Call, Result, ok, fault, null_pointer, emit, or_fault, ◌>>=◌,
}
use greynet.Adaptor.{
  sink_content, sink_finish, sink_cancel, set_status_code, set_mime_type, set_content_length,
}
use greynet.Registry.{register_sidtransfer, unregister_sidtransfer}

-- The object at an address, after a write to it.
abbrev pub store : Ref → Ss → State → State
store r x s = record s { strategies = insert r x s.strategies }

-- The constructor, with its call of reset().
unfoldable pub new_ss : Conn → Str → Ss
new_ss conn sid = record {
  bytes_transferred = 0;
  contentlength = 0;
  timer = false;
  aa = none;
  conn = conn;
  sid = sid;
  finished = false;
}

-- The copy constructor, with its call of reset(): the copy has neither adaptor nor timer.
unfoldable pub copy_ss : Ss → Ss
unfolding new_ss
copy_ss other = new_ss other.conn other.sid

-- reset()
abbrev reset : Ss → Ss
reset x = record x { finished = false; contentlength = 0; bytes_transferred = 0 }

-- The url without `greynet://`, at the first `;`: the name and the sid.
unfoldable pub parse_url : Str → Option (Str × Str)
parse_url url = elim (find_char b';' url 10) [
  | none ↦ none
  | some offset2 ↦
      some (substr url 10 (offset2 - 10), substr url (offset2 + 1) (length url - (offset2 + 1)))
]

abbrev size_modulus : ℕ
size_modulus = 2 ^ 64

-- `int code`, tested against 200.
unfoldable pub is_200 : ℤ → Bool
unfolding nat_eq
is_200 (pos n) = n == 200
is_200 _ = false

module _ (env : Env) where
  open env use {connection_by_name, conn_ready, general_message, msg_payload, split}

  unfoldable pub create : Str → Option Conn → State → Option Ref × State
  unfolding new_ss
  create sid none s = (none, s)
  create sid (some conn) s = (
    some s.next_address,
    record s {
      strategies = insert s.next_address (new_ss conn sid) s.strategies;
      next_address = suc s.next_address;
    },
  )

  -- The new object's address, if the url has a `;` and its peer is connected.
  unfoldable pub factory : Str → State → Option Ref × State
  unfolding create
  factory url s = elim (parse_url url) [
    | none ↦ (none, s)
    | some (username, sid) ↦ create sid (connection_by_name s.log username) s
  ]

  unfoldable pub cancel_handler : Ref → State → Result State
  cancel_handler r s = do
    x ← or_fault (lookup r s.strategies) null_pointer
    aa ← or_fault x.aa null_pointer
    t ← sink_cancel env aa s
    unregister_sidtransfer x.conn x.sid t

  -- greynet::start_sidrequest
  unfoldable pub start_sidrequest : Conn → Str → Ref → State → State
  start_sidrequest conn sid r s =
      let t = emit Call.gen_uuid (register_sidtransfer conn sid r s) in
      emit (Call.async_write conn (general_message sidrequest sid (env.uuid t.log))) t

  unfoldable pub start_reply : Ref → Sink → State → Result State
  unfolding start_sidrequest
  start_reply r aa s = do
    x ← or_fault (lookup r s.strategies) null_pointer
    let x' = record (reset x) { aa = some aa }
    let t = store r x' s
    if conn_ready s.log x.conn
        then ok (
            emit (Call.headers_timer r 5000)
              (store r (record x' { timer = true }) (start_sidrequest x.conn x.sid r t)))
        else cancel_handler r t

  -- `failed` is the timer's error code: the timer was cancelled.
  unfoldable pub timeout_cb : Bool → Ref → State → Result State
  timeout_cb failed r s = if failed then ok s else cancel_handler r s

  -- The branch of siddata_handler at the end of the stream.
  unfoldable pub finish : Ref → Ss → Sink → State → Result State
  finish r x aa s = do
    t ← sink_finish env aa (store r (record x { finished = true }) s)
    unregister_sidtransfer x.conn x.sid t

  -- Its other branch.
  unfoldable pub pass_on : Ref → Ss → Sink → Str → State → Result State
  pass_on r x aa payload s = sink_content env aa payload (
      store r
        (record x { bytes_transferred = (x.bytes_transferred + length payload) % size_modulus }) s)

  unfoldable pub siddata_handler : Ref → Str → State → Result State
  siddata_handler r payload s = do
    x ← or_fault (lookup r s.strategies) null_pointer
    aa ← or_fault x.aa null_pointer
    if length payload == 0 then finish r x aa s else pass_on r x aa payload s

  -- The status line. The flag says that sidheaders_handler returns.
  unfoldable pub handle_status : Sink → ℤ → Ref → State → Result (Bool × State)
  unfolding is_200
  handle_status aa code r s = do
    t ← set_status_code aa code s
    if is_200 code then ok (false, t) else (do u ← cancel_handler r t; ok (true, u))

  unfoldable pub handle_mime_type : Sink → Str → State → Result (Bool × State)
  handle_mime_type aa value s = do t ← set_mime_type aa value s; ok (false, t)

  unfoldable pub handle_content_length : Sink → ℤ → Ref → Ss → State → Result (Bool × State)
  handle_content_length aa len r x s = do
    t ← set_content_length aa len s
    ok (false, store r (record x { contentlength = to_unsigned size_modulus len }) t)

  -- A header line of two parts.
  unfoldable pub handle_header : Str → Str → Ref → State → Result (Bool × State)
  unfolding handle_status handle_mime_type handle_content_length
  handle_header key value r s = do
    x ← or_fault (lookup r s.strategies) null_pointer
    aa ← or_fault x.aa null_pointer
    if key == codes "status"
        then handle_status aa (atoi value) r s
        else if key == codes "mime-type"
        then handle_mime_type aa value s
        else if key == codes "content-length"
        then handle_content_length aa (atoi value) r x s
        else ok (false, s)

  -- A line of any other number of parts is skipped.
  unfoldable pub handle_parts : List Str → Ref → State → Result (Bool × State)
  unfolding handle_header
  handle_parts (key ∷ value ∷ []) r s = handle_header key value r s
  handle_parts _ r s = ok (false, s)

  unfoldable pub header_lines : List Str → Ref → State → Result State
  header_lines [] r s = ok s
  header_lines (line ∷ lines) r s = handle_parts (split 9 line) r s >>= λ out. elim out.0 [
    | true ↦ ok out.1
    | false ↦ header_lines lines r out.1
  ]

  unfoldable pub sidheaders_handler : Ref → Message → State → Result State
  sidheaders_handler r msg s = do
    x ← or_fault (lookup r s.strategies) null_pointer
    if x.timer
        then header_lines (split 10 (msg_payload msg)) r (emit (Call.cancel_timer r) s)
        else fault null_pointer
