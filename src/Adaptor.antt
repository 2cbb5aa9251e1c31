-- ===== src/Adaptor.antt =====
-- src/greynet_asyncadaptor.hpp: the adaptor that sends a stream down a connection, and the virtual
-- calls on an `AsyncAdaptor_ptr`, which reach it or an adaptor of playdar's.
use greynet.Base.{ℕ, Str, String, codes, true, false, [], ◌∷◌, ◌++◌, if◌then◌else◌, nat_eq}
use greynet.Base.Int.{ℤ, pos}
use greynet.Base.Dict.{lookup, insert}
use greynet.Base.Decimal.{show_int}
use greynet.Messages.{siddata, sidfail, sidheaders}
use greynet.Platform.{
  Env, State, Adaptor, Conn, Sink, http, relay, Call, Result, ok, null_pointer, emit, or_fault,
  ◌>>=◌,
}

-- The constructor.
unfoldable pub new_adaptor : Conn → Str → Adaptor
new_adaptor conn sid = record {
  sid = sid;
  conn = conn;
  sentfirst = false;
  status = pos 200;
  mimetype = codes "application/binary";
  contentlength = pos 0;
}

-- One line of the headers, `key\tvalue\n`.
abbrev pub header_line : String → Str → Str
header_line key value = codes key ++ (9 ∷ (value ++ 10 ∷ []))

unfoldable pub header_text : Adaptor → Str
header_text a =
    header_line "status" (show_int a.status)
    ++ (header_line "mime-type" a.mimetype
        ++ header_line "content-length" (show_int a.contentlength))

-- The object at an address, after a write to it.
abbrev pub store : ℕ → Adaptor → State → State
store i a s = record s { adaptors = insert i a s.adaptors }

module _ (env : Env) where
  open env use {general_message}

  unfoldable pub send_headers : Adaptor → State → State
  send_headers a s =
      emit (Call.async_write a.conn (general_message sidheaders (header_text a) a.sid)) s

  -- `write_content` of the object `a` at the address `i`.
  unfoldable pub write_content : ℕ → Adaptor → Str → State → State
  unfolding send_headers
  write_content i a buffer s =
      let t =
        if a.sentfirst then s else store i (record a { sentfirst = true }) (send_headers a s) in
      emit (Call.async_write a.conn (general_message siddata buffer a.sid)) t

  -- An empty SIDDATA says that the stream is finished.
  unfoldable pub write_finish : ℕ → Adaptor → State → State
  unfolding write_content
  write_finish i a s = write_content i a [] s

  unfoldable pub write_cancel : Adaptor → State → State
  write_cancel a s = emit (Call.async_write a.conn (general_message sidfail [] a.sid)) s

  -- The virtual calls `m_aa->…`.
  unfoldable pub sink_content : Sink → Str → State → Result State
  unfolding write_content
  sink_content (http i) buffer s = ok (emit (Call.write_content i buffer) s)
  sink_content (relay i) buffer s = do
    a ← or_fault (lookup i s.adaptors) null_pointer
    ok (write_content i a buffer s)

  unfoldable pub sink_finish : Sink → State → Result State
  unfolding write_finish
  sink_finish (http i) s = ok (emit (Call.write_finish i) s)
  sink_finish (relay i) s = do
    a ← or_fault (lookup i s.adaptors) null_pointer
    ok (write_finish i a s)

  unfoldable pub sink_cancel : Sink → State → Result State
  unfolding write_cancel
  sink_cancel (http i) s = ok (emit (Call.write_cancel i) s)
  sink_cancel (relay i) s = do
    a ← or_fault (lookup i s.adaptors) null_pointer
    ok (write_cancel a s)

unfoldable pub set_status_code : Sink → ℤ → State → Result State
set_status_code (http i) code s = ok (emit (Call.set_status_code i code) s)
set_status_code (relay i) code s = do
  a ← or_fault (lookup i s.adaptors) null_pointer
  ok (store i (record a { status = code }) s)

unfoldable pub set_mime_type : Sink → Str → State → Result State
set_mime_type (http i) mime s = ok (emit (Call.set_mime_type i mime) s)
set_mime_type (relay i) mime s = do
  a ← or_fault (lookup i s.adaptors) null_pointer
  ok (store i (record a { mimetype = mime }) s)

unfoldable pub set_content_length : Sink → ℤ → State → Result State
set_content_length (http i) len s = ok (emit (Call.set_content_length i len) s)
set_content_length (relay i) len s = do
  a ← or_fault (lookup i s.adaptors) null_pointer
  ok (store i (record a { contentlength = len }) s)
