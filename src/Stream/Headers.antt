-- ===== src/Stream/Headers.antt =====
-- sidheaders_handler (src/ss_greynet.cpp) on the headers that send_headers
-- (src/greynet_asyncadaptor.hpp) writes.
use greynet.Base.{
  ℕ, ◌^◌, ◌<◌, Str, String, codes, ◌≡◌, refl, ◌∙◌, ap, sym, true, false, List, [], ◌∷◌, ◌++◌, arith,
  some, nat_eq, str_eq, contains, contains-append,
}
use mathlib.Core.List.{append_assoc, append-nil}
use greynet.Base.Int.{pos, to_unsigned}
use greynet.Base.Decimal.{show_int, atoi}
use greynet.Base.Decimal.RoundTrip.{atoi-show_int, contains-show_int}
use greynet.Base.Dict.{lookup, insert}
use greynet.Messages.{Message}
use greynet.Platform.{Env, State, Ss, Adaptor, Ref, Call, ok, http, emit}
use greynet.Adaptor.{header_line, header_text, set_status_code, set_mime_type, set_content_length}
use greynet.Strategy.{store, sidheaders_handler, header_lines, handle_parts}

-- `boost::split` at a character: the fields between its occurrences, empty ones too.
pub record IsSplit (split : ℕ → Str → List Str) : Type 0 where
  pub last : (c : ℕ) (a : Str) → contains c a ≡ false → split c a ≡ a ∷ []
  pub next : (c : ℕ) (a b : Str) → contains c a ≡ false → split c (a ++ c ∷ b) ≡ a ∷ split c b

-- A header line without its end.
abbrev pub field : String → Str → Str
field key value = codes key ++ (9 ∷ value)

header_line-append :
    (key : String) (value rest : Str) → header_line key value ++ rest ≡ field key value ++ 10 ∷ rest
header_line-append key value rest = simp append_assoc

contains-field :
    (key : String) (value : Str)
    → contains 10 (codes key) ≡ false
    → contains 10 value ≡ false
    → contains 10 (field key value) ≡ false
unfolding nat_eq
contains-field key value h k = rw contains-append (rw h (unfold contains in (ground arith)))

module _ (split : ℕ → Str → List Str) (law : IsSplit split) where
  split-header_line :
      (key : String) (value rest : Str)
      → contains 10 (codes key) ≡ false
      → contains 10 value ≡ false
      → split 10 (header_line key value ++ rest) ≡ field key value ∷ split 10 rest
  split-header_line key value rest h k =
      ap (split 10) (header_line-append key value rest)
      ∙ law.next 10 (field key value) rest (contains-field key value h k)

  pub split-header_text :
      (a : Adaptor)
      → contains 10 a.mimetype ≡ false
      → split 10 (header_text a)
        ≡ field "status" (show_int a.status)
          ∷ field "mime-type" a.mimetype
          ∷ field "content-length" (show_int a.contentlength)
          ∷ []
          ∷ []
  unfolding header_text contains nat_eq
  split-header_text a h =
      split-header_line "status" (show_int a.status) _ refl
        (contains-show_int 10 a.status (omega arith))
      ∙ ap (◌∷◌ (field "status" (show_int a.status))) (
          split-header_line "mime-type" a.mimetype _ refl h
          ∙ ap (◌∷◌ (field "mime-type" a.mimetype)) (
              ap (split 10)
                (sym (append-nil (header_line "content-length" (show_int a.contentlength))))
              ∙ split-header_line "content-length" (show_int a.contentlength) [] refl
                  (contains-show_int 10 a.contentlength (omega arith))
              ∙ ap (◌∷◌ (field "content-length" (show_int a.contentlength))) (law.last 10 [] refl)))

  -- A line is split at its tab.
  pub split-field :
      (key : String) (value : Str)
      → contains 9 (codes key) ≡ false
      → contains 9 value ≡ false
      → split 9 (field key value) ≡ codes key ∷ value ∷ []
  split-field key value h k =
      law.next 9 (codes key) value h ∙ ap (◌∷◌ (codes key)) (law.last 9 value k)

module _ (env : Env) where
  handle_status_line :
      (r : Ref) (x : Ss) (j : ℕ) (value : Str) (s : State)
      → lookup r s.strategies ≡ some x
      → x.aa ≡ some (http j)
      → atoi value ≡ pos 200
      → handle_parts env (codes "status" ∷ value ∷ []) r s
        ≡ ok (false, emit (Call.set_status_code j (pos 200)) s)
  unfolding handle_parts str_eq set_status_code
  handle_status_line r x j value s h k e = rw (h, k, e)

  handle_mime_type_line :
      (r : Ref) (x : Ss) (j : ℕ) (value : Str) (s : State)
      → lookup r s.strategies ≡ some x
      → x.aa ≡ some (http j)
      → handle_parts env (codes "mime-type" ∷ value ∷ []) r s
        ≡ ok (false, emit (Call.set_mime_type j value) s)
  unfolding handle_parts str_eq set_mime_type
  handle_mime_type_line r x j value s h k = rw (h, k)

  handle_content_length_line :
      (r : Ref) (x : Ss) (j : ℕ) (value : Str) (s : State)
      → lookup r s.strategies ≡ some x
      → x.aa ≡ some (http j)
      → handle_parts env (codes "content-length" ∷ value ∷ []) r s
        ≡ ok (
          false,
          store r
              (record x { contentlength = to_unsigned (2 ^ 64) (atoi value) })
              (emit (Call.set_content_length j (atoi value)) s),
        )
  unfolding handle_parts str_eq set_content_length
  handle_content_length_line r x j value s h k = rw (h, k)

  pub header_lines-next :
      (line : Str) (lines parts : List Str) (r : Ref) (s t : State)
      → env.split 9 line ≡ parts
      → handle_parts env parts r s ≡ ok (false, t)
      → header_lines env (line ∷ lines) r s ≡ header_lines env lines r t
  unfolding header_lines
  header_lines-next line lines parts r s t h k = rw (h, k)

  pub header_lines-end :
      (r : Ref) (s : State) → env.split 9 [] ≡ [] ∷ [] → header_lines env ([] ∷ []) r s ≡ ok s
  unfolding header_lines handle_parts
  header_lines-end r s h = rw h

  pub sidheaders_handler-lines :
      (r : Ref) (x : Ss) (msg : Message) (text : Str) (s : State)
      → env.msg_payload msg ≡ text
      → lookup r s.strategies ≡ some x
      → x.timer ≡ true
      → sidheaders_handler env r msg s
        ≡ header_lines env (env.split 10 text) r (emit (Call.cancel_timer r) s)
  unfolding sidheaders_handler
  sidheaders_handler-lines r x msg text s body held timed = rw (held, timed, body)

  -- The headers of a stream with status 200 and a type without tabs and line ends: the handler
  -- cancels the timer and gives the adaptor the status, the type and the length, in that order.
  pub sidheaders_handler-header_text :
      (a : Adaptor) (r : Ref) (x : Ss) (j : ℕ) (msg : Message) (s : State)
      → IsSplit env.split
      → a.status ≡ pos 200
      → contains 10 a.mimetype ≡ false
      → contains 9 a.mimetype ≡ false
      → env.msg_payload msg ≡ header_text a
      → lookup r s.strategies ≡ some x
      → x.aa ≡ some (http j)
      → x.timer ≡ true
      → sidheaders_handler env r msg s
        ≡ ok (record s {
          strategies =
              insert r
                (record x { contentlength = to_unsigned (2 ^ 64) a.contentlength })
                s.strategies;
          log =
              Call.set_content_length j a.contentlength
              ∷ Call.set_mime_type j a.mimetype
              ∷ Call.set_status_code j (pos 200)
              ∷ Call.cancel_timer r
              ∷ s.log;
        })
  unfolding contains nat_eq
  sidheaders_handler-header_text a r x j msg s law e h k body held playing timed =
      let nine : 9 < 45 = omega arith in
      let s0 : State = emit (Call.cancel_timer r) s in
      let s1 : State = emit (Call.set_status_code j (pos 200)) s0 in
      let s2 : State = emit (Call.set_mime_type j a.mimetype) s1 in
      let s3 : State =
        store r (record x { contentlength = to_unsigned (2 ^ 64) a.contentlength })
          (emit (Call.set_content_length j a.contentlength) s2) in
      let l1 =
        header_lines-next (field "status" (show_int a.status)) _ _ r s0 s1
          (split-field env.split law "status" _ refl (contains-show_int 9 a.status nine))
          (handle_status_line r x j (show_int a.status) s0 held playing
            (atoi-show_int a.status ∙ e)) in
      let l2 =
        header_lines-next (field "mime-type" a.mimetype) _ _ r s1 s2
          (split-field env.split law "mime-type" _ refl k)
          (handle_mime_type_line r x j a.mimetype s1 held playing) in
      let l3 =
        header_lines-next (field "content-length" (show_int a.contentlength)) ([] ∷ []) _ r s2 _
          (split-field env.split law "content-length" _ refl
            (contains-show_int 9 a.contentlength nine))
          (handle_content_length_line r x j (show_int a.contentlength) s2 held playing) in
      let start : sidheaders_handler env r msg s
          ≡ header_lines env (env.split 10 (header_text a)) r s0 =
        sidheaders_handler-lines r x msg (header_text a) s body held timed in
      start
      ∙ ap (λ lines. header_lines env lines r s0) (split-header_text env.split law a h)
      ∙ l1
      ∙ l2
      ∙ l3
      ∙ header_lines-end r _ (law.last 9 [] refl)
      ∙ rw (atoi-show_int)
