-- ===== src/Web/Token.antt =====
-- The form for manual connections (src/greynet.cpp, anon_http_handler) and its token.
use greynet.Base.{
  ℕ, suc, Str, codes, ◌≡◌, refl, ◌∙◌, ◌⊎◌, inl, inr, true, Option, none, some, [], ◌∷◌, str_eq,
  Bool-cases, Option-cases, false,
}
use greynet.Platform.{Env, State, Call, Log, ok, fault, uncaught_exception, emit}
use greynet.Web.{
  Request, Form, read_form, connect_manually, handle_form, ping_all, render, anon_http_handler,
}

-- How many connections the router was asked to open.
abbrev pub connects : Log → ℕ
connects [] = 0
connects (Call.connect_to_remote address port props ∷ log) = suc (connects log)
connects (_ ∷ log) = connects log

module _ (env : Env) where
  open env use {token_valid, parse_port, parse_ipv4}

  -- A request with a form whose token playdar accepts.
  abbrev pub Admitted : Request → Form → State → Type 0
  Admitted req form s =
      (read_form req ≡ some form)
      × (token_valid (Call.consume_formtoken form.token ∷ s.log) form.token ≡ true)

  -- The page's rest opens no connection.
  rest_connects :
      (ping : Option Str) (s : State)
      → connects (render env (ping_all env ping s)).1.log ≡ connects s.log
  unfolding render ping_all
  rest_connects none s = refl
  rest_connects (some p) s = refl

  refused :
      (form other : Form) (s : State)
      → token_valid (Call.consume_formtoken form.token ∷ s.log) form.token ≡ false
      → some form ≡ some other
      → ¬ (token_valid (Call.consume_formtoken other.token ∷ s.log) other.token ≡ true)
  refused form other s e same valid = cc

  handle_form-cases :
      (o : Option Form) (s : State)
      → ((form : Form) × (o ≡ some form)
          × (token_valid (Call.consume_formtoken form.token ∷ s.log) form.token ≡ true)
          × (handle_form env o s
              ≡ connect_manually env form (emit (Call.consume_formtoken form.token) s)))
        ⊎ ((t : State) × (handle_form env o s ≡ ok t)
            × (connects t.log ≡ connects s.log)
            × ((form : Form)
                → ¬ (
                    (o ≡ some form)
                    × (token_valid (Call.consume_formtoken form.token ∷ s.log) form.token ≡ true))))
  unfolding handle_form
  handle_form-cases none s = inr (s, refl, refl, λ form (e, valid). cc)
  handle_form-cases (some form) s =
      let t = emit (Call.consume_formtoken form.token) s in
      elim (Bool-cases (token_valid t.log form.token)) [
        | inl e ↦ inl (form, refl, e, rw e refl)
        | inr e ↦ inr (t, rw e refl, refl, λ other (same, valid). refused form other s e same valid)
      ]

  connect_manually-cases :
      (form : Form) (s : State)
      → ((t : State) × (connect_manually env form s ≡ ok t)
          × (connects t.log ≡ suc (connects s.log)))
        ⊎ ((connect_manually env form s ≡ fault uncaught_exception)
            × ((parse_port form.port ≡ none) ⊎ (parse_ipv4 form.addr ≡ none)))
  unfolding connect_manually
  connect_manually-cases form s = elim (Option-cases (parse_port form.port)) [
    | inl e ↦ inr (rw e refl, inl e)
    | inr (port, e) ↦ elim (Option-cases (parse_ipv4 form.addr)) [
      | inl k ↦ inr (rw (e, k) refl, inr k)
      | inr (address, k) ↦
          inl (emit (Call.connect_to_remote address port []) s, rw (e, k) refl, refl)
    ]
  ]

  -- The page of the web interface, for every request. Either the request has no form whose token
  -- playdar accepts, and then the handler returns a page and has opened no connection. Or it has one, and then the
  -- handler has opened one connection and returns a page, or its port or address does not parse, and
  -- the exception leaves the handler.
  pub anon_http_handler-cases :
      (req : Request) (s : State)
      → ((html : Str) × (t : State) × (anon_http_handler env req s ≡ ok (html, t))
          × (connects t.log ≡ connects s.log)
          × ((form : Form) → ¬ Admitted req form s))
        ⊎ ((form : Form) × Admitted req form s
            × (((html : Str) × (t : State) × (anon_http_handler env req s ≡ ok (html, t))
                  × (connects t.log ≡ suc (connects s.log)))
                ⊎ ((anon_http_handler env req s ≡ fault uncaught_exception)
                    × ((parse_port form.port ≡ none) ⊎ (parse_ipv4 form.addr ≡ none)))))
  unfolding anon_http_handler
  anon_http_handler-cases req s =
      let ping = req.getvar (codes "pingall") in
      elim (handle_form-cases (read_form req) s) [
        | inr (t, e, c, none_admitted) ↦
            let out = render env (ping_all env ping t) in
            inl (out.0, out.1, rw e refl, rest_connects ping t ∙ c, none_admitted)
        | inl (form, f, valid, e) ↦
            let u = emit (Call.consume_formtoken form.token) s in
            elim (connect_manually-cases form u) [
              | inl (t, k, c) ↦
                  let out = render env (ping_all env ping t) in
                  inr
                    (form, (f, valid), inl (out.0, out.1, rw (e, k) refl, rest_connects ping t ∙ c))
              | inr (k, why) ↦ inr (form, (f, valid), inr (rw (e, k) refl, why))
            ]
      ]
