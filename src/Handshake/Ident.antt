-- ===== src/Handshake/Ident.antt =====
-- expect_ident (src/greynet.cpp): whom it lets in.
use greynet.Base.{
  Str, codes, ◌≡◌, ◌≢◌, refl, ◌⊎◌, inl, inr, Bool, true, false, none, some, [], ◌∷◌, arith, nat_eq,
  str_eq, Option-cases, ℕ_discrete,
}
use greynet.Base.Dict.{lookup}
use greynet.Json.{Members}
use greynet.Messages.{Message, ident, ident_message}
use greynet.Platform.{Env, State, Conn, Call, Log, ok, emit}
use greynet.Handshake.{
  ident_object, find_str, read_object, send_ident, accept, check_cookie, check_name, expect_ident,
}

module _ (env : Env) where
  open env use {msg_type, msg_payload, conn_get, connection_by_name, write, uuid}

  -- A cookie that we gave out.
  abbrev pub GoodCookie : Members → State → Type 0
  GoodCookie o s =
      (cookie jid : Str) × (find_str env o (codes "cookie") ≡ some cookie)
      × (cookie ≢ [])
      × (lookup cookie s.peer_cookies ≡ some jid)

  -- What an IDENT must be: an object with a name that no connection has. A peer that connected to
  -- us also shows a cookie.
  pub record IsIdent (msg : Message) (incoming : Bool) (s : State) (o : Members) (name : Str)
      : Type 0 where
    pub typed : msg_type msg ≡ ident
    pub parsed : read_object env (msg_payload msg) ≡ some o
    pub named : find_str env o (codes "name") ≡ some name
    pub fresh : connection_by_name s.log name ≡ none
    pub invited : incoming ≡ true → GoodCookie o s

  -- The calls of our own IDENT, the newest first, after the connection's cookie is cleared.
  abbrev pub ident_calls : Conn → Str → Log → Log
  ident_calls conn jid log =
      let cleared : Log = Call.set_prop conn (codes "cookie") [] ∷ log in
      let asked : Log = Call.gen_uuid ∷ cleared in
      Call.async_write conn (
        ident_message (write (ident_object jid (conn_get cleared conn (codes "cookie"))))
          (uuid asked))
      ∷ asked

  -- A connection that is made ready under a name.
  abbrev pub ready_calls : Conn → Str → Log → Log
  ready_calls conn name log =
      Call.set_name conn name ∷ Call.set_ready conn true ∷ Call.pop_ident conn ∷ log

  abbrev pub Accepted : Conn → Bool → Str → State → State → Type 0
  Accepted conn true name s t =
      (jid : Str) × (s.jbot_jid ≡ some jid)
      × (t ≡ record s { log = ready_calls conn name (ident_calls conn jid s.log) })
  Accepted conn false name s t = t ≡ record s { log = ready_calls conn name s.log }

  check_cookie_sound :
      (conn : Conn) (o : Members) (name : Str) (s t : State)
      → check_cookie env conn name (find_str env o (codes "cookie")) s ≡ ok t
      → (t ≡ emit (Call.fin conn) s) ⊎ (GoodCookie o s × Accepted conn true name s t)
  unfolding check_cookie send_ident accept
  check_cookie_sound conn o name s t h = elim (Option-cases (find_str env o (codes "cookie"))) [
    | inl e ↦ inl (ground arith)
    | inr (cookie, e) ↦ elim (Option-cases (lookup cookie s.peer_cookies)) [
      | inl k ↦ inl (ground arith)
      | inr (jid, k) ↦ elim (str_eq.dec cookie []) [
        | yes p ↦ inl (ground arith)
        | no n ↦ elim (Option-cases s.jbot_jid) [
          | inl j ↦ absurd (ground arith)
          | inr (me, j) ↦ inr ((cookie, jid, e, n, k), (me, j, ground arith))
        ]
      ]
    ]
  ]

  check_name_sound :
      (conn : Conn) (incoming : Bool) (o : Members) (name : Str) (s t : State)
      → connection_by_name s.log name ≡ none
      → check_name env conn incoming o (some name) s ≡ ok t
      → (t ≡ emit (Call.fin conn) s)
        ⊎ ((incoming ≡ true → GoodCookie o s) × Accepted conn incoming name s t)
  unfolding check_name accept
  check_name_sound conn true o name s t c h =
      elim (check_cookie_sound conn o name s t (rw (c, check_name) at h)) [
        | inl e ↦ inl e
        | inr (g, a) ↦ inr (λ _. g, a)
      ]
  check_name_sound conn false o name s t c h =
      let e : ok (accept env conn name s) ≡ ok t = rw (c, check_name) at h in
      inr (λ e. cc, ground arith)

  -- Whenever expect_ident returns, it has either closed the connection and done nothing else, or the
  -- message was an IDENT in good order: an object with a name that no connection had, and from a peer
  -- that connected to us a nonempty cookie that we gave out. It has then made the connection ready
  -- under that name, after our own IDENT where the peer connected to us, and nothing else.
  pub expect_ident_sound :
      (msg : Message) (conn : Conn) (incoming : Bool) (s t : State)
      → expect_ident env msg conn incoming s ≡ ok t
      → (t ≡ emit (Call.fin conn) s)
        ⊎ ((o : Members) × (name : Str) × IsIdent msg incoming s o name
            × Accepted conn incoming name s t)
  unfolding expect_ident nat_eq
  expect_ident_sound msg conn incoming s t h = elim (ℕ_discrete (msg_type msg) ident) [
    | no n ↦ inl (ground arith)
    | yes p ↦ elim (Option-cases (read_object env (msg_payload msg))) [
      | inl e ↦ inl (ground arith)
      | inr (o, e) ↦ elim (Option-cases (find_str env o (codes "name"))) [
        | inl k ↦ inl (unfold check_name in (ground arith))
        | inr (name, k) ↦ elim (Option-cases (connection_by_name s.log name)) [
          | inr (other, c) ↦ inl (unfold check_name in (ground arith))
          | inl c ↦ elim (check_name_sound conn incoming o name s t c (ground arith)) [
            | inl f ↦ inl f
            | inr (g, a) ↦
                inr
                  (o, name, record { typed = p; parsed = e; named = k; fresh = c; invited = g }, a)
          ]
        ]
      ]
    ]
  ]

  accepted : Conn → Bool → Str → Str → State → State
  accepted conn true name jid s = record s {
    log = ready_calls conn name (ident_calls conn jid s.log);
  }
  accepted conn false name jid s = record s { log = ready_calls conn name s.log }

  accepted-Accepted :
      (conn : Conn) (incoming : Bool) (name jid : Str) (s : State)
      → s.jbot_jid ≡ some jid
      → Accepted conn incoming name s (accepted conn incoming name jid s)
  unfolding accepted
  accepted-Accepted conn true name jid s j = (jid, j, refl)
  accepted-Accepted conn false name jid s j = refl

  check_name_complete :
      (conn : Conn) (incoming : Bool) (o : Members) (name jid : Str) (s : State)
      → connection_by_name s.log name ≡ none
      → (incoming ≡ true → GoodCookie o s)
      → s.jbot_jid ≡ some jid
      → check_name env conn incoming o (some name) s ≡ ok (accepted conn incoming name jid s)
  unfolding check_name accepted check_cookie send_ident accept
  check_name_complete conn true o name jid s c g j =
      let (cookie, peer, e, n, k) = g refl in ground arith
  check_name_complete conn false o name jid s c g j = ground arith

  -- An IDENT in good order is let in, where we are logged in to XMPP.
  pub expect_ident_complete :
      (msg : Message) (conn : Conn) (incoming : Bool) (s : State) (o : Members) (name jid : Str)
      → IsIdent msg incoming s o name
      → s.jbot_jid ≡ some jid
      → (t : State) × (expect_ident env msg conn incoming s ≡ ok t)
        × Accepted conn incoming name s t
  unfolding expect_ident nat_eq
  expect_ident_complete msg conn incoming s o name jid i j = (
    accepted conn incoming name jid s,
    ground (arith, check_name_complete conn incoming o name jid s i.fresh i.invited j),
    accepted-Accepted conn incoming name jid s j,
  )
