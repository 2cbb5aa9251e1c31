-- ===== src/Web/Keeps.antt =====
-- The settings page (src/greynet.cpp, anon_http_handler), and the plugin's maps.
use greynet.Base.{Str, codes, ◌≡◌, refl, ◌∷◌, Option, none, some, [], str_eq}
use greynet.Platform.{Env, State, Call, emit}
use greynet.Platform.Frame.{
  forwards, Kept, Kept-refl, Kept-trans, Ensures, Ensures-ok, Ensures-if, Ensures-or_fault,
  Ensures-bind,
}
use greynet.Queries.Keeps.{emit-Kept}
use greynet.Runs.Linked.{Updates, Updates-refl, Updates-trans, Updates-of}
use greynet.Web.{
  Request, Form, read_form, connect_manually, handle_form, ping_all, render, anon_http_handler,
}

-- The second state has other calls alone.
pub record Asks (s t : State) : Type 0 where
  pub kept : Kept s t
  pub updates : Updates s t

emit-Asks : (c : Call) (s : State) → forwards (c ∷ s.log) ≡ forwards s.log → Asks s (emit c s)
emit-Asks c s h = record {
  kept = emit-Kept c s h;
  updates = Updates-of s _ refl refl refl refl refl;
}

Asks-refl : (s : State) → Asks s s
Asks-refl s = record { kept = Kept-refl s; updates = Updates-refl s }

Asks-trans : {s t u : State} → Asks s t → Asks t u → Asks s u
Asks-trans k l = record {
  kept = Kept-trans k.kept l.kept;
  updates = Updates-trans k.updates l.updates;
}

module _ (env : Env) where
  connect_manually-Asks : (form : Form) (s : State) → Ensures (Asks s) (connect_manually env form s)
  unfolding connect_manually
  connect_manually-Asks form s = Ensures-or_fault (env.parse_port form.port) _ _ λ port _.
      Ensures-or_fault (env.parse_ipv4 form.addr) _ _
        λ address _. Ensures-ok _ (emit-Asks (Call.connect_to_remote address port []) s refl)

  handle_form-Asks : (form : Option Form) (s : State) → Ensures (Asks s) (handle_form env form s)
  unfolding handle_form
  handle_form-Asks none s = Ensures-ok s (Asks-refl s)
  handle_form-Asks (some form) s =
      let t : State = emit (Call.consume_formtoken form.token) s in
      let k = emit-Asks (Call.consume_formtoken form.token) s refl in
      Ensures-if (env.token_valid t.log form.token) _ _
        (record { at = λ u e. Asks-trans k ((connect_manually-Asks form t).at u e) })
        (Ensures-ok t k)

  ping_all-Asks : (ping : Option Str) (s : State) → Asks s (ping_all env ping s)
  unfolding ping_all
  ping_all-Asks none s = Asks-refl s
  ping_all-Asks (some p) s = Asks-trans (emit-Asks Call.gen_uuid s refl) (emit-Asks _ _ refl)

  render-Asks : (s : State) → Asks s (render env s).1
  unfolding render
  render-Asks s = Asks-trans (emit-Asks Call.gen_uuid s refl) (emit-Asks _ _ refl)

  pub anon_http_handler-Asks :
      (req : Request) (s : State) → Ensures (λ (html, t). Asks s t) (anon_http_handler env req s)
  unfolding anon_http_handler
  anon_http_handler-Asks req s =
      Ensures-bind (handle_form env (read_form req) s) _ (handle_form-Asks (read_form req) s) λ t k.
        let u : State = ping_all env (req.getvar (codes "pingall")) t in
        Ensures-ok (render env u) (
          Asks-trans k
            (Asks-trans (ping_all-Asks (req.getvar (codes "pingall")) t) (render-Asks u)))
