-- ===== src/Transfers/Keeps.antt =====
-- The stream handlers of src/greynet.cpp, and the members that are not about transfers.
use greynet.Base.{refl, inl, inr, [], ◌∷◌, nat_eq, str_eq, Option-cases}
use greynet.Base.Dict.{lookup}
use greynet.Messages.{Message}
use greynet.Platform.{Env, State, Conn}
use greynet.Platform.Frame.{Kept, Kept-of, Kept-refl, Keeps, whole, Keeps-ok}
use greynet.Strategy.Keeps.{cancel_handler-Keeps, siddata_handler-Keeps, sidheaders_handler-Keeps}
use greynet.Transfers.{handle_sidrequest, handle_siddata, handle_sidheaders, handle_sidfail}

module _ (env : Env) where
  pub handle_sidrequest-Kept :
      (conn : Conn) (msg : Message) (s : State) → Kept s (handle_sidrequest env conn msg s)
  unfolding handle_sidrequest
  handle_sidrequest-Kept conn msg s = elim (Option-cases (env.get_ss s.log (env.msg_payload msg))) [
    | inl e ↦ rw (e, handle_sidrequest) (Kept-of (_ ∷ []) s _ refl refl refl refl refl refl)
    | inr (ss, e) ↦ rw (e, handle_sidrequest) (Kept-of (_ ∷ []) s _ refl refl refl refl refl refl)
  ]

  pub handle_siddata-Keeps : (msg : Message) (s : State) → Keeps whole s (handle_siddata env msg s)
  unfolding handle_siddata
  handle_siddata-Keeps msg s = elim (Option-cases (lookup (env.msg_guid msg) s.sid2ss)) [
    | inl e ↦ rw (e, handle_siddata) (Keeps-ok s s (Kept-refl s))
    | inr (r, e) ↦ rw (e, handle_siddata) (siddata_handler-Keeps env r (env.msg_payload msg) s)
  ]

  pub handle_sidheaders-Keeps :
      (msg : Message) (s : State) → Keeps whole s (handle_sidheaders env msg s)
  unfolding handle_sidheaders
  handle_sidheaders-Keeps msg s = elim (Option-cases (lookup (env.msg_guid msg) s.sid2ss)) [
    | inl e ↦ rw (e, handle_sidheaders) (Keeps-ok s s (Kept-refl s))
    | inr (r, e) ↦ rw (e, handle_sidheaders) (sidheaders_handler-Keeps env r msg s)
  ]

  pub handle_sidfail-Keeps : (msg : Message) (s : State) → Keeps whole s (handle_sidfail env msg s)
  unfolding handle_sidfail
  handle_sidfail-Keeps msg s = elim (Option-cases (lookup (env.msg_guid msg) s.sid2ss)) [
    | inl e ↦ rw (e, handle_sidfail) (Keeps-ok s s (Kept-refl s))
    | inr (r, e) ↦ rw (e, handle_sidfail) (cancel_handler-Keeps env r s)
  ]
