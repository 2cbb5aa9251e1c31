-- ===== src/Transfers.antt =====
-- src/greynet.cpp: the handlers of the SID messages, and what becomes of the transfers when a
-- connection goes away.
pub mod Terminated
pub mod Keeps
use greynet.Base.{ℕ, suc, Str, codes, Option, none, some, List, [], ◌∷◌, ◌++◌, map, nat_eq, str_eq}
use greynet.Base.Dict.{lookup, insert}
use greynet.Messages.{Message, sidheaders}
use greynet.Platform.{
  Env, State, Conn, relay, Call, Result, ok, null_pointer, emit, or_fault, ◌>>=◌,
}
use greynet.Adaptor.{new_adaptor}
use greynet.Registry.{Transfers, find}
use greynet.Strategy.{cancel_handler, siddata_handler, sidheaders_handler}

-- The sids from an iterator to the end of the multimap.
abbrev pub sids_of : Transfers → List Str
sids_of = map λ (_, sid). sid

module _ (env : Env) where
  open env use {msg_guid, msg_payload, general_message, get_ss}

  -- `m_sid2ss[s]->cancel_handler()` for each sid. The subscript makes a null pointer of a sid that
  -- is not in the map.
  unfoldable pub cancel_all : List Str → State → Result State
  cancel_all [] s = ok s
  cancel_all (sid ∷ sids) s = or_fault (lookup sid s.sid2ss) null_pointer >>= λ r.
      cancel_handler env r s >>= λ t. cancel_all sids t

  unfoldable pub connection_terminated : Conn → State → Result State
  unfolding cancel_all
  connection_terminated conn s = cancel_all (sids_of (find conn s.conn2sid)) s

  answer_sidrequest : Conn → Str → Option ℕ → State → State
  answer_sidrequest conn sid none s =
      emit
        (Call.async_write conn
          (general_message sidheaders (codes "status" ++ (9 ∷ codes "404" ++ (10 ∷ []))) sid))
        s
  answer_sidrequest conn sid (some ss) s =
      emit (Call.start_reply ss (relay s.next_address)) (record s {
        adaptors = insert s.next_address (new_adaptor conn sid) s.adaptors;
        next_address = suc s.next_address;
      })

  unfoldable pub handle_sidrequest : Conn → Message → State → State
  unfolding answer_sidrequest
  handle_sidrequest conn msg s =
      answer_sidrequest conn (msg_payload msg) (get_ss s.log (msg_payload msg)) s

  unfoldable pub handle_siddata : Message → State → Result State
  handle_siddata msg s = elim (lookup (msg_guid msg) s.sid2ss) [
    | none ↦ ok s
    | some r ↦ siddata_handler env r (msg_payload msg) s
  ]

  unfoldable pub handle_sidheaders : Message → State → Result State
  handle_sidheaders msg s = elim (lookup (msg_guid msg) s.sid2ss) [
    | none ↦ ok s
    | some r ↦ sidheaders_handler env r msg s
  ]

  unfoldable pub handle_sidfail : Message → State → Result State
  handle_sidfail msg s = elim (lookup (msg_guid msg) s.sid2ss) [
    | none ↦ ok s
    | some r ↦ cancel_handler env r s
  ]
