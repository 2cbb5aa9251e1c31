-- ===== src/Transfers/Terminated.antt =====
-- connection_terminated (src/greynet.cpp): which transfers it cancels.
use greynet.Base.{
  ℕ, Str, ◌≡◌, ◌≢◌, sym, ◌∙◌, false, some, List, [], ◌∷◌, ◌++◌, arith, nat_eq, str_eq, contains,
}
use mathlib.Core.List.{append-nil}
use greynet.Base.Dict.{Dict, lookup, erase, lookup-erase}
use greynet.Messages.{sidfail}
use greynet.Platform.{Env, State, Ss, Adaptor, Conn, Ref, Sink, http, relay, Call, ok, push_all}
use greynet.Adaptor.{sink_cancel}
use greynet.Registry.{Transfers, find, erase_found}
use greynet.Registry.Loop.{unregister_found}
use greynet.Registry.Order.{Ordered, Absent, before, before-append-find, before-Absent, find-append}
use greynet.Strategy.{cancel_handler}
use greynet.Transfers.{sids_of, cancel_all, connection_terminated}

abbrev pub Distinct : List Str → Type 0
Distinct [] = Unit {0}
Distinct (x ∷ xs) = (contains x xs ≡ false) × Distinct xs

abbrev pub erase_all : List Str → Dict Str Ref → Dict Str Ref
erase_all [] m = m
erase_all (sid ∷ sids) m = erase_all sids (erase sid m)

module _ (env : Env) where
  open env use {general_message}

  -- The call by which an adaptor is cancelled.
  abbrev pub CancelCall : Dict ℕ Adaptor → Sink → Call → Type 0
  CancelCall adaptors (http i) call = call ≡ Call.write_cancel i
  CancelCall adaptors (relay i) call =
      (a : Adaptor) × (lookup i adaptors ≡ some a)
      × (call ≡ Call.async_write a.conn (general_message sidfail [] a.sid))

  -- An entry of the multimap whose strategy exists, plays into an adaptor, and is the entry's own.
  -- Cancelling it makes the one call.
  pub record Live (ss : Dict Str Ref) (objects : Dict Ref Ss) (adaptors : Dict ℕ Adaptor) (c : Conn)
      (sid : Str) (call : Call) : Type 0 where
    pub address : Ref
    pub object : Ss
    pub sink : Sink
    pub found : lookup sid ss ≡ some address
    pub held : lookup address objects ≡ some object
    pub playing : object.aa ≡ some sink
    pub owner : object.conn ≡ c
    pub named : object.sid ≡ sid
    pub calls : CancelCall adaptors sink call

  abbrev pub AllLive : Dict Str Ref → Dict Ref Ss → Dict ℕ Adaptor → Transfers → List Call → Type 0
  AllLive ss objects adaptors [] [] = Unit {0}
  AllLive ss objects adaptors [] (k ∷ ks) = ⊥
  AllLive ss objects adaptors (e ∷ m) [] = ⊥
  AllLive ss objects adaptors ((c, sid) ∷ m) (k ∷ ks) =
      Live ss objects adaptors c sid k × AllLive ss objects adaptors m ks

  sink_cancel_lem :
      (aa : Sink) (call : Call) (s : State)
      → CancelCall s.adaptors aa call
      → sink_cancel env aa s ≡ ok (record s { log = call ∷ s.log })
  unfolding sink_cancel
  sink_cancel_lem (http i) call s h = ground arith
  sink_cancel_lem (relay i) call s h = ground arith

  cancel_handler-Live :
      (c : Conn) (sid : Str) (call : Call) (rest : Transfers) (s : State)
      → (l : Live s.sid2ss s.strategies s.adaptors c sid call) → find c s.conn2sid ≡ (c, sid) ∷ rest
      → cancel_handler env l.address s
        ≡ ok (record s {
          conn2sid = erase_found c s.conn2sid;
          sid2ss = erase sid s.sid2ss;
          log = call ∷ s.log;
        })
  unfolding cancel_handler
  cancel_handler-Live c sid call rest s l e =
      rw (l.held, l.playing, sink_cancel_lem l.sink call s l.calls, l.owner, l.named)
        (unregister_found c sid rest (record s { log = call ∷ s.log }) e)

  Live-erase :
      (ss : Dict Str Ref) (objects : Dict Ref Ss) (adaptors : Dict ℕ Adaptor) (c : Conn)
      (sid t : Str) (call : Call)
      → t ≢ sid
      → Live ss objects adaptors c t call
      → Live (erase sid ss) objects adaptors c t call
  Live-erase ss objects adaptors c sid t call n l = record {
    address = l.address;
    object = l.object;
    sink = l.sink;
    found = rw lookup-erase (ground (arith, l.found));
    held = l.held;
    playing = l.playing;
    owner = l.owner;
    named = l.named;
    calls = l.calls;
  }

  AllLive-erase :
      (ss : Dict Str Ref) (objects : Dict Ref Ss) (adaptors : Dict ℕ Adaptor) (sid : Str)
      (m : Transfers) (calls : List Call)
      → contains sid (sids_of m) ≡ false
      → AllLive ss objects adaptors m calls
      → AllLive (erase sid ss) objects adaptors m calls
  unfolding contains
  AllLive-erase ss objects adaptors sid [] [] h a = tt
  AllLive-erase ss objects adaptors sid [] (k ∷ ks) h a = a
  AllLive-erase ss objects adaptors sid (e ∷ m) [] h a = a
  AllLive-erase ss objects adaptors sid ((c, t) ∷ m) (k ∷ ks) h a = (
    Live-erase ss objects adaptors c sid t k (ground arith) a.0,
    AllLive-erase ss objects adaptors sid m ks (ground arith) a.1,
  )

  cancel_all-suffix :
      (p m : Transfers) (calls : List Call) (s : State)
      → s.conn2sid ≡ p ++ m
      → Absent p m
      → Distinct (sids_of m)
      → AllLive s.sid2ss s.strategies s.adaptors m calls
      → cancel_all env (sids_of m) s
        ≡ ok (record s {
          conn2sid = p;
          sid2ss = erase_all (sids_of m) s.sid2ss;
          log = push_all calls s.log;
        })
  unfolding cancel_all
  cancel_all-suffix p [] [] s e b d a = let e' = e ∙ append-nil p in ground arith
  cancel_all-suffix p [] (k ∷ ks) s e b d a = absurd a
  cancel_all-suffix p (x ∷ m) [] s e b d a = absurd a
  cancel_all-suffix p ((c, sid) ∷ m) (k ∷ ks) s e b d a =
      let found : find c s.conn2sid ≡ (c, sid) ∷ m = rw e ((find-append c sid p m b.0).0) in
      let gone : erase_found c s.conn2sid ≡ p ++ m = rw e ((find-append c sid p m b.0).1) in
      let t : State = record s {
        conn2sid = erase_found c s.conn2sid;
        sid2ss = erase sid s.sid2ss;
        log = k ∷ s.log;
      } in
      rw (a.0.found, cancel_handler-Live c sid k m s a.0 found)
        (cancel_all-suffix p m ks t gone b.1 d.1
          (AllLive-erase s.sid2ss s.strategies s.adaptors sid m ks d.0 a.1))

  -- Where the multimap is ordered, and the entries from the terminated connection's first entry to
  -- the end of the multimap have different sids and live strategies, the handler returns. It has then
  -- cancelled the transfers of all these entries, one call for each in their order, and erased them
  -- from the two maps; the entries ahead of the connection's first, and all else, are as before.
  pub connection_terminated_lem :
      (conn : Conn) (calls : List Call) (s : State)
      → Ordered s.conn2sid
      → Distinct (sids_of (find conn s.conn2sid))
      → AllLive s.sid2ss s.strategies s.adaptors (find conn s.conn2sid) calls
      → connection_terminated env conn s
        ≡ ok (record s {
          conn2sid = before conn s.conn2sid;
          sid2ss = erase_all (sids_of (find conn s.conn2sid)) s.sid2ss;
          log = push_all calls s.log;
        })
  unfolding connection_terminated
  connection_terminated_lem conn calls s o d a =
      cancel_all-suffix (before conn s.conn2sid) (find conn s.conn2sid) calls s
        (sym (before-append-find conn s.conn2sid)) (before-Absent conn s.conn2sid o) d a
