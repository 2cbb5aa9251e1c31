-- ===== src/Runs/Ends.antt =====
-- connection_terminated (src/greynet.cpp) in the states that a run reaches.
use greynet.Base.{
  ℕ, Str, ◌≡◌, refl, inl, inr, true, none, List, [], ◌∷◌, arith, nat_eq, str_eq, contains,
}
use greynet.Base.Dict.{Dict, lookup, erase, lookup-erase}
use greynet.Messages.{sidfail}
use greynet.Platform.{Env, State, Adaptor, Conn, Ref, Sink, http, relay, Call, ok, push_all}
use greynet.Registry.{Transfers, find}
use greynet.Registry.Order.{before}
use greynet.Transfers.{sids_of, connection_terminated}
use greynet.Transfers.Terminated.{
  Distinct, erase_all, CancelCall, AllLive, connection_terminated_lem,
}
use greynet.Runs.{Reach}
use greynet.Runs.Linked.{Entry, Tracked, Linked, Exists}
use greynet.Runs.Entries.{contains-Entry}
use greynet.Runs.Reached.{Reach-Linked}

find-before : (c : Conn) (m : Transfers) → find c (before c m) ≡ []
unfolding find before
find-before c [] = refl
find-before c ((d, t) ∷ m) = ground (arith, find-before c m)

Distinct-find : (c : Conn) (m : Transfers) → Distinct (sids_of m) → Distinct (sids_of (find c m))
unfolding find
Distinct-find c [] h = tt
Distinct-find c ((d, t) ∷ m) h = ground (arith, Distinct-find c m h.1)

Entry-find : (c d : Conn) (sid : Str) (m : Transfers) → Entry d sid (find c m) → Entry d sid m
unfolding find
Entry-find c d sid [] k = k
Entry-find c d sid ((e, t) ∷ m) k = elim (nat_eq.dec e c) [
  | yes p ↦ ground arith
  | no n ↦ let k' : Entry d sid (find c m) = ground arith in inr (Entry-find c d sid m k')
]

find-Entry : (c : Conn) (sid : Str) (m : Transfers) → Entry c sid m → Entry c sid (find c m)
unfolding find
find-Entry c sid [] k = k
find-Entry c sid ((e, t) ∷ m) (inl h) = let k : Entry c sid ((e, t) ∷ m) = inl h in ground arith
find-Entry c sid ((e, t) ∷ m) (inr h) = elim (nat_eq.dec e c) [
  | yes p ↦ let k : Entry c sid ((e, t) ∷ m) = inr h in ground arith
  | no n ↦ let k = find-Entry c sid m h in ground arith
]

lookup-erase_all-none :
    (sid : Str) (l : List Str) (m : Dict Str Ref)
    → lookup sid m ≡ none
    → lookup sid (erase_all l m) ≡ none
lookup-erase_all-none sid [] m h = h
lookup-erase_all-none sid (t ∷ l) m h =
    lookup-erase_all-none sid l (erase t m) (ground (arith, lookup-erase sid t m))

lookup-erase_all :
    (sid : Str) (l : List Str) (m : Dict Str Ref)
    → contains sid l ≡ true
    → lookup sid (erase_all l m) ≡ none
unfolding contains
lookup-erase_all sid [] m h = cc
lookup-erase_all sid (t ∷ l) m h = elim (str_eq.dec sid t) [
  | yes p ↦ lookup-erase_all-none sid l (erase t m) (ground (arith, lookup-erase sid t m))
  | no n ↦ lookup-erase_all sid l (erase t m) (ground arith)
]

module _ (env : Env) where
  open env use {general_message}

  Exists-CancelCall :
      (aa : Sink) (adaptors : Dict ℕ Adaptor)
      → Exists aa adaptors
      → (call : Call) × CancelCall env adaptors aa call
  Exists-CancelCall (http i) adaptors e = (Call.write_cancel i, refl)
  Exists-CancelCall (relay i) adaptors (a, h) =
      (Call.async_write a.conn (general_message sidfail [] a.sid), (a, h, refl))

  Tracked-AllLive :
      (m : Transfers) (s : State)
      → ((c : Conn) (sid : Str) → Entry c sid m → Tracked c sid s)
      → (calls : List Call) × AllLive env s.sid2ss s.strategies s.adaptors m calls
  Tracked-AllLive [] s h = ([], tt)
  Tracked-AllLive ((c, sid) ∷ m) s h =
      let k = h c sid (inl (refl, refl)) in
      let (call, e) = Exists-CancelCall k.sink s.adaptors k.exists in
      let (calls, a) = Tracked-AllLive m s (λ d t i. h d t (inr i)) in
      (
        call ∷ calls,
        (
          record {
            address = k.address;
            object = k.object;
            sink = k.sink;
            found = k.found;
            held = k.held;
            playing = k.playing;
            owner = k.owner;
            named = k.named;
            calls = e;
          },
          a,
        ),
      )

  -- In every state that a run reaches from one in which the transfers are linked, the handler of a
  -- terminated connection returns. No transfer of the connection is then in the multimap, and no sid
  -- of one is in the map.
  pub Reach-connection_terminated :
      (conn : Conn) (s t : State)
      → Linked s
      → Reach env s t
      → (u : State) × (connection_terminated env conn t ≡ ok u)
        × (find conn u.conn2sid ≡ [])
        × ((sid : Str) → Entry conn sid t.conn2sid → lookup sid u.sid2ss ≡ none)
  Reach-connection_terminated conn s t l run =
      let k = Reach-Linked env s t l run in
      let (calls, a) =
        Tracked-AllLive (find conn t.conn2sid) t
          λ d sid e. k.tracked d sid (Entry-find conn d sid t.conn2sid e) in
      let d = Distinct-find conn t.conn2sid k.distinct in
      (
        record t {
          conn2sid = before conn t.conn2sid;
          sid2ss = erase_all (sids_of (find conn t.conn2sid)) t.sid2ss;
          log = push_all calls t.log;
        },
        connection_terminated_lem env conn calls t k.ordered d a,
        find-before conn t.conn2sid,
        λ sid e.
            lookup-erase_all sid (sids_of (find conn t.conn2sid)) t.sid2ss
              (contains-Entry conn sid (find conn t.conn2sid) (find-Entry conn sid t.conn2sid e)),
      )
