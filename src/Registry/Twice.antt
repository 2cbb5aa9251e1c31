-- ===== src/Registry/Twice.antt =====
-- A sid that register_sidtransfer (src/greynet.cpp) is given twice.
use greynet.Base.{Str, ◌≡◌, [], ◌∷◌, arith, nat_eq, str_eq, leb, Bool-cases, inl, inr}
use greynet.Base.Dict.{erase, lookup-erase}
use greynet.Platform.{Env, State, Conn, Ref, ok, fault, null_pointer}
use greynet.Registry.{
  Transfers, find, erase_found, insert_pair, register_sidtransfer, unregister_sidtransfer,
}
use greynet.Registry.Loop.{unregister_found}
use greynet.Transfers.{connection_terminated, cancel_all}

find-insert_pair :
    (c : Conn) (sid : Str) (m : Transfers)
    → find c m ≡ []
    → (rest : Transfers) × (find c (insert_pair c sid m) ≡ (c, sid) ∷ rest)
unfolding find insert_pair
find-insert_pair c sid [] h = ([], ground arith)
find-insert_pair c sid ((d, t) ∷ m) h =
    let (rest, e) = find-insert_pair c sid m (ground arith) in
    elim (Bool-cases (leb d c)) [
      | inl f ↦ (rest, ground arith)
      | inr f ↦ ((d, t) ∷ m, ground arith)
    ]

insert_pair_twice :
    (c : Conn) (sid : Str) (m : Transfers)
    → find c m ≡ []
    → (rest : Transfers) × (find c (insert_pair c sid (insert_pair c sid m)) ≡ (c, sid) ∷ rest)
      × (erase_found c (insert_pair c sid (insert_pair c sid m)) ≡ insert_pair c sid m)
unfolding find insert_pair erase_found
insert_pair_twice c sid [] h = ((c, sid) ∷ [], ground arith, ground arith)
insert_pair_twice c sid ((d, t) ∷ m) h =
    let (rest, e, f) = insert_pair_twice c sid m (ground arith) in
    elim (Bool-cases (leb d c)) [
      | inl g ↦ (rest, ground arith, ground arith)
      | inr g ↦ ((c, sid) ∷ (d, t) ∷ m, ground arith, ground arith)
    ]

module _ (env : Env) where
  -- Where a connection without transfers has the same sid registered for two strategies, and the sid
  -- is then unregistered, as at the end of one of the two, the first handler of the connection's end
  -- dereferences a null pointer: an entry of the multimap is left, of a sid that is not in the map.
  pub connection_terminated-register_sidtransfer_twice :
      (conn : Conn) (sid : Str) (r q : Ref) (s : State)
      → find conn s.conn2sid ≡ []
      → (t : State) × (unregister_sidtransfer conn sid
            (register_sidtransfer conn sid q (register_sidtransfer conn sid r s))
          ≡ ok t)
        × (connection_terminated env conn t ≡ fault null_pointer)
  unfolding register_sidtransfer connection_terminated cancel_all
  connection_terminated-register_sidtransfer_twice conn sid r q s h =
      let (rest, e, f) = insert_pair_twice conn sid s.conn2sid h in
      let (rest', g) = find-insert_pair conn sid s.conn2sid h in
      let twice : State = register_sidtransfer conn sid q (register_sidtransfer conn sid r s) in
      (
        record twice {
          conn2sid = erase_found conn twice.conn2sid;
          sid2ss = erase sid twice.sid2ss;
        },
        unregister_found conn sid rest twice e,
        rw (f, g, lookup-erase sid sid twice.sid2ss) (ground arith),
      )
