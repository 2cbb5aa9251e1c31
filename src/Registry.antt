-- ===== src/Registry.antt =====
-- src/greynet.cpp, register_sidtransfer and unregister_sidtransfer: the multimap `m_conn2sid` and the
-- map `m_sid2ss`. The multimap is a list in the order of its keys, where `find` gives the first entry
-- of a key and `insert` goes behind the entries of its key, as in libstdc++.
pub mod Loop
pub mod Order
pub mod Twice
pub mod Queues
use greynet.Base.{
  ℕ, zero, suc, Str, leb, Bool, true, false, Option, none, some, List, [], ◌∷◌, ◌==◌, nat_eq,
  str_eq, if◌then◌else◌,
}
use greynet.Base.Dict.{insert, erase}
use greynet.Platform.{State, Conn, Ref, Result, ok, fault, endless_loop, or_fault, ◌>>=◌}

abbrev pub Transfers : Type 0
Transfers = List (Conn × Str)

-- `m_conn2sid.find(conn)`: the iterator, as the entries from it on; `[]` is `end()`.
unfoldable pub find : Conn → Transfers → Transfers
find c [] = []
find c ((d, sid) ∷ m) = if d == c then (d, sid) ∷ m else find c m

-- `erase` of the iterator that `find` gives.
unfoldable pub erase_found : Conn → Transfers → Transfers
erase_found c [] = []
erase_found c ((d, sid) ∷ m) = if d == c then m else (d, sid) ∷ erase_found c m

unfoldable pub insert_pair : Conn → Str → Transfers → Transfers
insert_pair c sid [] = (c, sid) ∷ []
insert_pair c sid ((d, t) ∷ m) =
    if leb d c then (d, t) ∷ insert_pair c sid m else (c, sid) ∷ (d, t) ∷ m

-- The `while` loop of unregister_sidtransfer, with fuel. A round that finds another sid changes
-- nothing.
unfoldable pub unregister_loop : ℕ → Conn → Str → Transfers → Option Transfers
unregister_loop zero c sid m = none
unregister_loop (suc fuel) c sid m = elim (find c m) [
  | [] ↦ some m
  | (d, t) ∷ _ ↦
      let again = unregister_loop fuel c sid m in if t == sid then some (erase_found c m) else again
]

unfoldable pub unregister_sidtransfer : Conn → Str → State → Result State
unregister_sidtransfer conn sid s = do
  m ← or_fault (unregister_loop 1 conn sid s.conn2sid) endless_loop
  ok (record s { conn2sid = m; sid2ss = erase sid s.sid2ss })

unfoldable pub register_sidtransfer : Conn → Str → Ref → State → State
register_sidtransfer conn sid r s = record s {
  sid2ss = insert sid r s.sid2ss;
  conn2sid = insert_pair conn sid s.conn2sid;
}
