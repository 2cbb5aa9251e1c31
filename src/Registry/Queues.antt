-- ===== src/Registry/Queues.antt =====
-- register_sidtransfer and unregister_sidtransfer (src/greynet.cpp) against a queue of sids for each
-- connection.
use greynet.Base.{
  ℕ, Str, ◌<◌, ◌≡◌, ◌≢◌, refl, List, [], ◌∷◌, ◌++◌, arith, nat_eq, str_eq, leb, ◌==◌, if◌then◌else◌,
  Bool-cases, ==_refl, false, inl, inr, Option, none, some,
}
use greynet.Base.Dict.{erase}
use greynet.Platform.{State, Conn, Ref, Result, ok, fault, endless_loop}
use greynet.Registry.{
  Transfers, find, erase_found, insert_pair, register_sidtransfer, unregister_sidtransfer,
}
use greynet.Registry.Loop.{unregister_sidtransfer-cases}
use greynet.Registry.Order.{AtLeast, Ordered}

-- The sids of a connection, the oldest first.
unfoldable pub queue : Conn → Transfers → List Str
queue c [] = []
queue c ((d, sid) ∷ m) = let rest = queue c m in if d == c then sid ∷ rest else rest

-- Registering is joining the queue of the connection.
unfoldable pub join : Conn → Str → Conn → List Str → List Str
join conn sid c sids = if c == conn then sids ++ (sid ∷ []) else sids

-- Unregistering is leaving it, which only the first in the queue can.
unfoldable pub leave : Str → List Str → Option (List Str)
leave sid [] = some []
leave sid (t ∷ sids) = if t == sid then some sids else none

queue-AtLeast : (c n : ℕ) (m : Transfers) → AtLeast n m → c < n → queue c m ≡ []
unfolding queue
queue-AtLeast c n [] a lt = refl
queue-AtLeast c n ((d, t) ∷ m) a lt = ground (arith, queue-AtLeast c n m a.1 lt)

queue-insert_pair :
    (c conn : Conn) (sid : Str) (m : Transfers)
    → Ordered m
    → queue c (insert_pair conn sid m) ≡ join conn sid c (queue c m)
unfolding queue insert_pair join
queue-insert_pair c conn sid [] o = ground arith
queue-insert_pair c conn sid ((d, t) ∷ m) o = elim (Bool-cases (leb d conn)) [
  | inl e ↦
      let k = queue-insert_pair c conn sid m o.1 in
      let f : insert_pair conn sid ((d, t) ∷ m) ≡ (d, t) ∷ insert_pair conn sid m = ground arith in
      rw f (ground arith)
  | inr e ↦
      let k = queue-AtLeast c d m o.0 in
      let f : insert_pair conn sid ((d, t) ∷ m) ≡ (conn, sid) ∷ (d, t) ∷ m = ground arith in
      rw f (ground arith)
]

find-queue : (c : Conn) (m : Transfers) → queue c m ≡ [] → find c m ≡ []
unfolding queue find
find-queue c [] h = refl
find-queue c ((d, t) ∷ m) h = ground (arith, find-queue c m)

queue-find :
    (c d : Conn) (sid : Str) (m rest : Transfers)
    → find c m ≡ (d, sid) ∷ rest
    → queue c m ≡ sid ∷ queue c (erase_found c m)
unfolding queue find erase_found
queue-find c d sid [] rest h = cc
queue-find c d sid ((e, t) ∷ m) rest h = elim (nat_eq.dec e c) [
  | yes p ↦ ground arith
  | no n ↦ ground (arith, queue-find c d sid m rest)
]

queue-erase_found :
    (c conn : Conn) (m : Transfers) → c ≢ conn → queue c (erase_found conn m) ≡ queue c m
unfolding queue erase_found
queue-erase_found c conn [] n = refl
queue-erase_found c conn ((d, t) ∷ m) n = ground (arith, queue-erase_found c conn m n)

-- What unregistering comes to, by what `leave` gives.
abbrev pub Leaves : Conn → State → Result State → Option (List Str) → Type 0
Leaves conn s r none = r ≡ fault endless_loop
Leaves conn s r (some sids) =
    (t : State) × (r ≡ ok t)
    × (queue conn t.conn2sid ≡ sids)
    × ((c : Conn) → c ≢ conn → queue c t.conn2sid ≡ queue c s.conn2sid)

queue-none : (c : Conn) (m : Transfers) → find c m ≡ [] → queue c m ≡ []
unfolding queue find
queue-none c [] h = refl
queue-none c ((d, t) ∷ m) h = ground (arith, queue-none c m)

unregister_sidtransfer-leave :
    (conn : Conn) (sid : Str) (s : State)
    → Leaves conn s (unregister_sidtransfer conn sid s) (leave sid (queue conn s.conn2sid))
unfolding leave
unregister_sidtransfer-leave conn sid s = elim (unregister_sidtransfer-cases conn sid s) [
  | inl (f, k) ↦
      let q = queue-none conn s.conn2sid f in
      rw q (record s { sid2ss = erase sid s.sid2ss }, k, q, λ c n. refl)
  | inr (inl (rest, f, k)) ↦
      rw (queue-find conn conn sid s.conn2sid rest f, ==_refl sid)
        (
          record s { conn2sid = erase_found conn s.conn2sid; sid2ss = erase sid s.sid2ss },
          k,
          refl,
          λ c n. queue-erase_found c conn s.conn2sid n,
        )
  | inr (inr (t, rest, f, n, k, always)) ↦
      let e : (t == sid) ≡ false = ground arith in
      rw (queue-find conn conn t s.conn2sid rest f, e) k
]

-- In an ordered multimap, the two functions do to the sids of the connections, in the order in which
-- they were registered, what a queue for each connection does. Registering a sid joins the queue of
-- its connection and leaves the others alone. Unregistering a sid does nothing to the queues where
-- its connection has none, removes it where it is the first in its connection's queue, and is an
-- endless loop where another is the first.
pub queue-register_sidtransfer-unregister_sidtransfer :
    (conn : Conn) (sid : Str) (r : Ref) (s : State)
    → Ordered s.conn2sid
    → ((c : Conn)
        → queue c (register_sidtransfer conn sid r s).conn2sid
          ≡ join conn sid c (queue c s.conn2sid))
      × Leaves conn s (unregister_sidtransfer conn sid s) (leave sid (queue conn s.conn2sid))
unfolding register_sidtransfer
queue-register_sidtransfer-unregister_sidtransfer conn sid r s o =
    (λ c. queue-insert_pair c conn sid s.conn2sid o, unregister_sidtransfer-leave conn sid s)
