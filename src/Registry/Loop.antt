-- ===== src/Registry/Loop.antt =====
-- The loop of unregister_sidtransfer (src/greynet.cpp).
use greynet.Base.{
  ℕ, zero, suc, Str, ◌≡◌, ◌≢◌, refl, ◌⊎◌, inl, inr, Option, none, some, [], ◌∷◌, arith, ◌==◌,
  nat_eq, str_eq, if◌then◌else◌,
}
use greynet.Base.Dict.{erase}
use greynet.Platform.{State, Conn, ok, fault, endless_loop}
use greynet.Registry.{Transfers, find, erase_found, unregister_loop, unregister_sidtransfer}

-- What the loop does, by the entries from the one that `find` gives.
abbrev settled : Conn → Str → Transfers → Transfers → Option Transfers
settled c sid m [] = some m
settled c sid m ((d, t) ∷ _) = if t == sid then some (erase_found c m) else none

unregister_loop_lem :
    (fuel : ℕ) (c : Conn) (sid : Str) (m : Transfers)
    → unregister_loop (suc fuel) c sid m ≡ settled c sid m (find c m)
unfolding unregister_loop
unregister_loop_lem zero c sid m = ground arith
unregister_loop_lem (suc fuel) c sid m = ground (arith, unregister_loop_lem fuel c sid m)

-- `find` gives the end, or an entry of its key.
pub find-cases :
    (c : Conn) (m : Transfers)
    → (find c m ≡ []) ⊎ ((t : Str) × (rest : Transfers) × (find c m ≡ (c, t) ∷ rest))
unfolding find
find-cases c [] = inl refl
find-cases c ((d, t) ∷ m) = elim (nat_eq.dec d c) [
  | yes p ↦ inr (t, m, ground arith)
  | no n ↦ elim (find-cases c m) [
    | inl e ↦ inl (ground arith)
    | inr (u, rest, e) ↦ inr (u, rest, ground arith)
  ]
]

never :
    (c : Conn) (sid t : Str) (m rest : Transfers)
    → find c m ≡ (c, t) ∷ rest
    → t ≢ sid
    → (fuel : ℕ) → unregister_loop fuel c sid m ≡ none
never c sid t m rest e n zero = unfold unregister_loop in refl
never c sid t m rest e n (suc fuel) = ground (arith, unregister_loop_lem fuel c sid m)

-- unregister_sidtransfer, on every state. Where the connection has no entry, it erases the sid from
-- the map alone. Where the connection's first entry is the sid's, it erases that entry too. Where
-- the first entry is another transfer's, the loop never ends, whatever the number of rounds.
pub unregister_sidtransfer-cases :
    (c : Conn) (sid : Str) (s : State)
    → ((find c s.conn2sid ≡ [])
        × (unregister_sidtransfer c sid s ≡ ok (record s { sid2ss = erase sid s.sid2ss })))
      ⊎ ((rest : Transfers) × (find c s.conn2sid ≡ (c, sid) ∷ rest)
          × (unregister_sidtransfer c sid s
              ≡ ok (record s { conn2sid = erase_found c s.conn2sid; sid2ss = erase sid s.sid2ss })))
      ⊎ ((t : Str) × (rest : Transfers) × (find c s.conn2sid ≡ (c, t) ∷ rest)
          × (t ≢ sid)
          × (unregister_sidtransfer c sid s ≡ fault endless_loop)
          × ((fuel : ℕ) → unregister_loop fuel c sid s.conn2sid ≡ none))
unfolding unregister_sidtransfer
unregister_sidtransfer-cases c sid s = elim (find-cases c s.conn2sid) [
  | inl e ↦ inl (e, ground (arith, unregister_loop_lem 0 c sid s.conn2sid))
  | inr (t, rest, e) ↦ elim (str_eq.dec t sid) [
    | yes p ↦ inr (inl (rest, ground arith, ground (arith, unregister_loop_lem 0 c sid s.conn2sid)))
    | no n ↦ inr (
        inr (
          t,
          rest,
          e,
          n,
          ground (arith, unregister_loop_lem 0 c sid s.conn2sid),
          never c sid t s.conn2sid rest e n,
        ))
  ]
]

pub unregister_found :
    (c : Conn) (sid : Str) (rest : Transfers) (s : State)
    → find c s.conn2sid ≡ (c, sid) ∷ rest
    → unregister_sidtransfer c sid s
      ≡ ok (record s { conn2sid = erase_found c s.conn2sid; sid2ss = erase sid s.sid2ss })
unfolding unregister_sidtransfer
unregister_found c sid rest s e = ground (arith, unregister_loop_lem 0 c sid s.conn2sid)

pub unregister_absent :
    (c : Conn) (sid : Str) (s : State)
    → find c s.conn2sid ≡ []
    → unregister_sidtransfer c sid s ≡ ok (record s { sid2ss = erase sid s.sid2ss })
unfolding unregister_sidtransfer
unregister_absent c sid s e = ground (arith, unregister_loop_lem 0 c sid s.conn2sid)
