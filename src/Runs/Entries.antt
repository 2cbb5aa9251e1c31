-- ===== src/Runs/Entries.antt =====
-- The entries of the multimap under `insert` and `erase` (src/greynet.cpp, register_sidtransfer and
-- unregister_sidtransfer), and the transfers with them.
use greynet.Base.{
  ℕ, Str, ◌≡◌, ◌≢◌, refl, sym, inl, inr, true, false, [], ◌∷◌, arith, nat_eq, str_eq, contains,
  Bool-cases, ==_refl,
}
use greynet.Platform.{Conn}
use greynet.Registry.{Transfers, find, erase_found}
use greynet.Registry.Order.{AtLeast, Ordered}
use greynet.Transfers.{sids_of}
use greynet.Transfers.Terminated.{Distinct}
use greynet.Runs.Linked.{Entry}

pub find-Entry : (c : Conn) (sid : Str) (m : Transfers) → Entry c sid m → find c m ≢ []
unfolding find
find-Entry c sid [] k h = elim k [ ]
find-Entry c sid ((d, t) ∷ m) (inl e) h = ground arith
find-Entry c sid ((d, t) ∷ m) (inr k) h = ground (arith, find-Entry c sid m k)

pub contains-Entry :
    (c : Conn) (sid : Str) (m : Transfers) → Entry c sid m → contains sid (sids_of m) ≡ true
unfolding contains
contains-Entry c sid [] k = elim k [ ]
contains-Entry c sid ((d, t) ∷ m) (inl e) = ground (arith, ==_refl sid)
contains-Entry c sid ((d, t) ∷ m) (inr k) = ground (arith, contains-Entry c sid m k)

pub Entry-contains :
    (sid : Str) (m : Transfers) → contains sid (sids_of m) ≡ true → (c : Conn) × Entry c sid m
unfolding contains
Entry-contains sid [] h = cc
Entry-contains sid ((d, t) ∷ m) h = elim (str_eq.dec sid t) [
  | yes p ↦ (d, inl (refl, sym p))
  | no n ↦ let (c, k) = Entry-contains sid m (ground arith) in (c, inr k)
]

-- Erasing the first entry of a connection.
AtLeast-erase_found : (n : ℕ) (c : Conn) (m : Transfers) → AtLeast n m → AtLeast n (erase_found c m)
unfolding erase_found
AtLeast-erase_found n c [] a = tt
AtLeast-erase_found n c ((d, t) ∷ m) a = elim (nat_eq.dec d c) [
  | yes p ↦ ground arith
  | no k ↦ ground (arith, AtLeast-erase_found n c m a.1)
]

pub Ordered-erase_found : (c : Conn) (m : Transfers) → Ordered m → Ordered (erase_found c m)
unfolding erase_found
Ordered-erase_found c [] o = tt
Ordered-erase_found c ((d, t) ∷ m) o = elim (nat_eq.dec d c) [
  | yes p ↦ ground arith
  | no k ↦ ground (arith, AtLeast-erase_found d c m o.0, Ordered-erase_found c m o.1)
]

pub Entry-erase_found :
    (c d : Conn) (t : Str) (m : Transfers) → Entry d t (erase_found c m) → Entry d t m
unfolding erase_found
Entry-erase_found c d t [] k = elim k [ ]
Entry-erase_found c d t ((e, u) ∷ m) k = elim (nat_eq.dec e c) [
  | yes p ↦ let k' : Entry d t m = ground arith in inr k'
  | no n ↦
      let k' : Entry d t ((e, u) ∷ erase_found c m) = ground arith in
      elim k' [ inl f ↦ inl f | inr f ↦ inr (Entry-erase_found c d t m f) ]
]

pub Distinct-erase_found :
    (c : Conn) (m : Transfers) → Distinct (sids_of m) → Distinct (sids_of (erase_found c m))
unfolding erase_found contains
Distinct-erase_found c [] h = tt
Distinct-erase_found c ((d, t) ∷ m) h = elim (nat_eq.dec d c) [
  | yes p ↦ ground arith
  | no n ↦
      let k : contains t (sids_of (erase_found c m)) ≡ false =
        elim (Bool-cases (contains t (sids_of (erase_found c m)))) [
          | inr f ↦ f
          | inl f ↦
              let (e, r) = Entry-contains t (erase_found c m) f in
              let w = contains-Entry e t m (Entry-erase_found c e t m r) in absurd (ground arith)
        ] in
      ground (arith, Distinct-erase_found c m h.1)
]

-- What is erased is the sid's only entry.
pub Entry-other :
    (c d : Conn) (sid t : Str) (m rest : Transfers)
    → find c m ≡ (c, sid) ∷ rest
    → Distinct (sids_of m)
    → Entry d t (erase_found c m)
    → t ≢ sid
unfolding find erase_found contains
Entry-other c d sid t [] rest f h k p = elim k [ ]
Entry-other c d sid t ((e, u) ∷ m) rest f h k p = elim (nat_eq.dec e c) [
  | yes q ↦ let k' : Entry d t m = ground arith in let w = contains-Entry d t m k' in ground arith
  | no n ↦
      let k' : Entry d t ((e, u) ∷ erase_found c m) = ground arith in
      let f' : find c m ≡ (c, sid) ∷ rest = ground arith in
      elim k' [
        | inl g ↦ let w = contains-Entry c sid m (found-Entry c sid m rest f') in ground arith
        | inr g ↦ Entry-other c d sid t m rest f' h.1 g p
      ]
]
  where
    found-Entry :
        (c : Conn) (sid : Str) (m rest : Transfers) → find c m ≡ (c, sid) ∷ rest → Entry c sid m
    found-Entry c sid [] rest f = cc
    found-Entry c sid ((e, u) ∷ m) rest f = elim (nat_eq.dec e c) [
      | yes q ↦ inl (q, ground arith)
      | no n ↦ inr (found-Entry c sid m rest (ground arith))
    ]

pub Entry-kept :
    (c d : Conn) (sid t : Str) (m rest : Transfers)
    → find c m ≡ (c, sid) ∷ rest
    → t ≢ sid
    → Entry d t m
    → Entry d t (erase_found c m)
unfolding find erase_found
Entry-kept c d sid t [] rest f n k = elim k [ ]
Entry-kept c d sid t ((e, u) ∷ m) rest f n (inl g) = elim (nat_eq.dec e c) [
  | yes q ↦ absurd (n (ground arith))
  | no k ↦ let r : Entry d t ((e, u) ∷ erase_found c m) = inl g in ground arith
]
Entry-kept c d sid t ((e, u) ∷ m) rest f n (inr g) = elim (nat_eq.dec e c) [
  | yes q ↦ ground arith
  | no k ↦
      let r : Entry d t ((e, u) ∷ erase_found c m) =
        inr (Entry-kept c d sid t m rest (ground arith) n g) in
      ground arith
]
