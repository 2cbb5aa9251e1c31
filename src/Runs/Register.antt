-- ===== src/Runs/Register.antt =====
-- register_sidtransfer and unregister_sidtransfer (src/greynet.cpp), and the transfers.
use greynet.Base.{
  ℕ, ◌≤◌, Str, ◌≡◌, ◌≢◌, refl, ◌⊎◌, inl, inr, true, false, none, some, [], ◌∷◌, leb, ◌==◌,
  if◌then◌else◌, arith, nat_eq, str_eq, contains, Bool-cases,
}
use greynet.Base.Dict.{lookup, erase, lookup-erase}
use greynet.Platform.{State, Conn, ok}
use greynet.Registry.{Transfers, find, erase_found, insert_pair, unregister_sidtransfer}
use greynet.Registry.Order.{AtLeast, AtLeast-mono, Ordered}
use greynet.Registry.Loop.{unregister_sidtransfer-cases}
use greynet.Transfers.{sids_of}
use greynet.Transfers.Terminated.{Distinct}
use greynet.Runs.Linked.{Entry, Linked}
use greynet.Runs.Entries.{
  find-Entry, Ordered-erase_found, Distinct-erase_found, Entry-erase_found, Entry-other, Entry-kept,
}

-- The state after a transfer was found and erased.
abbrev dropped : Conn → Str → State → State
dropped c sid s = record s { conn2sid = erase_found c s.conn2sid; sid2ss = erase sid s.sid2ss }

dropped-Linked :
    (c : Conn) (sid : Str) (rest : Transfers) (s : State)
    → Linked s
    → find c s.conn2sid ≡ (c, sid) ∷ rest
    → Linked (dropped c sid s)
dropped-Linked c sid rest s l f = record {
  ordered = Ordered-erase_found c s.conn2sid l.ordered;
  distinct = Distinct-erase_found c s.conn2sid l.distinct;
  tracked = λ d t e.
      let k = l.tracked d t (Entry-erase_found c d t s.conn2sid e) in
      let n = Entry-other c d sid t s.conn2sid rest f l.distinct e in
      record {
        address = k.address;
        object = k.object;
        sink = k.sink;
        found = let g = k.found in ground (arith, lookup-erase t sid s.sid2ss, n);
        held = k.held;
        playing = k.playing;
        exists = k.exists;
        owner = k.owner;
        named = k.named;
        timed = k.timed;
      };
  listed = λ t r h.
      let n : t ≢ sid = λ p. (ground (arith, lookup-erase t sid s.sid2ss)) in
      let h' : lookup t s.sid2ss ≡ some r = ground (arith, lookup-erase t sid s.sid2ss, n) in
      let (d, e) = l.listed t r h' in (d, Entry-kept c d sid t s.conn2sid rest f n e);
  fresh = l.fresh;
}

pub unregister_sidtransfer-Linked :
    (c : Conn) (sid : Str) (s t : State)
    → Linked s
    → Entry c sid s.conn2sid
    → unregister_sidtransfer c sid s ≡ ok t
    → Linked t
unregister_sidtransfer-Linked c sid s t l e h = elim (unregister_sidtransfer-cases c sid s) [
  | inl k ↦ absurd (find-Entry c sid s.conn2sid e k.0)
  | inr (inl (rest, f, k)) ↦
      let q : dropped c sid s ≡ t = cc in rw (← q) (dropped-Linked c sid rest s l f)
  | inr (inr (u, rest, f, n, k, always)) ↦ cc
]

-- A sid that is not registered: nothing is erased.
erased-Linked :
    (sid : Str) (s : State)
    → Linked s
    → lookup sid s.sid2ss ≡ none
    → Linked (record s { sid2ss = erase sid s.sid2ss })
erased-Linked sid s l h = record {
  ordered = l.ordered;
  distinct = l.distinct;
  tracked = λ d t e.
      let k = l.tracked d t e in
      record {
        address = k.address;
        object = k.object;
        sink = k.sink;
        found = let g = k.found in ground (arith, lookup-erase t sid s.sid2ss);
        held = k.held;
        playing = k.playing;
        exists = k.exists;
        owner = k.owner;
        named = k.named;
        timed = k.timed;
      };
  listed = λ t r k. l.listed t r (ground (arith, lookup-erase t sid s.sid2ss));
  fresh = l.fresh;
}

find-found :
    (c : Conn) (sid : Str) (m rest : Transfers) → find c m ≡ (c, sid) ∷ rest → Entry c sid m
unfolding find
find-found c sid [] rest f = cc
find-found c sid ((e, u) ∷ m) rest f = elim (nat_eq.dec e c) [
  | yes q ↦ inl (q, ground arith)
  | no n ↦ inr (find-found c sid m rest (ground arith))
]

pub unregister_sidtransfer-Linked_absent :
    (c : Conn) (sid : Str) (s t : State)
    → Linked s
    → lookup sid s.sid2ss ≡ none
    → unregister_sidtransfer c sid s ≡ ok t
    → Linked t
unregister_sidtransfer-Linked_absent c sid s t l n h = elim (unregister_sidtransfer-cases c sid s) [
  | inl k ↦
      let q : record s { sid2ss = erase sid s.sid2ss } ≡ t = cc in
      rw (← q) (erased-Linked sid s l n)
  | inr (inl (rest, f, k)) ↦
      let g = (l.tracked c sid (find-found c sid s.conn2sid rest f)).found in absurd (cc)
  | inr (inr (u, rest, f, m, k, always)) ↦ cc
]

AtLeast-insert_pair :
    (n : ℕ) (c : Conn) (sid : Str) (m : Transfers)
    → n ≤ c
    → AtLeast n m
    → AtLeast n (insert_pair c sid m)
unfolding insert_pair
AtLeast-insert_pair n c sid [] h a = (h, tt)
AtLeast-insert_pair n c sid ((d, t) ∷ m) h a = ground (arith, AtLeast-insert_pair n c sid m h a.1)

pub Ordered-insert_pair :
    (c : Conn) (sid : Str) (m : Transfers) → Ordered m → Ordered (insert_pair c sid m)
unfolding insert_pair
Ordered-insert_pair c sid [] o = (tt, tt)
Ordered-insert_pair c sid ((d, t) ∷ m) o = elim (Bool-cases (leb d c)) [
  | inl e ↦
      let le : d ≤ c = ground arith in
      rw e (AtLeast-insert_pair d c sid m le o.0, Ordered-insert_pair c sid m o.1)
  | inr e ↦
      let le : c ≤ d = ground arith in
      rw e ((le, AtLeast-mono {j = c} {n = d} m le o.0), (o.0, o.1))
]

pub Entry-insert_pair :
    (c d : Conn) (sid t : Str) (m : Transfers)
    → Entry d t (insert_pair c sid m)
    → ((c ≡ d) × (sid ≡ t)) ⊎ Entry d t m
unfolding insert_pair
Entry-insert_pair c d sid t [] (inl e) = inl e
Entry-insert_pair c d sid t [] (inr e) = elim e [ ]
Entry-insert_pair c d sid t ((e, u) ∷ m) k = elim (Bool-cases (leb e c)) [
  | inl h ↦
      let k' : Entry d t ((e, u) ∷ insert_pair c sid m) = rw h at k in
      elim k' [
        | inl g ↦ inr (inl g)
        | inr g ↦ elim (Entry-insert_pair c d sid t m g) [ inl x ↦ inl x | inr x ↦ inr (inr x) ]
      ]
  | inr h ↦ let k' : Entry d t ((c, sid) ∷ (e, u) ∷ m) = rw h at k in k'
]

pub insert_pair-Entry :
    (c d : Conn) (sid t : Str) (m : Transfers)
    → ((c ≡ d) × (sid ≡ t)) ⊎ Entry d t m
    → Entry d t (insert_pair c sid m)
unfolding insert_pair
insert_pair-Entry c d sid t [] (inl e) = inl e
insert_pair-Entry c d sid t [] (inr e) = elim e [ ]
insert_pair-Entry c d sid t ((e, u) ∷ m) k = elim (Bool-cases (leb e c)) [
  | inl h ↦
      let k' : Entry d t ((e, u) ∷ insert_pair c sid m) = elim k [
        | inl g ↦ inr (insert_pair-Entry c d sid t m (inl g))
        | inr (inl g) ↦ inl g
        | inr (inr g) ↦ inr (insert_pair-Entry c d sid t m (inr g))
      ] in
      rw h k'
  | inr h ↦ let k' : Entry d t ((c, sid) ∷ (e, u) ∷ m) = k in rw h k'
]

pub Distinct-insert_pair :
    (c : Conn) (sid : Str) (m : Transfers)
    → contains sid (sids_of m) ≡ false
    → Distinct (sids_of m)
    → Distinct (sids_of (insert_pair c sid m))
unfolding insert_pair contains
Distinct-insert_pair c sid [] n h = (refl, tt)
Distinct-insert_pair c sid ((d, t) ∷ m) n h =
    ground (arith, contains-insert_pair c sid t m, Distinct-insert_pair c sid m)
  where
    contains-insert_pair :
        (c : Conn) (sid t : Str) (m : Transfers)
        → contains t (sids_of (insert_pair c sid m))
          ≡ (if t == sid then true else contains t (sids_of m))
    contains-insert_pair c sid t [] = ground arith
    contains-insert_pair c sid t ((e, u) ∷ m) = ground (arith, contains-insert_pair c sid t m)
