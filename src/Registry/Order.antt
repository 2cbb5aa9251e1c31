-- ===== src/Registry/Order.antt =====
-- The order of the multimap `m_conn2sid` (src/greynet.cpp), and what it means for `find`.
use greynet.Base.{
  ℕ, suc, Str, ◌≤◌, ◌≡◌, ◌≢◌, refl, inl, inr, [], ◌∷◌, ◌++◌, arith, ◌==◌, nat_eq, if◌then◌else◌,
}
use greynet.Platform.{Conn}
use greynet.Registry.{Transfers, find, erase_found}
use greynet.Registry.Loop.{find-cases}

abbrev pub AtLeast : ℕ → Transfers → Type 0
AtLeast n [] = Unit {0}
AtLeast n ((d, _) ∷ m) = (n ≤ d) × AtLeast n m

abbrev pub Ordered : Transfers → Type 0
Ordered [] = Unit {0}
Ordered ((d, _) ∷ m) = AtLeast d m × Ordered m

-- The keys of the second list are not in the first.
abbrev pub Absent : Transfers → Transfers → Type 0
Absent p [] = Unit {0}
Absent p ((d, _) ∷ m) = (find d p ≡ []) × Absent p m

-- The entries ahead of the iterator that `find` gives.
unfoldable pub before : Conn → Transfers → Transfers
before c [] = []
before c ((d, t) ∷ m) = if d == c then [] else (d, t) ∷ before c m

pub AtLeast-mono : {j n : ℕ} (m : Transfers) → j ≤ n → AtLeast n m → AtLeast j m
AtLeast-mono [] h a = tt
AtLeast-mono ((d, t) ∷ m) h a = (omega arith, AtLeast-mono m h a.1)

pub before-append-find : (c : Conn) (m : Transfers) → before c m ++ find c m ≡ m
unfolding before find
before-append-find c [] = refl
before-append-find c ((d, t) ∷ m) = ground (arith, before-append-find c m)

find-AtLeast : (c : Conn) (n : ℕ) (m : Transfers) → AtLeast n m → AtLeast n (find c m)
unfolding find
find-AtLeast c n [] a = tt
find-AtLeast c n ((d, t) ∷ m) a = ground (arith, find-AtLeast c n m a.1)

find-above : (c : Conn) (m : Transfers) → Ordered m → AtLeast c (find c m)
unfolding find
find-above c [] o = tt
find-above c ((d, t) ∷ m) o = elim (nat_eq.dec d c) [
  | yes p ↦ ground (arith, AtLeast-mono {j = c} {n = d} m)
  | no n ↦ ground (arith, find-above c m o.1)
]

-- Behind a key, the entries from another key on are above it.
find-beyond :
    (c d : Conn) (m : Transfers) → Ordered m → AtLeast d m → d ≢ c → AtLeast (suc d) (find c m)
find-beyond c d m o a n = elim (find-cases c m) [
  | inl e ↦ rw e tt
  | inr (t, rest, e) ↦
      let h : AtLeast d ((c, t) ∷ rest) = rw e at (find-AtLeast c d m a) in
      let k : d ≤ c = h.0 in
      let lt : suc d ≤ c = omega arith in AtLeast-mono (find c m) lt (find-above c m o)
]

Absent-cons :
    (d : Conn) (t : Str) (p m : Transfers) → AtLeast (suc d) m → Absent p m → Absent ((d, t) ∷ p) m
unfolding find
Absent-cons d t p [] a h = tt
Absent-cons d t p ((e, u) ∷ m) a h = (ground arith, Absent-cons d t p m a.1 h.1)

Absent-nil : (m : Transfers) → Absent [] m
unfolding find
Absent-nil [] = tt
Absent-nil ((d, t) ∷ m) = (refl, Absent-nil m)

-- In an ordered multimap no key from the iterator on stands ahead of it.
pub before-Absent : (c : Conn) (m : Transfers) → Ordered m → Absent (before c m) (find c m)
unfolding before
before-Absent c [] o = Absent-nil (find c [])
before-Absent c ((d, t) ∷ m) o = elim (nat_eq.dec d c) [
  | yes p ↦
      let e : before c ((d, t) ∷ m) ≡ [] = unfold before in (ground arith) in
      rw e (Absent-nil (find c ((d, t) ∷ m)))
  | no n ↦
      let e : before c ((d, t) ∷ m) ≡ (d, t) ∷ before c m = unfold before in (ground arith) in
      let f : find c ((d, t) ∷ m) ≡ find c m = unfold find in (ground arith) in
      rw (e, f)
        (Absent-cons d t (before c m) (find c m) (find-beyond c d m o.1 o.0 n)
          (before-Absent c m o.1))
]

pub find-append :
    (c : Conn) (t : Str) (p m : Transfers)
    → find c p ≡ []
    → (find c (p ++ (c, t) ∷ m) ≡ (c, t) ∷ m) × (erase_found c (p ++ (c, t) ∷ m) ≡ p ++ m)
unfolding find erase_found
find-append c t [] m h = ground arith
find-append c t ((d, u) ∷ p) m h = ground (arith, find-append c t p m)
