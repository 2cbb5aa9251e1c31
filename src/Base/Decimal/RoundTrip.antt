-- ===== src/Base/Decimal/RoundTrip.antt =====
-- `atoi` on what `<<` prints.
use Prim.Native.Nat.{ℕ, zero, suc, ◌+◌, ◌-◌, ◌*◌, ◌/◌, ◌%◌, ◌<◌, ◌≤◌}
use mathlib.Core.Path.{◌≡◌, refl, ◌∙◌, ap}
use mathlib.Core.Logic.{inl, inr}
use mathlib.Core.Bool.{false}
use mathlib.Core.List.{[], ◌∷◌, ◌++◌}
use native.Mathlib.Omega.{arith}
use greynet.Base.Tests.{Str, ltb, nat_eq, Bool-cases}
use greynet.Base.Int.{ℤ, pos, negsuc}
use greynet.Base.Lists.{contains}
use greynet.Base.Decimal.{
  digits, show_nat, show_int, is_digit, is_space, skip_spaces, read_digits, negate, read_signed,
  atoi,
}

-- All of a string's characters are digits.
abbrev pub Digits : Str → Type 0
Digits [] = Unit
Digits (c ∷ cs) = (48 ≤ c) × (c ≤ 57) × Digits cs

Digits-snoc : (s : Str) (c : ℕ) → Digits s → 48 ≤ c → c ≤ 57 → Digits (s ++ c ∷ [])
Digits-snoc [] c d h k = (h, k, tt)
Digits-snoc (x ∷ s) c d h k = (d.0, d.1, Digits-snoc s c d.2 h k)

digits-Digits : (fuel n : ℕ) → Digits (digits fuel n)
unfolding digits
digits-Digits zero n = tt
digits-Digits (suc fuel) n = elim (Bool-cases (ltb n 10)) [
  | inl small ↦ rw (small, digits) (ground arith, ground arith, tt)
  | inr large ↦
      rw (large, digits)
        (Digits-snoc (digits fuel (n / 10)) (48 + n % 10) (digits-Digits fuel (n / 10))
          (omega arith) (omega arith))
]

read_digits-append :
    (acc : ℕ) (s rest : Str)
    → Digits s
    → read_digits acc (s ++ rest) ≡ read_digits (read_digits acc s) rest
unfolding read_digits is_digit
read_digits-append acc [] rest d = refl
read_digits-append acc (c ∷ s) rest d =
    ground (arith, read_digits-append (acc * 10 + (c - 48)) s rest d.2)

read_digits-digits : (fuel n : ℕ) → n < fuel → read_digits 0 (digits fuel n) ≡ n
unfolding digits
read_digits-digits zero n h = elim h [ ]
read_digits-digits (suc fuel) n h = elim (Bool-cases (ltb n 10)) [
  | inl small ↦ rw (small, digits) (unfold read_digits is_digit in (ground arith))
  | inr large ↦
      rw
        (
          large,
          digits,
          read_digits-append 0 (digits fuel (n / 10)) _ (digits-Digits fuel (n / 10)),
          read_digits-digits fuel (n / 10) (ground arith),
        )
        (unfold read_digits is_digit in (ground arith))
]

read_signed-Digits : (s : Str) → Digits s → read_signed (skip_spaces s) ≡ pos (read_digits 0 s)
unfolding read_signed skip_spaces is_space read_digits nat_eq
read_signed-Digits [] d = refl
read_signed-Digits (c ∷ s) d = ground arith

show_nat-Digits : (n : ℕ) → Digits (show_nat n)
unfolding show_nat
show_nat-Digits n = digits-Digits (suc n) n

read_digits-show_nat : (n : ℕ) → read_digits 0 (show_nat n) ≡ n
unfolding show_nat
read_digits-show_nat n = read_digits-digits (suc n) n (omega arith)

minus_sign : (s : Str) → read_signed (skip_spaces (b'-' ∷ s)) ≡ negate (read_digits 0 s)
unfolding read_signed skip_spaces is_space nat_eq
minus_sign s = ground arith

-- Reading back a printed integer gives the integer.
pub atoi-show_int : (z : ℤ) → atoi (show_int z) ≡ z
unfolding atoi show_int
atoi-show_int (pos n) =
    read_signed-Digits (show_nat n) (show_nat-Digits n) ∙ ap pos (read_digits-show_nat n)
atoi-show_int (negsuc n) =
    minus_sign (show_nat (suc n))
    ∙ ap negate (read_digits-show_nat (suc n))
    ∙ (unfold negate in refl)

Digits-contains : (c : ℕ) (s : Str) → c < 45 → Digits s → contains c s ≡ false
unfolding contains nat_eq
Digits-contains c [] h d = refl
Digits-contains c (x ∷ s) h d = ground (arith, Digits-contains c s h d.2)

-- No printed integer holds a control character, a space or a comma.
pub contains-show_int : (c : ℕ) (z : ℤ) → c < 45 → contains c (show_int z) ≡ false
unfolding show_int
contains-show_int c (pos n) h = Digits-contains c (show_nat n) h (show_nat-Digits n)
contains-show_int c (negsuc n) h =
    unfold contains nat_eq in
    (ground (arith, Digits-contains c (show_nat (suc n)) h (show_nat-Digits (suc n))))
