-- ===== src/Base/Decimal.antt =====
-- The printed form of an `int` (`os << n`), and C's `atoi`.
pub mod RoundTrip
use Prim.Native.Nat.{ℕ, zero, suc, ◌+◌, ◌-◌, ◌*◌, ◌/◌, ◌%◌}
use mathlib.Core.Bool.{Bool, true, false, ◌&&◌, ◌||◌}
use mathlib.Core.List.{List, [], ◌∷◌, ◌++◌}
use greynet.Base.Tests.{Str, ltb, leb, ◌==◌, nat_eq, if◌then◌else◌}
use greynet.Base.Int.{ℤ, pos, negsuc}

-- Fuel above `n` is enough: each round divides by ten.
digits : ℕ → ℕ → Str
digits zero n = []
digits (suc fuel) n = elim (ltb n 10) [
  | true ↦ (48 + n) ∷ []
  | false ↦ digits fuel (n / 10) ++ (48 + n % 10) ∷ []
]

unfoldable pub show_nat : ℕ → Str
unfolding digits
show_nat n = digits (suc n) n

-- `os << n`
unfoldable pub show_int : ℤ → Str
unfolding show_nat
show_int (pos n) = show_nat n
show_int (negsuc n) = b'-' ∷ show_nat (suc n)

is_digit : ℕ → Bool
is_digit c = leb 48 c && leb c 57

is_space : ℕ → Bool
unfolding nat_eq
is_space c = c == 32 || leb 9 c && leb c 13

skip_spaces : Str → Str
skip_spaces [] = []
skip_spaces (c ∷ cs) = let rest = skip_spaces cs in if is_space c then rest else c ∷ cs

read_digits : ℕ → Str → ℕ
read_digits acc [] = acc
read_digits acc (c ∷ cs) =
    let more = read_digits (acc * 10 + (c - 48)) cs in if is_digit c then more else acc

negate : ℕ → ℤ
negate zero = pos 0
negate (suc n) = negsuc n

read_signed : Str → ℤ
read_signed [] = pos 0
read_signed (c ∷ cs) =
    if c == b'-'
    then negate (read_digits 0 cs)
    else if c == b'+'
    then pos (read_digits 0 cs)
    else pos (read_digits 0 (c ∷ cs))

-- Leading space, a sign, then digits up to the first other character. Beyond the range of `int` C
-- leaves the result undefined; here it is the number that was written.
unfoldable pub atoi : Str → ℤ
unfolding skip_spaces read_signed read_digits negate is_space is_digit
atoi s = read_signed (skip_spaces s)
