-- ===== src/Base/Int.antt =====
-- The C++ `int`, as an integer. Its range is a hypothesis where a theorem needs it.
use Prim.Native.Nat.{ℕ, suc, ◌-◌, ◌%◌}

-- `negsuc n` is -(n + 1).
pub data ℤ : Type 0 where
  pos : ℕ → ℤ
  negsuc : ℕ → ℤ

-- The conversion of an `int` to an unsigned type of the modulus `m`.
unfoldable pub to_unsigned : ℕ → ℤ → ℕ
to_unsigned m (pos n) = n % m
to_unsigned m (negsuc n) = m - suc (n % m)
