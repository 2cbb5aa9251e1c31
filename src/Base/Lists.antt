-- ===== src/Base/Lists.antt =====
-- Lists measured and indexed by native numbers, and searches in byte strings.
use Prim.Native.Nat.{ℕ, zero, suc, ◌+◌}
use mathlib.Core.Path.{◌≡◌, refl, ap}
use mathlib.Core.Bool.{Bool, true, false, ◌&&◌, ◌||◌}
use mathlib.Core.Option.{Option, none, some}
use mathlib.Core.Option
use mathlib.Core.List.{List, [], ◌∷◌, ◌++◌}
use native.Mathlib.Omega.{arith}
use greynet.Base.Tests.{Str, Eq, ◌==◌, nat_eq, if◌then◌else◌}

module _ {ℓ} {A : Type ℓ} where
  abbrev pub length : List A → ℕ
  length [] = 0
  length (x ∷ xs) = suc (length xs)

  abbrev pub take : ℕ → List A → List A
  take zero xs = []
  take (suc n) [] = []
  take (suc n) (x ∷ xs) = x ∷ take n xs

  abbrev pub drop : ℕ → List A → List A
  drop zero xs = xs
  drop (suc n) [] = []
  drop (suc n) (x ∷ xs) = drop n xs

  pub length-append : (xs ys : List A) → length (xs ++ ys) ≡ length xs + length ys
  length-append [] ys = omega arith
  length-append (x ∷ xs) ys = omega (arith, length-append xs ys)

module _ {ℓ} {A : Type ℓ} where
  pub take-append : (xs ys : List A) → take (length xs) (xs ++ ys) ≡ xs
  take-append [] ys = refl
  take-append (x ∷ xs) ys = ap (◌∷◌ x) (take-append xs ys)

  pub drop-append : (xs ys : List A) → drop (length xs) (xs ++ ys) ≡ ys
  drop-append [] ys = refl
  drop-append (x ∷ xs) ys = drop-append xs ys

  pub take-length : (xs : List A) → take (length xs) xs ≡ xs
  take-length [] = refl
  take-length (x ∷ xs) = ap (◌∷◌ x) (take-length xs)

module _ {ℓ} {A : Type ℓ} ⦃e : Eq A⦄ where
  -- `count(x)` of a `std::set`, kept as a list
  unfoldable pub contains : A → List A → Bool
  contains a [] = false
  contains a (x ∷ xs) = a == x || contains a xs

-- `npos` is `none`.
unfoldable pub index_of : ℕ → Str → Option ℕ
index_of c [] = none
index_of c (x ∷ xs) = if x == c then some 0 else Option.map (λ (i : ℕ). suc i) (index_of c xs)

-- `s.find(c, from)`
unfoldable pub find_char : ℕ → Str → ℕ → Option ℕ
unfolding index_of
find_char c s from = Option.map (λ (i : ℕ). from + i) (index_of c (drop from s))

-- `s.substr(pos, len)`, for a `pos` within the string
unfoldable pub substr : Str → ℕ → ℕ → Str
substr s pos len = take len (drop pos s)

is_prefix : Str → Str → Bool
is_prefix [] s = true
is_prefix (c ∷ cs) [] = false
is_prefix (c ∷ cs) (x ∷ xs) = c == x && is_prefix cs xs

-- `s.find(needle) != npos`
unfoldable pub occurs : Str → Str → Bool
unfolding is_prefix
occurs needle [] = is_prefix needle []
occurs needle (x ∷ xs) = is_prefix needle (x ∷ xs) || occurs needle xs

pub index_of-append :
    (c : ℕ) (xs ys : Str) → contains c xs ≡ false → index_of c (xs ++ c ∷ ys) ≡ some (length xs)
unfolding index_of contains
index_of-append c [] ys h = ground arith
index_of-append c (x ∷ xs) ys h = ground (arith, index_of-append c xs ys)

pub contains-append :
    (c : ℕ) (xs ys : Str) → contains c (xs ++ ys) ≡ (contains c xs || contains c ys)
unfolding contains
contains-append c [] ys = refl
contains-append c (x ∷ xs) ys = ground (arith, contains-append c xs ys)
