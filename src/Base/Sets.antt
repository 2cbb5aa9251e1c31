-- ===== src/Base/Sets.antt =====
-- `std::set<std::string>`, as the list of its elements in order.
use mathlib.Core.Path.{◌≡◌, refl}
use mathlib.Core.Bool.{Bool, true, false, not, ◌&&◌, ◌||◌}
use mathlib.Core.List.{List, [], ◌∷◌}
use native.Mathlib.Omega.{arith}
use greynet.Base.Tests.{Str, ltb, ◌==◌, nat_eq, str_eq, if◌then◌else◌}
use greynet.Base.Lists.{contains}

-- `<` of strings.
unfoldable pub str_ltb : Str → Str → Bool
unfolding nat_eq
str_ltb [] [] = false
str_ltb [] (y ∷ ys) = true
str_ltb (x ∷ xs) [] = false
str_ltb (x ∷ xs) (y ∷ ys) = ltb x y || x == y && str_ltb xs ys

unfoldable pub set_insert : Str → List Str → List Str
unfolding str_ltb str_eq
set_insert a [] = a ∷ []
set_insert a (x ∷ xs) =
    if a == x then x ∷ xs else if str_ltb a x then a ∷ x ∷ xs else x ∷ set_insert a xs

unfoldable pub set_erase : Str → List Str → List Str
unfolding str_eq
set_erase a [] = []
set_erase a (x ∷ xs) = let rest = set_erase a xs in if a == x then rest else x ∷ rest

pub contains-set_insert :
    (b a : Str) (xs : List Str) → contains b (set_insert a xs) ≡ (b == a || contains b xs)
unfolding contains set_insert
contains-set_insert b a [] = refl
contains-set_insert b a (x ∷ xs) = ground (arith, contains-set_insert b a xs)

pub contains-set_erase :
    (b a : Str) (xs : List Str) → contains b (set_erase a xs) ≡ (not (b == a) && contains b xs)
unfolding contains set_erase
contains-set_erase b a [] = ground arith
contains-set_erase b a (x ∷ xs) = ground (arith, contains-set_erase b a xs)
