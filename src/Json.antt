-- ===== src/Json.antt =====
-- The values that src/greynet.cpp, src/jbot.cpp and src/greynet_messages.hpp exchange with the
-- JSON library: what they push into objects, and the tests and accessors that they call on a value.
use greynet.Base.{Str, Option, none, some, Bool, ◌==◌, str_eq, if◌then◌else◌}
use greynet.Base.Int.{ℤ}

mutual
  pub data Value : Type 0 where
    obj : Members → Value
    arr : Values → Value
    str : Str → Value
    int : ℤ → Value
    bool : Bool → Value
    -- a real number or null, which the code never makes
    other : Value

  pub data Members : Type 0 where
    end : Members
    member : Str → Value → Members → Members

  pub data Values : Type 0 where
    nil : Values
    cons : Value → Values → Values

-- `get_obj()`, `get_str()` and `get_int()` throw on a value of another type: `none`.
unfoldable pub get_obj : Value → Option Members
get_obj (obj o) = some o
get_obj _ = none

unfoldable pub get_str : Value → Option Str
get_str (str s) = some s
get_str _ = none

unfoldable pub get_int : Value → Option ℤ
get_int (int n) = some n
get_int _ = none

-- `os.push_back(Pair(key, value))`
unfoldable pub push_back : Members → Str → Value → Members
push_back end key value = member key value end
push_back (member k v rest) key value = member k v (push_back rest key value)

-- What an object has under a key, once its pairs are put into a map in their order.
unfoldable pub member_of : Members → Str → Option Value
unfolding str_eq
member_of end key = none
member_of (member k v rest) key = elim (member_of rest key) [
  | some w ↦ some w
  | none ↦ if k == key then some v else none
]
