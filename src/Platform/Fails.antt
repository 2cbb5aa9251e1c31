-- ===== src/Platform/Fails.antt =====
-- How a handler can fail to return, with a rule for each construct.
use greynet.Base.{◌≡◌, refl, Option, some, Bool, true, false, if◌then◌else◌}
use greynet.Platform.{Result, ok, fault, Fault, or_fault, ◌>>=◌}
use greynet.Platform.Frame.{Ensures}

-- Every fault that the result can be is as the predicate says.
pub record Fails {ℓ} {A : Type ℓ} (P : Fault → Type 0) (r : Result A) : Type ℓ where
  pub at : (f : Fault) → r ≡ fault f → P f

module _ {ℓ} {A : Type ℓ} {P : Fault → Type 0} where
  pub Fails-ok : (a : A) → Fails P (ok a)
  Fails-ok a = record { at = λ f e. absurd (cc) }

  pub Fails-if : (b : Bool) (r q : Result A) → Fails P r → Fails P q → Fails P (if b then r else q)
  Fails-if true r q h k = h
  Fails-if false r q h k = k

module _ {ℓ κ} {A : Type ℓ} {B : Type κ} {P : Fault → Type 0} where
  pub Fails-bind :
      {Q : A → Type 0} (r : Result A) (f : A → Result B)
      → Ensures Q r
      → Fails P r
      → ((a : A) → Q a → Fails P (f a))
      → Fails P (r >>= f)
  Fails-bind (ok a) f q h k = k a (q.at a refl)
  Fails-bind (fault e) f q h k =
      let p = h.at e refl in record { at = λ g h. let c : e ≡ g = cc in rw (← c) p }

  pub Fails-or_fault :
      (o : Option A) (e : Fault) (f : A → Result B) (a : A)
      → o ≡ some a
      → Fails P (f a)
      → Fails P (or_fault o e >>= f)
  Fails-or_fault o e f a h k = rw h k
