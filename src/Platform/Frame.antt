-- ===== src/Platform/Frame.antt =====
-- What a handler leaves alone and what holds of its result, with a rule for each construct.
use greynet.Base.{
  ◌≡◌, refl, sym, ◌∙◌, ap, subst, Option, none, some, Bool, true, false, if◌then◌else◌, List, [],
  ◌∷◌, ◌++◌,
}
use mathlib.Core.List.{append_assoc}
use greynet.Messages.{Message}
use greynet.Platform.{State, Call, Log, Result, ok, fault, Fault, or_fault, ◌>>=◌}

-- The second log is the first with later calls.
abbrev pub Extends : Log → Log → Type 0
Extends old new = (calls : List Call) × (new ≡ calls ++ old)

pub Extends-refl : (log : Log) → Extends log log
Extends-refl log = ([], refl)

pub Extends-trans : {a b c : Log} → Extends a b → Extends b c → Extends a c
Extends-trans {a} (xs, p) (ys, q) = (ys ++ xs, q ∙ ap (◌++◌ ys) p ∙ sym (append_assoc ys xs a))

pub Extends-cons : {a b : Log} (c : Call) → Extends a b → Extends a (c ∷ b)
Extends-cons c (xs, p) = (c ∷ xs, ap (◌∷◌ c) p)

-- The messages that a timer was started for, to forward them, the newest first.
abbrev pub forwards : Log → List Message
forwards [] = []
forwards (Call.fwd_timer conn msg qid ms ∷ log) = msg ∷ forwards log
forwards (_ ∷ log) = forwards log

-- The members that only the handshake and the queries write, and the timers of queries.
pub record Kept (s t : State) : Type 0 where
  pub jbot_jid : t.jbot_jid ≡ s.jbot_jid
  pub peer_cookies : t.peer_cookies ≡ s.peer_cookies
  pub qidorigins : t.qidorigins ≡ s.qidorigins
  pub seen_guids : t.seen_guids ≡ s.seen_guids
  pub log : Extends s.log t.log
  pub timers : forwards t.log ≡ forwards s.log

pub Kept-refl : (s : State) → Kept s s
Kept-refl s = record {
  jbot_jid = refl;
  peer_cookies = refl;
  qidorigins = refl;
  seen_guids = refl;
  log = Extends-refl s.log;
  timers = refl;
}

pub Kept-trans : {s t u : State} → Kept s t → Kept t u → Kept s u
Kept-trans k l = record {
  jbot_jid = l.jbot_jid ∙ k.jbot_jid;
  peer_cookies = l.peer_cookies ∙ k.peer_cookies;
  qidorigins = l.qidorigins ∙ k.qidorigins;
  seen_guids = l.seen_guids ∙ k.seen_guids;
  log = Extends-trans k.log l.log;
  timers = l.timers ∙ k.timers;
}

-- A handler's result, if it returns. `part` finds the state in what it returns.
pub record Keeps {ℓ} {A : Type ℓ} (part : A → State) (s : State) (r : Result A) : Type ℓ where
  pub at : (a : A) → r ≡ ok a → Kept s (part a)

abbrev pub whole : State → State
whole s = s

ok_injective {ℓ} : {A : Type ℓ} (a b : A) → ok a ≡ ok b → a ≡ b
ok_injective a b e = cc

module _ {ℓ} {A : Type ℓ} {part : A → State} where
  pub Keeps-ok : (s : State) (a : A) → Kept s (part a) → Keeps part s (ok a)
  Keeps-ok s a k = record { at = λ b e. subst (λ x. Kept s (part x)) (ok_injective a b e) k }

  pub Keeps-fault : (s : State) (f : Fault) → Keeps part s (fault f)
  Keeps-fault s f = record { at = λ b e. cc }

  pub Keeps-from : {s t : State} (r : Result A) → Kept s t → Keeps part t r → Keeps part s r
  Keeps-from r k l = record { at = λ a e. Kept-trans k (l.at a e) }

  pub Keeps-if :
      (s : State) (b : Bool) (r q : Result A)
      → (b ≡ true → Keeps part s r)
      → (b ≡ false → Keeps part s q)
      → Keeps part s (if b then r else q)
  Keeps-if s true r q h k = h refl
  Keeps-if s false r q h k = k refl

module _ {ℓ κ} {A : Type ℓ} {B : Type κ} {part : B → State} where
  -- To go on past a pointer or a parsed value.
  pub Keeps-or_fault :
      (s : State) (o : Option A) (e : Fault) (f : A → Result B)
      → ((a : A) → o ≡ some a → Keeps part s (f a))
      → Keeps part s (or_fault o e >>= f)
  Keeps-or_fault s none e f h = Keeps-fault s e
  Keeps-or_fault s (some a) e f h = h a refl

  pub Keeps-bind :
      {first : A → State} (s : State) (r : Result A) (f : A → Result B)
      → Keeps first s r
      → ((a : A) → Keeps part (first a) (f a))
      → Keeps part s (r >>= f)
  Keeps-bind s (ok a) f k h = Keeps-from (f a) (k.at a refl) (h a)
  Keeps-bind s (fault e) f k h = Keeps-fault s e

-- A state that differs from another only in other members and by some calls.
pub Kept-of :
    (calls : List Call) (s t : State)
    → t.jbot_jid ≡ s.jbot_jid
    → t.peer_cookies ≡ s.peer_cookies
    → t.qidorigins ≡ s.qidorigins
    → t.seen_guids ≡ s.seen_guids
    → t.log ≡ calls ++ s.log
    → forwards t.log ≡ forwards s.log
    → Kept s t
Kept-of calls s t a b c d e f = record {
  jbot_jid = a;
  peer_cookies = b;
  qidorigins = c;
  seen_guids = d;
  log = (calls, e);
  timers = f;
}

-- A property of what a handler returns.
pub record Ensures {ℓ} {A : Type ℓ} (P : A → Type 0) (r : Result A) : Type ℓ where
  pub at : (a : A) → r ≡ ok a → P a

module _ {ℓ} {A : Type ℓ} {P : A → Type 0} where
  pub Ensures-ok : (a : A) → P a → Ensures P (ok a)
  Ensures-ok a p = record { at = λ b e. subst P (ok_injective a b e) p }

  pub Ensures-fault : (f : Fault) → Ensures P (fault f)
  Ensures-fault f = record { at = λ b e. cc }

  pub Ensures-if :
      (b : Bool) (r q : Result A) → Ensures P r → Ensures P q → Ensures P (if b then r else q)
  Ensures-if true r q h k = h
  Ensures-if false r q h k = k

  pub Ensures-split :
      (b : Bool) (r q : Result A)
      → (b ≡ true → Ensures P r)
      → (b ≡ false → Ensures P q)
      → Ensures P (if b then r else q)
  Ensures-split true r q h k = h refl
  Ensures-split false r q h k = k refl

module _ {ℓ κ} {A : Type ℓ} {B : Type κ} {P : B → Type 0} where
  pub Ensures-or_fault :
      (o : Option A) (e : Fault) (f : A → Result B)
      → ((a : A) → o ≡ some a → Ensures P (f a))
      → Ensures P (or_fault o e >>= f)
  Ensures-or_fault none e f h = Ensures-fault e
  Ensures-or_fault (some a) e f h = h a refl

  pub Ensures-bind :
      {Q : A → Type 0} (r : Result A) (f : A → Result B)
      → Ensures Q r
      → ((a : A) → Q a → Ensures P (f a))
      → Ensures P (r >>= f)
  Ensures-bind (ok a) f k h = h a (k.at a refl)
  Ensures-bind (fault e) f k h = Ensures-fault e

pub Ensures-weaken {ℓ} :
    {A : Type ℓ} {P Q : A → Type 0} (r : Result A)
    → ((a : A) → Q a → P a)
    → Ensures Q r
    → Ensures P r
Ensures-weaken r h k = record { at = λ a e. h a (k.at a e) }
