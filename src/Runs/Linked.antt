-- ===== src/Runs/Linked.antt =====
-- The registered transfers (`m_conn2sid`, `m_sid2ss` of src/greynet.h) and the objects behind them.
use greynet.Base.{ℕ, ◌≤◌, ◌<◌, Str, ◌≡◌, refl, ◌∙◌, ◌⊎◌, true, some, [], ◌∷◌, arith, nat_eq, str_eq}
use native.Mathlib.Nat.{le_trans}
use greynet.Base.Dict.{Dict, lookup, insert, lookup-insert}
use greynet.Platform.{State, Ss, Adaptor, Conn, Ref, Sink, http, relay}
use greynet.Registry.{Transfers}
use greynet.Registry.Order.{Ordered}
use greynet.Transfers.{sids_of}
use greynet.Transfers.Terminated.{Distinct}

-- An entry of the multimap.
abbrev pub Entry : Conn → Str → Transfers → Type 0
Entry c sid [] = ⊥
Entry c sid ((d, t) ∷ m) = ((d ≡ c) × (t ≡ sid)) ⊎ Entry c sid m

-- What an adaptor pointer points to is there.
abbrev pub Exists : Sink → Dict ℕ Adaptor → Type 0
Exists (http j) adaptors = Unit {0}
Exists (relay i) adaptors = (a : Adaptor) × (lookup i adaptors ≡ some a)

-- An entry with a strategy that is its own, plays into an adaptor, and has a timer.
pub record Tracked (c : Conn) (sid : Str) (s : State) : Type 0 where
  pub address : Ref
  pub object : Ss
  pub sink : Sink
  pub found : lookup sid s.sid2ss ≡ some address
  pub held : lookup address s.strategies ≡ some object
  pub playing : object.aa ≡ some sink
  pub exists : Exists sink s.adaptors
  pub owner : object.conn ≡ c
  pub named : object.sid ≡ sid
  pub timed : object.timer ≡ true

-- The multimap is ordered and has no sid twice; its entries and those of the map are the same; each
-- has its strategy; and addresses are handed out once.
pub record Linked (s : State) : Type 0 where
  pub ordered : Ordered s.conn2sid
  pub distinct : Distinct (sids_of s.conn2sid)
  pub tracked : (c : Conn) (sid : Str) → Entry c sid s.conn2sid → Tracked c sid s
  pub listed :
      (sid : Str) (r : Ref) → lookup sid s.sid2ss ≡ some r → (c : Conn) × Entry c sid s.conn2sid
  pub fresh : (r : Ref) (x : Ss) → lookup r s.strategies ≡ some x → r < s.next_address

-- The second state has the first's transfers, and its objects with at most other counts.
pub record Updates (s t : State) : Type 0 where
  pub conn2sid : t.conn2sid ≡ s.conn2sid
  pub sid2ss : t.sid2ss ≡ s.sid2ss
  pub next_address : s.next_address ≤ t.next_address
  pub objects :
      (r : Ref) (x : Ss)
      → lookup r s.strategies ≡ some x
      → (y : Ss) × (lookup r t.strategies ≡ some y)
        × (y.conn ≡ x.conn)
        × (y.sid ≡ x.sid)
        × (y.aa ≡ x.aa)
        × (y.timer ≡ x.timer)
  pub known :
      (r : Ref) (y : Ss)
      → lookup r t.strategies ≡ some y
      → (x : Ss) × (lookup r s.strategies ≡ some x)
  pub sinks :
      (i : ℕ) (a : Adaptor)
      → lookup i s.adaptors ≡ some a
      → (b : Adaptor) × (lookup i t.adaptors ≡ some b)

pub Updates-refl : (s : State) → Updates s s
Updates-refl s = record {
  conn2sid = refl;
  sid2ss = refl;
  next_address = omega arith;
  objects = λ r x h. (x, h, refl, refl, refl, refl);
  known = λ r y h. (y, h);
  sinks = λ i a h. (a, h);
}

pub Updates-trans : {s t u : State} → Updates s t → Updates t u → Updates s u
Updates-trans k l = record {
  conn2sid = l.conn2sid ∙ k.conn2sid;
  sid2ss = l.sid2ss ∙ k.sid2ss;
  next_address = le_trans (k.next_address) (l.next_address);
  objects = λ r x h.
      let (y, e, c, d, a, b) = k.objects r x h in
      let (z, f, c', d', a', b') = l.objects r y e in (z, f, c' ∙ c, d' ∙ d, a' ∙ a, b' ∙ b);
  known = λ r z h. let (y, e) = l.known r z h in k.known r y e;
  sinks = λ i a h. let (b, e) = k.sinks i a h in l.sinks i b e;
}

-- A state with other calls, and whatever else the transfers do not stand on.
pub Updates-of :
    (s t : State)
    → t.conn2sid ≡ s.conn2sid
    → t.sid2ss ≡ s.sid2ss
    → t.next_address ≡ s.next_address
    → t.strategies ≡ s.strategies
    → t.adaptors ≡ s.adaptors
    → Updates s t
Updates-of s t c m n o a = record {
  conn2sid = c;
  sid2ss = m;
  next_address = omega arith;
  objects = λ r x h. (x, rw o h, refl, refl, refl, refl);
  known = λ r y h. (y, rw o at h);
  sinks = λ i b h. (b, rw a h);
}

pub Updates-strategy :
    (r : Ref) (x y : Ss) (s : State)
    → lookup r s.strategies ≡ some x
    → y.conn ≡ x.conn
    → y.sid ≡ x.sid
    → y.aa ≡ x.aa
    → y.timer ≡ x.timer
    → Updates s (record s { strategies = insert r y s.strategies })
Updates-strategy r x y s h c d a b = record {
  conn2sid = refl;
  sid2ss = refl;
  next_address = omega arith;
  objects = λ q z k. elim (nat_eq.dec q r) [
    | yes p ↦ (
      y,
      ground (arith, lookup-insert q r y s.strategies),
      ground arith,
      ground arith,
      ground arith,
      ground arith,
    )
    | no n ↦ (z, ground (arith, lookup-insert q r y s.strategies), refl, refl, refl, refl)
  ];
  known = λ q z k. elim (nat_eq.dec q r) [
    | yes p ↦ (x, ground arith)
    | no n ↦ (z, ground (arith, lookup-insert q r y s.strategies))
  ];
  sinks = λ i b k. (b, k);
}

pub Updates-adaptor :
    (i : ℕ) (a : Adaptor) (s : State) → Updates s (record s { adaptors = insert i a s.adaptors })
Updates-adaptor i a s = record {
  conn2sid = refl;
  sid2ss = refl;
  next_address = omega arith;
  objects = λ r x h. (x, h, refl, refl, refl, refl);
  known = λ r y h. (y, h);
  sinks = λ j b h. elim (nat_eq.dec j i) [
    | yes p ↦ (a, ground (arith, lookup-insert j i a s.adaptors))
    | no n ↦ (b, ground (arith, lookup-insert j i a s.adaptors))
  ];
}

pub Exists-Updates :
    (aa : Sink) (s t : State) → Updates s t → Exists aa s.adaptors → Exists aa t.adaptors
Exists-Updates (http j) s t u e = tt
Exists-Updates (relay i) s t u (a, h) = u.sinks i a h

pub Tracked-Updates :
    (c : Conn) (sid : Str) (s t : State) → Updates s t → Tracked c sid s → Tracked c sid t
Tracked-Updates c sid s t u k =
    let (y, h, a, b, e, d) = u.objects k.address k.object k.held in
    record {
      address = k.address;
      object = y;
      sink = k.sink;
      found = rw (u.sid2ss) (k.found);
      held = h;
      playing = e ∙ k.playing;
      exists = Exists-Updates k.sink s t u k.exists;
      owner = a ∙ k.owner;
      named = b ∙ k.named;
      timed = d ∙ k.timed;
    }

pub Linked-Updates : (s t : State) → Updates s t → Linked s → Linked t
Linked-Updates s t u l = record {
  ordered = rw (u.conn2sid) (l.ordered);
  distinct = rw (u.conn2sid) (l.distinct);
  tracked = λ c sid e. Tracked-Updates c sid s t u (l.tracked c sid (rw (u.conn2sid) at e));
  listed = λ sid r h. rw (u.conn2sid) (l.listed sid r (rw (u.sid2ss) at h));
  fresh = λ r y h.
      let (x, k) = u.known r y h in
      let lt = l.fresh r x k in let le = u.next_address in omega arith;
}
