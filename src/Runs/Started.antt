-- ===== src/Runs/Started.antt =====
-- A strategy that is made (factory, src/ss_greynet.cpp) or that starts its reply (start_reply), and
-- the transfers.
use greynet.Base.{
  suc, Str, ◌≡◌, ◌≢◌, refl, sym, inl, inr, true, false, none, some, arith, nat_eq, str_eq, contains,
  Bool-cases,
}
use greynet.Base.Dict.{lookup, insert, lookup-insert}
use greynet.Platform.{State, Ss, Conn, Ref, Sink, Log}
use greynet.Registry.{insert_pair}
use greynet.Transfers.{sids_of}
use greynet.Runs.Linked.{Entry, Tracked, Linked, Exists}
use greynet.Runs.Entries.{Entry-contains}
use greynet.Runs.Register.{
  Entry-insert_pair, insert_pair-Entry, Ordered-insert_pair, Distinct-insert_pair,
}

-- A strategy `y` at `r`, registered.
abbrev pub registered : Ref → Ss → Log → State → State
registered r y log s = record s {
  strategies = insert r y s.strategies;
  sid2ss = insert y.sid r s.sid2ss;
  conn2sid = insert_pair y.conn y.sid s.conn2sid;
  log = log;
}

module _ (r : Ref) (x y : Ss) (aa : Sink) (log : Log) (s : State) (l : Linked s)
    (held : lookup r s.strategies ≡ some x) (conn : y.conn ≡ x.conn) (sid : y.sid ≡ x.sid)
    (playing : y.aa ≡ some aa) (timed : y.timer ≡ true) (there : Exists aa s.adaptors)
    (unknown : lookup x.sid s.sid2ss ≡ none) where
  not_listed : contains y.sid (sids_of s.conn2sid) ≡ false
  not_listed = elim (Bool-cases (contains y.sid (sids_of s.conn2sid))) [
    | inr f ↦ f
    | inl f ↦
        let (c, e) = Entry-contains y.sid s.conn2sid f in
        let k = (l.tracked c y.sid e).found in absurd (ground arith)
  ]

  registered-Entry_new : Tracked y.conn y.sid (registered r y log s)
  registered-Entry_new = record {
    address = r;
    object = y;
    sink = aa;
    found = ground (arith, lookup-insert y.sid y.sid r s.sid2ss);
    held = ground (arith, lookup-insert r r y s.strategies);
    playing = playing;
    exists = there;
    owner = refl;
    named = refl;
    timed = timed;
  }

  registered-Entry_old :
      (d : Conn) (t : Str) → Entry d t s.conn2sid → Tracked d t (registered r y log s)
  registered-Entry_old d t e =
      let k = l.tracked d t e in
      let f = k.found in
      let h = k.held in
      let m = k.named in
      let n : t ≢ y.sid = λ p. (ground arith) in
      let a : k.address ≢ r = λ p. (ground arith) in
      record {
        address = k.address;
        object = k.object;
        sink = k.sink;
        found = ground (arith, lookup-insert t y.sid r s.sid2ss);
        held = ground (arith, lookup-insert k.address r y s.strategies);
        playing = k.playing;
        exists = k.exists;
        owner = k.owner;
        named = k.named;
        timed = k.timed;
      }

  pub registered-Linked : Linked (registered r y log s)
  registered-Linked = record {
    ordered = Ordered-insert_pair y.conn y.sid s.conn2sid l.ordered;
    distinct = Distinct-insert_pair y.conn y.sid s.conn2sid not_listed l.distinct;
    tracked = λ d t e. elim (Entry-insert_pair y.conn d y.sid t s.conn2sid e) [
      | inl (p, q) ↦ rw (← p, ← q) registered-Entry_new
      | inr k ↦ registered-Entry_old d t k
    ];
    listed = λ t q h. elim (str_eq.dec t y.sid) [
      | yes p ↦ (y.conn, insert_pair-Entry y.conn y.conn y.sid t s.conn2sid (inl (refl, sym p)))
      | no n ↦
          let (d, e) = l.listed t q (ground (arith, lookup-insert t y.sid r s.sid2ss)) in
          (d, insert_pair-Entry y.conn d y.sid t s.conn2sid (inr e))
    ];
    fresh = λ q z h. elim (nat_eq.dec q r) [
      | yes p ↦ let k = l.fresh r x held in rw p k
      | no n ↦ l.fresh q z (ground (arith, lookup-insert q r y s.strategies))
    ];
  }

-- A new object at the next address.
abbrev pub allocated : Ss → State → State
allocated x s = record s {
  strategies = insert s.next_address x s.strategies;
  next_address = suc s.next_address;
}

pub allocated-Linked : (x : Ss) (s : State) → Linked s → Linked (allocated x s)
allocated-Linked x s l = record {
  ordered = l.ordered;
  distinct = l.distinct;
  tracked = λ d t e.
      let k = l.tracked d t e in
      let lt = l.fresh k.address k.object k.held in
      let h = k.held in
      let n : k.address ≢ s.next_address = λ p. omega arith in
      record {
        address = k.address;
        object = k.object;
        sink = k.sink;
        found = k.found;
        held = ground (arith, lookup-insert k.address s.next_address x s.strategies);
        playing = k.playing;
        exists = k.exists;
        owner = k.owner;
        named = k.named;
        timed = k.timed;
      };
  listed = l.listed;
  fresh = λ q z h. elim (nat_eq.dec q s.next_address) [
    | yes p ↦ omega arith
    | no n ↦
        let lt = l.fresh q z (ground (arith, lookup-insert q s.next_address x s.strategies)) in
        omega arith
  ];
}

-- An object of which there is no transfer is changed.
pub stored-Linked :
    (r : Ref) (x y : Ss) (s : State)
    → Linked s
    → lookup r s.strategies ≡ some x
    → lookup x.sid s.sid2ss ≡ none
    → Linked (record s { strategies = insert r y s.strategies })
stored-Linked r x y s l held unknown = record {
  ordered = l.ordered;
  distinct = l.distinct;
  tracked = λ d t e.
      let k = l.tracked d t e in
      let h = k.held in
      let f = k.found in
      let m = k.named in
      let n : k.address ≢ r = λ p. (ground arith) in
      record {
        address = k.address;
        object = k.object;
        sink = k.sink;
        found = k.found;
        held = ground (arith, lookup-insert k.address r y s.strategies);
        playing = k.playing;
        exists = k.exists;
        owner = k.owner;
        named = k.named;
        timed = k.timed;
      };
  listed = l.listed;
  fresh = λ q z h. elim (nat_eq.dec q r) [
    | yes p ↦ let k = l.fresh r x held in rw p k
    | no n ↦ l.fresh q z (ground (arith, lookup-insert q r y s.strategies))
  ];
}
