-- ===== src/Tests/Libraries.antt =====
-- Libraries that behave as documented, small enough to run.
use greynet.Base.{
  ℕ, Str, codes, ◌≡◌, refl, Bool, true, false, ◌&&◌, ◌||◌, Option, none, some, List, [], ◌∷◌, ◌++◌,
  arith, ◌==◌, nat_eq, str_eq, if◌then◌else◌, length, contains, ==_refl,
}
use greynet.Json.{Value, str, obj, end, member_of}
use greynet.Platform.{Env, Call, Log, Conn}
use greynet.Handshake.{advertisement, ident_object}
use greynet.Stream.Headers.{IsSplit}
use greynet.Stream.Data.{IsGeneral}
use greynet.Dispatch.Origins.{RemembersQueries}
use greynet.Queries.Stop.{RemembersStops}

push_head : ℕ → List Str → List Str
push_head x [] = (x ∷ []) ∷ []
push_head x (f ∷ fs) = (x ∷ f) ∷ fs

pub split : ℕ → Str → List Str
split c [] = [] ∷ []
split c (x ∷ xs) = let rest = split c xs in if c == x then [] ∷ rest else push_head x rest

split-last : (c : ℕ) (a : Str) → contains c a ≡ false → split c a ≡ a ∷ []
unfolding split push_head contains
split-last c [] h = refl
split-last c (x ∷ a) h = ground (arith, split-last c a)

split-next : (c : ℕ) (a b : Str) → contains c a ≡ false → split c (a ++ c ∷ b) ≡ a ∷ split c b
unfolding split push_head contains
split-next c [] b h = ground arith
split-next c (x ∷ a) b h = ground (arith, split-next c a b)

pub split-IsSplit : IsSplit split
split-IsSplit = record { last = split-last; next = split-next }

abbrev pub query_id : ℕ → Str
query_id rq = rq ∷ []

abbrev dispatched_query : Call → Option ℕ
dispatched_query (Call.dispatch rq) = some rq
dispatched_query _ = none

abbrev stopped_query : Call → Option Str
stopped_query (Call.stop_query qid) = some qid
stopped_query _ = none

unfoldable pub was_dispatched : Log → Str → Bool
was_dispatched [] qid = false
was_dispatched (c ∷ log) qid = elim (dispatched_query c) [
  | none ↦ was_dispatched log qid
  | some rq ↦ query_id rq == qid || was_dispatched log qid
]

unfoldable pub was_stopped : Log → Str → Bool
was_stopped [] qid = false
was_stopped (c ∷ log) qid = elim (stopped_query c) [
  | none ↦ was_stopped log qid
  | some q ↦ q == qid || was_stopped log qid
]

-- The property that was set last.
unfoldable pub prop_of : Log → Conn → Str → Str
prop_of [] c k = codes "uuid"
prop_of (Call.set_prop d j v ∷ log) c k =
    let rest = prop_of log c k in if d == c && j == k then v else rest
prop_of (_ ∷ log) c k = prop_of log c k

-- The texts of an advertisement and of IDENTs, and what they read as.
unfoldable pub read_text : Str → Option Value
read_text text =
    if text == codes "advert"
    then some (obj (advertisement (codes "1.2.3.4") 60211 (codes "uuid")))
    else if text == codes "ident"
    then some (obj (ident_object (codes "bob") (codes "uuid")))
    else if text == codes "other"
    then some (obj (ident_object (codes "eve") (codes "uuid")))
    else if text == codes "number"
    then some (str [])
    else none

abbrev pub libraries : Env
libraries = record {
  general_message = λ t p g. record {
    header = record { guid = g; type = t; ttl = 1; hops = 0; length_field = length p };
    payload = p;
  };
  msg_type = λ m. m.header.type;
  msg_guid = λ m. m.header.guid;
  msg_payload = λ m. m.payload;
  conn_ready = λ log c. true;
  conn_get = prop_of;
  conn_name = λ log c. codes "bob";
  conn_alive = λ log c. true;
  connection_by_name = λ log name. none;
  parse_ipv4 = λ text. some 7;
  connected_names = λ log. codes "eve" ∷ codes "bob" ∷ [];
  parse_port = λ text. some 60211;
  token_valid = λ log token. true;
  read = read_text;
  write = λ o. codes "ident";
  write_formatted = λ o. codes "advert";
  write_array = λ a. codes "array";
  find = member_of;
  split = split;
  uuid = λ log. codes "uuid";
  query_from_json = λ o. some 5;
  query_id = query_id;
  query_json = λ rq. end;
  query_exists = was_dispatched;
  dispatched = λ log rq. query_id rq;
  solved = λ log qid. false;
  stopped = was_stopped;
  item_from_json = λ o. some 3;
  item_id = λ i. codes "sid";
  item_json = λ i. end;
  item_set_url = λ i url. i;
  item_rm_json_value = λ i key. i;
  get_ss = λ log sid. none;
}

pub libraries-IsGeneral : IsGeneral libraries
libraries-IsGeneral = record {
  types = λ t p g h. refl;
  payloads = λ t p g h. refl;
  guids = λ t p g h. refl;
}

pub libraries-RemembersQueries : RemembersQueries libraries
unfolding was_dispatched
libraries-RemembersQueries = record {
  returns = λ rq log. refl;
  learns = λ rq log. rw (==_refl (query_id rq));
  keeps = λ c log qid h. ground arith;
}

pub libraries-RemembersStops : RemembersStops libraries
unfolding was_stopped
libraries-RemembersStops = record {
  stops = λ qid log. rw (==_refl qid);
  stays = λ c log qid h. ground arith;
}

pub prop_of-set_prop :
    (log : Log) (c : Conn) (k v : Str) → prop_of (Call.set_prop c k v ∷ log) c k ≡ v
unfolding prop_of
prop_of-set_prop log c k v = ground arith
