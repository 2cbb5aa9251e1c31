-- ===== src/Strategy/Url.antt =====
-- The url that handle_queryresult (src/greynet.cpp) makes of a peer's item, read back by
-- ss_greynet::factory (src/ss_greynet.cpp).
use greynet.Base.{
  ◌+◌, ◌-◌, Str, codes, ◌≡◌, false, some, [], ◌∷◌, ◌++◌, arith, length, length-append, take-append,
  drop-append, take-length, contains, find_char, index_of-append, substr, nat_eq,
}
use mathlib.Core.List.{append_assoc}
use greynet.Queries.{stream_url}
use greynet.Strategy.{parse_url}

find_char-stream_url :
    (name id : Str)
    → contains b';' name ≡ false
    → find_char b';' (stream_url name id) 10 ≡ some (10 + length name)
unfolding find_char stream_url
find_char-stream_url name id h = rw (index_of-append b';' name id h)

-- The url up to the `;`.
abbrev head_of : Str → Str
head_of name = codes "greynet://" ++ (name ++ (b';' ∷ []))

stream_url-head : (name id : Str) → stream_url name id ≡ head_of name ++ id
unfolding stream_url
stream_url-head name id = rw append_assoc (rw append_assoc)

length-head_of : (name : Str) → length (head_of name) ≡ 10 + length name + 1
length-head_of name = omega (arith, length-append name (b';' ∷ []))

name_part : (name id : Str) → substr (stream_url name id) 10 (10 + length name - 10) ≡ name
unfolding substr stream_url
name_part name id =
    let e : 10 + length name - 10 ≡ length name = omega arith in rw e (take-append name (b';' ∷ id))

id_part :
    (name id : Str)
    → substr
        (stream_url name id)
        (10 + length name + 1)
        (length (stream_url name id) - (10 + length name + 1))
      ≡ id
unfolding substr
id_part name id =
    let e : length (head_of name ++ id) - length (head_of name) ≡ length id =
      omega (arith, length-append (head_of name) id) in
    rw (stream_url-head, ← length-head_of name, e, drop-append) (take-length id)

-- For a peer's name without a `;`, the url of its item gives back the name and the item's id.
pub parse_url-stream_url :
    (name id : Str) → contains b';' name ≡ false → parse_url (stream_url name id) ≡ some (name, id)
unfolding parse_url
parse_url-stream_url name id h =
    rw (find_char-stream_url name id h, parse_url)
      (ground (arith, name_part name id, id_part name id))
