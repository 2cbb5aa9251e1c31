-- ===== src/Web/Json.antt =====
-- The roster over HTTP (src/greynet.cpp, authed_http_handler).
use greynet.Base.{
  Str, codes, ◌≡◌, ◌≢◌, refl, ◌⊎◌, inl, inr, Bool-cases, Bool, true, false, none, some, List, map,
  str_eq,
}
use greynet.Json.{arr, Values}
use greynet.Platform.{Env, ok, fault, null_pointer, dangling_pointer}
use greynet.Jbot.{Gloox}
use greynet.Jbot.Roster.{Contact, get_roster}
use greynet.Jbot.Roster.Reads.{Replaces, see_roster, actual, mutual_contacts, see_roster-get_roster}
use greynet.Jbot.Client.{Client, live, unset, deleted, Session, dereference}
use greynet.Jbot
use greynet.Web.{Request, asks_roster, jsonp, authed_http_handler}

Client-cases : (c : Client) → (c ≡ live) ⊎ ((c ≢ live) × ((c ≡ unset) ⊎ (c ≡ deleted)))
Client-cases live = inl refl
Client-cases unset = inr (λ e. cc, inl refl)
Client-cases deleted = inr (λ e. cc, inr refl)

module _ (env : Env) (g : Gloox) (connected : Str → Bool) (roster : List Contact) where
  handler-live :
      (b : Session) (req : Request)
      → asks_roster req.parts ≡ true
      → req.getvar (codes "jsonp") ≡ none
      → b.client ≡ live
      → authed_http_handler env g connected roster (some b) req
        ≡ ok (some (env.write_array (get_roster g connected b.bot roster)))
  unfolding authed_http_handler jsonp Jbot.Client.get_roster dereference
  handler-live b req asks plain e = rw (asks, plain, e)

  handler-dangling :
      (b : Session) (req : Request)
      → asks_roster req.parts ≡ true
      → (b.client ≡ unset) ⊎ (b.client ≡ deleted)
      → authed_http_handler env g connected roster (some b) req ≡ fault dangling_pointer
  unfolding authed_http_handler Jbot.Client.get_roster dereference
  handler-dangling b req asks (inl e) = rw (asks, e)
  handler-dangling b req asks (inr e) = rw (asks, e)

  -- The JSON library reads the roster's array back as it wrote it, `setResource` replaces an
  -- earlier resource, and the request has no callback. For a path that asks for the roster: with a bot
  -- whose client is there, the response is a text that the JSON library reads as an array in which a
  -- reader sees just the mutual contacts as they are; with a bot whose client is not made yet or is
  -- deleted, the handler goes through a pointer that dangles, and without a bot through a null
  -- pointer. A path that does not ask for the roster is not handled, bot or not.
  pub authed_http_handler-see_roster :
      (b : Session) (req : Request)
      → env.read (env.write_array (get_roster g connected b.bot roster))
        ≡ some (arr (get_roster g connected b.bot roster))
      → Replaces g
      → req.getvar (codes "jsonp") ≡ none
      → ((asks_roster req.parts ≡ true)
          × (authed_http_handler env g connected roster none req ≡ fault null_pointer)
          × (((b.client ≡ live)
                × ((text : Str) × (a : Values) × (authed_http_handler env g connected roster
                        (some b)
                        req
                      ≡ ok (some text))
                    × (env.read text ≡ some (arr a))
                    × (see_roster a ≡ map (actual g connected b.bot) (mutual_contacts roster))))
              ⊎ ((b.client ≢ live)
                  × (authed_http_handler env g connected roster (some b) req
                      ≡ fault dangling_pointer))))
        ⊎ ((asks_roster req.parts ≡ false)
            × (authed_http_handler env g connected roster none req ≡ ok none)
            × (authed_http_handler env g connected roster (some b) req ≡ ok none))
  unfolding authed_http_handler
  authed_http_handler-see_roster b req law replaces plain =
      let a : Values = get_roster g connected b.bot roster in
      elim (Bool-cases (asks_roster req.parts)) [
        | inr other ↦ inr (other, rw other refl, rw other refl)
        | inl asks ↦ inl (
          asks,
          rw asks refl,
          elim (Client-cases b.client) [
            | inr (n, gone) ↦ inr (n, handler-dangling b req asks gone)
            | inl e ↦ inl (
              e,
              (
                env.write_array a,
                a,
                handler-live b req asks plain e,
                law,
                see_roster-get_roster g connected b.bot roster replaces,
              ),
            )
          ],
        )
      ]
