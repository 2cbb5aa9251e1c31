-- ===== src/Strategy/Factory.antt =====
-- ss_greynet::factory (src/ss_greynet.cpp) on the urls of handle_queryresult (src/greynet.cpp).
use greynet.Base.{suc, Str, ◌≡◌, inl, inr, false, none, some, arith, contains, nat_eq, Option-cases}
use greynet.Base.Dict.{insert}
use greynet.Platform.{Env, State}
use greynet.Queries.{stream_url}
use greynet.Strategy.{new_ss, factory}
use greynet.Strategy.Url.{parse_url-stream_url}

module _ (env : Env) where
  -- For a peer's name without a `;`, the url of its item gives a new strategy for the connection of
  -- that name and the item's id, as the constructor makes it, at a new address; or none, and no
  -- change, where no connection has the name.
  pub factory-stream_url :
      (name id : Str) (s : State)
      → contains b';' name ≡ false
      → factory env (stream_url name id) s ≡ (elim (env.connection_by_name s.log name) [
        | none ↦ (none, s)
        | some conn ↦ (
          some s.next_address,
          record s {
            strategies = insert s.next_address (new_ss conn id) s.strategies;
            next_address = suc s.next_address;
          },
        )
      ])
  unfolding factory
  factory-stream_url name id s h = elim (Option-cases (env.connection_by_name s.log name)) [
    | inl e ↦ rw (parse_url-stream_url name id h, e, factory) (ground arith)
    | inr (conn, e) ↦ rw (parse_url-stream_url name id h, e, factory) (ground arith)
  ]
