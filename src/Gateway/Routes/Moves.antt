-- ===== src/Gateway/Routes/Moves.antt =====
-- What requests to the server of services/gateway/main.go do to the tables behind it.
use wallet_ledger.Base.{ℕ, String, ◌≡◌, inl, inr, Option, List, [], ◌∷◌}
use wallet_ledger.Store.Session.{World}
use wallet_ledger.Store.Invariant.{IsSound}
use wallet_ledger.Store.Moves.{Advances-IsSound, Advances, Advances-refl, Advances-trans}
use wallet_ledger.Gateway.Api.{Bytes, Handler, require_auth}
use wallet_ledger.Gateway.Api.Guards.{require_auth_lem}
use wallet_ledger.Gateway.Api.Respects.{
  Respects, get_my_wallet-Respects, deposit-Respects, transfer-Respects, get_transfer-Respects,
  register-Respects,
}
use wallet_ledger.Gateway.RateLimit.{Verdict, pass, limited, limit}
use wallet_ledger.Gateway.Client.{Wire}
use wallet_ledger.Gateway.Client.Calls.{Moved, new_wallet_client-Respects}
use wallet_ledger.Gateway.Tokens.{seconds}
use wallet_ledger.Gateway.Routes.{
  Libraries, Config, Request, Route, register, login, my_wallet, deposits, transfers,
  transfer_by_id, unmatched, Gateway, on_accounts, on_wire, judged, limit_by, client, auth_limited,
  user_limited, serve_route, serve, serve_all, route_of,
}

-- The database session of the process behind the gateway.
abbrev pub world : Gateway → World
world g = g.accounts.behind.server.world

-- From a gateway behind which no transaction is open, a handler leaves none open and moves the tables by
-- whole commits.
abbrev Keeps : Handler Gateway → Type 0
Keeps f = (g : Gateway) → (world g).pending ≡ [] → Advances (world g) (world (f g).1)

judged-Keeps :
    (bucket : String) (v : Verdict) (f : Handler Gateway) → Keeps f → Keeps (judged bucket v f)
unfolding judged
judged-Keeps bucket (pass limits) f h g idle = h g idle
judged-Keeps bucket (limited r) f h g idle = Advances-refl (world g) idle

limit_by-Keeps :
    (bucket : String) (n : ℕ) (who : String) (r : Request) (f : Handler Gateway)
    → Keeps f
    → Keeps (limit_by bucket n who r f)
unfolding limit_by
limit_by-Keeps bucket n who r f h g idle =
    let (v, redis) = limit bucket n who r.redis_link (seconds r.now) g.redis in
    judged-Keeps bucket v f h (record g { redis = redis }) idle

require_auth-Keeps :
    (verify : Bytes → Option String) (header : Bytes) (next : String → Handler Gateway)
    → ((u : String) → Keeps (next u))
    → Keeps (require_auth verify header next)
require_auth-Keeps verify header next h g idle = elim (require_auth_lem verify header next g) [
  | inl (_, same) ↦ rw same (Advances-refl (world g) idle)
  | inr (token, u, a, b, c, e) ↦ rw e (h u g idle)
]

module _ (lib : Libraries) (c : Config) where
  -- A handler behind requireAuth and the limit of its user.
  user_limited-Keeps :
      (r : Request) (f : String → Handler Wire)
      → ((u : String) (w : Wire) → Moved w (f u w).1)
      → Keeps (user_limited lib c r (λ u. on_wire (f u)))
  unfolding user_limited on_wire
  user_limited-Keeps r f h =
      require_auth-Keeps _ _ _
        (λ u. limit_by-Keeps _ _ _ r _ (λ g idle. h u g.accounts.behind idle))

  calls : Respects (client lib c) Moved
  unfolding client
  calls = new_wallet_client-Respects lib.parse_uuid c.max_retries

  serve_route-Keeps : (route : Route) (r : Request) → Keeps (serve_route lib c route r)
  unfolding serve_route auth_limited on_accounts
  serve_route-Keeps register r = limit_by-Keeps _ _ _ r _ (λ g idle.
      register-Respects (client lib c) Moved calls lib.normal lib.is_address lib.hash_password
        lib.check_password _ _ _ r.new_id r.insertion g.accounts idle)
  serve_route-Keeps login r = limit_by-Keeps _ _ _ r _ (λ g idle. Advances-refl (world g) idle)
  serve_route-Keeps my_wallet r =
      user_limited-Keeps r _ (get_my_wallet-Respects (client lib c) Moved calls)
  serve_route-Keeps deposits r =
      user_limited-Keeps r _ (deposit-Respects (client lib c) Moved calls r.idempotency_key _)
  serve_route-Keeps transfers r =
      user_limited-Keeps r _ (transfer-Respects (client lib c) Moved calls r.idempotency_key _)
  serve_route-Keeps (transfer_by_id id) r =
      user_limited-Keeps r _ (get_transfer-Respects (client lib c) Moved calls id)
  serve_route-Keeps unmatched r = λ g idle. Advances-refl (world g) idle

  pub serve-Advances :
      (r : Request) (g : Gateway)
      → (world g).pending ≡ []
      → Advances (world g) (world (serve lib c r g).1)
  unfolding serve
  serve-Advances r g idle = serve_route-Keeps (route_of r.method r.path) r g idle

  pub serve_all-Advances :
      (rs : List Request) (g : Gateway)
      → (world g).pending ≡ []
      → Advances (world g) (world (serve_all lib c rs g))
  unfolding serve_all
  serve_all-Advances [] g idle = Advances-refl (world g) idle
  serve_all-Advances (r ∷ rs) g idle =
      let a = serve-Advances r g idle in
      Advances-trans a (serve_all-Advances rs (serve lib c r g).1 a.closed)

  -- Requests to the gateway, whatever they hold and whatever fails, in the network, Redis, PostgreSQL or
  -- a handler, and whatever the sessions of others commit meanwhile, leave sound tables if they find
  -- sound tables and no transaction open.
  pub serve_all-IsSound :
      (rs : List Request) (g : Gateway)
      → (world g).pending ≡ []
      → IsSound (world g).db
      → IsSound (world (serve_all lib c rs g)).db
  serve_all-IsSound rs g idle h = Advances-IsSound (serve_all-Advances rs g idle) h
