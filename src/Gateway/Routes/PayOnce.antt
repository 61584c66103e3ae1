-- ===== src/Gateway/Routes/PayOnce.antt =====
-- A payment that is asked for again: deposits and transfers under one Idempotency-Key, through the whole
-- path from the routes of services/gateway/main.go to the tables of services/wallet/store.go.
use wallet_ledger.Base.{
  ℕ, String, ◌≡◌, refl, sym, ◌⊎◌, inl, inr, false, Bool-cases, some, List, [], ◌∷◌, ◌++◌, ◌∙◌, ap,
  subst, ltb,
}
use wallet_ledger.Store.Schema.{Uuid, Transaction}
use wallet_ledger.Store.Session.{World}
use wallet_ledger.Store.Query.{row_by_key}
use wallet_ledger.Store.Moves.{row_by_key-Advances}
use wallet_ledger.Server.{transaction_to_proto}
use wallet_ledger.Server.Payments.{Quiet}
use wallet_ledger.Gateway.Http.{
  Body, TransactionJson, error, wallet, transaction, registered, token, write_error, write_json,
  to_transaction_json,
}
use wallet_ledger.Gateway.Api.{
  Bytes, Handler, bearer, is_empty, require_auth, cut, bytes_eq, with_token,
}
use wallet_ledger.Gateway.RateLimit.{limit, judge, up, down, unheard, Link, Redis, incr, key_at}
use wallet_ledger.Gateway.Client.{Wire}
use wallet_ledger.Gateway.Client.Payments.{
  Pays, Shows, refused-Pays, PaysFor, deposit-Pays, transfer-Pays,
}
use wallet_ledger.Gateway.Tokens.{seconds, verify}
use wallet_ledger.Gateway.Routes.{
  Libraries, Config, Request, deposits, transfers, Gateway, on_wire, judged, limit_by, client,
  user_limited, serve_route, serve, serve_all, route_of,
}
use wallet_ledger.Gateway.Routes.Moves.{world, serve-Advances, serve_all-Advances}

-- The requests that move money.
abbrev pub MovesMoney : Request → Type 0
MovesMoney r = (route_of r.method r.path ≡ deposits) ⊎ (route_of r.method r.path ≡ transfers)

module _ (lib : Libraries) (c : Config) where
  -- The request bears a token that is good for the user when it comes.
  abbrev pub Bears : String → Request → Type 0
  Bears user_id r =
      (text : Bytes) × (r.authorization ≡ bearer ++ (b' ' ∷ text))
      × (is_empty text ≡ false)
      × (verify lib.jwt c.tokens r.now text ≡ some user_id)

  require_auth-Bears :
      (user_id : String) (r : Request) (next : String → Handler Gateway) (g : Gateway)
      → Bears user_id r
      → require_auth (verify lib.jwt c.tokens r.now) r.authorization next g ≡ next user_id g
  unfolding require_auth cut bytes_eq with_token
  require_auth-Bears user_id r next g (text, e, full, good) = rw (e, full, good, with_token) refl

module _ (u : Uuid) (k : String) where
  judge-Pays :
      (n now count : ℕ) (w : World) (bucket : String) (f : Handler Gateway) (g : Gateway)
      → world g ≡ w
      → let (r, x) = f g in
        Pays u k w r.body (world x)
        → let (r, x) = judged bucket (judge n now count) f g in Pays u k w r.body (world x)
  unfolding judged judge write_error write_json
  judge-Pays n now count w bucket f g at h = elim (Bool-cases (ltb n count)) [
    | inl y ↦ rw (y, at) (refused-Pays u k w "rate limit exceeded")
    | inr m ↦ rw m h
  ]

  limit-Pays :
      (bucket : String) (n : ℕ) (who : String) (link : Link) (now : ℕ) (redis : Redis)
      (f : Handler Gateway) (g : Gateway)
      → let (r, x) = f g in
        Pays u k (world g) r.body (world x)
        → let (r, x) = judged bucket (limit bucket n who link now redis).0 f g in
          Pays u k (world g) r.body (world x)
  unfolding limit judged
  limit-Pays bucket n who up now redis f g h =
      judge-Pays n now (incr (key_at bucket who now) now redis).0 (world g) bucket f g refl h
  limit-Pays bucket n who down now redis f g h = h
  limit-Pays bucket n who unheard now redis f g h = h

-- A response whose body is a transaction has this one.
abbrev pub Repeats : TransactionJson → Body → Type 0
Repeats j (transaction i) = i ≡ j
Repeats j _ = Unit {0}

Shows-Repeats :
    (u : Uuid) (k : String) (w : World) (t : Transaction) (b : Body)
    → row_by_key u k w.db.transactions ≡ some t
    → Shows u k w b
    → Repeats (to_transaction_json (transaction_to_proto t)) b
Shows-Repeats u k w t (transaction i) found (t', found', e) =
    let same : t' ≡ t = cc in e ∙ ap (λ s. to_transaction_json (transaction_to_proto s)) same
Shows-Repeats u k w t (error e) found s = tt
Shows-Repeats u k w t (wallet v) found s = tt
Shows-Repeats u k w t (registered v o) found s = tt
Shows-Repeats u k w t (token v n) found s = tt

module _ (lib : Libraries) (c : Config) (user_id : String) (u : Uuid)
    (known : lib.parse_uuid user_id ≡ some u) where
  user_limited-Pays :
      (r : Request) (k : String) (f : String → Handler Wire) (g : Gateway)
      → Bears lib c user_id r
      → (world g).pending ≡ []
      → PaysFor lib.parse_uuid c.max_retries user_id u known k (f user_id)
      → let (a, x) = user_limited lib c r (λ v. on_wire (f v)) g in
        Pays u k (world g) a.body (world x)
  unfolding user_limited limit_by on_wire
  user_limited-Pays r k f g bears idle h =
      let who = limit "user" c.user_limit user_id r.redis_link (seconds r.now) g.redis in
      rw (require_auth-Bears lib c user_id r _ g bears) (
        limit-Pays u k "user" c.user_limit user_id r.redis_link (seconds r.now) g.redis
          (on_wire (f user_id)) (record g { redis = who.1 }) (h g.accounts.behind idle))

  serve-Pays :
      (r : Request) (g : Gateway)
      → MovesMoney r
      → Bears lib c user_id r
      → (world g).pending ≡ []
      → let (a, x) = serve lib c r g in Pays u r.idempotency_key (world g) a.body (world x)
  unfolding serve serve_route client
  serve-Pays r g (inl e) bears idle = rw (e) (
      user_limited-Pays r r.idempotency_key _ g bears idle
        (λ w i. deposit-Pays lib.parse_uuid c.max_retries user_id u known r.idempotency_key _ w i))
  serve-Pays r g (inr e) bears idle = rw (e) (
      user_limited-Pays r r.idempotency_key _ g bears idle
        (λ w i. transfer-Pays lib.parse_uuid c.max_retries user_id u known r.idempotency_key _ w i))

  -- If a deposit or a transfer of a user has been answered with a transaction, then after any further
  -- requests, of whomever and whatever fails, a deposit or a transfer of this user under the same
  -- Idempotency-Key commits nothing, and it is answered with the same transaction or with none. The
  -- tokens of both are good when they come, the user's id is a UUID, and no transaction is open before.
  pub pay_once :
      (r r' : Request) (rs : List Request) (g : Gateway) (j : TransactionJson)
      → (world g).pending ≡ []
      → MovesMoney r
      → MovesMoney r'
      → Bears lib c user_id r
      → Bears lib c user_id r'
      → r'.idempotency_key ≡ r.idempotency_key
      → (serve lib c r g).0.body ≡ transaction j
      → let h = serve_all lib c rs (serve lib c r g).1 in
        let (a, x) = serve lib c r' h in Repeats j a.body × Quiet (world h) (world x)
  pay_once r r' rs g j idle m m' bears bears' key paid =
      let k = r.idempotency_key in
      let x = (serve lib c r g).1 in
      let h = serve_all lib c rs x in
      let first = serve-Pays r g m bears idle in
      let shown : Shows u k (world x) (transaction j) =
        subst (Shows u k (world x)) paid first.shows in
      let (t, found, e) = shown in
      let moved = serve-Advances lib c r g idle in
      let later = serve_all-Advances lib c rs x moved.closed in
      let stands = row_by_key-Advances u k t later found in
      let again : Pays u k (world h) (serve lib c r' h).0.body (world (serve lib c r' h).1) =
        subst
          (λ (y : String).
            Pays u y (world h) (serve lib c r' h).0.body (world (serve lib c r' h).1))
          key (serve-Pays r' h m' bears' later.closed) in
      let after = (serve lib c r' h).1 in
      let kept = row_by_key-Advances u k t (serve-Advances lib c r' h later.closed) stands in
      (
        subst (λ (i : TransactionJson). Repeats i (serve lib c r' h).0.body) (sym e)
            (Shows-Repeats u k (world after) t (serve lib c r' h).0.body kept again.shows),
        again.quiet t stands,
      )
