-- ===== src/Gateway/Routes/Visible.antt =====
-- Who sees a transaction through GET /transfers/{id} of services/gateway/main.go.
use wallet_ledger.Base.{
  ℕ, String, ◌≡◌, refl, sym, ap, subst, ◌∙◌, inl, inr, Option, some, Option-cases, Bool-cases, ltb,
  arith,
}
use wallet_ledger.Store.Schema.{Uuid, Transaction}
use wallet_ledger.Store.Session.{
  World, ok, err, not_found, insufficient_funds, same_wallet, currency_mismatch,
  idempotency_conflict, too_much_contention, version_conflict, db, panicked,
}
use wallet_ledger.Store.Session
use wallet_ledger.Store.Wallets
use wallet_ledger.Store.Wallets.Lookup.{IsVisible, seen_by, get_transaction-IsVisible}
use wallet_ledger.Server.{
  Reply, reply, refuse, crash, Server, TransactionMessage, transaction_to_proto, answer,
}
use wallet_ledger.Server
use wallet_ledger.Server.Metrics.{metrics_interceptor}
use wallet_ledger.Gateway.Http.{
  Response, Body, transaction, TransactionJson, to_transaction_json, write_json, write_error,
}
use wallet_ledger.Gateway.RateLimit.{limit, judge, up, down, unheard, Link, Redis, incr, key_at}
use wallet_ledger.Gateway.Tokens.{seconds, verify}
use wallet_ledger.Gateway.Client.Payments.{wallet_error-body}
use wallet_ledger.Gateway.Api.{
  Answer, got, failed, WalletClient, Handler, respond_transaction, get_transfer,
}
use wallet_ledger.Gateway.Api.Guards.{require_auth_lem}
use wallet_ledger.Gateway.Client.{Wire, called, invoke, new_wallet_client}
use wallet_ledger.Gateway.Client.Calls.{invoke-Replied}
use wallet_ledger.Gateway.Routes.{
  Libraries, Config, Request, Gateway, serve, serve_route, user_limited, limit_by, judged, on_wire,
  client, route_of, transfer_by_id,
}
use wallet_ledger.Gateway.Routes.Moves.{world}
use wallet_ledger.Gateway.Routes.PayOnce.{Bears}

-- A transaction of this id that a wallet of the user takes part in, in the tables that a query would see.
abbrev pub Visible : (String → Option Uuid) → String → String → World → TransactionMessage → Type 0
Visible parse user_id id w m =
    (u : Uuid) × (i : Uuid) × (t : Transaction) × (parse user_id ≡ some u)
    × (parse id ≡ some i)
    × IsVisible u i (seen_by w).wallets (seen_by w).transactions t
    × (m ≡ transaction_to_proto t)

module _ (parse : String → Option Uuid) (max_retries : ℕ) (user_id id : String) where
  -- A reply with a transaction has a visible one.
  abbrev Shows : World → Reply TransactionMessage → Type 0
  Shows w (reply m) = Visible parse user_id id w m
  Shows w (refuse s) = Unit {0}
  Shows w crash = Unit {0}

  answer-Shows :
      (u i : Uuid) (w : World) (r : Session.Result Transaction)
      → r ≡ (Wallets.get_transaction u i w).0
      → parse user_id ≡ some u
      → parse id ≡ some i
      → Shows w (answer transaction_to_proto r)
  unfolding answer
  answer-Shows u i w (ok t) e known there =
      (u, i, t, known, there, get_transaction-IsVisible u i w t (sym e), refl)
  answer-Shows u i w (err (not_found p)) e known there = tt
  answer-Shows u i w (err insufficient_funds) e known there = tt
  answer-Shows u i w (err same_wallet) e known there = tt
  answer-Shows u i w (err currency_mismatch) e known there = tt
  answer-Shows u i w (err idempotency_conflict) e known there = tt
  answer-Shows u i w (err too_much_contention) e known there = tt
  answer-Shows u i w (err version_conflict) e known there = tt
  answer-Shows u i w (err (db x)) e known there = tt
  answer-Shows u i w (err panicked) e known there = tt

  get_transaction-Shows :
      (s : Server) → Shows s.world (Server.get_transaction parse max_retries user_id id s).0
  unfolding Server.get_transaction Server.with_uuid Server.call
  get_transaction-Shows s = elim (Option-cases (parse user_id)) [
    | inl e ↦ rw (e, Shows) tt
    | inr (u, e) ↦ elim (Option-cases (parse id)) [
      | inl f ↦ rw (e, f, Shows) tt
      | inr (i, f) ↦
          rw (e, f, Shows)
            (answer-Shows u i s.world (Wallets.get_transaction u i s.world).0 refl e f)
    ]
  ]

  -- A response with a transaction shows a visible one.
  abbrev Displays : World → Body → Type 0
  Displays w (transaction j) =
      (m : TransactionMessage) × Visible parse user_id id w m × (j ≡ to_transaction_json m)
  Displays w _ = Unit {0}

  respond-Displays :
      (handler : Server → Reply TransactionMessage × Server) (client : WalletClient Wire) (w : Wire)
      (x : Answer TransactionMessage × Wire)
      → Shows w.server.world (handler w.server).0
      → ((m : TransactionMessage) → x.0 ≡ got m → handler w.server ≡ (reply m, x.1.server))
      → Displays w.server.world (respond_transaction client 200 x).0.body
  unfolding respond_transaction write_json
  respond-Displays handler client w (failed s, x) h replied =
      let (text, e) = wallet_error-body s in rw e tt
  respond-Displays handler client w (got m, x) h replied =
      let e = replied m refl in
      (m, subst (λ (y : Reply TransactionMessage × Server). Shows w.server.world y.0) e h, refl)

  get_transfer-Displays :
      (w : Wire)
      → Displays w.server.world
          (get_transfer (new_wallet_client parse max_retries) id user_id w).0.body
  unfolding get_transfer new_wallet_client called metrics_interceptor
  get_transfer-Displays w =
      let handler =
        metrics_interceptor "/wallet.v1.WalletService/GetTransaction"
          (Server.get_transaction parse max_retries user_id id) in
      respond-Displays handler (new_wallet_client parse max_retries) w (invoke handler w)
        (get_transaction-Shows w.server) (invoke-Replied handler w)

-- What holds of each transaction that a response shows with the status 200.
abbrev pub Answers : (TransactionJson → Type 0) → Response → Type 0
Answers P a = (j : TransactionJson) → a.status ≡ 200 → a.body ≡ transaction j → P j

-- A refusal of the rate limit shows none.
module _ (P : TransactionJson → Type 0) (bucket : String) (f : Handler Gateway) where
  judge-Answers :
      (n now count : ℕ) (g : Gateway)
      → Answers P (f g).0
      → Answers P (judged bucket (judge n now count) f g).0
  unfolding judged judge write_error write_json
  judge-Answers n now count g h = elim (Bool-cases (ltb n count)) [
    | inl y ↦ rw y (λ j a b. cc)
    | inr m ↦ rw m h
  ]

  limit-Answers :
      (n : ℕ) (who : String) (link : Link) (now : ℕ) (redis : Redis) (g : Gateway)
      → Answers P (f g).0
      → Answers P (judged bucket (limit bucket n who link now redis).0 f g).0
  unfolding limit judged
  limit-Answers n who up now redis g h =
      judge-Answers n now (incr (key_at bucket who now) now redis).0 g h
  limit-Answers n who down now redis g h = h
  limit-Answers n who unheard now redis g h = h

Displays-Answers :
    (parse : String → Option Uuid) (user_id id : String) (max_retries : ℕ) (w : World)
    (a : Response)
    → Displays parse max_retries user_id id w a.body
    → Answers
        (λ j. (m : TransactionMessage) × Visible parse user_id id w m × (j ≡ to_transaction_json m))
        a
Displays-Answers parse user_id id max_retries w a h j good e =
    subst (Displays parse max_retries user_id id w) e h

module _ (lib : Libraries) (c : Config) where
  -- If a request for the transfer of an id is answered with 200 and a transaction, then it bears a token that is
  -- good when it comes, of a user for whom this transaction is visible: it has the id, it stands in the
  -- tables that a query of that moment sees, and a wallet of that user is on one of its sides.
  pub serve-Visible :
      (r : Request) (g : Gateway) (id : String) (j : TransactionJson)
      → route_of r.method r.path ≡ transfer_by_id id
      → (serve lib c r g).0.status ≡ 200
      → (serve lib c r g).0.body ≡ transaction j
      → (user_id : String) × (m : TransactionMessage) × Bears lib c user_id r
        × Visible lib.parse_uuid user_id id (world g) m
        × (j ≡ to_transaction_json m)
  unfolding serve serve_route user_limited limit_by on_wire client
  serve-Visible r g id j route = rw route (λ good shown.
      let next = λ (u : String).
        limit_by "user" c.user_limit u r
          (on_wire (get_transfer (new_wallet_client lib.parse_uuid c.max_retries) id u)) in
      elim (require_auth_lem (verify lib.jwt c.tokens r.now) r.authorization next g) [
        | inl (refused, _) ↦ absurd (omega arith)
        | inr (text, u, a, b, v, e) ↦
            let who = limit "user" c.user_limit u r.redis_link (seconds r.now) g.redis in
            let f = on_wire (get_transfer (new_wallet_client lib.parse_uuid c.max_retries) id u) in
            let (m, seen, same) =
              limit-Answers
                (λ j.
                  (m : TransactionMessage) × Visible lib.parse_uuid u id (world g) m
                  × (j ≡ to_transaction_json m))
                "user" f c.user_limit u r.redis_link (seconds r.now) g.redis
                (record g { redis = who.1 })
                (Displays-Answers lib.parse_uuid u id c.max_retries (world g) (f g).0
                  (get_transfer-Displays lib.parse_uuid c.max_retries u id g.accounts.behind))
                j (ap (λ (x : Response × Gateway). x.0.status) (sym e) ∙ good)
                (ap (λ (x : Response × Gateway). x.0.body) (sym e) ∙ shown) in
            (u, m, (text, a, b, v), seen, same)
      ])
