-- ===== src/Gateway/Routes/Tests.antt =====
-- Requests to the server of services/gateway/main.go over small tables, and the theorems about it at one
-- input each.
use mathlib.Core.List.{Permᴰ}
use wallet_ledger.Base.{
  ℕ, ◌+◌, ◌*◌, ◌<◌, ◌≡◌, refl, ap, inl, true, false, String, Option, none, some, [], ◌∷◌, ◌++◌,
  str_eq, eq_iff, length, All, In, arith, ltb,
}
use wallet_ledger.Base.Int.{pos, ◌+ℤ◌, neg64}
use wallet_ledger.Store.Schema.{Kind}
use wallet_ledger.Store.Session.{World}
use wallet_ledger.Store.Session
use wallet_ledger.Store.Query
use wallet_ledger.Store.Write
use wallet_ledger.Store.Commit
use wallet_ledger.Store.Money
use wallet_ledger.Store.Wallets
use wallet_ledger.Server
use wallet_ledger.Gateway.RateLimit
use wallet_ledger.Gateway.Api
use wallet_ledger.Store.Invariant.{IsSound, net, sum_balances, sum_deposits}
use wallet_ledger.Server.{Server, Status, TransactionMessage, unavailable}
use wallet_ledger.Server.Payments.{Quiet}
use wallet_ledger.Gateway.Http.{
  TransactionJson, transaction, to_transaction_json, write_json, token as token_body,
}
use wallet_ledger.Gateway.Api.{
  Bytes, bearer, bytes_eq, is_empty, Handler, require_auth, WalletClient,
}
use wallet_ledger.Gateway.Accounts.{User, Credentials, login, find_user}
use wallet_ledger.Gateway.Accounts.Login.{Knows}
use wallet_ledger.Gateway.RateLimit.{Redis, Link, up, down}
use wallet_ledger.Gateway.ClientIp.{client_ip, has}
use wallet_ledger.Gateway.ClientIp.Join.{join_host_port, client_ip-join}
use wallet_ledger.Gateway.Tokens.{seconds, subject_of, issue, verify}
use wallet_ledger.Gateway.Tokens.Session.{codes, fresh, login-require_auth}
use wallet_ledger.Gateway.Routes.{
  Libraries, Config, Request, Gateway, read_json, route_of, serve, serve_all, client,
}
use wallet_ledger.Gateway.Routes.Moves.{world, serve_all-IsSound}
use wallet_ledger.Gateway.Routes.PayOnce.{MovesMoney, Bears, Repeats, pay_once}
use wallet_ledger.Gateway.Routes.Observe.{
  entry, counts, responses, labels, Guarded, Stranger, serve-Guarded, serve_all-http_requests,
}
use wallet_ledger.Gateway.Routes
use wallet_ledger.Gateway.Routes.Visible.{Visible, serve-Visible}
use wallet_ledger.Gateway.Routes.Sample.{
  jwt, parse_uuid, same_text, any_text, plain_hash, lib, issuer, config, gateway, paying_in, again,
  looking, stranger, jwt-IsJwt,
}

gateway-IsSound : IsSound (world gateway).db
unfolding net sum_balances sum_deposits ◌+ℤ◌
gateway-IsSound = record {
  balances = ((omega arith, omega arith), tt);
  ids = (refl, tt);
  users = (refl, tt);
  keys = tt;
  refs = tt;
  reconciled = (refl, tt);
  conserved = refl;
  recorded = Permᴰ.nil;
  sent = tt;
}

serve_all-IsSound_example :
    IsSound (world (serve_all lib config (paying_in ∷ looking ∷ again ∷ []) gateway)).db
serve_all-IsSound_example =
    serve_all-IsSound lib config (paying_in ∷ looking ∷ again ∷ []) gateway refl gateway-IsSound

serve_all-http_requests_example :
    let rs = paying_in ∷ looking ∷ again ∷ [] in
    let l = counts lib config (responses lib config rs gateway) in
    ((serve_all lib config rs gateway).http_requests ≡ l ++ [])
    × All (λ o. In o.route (labels lib config)) l
serve_all-http_requests_example =
    serve_all-http_requests lib config (paying_in ∷ looking ∷ again ∷ []) gateway

bears :
    (r : Request)
    → r.authorization ≡ bearer ++ (b' ' ∷ b'T' ∷ [])
    → r.now < 1000000000000
    → Bears lib config "u1" r
unfolding is_empty verify subject_of bytes_eq fresh
bears r e early =
    let still : ltb r.now 1000000000000 ≡ true = ground (arith, early) in
    (b'T' ∷ [], e, refl, rw still refl)

abbrev receipt : TransactionJson
receipt = record {
  id = 1001;
  kind = Kind.deposit;
  from_wallet_id = none;
  to_wallet_id = 11;
  amount_cents = pos 50;
  status = "COMPLETED";
  idempotency_key = "k1";
  created_at = 0;
}

paid : (serve lib config paying_in gateway).0.body ≡ transaction receipt
unfolding serve route_of require_auth verify fresh RateLimit.limit Api.deposit Server.deposit
    Money.deposit ◌+ℤ◌ neg64 Session.arrive Session.statement Session.view Write.apply_all
    Write.apply Write.bump_at Write.select_by_user Write.select_by_id Write.valid Write.fits
    Write.two_sides Write.same_key Query.find_by_key Query.row_by_key Query.wallet_by_user
    Query.wallet_by_id Query.apply_delta Query.draw Query.insert_transaction Query.insert_outbox
    Commit.deposit_row Commit.deposit_outbox
paid = refl

is_payment :
    (r : Request) → r.method ≡ "POST" → r.path ≡ "wallets" ∷ "me" ∷ "deposits" ∷ [] → MovesMoney r
unfolding route_of
is_payment r e f = inl (rw (e, f) refl)

pay_once_example :
    let h = serve_all lib config (looking ∷ []) (serve lib config paying_in gateway).1 in
    let (a, x) = serve lib config again h in Repeats receipt a.body × Quiet (world h) (world x)
pay_once_example =
    pay_once lib config "u1" 1 refl paying_in again (looking ∷ []) gateway receipt refl
      (is_payment paying_in refl refl) (is_payment again refl refl)
      (bears paying_in refl (omega arith)) (bears again refl (omega arith)) refl paid

abbrev finding : Request
finding = record looking { path = "transfers" ∷ "t1" ∷ [] }

finds : route_of finding.method finding.path ≡ Routes.transfer_by_id "t1"
unfolding route_of
finds = refl

-- The deposit is found by its id.
found :
    let (a, x) = serve lib config finding (serve lib config paying_in gateway).1 in
    (a.status ≡ 200) × (a.body ≡ transaction receipt)
unfolding serve route_of require_auth verify fresh RateLimit.limit Api.deposit Api.get_transfer
    Server.deposit Server.get_transaction Money.deposit Wallets.get_transaction Wallets.row_by_id
    Wallets.touches Query.pooled Query.scan ◌+ℤ◌ neg64 Session.arrive Session.statement Session.view
    Session.opened Session.finish Session.commit Session.run Write.apply_all Write.apply
    Write.bump_at Write.select_by_user Write.select_by_id Write.valid Write.fits Write.two_sides
    Write.same_key Query.find_by_key Query.row_by_key Query.wallet_by_user Query.wallet_by_id
    Query.apply_delta Query.draw Query.insert_transaction Query.insert_outbox Commit.deposit_row
    Commit.deposit_outbox
found = (refl, refl)

serve-Visible_example :
    (user_id : String) × (m : TransactionMessage) × Bears lib config user_id finding
    × Visible parse_uuid user_id "t1" (world (serve lib config paying_in gateway).1) m
    × (receipt ≡ to_transaction_json m)
serve-Visible_example =
    serve-Visible lib config finding (serve lib config paying_in gateway).1 "t1" receipt finds
      found.0 found.1

looks : Guarded lib config (route_of stranger.method stranger.path)
unfolding route_of
looks = tt

unknown : Stranger lib config stranger
unknown user_id (text, e, full, good) = let same = ap length e in omega (arith, same)

serve-Guarded_example :
    let (a, x) = serve lib config stranger gateway in
    (a.status ≡ 401) × (x ≡ record gateway { http_requests = entry lib config stranger a ∷ [] })
serve-Guarded_example = serve-Guarded lib config stranger gateway looks unknown

client_ip-join_example :
    client_ip false "1.2.3.4" (join_host_port "2001:db8::1" "443") ≡ "2001:db8::1"
unfolding has
client_ip-join_example = client_ip-join "1.2.3.4" "2001:db8::1" "443" (refl, refl) (refl, refl) refl

abbrev alice_user : User
alice_user = record { id = "u1"; email = "a@b.c"; password_hash = "12345678" }

abbrev credentials : Credentials
credentials = record { email = "a@b.c"; password = "12345678" }

abbrev handler : String → Handler ℕ
handler user_id n = (write_json 200 (token_body user_id n), n + 1)

abbrev issue_now : String → Option String
issue_now id = issue jwt issuer id 100000000000

known :
    Knows
      (client lib config)
      same_text
      any_text
      plain_hash
      str_eq
      issue_now
      900
      credentials
      gateway.accounts
      alice_user
unfolding find_user
known = (refl, refl)

issued : issue jwt issuer "u1" 100000000000 ≡ some "T"
unfolding issue
issued = refl

early : 999000000000 < seconds (100000000000 + issuer.ttl) * 1000000000
unfolding seconds
early = omega arith

login-require_auth_example :
    (login
        (client lib config)
        same_text
        any_text
        plain_hash
        str_eq
        issue_now
        (seconds 900000000000)
        (some credentials)
        none
        gateway.accounts
      ≡ write_json 200 (token_body "T" (seconds 900000000000)))
    × (require_auth (verify jwt issuer 999000000000) (bearer ++ (b' ' ∷ codes "T")) handler 7
        ≡ handler "u1" 7)
login-require_auth_example =
    login-require_auth jwt jwt-IsJwt issuer (client lib config) same_text any_text plain_hash str_eq
      credentials gateway.accounts alice_user 100000000000 999000000000 "T" handler 7 known
      (ground (arith, eq_iff "u1" "")) issued early
