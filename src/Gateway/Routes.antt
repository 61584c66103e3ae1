-- ===== src/Gateway/Routes.antt =====
-- The HTTP server that main of services/gateway/main.go builds: its routes, the middleware around each of
-- them, and observe of services/gateway/httpx.go around all. Go's ServeMux is modelled for these patterns,
-- on clean paths, given by their segments. Times are in nanoseconds.
pub mod Moves
pub mod PayOnce
pub mod Observe
pub mod Visible
mod Sample
mod Tests
use wallet_ledger.Base.{
  ℕ, ◌+◌, ◌-◌, ◌/◌, ◌%◌, String, Bool, true, false, not, ◌&&◌, ◌||◌, Option, none, some, List, [],
  ◌∷◌, take, length, ltb, str_eq, if◌then◌else◌,
}
use wallet_ledger.Base.Int.{ℤ}
use wallet_ledger.Store.Schema.{Uuid}
use wallet_ledger.Store.Session.{DbError}
use wallet_ledger.Gateway.Http.{Limits, Response, write_error}
use wallet_ledger.Gateway.Api.{Bytes, Handler, is_empty, WalletClient, require_auth}
use wallet_ledger.Gateway.Api
use wallet_ledger.Gateway.Accounts.{Accounts, Credentials, Insertion}
use wallet_ledger.Gateway.Accounts
use wallet_ledger.Gateway.RateLimit.{Redis, Link, Verdict, pass, limited, limit}
use wallet_ledger.Gateway.ClientIp.{client_ip}
use wallet_ledger.Gateway.Tokens.{Jwt, TokenIssuer, seconds, issue, verify}
use wallet_ledger.Gateway.Client.{Wire, new_wallet_client}

-- What a reader says after its last byte: io.EOF, or http.MaxBytesError.
pub data Ending : Type 0 where
  end_of_file : Ending
  too_large : Ending

-- The libraries that the gateway calls: UUIDs, JSON (a decoder reads the first value of a stream), the
-- normal form and the test of addresses, bcrypt and JWT.
pub record Libraries : Type 0 where
  pub parse_uuid : String → Option Uuid
  pub decode_credentials : Ending → Bytes → Option Credentials
  pub decode_deposit : Ending → Bytes → Option ℤ
  pub decode_transfer : Ending → Bytes → Option (String × ℤ)
  pub normal : String → String
  pub is_address : String → Bool
  pub hash_password : String → Option String
  pub check_password : String → String → Bool
  pub jwt : Jwt

-- What main reads from the environment.
pub record Config : Type 0 where
  pub tokens : TokenIssuer
  pub trust_proxy : Bool
  pub auth_limit : ℕ
  pub user_limit : ℕ
  -- OPTIMISTIC_LOCK_RETRIES of the wallet service
  pub max_retries : ℕ

-- A request, and what happens outside the gateway while it runs: whether Redis answers, what becomes of
-- an insertion, the id that it would generate, and a failure of a query.
pub record Request : Type 0 where
  pub method : String
  pub path : List String
  pub authorization : Bytes
  pub idempotency_key : String
  pub forwarded_for : String
  pub remote_addr : String
  pub request_id : Bytes
  pub body : Bytes
  pub now : ℕ
  pub redis_link : Link
  pub insertion : Insertion
  pub new_id : String
  pub query_failure : Option DbError
  -- eight bytes of crypto/rand
  pub random : Bytes

pub data Route : Type 0 where
  register : Route
  login : Route
  my_wallet : Route
  deposits : Route
  transfers : Route
  transfer_by_id : String → Route
  unmatched : Route

-- A pattern of method GET matches HEAD too.
unfoldable pub is_get : String → Bool
is_get method = str_eq method "GET" || str_eq method "HEAD"

unfoldable pub route_of : String → List String → Route
unfolding is_get
route_of method (a ∷ []) =
    if str_eq method "POST" && str_eq a "transfers" then transfers else unmatched
route_of method (a ∷ b ∷ []) =
    if str_eq method "POST" && (str_eq a "auth" && str_eq b "register")
    then register
    else if str_eq method "POST" && (str_eq a "auth" && str_eq b "login")
    then login
    else if is_get method && (str_eq a "wallets" && str_eq b "me")
    then my_wallet
    else if is_get method && (str_eq a "transfers" && not (str_eq b ""))
    then transfer_by_id b
    else unmatched
route_of method (a ∷ b ∷ c ∷ []) =
    if str_eq method "POST" && (str_eq a "wallets" && (str_eq b "me" && str_eq c "deposits"))
    then deposits
    else unmatched
route_of method path = unmatched

-- r.Pattern, with observe's word for what only "/" matches.
unfoldable pub label : Route → String
label register = "POST /auth/register"
label login = "POST /auth/login"
label my_wallet = "GET /wallets/me"
label deposits = "POST /wallets/me/deposits"
label transfers = "POST /transfers"
label (transfer_by_id id) = "GET /transfers/{id}"
label unmatched = "unmatched"

-- http_requests_total: an entry for each increment.
pub record Observed : Type 0 where
  pub method : String
  pub route : String
  pub status : ℕ

-- The gateway, and what is behind it.
pub record Gateway : Type 0 where
  pub accounts : Accounts Wire
  pub redis : Redis
  -- gateway_rate_limited_total, an entry for each increment
  pub rate_limited : List String
  pub http_requests : List Observed

-- readJSON: the decoder reads the body, or its first 10 KB and then the error of MaxBytesReader.
unfoldable pub read_json : {A : Type 0} → (Ending → Bytes → Option A) → Bytes → Option A
read_json decode body =
    if ltb 10240 (length body) then decode too_large (take 10240 body) else decode end_of_file body

abbrev pub hex_digit : ℕ → ℕ
hex_digit n = if ltb n 10 then b'0' + n else b'a' + (n - 10)

-- hex.EncodeToString
unfoldable pub encode_to_string : Bytes → Bytes
encode_to_string [] = []
encode_to_string (b ∷ bs) = hex_digit (b / 16) ∷ hex_digit (b % 16) ∷ encode_to_string bs

-- X-Request-Id of the response, with newRequestID.
unfoldable pub request_id_of : Request → Bytes
unfolding encode_to_string
request_id_of r = if is_empty r.request_id then encode_to_string r.random else r.request_id

-- A handler on what is behind the accounts, or on the accounts, as one on the gateway.
unfoldable pub on_accounts : (Accounts Wire → Response × Accounts Wire) → Handler Gateway
on_accounts f g = let (r, a) = f g.accounts in (r, record g { accounts = a })

unfoldable pub on_wire : Handler Wire → Handler Gateway
on_wire f g =
    let (r, w) = f g.accounts.behind in
    (r, record g { accounts = record (g.accounts) { behind = w } })

-- rateLimiter.limit around a handler: by the verdict, its headers are set and the handler runs, or it
-- does not and the refusal is counted.
unfoldable pub judged : String → Verdict → Handler Gateway → Handler Gateway
judged bucket (pass limits) next g = let (r, g') = next g in (record r { limits = limits }, g')
judged bucket (limited r) next g = (r, record g { rate_limited = bucket ∷ g.rate_limited })

unfoldable pub limit_by : String → ℕ → String → Request → Handler Gateway → Handler Gateway
unfolding judged seconds
limit_by bucket per_minute who r next g =
    let (v, redis) = limit bucket per_minute who r.redis_link (seconds r.now) g.redis in
    judged bucket v next (record g { redis = redis })

module _ (lib : Libraries) (c : Config) where
  unfoldable pub client : WalletClient Wire
  unfolding new_wallet_client
  client = new_wallet_client lib.parse_uuid c.max_retries

  -- "auth", by address
  unfoldable pub auth_limited : Request → Handler Gateway → Handler Gateway
  unfolding limit_by
  auth_limited r =
      limit_by "auth" c.auth_limit (client_ip c.trust_proxy r.forwarded_for r.remote_addr) r

  -- requireAuth, and then "user", by user
  unfoldable pub user_limited : Request → (String → Handler Gateway) → Handler Gateway
  unfolding limit_by
  user_limited r next =
      require_auth (verify lib.jwt c.tokens r.now) r.authorization
        (λ user_id. limit_by "user" c.user_limit user_id r (next user_id))

  unfoldable pub serve_route : Route → Request → Handler Gateway
  unfolding client read_json on_accounts on_wire auth_limited user_limited
  serve_route register r = auth_limited r (
      on_accounts (
        Accounts.register client lib.normal lib.is_address lib.hash_password lib.check_password
          (λ id. issue lib.jwt c.tokens id r.now) (seconds c.tokens.ttl)
          (read_json lib.decode_credentials r.body) r.new_id r.insertion))
  serve_route login r = auth_limited r (
      on_accounts (λ a. (
        Accounts.login client lib.normal lib.is_address lib.hash_password lib.check_password
            (λ id. issue lib.jwt c.tokens id r.now) (seconds c.tokens.ttl)
            (read_json lib.decode_credentials r.body) r.query_failure a,
        a,
      )))
  serve_route my_wallet r = user_limited r (λ u. on_wire (Api.get_my_wallet client u))
  serve_route deposits r =
      user_limited r (λ u.
        on_wire (Api.deposit client r.idempotency_key (read_json lib.decode_deposit r.body) u))
  serve_route transfers r = user_limited r (λ u.
      on_wire (Api.transfer client r.idempotency_key (read_json lib.decode_transfer r.body) u))
  serve_route (transfer_by_id id) r = user_limited r (λ u. on_wire (Api.get_transfer client id u))
  serve_route unmatched r = λ g. (write_error 404 "not found", g)

  -- observe: the request is counted by its method, its route and the status that was written.
  unfoldable pub serve : Request → Gateway → Response × Gateway
  unfolding serve_route
  serve r g =
      let route = route_of r.method r.path in
      let (a, g') = serve_route route r g in
      (
        a,
        record g' {
          http_requests =
              record { method = r.method; route = label route; status = a.status }
              ∷ g'.http_requests;
        },
      )

  -- Requests one after the other.
  unfoldable pub serve_all : List Request → Gateway → Gateway
  unfolding serve
  serve_all [] g = g
  serve_all (r ∷ rs) g = serve_all rs (serve r g).1
