-- ===== src/Gateway/Routes/Sample.antt =====
-- A small gateway of services/gateway/main.go, its libraries and requests to it, for tests.
use wallet_ledger.Base.{
  ℕ, ◌+◌, ◌≡◌, refl, sym, subst, inl, inr, Bool, true, false, ◌&&◌, Bool-cases, String, Option,
  none, some, List, [], ◌∷◌, ◌++◌, ◌==◌, str_eq, eq_iff, if◌then◌else◌, any, arith,
}
use wallet_ledger.Base.Int.{ℤ, pos}
use wallet_ledger.Store.Schema.{Uuid, Wallet}
use wallet_ledger.Server.{unavailable}
use wallet_ledger.Gateway.Api.{Bytes, bearer, bytes_eq, is_empty}
use wallet_ledger.Gateway.Accounts.{works}
use wallet_ledger.Gateway.RateLimit.{up, down}
use wallet_ledger.Gateway.Tokens.{Claims, Jwt, TokenIssuer}
use wallet_ledger.Gateway.Tokens.Session.{codes, fresh, IsJwt}
use wallet_ledger.Gateway.Routes.{Libraries, Ending, Config, Request, Gateway}

-- A library of one token, "T", for the user "u1" until second 1000.
abbrev pub granted : Claims
granted = record { subject = "u1"; issued_at = 100; expires_at = some 1000 }

abbrev pub expires_then : Option ℕ → Bool
expires_then none = false
expires_then (some t) = t == 1000

abbrev pub grants : String → String → String → ℕ → Option ℕ → Bool
grants method secret subject issued expires =
    str_eq method "HS256"
    && (str_eq secret "k" && (str_eq subject "u1" && (issued == 100 && expires_then expires)))

abbrev pub parse_token : List String → Bool → String → ℕ → Bytes → Option Claims
parse_token methods required secret now token =
    if bytes_eq token (b'T' ∷ []) && str_eq secret "k"
    then (if any (λ m. str_eq m "HS256") methods && fresh required now (some 1000)
        then some granted
        else none)
    else none

abbrev pub sign_token : String → Claims → String → Option String
sign_token method c secret =
    if grants method secret c.subject c.issued_at c.expires_at then some "T" else none

abbrev pub jwt : Jwt
jwt = record { signed_string = sign_token; parse_with_claims = parse_token }

grants_lem :
    (method secret subject : String) (issued : ℕ) (expires : Option ℕ)
    → grants method secret subject issued expires ≡ true
    → (method ≡ "HS256")
      × (secret ≡ "k")
      × (record { subject = subject; issued_at = issued; expires_at = expires } ≡ granted)
grants_lem method secret subject issued none h = absurd (ground (arith, h))
grants_lem method secret subject issued (some t) h =
    let s : subject ≡ "u1" = ground (arith, h, eq_iff subject "u1") in
    let i : issued ≡ 100 = ground (arith, h) in
    let e : t ≡ 1000 = ground (arith, h) in
    (
      ground (arith, h, eq_iff method "HS256"),
      ground (arith, h, eq_iff secret "k"),
      λ j. record { subject = s j; issued_at = i j; expires_at = some (e j) },
    )

sign_token_lem :
    (method : String) (c : Claims) (secret text : String)
    → sign_token method c secret ≡ some text
    → (method ≡ "HS256") × (secret ≡ "k") × (c ≡ granted) × ("T" ≡ text)
sign_token_lem method c secret text e =
    elim (Bool-cases (grants method secret c.subject c.issued_at c.expires_at)) [
      | inl y ↦
          let (m, k, g) = grants_lem method secret c.subject c.issued_at c.expires_at y in
          let there : ◌≡◌ {A = Option String} (some "T") (some text) = rw y at e in (m, k, g, cc)
      | inr n ↦ let gone : ◌≡◌ {A = Option String} none (some text) = rw n at e in cc
    ]

abbrev pub Parses : List String → Bool → ℕ → String → String → Claims → String → Type 0
Parses methods required now method secret c text =
    parse_token methods required secret now (codes text) ≡ (
      if any (λ m. str_eq m method) methods && fresh required now c.expires_at
      then some c
      else none)

pub jwt-IsJwt : IsJwt jwt
unfolding codes is_empty bytes_eq
jwt-IsJwt = record {
  non_empty = λ method c secret text e.
      subst (λ (t : String). is_empty (codes t) ≡ false) (sign_token_lem method c secret text e).3
        refl;
  parses = λ method c secret text methods required now e.
      let (m, k, g, t) = sign_token_lem method c secret text e in
      let base : Parses methods required now "HS256" "k" granted "T" = refl in
      subst (λ (x : String). Parses methods required now x secret c text) (sym m)
        (subst (λ (x : String). Parses methods required now "HS256" x c text) (sym k)
          (subst (λ (x : Claims). Parses methods required now "HS256" "k" x text) (sym g)
            (subst (λ (x : String). Parses methods required now "HS256" "k" granted x) t base)));
}

abbrev pub parse_uuid : String → Option Uuid
parse_uuid s =
    if str_eq s "u1"
    then some 1
    else if str_eq s "w22"
    then some 22
    else if str_eq s "t1"
    then some 1001
    else none

abbrev pub some_amount : Ending → Bytes → Option ℤ
some_amount e b = some (pos 50)

abbrev pub some_transfer : Ending → Bytes → Option (String × ℤ)
some_transfer e b = some ("w22", pos 50)

abbrev pub same_text : String → String
same_text s = s

abbrev pub any_text : String → Bool
any_text s = true

abbrev pub plain_hash : String → Option String
plain_hash s = some s

abbrev pub lib : Libraries
lib = record {
  parse_uuid = parse_uuid;
  decode_credentials = λ e b. none;
  decode_deposit = some_amount;
  decode_transfer = some_transfer;
  normal = same_text;
  is_address = any_text;
  hash_password = plain_hash;
  check_password = str_eq;
  jwt = jwt;
}

abbrev pub issuer : TokenIssuer
issuer = record { secret = "k"; ttl = 900000000000 }

abbrev pub config : Config
config = record {
  tokens = issuer;
  trust_proxy = false;
  auth_limit = 10;
  user_limit = 60;
  max_retries = 3;
}

abbrev pub alice : Wallet
alice = record {
  id = 11;
  user_id = 1;
  balance_cents = pos 0;
  currency = "USD";
  version = 0;
  created_at = 100;
}

abbrev pub gateway : Gateway
gateway = record {
  accounts = record {
    users = record { id = "u1"; email = "a@b.c"; password_hash = "12345678" } ∷ [];
    behind = record {
      server = record {
        world = record {
          db = record { wallets = alice ∷ []; transactions = []; outbox = []; deleted = [] };
          pending = [];
          events = [];
          gen = record { uuid = λ n. 1000 + n; clock = λ n. 5000 + n; serial = λ n. 10 + n };
          draws = 0;
          now = 0;
          lock_retries = [];
        };
        transactions_total = [];
        grpc_requests = [];
      };
      fates = [];
      broken = record { code = unavailable; message = "EOF" };
    };
  };
  redis = λ k. none;
  rate_limited = [];
  http_requests = [];
}

abbrev pub paying_in : Request
paying_in = record {
  method = "POST";
  path = "wallets" ∷ "me" ∷ "deposits" ∷ [];
  authorization = bearer ++ (b' ' ∷ b'T' ∷ []);
  idempotency_key = "k1";
  forwarded_for = "";
  remote_addr = "10.0.0.7:4000";
  request_id = [];
  body = [];
  now = 200000000000;
  redis_link = up;
  insertion = works;
  new_id = "u9";
  query_failure = none;
  random = 0 ∷ 255 ∷ [];
}

-- Redis does not answer this one.
abbrev pub again : Request
again = record paying_in { redis_link = down; now = 230000000000 }

abbrev pub looking : Request
looking = record paying_in { method = "GET"; path = "wallets" ∷ "me" ∷ [] }

abbrev pub stranger : Request
stranger = record looking { authorization = bearer }
