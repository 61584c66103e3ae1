-- ===== src/Gateway/Tests.antt =====
-- Requests to the gateway of services/gateway, and the theorems about them at one input each.
use wallet_ledger.Base.{
  str_eq, Bool, refl, ℕ, ◌+◌, ◌≤◌, ◌≡◌, ◌⊎◌, true, false, String, Option, none, some, List, [], ◌∷◌,
  ◌++◌, if◌then◌else◌,
}
use wallet_ledger.Store.Session.{Error}
use wallet_ledger.Server.{Code, Status, to_status}
use wallet_ledger.Gateway.Accounts
use wallet_ledger.Gateway.Accounts.{User, Accounts, Credentials, Insertion, login}
use wallet_ledger.Gateway.Accounts.Login.{DistinctEmails, IsUser, Admits, login_lem}
use wallet_ledger.Gateway.Http.{wallet_error, write_error}
use wallet_ledger.Gateway.Http.Errors.{told, Tells, wallet_error-to_status}
use wallet_ledger.Gateway.RateLimit.{Key, Redis, up, unheard}
use wallet_ledger.Gateway.RateLimit.Window.{Request, passed, passed-limit}
use wallet_ledger.Gateway.Api.{
  WalletClient, failed, Bytes, bearer, bytes_eq, is_empty, Handler, require_auth,
}
use wallet_ledger.Gateway.Api.Guards.{Unauthorized, require_auth_lem}

-- Three logins of one caller in a minute, of which one is not answered, and one of another.
abbrev requests : List Request
requests =
    record { bucket = "login"; who = "10.0.0.7"; link = up; now = 121 }
    ∷ record { bucket = "login"; who = "10.0.0.7"; link = unheard; now = 125 }
    ∷ record { bucket = "login"; who = "10.0.0.8"; link = up; now = 126 }
    ∷ record { bucket = "login"; who = "10.0.0.7"; link = up; now = 179 }
    ∷ []

abbrev counters : Redis
counters k = none

abbrev minute : Key
minute = record { bucket = "login"; who = "10.0.0.7"; window = 2 }

passed-limit_example : passed (λ b. 2) minute requests counters ≤ 2
passed-limit_example = passed-limit (λ b. 2) minute requests counters

abbrev verify : Bytes → Option String
verify token = if bytes_eq token (b'x' ∷ []) then some "u1" else none

abbrev handler : String → Handler ℕ
handler user_id g = (write_error 418 user_id, g + 1)

abbrev header : Bytes
header = bearer ++ (b' ' ∷ b'x' ∷ [])

require_auth_lem_example :
    let x = require_auth verify header handler 7 in
    Unauthorized 7 x
    ⊎ ((token : Bytes) × (user_id : String) × (header ≡ bearer ++ (b' ' ∷ token))
        × (is_empty token ≡ false)
        × (verify token ≡ some user_id)
        × (x ≡ handler user_id 7))
require_auth_lem_example = require_auth_lem verify header handler 7

-- A wallet service that is down, a hash that is the identity, and a token that is the id.
abbrev unavailable_status : Status
unavailable_status = record { code = Code.unavailable; message = "down" }

abbrev down_client : WalletClient ℕ
down_client = record {
  create_wallet = λ u g. (failed unavailable_status, g);
  get_wallet = λ u g. (failed unavailable_status, g);
  deposit = λ r g. (failed unavailable_status, g);
  transfer = λ r g. (failed unavailable_status, g);
  get_transaction = λ u i g. (failed unavailable_status, g);
}

abbrev unchanged : String → String
unchanged s = s

abbrev any_address : String → Bool
any_address s = true

abbrev plain : String → Option String
plain p = some p

abbrev accepts : String → String → Bool
accepts h p = str_eq h p

abbrev accounts : Accounts ℕ
accounts = record {
  users = record { id = "u1"; email = "a@b.c"; password_hash = "12345678" } ∷ [];
  behind = 7;
}

abbrev newcomer : Credentials
newcomer = record { email = "d@e.f"; password = "password" }

accounts-DistinctEmails : DistinctEmails accounts.users
unfolding Accounts.is_taken
accounts-DistinctEmails = (refl, tt)

login_lem_example :
    let c : Credentials = record { email = "a@b.c"; password = "12345678" } in
    let x =
      login down_client unchanged any_address plain accepts plain 900 (some c) none accounts in
    ((u : User) × IsUser accepts unchanged c accounts.users u
      × Admits down_client unchanged any_address plain accepts plain 900 u x)
    ⊎ ((u : User) → ¬ IsUser accepts unchanged c accounts.users u)
      × (x ≡ write_error 401 "invalid email or password")
login_lem_example =
    login_lem down_client unchanged any_address plain accepts plain 900
      (record { email = "a@b.c"; password = "12345678" }) accounts accounts-DistinctEmails

wallet_error-to_status_example :
    Tells Error.insufficient_funds
      (wallet_error (to_status Error.insufficient_funds))
      (told Error.insufficient_funds)
wallet_error-to_status_example = wallet_error-to_status Error.insufficient_funds
