-- ===== src/Gateway/Http/Errors.antt =====
-- What a client of the REST API sees of an error of the store, through the wallet service's status and
-- the gateway's response.
use Prim.Native.String.{◌++◌ as append}
use wallet_ledger.Base.{ℕ, String, ◌≤◌, ◌≡◌, refl, true, false, Option, none, some, arith}
use wallet_ledger.Store.Session.{
  Error, insufficient_funds, same_wallet, currency_mismatch, idempotency_conflict,
  too_much_contention, version_conflict, db, panicked, pg, fault, context, other,
}
use wallet_ledger.Server.{to_status, is_business_error}
use wallet_ledger.Gateway.Http.{Response, error, http_status_for, wallet_error, write_error}

-- The errors that a client is told of, each with its status and the text of store.go; a missing row is
-- told by the name of what is missing before it.
abbrev pub told : Error → Option (ℕ × String)
told (Error.not_found what) = some (404, append what "not found")
told insufficient_funds = some (422, "insufficient funds")
told same_wallet = some (400, "cannot transfer to your own wallet")
told currency_mismatch = some (400, "currency mismatch")
told idempotency_conflict = some (409, "idempotency_key was already used for a different request")
told too_much_contention = some (409, "too much contention on this wallet, retry the request")
told version_conflict = none
told (db e) = none
told panicked = none

abbrev pub Tells : Error → Response → Option (ℕ × String) → Type 0
Tells e r (some (status, text)) =
    (is_business_error e ≡ true) × (r.status ≡ status) × (r.body ≡ error text)
Tells e r none =
    (is_business_error e ≡ false)
    × (500 ≤ r.status)
    × (r.status ≤ 504)
    × (r.body ≡ error "wallet service unavailable")

-- Through both services each business error of the store is a response with the 4xx status and the text
-- that stand in one table, and any other error a 5xx response with one fixed text.
pub wallet_error-to_status : (e : Error) → Tells e (wallet_error (to_status e)) (told e)
unfolding wallet_error write_error to_status http_status_for is_business_error
wallet_error-to_status (Error.not_found what) = (refl, refl, refl)
wallet_error-to_status insufficient_funds = (refl, refl, refl)
wallet_error-to_status same_wallet = (refl, refl, refl)
wallet_error-to_status currency_mismatch = (refl, refl, refl)
wallet_error-to_status idempotency_conflict = (refl, refl, refl)
wallet_error-to_status too_much_contention = (refl, refl, refl)
wallet_error-to_status version_conflict = (refl, omega arith, omega arith, refl)
wallet_error-to_status (db (pg c)) = (refl, omega arith, omega arith, refl)
wallet_error-to_status (db (fault (context c))) = (refl, omega arith, omega arith, refl)
wallet_error-to_status (db (fault (other m))) = (refl, omega arith, omega arith, refl)
wallet_error-to_status panicked = (refl, omega arith, omega arith, refl)
