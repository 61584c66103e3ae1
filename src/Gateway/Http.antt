-- ===== src/Gateway/Http.antt =====
-- Responses of services/gateway/httpx.go, and how a gRPC status becomes one in
-- services/gateway/walletclient.go and services/gateway/handlers.go.
pub mod Errors
use wallet_ledger.Base.{ℕ, String, Bool, true, false, Option, none, some, List, leb, if◌then◌else◌}
use wallet_ledger.Base.Int.{ℤ}
use wallet_ledger.Store.Schema.{Uuid, Kind}
use wallet_ledger.Server.{
  Code, okay, invalid_argument, deadline_exceeded, not_found, already_exists, failed_precondition,
  aborted, internal, unavailable, other_code, Status, WalletMessage, TransactionMessage,
}

-- walletJSON and transactionJSON
pub record WalletJson : Type 0 where
  pub id : Uuid
  pub user_id : Uuid
  pub balance_cents : ℤ
  pub currency : String
  pub version : ℕ
  pub created_at : ℕ

pub record TransactionJson : Type 0 where
  pub id : Uuid
  pub kind : Kind
  pub from_wallet_id : Option Uuid
  pub to_wallet_id : Uuid
  pub amount_cents : ℤ
  pub status : String
  pub idempotency_key : String
  pub created_at : ℕ

unfoldable pub to_wallet_json : WalletMessage → WalletJson
to_wallet_json w = record {
  id = w.id;
  user_id = w.user_id;
  balance_cents = w.balance_cents;
  currency = w.currency;
  version = w.version;
  created_at = w.created_at;
}

unfoldable pub to_transaction_json : TransactionMessage → TransactionJson
to_transaction_json t = record {
  id = t.id;
  kind = t.kind;
  from_wallet_id = t.from_wallet_id;
  to_wallet_id = t.to_wallet_id;
  amount_cents = t.amount_cents;
  status = t.status;
  idempotency_key = t.idempotency_key;
  created_at = t.created_at;
}

pub data Body : Type 0 where
  error : String → Body
  wallet : WalletJson → Body
  transaction : TransactionJson → Body
  -- userId and walletId, "" where there is none
  registered : String → Option Uuid → Body
  -- accessToken and expiresIn
  token : String → ℕ → Body

-- The X-RateLimit headers and Retry-After, where they are set.
pub record Limits : Type 0 where
  pub limit : ℕ
  pub remaining : ℕ
  pub retry_after : Option ℕ

pub record Response : Type 0 where
  pub status : ℕ
  pub body : Body
  pub limits : Option Limits

unfoldable pub write_json : ℕ → Body → Response
write_json status body = record { status = status; body = body; limits = none }

unfoldable pub write_error : ℕ → String → Response
unfolding write_json
write_error status text = write_json status (error text)

unfoldable pub http_status_for : Code → ℕ
http_status_for invalid_argument = 400
http_status_for not_found = 404
http_status_for already_exists = 409
http_status_for aborted = 409
http_status_for failed_precondition = 422
http_status_for unavailable = 503
http_status_for deadline_exceeded = 504
http_status_for _ = 500

-- api.walletError
unfoldable pub wallet_error : Status → Response
unfolding http_status_for write_error
wallet_error s =
    let status = http_status_for s.code in
    if leb 500 status
    then write_error status "wallet service unavailable"
    else write_error status s.message
