-- ===== src/Server.antt =====
-- The gRPC handlers of the wallet service, services/wallet/server.go, with the result counter of
-- services/wallet/metrics.go. The parser of UUIDs is a library's, and a parameter here.
pub mod Errors
pub mod Handlers
pub mod Moves
pub mod Payments
pub mod Metrics
mod Tests
use Prim.Native.String.{len, ◌++◌ as append}
use wallet_ledger.Base.{
  ℕ, ◌/◌, String, Bool, true, false, ◌&&◌, ◌||◌, Option, none, some, List, [], ◌∷◌, ltb, ◌==◌,
  str_eq, if◌then◌else◌,
}
use wallet_ledger.Base.Int.{ℤ, pos, leb_ℤ}
use wallet_ledger.Store.Schema.{Uuid, Instant, Wallet, Kind, Transaction}
use wallet_ledger.Store.Session.{
  Error, insufficient_funds, same_wallet, currency_mismatch, idempotency_conflict,
  too_much_contention, version_conflict, db, panicked, DbError, pg, fault, Fault, context, other,
  Result, ok, err, World, M,
}
use wallet_ledger.Store.Money.{Receipt}
use wallet_ledger.Store.Money
use wallet_ledger.Store.Wallets

-- The codes of google.golang.org/grpc/codes that the two services tell apart.
pub data Code : Type 0 where
  okay : Code
  invalid_argument : Code
  deadline_exceeded : Code
  not_found : Code
  already_exists : Code
  failed_precondition : Code
  aborted : Code
  internal : Code
  unavailable : Code
  -- any other code, by its number
  other_code : ℕ → Code

pub record Status : Type 0 where
  pub code : Code
  pub message : String

-- err.Error()
unfoldable pub error_text : Error → String
error_text (Error.not_found prefix) = append prefix "not found"
error_text insufficient_funds = "insufficient funds"
error_text same_wallet = "cannot transfer to your own wallet"
error_text currency_mismatch = "currency mismatch"
error_text idempotency_conflict = "idempotency_key was already used for a different request"
error_text too_much_contention = "too much contention on this wallet, retry the request"
error_text version_conflict = "version conflict"
error_text (db (pg c)) = c
error_text (db (fault (context c))) = "context ended"
error_text (db (fault (other m))) = m
error_text panicked = "panic"

unfoldable pub to_status : Error → Status
unfolding error_text
to_status (Error.not_found prefix) = record {
  code = Code.not_found;
  message = error_text (Error.not_found prefix);
}
to_status insufficient_funds = record {
  code = failed_precondition;
  message = error_text insufficient_funds;
}
to_status same_wallet = record { code = invalid_argument; message = error_text same_wallet }
to_status currency_mismatch = record {
  code = invalid_argument;
  message = error_text currency_mismatch;
}
to_status idempotency_conflict = record {
  code = already_exists;
  message = error_text idempotency_conflict;
}
to_status too_much_contention = record { code = aborted; message = error_text too_much_contention }
to_status (db (fault (context c))) = record {
  code = Code.deadline_exceeded;
  message = "request cancelled or timed out";
}
to_status _ = record { code = internal; message = "internal error" }

-- metrics.go
unfoldable pub is_business_error : Error → Bool
is_business_error (Error.not_found _) = true
is_business_error insufficient_funds = true
is_business_error same_wallet = true
is_business_error currency_mismatch = true
is_business_error idempotency_conflict = true
is_business_error too_much_contention = true
is_business_error _ = false

pub data Label : Type 0 where
  ok_label : Label
  replayed : Label
  rejected : Label
  error : Label

unfoldable pub result_label : Result Receipt → Label
unfolding is_business_error
result_label (ok res) = if res.replayed then replayed else ok_label
result_label (err e) = if is_business_error e then rejected else error

-- An answer to a call. A panic of a handler ends the process.
pub data Reply (A : Type 0) : Type 0 where
  reply : A → Reply A
  refuse : Status → Reply A
  crash : Reply A

-- The process: its database session, and wallet_transactions_total and wallet_grpc_requests_total with an
-- entry for each increment.
pub record Server : Type 0 where
  pub world : World
  pub transactions_total : List (Kind × Label)
  pub grpc_requests : List (String × Code)

-- Wallet.toProto and Transaction.toProto: RFC 3339 keeps whole seconds.
pub record WalletMessage : Type 0 where
  pub id : Uuid
  pub user_id : Uuid
  pub balance_cents : ℤ
  pub currency : String
  pub version : ℕ
  pub created_at : ℕ

pub record TransactionMessage : Type 0 where
  pub id : Uuid
  pub kind : Kind
  pub from_wallet_id : Option Uuid
  pub to_wallet_id : Uuid
  pub amount_cents : ℤ
  pub status : String
  pub idempotency_key : String
  pub created_at : ℕ

unfoldable pub wallet_to_proto : Wallet → WalletMessage
wallet_to_proto w = record {
  id = w.id;
  user_id = w.user_id;
  balance_cents = w.balance_cents;
  currency = w.currency;
  version = w.version;
  created_at = w.created_at / 1000000;
}

unfoldable pub transaction_to_proto : Transaction → TransactionMessage
transaction_to_proto t = record {
  id = t.id;
  kind = t.kind;
  from_wallet_id = t.from_wallet_id;
  to_wallet_id = t.to_wallet_id;
  amount_cents = t.amount_cents;
  status = t.status;
  idempotency_key = t.idempotency_key;
  created_at = t.created_at / 1000000;
}

pub record DepositRequest : Type 0 where
  pub user_id : String
  pub amount_cents : ℤ
  pub idempotency_key : String

pub record TransferRequest : Type 0 where
  pub user_id : String
  pub to_wallet_id : String
  pub amount_cents : ℤ
  pub idempotency_key : String

abbrev pub invalid : {A : Type 0} → String → Reply A
invalid text = refuse (record { code = invalid_argument; message = text })

unfoldable pub validate_money : ℤ → String → Option Status
validate_money amount key =
    if leb_ℤ amount (pos 0)
    then some
        (record { code = invalid_argument; message = "amount_cents must be a positive integer" })
    else if len key == 0 || ltb 200 (len key)
    then some (record {
      code = invalid_argument;
      message = "idempotency_key is required (1-200 characters)";
    })
    else none

-- toStatus of an error, or what the store returned; a panic is not caught.
unfoldable pub answer : {A B : Type 0} → (A → B) → Result A → Reply B
unfolding to_status
answer f (ok a) = reply (f a)
answer f (err panicked) = crash
answer f (err e) = refuse (to_status e)

unfoldable pub record_result : Kind → Result Receipt → Server → Server
unfolding result_label
record_result kind r s = record s {
  transactions_total = (kind, result_label r) ∷ s.transactions_total;
}

-- A panic passes by the call of recordResult.
unfoldable pub recorded : Kind → Result Receipt → Server → Server
unfolding record_result
recorded kind (err panicked) s = s
recorded kind r s = record_result kind r s

module _ (parse : String → Option Uuid) (max_retries : ℕ) where
  -- parseUUID, and what the handler does with the id.
  unfoldable pub with_uuid :
      {A : Type 0}
      → String
      → String
      → (Uuid → Server → Reply A × Server)
      → Server
      → Reply A × Server
  with_uuid value field k s = elim (parse value) [
    | none ↦ (invalid (append field " must be a UUID"), s)
    | some u ↦ k u s
  ]

  unfoldable pub with_money :
      {A : Type 0} → ℤ → String → (Server → Reply A × Server) → Server → Reply A × Server
  unfolding validate_money
  with_money amount key k s = elim (validate_money amount key) [
    | some status ↦ (refuse status, s)
    | none ↦ k s
  ]

  -- A call of the store on the server's session.
  unfoldable pub call : {A B : Type 0} → (A → B) → M A → Server → Reply B × Server
  unfolding answer
  call f m s = let (r, w) = m s.world in (answer f r, record s { world = w })

  -- The same for a movement of money, which is counted by its result.
  unfoldable pub move : Kind → M Receipt → Server → Reply TransactionMessage × Server
  unfolding answer recorded transaction_to_proto
  move kind m s =
      let (r, w) = m s.world in
      (answer (λ res. transaction_to_proto res.tx) r, recorded kind r (record s { world = w }))

  unfoldable pub create_wallet : String → Server → Reply WalletMessage × Server
  unfolding with_uuid call wallet_to_proto
  create_wallet user_id =
      with_uuid user_id "user_id" (λ u. call wallet_to_proto (Wallets.create_wallet u))

  unfoldable pub get_wallet : String → Server → Reply WalletMessage × Server
  unfolding with_uuid call wallet_to_proto
  get_wallet user_id =
      with_uuid user_id "user_id" (λ u. call wallet_to_proto (Wallets.get_wallet_by_user u))

  unfoldable pub deposit : DepositRequest → Server → Reply TransactionMessage × Server
  unfolding with_uuid with_money move
  deposit req = with_uuid req.user_id "user_id" (λ u.
      with_money req.amount_cents req.idempotency_key
        (move Kind.deposit (Money.deposit max_retries u req.amount_cents req.idempotency_key)))

  unfoldable pub transfer : TransferRequest → Server → Reply TransactionMessage × Server
  unfolding with_uuid with_money move
  transfer req = with_uuid req.user_id "user_id" (λ u.
      with_uuid req.to_wallet_id "to_wallet_id" (λ to_wallet_id.
        with_money req.amount_cents req.idempotency_key (
          move Kind.transfer
            (Money.transfer max_retries u to_wallet_id req.amount_cents req.idempotency_key))))

  unfoldable pub get_transaction : String → String → Server → Reply TransactionMessage × Server
  unfolding with_uuid call transaction_to_proto
  get_transaction user_id transaction_id = with_uuid user_id "user_id" (λ u.
      with_uuid transaction_id "transaction_id"
        (λ i. call transaction_to_proto (Wallets.get_transaction u i)))
