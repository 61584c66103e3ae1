-- ===== src/Store/Schema.antt =====
-- The rows of db/migrations/V2__wallet.sql and the types of services/wallet/store.go: wallets,
-- transactions, outbox rows and event payloads. A UUID is its 128-bit number, whose order is the
-- order of the canonical lowercase text; an instant is a number of microseconds.
use wallet_ledger.Base.{ℕ, String, Option, List, Bool, true, false}
use wallet_ledger.Base.Int.{ℤ}

abbrev pub Uuid : Type 0
Uuid = ℕ

abbrev pub Instant : Type 0
Instant = ℕ

pub record Wallet : Type 0 where
  pub id : Uuid
  pub user_id : Uuid
  pub balance_cents : ℤ
  pub currency : String
  pub version : ℕ
  pub created_at : Instant

pub data Kind : Type 0 where
  deposit : Kind
  transfer : Kind

-- `from_wallet_id` is none where the column is NULL, which the source reads as "".
pub record Transaction : Type 0 where
  pub id : Uuid
  pub kind : Kind
  pub from_wallet_id : Option Uuid
  pub to_wallet_id : Uuid
  pub amount_cents : ℤ
  pub status : String
  pub idempotency_key : String
  pub created_at : Instant

-- A row of wallet.transactions: the user who started it, and the columns that are read back.
pub record TxRow : Type 0 where
  pub user_id : Uuid
  pub tx : Transaction

pub record TransferEvent : Type 0 where
  pub event_id : Uuid
  pub type : String
  pub transaction_id : Uuid
  pub from_wallet_id : Uuid
  pub to_wallet_id : Uuid
  pub from_user_id : Uuid
  pub to_user_id : Uuid
  pub amount_cents : ℤ
  pub currency : String
  pub occurred_at : Instant

pub record DepositEvent : Type 0 where
  pub event_id : Uuid
  pub type : String
  pub transaction_id : Uuid
  pub wallet_id : Uuid
  pub user_id : Uuid
  pub amount_cents : ℤ
  pub currency : String
  pub occurred_at : Instant

pub data Payload : Type 0 where
  transferred : TransferEvent → Payload
  deposited : DepositEvent → Payload

pub record OutboxRow : Type 0 where
  pub id : ℕ
  pub topic : String
  pub message_key : Uuid
  pub payload : Payload
  pub created_at : Instant
  pub published_at : Option Instant

pub record Db : Type 0 where
  pub wallets : List Wallet
  pub transactions : List TxRow
  pub outbox : List OutboxRow
  -- the rows of the outbox that have been deleted: a history, which no statement reads
  pub deleted : List OutboxRow

abbrev pub topic_transfers : String
topic_transfers = "transfers.completed"

abbrev pub topic_deposits : String
topic_deposits = "wallet.deposited"

abbrev pub is_deposit : Kind → Bool
is_deposit Kind.deposit = true
is_deposit Kind.transfer = false

abbrev pub is_transfer : Kind → Bool
is_transfer Kind.deposit = false
is_transfer Kind.transfer = true
