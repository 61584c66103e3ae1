-- ===== src/Store/Commit.antt =====
-- What a database transaction of services/wallet/store.go or services/wallet/outbox.go commits: the
-- rows that its INSERT statements write, and the whole of its writes as one step on the tables.
use wallet_ledger.Base.{ℕ, String, Bool, none, some, List, [], ◌∷◌, ltb, if◌then◌else◌}
use wallet_ledger.Base.Int.{ℤ, pos, neg64}
use wallet_ledger.Store.Schema.{
  Uuid, Instant, Wallet, Kind, TxRow, TransferEvent, DepositEvent, Payload, OutboxRow, Db,
  topic_transfers, topic_deposits,
}
use wallet_ledger.Store.Write.{
  Write, add_wallet, update_balance, add_transaction, add_outbox, mark_published, delete_sent,
  apply_all, all_valid,
}

-- What PostgreSQL generates for the new rows: gen_random_uuid(), now() and the bigserial.
pub record Stamp : Type 0 where
  pub id : Uuid
  pub now : Instant
  pub serial : ℕ

pub record Deposit : Type 0 where
  pub user_id : Uuid
  pub wallet : Wallet
  pub amount : ℤ
  pub key : String
  pub stamp : Stamp

pub record Transfer : Type 0 where
  pub user_id : Uuid
  pub sender : Wallet
  pub recipient : Wallet
  pub amount : ℤ
  pub key : String
  pub stamp : Stamp

-- INSERT INTO wallet.transactions … 'DEPOSIT'
unfoldable pub deposit_row : Deposit → TxRow
deposit_row d = record {
  user_id = d.user_id;
  tx = record {
    id = d.stamp.id;
    kind = Kind.deposit;
    from_wallet_id = none;
    to_wallet_id = d.wallet.id;
    amount_cents = d.amount;
    status = "COMPLETED";
    idempotency_key = d.key;
    created_at = d.stamp.now;
  };
}

-- INSERT INTO wallet.transactions … 'TRANSFER'
unfoldable pub transfer_row : Transfer → TxRow
transfer_row t = record {
  user_id = t.user_id;
  tx = record {
    id = t.stamp.id;
    kind = Kind.transfer;
    from_wallet_id = some t.sender.id;
    to_wallet_id = t.recipient.id;
    amount_cents = t.amount;
    status = "COMPLETED";
    idempotency_key = t.key;
    created_at = t.stamp.now;
  };
}

unfoldable pub deposit_event : Deposit → DepositEvent
deposit_event d = record {
  event_id = d.stamp.id;
  type = "DepositCompleted";
  transaction_id = d.stamp.id;
  wallet_id = d.wallet.id;
  user_id = d.user_id;
  amount_cents = d.amount;
  currency = d.wallet.currency;
  occurred_at = d.stamp.now;
}

unfoldable pub transfer_event : Transfer → TransferEvent
transfer_event t = record {
  event_id = t.stamp.id;
  type = "TransferCompleted";
  transaction_id = t.stamp.id;
  from_wallet_id = t.sender.id;
  to_wallet_id = t.recipient.id;
  from_user_id = t.sender.user_id;
  to_user_id = t.recipient.user_id;
  amount_cents = t.amount;
  currency = t.sender.currency;
  occurred_at = t.stamp.now;
}

-- INSERT INTO wallet.outbox (topic, message_key, payload)
unfoldable pub outbox_row : ℕ → Instant → String → Uuid → Payload → OutboxRow
outbox_row serial now topic key payload = record {
  id = serial;
  topic = topic;
  message_key = key;
  payload = payload;
  created_at = now;
  published_at = none;
}

unfoldable pub deposit_outbox : Deposit → OutboxRow
unfolding outbox_row deposit_event
deposit_outbox d =
    outbox_row d.stamp.serial d.stamp.now topic_deposits d.wallet.id
      (Payload.deposited (deposit_event d))

unfoldable pub transfer_outbox : Transfer → OutboxRow
unfolding outbox_row transfer_event
transfer_outbox t =
    outbox_row t.stamp.serial t.stamp.now topic_transfers t.sender.id
      (Payload.transferred (transfer_event t))

pub data Commit : Type 0 where
  created : Uuid → Uuid → Instant → Commit
  deposited : Deposit → Commit
  transferred : Transfer → Commit
  published : List ℕ → Instant → Commit
  cleaned : ℕ → Instant → Commit

-- A row with the defaults of the table.
unfoldable pub new_wallet : Uuid → Uuid → Instant → Wallet
new_wallet id user_id now = record {
  id = id;
  user_id = user_id;
  balance_cents = pos 0;
  currency = "USD";
  version = 0;
  created_at = now;
}

-- The writes of each in the order of the statements; the two balances of a transfer in id order.
unfoldable pub writes : Commit → List Write
writes (created id user_id now) = add_wallet (new_wallet id user_id now) ∷ []
writes (deposited d) =
    update_balance d.wallet.id d.amount
    ∷ add_transaction (deposit_row d)
    ∷ add_outbox (deposit_outbox d)
    ∷ []
writes (transferred t) =
    if ltb t.recipient.id t.sender.id
    then update_balance t.recipient.id t.amount
      ∷ update_balance t.sender.id (neg64 t.amount)
      ∷ add_transaction (transfer_row t)
      ∷ add_outbox (transfer_outbox t)
      ∷ []
    else update_balance t.sender.id (neg64 t.amount)
      ∷ update_balance t.recipient.id t.amount
      ∷ add_transaction (transfer_row t)
      ∷ add_outbox (transfer_outbox t)
      ∷ []
writes (published ids at) = mark_published ids at ∷ []
writes (cleaned hours now) = delete_sent hours now ∷ []

unfoldable pub admissible : Commit → Db → Bool
unfolding all_valid
admissible c db = all_valid (writes c) db

-- The serial meaning of a commit: all of its writes at once, if the constraints admit them.
unfoldable pub land : Commit → Db → Db
unfolding admissible
land c db = if admissible c db then apply_all (writes c) db else db
