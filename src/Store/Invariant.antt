-- ===== src/Store/Invariant.antt =====
-- What sound tables of db/migrations/V2__wallet.sql are.
pub mod Rows
pub mod Reconciled
pub mod Totals
pub mod Commits
pub mod Outbox
pub mod Sound
use mathlib.Core.List.{Permᴰ}
use wallet_ledger.Base.{
  ℕ, ◌≡◌, Bool, true, false, not, ◌++◌, ◌&&◌, Option, none, some, List, [], ◌∷◌, map, ◌==◌,
  if◌then◌else◌, all, any, All,
}
use wallet_ledger.Base.Int.{ℤ, pos, ◌+ℤ◌, neg, ◌≤ℤ◌, max_int64}
use wallet_ledger.Store.Schema.{
  Uuid, Wallet, Kind, Transaction, TxRow, Payload, OutboxRow, Db, TransferEvent, DepositEvent,
}
use wallet_ledger.Store.Write.{same_key}

-- No two rows with one id; no two of one user.
abbrev pub DistinctIds : List Wallet → Type 0
DistinctIds [] = Unit
DistinctIds (w ∷ ws) = (all (λ x. not (x.id == w.id)) ws ≡ true) × DistinctIds ws

abbrev pub DistinctUsers : List Wallet → Type 0
DistinctUsers [] = Unit
DistinctUsers (w ∷ ws) = (all (λ x. not (x.user_id == w.user_id)) ws ≡ true) × DistinctUsers ws

-- No two transactions of one user under one idempotency key.
abbrev pub DistinctKeys : List TxRow → Type 0
DistinctKeys [] = Unit
DistinctKeys (r ∷ rs) =
    (all (λ x. not (same_key r.user_id r.tx.idempotency_key x)) rs ≡ true) × DistinctKeys rs

abbrev pub InRange : Wallet → Type 0
InRange w = (pos 0 ≤ℤ w.balance_cents) × (w.balance_cents ≤ℤ max_int64)

abbrev pub has_id : Uuid → List Wallet → Bool
has_id i ws = any (λ w. w.id == i) ws

-- The foreign keys of a transaction.
abbrev pub refers : List Wallet → Transaction → Bool
refers ws t =
    elim t.from_wallet_id [ none ↦ true | some f ↦ has_id f ws ] && has_id t.to_wallet_id ws

-- What a transaction moved out of a wallet, and into it.
abbrev pub outflow : Uuid → Transaction → ℤ
outflow i t = elim t.from_wallet_id [
  | none ↦ pos 0
  | some f ↦ if f == i then neg t.amount_cents else pos 0
]

abbrev pub inflow : Uuid → Transaction → ℤ
inflow i t = if t.to_wallet_id == i then t.amount_cents else pos 0

-- The balance of a wallet according to the transactions.
unfoldable pub net : Uuid → List TxRow → ℤ
net i [] = pos 0
net i (r ∷ rs) = net i rs +ℤ outflow i r.tx +ℤ inflow i r.tx

unfoldable pub sum_balances : List Wallet → ℤ
sum_balances [] = pos 0
sum_balances (w ∷ ws) = sum_balances ws +ℤ w.balance_cents

-- The money that came in: a deposit has no sender.
abbrev pub paid_in : Transaction → ℤ
paid_in t = elim t.from_wallet_id [ none ↦ t.amount_cents | some f ↦ pos 0 ]

unfoldable pub sum_deposits : List TxRow → ℤ
sum_deposits [] = pos 0
sum_deposits (r ∷ rs) = sum_deposits rs +ℤ paid_in r.tx

-- What the ledger service learns of a transaction from its event.
pub record Entry : Type 0 where
  pub id : Uuid
  pub from_wallet_id : Option Uuid
  pub to_wallet_id : Uuid
  pub amount_cents : ℤ

abbrev pub entry_of_tx : TxRow → Entry
entry_of_tx r = record {
  id = r.tx.id;
  from_wallet_id = r.tx.from_wallet_id;
  to_wallet_id = r.tx.to_wallet_id;
  amount_cents = r.tx.amount_cents;
}

abbrev pub entry_of_payload : Payload → Entry
entry_of_payload (Payload.transferred e) = record {
  id = e.transaction_id;
  from_wallet_id = some e.from_wallet_id;
  to_wallet_id = e.to_wallet_id;
  amount_cents = e.amount_cents;
}
entry_of_payload (Payload.deposited e) = record {
  id = e.transaction_id;
  from_wallet_id = none;
  to_wallet_id = e.wallet_id;
  amount_cents = e.amount_cents;
}

abbrev pub is_sent : OutboxRow → Bool
is_sent r = elim r.published_at [ none ↦ false | some t ↦ true ]

pub record IsSound (d : Db) : Type 0 where
  -- every balance is in range
  pub balances : All InRange d.wallets
  pub ids : DistinctIds d.wallets
  pub users : DistinctUsers d.wallets
  pub keys : DistinctKeys d.transactions
  pub refs : All (λ r. refers d.wallets r.tx ≡ true) d.transactions
  -- every balance is the sum of what the transactions moved
  pub reconciled : All (λ w. w.balance_cents ≡ net w.id d.transactions) d.wallets
  -- transfers neither make nor lose money
  pub conserved : sum_balances d.wallets ≡ sum_deposits d.transactions
  -- an event for each transaction, and no other, in the outbox or among what was deleted from it
  pub recorded :
      Permᴰ
        (map (λ r. entry_of_payload r.payload) (d.outbox ++ d.deleted))
        (map (λ r. entry_of_tx r) d.transactions)
  -- what was deleted had been sent
  pub sent : All (λ r. is_sent r ≡ true) d.deleted
