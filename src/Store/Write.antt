-- ===== src/Store/Write.antt =====
-- The writes of the SQL in services/wallet/store.go and services/wallet/outbox.go, and the
-- constraints of db/migrations/V2__wallet.sql that PostgreSQL checks for each of them.
pub mod Stable
use wallet_ledger.Base.{
  ℕ, ◌+◌, ◌^◌, String, Bool, true, false, not, ◌&&◌, ◌||◌, Option, none, some, List, [], ◌∷◌, ◌++◌,
  ◌*◌, map, keep, ltb, ◌==◌, str_eq, if◌then◌else◌, all, any,
}
use wallet_ledger.Base.Int.{ℤ, pos, ◌+ℤ◌, ltb_ℤ, leb_ℤ, in_int64}
use wallet_ledger.Store.Schema.{Uuid, Instant, Wallet, Transaction, TxRow, OutboxRow, Db}

pub data Write : Type 0 where
  add_wallet : Wallet → Write
  update_balance : Uuid → ℤ → Write
  add_transaction : TxRow → Write
  add_outbox : OutboxRow → Write
  mark_published : List ℕ → Instant → Write
  delete_sent : ℕ → Instant → Write

-- WHERE id = $1
unfoldable pub select_by_id : Uuid → List Wallet → Option Wallet
select_by_id i [] = none
select_by_id i (w ∷ ws) = if w.id == i then some w else select_by_id i ws

-- WHERE user_id = $1
unfoldable pub select_by_user : Uuid → List Wallet → Option Wallet
select_by_user u [] = none
select_by_user u (w ∷ ws) = if w.user_id == u then some w else select_by_user u ws

-- balance_cents = balance_cents + $2, version = version + 1
unfoldable pub bump : ℤ → Wallet → Wallet
bump d w = record w { balance_cents = w.balance_cents +ℤ d; version = w.version + 1 }

unfoldable pub bump_at : Uuid → ℤ → Wallet → Wallet
unfolding bump
bump_at i d w = if w.id == i then bump d w else w

-- bigint and CHECK (balance_cents >= 0), and the range of the integer column `version`.
unfoldable pub fits : ℤ → Wallet → Bool
fits d w =
    in_int64 (w.balance_cents +ℤ d)
    && leb_ℤ (pos 0) (w.balance_cents +ℤ d)
    && ltb (w.version + 1) (2 ^ 31)

-- UNIQUE (user_id, idempotency_key)
unfoldable pub same_key : Uuid → String → TxRow → Bool
same_key u k r = r.user_id == u && str_eq r.tx.idempotency_key k

-- CHECK (from_wallet_id IS NULL OR from_wallet_id <> to_wallet_id)
unfoldable pub two_sides : Transaction → Bool
two_sides t = elim t.from_wallet_id [ none ↦ true | some f ↦ not (f == t.to_wallet_id) ]

unfoldable pub mem_id : ℕ → List ℕ → Bool
mem_id i [] = false
mem_id i (j ∷ js) = j == i || mem_id i js

unfoldable pub publish_at : List ℕ → Instant → OutboxRow → OutboxRow
publish_at ids at r = if mem_id r.id ids then record r { published_at = some at } else r

-- DELETE … WHERE published_at IS NOT NULL AND published_at < now() - make_interval(hours => $1)
unfoldable pub expired : ℕ → Instant → OutboxRow → Bool
expired hours now r = elim r.published_at [
  | none ↦ false
  | some t ↦ ltb (t + hours * 3600000000) now
]

unfoldable pub apply : Write → Db → Db
unfolding expired
apply (add_wallet w) db = record db { wallets = w ∷ db.wallets }
apply (update_balance i d) db = record db { wallets = map (bump_at i d) db.wallets }
apply (add_transaction t) db = record db { transactions = t ∷ db.transactions }
apply (add_outbox r) db = record db { outbox = r ∷ db.outbox }
apply (mark_published ids at) db = record db { outbox = map (publish_at ids at) db.outbox }
apply (delete_sent hours now) db = record db {
  outbox = keep (λ r. not (expired hours now r)) db.outbox;
  deleted = keep (expired hours now) db.outbox ++ db.deleted;
}

unfoldable pub fits_row : ℤ → Option Wallet → Bool
fits_row d none = false
fits_row d (some w) = fits d w

-- Whether the row exists and every constraint admits the write.
unfoldable pub valid : Write → Db → Bool
unfolding fits_row
valid (add_wallet w) db =
    all (λ x. not (x.id == w.id)) db.wallets && all (λ x. not (x.user_id == w.user_id)) db.wallets
valid (update_balance i d) db = fits_row d (select_by_id i db.wallets)
valid (add_transaction t) db =
    (ltb_ℤ (pos 0) t.tx.amount_cents && two_sides t.tx)
    && (all (λ x. not (x.tx.id == t.tx.id)) db.transactions
        && all (λ x. not (same_key t.user_id t.tx.idempotency_key x)) db.transactions)
-- PRIMARY KEY (id), and the sequence does not give an id of a deleted row again.
valid (add_outbox r) db =
    all (λ x. not (x.id == r.id)) db.outbox && all (λ x. not (x.id == r.id)) db.deleted
valid (mark_published ids at) db = true
valid (delete_sent hours now) db = true

-- Two writes of different transactions that cannot both be in flight: one waits for the other's
-- row lock, or for its entry in a unique index.
unfoldable pub conflict : Write → Write → Bool
conflict (add_wallet w) (add_wallet v) = v.id == w.id || v.user_id == w.user_id
conflict (update_balance i d) (add_wallet v) = v.id == i
conflict (update_balance i d) (update_balance j e) = j == i
conflict (add_transaction t) (add_transaction s) =
    s.tx.id == t.tx.id || same_key t.user_id t.tx.idempotency_key s
conflict (add_outbox r) (add_outbox q) = q.id == r.id
conflict _ _ = false

unfoldable pub apply_all : List Write → Db → Db
apply_all [] db = db
apply_all (w ∷ ws) db = apply_all ws (apply w db)

unfoldable pub all_valid : List Write → Db → Bool
all_valid ws db = all (λ w. valid w db) ws

unfoldable pub blocked : List Write → List Write → Bool
blocked ps ws = any (λ p. any (conflict p) ws) ps
