-- ===== src/Store/Query.antt =====
-- The SELECT, UPDATE and INSERT statements of services/wallet/store.go, each as a statement of a
-- session, with the errors that the constraints of db/migrations/V2__wallet.sql raise.
use wallet_ledger.Base.{
  ◌+◌, ◌^◌, String, ◌&&◌, Option, none, some, List, [], ◌∷◌, ◌++◌, ltb, ◌==◌, if◌then◌else◌,
}
use wallet_ledger.Base.Int.{ℤ, pos, ◌+ℤ◌, ltb_ℤ, in_int64}
use wallet_ledger.Store.Schema.{Uuid, Wallet, Transaction, TxRow, OutboxRow}
use wallet_ledger.Store.Write.{
  Write, update_balance, add_transaction, add_outbox, select_by_id, select_by_user, fits, same_key,
  two_sides, valid,
}
use wallet_ledger.Store.Commit.{Stamp}
use wallet_ledger.Store.Session.{
  not_found, version_conflict, db, pg, ok, err, World, M, pure, raise, statement, view, opened,
  finish,
}

module _ {A : Type 0} where
  -- scanWallet and scanTx: no row is ErrNotFound.
  unfoldable pub scan : Option A → M A
  scan none = raise (not_found "")
  scan (some a) = pure a

  -- A query on the pool is a transaction of one statement.
  unfoldable pub pooled : M A → M A
  unfolding statement opened finish
  pooled m w = let (r, w') = statement m (opened w) in finish r w'

unfoldable pub push : Write → World → World
push v w = record w { pending = w.pending ++ v ∷ [] }

unfoldable pub wallet_by_user : Uuid → M Wallet
unfolding statement scan view
wallet_by_user u = statement (λ w. scan (select_by_user u (view w).wallets) w)

unfoldable pub wallet_by_id : Uuid → M Wallet
unfolding statement scan view
wallet_by_id i = statement (λ w. scan (select_by_id i (view w).wallets) w)

unfoldable pub row_by_key : Uuid → String → List TxRow → Option Transaction
unfolding same_key
row_by_key u k [] = none
row_by_key u k (r ∷ rs) = if same_key u k r then some r.tx else row_by_key u k rs

unfoldable pub find_by_key : Uuid → String → M Transaction
unfolding statement scan view
find_by_key u k = statement (λ w. scan (row_by_key u k (view w).transactions) w)

-- A sum out of the column's range is SQLSTATE 22003, a negative balance 23514.
unfoldable pub out_of_bounds : ℤ → Wallet → String
out_of_bounds d r =
    if in_int64 (r.balance_cents +ℤ d) && ltb (r.version + 1) (2 ^ 31) then "23514" else "22003"

unfoldable pub update_row : Wallet → ℤ → Option Wallet → M (Unit {0})
unfolding out_of_bounds push fits
update_row v d none w = (err version_conflict, w)
update_row v d (some r) w =
    if r.version == v.version
    then if fits d r
      then (ok tt, push (update_balance v.id d) w)
      else (err (db (pg (out_of_bounds d r))), w)
    else (err version_conflict, w)

-- UPDATE … WHERE id = $1 AND version = $3: no row is a version conflict.
unfoldable pub apply_delta : Wallet → ℤ → M (Unit {0})
unfolding statement update_row view
apply_delta v d = statement (λ w. update_row v d (select_by_id v.id (view w).wallets) w)

unfoldable pub row_violation : TxRow → String
row_violation r = if ltb_ℤ (pos 0) r.tx.amount_cents && two_sides r.tx then "23505" else "23514"

unfoldable pub insert_transaction : TxRow → M Transaction
unfolding statement push view row_violation
insert_transaction r = statement (λ w.
    if valid (add_transaction r) (view w)
    then (ok r.tx, push (add_transaction r) w)
    else (err (db (pg (row_violation r))), w))

unfoldable pub insert_outbox : OutboxRow → M (Unit {0})
unfolding statement push view
insert_outbox r = statement (λ w.
    if valid (add_outbox r) (view w)
    then (ok tt, push (add_outbox r) w)
    else (err (db (pg "23505")), w))

-- The values that PostgreSQL generates for the rows that this transaction inserts.
unfoldable pub draw : M Stamp
draw w = (
  ok (record { id = w.gen.uuid w.draws; now = w.now; serial = w.gen.serial w.draws }),
  record w { draws = w.draws + 1 },
)
