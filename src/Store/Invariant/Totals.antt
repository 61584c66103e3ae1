-- ===== src/Store/Invariant/Totals.antt =====
-- The sum of all balances under a deposit and under a transfer.
use wallet_ledger.Base.{◌≡◌, true, none, some, List, ◌∷◌, map}
use wallet_ledger.Base.Int.{ℤ, pos, ◌+ℤ◌, int_laws, add_cancel}
use wallet_ledger.Store.Schema.{Uuid, Wallet, TxRow}
use wallet_ledger.Store.Write.{bump_at}
use wallet_ledger.Store.Invariant.{DistinctIds, has_id, sum_balances, sum_deposits}
use wallet_ledger.Store.Invariant.Rows.{sum_balances-bump_at, bump_at-DistinctIds, has_id-bump_at}

pub sum_deposits-deposit :
    (r : TxRow) (rs : List TxRow)
    → r.tx.from_wallet_id ≡ none
    → sum_deposits (r ∷ rs) ≡ sum_deposits rs +ℤ r.tx.amount_cents
unfolding sum_deposits
sum_deposits-deposit r rs e = rw e

pub sum_deposits-transfer :
    (r : TxRow) (rs : List TxRow) (f : Uuid)
    → r.tx.from_wallet_id ≡ some f
    → sum_deposits (r ∷ rs) ≡ sum_deposits rs
unfolding sum_deposits
sum_deposits-transfer r rs f e = rw e (omega int_laws)

-- What one balance loses another gains.
pub sum_balances-transfer :
    (i j : Uuid) (a b : ℤ) (ws : List Wallet)
    → a +ℤ b ≡ pos 0
    → DistinctIds ws
    → has_id i ws ≡ true
    → has_id j ws ≡ true
    → sum_balances (map (bump_at j b) (map (bump_at i a) ws)) ≡ sum_balances ws
sum_balances-transfer i j a b ws e u hi hj =
    rw
      (
        sum_balances-bump_at j b (map (bump_at i a) ws) (bump_at-DistinctIds i a ws u)
            (rw (has_id-bump_at i a j ws) hj),
        sum_balances-bump_at i a ws u hi,
      )
      (add_cancel (sum_balances ws) a b e)
