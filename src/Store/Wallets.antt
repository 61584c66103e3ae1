-- ===== src/Store/Wallets.antt =====
-- Store.CreateWallet, Store.GetWalletByUser and Store.GetTransaction of services/wallet/store.go.
pub mod Lookup
pub mod Kept
pub mod Create
use wallet_ledger.Base.{
  ◌+◌, Bool, false, ◌&&◌, ◌||◌, Option, none, some, List, [], ◌∷◌, ◌==◌, any, if◌then◌else◌,
}
use wallet_ledger.Store.Schema.{Uuid, Wallet, Transaction, TxRow}
use wallet_ledger.Store.Write.{add_wallet, select_by_user, valid}
use wallet_ledger.Store.Commit.{new_wallet}
use wallet_ledger.Store.Session.{db, pg, ok, err, M, view}
use wallet_ledger.Store.Query.{scan, pooled, push}

unfoldable pub upsert : Uuid → Option Wallet → M Wallet
unfolding new_wallet push view
upsert u (some v) w = (ok v, w)
upsert u none w =
    let v = new_wallet (w.gen.uuid w.draws) u w.now in
    if valid (add_wallet v) (view w)
    then (ok v, push (add_wallet v) (record w { draws = w.draws + 1 }))
    else (err (db (pg "23505")), record w { draws = w.draws + 1 })

-- INSERT … ON CONFLICT (user_id) DO UPDATE SET user_id = EXCLUDED.user_id RETURNING …
unfoldable pub create_wallet : Uuid → M Wallet
unfolding pooled upsert view
create_wallet u = pooled (λ w. upsert u (select_by_user u (view w).wallets) w)

unfoldable pub get_wallet_by_user : Uuid → M Wallet
unfolding pooled scan view
get_wallet_by_user u = pooled (λ w. scan (select_by_user u (view w).wallets) w)

-- t.from_wallet_id = w.id OR t.to_wallet_id = w.id
unfoldable pub touches : Uuid → Transaction → Bool
touches i t = elim t.from_wallet_id [ none ↦ false | some f ↦ f == i ] || t.to_wallet_id == i

unfoldable pub row_by_id : Uuid → Uuid → List Wallet → List TxRow → Option Transaction
unfolding touches
row_by_id u i ws [] = none
row_by_id u i ws (r ∷ rs) =
    if r.tx.id == i && any (λ v. v.user_id == u && touches v.id r.tx) ws
    then some r.tx
    else row_by_id u i ws rs

unfoldable pub get_transaction : Uuid → Uuid → M Transaction
unfolding pooled scan view row_by_id
get_transaction u i = pooled (λ w. scan (row_by_id u i (view w).wallets (view w).transactions) w)
