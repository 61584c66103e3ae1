-- ===== src/Store/Wallets/Kept.antt =====
-- A wallet of services/wallet/store.go that stands in the tables stands there after any commit: no
-- statement deletes one, or changes its id or its user.
use wallet_ledger.Base.{
  ◌≡◌, refl, ◌∙◌, inl, inr, Bool, true, ◌&&◌, Bool-cases, some, [], List, ◌∷◌, ◌==◌, ltb, any, map,
  arith,
}
use wallet_ledger.Base.Int.{ℤ, neg64}
use wallet_ledger.Store.Schema.{Uuid, Instant, Wallet, Db}
use wallet_ledger.Store.Write.{select_by_user, bump_at, bump, apply, apply_all, all_valid}
use wallet_ledger.Store.Commit.{
  Commit, created, deposited, transferred, published, cleaned, writes, admissible, land, new_wallet,
}
use wallet_ledger.Store.Session.{Event, World, arrive}
use wallet_ledger.Store.Trace.{Trace, here, skip, other, mine}
use wallet_ledger.Store.Trace.Rules.{arrive-Holds}

abbrev pub has_wallet : Uuid → Uuid → List Wallet → Bool
has_wallet i u ws = any (λ w. w.id == i && w.user_id == u) ws

pub select_by_user-has_wallet :
    (u : Uuid) (ws : List Wallet) (v : Wallet)
    → select_by_user u ws ≡ some v
    → has_wallet v.id u ws ≡ true
unfolding select_by_user
select_by_user-has_wallet u [] v h = cc
select_by_user-has_wallet u (w ∷ ws) v h = ground (arith, select_by_user-has_wallet u ws v)

module _ (i u : Uuid) where
  has_wallet-bump_at :
      (j : Uuid) (d : ℤ) (ws : List Wallet)
      → has_wallet i u (map (bump_at j d) ws) ≡ has_wallet i u ws
  unfolding bump_at bump
  has_wallet-bump_at j d [] = refl
  has_wallet-bump_at j d (w ∷ ws) = ground (arith, has_wallet-bump_at j d ws)

  has_wallet-writes :
      (c : Commit) (d : Db)
      → has_wallet i u d.wallets ≡ true
      → has_wallet i u (apply_all (writes c) d).wallets ≡ true
  unfolding writes apply_all apply
  has_wallet-writes (created j v now) d h = ground arith
  has_wallet-writes (deposited x) d h = rw (has_wallet-bump_at x.wallet.id x.amount d.wallets) h
  has_wallet-writes (transferred t) d h = elim (Bool-cases (ltb t.recipient.id t.sender.id)) [
    | inl y ↦ rw y (
        has_wallet-bump_at _ _ (map (bump_at t.recipient.id t.amount) d.wallets)
        ∙ has_wallet-bump_at _ _ d.wallets
        ∙ h)
    | inr n ↦ rw n (
        has_wallet-bump_at _ _ (map (bump_at t.sender.id (neg64 t.amount)) d.wallets)
        ∙ has_wallet-bump_at _ _ d.wallets
        ∙ h)
  ]
  has_wallet-writes (published ids at) d h = h
  has_wallet-writes (cleaned hours now) d h = h

  has_wallet-land :
      (c : Commit) (d : Db)
      → has_wallet i u d.wallets ≡ true
      → has_wallet i u (land c d).wallets ≡ true
  unfolding land
  has_wallet-land c d h = ground (arith, has_wallet-writes c d h)

  has_wallet-Trace :
      {es : List Event} {d₀ : Db} {own : List Commit} {es' : List Event} {d : Db}
      → has_wallet i u d₀.wallets ≡ true
      → Trace es d₀ own es' d
      → has_wallet i u d.wallets ≡ true
  has_wallet-Trace h here = h
  has_wallet-Trace h (skip e t) = has_wallet-Trace h t
  has_wallet-Trace h (other {d = x} c t) = has_wallet-land c x (has_wallet-Trace h t)
  has_wallet-Trace h (mine {d = x} c t a) = has_wallet-land c x (has_wallet-Trace h t)

  -- So it does after what happens before a statement.
  pub has_wallet-arrive :
      (w : World)
      → w.pending ≡ []
      → has_wallet i u w.db.wallets ≡ true
      → has_wallet i u (arrive w).1.db.wallets ≡ true
  unfolding all_valid
  has_wallet-arrive w idle h =
      has_wallet-Trace h
        (arrive-Holds {s = w} w (record { pending = idle; trace = here; ready = refl })).trace

pub created-has_wallet :
    (i u : Uuid) (now : Instant) (d : Db)
    → admissible (created i u now) d ≡ true
    → has_wallet i u (land (created i u now) d).wallets ≡ true
unfolding land writes apply_all apply new_wallet
created-has_wallet i u now d good =
    let same : (i == i) ≡ true = ground arith in
    let mine : (u == u) ≡ true = ground arith in rw (good, same, mine) refl
