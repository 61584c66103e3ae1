-- ===== src/Store/Invariant/Rows.antt =====
-- How an update of one balance changes the rows of wallet.wallets.
use wallet_ledger.Base.{
  ◌≡◌, refl, ◌∙◌, subst, ==_iff, inl, inr, true, false, not, ◌&&◌, Option, none, some, List, [],
  ◌∷◌, map, arith, ◌==◌, all, All, Bool-cases,
}
use wallet_ledger.Base.Int.{ℤ, ◌+ℤ◌, int_laws}
use wallet_ledger.Store.Schema.{Uuid, Wallet, Transaction, TxRow}
use wallet_ledger.Store.Write.{bump, bump_at, fits, fits_row, select_by_id}
use wallet_ledger.Store.Write.Stable.{all_id-bump_at, all_user-bump_at}
use wallet_ledger.Store.Invariant.{
  DistinctIds, DistinctUsers, InRange, has_id, refers, sum_balances,
}

-- An update keeps the id and the owner of every row.
pub id-bump_at : (i : Uuid) (d : ℤ) (w : Wallet) → (bump_at i d w).id ≡ w.id
unfolding bump_at bump
id-bump_at i d w = ground arith

user-bump_at : (i : Uuid) (d : ℤ) (w : Wallet) → (bump_at i d w).user_id ≡ w.user_id
unfolding bump_at bump
user-bump_at i d w = ground arith

fits-InRange : (d : ℤ) (w : Wallet) → fits d w ≡ true → InRange (bump d w)
unfolding fits bump
fits-InRange d w h = ground arith

module _ (i : Uuid) (d : ℤ) where
  -- No row has the id: nothing changes.
  pub bump_at-absent :
      (ws : List Wallet) → all (λ x. not (x.id == i)) ws ≡ true → map (bump_at i d) ws ≡ ws
  unfolding bump_at
  bump_at-absent [] h = refl
  bump_at-absent (w ∷ ws) h = ground (arith, bump_at-absent ws)

  pub bump_at-DistinctIds : (ws : List Wallet) → DistinctIds ws → DistinctIds (map (bump_at i d) ws)
  bump_at-DistinctIds [] h = tt
  bump_at-DistinctIds (w ∷ ws) h =
      (rw (id-bump_at i d w) (all_id-bump_at w.id i d ws ∙ h.0), bump_at-DistinctIds ws h.1)

  pub bump_at-DistinctUsers :
      (ws : List Wallet) → DistinctUsers ws → DistinctUsers (map (bump_at i d) ws)
  bump_at-DistinctUsers [] h = tt
  bump_at-DistinctUsers (w ∷ ws) h = (
    rw (user-bump_at i d w) (all_user-bump_at w.user_id i d ws ∙ h.0),
    bump_at-DistinctUsers ws h.1,
  )

  pub has_id-bump_at : (j : Uuid) (ws : List Wallet) → has_id j (map (bump_at i d) ws) ≡ has_id j ws
  has_id-bump_at j [] = refl
  has_id-bump_at j (w ∷ ws) = rw (id-bump_at i d w, has_id-bump_at j ws)

  refers-bump_at :
      (ws : List Wallet) (t : Transaction) → refers (map (bump_at i d) ws) t ≡ refers ws t
  refers-bump_at ws t = go t.from_wallet_id
    where
      go :
          (o : Option Uuid)
          → (elim o [ none ↦ true | some f ↦ has_id f (map (bump_at i d) ws) ]
              && has_id t.to_wallet_id (map (bump_at i d) ws))
            ≡ (elim o [ none ↦ true | some f ↦ has_id f ws ] && has_id t.to_wallet_id ws)
      go none = has_id-bump_at t.to_wallet_id ws
      go (some f) = rw (has_id-bump_at f ws, has_id-bump_at t.to_wallet_id ws)

  pub bump_at-refs :
      (ws : List Wallet) (rs : List TxRow)
      → All (λ r. refers ws r.tx ≡ true) rs
      → All (λ r. refers (map (bump_at i d) ws) r.tx ≡ true) rs
  bump_at-refs ws [] h = tt
  bump_at-refs ws (r ∷ rs) h = (refers-bump_at ws r.tx ∙ h.0, bump_at-refs ws rs h.1)

  pub fits_row-has_id :
      (ws : List Wallet) → fits_row d (select_by_id i ws) ≡ true → has_id i ws ≡ true
  unfolding fits_row select_by_id
  fits_row-has_id [] h = cc
  fits_row-has_id (w ∷ ws) h = ground (arith, fits_row-has_id ws)

  bump_at-here : (w : Wallet) → (w.id == i) ≡ true → bump_at i d w ≡ bump d w
  unfolding bump_at
  bump_at-here w h = rw h

  bump_at-there : (w : Wallet) → (w.id == i) ≡ false → bump_at i d w ≡ w
  unfolding bump_at
  bump_at-there w h = rw h

  -- The row with the id is the only one.
  only :
      (w : Wallet) (ws : List Wallet)
      → (w.id == i) ≡ true
      → all (λ x. not (x.id == w.id)) ws ≡ true
      → all (λ x. not (x.id == i)) ws ≡ true
  only w ws e h = subst (λ j. all (λ x. not (x.id == j)) ws ≡ true) ((==_iff w.id i).0 e) h

  pub bump_at-InRange :
      (ws : List Wallet)
      → DistinctIds ws
      → fits_row d (select_by_id i ws) ≡ true
      → All InRange ws
      → All InRange (map (bump_at i d) ws)
  unfolding fits_row select_by_id
  bump_at-InRange [] u h r = tt
  bump_at-InRange (w ∷ ws) u h r = elim (Bool-cases (w.id == i)) [
    | inl e ↦
        rw (bump_at-here w e, bump_at-absent ws (only w ws e u.0))
          (fits-InRange d w (rw e at h), r.1)
    | inr e ↦ rw (bump_at-there w e) (r.0, bump_at-InRange ws u.1 (rw e at h) r.1)
  ]

  pub sum_balances-bump_at :
      (ws : List Wallet)
      → DistinctIds ws
      → has_id i ws ≡ true
      → sum_balances (map (bump_at i d) ws) ≡ sum_balances ws +ℤ d
  unfolding sum_balances
  sum_balances-bump_at [] u h = cc
  sum_balances-bump_at (w ∷ ws) u h = elim (Bool-cases (w.id == i)) [
    | inl e ↦
        rw (bump_at-here w e, bump_at-absent ws (only w ws e u.0)) (unfold bump in omega int_laws)
    | inr e ↦ rw (bump_at-there w e, sum_balances-bump_at ws u.1 (rw e at h)) (omega int_laws)
  ]
