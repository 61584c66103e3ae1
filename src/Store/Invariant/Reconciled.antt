-- ===== src/Store/Invariant/Reconciled.antt =====
-- Balances and what the transactions moved, commit by commit.
use wallet_ledger.Base.{
  ◌≡◌, refl, inl, inr, true, false, not, Option, none, some, List, [], ◌∷◌, map, arith, ◌==◌,
  if◌then◌else◌, all, All, Bool-cases,
}
use wallet_ledger.Base.Int.{ℤ, pos, ◌+ℤ◌, neg, int_laws}
use wallet_ledger.Store.Schema.{Uuid, Wallet, Transaction, TxRow}
use wallet_ledger.Store.Write.{bump, bump_at}
use wallet_ledger.Store.Invariant.{has_id, refers, net, outflow, inflow}
use wallet_ledger.Store.Invariant.Rows.{id-bump_at}

-- The balance of every wallet is what the transactions say.
abbrev pub Reconciled : List TxRow → List Wallet → Type 0
Reconciled rs ws = All (λ w. w.balance_cents ≡ net w.id rs) ws

balance-bump_at :
    (i : Uuid) (a : ℤ) (w : Wallet)
    → (bump_at i a w).balance_cents ≡ w.balance_cents +ℤ (if i == w.id then a else pos 0)
unfolding bump_at bump
balance-bump_at i a w = elim (Bool-cases (i == w.id)) [
  | inl e ↦ rw e (ground arith)
  | inr e ↦ rw e (grind int_laws)
]

net-cons :
    (i : Uuid) (r : TxRow) (rs : List TxRow)
    → net i (r ∷ rs) ≡ net i rs +ℤ outflow i r.tx +ℤ inflow i r.tx
unfolding net
net-cons i r rs = refl

outflow-none : (i : Uuid) (t : Transaction) → t.from_wallet_id ≡ none → outflow i t ≡ pos 0
outflow-none i t e = rw e

outflow-some :
    (i f : Uuid) (t : Transaction)
    → t.from_wallet_id ≡ some f
    → outflow i t ≡ (if f == i then neg t.amount_cents else pos 0)
outflow-some i f t e = rw e

-- A deposit.
pub Reconciled-deposit :
    (r : TxRow) (rs : List TxRow) (ws : List Wallet)
    → r.tx.from_wallet_id ≡ none
    → Reconciled rs ws
    → Reconciled (r ∷ rs) (map (bump_at r.tx.to_wallet_id r.tx.amount_cents) ws)
Reconciled-deposit r rs [] e h = tt
Reconciled-deposit r rs (w ∷ ws) e h =
    let i = r.tx.to_wallet_id in
    (
      rw
          (
            balance-bump_at i r.tx.amount_cents w,
            id-bump_at i r.tx.amount_cents w,
            net-cons w.id r rs,
            outflow-none w.id r.tx e,
            h.0,
          )
          (omega int_laws),
      Reconciled-deposit r rs ws e h.1,
    )

-- A transfer, whichever balance is written first.
module _ (r : TxRow) (rs : List TxRow) (f : Uuid) (from : r.tx.from_wallet_id ≡ some f) where
  pub Reconciled-transfer :
      (ws : List Wallet)
      → Reconciled rs ws
      → let a = r.tx.amount_cents in
        Reconciled (r ∷ rs) (map (bump_at r.tx.to_wallet_id a) (map (bump_at f (neg a)) ws))
  Reconciled-transfer [] h = tt
  Reconciled-transfer (w ∷ ws) h =
      let a = r.tx.amount_cents in
      let i = r.tx.to_wallet_id in
      let v = bump_at f (neg a) w in
      (
        rw
            (
              balance-bump_at i a v,
              id-bump_at i a v,
              balance-bump_at f (neg a) w,
              id-bump_at f (neg a) w,
              net-cons w.id r rs,
              outflow-some w.id f r.tx from,
              h.0,
            )
            (omega int_laws),
        Reconciled-transfer ws h.1,
      )

  pub Reconciled-transfer_swapped :
      (ws : List Wallet)
      → Reconciled rs ws
      → let a = r.tx.amount_cents in
        Reconciled (r ∷ rs) (map (bump_at f (neg a)) (map (bump_at r.tx.to_wallet_id a) ws))
  Reconciled-transfer_swapped [] h = tt
  Reconciled-transfer_swapped (w ∷ ws) h =
      let a = r.tx.amount_cents in
      let i = r.tx.to_wallet_id in
      let v = bump_at i a w in
      (
        rw
            (
              balance-bump_at f (neg a) v,
              id-bump_at f (neg a) v,
              balance-bump_at i a w,
              id-bump_at i a w,
              net-cons w.id r rs,
              outflow-some w.id f r.tx from,
              h.0,
            )
            (omega int_laws),
        Reconciled-transfer_swapped ws h.1,
      )

has_id-absent :
    (i j : Uuid) (ws : List Wallet)
    → has_id j ws ≡ true
    → all (λ x. not (x.id == i)) ws ≡ true
    → (j == i) ≡ false
has_id-absent i j [] h a = cc
has_id-absent i j (w ∷ ws) h a = ground (arith, has_id-absent i j ws)

flows-absent :
    (i : Uuid) (ws : List Wallet) (t : Transaction)
    → all (λ x. not (x.id == i)) ws ≡ true
    → refers ws t ≡ true
    → (outflow i t ≡ pos 0) × (inflow i t ≡ pos 0)
flows-absent i ws t a h = go t.from_wallet_id refl
  where
    go : (o : Option Uuid) → t.from_wallet_id ≡ o → (outflow i t ≡ pos 0) × (inflow i t ≡ pos 0)
    go none e = rw e (ground (arith, has_id-absent i t.to_wallet_id ws))
    go (some f) e = rw e (ground (arith, has_id-absent i t.to_wallet_id ws, has_id-absent i f ws))

-- No transaction refers to a wallet that does not exist yet.
pub net-absent :
    (i : Uuid) (ws : List Wallet) (rs : List TxRow)
    → all (λ x. not (x.id == i)) ws ≡ true
    → All (λ r. refers ws r.tx ≡ true) rs
    → net i rs ≡ pos 0
unfolding net
net-absent i ws [] a h = refl
net-absent i ws (r ∷ rs) a h =
    let f = flows-absent i ws r.tx a h.0 in rw (net-absent i ws rs a h.1, f.0, f.1) (omega int_laws)
