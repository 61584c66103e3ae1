-- ===== src/Store/Invariant/Commits.antt =====
-- Sound tables under each kind of commit of the wallet service.
use mathlib.Core.List.{Permᴰ}
use wallet_ledger.Base.{
  ℕ, ◌≡◌, refl, sym, ◌∙◌, ap, inl, inr, true, false, not, ◌&&◌, Option, none, some, List, [], ◌∷◌,
  map, arith, ltb, ◌==◌, all, All, Bool-cases, &&-true, &&-intro,
}
use wallet_ledger.Base.Int.{ℤ, pos, neg, neg64, ◌<ℤ◌, neg64_pos, int_laws, add_neg, add_neg_right}
use wallet_ledger.Store.Schema.{Uuid, Wallet, Transaction, TxRow, Db}
use wallet_ledger.Store.Write.{
  update_balance, add_transaction, bump_at, fits_row, select_by_id, apply, apply_all, valid,
  two_sides,
}
use wallet_ledger.Store.Write.Stable.{select_by_id-bump_at_ne}
use wallet_ledger.Store.Commit.{
  Deposit, Transfer, created, deposited, transferred, new_wallet, deposit_row, transfer_row,
  deposit_outbox, transfer_outbox, writes, admissible,
}
use wallet_ledger.Store.Invariant.{
  DistinctIds, DistinctUsers, DistinctKeys, InRange, has_id, refers, sum_balances, IsSound,
  entry_of_payload, entry_of_tx,
}
use wallet_ledger.Store.Invariant.Rows.{
  bump_at-InRange, bump_at-DistinctIds, bump_at-DistinctUsers, bump_at-refs, has_id-bump_at,
  fits_row-has_id, sum_balances-bump_at,
}
use wallet_ledger.Store.Invariant.Reconciled.{
  Reconciled, Reconciled-deposit, Reconciled-transfer, Reconciled-transfer_swapped, net-absent,
}
use wallet_ledger.Store.Invariant.Totals.{
  sum_deposits-deposit, sum_deposits-transfer, sum_balances-transfer,
}

-- The part of the invariant that every single update keeps.
record RowsSound (ws : List Wallet) (rs : List TxRow) : Type 0 where
  balances : All InRange ws
  ids : DistinctIds ws
  users : DistinctUsers ws
  refs : All (λ r. refers ws r.tx ≡ true) rs

rows_of : {d : Db} → IsSound d → RowsSound d.wallets d.transactions
rows_of s = record { balances = s.balances; ids = s.ids; users = s.users; refs = s.refs }

update-RowsSound :
    (i : Uuid) (a : ℤ) (ws : List Wallet) (rs : List TxRow)
    → fits_row a (select_by_id i ws) ≡ true
    → RowsSound ws rs
    → RowsSound (map (bump_at i a) ws) rs
update-RowsSound i a ws rs h s = record {
  balances = bump_at-InRange i a ws s.ids h s.balances;
  ids = bump_at-DistinctIds i a ws s.ids;
  users = bump_at-DistinctUsers i a ws s.users;
  refs = bump_at-refs i a ws rs s.refs;
}

-- Two updates of different rows, both admitted before the first.
update_two-RowsSound :
    (i j : Uuid) (a b : ℤ) (ws : List Wallet) (rs : List TxRow)
    → (i == j) ≡ false
    → fits_row a (select_by_id i ws) ≡ true
    → fits_row b (select_by_id j ws) ≡ true
    → RowsSound ws rs
    → RowsSound (map (bump_at j b) (map (bump_at i a) ws)) rs
update_two-RowsSound i j a b ws rs ne hi hj s =
    update-RowsSound j b (map (bump_at i a) ws) rs
      (ap (fits_row b) (select_by_id-bump_at_ne j i a ws ne) ∙ hj) (update-RowsSound i a ws rs hi s)

-- A new wallet: nothing refers to it, and it is empty.
refers-cons :
    (w : Wallet) (ws : List Wallet) (t : Transaction)
    → refers ws t ≡ true
    → refers (w ∷ ws) t ≡ true
refers-cons w ws t h = go t.from_wallet_id h
  where
    go :
        (o : Option Uuid)
        → (elim o [ none ↦ true | some f ↦ has_id f ws ] && has_id t.to_wallet_id ws) ≡ true
        → (elim o [ none ↦ true | some f ↦ has_id f (w ∷ ws) ] && has_id t.to_wallet_id (w ∷ ws))
          ≡ true
    go none h = ground arith
    go (some f) h = ground arith

refs-cons :
    (w : Wallet) (ws : List Wallet) (rs : List TxRow)
    → All (λ r. refers ws r.tx ≡ true) rs
    → All (λ r. refers (w ∷ ws) r.tx ≡ true) rs
refs-cons w ws [] h = tt
refs-cons w ws (r ∷ rs) h = (refers-cons w ws r.tx h.0, refs-cons w ws rs h.1)

pub created-IsSound :
    (i u : Uuid) (now : ℕ) (d : Db)
    → admissible (created i u now) d ≡ true
    → IsSound d
    → IsSound (apply_all (writes (created i u now)) d)
unfolding admissible writes valid apply_all apply new_wallet sum_balances
created-IsSound i u now d h s =
    let (fresh_id, fresh_user) =
      &&-true (all (λ x. not (x.id == i)) d.wallets) (all (λ x. not (x.user_id == u)) d.wallets)
        (&&-true _ true h).0 in
    record {
      balances = (omega arith, s.balances);
      ids = (fresh_id, s.ids);
      users = (fresh_user, s.users);
      keys = s.keys;
      refs = refs-cons (new_wallet i u now) d.wallets d.transactions s.refs;
      reconciled = (sym (net-absent i d.wallets d.transactions fresh_id s.refs), s.reconciled);
      conserved = rw s.conserved (omega int_laws);
      recorded = s.recorded;
      sent = s.sent;
    }

-- What the constraints say of the row of a transaction.
valid-row :
    (r : TxRow) (d : Db)
    → valid (add_transaction r) d ≡ true
    → (pos 0 <ℤ r.tx.amount_cents)
      × (two_sides r.tx ≡ true)
      × (DistinctKeys d.transactions → DistinctKeys (r ∷ d.transactions))
unfolding valid
valid-row r d h = (ground arith, ground arith, λ k. (ground arith, k))

valid-update :
    (i : Uuid) (a : ℤ) (d : Db)
    → valid (update_balance i a) d ≡ true
    → fits_row a (select_by_id i d.wallets) ≡ true
unfolding valid
valid-update i a d h = h

pub deposited-IsSound :
    (x : Deposit) (d : Db)
    → admissible (deposited x) d ≡ true
    → IsSound d
    → IsSound (apply_all (writes (deposited x)) d)
unfolding admissible writes apply_all apply deposit_row deposit_outbox
deposited-IsSound x d h s =
    let r = deposit_row x in
    let i = x.wallet.id in
    let (hu, h') = &&-true (valid (update_balance i x.amount) d) _ h in
    let fits_i = valid-update i x.amount d hu in
    let (hr, _) = &&-true (valid (add_transaction r) d) _ h' in
    let known = fits_row-has_id i x.amount d.wallets fits_i in
    let u = update-RowsSound i x.amount d.wallets d.transactions fits_i (rows_of s) in
    record {
      balances = u.balances;
      ids = u.ids;
      users = u.users;
      keys = (valid-row r d hr).2 s.keys;
      refs = (unfold deposit_row in has_id-bump_at i x.amount i d.wallets ∙ known, u.refs);
      reconciled = Reconciled-deposit r d.transactions d.wallets refl s.reconciled;
      conserved =
          sum_balances-bump_at i x.amount d.wallets s.ids known
          ∙ (rw (sum_deposits-deposit r d.transactions refl, s.conserved) refl);
      recorded = Permᴰ.cons refl s.recorded;
      sent = s.sent;
    }

recorded_transfer :
    (t : Transfer) → entry_of_payload (transfer_outbox t).payload ≡ entry_of_tx (transfer_row t)
unfolding transfer_row transfer_outbox
recorded_transfer t = refl

-- The two balances of a transfer once both are written, in the one order or the other.
module _ (t : Transfer) (d : Db) (ws : List Wallet) (s : IsSound d)
    (hr : valid (add_transaction (transfer_row t)) d ≡ true)
    (rows : RowsSound ws d.transactions) where
  transfer_rows-IsSound :
      refers ws (transfer_row t).tx ≡ true
      → Reconciled (transfer_row t ∷ d.transactions) ws
      → sum_balances ws ≡ sum_balances d.wallets
      → IsSound (record {
        wallets = ws;
        transactions = transfer_row t ∷ d.transactions;
        outbox = transfer_outbox t ∷ d.outbox;
        deleted = d.deleted;
      })
  transfer_rows-IsSound refs reconciled total =
      let r = transfer_row t in
      record {
        balances = rows.balances;
        ids = rows.ids;
        users = rows.users;
        keys = (valid-row r d hr).2 s.keys;
        refs = (refs, rows.refs);
        reconciled = reconciled;
        conserved =
            total
            ∙ (s.conserved
                ∙ sym (
                    sum_deposits-transfer r d.transactions t.sender.id
                      (unfold transfer_row in refl)));
        recorded = Permᴰ.cons (recorded_transfer t) s.recorded;
        sent = s.sent;
      }

-- The constraints that a transfer has passed, in whichever order.
transferred-valid :
    (t : Transfer) (d : Db)
    → admissible (transferred t) d ≡ true
    → (valid (update_balance t.sender.id (neg64 t.amount)) d ≡ true)
      × (valid (update_balance t.recipient.id t.amount) d ≡ true)
      × (valid (add_transaction (transfer_row t)) d ≡ true)
unfolding admissible writes
transferred-valid t d h = ground arith

two_sides-ne :
    (t : Transfer) → two_sides (transfer_row t).tx ≡ true → (t.sender.id == t.recipient.id) ≡ false
unfolding two_sides transfer_row
two_sides-ne t h = ground arith

==-sym : (i j : ℕ) → (i == j) ≡ false → (j == i) ≡ false
==-sym i j h = ground arith

transfer-refers :
    (t : Transfer) (ws : List Wallet)
    → has_id t.sender.id ws ≡ true
    → has_id t.recipient.id ws ≡ true
    → refers ws (transfer_row t).tx ≡ true
unfolding transfer_row
transfer-refers t ws hi hj = &&-intro (has_id t.sender.id ws) (has_id t.recipient.id ws) hi hj

-- Both orders write the same balances.
pub transferred-IsSound :
    (t : Transfer) (d : Db)
    → admissible (transferred t) d ≡ true
    → IsSound d
    → IsSound (apply_all (writes (transferred t)) d)
unfolding writes apply_all apply
transferred-IsSound t d h s =
    let r = transfer_row t in
    let a = t.amount in
    let i = t.sender.id in
    let j = t.recipient.id in
    let ws = d.wallets in
    let rs = d.transactions in
    let (hi, hj, hr) = transferred-valid t d h in
    let fi = valid-update i (neg64 a) d hi in
    let fj = valid-update j a d hj in
    let (positive, sides, _) = valid-row r d hr in
    let n : neg64 a ≡ neg a = neg64_pos a (unfold transfer_row in positive) in
    let ne = two_sides-ne t sides in
    let ki = fits_row-has_id i (neg64 a) ws fi in
    let kj = fits_row-has_id j a ws fj in
    let from : r.tx.from_wallet_id ≡ some i = unfold transfer_row in refl in
    let refer = λ (b c : ℤ) (x y : Uuid).
      transfer-refers t (map (bump_at y c) (map (bump_at x b) ws))
        (has_id-bump_at y c i (map (bump_at x b) ws) ∙ (has_id-bump_at x b i ws ∙ ki))
        (has_id-bump_at y c j (map (bump_at x b) ws) ∙ (has_id-bump_at x b j ws ∙ kj)) in
    elim (Bool-cases (ltb j i)) [
      | inl swap ↦ rw swap (
          transfer_rows-IsSound t d (map (bump_at i (neg64 a)) (map (bump_at j a) ws)) s hr
            (update_two-RowsSound j i a (neg64 a) ws rs (==-sym i j ne) fj fi (rows_of s))
            (refer a (neg64 a) j i)
            (rw n (unfold transfer_row in Reconciled-transfer_swapped r rs i refl ws s.reconciled))
            (sum_balances-transfer j i a (neg64 a) ws (rw n (add_neg_right a)) s.ids kj ki))
      | inr order ↦ rw order (
          transfer_rows-IsSound t d (map (bump_at j a) (map (bump_at i (neg64 a)) ws)) s hr
            (update_two-RowsSound i j (neg64 a) a ws rs ne fi fj (rows_of s))
            (refer (neg64 a) a i j)
            (rw n (unfold transfer_row in Reconciled-transfer r rs i refl ws s.reconciled))
            (sum_balances-transfer i j (neg64 a) a ws (rw n (add_neg a)) s.ids ki kj))
    ]
