-- ===== src/Store/Alone.antt =====
-- Calls of Store.Transfer and Store.Deposit while no other session commits and nothing fails. Here: their
-- statements and attempts, one by one.
pub mod Transfers
pub mod Deposits
use wallet_ledger.Base.{
  ℕ, suc, subst, sym, ◌+◌, String, ◌≡◌, refl, ◌∙◌, Bool, true, false, not, ◌&&◌, ◌||◌, Bool-cases,
  &&-true, Option, none, some, List, [], ◌∷◌, ◌++◌, map, inl, inr, arith, ltb, ◌==◌, ==_iff, str_eq,
  if◌then◌else◌, all,
}
use wallet_ledger.Base.Int.{ℤ, neg64, ltb_ℤ}
use wallet_ledger.Store.Schema.{Uuid, Instant, Wallet, Kind, Transaction, TxRow, OutboxRow, Db}
use wallet_ledger.Store.Write.{
  Write, update_balance, add_transaction, add_outbox, select_by_id, select_by_user, fits, fits_row,
  valid, apply, apply_all, all_valid, bump_at,
}
use wallet_ledger.Store.Write.Stable.{select_by_id-bump_at_ne}
use wallet_ledger.Store.Commit.{
  Stamp, Deposit, Transfer, deposit_row, transfer_row, deposit_outbox, transfer_outbox, transferred,
  deposited, writes, admissible, land,
}
use wallet_ledger.Store.Session.{
  ◌>>◌, ◌>>=◌, pure, M, Error, same_wallet, currency_mismatch, insufficient_funds, Result, ok, err,
  Generator, World, arrive, statement, run, view, opened, begin, begin_func, finish, committed,
  rolled_back, commit, pop,
}
use wallet_ledger.Store.Trace.Reads.{select_by_id-id}
use wallet_ledger.Store.Invariant.{DistinctIds}
use wallet_ledger.Store.Query.{
  scan, push, wallet_by_user, wallet_by_id, row_by_key, find_by_key, update_row, apply_delta,
  insert_transaction, insert_outbox, draw,
}
use wallet_ledger.Store.Money.{
  Receipt, wrap, rewrap, transfer_body, transfer_found, transfer_new, transfer_checked,
  transfer_between, move_funds, is_not_found, retryable, retry, attempts, with_retries, transfer,
}

module _ (d : Db) (g : Generator) (n : ℕ) (now : Instant) (lr : List Kind) where
  -- A session that nothing disturbs, with its pending writes.
  abbrev pub alone : List Write → World
  alone ps = record {
    db = d;
    pending = ps;
    events = [];
    gen = g;
    draws = n;
    now = now;
    lock_retries = lr;
  }

  pub apply_delta-alone :
      (ps : List Write) (v : Wallet) (a : ℤ)
      → select_by_id v.id (apply_all ps d).wallets ≡ some v
      → fits a v ≡ true
      → apply_delta v a (alone ps) ≡ (ok tt, alone (ps ++ update_balance v.id a ∷ []))
  unfolding apply_delta statement run arrive view update_row push
  apply_delta-alone ps v a found fit =
      let same : (v.version == v.version) ≡ true = ground arith in
      rw (found, update_row, same, fit) refl

  pub insert_transaction-alone :
      (ps : List Write) (r : TxRow)
      → valid (add_transaction r) (apply_all ps d) ≡ true
      → insert_transaction r (alone ps) ≡ (ok r.tx, alone (ps ++ add_transaction r ∷ []))
  unfolding insert_transaction statement run arrive view push
  insert_transaction-alone ps r v = rw v refl

  pub insert_outbox-alone :
      (ps : List Write) (r : OutboxRow)
      → valid (add_outbox r) (apply_all ps d) ≡ true
      → insert_outbox r (alone ps) ≡ (ok tt, alone (ps ++ add_outbox r ∷ []))
  unfolding insert_outbox statement run arrive view push
  insert_outbox-alone ps r v = rw v refl

  -- Two balances change one after the other.
  pub both-alone :
      (v x : Wallet) (a b : ℤ)
      → select_by_id v.id d.wallets ≡ some v
      → select_by_id x.id d.wallets ≡ some x
      → (v.id == x.id) ≡ false
      → fits a v ≡ true
      → fits b x ≡ true
      → (apply_delta v a >> apply_delta x b) (alone [])
        ≡ (ok tt, alone (update_balance v.id a ∷ update_balance x.id b ∷ []))
  unfolding apply_all apply
  both-alone v x a b found found' apart fit fit' = rw (apply_delta-alone [] v a found fit) (
      apply_delta-alone (update_balance v.id a ∷ []) x b
        (select_by_id-bump_at_ne x.id v.id a d.wallets apart ∙ found') fit')

-- An update that is admitted fits the row that it meets.
pub fits-valid :
    (v : Wallet) (a : ℤ) (d : Db)
    → select_by_id v.id d.wallets ≡ some v
    → valid (update_balance v.id a) d ≡ true
    → fits a v ≡ true
unfolding valid fits_row
fits-valid v a d found good = rw found at good

-- The four writes of a transfer are admitted one by one.
pub four_valid :
    (a b c e : Write) (d : Db)
    → all_valid (a ∷ b ∷ c ∷ e ∷ []) d ≡ true
    → (valid a d ≡ true) × (valid b d ≡ true) × (valid c d ≡ true) × (valid e d ≡ true)
unfolding all_valid
four_valid a b c e d h = (ground arith, ground arith, ground arith, ground arith)

id_flip : (i j : Uuid) → (j == i) ≡ false → (i == j) ≡ false
id_flip i j h = ground arith

-- In a table with distinct ids the wallet of a user is found by its id too.
pub id-of_user :
    (u : Uuid) (ws : List Wallet) (s : Wallet)
    → DistinctIds ws
    → select_by_user u ws ≡ some s
    → (select_by_id s.id ws ≡ some s)
      × ((j : Uuid) → all (λ x. not (x.id == j)) ws ≡ true → (s.id == j) ≡ false)
unfolding select_by_user select_by_id
id-of_user u [] s h e = cc
id-of_user u (w ∷ ws) s h e = elim (Bool-cases (w.user_id == u)) [
  | inl y ↦
      let head : w ≡ s = ground (arith, y, e) in
      let found : (w.id == w.id) ≡ true = ground arith in
      subst
        (λ (v : Wallet).
          (select_by_id v.id (w ∷ ws) ≡ some v)
          × ((j : Uuid) → all (λ x. not (x.id == j)) (w ∷ ws) ≡ true → (v.id == j) ≡ false))
        head (rw found refl, λ j k. ground (arith, k))
  | inr m ↦
      let rest = id-of_user u ws s h.1 (rw m at e) in
      let apart = rest.1 w.id h.0 in
      (rw (id_flip w.id s.id apart) rest.0, λ j k. rest.1 j (ground (arith, k)))
]

-- An attempt that succeeds is the last, and so is one whose error is not retried.
pub with_retries-ok :
    (left : ℕ) (kind : Kind) (body : M Receipt) (w w' : World) (res : Receipt)
    → begin_func body w ≡ (ok res, w')
    → with_retries (suc left) kind body w ≡ (ok res, w')
unfolding with_retries attempts
with_retries-ok left kind body w w' res e = rw (e, retry) refl

pub with_retries-err :
    (left : ℕ) (kind : Kind) (body : M Receipt) (w w' : World) (e : Error)
    → begin_func body w ≡ (err e, w')
    → retryable e ≡ false
    → with_retries (suc left) kind body w ≡ (err e, w')
unfolding with_retries attempts
with_retries-err left kind body w w' e h final = rw (h, retry, final) refl

module _ (d : Db) (g : Generator) (n : ℕ) (t₀ : Instant) (lr : List Kind) where
  -- A session at rest, and its first transaction.
  abbrev pub idle : World
  idle = alone d g n t₀ lr []

  abbrev pub started : World
  started = alone d g (n + 1) (g.clock n) lr []

  pub begin_func-alone :
      (body : M Receipt) → begin_func body idle ≡ (let (x, w) = body started in finish x w)
  unfolding begin_func begin statement run arrive opened
  begin_func-alone body = refl
