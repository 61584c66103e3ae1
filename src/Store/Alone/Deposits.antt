-- ===== src/Store/Alone/Deposits.antt =====
-- Store.Deposit on its own: what it does to the tables.
use wallet_ledger.Base.{
  ℕ, suc, ◌+◌, String, ◌≡◌, refl, ◌∙◌, true, false, none, some, List, [], ◌∷◌, arith,
}
use wallet_ledger.Base.Int.{ℤ}
use wallet_ledger.Store.Schema.{Uuid, Instant, Wallet, Kind, Db}
use wallet_ledger.Store.Write.{
  Write, update_balance, add_transaction, add_outbox, select_by_id, select_by_user, valid, apply,
  apply_all, all_valid,
}
use wallet_ledger.Store.Commit.{
  Deposit, deposit_row, deposit_outbox, deposited, writes, admissible, land,
}
use wallet_ledger.Store.Session.{
  ok, Generator, arrive, statement, run, view, opened, begin, begin_func, finish, committed, commit,
  pop,
}
use wallet_ledger.Store.Invariant.{DistinctIds}
use wallet_ledger.Store.Query.{scan, wallet_by_user, row_by_key, find_by_key, draw}
use wallet_ledger.Store.Money.{
  Receipt, deposit_body, deposit_found, deposit_new, deposit_into, is_not_found, deposit,
}
use wallet_ledger.Store.Alone.{
  alone, idle, started, apply_delta-alone, insert_transaction-alone, insert_outbox-alone,
  fits-valid, id-of_user, with_retries-ok,
}

-- A deposit with the values that the database generates next.
abbrev pub stamped : Uuid → ℤ → String → Wallet → Generator → ℕ → Instant → Deposit
stamped u amount key v g n now = record {
  user_id = u;
  wallet = v;
  amount = amount;
  key = key;
  stamp = record { id = g.uuid n; now = now; serial = g.serial n };
}

-- The three writes of a deposit are admitted one by one.
three_valid :
    (a b c : Write) (d : Db)
    → all_valid (a ∷ b ∷ c ∷ []) d ≡ true
    → (valid a d ≡ true) × (valid b d ≡ true) × (valid c d ≡ true)
unfolding all_valid
three_valid a b c d h = (ground arith, ground arith, ground arith)

deposit_into-alone :
    (d : Db) (g : Generator) (n : ℕ) (now : Instant) (lr : List Kind) (u : Uuid) (amount : ℤ)
    (key : String) (v : Wallet)
    → let t = stamped u amount key v g n now in
      select_by_id v.id d.wallets ≡ some v
      → admissible (deposited t) d ≡ true
      → deposit_into u amount key v (alone d g n now lr []) ≡ (
        ok (record { tx = (deposit_row t).tx; replayed = false }),
        alone d g (n + 1) now lr (writes (deposited t)),
      )
unfolding deposit_into draw admissible writes valid apply_all apply
deposit_into-alone d g n now lr u amount key v found good =
    let t = stamped u amount key v g n now in
    let bump = update_balance v.id amount in
    let row = add_transaction (deposit_row t) in
    let h = three_valid bump row (add_outbox (deposit_outbox t)) d good in
    rw
      (
        apply_delta-alone d g n now lr [] v amount found (fits-valid v amount d found h.0),
        insert_transaction-alone d g (n + 1) now lr (bump ∷ []) (deposit_row t) h.1,
        insert_outbox-alone d g (n + 1) now lr (bump ∷ row ∷ []) (deposit_outbox t) h.2,
      )
      refl

module _ (d : Db) (g : Generator) (n : ℕ) (t₀ : Instant) (lr : List Kind) (left : ℕ) (u : Uuid)
    (amount : ℤ) (key : String) (v : Wallet) where
  deposit_body-alone :
      row_by_key u key d.transactions ≡ none
      → select_by_user u d.wallets ≡ some v
      → deposit_body u amount key (started d g n t₀ lr)
        ≡ deposit_into u amount key v (started d g n t₀ lr)
  unfolding deposit_body find_by_key wallet_by_user statement run arrive view scan apply_all
  deposit_body-alone free found = rw (free, deposit_found, is_not_found, deposit_new, found) refl

  -- While no other session commits and nothing fails, and with one attempt at least, a deposit
  -- under a free key into the wallet of its user succeeds at its first attempt, provided that the
  -- ids of the wallets are distinct and the constraints of the tables admit its writes. It answers
  -- with the new transaction, the tables are those of the deposit landed whole, and no retry is
  -- counted.
  pub deposit-alone :
      let t = stamped u amount key v g (n + 1) (g.clock n) in
      row_by_key u key d.transactions ≡ none
      → select_by_user u d.wallets ≡ some v
      → DistinctIds d.wallets
      → admissible (deposited t) d ≡ true
      → let (res, w) = deposit (suc left) u amount key (idle d g n t₀ lr) in
        (res ≡ ok (record { tx = (deposit_row t).tx; replayed = false }))
        × (w.db ≡ land (deposited t) d)
        × (w.pending ≡ [])
        × (w.lock_retries ≡ lr)
  unfolding deposit land finish commit pop committed view begin_func begin statement run arrive
      opened
  deposit-alone free found distinct good =
      let t = stamped u amount key v g (n + 1) (g.clock n) in
      let res : Receipt = record { tx = (deposit_row t).tx; replayed = false } in
      let body =
        deposit_body-alone free found
        ∙ deposit_into-alone d g (n + 1) (g.clock n) lr u amount key v
            (id-of_user u d.wallets v distinct found).0 good in
      let done =
        with_retries-ok left Kind.deposit (deposit_body u amount key) (idle d g n t₀ lr)
          (alone (apply_all (writes (deposited t)) d) g (n + 1 + 1) (g.clock n) lr []) res
          (rw body refl) in
      rw (done, good) (refl, refl, refl, refl)
