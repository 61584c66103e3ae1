-- ===== src/Store/Alone/Transfers.antt =====
-- Store.Transfer on its own: what it does to the tables, and what it refuses.
use wallet_ledger.Base.{
  ℕ, suc, subst, sym, ◌+◌, String, ◌≡◌, refl, ◌∙◌, true, false, not, Bool-cases, Option, none, some,
  List, [], ◌∷◌, inl, inr, arith, ltb, ◌==◌, str_eq, if◌then◌else◌,
}
use wallet_ledger.Base.Int.{ℤ, neg64, ltb_ℤ}
use wallet_ledger.Store.Schema.{Uuid, Instant, Wallet, Kind, Db}
use wallet_ledger.Store.Write.{
  update_balance, add_transaction, add_outbox, select_by_id, select_by_user, valid, apply,
  apply_all, all_valid,
}
use wallet_ledger.Store.Commit.{
  Transfer, transfer_row, transfer_outbox, transferred, writes, admissible, land,
}
use wallet_ledger.Store.Session.{
  Error, same_wallet, currency_mismatch, insufficient_funds, ok, err, Generator, arrive, statement,
  run, view, opened, begin, begin_func, finish, committed, rolled_back, commit, pop,
}
use wallet_ledger.Store.Trace.Reads.{select_by_id-id}
use wallet_ledger.Store.Invariant.{DistinctIds}
use wallet_ledger.Store.Query.{scan, wallet_by_user, wallet_by_id, row_by_key, find_by_key, draw}
use wallet_ledger.Store.Money.{
  Receipt, transfer_body, transfer_found, transfer_new, transfer_checked, transfer_between,
  move_funds, is_not_found, retryable, transfer,
}
use wallet_ledger.Store.Alone.{
  alone, idle, started, insert_transaction-alone, insert_outbox-alone, both-alone, fits-valid,
  four_valid, id-of_user, with_retries-ok, with_retries-err,
}

-- A transfer with the values that the database generates next.
abbrev pub stamped : Uuid → ℤ → String → Wallet → Wallet → Generator → ℕ → Instant → Transfer
stamped u amount key s r g n now = record {
  user_id = u;
  sender = s;
  recipient = r;
  amount = amount;
  key = key;
  stamp = record { id = g.uuid n; now = now; serial = g.serial n };
}

module _ (d : Db) (g : Generator) (n : ℕ) (now : Instant) (lr : List Kind) (u to_wallet_id : Uuid)
    (amount : ℤ) (key : String) (s r : Wallet) where
  transfer_between-alone :
      let t = stamped u amount key s r g n now in
      select_by_id s.id d.wallets ≡ some s
      → select_by_id r.id d.wallets ≡ some r
      → (s.id == r.id) ≡ false
      → admissible (transferred t) d ≡ true
      → transfer_between u to_wallet_id amount key s r (alone d g n now lr []) ≡ (
        ok (record { tx = (transfer_row t).tx; replayed = false }),
        alone d g (n + 1) now lr (writes (transferred t)),
      )
  unfolding transfer_between move_funds draw admissible writes all_valid valid apply_all apply
  transfer_between-alone found found' apart good =
      let t = stamped u amount key s r g n now in
      elim (Bool-cases (ltb r.id s.id)) [
        | inl y ↦
            let h =
              four_valid (update_balance r.id amount) (update_balance s.id (neg64 amount))
                (add_transaction (transfer_row t)) (add_outbox (transfer_outbox t)) d
                (rw y at good) in
            rw
              (
                y,
                both-alone d g n now lr r s amount (neg64 amount) found' found
                    (ground (arith, apart)) (fits-valid r amount d found' h.0)
                    (fits-valid s (neg64 amount) d found h.1),
                insert_transaction-alone d g (n + 1) now lr
                    (update_balance r.id amount ∷ update_balance s.id (neg64 amount) ∷ [])
                    (transfer_row t) h.2,
                insert_outbox-alone d g (n + 1) now lr
                    (update_balance r.id amount
                      ∷ update_balance s.id (neg64 amount)
                      ∷ add_transaction (transfer_row t)
                      ∷ [])
                    (transfer_outbox t) h.3,
              )
              refl
        | inr m ↦
            let h =
              four_valid (update_balance s.id (neg64 amount)) (update_balance r.id amount)
                (add_transaction (transfer_row t)) (add_outbox (transfer_outbox t)) d
                (rw m at good) in
            rw
              (
                m,
                both-alone d g n now lr s r (neg64 amount) amount found found' apart
                    (fits-valid s (neg64 amount) d found h.0) (fits-valid r amount d found' h.1),
                insert_transaction-alone d g (n + 1) now lr
                    (update_balance s.id (neg64 amount) ∷ update_balance r.id amount ∷ [])
                    (transfer_row t) h.2,
                insert_outbox-alone d g (n + 1) now lr
                    (update_balance s.id (neg64 amount)
                      ∷ update_balance r.id amount
                      ∷ add_transaction (transfer_row t)
                      ∷ [])
                    (transfer_outbox t) h.3,
              )
              refl
      ]

-- The errors of a transfer, in order: a wallet to itself, two currencies, too little money.
abbrev pub refusal : Wallet → Wallet → ℤ → Option Error
refusal s r amount =
    if s.id == r.id
    then some same_wallet
    else if not (str_eq s.currency r.currency)
    then some currency_mismatch
    else if ltb_ℤ s.balance_cents amount
    then some insufficient_funds
    else none

abbrev none_error : Option Error
none_error = none

module _ (d : Db) (g : Generator) (n : ℕ) (t₀ : Instant) (lr : List Kind) (left : ℕ)
    (u to_wallet_id : Uuid) (amount : ℤ) (key : String) where
  module _ (s r : Wallet) (free : row_by_key u key d.transactions ≡ none)
      (sender : select_by_user u d.wallets ≡ some s)
      (recipient : select_by_id to_wallet_id d.wallets ≡ some r) where
    -- A call comes to the checks with both wallets.
    transfer_body-alone :
        transfer_body u to_wallet_id amount key (started d g n t₀ lr)
        ≡ transfer_checked u to_wallet_id amount key s r (started d g n t₀ lr)
    unfolding transfer_body find_by_key wallet_by_user wallet_by_id statement run arrive view scan
        apply_all
    transfer_body-alone =
        rw (free, transfer_found, is_not_found, transfer_new, sender, recipient) refl

    checked-alone :
        (s.id == r.id) ≡ false
        → str_eq s.currency r.currency ≡ true
        → ltb_ℤ s.balance_cents amount ≡ false
        → transfer_checked u to_wallet_id amount key s r (started d g n t₀ lr)
          ≡ transfer_between u to_wallet_id amount key s r (started d g n t₀ lr)
    unfolding transfer_checked
    checked-alone apart same covered = rw (apart, same, covered) refl

    -- While no other session commits and nothing fails, and with one attempt at least, a transfer
    -- under a free key between two different wallets of one currency, with a balance that covers
    -- the amount, succeeds at its first attempt, provided that the ids of the wallets are distinct
    -- and the constraints of the tables admit its writes. It answers with the new transaction, the
    -- tables are those of the transfer landed whole, and no retry is counted.
    pub transfer-alone :
        let t = stamped u amount key s r g (n + 1) (g.clock n) in
        DistinctIds d.wallets
        → (s.id == r.id) ≡ false
        → str_eq s.currency r.currency ≡ true
        → ltb_ℤ s.balance_cents amount ≡ false
        → admissible (transferred t) d ≡ true
        → let (res, w) = transfer (suc left) u to_wallet_id amount key (idle d g n t₀ lr) in
          (res ≡ ok (record { tx = (transfer_row t).tx; replayed = false }))
          × (w.db ≡ land (transferred t) d)
          × (w.pending ≡ [])
          × (w.lock_retries ≡ lr)
    unfolding transfer land finish commit pop committed view begin_func begin statement run arrive
        opened
    transfer-alone distinct apart same covered good =
        let t = stamped u amount key s r g (n + 1) (g.clock n) in
        let res : Receipt = record { tx = (transfer_row t).tx; replayed = false } in
        let by_id = select_by_id-id to_wallet_id d.wallets r recipient in
        let body : transfer_body u to_wallet_id amount key (started d g n t₀ lr)
            ≡ (ok res, alone d g (n + 1 + 1) (g.clock n) lr (writes (transferred t))) =
          transfer_body-alone
          ∙ checked-alone apart same covered
          ∙ transfer_between-alone d g (n + 1) (g.clock n) lr u to_wallet_id amount key s r
              (id-of_user u d.wallets s distinct sender).0
              (subst (λ (j : Uuid). select_by_id j d.wallets ≡ some r) (sym by_id) recipient) apart
              good in
        let done =
          with_retries-ok left Kind.transfer (transfer_body u to_wallet_id amount key)
            (idle d g n t₀ lr)
            (alone (apply_all (writes (transferred t)) d) g (n + 1 + 1) (g.clock n) lr []) res
            (rw body refl) in
        rw (done, good) (refl, refl, refl, refl)

    refused_at :
        (e : Error)
        → retryable e ≡ false
        → transfer_checked u to_wallet_id amount key s r (started d g n t₀ lr)
          ≡ (err e, started d g n t₀ lr)
        → transfer (suc left) u to_wallet_id amount key (idle d g n t₀ lr)
          ≡ (err e, started d g n t₀ lr)
    unfolding transfer finish rolled_back begin_func begin statement run arrive opened
    refused_at e final h =
        let body = transfer_body-alone ∙ h in
        with_retries-err left Kind.transfer (transfer_body u to_wallet_id amount key)
          (idle d g n t₀ lr) (started d g n t₀ lr) e (rw body refl) final

    refused_by :
        (f : Error)
        → retryable f ≡ false
        → (e : Error) → Option.some f ≡ some e
        → transfer_checked u to_wallet_id amount key s r (started d g n t₀ lr)
          ≡ (err f, started d g n t₀ lr)
        → transfer (suc left) u to_wallet_id amount key (idle d g n t₀ lr)
          ≡ (err e, started d g n t₀ lr)
    refused_by f final e h c =
        let same : f ≡ e = cc in
        subst
          (λ (x : Error).
            transfer (suc left) u to_wallet_id amount key (idle d g n t₀ lr)
            ≡ (err x, started d g n t₀ lr))
          same (refused_at f final c)

    -- While no other session commits and nothing fails, and with one attempt at least, a transfer
    -- under a free key between two wallets that are found, and that the checks refuse, fails at its
    -- first attempt with the error of the first check that it does not pass, and leaves the tables
    -- as they were.
    pub transfer-refused :
        (e : Error)
        → refusal s r amount ≡ some e
        → transfer (suc left) u to_wallet_id amount key (idle d g n t₀ lr)
          ≡ (err e, started d g n t₀ lr)
    unfolding retryable transfer_checked
    transfer-refused e h = elim (Bool-cases (s.id == r.id)) [
      | inl a ↦ refused_by same_wallet refl e (rw a at h) (rw a refl)
      | inr a ↦ elim (Bool-cases (str_eq s.currency r.currency)) [
        | inr b ↦ refused_by currency_mismatch refl e (rw (a, b) at h) (rw (a, b) refl)
        | inl b ↦ elim (Bool-cases (ltb_ℤ s.balance_cents amount)) [
          | inl c ↦ refused_by insufficient_funds refl e (rw (a, b, c) at h) (rw (a, b, c) refl)
          | inr c ↦ (let none_left : none_error ≡ some e = rw (a, b, c) at h in cc)
        ]
      ]
    ]
