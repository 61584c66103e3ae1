-- ===== src/Store/Trace/DepositBody.antt =====
-- The body of Store.Deposit between BEGIN and COMMIT.
use wallet_ledger.Base.{
  ◌+◌, String, ◌≡◌, refl, inl, inr, false, not, ◌||◌, Bool-cases, [], ◌∷◌, arith,
}
use wallet_ledger.Base.Int.{ℤ, eqb_ℤ}
use wallet_ledger.Store.Schema.{Uuid, Wallet, Kind, Transaction, is_deposit}
use wallet_ledger.Store.Write.{update_balance, add_transaction, add_outbox, conflict}
use wallet_ledger.Store.Commit.{Deposit, Commit, deposit_row, deposit_outbox, writes}
use wallet_ledger.Store.Session.{Result, ok, err, World, pure, ◌>>=◌, ◌>>◌}
use wallet_ledger.Store.Query.{
  wallet_by_user, find_by_key, apply_delta, insert_transaction, insert_outbox, draw,
}
use wallet_ledger.Store.Money.{
  Receipt, is_not_found, rewrap, wrap, deposit_into, deposit_new, deposit_found, deposit_body,
}
use wallet_ledger.Store.Trace.Rules.{
  Holds, Ends, Pushed, after-Ends, apply_delta-Ends, insert_transaction-Ends, insert_outbox-Ends,
}
use wallet_ledger.Store.Trace.Reads.{
  Ready, replay, fresh, Found, wrap-Ends, wallet_by_user-Ends, find_by_key-Found,
}

-- What `deposit` is asked for, and what a commit of it holds.
pub record DepositAsked (u : Uuid) (a : ℤ) (k : String) (d : Deposit) : Type 0 where
  pub user : d.user_id ≡ u
  pub owner : d.wallet.user_id ≡ u
  pub amount : d.amount ≡ a
  pub key : d.key ≡ k

abbrev pub IsDeposit : Uuid → ℤ → String → Commit → Type 0
IsDeposit u amount key c = (d : Deposit) × (c ≡ Commit.deposited d) × DepositAsked u amount key d

-- An existing transaction that answers the same request.
abbrev pub AnswersDeposit : ℤ → Transaction → Type 0
AnswersDeposit amount t = (t.kind ≡ Kind.deposit) × (t.amount_cents ≡ amount)

deposit_answers :
    {amount : ℤ} (t : Transaction)
    → (not (is_deposit t.kind) || not (eqb_ℤ t.amount_cents amount)) ≡ false
    → AnswersDeposit amount t
deposit_answers t h = ground arith

module _ (u : Uuid) (amount : ℤ) (key : String) (s : World) where
  abbrev DepositReady : Receipt → World → Type 0
  DepositReady = Ready (IsDeposit u amount key) (AnswersDeposit amount) u key s

  deposit_rows-Ends :
      (d : Deposit) (w : World)
      → DepositAsked u amount key d
      → Holds s (update_balance d.wallet.id d.amount ∷ []) w
      → Ends DepositReady s (
          (insert_transaction (deposit_row d) >>= λ t.
          insert_outbox (deposit_outbox d) >> pure (record { tx = t; replayed = false }))
            w)
  unfolding writes conflict
  deposit_rows-Ends d w a h =
      after-Ends
        (λ t x.
          (t ≡ (deposit_row d).tx)
          × Holds s (update_balance d.wallet.id d.amount ∷ add_transaction (deposit_row d) ∷ []) x)
        DepositReady s _ (insert_transaction (deposit_row d) w)
        (insert_transaction-Ends (deposit_row d) w h refl)
        (λ t x p.
          after-Ends
            (Pushed s (update_balance d.wallet.id d.amount ∷ add_transaction (deposit_row d) ∷ [])
              (add_outbox (deposit_outbox d)))
            DepositReady s _ (insert_outbox (deposit_outbox d) x)
            (insert_outbox-Ends (deposit_outbox d) x p.1 refl)
            (λ _ y q. fresh (Commit.deposited d) (d, refl, a) (rw p.0 refl) refl q))

  deposit_into-Ends :
      (v : Wallet) (w : World)
      → v.user_id ≡ u
      → Holds s [] w
      → Ends DepositReady s (deposit_into u amount key v w)
  unfolding deposit_into draw
  deposit_into-Ends v w owner h =
      after-Ends (Pushed s [] (update_balance v.id amount)) DepositReady s _
        (apply_delta v amount w) (apply_delta-Ends v amount w h refl)
        (λ _ x j.
          let d : Deposit = record {
            user_id = u;
            wallet = v;
            amount = amount;
            key = key;
            stamp = record { id = x.gen.uuid x.draws; now = x.now; serial = x.gen.serial x.draws };
          } in
          deposit_rows-Ends d (record x { draws = x.draws + 1 })
            (record { user = refl; owner = owner; amount = refl; key = refl })
            (record { pending = j.pending; trace = j.trace; ready = j.ready }))

  deposit_new-Ends : (w : World) → Holds s [] w → Ends DepositReady s (deposit_new u amount key w)
  unfolding deposit_new wrap
  deposit_new-Ends w h =
      let x = wallet_by_user u w in
      after-Ends (λ v y. (v.user_id ≡ u) × Holds s [] y) DepositReady s (deposit_into u amount key)
        (rewrap "wallet: " x.0, x.1)
        (wrap-Ends s (λ v y. (v.user_id ≡ u) × Holds s [] y) "wallet: " x
          (wallet_by_user-Ends s u w h))
        (λ v y p. deposit_into-Ends v y p.0 p.1)

  deposit_found-Ends :
      (found : Result Transaction) (w : World)
      → Found s u key found w
      → Ends DepositReady s (deposit_found u amount key found w)
  unfolding deposit_found
  deposit_found-Ends (err e) w h = elim (Bool-cases (is_not_found e)) [
    | inl missing ↦ rw missing (deposit_new-Ends w h)
    | inr failed ↦ rw failed h.trace
  ]
  deposit_found-Ends (ok t) w h =
      elim (Bool-cases (not (is_deposit t.kind) || not (eqb_ℤ t.amount_cents amount))) [
        | inl differs ↦ rw differs h.1.trace
        | inr same ↦ rw same (replay refl (deposit_answers t same) h.0 h.1)
      ]

  pub deposit_body-Ends :
      (w : World) → Holds s [] w → Ends DepositReady s (deposit_body u amount key w)
  unfolding deposit_body
  deposit_body-Ends w h =
      let x = find_by_key u key w in deposit_found-Ends x.0 x.1 (find_by_key-Found s u key w h)
