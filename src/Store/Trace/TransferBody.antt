-- ===== src/Store/Trace/TransferBody.antt =====
-- The body of Store.Transfer between BEGIN and COMMIT.
use wallet_ledger.Base.{
  ◌+◌, String, ◌≡◌, ◌≢◌, refl, subst, any, inl, inr, false, not, ◌||◌, Bool-cases, List, [], ◌∷◌,
  ◌++◌, arith, ltb, ◌==◌, str_eq, eq_iff, if◌then◌else◌,
}
use wallet_ledger.Base.Int.{ℤ, ◌≤ℤ◌, ltb_ℤ, eqb_ℤ, neg64}
use wallet_ledger.Store.Schema.{Uuid, Wallet, Kind, Transaction, TxRow, OutboxRow, is_transfer}
use wallet_ledger.Store.Write.{Write, update_balance, add_transaction, add_outbox, conflict}
use wallet_ledger.Store.Commit.{Transfer, Commit, transfer_row, transfer_outbox, writes}
use wallet_ledger.Store.Session.{Result, ok, err, World, pure, ◌>>=◌, ◌>>◌}
use wallet_ledger.Store.Query.{
  wallet_by_user, wallet_by_id, find_by_key, apply_delta, insert_transaction, insert_outbox, draw,
}
use wallet_ledger.Store.Money.{
  Receipt, is_not_found, rewrap, wrap, move_funds, transfer_between, transfer_checked, transfer_new,
  transfer_found, transfer_body,
}
use wallet_ledger.Store.Trace.Rules.{
  Holds, Ends, Pushed, after-Ends, apply_delta-Ends, insert_transaction-Ends, insert_outbox-Ends,
}
use wallet_ledger.Store.Trace.Reads.{
  Ready, replay, fresh, Found, wrap-Ends, wallet_by_user-Ends, wallet_by_id-Ends, find_by_key-Found,
}

-- What `transfer` is asked for, and what a commit of it holds.
pub record TransferAsked (u to_wallet_id : Uuid) (a : ℤ) (k : String) (t : Transfer) : Type 0 where
  pub user : t.user_id ≡ u
  pub owner : t.sender.user_id ≡ u
  pub target : t.recipient.id ≡ to_wallet_id
  pub amount : t.amount ≡ a
  pub key : t.key ≡ k
  pub distinct : t.sender.id ≢ t.recipient.id
  pub same_currency : t.sender.currency ≡ t.recipient.currency
  pub covered : a ≤ℤ t.sender.balance_cents

abbrev pub IsTransfer : Uuid → Uuid → ℤ → String → Commit → Type 0
IsTransfer u to_wallet_id a k c =
    (t : Transfer) × (c ≡ Commit.transferred t) × TransferAsked u to_wallet_id a k t

-- An existing transaction that answers the same request.
abbrev pub AnswersTransfer : Uuid → ℤ → Transaction → Type 0
AnswersTransfer to_wallet_id a t =
    (t.kind ≡ Kind.transfer) × (t.amount_cents ≡ a) × (t.to_wallet_id ≡ to_wallet_id)

transfer_answers :
    {to_wallet_id : Uuid} {amount : ℤ} (t : Transaction)
    → (not (is_transfer t.kind)
        || (not (eqb_ℤ t.amount_cents amount) || not (t.to_wallet_id == to_wallet_id)))
      ≡ false
    → AnswersTransfer to_wallet_id amount t
transfer_answers t h = ground arith

-- The two updates of a transfer, in the order of the wallet ids.
updates : Wallet → Wallet → ℤ → List Write
updates v r a =
    if ltb r.id v.id
    then update_balance r.id a ∷ update_balance v.id (neg64 a) ∷ []
    else update_balance v.id (neg64 a) ∷ update_balance r.id a ∷ []

updates-free :
    (v r : Wallet) (a : ℤ) (row : TxRow)
    → any (conflict (add_transaction row)) (updates v r a) ≡ false
unfolding updates conflict
updates-free v r a row = ground arith

updates-free_outbox :
    (v r : Wallet) (a : ℤ) (row : TxRow) (o : OutboxRow)
    → any (conflict (add_outbox o)) (updates v r a ++ add_transaction row ∷ []) ≡ false
unfolding updates conflict
updates-free_outbox v r a row o = ground arith

updates-writes :
    (t : Transfer)
    → (updates t.sender t.recipient t.amount ++ add_transaction (transfer_row t) ∷ [])
        ++ add_outbox (transfer_outbox t) ∷ []
      ≡ writes (Commit.transferred t)
unfolding writes updates
updates-writes t = ground arith

module _ (u to_wallet_id : Uuid) (amount : ℤ) (key : String) (s : World) where
  abbrev TransferReady : Receipt → World → Type 0
  TransferReady =
      Ready (IsTransfer u to_wallet_id amount key) (AnswersTransfer to_wallet_id amount) u key s

  -- Two updates of different wallets, one after the other.
  update_two-Ends :
      (v v' : Wallet) (d d' : ℤ) (w : World)
      → (v.id == v'.id) ≡ false
      → Holds s [] w
      → Ends
          (λ _ x. Holds s (update_balance v.id d ∷ update_balance v'.id d' ∷ []) x)
          s
          ((apply_delta v d >> apply_delta v' d') w)
  unfolding conflict
  update_two-Ends v v' d d' w ne h =
      let Q = λ (_ : Unit {0}) (x : World).
        Holds s (update_balance v.id d ∷ update_balance v'.id d' ∷ []) x in
      after-Ends (Pushed s [] (update_balance v.id d)) Q s (λ _. apply_delta v' d')
        (apply_delta v d w) (apply_delta-Ends v d w h refl)
        (λ _ x j. apply_delta-Ends v' d' x j (rw ne))

  move_funds-Ends :
      (v r : Wallet) (w : World)
      → (v.id == r.id) ≡ false
      → Holds s [] w
      → Ends (λ _ x. Holds s (updates v r amount) x) s (move_funds u to_wallet_id amount key v r w)
  unfolding move_funds updates
  move_funds-Ends v r w ne h = elim (Bool-cases (ltb r.id v.id)) [
    | inl swap ↦ rw swap (update_two-Ends r v amount (neg64 amount) w (ground arith) h)
    | inr order ↦ rw order (update_two-Ends v r (neg64 amount) amount w ne h)
  ]

  transfer_rows-Ends :
      (t : Transfer) (w : World)
      → TransferAsked u to_wallet_id amount key t
      → Holds s (updates t.sender t.recipient t.amount) w
      → Ends TransferReady s (
          (insert_transaction (transfer_row t) >>= λ x.
          insert_outbox (transfer_outbox t) >> pure (record { tx = x; replayed = false }))
            w)
  transfer_rows-Ends t w a h =
      let ps = updates t.sender t.recipient t.amount in
      let qs = ps ++ add_transaction (transfer_row t) ∷ [] in
      after-Ends (λ x y. (x ≡ (transfer_row t).tx) × Holds s qs y) TransferReady s _
        (insert_transaction (transfer_row t) w)
        (insert_transaction-Ends (transfer_row t) w h
          (updates-free t.sender t.recipient t.amount (transfer_row t)))
        (λ x y p.
          after-Ends (Pushed s qs (add_outbox (transfer_outbox t))) TransferReady s _
            (insert_outbox (transfer_outbox t) y)
            (insert_outbox-Ends (transfer_outbox t) y p.1 (
              updates-free_outbox t.sender t.recipient t.amount (transfer_row t)
                (transfer_outbox t)))
            (λ _ z q.
              fresh (Commit.transferred t) (t, refl, a) (rw p.0 refl) refl
                (subst (λ (l : List Write). Holds s l z) (updates-writes t) q)))

  transfer_between-Ends :
      (v r : Wallet) (w : World)
      → v.user_id ≡ u
      → r.id ≡ to_wallet_id
      → (v.id == r.id) ≡ false
      → v.currency ≡ r.currency
      → amount ≤ℤ v.balance_cents
      → Holds s [] w
      → Ends TransferReady s (transfer_between u to_wallet_id amount key v r w)
  unfolding transfer_between draw
  transfer_between-Ends v r w owner target ne currency covered h =
      after-Ends (λ _ x. Holds s (updates v r amount) x) TransferReady s _
        (move_funds u to_wallet_id amount key v r w) (move_funds-Ends v r w ne h)
        (λ _ x j.
          let t : Transfer = record {
            user_id = u;
            sender = v;
            recipient = r;
            amount = amount;
            key = key;
            stamp = record { id = x.gen.uuid x.draws; now = x.now; serial = x.gen.serial x.draws };
          } in
          transfer_rows-Ends t (record x { draws = x.draws + 1 })
            (record {
              user = refl;
              owner = owner;
              target = target;
              amount = refl;
              key = refl;
              distinct = ground arith;
              same_currency = currency;
              covered = covered;
            })
            (record { pending = j.pending; trace = j.trace; ready = j.ready }))

  transfer_checked-Ends :
      (v r : Wallet) (w : World)
      → v.user_id ≡ u
      → r.id ≡ to_wallet_id
      → Holds s [] w
      → Ends TransferReady s (transfer_checked u to_wallet_id amount key v r w)
  unfolding transfer_checked
  transfer_checked-Ends v r w owner target h = elim (Bool-cases (v.id == r.id)) [
    | inl same ↦ rw same h.trace
    | inr ne ↦ elim (Bool-cases (str_eq v.currency r.currency)) [
      | inr differ ↦ rw (ne, differ) h.trace
      | inl currency ↦ elim (Bool-cases (ltb_ℤ v.balance_cents amount)) [
        | inl short ↦ rw (ne, currency, short) h.trace
        | inr enough ↦
            rw (ne, currency, enough)
              (transfer_between-Ends v r w owner target ne
                ((eq_iff v.currency r.currency).0 currency) (ground arith) h)
      ]
    ]
  ]

  transfer_new-Ends :
      (w : World) → Holds s [] w → Ends TransferReady s (transfer_new u to_wallet_id amount key w)
  unfolding transfer_new wrap
  transfer_new-Ends w h =
      let x = wallet_by_user u w in
      after-Ends (λ v y. (v.user_id ≡ u) × Holds s [] y) TransferReady s _
        (rewrap "sender wallet: " x.0, x.1)
        (wrap-Ends s (λ v y. (v.user_id ≡ u) × Holds s [] y) "sender wallet: " x
          (wallet_by_user-Ends s u w h))
        (λ v y p.
          let z = wallet_by_id to_wallet_id y in
          after-Ends (λ r y'. (r.id ≡ to_wallet_id) × Holds s [] y') TransferReady s _
            (rewrap "recipient wallet: " z.0, z.1)
            (wrap-Ends s (λ r y'. (r.id ≡ to_wallet_id) × Holds s [] y') "recipient wallet: " z
              (wallet_by_id-Ends s to_wallet_id y p.1))
            (λ r y' q. transfer_checked-Ends v r y' p.0 q.0 q.1))

  transfer_found-Ends :
      (found : Result Transaction) (w : World)
      → Found s u key found w
      → Ends TransferReady s (transfer_found u to_wallet_id amount key found w)
  unfolding transfer_found
  transfer_found-Ends (err e) w h = elim (Bool-cases (is_not_found e)) [
    | inl missing ↦ rw missing (transfer_new-Ends w h)
    | inr failed ↦ rw failed h.trace
  ]
  transfer_found-Ends (ok t) w h =
      elim (Bool-cases (
        not (is_transfer t.kind)
        || (not (eqb_ℤ t.amount_cents amount) || not (t.to_wallet_id == to_wallet_id)))) [
          | inl differs ↦ rw differs h.1.trace
          | inr same ↦ rw same (replay refl (transfer_answers t same) h.0 h.1)
        ]

  pub transfer_body-Ends :
      (w : World) → Holds s [] w → Ends TransferReady s (transfer_body u to_wallet_id amount key w)
  unfolding transfer_body
  transfer_body-Ends w h =
      let x = find_by_key u key w in transfer_found-Ends x.0 x.1 (find_by_key-Found s u key w h)
