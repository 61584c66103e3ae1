-- ===== src/Server/Handlers.antt =====
-- The handlers of services/wallet/server.go: what they refuse, and what they pass to the store.
use Prim.Native.String.{len, ◌++◌ as append}
use wallet_ledger.Base.{
  ℕ, ◌≤◌, ◌≡◌, refl, inl, inr, ◌⊎◌, ◌||◌, Option, none, some, Option-cases, Bool-cases, String, [],
  arith, ltb, ◌==◌,
}
use wallet_ledger.Base.Int.{ℤ, pos, ◌<ℤ◌, leb_ℤ}
use wallet_ledger.Store.Schema.{Uuid, Kind}
use wallet_ledger.Store.Session.{
  World, Result, ok, err, not_found, insufficient_funds, same_wallet, currency_mismatch,
  idempotency_conflict, too_much_contention, version_conflict, db, panicked,
}
use wallet_ledger.Store.Money
use wallet_ledger.Store.Money.{Receipt}
use wallet_ledger.Store.Invariant.{IsSound}
use wallet_ledger.Store.Calls.{transfer-IsSound, deposit-IsSound}
use wallet_ledger.Store.Wallets.Create.{create_wallet-IsSound}
use wallet_ledger.Server.{
  create_wallet, call, invalid_argument, Reply, refuse, Server, DepositRequest, TransferRequest,
  TransactionMessage, validate_money, with_uuid, with_money, move, deposit, transfer, recorded,
  record_result,
}

-- The handler has answered without the store: invalid argument, nothing changed.
abbrev pub Refuses : Server → Reply TransactionMessage × Server → Type 0
Refuses s x =
    (text : String) × (x ≡ (refuse (record { code = invalid_argument; message = text }), s))

-- The bounds of an amount and of a key.
abbrev pub InBounds : ℤ → String → Type 0
InBounds amount key = (pos 0 <ℤ amount) × (1 ≤ len key) × (len key ≤ 200)

validate_money_lem :
    (amount : ℤ) (key : String)
    → ((text : String) × (validate_money amount key
          ≡ some (record { code = invalid_argument; message = text })))
      ⊎ ((validate_money amount key ≡ none) × InBounds amount key)
unfolding validate_money
validate_money_lem amount key = elim (Bool-cases (leb_ℤ amount (pos 0))) [
  | inl y ↦ inl ("amount_cents must be a positive integer", rw y refl)
  | inr n ↦ elim (Bool-cases (len key == 0 || ltb 200 (len key))) [
    | inl y ↦ inl ("idempotency_key is required (1-200 characters)", rw (n, y) refl)
    | inr m ↦ inr (rw (n, m) refl, (ground arith, ground arith, ground arith))
  ]
]

module _ (parse : String → Option Uuid) (max_retries : ℕ) where
  -- What a handler of money does: it refuses the request and leaves the process as it was, or the
  -- request is well formed and the store's call is made on it.
  abbrev pub Gated :
      ℤ
      → String
      → Server
      → Reply TransactionMessage × Server
      → Reply TransactionMessage × Server
      → Type 0
  Gated amount key s x y = Refuses s x ⊎ (InBounds amount key × (x ≡ y))

  with_money-Gated :
      (amount : ℤ) (key : String) (k : Server → Reply TransactionMessage × Server) (s : Server)
      → Gated amount key s (with_money parse max_retries amount key k s) (k s)
  unfolding with_money
  with_money-Gated amount key k s = elim (validate_money_lem amount key) [
    | inl (text, e) ↦ inl (text, rw (e, with_money) refl)
    | inr (e, bounds) ↦ inr (bounds, rw (e, with_money) refl)
  ]

  -- `deposit` refuses a request, as an invalid argument and without touching the store, or the user id
  -- parses, the amount is positive, the key has 1 to 200 bytes, and the store's Deposit runs on them.
  pub deposit_gate :
      (req : DepositRequest) (s : Server)
      → let x = deposit parse max_retries req s in
        Refuses s x
        ⊎ ((u : Uuid) × (parse req.user_id ≡ some u)
            × InBounds req.amount_cents req.idempotency_key
            × (x
                ≡ move parse max_retries Kind.deposit
                    (Money.deposit max_retries u req.amount_cents req.idempotency_key)
                    s))
  unfolding deposit with_uuid
  deposit_gate req s = elim (Option-cases (parse req.user_id)) [
    | inl bad ↦ inl (append "user_id" " must be a UUID", rw (bad, with_uuid) refl)
    | inr (u, e) ↦
        elim (with_money-Gated req.amount_cents req.idempotency_key
          (move parse max_retries Kind.deposit
            (Money.deposit max_retries u req.amount_cents req.idempotency_key))
          s) [
            | inl (text, r) ↦ inl (text, rw (e, with_uuid) r)
            | inr (bounds, r) ↦ inr (u, e, bounds, rw (e, with_uuid) r)
          ]
  ]

  -- `transfer` refuses a request, as an invalid argument and without touching the store, or both ids
  -- parse, the amount is positive, the key has 1 to 200 bytes, and the store's Transfer runs on them.
  pub transfer_gate :
      (req : TransferRequest) (s : Server)
      → let x = transfer parse max_retries req s in
        Refuses s x
        ⊎ ((u to_wallet_id : Uuid) × (parse req.user_id ≡ some u)
            × (parse req.to_wallet_id ≡ some to_wallet_id)
            × InBounds req.amount_cents req.idempotency_key
            × (x
                ≡ move parse max_retries Kind.transfer
                    (Money.transfer max_retries u to_wallet_id req.amount_cents req.idempotency_key)
                    s))
  unfolding transfer with_uuid
  transfer_gate req s = elim (Option-cases (parse req.user_id)) [
    | inl bad ↦ inl (append "user_id" " must be a UUID", rw (bad, with_uuid) refl)
    | inr (u, e) ↦ elim (Option-cases (parse req.to_wallet_id)) [
      | inl bad ↦ inl (append "to_wallet_id" " must be a UUID", rw (e, bad, with_uuid) refl)
      | inr (i, f) ↦
          elim (with_money-Gated req.amount_cents req.idempotency_key
            (move parse max_retries Kind.transfer
              (Money.transfer max_retries u i req.amount_cents req.idempotency_key))
            s) [
              | inl (text, r) ↦ inl (text, rw (e, f, with_uuid) r)
              | inr (bounds, r) ↦ inr (u, i, e, f, bounds, rw (e, f, with_uuid) r)
            ]
    ]
  ]

  pub recorded-world :
      (kind : Kind) (r : Result Receipt) (s : Server) → (recorded kind r s).world ≡ s.world
  unfolding recorded record_result
  recorded-world kind (ok res) s = refl
  recorded-world kind (err (not_found p)) s = refl
  recorded-world kind (err insufficient_funds) s = refl
  recorded-world kind (err same_wallet) s = refl
  recorded-world kind (err currency_mismatch) s = refl
  recorded-world kind (err idempotency_conflict) s = refl
  recorded-world kind (err too_much_contention) s = refl
  recorded-world kind (err version_conflict) s = refl
  recorded-world kind (err (db e)) s = refl
  recorded-world kind (err panicked) s = refl

  pub move-world :
      (kind : Kind) (m : World → Result Receipt × World) (s : Server)
      → (move parse max_retries kind m s).1.world ≡ (m s.world).1
  unfolding move
  move-world kind m s = let (r, w) = m s.world in recorded-world kind r (record s { world = w })

  created-IsSound :
      (user_id : String) (s : Server)
      → s.world.pending ≡ []
      → IsSound s.world.db
      → IsSound (create_wallet parse max_retries user_id s).1.world.db
  unfolding create_wallet with_uuid call
  created-IsSound user_id s idle h = elim (Option-cases (parse user_id)) [
    | inl bad ↦ rw (bad, with_uuid) h
    | inr (u, e) ↦ rw (e, with_uuid) (create_wallet-IsSound u s.world idle h)
  ]

  -- Whatever a request holds, whatever fails, and whatever the sessions of other requests commit,
  -- the handlers of new wallets, deposits and transfers leave sound tables if they find sound
  -- tables and no transaction open.
  pub handlers-IsSound :
      (user_id : String) (req : DepositRequest) (req' : TransferRequest) (s : Server)
      → s.world.pending ≡ []
      → IsSound s.world.db
      → IsSound (create_wallet parse max_retries user_id s).1.world.db
        × IsSound (deposit parse max_retries req s).1.world.db
        × IsSound (transfer parse max_retries req' s).1.world.db
  handlers-IsSound user_id req req' s idle h = (
    created-IsSound user_id s idle h,
    elim (deposit_gate req s) [
      | inl (text, e) ↦ rw e h
      | inr (u, p, b, e) ↦
          rw
            (
              e,
              move-world Kind.deposit
                  (Money.deposit max_retries u req.amount_cents req.idempotency_key) s,
            )
            (deposit-IsSound max_retries u req.amount_cents req.idempotency_key s.world idle h)
    ],
    elim (transfer_gate req' s) [
      | inl (text, e) ↦ rw e h
      | inr (u, i, p, q, b, e) ↦
          rw
            (
              e,
              move-world Kind.transfer
                  (Money.transfer max_retries u i req'.amount_cents req'.idempotency_key) s,
            )
            (transfer-IsSound max_retries u i req'.amount_cents req'.idempotency_key s.world idle h)
    ],
  )
