-- ===== src/Server/Moves.antt =====
-- How the handlers of services/wallet/server.go move the tables.
use wallet_ledger.Base.{ℕ, ◌≡◌, inl, inr, Option, Option-cases, String, []}
use wallet_ledger.Store.Schema.{Uuid, Kind}
use wallet_ledger.Store.Session.{M}
use wallet_ledger.Store.Money
use wallet_ledger.Store.Money.{Receipt}
use wallet_ledger.Store.Wallets
use wallet_ledger.Store.Moves.{
  Advances, Advances-refl, deposit-Advances, transfer-Advances, create_wallet-Advances,
  get_wallet_by_user-Advances, get_transaction-Advances,
}
use wallet_ledger.Server.{
  Reply, Server, DepositRequest, TransferRequest, call, with_uuid, create_wallet, get_wallet,
  deposit, transfer, get_transaction, transaction_to_proto, wallet_to_proto,
}
use wallet_ledger.Server.Handlers.{deposit_gate, transfer_gate, move-world}

module _ (parse : String → Option Uuid) (max_retries : ℕ) where
  call-Advances :
      {A B : Type 0} (f : A → B) (m : M A) (s : Server)
      → Advances s.world (m s.world).1
      → Advances s.world (call parse max_retries f m s).1.world
  unfolding call
  call-Advances f m s h = h

  with_uuid-Advances :
      {A : Type 0} (value field : String) (k : Uuid → Server → Reply A × Server) (s : Server)
      → s.world.pending ≡ []
      → ((u : Uuid) → Advances s.world (k u s).1.world)
      → Advances s.world (with_uuid parse max_retries value field k s).1.world
  unfolding with_uuid
  with_uuid-Advances value field k s idle h = elim (Option-cases (parse value)) [
    | inl bad ↦ rw (bad, with_uuid) (Advances-refl s.world idle)
    | inr (u, e) ↦ rw (e, with_uuid) (h u)
  ]

  pub create_wallet-moves :
      (user_id : String) (s : Server)
      → s.world.pending ≡ []
      → Advances s.world (create_wallet parse max_retries user_id s).1.world
  unfolding create_wallet call
  create_wallet-moves user_id s idle =
      with_uuid-Advances user_id "user_id"
        (λ u. call parse max_retries wallet_to_proto (Wallets.create_wallet u)) s idle
        (λ u. create_wallet-Advances u s.world idle)

  pub get_wallet-moves :
      (user_id : String) (s : Server)
      → s.world.pending ≡ []
      → Advances s.world (get_wallet parse max_retries user_id s).1.world
  unfolding get_wallet call
  get_wallet-moves user_id s idle =
      with_uuid-Advances user_id "user_id"
        (λ u. call parse max_retries wallet_to_proto (Wallets.get_wallet_by_user u)) s idle
        (λ u. get_wallet_by_user-Advances u s.world idle)

  pub get_transaction-moves :
      (user_id transaction_id : String) (s : Server)
      → s.world.pending ≡ []
      → Advances s.world (get_transaction parse max_retries user_id transaction_id s).1.world
  unfolding get_transaction call
  get_transaction-moves user_id transaction_id s idle =
      with_uuid-Advances user_id "user_id"
        (λ u.
          with_uuid parse max_retries transaction_id "transaction_id"
            (λ i. call parse max_retries transaction_to_proto (Wallets.get_transaction u i)))
        s idle
        (λ u.
          with_uuid-Advances transaction_id "transaction_id"
            (λ i. call parse max_retries transaction_to_proto (Wallets.get_transaction u i)) s idle
            (λ i. get_transaction-Advances u i s.world idle))

  pub deposit-moves :
      (req : DepositRequest) (s : Server)
      → s.world.pending ≡ []
      → Advances s.world (deposit parse max_retries req s).1.world
  deposit-moves req s idle = elim (deposit_gate parse max_retries req s) [
    | inl (text, e) ↦ rw e (Advances-refl s.world idle)
    | inr (u, p, b, e) ↦
        let m = Money.deposit max_retries u req.amount_cents req.idempotency_key in
        rw (e, move-world parse max_retries Kind.deposit m s)
          (deposit-Advances max_retries u req.amount_cents req.idempotency_key s.world idle)
  ]

  pub transfer-moves :
      (req : TransferRequest) (s : Server)
      → s.world.pending ≡ []
      → Advances s.world (transfer parse max_retries req s).1.world
  transfer-moves req s idle = elim (transfer_gate parse max_retries req s) [
    | inl (text, e) ↦ rw e (Advances-refl s.world idle)
    | inr (u, i, p, q, b, e) ↦
        let m = Money.transfer max_retries u i req.amount_cents req.idempotency_key in
        rw (e, move-world parse max_retries Kind.transfer m s)
          (transfer-Advances max_retries u i req.amount_cents req.idempotency_key s.world idle)
  ]
