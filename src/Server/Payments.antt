-- ===== src/Server/Payments.antt =====
-- What an answer of the handlers of services/wallet/server.go to a movement of money says of the
-- tables, and what such a request does under a key that is taken.
use wallet_ledger.Base.{ℕ, ◌≡◌, refl, ap, subst, inl, inr, Option, some, String, []}
use wallet_ledger.Store.Schema.{Uuid, Kind, Transaction}
use wallet_ledger.Store.Commit.{Commit}
use wallet_ledger.Store.Session.{
  World, M, Result, ok, err, not_found, insufficient_funds, same_wallet, currency_mismatch,
  idempotency_conflict, too_much_contention, version_conflict, db, panicked,
}
use wallet_ledger.Store.Query.{row_by_key}
use wallet_ledger.Store.Money
use wallet_ledger.Store.Money.{Receipt}
use wallet_ledger.Store.Calls.{
  deposit-Settled, transfer-Settled, Repeats, deposit_again, transfer_again,
}
use wallet_ledger.Store.Trace.{Trace, here}
use wallet_ledger.Store.Trace.DepositBody.{AnswersDeposit}
use wallet_ledger.Store.Trace.TransferBody.{AnswersTransfer}
use wallet_ledger.Store.Trace.Outcome.{Settled}
use wallet_ledger.Server.Handlers.{deposit_gate, transfer_gate, move-world}
use wallet_ledger.Server.{
  Reply, reply, refuse, crash, Server, DepositRequest, TransferRequest, TransactionMessage, answer,
  move, deposit, transfer, transaction_to_proto,
}
use wallet_ledger.Server.Handlers.{deposit_gate, transfer_gate, move-world}

-- The transaction of an answer stands under the key of the request.
abbrev pub Stands : Uuid → String → World → Reply TransactionMessage → Type 0
Stands u k w (reply m) =
    (t : Transaction) × (row_by_key u k w.db.transactions ≡ some t) × (m ≡ transaction_to_proto t)
Stands u k w (refuse s) = Unit {0}
Stands u k w crash = Unit {0}

-- The session has committed nothing; others may have.
abbrev pub Quiet : World → World → Type 0
Quiet w x = Trace w.events w.db [] x.events x.db

Repeats-Quiet :
    (R : Transaction → Type 0) (t : Transaction) (s : World) (r : Result Receipt) (w : World)
    → Repeats R t s r w
    → Quiet s w
Repeats-Quiet R t s (ok res) w h = h.0
Repeats-Quiet R t s (err e) w h = h

module _ (parse : String → Option Uuid) (max_retries : ℕ) where
  -- An answer to a call of the store.
  answer-Stands :
      (u : Uuid) (k : String) (r : Result Receipt) (w : World)
      → ((res : Receipt) → r ≡ ok res → row_by_key u k w.db.transactions ≡ some res.tx)
      → Stands u k w (answer (λ res. transaction_to_proto res.tx) r)
  unfolding answer
  answer-Stands u k (ok res) w h = (res.tx, h res refl, refl)
  answer-Stands u k (err (not_found p)) w h = tt
  answer-Stands u k (err insufficient_funds) w h = tt
  answer-Stands u k (err same_wallet) w h = tt
  answer-Stands u k (err currency_mismatch) w h = tt
  answer-Stands u k (err idempotency_conflict) w h = tt
  answer-Stands u k (err too_much_contention) w h = tt
  answer-Stands u k (err version_conflict) w h = tt
  answer-Stands u k (err (db e)) w h = tt
  answer-Stands u k (err panicked) w h = tt

  move-Stands :
      (u : Uuid) (k : String) (kind : Kind) (m : M Receipt) (s : Server)
      → ((res : Receipt)
          → (m s.world).0 ≡ ok res
          → row_by_key u k (m s.world).1.db.transactions ≡ some res.tx)
      → let (r, s') = move parse max_retries kind m s in Stands u k s'.world r
  unfolding move
  move-Stands u k kind m s h =
      rw (move-world parse max_retries kind m s) (answer-Stands u k (m s.world).0 (m s.world).1 h)

  -- The answer of a settled call, whose user is the one that the request names.
  Settled-Stands :
      (P : Commit → Type 0) (R : Transaction → Type 0) (u : Uuid) (k : String) (w : World)
      (r : Result Receipt) (x : World)
      → Settled P R u k w r x
      → (res : Receipt) → r ≡ ok res
      → row_by_key u k x.db.transactions ≡ some res.tx
  Settled-Stands P R u k w (ok a) x (p, e, q) res f =
      let same : a ≡ res = ap (λ r. elim r [ ok b ↦ b | err g ↦ a ]) f in
      subst (λ (b : Receipt). row_by_key u k x.db.transactions ≡ some b.tx) same e
  Settled-Stands P R u k w (err e) x h res f = cc

  -- What `deposit` and `transfer` answer stands under the key of the request, for the user that its id
  -- denotes.
  abbrev pub StandsFor : String → String → Server → Reply TransactionMessage → Type 0
  StandsFor user_id k s r = (u : Uuid) → parse user_id ≡ some u → Stands u k s.world r

  pub deposit-StandsFor :
      (req : DepositRequest) (s : Server)
      → s.world.pending ≡ []
      → let (r, x) = deposit parse max_retries req s in
        StandsFor req.user_id req.idempotency_key x r
  deposit-StandsFor req s idle u p = elim (deposit_gate parse max_retries req s) [
    | inl (text, e) ↦ rw e tt
    | inr (v, q, b, e) ↦
        let same : v ≡ u = cc in
        let m = Money.deposit max_retries u req.amount_cents req.idempotency_key in
        let here = rw same at e in
        rw here (
          move-Stands u req.idempotency_key Kind.deposit m s (
            Settled-Stands _ _ u req.idempotency_key s.world (m s.world).0 (m s.world).1
              (deposit-Settled max_retries u req.amount_cents req.idempotency_key s.world idle)))
  ]

  pub transfer-StandsFor :
      (req : TransferRequest) (s : Server)
      → s.world.pending ≡ []
      → let (r, x) = transfer parse max_retries req s in
        StandsFor req.user_id req.idempotency_key x r
  transfer-StandsFor req s idle u p = elim (transfer_gate parse max_retries req s) [
    | inl (text, e) ↦ rw e tt
    | inr (v, i, q, q', b, e) ↦
        let same : v ≡ u = cc in
        let m = Money.transfer max_retries u i req.amount_cents req.idempotency_key in
        let here = rw same at e in
        rw here (
          move-Stands u req.idempotency_key Kind.transfer m s (
            Settled-Stands _ _ u req.idempotency_key s.world (m s.world).0 (m s.world).1
              (transfer-Settled max_retries u i req.amount_cents req.idempotency_key s.world idle)))
  ]

  -- Under a key that is taken, `deposit` and `transfer` commit nothing.
  pub deposit-Quiet :
      (req : DepositRequest) (s : Server) (u : Uuid) (t : Transaction)
      → s.world.pending ≡ []
      → parse req.user_id ≡ some u
      → row_by_key u req.idempotency_key s.world.db.transactions ≡ some t
      → Quiet s.world (deposit parse max_retries req s).1.world
  deposit-Quiet req s u t idle p found = elim (deposit_gate parse max_retries req s) [
    | inl (text, e) ↦ rw e here
    | inr (v, q, b, e) ↦
        let same : v ≡ u = cc in
        let m = Money.deposit max_retries u req.amount_cents req.idempotency_key in
        let run = rw same at e in
        rw (run, move-world parse max_retries Kind.deposit m s)
          (Repeats-Quiet (AnswersDeposit req.amount_cents) t s.world (m s.world).0 (m s.world).1
            (deposit_again max_retries u req.amount_cents req.idempotency_key s.world t idle found))
  ]

  pub transfer-Quiet :
      (req : TransferRequest) (s : Server) (u : Uuid) (t : Transaction)
      → s.world.pending ≡ []
      → parse req.user_id ≡ some u
      → row_by_key u req.idempotency_key s.world.db.transactions ≡ some t
      → Quiet s.world (transfer parse max_retries req s).1.world
  transfer-Quiet req s u t idle p found = elim (transfer_gate parse max_retries req s) [
    | inl (text, e) ↦ rw e here
    | inr (v, i, q, q', b, e) ↦
        let same : v ≡ u = cc in
        let m = Money.transfer max_retries u i req.amount_cents req.idempotency_key in
        let run = rw same at e in
        rw (run, move-world parse max_retries Kind.transfer m s)
          (Repeats-Quiet (AnswersTransfer i req.amount_cents) t s.world (m s.world).0 (m s.world).1
            (transfer_again max_retries u i req.amount_cents req.idempotency_key s.world t idle
              found))
  ]
