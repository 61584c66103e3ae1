-- ===== src/Gateway/Client/Payments.antt =====
-- What the deposit and transfer handlers of services/gateway/handlers.go answer, by the tables behind the
-- client of services/gateway/walletclient.go.
use wallet_ledger.Base.{
  ℕ, String, ◌≡◌, refl, sym, inl, inr, ap, subst, Option, none, some, [], Bool-cases, str_eq, leb,
}
use wallet_ledger.Base.Int.{ℤ}
use wallet_ledger.Store.Schema.{Uuid, Transaction}
use wallet_ledger.Store.Session.{World}
use wallet_ledger.Store.Query.{row_by_key}
use wallet_ledger.Store.Trace.{here}
use wallet_ledger.Server.{
  Reply, reply, refuse, crash, Server, TransactionMessage, DepositRequest, TransferRequest,
  transaction_to_proto, Status,
}
use wallet_ledger.Server
use wallet_ledger.Server.Metrics.{metrics_interceptor, interceptor-world}
use wallet_ledger.Server.Payments.{
  Stands, Quiet, deposit-StandsFor, transfer-StandsFor, deposit-Quiet, transfer-Quiet,
}
use wallet_ledger.Gateway.Http.{
  Response, Body, transaction, error, write_json, write_error, wallet_error, to_transaction_json,
  http_status_for,
}
use wallet_ledger.Gateway.Api.{
  Answer, got, failed, WalletClient, respond_transaction, deposit, transfer,
}
use wallet_ledger.Gateway.Api.Respects.{respond_transaction-state}
use wallet_ledger.Gateway.Client.{Wire, invoke, called, new_wallet_client}
use wallet_ledger.Gateway.Client.Calls.{invoke-Left, invoke-Replied}

-- A response whose body is a transaction shows the one that stands under the key.
abbrev pub Shows : Uuid → String → World → Body → Type 0
Shows u k w (transaction j) =
    (t : Transaction) × (row_by_key u k w.db.transactions ≡ some t)
    × (j ≡ to_transaction_json (transaction_to_proto t))
Shows u k w _ = Unit {0}

-- What a request to move money under a key of a user does: its response shows what stands under the key,
-- and if something stood there before, it commits nothing.
pub record Pays (u : Uuid) (k : String) (w : World) (b : Body) (x : World) : Type 0 where
  pub shows : Shows u k x b
  pub quiet : (t : Transaction) → row_by_key u k w.db.transactions ≡ some t → Quiet w x

-- A response that is an error, without a call.
pub refused-Pays : (u : Uuid) (k : String) (w : World) (text : String) → Pays u k w (error text) w
refused-Pays u k w text = record { shows = tt; quiet = λ t h. here }

pub wallet_error-body : (s : Status) → (text : String) × ((wallet_error s).body ≡ error text)
unfolding wallet_error write_error write_json
wallet_error-body s = elim (Bool-cases (leb 500 (http_status_for s.code))) [
  | inl y ↦ ("wallet service unavailable", rw y refl)
  | inr n ↦ (s.message, rw n refl)
]

module _ (handler : Server → Reply TransactionMessage × Server) (client : WalletClient Wire)
    (u : Uuid) (k : String) (w : Wire)
    (stands : Stands u k (handler w.server).1.world (handler w.server).0)
    (quiet : (t : Transaction)
      → row_by_key u k w.server.world.db.transactions ≡ some t
      → Quiet w.server.world (handler w.server).1.world) where
  shown :
      (x : Answer TransactionMessage × Wire)
      → ((m : TransactionMessage) → x.0 ≡ got m → handler w.server ≡ (reply m, x.1.server))
      → Shows u k x.1.server.world (respond_transaction client 201 x).0.body
  unfolding respond_transaction write_json wallet_error write_error
  shown (failed s, x) replied = let (text, e) = wallet_error-body s in rw e tt
  shown (got m, x) replied =
      let e = replied m refl in
      let st =
        subst (λ (y : Reply TransactionMessage × Server). Stands u k y.1.world y.0) e stands in
      (st.0, st.1, ap to_transaction_json st.2)

  invoked-Pays :
      let (r, x) = respond_transaction client 201 (invoke handler w) in
      Pays u k w.server.world r.body x.server.world
  invoked-Pays = record {
    shows =
        rw (respond_transaction-state client 201 (invoke handler w))
          (shown (invoke handler w) (invoke-Replied handler w));
    quiet = λ t found.
        rw (respond_transaction-state client 201 (invoke handler w))
          (elim (invoke-Left handler w) [ inl e ↦ rw e here | inr e ↦ rw e (quiet t found) ]);
  }

-- The same through the interceptor.
called-Pays :
    (full_method : String) (handler : Server → Reply TransactionMessage × Server)
    (client : WalletClient Wire) (u : Uuid) (k : String) (w : Wire)
    → Stands u k (handler w.server).1.world (handler w.server).0
    → ((t : Transaction)
        → row_by_key u k w.server.world.db.transactions ≡ some t
        → Quiet w.server.world (handler w.server).1.world)
    → let (r, x) = respond_transaction client 201 (called full_method handler w) in
      Pays u k w.server.world r.body x.server.world
unfolding called metrics_interceptor
called-Pays full_method handler client u k w stands quiet =
    let same = interceptor-world full_method handler w.server in
    invoked-Pays (metrics_interceptor full_method handler) client u k w
      (subst (λ (x : World). Stands u k x (handler w.server).0) (sym same) stands)
      (λ t found. subst (Quiet w.server.world) (sym same) (quiet t found))

module _ (parse : String → Option Uuid) (max_retries : ℕ) (user_id : String) (u : Uuid)
    (known : parse user_id ≡ some u) where
  abbrev client : WalletClient Wire
  client = new_wallet_client parse max_retries

  -- A handler of the gateway that moves money under a key.
  abbrev pub PaysFor : String → (Wire → Response × Wire) → Type 0
  PaysFor k f =
      (w : Wire)
      → w.server.world.pending ≡ []
      → let (r, x) = f w in Pays u k w.server.world r.body x.server.world

  pub deposit-Pays :
      (k : String) (body : Option ℤ)
      → PaysFor k (deposit (new_wallet_client parse max_retries) k body user_id)
  unfolding deposit new_wallet_client write_error write_json
  deposit-Pays k none w idle = elim (Bool-cases (str_eq k "")) [
    | inl y ↦ rw y (refused-Pays u k w.server.world _)
    | inr n ↦ rw n (refused-Pays u k w.server.world _)
  ]
  deposit-Pays k (some amount) w idle =
      let req : DepositRequest = record {
        user_id = user_id;
        amount_cents = amount;
        idempotency_key = k;
      } in
      elim (Bool-cases (str_eq k "")) [
        | inl y ↦ rw y (refused-Pays u k w.server.world _)
        | inr n ↦ rw n (
            called-Pays "/wallet.v1.WalletService/Deposit" (Server.deposit parse max_retries req)
              client u k w (deposit-StandsFor parse max_retries req w.server idle u known)
              (λ t found. deposit-Quiet parse max_retries req w.server u t idle known found))
      ]

  pub transfer-Pays :
      (k : String) (body : Option (String × ℤ))
      → PaysFor k (transfer (new_wallet_client parse max_retries) k body user_id)
  unfolding transfer new_wallet_client write_error write_json
  transfer-Pays k none w idle = elim (Bool-cases (str_eq k "")) [
    | inl y ↦ rw y (refused-Pays u k w.server.world _)
    | inr n ↦ rw n (refused-Pays u k w.server.world _)
  ]
  transfer-Pays k (some (to_wallet_id, amount)) w idle =
      let req : TransferRequest = record {
        user_id = user_id;
        to_wallet_id = to_wallet_id;
        amount_cents = amount;
        idempotency_key = k;
      } in
      elim (Bool-cases (str_eq k "")) [
        | inl y ↦ rw y (refused-Pays u k w.server.world _)
        | inr n ↦ rw n (
            called-Pays "/wallet.v1.WalletService/Transfer" (Server.transfer parse max_retries req)
              client u k w (transfer-StandsFor parse max_retries req w.server idle u known)
              (λ t found. transfer-Quiet parse max_retries req w.server u t idle known found))
      ]
