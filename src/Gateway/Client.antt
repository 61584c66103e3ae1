-- ===== src/Gateway/Client.antt =====
-- The wallet service as the gateway reaches it: the client of services/gateway/walletclient.go, with the
-- deadline of callCtx, over the server of services/wallet. gRPC and the network are a library's: what
-- becomes of a call, and the status that the library reports where no answer comes, are given.
pub mod Calls
pub mod Payments
use wallet_ledger.Base.{ℕ, String, Option, List, [], ◌∷◌}
use wallet_ledger.Store.Schema.{Uuid}
use wallet_ledger.Server.{
  Reply, reply, refuse, crash, Server, Status, WalletMessage, TransactionMessage, DepositRequest,
  TransferRequest,
}
use wallet_ledger.Server
use wallet_ledger.Server.Metrics.{metrics_interceptor}
use wallet_ledger.Gateway.Api.{Answer, got, failed, WalletClient}

-- What becomes of a call: it is answered, it does not reach a server, or it runs and the answer does not
-- come before the deadline.
pub data Fate : Type 0 where
  answered : Fate
  unreached : Status → Fate
  unheard : Status → Fate

-- The connection: the process behind it, the fates of the calls to come, `answered` after them, and the
-- status of a call whose server dies.
pub record Wire : Type 0 where
  pub server : Server
  pub fates : List Fate
  pub broken : Status

-- What the caller gets for an answer that arrives.
unfoldable pub heard : {A : Type 0} → Status → Reply A → Answer A
heard broken (reply a) = got a
heard broken (refuse s) = failed s
heard broken crash = failed broken

module _ {A : Type 0} (handler : Server → Reply A × Server) where
  unfoldable pub run : Fate → Wire → Answer A × Wire
  unfolding heard
  run answered w = let (r, s) = handler w.server in (heard w.broken r, record w { server = s })
  run (unreached e) w = (failed e, w)
  run (unheard e) w = (failed e, record w { server = (handler w.server).1 })

  unfoldable pub next_call : List Fate → Wire → Answer A × Wire
  unfolding run
  next_call [] w = run answered w
  next_call (f ∷ fs) w = run f (record w { fates = fs })

  unfoldable pub invoke : Wire → Answer A × Wire
  unfolding next_call
  invoke w = next_call w.fates w

-- A call of a method of the service, through the interceptor of the server.
unfoldable pub called : {A : Type 0} → String → (Server → Reply A × Server) → Wire → Answer A × Wire
unfolding invoke metrics_interceptor
called full_method handler = invoke (metrics_interceptor full_method handler)

-- newWalletClient
unfoldable pub new_wallet_client : (String → Option Uuid) → ℕ → WalletClient Wire
unfolding called
new_wallet_client parse max_retries = record {
  create_wallet = λ u.
      called "/wallet.v1.WalletService/CreateWallet" (Server.create_wallet parse max_retries u);
  get_wallet =
      λ u. called "/wallet.v1.WalletService/GetWallet" (Server.get_wallet parse max_retries u);
  deposit = λ req. called "/wallet.v1.WalletService/Deposit" (Server.deposit parse max_retries req);
  transfer =
      λ req. called "/wallet.v1.WalletService/Transfer" (Server.transfer parse max_retries req);
  get_transaction = λ u i.
      called "/wallet.v1.WalletService/GetTransaction"
        (Server.get_transaction parse max_retries u i);
}
