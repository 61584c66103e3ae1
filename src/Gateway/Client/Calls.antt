-- ===== src/Gateway/Client/Calls.antt =====
-- The calls of the gateway, services/gateway/walletclient.go, on the tables behind them.
use wallet_ledger.Base.{ℕ, String, ◌≡◌, refl, inl, inr, ◌⊎◌, Option, List, [], ◌∷◌}
use wallet_ledger.Store.Schema.{Uuid}
use wallet_ledger.Store.Moves.{Advances, Advances-refl, Advances-trans}
use wallet_ledger.Server.{Reply, reply, refuse, crash, Server, Status}
use wallet_ledger.Server
use wallet_ledger.Server.Metrics.{metrics_interceptor, interceptor-world}
use wallet_ledger.Server.Moves.{
  create_wallet-moves, get_wallet-moves, get_transaction-moves, deposit-moves, transfer-moves,
}
use wallet_ledger.Gateway.Api.{Answer, got}
use wallet_ledger.Gateway.Api.Respects.{Respects}
use wallet_ledger.Gateway.Client.{
  Fate, answered, unreached, unheard, Wire, heard, run, next_call, invoke, called,
  new_wallet_client,
}

-- If no transaction is open before, none is after, and the tables have moved by whole commits.
abbrev pub Moved : Wire → Wire → Type 0
Moved w x = w.server.world.pending ≡ [] → Advances w.server.world x.server.world

module _ {A : Type 0} (handler : Server → Reply A × Server) where
  module _
      (moves : (s : Server) → s.world.pending ≡ [] → Advances s.world (handler s).1.world) where
    run-Moved : (f : Fate) (w : Wire) → Moved w (run handler f w).1
    unfolding run
    run-Moved answered w idle = moves w.server idle
    run-Moved (unreached e) w idle = Advances-refl w.server.world idle
    run-Moved (unheard e) w idle = moves w.server idle

    next_call-Moved : (fs : List Fate) (w : Wire) → Moved w (next_call handler fs w).1
    unfolding next_call
    next_call-Moved [] w idle = run-Moved answered w idle
    next_call-Moved (f ∷ fs) w idle = run-Moved f (record w { fates = fs }) idle

    pub invoke-Moved : (w : Wire) → Moved w (invoke handler w).1
    unfolding invoke
    invoke-Moved w idle = next_call-Moved w.fates w idle

  -- Where a call leaves the server: as it was, or as the handler does.
  abbrev Left : Wire → Wire → Type 0
  Left w x = (x.server ≡ w.server) ⊎ (x.server ≡ (handler w.server).1)

  run-Left : (f : Fate) (w : Wire) → Left w (run handler f w).1
  unfolding run
  run-Left answered w = inr refl
  run-Left (unreached e) w = inl refl
  run-Left (unheard e) w = inr refl

  next_call-Left : (fs : List Fate) (w : Wire) → Left w (next_call handler fs w).1
  unfolding next_call
  next_call-Left [] w = run-Left answered w
  next_call-Left (f ∷ fs) w = run-Left f (record w { fates = fs })

  pub invoke-Left : (w : Wire) → Left w (invoke handler w).1
  unfolding invoke
  invoke-Left w = next_call-Left w.fates w

  -- What the caller gets is what the handler has replied.
  heard-got : (broken : Status) (r : Reply A) (a : A) → heard broken r ≡ got a → r ≡ reply a
  unfolding heard
  heard-got broken (reply b) a h = cc
  heard-got broken (refuse s) a h = cc
  heard-got broken crash a h = cc

  abbrev Replied : Wire → Answer A × Wire → Type 0
  Replied w x = (a : A) → x.0 ≡ got a → handler w.server ≡ (reply a, x.1.server)

  run-Replied : (f : Fate) (w : Wire) → Replied w (run handler f w)
  unfolding run
  run-Replied answered w a h =
      let e = heard-got w.broken (handler w.server).0 a h in λ i. (e i, (handler w.server).1)
  run-Replied (unreached e) w a h = cc
  run-Replied (unheard e) w a h = cc

  next_call-Replied : (fs : List Fate) (w : Wire) → Replied w (next_call handler fs w)
  unfolding next_call
  next_call-Replied [] w = run-Replied answered w
  next_call-Replied (f ∷ fs) w = run-Replied f (record w { fates = fs })

  -- A call that answers has run, and its answer is the handler's.
  pub invoke-Replied : (w : Wire) → Replied w (invoke handler w)
  unfolding invoke
  invoke-Replied w = next_call-Replied w.fates w

called-Moved :
    {A : Type 0} (full_method : String) (handler : Server → Reply A × Server)
    → ((s : Server) → s.world.pending ≡ [] → Advances s.world (handler s).1.world)
    → (w : Wire) → Moved w (called full_method handler w).1
unfolding called
called-Moved full_method handler moves =
    invoke-Moved (metrics_interceptor full_method handler)
      (λ s idle. rw (interceptor-world full_method handler s) (moves s idle))

module _ (parse : String → Option Uuid) (max_retries : ℕ) where
  pub new_wallet_client-Respects : Respects (new_wallet_client parse max_retries) Moved
  unfolding new_wallet_client
  new_wallet_client-Respects = record {
    same = λ w idle. Advances-refl w.server.world idle;
    next = λ w x y f g idle. let a = f idle in Advances-trans a (g a.closed);
    create_wallet = λ u.
        called-Moved "/wallet.v1.WalletService/CreateWallet"
          (Server.create_wallet parse max_retries u) (create_wallet-moves parse max_retries u);
    get_wallet = λ u.
        called-Moved "/wallet.v1.WalletService/GetWallet" (Server.get_wallet parse max_retries u)
          (get_wallet-moves parse max_retries u);
    deposit = λ req.
        called-Moved "/wallet.v1.WalletService/Deposit" (Server.deposit parse max_retries req)
          (deposit-moves parse max_retries req);
    transfer = λ req.
        called-Moved "/wallet.v1.WalletService/Transfer" (Server.transfer parse max_retries req)
          (transfer-moves parse max_retries req);
    get_transaction = λ u i.
        called-Moved "/wallet.v1.WalletService/GetTransaction"
          (Server.get_transaction parse max_retries u i)
          (get_transaction-moves parse max_retries u i);
  }
