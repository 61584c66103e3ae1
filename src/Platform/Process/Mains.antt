-- ===== src/Platform/Process/Mains.antt =====
-- The main functions of services/wallet/main.go and services/gateway/main.go do everything in order.
use wallet_ledger.Base.{◌≡◌, refl, Bool, true, false, List, some, [], ◌∷◌}
use wallet_ledger.Platform.{Environment, Ops}
use wallet_ledger.Platform.Process.{
  pool, kafka_writer, redis, wallet_conn, ops_server, relay, housekeeping, grpc_server, http_server,
  Worker, shut,
}
use wallet_ledger.Platform.Process.Orderly.{
  life, drained, over, left, new_process, Ends, lift-Ends, then-Ends, act-Ends, perform-Ends,
  perform_all, or_exit-Ends, pure-Ends, drain-Ends,
}
use wallet_ledger.Platform.Process.Wallet
use wallet_ledger.Platform.Process.Gateway

-- The ops server is the last to be shut down, on closed resources.
ops_shut :
    (finishes : Bool) (ls : List Worker)
    → perform_all (shut finishes ops_server ∷ []) (drained [] (ops_server ∷ []) ls)
      ≡ some (over (left finishes ops_server ls))
unfolding shut
ops_shut true ls = refl
ops_shut false ls = refl

http_shut :
    (finishes : Bool)
    → let rs = wallet_conn ∷ redis ∷ pool ∷ [] in
      perform_all (shut finishes http_server ∷ []) (drained rs (http_server ∷ ops_server ∷ []) [])
      ≡ some (drained rs (ops_server ∷ []) (left finishes http_server []))
unfolding shut
http_shut true = refl
http_shut false = refl

module _ (lib : Wallet.Libraries) (env : Environment) where
  -- Housekeeping is not awaited.
  abbrev pub wallet_left : List Worker
  wallet_left = left lib.ops_finishes ops_server (housekeeping ∷ [])

  wallet_shut_down-Ends :
      (o : Ops)
      → Ends
          (life (kafka_writer ∷ pool ∷ []) (grpc_server ∷ housekeeping ∷ relay ∷ ops_server ∷ []))
          (over wallet_left)
          (Wallet.shut_down lib env o)
  unfolding Wallet.shut_down
  wallet_shut_down-Ends o =
      let rs = kafka_writer ∷ pool ∷ [] in
      let ws = grpc_server ∷ housekeeping ∷ relay ∷ ops_server ∷ [] in
      let ls = housekeeping ∷ [] in
      let k = over wallet_left in
      perform-Ends _ (life rs ws) k _ _ refl (
        then-Ends _ (drained rs ws []) k _ _ (drain-Ends lib.parse_duration env o (life rs ws)) (
          perform-Ends _ (drained rs (housekeeping ∷ relay ∷ ops_server ∷ []) []) k _ _ refl (
            perform-Ends _ (drained rs (relay ∷ ops_server ∷ []) ls) k _ _ refl (
              perform-Ends _ (drained rs (ops_server ∷ []) ls) k _ _ refl (
                perform-Ends _ (drained (pool ∷ []) (ops_server ∷ []) ls) k _ _ refl (
                  perform-Ends _ (drained [] (ops_server ∷ []) ls) k _ _ refl
                    (act-Ends _ k _ (ops_shut lib.ops_finishes ls))))))))

  wallet_serve-Ends :
      (s : Wallet.Settings) (o : Ops)
      → Ends
          (life (kafka_writer ∷ pool ∷ []) (housekeeping ∷ relay ∷ ops_server ∷ []))
          (over wallet_left)
          (Wallet.serve lib env s o)
  unfolding Wallet.serve
  wallet_serve-Ends s o =
      let rs = kafka_writer ∷ pool ∷ [] in
      let ws = grpc_server ∷ housekeeping ∷ relay ∷ ops_server ∷ [] in
      let k = over wallet_left in
      or_exit-Ends _ k _ _ (
        perform-Ends _ (life rs ws) k _ _ refl
          (then-Ends _ k k _ _ (wallet_shut_down-Ends o) (pure-Ends k s)))

  -- Whatever the environment, main of the wallet service does nothing out of order, wherever it
  -- ends the process: a worker starts on what is open, the server stops only once the pod is marked
  -- as not ready, the writer is closed once the loop of the relay has stopped, and the pool once
  -- the server and the loop have stopped and housekeeping has been told to stop. Where main
  -- returns, nothing is open, and nothing runs but housekeeping and, where its shutdown does not
  -- finish, the ops server, which have been told to stop.
  pub wallet_main-Ends : Ends new_process (over wallet_left) (Wallet.main lib env)
  unfolding Wallet.main
  wallet_main-Ends =
      let k = over wallet_left in
      let rs = kafka_writer ∷ pool ∷ [] in
      lift-Ends _ k _ _ (λ dsn. lift-Ends _ k _ _ (λ brokers. or_exit-Ends _ k _ _ (
        perform-Ends _ (life (pool ∷ []) []) k _ _ refl (
          perform-Ends _ (life (pool ∷ []) (ops_server ∷ [])) k _ _ refl (
            perform-Ends _ (life rs (ops_server ∷ [])) k _ _ refl (
              lift-Ends _ k _ _ (λ poll. lift-Ends _ k _ _ (λ batch_size.
                lift-Ends _ k _ _ (λ retention.
                  perform-Ends _ (life rs (relay ∷ ops_server ∷ [])) k _ _ refl (
                    perform-Ends _ (life rs (housekeeping ∷ relay ∷ ops_server ∷ [])) k _ _ refl
                      (lift-Ends _ k _ _ (λ max_retries. wallet_serve-Ends _ _))))))))))))

module _ (lib : Gateway.Libraries) (env : Environment) where
  abbrev pub gateway_left : List Worker
  gateway_left = left lib.ops_finishes ops_server (left lib.http_finishes http_server [])

  gateway_shut_down-Ends :
      (o : Ops)
      → Ends
          (life (wallet_conn ∷ redis ∷ pool ∷ []) (http_server ∷ ops_server ∷ []))
          (over gateway_left)
          (Gateway.shut_down lib env o)
  unfolding Gateway.shut_down
  gateway_shut_down-Ends o =
      let rs = wallet_conn ∷ redis ∷ pool ∷ [] in
      let ws = http_server ∷ ops_server ∷ [] in
      let ls = left lib.http_finishes http_server [] in
      let k = over gateway_left in
      perform-Ends _ (life rs ws) k _ _ refl (
        then-Ends _ (drained rs ws []) k _ _ (drain-Ends lib.parse_duration env o (life rs ws)) (
          perform-Ends _ (drained rs (ops_server ∷ []) ls) k _ _ (http_shut lib.http_finishes) (
            perform-Ends _ (drained (redis ∷ pool ∷ []) (ops_server ∷ []) ls) k _ _ refl (
              perform-Ends _ (drained (pool ∷ []) (ops_server ∷ []) ls) k _ _ refl (
                perform-Ends _ (drained [] (ops_server ∷ []) ls) k _ _ refl
                  (act-Ends _ k _ (ops_shut lib.ops_finishes ls)))))))

  gateway_serve-Ends :
      (s : Gateway.Settings) (o : Ops)
      → Ends
          (life (wallet_conn ∷ redis ∷ pool ∷ []) (ops_server ∷ []))
          (over gateway_left)
          (Gateway.serve lib env s o)
  unfolding Gateway.serve
  gateway_serve-Ends s o =
      let k = over gateway_left in
      perform-Ends _ (life (wallet_conn ∷ redis ∷ pool ∷ []) (http_server ∷ ops_server ∷ [])) k _ _
        refl (then-Ends _ k k _ _ (gateway_shut_down-Ends o) (pure-Ends k s))

  -- Whatever the environment, main of the gateway does nothing out of order, wherever it ends the
  -- process: the HTTP server starts once the pool, Redis and the connection to the wallet service
  -- are open, it is told to stop only once the pod is marked as not ready, and they are closed
  -- after its shutdown, which has finished or come to its deadline. Where main returns, nothing is
  -- open, and nothing runs but the servers whose shutdown did not finish.
  pub gateway_main-Ends : Ends new_process (over gateway_left) (Gateway.main lib env)
  unfolding Gateway.main
  gateway_main-Ends =
      let k = over gateway_left in
      lift-Ends _ k _ _ (λ dsn. lift-Ends _ k _ _ (λ redis_url. lift-Ends _ k _ _ (λ wallet_addr.
        lift-Ends _ k _ _ (λ jwt_secret. or_exit-Ends _ k _ _ (
          perform-Ends _ (life (pool ∷ []) []) k _ _ refl (
            or_exit-Ends _ k _ _ (
              perform-Ends _ (life (redis ∷ pool ∷ []) []) k _ _ refl (
                or_exit-Ends _ k _ _ (
                  perform-Ends _ (life (wallet_conn ∷ redis ∷ pool ∷ []) []) k _ _ refl (
                    perform-Ends _ (life (wallet_conn ∷ redis ∷ pool ∷ []) (ops_server ∷ [])) k _ _
                      refl
                      (lift-Ends _ k _ _ (λ jwt_ttl. lift-Ends _ k _ _ (λ call_timeout.
                        lift-Ends _ k _ _ (λ auth_limit.
                          lift-Ends _ k _ _ (λ user_limit. gateway_serve-Ends _ _)))))))))))))))
