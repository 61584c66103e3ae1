-- ===== src/Platform/Process/Wallet.antt =====
-- main of services/wallet/main.go.
use wallet_ledger.Base.{ℕ, String, Bool, Option, none, List}
use wallet_ledger.Base.Int.{ℤ, pos}
use wallet_ledger.Platform.{Environment, must_env, env_or, env_parsed, Ops, new_ops, add_check}
use wallet_ledger.Platform.Process.{
  pool, kafka_writer, ops_server, relay, housekeeping, grpc_server, opened, closed, started,
  stopped, told, signalled, Script, pure, ◌>>=◌, ◌>>◌, act, shut, lift, or_exit, drain, split,
}

-- Libraries and the system: pgxpool.New accepts the URL, strconv.Atoi, time.ParseDuration, whether the
-- port is free, and whether the shutdown of the ops server finishes within its five seconds.
pub record Libraries : Type 0 where
  pub accepts_dsn : String → Bool
  pub atoi : String → Option ℤ
  pub parse_duration : String → Option ℕ
  pub can_listen : String → Bool
  pub ops_finishes : Bool

-- What main has read; durations in nanoseconds.
pub record Settings : Type 0 where
  pub dsn : String
  pub brokers : List String
  pub grpc_port : String
  pub poll : ℕ
  pub batch_size : ℤ
  pub retention : ℕ
  pub max_retries : ℤ

module _ (lib : Libraries) (env : Environment) where
  -- The last part: BeginShutdown, and everything stopped and closed. Relay.Stop cancels the context of
  -- both goroutines and waits for the loop.
  unfoldable pub shut_down : Ops → Script (Unit {0})
  unfolding shut
  shut_down ops = do
    act signalled
    drain lib.parse_duration env ops
    act (stopped grpc_server)
    act (told housekeeping)
    act (stopped relay)
    act (closed kafka_writer)
    act (closed pool)
    act (shut lib.ops_finishes ops_server)

  unfoldable pub serve : Settings → Ops → Script Settings
  serve s ops = do
    lift (or_exit (lib.can_listen s.grpc_port))
    act (started grpc_server)
    shut_down ops
    pure s

  unfoldable pub main : Script Settings
  main = do
    dsn ← lift (must_env env "DATABASE_URL")
    brokers ← lift (must_env env "KAFKA_BROKERS")
    lift (or_exit (lib.accepts_dsn dsn))
    act (opened pool)
    act (started ops_server)
    act (opened kafka_writer)
    poll ← lift (env_parsed lib.parse_duration env "OUTBOX_POLL_INTERVAL" 200000000)
    batch_size ← lift (env_parsed lib.atoi env "OUTBOX_BATCH_SIZE" (pos 100))
    retention ← lift (env_parsed lib.parse_duration env "OUTBOX_RETENTION" 604800000000000)
    act (started relay)
    act (started housekeeping)
    max_retries ← lift (env_parsed lib.atoi env "OPTIMISTIC_LOCK_RETRIES" (pos 10))
    serve
        (record {
          dsn = dsn;
          brokers = split b',' brokers;
          grpc_port = env_or env "GRPC_PORT" "50051";
          poll = poll;
          batch_size = batch_size;
          retention = retention;
          max_retries = max_retries;
        })
        (add_check "postgres" none new_ops)
