-- ===== src/Platform/Process/Gateway.antt =====
-- main of services/gateway/main.go; its routes are in Gateway/Routes.
use wallet_ledger.Base.{ℕ, String, Bool, Option, none, str_eq}
use wallet_ledger.Base.Int.{ℤ, pos}
use wallet_ledger.Platform.{Environment, must_env, env_or, env_parsed, Ops, new_ops, add_check}
use wallet_ledger.Platform.Process.{
  pool, redis, wallet_conn, ops_server, http_server, opened, closed, started, signalled, Script,
  pure, ◌>>=◌, ◌>>◌, act, shut, lift, or_exit, drain,
}

-- Libraries: pgxpool.New, redis.ParseURL and grpc.NewClient accept an address, strconv.Atoi and
-- time.ParseDuration, and whether the shutdowns of the two servers finish within fifteen seconds.
pub record Libraries : Type 0 where
  pub accepts_dsn : String → Bool
  pub accepts_redis_url : String → Bool
  pub accepts_target : String → Bool
  pub atoi : String → Option ℤ
  pub parse_duration : String → Option ℕ
  pub http_finishes : Bool
  pub ops_finishes : Bool

pub record Settings : Type 0 where
  pub port : String
  pub jwt_secret : String
  pub jwt_ttl : ℕ
  pub call_timeout : ℕ
  pub trust_proxy : Bool
  pub auth_limit : ℤ
  pub user_limit : ℤ

module _ (lib : Libraries) (env : Environment) where
  unfoldable pub shut_down : Ops → Script (Unit {0})
  unfolding shut
  shut_down ops = do
    act signalled
    drain lib.parse_duration env ops
    act (shut lib.http_finishes http_server)
    act (closed wallet_conn)
    act (closed redis)
    act (closed pool)
    act (shut lib.ops_finishes ops_server)

  unfoldable pub serve : Settings → Ops → Script Settings
  serve s ops = do act (started http_server); shut_down ops; pure s

  unfoldable pub main : Script Settings
  main = do
    dsn ← lift (must_env env "DATABASE_URL")
    redis_url ← lift (must_env env "REDIS_URL")
    wallet_addr ← lift (must_env env "WALLET_GRPC_ADDR")
    jwt_secret ← lift (must_env env "JWT_SECRET")
    lift (or_exit (lib.accepts_dsn dsn))
    act (opened pool)
    lift (or_exit (lib.accepts_redis_url redis_url))
    act (opened redis)
    lift (or_exit (lib.accepts_target wallet_addr))
    act (opened wallet_conn)
    act (started ops_server)
    jwt_ttl ← lift (env_parsed lib.parse_duration env "JWT_TTL" 900000000000)
    call_timeout ← lift (env_parsed lib.parse_duration env "WALLET_CALL_TIMEOUT" 3000000000)
    auth_limit ← lift (env_parsed lib.atoi env "RATE_LIMIT_AUTH_PER_MINUTE" (pos 10))
    user_limit ← lift (env_parsed lib.atoi env "RATE_LIMIT_PER_MINUTE" (pos 60))
    serve
        (record {
          port = env_or env "PORT" "8080";
          jwt_secret = jwt_secret;
          jwt_ttl = jwt_ttl;
          call_timeout = call_timeout;
          trust_proxy = str_eq (env_or env "TRUST_PROXY" "false") "true";
          auth_limit = auth_limit;
          user_limit = user_limit;
        })
        (add_check "postgres" none new_ops)
