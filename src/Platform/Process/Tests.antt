-- ===== src/Platform/Process/Tests.antt =====
-- The two processes under an environment in which all they need is set.
use wallet_ledger.Base.{ℕ, String, Bool, true, false, Option, some, [], ◌∷◌}
use wallet_ledger.Base.Int.{ℤ, pos}
use wallet_ledger.Platform.{Environment}
use wallet_ledger.Platform.Process.Orderly.{Ends, new_process, over}
use wallet_ledger.Platform.Process.{housekeeping, http_server}
use wallet_ledger.Platform.Process.Wallet
use wallet_ledger.Platform.Process.Gateway
use wallet_ledger.Platform.Process.Mains.{wallet_main-Ends, gateway_main-Ends}

abbrev environment : Environment
environment key = "set"

abbrev any_text : String → Bool
any_text s = true

abbrev seven : String → Option ℤ
seven s = some (pos 7)

abbrev one_second : String → Option ℕ
one_second s = some 1000000000

abbrev wallet_libraries : Wallet.Libraries
wallet_libraries = record {
  accepts_dsn = any_text;
  atoi = seven;
  parse_duration = one_second;
  can_listen = any_text;
  ops_finishes = true;
}

abbrev gateway_libraries : Gateway.Libraries
gateway_libraries = record {
  accepts_dsn = any_text;
  accepts_redis_url = any_text;
  accepts_target = any_text;
  atoi = seven;
  parse_duration = one_second;
  http_finishes = false;
  ops_finishes = true;
}

wallet_main-Ends_example :
    Ends new_process (over (housekeeping ∷ [])) (Wallet.main wallet_libraries environment)
wallet_main-Ends_example = wallet_main-Ends wallet_libraries environment

gateway_main-Ends_example :
    Ends new_process (over (http_server ∷ [])) (Gateway.main gateway_libraries environment)
gateway_main-Ends_example = gateway_main-Ends gateway_libraries environment
