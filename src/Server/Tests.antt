-- ===== src/Server/Tests.antt =====
-- Requests to the handlers of services/wallet/server.go, and the theorems about them at one input each.
use mathlib.Core.List.{Permᴰ}
use wallet_ledger.Base.{◌≡◌, refl, ◌⊎◌, String, Option, none, some, [], str_eq, if◌then◌else◌}
use wallet_ledger.Base.Int.{pos}
use wallet_ledger.Store.Schema.{Uuid, Kind}
use wallet_ledger.Store.Session.{Error}
use wallet_ledger.Store.Money
use wallet_ledger.Store.Invariant.{IsSound, sum_balances, sum_deposits}
use wallet_ledger.Server.{
  Server, DepositRequest, TransferRequest, transfer, move, to_status, is_business_error,
}
use wallet_ledger.Server.Errors.{blames_request, is_business_error-to_status}
use wallet_ledger.Server.Handlers.{Refuses, InBounds, transfer_gate}

-- A parser of three ids.
abbrev parse : String → Option Uuid
parse s = if str_eq s "u1" then some 1 else if str_eq s "w22" then some 22 else none

abbrev server : Server
server = record {
  world = record {
    db = record { wallets = []; transactions = []; outbox = []; deleted = [] };
    pending = [];
    events = [];
    gen = record { uuid = λ n. n; clock = λ n. n; serial = λ n. n };
    draws = 0;
    now = 0;
    lock_retries = [];
  };
  transactions_total = [];
  grpc_requests = [];
}

abbrev paying_in : DepositRequest
paying_in = record { user_id = "u1"; amount_cents = pos 50; idempotency_key = "k" }

abbrev paying : TransferRequest
paying = record {
  user_id = "u1";
  to_wallet_id = "w22";
  amount_cents = pos 50;
  idempotency_key = "k";
}

is_business_error-to_status_example :
    is_business_error Error.insufficient_funds
    ≡ blames_request (to_status Error.insufficient_funds).code
is_business_error-to_status_example = is_business_error-to_status Error.insufficient_funds

transfer_gate_example :
    let x = transfer parse 3 paying server in
    Refuses server x
    ⊎ ((u to_wallet_id : Uuid) × (parse "u1" ≡ some u)
        × (parse "w22" ≡ some to_wallet_id)
        × InBounds (pos 50) "k"
        × (x ≡ move parse 3 Kind.transfer (Money.transfer 3 u to_wallet_id (pos 50) "k") server))
transfer_gate_example = transfer_gate parse 3 paying server

empty-IsSound : IsSound server.world.db
empty-IsSound = record {
  balances = tt;
  ids = tt;
  users = tt;
  keys = tt;
  refs = tt;
  reconciled = tt;
  conserved = unfold sum_balances sum_deposits in refl;
  recorded = Permᴰ.nil;
  sent = tt;
}
