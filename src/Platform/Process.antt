-- ===== src/Platform/Process.antt =====
-- How the main functions of services/wallet/main.go and services/gateway/main.go run: what they open,
-- start, stop and close, in order, and where they end the process.
pub mod Wallet
pub mod Gateway
pub mod Orderly
pub mod Mains
mod Tests
use Prim.Native.Char.{code}
use Prim.Native.String.{[] as no_text, ◌∷◌ as text_cons}
use wallet_ledger.Base.{
  ℕ, String, Bool, true, false, Option, none, some, List, [], ◌∷◌, ◌++◌, map, ◌==◌, if◌then◌else◌,
}
use wallet_ledger.Platform.{
  Environment, Outcome, returns, exits, must_env, env_parsed, Ops, Step, begin_shutdown,
}

pub data Resource : Type 0 where
  pool : Resource
  kafka_writer : Resource
  redis : Resource
  wallet_conn : Resource

pub data Worker : Type 0 where
  ops_server : Worker
  -- the loop of the relay, and what runs beside it
  relay : Worker
  housekeeping : Worker
  grpc_server : Worker
  http_server : Worker

pub data Action : Type 0 where
  opened : Resource → Action
  closed : Resource → Action
  started : Worker → Action
  stopped : Worker → Action
  -- it has been told to stop, and main goes on though it may still run
  told : Worker → Action
  -- WaitForSignal has returned
  signalled : Action
  draining : Step → Action

-- What a part of main has done, and whether it ends the process.
abbrev pub Script : Type 0 → Type 0
Script A = List Action × Outcome A

unfoldable pub pure : {A : Type 0} → A → Script A
pure a = ([], returns a)

module _ {A B : Type 0} where
  abbrev pub then_run : List Action → Outcome A → (A → Script B) → Script B
  then_run xs (returns a) f = let (ys, r) = f a in (xs ++ ys, r)
  then_run xs exits f = (xs, exits)

  infixl 5 ◌>>=◌
  unfoldable pub ◌>>=◌ : Script A → (A → Script B) → Script B
  ◌>>=◌ m f = then_run m.0 m.1 f

infixl 5 ◌>>◌
unfoldable pub ◌>>◌ : {B : Type 0} → Script (Unit {0}) → Script B → Script B
unfolding ◌>>=◌
m >> k = m >>= λ _. k

unfoldable pub act : Action → Script (Unit {0})
act x = (x ∷ [], returns tt)

-- A shutdown with a deadline, whose error is discarded: it finishes, or not.
unfoldable pub shut : Bool → Worker → Action
shut finishes w = if finishes then stopped w else told w

-- A helper that returns or exits, and does nothing else.
unfoldable pub lift : {A : Type 0} → Outcome A → Script A
lift o = ([], o)

-- if err != nil { log.Error(…); os.Exit(1) }
unfoldable pub or_exit : Bool → Outcome (Unit {0})
or_exit ok = if ok then returns tt else exits

-- BeginShutdown, with what it does.
shutdown_script : Outcome (List Step × Ops) → Script (Unit {0})
shutdown_script (returns (steps, o)) = (map draining steps, returns tt)
shutdown_script exits = ([], exits)

unfoldable pub drain : (String → Option ℕ) → Environment → Ops → Script (Unit {0})
unfolding begin_shutdown shutdown_script
drain parse_duration env o = shutdown_script (begin_shutdown parse_duration env o)

-- strings.Split
unfoldable pub split : ℕ → String → List String
split c no_text = no_text ∷ []
split c (text_cons d s) =
    let rest = split c s in
    if code d == c
    then no_text ∷ rest
    else elim rest [ [] ↦ text_cons d no_text ∷ [] | x ∷ xs ↦ text_cons d x ∷ xs ]
