-- ===== src/Platform.antt =====
-- Helpers shared by the Go services, internal/platform: readiness, configuration and shutdown.
pub mod Ready
pub mod Process
mod Tests
use Prim.Native.String.{◌++◌ as append}
use wallet_ledger.Base.{
  ℕ, ◌+◌, String, Bool, true, false, not, ◌||◌, Option, none, some, List, [], ◌∷◌, str_eq,
  if◌then◌else◌,
}

-- os.Getenv: "" where the variable is not set.
abbrev pub Environment : Type 0
Environment = String → String

-- What a helper does: it returns, or it ends the process with status 1.
pub data Outcome (A : Type 0) : Type 0 where
  returns : A → Outcome A
  exits : Outcome A

unfoldable pub must_env : Environment → String → Outcome String
must_env env key = let v = env key in if str_eq v "" then exits else returns v

unfoldable pub env_or : Environment → String → String → String
env_or env key def = let v = env key in if str_eq v "" then def else v

-- EnvInt and EnvDuration differ in the parser of the standard library alone.
module _ {A : Type 0} (parse : String → Option A) where
  parsed_or_exit : Option A → Outcome A
  parsed_or_exit none = exits
  parsed_or_exit (some a) = returns a

  unfoldable pub env_parsed : Environment → String → A → Outcome A
  unfolding parsed_or_exit
  env_parsed env key def =
      let v = env key in if str_eq v "" then returns def else parsed_or_exit (parse v)

-- Ops: the checks by name, and whether the pod is draining. A check answers with an error's text.
pub record Ops : Type 0 where
  pub checks : List (String × Option String)
  pub draining : Bool

unfoldable pub new_ops : Ops
new_ops = record { checks = []; draining = false }

unfoldable pub set_check :
    String → Option String → List (String × Option String) → List (String × Option String)
set_check name check [] = (name, check) ∷ []
set_check name check ((n, c) ∷ cs) =
    if str_eq n name then (name, check) ∷ cs else (n, c) ∷ set_check name check cs

unfoldable pub add_check : String → Option String → Ops → Ops
unfolding set_check
add_check name check o = record o { checks = set_check name check o.checks }

unfoldable pub set_draining : Ops → Ops
set_draining o = record o { draining = true }

pub data Readiness : Type 0 where
  draining : Readiness
  -- ok or not_ready, with the failures by name (none is "ok")
  checked : Bool → List (String × Option String) → Readiness

unfoldable pub all_pass : List (String × Option String) → Bool
all_pass [] = true
all_pass ((n, none) ∷ cs) = all_pass cs
all_pass ((n, some e) ∷ cs) = false

-- The status code and the body of /readyz.
unfoldable pub readyz : Ops → ℕ × Readiness
unfolding all_pass
readyz o =
    if o.draining
    then (503, draining)
    else (let ok = all_pass o.checks in (if ok then 200 else 503, checked ok o.checks))

-- What BeginShutdown does, in order, with durations in nanoseconds.
pub data Step : Type 0 where
  mark_not_ready : Step
  arm_exit_after : ℕ → Step
  sleep : ℕ → Step

unfoldable pub and_then : {A B : Type 0} → Outcome A → (A → Outcome B) → Outcome B
and_then (returns a) k = k a
and_then exits k = exits

-- BeginShutdown, with time.ParseDuration as `parse`: its steps, and the state that it leaves.
unfoldable pub begin_shutdown : (String → Option ℕ) → Environment → Ops → Outcome (List Step × Ops)
unfolding env_parsed and_then set_draining
begin_shutdown parse env o = and_then (env_parsed parse env "SHUTDOWN_DELAY" 5000000000) (λ delay.
    and_then (env_parsed parse env "SHUTDOWN_TIMEOUT" 20000000000) (λ timeout.
      returns
        (mark_not_ready ∷ arm_exit_after (delay + timeout) ∷ sleep delay ∷ [], set_draining o)))

-- What the ops server answers.
pub data OpsAnswer : Type 0 where
  alive : OpsAnswer
  readiness : ℕ × Readiness → OpsAnswer
  metrics : OpsAnswer
  -- of Go's ServeMux
  not_found : OpsAnswer
  not_allowed : OpsAnswer

is_get : String → Bool
is_get method = str_eq method "GET" || str_eq method "HEAD"

is_ops_path : String → Bool
is_ops_path path = str_eq path "/healthz" || str_eq path "/readyz" || str_eq path "/metrics"

-- The routes of Ops.Start. A pattern of method GET matches HEAD too.
unfoldable pub ops_serve : String → String → Ops → OpsAnswer
unfolding is_get is_ops_path readyz
ops_serve method path o =
    if not (is_ops_path path)
    then not_found
    else if not (is_get method)
    then not_allowed
    else if str_eq path "/healthz"
    then alive
    else if str_eq path "/readyz"
    then readiness (readyz o)
    else metrics

-- The address of the ops server.
unfoldable pub ops_addr : Environment → String
unfolding env_or
ops_addr env = append ":" (env_or env "OPS_PORT" "9090")

pub data Level : Type 0 where
  info : Level
  debug : Level

-- NewLogger: its level, and the service of every line.
unfoldable pub new_logger : Environment → String → Level × String
new_logger env service = (if str_eq (env "LOG_LEVEL") "debug" then debug else info, service)
