-- ===== src/Platform/Process/Orderly.antt =====
-- What the main functions of services/wallet/main.go and services/gateway/main.go keep to: a worker runs
-- only on open resources, a server stops only after the pod is marked as not ready, and what a worker
-- uses is closed after it has stopped, or has been told to stop.
use mathlib.Core.Path.{fun_ext}
use wallet_ledger.Base.{
  ℕ, ◌+◌, String, ◌≡◌, refl, ap, ◌∙◌, Bool, true, false, not, ◌&&◌, ◌||◌, Option, none, some, List,
  [], ◌∷◌, ◌++◌, all, any, ◌==◌, keep, if◌then◌else◌,
}
use wallet_ledger.Platform.{
  Environment, Outcome, returns, exits, Ops, mark_not_ready, arm_exit_after, sleep, begin_shutdown,
  and_then, set_draining, env_parsed,
}
use wallet_ledger.Platform.Process.{
  Resource, pool, kafka_writer, redis, wallet_conn, Worker, ops_server, relay, housekeeping,
  grpc_server, http_server, Action, opened, closed, started, stopped, told, signalled, draining,
  Script, pure, ◌>>=◌, ◌>>◌, act, lift, drain, shutdown_script,
}

abbrev resource : Resource → ℕ
resource pool = 0
resource kafka_writer = 1
resource redis = 2
resource wallet_conn = 3

abbrev worker : Worker → ℕ
worker ops_server = 0
worker relay = 1
worker grpc_server = 2
worker http_server = 3
worker housekeeping = 4

-- A process: what is open, what runs, what has been told to stop and may still run, and whether /readyz still says that it takes traffic.
pub record Life : Type 0 where
  pub resources : List Resource
  pub workers : List Worker
  pub leaving : List Worker
  pub ready : Bool

abbrev pub has : Resource → List Resource → Bool
has r rs = any (λ q. resource q == resource r) rs

abbrev pub runs : Worker → List Worker → Bool
runs w ws = any (λ v. worker v == worker w) ws

-- What a worker uses. The readiness check of the ops server pings the pool while the pod is ready.
abbrev pub uses : Bool → Worker → List Resource
uses ready ops_server = if ready then pool ∷ [] else []
uses ready relay = pool ∷ kafka_writer ∷ []
uses ready housekeeping = pool ∷ []
uses ready grpc_server = pool ∷ []
uses ready http_server = pool ∷ redis ∷ wallet_conn ∷ []

abbrev is_server : Worker → Bool
is_server grpc_server = true
is_server http_server = true
is_server _ = false

-- One action, where it is in order.
abbrev pub perform : Action → Life → Option Life
perform (opened r) l =
    if has r l.resources then none else some (record l { resources = r ∷ l.resources })
perform (closed r) l =
    if has r l.resources && all (λ w. not (has r (uses l.ready w))) l.workers
    then some (record l { resources = keep (λ q. not (resource q == resource r)) l.resources })
    else none
perform (started w) l =
    if not (runs w l.workers) && (l.ready && all (λ r. has r l.resources) (uses l.ready w))
    then some (record l { workers = w ∷ l.workers })
    else none
perform (stopped w) l =
    if runs w l.workers && (not (is_server w) || not l.ready)
    then some (record l { workers = keep (λ v. not (worker v == worker w)) l.workers })
    else none
perform (told w) l =
    if runs w l.workers && (not (is_server w) || not l.ready)
    then some (record l {
      workers = keep (λ v. not (worker v == worker w)) l.workers;
      leaving = w ∷ l.leaving;
    })
    else none
perform signalled l = some l
perform (draining mark_not_ready) l = some (record l { ready = false })
perform (draining _) l = some l

abbrev pub chain : (Life → Option Life) → Option Life → Option Life
chain f none = none
chain f (some l) = f l

-- All of them, each in order.
abbrev pub perform_all : List Action → Life → Option Life
perform_all [] l = some l
perform_all (x ∷ xs) l = chain (perform_all xs) (perform x l)

chain_assoc :
    (f g : Life → Option Life) (o : Option Life)
    → chain (λ l. chain f (g l)) o ≡ chain f (chain g o)
chain_assoc f g none = refl
chain_assoc f g (some l) = refl

perform_all-append :
    (xs ys : List Action) (l : Life)
    → perform_all (xs ++ ys) l ≡ chain (perform_all ys) (perform_all xs l)
perform_all-append [] ys l = refl
perform_all-append (x ∷ xs) ys l =
    ap (λ f. chain f (perform x l)) (fun_ext (perform_all-append xs ys))
    ∙ chain_assoc (perform_all ys) (perform_all xs) (perform x l)

abbrev pub new_process : Life
new_process = record { resources = []; workers = []; leaving = []; ready = true }

-- Nothing is open, and nothing runs but what has been told to stop.
abbrev pub over : List Worker → Life
over ls = record { resources = []; workers = []; leaving = ls; ready = false }

-- Those that may still run after a shutdown.
abbrev pub left : Bool → Worker → List Worker → List Worker
left finishes w ls = if finishes then ls else w ∷ ls

-- From a state, every action is in order, and a script that returns leaves this state.
abbrev pub Performs : {A : Type 0} → Life → Life → Script A → Type 0
Performs l k (xs, returns a) = perform_all xs l ≡ some k
Performs l k (xs, exits) = (m : Life) × (perform_all xs l ≡ some m)

pub record Ends {A : Type 0} (l k : Life) (s : Script A) : Type 0 where
  pub performs : Performs l k s

module _ {A B : Type 0} where
  pub bind-Ends :
      (l m k : Life) (s : Script A) (f : A → Script B)
      → Ends l m s
      → ((a : A) → Ends m k (f a))
      → Ends l k (s >>= f)
  unfolding ◌>>=◌
  bind-Ends l m k (xs, exits) f h next = record { performs = h.performs }
  bind-Ends l m k (xs, returns a) f h next = rest (f a) (next a)
    where
      rest : (t : Script B) → Ends m k t → Ends l k (xs ++ t.0, t.1)
      rest (ys, returns b) e = record {
        performs = perform_all-append xs ys l ∙ ap (chain (perform_all ys)) h.performs ∙ e.performs;
      }
      rest (ys, exits) e =
          let (n, ended) = e.performs in
          record {
            performs =
                (n, perform_all-append xs ys l ∙ ap (chain (perform_all ys)) h.performs ∙ ended);
          }

  pub lift-Ends :
      (l k : Life) (o : Outcome A) (f : A → Script B)
      → ((a : A) → Ends l k (f a))
      → Ends l k (lift o >>= f)
  unfolding ◌>>=◌ lift
  lift-Ends l k (returns a) f next = next a
  lift-Ends l k exits f next = record { performs = (l, refl) }

pub then-Ends :
    {B : Type 0} (l m k : Life) (s : Script (Unit {0})) (t : Script B)
    → Ends l m s
    → Ends m k t
    → Ends l k (s >> t)
unfolding ◌>>◌
then-Ends l m k s t h next = bind-Ends l m k s (λ _. t) h (λ _. next)

-- A test that may end the process, and what follows.
pub or_exit-Ends :
    {B : Type 0} (l k : Life) (o : Outcome (Unit {0})) (t : Script B)
    → Ends l k t
    → Ends l k (lift o >> t)
unfolding ◌>>◌
or_exit-Ends l k o t next = lift-Ends l k o (λ _. t) (λ _. next)

pub act-Ends : (l m : Life) (x : Action) → perform_all (x ∷ []) l ≡ some m → Ends l m (act x)
unfolding act
act-Ends l m x h = record { performs = h }

pub pure-Ends : {A : Type 0} (l : Life) (a : A) → Ends l l (pure a)
unfolding pure
pure-Ends l a = record { performs = refl }

-- An action that is in order, and what follows.
pub perform-Ends :
    {B : Type 0} (l m k : Life) (x : Action) (t : Script B)
    → perform_all (x ∷ []) l ≡ some m
    → Ends m k t
    → Ends l k (act x >> t)
perform-Ends l m k x t h next = then-Ends l m k (act x) t (act-Ends l m x h) next

-- BeginShutdown marks the pod as not ready, or ends the process before.
pub drain-Ends :
    (parse : String → Option ℕ) (env : Environment) (o : Ops) (l : Life)
    → Ends l (record l { ready = false }) (drain parse env o)
unfolding drain shutdown_script begin_shutdown and_then
drain-Ends parse env o l = record {
  performs = delayed (env_parsed parse env "SHUTDOWN_DELAY" 5000000000);
}
  where
    timed :
        (delay : ℕ) (timeout : Outcome ℕ)
        → Performs l
            (record l { ready = false })
            (shutdown_script (
              and_then timeout (λ t.
                returns (
                  mark_not_ready ∷ arm_exit_after (delay + t) ∷ sleep delay ∷ [],
                  set_draining o,
                ))))
    timed delay (returns t) = refl
    timed delay exits = (l, refl)

    delayed :
        (delay : Outcome ℕ)
        → Performs l
            (record l { ready = false })
            (shutdown_script (
              and_then delay (λ d.
                and_then (env_parsed parse env "SHUTDOWN_TIMEOUT" 20000000000) (λ t.
                  returns
                    (mark_not_ready ∷ arm_exit_after (d + t) ∷ sleep d ∷ [], set_draining o)))))
    delayed (returns d) = timed d (env_parsed parse env "SHUTDOWN_TIMEOUT" 20000000000)
    delayed exits = (l, refl)

abbrev pub life : List Resource → List Worker → Life
life rs ws = record { resources = rs; workers = ws; leaving = []; ready = true }

abbrev pub drained : List Resource → List Worker → List Worker → Life
drained rs ws ls = record { resources = rs; workers = ws; leaving = ls; ready = false }
