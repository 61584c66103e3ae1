-- ===== src/Relay/Loop/Backoff.antt =====
-- The waits of Relay.loop of services/wallet/outbox.go.
use Prim.Native.Nat.{min, max}
use native.Mathlib.Nat.{pow-suc}
use wallet_ledger.Base.{
  ℕ, zero, suc, ◌*◌, ◌^◌, ◌≤◌, ◌≡◌, refl, ap, ◌∙◌, Bool, true, false, List, [], ◌∷◌, ◌++◌, arith,
  if-intro, if◌then◌else◌, length,
}
use wallet_ledger.Relay.{Result, ok, err, publish_batch}
use wallet_ledger.Relay.Loop.{
  Config, Turn, State, max_backoff, next_backoff, arrive_all, rest_of_turn, turn, loop,
}

-- The waits of `k` failures in a row, of which `j` came before, above those of before: the latest first.
abbrev pub waited : ℕ → ℕ → ℕ → List ℕ → List ℕ
waited poll j zero slept = slept
waited poll j (suc k) slept = waited poll (suc j) k (min (poll * 2 ^ j) max_backoff ∷ slept)

-- The turn runs a pass, and it fails or succeeds; Stop is not called.
abbrev pub Passes : Config → Turn → State → (Result ℕ → Type 0) → Type 0
Passes c t s P =
    (t.stopped ≡ false)
    × (t.stopping ≡ false)
    × P (publish_batch t.pass (arrive_all t.arrivals s.outbox) c.batch_size).result

abbrev pub Failed : Result ℕ → Type 0
Failed (ok n) = ⊥
Failed (err e) = Unit

abbrev pub Succeeded : Result ℕ → Type 0
Succeeded (ok n) = Unit
Succeeded (err e) = ⊥

-- So in each of the turns.
abbrev pub AllFail : Config → List Turn → State → Type 0
AllFail c [] s = Unit
AllFail c (t ∷ ts) s = Passes c t s Failed × AllFail c ts (turn c t s)

rest_of_turn-Failed :
    (c : Config) (stopping : Bool) (r : Result ℕ) (s : State)
    → stopping ≡ false
    → Failed r
    → let x = rest_of_turn c stopping r s in
      (x.running ≡ s.running)
      × (x.slept ≡ s.backoff ∷ s.slept)
      × (x.backoff ≡ next_backoff s.backoff)
unfolding rest_of_turn
rest_of_turn-Failed c stopping (ok n) s e f = absurd f
rest_of_turn-Failed c stopping (err x) s e f = rw e (refl, refl, refl)

turn-Failed :
    (c : Config) (t : Turn) (s : State)
    → Passes c t s Failed
    → let x = turn c t s in
      (x.running ≡ s.running)
      × (x.slept ≡ s.backoff ∷ s.slept)
      × (x.backoff ≡ next_backoff s.backoff)
unfolding turn
turn-Failed c t s (going, staying, f) =
    let a = publish_batch t.pass (arrive_all t.arrivals s.outbox) c.batch_size in
    rw going (
      rest_of_turn-Failed c t.stopping a.result
        (record s { log = s.log ++ a.sent; outbox = a.outbox }) staying f)

rest_of_turn-Succeeded :
    (c : Config) (stopping : Bool) (r : Result ℕ) (s : State)
    → Succeeded r
    → let x = rest_of_turn c stopping r s in (x.running ≡ s.running) × (x.backoff ≡ c.poll)
unfolding rest_of_turn
rest_of_turn-Succeeded c stopping (err e) s f = absurd f
rest_of_turn-Succeeded c stopping (ok n) s f = ground arith

turn-Succeeded :
    (c : Config) (t : Turn) (s : State)
    → Passes c t s Succeeded
    → let x = turn c t s in (x.running ≡ s.running) × (x.backoff ≡ c.poll)
unfolding turn
turn-Succeeded c t s (going, staying, f) =
    let a = publish_batch t.pass (arrive_all t.arrivals s.outbox) c.batch_size in
    rw going (
      rest_of_turn-Succeeded c t.stopping a.result
        (record s { log = s.log ++ a.sent; outbox = a.outbox }) f)

next_backoff-doubles :
    (poll j b : ℕ)
    → b ≡ min (poll * 2 ^ j) max_backoff
    → next_backoff b ≡ min (poll * 2 ^ suc j) max_backoff
unfolding next_backoff
next_backoff-doubles poll j b h = rw (h, pow-suc) (ground arith)

loop_on :
    (c : Config) (t : Turn) (ts : List Turn) (s : State)
    → s.running ≡ true
    → loop c (t ∷ ts) s ≡ loop c ts (turn c t s)
unfolding loop
loop_on c t ts s on = ap (λ b. if b then loop c ts (turn c t s) else s) on

failures-waited :
    (c : Config) (ts : List Turn) (s : State) (j : ℕ)
    → s.running ≡ true
    → s.backoff ≡ min (c.poll * 2 ^ j) max_backoff
    → AllFail c ts s
    → (loop c ts s).slept ≡ waited c.poll j (length ts) s.slept
unfolding loop
failures-waited c [] s j on b f = refl
failures-waited c (t ∷ ts) s j on b (f, fs) =
    let (same, slept, next) = turn-Failed c t s f in
    let ih =
      failures-waited c ts (turn c t s) (suc j) (same ∙ on)
        (next ∙ next_backoff-doubles c.poll j s.backoff b) fs in
    ap (λ (x : State). x.slept) (loop_on c t ts s on)
    ∙ ih
    ∙ ap (waited c.poll (suc j) (length ts)) (slept ∙ ap (λ x. x ∷ s.slept) b)

-- With a poll interval of at most ten seconds, the failures in a row after a pass that succeeds are
-- followed by these waits: after the first the interval, after each further one twice as long, and ten
-- seconds at most. Stop is not called meanwhile.
pub loop-waited :
    (c : Config) (t : Turn) (ts : List Turn) (s : State)
    → c.poll ≤ max_backoff
    → s.running ≡ true
    → Passes c t s Succeeded
    → AllFail c ts (turn c t s)
    → (loop c (t ∷ ts) s).slept ≡ waited c.poll 0 (length ts) (turn c t s).slept
loop-waited c t ts s h on good bad =
    let (same, reset) = turn-Succeeded c t s good in
    ap (λ (x : State). x.slept) (loop_on c t ts s on)
    ∙ failures-waited c ts (turn c t s) 0 (same ∙ on) (reset ∙ omega arith) bad

abbrev Bounded : Config → State → Type 0
Bounded c s = (min c.poll max_backoff ≤ s.backoff) × (s.backoff ≤ max c.poll max_backoff)

turn-Bounded : (c : Config) (t : Turn) (s : State) → Bounded c s → Bounded c (turn c t s)
unfolding turn rest_of_turn next_backoff
turn-Bounded c t s h = ground arith

-- If the wait after a failure is between the smaller and the larger of the poll interval and ten
-- seconds, it is so after any run.
pub loop-Bounded : (c : Config) (ts : List Turn) (s : State) → Bounded c s → Bounded c (loop c ts s)
unfolding loop
loop-Bounded c [] s h = h
loop-Bounded c (t ∷ ts) s h =
    if-intro (Bounded c) s.running (loop c ts (turn c t s)) s
      (loop-Bounded c ts (turn c t s) (turn-Bounded c t s h)) h
