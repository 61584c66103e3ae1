-- ===== src/Relay/Loop.antt =====
-- Relay.loop of services/wallet/outbox.go: pass after pass until it is stopped, with a growing wait
-- after failures. Durations are in nanoseconds.
pub mod Safe
pub mod Backoff
use wallet_ledger.Base.{
  ℕ, zero, suc, ◌+◌, ◌*◌, ◌^◌, ◌≤◌, ◌<◌, ◌≡◌, refl, inl, inr, Bool, true, false, not, ◌&&◌, Option,
  none, some, List, [], ◌∷◌, ◌++◌, map, arith, ltb, ◌==◌, if◌then◌else◌, all, Bool-cases,
}
use mathlib.Core.List.{append_assoc}
use wallet_ledger.Store.Schema.{OutboxRow}
use wallet_ledger.Relay.{Message, Error, Result, ok, err, Pass, After, publish_batch}
use wallet_ledger.Relay.Delivery.{
  DistinctRows, IsDelivered, publish_batch-Delivered, publish_batch-DistinctRows,
}

pub record Config : Type 0 where
  pub poll : ℕ
  pub batch_size : ℕ

-- What happens around one turn of the loop: rows that the store inserts before it, the pass, and
-- whether Stop is called before the turn or by its end.
pub record Turn : Type 0 where
  pub arrivals : List OutboxRow
  pub stopped : Bool
  pub pass : Pass
  pub stopping : Bool

pub record State : Type 0 where
  pub backoff : ℕ
  -- the durations slept, the latest first
  pub slept : List ℕ
  -- wallet_outbox_publish_failures_total
  pub failures : ℕ
  pub log : List Message
  pub outbox : List OutboxRow
  pub running : Bool

abbrev pub max_backoff : ℕ
max_backoff = 10000000000

-- min(backoff*2, 10*time.Second)
unfoldable pub next_backoff : ℕ → ℕ
next_backoff b = if ltb (b * 2) max_backoff then b * 2 else max_backoff

-- An INSERT of the store: a new id, not yet sent.
unfoldable pub arrive : OutboxRow → List OutboxRow → List OutboxRow
arrive r rows =
    if all (λ x. not (x.id == r.id)) rows then record r { published_at = none } ∷ rows else rows

unfoldable pub arrive_all : List OutboxRow → List OutboxRow → List OutboxRow
unfolding arrive
arrive_all [] rows = rows
arrive_all (r ∷ rs) rows = arrive_all rs (arrive r rows)

-- The rest of a turn, by the result of its pass.
unfoldable pub rest_of_turn : Config → Bool → Result ℕ → State → State
unfolding next_backoff
rest_of_turn c stopping (err e) s = if stopping then record s { running = false } else record s {
  failures = s.failures + 1;
  slept = s.backoff ∷ s.slept;
  backoff = next_backoff s.backoff;
}
rest_of_turn c stopping (ok n) s =
    if ltb n c.batch_size
    then record s { backoff = c.poll; slept = c.poll ∷ s.slept }
    else record s { backoff = c.poll }

unfoldable pub turn : Config → Turn → State → State
unfolding rest_of_turn arrive_all
turn c t s =
    let rows = arrive_all t.arrivals s.outbox in
    if t.stopped
    then record s { outbox = rows; running = false }
    else (let a = publish_batch t.pass rows c.batch_size in
        rest_of_turn c t.stopping a.result (record s { log = s.log ++ a.sent; outbox = a.outbox }))

unfoldable pub loop : Config → List Turn → State → State
unfolding turn
loop c [] s = s
loop c (t ∷ ts) s = let rest = loop c ts (turn c t s) in if s.running then rest else s
