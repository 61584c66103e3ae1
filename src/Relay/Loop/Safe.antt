-- ===== src/Relay/Loop/Safe.antt =====
-- At-least-once delivery in runs of Relay.loop of services/wallet/outbox.go.
use wallet_ledger.Base.{
  ℕ, ◌≡◌, inl, inr, Bool, false, not, none, List, [], ◌∷◌, ◌++◌, arith, ◌==◌, all, Bool-cases,
  if-intro,
}
use wallet_ledger.Store.Schema.{OutboxRow}
use wallet_ledger.Relay.{unsent, Message, Result, publish_batch}
use wallet_ledger.Relay.Delivery.{
  DistinctRows, IsDelivered, publish_batch-Delivered, publish_batch-DistinctRows,
}
use wallet_ledger.Relay.Loop.{Config, Turn, State, arrive_all, rest_of_turn, turn, loop}

arrive_all-Delivered :
    (log : List Message) (rs rows : List OutboxRow)
    → DistinctRows rows
    → IsDelivered log rows
    → DistinctRows (arrive_all rs rows) × IsDelivered log (arrive_all rs rows)
unfolding arrive_all
arrive_all-Delivered log [] rows u h = (u, h)
arrive_all-Delivered log (r ∷ rs) rows u h =
    elim (Bool-cases (all (λ x. not (x.id == r.id)) rows)) [
      | inl new ↦ rw new (
          arrive_all-Delivered log rs (record r { published_at = none } ∷ rows) (new, u)
            ((λ e. absurd (waits e)), h))
      | inr old ↦ rw old (arrive_all-Delivered log rs rows u h)
    ]
  where
    waits : unsent (record r { published_at = none }) ≡ false → ⊥
    waits e = unfold unsent in cc

-- The invariant of the loop.
pub record IsSafe (s : State) : Type 0 where
  pub distinct : DistinctRows s.outbox
  pub delivered : IsDelivered s.log s.outbox

rest_of_turn-fields :
    (c : Config) (stopping : Bool) (r : Result ℕ) (s : State)
    → let s' = rest_of_turn c stopping r s in (s'.log ≡ s.log) × (s'.outbox ≡ s.outbox)
unfolding rest_of_turn
rest_of_turn-fields c stopping r s = ground arith

pub turn-IsSafe : (c : Config) (t : Turn) (s : State) → IsSafe s → IsSafe (turn c t s)
unfolding turn
turn-IsSafe c t s h =
    let rows = arrive_all t.arrivals s.outbox in
    let (u, d) = arrive_all-Delivered s.log t.arrivals s.outbox h.distinct h.delivered in
    let a = publish_batch t.pass rows c.batch_size in
    let s' = record s { log = s.log ++ a.sent; outbox = a.outbox } in
    let (same_log, same_rows) = rest_of_turn-fields c t.stopping a.result s' in
    elim (Bool-cases t.stopped) [
      | inl y ↦ rw y (record { distinct = u; delivered = d })
      | inr n ↦ rw n (record {
        distinct = rw same_rows (publish_batch-DistinctRows t.pass rows c.batch_size u);
        delivered =
            rw (same_log, same_rows) (publish_batch-Delivered s.log t.pass rows u d c.batch_size);
      })
    ]

-- If the rows have distinct ids, and every row that is marked as sent has its message in what Kafka
-- has accepted, then both hold after any run of the relay, whatever fails, whatever rows are
-- inserted and wherever it is stopped.
pub loop-IsSafe : (c : Config) (ts : List Turn) (s : State) → IsSafe s → IsSafe (loop c ts s)
unfolding loop
loop-IsSafe c [] s h = h
loop-IsSafe c (t ∷ ts) s h =
    if-intro IsSafe s.running (loop c ts (turn c t s)) s
      (loop-IsSafe c ts (turn c t s) (turn-IsSafe c t s h)) h
