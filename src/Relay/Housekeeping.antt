-- ===== src/Relay/Housekeeping.antt =====
-- Relay.Start and Relay.housekeeping of services/wallet/outbox.go: the loop that sends, and beside it the
-- ticks that refresh the gauges and delete old rows.
use wallet_ledger.Base.{
  ℕ, ◌/◌, if-intro, Bool, false, Option, none, some, List, [], ◌∷◌, if◌then◌else◌,
}
use wallet_ledger.Store.Schema.{Instant}
use wallet_ledger.Store.Session.{DbError}
use wallet_ledger.Relay.{gauges, cleanup}
use wallet_ledger.Relay.Backlog.{cleanup-IsDelivered}
use wallet_ledger.Relay.Drain.{keep-DistinctRows}
use wallet_ledger.Relay.Loop.{Config, Turn, State, turn}
use wallet_ledger.Relay.Loop.Safe.{IsSafe, turn-IsSafe}

-- What one of the tickers, or the call before the loop, does at a time, and a failure of its statement.
pub data Tick : Type 0 where
  refresh : Instant → Option DbError → Tick
  sweep : Instant → Option DbError → Tick

-- The relay: its loop, wallet_outbox_pending with wallet_outbox_oldest_pending_seconds, which is kept in
-- microseconds, and whether housekeeping has seen the end of the context.
pub record Relay : Type 0 where
  pub sending : State
  pub shown : ℕ × ℕ
  pub keeping : Bool

-- refreshGauges: after a failure the gauges stay.
unfoldable pub refresh_gauges : Instant → Option DbError → Relay → Relay
unfolding gauges
refresh_gauges now none r = record r { shown = gauges now r.sending.outbox }
refresh_gauges now (some e) r = r

-- The DELETE, with retention.Hours() in whole hours.
unfoldable pub sweep_rows : ℕ → Instant → Option DbError → Relay → Relay
unfolding cleanup
sweep_rows retention now none r = record r {
  sending = record (r.sending) {
    outbox = cleanup (retention / 3600000000000) now r.sending.outbox;
  };
}
sweep_rows retention now (some e) r = r

unfoldable pub tick : ℕ → Tick → Relay → Relay
unfolding refresh_gauges sweep_rows
tick retention (refresh now e) = refresh_gauges now e
tick retention (sweep now e) = sweep_rows retention now e

-- What the two goroutines of Start and the caller of Stop do, one after the other.
pub data Event : Type 0 where
  sends : Turn → Event
  ticks : Tick → Event
  -- <-ctx.Done() in housekeeping
  stops_keeping : Event

unfoldable pub happen : Config → ℕ → Event → Relay → Relay
unfolding turn tick
happen c retention (sends t) r =
    if r.sending.running then record r { sending = turn c t r.sending } else r
happen c retention (ticks t) r = if r.keeping then tick retention t r else r
happen c retention stops_keeping r = record r { keeping = false }

unfoldable pub run : Config → ℕ → List Event → Relay → Relay
unfolding happen
run c retention [] r = r
run c retention (e ∷ es) r = run c retention es (happen c retention e r)

sweep_rows-IsSafe :
    (retention : ℕ) (now : Instant) (e : Option DbError) (r : Relay)
    → IsSafe r.sending
    → IsSafe (sweep_rows retention now e r).sending
unfolding sweep_rows cleanup
sweep_rows-IsSafe retention now none r h = record {
  distinct = keep-DistinctRows _ r.sending.outbox h.distinct;
  delivered =
      (cleanup-IsDelivered (retention / 3600000000000) now r.sending.log r.sending.outbox
        h.delivered).0;
}
sweep_rows-IsSafe retention now (some e) r h = h

happen-IsSafe :
    (c : Config) (retention : ℕ) (e : Event) (r : Relay)
    → IsSafe r.sending
    → IsSafe (happen c retention e r).sending
unfolding happen tick refresh_gauges
happen-IsSafe c retention (sends t) r h =
    if-intro (λ x. IsSafe x.sending) r.sending.running _ r (turn-IsSafe c t r.sending h) h
happen-IsSafe c retention (ticks (refresh now none)) r h =
    if-intro (λ x. IsSafe x.sending) r.keeping _ r h h
happen-IsSafe c retention (ticks (refresh now (some e))) r h =
    if-intro (λ x. IsSafe x.sending) r.keeping _ r h h
happen-IsSafe c retention (ticks (sweep now e)) r h =
    if-intro (λ x. IsSafe x.sending) r.keeping _ r (sweep_rows-IsSafe retention now e r h) h
happen-IsSafe c retention stops_keeping r h = h

-- If the rows have distinct ids, and every row that is marked as sent has its message in what Kafka has
-- accepted, then both hold after any run of the relay with its housekeeping, however the two interleave,
-- whatever fails, whatever rows are inserted and wherever they are stopped.
pub run-IsSafe :
    (c : Config) (retention : ℕ) (es : List Event) (r : Relay)
    → IsSafe r.sending
    → IsSafe (run c retention es r).sending
unfolding run
run-IsSafe c retention [] r h = h
run-IsSafe c retention (e ∷ es) r h =
    run-IsSafe c retention es (happen c retention e r) (happen-IsSafe c retention e r h)
