-- ===== src/Relay.antt =====
-- The outbox relay, services/wallet/outbox.go: batches of unsent rows go to Kafka and are marked as
-- sent; old rows are deleted. What PostgreSQL and Kafka do in one pass is given by a `Pass`.
pub mod Batch
pub mod Delivery
pub mod Backlog
pub mod Order
pub mod Drain
pub mod Overtake
pub mod Housekeeping
pub mod Pods
pub mod Loop
mod Tests
use wallet_ledger.Base.{
  ℕ, zero, suc, ◌+◌, ◌-◌, ◌*◌, String, Bool, true, false, not, ◌&&◌, ◌||◌, Option, none, some, List,
  [], ◌∷◌, ◌++◌, map, ltb, leb, ◌==◌, if◌then◌else◌, length, take, keep,
}
use wallet_ledger.Store.Schema.{Uuid, Instant, Payload, OutboxRow}
use wallet_ledger.Store.Session.{DbError}
unfoldable pub use wallet_ledger.Store.Write.{expired}
use wallet_ledger.Store.Write.{mem_id, publish_at}

-- kafka.Message
pub record Message : Type 0 where
  pub topic : String
  pub key : Uuid
  pub value : Payload

unfoldable pub message : OutboxRow → Message
message r = record { topic = r.topic; key = r.message_key; value = r.payload }

pub data Error : Type 0 where
  database : DbError → Error
  kafka : String → Error

pub data Result (A : Type 0) : Type 0 where
  ok : A → Result A
  err : Error → Result A

-- The answer to COMMIT; `lost` commits and does not say so.
pub data Answer : Type 0 where
  done : Answer
  failed : DbError → Answer
  lost : DbError → Answer

-- What happens outside the relay in one pass: `none` is a call that works. `held` are the ids of rows
-- that other sessions have locked, and `accepts` says which messages Kafka took from a failed write.
pub record Pass : Type 0 where
  pub begin : Option DbError
  pub query : Option DbError
  pub held : List ℕ
  pub write : Option String
  pub accepts : OutboxRow → Bool
  pub update : Option DbError
  pub commit : Answer
  pub now : Instant

-- What a pass leaves: its result, the messages that Kafka has accepted, and the table.
pub record After : Type 0 where
  pub result : Result ℕ
  pub sent : List Message
  pub outbox : List OutboxRow

unfoldable pub unsent : OutboxRow → Bool
unsent r = elim r.published_at [ none ↦ true | some t ↦ false ]

-- ORDER BY id
unfoldable pub insert_by_id : OutboxRow → List OutboxRow → List OutboxRow
insert_by_id r [] = r ∷ []
insert_by_id r (q ∷ qs) =
    let rest = insert_by_id r qs in if leb r.id q.id then r ∷ q ∷ qs else q ∷ rest

unfoldable pub order_by_id : List OutboxRow → List OutboxRow
unfolding insert_by_id
order_by_id [] = []
order_by_id (r ∷ rs) = insert_by_id r (order_by_id rs)

-- WHERE published_at IS NULL … FOR UPDATE SKIP LOCKED
unfoldable pub free : List ℕ → OutboxRow → Bool
unfolding unsent
free held r = unsent r && not (mem_id r.id held)

unfoldable pub select_batch : ℕ → List ℕ → List OutboxRow → List OutboxRow
unfolding free order_by_id
select_batch batch_size held rows = take batch_size (order_by_id (keep (free held) rows))

-- UPDATE wallet.outbox SET published_at = now() WHERE id = ANY($1)
unfoldable pub mark : Instant → List OutboxRow → List OutboxRow → List OutboxRow
unfolding publish_at
mark now batch rows = map (publish_at (map (λ r. r.id) batch) now) rows

module _ (p : Pass) (rows : List OutboxRow) where
  abbrev stop : Error → List Message → After
  stop e sent = record { result = err e; sent = sent; outbox = rows }

  unfoldable pub commit_batch : List OutboxRow → Answer → After
  unfolding mark message
  commit_batch batch done = record {
    result = ok (length batch);
    sent = map message batch;
    outbox = mark p.now batch rows;
  }
  commit_batch batch (failed e) = stop (database e) (map message batch)
  commit_batch batch (lost e) = record {
    result = err (database e);
    sent = map message batch;
    outbox = mark p.now batch rows;
  }

  unfoldable pub update_batch : List OutboxRow → Option DbError → After
  unfolding commit_batch
  update_batch batch none = commit_batch batch p.commit
  update_batch batch (some e) = stop (database e) (map message batch)

  unfoldable pub write_batch : List OutboxRow → Option String → After
  unfolding update_batch
  write_batch batch none = update_batch batch p.update
  write_batch batch (some e) = stop (kafka e) (map message (keep p.accepts batch))

  -- COMMIT of a pass that found nothing.
  unfoldable pub commit_empty : Answer → After
  commit_empty done = record { result = ok 0; sent = []; outbox = rows }
  commit_empty (failed e) = stop (database e) []
  commit_empty (lost e) = stop (database e) []

  unfoldable pub send_batch : List OutboxRow → After
  unfolding write_batch commit_empty
  send_batch [] = commit_empty p.commit
  send_batch (r ∷ rs) = write_batch (r ∷ rs) p.write

  unfoldable pub query_batch : ℕ → Option DbError → After
  unfolding send_batch select_batch
  query_batch batch_size none = send_batch (select_batch batch_size p.held rows)
  query_batch batch_size (some e) = stop (database e) []

  unfoldable pub begin_batch : ℕ → Option DbError → After
  unfolding query_batch
  begin_batch batch_size none = query_batch batch_size p.query
  begin_batch batch_size (some e) = stop (database e) []

  -- Relay.publishBatch
  unfoldable pub publish_batch : ℕ → After
  unfolding begin_batch
  publish_batch batch_size = begin_batch batch_size p.begin

unfoldable pub cleanup : ℕ → Instant → List OutboxRow → List OutboxRow
unfolding expired
cleanup hours now rows = keep (λ r. not (expired hours now r)) rows

-- min(created_at) over the unsent rows.
unfoldable pub oldest : List OutboxRow → Option Instant
unfolding unsent
oldest [] = none
oldest (r ∷ rs) =
    let rest = oldest rs in
    if unsent r
    then elim rest [
      | none ↦ some r.created_at
      | some t ↦ some (if ltb r.created_at t then r.created_at else t)
    ]
    else rest

-- Relay.refreshGauges: the rows that wait, and the age of the oldest in microseconds, 0 for none.
unfoldable pub gauges : Instant → List OutboxRow → ℕ × ℕ
unfolding oldest unsent
gauges now rows = (length (keep unsent rows), elim (oldest rows) [ none ↦ 0 | some t ↦ now - t ])
