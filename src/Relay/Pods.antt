-- ===== src/Relay/Pods.antt =====
-- Several wallet pods that run the relay of services/wallet/outbox.go over one outbox: each pass selects
-- and locks a batch, skipping what the passes of other pods have locked, sends it, and commits.
pub mod Apart
pub mod Gone
pub mod Once
use wallet_ledger.Base.{ℕ, zero, suc, ◌+◌, none, List, [], ◌∷◌, ◌++◌, map}
use wallet_ledger.Store.Schema.{OutboxRow, Instant}
use wallet_ledger.Relay.{select_batch, mark, cleanup}

-- The outbox, the next id of its sequence, the batch that each pod has locked, none between its passes, and the rows whose messages
-- Kafka has accepted, in order.
pub record Pods : Type 0 where
  pub rows : List OutboxRow
  pub next : ℕ
  pub batches : List (List OutboxRow)
  pub sent : List OutboxRow

unfoldable pub batch_of : ℕ → List (List OutboxRow) → List OutboxRow
batch_of i [] = []
batch_of zero (b ∷ bs) = b
batch_of (suc i) (b ∷ bs) = batch_of i bs

unfoldable pub set_batch : ℕ → List OutboxRow → List (List OutboxRow) → List (List OutboxRow)
set_batch i c [] = []
set_batch zero c (b ∷ bs) = c ∷ bs
set_batch (suc i) c (b ∷ bs) = b ∷ set_batch i c bs

abbrev pub ids_of : List OutboxRow → List ℕ
ids_of = map (λ r. r.id)

unfoldable pub held_by_all : List (List OutboxRow) → List ℕ
held_by_all [] = []
held_by_all (b ∷ bs) = ids_of b ++ held_by_all bs

-- The ids of the rows that other pods have locked.
unfoldable pub held_by_others : ℕ → List (List OutboxRow) → List ℕ
unfolding held_by_all
held_by_others i [] = []
held_by_others zero (b ∷ bs) = held_by_all bs
held_by_others (suc i) (b ∷ bs) = ids_of b ++ held_by_others i bs

-- What happens: the store inserts a row; a pod begins a pass and locks its batch; it sends the batch,
-- marks it and commits; or its pass ends without a message that Kafka took.
pub data Move : Type 0 where
  -- with the next id
  inserts : OutboxRow → Move
  takes : ℕ → Move
  commits : ℕ → Instant → Move
  gives_up : ℕ → Move
  -- the DELETE of its housekeeping, of rows sent some hours ago
  sweeps : ℕ → Instant → Move

-- A pod has at most one pass at a time.
unfoldable pub take_batch : ℕ → ℕ → List OutboxRow → Pods → Pods
unfolding held_by_others set_batch select_batch
take_batch size i [] s = record s {
  batches = set_batch i (select_batch size (held_by_others i s.batches) s.rows) s.batches;
}
take_batch size i (b ∷ bs) s = s

unfoldable pub move : ℕ → Move → Pods → Pods
unfolding take_batch batch_of set_batch mark cleanup
move size (inserts r) s = record s {
  rows = record r { id = s.next; published_at = none } ∷ s.rows;
  next = s.next + 1;
}
move size (takes i) s = take_batch size i (batch_of i s.batches) s
move size (commits i now) s = record s {
  rows = mark now (batch_of i s.batches) s.rows;
  batches = set_batch i [] s.batches;
  sent = s.sent ++ batch_of i s.batches;
}
move size (gives_up i) s = record s { batches = set_batch i [] s.batches }
move size (sweeps hours now) s = record s { rows = cleanup hours now s.rows }

unfoldable pub moves : ℕ → List Move → Pods → Pods
unfolding move
moves size [] s = s
moves size (m ∷ ms) s = moves size ms (move size m s)
