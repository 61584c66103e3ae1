-- ===== src/Relay/Backlog.antt =====
-- What is left of the backlog after a pass, and what the cleanup deletes.
use wallet_ledger.Base.{
  ℕ, ◌<◌, ◌≡◌, refl, ap, subst, inl, inr, true, false, not, none, List, [], ◌∷◌, map, arith, All,
  Bool-cases, In, keep, length,
}
use wallet_ledger.Store.Schema.{OutboxRow, Instant}
use wallet_ledger.Store.Write.{mem_id, publish_at}
use wallet_ledger.Relay.{
  ok, unsent, free, mark, Pass, done, select_batch, publish_batch, commit_batch, update_batch,
  write_batch, commit_empty, send_batch, query_batch, begin_batch, cleanup, expired, Message,
  message,
}
use wallet_ledger.Relay.Batch.{select_batch-short}
use wallet_ledger.Relay.Delivery.{IsDelivered}

mark-nil : (now : Instant) (rows : List OutboxRow) → mark now [] rows ≡ rows
unfolding mark publish_at mem_id
mark-nil now [] = refl
mark-nil now (r ∷ rs) = ap (λ q. r ∷ q) (mark-nil now rs)

send_batch-ok :
    (p : Pass) (rows batch : List OutboxRow) (n : ℕ)
    → (send_batch p rows batch).result ≡ ok n
    → let a = send_batch p rows batch in
      (n ≡ length batch) × (a.sent ≡ map message batch) × (a.outbox ≡ mark p.now batch rows)
unfolding send_batch write_batch update_batch commit_batch commit_empty
send_batch-ok p rows [] n h = ground (arith, mark-nil p.now rows)
send_batch-ok p rows (r ∷ rs) n h = ground arith

-- A pass that succeeds and reports `n` rows has selected a batch of `n` rows, has sent exactly
-- their messages, in the order of the batch, and has marked exactly these rows as sent.
pub publish_batch-ok :
    (p : Pass) (rows : List OutboxRow) (size n : ℕ)
    → (publish_batch p rows size).result ≡ ok n
    → let batch = select_batch size p.held rows in
      let a = publish_batch p rows size in
      (n ≡ length batch) × (a.sent ≡ map message batch) × (a.outbox ≡ mark p.now batch rows)
unfolding publish_batch begin_batch query_batch
publish_batch-ok p rows size n h =
    ground (arith, send_batch-ok p rows (select_batch size p.held rows) n)

pub mem_id-In :
    (a : OutboxRow) (batch : List OutboxRow)
    → In a batch
    → mem_id a.id (map (λ r. r.id) batch) ≡ true
unfolding mem_id
mem_id-In a [] h = absurd h
mem_id-In a (r ∷ rs) (inl e) = rw e (ground arith)
mem_id-In a (r ∷ rs) (inr h) = rw (mem_id-In a rs h) (ground arith)

-- A row that is not marked was not marked before, and is not of the batch.
publish_at-unsent :
    (ids : List ℕ) (at : Instant) (r : OutboxRow)
    → unsent (publish_at ids at r) ≡ true
    → (unsent r ≡ true) × (mem_id r.id ids ≡ false) × ((publish_at ids at r).id ≡ r.id)
unfolding publish_at unsent
publish_at-unsent ids at r h = ground arith

-- The rows that wait after a pass were held by other sessions.
abbrev pub CaughtUp : List ℕ → List OutboxRow → Type 0
CaughtUp held rows = All (λ r. unsent r ≡ true → mem_id r.id held ≡ true) rows

mark-CaughtUp :
    (now : Instant) (held : List ℕ) (rows qs batch : List OutboxRow)
    → ((a : OutboxRow) → In a rows → free held a ≡ true → In a batch)
    → ((r : OutboxRow) → In r qs → In r rows)
    → CaughtUp held (mark now batch qs)
unfolding mark free
mark-CaughtUp now held rows [] batch full sub = tt
mark-CaughtUp now held rows (q ∷ qs) batch full sub = (
  (λ h. waits (publish_at-unsent (map (λ r. r.id) batch) now q h)),
  mark-CaughtUp now held rows qs batch full (λ r k. sub r (inr k)),
)
  where
    waits :
        (unsent q ≡ true)
          × (mem_id q.id (map (λ r. r.id) batch) ≡ false)
          × ((publish_at (map (λ r. r.id) batch) now q).id ≡ q.id)
        → mem_id (publish_at (map (λ r. r.id) batch) now q).id held ≡ true
    waits (u, absent, e) = elim (Bool-cases (mem_id q.id held)) [
      | inl yes_held ↦ rw (e, yes_held)
      | inr not_held ↦
          let k = mem_id-In q batch (full q (sub q (inl refl)) (rw (u, not_held) refl)) in cc
    ]

-- After a pass that succeeds and reports fewer rows than the batch size, every row that still waits
-- was held by another session.
pub caught_up :
    (p : Pass) (rows : List OutboxRow) (size n : ℕ)
    → (publish_batch p rows size).result ≡ ok n
    → n < size
    → CaughtUp p.held (publish_batch p rows size).outbox
caught_up p rows size n h short =
    let (count, _, marked) = publish_batch-ok p rows size n h in
    rw marked (
      mark-CaughtUp p.now p.held rows rows (select_batch size p.held rows)
        (λ a k f.
          select_batch-short size p.held rows a (subst (λ (m : ℕ). m < size) count short) k f)
        (λ r k. k))

pub keep-cleanup :
    (hours : ℕ) (now : Instant) (rows : List OutboxRow)
    → keep unsent (keep (λ r. not (expired hours now r)) rows) ≡ keep unsent rows
unfolding unsent expired
keep-cleanup hours now [] = refl
keep-cleanup hours now (r ∷ rs) = ground (arith, keep-cleanup hours now rs)

-- If every row that is marked as sent has its message in the log, this holds after the cleanup,
-- which keeps the rows that wait, all of them and in their order.
pub cleanup-IsDelivered :
    (hours : ℕ) (now : Instant) (log : List Message) (rows : List OutboxRow)
    → IsDelivered log rows
    → IsDelivered log (cleanup hours now rows)
      × (keep unsent (cleanup hours now rows) ≡ keep unsent rows)
unfolding cleanup
cleanup-IsDelivered hours now log rows h = (kept rows h, keep-cleanup hours now rows)
  where
    kept :
        (qs : List OutboxRow)
        → IsDelivered log qs
        → IsDelivered log (keep (λ q. not (expired hours now q)) qs)
    kept [] d = tt
    kept (q ∷ qs) d = elim (Bool-cases (not (expired hours now q))) [
      | inl y ↦ rw y (d.0, kept qs d.1)
      | inr n ↦ rw n (kept qs d.1)
    ]

-- A pass in which nothing fails; other sessions may hold rows.
abbrev pub calm : List ℕ → Instant → Pass
calm held now = record {
  begin = none;
  query = none;
  held = held;
  write = none;
  accepts = λ r. true;
  update = none;
  commit = done;
  now = now;
}

send_batch-calm :
    (held : List ℕ) (now : Instant) (rows batch : List OutboxRow)
    → send_batch (calm held now) rows batch ≡ record {
      result = ok (length batch);
      sent = map message batch;
      outbox = mark now batch rows;
    }
unfolding send_batch write_batch update_batch commit_batch commit_empty
send_batch-calm held now rows [] = rw (mark-nil now rows) refl
send_batch-calm held now rows (r ∷ rs) = refl

-- A pass in which nothing fails succeeds, whatever rows other sessions hold: it selects its batch,
-- sends all of it and marks it.
pub publish_batch-calm :
    (held : List ℕ) (now : Instant) (rows : List OutboxRow) (size : ℕ)
    → let batch = select_batch size held rows in
      publish_batch (calm held now) rows size ≡ record {
        result = ok (length batch);
        sent = map message batch;
        outbox = mark now batch rows;
      }
unfolding publish_batch begin_batch query_batch
publish_batch-calm held now rows size = send_batch-calm held now rows (select_batch size held rows)
