-- ===== src/Relay/Delivery.antt =====
-- At-least-once delivery in one pass of services/wallet/outbox.go.
use wallet_ledger.Base.{
  ℕ, String, ◌≡◌, refl, sym, ◌∙◌, ap, subst, inl, inr, true, false, not, ◌⊎◌, Option, none, some,
  List, [], ◌∷◌, ◌++◌, map, arith, ◌==◌, ==_iff, All, Bool-cases, In, In-append_left,
  In-append_right, In-map, all, keep,
}
use wallet_ledger.Store.Schema.{OutboxRow, Instant}
use wallet_ledger.Store.Session.{DbError}
use wallet_ledger.Store.Write.{mem_id, publish_at}
use wallet_ledger.Store.Write.Stable.{all_id-publish_at}
use wallet_ledger.Relay.{
  Message, message, unsent, mark, Pass, Answer, done, failed, lost, After, select_batch,
  publish_batch, commit_batch, update_batch, write_batch, commit_empty, send_batch, query_batch,
  begin_batch,
}
use wallet_ledger.Relay.Batch.{select_batch-In}

-- PRIMARY KEY (id)
abbrev pub DistinctRows : List OutboxRow → Type 0
DistinctRows [] = Unit
DistinctRows (r ∷ rs) = (all (λ x. not (x.id == r.id)) rs ≡ true) × DistinctRows rs

-- Every row that is marked as sent has its message in the log of what Kafka accepted.
abbrev pub IsDelivered : List Message → List OutboxRow → Type 0
IsDelivered log rows = All (λ r. unsent r ≡ false → In (message r) log) rows

pub absent-In :
    (i : ℕ) (a : OutboxRow) (rs : List OutboxRow)
    → all (λ x. not (x.id == i)) rs ≡ true
    → In a rs
    → (a.id == i) ≡ false
absent-In i a [] h k = absurd k
absent-In i a (r ∷ rs) h (inl e) = rw e (ground arith)
absent-In i a (r ∷ rs) h (inr k) = absent-In i a rs (ground arith) k

-- Rows with one id are one row.
same-row :
    (a b : OutboxRow) (rs : List OutboxRow)
    → DistinctRows rs
    → In a rs
    → In b rs
    → a.id ≡ b.id
    → a ≡ b
same-row a b [] u h k e = absurd h
same-row a b (r ∷ rs) u (inl x) (inl y) e = x ∙ sym y
same-row a b (r ∷ rs) u (inl x) (inr k) e =
    let ne = absent-In r.id b rs u.0 k in
    absurd (differ ne (sym e ∙ ap (λ (q : OutboxRow). q.id) x))
  where
    differ : (b.id == r.id) ≡ false → b.id ≡ r.id → ⊥
    differ ne e = ground arith
same-row a b (r ∷ rs) u (inr h) (inl y) e =
    let ne = absent-In r.id a rs u.0 h in absurd (differ ne (e ∙ ap (λ (q : OutboxRow). q.id) y))
  where
    differ : (a.id == r.id) ≡ false → a.id ≡ r.id → ⊥
    differ ne e = ground arith
same-row a b (r ∷ rs) u (inr h) (inr k) e = same-row a b rs u.1 h k e

-- An id of a batch is the id of one of its rows.
pub mem_id-row :
    (i : ℕ) (batch : List OutboxRow)
    → mem_id i (map (λ r. r.id) batch) ≡ true
    → (b : OutboxRow) × In b batch × (b.id ≡ i)
unfolding mem_id
mem_id-row i [] h = cc
mem_id-row i (r ∷ rs) h = elim (Bool-cases (r.id == i)) [
  | inl e ↦ (r, inl refl, (==_iff r.id i).0 e)
  | inr ne ↦ let x = mem_id-row i rs (rw ne at h) in (x.0, inr x.1, x.2)
]

message-publish_at :
    (ids : List ℕ) (at : Instant) (r : OutboxRow) → message (publish_at ids at r) ≡ message r
unfolding message publish_at
message-publish_at ids at r = ground arith

publish_at-sent :
    (ids : List ℕ) (at : Instant) (r : OutboxRow)
    → unsent (publish_at ids at r) ≡ false
    → (unsent r ≡ false) ⊎ (mem_id r.id ids ≡ true)
unfolding publish_at unsent
publish_at-sent ids at r h = elim (Bool-cases (mem_id r.id ids)) [
  | inl y ↦ inr y
  | inr n ↦ inl (rw n at h)
]

module _ (log : List Message) (now : Instant) (rows batch : List OutboxRow) (u : DistinctRows rows)
    (taken : (b : OutboxRow) → In b batch → In b rows) where
  mark-row :
      (r : OutboxRow)
      → In r rows
      → (unsent r ≡ false → In (message r) log)
      → unsent (publish_at (map (λ q. q.id) batch) now r) ≡ false
      → In (message (publish_at (map (λ q. q.id) batch) now r)) (log ++ map message batch)
  mark-row r here_row old h =
      let ids = map (λ (q : OutboxRow). q.id) batch in
      rw (message-publish_at ids now r) (elim (publish_at-sent ids now r h) [
        | inl before ↦ In-append_left (message r) log (map message batch) (old before)
        | inr m ↦
            let (b, k, e) = mem_id-row r.id batch m in
            In-append_right (message r) log (map message batch) (
              subst (λ (x : OutboxRow). In (message x) (map message batch))
                (same-row b r rows u (taken b k) here_row e) (In-map message b batch k))
      ])

  mark-IsDelivered :
      (qs : List OutboxRow)
      → ((r : OutboxRow) → In r qs → In r rows)
      → IsDelivered log qs
      → IsDelivered (log ++ map message batch) (mark now batch qs)
  unfolding mark
  mark-IsDelivered [] sub h = tt
  mark-IsDelivered (q ∷ qs) sub h =
      (mark-row q (sub q (inl refl)) h.0, mark-IsDelivered qs (λ r k. sub r (inr k)) h.1)

more-IsDelivered :
    (log more : List Message) (rows : List OutboxRow)
    → IsDelivered log rows
    → IsDelivered (log ++ more) rows
more-IsDelivered log more [] h = tt
more-IsDelivered log more (r ∷ rs) h =
    ((λ sent. In-append_left (message r) log more (h.0 sent)), more-IsDelivered log more rs h.1)

module _ (log : List Message) (p : Pass) (rows : List OutboxRow) (u : DistinctRows rows)
    (h : IsDelivered log rows) where
  -- After a part of a pass the log has grown by what it sent.
  abbrev Delivered : After → Type 0
  Delivered a = IsDelivered (log ++ a.sent) a.outbox

  commit_batch-Delivered :
      (batch : List OutboxRow) (c : Answer)
      → ((b : OutboxRow) → In b batch → In b rows)
      → Delivered (commit_batch p rows batch c)
  unfolding commit_batch
  commit_batch-Delivered batch done sub =
      mark-IsDelivered log p.now rows batch u sub rows (λ r k. k) h
  commit_batch-Delivered batch (failed e) sub = more-IsDelivered log (map message batch) rows h
  commit_batch-Delivered batch (lost e) sub =
      mark-IsDelivered log p.now rows batch u sub rows (λ r k. k) h

  update_batch-Delivered :
      (batch : List OutboxRow) (x : Option DbError)
      → ((b : OutboxRow) → In b batch → In b rows)
      → Delivered (update_batch p rows batch x)
  unfolding update_batch
  update_batch-Delivered batch none sub = commit_batch-Delivered batch p.commit sub
  update_batch-Delivered batch (some e) sub = more-IsDelivered log (map message batch) rows h

  send_batch-Delivered :
      (batch : List OutboxRow)
      → ((b : OutboxRow) → In b batch → In b rows)
      → Delivered (send_batch p rows batch)
  unfolding send_batch commit_empty write_batch
  send_batch-Delivered [] sub = go p.commit
    where
      go : (c : Answer) → Delivered (commit_empty p rows c)
      go done = more-IsDelivered log [] rows h
      go (failed e) = more-IsDelivered log [] rows h
      go (lost e) = more-IsDelivered log [] rows h
  send_batch-Delivered (r ∷ rs) sub = go (update_batch-Delivered (r ∷ rs) p.update sub) p.write
    where
      go :
          Delivered (update_batch p rows (r ∷ rs) p.update)
          → (x : Option String) → Delivered (write_batch p rows (r ∷ rs) x)
      go d none = d
      go d (some e) = more-IsDelivered log (map message (keep p.accepts (r ∷ rs))) rows h

  pub publish_batch-Delivered : (n : ℕ) → Delivered (publish_batch p rows n)
  unfolding publish_batch begin_batch query_batch
  publish_batch-Delivered n = begin p.begin
    where
      query : (x : Option DbError) → Delivered (query_batch p rows n x)
      query none =
          send_batch-Delivered (select_batch n p.held rows)
            (λ b k. (select_batch-In n p.held rows b k).0)
      query (some e) = more-IsDelivered log [] rows h

      begin : (x : Option DbError) → Delivered (begin_batch p rows n x)
      begin none = query p.query
      begin (some e) = more-IsDelivered log [] rows h

all_id-mark :
    (i : ℕ) (now : Instant) (batch rows : List OutboxRow)
    → all (λ x. not (x.id == i)) rows ≡ true
    → all (λ x. not (x.id == i)) (mark now batch rows) ≡ true
unfolding mark
all_id-mark i now batch rows h = all_id-publish_at i (map (λ r. r.id) batch) now rows ∙ h

pub id-publish_at : (ids : List ℕ) (at : Instant) (r : OutboxRow) → (publish_at ids at r).id ≡ r.id
unfolding publish_at
id-publish_at ids at r = ground arith

pub mark-DistinctRows :
    (now : Instant) (batch rows : List OutboxRow)
    → DistinctRows rows
    → DistinctRows (mark now batch rows)
unfolding mark
mark-DistinctRows now batch [] u = tt
mark-DistinctRows now batch (r ∷ rs) u =
    let ids = map (λ (q : OutboxRow). q.id) batch in
    (
      rw (id-publish_at ids now r) (all_id-publish_at r.id ids now rs ∙ u.0),
      mark-DistinctRows now batch rs u.1,
    )

-- A pass leaves the table, or marks its batch.
pub publish_batch-outbox :
    (p : Pass) (rows : List OutboxRow) (n : ℕ)
    → let a = publish_batch p rows n in
      (a.outbox ≡ rows) ⊎ (a.outbox ≡ mark p.now (select_batch n p.held rows) rows)
unfolding publish_batch begin_batch query_batch send_batch write_batch update_batch commit_batch
    commit_empty
publish_batch-outbox p rows n = ground arith

pub publish_batch-DistinctRows :
    (p : Pass) (rows : List OutboxRow) (n : ℕ)
    → DistinctRows rows
    → DistinctRows (publish_batch p rows n).outbox
publish_batch-DistinctRows p rows n u = elim (publish_batch-outbox p rows n) [
  | inl e ↦ rw e u
  | inr e ↦ rw e (mark-DistinctRows p.now (select_batch n p.held rows) rows u)
]
