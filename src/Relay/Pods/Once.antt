-- ===== src/Relay/Pods/Once.antt =====
-- No row is sent twice by the relays of several pods, services/wallet/outbox.go, as long as none fails
-- after Kafka has taken a message.
use wallet_ledger.Base.{
  ◌<◌, ℕ, ◌≡◌, ap, ◌∙◌, inl, inr, true, false, not, Bool-cases, none, List, [], ◌∷◌, arith, ◌==◌,
  keep, All, All_map, In,
}
use wallet_ledger.Base.Places.{All-In}
use wallet_ledger.Store.Schema.{OutboxRow, Instant}
use wallet_ledger.Relay.{expired, cleanup, unsent, free, mark, select_batch}
use wallet_ledger.Relay.Delivery.{DistinctRows, mark-DistinctRows}
use wallet_ledger.Relay.Batch.{select_batch-In}
use wallet_ledger.Relay.Backlog.{keep-cleanup}
use wallet_ledger.Relay.Order.{new}
use wallet_ledger.Relay.Drain.{keep-DistinctRows}
use wallet_ledger.Relay.Pods.{
  Pods, batch_of, held_by_others, Move, inserts, takes, commits, gives_up, sweeps, take_batch, move,
  moves,
}
use wallet_ledger.Relay.Pods.Apart.{
  DistinctRows-append, select_batch-DistinctRows, Waiting, Exclusive, set_batch-Exclusive,
  batch_of-Others, Unlocked, held_by_others-Apart, Apart-none, Others-none, Exclusive-rows,
  Exclusive-end,
}
use wallet_ledger.Relay.Pods.Gone.{
  All_each, Gone, Numbered, Waiting-mark, Gone-Apart, mark-Numbered, Gone-mark, mark-Gone,
  All_append, Numbered-new, raise-Numbered, Waiting-cleanup,
}

-- The ids are below the next of the sequence and distinct, in the table and among the rows sent, which wait
-- no more; the batches of two pods share no row, and each holds distinct rows that wait.
pub record IsOnce (s : Pods) : Type 0 where
  pub distinct : DistinctRows s.rows
  pub exclusive : Exclusive s.rows s.batches
  pub once : DistinctRows s.sent
  pub gone : All (Gone s.rows) s.sent
  pub numbered : Numbered s.next s.rows
  pub sent_numbered : Numbered s.next s.sent

insert-IsOnce : (size : ℕ) (r : OutboxRow) (s : Pods) → IsOnce s → IsOnce (move size (inserts r) s)
unfolding move unsent
insert-IsOnce size r s h = record {
  distinct = (Numbered-new s.next s.rows h.numbered, h.distinct);
  exclusive =
      Exclusive-rows s.rows (record r { id = s.next; published_at = none } ∷ s.rows) []
        (λ b a w. All_map (λ q p. (inr p.0, p.1)) b w) s.batches (Apart-none s.batches) h.exclusive;
  once = h.once;
  gone = gone s.sent h.sent_numbered h.gone;
  numbered = (omega arith, raise-Numbered s.next s.rows h.numbered);
  sent_numbered = raise-Numbered s.next s.sent h.sent_numbered;
}
  where
    gone :
        (qs : List OutboxRow)
        → Numbered s.next qs
        → All (Gone s.rows) qs
        → All (Gone (record r { id = s.next; published_at = none } ∷ s.rows)) qs
    gone [] n g = tt
    gone (q ∷ qs) n g =
        let low = n.0 in
        let other : (s.next == q.id) ≡ false = ground arith in (rw other g.0, gone qs n.1 g.1)

take_batch-IsOnce :
    (size i : ℕ) (own : List OutboxRow) (s : Pods) → IsOnce s → IsOnce (take_batch size i own s)
unfolding take_batch free
take_batch-IsOnce size i [] s h =
    let held = held_by_others i s.batches in
    let c = select_batch size held s.rows in
    let chosen : (r : OutboxRow) → In r c → In r s.rows × (free held r ≡ true) =
      select_batch-In size held s.rows in
    let waits : Waiting s.rows c =
      All_each _ c (λ r k. let (a, b) = chosen r k in (a, ground arith)) in
    let apart : Unlocked held c = All_each _ c (λ r k. let (a, b) = chosen r k in ground arith) in
    record {
      distinct = h.distinct;
      exclusive =
          set_batch-Exclusive s.rows i c s.batches h.exclusive
            (held_by_others-Apart c i s.batches apart) waits
            (select_batch-DistinctRows size held s.rows h.distinct);
      once = h.once;
      gone = h.gone;
      numbered = h.numbered;
      sent_numbered = h.sent_numbered;
    }
take_batch-IsOnce size i (r ∷ rs) s h = h

commit-IsOnce :
    (size i : ℕ) (now : Instant) (s : Pods) → IsOnce s → IsOnce (move size (commits i now) s)
unfolding move
commit-IsOnce size i now s h =
    let c = batch_of i s.batches in
    let (apart, waits, u) = batch_of-Others s.rows i s.batches h.exclusive in
    record {
      distinct = mark-DistinctRows now c s.rows h.distinct;
      exclusive =
          Exclusive-end s.rows (mark now c s.rows) c (λ b a w. Waiting-mark now s.rows c b a w) i
            s.batches apart h.exclusive;
      once = DistinctRows-append s.sent c h.once u (Gone-Apart s.rows s.sent c h.gone waits);
      gone =
          All_append (Gone (mark now c s.rows)) s.sent c
            (All_map (λ r g. Gone-mark now c s.rows r g) s.sent h.gone)
            (All_each (Gone (mark now c s.rows)) c (λ r k. mark-Gone now c s.rows r k));
      numbered = mark-Numbered s.next now c s.rows h.numbered;
      sent_numbered =
          All_append (λ r. r.id < s.next) s.sent c h.sent_numbered
            (All_map (λ r w. All-In (λ q. q.id < s.next) r s.rows h.numbered w.0) c waits);
    }

sweep-IsOnce :
    (size hours : ℕ) (now : Instant) (s : Pods) → IsOnce s → IsOnce (move size (sweeps hours now) s)
unfolding move cleanup
sweep-IsOnce size hours now s h = record {
  distinct = keep-DistinctRows (λ r. not (expired hours now r)) s.rows h.distinct;
  exclusive =
      Exclusive-rows s.rows (cleanup hours now s.rows) []
        (λ b a w. Waiting-cleanup hours now s.rows b w) s.batches (Apart-none s.batches)
        h.exclusive;
  once = h.once;
  gone = All_map (λ r g. ap (new r.id) (keep-cleanup hours now s.rows) ∙ g) s.sent h.gone;
  numbered = keep-Numbered s.rows h.numbered;
  sent_numbered = h.sent_numbered;
}
  where
    keep-Numbered :
        (rs : List OutboxRow)
        → Numbered s.next rs
        → Numbered s.next (keep (λ r. not (expired hours now r)) rs)
    keep-Numbered [] n = tt
    keep-Numbered (r ∷ rs) n = elim (Bool-cases (not (expired hours now r))) [
      | inl y ↦ rw y (n.0, keep-Numbered rs n.1)
      | inr m ↦ rw m (keep-Numbered rs n.1)
    ]

move-IsOnce : (size : ℕ) (m : Move) (s : Pods) → IsOnce s → IsOnce (move size m s)
unfolding move
move-IsOnce size (inserts r) s h = insert-IsOnce size r s h
move-IsOnce size (sweeps hours now) s h = sweep-IsOnce size hours now s h
move-IsOnce size (takes i) s h = take_batch-IsOnce size i (batch_of i s.batches) s h
move-IsOnce size (commits i now) s h = commit-IsOnce size i now s h
move-IsOnce size (gives_up i) s h = record {
  distinct = h.distinct;
  exclusive =
      Exclusive-end s.rows s.rows [] (λ b a w. w) i s.batches (Others-none i s.batches) h.exclusive;
  once = h.once;
  gone = h.gone;
  numbered = h.numbered;
  sent_numbered = h.sent_numbered;
}

-- Whatever the pods do in whatever order, the deletion of old rows included, as long as no pass
-- fails after Kafka has taken a message, these hold after if they hold before: the ids of the table
-- and of the rows sent are below the next of the sequence, no two rows of the table have one id, no
-- row has been sent twice, no row that was sent waits, no two pods hold a common row, and each
-- batch holds distinct rows of the table that wait.
pub moves-IsOnce : (size : ℕ) (ms : List Move) (s : Pods) → IsOnce s → IsOnce (moves size ms s)
unfolding moves
moves-IsOnce size [] s h = h
moves-IsOnce size (m ∷ ms) s h = moves-IsOnce size ms (move size m s) (move-IsOnce size m s h)
