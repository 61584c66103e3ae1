-- ===== src/Relay/Overtake.antt =====
-- Several pods run the relay of services/wallet/outbox.go: SKIP LOCKED and the order of events.
use wallet_ledger.Base.{
  ℕ, zero, suc, ◌≤◌, ◌≡◌, refl, ap, subst, ◌∙◌, true, false, List, [], ◌∷◌, map, arith, ◌==◌, keep,
  take, length,
}
use wallet_ledger.Store.Schema.{OutboxRow, Instant}
use wallet_ledger.Store.Write.{mem_id}
use wallet_ledger.Relay.{
  message, After, unsent, free, mark, order_by_id, select_batch, publish_batch,
}
use wallet_ledger.Relay.Delivery.{DistinctRows}
use wallet_ledger.Relay.Backlog.{calm, publish_batch-calm}
use wallet_ledger.Relay.Order.{new, order-keep, order-DistinctRows}
use wallet_ledger.Relay.Drain.{
  ids, absent, backlog, keep-mark, keep-absent-new, keep-absent_nil, keep-DistinctRows,
}

keep-free_held :
    (held : List ℕ) (rows : List OutboxRow)
    → keep (free held) rows ≡ keep (absent held) (keep unsent rows)
unfolding free
keep-free_held held [] = refl
keep-free_held held (r ∷ rs) = ground (arith, keep-free_held held rs)

-- A pass sees the backlog less the rows that others hold.
select_batch-held :
    (n : ℕ) (held : List ℕ) (rows : List OutboxRow)
    → select_batch n held rows ≡ take n (keep (absent held) (backlog rows))
unfolding select_batch
select_batch-held n held rows =
    ap (λ l. take n l)
      (ap order_by_id (keep-free_held held rows) ∙ order-keep (absent held) (keep unsent rows))

take_all : (n : ℕ) (rs : List OutboxRow) → length rs ≤ n → take n rs ≡ rs
take_all zero [] h = refl
take_all zero (r ∷ rs) h = absurd (omega arith)
take_all (suc n) [] h = refl
take_all (suc n) (r ∷ rs) h = ap (λ l. r ∷ l) (take_all n rs (omega arith))

-- The rows of a list are all of it.
keep-absent_all : (rs : List OutboxRow) → DistinctRows rs → keep (absent (ids rs)) rs ≡ []
unfolding mem_id
keep-absent_all [] u = refl
keep-absent_all (r ∷ rs) u =
    let same : (r.id == r.id) ≡ true = ground arith in
    rw same (keep-absent-new r.id (ids rs) rs u.0 ∙ keep-absent_all rs u.1)

pub new-mem_id : (i : ℕ) (rs : List OutboxRow) → new i rs ≡ true → mem_id i (ids rs) ≡ false
unfolding mem_id
new-mem_id i [] h = refl
new-mem_id i (r ∷ rs) h = ground (arith, h, new-mem_id i rs (ground (arith, h)))

head-skipped :
    (r : OutboxRow) (rest : List OutboxRow)
    → DistinctRows (r ∷ rest)
    → keep (absent (r.id ∷ [])) (r ∷ rest) ≡ rest
unfolding mem_id
head-skipped r rest u =
    let same : (r.id == r.id) ≡ true = ground arith in
    rw same (keep-absent-new r.id [] rest u.0 ∙ keep-absent_nil rest)

head-left :
    (r : OutboxRow) (rest : List OutboxRow)
    → DistinctRows (r ∷ rest)
    → keep (absent (ids rest)) (r ∷ rest) ≡ r ∷ []
head-left r rest u = rw (new-mem_id r.id rest u.0) (ap (λ l. r ∷ l) (keep-absent_all rest u.1))

-- Where the first row of the backlog is held by another session, a pass that has room for the others
-- sends all of them, also those with the key of the first, and a later pass sends the first: its event
-- comes after theirs.
pub publish_batch-overtakes :
    (now later : Instant) (size : ℕ) (rows : List OutboxRow) (r : OutboxRow) (rest : List OutboxRow)
    → DistinctRows rows
    → backlog rows ≡ r ∷ rest
    → length rest ≤ size
    → 1 ≤ size
    → let a = publish_batch (calm (r.id ∷ []) now) rows size in
      (a.sent ≡ map message rest)
      × ((publish_batch (calm [] later) a.outbox size).sent ≡ message r ∷ [])
publish_batch-overtakes now later size rows r rest u line room one =
    let v : DistinctRows (r ∷ rest) =
      subst DistinctRows line
        (order-DistinctRows (keep unsent rows) (keep-DistinctRows unsent rows u)) in
    let first : select_batch size (r.id ∷ []) rows ≡ rest =
      select_batch-held size (r.id ∷ []) rows
      ∙ ap (λ l. take size (keep (absent (r.id ∷ [])) l)) line
      ∙ ap (λ l. take size l) (head-skipped r rest v)
      ∙ take_all size rest room in
    let a = publish_batch (calm (r.id ∷ []) now) rows size in
    let e = publish_batch-calm (r.id ∷ []) now rows size in
    let left : a.outbox ≡ mark now rest rows =
      ap (λ (x : After). x.outbox) e ∙ ap (λ l. mark now l rows) first in
    let waiting : backlog a.outbox ≡ r ∷ [] =
      ap backlog left
      ∙ ap order_by_id (keep-mark now rest rows)
      ∙ order-keep (absent (ids rest)) (keep unsent rows)
      ∙ ap (λ l. keep (absent (ids rest)) l) line
      ∙ head-left r rest v in
    let second : select_batch size [] a.outbox ≡ r ∷ [] =
      select_batch-held size [] a.outbox
      ∙ ap (λ l. take size l) (keep-absent_nil (backlog a.outbox) ∙ waiting)
      ∙ take_all size (r ∷ []) one in
    (
      ap (λ (x : After). x.sent) e ∙ ap (map message) first,
      ap (λ (x : After). x.sent) (publish_batch-calm [] later a.outbox size)
          ∙ ap (map message) second,
    )
