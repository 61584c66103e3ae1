-- ===== src/Relay/Batch.antt =====
-- Which rows of the outbox a pass of services/wallet/outbox.go selects.
use wallet_ledger.Base.{
  ℕ, ◌<◌, ◌≡◌, refl, inl, inr, true, false, ◌⊎◌, List, [], ◌∷◌, leb, length, keep, Bool-cases, In,
  In-take, In-keep, keep-In, take-short,
}
use wallet_ledger.Store.Schema.{OutboxRow}
use wallet_ledger.Relay.{insert_by_id, order_by_id, free, select_batch}

In-insert : (a r : OutboxRow) (rs : List OutboxRow) → In a (insert_by_id r rs) → (a ≡ r) ⊎ In a rs
unfolding insert_by_id
In-insert a r [] (inl e) = inl e
In-insert a r [] (inr h) = absurd h
In-insert a r (q ∷ qs) h = elim (Bool-cases (leb r.id q.id)) [
  | inl le ↦ front le
  | inr gt ↦ elim (behind gt) [
    | inl e ↦ inr (inl e)
    | inr k ↦ elim (In-insert a r qs k) [ inl e ↦ inl e | inr j ↦ inr (inr j) ]
  ]
]
  where
    front : leb r.id q.id ≡ true → (a ≡ r) ⊎ ((a ≡ q) ⊎ In a qs)
    front le = rw le at h

    behind : leb r.id q.id ≡ false → (a ≡ q) ⊎ In a (insert_by_id r qs)
    behind gt = rw gt at h

insert-In_head : (r : OutboxRow) (rs : List OutboxRow) → In r (insert_by_id r rs)
unfolding insert_by_id
insert-In_head r [] = inl refl
insert-In_head r (q ∷ qs) = elim (Bool-cases (leb r.id q.id)) [
  | inl le ↦ rw le (inl refl)
  | inr gt ↦ rw gt (inr (insert-In_head r qs))
]

insert-In_tail : (a r : OutboxRow) (rs : List OutboxRow) → In a rs → In a (insert_by_id r rs)
unfolding insert_by_id
insert-In_tail a r [] h = absurd h
insert-In_tail a r (q ∷ qs) (inl e) = elim (Bool-cases (leb r.id q.id)) [
  | inl le ↦ rw le (inr (inl e))
  | inr gt ↦ rw gt (inl e)
]
insert-In_tail a r (q ∷ qs) (inr h) = elim (Bool-cases (leb r.id q.id)) [
  | inl le ↦ rw le (inr (inr h))
  | inr gt ↦ rw gt (inr (insert-In_tail a r qs h))
]

In-order : (a : OutboxRow) (rs : List OutboxRow) → In a (order_by_id rs) → In a rs
unfolding order_by_id
In-order a [] h = absurd h
In-order a (r ∷ rs) h = elim (In-insert a r (order_by_id rs) h) [
  | inl e ↦ inl e
  | inr k ↦ inr (In-order a rs k)
]

order-In : (a : OutboxRow) (rs : List OutboxRow) → In a rs → In a (order_by_id rs)
unfolding order_by_id
order-In a [] h = absurd h
order-In a (r ∷ rs) (inl e) = rw e (insert-In_head r (order_by_id rs))
order-In a (r ∷ rs) (inr h) = insert-In_tail a r (order_by_id rs) (order-In a rs h)

module _ (n : ℕ) (held : List ℕ) (rows : List OutboxRow) where
  -- A row of the batch is a row of the table that is unsent and not held.
  pub select_batch-In :
      (a : OutboxRow) → In a (select_batch n held rows) → In a rows × (free held a ≡ true)
  unfolding select_batch
  select_batch-In a h =
      In-keep (free held) a rows
        (In-order a (keep (free held) rows) (In-take a n (order_by_id (keep (free held) rows)) h))

  -- A batch that is not full holds every such row.
  pub select_batch-short :
      (a : OutboxRow)
      → length (select_batch n held rows) < n
      → In a rows
      → free held a ≡ true
      → In a (select_batch n held rows)
  unfolding select_batch
  select_batch-short a short h f =
      let all_free = order_by_id (keep (free held) rows) in
      rw (take-short n all_free short)
        (order-In a (keep (free held) rows) (keep-In (free held) a rows h f))
