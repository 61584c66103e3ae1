-- ===== src/Relay/Order.antt =====
-- ORDER BY id of services/wallet/outbox.go: the rows in the order of their ids, whatever is left out.
use wallet_ledger.Base.{
  ℕ, ◌≤◌, ◌≡◌, refl, sym, ap, ◌∙◌, inl, inr, Bool, true, false, not, ◌&&◌, Bool-cases, List, [],
  ◌∷◌, arith, ◌==◌, leb, all, keep, All, All_map,
}
use wallet_ledger.Store.Schema.{OutboxRow}
use wallet_ledger.Relay.{insert_by_id, order_by_id}
use wallet_ledger.Relay.Delivery.{DistinctRows}

-- The ids do not decrease.
abbrev pub Sorted : List OutboxRow → Type 0
Sorted [] = Unit
Sorted (r ∷ rs) = All (λ q. r.id ≤ q.id) rs × Sorted rs

insert-All :
    (n : ℕ) (r : OutboxRow) (qs : List OutboxRow)
    → n ≤ r.id
    → All (λ q. n ≤ q.id) qs
    → All (λ q. n ≤ q.id) (insert_by_id r qs)
unfolding insert_by_id
insert-All n r [] h a = (h, tt)
insert-All n r (q ∷ qs) h a = elim (Bool-cases (leb r.id q.id)) [
  | inl y ↦ rw y (h, a)
  | inr m ↦ rw m (a.0, insert-All n r qs h a.1)
]

insert-Sorted : (r : OutboxRow) (qs : List OutboxRow) → Sorted qs → Sorted (insert_by_id r qs)
unfolding insert_by_id
insert-Sorted r [] s = (tt, tt)
insert-Sorted r (q ∷ qs) s = elim (Bool-cases (leb r.id q.id)) [
  | inl y ↦
      let le : r.id ≤ q.id = ground (arith, y) in
      rw y ((le, All_map (λ x (h : q.id ≤ x.id). omega (arith, le, h)) qs s.0), s)
  | inr m ↦ rw m (insert-All q.id r qs (ground (arith, m)) s.0, insert-Sorted r qs s.1)
]

pub order-Sorted : (rs : List OutboxRow) → Sorted (order_by_id rs)
unfolding order_by_id
order-Sorted [] = tt
order-Sorted (r ∷ rs) = insert-Sorted r (order_by_id rs) (order-Sorted rs)

-- A row with the least id comes first.
insert-least :
    (r : OutboxRow) (qs : List OutboxRow) → All (λ q. r.id ≤ q.id) qs → insert_by_id r qs ≡ r ∷ qs
unfolding insert_by_id
insert-least r [] h = refl
insert-least r (q ∷ qs) h = let y : leb r.id q.id ≡ true = ground (arith, h.0) in rw y refl

keep-All :
    (P : OutboxRow → Type 0) (p : OutboxRow → Bool) (qs : List OutboxRow)
    → All P qs
    → All P (keep p qs)
keep-All P p [] h = tt
keep-All P p (q ∷ qs) h = elim (Bool-cases (p q)) [
  | inl y ↦ rw y (h.0, keep-All P p qs h.1)
  | inr n ↦ rw n (keep-All P p qs h.1)
]

module _ (p : OutboxRow → Bool) (r : OutboxRow) where
  keep-insert_kept :
      (qs : List OutboxRow)
      → p r ≡ true
      → Sorted qs
      → keep p (insert_by_id r qs) ≡ insert_by_id r (keep p qs)
  unfolding insert_by_id
  keep-insert_kept [] y s = rw y refl
  keep-insert_kept (q ∷ qs) y s = elim (Bool-cases (leb r.id q.id)) [
    | inl le ↦
        let low : r.id ≤ q.id = ground (arith, le) in
        let all_low =
          keep-All _ p (q ∷ qs)
            (low, All_map (λ x (h : q.id ≤ x.id). omega (arith, low, h)) qs s.0) in
        rw (le, insert-least r (keep p (q ∷ qs)) all_low, y) refl
    | inr gt ↦ elim (Bool-cases (p q)) [
      | inl k ↦ rw (gt, k, insert_by_id, gt) (ap (λ l. q ∷ l) (keep-insert_kept qs y s.1))
      | inr k ↦ rw (gt, k) (keep-insert_kept qs y s.1)
    ]
  ]

  keep-insert_dropped : (qs : List OutboxRow) → p r ≡ false → keep p (insert_by_id r qs) ≡ keep p qs
  unfolding insert_by_id
  keep-insert_dropped [] n = rw n refl
  keep-insert_dropped (q ∷ qs) n = elim (Bool-cases (leb r.id q.id)) [
    | inl le ↦ rw (le, n) refl
    | inr gt ↦ elim (Bool-cases (p q)) [
      | inl k ↦ rw (gt, k) (ap (λ l. q ∷ l) (keep-insert_dropped qs n))
      | inr k ↦ rw (gt, k) (keep-insert_dropped qs n)
    ]
  ]

-- Leaving rows out and ordering them can be exchanged.
pub order-keep :
    (p : OutboxRow → Bool) (rs : List OutboxRow) → order_by_id (keep p rs) ≡ keep p (order_by_id rs)
unfolding order_by_id
order-keep p [] = refl
order-keep p (r ∷ rs) = elim (Bool-cases (p r)) [
  | inl y ↦ rw y (
      ap (insert_by_id r) (order-keep p rs)
      ∙ sym (keep-insert_kept p r (order_by_id rs) y (order-Sorted rs)))
  | inr n ↦ rw n (order-keep p rs ∙ sym (keep-insert_dropped p r (order_by_id rs) n))
]

-- No row of the list has this id.
abbrev pub new : ℕ → List OutboxRow → Bool
new i rs = all (λ x. not (x.id == i)) rs

new-insert :
    (i : ℕ) (r : OutboxRow) (qs : List OutboxRow) → new i (insert_by_id r qs) ≡ new i (r ∷ qs)
unfolding insert_by_id
new-insert i r [] = refl
new-insert i r (q ∷ qs) = elim (Bool-cases (leb r.id q.id)) [
  | inl y ↦ rw y refl
  | inr n ↦ rw (n, new-insert i r qs) (ground arith)
]

new-order : (i : ℕ) (rs : List OutboxRow) → new i (order_by_id rs) ≡ new i rs
unfolding order_by_id
new-order i [] = refl
new-order i (r ∷ rs) =
    new-insert i r (order_by_id rs) ∙ ap (λ b. not (r.id == i) && b) (new-order i rs)

insert-DistinctRows :
    (r : OutboxRow) (qs : List OutboxRow)
    → new r.id qs ≡ true
    → DistinctRows qs
    → DistinctRows (insert_by_id r qs)
unfolding insert_by_id
insert-DistinctRows r [] h u = (refl, tt)
insert-DistinctRows r (q ∷ qs) h u = elim (Bool-cases (leb r.id q.id)) [
  | inl y ↦ rw y (h, u)
  | inr n ↦ rw n (
    new-insert q.id r qs ∙ ground (arith, h, u.0),
    insert-DistinctRows r qs (ground (arith, h)) u.1,
  )
]

pub order-DistinctRows : (rs : List OutboxRow) → DistinctRows rs → DistinctRows (order_by_id rs)
unfolding order_by_id
order-DistinctRows [] u = tt
order-DistinctRows (r ∷ rs) u =
    insert-DistinctRows r (order_by_id rs) (new-order r.id rs ∙ u.0) (order-DistinctRows rs u.1)
