-- ===== src/Relay/Pods/Apart.antt =====
-- The batches that the relays of several pods, services/wallet/outbox.go, have locked, and SKIP LOCKED.
use wallet_ledger.Base.{
  ℕ, zero, suc, ◌≡◌, refl, Bool, true, false, not, all-append, List, [], ◌∷◌, ◌++◌, arith, ◌==◌,
  all, keep, take, All, All_map, In,
}
use wallet_ledger.Store.Schema.{OutboxRow}
use wallet_ledger.Store.Write.{mem_id}
use wallet_ledger.Relay.{unsent, free, select_batch, order_by_id}
use wallet_ledger.Relay.Delivery.{DistinctRows}
use wallet_ledger.Relay.Order.{new, order-DistinctRows}
use wallet_ledger.Relay.Drain.{keep-DistinctRows}
use wallet_ledger.Relay.Pods.{batch_of, set_batch, ids_of, held_by_all, held_by_others}

-- No row of the one list has the id of a row of the other.
abbrev pub Apart : List OutboxRow → List OutboxRow → Type 0
Apart b c = All (λ r. new r.id c ≡ true) b

Apart-grow :
    (c b : List OutboxRow) (r : OutboxRow) → new r.id c ≡ true → Apart c b → Apart c (r ∷ b)
Apart-grow [] b r h a = tt
Apart-grow (q ∷ c) b r h a = (ground (arith, h, a.0), Apart-grow c b r (ground (arith, h)) a.1)

pub Apart-nil : (c : List OutboxRow) → Apart c []
Apart-nil [] = tt
Apart-nil (q ∷ c) = (refl, Apart-nil c)

pub Apart-sym : (b c : List OutboxRow) → Apart b c → Apart c b
Apart-sym [] c a = Apart-nil c
Apart-sym (r ∷ b) c a = Apart-grow c b r a.0 (Apart-sym b c a.1)

pub DistinctRows-append :
    (b c : List OutboxRow) → DistinctRows b → DistinctRows c → Apart b c → DistinctRows (b ++ c)
DistinctRows-append [] c u v a = v
DistinctRows-append (r ∷ b) c u v a =
    (all-append (λ x. not (x.id == r.id)) b c u.0 a.0, DistinctRows-append b c u.1 v a.1)

all-take :
    (p : OutboxRow → Bool) (n : ℕ) (rs : List OutboxRow)
    → all p rs ≡ true
    → all p (take n rs) ≡ true
all-take p zero rs h = refl
all-take p (suc n) [] h = refl
all-take p (suc n) (r ∷ rs) h = ground (arith, h, all-take p n rs (ground (arith, h)))

take-DistinctRows : (n : ℕ) (rs : List OutboxRow) → DistinctRows rs → DistinctRows (take n rs)
take-DistinctRows zero rs u = tt
take-DistinctRows (suc n) [] u = tt
take-DistinctRows (suc n) (r ∷ rs) u =
    (all-take (λ x. not (x.id == r.id)) n rs u.0, take-DistinctRows n rs u.1)

pub select_batch-DistinctRows :
    (n : ℕ) (held : List ℕ) (rows : List OutboxRow)
    → DistinctRows rows
    → DistinctRows (select_batch n held rows)
unfolding select_batch
select_batch-DistinctRows n held rows u =
    take-DistinctRows n (order_by_id (keep (free held) rows))
      (order-DistinctRows (keep (free held) rows) (keep-DistinctRows (free held) rows u))

-- The rows of a batch wait in the table.
abbrev pub Waiting : List OutboxRow → List OutboxRow → Type 0
Waiting rows = All (λ r. In r rows × (unsent r ≡ true))

-- Distinct batches of rows that wait.
abbrev pub Exclusive : List OutboxRow → List (List OutboxRow) → Type 0
Exclusive rows [] = Unit
Exclusive rows (b ∷ bs) = All (Apart b) bs × (Waiting rows b × DistinctRows b) × Exclusive rows bs

-- A predicate at every batch but one.
abbrev pub Others : (List OutboxRow → Type 0) → ℕ → List (List OutboxRow) → Type 0
Others P i [] = Unit
Others P zero (b ∷ bs) = All P bs
Others P (suc i) (b ∷ bs) = P b × Others P i bs

set_batch-All :
    (P : List OutboxRow → Type 0) (i : ℕ) (c : List OutboxRow) (bs : List (List OutboxRow))
    → All P bs
    → P c
    → All P (set_batch i c bs)
unfolding set_batch
set_batch-All P i c [] h p = tt
set_batch-All P zero c (b ∷ bs) h p = (p, h.1)
set_batch-All P (suc i) c (b ∷ bs) h p = (h.0, set_batch-All P i c bs h.1 p)

pub set_batch-Exclusive :
    (rows : List OutboxRow) (i : ℕ) (c : List OutboxRow) (bs : List (List OutboxRow))
    → Exclusive rows bs
    → Others (Apart c) i bs
    → Waiting rows c
    → DistinctRows c
    → Exclusive rows (set_batch i c bs)
unfolding set_batch
set_batch-Exclusive rows i c [] h o w u = tt
set_batch-Exclusive rows zero c (b ∷ bs) h o w u = (o, (w, u), h.2)
set_batch-Exclusive rows (suc i) c (b ∷ bs) h o w u = (
  set_batch-All (Apart b) i c bs h.0 (Apart-sym c b o.0),
  h.1,
  set_batch-Exclusive rows i c bs h.2 o.1 w u,
)

batch_of-All :
    (P : List OutboxRow → Type 0) (i : ℕ) (bs : List (List OutboxRow))
    → All P bs
    → P []
    → P (batch_of i bs)
unfolding batch_of
batch_of-All P i [] h p = p
batch_of-All P zero (b ∷ bs) h p = h.0
batch_of-All P (suc i) (b ∷ bs) h p = batch_of-All P i bs h.1 p

-- What stands in a batch of its own is apart from the others.
pub batch_of-Others :
    (rows : List OutboxRow) (i : ℕ) (bs : List (List OutboxRow))
    → Exclusive rows bs
    → Others (Apart (batch_of i bs)) i bs
      × Waiting rows (batch_of i bs)
      × DistinctRows (batch_of i bs)
unfolding batch_of
batch_of-Others rows i [] h = (tt, tt, tt)
batch_of-Others rows zero (b ∷ bs) h = (h.0, h.1.0, h.1.1)
batch_of-Others rows (suc i) (b ∷ bs) h =
    let (o, w, u) = batch_of-Others rows i bs h.2 in
    ((Apart-sym b (batch_of i bs) (batch_of-All (Apart b) i bs h.0 (Apart-nil b)), o), w, u)

not_held :
    (j : ℕ) (b : List OutboxRow) (js : List ℕ)
    → mem_id j (ids_of b ++ js) ≡ false
    → (new j b ≡ true) × (mem_id j js ≡ false)
unfolding mem_id
not_held j [] js h = (refl, h)
not_held j (r ∷ b) js h =
    let (n, m) = not_held j b js (ground (arith, h)) in (ground (arith, h, n), m)

-- What a pass may lock.
abbrev pub Unlocked : List ℕ → List OutboxRow → Type 0
Unlocked js = All (λ r. mem_id r.id js ≡ false)

Unlocked-Apart :
    (c b : List OutboxRow) (js : List ℕ) → Unlocked (ids_of b ++ js) c → Apart c b × Unlocked js c
Unlocked-Apart c b js h =
    (All_map (λ r e. (not_held r.id b js e).0) c h, All_map (λ r e. (not_held r.id b js e).1) c h)

held_by_all-Apart :
    (c : List OutboxRow) (bs : List (List OutboxRow))
    → Unlocked (held_by_all bs) c
    → All (Apart c) bs
unfolding held_by_all
held_by_all-Apart c [] h = tt
held_by_all-Apart c (b ∷ bs) h =
    let (a, rest) = Unlocked-Apart c b (held_by_all bs) h in (a, held_by_all-Apart c bs rest)

pub held_by_others-Apart :
    (c : List OutboxRow) (i : ℕ) (bs : List (List OutboxRow))
    → Unlocked (held_by_others i bs) c
    → Others (Apart c) i bs
unfolding held_by_others
held_by_others-Apart c i [] h = tt
held_by_others-Apart c zero (b ∷ bs) h = held_by_all-Apart c bs h
held_by_others-Apart c (suc i) (b ∷ bs) h =
    let (a, rest) = Unlocked-Apart c b (held_by_others i bs) h in
    (a, held_by_others-Apart c i bs rest)

pub Apart-none : (bs : List (List OutboxRow)) → All (Apart []) bs
Apart-none [] = tt
Apart-none (b ∷ bs) = (tt, Apart-none bs)

pub Others-none : (i : ℕ) (bs : List (List OutboxRow)) → Others (Apart []) i bs
Others-none i [] = tt
Others-none zero (b ∷ bs) = Apart-none bs
Others-none (suc i) (b ∷ bs) = (tt, Others-none i bs)

-- Batches stay exclusive where the rows of those apart from `c` still wait in the table.
module _ (rows rows' c : List OutboxRow)
    (f : (b : List OutboxRow) → Apart c b → Waiting rows b → Waiting rows' b) where
  pub Exclusive-rows :
      (bs : List (List OutboxRow)) → All (Apart c) bs → Exclusive rows bs → Exclusive rows' bs
  Exclusive-rows [] a h = tt
  Exclusive-rows (b ∷ bs) a h = (h.0, (f b a.0 h.1.0, h.1.1), Exclusive-rows bs a.1 h.2)

  -- The pass of one pod ends.
  pub Exclusive-end :
      (i : ℕ) (bs : List (List OutboxRow))
      → Others (Apart c) i bs
      → Exclusive rows bs
      → Exclusive rows' (set_batch i [] bs)
  unfolding set_batch
  Exclusive-end i [] o h = tt
  Exclusive-end zero (b ∷ bs) o h = (Apart-none bs, (tt, tt), Exclusive-rows bs o h.2)
  Exclusive-end (suc i) (b ∷ bs) o h = (
    set_batch-All (Apart b) i [] bs h.0 (Apart-nil b),
    (f b o.0 h.1.0, h.1.1),
    Exclusive-end i bs o.1 h.2,
  )
