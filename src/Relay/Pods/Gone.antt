-- ===== src/Relay/Pods/Gone.antt =====
-- What sending a batch, and deleting sent rows, services/wallet/outbox.go, does to the rows that wait.
use wallet_ledger.Base.{
  ◌<◌, ◌+◌, ℕ, ◌≡◌, refl, ap, subst, ◌∙◌, inl, inr, true, not, Bool-cases, List, [], ◌∷◌, ◌++◌,
  arith, ◌==◌, keep, All, All_map, In, In-map, keep-In,
}
use wallet_ledger.Store.Schema.{OutboxRow, Instant}
use wallet_ledger.Store.Write.{mem_id, publish_at}
use wallet_ledger.Relay.{expired, cleanup, unsent, mark}
use wallet_ledger.Relay.Delivery.{absent-In, id-publish_at}
use wallet_ledger.Relay.Backlog.{mem_id-In}
use wallet_ledger.Relay.Order.{new}
use wallet_ledger.Relay.Overtake.{new-mem_id}
use wallet_ledger.Relay.Drain.{ids, absent, keep-mark, all-keep}
use wallet_ledger.Relay.Pods.Apart.{Apart, Apart-sym, Waiting}

pub All_each : {A : Type 0} (P : A → Type 0) (xs : List A) → ((x : A) → In x xs → P x) → All P xs
All_each P [] f = tt
All_each P (x ∷ xs) f = (f x (inl refl), All_each P xs (λ y i. f y (inr i)))

-- No row with this id waits.
abbrev pub Gone : List OutboxRow → OutboxRow → Type 0
Gone rows r = new r.id (keep unsent rows) ≡ true

-- The ids are below the next value of the sequence.
abbrev pub Numbered : ℕ → List OutboxRow → Type 0
Numbered n = All (λ r. r.id < n)

-- A row that waits stays where the batch that is marked does not have it.
pub Waiting-mark :
    (now : Instant) (rows batch b : List OutboxRow)
    → Apart batch b
    → Waiting rows b
    → Waiting (mark now batch rows) b
unfolding mark publish_at
Waiting-mark now rows batch b a w = stays b (Apart-sym batch b a) w
  where
    stays : (q : List OutboxRow) → Apart q batch → Waiting rows q → Waiting (mark now batch rows) q
    stays [] a w = tt
    stays (r ∷ q) a w =
        let same : publish_at (ids batch) now r ≡ r = rw (new-mem_id r.id batch a.0) refl in
        (
          (
            subst (λ x. In x (mark now batch rows)) same
                (In-map (publish_at (ids batch) now) r rows w.0.0),
            w.0.1,
          ),
          stays q a.1 w.1,
        )

-- What is gone is in no batch.
pub Gone-Apart :
    (rows sent b : List OutboxRow) → All (Gone rows) sent → Waiting rows b → Apart sent b
Gone-Apart rows sent b g w = All_map (λ r h. absent_from r.id h b w) sent g
  where
    absent_from :
        (i : ℕ)
        → new i (keep unsent rows) ≡ true
        → (q : List OutboxRow) → Waiting rows q
        → new i q ≡ true
    absent_from i h [] w = refl
    absent_from i h (r ∷ q) w = ground (
      arith,
      absent_from i h q w.1,
      absent-In i r (keep unsent rows) h (keep-In unsent r rows w.0.0 w.0.1),
    )

pub mark-Numbered :
    (n : ℕ) (now : Instant) (batch rows : List OutboxRow)
    → Numbered n rows
    → Numbered n (mark now batch rows)
unfolding mark
mark-Numbered n now batch [] h = tt
mark-Numbered n now batch (r ∷ rs) h =
    (rw (id-publish_at (ids batch) now r) h.0, mark-Numbered n now batch rs h.1)

pub new-absent :
    (i : ℕ) (js : List ℕ) (rs : List OutboxRow)
    → mem_id i js ≡ true
    → new i (keep (absent js) rs) ≡ true
new-absent i js [] h = refl
new-absent i js (r ∷ rs) h = elim (Bool-cases (mem_id r.id js)) [
  | inl y ↦ rw y (new-absent i js rs h)
  | inr n ↦ rw n (ground (arith, new-absent i js rs h))
]

-- What is gone, and what is marked, is gone.
pub Gone-mark :
    (now : Instant) (batch rows : List OutboxRow) (r : OutboxRow)
    → Gone rows r
    → Gone (mark now batch rows) r
Gone-mark now batch rows r g =
    ap (new r.id) (keep-mark now batch rows)
    ∙ all-keep (λ x. not (x.id == r.id)) (absent (ids batch)) (keep unsent rows) g

pub mark-Gone :
    (now : Instant) (batch rows : List OutboxRow) (r : OutboxRow)
    → In r batch
    → Gone (mark now batch rows) r
mark-Gone now batch rows r i =
    ap (new r.id) (keep-mark now batch rows)
    ∙ new-absent r.id (ids batch) (keep unsent rows) (mem_id-In r batch i)

pub All_append :
    {A : Type 0} (P : A → Type 0) (xs ys : List A) → All P xs → All P ys → All P (xs ++ ys)
All_append P [] ys h k = k
All_append P (x ∷ xs) ys h k = (h.0, All_append P xs ys h.1 k)

-- The next id is no id of before.
pub Numbered-new : (n : ℕ) (rs : List OutboxRow) → Numbered n rs → new n rs ≡ true
Numbered-new n [] h = refl
Numbered-new n (r ∷ rs) h = let low = h.0 in let rest = Numbered-new n rs h.1 in ground arith

pub raise-Numbered : (n : ℕ) (rs : List OutboxRow) → Numbered n rs → Numbered (n + 1) rs
raise-Numbered n rs = All_map (λ r low. omega (arith, low)) rs

pub unsent-expired :
    (hours : ℕ) (now : Instant) (r : OutboxRow) → unsent r ≡ true → not (expired hours now r) ≡ true
unfolding unsent expired
unsent-expired hours now r h = ground arith

-- The rows that wait stay when sent rows are deleted.
pub Waiting-cleanup :
    (hours : ℕ) (now : Instant) (rows b : List OutboxRow)
    → Waiting rows b
    → Waiting (cleanup hours now rows) b
unfolding cleanup
Waiting-cleanup hours now rows b w =
    All_map
      (λ r p.
        (keep-In (λ q. not (expired hours now q)) r rows p.0 (unsent-expired hours now r p.1), p.1))
      b w
