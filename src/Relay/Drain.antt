-- ===== src/Relay/Drain.antt =====
-- How Relay.loop of services/wallet/outbox.go works its backlog off.
use wallet_ledger.Base.{
  ℕ, zero, suc, ◌-◌, ◌*◌, ◌≤◌, ◌≡◌, refl, sym, ap, ap₂, ◌∙◌, inl, inr, Bool, true, false, not,
  Bool-cases, List, [], ◌∷◌, ◌++◌, map, arith, ◌==◌, ltb, all, keep, take, length, if◌then◌else◌,
}
use mathlib.Core.List.{append_assoc, append-nil, map-append}
use wallet_ledger.Store.Schema.{OutboxRow, Instant}
use wallet_ledger.Store.Write.{mem_id, publish_at}
use wallet_ledger.Relay.{
  Message, message, Result, ok, err, After, unsent, free, mark, order_by_id, select_batch,
  publish_batch,
}
use wallet_ledger.Relay.Delivery.{DistinctRows, publish_batch-DistinctRows}
use wallet_ledger.Relay.Backlog.{calm, publish_batch-calm}
use wallet_ledger.Relay.Order.{new, order-keep, order-DistinctRows}
use wallet_ledger.Relay.Loop.{Config, Turn, State, arrive_all, rest_of_turn, turn, loop}

abbrev pub ids : List OutboxRow → List ℕ
ids = map (λ r. r.id)

abbrev pub absent : List ℕ → OutboxRow → Bool
absent js r = not (mem_id r.id js)

-- The rows in the order of their ids that wait.
abbrev pub backlog : List OutboxRow → List OutboxRow
backlog rows = order_by_id (keep unsent rows)

-- The list less its first elements.
abbrev pub drop : {A : Type 0} → ℕ → List A → List A
drop zero xs = xs
drop (suc n) [] = []
drop (suc n) (x ∷ xs) = drop n xs

pub take-drop : {A : Type 0} (n : ℕ) (xs : List A) → take n xs ++ drop n xs ≡ xs
take-drop zero xs = refl
take-drop (suc n) [] = refl
take-drop (suc n) (x ∷ xs) = ap (λ l. x ∷ l) (take-drop n xs)

length-drop : {A : Type 0} (n : ℕ) (xs : List A) → length (drop n xs) ≡ length xs - n
length-drop zero xs = omega arith
length-drop (suc n) [] = omega arith
length-drop (suc n) (x ∷ xs) = length-drop n xs ∙ omega arith

-- What waits after a batch is marked is what waited and is not of the batch.
pub keep-mark :
    (now : Instant) (batch rows : List OutboxRow)
    → keep unsent (mark now batch rows) ≡ keep (absent (ids batch)) (keep unsent rows)
unfolding mark publish_at unsent
keep-mark now batch [] = refl
keep-mark now batch (r ∷ rs) = ground (arith, keep-mark now batch rs)

pub keep-absent_nil : (rs : List OutboxRow) → keep (absent []) rs ≡ rs
unfolding mem_id
keep-absent_nil [] = refl
keep-absent_nil (r ∷ rs) = ap (λ l. r ∷ l) (keep-absent_nil rs)

pub keep-absent-new :
    (i : ℕ) (js : List ℕ) (rs : List OutboxRow)
    → new i rs ≡ true
    → keep (absent (i ∷ js)) rs ≡ keep (absent js) rs
unfolding mem_id
keep-absent-new i js [] h = refl
keep-absent-new i js (r ∷ rs) h = ground (arith, h, keep-absent-new i js rs (ground (arith, h)))

keep-absent-take :
    (n : ℕ) (rs : List OutboxRow) → DistinctRows rs → keep (absent (ids (take n rs))) rs ≡ drop n rs
unfolding mem_id
keep-absent-take zero rs u = keep-absent_nil rs
keep-absent-take (suc n) [] u = refl
keep-absent-take (suc n) (r ∷ rs) u =
    let same : (r.id == r.id) ≡ true = ground arith in
    rw same (keep-absent-new r.id (ids (take n rs)) rs u.0 ∙ keep-absent-take n rs u.1)

pub all-keep :
    (q p : OutboxRow → Bool) (rs : List OutboxRow) → all q rs ≡ true → all q (keep p rs) ≡ true
all-keep q p [] h = refl
all-keep q p (r ∷ rs) h = elim (Bool-cases (p r)) [
  | inl y ↦ rw y (ground (arith, h, all-keep q p rs (ground (arith, h))))
  | inr n ↦ rw n (all-keep q p rs (ground (arith, h)))
]

pub keep-DistinctRows :
    (p : OutboxRow → Bool) (rs : List OutboxRow) → DistinctRows rs → DistinctRows (keep p rs)
keep-DistinctRows p [] u = tt
keep-DistinctRows p (r ∷ rs) u = elim (Bool-cases (p r)) [
  | inl y ↦ rw y (all-keep (λ x. not (x.id == r.id)) p rs u.0, keep-DistinctRows p rs u.1)
  | inr n ↦ rw n (keep-DistinctRows p rs u.1)
]

pub keep-free : (rows : List OutboxRow) → keep (free []) rows ≡ keep unsent rows
unfolding free mem_id
keep-free [] = refl
keep-free (r ∷ rs) = ground (arith, keep-free rs)

-- A batch takes the head of the backlog, and marking it leaves the tail.
select_batch-backlog :
    (n : ℕ) (rows : List OutboxRow) → select_batch n [] rows ≡ take n (backlog rows)
unfolding select_batch
select_batch-backlog n rows = ap (λ l. take n (order_by_id l)) (keep-free rows)

backlog-mark :
    (n : ℕ) (now : Instant) (rows : List OutboxRow)
    → DistinctRows rows
    → backlog (mark now (take n (backlog rows)) rows) ≡ drop n (backlog rows)
backlog-mark n now rows u =
    let waiting = keep unsent rows in
    ap order_by_id (keep-mark now (take n (backlog rows)) rows)
    ∙ order-keep (absent (ids (take n (backlog rows)))) waiting
    ∙ keep-absent-take n (backlog rows)
        (order-DistinctRows waiting (keep-DistinctRows unsent rows u))

-- A turn of the loop in which nothing fails, nothing arrives, and no other session holds rows.
abbrev pub quiet_turn : Instant → Turn
quiet_turn now = record { arrivals = []; stopped = false; pass = calm [] now; stopping = false }

-- It sends the head of the backlog, and the tail is left.
abbrev Advanced : Config → State → State → Type 0
Advanced c s x =
    (x.running ≡ s.running)
    × (x.log ≡ s.log ++ map message (take c.batch_size (backlog s.outbox)))
    × (backlog x.outbox ≡ drop c.batch_size (backlog s.outbox))
    × DistinctRows x.outbox

rest_of_turn-Advanced :
    (c : Config) (r : Result ℕ) (s x : State)
    → Advanced c s x
    → Advanced c s (rest_of_turn c false r x)
unfolding rest_of_turn
rest_of_turn-Advanced c (err e) s x h = h
rest_of_turn-Advanced c (ok n) s x h = elim (Bool-cases (ltb n c.batch_size)) [
  | inl y ↦ rw y h
  | inr m ↦ rw m h
]

quiet_turn-Advanced :
    (c : Config) (now : Instant) (s : State)
    → DistinctRows s.outbox
    → Advanced c s (turn c (quiet_turn now) s)
unfolding turn arrive_all
quiet_turn-Advanced c now s u =
    let a = publish_batch (calm [] now) s.outbox c.batch_size in
    let n = c.batch_size in
    let e = publish_batch-calm [] now s.outbox n in
    let b = select_batch-backlog n s.outbox in
    let sent : a.sent ≡ map message (take n (backlog s.outbox)) =
      ap (λ (x : After). x.sent) e ∙ ap (map message) b in
    let left : a.outbox ≡ mark now (take n (backlog s.outbox)) s.outbox =
      ap (λ (x : After). x.outbox) e ∙ ap (λ l. mark now l s.outbox) b in
    rest_of_turn-Advanced c a.result s (record s { log = s.log ++ a.sent; outbox = a.outbox })
      (
        refl,
        ap (λ l. s.log ++ l) sent,
        ap backlog left ∙ backlog-mark n now s.outbox u,
        publish_batch-DistinctRows (calm [] now) s.outbox n u,
      )

loop-running :
    (c : Config) (t : Turn) (ts : List Turn) (s : State)
    → s.running ≡ true
    → loop c (t ∷ ts) s ≡ loop c ts (turn c t s)
unfolding loop
loop-running c t ts s on = ap (λ b. if b then loop c ts (turn c t s) else s) on

nothing_left : {A : Type 0} (xs : List A) → length xs ≤ 0 → xs ≡ []
nothing_left [] h = refl
nothing_left (x ∷ xs) h = absurd (omega arith)

-- Head and tail sent one after the other.
sent_all :
    (n : ℕ) (log : List Message) (rows : List OutboxRow)
    → (log ++ map message (take n rows)) ++ map message (drop n rows) ≡ log ++ map message rows
sent_all n log rows =
    append_assoc log (map message (take n rows)) (map message (drop n rows))
    ∙ ap (λ l. log ++ l)
        (sym (map-append message (take n rows) (drop n rows)) ∙ ap (map message) (take-drop n rows))

-- From rows with distinct ids, a running relay to which nothing fails or arrives, and from which no other
-- session holds rows, sends, in enough turns for its batch size, all rows that wait, each once and in the
-- order of their ids, and nothing else, and leaves none waiting.
pub loop-drains :
    (c : Config) (nows : List Instant) (s : State)
    → s.running ≡ true
    → DistinctRows s.outbox
    → length (backlog s.outbox) ≤ length nows * c.batch_size
    → let x = loop c (map quiet_turn nows) s in
      (x.log ≡ s.log ++ map message (backlog s.outbox)) × (backlog x.outbox ≡ [])
loop-drains c [] s on u enough =
    let none_left : backlog s.outbox ≡ [] =
      nothing_left (backlog s.outbox) (omega (arith, enough)) in
    unfold loop in (sym (ap (λ l. s.log ++ map message l) none_left ∙ append-nil s.log), none_left)
loop-drains c (now ∷ nows) s on u enough =
    let x = turn c (quiet_turn now) s in
    let (same, sent, left, v) = quiet_turn-Advanced c now s u in
    let n = c.batch_size in
    let fewer : length (backlog x.outbox) ≤ length nows * n =
      rw left (rw (length-drop n (backlog s.outbox)) (omega (arith, enough))) in
    let (log, none_left) = loop-drains c nows x (same ∙ on) v fewer in
    rw (loop-running c (quiet_turn now) (map quiet_turn nows) s on) (
      log ∙ ap₂ (λ l m. l ++ map message m) sent left ∙ sent_all n s.log (backlog s.outbox),
      none_left,
    )
