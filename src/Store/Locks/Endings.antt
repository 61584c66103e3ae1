-- ===== src/Store/Locks/Endings.antt =====
-- The transactions of services/wallet/store.go take their locks in one order, and so they all end.
use wallet_ledger.Base.{
  ℕ, zero, suc, ◌+◌, ◌*◌, ◌≤◌, ◌<◌, ◌≡◌, ◌≢◌, refl, inl, inr, ◌⊎◌, Bool-cases, List, [], ◌∷◌, ◌++◌,
  ltb, length, All, arith,
}
use wallet_ledger.Store.Commit.{
  Commit, created, deposited, transferred, published, cleaned, writes, deposit_row, transfer_row,
  new_wallet,
}
use wallet_ledger.Store.Locks.{
  Lock, locks, Session, start, start_all, over, Forward, Step, forward, acquire, commit, roll_back,
  Steps, stay, step,
}
use wallet_ledger.Store.Locks.Progress.{Ordered, Steps-Ordered, progress}

-- The ids of wallets are below a bound, such as 2^128, and a transfer is between different wallets. The
-- deletion of sent rows is not among the transactions.
abbrev pub Proper : ℕ → Commit → Type 0
Proper bound (transferred t) =
    (t.sender.id ≢ t.recipient.id) × (t.sender.id < bound) × (t.recipient.id < bound)
Proper bound (deposited d) = d.wallet.id < bound
Proper bound (cleaned hours now) = ⊥
Proper bound _ = Unit

-- How many steps a session can still take.
abbrev busy : List Lock → ℕ
busy [] = 0
busy (h ∷ hs) = 1

abbrev load : Session → ℕ
load s = 2 * length s.todo + busy s.held

abbrev total : List Session → ℕ
total [] = 0
total (s ∷ ss) = load s + total ss

total_at :
    (left right : List Session) (s : Session)
    → total (left ++ (s ∷ right)) ≡ load s + total (left ++ right)
total_at [] right s = refl
total_at (t ∷ left) right s = let ih = total_at left right s in omega (arith, ih)

busy_lem : (hs : List Lock) → busy hs ≤ 1
busy_lem [] = omega arith
busy_lem (h ∷ hs) = omega arith

-- A step at one place with a smaller load.
Step_less :
    (left right : List Session) (s t : Session) (ss ss' : List Session)
    → ss ≡ left ++ (s ∷ right)
    → ss' ≡ left ++ (t ∷ right)
    → load t < load s
    → total ss' < total ss
Step_less left right s t ss ss' e e' h =
    rw (e, e')
      (let a = total_at left right s in let b = total_at left right t in omega (arith, a, b, h))

Step-total : (ss ss' : List Session) → Step ss ss' → total ss' < total ss
Step-total ss ss' (forward (acquire left right held rest l e free_now e')) =
    Step_less left right _ _ ss ss' e e' (omega arith)
Step-total ss ss' (forward (commit left right h held e e')) =
    Step_less left right _ _ ss ss' e e' (omega arith)
Step-total ss ss' (roll_back left right held rest l e e') =
    Step_less left right _ _ ss ss' e e' (omega arith)

Steps-total : (n : ℕ) (ss ss' : List Session) → Steps n ss ss' → n + total ss' ≤ total ss
Steps-total zero ss ss' stay = omega arith
Steps-total (suc n) ss ss' (step {ss' = mid} before last) =
    let ih = Steps-total n ss mid before in
    let less = Step-total mid ss' last in omega (arith, ih, less)

module _ (bound : ℕ) where
  start-Ordered : (c : Commit) → Proper bound c → Ordered bound (start c)
  unfolding start locks writes deposit_row transfer_row new_wallet
  start-Ordered (created i u now) h = (tt, tt)
  start-Ordered (published ids at) h = (tt, tt)
  start-Ordered (cleaned hours now) h = absurd h
  start-Ordered (deposited d) h = (tt, (h, tt))
  start-Ordered (transferred t) (apart, low, low') =
      elim (Bool-cases (ltb t.recipient.id t.sender.id)) [
        | inl y ↦ rw y (tt, (ground (arith, y), (low, tt)))
        | inr n ↦ rw n (tt, (ground (arith, n, apart), (low', tt)))
      ]

  start_all-Ordered :
      (cs : List Commit) → All (Proper bound) cs → All (Ordered bound) (start_all cs)
  unfolding start_all
  start_all-Ordered [] h = tt
  start_all-Ordered (c ∷ cs) h = (start-Ordered c h.0, start_all-Ordered cs h.1)

start-load : (c : Commit) → load (start c) ≤ 6
unfolding start locks writes
start-load (created i u now) = omega arith
start-load (published ids at) = omega arith
start-load (cleaned hours now) = omega arith
start-load (deposited d) = omega arith
start-load (transferred t) = elim (Bool-cases (ltb t.recipient.id t.sender.id)) [
  | inl y ↦ rw y (omega arith)
  | inr n ↦ rw n (omega arith)
]

start_all-total : (cs : List Commit) → total (start_all cs) ≤ 6 * length cs
unfolding start_all
start_all-total [] = omega arith
start_all-total (c ∷ cs) =
    let a = start-load c in let ih = start_all-total cs in omega (arith, a, ih)

-- However many transactions run at once, of new wallets, deposits, transfers between different wallets
-- and batches of the relay, and however their locks and rollbacks interleave: a run has at most six steps
-- for each of them, and as long as one is not over, one can take its next lock or commit. So there is no
-- deadlock, and every run can be continued to one in which all are over.
pub locks_end :
    (bound : ℕ) (cs : List Commit) (n : ℕ) (ss : List Session)
    → All (Proper bound) cs
    → Steps n (start_all cs) ss
    → (n ≤ 6 * length cs) × (All (λ s. s ≡ over) ss ⊎ ((ss' : List Session) × Forward ss ss'))
locks_end bound cs n ss h run =
    let a = Steps-total n (start_all cs) ss run in
    let b = start_all-total cs in
    (
      omega (arith, a, b),
      progress bound ss
          (Steps-Ordered bound n (start_all cs) ss run (start_all-Ordered bound cs h)),
    )
