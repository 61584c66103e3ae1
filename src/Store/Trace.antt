-- ===== src/Store/Trace.antt =====
-- Executions of one session among others: which commits of the schedule, and which of its own, took
-- the committed tables from one state to another, each as one serial step.
pub mod Rules
pub mod Rows
pub mod Reads
pub mod DepositBody
pub mod TransferBody
pub mod Finish
pub mod Outcome
pub mod Retries
use wallet_ledger.Base.{◌≡◌, true, false, Bool, Option, none, some, List, [], ◌∷◌}
use wallet_ledger.Store.Schema.{Db, Transaction, TxRow}
use wallet_ledger.Store.Commit.{Commit, deposit_row, transfer_row, admissible, land}
use wallet_ledger.Store.Session.{Event, commits}

-- From the schedule and the tables at the start to those that are left. `own` is what the session
-- itself has committed, the latest first.
pub data Trace (events : List Event) (start : Db) : List Commit → List Event → Db → Type 0 where
  here : Trace events start [] events start
  -- an event that changes nothing: a failure, or a commit that waits or that is refused
  skip :
      {own : List Commit} {es : List Event} {d : Db} (e : Event)
      → Trace events start own (e ∷ es) d
      → Trace events start own es d
  other :
      {own : List Commit} {es : List Event} {d : Db} (c : Commit)
      → Trace events start own (commits c ∷ es) d
      → Trace events start own es (land c d)
  mine :
      {own : List Commit} {es : List Event} {d : Db} (c : Commit)
      → Trace events start own es d
      → admissible c d ≡ true
      → Trace events start (c ∷ own) es (land c d)

-- A session that has committed nothing of its own hands over to another.
pub Trace-trans :
    {es es₁ : List Event} {d d₁ : Db} {own : List Commit} {es₂ : List Event} {d₂ : Db}
    → Trace es d [] es₁ d₁
    → Trace es₁ d₁ own es₂ d₂
    → Trace es d own es₂ d₂
Trace-trans t here = t
Trace-trans t (skip e u) = skip e (Trace-trans t u)
Trace-trans t (other c u) = other c (Trace-trans t u)
Trace-trans t (mine c u h) = mine c (Trace-trans t u) h

-- The row of wallet.transactions that a commit adds.
abbrev pub row_of : Commit → Option TxRow
row_of (Commit.created i u now) = none
row_of (Commit.deposited d) = some (deposit_row d)
row_of (Commit.transferred t) = some (transfer_row t)
row_of (Commit.published ids at) = none
row_of (Commit.cleaned hours now) = none

-- The transaction that a commit records.
abbrev pub tx_of : Commit → Option Transaction
tx_of (Commit.created i u now) = none
tx_of (Commit.deposited d) = some (deposit_row d).tx
tx_of (Commit.transferred t) = some (transfer_row t).tx
tx_of (Commit.published ids at) = none
tx_of (Commit.cleaned hours now) = none
