-- ===== src/Store/Calls.antt =====
-- Store.Deposit and Store.Transfer as their callers see them, under every schedule of other sessions'
-- commits and of failures.
use wallet_ledger.Base.{ℕ, String, ◌≡◌, refl, sym, true, some, List, [], arith, eq_iff, subst, All}
use wallet_ledger.Base.Int.{ℤ}
use wallet_ledger.Store.Schema.{Uuid, Transaction, Kind, TxRow, Db}
use wallet_ledger.Store.Write.{same_key, valid}
use wallet_ledger.Store.Commit.{Commit, deposit_row, transfer_row, admissible}
use wallet_ledger.Store.Session.{Event, Result, ok, err, World}
use wallet_ledger.Store.Query.{row_by_key}
use wallet_ledger.Store.Money.{
  Receipt, with_retries, deposit, transfer, deposit_body, transfer_body,
}
use wallet_ledger.Store.Trace.{Trace, here, skip, other, mine, row_of}
use wallet_ledger.Store.Trace.Rows.{admissible-row, row_by_key-Trace, row_by_key-taken}
use wallet_ledger.Store.Trace.DepositBody.{IsDeposit, AnswersDeposit, deposit_body-Ends}
use wallet_ledger.Store.Trace.TransferBody.{IsTransfer, AnswersTransfer, transfer_body-Ends}
use wallet_ledger.Store.Trace.Outcome.{Settled, replayed, done, nothing, unheard}
use wallet_ledger.Store.Trace.Retries.{attempts-Settled}
use wallet_ledger.Store.Invariant.{IsSound}
use wallet_ledger.Store.Invariant.Sound.{Trace-IsSound}

-- The row of a commit stands under the key that was asked for.
abbrev pub Keyed : Uuid → String → Commit → Type 0
Keyed u k c = (r : TxRow) × (row_of c ≡ some r) × (same_key u k r ≡ true)

IsDeposit-Keyed : (u : Uuid) (a : ℤ) (k : String) (c : Commit) → IsDeposit u a k c → Keyed u k c
IsDeposit-Keyed u a k c (d, e, asked) = (
  deposit_row d,
  rw e refl,
  unfold same_key deposit_row in ground (arith, asked.user, asked.key, eq_iff d.key k),
)

IsTransfer-Keyed :
    (u to_wallet_id : Uuid) (a : ℤ) (k : String) (c : Commit)
    → IsTransfer u to_wallet_id a k c
    → Keyed u k c
IsTransfer-Keyed u to_wallet_id a k c (t, e, asked) = (
  transfer_row t,
  rw e refl,
  unfold same_key transfer_row in ground (arith, asked.user, asked.key, eq_iff t.key k),
)

-- From a session with no transaction open, whatever other sessions commit and whatever fails, a
-- call of `deposit` that succeeds answers with the transaction that stands under its key: an old
-- one, and then it has committed nothing, or the one of its only commit, which is a deposit as it
-- was asked for, landing whole on the tables that it meets. After an error it has committed
-- nothing, or one such commit whose answer was lost.
pub deposit-Settled :
    (max_retries : ℕ) (u : Uuid) (amount : ℤ) (key : String) (w : World)
    → w.pending ≡ []
    → let (r, w') = deposit max_retries u amount key w in
      Settled (IsDeposit u amount key) (AnswersDeposit amount) u key w r w'
unfolding deposit with_retries
deposit-Settled n u amount key w idle =
    attempts-Settled (IsDeposit u amount key) (AnswersDeposit amount) u key
      (IsDeposit-Keyed u amount key) Kind.deposit (deposit_body u amount key)
      (deposit_body-Ends u amount key) n 1 w idle

-- From a session with no transaction open, whatever other sessions commit and whatever fails, a
-- call of `transfer` that succeeds answers with the transaction that stands under its key: an old
-- one, and then it has committed nothing, or the one of its only commit, which debits the wallet of
-- the user and credits the other, different wallets of one currency, the first with a balance as it
-- was read that covers the amount, and which lands whole on the tables that it meets. After an
-- error it has committed nothing, or one such commit whose answer was lost.
pub transfer-Settled :
    (max_retries : ℕ) (u to_wallet_id : Uuid) (amount : ℤ) (key : String) (w : World)
    → w.pending ≡ []
    → let (r, w') = transfer max_retries u to_wallet_id amount key w in
      Settled
        (IsTransfer u to_wallet_id amount key)
        (AnswersTransfer to_wallet_id amount)
        u
        key
        w
        r
        w'
unfolding transfer with_retries
transfer-Settled n u to_wallet_id amount key w idle =
    attempts-Settled (IsTransfer u to_wallet_id amount key) (AnswersTransfer to_wallet_id amount) u
      key (IsTransfer-Keyed u to_wallet_id amount key) Kind.transfer
      (transfer_body u to_wallet_id amount key) (transfer_body-Ends u to_wallet_id amount key) n 1 w
      idle

-- What a call under the key of `t` leaves: nothing committed, and, if it succeeds, `t`.
abbrev pub Repeats : (Transaction → Type 0) → Transaction → World → Result Receipt → World → Type 0
Repeats R t s (ok res) w =
    Trace s.events s.db [] w.events w.db × (res.tx ≡ t) × (res.replayed ≡ true) × R t
Repeats R t s (err e) w = Trace s.events s.db [] w.events w.db

module _ (P : Commit → Type 0) (R : Transaction → Type 0) (u : Uuid) (k : String) where
  Settled-IsSound :
      (s : World) (r : Result Receipt) (w : World)
      → Settled P R u k s r w
      → IsSound s.db
      → IsSound w.db
  Settled-IsSound s (ok res) w (_, _, replayed _ _ t) h = Trace-IsSound t h
  Settled-IsSound s (ok res) w (_, _, done _ _ _ _ t) h = Trace-IsSound t h
  Settled-IsSound s (err e) w (_, nothing t) h = Trace-IsSound t h
  Settled-IsSound s (err e) w (_, unheard _ _ _ _ t) h = Trace-IsSound t h

  module _ (keyed : (c : Commit) → P c → Keyed u k c) (t : Transaction) where
    -- A key that is taken admits no commit under it.
    taken-refuses :
        (c : Commit) (d : Db) {X : Type 0}
        → row_by_key u k d.transactions ≡ some t
        → P c
        → admissible c d ≡ true
        → X
    unfolding valid
    taken-refuses c d h p good =
        let (r, e, same) = keyed c p in
        let v = admissible-row c d r good e in
        let free = row_by_key-taken u k d.transactions t r h (ground arith) in cc

    none_second :
        {es : List Event} {d₀ : Db} {own : List Commit} {es' : List Event} {d : Db}
        → row_by_key u k d₀.transactions ≡ some t
        → Trace es d₀ own es' d
        → All P own
        → own ≡ []
    none_second h here ps = refl
    none_second h (skip e tr) ps = none_second h tr ps
    none_second h (other c tr) ps = none_second h tr ps
    none_second h (mine {d = x} c tr good) ps =
        taken-refuses c x (row_by_key-Trace u k t h tr) ps.0 good

    Settled-Repeats :
        (s : World) (r : Result Receipt) (w : World)
        → row_by_key u k s.db.transactions ≡ some t
        → Settled P R u k s r w
        → Repeats R t s r w
    Settled-Repeats s (ok res) w h (_, e, replayed again same tr) =
        let found : t ≡ res.tx = cc (row_by_key-Trace u k t h tr) in
        (tr, sym found, again, subst R (sym found) same)
    Settled-Repeats s (ok res) w h (_, e, done c p x f tr) = cc (none_second h tr (p, tt))
    Settled-Repeats s (err e) w h (_, nothing tr) = tr
    Settled-Repeats s (err e) w h (_, unheard c f p x tr) = cc (none_second h tr (p, tt))

-- Under a key of the user that a transaction `t` has taken, with no transaction open and whatever
-- other sessions do, a call of `deposit` commits nothing, and if it succeeds it answers with `t`,
-- marked as replayed, and `t` is a deposit of that amount.
pub deposit_again :
    (max_retries : ℕ) (u : Uuid) (amount : ℤ) (key : String) (w : World) (t : Transaction)
    → w.pending ≡ []
    → row_by_key u key w.db.transactions ≡ some t
    → let (r, w') = deposit max_retries u amount key w in Repeats (AnswersDeposit amount) t w r w'
deposit_again n u amount key w t idle h =
    let (r, w') = deposit n u amount key w in
    Settled-Repeats (IsDeposit u amount key) (AnswersDeposit amount) u key
      (IsDeposit-Keyed u amount key) t w r w' h (deposit-Settled n u amount key w idle)

-- Under a key of the user that a transaction `t` has taken, with no transaction open and whatever
-- other sessions do, a call of `transfer` commits nothing, and if it succeeds it answers with `t`,
-- marked as replayed, and `t` is a transfer of that amount to that wallet.
pub transfer_again :
    (max_retries : ℕ) (u to_wallet_id : Uuid) (amount : ℤ) (key : String) (w : World)
    (t : Transaction)
    → w.pending ≡ []
    → row_by_key u key w.db.transactions ≡ some t
    → let (r, w') = transfer max_retries u to_wallet_id amount key w in
      Repeats (AnswersTransfer to_wallet_id amount) t w r w'
transfer_again n u to_wallet_id amount key w t idle h =
    let (r, w') = transfer n u to_wallet_id amount key w in
    Settled-Repeats (IsTransfer u to_wallet_id amount key) (AnswersTransfer to_wallet_id amount) u
      key (IsTransfer-Keyed u to_wallet_id amount key) t w r w' h
      (transfer-Settled n u to_wallet_id amount key w idle)

-- From sound tables, and with no transaction open, a call of `deposit` leaves sound tables,
-- whatever its result, whatever fails and whatever other sessions commit meanwhile.
pub deposit-IsSound :
    (max_retries : ℕ) (u : Uuid) (amount : ℤ) (key : String) (w : World)
    → w.pending ≡ []
    → IsSound w.db
    → IsSound (deposit max_retries u amount key w).1.db
deposit-IsSound n u amount key w idle h =
    let (r, w') = deposit n u amount key w in
    Settled-IsSound (IsDeposit u amount key) (AnswersDeposit amount) u key w r w'
      (deposit-Settled n u amount key w idle) h

-- From sound tables, and with no transaction open, a call of `transfer` leaves sound tables,
-- whatever its result, whatever fails and whatever other sessions commit meanwhile: no balance
-- leaves its range, every balance is what the transactions moved, the balances sum to the deposits,
-- no user has two transactions under one key, and each transaction has its event, and no other event is
-- there, in the outbox or, where it has been sent, among the rows deleted from it.
pub transfer-IsSound :
    (max_retries : ℕ) (u to_wallet_id : Uuid) (amount : ℤ) (key : String) (w : World)
    → w.pending ≡ []
    → IsSound w.db
    → IsSound (transfer max_retries u to_wallet_id amount key w).1.db
transfer-IsSound n u to_wallet_id amount key w idle h =
    let (r, w') = transfer n u to_wallet_id amount key w in
    Settled-IsSound (IsTransfer u to_wallet_id amount key) (AnswersTransfer to_wallet_id amount) u
      key w r w' (transfer-Settled n u to_wallet_id amount key w idle) h
