-- ===== src/Store/Money.antt =====
-- Store.Deposit, Store.Transfer and withRetries of services/wallet/store.go.
pub mod Retry
use wallet_ledger.Base.{
  ℕ, zero, suc, ◌+◌, ◌*◌, ◌^◌, ◌%◌, String, Bool, true, false, not, ◌&&◌, ◌||◌, Option, none, some,
  List, [], ◌∷◌, ltb, ◌==◌, str_eq, if◌then◌else◌,
}
use wallet_ledger.Base.Int.{ℤ, pos, ltb_ℤ, leb_ℤ, eqb_ℤ, of_bits64, neg64}
use wallet_ledger.Store.Schema.{Uuid, Wallet, Kind, Transaction, is_deposit, is_transfer}
use wallet_ledger.Store.Commit.{
  Stamp, Deposit, Transfer, deposit_row, transfer_row, deposit_outbox, transfer_outbox, land,
}
use wallet_ledger.Store.Session.{
  Error, not_found, insufficient_funds, same_wallet, currency_mismatch, idempotency_conflict,
  too_much_contention, version_conflict, db, panicked, DbError, pg, fault, context, Result, ok, err,
  Event, quiet, commits, fails, lost, World, M, pure, raise, attempt, ◌>>=◌, ◌>>◌, pop, begin_func,
}
use wallet_ledger.Store.Query.{
  wallet_by_user, wallet_by_id, find_by_key, apply_delta, insert_transaction, insert_outbox, draw,
}

-- store.go's Result.
pub record Receipt : Type 0 where
  pub tx : Transaction
  pub replayed : Bool

-- errors.Is(err, ErrNotFound)
unfoldable pub is_not_found : Error → Bool
is_not_found (not_found _) = true
is_not_found _ = false

-- fmt.Errorf(prefix + "%w", err): the error stays what it is, behind the prefix.
unfoldable pub wrapped : String → Error → Error
wrapped prefix (not_found _) = not_found prefix
wrapped prefix e = e

module _ {A : Type 0} where
  unfoldable pub rewrap : String → Result A → Result A
  unfolding wrapped
  rewrap prefix (ok a) = ok a
  rewrap prefix (err e) = err (wrapped prefix e)

  unfoldable pub wrap : String → M A → M A
  unfolding rewrap
  wrap prefix m w = let (r, w') = m w in (rewrap prefix r, w')

module _ (user_id : Uuid) (amount : ℤ) (key : String) where
  unfoldable pub deposit_into : Wallet → M Receipt
  deposit_into v = do
    apply_delta v amount
    stamp ← draw
    let d : Deposit = record {
      user_id = user_id;
      wallet = v;
      amount = amount;
      key = key;
      stamp = stamp;
    }
    t ← insert_transaction (deposit_row d)
    insert_outbox (deposit_outbox d)
    pure (record { tx = t; replayed = false })

  unfoldable pub deposit_new : M Receipt
  unfolding wrap deposit_into
  deposit_new = do v ← wrap "wallet: " (wallet_by_user user_id); deposit_into v

  unfoldable pub deposit_found : Result Transaction → M Receipt
  unfolding deposit_new is_not_found
  deposit_found (ok existing) =
      if not (is_deposit existing.kind) || not (eqb_ℤ existing.amount_cents amount)
      then raise idempotency_conflict
      else pure (record { tx = existing; replayed = true })
  deposit_found (err e) = if is_not_found e then deposit_new else raise e

  unfoldable pub deposit_body : M Receipt
  unfolding deposit_found
  deposit_body = do found ← attempt (find_by_key user_id key); deposit_found found

module _ (user_id : Uuid) (to_wallet_id : Uuid) (amount : ℤ) (key : String) where
  -- The two balances, in the order of the wallet ids.
  unfoldable pub move_funds : Wallet → Wallet → M (Unit {0})
  move_funds sender recipient =
      if ltb recipient.id sender.id
      then (apply_delta recipient amount >> apply_delta sender (neg64 amount))
      else (apply_delta sender (neg64 amount) >> apply_delta recipient amount)

  unfoldable pub transfer_between : Wallet → Wallet → M Receipt
  unfolding move_funds
  transfer_between sender recipient = do
    move_funds sender recipient
    stamp ← draw
    let t : Transfer = record {
      user_id = user_id;
      sender = sender;
      recipient = recipient;
      amount = amount;
      key = key;
      stamp = stamp;
    }
    row ← insert_transaction (transfer_row t)
    insert_outbox (transfer_outbox t)
    pure (record { tx = row; replayed = false })

  unfoldable pub transfer_checked : Wallet → Wallet → M Receipt
  unfolding transfer_between
  transfer_checked sender recipient =
      if sender.id == recipient.id
      then raise same_wallet
      else if not (str_eq sender.currency recipient.currency)
      then raise currency_mismatch
      else if ltb_ℤ sender.balance_cents amount
      then raise insufficient_funds
      else transfer_between sender recipient

  unfoldable pub transfer_new : M Receipt
  unfolding wrap transfer_checked
  transfer_new = do
    sender ← wrap "sender wallet: " (wallet_by_user user_id)
    recipient ← wrap "recipient wallet: " (wallet_by_id to_wallet_id)
    transfer_checked sender recipient

  unfoldable pub transfer_found : Result Transaction → M Receipt
  unfolding transfer_new is_not_found
  transfer_found (ok existing) =
      if not (is_transfer existing.kind)
        || (not (eqb_ℤ existing.amount_cents amount) || not (existing.to_wallet_id == to_wallet_id))
      then raise idempotency_conflict
      else pure (record { tx = existing; replayed = true })
  transfer_found (err e) = if is_not_found e then transfer_new else raise e

  unfoldable pub transfer_body : M Receipt
  unfolding transfer_found
  transfer_body = do found ← attempt (find_by_key user_id key); transfer_found found

unfoldable pub retryable : Error → Bool
retryable version_conflict = true
retryable (db (pg code)) = str_eq code "23505"
retryable _ = false

-- min(500ms, 10ms << attempt) in nanoseconds, the shift on 64 bits.
unfoldable pub backoff_limit : ℕ → ℤ
unfolding of_bits64
backoff_limit attempt =
    let shifted = of_bits64 ((10000000 * 2 ^ attempt) % 2 ^ 64) in
    if ltb_ℤ shifted (pos 500000000) then shifted else pos 500000000

-- The select over time.After and ctx.Done; meanwhile other sessions commit.
unfoldable pub pause : Event → M (Unit {0})
pause quiet w = (ok tt, w)
pause (commits c) w = (ok tt, record w { db = land c w.db })
pause (fails (fault (context c))) w = (err (db (fault (context c))), w)
pause (fails _) w = (ok tt, w)
pause (lost _) w = (ok tt, w)

-- rand.N panics unless its argument is positive.
unfoldable pub wait : ℕ → M (Unit {0})
unfolding backoff_limit pop pause
wait attempt w =
    if leb_ℤ (backoff_limit attempt) (pos 0)
    then (err panicked, w)
    else let (e, w') = pop w in pause e w'

unfoldable pub count_retry : Kind → World → World
count_retry kind w = record w { lock_retries = kind ∷ w.lock_retries }

module _ (kind : Kind) (body : M Receipt) where
  -- What follows an attempt; `next` is the attempts that are left.
  unfoldable pub retry : ℕ → M Receipt → Result Receipt → M Receipt
  unfolding retryable wait count_retry
  retry attempt next (ok res) w = (ok res, w)
  retry attempt next (err e) w =
      if retryable e then (wait attempt >> next) (count_retry kind w) else (err e, w)

  -- The loop from `attempt` on, with `left` attempts to go.
  unfoldable pub attempts : ℕ → ℕ → M Receipt
  unfolding begin_func retry
  attempts zero attempt w = (err too_much_contention, w)
  attempts (suc left) attempt w =
      let (r, w') = begin_func body w in
      let next = attempts left (attempt + 1) in retry attempt next r w'

unfoldable pub with_retries : ℕ → Kind → M Receipt → M Receipt
unfolding attempts
with_retries max_retries kind body = attempts kind body max_retries 1

unfoldable pub deposit : ℕ → Uuid → ℤ → String → M Receipt
unfolding with_retries deposit_body
deposit max_retries u amount key = with_retries max_retries Kind.deposit (deposit_body u amount key)

unfoldable pub transfer : ℕ → Uuid → Uuid → ℤ → String → M Receipt
unfolding with_retries transfer_body
transfer max_retries u to_wallet_id amount key =
    with_retries max_retries Kind.transfer (transfer_body u to_wallet_id amount key)
