-- ===== src/Store/Tests.antt =====
-- Runs of services/wallet/store.go on small tables, and the theorems about it at one input each.
use mathlib.Core.List.Permᴰ
use wallet_ledger.Base.{
  ◌+◌, ◌≡◌, ltb, if◌then◌else◌, ◌*◌, ◌^◌, refl, some, none, true, false, List, [], ◌∷◌, map, arith,
}
use wallet_ledger.Base.Int.{ℤ, pos, ◌+ℤ◌, neg, neg64, ◌<ℤ◌, ◌≤ℤ◌}
use wallet_ledger.Store.Schema.{Wallet, Kind, Db}
use wallet_ledger.Store.Write
use wallet_ledger.Store.Commit.{
  Commit, Deposit, Transfer, deposited, transferred, deposit_row, deposit_outbox, transfer_row,
  land, admissible,
}
use wallet_ledger.Store.Commit
use wallet_ledger.Store.Session.{
  World, Event, quiet, commits, fails, lost, Generator, Result, ok, err, Error, db, pg, fault,
  context, other, deadline_exceeded, insufficient_funds, version_conflict, same_wallet,
  currency_mismatch, begin_func, panicked,
}
use wallet_ledger.Store.Session
use wallet_ledger.Store.Query
use wallet_ledger.Store.Money.{
  deposit, transfer, transfer_body, with_retries, attempts, backoff_limit, retryable,
}
use wallet_ledger.Store.Money.Retry.{
  IsFinal, with_retries-IsFinal, backoff_limit_lem, attempt_40_panics,
}
use wallet_ledger.Store.Trace.DepositBody.{IsDeposit, AnswersDeposit}
use wallet_ledger.Store.Trace.TransferBody.{IsTransfer, AnswersTransfer}
use wallet_ledger.Store.Trace.Outcome.{Settled}
use wallet_ledger.Store.Invariant.{IsSound, net, sum_balances, sum_deposits}
use wallet_ledger.Store.Invariant.Sound.{land-IsSound}
use wallet_ledger.Store.Calls.{
  Repeats, deposit-Settled, transfer-Settled, deposit_again, transfer_again, transfer-IsSound,
}
use wallet_ledger.Store.Wallets
use wallet_ledger.Store.Wallets.Create.{Opens, create_wallet-Opens}
use wallet_ledger.Store.Alone.{idle, started}
use wallet_ledger.Store.Alone.Transfers.{refusal, transfer-alone, transfer-refused}
use wallet_ledger.Store.Alone.Transfers
use wallet_ledger.Store.Alone.Deposits.{deposit-alone}
use wallet_ledger.Store.Alone.Deposits

abbrev alice : Wallet
alice = record {
  id = 11;
  user_id = 1;
  balance_cents = pos 500;
  currency = "USD";
  version = 1;
  created_at = 100;
}

abbrev bob : Wallet
bob = record {
  id = 22;
  user_id = 2;
  balance_cents = pos 40;
  currency = "USD";
  version = 1;
  created_at = 120;
}

-- The deposits that the balances come from.
abbrev first : Deposit
first = record {
  user_id = 1;
  wallet = alice;
  amount = pos 500;
  key = "a";
  stamp = record { id = 301; now = 200; serial = 1 };
}

abbrev second : Deposit
second = record {
  user_id = 2;
  wallet = bob;
  amount = pos 40;
  key = "b";
  stamp = record { id = 302; now = 210; serial = 2 };
}

abbrev tables : Db
tables = record {
  wallets = alice ∷ bob ∷ [];
  transactions = deposit_row second ∷ deposit_row first ∷ [];
  outbox = deposit_outbox second ∷ deposit_outbox first ∷ [];
  deleted = [];
}

tables-IsSound : IsSound tables
unfolding net sum_balances sum_deposits ◌+ℤ◌ neg Commit.deposit_row Commit.deposit_outbox
    Write.same_key
tables-IsSound = record {
  balances = ((omega arith, omega arith), ((omega arith, omega arith), tt));
  ids = (refl, (refl, tt));
  users = (refl, (refl, tt));
  keys = (refl, (refl, tt));
  refs = (refl, (refl, tt));
  reconciled = (refl, (refl, tt));
  conserved = refl;
  recorded = Permᴰ.refl _;
  sent = tt;
}

abbrev generator : Generator
generator = record { uuid = λ n. 1000 + n; clock = λ n. 5000 + n; serial = λ n. 10 + n }

abbrev world : List Event → World
world es = record {
  db = tables;
  pending = [];
  events = es;
  gen = generator;
  draws = 0;
  now = 0;
  lock_retries = [];
}

-- Another session pays 7 into bob's wallet; a COMMIT is lost.
abbrev payment : Deposit
payment = record {
  user_id = 2;
  wallet = bob;
  amount = pos 7;
  key = "c";
  stamp = record { id = 303; now = 220; serial = 3 };
}

abbrev busy : List Event
busy = quiet ∷ quiet ∷ quiet ∷ quiet ∷ commits (deposited payment) ∷ quiet ∷ []

abbrev balances : World → List ℤ
balances w = map (λ v. v.balance_cents) w.db.wallets

transfer_moves :
    let (r, w) = transfer 3 1 22 (pos 60) "k1" (world []) in balances w ≡ pos 440 ∷ pos 100 ∷ []
unfolding transfer ◌+ℤ◌ neg64 Session.arrive Session.statement Session.view Write.apply_all
    Write.apply Write.bump_at Write.select_by_user Write.select_by_id Write.valid Write.fits
    Write.two_sides Write.same_key Query.find_by_key Query.row_by_key Query.wallet_by_user
    Query.wallet_by_id Query.apply_delta Query.draw Query.insert_transaction Query.insert_outbox
    Commit.deposit_row Commit.deposit_outbox Commit.transfer_row Commit.transfer_outbox
transfer_moves = refl

deposit-Settled_example :
    let (r, w') = deposit 3 1 (pos 60) "k1" (world busy) in
    Settled (IsDeposit 1 (pos 60) "k1") (AnswersDeposit (pos 60)) 1 "k1" (world busy) r w'
deposit-Settled_example = deposit-Settled 3 1 (pos 60) "k1" (world busy) refl

transfer-Settled_example :
    let (r, w') = transfer 3 1 22 (pos 60) "k1" (world busy) in
    Settled (IsTransfer 1 22 (pos 60) "k1") (AnswersTransfer 22 (pos 60)) 1 "k1" (world busy) r w'
transfer-Settled_example = transfer-Settled 3 1 22 (pos 60) "k1" (world busy) refl

-- The first deposit stands under alice's key "a".
taken : Query.row_by_key 1 "a" tables.transactions ≡ some (deposit_row first).tx
unfolding Query.row_by_key Write.same_key Commit.deposit_row
taken = refl

deposit_again_example :
    let (r, w') = deposit 3 1 (pos 500) "a" (world busy) in
    Repeats (AnswersDeposit (pos 500)) (deposit_row first).tx (world busy) r w'
deposit_again_example =
    deposit_again 3 1 (pos 500) "a" (world busy) (deposit_row first).tx refl taken

transfer_again_example :
    let (r, w') = transfer 3 1 22 (pos 60) "a" (world busy) in
    Repeats (AnswersTransfer 22 (pos 60)) (deposit_row first).tx (world busy) r w'
transfer_again_example =
    transfer_again 3 1 22 (pos 60) "a" (world busy) (deposit_row first).tx refl taken

transfer-IsSound_example : IsSound (transfer 3 1 22 (pos 60) "k1" (world busy)).1.db
transfer-IsSound_example = transfer-IsSound 3 1 22 (pos 60) "k1" (world busy) refl tables-IsSound

land-IsSound_example : IsSound (land (deposited payment) tables)
land-IsSound_example = land-IsSound (deposited payment) tables tables-IsSound

-- What the calls on their own find in the tables.
free_key : Query.row_by_key 1 "k1" tables.transactions ≡ none
unfolding Query.row_by_key Write.same_key Commit.deposit_row
free_key = refl

finds_alice : Write.select_by_user 1 tables.wallets ≡ some alice
unfolding Write.select_by_user
finds_alice = refl

finds_bob : Write.select_by_id 22 tables.wallets ≡ some bob
unfolding Write.select_by_id
finds_bob = refl

abbrev the_transfer : Transfer
the_transfer = Transfers.stamped 1 (pos 60) "k1" alice bob generator 1 5000

abbrev the_deposit : Deposit
the_deposit = Deposits.stamped 1 (pos 60) "k1" alice generator 1 5000

admits_transfer : admissible (transferred the_transfer) tables ≡ true
unfolding admissible Commit.writes Write.all_valid Write.valid Write.fits Write.two_sides
    Write.same_key Write.select_by_id Write.fits_row ◌+ℤ◌ neg64 Commit.transfer_row
    Commit.transfer_outbox Commit.deposit_row Commit.deposit_outbox
admits_transfer = refl

admits_deposit : admissible (deposited the_deposit) tables ≡ true
unfolding admissible Commit.writes Write.all_valid Write.valid Write.fits Write.two_sides
    Write.same_key Write.select_by_id Write.fits_row ◌+ℤ◌ Commit.deposit_row Commit.deposit_outbox
admits_deposit = refl

transfer-alone_example :
    let (res, w) = transfer 3 1 22 (pos 60) "k1" (idle tables generator 0 0 []) in
    (res ≡ ok (record { tx = (transfer_row the_transfer).tx; replayed = false }))
    × (w.db ≡ land (transferred the_transfer) tables)
    × (w.pending ≡ [])
    × (w.lock_retries ≡ [])
transfer-alone_example =
    transfer-alone tables generator 0 0 [] 2 1 22 (pos 60) "k1" alice bob free_key finds_alice
      finds_bob tables-IsSound.ids refl refl refl admits_transfer

transfer-refused_example :
    transfer 3 1 22 (pos 600) "k1" (idle tables generator 0 0 [])
    ≡ (err insufficient_funds, started tables generator 0 0 [])
transfer-refused_example =
    transfer-refused tables generator 0 0 [] 2 1 22 (pos 600) "k1" alice bob free_key finds_alice
      finds_bob insufficient_funds refl

deposit-alone_example :
    let (res, w) = deposit 3 1 (pos 60) "k1" (idle tables generator 0 0 []) in
    (res ≡ ok (record { tx = (deposit_row the_deposit).tx; replayed = false }))
    × (w.db ≡ land (deposited the_deposit) tables)
    × (w.pending ≡ [])
    × (w.lock_retries ≡ [])
deposit-alone_example =
    deposit-alone tables generator 0 0 [] 2 1 (pos 60) "k1" alice free_key finds_alice
      tables-IsSound.ids admits_deposit

-- Twice a unique violation, and two attempts.
with_retries-IsFinal_example :
    IsFinal
      (with_retries 2 Kind.transfer
        (transfer_body 1 22 (pos 60) "k1")
        (world (quiet ∷ fails (pg "23505") ∷ quiet ∷ quiet ∷ fails (pg "23505") ∷ []))).0
with_retries-IsFinal_example =
    with_retries-IsFinal 2 Kind.transfer (transfer_body 1 22 (pos 60) "k1")
      (world (quiet ∷ fails (pg "23505") ∷ quiet ∷ quiet ∷ fails (pg "23505") ∷ []))

violated : World
violated = (begin_func (transfer_body 1 22 (pos 60) "k1") (world (fails (pg "23505") ∷ []))).1

fails_first :
    begin_func (transfer_body 1 22 (pos 60) "k1") (world (fails (pg "23505") ∷ []))
    ≡ (err (db (pg "23505")), violated)
unfolding begin_func violated Session.begin Session.statement Session.arrive Session.run
fails_first = refl

attempt_40_panics_example :
    (attempts Kind.transfer
      (transfer_body 1 22 (pos 60) "k1")
      5
      40
      (world (fails (pg "23505") ∷ []))).0
    ≡ err panicked
unfolding retryable
attempt_40_panics_example =
    attempt_40_panics Kind.transfer (transfer_body 1 22 (pos 60) "k1") 4
      (world (fails (pg "23505") ∷ [])) violated (db (pg "23505")) fails_first refl

backoff_limit_lem_example :
    (backoff_limit 4
      ≡ pos (if ltb (10000000 * 2 ^ 4) 500000000 then 10000000 * 2 ^ 4 else 500000000))
    × (pos 0 <ℤ backoff_limit 4)
    × (backoff_limit 4 ≤ℤ pos 500000000)
backoff_limit_lem_example = backoff_limit_lem 4 (omega arith)

-- Alice sees her first deposit.
shown : (Wallets.get_transaction 1 301 (world busy)).0 ≡ ok (deposit_row first).tx
unfolding Wallets.get_transaction Wallets.row_by_id Wallets.touches Query.pooled Query.scan
    Session.arrive Session.statement Session.view Session.opened Session.finish Session.commit
    Session.run Write.apply_all Commit.deposit_row
shown = refl

create_wallet-Opens_example :
    let (r, w') = Wallets.create_wallet 3 (world busy) in Opens 3 (world busy) r w'
create_wallet-Opens_example = create_wallet-Opens 3 (world busy) refl
