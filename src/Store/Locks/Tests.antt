-- ===== src/Store/Locks/Tests.antt =====
-- A deposit, a transfer and a new wallet at once, and the theorem on their locks for them.
use wallet_ledger.Base.{ℕ, ◌*◌, ◌≤◌, ◌≡◌, refl, ◌⊎◌, List, [], ◌∷◌, All, arith}
use wallet_ledger.Base.Int.{pos}
use wallet_ledger.Store.Schema.{Wallet}
use wallet_ledger.Store.Commit.{Commit, created, deposited, transferred}
use wallet_ledger.Store.Locks.{
  Lock, row, slot, start, start_all, locks, Session, over, Forward, forward, acquire, Steps, stay,
  step,
}
use wallet_ledger.Store.Locks
use wallet_ledger.Store.Commit
use wallet_ledger.Store.Locks.Endings.{locks_end}

abbrev wallet : ℕ → ℕ → Wallet
wallet i u = record {
  id = i;
  user_id = u;
  balance_cents = pos 100;
  currency = "USD";
  version = 0;
  created_at = 0;
}

abbrev commits : List Commit
commits =
    transferred (record {
      user_id = 2;
      sender = wallet 22 2;
      recipient = wallet 11 1;
      amount = pos 7;
      key = "a";
      stamp = record { id = 301; now = 5; serial = 1 };
    })
    ∷ deposited (record {
      user_id = 1;
      wallet = wallet 11 1;
      amount = pos 9;
      key = "b";
      stamp = record { id = 302; now = 5; serial = 2 };
    })
    ∷ created 33 3 5
    ∷ []

-- The transfer has taken the row with the smaller id.
abbrev first_taken : List Session
first_taken =
    record { held = row 11 ∷ []; todo = row 22 ∷ slot 2 "a" ∷ [] }
    ∷ start_all (
        deposited (record {
          user_id = 1;
          wallet = wallet 11 1;
          amount = pos 9;
          key = "b";
          stamp = record { id = 302; now = 5; serial = 2 };
        })
        ∷ created 33 3 5
        ∷ [])

one_step : Steps 1 (start_all commits) first_taken
unfolding Locks.start_all Locks.free Commit.writes Commit.transfer_row
one_step = step stay (forward (acquire [] _ [] _ (row 11) refl refl refl))

locks_end_example :
    (1 ≤ 6 * 3)
    × (All (λ s. s ≡ over) first_taken ⊎ ((ss' : List Session) × Forward first_taken ss'))
locks_end_example =
    locks_end 100 commits 1 first_taken
      ((omega arith, omega arith, omega arith), (omega arith, (tt, tt))) one_step
