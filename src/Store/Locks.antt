-- ===== src/Store/Locks.antt =====
-- The locks that PostgreSQL takes for the statements of services/wallet/store.go, and sessions that wait
-- for one another: an UPDATE locks its row, an INSERT waits for one of the same unique key, and a
-- transaction keeps what it has locked to its end. The relay skips what is locked and never waits.
-- The locks of its DELETE, on rows that no other statement writes, are left out.
pub mod Progress
pub mod Endings
mod Tests
use wallet_ledger.Base.{
  ℕ, zero, suc, String, ◌≡◌, Bool, true, false, not, ◌&&◌, List, [], ◌∷◌, ◌++◌, ◌==◌, str_eq, all,
  any,
}
use wallet_ledger.Store.Schema.{Uuid, Wallet, TxRow}
use wallet_ledger.Store.Write.{
  Write, add_wallet, update_balance, add_transaction, add_outbox, mark_published, delete_sent,
}
use wallet_ledger.Store.Commit.{Commit, writes}

pub data Lock : Type 0 where
  -- a row of wallet.wallets
  row : Uuid → Lock
  -- UNIQUE (user_id) of wallet.wallets
  owner : Uuid → Lock
  -- UNIQUE (user_id, idempotency_key) of wallet.transactions
  slot : Uuid → String → Lock

unfoldable pub same_lock : Lock → Lock → Bool
same_lock (row i) (row j) = i == j
same_lock (owner u) (owner v) = u == v
same_lock (slot u k) (slot v l) = u == v && str_eq k l
same_lock _ _ = false

unfoldable pub locks : List Write → List Lock
locks [] = []
locks (add_wallet w ∷ ws) = owner w.user_id ∷ locks ws
locks (update_balance i d ∷ ws) = row i ∷ locks ws
locks (add_transaction r ∷ ws) = slot r.user_id r.tx.idempotency_key ∷ locks ws
locks (add_outbox r ∷ ws) = locks ws
locks (mark_published ids at ∷ ws) = locks ws
locks (delete_sent hours now ∷ ws) = locks ws

-- A transaction: what it has locked, and what it has still to lock.
pub record Session : Type 0 where
  pub held : List Lock
  pub todo : List Lock

unfoldable pub start : Commit → Session
unfolding locks
start c = record { held = []; todo = locks (writes c) }

unfoldable pub start_all : List Commit → List Session
unfolding start
start_all [] = []
start_all (c ∷ cs) = start c ∷ start_all cs

-- No session of the list has the lock.
unfoldable pub free : Lock → List Session → Bool
unfolding same_lock
free l ss = all (λ s. not (any (same_lock l) s.held)) ss

abbrev pub over : Session
over = record { held = []; todo = [] }

-- One session takes its next lock or commits.
pub data Forward (ss ss' : List Session) : Type 0 where
  acquire :
      (left right : List Session) (held rest : List Lock) (l : Lock)
      → ss ≡ left ++ (record { held = held; todo = l ∷ rest } ∷ right)
      → free l (left ++ right) ≡ true
      → ss' ≡ left ++ (record { held = l ∷ held; todo = rest } ∷ right)
      → Forward ss ss'
  commit :
      (left right : List Session) (h : Lock) (held : List Lock)
      → ss ≡ left ++ (record { held = h ∷ held; todo = [] } ∷ right)
      → ss' ≡ left ++ (over ∷ right)
      → Forward ss ss'

-- That, or one session is rolled back, by an error, a timeout or a conflict.
pub data Step (ss ss' : List Session) : Type 0 where
  forward : Forward ss ss' → Step ss ss'
  roll_back :
      (left right : List Session) (held rest : List Lock) (l : Lock)
      → ss ≡ left ++ (record { held = held; todo = l ∷ rest } ∷ right)
      → ss' ≡ left ++ (over ∷ right)
      → Step ss ss'

-- Runs, by their number of steps.
pub data Steps : ℕ → List Session → List Session → Type 0 where
  stay : {ss : List Session} → Steps zero ss ss
  step :
      {n : ℕ} {ss ss' ss'' : List Session} → Steps n ss ss' → Step ss' ss'' → Steps (suc n) ss ss''
