-- ===== src/Store/Trace/Rows.antt =====
-- The transaction that is found under a key, while other sessions commit.
use wallet_ledger.Base.{
  String, ◌≡◌, refl, inl, inr, true, false, not, Bool-cases, Option, none, some, List, [], ◌∷◌,
  arith, eq_iff, all,
}
use wallet_ledger.Store.Schema.{Uuid, Transaction, TxRow, Db}
use wallet_ledger.Store.Write.{add_transaction, apply, apply_all, valid, same_key}
use wallet_ledger.Store.Commit.{
  Commit, created, deposited, transferred, published, cleaned, writes, admissible, land,
}
use wallet_ledger.Store.Session.{Event}
use wallet_ledger.Store.Query.{row_by_key}
use wallet_ledger.Store.Trace.{Trace, here, skip, other, mine, row_of}

-- The rows with one more, if there is one.
abbrev pub with_row : Option TxRow → List TxRow → List TxRow
with_row none rs = rs
with_row (some r) rs = r ∷ rs

-- A commit adds its transaction and no other.
pub transactions-writes :
    (c : Commit) (d : Db)
    → (apply_all (writes c) d).transactions ≡ with_row (row_of c) d.transactions
unfolding writes apply_all apply
transactions-writes (created i u now) d = refl
transactions-writes (deposited x) d = refl
transactions-writes (transferred t) d = ground arith
transactions-writes (published ids at) d = refl
transactions-writes (cleaned hours now) d = refl

-- An admissible commit has a transaction that the constraints admit.
pub admissible-row :
    (c : Commit) (d : Db) (r : TxRow)
    → admissible c d ≡ true
    → row_of c ≡ some r
    → valid (add_transaction r) d ≡ true
unfolding admissible writes
admissible-row (created i u now) d r h e = cc
admissible-row (deposited x) d r h e = ground arith
admissible-row (transferred t) d r h e = ground arith
admissible-row (published ids at) d r h e = cc
admissible-row (cleaned hours now) d r h e = cc

-- A key that is found is not free for another row.
pub row_by_key-taken :
    (u : Uuid) (k : String) (rs : List TxRow) (t : Transaction) (r : TxRow)
    → row_by_key u k rs ≡ some t
    → all (λ x. not (same_key r.user_id r.tx.idempotency_key x)) rs ≡ true
    → same_key u k r ≡ false
unfolding row_by_key same_key
row_by_key-taken u k [] t r h a = cc
row_by_key-taken u k (x ∷ rs) t r h a = ground (
  arith,
  eq_iff x.tx.idempotency_key k,
  eq_iff r.tx.idempotency_key k,
  eq_iff x.tx.idempotency_key r.tx.idempotency_key,
  row_by_key-taken u k rs t r,
)

row_by_key-valid :
    (u : Uuid) (k : String) (d : Db) (t : Transaction) (r : TxRow)
    → row_by_key u k d.transactions ≡ some t
    → valid (add_transaction r) d ≡ true
    → row_by_key u k (r ∷ d.transactions) ≡ some t
unfolding row_by_key valid
row_by_key-valid u k d t r h v = rw (row_by_key-taken u k d.transactions t r h (ground arith)) h

row_by_key-with_row :
    (u : Uuid) (k : String) (c : Commit) (d : Db) (t : Transaction) (o : Option TxRow)
    → row_of c ≡ o
    → admissible c d ≡ true
    → row_by_key u k d.transactions ≡ some t
    → row_by_key u k (with_row o d.transactions) ≡ some t
row_by_key-with_row u k c d t none e a h = h
row_by_key-with_row u k c d t (some r) e a h =
    row_by_key-valid u k d t r h (admissible-row c d r a e)

-- A row that is found under its key is found there after any other commit.
pub row_by_key-land :
    (u : Uuid) (k : String) (c : Commit) (d : Db) (t : Transaction)
    → row_by_key u k d.transactions ≡ some t
    → row_by_key u k (land c d).transactions ≡ some t
unfolding land
row_by_key-land u k c d t h = elim (Bool-cases (admissible c d)) [
  | inl good ↦
      rw (good, transactions-writes c d) (row_by_key-with_row u k c d t (row_of c) refl good h)
  | inr bad ↦ rw bad h
]

-- So it is at the end of every execution.
pub row_by_key-Trace :
    {es : List Event} {d₀ : Db} {own : List Commit} {es' : List Event} {d : Db} (u : Uuid)
    (k : String) (t : Transaction)
    → row_by_key u k d₀.transactions ≡ some t
    → Trace es d₀ own es' d
    → row_by_key u k d.transactions ≡ some t
row_by_key-Trace u k t h here = h
row_by_key-Trace u k t h (skip e r) = row_by_key-Trace u k t h r
row_by_key-Trace u k t h (other {d = x} c r) =
    row_by_key-land u k c x t (row_by_key-Trace u k t h r)
row_by_key-Trace u k t h (mine {d = x} c r a) =
    row_by_key-land u k c x t (row_by_key-Trace u k t h r)
