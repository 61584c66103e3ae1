-- ===== src/Store/Moves.antt =====
-- What every operation of services/wallet/store.go has in common: it leaves no transaction open, and it
-- moves the committed tables by whole commits, of other sessions or of its own.
use wallet_ledger.Base.{ℕ, String, ◌≡◌, refl, Option, some, List, [], ◌∷◌, ◌++◌}
use wallet_ledger.Base.Int.{ℤ}
use wallet_ledger.Store.Schema.{Uuid, Wallet, Transaction, Db}
use wallet_ledger.Store.Write.{all_valid}
use wallet_ledger.Store.Commit.{Commit}
use wallet_ledger.Store.Session.{
  Event, Result, ok, err, World, M, opened, arrive, committed, rolled_back, finish,
}
use wallet_ledger.Store.Query.{scan, pooled, row_by_key}
use wallet_ledger.Store.Money.{Receipt, deposit, transfer}
use wallet_ledger.Store.Wallets.{create_wallet, get_wallet_by_user, get_transaction}
use wallet_ledger.Store.Wallets.Create.{Opens, Creates, nothing, one, create_wallet-Opens}
use wallet_ledger.Store.Trace.{Trace, here, skip, other, mine}
use wallet_ledger.Store.Trace.Rows.{row_by_key-Trace}
use wallet_ledger.Store.Trace.Rules.{Holds, arrive-Holds, statement-cases}
use wallet_ledger.Store.Trace.Finish.{
  finish-cases, committed-pending, committed-nil_Trace, opened-Holds,
}
use wallet_ledger.Store.Trace.Outcome
use wallet_ledger.Store.Trace.Outcome.{Settled, Answered, Refused}
use wallet_ledger.Store.Invariant.{IsSound}
use wallet_ledger.Store.Invariant.Sound.{Trace-IsSound}
use wallet_ledger.Store.Calls.{deposit-Settled, transfer-Settled}

pub record Advances (s w : World) : Type 0 where
  pub closed : w.pending ≡ []
  pub own : List Commit
  pub trace : Trace s.events s.db own w.events w.db

-- Executions one after the other.
Trace-append :
    {es es₁ : List Event} {d d₁ : Db} {own own' : List Commit} {es₂ : List Event} {d₂ : Db}
    → Trace es d own es₁ d₁
    → Trace es₁ d₁ own' es₂ d₂
    → Trace es d (own' ++ own) es₂ d₂
Trace-append t here = t
Trace-append t (skip e u) = skip e (Trace-append t u)
Trace-append t (other c u) = other c (Trace-append t u)
Trace-append t (mine c u h) = mine c (Trace-append t u) h

pub Advances-refl : (s : World) → s.pending ≡ [] → Advances s s
Advances-refl s idle = record { closed = idle; own = []; trace = here }

pub Advances-trans : {s w x : World} → Advances s w → Advances w x → Advances s x
Advances-trans a b = record {
  closed = b.closed;
  own = b.own ++ a.own;
  trace = Trace-append a.trace b.trace;
}

pub Advances-IsSound : {s w : World} → Advances s w → IsSound s.db → IsSound w.db
Advances-IsSound a h = Trace-IsSound a.trace h

pub row_by_key-Advances :
    {s w : World} (u : Uuid) (k : String) (t : Transaction)
    → Advances s w
    → row_by_key u k s.db.transactions ≡ some t
    → row_by_key u k w.db.transactions ≡ some t
row_by_key-Advances u k t a h = row_by_key-Trace u k t h a.trace

Settled-Advances :
    (P : Commit → Type 0) (R : Transaction → Type 0) (u : Uuid) (k : String) (s : World)
    (r : Result Receipt) (w : World)
    → Settled P R u k s r w
    → Advances s w
Settled-Advances P R u k s (ok res) w (p, _, Outcome.replayed _ _ t) = record {
  closed = p;
  own = [];
  trace = t;
}
Settled-Advances P R u k s (ok res) w (p, _, Outcome.done c _ _ _ t) = record {
  closed = p;
  own = c ∷ [];
  trace = t;
}
Settled-Advances P R u k s (err e) w (p, Outcome.nothing t) = record {
  closed = p;
  own = [];
  trace = t;
}
Settled-Advances P R u k s (err e) w (p, Outcome.unheard c _ _ _ t) = record {
  closed = p;
  own = c ∷ [];
  trace = t;
}

pub deposit-Advances :
    (max_retries : ℕ) (u : Uuid) (amount : ℤ) (key : String) (w : World)
    → w.pending ≡ []
    → Advances w (deposit max_retries u amount key w).1
deposit-Advances n u amount key w idle =
    let (r, x) = deposit n u amount key w in
    Settled-Advances _ _ u key w r x (deposit-Settled n u amount key w idle)

pub transfer-Advances :
    (max_retries : ℕ) (u to_wallet_id : Uuid) (amount : ℤ) (key : String) (w : World)
    → w.pending ≡ []
    → Advances w (transfer max_retries u to_wallet_id amount key w).1
transfer-Advances n u to_wallet_id amount key w idle =
    let (r, x) = transfer n u to_wallet_id amount key w in
    Settled-Advances _ _ u key w r x (transfer-Settled n u to_wallet_id amount key w idle)

Creates-Advances : (u : Uuid) (s w : World) → w.pending ≡ [] → Creates u s w → Advances s w
Creates-Advances u s w p (nothing t) = record { closed = p; own = []; trace = t }
Creates-Advances u s w p (one i now t) = record {
  closed = p;
  own = Commit.created i u now ∷ [];
  trace = t;
}

Opens-Advances :
    (u : Uuid) (s : World) (r : Result Wallet) (w : World) → Opens u s r w → Advances s w
Opens-Advances u s (ok v) w (p, _, _, c) = Creates-Advances u s w p c
Opens-Advances u s (err e) w (p, c) = Creates-Advances u s w p c

pub create_wallet-Advances :
    (u : Uuid) (w : World) → w.pending ≡ [] → Advances w (create_wallet u w).1
create_wallet-Advances u w idle =
    let (r, x) = create_wallet u w in Opens-Advances u w r x (create_wallet-Opens u w idle)

-- The end of a transaction that has written nothing.
finish-Advances :
    {A : Type 0} (s : World) (r : Result A) (w : World) → Holds s [] w → Advances s (finish r w).1
unfolding finish rolled_back
finish-Advances s (err e) w h = record { closed = refl; own = []; trace = h.trace }
finish-Advances s (ok a) w h =
    let x = (arrive w).1 in
    let j = arrive-Holds w h in
    let left : Advances s (committed x) = record {
      closed = committed-pending x;
      own = [];
      trace = committed-nil_Trace s x j;
    } in
    finish-cases (λ _ y. Advances s y) a w left
      (λ e. record { closed = refl; own = []; trace = j.trace }) (λ f. left)

-- A query on the pool that reads.
pooled-Advances :
    {A : Type 0} (m : M A) (w : World)
    → ((x : World) → (m x).1 ≡ x)
    → w.pending ≡ []
    → Advances w (pooled m w).1
unfolding pooled all_valid
pooled-Advances {A} m w reads idle =
    statement-cases (λ r x. Advances w (finish r x).1) w m (opened w)
      (opened-Holds w w (record { pending = idle; trace = here; ready = refl }))
      (λ x h. rw (reads x) (finish-Advances {A = A} w (m x).0 x h))
      (λ e x h. finish-Advances {A = A} w (err e) x h)

scan_keeps : {A : Type 0} (o : Option A) (w : World) → (scan o w).1 ≡ w
unfolding scan
scan_keeps Option.none w = refl
scan_keeps (some a) w = refl

pub get_wallet_by_user-Advances :
    (u : Uuid) (w : World) → w.pending ≡ [] → Advances w (get_wallet_by_user u w).1
unfolding get_wallet_by_user
get_wallet_by_user-Advances u w idle = pooled-Advances _ w (λ x. scan_keeps _ x) idle

pub get_transaction-Advances :
    (u i : Uuid) (w : World) → w.pending ≡ [] → Advances w (get_transaction u i w).1
unfolding get_transaction
get_transaction-Advances u i w idle = pooled-Advances _ w (λ x. scan_keeps _ x) idle
