-- ===== src/Store/Trace/Finish.antt =====
-- BEGIN, COMMIT and ROLLBACK of a session, and the tables that they leave.
use wallet_ledger.Base.{subst, sym, String, ◌≡◌, refl, some, List, [], ◌∷◌, arith}
use wallet_ledger.Store.Schema.{Db, Uuid, Transaction, TxRow}
use wallet_ledger.Store.Write.{all_valid, apply_all}
use wallet_ledger.Store.Commit.{Commit, writes, admissible, land}
use wallet_ledger.Store.Session.{
  view, Event, quiet, commits, fails, lost, DbError, Fault, fault, db, Result, ok, err, World, pop,
  pop_from, settle, arrive, land_unblocked, opened, rolled_back, committed, commit, finish,
}
use wallet_ledger.Store.Query.{row_by_key}
use wallet_ledger.Store.Trace.{Trace, mine, row_of, tx_of}
use wallet_ledger.Store.Trace.Rows.{row_by_key-land}
use wallet_ledger.Store.Trace.Rules.{Holds}

-- COMMIT takes effect at the tables that it finds; or it fails; or its answer is lost.
finish_from-cases :
    {A : Type 0} (Q : Result A → World → Type 0) (a : A) (es : List Event) (w : World)
    → let (e, x) = pop_from es w in
      let w' = (settle e x).1 in
      Q (ok a) (committed w')
      → ((e : DbError) → Q (err (db e)) (rolled_back w'))
      → ((f : Fault) → Q (err (db (fault f))) (committed w'))
      → Q (commit a e x).0 (commit a e x).1
unfolding commit settle pop_from
finish_from-cases Q a [] w good failed gone = good
finish_from-cases Q a (quiet ∷ es) w good failed gone = good
finish_from-cases Q a (commits c ∷ es) w good failed gone = good
finish_from-cases Q a (fails e ∷ es) w good failed gone = failed e
finish_from-cases Q a (lost f ∷ es) w good failed gone = gone f

pub finish-cases :
    {A : Type 0} (Q : Result A → World → Type 0) (a : A) (w : World)
    → let w' = (arrive w).1 in
      Q (ok a) (committed w')
      → ((e : DbError) → Q (err (db e)) (rolled_back w'))
      → ((f : Fault) → Q (err (db (fault f))) (committed w'))
      → Q (finish (ok a) w).0 (finish (ok a) w).1
unfolding arrive finish pop
finish-cases Q a w = finish_from-cases Q a w.events w

settle-row :
    (u : Uuid) (k : String) (t : Transaction) (e : Event) (w : World)
    → row_by_key u k w.db.transactions ≡ some t
    → row_by_key u k (settle e w).1.db.transactions ≡ some t
unfolding settle land_unblocked
settle-row u k t quiet w h = h
settle-row u k t (commits c) w h = ground (arith, row_by_key-land u k c w.db t h)
settle-row u k t (fails e) w h = h
settle-row u k t (lost f) w h = h

pub arrive-row :
    (u : Uuid) (k : String) (t : Transaction) (w : World)
    → row_by_key u k w.db.transactions ≡ some t
    → row_by_key u k (arrive w).1.db.transactions ≡ some t
unfolding pop_from arrive settle
arrive-row u k t w h = go w.events
  where
    go :
        (es : List Event)
        → let (e, x) = pop_from es w in row_by_key u k (settle e x).1.db.transactions ≡ some t
    go [] = settle-row u k t quiet w h
    go (e ∷ es) = settle-row u k t e (record w { events = es }) h

pub committed-pending : (w : World) → (committed w).pending ≡ []
unfolding committed
committed-pending w = refl

pub tx_of-row : (c : Commit) (r : TxRow) → row_of c ≡ some r → tx_of c ≡ some r.tx
tx_of-row (Commit.created i u now) r e = cc
tx_of-row (Commit.deposited d) r e = cc
tx_of-row (Commit.transferred t) r e = cc
tx_of-row (Commit.published ids at) r e = cc
tx_of-row (Commit.cleaned hours now) r e = cc

pub opened-Holds : (s w : World) → Holds s [] w → Holds s [] (opened w)
unfolding opened all_valid
opened-Holds s w h = record { pending = refl; trace = h.trace; ready = refl }

-- What COMMIT leaves of the writes of a commit, and of none.
pub committed-db :
    (s : World) (c : Commit) (w : World) → Holds s (writes c) w → (committed w).db ≡ land c w.db
unfolding committed view land admissible
committed-db s c w h = rw (h.pending, h.ready)

pub committed-Trace :
    (s : World) (c : Commit) (w : World)
    → Holds s (writes c) w
    → Trace s.events s.db (c ∷ []) (committed w).events (committed w).db
unfolding admissible committed
committed-Trace s c w h =
    subst (λ (d : Db). Trace s.events s.db (c ∷ []) w.events d) (sym (committed-db s c w h))
      (mine c h.trace h.ready)

pub committed-nil : (s : World) (w : World) → Holds s [] w → (committed w).db ≡ w.db
unfolding committed view apply_all
committed-nil s w h = rw h.pending

pub committed-nil_Trace :
    (s : World) (w : World)
    → Holds s [] w
    → Trace s.events s.db [] (committed w).events (committed w).db
unfolding committed
committed-nil_Trace s w h =
    subst (λ (d : Db). Trace s.events s.db [] w.events d) (sym (committed-nil s w h)) h.trace
