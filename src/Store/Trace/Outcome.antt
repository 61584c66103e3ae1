-- ===== src/Store/Trace/Outcome.antt =====
-- What a call of Store.Deposit or Store.Transfer has committed when one attempt of it returns.
use wallet_ledger.Base.{String, ◌≡◌, refl, sym, ◌∙◌, true, false, some, [], ◌∷◌}
use wallet_ledger.Store.Schema.{Uuid, Transaction, TxRow, Db}
use wallet_ledger.Store.Write.{all_valid, same_key}
use wallet_ledger.Store.Commit.{Commit, admissible, land}
use wallet_ledger.Store.Session.{
  Fault, fault, Error, db, Result, ok, err, World, M, after, arrive, begin, opened, rolled_back,
  finish, begin_func,
}
use wallet_ledger.Store.Query.{row_by_key}
use wallet_ledger.Store.Money.{Receipt}
use wallet_ledger.Store.Trace.{Trace, here, row_of, tx_of, Trace-trans}
use wallet_ledger.Store.Trace.Rows.{transactions-writes}
use wallet_ledger.Store.Trace.Rules.{Holds, Ends, arrive-Holds, statement-cases}
use wallet_ledger.Store.Trace.Reads.{Ready, replay, fresh}
use wallet_ledger.Store.Trace.Finish.{
  committed-Trace, committed-nil, committed-nil_Trace, committed-db, finish-cases, arrive-row,
  committed-pending, tx_of-row, opened-Holds,
}

-- How a call ends. `P` says what a commit of its own is, `R` what a replay is.
module _ (P : Commit → Type 0) (R : Transaction → Type 0) (u : Uuid) (k : String) where
  -- The result is the transaction that stands under the key: one that was there, and nothing was
  -- committed, or the one of the only commit.
  pub data Answered (s : World) (res : Receipt) (w : World) : Type 0 where
    replayed :
        res.replayed ≡ true → R res.tx → Trace s.events s.db [] w.events w.db → Answered s res w
    done :
        (c : Commit)
        → P c
        → tx_of c ≡ some res.tx
        → res.replayed ≡ false
        → Trace s.events s.db (c ∷ []) w.events w.db
        → Answered s res w

  -- An error: nothing was committed, or one commit whose answer was lost.
  pub data Refused (s : World) (e : Error) (w : World) : Type 0 where
    nothing : Trace s.events s.db [] w.events w.db → Refused s e w
    unheard :
        (c : Commit) (f : Fault)
        → P c
        → e ≡ db (fault f)
        → Trace s.events s.db (c ∷ []) w.events w.db
        → Refused s e w

  abbrev pub Settled : World → Result Receipt → World → Type 0
  Settled s (ok res) w =
      (w.pending ≡ []) × (row_by_key u k w.db.transactions ≡ some res.tx) × Answered s res w
  Settled s (err e) w = (w.pending ≡ []) × Refused s e w

  -- The commits of a call that follows one without commits of its own.
  pub Settled-after :
      (s s' : World) (r : Result Receipt) (w : World)
      → Trace s.events s.db [] s'.events s'.db
      → Settled s' r w
      → Settled s r w
  Settled-after s s' (ok res) w t (p, e, replayed same a t') =
      (p, e, replayed same a (Trace-trans t t'))
  Settled-after s s' (ok res) w t (p, e, done c a x f t') = (p, e, done c a x f (Trace-trans t t'))
  Settled-after s s' (err e) w t (p, nothing t') = (p, nothing (Trace-trans t t'))
  Settled-after s s' (err e) w t (p, unheard c f a x t') = (p, unheard c f a x (Trace-trans t t'))

  rolled_back-Settled :
      (s : World) (e : Error) (w : World)
      → Trace s.events s.db [] w.events w.db
      → Settled s (err e) (rolled_back w)
  unfolding rolled_back
  rolled_back-Settled s e w t = (refl, nothing t)

  module _
      (keyed : (c : Commit)
        → P c
        → (r : TxRow) × (row_of c ≡ some r) × (same_key u k r ≡ true)) where
    -- The row of a commit is found under its key once it is committed.
    fresh-row :
        (c : Commit) (d : Db) (t : Transaction)
        → P c
        → tx_of c ≡ some t
        → admissible c d ≡ true
        → row_by_key u k (land c d).transactions ≡ some t
    unfolding land row_by_key
    fresh-row c d t p x good =
        let (r, e, same) = keyed c p in
        rw (good, transactions-writes c d, e, same) (sym (tx_of-row c r e) ∙ x)

    Ready-Settled :
        (s : World) (res : Receipt) (w : World)
        → Ready P R u k s res w
        → let (r, w') = finish (ok res) w in Settled s r w'
    Ready-Settled s res w (replay again same found h) =
        let j = arrive-Holds w h in
        let x = (arrive w).1 in
        finish-cases (Settled s) res w
          (
            committed-pending x,
            rw (committed-nil s x j) (arrive-row u k res.tx w found),
            replayed again same (committed-nil_Trace s x j),
          )
          (λ e. rolled_back-Settled s (db e) x j.trace)
          (λ f. (committed-pending x, nothing (committed-nil_Trace s x j)))
    Ready-Settled s res w (fresh c p x first h) =
        let j = arrive-Holds w h in
        let y = (arrive w).1 in
        finish-cases (Settled s) res w
          (
            committed-pending y,
            rw (committed-db s c y j) (fresh-row c y.db res.tx p x (unfold admissible in j.ready)),
            done c p x first (committed-Trace s c y j),
          )
          (λ e. rolled_back-Settled s (db e) y j.trace)
          (λ f. (committed-pending y, unheard c f p refl (committed-Trace s c y j)))

    finish-Settled :
        (s : World) (x : Result Receipt × World)
        → Ends (Ready P R u k s) s x
        → let (r, w) = finish x.0 x.1 in Settled s r w
    finish-Settled s (ok res, w) h = Ready-Settled s res w h
    finish-Settled s (err e, w) h = unfold finish in rolled_back-Settled s e w h

    module _ (body : M Receipt)
        (body-Ends : (s w : World) → Holds s [] w → Ends (Ready P R u k s) s (body w)) where
      pub begin_func-Settled :
          (w : World) → w.pending ≡ [] → let (r, w') = begin_func body w in Settled w r w'
      unfolding begin_func begin all_valid
      begin_func-Settled w idle =
          let f = λ (_ : Unit {0}) (x : World). let (r, y) = body x in finish r y in
          statement-cases (λ r x. Settled w (after f r x).0 (after f r x).1) w
            (λ x. (ok tt, opened x)) w (record { pending = idle; trace = here; ready = refl })
            (λ x h.
              finish-Settled w (body (opened x)) (body-Ends w (opened x) (opened-Holds w x h)))
            (λ e x h. (h.pending, nothing h.trace))
