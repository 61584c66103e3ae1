-- ===== src/Store/Wallets/Create.antt =====
-- Store.CreateWallet of services/wallet/store.go under every schedule of other sessions' commits and of
-- failures.
use wallet_ledger.Base.{
  ◌+◌, ◌≡◌, refl, sym, ap, ◌∙◌, true, inl, inr, Bool-cases, Option, none, some, [], ◌∷◌,
}
use wallet_ledger.Store.Schema.{Uuid, Instant, Wallet, Db}
use wallet_ledger.Store.Write.{add_wallet, select_by_user, valid, all_valid, apply_all}
use wallet_ledger.Store.Commit.{created, new_wallet, writes, admissible}
use wallet_ledger.Store.Session.{
  Error, db, pg, Result, ok, err, World, view, opened, arrive, rolled_back, committed, finish,
}
use wallet_ledger.Store.Query.{pooled, push}
use wallet_ledger.Store.Wallets.{upsert, create_wallet}
use wallet_ledger.Store.Wallets.Kept.{
  has_wallet, select_by_user-has_wallet, has_wallet-arrive, created-has_wallet,
}
use wallet_ledger.Store.Trace.{Trace, here}
use wallet_ledger.Store.Trace.Rules.{Holds, arrive-Holds, statement-cases, push-Holds}
use wallet_ledger.Store.Trace.Reads.{select_by_user-user}
use wallet_ledger.Store.Trace.Finish.{
  finish-cases, committed-pending, committed-db, committed-nil, committed-Trace,
  committed-nil_Trace, opened-Holds,
}
use wallet_ledger.Store.Invariant.{IsSound}
use wallet_ledger.Store.Invariant.Sound.{Trace-IsSound}

-- What a call has committed: nothing, or a new wallet of the user.
pub data Creates (u : Uuid) (s : World) (w : World) : Type 0 where
  nothing : Trace s.events s.db [] w.events w.db → Creates u s w
  one :
      (i : Uuid) (now : Instant)
      → Trace s.events s.db (created i u now ∷ []) w.events w.db
      → Creates u s w

abbrev pub Opens : Uuid → World → Result Wallet → World → Type 0
Opens u s (ok v) w =
    (w.pending ≡ []) × (v.user_id ≡ u) × (has_wallet v.id u w.db.wallets ≡ true) × Creates u s w
Opens u s (err e) w = (w.pending ≡ []) × Creates u s w

module _ (u : Uuid) (s : World) where
  abbrev Finishes : Result Wallet → World → Type 0
  Finishes r x = Opens u s (finish r x).0 (finish r x).1

  -- A statement that failed.
  failed-Opens : (e : Error) (w : World) → Holds s [] w → Finishes (err e) w
  unfolding finish rolled_back
  failed-Opens e w h = (refl, nothing h.trace)

  -- The wallet was there.
  found-Opens :
      (v : Wallet) (w : World)
      → v.user_id ≡ u
      → has_wallet v.id u w.db.wallets ≡ true
      → Holds s [] w
      → Finishes (ok v) w
  unfolding rolled_back
  found-Opens v w owner there h =
      let x = (arrive w).1 in
      let j = arrive-Holds w h in
      let still : has_wallet v.id u (committed x).db.wallets ≡ true =
        ap (λ (d : Db). has_wallet v.id u d.wallets) (committed-nil s x j)
        ∙ has_wallet-arrive v.id u w h.pending there in
      finish-cases (Opens u s) v w
        (committed-pending x, owner, still, nothing (committed-nil_Trace s x j))
        (λ e. (refl, nothing j.trace))
        (λ f. (committed-pending x, nothing (committed-nil_Trace s x j)))

  -- The wallet is new.
  new-Opens :
      (i : Uuid) (now : Instant) (w : World)
      → Holds s (writes (created i u now)) w
      → Finishes (ok (new_wallet i u now)) w
  unfolding rolled_back new_wallet admissible
  new-Opens i now w h =
      let x = (arrive w).1 in
      let j = arrive-Holds w h in
      let c = created i u now in
      finish-cases (Opens u s) (new_wallet i u now) w
        (
          committed-pending x,
          refl,
          ap (λ (d : Db). has_wallet i u d.wallets) (committed-db s c x j)
              ∙ created-has_wallet i u now x.db j.ready,
          one i now (committed-Trace s c x j),
        )
        (λ e. (refl, nothing j.trace))
        (λ f. (committed-pending x, one i now (committed-Trace s c x j)))

  upsert-Opens :
      (o : Option Wallet) (w : World)
      → Holds s [] w
      → select_by_user u (view w).wallets ≡ o
      → Finishes (upsert u o w).0 (upsert u o w).1
  unfolding upsert writes view apply_all
  upsert-Opens (some v) w h e =
      let there : has_wallet v.id u w.db.wallets ≡ true =
        ap (λ ps. has_wallet v.id u (apply_all ps w.db).wallets) (sym h.pending)
        ∙ select_by_user-has_wallet u (view w).wallets v e in
      found-Opens v w (select_by_user-user u (view w).wallets v e) there h
  upsert-Opens none w h e =
      let v = new_wallet (w.gen.uuid w.draws) u w.now in
      let x = record w { draws = w.draws + 1 } in
      let hx : Holds s [] x = record { pending = h.pending; trace = h.trace; ready = h.ready } in
      elim (Bool-cases (valid (add_wallet v) (view w))) [
        | inl good ↦ rw good (
            new-Opens (w.gen.uuid w.draws) w.now (push (add_wallet v) x)
              (push-Holds (add_wallet v) x hx refl good))
        | inr bad ↦ rw bad (failed-Opens (db (pg "23505")) x hx)
      ]

-- Whatever other sessions commit and whatever fails, a call of `create_wallet` from a session with no
-- transaction open commits nothing, or one new wallet of the user, and a success answers with a wallet of
-- the user that stands in the tables then, under its id.
pub create_wallet-Opens :
    (u : Uuid) (w : World) → w.pending ≡ [] → let (r, w') = create_wallet u w in Opens u w r w'
unfolding create_wallet pooled all_valid
create_wallet-Opens u w idle =
    statement-cases (Finishes u w) w (λ x. upsert u (select_by_user u (view x).wallets) x)
      (opened w) (opened-Holds w w (record { pending = idle; trace = here; ready = refl }))
      (λ x h. upsert-Opens u w (select_by_user u (view x).wallets) x h refl)
      (λ e x h. failed-Opens u w e x h)

Creates-IsSound : (u : Uuid) (s w : World) → Creates u s w → IsSound s.db → IsSound w.db
Creates-IsSound u s w (nothing t) h = Trace-IsSound t h
Creates-IsSound u s w (one i now t) h = Trace-IsSound t h

Opens-IsSound :
    (u : Uuid) (s : World) (r : Result Wallet) (w : World)
    → Opens u s r w
    → IsSound s.db
    → IsSound w.db
Opens-IsSound u s (ok v) w (_, _, _, c) h = Creates-IsSound u s w c h
Opens-IsSound u s (err e) w (_, c) h = Creates-IsSound u s w c h

-- From sound tables, and with no transaction open, a call of `create_wallet` leaves sound tables,
-- whatever its result, whatever fails and whatever other sessions commit meanwhile.
pub create_wallet-IsSound :
    (u : Uuid) (w : World) → w.pending ≡ [] → IsSound w.db → IsSound (create_wallet u w).1.db
create_wallet-IsSound u w idle h =
    let (r, x) = create_wallet u w in Opens-IsSound u w r x (create_wallet-Opens u w idle) h
