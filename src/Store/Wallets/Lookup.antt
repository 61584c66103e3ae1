-- ===== src/Store/Wallets/Lookup.antt =====
-- Who sees a transaction: Store.GetTransaction of services/wallet/store.go.
use wallet_ledger.Base.{
  ◌≡◌, refl, inl, inr, Bool, true, ◌&&◌, Bool-cases, &&-true, Option, none, some, List, [], ap, ◌∷◌,
  In, any, arith, ◌==◌, ==_iff, subst,
}
use wallet_ledger.Store.Schema.{Uuid, Wallet, Transaction, TxRow, Db}
use wallet_ledger.Store.Session.{
  DbError, Result, ok, err, World, Event, quiet, commits, fails, lost, arrive, run, statement, view,
  opened, pop, commit, finish,
}
use wallet_ledger.Store.Query.{scan, pooled}
use wallet_ledger.Store.Wallets.{touches, row_by_id, get_transaction}

-- The transaction of this id has a wallet of the user on one of its sides.
abbrev pub IsVisible : Uuid → Uuid → List Wallet → List TxRow → Transaction → Type 0
IsVisible u i ws rs t =
    (t.id ≡ i)
    × ((r : TxRow) × In r rs × (r.tx ≡ t))
    × ((v : Wallet) × In v ws × (v.user_id ≡ u) × (touches v.id t ≡ true))

any-In :
    (p : Wallet → Bool) (ws : List Wallet) → any p ws ≡ true → (v : Wallet) × In v ws × (p v ≡ true)
any-In p [] h = cc
any-In p (w ∷ ws) h = elim (Bool-cases (p w)) [
  | inl y ↦ (w, inl refl, y)
  | inr n ↦ let (v, there, e) = any-In p ws (rw n at h) in (v, inr there, e)
]

row_by_id-IsVisible :
    (u i : Uuid) (ws : List Wallet) (rs : List TxRow) (t : Transaction)
    → row_by_id u i ws rs ≡ some t
    → IsVisible u i ws rs t
unfolding row_by_id
row_by_id-IsVisible u i ws [] t h = cc
row_by_id-IsVisible u i ws (r ∷ rs) t h =
    let test = r.tx.id == i && any (λ v. v.user_id == u && touches v.id r.tx) ws in
    elim (Bool-cases test) [
      | inl y ↦
          let e : r.tx ≡ t = ground (arith, y, h) in
          let (same, found) =
            &&-true (r.tx.id == i) (any (λ v. v.user_id == u && touches v.id r.tx) ws) y in
          let (v, there, k) = any-In (λ v. v.user_id == u && touches v.id r.tx) ws found in
          let (mine, side) = &&-true (v.user_id == u) (touches v.id r.tx) k in
          subst (λ (x : Transaction). IsVisible u i ws (r ∷ rs) x) e
            (
              (==_iff r.tx.id i).0 same,
              (r, inl refl, refl),
              (v, there, (==_iff v.user_id u).0 mine, side),
            )
      | inr n ↦
          let (same, (q, there, e), seen) = row_by_id-IsVisible u i ws rs t (rw n at h) in
          (same, (q, inr there, e), seen)
    ]

commit_ok : {A : Type 0} (x a : A) (e : Event) (w : World) → (commit x e w).0 ≡ ok a → x ≡ a
unfolding commit
commit_ok x a quiet w h = cc
commit_ok x a (commits c) w h = cc
commit_ok x a (fails e) w h = cc
commit_ok x a (lost f) w h = cc

finish_ok : {A : Type 0} (r : Result A) (w : World) (a : A) → (finish r w).0 ≡ ok a → r ≡ ok a
unfolding finish
finish_ok (err e) w a h = cc
finish_ok (ok x) w a h = ap ok (commit_ok x a (pop w).0 (pop w).1 h)

scan_ok : (o : Option Transaction) (w : World) (t : Transaction) → (scan o w).0 ≡ ok t → o ≡ some t
unfolding scan
scan_ok none w t h = cc
scan_ok (some x) w t h = cc

run_ok :
    (u i : Uuid) (failure : Option DbError) (w : World) (t : Transaction)
    → (run (λ y. scan (row_by_id u i (view y).wallets (view y).transactions) y) failure w).0 ≡ ok t
    → row_by_id u i (view w).wallets (view w).transactions ≡ some t
unfolding run
run_ok u i none w t h = scan_ok (row_by_id u i (view w).wallets (view w).transactions) w t h
run_ok u i (some e) w t h = cc

-- The tables that the statement of a query on the pool sees.
abbrev pub seen_by : World → Db
seen_by w = view (arrive (opened w)).1

-- A lookup of a transaction that succeeds, whatever other sessions do meanwhile, answers with a
-- transaction of that id that stands in the tables that its statement sees, and of which a wallet of
-- the user is the one side or the other.
pub get_transaction-IsVisible :
    (u i : Uuid) (w : World) (t : Transaction)
    → (get_transaction u i w).0 ≡ ok t
    → IsVisible u i (seen_by w).wallets (seen_by w).transactions t
unfolding get_transaction pooled statement
get_transaction-IsVisible u i w t h =
    let x = arrive (opened w) in
    let query = λ (y : World). scan (row_by_id u i (view y).wallets (view y).transactions) y in
    let r = run query x.0 x.1 in
    row_by_id-IsVisible u i (view x.1).wallets (view x.1).transactions t
      (run_ok u i x.0 x.1 t (finish_ok r.0 r.1 t h))
