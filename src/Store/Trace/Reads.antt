-- ===== src/Store/Trace/Reads.antt =====
-- The reads of a body of Store.Deposit or Store.Transfer, and how a body ends: a replay has written
-- nothing, and a fresh run has exactly the writes of one commit pending.
use wallet_ledger.Base.{String, ◌≡◌, refl, true, false, Option, none, some, List, [], ◌∷◌, arith}
use wallet_ledger.Store.Schema.{Uuid, Wallet, Transaction}
use wallet_ledger.Store.Write.{Write, select_by_id, select_by_user, apply_all}
use wallet_ledger.Store.Commit.{Commit, writes}
use wallet_ledger.Store.Session.{Result, ok, err, World, view}
use wallet_ledger.Store.Query.{scan, wallet_by_user, wallet_by_id, row_by_key, find_by_key}
use wallet_ledger.Store.Money.{Receipt, rewrap}
use wallet_ledger.Store.Trace.{tx_of}
use wallet_ledger.Store.Trace.Rules.{Holds, Ends, statement-Ends, statement-cases, weaken-Ends}

-- A body's result at the tables that it leaves. `P` is what was asked of a commit, `R` of a replay.
pub data Ready (P : Commit → Type 0) (R : Transaction → Type 0) (u : Uuid) (k : String) (s : World)
    (res : Receipt) (w : World) : Type 0 where
  replay :
      res.replayed ≡ true
      → R res.tx
      → row_by_key u k w.db.transactions ≡ some res.tx
      → Holds s [] w
      → Ready P R u k s res w
  fresh :
      (c : Commit)
      → P c
      → tx_of c ≡ some res.tx
      → res.replayed ≡ false
      → Holds s (writes c) w
      → Ready P R u k s res w

pub select_by_user-user :
    (u : Uuid) (ws : List Wallet) (v : Wallet) → select_by_user u ws ≡ some v → v.user_id ≡ u
unfolding select_by_user
select_by_user-user u [] v h = cc
select_by_user-user u (w ∷ ws) v h = ground (arith, select_by_user-user u ws v)

pub select_by_id-id :
    (i : Uuid) (ws : List Wallet) (v : Wallet) → select_by_id i ws ≡ some v → v.id ≡ i
unfolding select_by_id
select_by_id-id i [] v h = cc
select_by_id-id i (w ∷ ws) v h = ground (arith, select_by_id-id i ws v)

module _ (s : World) where
  -- A scanned row is the row that was selected.
  pub scan-Ends :
      {A : Type 0} (o : Option A) (w : World) {ps : List Write}
      → Holds s ps w
      → Ends (λ a x. (o ≡ some a) × Holds s ps x) s (scan o w)
  unfolding scan
  scan-Ends none w h = h.trace
  scan-Ends (some a) w h = (refl, h)

  pub wrap-Ends :
      {A : Type 0} (Q : A → World → Type 0) (prefix : String) (x : Result A × World)
      → Ends Q s x
      → Ends Q s (rewrap prefix x.0, x.1)
  unfolding rewrap
  wrap-Ends Q prefix (ok a, w) h = h
  wrap-Ends Q prefix (err e, w) h = h

  pub wallet_by_user-Ends :
      (u : Uuid) (w : World)
      → Holds s [] w
      → Ends (λ v x. (v.user_id ≡ u) × Holds s [] x) s (wallet_by_user u w)
  unfolding wallet_by_user
  wallet_by_user-Ends u w h =
      statement-Ends (λ v x. (v.user_id ≡ u) × Holds s [] x) s
        (λ x. scan (select_by_user u (view x).wallets) x) w h
        (λ x k.
          let o = select_by_user u (view x).wallets in
          weaken-Ends (λ a y. (o ≡ some a) × Holds s [] y) (λ v y. (v.user_id ≡ u) × Holds s [] y) s
            (scan o x) (scan-Ends o x k)
            (λ a y p. (select_by_user-user u (view x).wallets a p.0, p.1)))

  pub wallet_by_id-Ends :
      (i : Uuid) (w : World)
      → Holds s [] w
      → Ends (λ v x. (v.id ≡ i) × Holds s [] x) s (wallet_by_id i w)
  unfolding wallet_by_id
  wallet_by_id-Ends i w h =
      statement-Ends (λ v x. (v.id ≡ i) × Holds s [] x) s
        (λ x. scan (select_by_id i (view x).wallets) x) w h
        (λ x k.
          let o = select_by_id i (view x).wallets in
          weaken-Ends (λ a y. (o ≡ some a) × Holds s [] y) (λ v y. (v.id ≡ i) × Holds s [] y) s
            (scan o x) (scan-Ends o x k) (λ a y p. (select_by_id-id i (view x).wallets a p.0, p.1)))

  -- The row of the key, as it stands in the committed tables.
  abbrev pub Found : Uuid → String → Result Transaction → World → Type 0
  Found u k (ok t) w = (row_by_key u k w.db.transactions ≡ some t) × Holds s [] w
  Found u k (err e) w = Holds s [] w

  scan-Found :
      (u : Uuid) (k : String) (o : Option Transaction) (w : World)
      → row_by_key u k w.db.transactions ≡ o
      → Holds s [] w
      → Found u k (scan o w).0 (scan o w).1
  unfolding scan
  scan-Found u k none w e h = h
  scan-Found u k (some t) w e h = (e, h)

  pub find_by_key-Found :
      (u : Uuid) (k : String) (w : World)
      → Holds s [] w
      → let (r, x) = find_by_key u k w in Found u k r x
  unfolding find_by_key view apply_all
  find_by_key-Found u k w h =
      statement-cases (Found u k) s (λ x. scan (row_by_key u k (view x).transactions) x) w h
        (λ x j. scan-Found u k (row_by_key u k (view x).transactions) x (rw j.pending refl) j)
        (λ e x j. j)
