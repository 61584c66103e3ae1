-- ===== src/Store/Write/Stable.antt =====
-- The constraints of a write, while other transactions commit writes that do not conflict with it.
use wallet_ledger.Base.{
  ◌≡◌, refl, ◌∙◌, ap, Bool, true, false, not, ◌&&◌, List, [], ◌∷◌, ◌++◌, map, keep, arith, ℕ, ◌==◌,
  all, any, &&-true, &&-intro, ||-false,
}
use wallet_ledger.Base.Int.{ℤ}
use wallet_ledger.Store.Schema.{Uuid, Wallet, OutboxRow, Db}
use wallet_ledger.Store.Write.{
  Write, add_wallet, update_balance, add_transaction, add_outbox, mark_published, delete_sent,
  select_by_id, bump_at, fits_row, bump, publish_at, expired, apply, valid, conflict, apply_all,
  all_valid, blocked,
}

-- An update keeps the ids and the owners of the rows.
pub all_id-bump_at :
    (j i : Uuid) (d : ℤ) (ws : List Wallet)
    → all (λ x. not (x.id == j)) (map (bump_at i d) ws) ≡ all (λ x. not (x.id == j)) ws
unfolding bump_at bump
all_id-bump_at j i d [] = refl
all_id-bump_at j i d (w ∷ ws) = ground (arith, all_id-bump_at j i d ws)

pub all_user-bump_at :
    (j i : Uuid) (d : ℤ) (ws : List Wallet)
    → all (λ x. not (x.user_id == j)) (map (bump_at i d) ws) ≡ all (λ x. not (x.user_id == j)) ws
unfolding bump_at bump
all_user-bump_at j i d [] = refl
all_user-bump_at j i d (w ∷ ws) = ground (arith, all_user-bump_at j i d ws)

-- An update of another row leaves a row alone.
pub select_by_id-bump_at_ne :
    (i j : Uuid) (d : ℤ) (ws : List Wallet)
    → (j == i) ≡ false
    → select_by_id i (map (bump_at j d) ws) ≡ select_by_id i ws
unfolding select_by_id bump_at bump
select_by_id-bump_at_ne i j d [] h = refl
select_by_id-bump_at_ne i j d (w ∷ ws) h = ground (arith, select_by_id-bump_at_ne i j d ws h)

pub all_id-publish_at :
    (j : ℕ) (ids : List ℕ) (at : ℕ) (rs : List OutboxRow)
    → all (λ x. not (x.id == j)) (map (publish_at ids at) rs) ≡ all (λ x. not (x.id == j)) rs
unfolding publish_at
all_id-publish_at j ids at [] = refl
all_id-publish_at j ids at (r ∷ rs) = ground (arith, all_id-publish_at j ids at rs)

all-expired :
    (q p : OutboxRow → Bool) (os ds : List OutboxRow)
    → (all q (keep (λ r. not (p r)) os) && all q (keep p os ++ ds)) ≡ (all q os && all q ds)
all-expired q p [] ds = refl
all-expired q p (o ∷ os) ds = ground (arith, all-expired q p os ds)

-- A write without conflict with another is admitted after it exactly when it is before it.
pub valid-apply : (w v : Write) (db : Db) → conflict w v ≡ false → valid w (apply v db) ≡ valid w db
unfolding valid apply conflict fits_row
valid-apply (add_wallet w) (add_wallet v) db h = ground arith
valid-apply (add_wallet w) (update_balance i d) db h =
    rw (all_id-bump_at w.id i d db.wallets, all_user-bump_at w.user_id i d db.wallets)
valid-apply (update_balance i d) (add_wallet v) db h = unfold select_by_id in ground arith
valid-apply (update_balance i d) (update_balance j e) db h =
    ap (fits_row d) (select_by_id-bump_at_ne i j e db.wallets h)
valid-apply (add_transaction t) (add_transaction s) db h = ground arith
valid-apply (add_outbox r) (add_outbox q) db h = ground arith
valid-apply (add_outbox r) (mark_published ids at) db h =
    ap (λ b. b && all (λ x. not (x.id == r.id)) db.deleted)
      (all_id-publish_at r.id ids at db.outbox)
valid-apply (add_outbox r) (delete_sent hours now) db h =
    all-expired (λ x. not (x.id == r.id)) (expired hours now) db.outbox db.deleted
valid-apply _ _ db h = refl

pub valid-apply_all :
    (w : Write) (vs : List Write) (db : Db)
    → any (conflict w) vs ≡ false
    → valid w (apply_all vs db) ≡ valid w db
unfolding apply_all
valid-apply_all w [] db h = refl
valid-apply_all w (v ∷ vs) db h =
    let s = ||-false (conflict w v) (any (conflict w) vs) h in
    valid-apply_all w vs (apply v db) s.1 ∙ valid-apply w v db s.0

-- Pending writes stay admissible while unblocked commits land.
pub all_valid-apply_all :
    (ps vs : List Write) (db : Db)
    → blocked ps vs ≡ false
    → all_valid ps db ≡ true
    → all_valid ps (apply_all vs db) ≡ true
unfolding all_valid blocked
all_valid-apply_all [] vs db h k = refl
all_valid-apply_all (p ∷ ps) vs db h k =
    let s = ||-false (any (conflict p) vs) (blocked ps vs) h in
    let t = &&-true (valid p db) (all_valid ps db) k in
    &&-intro (valid p (apply_all vs db)) (all_valid ps (apply_all vs db))
      (valid-apply_all p vs db s.0 ∙ t.0) (all_valid-apply_all ps vs db s.1 t.1)
