-- ===== src/Store/Invariant/Outbox.antt =====
-- Sound tables under the commits of services/wallet/outbox.go: sent rows are marked, and old ones deleted.
use mathlib.Core.List.{Permᴰ}
use mathlib.Core.List.Permᴰ
use wallet_ledger.Base.{
  ℕ, ◌≡◌, refl, ap, ap₂, subst, sym, inl, inr, Bool, true, not, List, [], ◌∷◌, ◌++◌, map, keep,
  arith, All, Bool-cases,
}
use wallet_ledger.Store.Schema.{OutboxRow, Db}
use wallet_ledger.Store.Write.{publish_at, expired, apply, apply_all}
use wallet_ledger.Store.Commit.{published, cleaned, writes}
use wallet_ledger.Store.Invariant.{IsSound, Entry, entry_of_payload, entry_of_tx, is_sent}

abbrev entries : List OutboxRow → List Entry
entries = map (λ r. entry_of_payload r.payload)

publish-entries :
    (ids : List ℕ) (at : ℕ) (os ds : List OutboxRow)
    → entries (map (publish_at ids at) os ++ ds) ≡ entries (os ++ ds)
publish-entries ids at [] ds = refl
publish-entries ids at (o ∷ os) ds =
    ap₂ ◌∷◌ (ap entry_of_payload (same o)) (publish-entries ids at os ds)
  where
    same : (o : OutboxRow) → (publish_at ids at o).payload ≡ o.payload
    same o = unfold publish_at in ground arith

pub published-IsSound :
    (ids : List ℕ) (at : ℕ) (d : Db) → IsSound d → IsSound (apply_all (writes (published ids at)) d)
unfolding writes apply_all apply
published-IsSound ids at d s = record {
  balances = s.balances;
  ids = s.ids;
  users = s.users;
  keys = s.keys;
  refs = s.refs;
  reconciled = s.reconciled;
  conserved = s.conserved;
  recorded =
      subst (λ l. Permᴰ l (map (λ r. entry_of_tx r) d.transactions))
        (sym (publish-entries ids at d.outbox d.deleted)) s.recorded;
  sent = s.sent;
}

-- A deletion moves rows, and loses none.
kept-perm :
    (p : OutboxRow → Bool) (os ds : List OutboxRow)
    → Permᴰ (keep (λ r. not (p r)) os ++ (keep p os ++ ds)) (os ++ ds)
kept-perm p [] ds = Permᴰ.refl ds
kept-perm p (o ∷ os) ds = elim (Bool-cases (p o)) [
  | inl y ↦ rw y (
      Permᴰ.trans (Permᴰ.middle o (keep (λ r. not (p r)) os) (keep p os ++ ds))
        (Permᴰ.cons refl (kept-perm p os ds)))
  | inr n ↦ rw n (Permᴰ.cons refl (kept-perm p os ds))
]

expired-is_sent : (hours now : ℕ) (r : OutboxRow) → expired hours now r ≡ true → is_sent r ≡ true
unfolding expired
expired-is_sent hours now r h = ground arith

deleted-sent :
    (hours now : ℕ) (os ds : List OutboxRow)
    → All (λ r. is_sent r ≡ true) ds
    → All (λ r. is_sent r ≡ true) (keep (expired hours now) os ++ ds)
deleted-sent hours now [] ds h = h
deleted-sent hours now (o ∷ os) ds h = elim (Bool-cases (expired hours now o)) [
  | inl y ↦ rw y (expired-is_sent hours now o y, deleted-sent hours now os ds h)
  | inr n ↦ rw n (deleted-sent hours now os ds h)
]

pub cleaned-IsSound :
    (hours now : ℕ) (d : Db) → IsSound d → IsSound (apply_all (writes (cleaned hours now)) d)
unfolding writes apply_all apply
cleaned-IsSound hours now d s = record {
  balances = s.balances;
  ids = s.ids;
  users = s.users;
  keys = s.keys;
  refs = s.refs;
  reconciled = s.reconciled;
  conserved = s.conserved;
  recorded =
      Permᴰ.trans
        (Permᴰ.map (λ r. entry_of_payload r.payload)
          (kept-perm (expired hours now) d.outbox d.deleted))
        s.recorded;
  sent = deleted-sent hours now d.outbox d.deleted s.sent;
}
