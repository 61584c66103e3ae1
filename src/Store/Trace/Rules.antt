-- ===== src/Store/Trace/Rules.antt =====
-- Rules for the statements of a session: what it has pending, and how the committed tables move
-- meanwhile.
use wallet_ledger.Base.{
  ◌≡◌, refl, sym, ◌∙◌, inl, inr, true, false, Bool-cases, Option, none, some, List, [], ◌∷◌, ◌++◌,
  any, all-append, &&-intro, ◌==◌,
}
use wallet_ledger.Base.Int.{ℤ}
use wallet_ledger.Store.Schema.{Wallet, TxRow, OutboxRow, Db}
use wallet_ledger.Store.Write.{
  Write, update_balance, add_transaction, add_outbox, select_by_id, fits, fits_row, valid, conflict,
  all_valid, blocked,
}
use wallet_ledger.Store.Write.Stable.{valid-apply_all, all_valid-apply_all}
use wallet_ledger.Store.Commit.{Commit, writes, admissible, land}
use wallet_ledger.Store.Session.{
  Event, quiet, commits, fails, lost, DbError, Error, db, Result, ok, err, World, M, after,
  pop_from, land_unblocked, settle, arrive, run, statement, view,
}
use wallet_ledger.Store.Query.{push, apply_delta, update_row, insert_transaction, insert_outbox}
use wallet_ledger.Store.Trace.{Trace, skip, other}

-- Since `s` other sessions alone have moved the tables, and `ps` is pending and admissible.
pub record Holds (s : World) (ps : List Write) (w : World) : Type 0 where
  pub pending : w.pending ≡ ps
  pub trace : Trace s.events s.db [] w.events w.db
  pub ready : all_valid ps w.db ≡ true

land_unblocked-valid :
    (ps : List Write) (c : Commit) (d : Db)
    → all_valid ps d ≡ true
    → all_valid ps (land_unblocked ps c d) ≡ true
unfolding land_unblocked land
land_unblocked-valid ps c d h = elim (Bool-cases (blocked ps (writes c))) [
  | inl b ↦ rw b h
  | inr b ↦ elim (Bool-cases (admissible c d)) [
    | inl a ↦ rw (b, a) (all_valid-apply_all ps (writes c) d b h)
    | inr a ↦ rw (b, a) h
  ]
]

pub land_unblocked-Trace :
    {es es' : List Event} {d d' : Db} {own : List Commit} (ps : List Write) (c : Commit)
    → Trace es d own (commits c ∷ es') d'
    → Trace es d own es' (land_unblocked ps c d')
unfolding land_unblocked
land_unblocked-Trace {d' = d'} ps c t = elim (Bool-cases (blocked ps (writes c))) [
  | inl b ↦ rw b (skip (commits c) t)
  | inr b ↦ rw b (other c t)
]

module _ {s : World} {ps : List Write} where
  settle-Holds :
      (e : Event) (w : World)
      → w.pending ≡ ps
      → Trace s.events s.db [] (e ∷ w.events) w.db
      → all_valid ps w.db ≡ true
      → Holds s ps (settle e w).1
  unfolding settle
  settle-Holds quiet w p t r = record { pending = p; trace = skip quiet t; ready = r }
  settle-Holds (commits c) w p t r = record {
    pending = p;
    trace = land_unblocked-Trace w.pending c t;
    ready = rw p (land_unblocked-valid ps c w.db r);
  }
  settle-Holds (fails e) w p t r = record { pending = p; trace = skip (fails e) t; ready = r }
  settle-Holds (lost f) w p t r = record { pending = p; trace = skip (lost f) t; ready = r }

  arrive_from-Holds :
      (es : List Event) (w : World)
      → Holds s ps w
      → Trace s.events s.db [] es w.db
      → let (e, w') = pop_from es w in Holds s ps (settle e w').1
  unfolding pop_from settle
  arrive_from-Holds [] w h t = h
  arrive_from-Holds (e ∷ es) w h t = settle-Holds e (record w { events = es }) h.pending t h.ready

  -- Whatever happens before a statement.
  pub arrive-Holds : (w : World) → Holds s ps w → Holds s ps (arrive w).1
  unfolding arrive
  arrive-Holds w h = arrive_from-Holds w.events w h h.trace

module _ {A : Type 0} where
  -- How a part of a transaction ends: with a result that satisfies `Q`, or with an error and
  -- nothing of its own committed.
  abbrev pub Ends : (A → World → Type 0) → World → Result A × World → Type 0
  Ends Q s (ok a, w) = Q a w
  Ends Q s (err e, w) = Trace s.events s.db [] w.events w.db

module _ {A : Type 0} (Q : A → World → Type 0) (s : World) where
  run-Ends :
      (m : M A) (x : Option DbError) (w : World) {ps : List Write}
      → Holds s ps w
      → Ends Q s (m w)
      → Ends Q s (run m x w)
  unfolding run
  run-Ends m none w h k = k
  run-Ends m (some e) w h k = h.trace

  -- A statement is its effect at the tables that it finds.
  pub statement-Ends :
      (m : M A) {ps : List Write} (w : World)
      → Holds s ps w
      → ((w' : World) → Holds s ps w' → Ends Q s (m w'))
      → Ends Q s (statement m w)
  unfolding statement
  statement-Ends m w h k =
      let x = arrive w in let h' = arrive-Holds w h in run-Ends m x.0 x.1 h' (k x.1 h')

-- The same where the caller looks at the error: `Q` holds of every result.
module _ {A : Type 0} (Q : Result A → World → Type 0) (s : World) where
  run-cases :
      (m : M A) (x : Option DbError) (w : World)
      → Q (m w).0 (m w).1
      → ((e : Error) → Q (err e) w)
      → Q (run m x w).0 (run m x w).1
  unfolding run
  run-cases m none w h k = h
  run-cases m (some e) w h k = k (db e)

  pub statement-cases :
      (m : M A) {ps : List Write} (w : World)
      → Holds s ps w
      → ((w' : World) → Holds s ps w' → Q (m w').0 (m w').1)
      → ((e : Error) (w' : World) → Holds s ps w' → Q (err e) w')
      → let (r, w') = statement m w in Q r w'
  unfolding statement
  statement-cases m w h k j =
      let x = arrive w in
      let h' = arrive-Holds w h in run-cases m x.0 x.1 (k x.1 h') (λ e. j e x.1 h')

pub weaken-Ends :
    {A : Type 0} (P Q : A → World → Type 0) (s : World) (x : Result A × World)
    → Ends P s x
    → ((a : A) (w : World) → P a w → Q a w)
    → Ends Q s x
weaken-Ends P Q s (ok a, w) h k = k a w h
weaken-Ends P Q s (err e, w) h k = h

module _ {A B : Type 0} (P : A → World → Type 0) (Q : B → World → Type 0) (s : World)
    (f : A → M B) where
  pub after-Ends :
      (x : Result A × World)
      → Ends P s x
      → ((a : A) (w : World) → P a w → Ends Q s (f a w))
      → Ends Q s (after f x.0 x.1)
  after-Ends (ok a, w) h k = k a w h
  after-Ends (err e, w) h k = h

-- One more write that its constraints admit becomes pending.
pub push-Holds :
    {s : World} {ps : List Write} (v : Write) (w : World)
    → Holds s ps w
    → any (conflict v) ps ≡ false
    → valid v (view w) ≡ true
    → Holds s (ps ++ v ∷ []) (push v w)
unfolding push view all_valid
push-Holds {ps = ps} v w h free k = record {
  pending = rw h.pending refl;
  trace = h.trace;
  ready =
      all-append (λ x. valid x w.db) ps (v ∷ []) h.ready
        (&&-intro (valid v w.db) true (sym (valid-apply_all v ps w.db free) ∙ (rw h.pending at k))
          refl);
}

-- What is pending after a write.
abbrev pub Pushed : World → List Write → {A : Type 0} → Write → A → World → Type 0
Pushed s ps v _ w = Holds s (ps ++ v ∷ []) w

module _ {s : World} {ps : List Write} where
  update_row-Ends :
      (v : Wallet) (d : ℤ) (o : Option Wallet) (w : World)
      → Holds s ps w
      → any (conflict (update_balance v.id d)) ps ≡ false
      → fits_row d o ≡ valid (update_balance v.id d) (view w)
      → Ends (Pushed s ps (update_balance v.id d)) s (update_row v d o w)
  unfolding update_row fits_row
  update_row-Ends v d none w h free e = h.trace
  update_row-Ends v d (some r) w h free e = elim (Bool-cases (r.version == v.version)) [
    | inl same ↦ elim (Bool-cases (fits d r)) [
      | inl ok_row ↦
          rw (same, ok_row) (push-Holds (update_balance v.id d) w h free (sym e ∙ ok_row))
      | inr bad ↦ rw (same, bad) h.trace
    ]
    | inr stale ↦ rw stale h.trace
  ]

  pub apply_delta-Ends :
      (v : Wallet) (d : ℤ) (w : World)
      → Holds s ps w
      → any (conflict (update_balance v.id d)) ps ≡ false
      → Ends (Pushed s ps (update_balance v.id d)) s (apply_delta v d w)
  unfolding apply_delta
  apply_delta-Ends v d w h free =
      statement-Ends (Pushed s ps (update_balance v.id d)) s
        (λ x. update_row v d (select_by_id v.id (view x).wallets) x) w h
        (λ x k.
          update_row-Ends v d (select_by_id v.id (view x).wallets) x k free (unfold valid in refl))

  -- The row that was inserted is the one that comes back.
  pub insert_transaction-Ends :
      (r : TxRow) (w : World)
      → Holds s ps w
      → any (conflict (add_transaction r)) ps ≡ false
      → Ends
          (λ t x. (t ≡ r.tx) × Holds s (ps ++ add_transaction r ∷ []) x)
          s
          (insert_transaction r w)
  unfolding insert_transaction
  insert_transaction-Ends r w h free =
      statement-Ends (λ t x. (t ≡ r.tx) × Holds s (ps ++ add_transaction r ∷ []) x) s _ w h
        (λ x k. elim (Bool-cases (valid (add_transaction r) (view x))) [
          | inl good ↦ rw good (refl, push-Holds (add_transaction r) x k free good)
          | inr bad ↦ rw bad k.trace
        ])

  pub insert_outbox-Ends :
      (r : OutboxRow) (w : World)
      → Holds s ps w
      → any (conflict (add_outbox r)) ps ≡ false
      → Ends (Pushed s ps (add_outbox r)) s (insert_outbox r w)
  unfolding insert_outbox
  insert_outbox-Ends r w h free = statement-Ends (Pushed s ps (add_outbox r)) s _ w h (λ x k.
      elim (Bool-cases (valid (add_outbox r) (view x))) [
        | inl good ↦ rw good (push-Holds (add_outbox r) x k free good)
        | inr bad ↦ rw bad k.trace
      ])
