-- ===== src/Store/Trace/Retries.antt =====
-- The loop of withRetries in services/wallet/store.go, attempt by attempt.
use wallet_ledger.Base.{
  ℕ, zero, suc, ◌+◌, String, ◌≡◌, refl, ◌∙◌, inl, inr, true, Bool-cases, some, List, [], ◌∷◌,
}
use wallet_ledger.Base.Int.{pos, leb_ℤ}
use wallet_ledger.Store.Schema.{Uuid, Transaction, Kind, TxRow, Db}
use wallet_ledger.Store.Write.{same_key}
use wallet_ledger.Store.Commit.{Commit}
use wallet_ledger.Store.Session.{
  Event, quiet, commits, fails, lost, fault, context, other, pg, Error, Result, ok, err, World, M,
  after, pop, pop_from, begin_func,
}
use wallet_ledger.Store.Money.{
  Receipt, retryable, backoff_limit, pause, wait, count_retry, retry, attempts,
}
use wallet_ledger.Store.Trace.{Trace, here, skip, other as others, row_of}
use wallet_ledger.Store.Trace.Rules.{Holds, Ends}
use wallet_ledger.Store.Trace.Reads.{Ready}
use wallet_ledger.Store.Trace.Outcome.{Settled, nothing, unheard, Settled-after, begin_func-Settled}

pub pause-Trace :
    {es : List Event} {d : Db} {own : List Commit} (e : Event) (w : World)
    → Trace es d own (e ∷ w.events) w.db
    → let w' = (pause e w).1 in (w'.pending ≡ w.pending) × Trace es d own w'.events w'.db
unfolding pause
pause-Trace quiet w t = (refl, skip quiet t)
pause-Trace (commits c) w t = (refl, others c t)
pause-Trace (fails (fault (context c))) w t = (refl, skip _ t)
pause-Trace (fails (fault (other m))) w t = (refl, skip _ t)
pause-Trace (fails (pg c)) w t = (refl, skip _ t)
pause-Trace (lost f) w t = (refl, skip _ t)

pop_pause-Trace :
    {es₀ : List Event} {d : Db} {own : List Commit} (es : List Event) (w : World)
    → Trace es₀ d own es w.db
    → Trace es₀ d own w.events w.db
    → let (e, x) = pop_from es w in
      let w' = (pause e x).1 in (w'.pending ≡ w.pending) × Trace es₀ d own w'.events w'.db
unfolding pop_from pause
pop_pause-Trace [] w t h = (refl, h)
pop_pause-Trace (e ∷ es) w t h = pause-Trace e (record w { events = es }) t

-- Waiting moves the tables by commits of other sessions only.
wait-Trace :
    {es : List Event} {d : Db} (n : ℕ) (w : World)
    → Trace es d [] w.events w.db
    → let w' = (wait n w).1 in (w'.pending ≡ w.pending) × Trace es d [] w'.events w'.db
unfolding wait pop
wait-Trace n w t = elim (Bool-cases (leb_ℤ (backoff_limit n) (pos 0))) [
  | inl panics ↦ rw panics (refl, t)
  | inr waits ↦ rw waits (pop_pause-Trace w.events w t t)
]

module _ (P : Commit → Type 0) (R : Transaction → Type 0) (u : Uuid) (k : String)
    (keyed : (c : Commit) → P c → (r : TxRow) × (row_of c ≡ some r) × (same_key u k r ≡ true))
    (kind : Kind) (body : M Receipt)
    (body-Ends : (s w : World) → Holds s [] w → Ends (Ready P R u k s) s (body w)) where
  -- After an error that is retried nothing of the call is committed.
  retried-Trace :
      (s : World) (e : Error) (w : World)
      → retryable e ≡ true
      → Settled P R u k s (err e) w
      → (w.pending ≡ []) × Trace s.events s.db [] w.events w.db
  unfolding retryable
  retried-Trace s e w yes_retry (p, nothing t) = (p, t)
  retried-Trace s e w yes_retry (p, unheard c f a x t) = cc

  next-Settled :
      (next : M Receipt) (s : World) (x : Result (Unit {0}) × World)
      → x.1.pending ≡ []
      → Trace s.events s.db [] x.1.events x.1.db
      → ((w : World) → w.pending ≡ [] → let (r, w') = next w in Settled P R u k w r w')
      → let (r, w') = after (λ _. next) x.0 x.1 in Settled P R u k s r w'
  next-Settled next s (ok _, w) p t h =
      let (r, w') = next w in Settled-after P R u k s w r w' t (h w p)
  next-Settled next s (err e, w) p t h = (p, nothing t)

  retry-Settled :
      (n : ℕ) (next : M Receipt) (s : World) (r : Result Receipt) (w : World)
      → Settled P R u k s r w
      → ((w : World) → w.pending ≡ [] → let (r, w') = next w in Settled P R u k w r w')
      → let (r', w') = retry kind body n next r w in Settled P R u k s r' w'
  unfolding retry count_retry
  retry-Settled n next s (ok res) w h all = h
  retry-Settled n next s (err e) w h all = elim (Bool-cases (retryable e)) [
    | inl again ↦
        let (p, t) = retried-Trace s e w again h in
        let w' = count_retry kind w in
        let (q, t') = wait-Trace n w' t in rw again (next-Settled next s (wait n w') (q ∙ p) t' all)
    | inr final ↦ rw final h
  ]

  -- Whatever the attempts that are left, the call commits at most once, and answers what it committed.
  pub attempts-Settled :
      (left n : ℕ) (w : World)
      → w.pending ≡ []
      → let (r, w') = attempts kind body left n w in Settled P R u k w r w'
  unfolding attempts
  attempts-Settled zero n w idle = (idle, nothing here)
  attempts-Settled (suc left) n w idle =
      let (r, x) = begin_func body w in
      retry-Settled n (attempts kind body left (n + 1)) w r x
        (begin_func-Settled P R u k keyed body body-Ends w idle) (attempts-Settled left (n + 1))
