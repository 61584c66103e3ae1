-- ===== src/Store/Money/Retry.antt =====
-- The errors that withRetries lets through, and the waits between its attempts.
use wallet_ledger.Base.{
  subst, &&-true, ◌==◌, ◌≤◌, ℕ, zero, suc, ◌+◌, ◌*◌, ◌^◌, ◌<◌, ◌≡◌, refl, inl, inr, Bool, true,
  false, ◌&&◌, arith, ltb, if◌then◌else◌, Bool-cases, str_eq, eq_iff, ◌≢◌,
}
use wallet_ledger.Base.Int.{pos, ltb_ℤ, leb_ℤ, eqb_ℤ, ◌≤ℤ◌, ◌<ℤ◌}
use wallet_ledger.Store.Schema.{Kind}
use wallet_ledger.Store.Session.{
  Error, not_found, insufficient_funds, same_wallet, currency_mismatch, idempotency_conflict,
  too_much_contention, version_conflict, db, pg, fault, context, other, panicked, Result, ok, err,
  Event, quiet, commits, fails, lost, World, M, after, begin_func, pop,
}
use wallet_ledger.Store.Money.{
  Receipt, retryable, backoff_limit, pause, wait, count_retry, retry, attempts, with_retries,
}

-- The error of a result is not retried.
abbrev NotRetried : {A : Type 0} → Result A → Type 0
NotRetried (ok a) = Unit {0}
NotRetried (err e) = retryable e ≡ false

pause-NotRetried : (e : Event) (w : World) → NotRetried (pause e w).0
unfolding pause retryable
pause-NotRetried quiet w = tt
pause-NotRetried (commits c) w = tt
pause-NotRetried (fails (fault (context c))) w = refl
pause-NotRetried (fails (fault (other m))) w = tt
pause-NotRetried (fails (pg c)) w = tt
pause-NotRetried (lost f) w = tt

wait-NotRetried : (n : ℕ) (w : World) → NotRetried (wait n w).0
unfolding wait retryable
wait-NotRetried n w = elim (Bool-cases (leb_ℤ (backoff_limit n) (pos 0))) [
  | inl y ↦ rw y refl
  | inr m ↦ rw m (pause-NotRetried (pop w).0 (pop w).1)
]

module _ (kind : Kind) (body : M Receipt) where
  next-NotRetried :
      (next : M Receipt) (x : Result (Unit {0})) (w : World)
      → NotRetried x
      → ((w : World) → NotRetried (next w).0)
      → NotRetried (after (λ _. next) x w).0
  next-NotRetried next (ok _) w h all = all w
  next-NotRetried next (err e) w h all = h

  retry-NotRetried :
      (n : ℕ) (next : M Receipt) (r : Result Receipt) (w : World)
      → ((w : World) → NotRetried (next w).0)
      → NotRetried (retry kind body n next r w).0
  unfolding retry
  retry-NotRetried n next (ok res) w all = tt
  retry-NotRetried n next (err e) w all = elim (Bool-cases (retryable e)) [
    | inl again ↦
        let x = wait n (count_retry kind w) in
        rw again (next-NotRetried next x.0 x.1 (wait-NotRetried n (count_retry kind w)) all)
    | inr final ↦ rw final final
  ]

  attempts-NotRetried : (left n : ℕ) (w : World) → NotRetried (attempts kind body left n w).0
  unfolding attempts retryable
  attempts-NotRetried zero n w = refl
  attempts-NotRetried (suc left) n w =
      let (r, x) = begin_func body w in
      retry-NotRetried n (attempts kind body left (n + 1)) r x (attempts-NotRetried left (n + 1))

-- A result that may leave withRetries: it is no version conflict and no unique violation.
abbrev pub IsFinal : Result Receipt → Type 0
IsFinal (ok a) = Unit {0}
IsFinal (err version_conflict) = ⊥
IsFinal (err (db (pg code))) = code ≢ "23505"
IsFinal (err _) = Unit {0}

NotRetried-IsFinal : (r : Result Receipt) → NotRetried r → IsFinal r
unfolding retryable
NotRetried-IsFinal (ok a) h = tt
NotRetried-IsFinal (err (not_found p)) h = tt
NotRetried-IsFinal (err insufficient_funds) h = tt
NotRetried-IsFinal (err same_wallet) h = tt
NotRetried-IsFinal (err currency_mismatch) h = tt
NotRetried-IsFinal (err idempotency_conflict) h = tt
NotRetried-IsFinal (err too_much_contention) h = tt
NotRetried-IsFinal (err version_conflict) h = absurd (cc)
NotRetried-IsFinal (err (db (pg code))) h =
    λ e. let y : str_eq code "23505" ≡ true = (eq_iff code "23505").1 e in cc
NotRetried-IsFinal (err (db (fault f))) h = tt
NotRetried-IsFinal (err panicked) h = tt

-- A version conflict and a unique violation never leave withRetries, whatever the transaction does.
pub with_retries-IsFinal :
    (max_retries : ℕ) (kind : Kind) (body : M Receipt) (w : World)
    → IsFinal (with_retries max_retries kind body w).0
unfolding with_retries
with_retries-IsFinal n kind body w =
    NotRetried-IsFinal (attempts kind body n 1 w).0 (attempts-NotRetried kind body n 1 w)

abbrev doubled : ℕ → ℕ
doubled n = if ltb (10000000 * 2 ^ n) 500000000 then 10000000 * 2 ^ n else 500000000

-- What `backoff_limit_lem` states, as a test.
abbrev good_limit : ℕ → Bool
good_limit n =
    eqb_ℤ (backoff_limit n) (pos (doubled n))
    && (ltb_ℤ (pos 0) (backoff_limit n) && leb_ℤ (backoff_limit n) (pos 500000000))

-- The limits of the first attempts, computed.
good_up_to : ℕ → Bool
good_up_to zero = good_limit 0
good_up_to (suc top) = good_limit (suc top) && good_up_to top

good_up_to_lem :
    (top attempt : ℕ) → attempt ≤ top → good_up_to top ≡ true → good_limit attempt ≡ true
unfolding good_up_to
good_up_to_lem zero attempt bound all =
    let first : 0 ≡ attempt = omega arith in subst (λ (m : ℕ). good_limit m ≡ true) first all
good_up_to_lem (suc top) attempt bound all = elim (Bool-cases (attempt == suc top)) [
  | inl y ↦
      let last : suc top ≡ attempt = ground (arith, y) in
      subst (λ (m : ℕ). good_limit m ≡ true) last
        (&&-true (good_limit (suc top)) (good_up_to top) all).0
  | inr n ↦
      good_up_to_lem top attempt (ground (arith, n))
        (&&-true (good_limit (suc top)) (good_up_to top) all).1
]

backoff_table : good_up_to 39 ≡ true
unfolding good_up_to backoff_limit
backoff_table = refl

good_limit_lem :
    (n : ℕ)
    → good_limit n ≡ true
    → (backoff_limit n ≡ pos (doubled n))
      × (pos 0 <ℤ backoff_limit n)
      × (backoff_limit n ≤ℤ pos 500000000)
good_limit_lem n h = (ground arith, ground arith, ground arith)

-- Up to attempt 39 the longest wait is ten milliseconds doubled once for each attempt, and half a
-- second at most; it is positive, so drawing a wait does not panic.
pub backoff_limit_lem :
    (attempt : ℕ)
    → attempt < 40
    → (backoff_limit attempt
        ≡ pos
            (if ltb (10000000 * 2 ^ attempt) 500000000 then 10000000 * 2 ^ attempt else 500000000))
      × (pos 0 <ℤ backoff_limit attempt)
      × (backoff_limit attempt ≤ℤ pos 500000000)
backoff_limit_lem n h = good_limit_lem n (good_up_to_lem 39 n (omega arith) backoff_table)

-- The shift overflows at attempt 40: whatever the transaction, an attempt 40 that fails with an error
-- that is retried ends in a panic, also where attempts are left.
pub attempt_40_panics :
    (kind : Kind) (body : M Receipt) (left : ℕ) (w w' : World) (e : Error)
    → begin_func body w ≡ (err e, w')
    → retryable e ≡ true
    → (attempts kind body (suc left) 40 w).0 ≡ err panicked
unfolding attempts retry wait backoff_limit
attempt_40_panics kind body left w w' e h again = rw (h, retry, again)
