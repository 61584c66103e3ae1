-- ===== src/Gateway/RateLimit/Window.antt =====
-- How many requests one window of services/gateway/ratelimit.go lets through.
use wallet_ledger.Base.{
  ℕ, subst, ◌+◌, ◌-◌, ◌/◌, ◌%◌, ◌≤◌, ◌<◌, ◌≡◌, refl, sym, inl, inr, ◌⊎◌, Bool, true, false, ◌&&◌,
  Bool-cases, String, none, some, List, [], ◌∷◌, arith, ltb, eq_iff, if◌then◌else◌,
}
use wallet_ledger.Gateway.Http.{Limits, Response, write_json, write_error}
use wallet_ledger.Gateway.RateLimit.{
  Key, same, Redis, value, incr, Verdict, pass, limited, key_at, limits_at, judge, Link, up, down,
  unheard, limit,
}

-- A request under one of the limits of main.go: the bucket, who asks, when, and whether Redis answers.
pub record Request : Type 0 where
  pub bucket : String
  pub who : String
  pub link : Link
  pub now : ℕ

module _ (per_minute : String → ℕ) where
  abbrev pub step : Request → Redis → Verdict × Redis
  step r redis = limit r.bucket (per_minute r.bucket) r.who r.link r.now redis

  abbrev let_through : Verdict → ℕ
  let_through (pass _) = 1
  let_through (limited _) = 0

  abbrev answers : Link → Bool
  answers up = true
  answers _ = false

  -- 1 for a request under the key `k` that passes on Redis' word.
  abbrev counted : Key → Request → Verdict → ℕ
  counted k r v =
      if answers r.link && same k (key_at r.bucket r.who r.now) then let_through v else 0

  -- How many of the requests, one after the other, pass under the key `k` on Redis' word.
  unfoldable pub passed : Key → List Request → Redis → ℕ
  unfolding same key_at limit
  passed k [] redis = 0
  passed k (r ∷ rs) redis = let (v, redis') = step r redis in counted k r v + passed k rs redis'

  abbrev Counted : Key → ℕ → Redis → Type 0
  Counted k n redis = (t : ℕ) → t / 60 ≡ k.window → n ≤ value t (redis k)

  same_lem : (k j : Key) → same k j ≡ true → k ≡ j
  unfolding same
  same_lem k j e =
      let b : k.bucket ≡ j.bucket = ground (arith, e, eq_iff k.bucket j.bucket) in
      let w : k.who ≡ j.who = ground (arith, e, eq_iff k.who j.who) in
      let t : k.window ≡ j.window = ground (arith, e) in cc

  same_refl : (k : Key) → same k k ≡ true
  unfolding same
  same_refl k = ground (arith, eq_iff k.bucket k.bucket, eq_iff k.who k.who)

  incr-value :
      (k : Key) (t t' : ℕ) (redis : Redis)
      → t' < t + 70
      → value t' ((incr k t redis).1 k) ≡ value t (redis k) + 1
  unfolding incr value
  incr-value k t t' redis h = rw (same_refl k) (ground arith)

  incr-other :
      (k j : Key) (t : ℕ) (redis : Redis) → same k j ≡ false → (incr k t redis).1 j ≡ redis j
  unfolding incr
  incr-other k j t redis h = rw h refl

  -- One more request keeps a count `m` of those that passed below the limit, and below the counter.
  abbrev Keeps : Key → ℕ → Request → Verdict × Redis → Type 0
  Keeps k n r (v, redis') =
      (m : ℕ) × (m ≤ per_minute k.bucket) × Counted k m redis' × (counted k r v + n ≤ m)

  -- Within a window the counter is still there, one higher.
  counts :
      (k : Key) (t n : ℕ) (redis : Redis)
      → t / 60 ≡ k.window
      → Counted k n redis
      → Counted k (n + 1) (incr k t redis).1
  counts k t n redis here h t' e =
      let alive : t' < t + 70 = omega arith in
      rw (incr-value k t t' redis alive) (omega (arith, h t here))

  other-Counted :
      (k j : Key) (t n : ℕ) (redis : Redis)
      → same j k ≡ false
      → Counted k n redis
      → Counted k n (incr j t redis).1
  other-Counted k j t n redis e h t' f = rw (incr-other j k t redis e) (h t' f)

  fewer : (k : Key) (n : ℕ) (redis : Redis) → Counted k (n + 1) redis → Counted k n redis
  fewer k n redis h t e = omega (arith, h t e)

  -- The counter never falls.
  incr-Counted :
      (k j : Key) (t n : ℕ) (redis : Redis)
      → j.window ≡ t / 60
      → Counted k n redis
      → Counted k n (incr j t redis).1
  incr-Counted k j t n redis w h = elim (Bool-cases (same j k)) [
    | inl y ↦
        let e : j ≡ k = same_lem j k y in
        fewer k n (incr j t redis).1 (
          subst (λ (i : Key). Counted k (n + 1) (incr i t redis).1) (sym e)
            (counts k t n redis (cc) h))
    | inr m ↦ other-Counted k j t n redis m h
  ]

  -- A request under the key `k` itself, by what Redis counts.
  judge-Keeps :
      (k : Key) (t n c : ℕ) (redis : Redis)
      → n ≤ per_minute k.bucket
      → n < c
      → Counted k (n + 1) redis
      → (m : ℕ) × (m ≤ per_minute k.bucket)
        × Counted k m redis
        × (let_through (judge (per_minute k.bucket) t c) + n ≤ m)
  unfolding judge
  judge-Keeps k t n c redis lim less h = elim (Bool-cases (ltb (per_minute k.bucket) c)) [
    | inl y ↦ (n, lim, fewer k n redis h, rw y (omega arith))
    | inr m ↦ (n + 1, ground (arith, m, less), h, rw m (omega arith))
  ]

  up-Keeps :
      (b w : String) (t n : ℕ) (redis : Redis)
      → n ≤ per_minute b
      → Counted (key_at b w t) n redis
      → Keeps
          (key_at b w t)
          n
          (record { bucket = b; who = w; link = up; now = t })
          (limit b (per_minute b) w up t redis)
  unfolding limit key_at incr
  up-Keeps b w t n redis lim h =
      let k = key_at b w t in
      let (m, lim', h', le) =
        judge-Keeps k t n (incr k t redis).0 (incr k t redis).1 lim
          (let u : n ≤ value t (redis k) = h t refl in omega arith) (counts k t n redis refl h) in
      (m, lim', h', rw (same_refl k) le)

  step-Keeps :
      (k : Key) (b w : String) (l : Link) (t n : ℕ) (redis : Redis)
      → n ≤ per_minute k.bucket
      → Counted k n redis
      → Keeps k n
          (record { bucket = b; who = w; link = l; now = t })
          (limit b (per_minute b) w l t redis)
  unfolding limit key_at
  step-Keeps k b w down t n redis lim h = (n, lim, h, omega arith)
  step-Keeps k b w unheard t n redis lim h =
      (n, lim, incr-Counted k (key_at b w t) t n redis refl h, omega arith)
  step-Keeps k b w up t n redis lim h = elim (Bool-cases (same k (key_at b w t))) [
    | inl y ↦
        subst
          (λ (j : Key).
            n ≤ per_minute j.bucket
            → Counted j n redis
            → Keeps j n (record { bucket = b; who = w; link = up; now = t })
                (limit b (per_minute b) w up t redis))
          (sym (same_lem k (key_at b w t) y)) (up-Keeps b w t n redis) lim h
    | inr m ↦ (n, lim, incr-Counted k (key_at b w t) t n redis refl h, rw m (omega arith))
  ]

  passed-Counted :
      (k : Key) (n : ℕ) (rs : List Request) (redis : Redis)
      → n ≤ per_minute k.bucket
      → Counted k n redis
      → passed k rs redis + n ≤ per_minute k.bucket
  unfolding passed
  passed-Counted k n [] redis lim h = omega (arith, lim)
  passed-Counted k n (r ∷ rs) redis lim h =
      let (m, lim', h', le) = step-Keeps k r.bucket r.who r.link r.now n redis lim h in
      omega (arith, le, passed-Counted k m rs (step r redis).1 lim' h')

  -- Whatever requests arrive, in whatever order and under whatever keys, and whether or not Redis
  -- answers, one window lets at most the bucket's limit of requests pass on Redis' word for one caller.
  pub passed-limit :
      (k : Key) (rs : List Request) (redis : Redis) → passed k rs redis ≤ per_minute k.bucket
  passed-limit k rs redis =
      let u : passed k rs redis + 0 ≤ per_minute k.bucket =
        passed-Counted k 0 rs redis (omega arith) (λ t e. omega arith) in
      omega arith

-- A request that is refused gets 429, a wait to the end of the window, of 1 to 60 seconds, and
-- nothing remaining; a request that passes on the word of Redis gets the limit and what the count
-- leaves of it.
pub judge_lem :
    (per_minute now count : ℕ)
    → ((per_minute < count)
        × (r : Response) × (w : ℕ) × (judge per_minute now count ≡ limited r)
        × (r.status ≡ 429)
        × (r.limits ≡ some (record { limit = per_minute; remaining = 0; retry_after = some w }))
        × (1 ≤ w)
        × (w ≤ 60)
        × ((now + w) % 60 ≡ 0))
      ⊎ ((h : Limits) × (judge per_minute now count ≡ pass (some h))
          × (h.limit ≡ per_minute)
          × (h.remaining + count ≡ per_minute)
          × (h.retry_after ≡ none))
unfolding judge limits_at write_error write_json
judge_lem per_minute now count = elim (Bool-cases (ltb per_minute count)) [
  | inl y ↦
      let none_left : per_minute - count ≡ 0 = ground (arith, y) in
      inl (
        ground (arith, y),
        record (write_error 429 "rate limit exceeded") {
          limits = some (limits_at per_minute count (some (60 - now % 60)));
        },
        60 - now % 60,
        rw y refl,
        refl,
        rw none_left refl,
        omega arith,
        omega arith,
        omega arith,
      )
  | inr n ↦ inr (limits_at per_minute count none, rw n refl, refl, ground (arith, n), refl)
]
