-- ===== src/Gateway/RateLimit.antt =====
-- The fixed-window rate limit of services/gateway/ratelimit.go. Redis counts by key and forgets a key
-- 70 seconds after its last increment. Times are in seconds.
pub mod Window
use wallet_ledger.Base.{
  ℕ, ◌+◌, ◌-◌, ◌/◌, ◌%◌, String, Bool, true, false, ◌&&◌, Option, none, some, List, [], ◌∷◌, ltb,
  ◌==◌, str_eq, if◌then◌else◌,
}
use wallet_ledger.Gateway.Http.{Limits, Response, error, write_error}

-- rl:<bucket>:<who>:<window>
pub record Key : Type 0 where
  pub bucket : String
  pub who : String
  pub window : ℕ

unfoldable pub same : Key → Key → Bool
same k j = str_eq k.bucket j.bucket && (str_eq k.who j.who && k.window == j.window)

pub record Counter : Type 0 where
  pub count : ℕ
  pub expires : ℕ

abbrev pub Redis : Type 0
Redis = Key → Option Counter

-- The value of a key that has not expired; a missing key counts from 0.
unfoldable pub value : ℕ → Option Counter → ℕ
value now none = 0
value now (some c) = if ltb now c.expires then c.count else 0

-- INCR and EXPIRE 70 in one transaction: the new value, and the store.
unfoldable pub incr : Key → ℕ → Redis → ℕ × Redis
unfolding same value
incr k now redis =
    let n = value now (redis k) + 1 in
    (n, λ j. if same k j then some (record { count = n; expires = now + 70 }) else redis j)

-- What becomes of a request.
pub data Verdict : Type 0 where
  pass : Option Limits → Verdict
  limited : Response → Verdict

unfoldable pub key_at : String → String → ℕ → Key
key_at bucket who now = record { bucket = bucket; who = who; window = now / 60 }

-- max(0, perMinute-count)
unfoldable pub limits_at : ℕ → ℕ → Option ℕ → Limits
limits_at per_minute count retry_after = record {
  limit = per_minute;
  remaining = per_minute - count;
  retry_after = retry_after;
}

unfoldable pub judge : ℕ → ℕ → ℕ → Verdict
unfolding limits_at write_error
judge per_minute now count =
    if ltb per_minute count
    then limited (record (write_error 429 "rate limit exceeded") {
      limits = some (limits_at per_minute count (some (60 - now % 60)));
    })
    else pass (some (limits_at per_minute count none))

-- What becomes of the pipeline within its 200 ms: it runs, it does not, or it runs and no answer comes.
pub data Link : Type 0 where
  up : Link
  down : Link
  unheard : Link

-- rateLimiter.limit: a request passes where Redis does not answer.
unfoldable pub limit : String → ℕ → String → Link → ℕ → Redis → Verdict × Redis
unfolding incr key_at judge
limit bucket per_minute who up now redis =
    let (n, redis') = incr (key_at bucket who now) now redis in (judge per_minute now n, redis')
limit bucket per_minute who down now redis = (pass none, redis)
limit bucket per_minute who unheard now redis =
    (pass none, (incr (key_at bucket who now) now redis).1)
