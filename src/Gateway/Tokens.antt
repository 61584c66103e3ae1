-- ===== src/Gateway/Tokens.antt =====
-- The tokens of services/gateway/auth.go. The JWT library signs and parses: a parameter. Times and
-- durations are in nanoseconds, the dates in a token in seconds.
pub mod Session
use wallet_ledger.Base.{
  ℕ, ◌+◌, ◌*◌, ◌/◌, String, Bool, true, false, ◌&&◌, Option, none, some, List, [], ◌∷◌, ltb, str_eq,
  if◌then◌else◌, any,
}
use wallet_ledger.Gateway.Api.{Bytes}

-- jwt.RegisteredClaims, as far as the gateway sets and reads them.
pub record Claims : Type 0 where
  pub subject : String
  pub issued_at : ℕ
  pub expires_at : Option ℕ

-- github.com/golang-jwt/jwt: SignedString by method, claims and secret; and ParseWithClaims by the
-- accepted methods, whether an expiry is required, the secret, the time and the token.
pub record Jwt : Type 0 where
  pub signed_string : String → Claims → String → Option String
  pub parse_with_claims : List String → Bool → String → ℕ → Bytes → Option Claims

pub record TokenIssuer : Type 0 where
  pub secret : String
  pub ttl : ℕ

-- jwt.NewNumericDate, and time.Duration.Seconds as int
unfoldable pub seconds : ℕ → ℕ
seconds t = t / 1000000000

unfoldable pub claims_for : TokenIssuer → String → ℕ → Claims
unfolding seconds
claims_for t user_id now = record {
  subject = user_id;
  issued_at = seconds now;
  expires_at = some (seconds (now + t.ttl));
}

-- A token without a subject is no token.
unfoldable pub subject_of : Option Claims → Option String
subject_of none = none
subject_of (some c) = if str_eq c.subject "" then none else some c.subject

module _ (jwt : Jwt) (t : TokenIssuer) where
  -- tokenIssuer.issue
  unfoldable pub issue : String → ℕ → Option String
  unfolding claims_for
  issue user_id now = jwt.signed_string "HS256" (claims_for t user_id now) t.secret

  -- tokenIssuer.verify
  unfoldable pub verify : ℕ → Bytes → Option String
  unfolding subject_of
  verify now token = subject_of (jwt.parse_with_claims ("HS256" ∷ []) true t.secret now token)
