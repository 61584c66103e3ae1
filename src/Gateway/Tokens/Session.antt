-- ===== src/Gateway/Tokens/Session.antt =====
-- From login to requireAuth: what a token of services/gateway/auth.go is worth, and until when.
use Prim.Native.Char.{code}
use Prim.Native.String.{[] as no_text, ◌∷◌ as text_cons}
use wallet_ledger.Base.{
  ℕ, ◌+◌, ◌*◌, ◌<◌, ◌≡◌, ◌≢◌, refl, inl, inr, String, Bool, true, false, ◌&&◌, Bool-cases, Option,
  none, some, List, [], ◌∷◌, ◌++◌, arith, ltb, str_eq, eq_iff, if◌then◌else◌, any,
}
use wallet_ledger.Gateway.Http.{token as token_body, write_json}
use wallet_ledger.Gateway.Api.{
  Bytes, bytes_eq, bearer, cut, is_empty, Handler, with_token, require_auth, WalletClient,
}
use wallet_ledger.Gateway.Accounts.{User, Accounts, Credentials, login, with_user, token_response}
use wallet_ledger.Gateway.Accounts.Login.{Knows}
use wallet_ledger.Gateway.Tokens.{
  Claims, Jwt, TokenIssuer, seconds, claims_for, subject_of, issue, verify,
}

-- The bytes of an ASCII text.
unfoldable pub codes : String → Bytes
codes no_text = []
codes (text_cons c s) = code c ∷ codes s

-- A token whose expiry has not come.
unfoldable pub fresh : Bool → ℕ → Option ℕ → Bool
fresh required now none = if required then false else true
fresh required now (some e) = ltb now (e * 1000000000)

-- What the library documents: a text that it signed is not empty, and it parses, under the same secret,
-- to the claims that were signed if its method is accepted and its expiry has not come, to nothing
-- otherwise.
pub record IsJwt (jwt : Jwt) : Type 0 where
  pub non_empty :
      (method : String) (c : Claims) (secret text : String)
      → jwt.signed_string method c secret ≡ some text
      → is_empty (codes text) ≡ false
  pub parses :
      (method : String) (c : Claims) (secret text : String) (methods : List String)
      (required : Bool) (now : ℕ)
      → jwt.signed_string method c secret ≡ some text
      → jwt.parse_with_claims methods required secret now (codes text) ≡ (
          if any (λ m. str_eq m method) methods && fresh required now c.expires_at
          then some c
          else none)

module _ (jwt : Jwt) (laws : IsJwt jwt) (t : TokenIssuer) where
  -- A token that was issued is verified as its subject before its expiry, in whole seconds, and as
  -- nothing from then on.
  pub issue-verify :
      (user_id : String) (now : ℕ) (text : String) (later : ℕ)
      → user_id ≢ ""
      → issue jwt t user_id now ≡ some text
      → verify jwt t later (codes text)
        ≡ (if ltb later (seconds (now + t.ttl) * 1000000000) then some user_id else none)
  unfolding issue verify claims_for fresh
  issue-verify user_id now text later named e =
      let c = claims_for t user_id now in
      let p = laws.parses "HS256" c t.secret text ("HS256" ∷ []) true later e in
      let no_name : str_eq user_id "" ≡ false = ground (arith, eq_iff user_id "", named) in
      elim (Bool-cases (ltb later (seconds (now + t.ttl) * 1000000000))) [
        | inl y ↦ rw (p, y, no_name, subject_of) refl
        | inr n ↦ rw (p, n, subject_of) refl
      ]

  module _ {G : Type 0} (client : WalletClient G) (normal : String → String)
      (is_address : String → Bool) (hash : String → Option String)
      (check : String → String → Bool) where
    -- A login whose query works, with the password of a user who has an id, answers 200 with the token
    -- that is issued and its lifetime in seconds, and until the expiry of the token, in whole seconds,
    -- requireAuth runs a handler for that user on a request that bears it.
    pub login-require_auth :
        {H : Type 0} (c : Credentials) (a : Accounts G) (u : User) (now later : ℕ) (text : String)
        (next : String → Handler H) (h : H)
        → Knows client normal is_address hash check (λ id. issue jwt t id now) (seconds t.ttl) c a u
        → u.id ≢ ""
        → issue jwt t u.id now ≡ some text
        → later < seconds (now + t.ttl) * 1000000000
        → (login client normal is_address hash check
              (λ id. issue jwt t id now)
              (seconds t.ttl)
              (some c)
              none
              a
            ≡ write_json 200 (token_body text (seconds t.ttl)))
          × (require_auth (verify jwt t later) (bearer ++ (b' ' ∷ codes text)) next h ≡ next u.id h)
    unfolding login with_user token_response require_auth cut bytes_eq with_token
    login-require_auth c a u now later text next h (found, accepted) named issued early =
        let still : ltb later (seconds (now + t.ttl) * 1000000000) ≡ true = ground (arith, early) in
        let verified : verify jwt t later (codes text) ≡ some u.id =
          rw (issue-verify u.id now text later named issued, still) refl in
        let full =
          laws.non_empty "HS256" (claims_for t u.id now) t.secret text (unfold issue in issued) in
        (rw (found, accepted, issued) refl, rw (full, verified, with_token) refl)
