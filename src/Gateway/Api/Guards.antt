-- ===== src/Gateway/Api/Guards.antt =====
-- What the handlers of services/gateway/handlers.go refuse before any call of the wallet service.
use wallet_ledger.Base.{
  ◌≡◌, refl, ◌∙◌, ap, inl, inr, ◌⊎◌, true, false, not, ◌||◌, Bool-cases, String, Option, none, some,
  Option-cases, [], ◌∷◌, ◌++◌, arith, ◌==◌,
}
use wallet_ledger.Gateway.Http.{Response, write_json, write_error}
use wallet_ledger.Gateway.Api.{
  Bytes, bytes_eq, cut, bearer, is_empty, Handler, with_token, require_auth,
}

bytes_eq_lem : (xs ys : Bytes) → bytes_eq xs ys ≡ true → xs ≡ ys
unfolding bytes_eq
bytes_eq_lem [] [] e = refl
bytes_eq_lem [] (y ∷ ys) e = cc
bytes_eq_lem (x ∷ xs) [] e = cc
bytes_eq_lem (x ∷ xs) (y ∷ ys) e =
    let head : x ≡ y = ground (arith, e) in
    let tail : xs ≡ ys = bytes_eq_lem xs ys (ground (arith, e)) in cc

-- What `cut` splits is the text with its first space between.
cut_lem : (cs before after : Bytes) → cut cs ≡ some (before, after) → cs ≡ before ++ (b' ' ∷ after)
unfolding cut
cut_lem [] before after e = cc
cut_lem (c ∷ cs) before after e = elim (Bool-cases (c == b' ')) [
  | inl y ↦
      let c_is : c ≡ b' ' = ground (arith, y) in
      let start : Option (Bytes × Bytes) = some ([], cs) in
      let here : start ≡ some (before, after) = rw y at e in
      let first : before ≡ [] = cc in let rest : after ≡ cs = cc in rw (first, rest, c_is) refl
  | inr n ↦ elim (Option-cases (cut cs)) [
    | inl f ↦
        let gone : Option (Bytes × Bytes) = none in
        let here : gone ≡ some (before, after) = rw (n, f) at e in cc
    | inr ((b, a), f) ↦
        let start : Option (Bytes × Bytes) = some (c ∷ b, a) in
        let here : start ≡ some (before, after) = rw (n, f) at e in
        let first : before ≡ c ∷ b = cc in
        let rest : after ≡ a = cc in rw (first, rest) (ap (λ xs. c ∷ xs) (cut_lem cs b a f))
  ]
]

-- The handler was not run: 401, and nothing behind the gateway changed.
abbrev pub Unauthorized : {G : Type 0} → G → Response × G → Type 0
Unauthorized g x = (x.0.status ≡ 401) × (x.1 ≡ g)

-- A guarded handler runs only behind a header `Bearer <token>` with a token that is not empty and that
-- the verifier accepts, and then for the subject of that token; any other request gets 401 and changes
-- nothing.
pub require_auth_lem :
    {G : Type 0} (verify : Bytes → Option String) (header : Bytes) (next : String → Handler G)
    (g : G)
    → let x = require_auth verify header next g in
      Unauthorized g x
      ⊎ ((token : Bytes) × (user_id : String) × (header ≡ bearer ++ (b' ' ∷ token))
          × (is_empty token ≡ false)
          × (verify token ≡ some user_id)
          × (x ≡ next user_id g))
unfolding require_auth with_token write_error write_json
require_auth_lem verify header next g = elim (Option-cases (cut header)) [
  | inl e ↦ inl (rw (e, require_auth) (refl, refl))
  | inr ((scheme, token), e) ↦ elim (Bool-cases (not (bytes_eq scheme bearer) || is_empty token)) [
    | inl y ↦ inl (rw (e, y, require_auth) (refl, refl))
    | inr n ↦ elim (Option-cases (verify token)) [
      | inl f ↦ inl (rw (e, n, f, require_auth, with_token) (refl, refl))
      | inr (user_id, f) ↦ inr (
        token,
        user_id,
        cut_lem header scheme token e
            ∙ ap (λ (b : Bytes). b ++ (b' ' ∷ token))
                (bytes_eq_lem scheme bearer (ground (arith, n))),
        ground (arith, n),
        f,
        rw (e, n, f, require_auth, with_token) refl,
      )
    ]
  ]
]
