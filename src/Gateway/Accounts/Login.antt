-- ===== src/Gateway/Accounts/Login.antt =====
-- Who can log in: register and login of services/gateway/handlers.go together.
use wallet_ledger.Base.{
  ℕ, ◌≡◌, refl, sym, ap, ◌∙◌, subst, In, any, inl, inr, ◌⊎◌, Bool, true, false, Bool-cases, String,
  Option, none, some, Option-cases, List, [], ◌∷◌, arith, str_eq, eq_iff,
}
use wallet_ledger.Gateway.Http.{Response, token, write_json, write_error}
use wallet_ledger.Gateway.Api.{WalletClient}
use wallet_ledger.Gateway.Accounts.{
  User, Accounts, Credentials, find_user, is_taken, internal, token_response, with_user, login,
}

-- UNIQUE (email)
abbrev pub DistinctEmails : List User → Type 0
DistinctEmails [] = Unit
DistinctEmails (u ∷ us) = (is_taken u.email us ≡ false) × DistinctEmails us

-- A user of the table with the normal form of the address, whose hash accepts the password.
abbrev pub IsUser :
    (String → String → Bool) → (String → String) → Credentials → List User → User → Type 0
IsUser check normal c us u =
    In u us × (u.email ≡ normal c.email) × (check u.password_hash c.password ≡ true)

find_user-some :
    (email : String) (us : List User) (u : User)
    → find_user email us ≡ some u
    → In u us × (u.email ≡ email)
unfolding find_user
find_user-some email [] u h = cc
find_user-some email (v ∷ us) u h = elim (Bool-cases (str_eq v.email email)) [
  | inl y ↦
      let found : ◌≡◌ {A = Option User} (some v) (some u) = rw y at h in
      let e : u ≡ v = cc in (inl e, ap (λ (x : User). x.email) e ∙ (eq_iff v.email email).0 y)
  | inr n ↦ let (there, same) = find_user-some email us u (rw n at h) in (inr there, same)
]

find_user-none :
    (email : String) (us : List User) (u : User)
    → find_user email us ≡ none
    → In u us
    → u.email ≡ email
    → ⊥
unfolding find_user
find_user-none email [] u h there same = there
find_user-none email (v ∷ us) u h (inl e) same =
    let y : str_eq v.email email ≡ true =
      (eq_iff v.email email).1 (ap (λ (x : User). x.email) (sym e) ∙ same) in
    let no : ◌≡◌ {A = Option User} (some v) none = rw y at h in cc
find_user-none email (v ∷ us) u h (inr there) same = elim (Bool-cases (str_eq v.email email)) [
  | inl y ↦ (let no : ◌≡◌ {A = Option User} (some v) none = rw y at h in cc)
  | inr n ↦ find_user-none email us u (rw n at h) there same
]

is_taken-In :
    (email : String) (us : List User) (u : User)
    → In u us
    → u.email ≡ email
    → is_taken email us ≡ true
unfolding is_taken
is_taken-In email [] u there same = absurd there
is_taken-In email (v ∷ us) u (inl e) same =
    let y : str_eq v.email email ≡ true =
      (eq_iff v.email email).1 (ap (λ (x : User). x.email) (sym e) ∙ same) in
    rw y refl
is_taken-In email (v ∷ us) u (inr there) same =
    let y : any (λ u. str_eq u.email email) us ≡ true = is_taken-In email us u there same in
    ground arith

-- Users with one address are one user.
same_user :
    (us : List User) (u v : User)
    → DistinctEmails us
    → In u us
    → In v us
    → u.email ≡ v.email
    → u ≡ v
same_user [] u v d i j e = absurd i
same_user (x ∷ us) u v d (inl p) (inl q) e = p ∙ sym q
same_user (x ∷ us) u v d (inl p) (inr j) e =
    let y = is_taken-In x.email us v j (sym e ∙ ap (λ (w : User). w.email) p) in let n = d.0 in cc
same_user (x ∷ us) u v d (inr i) (inl q) e =
    let y = is_taken-In x.email us u i (e ∙ ap (λ (w : User). w.email) q) in let n = d.0 in cc
same_user (x ∷ us) u v d (inr i) (inr j) e = same_user us u v d.1 i j e

module _ {G : Type 0} (client : WalletClient G) (normal : String → String)
    (is_address : String → Bool) (hash : String → Option String) (check : String → String → Bool)
    (issue : String → Option String) (ttl : ℕ) where
  -- A user of this address whose hash accepts the password.
  abbrev pub Knows : Credentials → Accounts G → User → Type 0
  Knows c a u =
      (find_user (normal c.email) a.users ≡ some u) × (check u.password_hash c.password ≡ true)

  -- The answer to a login of this user: 200 with the token that is issued for it, or 500 where issuing
  -- fails.
  abbrev pub Admits : User → Response → Type 0
  Admits u x =
      ((t : String) × (issue u.id ≡ some t) × (x ≡ write_json 200 (token t ttl)))
      ⊎ (issue u.id ≡ none) × (x ≡ write_error 500 "internal error")

  admitted :
      (u : User)
      → Admits u (token_response client normal is_address hash check issue ttl (issue u.id))
  unfolding token_response internal
  admitted u = elim (Option-cases (issue u.id)) [
    | inl e ↦ inr (e, rw e refl)
    | inr (t, e) ↦ inl (t, e, rw e refl)
  ]

  -- If no two users have one address, and the query of a login works: where a user of the table has the
  -- normal form of the address, and its hash accepts the password, the answer is 200 with the token that is issued
  -- for its id, or 500 where issuing fails; where no user of the table is such, it is 401, with one text.
  pub login_lem :
      (c : Credentials) (a : Accounts G)
      → DistinctEmails a.users
      → let x = login client normal is_address hash check issue ttl (some c) none a in
        ((u : User) × IsUser check normal c a.users u × Admits u x)
        ⊎ ((u : User) → ¬ IsUser check normal c a.users u)
          × (x ≡ write_error 401 "invalid email or password")
  unfolding login with_user
  login_lem c a distinct = elim (Option-cases (find_user (normal c.email) a.users)) [
    | inl e ↦ inr ((λ u k. find_user-none (normal c.email) a.users u e k.0 k.1), rw e refl)
    | inr (u, e) ↦
        let (there, same) = find_user-some (normal c.email) a.users u e in
        elim (Bool-cases (check u.password_hash c.password)) [
          | inl y ↦ inl (u, (there, same, y), rw (e, y) (admitted u))
          | inr n ↦ inr (
            (λ v k.
                let one : v ≡ u = same_user a.users v u distinct k.0 there (k.1 ∙ sym same) in
                let yes : check u.password_hash c.password ≡ true =
                  subst (λ (w : User). check w.password_hash c.password ≡ true) one k.2 in
                cc),
            rw (e, n) refl,
          )
        ]
  ]
