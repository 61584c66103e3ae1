-- ===== src/Platform/Ready.antt =====
-- When /readyz of internal/platform/ops.go says that a pod takes traffic.
use wallet_ledger.Base.{
  ◌≡◌, refl, inl, inr, ◌⊎◌, true, false, Bool-cases, String, Option, none, some, List, [], ◌∷◌, All,
}
use wallet_ledger.Platform.{Ops, all_pass, readyz}

-- No check of the list answers with an error.
abbrev pub Passing : List (String × Option String) → Type 0
Passing cs = All (λ c. c.1 ≡ none) cs

all_pass-Passing : (cs : List (String × Option String)) → all_pass cs ≡ true → Passing cs
unfolding all_pass
all_pass-Passing [] h = tt
all_pass-Passing ((n, none) ∷ cs) h = (refl, all_pass-Passing cs h)
all_pass-Passing ((n, some e) ∷ cs) h = cc

Passing-all_pass : (cs : List (String × Option String)) → Passing cs → all_pass cs ≡ true
unfolding all_pass
Passing-all_pass [] h = refl
Passing-all_pass ((n, none) ∷ cs) h = Passing-all_pass cs h.1
Passing-all_pass ((n, some e) ∷ cs) h = cc h.0

-- A pod answers 200 exactly when it is not draining and each of its checks passes; it answers 503
-- otherwise.
pub readyz_lem :
    (o : Ops)
    → ((readyz o).0 ≡ 200) × (o.draining ≡ false) × Passing o.checks
      ⊎ ((readyz o).0 ≡ 503) × ¬ ((o.draining ≡ false) × Passing o.checks)
unfolding readyz
readyz_lem o = elim (Bool-cases o.draining) [
  | inl y ↦ inr (rw y refl, λ h. cc h.0)
  | inr n ↦ elim (Bool-cases (all_pass o.checks)) [
    | inl y ↦ inl (rw (n, y) refl, n, all_pass-Passing o.checks y)
    | inr m ↦ inr (rw (n, m) refl, λ h. cc (Passing-all_pass o.checks h.1))
  ]
]
