-- ===== src/Base/Places.antt =====
-- Places in a list: what stands there, and what holds when it is replaced.
use wallet_ledger.Base.{◌≡◌, sym, ap, subst, inl, inr, List, [], ◌∷◌, ◌++◌, All, In}

-- A predicate at one place of a list.
module _ {A : Type 0} (P : A → Type 0) where
  pub All-In : (x : A) (xs : List A) → All P xs → In x xs → P x
  All-In x [] h i = absurd i
  All-In x (y ∷ ys) h (inl e) = subst P (sym e) h.0
  All-In x (y ∷ ys) h (inr i) = All-In x ys h.1 i

  pub All_at : (left right : List A) (x : A) → All P (left ++ (x ∷ right)) → P x
  All_at [] right x h = h.0
  All_at (y ∷ left) right x h = All_at left right x h.1

  pub All_set :
      (left right : List A) (x y : A)
      → All P (left ++ (x ∷ right))
      → P y
      → All P (left ++ (y ∷ right))
  All_set [] right x y h p = (p, h.1)
  All_set (z ∷ left) right x y h p = (h.0, All_set left right x y h.1 p)

-- Where a member of a list stands.
pub split :
    {A : Type 0} (x : A) (xs : List A)
    → In x xs
    → (left : List A) × (right : List A) × (xs ≡ left ++ (x ∷ right))
split x [] i = absurd i
split x (y ∷ ys) (inl e) = ([], ys, ap (λ z. z ∷ ys) (sym e))
split x (y ∷ ys) (inr i) =
    let (left, right, e) = split x ys i in (y ∷ left, right, ap (λ l. y ∷ l) e)

pub In-between :
    {A : Type 0} (x y : A) (left right : List A) → In x (left ++ right) → In x (left ++ (y ∷ right))
In-between x y [] right i = inr i
In-between x y (z ∷ left) right (inl e) = inl e
In-between x y (z ∷ left) right (inr i) = inr (In-between x y left right i)
