-- ===== src/Store/Locks/Progress.antt =====
-- No deadlock among the transactions of services/wallet/store.go: whoever waits, some session can go on,
-- and every run ends.
use wallet_ledger.Base.{
  ℕ, zero, suc, ◌≤◌, ◌<◌, ◌≡◌, refl, sym, ap, subst, ◌∙◌, inl, inr, ◌⊎◌, true, false, Bool-cases,
  List, [], ◌∷◌, ◌++◌, ltb, eq_iff, any, All, All_map, In, arith,
}
use wallet_ledger.Base.Places.{All-In, All_at, All_set, split, In-between}
use wallet_ledger.Store.Locks.{
  Lock, row, owner, slot, same_lock, Session, free, over, Forward, Step, forward, acquire, commit,
  roll_back, Steps, stay, step,
}

same_lock_lem : (l h : Lock) → same_lock l h ≡ true → l ≡ h
unfolding same_lock
same_lock_lem (row i) (row j) e = let same : i ≡ j = ground (arith, e) in cc
same_lock_lem (owner u) (owner v) e = let same : u ≡ v = ground (arith, e) in cc
same_lock_lem (slot u k) (slot v l) e =
    let same : u ≡ v = ground (arith, e) in let key : k ≡ l = ground (arith, e, eq_iff k l) in cc
same_lock_lem (row i) (owner v) e = cc
same_lock_lem (row i) (slot v l) e = cc
same_lock_lem (owner u) (row j) e = cc
same_lock_lem (owner u) (slot v l) e = cc
same_lock_lem (slot u k) (row j) e = cc
same_lock_lem (slot u k) (owner v) e = cc

any-In : (l : Lock) (hs : List Lock) → any (same_lock l) hs ≡ true → In l hs
any-In l [] e = cc
any-In l (h ∷ hs) e = elim (Bool-cases (same_lock l h)) [
  | inl y ↦ inl (same_lock_lem l h y)
  | inr n ↦ inr (any-In l hs (rw n at e))
]

-- A lock that is not free is held.
free-false :
    (l : Lock) (ss : List Session) → free l ss ≡ false → (t : Session) × In t ss × In l t.held
unfolding free
free-false l [] e = cc
free-false l (s ∷ ss) e = elim (Bool-cases (any (same_lock l) s.held)) [
  | inl y ↦ (s, inl refl, any-In l s.held y)
  | inr n ↦ let (t, i, h) = free-false l ss (rw n at e) in (t, inr i, h)
]

module _ (bound : ℕ) where
  -- Rows by their ids, and unique keys after all rows.
  abbrev pub rank : Lock → ℕ
  rank (row i) = i
  rank (owner u) = bound
  rank (slot u k) = bound

  abbrev pub Above : ℕ → List Lock → Type 0
  Above n [] = Unit
  Above n (l ∷ ls) = (n < rank l) × Above (rank l) ls

  abbrev pub Ascending : List Lock → Type 0
  Ascending [] = Unit
  Ascending (l ∷ ls) = Above (rank l) ls

  -- What is still to be locked comes after what is held, in ascending order.
  abbrev pub Ordered : Session → Type 0
  Ordered s = All (λ h. Above (rank h) s.todo) s.held × Ascending s.todo

  Above-lower : (n m : ℕ) (ls : List Lock) → n < m → Above m ls → Above n ls
  Above-lower n m [] h a = tt
  Above-lower n m (l ∷ ls) h a = let up = a.0 in (omega (arith, h, up), a.1)

  Above-Ascending : (n : ℕ) (ls : List Lock) → Above n ls → Ascending ls
  Above-Ascending n [] a = tt
  Above-Ascending n (l ∷ ls) a = a.1

  Above-All :
      (hs : List Lock) (l : Lock) (rest : List Lock)
      → All (λ h. Above (rank h) (l ∷ rest)) hs
      → All (λ h. Above (rank h) rest) hs
  Above-All [] l rest a = tt
  Above-All (h ∷ hs) l rest a =
      (Above-lower (rank h) (rank l) rest a.0.0 a.0.1, Above-All hs l rest a.1)

  acquired-Ordered :
      (held rest : List Lock) (l : Lock)
      → Ordered (record { held = held; todo = l ∷ rest })
      → Ordered (record { held = l ∷ held; todo = rest })
  acquired-Ordered held rest l (a, asc) =
      ((asc, Above-All held l rest a), Above-Ascending (rank l) rest asc)

  Forward-Ordered : (ss ss' : List Session) → Forward ss ss' → All Ordered ss → All Ordered ss'
  Forward-Ordered ss ss' (acquire left right held rest l e open_now e') h =
      let here = subst (All Ordered) e h in
      subst (All Ordered) (sym e') (
        All_set Ordered left right _ _ here
          (acquired-Ordered held rest l (All_at Ordered left right _ here)))
  Forward-Ordered ss ss' (commit left right l held e e') h =
      subst (All Ordered) (sym e')
        (All_set Ordered left right _ _ (subst (All Ordered) e h) (tt, tt))

  Step-Ordered : (ss ss' : List Session) → Step ss ss' → All Ordered ss → All Ordered ss'
  Step-Ordered ss ss' (forward f) h = Forward-Ordered ss ss' f h
  Step-Ordered ss ss' (roll_back left right held rest l e e') h =
      subst (All Ordered) (sym e')
        (All_set Ordered left right _ _ (subst (All Ordered) e h) (tt, tt))

  pub Steps-Ordered :
      (n : ℕ) (ss ss' : List Session) → Steps n ss ss' → All Ordered ss → All Ordered ss'
  Steps-Ordered zero ss ss' stay h = h
  Steps-Ordered (suc n) ss ss' (step {ss' = mid} before last) h =
      Step-Ordered mid ss' last (Steps-Ordered n ss mid before h)

  -- The lock that comes next, if any, has at most this rank.
  abbrev Next : ℕ → List Lock → Type 0
  Next n [] = Unit
  Next n (l ∷ ls) = rank l ≤ n

  abbrev Below : ℕ → Session → Type 0
  Below n s = Next n s.todo

  Below-higher : (n m : ℕ) (ss : List Session) → n ≤ m → All (Below n) ss → All (Below m) ss
  Below-higher n m ss h = All_map (λ s. raised s.todo) ss
    where
      raised : (ls : List Lock) → Next n ls → Next m ls
      raised [] b = tt
      raised (l ∷ ls) b = omega (arith, h, b)

  abbrev Done : Session → Type 0
  Done s = s.todo ≡ []

  Done-Below : (n : ℕ) (ss : List Session) → All Done ss → All (Below n) ss
  Done-Below n ss = All_map (λ s e. subst (Next n) (sym e) tt) ss

  -- A session that waits for a lock of the greatest rank.
  abbrev Leader : List Session → Type 0
  Leader ss =
      (left right : List Session) × (held rest : List Lock) × (l : Lock) × (ss
        ≡ left ++ (record { held = held; todo = l ∷ rest } ∷ right))
      × All (Below (rank l)) ss

  leader : (ss : List Session) → All Done ss ⊎ Leader ss
  leader [] = inl tt
  leader (s ∷ ss) = pick s.held s.todo refl (leader ss)
    where
      pick :
          (held todo : List Lock)
          → s ≡ record { held = held; todo = todo }
          → All Done ss ⊎ Leader ss
          → All Done (s ∷ ss) ⊎ Leader (s ∷ ss)
      pick held [] e (inl d) = inl (ap (λ (x : Session). x.todo) e, d)
      pick held (l ∷ rest) e (inl d) = inr (
        [],
        ss,
        held,
        rest,
        l,
        ap (λ x. x ∷ ss) e,
        (subst (Below (rank l)) (sym e) (omega arith), Done-Below (rank l) ss d),
      )
      pick held [] e (inr (left, right, h, rest, l, at, b)) =
          inr (
            s ∷ left,
            right,
            h,
            rest,
            l,
            ap (λ x. s ∷ x) at,
            (subst (Below (rank l)) (sym e) tt, b),
          )
      pick held (m ∷ more) e (inr (left, right, h, rest, l, at, b)) =
          elim (Bool-cases (ltb (rank l) (rank m))) [
            | inl up ↦ inr (
              [],
              ss,
              held,
              more,
              m,
              ap (λ x. x ∷ ss) e,
              (
                subst (Below (rank m)) (sym e) (omega arith),
                Below-higher (rank l) (rank m) ss (ground (arith, up)) b,
              ),
            )
            | inr low ↦ inr (
              s ∷ left,
              right,
              h,
              rest,
              l,
              ap (λ x. s ∷ x) at,
              (subst (Below (rank l)) (sym e) (ground (arith, low)), b),
            )
          ]

  -- A session that holds what the leader waits for can commit.
  holder_commits :
      (ss : List Session) (l : Lock) (t : Session)
      → In t ss
      → In l t.held
      → Ordered t
      → Below (rank l) t
      → (ss' : List Session) × Forward ss ss'
  holder_commits ss l t i h o b = by_parts t.held t.todo refl
    where
      by_parts :
          (held todo : List Lock)
          → t ≡ record { held = held; todo = todo }
          → (ss' : List Session) × Forward ss ss'
      by_parts [] todo e = absurd (subst (λ (x : Session). In l x.held) e h)
      by_parts (k ∷ held) [] e =
          let (left, right, at) = split t ss i in
          (
            left ++ (over ∷ right),
            commit left right k held (at ∙ ap (λ x. left ++ (x ∷ right)) e) refl,
          )
      by_parts (k ∷ held) (m ∷ more) e =
          let later : Above (rank l) (m ∷ more) =
            subst (λ (x : Session). Above (rank l) x.todo) e
              (All-In (λ x. Above (rank x) t.todo) l t.held o.0 h) in
          let low : rank m ≤ rank l = subst (λ (x : Session). Next (rank l) x.todo) e b in
          let up = later.0 in absurd (omega (arith, low, up))

  -- A session that has locked all and holds something.
  abbrev Ready : List Session → Type 0
  Ready ss =
      (left right : List Session) × (h : Lock) × (held : List Lock) × (ss
        ≡ left ++ (record { held = h ∷ held; todo = [] } ∷ right))

  -- Sessions that have nothing to lock are over, or one of them is ready.
  over_or_ready : (ss : List Session) → All Done ss → All (λ s. s ≡ over) ss ⊎ Ready ss
  over_or_ready [] d = inl tt
  over_or_ready (s ∷ ss) d = by_held s.held s.todo refl d.0 (over_or_ready ss d.1)
    where
      by_held :
          (held todo : List Lock)
          → s ≡ record { held = held; todo = todo }
          → todo ≡ []
          → All (λ x. x ≡ over) ss ⊎ Ready ss
          → All (λ x. x ≡ over) (s ∷ ss) ⊎ Ready (s ∷ ss)
      by_held held (l ∷ rest) e f r = cc
      by_held (h ∷ held) [] e f r = inr ([], ss, h, held, ap (λ x. x ∷ ss) e)
      by_held [] [] e f (inl all_over) = inl (e, all_over)
      by_held [] [] e f (inr (left, right, h, held, at)) =
          inr (s ∷ left, right, h, held, ap (λ x. s ∷ x) at)

  pub progress :
      (ss : List Session)
      → All Ordered ss
      → All (λ s. s ≡ over) ss ⊎ ((ss' : List Session) × Forward ss ss')
  progress ss o = elim (leader ss) [
    | inl d ↦ elim (over_or_ready ss d) [
      | inl all_over ↦ inl all_over
      | inr (left, right, h, held, at) ↦
          inr (left ++ (over ∷ right), commit left right h held at refl)
    ]
    | inr (left, right, held, rest, l, at, b) ↦ elim (Bool-cases (free l (left ++ right))) [
      | inl y ↦ inr (
        left ++ (record { held = l ∷ held; todo = rest } ∷ right),
        acquire left right held rest l at y refl,
      )
      | inr n ↦
          let (t, i, h) = free-false l (left ++ right) n in
          let j = subst (In t) (sym at) (In-between t _ left right i) in
          inr
            (holder_commits ss l t j h (All-In Ordered t ss o j) (All-In (Below (rank l)) t ss b j))
    ]
  ]
