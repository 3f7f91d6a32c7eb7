-- ===== src/Prelude/Sorting.antt =====
-- `list.sort(key=…)`, ranges, and membership kept as data.
use Prim.Native.Nat.{ℕ, zero, suc, ◌+◌, ◌-◌, ◌≤◌, ◌<◌}
use mathlib.Core.Path.{◌≡◌, sym, subst}
use mathlib.Core.Logic.{◌⊎◌, inl, inr}
use mathlib.Core.Bool.{Bool, true}
use mathlib.Core.List.{List, [], ◌∷◌}
use native.Mathlib.Omega.{arith}
use native.Mathlib.Decide.{ℕ_discrete}
use nesy_pqpatch.Prelude.Tests.{leb, leb→le, if◌then◌else◌, Bool-cases}
use nesy_pqpatch.Prelude.Lists.{keep}

-- range(lo, lo + count)
abbrev pub count_up : ℕ → ℕ → List ℕ
count_up lo zero = []
count_up lo (suc count) = lo ∷ count_up (lo + 1) count

-- range(lo, hi)
abbrev pub range : ℕ → ℕ → List ℕ
range lo hi = count_up lo (hi - lo)

-- Membership among numbers, as data.
abbrev pub Elem : ℕ → List ℕ → Type 0
Elem a [] = ⊥
Elem a (x ∷ xs) = (a ≡ x) ⊎ Elem a xs

abbrev pub Distinct : List ℕ → Type 0
Distinct [] = Unit
Distinct (x ∷ xs) = (Elem x xs → ⊥) × Distinct xs

pub Elem-keep : (p : ℕ → Bool) (a : ℕ) (xs : List ℕ) → Elem a (keep p xs) → Elem a xs × (p a ≡ true)
Elem-keep p a [] h = absurd h
Elem-keep p a (x ∷ xs) h = elim (Bool-cases (p x)) [
  | inl t ↦
      let split : (a ≡ x) ⊎ Elem a (keep p xs) = rw t at h in
      elim split [
        | inl e ↦ (inl e, rw e t)
        | inr m ↦ let (m', q) = Elem-keep p a xs m in (inr m', q)
      ]
  | inr f ↦ let (m, q) = Elem-keep p a xs (rw f at h) in (inr m, q)
]

pub keep-Elem : (p : ℕ → Bool) (a : ℕ) (xs : List ℕ) → Elem a xs → p a ≡ true → Elem a (keep p xs)
keep-Elem p a [] h t = absurd h
keep-Elem p a (x ∷ xs) (inl e) t = rw (subst (λ y. p y ≡ true) e t) (inl e)
keep-Elem p a (x ∷ xs) (inr m) t = elim (Bool-cases (p x)) [
  | inl y ↦ rw y (inr (keep-Elem p a xs m t))
  | inr n ↦ rw n (keep-Elem p a xs m t)
]

pub Distinct-keep : (p : ℕ → Bool) (xs : List ℕ) → Distinct xs → Distinct (keep p xs)
Distinct-keep p [] d = tt
Distinct-keep p (x ∷ xs) d = elim (Bool-cases (p x)) [
  | inl y ↦ rw y (λ m. d.0 (Elem-keep p x xs m).0, Distinct-keep p xs d.1)
  | inr n ↦ rw n (Distinct-keep p xs d.1)
]

pub Elem-count_up : (a lo count : ℕ) → Elem a (count_up lo count) → (lo ≤ a) × (a < lo + count)
Elem-count_up a lo zero h = absurd h
Elem-count_up a lo (suc count) (inl e) = (omega arith, omega arith)
Elem-count_up a lo (suc count) (inr m) =
    let (l, u) = Elem-count_up a (lo + 1) count m in (omega arith, omega arith)

pub count_up-Elem : (a lo count : ℕ) → lo ≤ a → a < lo + count → Elem a (count_up lo count)
count_up-Elem a lo zero l u = absurd (omega arith)
count_up-Elem a lo (suc count) l u = elim (ℕ_discrete a lo) [
  | yes e ↦ inl e
  | no n ↦ inr (count_up-Elem a (lo + 1) count (omega arith) (omega arith))
]

pub Distinct-count_up : (lo count : ℕ) → Distinct (count_up lo count)
Distinct-count_up lo zero = tt
Distinct-count_up lo (suc count) = (
  λ m. absurd (omega (arith, (Elem-count_up lo (lo + 1) count m).0)),
  Distinct-count_up (lo + 1) count,
)

module _ (key : ℕ → ℕ) where
  unfoldable pub insert_by : ℕ → List ℕ → List ℕ
  insert_by a [] = a ∷ []
  insert_by a (x ∷ xs) = if leb (key a) (key x) then a ∷ x ∷ xs else x ∷ insert_by a xs

  -- xs.sort(key=key), which is stable
  unfoldable pub sort_by : List ℕ → List ℕ
  unfolding insert_by
  sort_by [] = []
  sort_by (x ∷ xs) = insert_by x (sort_by xs)

  -- Each key is at most the keys behind it.
  abbrev pub Ascends : List ℕ → Type 0
  Ascends [] = Unit
  Ascends (x ∷ xs) = ((y : ℕ) → Elem y xs → key x ≤ key y) × Ascends xs

  Elem-insert_by : (a b : ℕ) (xs : List ℕ) → Elem a (insert_by b xs) → (a ≡ b) ⊎ Elem a xs
  unfolding insert_by
  Elem-insert_by a b [] h = h
  Elem-insert_by a b (x ∷ xs) h = elim (Bool-cases (leb (key b) (key x))) [
    | inl y ↦ rw y at h
    | inr n ↦
        let split : (a ≡ x) ⊎ Elem a (insert_by b xs) = rw n at h in
        elim split [
          | inl e ↦ inr (inl e)
          | inr m ↦ elim (Elem-insert_by a b xs m) [ inl e ↦ inl e | inr k ↦ inr (inr k) ]
        ]
  ]

  insert_by-Elem : (a b : ℕ) (xs : List ℕ) → (a ≡ b) ⊎ Elem a xs → Elem a (insert_by b xs)
  unfolding insert_by
  insert_by-Elem a b [] h = h
  insert_by-Elem a b (x ∷ xs) h = elim (Bool-cases (leb (key b) (key x))) [
    | inl y ↦ rw y h
    | inr n ↦ rw n (elim h [
      | inl e ↦ inr (insert_by-Elem a b xs (inl e))
      | inr (inl e) ↦ inl e
      | inr (inr m) ↦ inr (insert_by-Elem a b xs (inr m))
    ])
  ]

  pub Elem-sort_by : (a : ℕ) (xs : List ℕ) → Elem a (sort_by xs) → Elem a xs
  unfolding sort_by
  Elem-sort_by a [] h = h
  Elem-sort_by a (x ∷ xs) h = elim (Elem-insert_by a x (sort_by xs) h) [
    | inl e ↦ inl e
    | inr m ↦ inr (Elem-sort_by a xs m)
  ]

  pub sort_by-Elem : (a : ℕ) (xs : List ℕ) → Elem a xs → Elem a (sort_by xs)
  unfolding sort_by
  sort_by-Elem a [] h = h
  sort_by-Elem a (x ∷ xs) (inl e) = insert_by-Elem a x (sort_by xs) (inl e)
  sort_by-Elem a (x ∷ xs) (inr m) = insert_by-Elem a x (sort_by xs) (inr (sort_by-Elem a xs m))

  Distinct-insert_by :
      (a : ℕ) (xs : List ℕ) → (Elem a xs → ⊥) → Distinct xs → Distinct (insert_by a xs)
  unfolding insert_by
  Distinct-insert_by a [] n d = (λ m. m, tt)
  Distinct-insert_by a (x ∷ xs) n d = elim (Bool-cases (leb (key a) (key x))) [
    | inl y ↦ rw y (n, d)
    | inr f ↦ rw f (
      (λ m. elim (Elem-insert_by x a xs m) [ inl e ↦ n (inl (sym e)) | inr k ↦ d.0 k ]),
      Distinct-insert_by a xs (λ m. n (inr m)) d.1,
    )
  ]

  pub Distinct-sort_by : (xs : List ℕ) → Distinct xs → Distinct (sort_by xs)
  unfolding sort_by
  Distinct-sort_by [] d = tt
  Distinct-sort_by (x ∷ xs) d =
      Distinct-insert_by x (sort_by xs) (λ m. d.0 (Elem-sort_by x xs m)) (Distinct-sort_by xs d.1)

  insert_by-Ascends : (a : ℕ) (xs : List ℕ) → Ascends xs → Ascends (insert_by a xs)
  unfolding insert_by
  insert_by-Ascends a [] s = (λ y m. absurd m, tt)
  insert_by-Ascends a (x ∷ xs) s = elim (Bool-cases (leb (key a) (key x))) [
    | inl t ↦ rw t (
      (λ y m. elim m [
        | inl e ↦ rw e (leb→le _ _ t)
        | inr k ↦ omega (arith, s.0 y k, leb→le (key a) (key x) t)
      ]),
      s,
    )
    | inr f ↦ rw f (
      (λ y m. elim (Elem-insert_by y a xs m) [ inl e ↦ rw e (ground arith) | inr k ↦ s.0 y k ]),
      insert_by-Ascends a xs s.1,
    )
  ]

  pub sort_by-Ascends : (xs : List ℕ) → Ascends (sort_by xs)
  unfolding sort_by
  sort_by-Ascends [] = tt
  sort_by-Ascends (x ∷ xs) = insert_by-Ascends x (sort_by xs) (sort_by-Ascends xs)
