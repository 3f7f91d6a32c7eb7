-- ===== src/L2/Sets.antt =====
-- Sets and dictionaries with texts as keys, and `sorted(…, key=…)`, as
-- src/pqpatch/verifier/l2_dataflow/java_flow.py uses them.
use nesy_pqpatch.Prelude.{
  ℕ, ◌≡◌, refl, sym, ap, ◌∙◌, Text, text_eq, text_eq→eq, text_eq_self, Bool, true, Bool-cases, inl,
  inr, not, ◌&&◌, ◌||◌, Option, none, some, List, [], ◌∷◌, ◌++◌, any, keep, leb, arith,
  if◌then◌else◌,
}

-- x in s
abbrev pub member : Text → List Text → Bool
member x = any (text_eq x)

-- s.add(x)
unfoldable pub add : Text → List Text → List Text
add x s = if member x s then s else s ++ x ∷ []

-- s.discard(x)
unfoldable pub discard : Text → List Text → List Text
discard x s = keep (λ y. not (text_eq x y)) s

-- s.update(xs)
unfoldable pub update : List Text → List Text → List Text
unfolding add
update s [] = s
update s (x ∷ xs) = update (add x s) xs

-- bool(s & t)
abbrev pub meets : List Text → List Text → Bool
meets s t = any (λ x. member x t) s

module _ {ℓ} {V : Type ℓ} where
  -- d.get(k)
  unfoldable pub get : Text → List (Text × V) → Option V
  get k [] = none
  get k ((j, v) ∷ d) = if text_eq k j then some v else get k d

  -- d.pop(k, None)
  unfoldable pub pop : Text → List (Text × V) → List (Text × V)
  pop k [] = []
  pop k ((j, v) ∷ d) = if text_eq k j then pop k d else (j, v) ∷ pop k d

  -- d[k] = v
  unfoldable pub set : Text → V → List (Text × V) → List (Text × V)
  set k v d = (k, v) ∷ pop k d

  pub get-pop :
      (j k : Text) (d : List (Text × V)) → get k (pop j d) ≡ (if text_eq k j then none else get k d)
  unfolding get pop
  get-pop j k [] = ground arith
  get-pop j k ((i, v) ∷ d) = ground (
    arith,
    text_eq→eq j i,
    text_eq→eq k i,
    text_eq→eq k j,
    text_eq_self j,
    text_eq_self k,
    get-pop j k d,
  )

  pub get-set :
      (j k : Text) (v : V) (d : List (Text × V))
      → get k (set j v d) ≡ (if text_eq k j then some v else get k d)
  unfolding get set
  get-set j k v d = ground (arith, get-pop j k d)

module _ {ℓ} {A : Type ℓ} (position : A → ℕ) where
  unfoldable pub insert_at : A → List A → List A
  insert_at a [] = a ∷ []
  insert_at a (x ∷ xs) = if leb (position a) (position x) then a ∷ x ∷ xs else x ∷ insert_at a xs

  -- sorted(xs, key=…), which is stable
  unfoldable pub sorted : List A → List A
  unfolding insert_at
  sorted [] = []
  sorted (x ∷ xs) = insert_at x (sorted xs)

  any-insert_at : (p : A → Bool) (a : A) (xs : List A) → any p (insert_at a xs) ≡ (p a || any p xs)
  unfolding insert_at
  any-insert_at p a [] = refl
  any-insert_at p a (x ∷ xs) = ground (arith, any-insert_at p a xs)

  -- sorting keeps the elements
  pub any-sorted : (p : A → Bool) (xs : List A) → any p (sorted xs) ≡ any p xs
  unfolding sorted
  any-sorted p [] = refl
  any-sorted p (x ∷ xs) = any-insert_at p x (sorted xs) ∙ ap (λ b. p x || b) (any-sorted p xs)

pub member-discard :
    (x y : Text) (s : List Text) → member y (discard x s) ≡ (not (text_eq x y) && member y s)
unfolding discard
member-discard x y [] = ground arith
member-discard x y (z ∷ s) = ground (
  arith,
  text_eq→eq y z,
  text_eq→eq x z,
  text_eq→eq x y,
  text_eq_self x,
  text_eq_self y,
  member-discard x y s,
)

member-append : (x y : Text) (s : List Text) → member y (s ++ x ∷ []) ≡ (member y s || text_eq y x)
member-append x y [] = ground arith
member-append x y (z ∷ s) = ground (arith, member-append x y s)

member-eq : (x y : Text) (s : List Text) → text_eq y x ≡ true → member y s ≡ member x s
member-eq x y s e = ap (λ z. member z s) (text_eq→eq y x e)

pub member-add : (x y : Text) (s : List Text) → member y (add x s) ≡ (text_eq y x || member y s)
unfolding add
member-add x y s = elim (Bool-cases (member x s)) [
  | inl t ↦
      rw t (elim (Bool-cases (text_eq y x)) [
        | inl e ↦ rw e (member-eq x y s e ∙ t)
        | inr f ↦ rw f refl
      ])
  | inr f ↦ rw f (member-append x y s ∙ ground arith)
]

pub member-update :
    (s xs : List Text) (y : Text) → member y (update s xs) ≡ (member y s || member y xs)
unfolding update
member-update s [] y = ground arith
member-update s (x ∷ xs) y = ground (arith, member-update (add x s) xs y, member-add x y s)

pub text_eq_comm : (s t : Text) → text_eq s t ≡ text_eq t s
text_eq_comm s t = elim (Bool-cases (text_eq s t)) [
  | inl e ↦ rw (text_eq→eq s t e) refl
  | inr n ↦ elim (Bool-cases (text_eq t s)) [
    | inl e ↦
        absurd
          (let same = sym (text_eq_self s) ∙ (ap (text_eq s) (sym (text_eq→eq t s e)) ∙ n) in cc)
    | inr m ↦ n ∙ sym m
  ]
]
