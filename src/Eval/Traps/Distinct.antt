-- ===== src/Eval/Traps/Distinct.antt =====
-- Lists without repetition, which src/pqpatch/eval/traps.py finds by the size of a set.
use nesy_pqpatch.Prelude.{
  suc, ◌+◌, ◌≤◌, ◌≡◌, refl, ap, ◌∙◌, Text, text_eq, text_eq→eq, text_eq_self, true, false,
  Bool-cases, inl, inr, List, [], ◌∷◌, ◌++◌, length, arith,
}
use nesy_pqpatch.L2.Sets.{member, add, update, member-add}

-- No element occurs twice.
abbrev pub AllDistinct : List Text → Type 0
AllDistinct [] = Unit
AllDistinct (x ∷ xs) = (member x xs ≡ false) × AllDistinct xs

length-append_one : (x : Text) (s : List Text) → length (s ++ x ∷ []) ≡ suc (length s)
length-append_one x [] = refl
length-append_one x (y ∷ s) = ap suc (length-append_one x s)

length-add :
    (x : Text) (s : List Text)
    → length (add x s) ≡ (elim (member x s) [ true ↦ length s | false ↦ suc (length s) ])
unfolding add
length-add x s = elim (Bool-cases (member x s)) [
  | inl t ↦ rw t refl
  | inr f ↦ rw f (length-append_one x s)
]

length-update : (s xs : List Text) → length (update s xs) ≤ length s + length xs
unfolding update
length-update s [] = omega arith
length-update s (x ∷ xs) = ground (arith, length-update (add x s) xs, length-add x s)

-- A set as large as the list that filled it got no element twice, and none that it had.
pub update-distinct :
    (s xs : List Text)
    → length (update s xs) ≡ length s + length xs
    → AllDistinct xs × ((y : Text) → member y xs ≡ true → member y s ≡ false)
unfolding update
update-distinct s [] h = (tt, λ y m. cc)
update-distinct s (x ∷ xs) h = elim (Bool-cases (member x s)) [
  | inl t ↦ absurd (ground (arith, h, length-update (add x s) xs, length-add x s, t))
  | inr f ↦
      let (distinct, apart) = update-distinct (add x s) xs (ground (arith, h, length-add x s, f)) in
      let fresh : member x xs ≡ false = elim (Bool-cases (member x xs)) [
        | inl m ↦ absurd (ground (arith, apart x m, member-add x x s, text_eq_self x))
        | inr n ↦ n
      ] in
      (
        (fresh, distinct),
        λ y m. elim (Bool-cases (text_eq y x)) [
          | inl e ↦ ap (λ z. member z s) (text_eq→eq y x e) ∙ f
          | inr n ↦ ground (arith, m, n, apart y, member-add x y s)
        ],
      )
]
