-- ===== src/Eval/Suite/Pairs.antt =====
-- The pairs of labels that `summarize_suite` of src/pqpatch/eval/traps.py counts, by the numbers of
-- labels of each verdict.
use nesy_pqpatch.Prelude.{
  ℕ, zero, suc, ◌+◌, ◌*◌, ◌≡◌, refl, ap, Bool, true, false, Bool-cases, not, inl, inr, List, [],
  ◌∷◌, map, length, leb, arith,
}
use nesy_pqpatch.Eval.TrapData.{AnnotatorLabel, TrapSpec}
use nesy_pqpatch.Eval.Suite.{count, verdicts, all_pairs, equal_pairs, multi_labelled, sum_pairs}

-- the number of ordered pairs of two of `k` things
abbrev pub ordered_pairs : ℕ → ℕ
ordered_pairs zero = 0
ordered_pairs (suc k) = suc k * k

abbrev pub sum_over : (TrapSpec → ℕ) → List TrapSpec → ℕ
sum_over f [] = 0
sum_over f (s ∷ ss) = f s + sum_over f ss

-- the ordered pairs of a trap's labels
abbrev pub label_pairs : TrapSpec → ℕ
label_pairs s = ordered_pairs (length s.annotator_labels)

-- those of its labels "unsafe", and those of its labels "safe"
abbrev pub like_pairs : TrapSpec → ℕ
like_pairs s = ordered_pairs (count (λ v. v) (verdicts s)) + ordered_pairs (count not (verdicts s))

product-suc : (j : ℕ) → suc (suc j) * suc j ≡ suc j * j + 2 * suc j
product-suc j = omega arith

ordered_pairs-suc : (k : ℕ) → ordered_pairs (suc k) ≡ ordered_pairs k + 2 * k
ordered_pairs-suc zero = refl
ordered_pairs-suc (suc j) = product-suc j

all_pairs-ordered : (vs : List Bool) → 2 * all_pairs vs ≡ ordered_pairs (length vs)
unfolding all_pairs
all_pairs-ordered [] = refl
all_pairs-ordered (v ∷ vs) = omega (arith, all_pairs-ordered vs, ordered_pairs-suc (length vs))

equal_pairs-ordered :
    (vs : List Bool)
    → 2 * equal_pairs vs ≡ ordered_pairs (count (λ v. v) vs) + ordered_pairs (count not vs)
unfolding equal_pairs count
equal_pairs-ordered [] = refl
equal_pairs-ordered (true ∷ vs) =
    omega (arith, equal_pairs-ordered vs, ordered_pairs-suc (count (λ v. v) vs))
equal_pairs-ordered (false ∷ vs) =
    omega (arith, equal_pairs-ordered vs, ordered_pairs-suc (count not vs))

-- A trap with fewer than two labels has no pair of them.
few_labels :
    (labels : List AnnotatorLabel)
    → leb 2 (length labels) ≡ false
    → let vs = map (λ l. l.unsafe) labels in
      (ordered_pairs (length labels) ≡ 0)
      × (ordered_pairs (count (λ v. v) vs) + ordered_pairs (count not vs) ≡ 0)
unfolding count
few_labels [] h = (refl, refl)
few_labels (l ∷ []) h =
    elim (l.unsafe)
      as (λ b.
        (ordered_pairs 1 ≡ 0)
        × (ordered_pairs (count (λ v. v) (b ∷ [])) + ordered_pairs (count not (b ∷ [])) ≡ 0)) [
          | true ↦ (refl, refl)
          | false ↦ (refl, refl)
        ]
few_labels (l ∷ k ∷ labels) h = absurd (ground (arith, h))

length-verdicts :
    (labels : List AnnotatorLabel) → length (map (λ l. l.unsafe) labels) ≡ length labels
length-verdicts [] = refl
length-verdicts (l ∷ labels) = ap suc (length-verdicts labels)

-- The loop counts each unordered pair once.
pub sum_pairs-all : (ss : List TrapSpec) → 2 * sum_pairs all_pairs ss ≡ sum_over label_pairs ss
unfolding sum_pairs
sum_pairs-all [] = refl
sum_pairs-all (s ∷ ss) = elim (Bool-cases (multi_labelled s)) [
  | inl m ↦
      let n = all_pairs-ordered (verdicts s) in
      let k = ap ordered_pairs (length-verdicts s.annotator_labels) in
      rw m (omega (arith, n, k, sum_pairs-all ss))
  | inr n ↦ rw n (omega (arith, (few_labels s.annotator_labels n).0, sum_pairs-all ss))
]

pub sum_pairs-equal : (ss : List TrapSpec) → 2 * sum_pairs equal_pairs ss ≡ sum_over like_pairs ss
unfolding sum_pairs
sum_pairs-equal [] = refl
sum_pairs-equal (s ∷ ss) = elim (Bool-cases (multi_labelled s)) [
  | inl m ↦ rw m (omega (arith, equal_pairs-ordered (verdicts s), sum_pairs-equal ss))
  | inr n ↦ rw n (omega (arith, (few_labels s.annotator_labels n).1, sum_pairs-equal ss))
]
