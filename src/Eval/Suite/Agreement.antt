-- ===== src/Eval/Suite/Agreement.antt =====
-- The numbers that src/pqpatch/eval/traps.py gives of a suite, against one another.
use nesy_pqpatch.Prelude.{
  ℕ, zero, suc, ◌+◌, ◌*◌, ◌≤◌, ◌≡◌, ◌⊎◌, ◌↔◌, refl, sym, ap, ◌∙◌, Bool, true, false, Bool-cases,
  inl, inr, not, ◌&&◌, none, some, subst, List, [], ◌∷◌, any, all, map, length, leb, ◌==◌, arith,
  if◌then◌else◌,
}
use nesy_pqpatch.Eval.TrapData.{TrapSplit, dev, heldout, AnnotatorLabel, TrapSpec}
use nesy_pqpatch.Eval.Suite.{
  count, is_dev, is_heldout, is_taxonomy, same, verdicts, unanimous, all_pairs, equal_pairs,
  multi_labelled, sum_pairs, summarize_suite,
}
use nesy_pqpatch.Eval.Suite.Pairs.{
  sum_over, label_pairs, like_pairs, sum_pairs-all, sum_pairs-equal,
}

count-length {ℓ} : {A : Type ℓ} (p : A → Bool) (xs : List A) → count p xs ≤ length xs
unfolding count
count-length p [] = omega arith
count-length p (x ∷ xs) = ground (arith, count-length p xs)

count-split {ℓ} :
    {A : Type ℓ} (p q : A → Bool)
    → ((x : A) → q x ≡ not (p x))
    → (xs : List A) → count p xs + count q xs ≡ length xs
unfolding count
count-split p q h [] = refl
count-split p q h (x ∷ xs) = ground (arith, h x, count-split p q h xs)

equal-all_pairs : (vs : List Bool) → equal_pairs vs ≤ all_pairs vs
unfolding equal_pairs all_pairs
equal-all_pairs [] = omega arith
equal-all_pairs (v ∷ vs) = omega (arith, equal-all_pairs vs, count-length (same v) vs)

count-all : (v : Bool) (vs : List Bool) → count (same v) vs ≡ length vs → all (same v) vs ≡ true
unfolding count
count-all v [] h = refl
count-all v (w ∷ vs) h = ground (arith, h, count-all v vs, count-length (same v) vs)

all-count : (v : Bool) (vs : List Bool) → all (same v) vs ≡ true → count (same v) vs ≡ length vs
unfolding count
all-count v [] h = refl
all-count v (w ∷ vs) h = ground (arith, h, all-count v vs)

same-eq : (v w : Bool) → same v w ≡ true → v ≡ w
same-eq true true h = refl
same-eq true false h = cc
same-eq false true h = cc
same-eq false false h = refl

all_same-pairs :
    (v : Bool) (vs : List Bool) → all (same v) vs ≡ true → equal_pairs vs ≡ all_pairs vs
unfolding equal_pairs all_pairs
all_same-pairs v [] h = refl
all_same-pairs v (w ∷ vs) h =
    let e = same-eq v w (ground (arith, h)) in
    let rest : all (same v) vs ≡ true = ground (arith, h) in
    omega
      (arith, all_same-pairs v vs rest, all-count w vs (ap (λ b. all (same b) vs) (sym e) ∙ rest))

all-any-not : (vs : List Bool) → all (same true) vs ≡ not (any not vs)
all-any-not [] = refl
all-any-not (v ∷ vs) = ground (arith, all-any-not vs)

all-any : (vs : List Bool) → all (same false) vs ≡ not (any (λ v. v) vs)
all-any [] = refl
all-any (v ∷ vs) = ground (arith, all-any vs)

unanimous-all : (v : Bool) (vs : List Bool) → unanimous (v ∷ vs) ≡ all (same v) vs
unfolding unanimous
unanimous-all true vs =
    rw (all-any-not vs) (elim (any not vs) as (λ b. ((1 + (if b then 1 else 0)) == 1) ≡ not b) [
      | true ↦ refl
      | false ↦ refl
    ])
unanimous-all false vs =
    rw (all-any vs) (elim (any (λ v. v) vs) as (λ b. (((if b then 1 else 0) + 1) == 1) ≡ not b) [
      | true ↦ refl
      | false ↦ refl
    ])

-- All verdicts are the same exactly when those of every two are.
unanimous-pairs :
    (v : Bool) (vs : List Bool)
    → (unanimous (v ∷ vs) ≡ true) ↔ (equal_pairs (v ∷ vs) ≡ all_pairs (v ∷ vs))
unfolding equal_pairs all_pairs
unanimous-pairs v vs = (
  (λ h.
      let a = sym (unanimous-all v vs) ∙ h in
      omega (arith, all_same-pairs v vs a, all-count v vs a)),
  (λ h.
      unanimous-all v vs
      ∙ count-all v vs (omega (arith, h, equal-all_pairs vs, count-length (same v) vs))),
)

sum_equal-sum_all : (ss : List TrapSpec) → sum_pairs equal_pairs ss ≤ sum_pairs all_pairs ss
unfolding sum_pairs
sum_equal-sum_all [] = omega arith
sum_equal-sum_all (s ∷ ss) = ground (arith, sum_equal-sum_all ss, equal-all_pairs (verdicts s))

abbrev is_unanimous : TrapSpec → Bool
is_unanimous s = multi_labelled s && unanimous (verdicts s)

count-unanimous : (ss : List TrapSpec) → count is_unanimous ss ≤ count multi_labelled ss
unfolding count
count-unanimous [] = omega arith
count-unanimous (s ∷ ss) = ground (arith, count-unanimous ss)

abbrev verdicts_of : List AnnotatorLabel → List Bool
verdicts_of labels = map (λ l. l.unsafe) labels

labels_pairs :
    (labels : List AnnotatorLabel)
    → leb 2 (length labels) ≡ true
    → ((unanimous (verdicts_of labels) ≡ true)
        ↔ (equal_pairs (verdicts_of labels) ≡ all_pairs (verdicts_of labels)))
      × (1 ≤ all_pairs (verdicts_of labels))
unfolding all_pairs
labels_pairs [] h = absurd cc
labels_pairs (l ∷ []) h = absurd cc
labels_pairs (l ∷ k ∷ labels) h = (unanimous-pairs l.unsafe (verdicts_of (k ∷ labels)), omega arith)

-- what a trap adds to the counts
spec_counts :
    (s : TrapSpec)
    → multi_labelled s ≡ true
    → ((unanimous (verdicts s) ≡ true) ↔ (equal_pairs (verdicts s) ≡ all_pairs (verdicts s)))
      × (1 ≤ all_pairs (verdicts s))
spec_counts s m = labels_pairs s.annotator_labels m

unanimous-sums :
    (ss : List TrapSpec)
    → count is_unanimous ss ≡ count multi_labelled ss
    → sum_pairs equal_pairs ss ≡ sum_pairs all_pairs ss
unfolding sum_pairs count
unanimous-sums [] h = refl
unanimous-sums (s ∷ ss) h = elim (Bool-cases (multi_labelled s)) [
  | inl m ↦ ground (arith, h, m, (spec_counts s m).0, count-unanimous ss, unanimous-sums ss)
  | inr n ↦ ground (arith, h, n, count-unanimous ss, unanimous-sums ss)
]

sums-unanimous :
    (ss : List TrapSpec)
    → sum_pairs equal_pairs ss ≡ sum_pairs all_pairs ss
    → count is_unanimous ss ≡ count multi_labelled ss
unfolding sum_pairs count
sums-unanimous [] h = refl
sums-unanimous (s ∷ ss) h = elim (Bool-cases (multi_labelled s)) [
  | inl m ↦ ground (
    arith,
    h,
    m,
    (spec_counts s m).0,
    sum_equal-sum_all ss,
    equal-all_pairs (verdicts s),
    sums-unanimous ss,
  )
  | inr n ↦ ground (arith, h, n, sums-unanimous ss)
]

no_pairs : (ss : List TrapSpec) → (sum_pairs all_pairs ss ≡ 0) ↔ (count multi_labelled ss ≡ 0)
unfolding sum_pairs count
no_pairs [] = ((λ h. refl), (λ h. refl))
no_pairs (s ∷ ss) = elim (Bool-cases (multi_labelled s)) [
  | inl m ↦ ((λ h. ground (arith, h, m, (spec_counts s m).1)), (λ h. ground (arith, h, m)))
  | inr n ↦
      ((λ h. ground (arith, h, n, (no_pairs ss).0)), (λ h. ground (arith, h, n, (no_pairs ss).1)))
]

-- What the summary says of the pairs: none where no trap has two labels, else the numbers of pairs
-- that agree, `a`, and of all pairs, `n`.
abbrev pub PairsAdd : List TrapSpec → Type 0
PairsAdd specs =
    let s = summarize_suite specs in
    ((s.pct_agreement ≡ none) × (s.n_multi_labelled ≡ 0))
    ⊎ ((a : ℕ) × (n : ℕ) × (s.pct_agreement ≡ some (a, n))
        × (2 * a ≡ sum_over like_pairs specs)
        × (2 * n ≡ sum_over label_pairs specs)
        × (a ≤ n)
        × (1 ≤ n)
        × ((a ≡ n) ↔ (s.n_unanimous ≡ s.n_multi_labelled)))

pairs_add : (specs : List TrapSpec) (n : ℕ) → sum_pairs all_pairs specs ≡ n → PairsAdd specs
unfolding summarize_suite
pairs_add specs zero e = inl (rw e refl, (no_pairs specs).0 e)
pairs_add specs (suc n) e = inr (
  sum_pairs equal_pairs specs,
  suc n,
  rw e refl,
  sum_pairs-equal specs,
  ap (λ k. 2 * k) (sym e) ∙ sum_pairs-all specs,
  subst (λ k. sum_pairs equal_pairs specs ≤ k) e (sum_equal-sum_all specs),
  omega arith,
  ((λ h. sums-unanimous specs (h ∙ sym e)), (λ h. unanimous-sums specs h ∙ e)),
)

not_dev : (x : TrapSplit) → is_heldout x ≡ not (is_dev x)
not_dev dev = refl
not_dev heldout = refl

-- In the summary of any suite, the traps of the two splits, and those from the taxonomy and from
-- elsewhere, add up to all, no more traps are unanimous than carry two labels, and no more carry two
-- than there are. Either there is no percentage and no trap has two labels; or the percentage is
-- a / n, where 2 * n is the number of ordered pairs of labels of one trap, 2 * a the number of those
-- that are both "unsafe" or both "safe", a <= n and 1 <= n, and a = n exactly when every trap with
-- two labels is unanimous.
pub summarize_suite-adds_up :
    (specs : List TrapSpec)
    → (let s = summarize_suite specs in
        (s.n_dev + s.n_heldout ≡ s.total)
        × (s.n_taxonomy + s.n_external ≡ s.total)
        × (s.n_unanimous ≤ s.n_multi_labelled)
        × (s.n_multi_labelled ≤ s.total)
        × PairsAdd specs)
unfolding summarize_suite
summarize_suite-adds_up specs = (
  count-split (λ s. is_dev s.split) (λ s. is_heldout s.split) (λ s. not_dev s.split) specs,
  count-split (λ s. is_taxonomy s.provenance) (λ s. not (is_taxonomy s.provenance)) (λ s. refl)
      specs,
  count-unanimous specs,
  count-length multi_labelled specs,
  pairs_add specs (sum_pairs all_pairs specs) refl,
)
