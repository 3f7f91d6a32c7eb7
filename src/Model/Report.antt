-- ===== src/Model/Report.antt =====
-- The properties of `LayerReport` in src/pqpatch/model.py, and what they say of each other.
use nesy_pqpatch.Prelude.{
  ◌≡◌, refl, inl, inr, Bool, true, false, Bool-cases, ◌||◌, Option, none, some, List, [], ◌∷◌,
  arith, all, any, find_first,
}
use nesy_pqpatch.Model.{RuleStatus, pass, fail, error, skipped, eq_status, RuleResult, LayerReport}

-- status in (PASS, SKIPPED)
abbrev pub does_not_block : RuleStatus → Bool
does_not_block s = eq_status s pass || eq_status s skipped

-- status in (FAIL, ERROR)
abbrev pub blocks : RuleStatus → Bool
blocks s = eq_status s fail || eq_status s error

unfoldable pub passed : LayerReport → Bool
passed r = all (λ x. does_not_block x.status) r.results

unfoldable pub was_skipped : LayerReport → Bool
was_skipped r = any (λ x. eq_status x.status skipped) r.results

unfoldable pub first_failure : LayerReport → Option RuleResult
first_failure r = find_first (λ x. blocks x.status) r.results

all-find_first :
    (xs : List RuleResult)
    → all (λ x. does_not_block x.status) xs ≡ true
    → find_first (λ x. blocks x.status) xs ≡ none
all-find_first [] h = refl
all-find_first (x ∷ xs) h = ground (arith, all-find_first xs)

find_first-all :
    (xs : List RuleResult)
    → all (λ x. does_not_block x.status) xs ≡ false
    → (f : RuleResult) × (find_first (λ x. blocks x.status) xs ≡ some f) × (blocks f.status ≡ true)
find_first-all [] h = cc
find_first-all (x ∷ xs) h = elim (Bool-cases (blocks x.status)) [
  | inl b ↦ (x, rw b, b)
  | inr n ↦ let (f, e, b) = find_first-all xs (ground arith) in (f, rw n e, b)
]

-- A report has a first failure exactly when it did not pass, and that failure blocks.
pub passed→first_failure : (r : LayerReport) → passed r ≡ true → first_failure r ≡ none
unfolding passed first_failure
passed→first_failure r h = all-find_first r.results h

pub failed→first_failure :
    (r : LayerReport)
    → passed r ≡ false
    → (f : RuleResult) × (first_failure r ≡ some f) × (blocks f.status ≡ true)
unfolding passed first_failure
failed→first_failure r h = find_first-all r.results h
