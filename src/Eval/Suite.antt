-- ===== src/Eval/Suite.antt =====
-- src/pqpatch/eval/traps.py: the suite of all traps, and its summary.
pub mod Ascending
mod Pairs
pub mod Agreement
use nesy_pqpatch.Prelude.{
  ℕ, zero, suc, ◌+◌, Text, text, text_eq, Bool, true, false, not, ◌&&◌, ◌||◌, Option, none, some,
  List, [], ◌∷◌, ◌++◌, any, map, keep, length, leb, ◌==◌, if◌then◌else◌,
}
use nesy_pqpatch.Python.{Result, ok, raised, ◌>>=◌, repr}
use nesy_pqpatch.Trace.Dumps.{text_lt}
use nesy_pqpatch.L2.Sets.{get, set}
use nesy_pqpatch.Eval.Traps.{invalid, Load, load_trap}
use nesy_pqpatch.Eval.TrapData.{
  TrapSplit, dev, heldout, TrapProvenance, taxonomy, external_pr, external_cve, AnnotatorLabel,
  TrapSpec,
}

-- the loop over the paths
unfoldable pub load_all : Load → List Text → Result (List TrapSpec)
load_all load [] = ok []
load_all load (path ∷ paths) = do
  spec ← load_trap load path
  specs ← load_all load paths
  ok (spec ∷ specs)

-- The loop with the ids seen so far and their files.
unfoldable pub check_ids : List (Text × Text) → List TrapSpec → Result (Unit {0})
check_ids seen [] = ok tt
check_ids seen (spec ∷ specs) = elim (get spec.trap_id seen) [
  | some file ↦ invalid spec.source_file (
      text "duplicate trap_id " ++ (repr spec.trap_id ++ (text " (also in " ++ (file ++ text ")"))))
  | none ↦ check_ids (set spec.trap_id spec.source_file seen) specs
]

unfoldable pub insert_spec : TrapSpec → List TrapSpec → List TrapSpec
insert_spec s [] = s ∷ []
insert_spec s (t ∷ ts) = if text_lt t.trap_id s.trap_id then t ∷ insert_spec s ts else s ∷ t ∷ ts

-- sorted(specs, key=lambda s: s.trap_id)
unfoldable pub sort_specs : List TrapSpec → List TrapSpec
unfolding insert_spec
sort_specs [] = []
sort_specs (s ∷ ss) = insert_spec s (sort_specs ss)

-- `paths` are the sorted paths of the descriptors.
unfoldable pub load_trap_suite : Load → List Text → Result (List TrapSpec)
load_trap_suite load paths = do
  specs ← load_all load paths
  _ ← check_ids [] specs
  ok (sort_specs specs)

-- `pct_agreement` is a quotient, kept as its two numbers. The field `kappa`, a floating-point number,
-- is left out.
pub record TrapSuiteStats : Type 0 where
  pub total : ℕ
  pub n_dev : ℕ
  pub n_heldout : ℕ
  pub n_taxonomy : ℕ
  pub n_external : ℕ
  pub n_unanticipated : ℕ
  pub n_compiling_unsafe : ℕ
  pub n_multi_labelled : ℕ
  pub n_unanimous : ℕ
  pub pct_agreement : Option (ℕ × ℕ)

-- sum(1 for s in specs if p(s))
unfoldable pub count {ℓ} : {A : Type ℓ} → (A → Bool) → List A → ℕ
count p [] = 0
count p (s ∷ ss) = if p s then suc (count p ss) else count p ss

abbrev pub is_dev : TrapSplit → Bool
is_dev dev = true
is_dev heldout = false

abbrev pub is_heldout : TrapSplit → Bool
is_heldout dev = false
is_heldout heldout = true

abbrev pub is_taxonomy : TrapProvenance → Bool
is_taxonomy taxonomy = true
is_taxonomy external_pr = false
is_taxonomy external_cve = false

abbrev pub same : Bool → Bool → Bool
same true b = b
same false b = not b

abbrev pub verdicts : TrapSpec → List Bool
verdicts s = map (λ l. l.unsafe) s.annotator_labels

-- len(set(verdicts)) == 1
unfoldable pub unanimous : List Bool → Bool
unanimous vs = ((if any (λ v. v) vs then 1 else 0) + (if any not vs then 1 else 0)) == 1

-- the pairs of positions i < j
unfoldable pub all_pairs : List Bool → ℕ
all_pairs [] = 0
all_pairs (v ∷ vs) = length vs + all_pairs vs

-- those of them whose verdicts are equal
unfoldable pub equal_pairs : List Bool → ℕ
unfolding count
equal_pairs [] = 0
equal_pairs (v ∷ vs) = count (same v) vs + equal_pairs vs

abbrev pub multi_labelled : TrapSpec → Bool
multi_labelled s = leb 2 (length s.annotator_labels)

-- the pairs that the loop has counted at its end
unfoldable pub sum_pairs : (List Bool → ℕ) → List TrapSpec → ℕ
sum_pairs pairs [] = 0
sum_pairs pairs (s ∷ ss) =
    let rest = sum_pairs pairs ss in if multi_labelled s then pairs (verdicts s) + rest else rest

-- agreeing / total if total else None
abbrev pub quotient : ℕ → ℕ → Option (ℕ × ℕ)
quotient agreeing zero = none
quotient agreeing (suc n) = some (agreeing, suc n)

unfoldable pub summarize_suite : List TrapSpec → TrapSuiteStats
summarize_suite specs = record {
  total = length specs;
  n_dev = count (λ s. is_dev s.split) specs;
  n_heldout = count (λ s. is_heldout s.split) specs;
  n_taxonomy = count (λ s. is_taxonomy s.provenance) specs;
  n_external = count (λ s. not (is_taxonomy s.provenance)) specs;
  n_unanticipated = count (λ s. s.is_unanticipated) specs;
  n_compiling_unsafe = count (λ s. s.ground_truth_unsafe && s.unsafe_patch_compiles) specs;
  n_multi_labelled = count multi_labelled specs;
  n_unanimous = count (λ s. multi_labelled s && unanimous (verdicts s)) specs;
  pct_agreement = quotient (sum_pairs equal_pairs specs) (sum_pairs all_pairs specs);
}
