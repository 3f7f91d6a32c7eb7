-- ===== src/L1/Guarantees.antt =====
-- What the L1 rules of src/pqpatch/verifier/l1_syntactic/rules.py guarantee of a patch that the
-- verifier accepts.
mod Verdicts
pub mod Primitives
use nesy_pqpatch.Prelude.{
  keep-all, ℕ, ◌≤◌, ◌≡◌, ◌≢◌, refl, ap, sym, subst, ◌∙◌, Text, text, text_eq, Bool, true, false,
  Bool-cases, not, ◌&&◌, inl, inr, Option, none, some, List, [], ◌∷◌, ◌++◌, all, All, any, keep,
  ltb, arith, if◌then◌else◌,
}
use nesy_pqpatch.Model.{
  l1_syntactic, pass, skipped, eq_status, eq_layer, Patch, Site, Policy, Verdict, accept, Layer,
}
use nesy_pqpatch.Python.{Result, ok, raised}
use nesy_pqpatch.Regex.{Found, found_in, find_all, whole}
use nesy_pqpatch.Rules.Spec.{RuleOutcome, RuleSpec}
use nesy_pqpatch.Rules.Registry.{rules_by_layer}
use nesy_pqpatch.Rules.Ranks.{floor_rank, token_rank, token_re}
use nesy_pqpatch.Diff.Lines.{added_lines, removed_lines, touched_files}
use nesy_pqpatch.Diff.Scope.{path_in_scope}
use nesy_pqpatch.Verify.{Env, rule_outcome, rule_result, verify_patch}
use nesy_pqpatch.Verify.Layers.{rule_skips, ReturnsPass}
use nesy_pqpatch.Verify.Accept.{accept_rules_return_pass}
use nesy_pqpatch.L1.{l1_rules}
use nesy_pqpatch.L1.Params.{
  rule_param_03, rule_param_04, rule_param_05, weak_token, first_weak_token, check_param_weakening,
  rule_param_01,
}
use nesy_pqpatch.L1.Families.{
  rule_key_01, rule_hyb_01, insert_text, sort_texts, out_of_scope, pq_primitive_re,
  classical_at_site_re, check_scope, check_migration_obligation, rule_scope_01, rule_mig_01,
}
use nesy_pqpatch.L1.Fallback.{rule_fall_01, rule_fall_03}
use nesy_pqpatch.L1.Handlers.{rule_fall_02, rule_fall_04, rule_exc_01, rule_exc_02}
use nesy_pqpatch.L1.Randomness.{rule_rand_01, rule_rand_02}
use nesy_pqpatch.Regex.Words.{contains_word, any-contains}
use Verdicts.{l1_rules_never_skip}
use Primitives.{pq_words, classical_words, pq_primitive_re-Finds, classical_at_site_re-Finds}

-- A token ranks at the floor or above it, or has no rank.
abbrev pub AtLeast : ℕ → Option ℕ → Type 0
AtLeast floor none = Unit
AtLeast floor (some rank) = floor ≤ rank

abbrev pub TokensAtLeast : ℕ → List Text → Type 0
TokensAtLeast floor =
    All (λ line. All (λ m. AtLeast floor (token_rank (whole m))) (find_all token_re line))

weak_token-none :
    (floor : ℕ) (ms : List Found)
    → weak_token floor ms ≡ none
    → All (λ m. AtLeast floor (token_rank (whole m))) ms
unfolding weak_token
weak_token-none floor [] h = tt
weak_token-none floor (m ∷ ms) h =
    (at_least (token_rank (whole m)) refl, weak_token-none floor ms (ground arith))
  where
    at_least : (r : Option ℕ) → token_rank (whole m) ≡ r → AtLeast floor (token_rank (whole m))
    at_least none e = rw e tt
    at_least (some rank) e = rw e (ground (arith, e, h))

first_weak_token-none :
    (floor : ℕ) (lines : List Text)
    → first_weak_token floor lines ≡ none
    → TokensAtLeast floor lines
unfolding first_weak_token
first_weak_token-none floor [] h = tt
first_weak_token-none floor (line ∷ lines) h = (
  weak_token-none floor (find_all token_re line) (ground arith),
  first_weak_token-none floor lines (ground arith),
)

insert_text-ne : (a : Text) (xs : List Text) → insert_text a xs ≢ []
unfolding insert_text
insert_text-ne a [] e = cc
insert_text-ne a (x ∷ xs) e = ground (arith, e)

pub sort_texts-nil : (xs : List Text) → sort_texts xs ≡ [] → xs ≡ []
unfolding sort_texts
sort_texts-nil [] h = refl
sort_texts-nil (x ∷ xs) h = absurd (insert_text-ne x (sort_texts xs) h)

keep-nil : (p : Text → Bool) (xs : List Text) → keep (λ f. not (p f)) xs ≡ [] → all p xs ≡ true
keep-nil p [] h = refl
keep-nil p (x ∷ xs) h = elim (Bool-cases (p x)) [
  | inl t ↦ rw t (keep-nil p xs (rw t at h))
  | inr f ↦ absurd (ground (arith, f, h))
]

all_syntactic : all (λ r. eq_layer r.layer l1_syntactic) l1_rules ≡ true
unfolding l1_rules rule_param_01 rule_key_01 rule_fall_01 rule_fall_02 rule_rand_01 rule_rand_02
    rule_hyb_01 rule_scope_01 rule_mig_01 rule_param_03 rule_param_04 rule_param_05 rule_fall_03
    rule_fall_04 rule_exc_01 rule_exc_02
all_syntactic = refl

-- the rules register for their layer
pub rules_by_layer-l1_rules : rules_by_layer l1_rules l1_syntactic ≡ l1_rules
unfolding rules_by_layer
rules_by_layer-l1_rules = keep-all (λ r. eq_layer r.layer l1_syntactic) l1_rules all_syntactic

-- three of the rules, by their places
three_rules :
    (P : RuleSpec → Type 0) → All P l1_rules → P rule_param_01 × P rule_scope_01 × P rule_mig_01
unfolding l1_rules
three_rules P all_hold = (all_hold.0, all_hold.1.1.1.1.1.1.1.0, all_hold.1.1.1.1.1.1.1.1.0)

module _ (patch : Patch) (site : Site) (policy : Policy) where
  param_weakening-pass :
      (floor : Text) (rank : ℕ) (x : RuleOutcome)
      → check_param_weakening patch site policy ≡ ok x
      → x.status ≡ pass
      → policy.floors site.usage_class ≡ some floor
      → floor_rank floor ≡ some rank
      → TokensAtLeast rank (added_lines patch.unified_diff)
  unfolding check_param_weakening
  param_weakening-pass floor rank x h p f r =
      first_weak_token-none rank (added_lines patch.unified_diff) (ground (arith, f, r))

  scope-pass :
      (x : RuleOutcome)
      → check_scope patch site policy ≡ ok x
      → x.status ≡ pass
      → all (λ f. path_in_scope f site.file_path) (touched_files patch.unified_diff) ≡ true
  unfolding check_scope out_of_scope
  scope-pass x h p =
      keep-nil (λ f. path_in_scope f site.file_path) (touched_files patch.unified_diff)
        (sort_texts-nil (out_of_scope patch site)
          (sorted_none (sort_texts (out_of_scope patch site)) refl))
    where
      sorted_none :
          (fs : List Text)
          → sort_texts (out_of_scope patch site) ≡ fs
          → sort_texts (out_of_scope patch site) ≡ []
      sorted_none [] e = e
      sorted_none (f ∷ fs) e = absurd (ground (arith, e, h, p))

  migration-pass :
      (x : RuleOutcome)
      → check_migration_obligation patch site policy ≡ ok x
      → x.status ≡ pass
      → (any (found_in pq_primitive_re) (added_lines patch.unified_diff) ≡ true)
        × (any (found_in classical_at_site_re) (removed_lines patch.unified_diff) ≡ true)
  unfolding check_migration_obligation
  migration-pass x h p = (ground (arith, h, p), ground (arith, h, p))

  -- Each L1 rule was run on an accepted patch and passed.
  l1_rules_pass :
      (env : Env) (enabled_layers : Layer → Bool) (v : Verdict)
      → verify_patch env patch site policy (text "pq") enabled_layers ≡ ok v
      → v.status ≡ accept
      → enabled_layers l1_syntactic ≡ true
      → rules_by_layer env.registry l1_syntactic ≡ l1_rules
      → All (ReturnsPass env patch site policy) l1_rules
  unfolding text_eq
  l1_rules_pass env enabled_layers v h a on registry =
      subst (All (ReturnsPass env patch site policy)) registry (
        accept_rules_return_pass env patch site policy (text "pq") enabled_layers v l1_syntactic h a
          on refl (rw registry (l1_rules_never_skip patch site policy env)))

  -- When the verifier accepts with its L1 rules on, in the mode "pq", and the rules registered for
  -- that layer are the sixteen L1 rules, then every file that a `+++` header of the diff names, other
  -- than /dev/null, is in scope of the site's file; some added line contains ML-KEM, ML-DSA or
  -- SLH-DSA; some removed line matches the pattern of the classical primitives, which also matches
  -- the DSA of SLH-DSA; and so some removed line contains RSA, ECDSA, DSA, ECDH, DiffieHellman, 3DES,
  -- DES or "EC" with its quotation marks.
  pub accepted_patch_migrates :
      (env : Env) (enabled_layers : Layer → Bool) (v : Verdict)
      → verify_patch env patch site policy (text "pq") enabled_layers ≡ ok v
      → v.status ≡ accept
      → enabled_layers l1_syntactic ≡ true
      → rules_by_layer env.registry l1_syntactic ≡ l1_rules
      → (all (λ f. path_in_scope f site.file_path) (touched_files patch.unified_diff) ≡ true)
        × (any (contains_word pq_words) (added_lines patch.unified_diff) ≡ true)
        × (any (found_in classical_at_site_re) (removed_lines patch.unified_diff) ≡ true)
        × (any (contains_word classical_words) (removed_lines patch.unified_diff) ≡ true)
  unfolding rule_scope_01 rule_mig_01
  accepted_patch_migrates env enabled_layers v h a on registry =
      let (_, scope, migration) =
        three_rules (ReturnsPass env patch site policy)
          (l1_rules_pass env enabled_layers v h a on registry) in
      let moved = migration-pass migration.0 migration.1 migration.2 in
      let names = any-contains pq_primitive_re pq_words pq_primitive_re-Finds in
      let removes = any-contains classical_at_site_re classical_words classical_at_site_re-Finds in
      (
        scope-pass scope.0 scope.1 scope.2,
        names (added_lines patch.unified_diff) moved.0,
        moved.1,
        removes (removed_lines patch.unified_diff) moved.1,
      )

  -- When the verifier accepts with its L1 rules on, in the mode "pq", the rules registered for
  -- that layer are the sixteen L1 rules, and the policy's floor for the site's usage class is a
  -- parameter set of a known category, no ML-KEM or ML-DSA token of an added line ranks below it.
  pub accepted_patch_meets_floor :
      (env : Env) (enabled_layers : Layer → Bool) (v : Verdict) (floor : Text) (rank : ℕ)
      → verify_patch env patch site policy (text "pq") enabled_layers ≡ ok v
      → v.status ≡ accept
      → enabled_layers l1_syntactic ≡ true
      → rules_by_layer env.registry l1_syntactic ≡ l1_rules
      → policy.floors site.usage_class ≡ some floor
      → floor_rank floor ≡ some rank
      → TokensAtLeast rank (added_lines patch.unified_diff)
  unfolding rule_param_01
  accepted_patch_meets_floor env enabled_layers v floor rank h a on registry f r =
      let (weakening, _, _) =
        three_rules (ReturnsPass env patch site policy)
          (l1_rules_pass env enabled_layers v h a on registry) in
      param_weakening-pass floor rank weakening.0 weakening.1 weakening.2 f r
