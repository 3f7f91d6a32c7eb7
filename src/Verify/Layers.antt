-- ===== src/Verify/Layers.antt =====
-- The rule layers of src/pqpatch/verifier/api.py: `_run_rule_registry_layer` stops at the first
-- rule that does not return PASS, and an exception is an ERROR.
use nesy_pqpatch.Prelude.{
  ◌≡◌, refl, ap, ◌∙◌, ◌⊎◌, inl, inr, Text, text, text_eq, Bool, true, false, Bool-cases, not, List,
  [], ◌∷◌, ◌++◌, map, all, All, arith,
}
use nesy_pqpatch.Model.{
  Layer, l1_syntactic, l2_dataflow, l3_build, l4_conformance, pass, skipped, eq_status, Patch, Site,
  Policy,
}
use nesy_pqpatch.Model.Report.{passed, does_not_block}
use nesy_pqpatch.Python.{Result, ok, raised}
use nesy_pqpatch.Rules.Spec.{RuleOutcome, RuleSpec}
use nesy_pqpatch.Rules.Registry.{rules_by_layer}
use nesy_pqpatch.Verify.{
  Env, rule_outcome, rule_result, run_rules, run_rule_registry_layer, run_layer,
}

module _ (env : Env) (patch : Patch) (site : Site) (policy : Policy) where
  abbrev pub rule_passes : RuleSpec → Bool
  rule_passes spec = eq_status (rule_result env patch site policy spec).status pass

  abbrev pub rule_skips : RuleSpec → Bool
  rule_skips spec = eq_status (rule_result env patch site policy spec).status skipped

  -- The check of the rule returned, and what it returned is PASS.
  abbrev pub ReturnsPass : RuleSpec → Type 0
  ReturnsPass spec = (x : RuleOutcome) × (spec.check patch site policy ≡ ok x) × (x.status ≡ pass)

  -- What a layer's rules leave: either all passed and each has a result, or the results end with
  -- the first rule that did not pass.
  pub record Halts (specs : List RuleSpec) : Type 0 where
    pub before : List RuleSpec
    pub at : RuleSpec
    pub after : List RuleSpec
    pub split : specs ≡ before ++ (at ∷ after)
    pub clear : all rule_passes before ≡ true
    pub stops : rule_passes at ≡ false

  run_rules-pass :
      (specs : List RuleSpec)
      → all rule_passes specs ≡ true
      → run_rules env patch site policy specs ≡ map (rule_result env patch site policy) specs
  unfolding run_rules
  run_rules-pass [] h = refl
  run_rules-pass (s ∷ specs) h = ground (arith, run_rules-pass specs)

  run_rules-split :
      (before : List RuleSpec) (at : RuleSpec) (after : List RuleSpec)
      → all rule_passes before ≡ true
      → rule_passes at ≡ false
      → run_rules env patch site policy (before ++ (at ∷ after))
        ≡ map (rule_result env patch site policy) (before ++ at ∷ [])
  unfolding run_rules
  run_rules-split [] at after h n = ground arith
  run_rules-split (s ∷ before) at after h n = ground (arith, run_rules-split before at after)

  halts : (specs : List RuleSpec) → all rule_passes specs ≡ false → Halts specs
  halts [] h = cc
  halts (s ∷ specs) h = elim (Bool-cases (rule_passes s)) [
    | inr n ↦ record { before = []; at = s; after = specs; split = refl; clear = refl; stops = n }
    | inl c ↦
        let k = halts specs (ground arith) in
        record {
          before = s ∷ k.before;
          at = k.at;
          after = k.after;
          split = ap (λ r. s ∷ r) k.split;
          clear = ground (arith, k.clear);
          stops = k.stops;
        }
  ]

  -- The results of a rule layer are those of its rules up to and including the first that does
  -- not return PASS, and of all rules if each returns PASS.
  pub run_rules_prefix :
      (specs : List RuleSpec)
      → ((all rule_passes specs ≡ true)
          × (run_rules env patch site policy specs ≡ map (rule_result env patch site policy) specs))
        ⊎ ((k : Halts specs) × (run_rules env patch site policy specs
              ≡ map (rule_result env patch site policy) (k.before ++ k.at ∷ [])))
  run_rules_prefix specs = elim (Bool-cases (all rule_passes specs)) [
    | inl c ↦ inl (c, run_rules-pass specs c)
    | inr n ↦
        let k = halts specs n in
        inr (
          k,
          ap (run_rules env patch site policy) k.split
              ∙ run_rules-split k.before k.at k.after k.clear k.stops,
        )
  ]

  rule_passes-returns : (spec : RuleSpec) → rule_passes spec ≡ true → ReturnsPass spec
  unfolding rule_result
  rule_passes-returns spec h = go (spec.check patch site policy) refl h
    where
      go :
          (r : Result RuleOutcome)
          → spec.check patch site policy ≡ r
          → eq_status (rule_outcome (spec.check patch site policy)).status pass ≡ true
          → ReturnsPass spec
      go (ok x) e p = (x, e, ground (arith, e))
      go (raised x) e p = ground (arith, e)

  passed-returns :
      (specs : List RuleSpec)
      → all (λ r. not (rule_skips r)) specs ≡ true
      → all (λ x. does_not_block x.status) (run_rules env patch site policy specs) ≡ true
      → All ReturnsPass specs
  unfolding run_rules
  passed-returns [] n h = tt
  passed-returns (s ∷ specs) n h = elim (Bool-cases (rule_passes s)) [
    | inl p ↦ (rule_passes-returns s p, passed-returns specs (ground arith) (ground arith))
    | inr p ↦ absurd (ground arith)
  ]

  -- The layers that run the registered rules: L2 always, L1 unless the stock pack replaces it.
  abbrev pub runs_rules : Text → Layer → Bool
  runs_rules l1_mode l1_syntactic = not (text_eq l1_mode (text "stock"))
  runs_rules l1_mode l2_dataflow = true
  runs_rules l1_mode _ = false

  run_layer-rules :
      (l1_mode : Text) (l : Layer)
      → runs_rules l1_mode l ≡ true
      → run_layer env patch site policy l1_mode l ≡ run_rule_registry_layer env patch site policy l
  unfolding run_layer
  run_layer-rules l1_mode l1_syntactic h = ground arith
  run_layer-rules l1_mode l2_dataflow h = refl
  run_layer-rules l1_mode l3_build h = cc
  run_layer-rules l1_mode l4_conformance h = cc

  -- A rule layer that passes has had PASS from every rule registered for it, if no rule returns
  -- SKIPPED. So a rule that raises, or that another rule's early end left out, is excluded.
  pub layer-passed-returns :
      (l1_mode : Text) (l : Layer)
      → runs_rules l1_mode l ≡ true
      → all (λ r. not (rule_skips r)) (rules_by_layer env.registry l) ≡ true
      → passed (run_layer env patch site policy l1_mode l) ≡ true
      → All ReturnsPass (rules_by_layer env.registry l)
  unfolding passed run_rule_registry_layer
  layer-passed-returns l1_mode l m n h =
      passed-returns (rules_by_layer env.registry l) n (rw (run_layer-rules l1_mode l m) at h)
