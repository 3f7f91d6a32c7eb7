-- ===== src/Verify/Accept.antt =====
-- When `verify_patch` (src/pqpatch/verifier/api.py) accepts, when it rejects, and what the verdict
-- then records.
use nesy_pqpatch.Prelude.{
  ◌≡◌, ap, ◌∙◌, ◌⊎◌, inl, inr, ◌↔◌, ◌||◌, text, text_eq, Text, Bool, true, false, not, none, some,
  List, [], ◌∷◌, ◌++◌, map, all, All, keep, arith,
}
use nesy_pqpatch.Model.{
  Layer, l1_syntactic, l2_dataflow, l3_build, l4_conformance, Patch, Site, Policy, RuleResult,
  LayerReport, Verdict, accept, reject,
}
use nesy_pqpatch.Model.Report.{passed, first_failure, blocks, failed→first_failure}
use nesy_pqpatch.Python.{ok}
use nesy_pqpatch.Rules.Registry.{rules_by_layer}
use nesy_pqpatch.Verify.{Env, layer_order, run_layer, verify_from, verify_patch}
use nesy_pqpatch.Verify.Order
use nesy_pqpatch.Verify.Order.{clears, report_of, StopsAt, verify_layers}
use nesy_pqpatch.Verify.Layers.{rule_skips, runs_rules, ReturnsPass, layer-passed-returns}

module _ (env : Env) (patch : Patch) (site : Site) (policy : Policy) (l1_mode : Text)
    (enabled_layers : Layer → Bool) where
  abbrev pub clear : List Layer → Bool
  clear = all (clears env patch site policy l1_mode enabled_layers)

  abbrev pub reports : List Layer → List LayerReport
  reports = map (report_of env patch site policy l1_mode enabled_layers)

  verify_patch-ok :
      (v : Verdict)
      → verify_patch env patch site policy l1_mode enabled_layers ≡ ok v
      → v ≡ verify_from env patch site policy l1_mode enabled_layers layer_order [] []
  unfolding verify_patch
  verify_patch-ok v h = ground arith

  -- What a verdict says when it accepts.
  abbrev pub Accepts : List Layer → Verdict → Type 0
  Accepts ls v =
      (v.status ≡ accept)
      × (v.accepted_patch ≡ some patch)
      × (v.rejected_rule_id ≡ none)
      × (v.layer_reports ≡ reports ls)
      × (v.layers_evaluated ≡ keep enabled_layers ls)

  -- What a verdict says when it rejects at a layer: `f` is the failure found there.
  abbrev pub RejectsAt :
      {ls : List Layer}
      → StopsAt env patch site policy l1_mode enabled_layers ls
      → Verdict
      → RuleResult
      → Type 0
  RejectsAt s v f =
      (v.status ≡ reject)
      × (v.accepted_patch ≡ none)
      × (first_failure (run_layer env patch site policy l1_mode s.at) ≡ some f)
      × (v.rejected_rule_id ≡ some f.rule_id)
      × (blocks f.status ≡ true)
      × (v.layer_reports ≡ reports s.before ++ run_layer env patch site policy l1_mode s.at ∷ [])
      × (v.layers_evaluated ≡ keep enabled_layers s.before ++ s.at ∷ [])

  verify_from-cases :
      (ls : List Layer) (v : Verdict)
      → v ≡ verify_from env patch site policy l1_mode enabled_layers ls [] []
      → ((clear ls ≡ true) × Accepts ls v)
        ⊎ ((s : StopsAt env patch site policy l1_mode enabled_layers ls) × (f : RuleResult) × (clear
                ls
              ≡ false)
            × RejectsAt s v f)
  verify_from-cases ls v h = elim (verify_layers env patch site policy l1_mode enabled_layers ls) [
    | inl (c, e) ↦
        let w = h ∙ e in
        inl (
          c,
          (
            ap (λ x. x.status) w,
            ap (λ x. x.accepted_patch) w,
            ap (λ x. x.rejected_rule_id) w,
            ap (λ x. x.layer_reports) w,
            ap (λ x. x.layers_evaluated) w,
          ),
        )
    | inr (s, n, e) ↦
        let (f, first, b) =
          failed→first_failure (run_layer env patch site policy l1_mode s.at) s.fails in
        let w : v ≡ Order.rejected_at env patch site policy l1_mode enabled_layers s = h ∙ e in
        inr (
          s,
          f,
          n,
          (
            ap (λ x. x.status) w,
            ap (λ x. x.accepted_patch) w,
            first,
            ap (λ x. x.rejected_rule_id) w ∙ rw first,
            b,
            ap (λ x. x.layer_reports) w ∙ rw s.is_enabled,
            ap (λ x. x.layers_evaluated) w,
          ),
        )
  ]

  -- When the verifier returns a verdict, either each enabled layer clears and the verdict accepts
  -- the patch, with a report for each of the four layers in order and exactly the enabled layers
  -- as evaluated; or there is a first enabled layer whose report does not pass, and the verdict
  -- rejects, names the first rule that blocks there, and has the reports up to that layer and the
  -- enabled layers up to it as evaluated.
  pub verify_patch_cases :
      (v : Verdict)
      → verify_patch env patch site policy l1_mode enabled_layers ≡ ok v
      → ((clear layer_order ≡ true) × Accepts layer_order v)
        ⊎ ((s : StopsAt env patch site policy l1_mode enabled_layers layer_order) × (f : RuleResult)
            × (clear layer_order ≡ false)
            × RejectsAt s v f)
  verify_patch_cases v h = verify_from-cases layer_order v (verify_patch-ok v h)

  -- The verifier accepts exactly when each enabled layer's report passes.
  pub verify_patch-accept_iff :
      (v : Verdict)
      → verify_patch env patch site policy l1_mode enabled_layers ≡ ok v
      → (v.status ≡ accept) ↔ (clear layer_order ≡ true)
  verify_patch-accept_iff v h = elim (verify_patch_cases v h) [
    | inl (c, a) ↦ ((λ _. c), (λ _. a.0))
    | inr (s, f, n, r) ↦ ((λ e. absurd (ground (arith, r.0))), (λ c. absurd (ground arith)))
  ]

  -- When the verdict accepts, and the L1 or L2 rules are on and none of them returns SKIPPED, every
  -- rule that is registered for that layer was run on the patch and returned PASS: none raised.
  pub accept_rules_return_pass :
      (v : Verdict) (l : Layer)
      → verify_patch env patch site policy l1_mode enabled_layers ≡ ok v
      → v.status ≡ accept
      → enabled_layers l ≡ true
      → runs_rules env patch site policy l1_mode l ≡ true
      → all (λ r. not (rule_skips env patch site policy r)) (rules_by_layer env.registry l) ≡ true
      → All (ReturnsPass env patch site policy) (rules_by_layer env.registry l)
  accept_rules_return_pass v l h a on m n =
      layer-passed-returns env patch site policy l1_mode l m n
        (layer_clears l on ((verify_patch-accept_iff v h).0 a))
    where
      layer_clears :
          (k : Layer)
          → enabled_layers k ≡ true
          → clear layer_order ≡ true
          → passed (run_layer env patch site policy l1_mode k) ≡ true
      layer_clears l1_syntactic e c = ground arith
      layer_clears l2_dataflow e c = ground arith
      layer_clears l3_build e c = ground arith
      layer_clears l4_conformance e c = ground arith

  -- With one of the two modes the verifier returns a verdict, whatever the checks do.
  pub verify_patch-total :
      (text_eq l1_mode (text "pq") || text_eq l1_mode (text "stock")) ≡ true
      → (v : Verdict) × (verify_patch env patch site policy l1_mode enabled_layers ≡ ok v)
  unfolding verify_patch
  verify_patch-total h =
      (verify_from env patch site policy l1_mode enabled_layers layer_order [] [], rw h)
