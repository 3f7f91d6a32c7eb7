-- ===== src/Verify/Conformance.antt =====
-- What src/pqpatch/verifier/api.py records of L4 where no runtime is configured: the check raises
-- NotImplementedError, the layer is SKIPPED, and the verdict still lists it as evaluated.
use nesy_pqpatch.Prelude.{◌≡◌, Text, true, inl, inr, arith}
use nesy_pqpatch.Model.{
  l1_syntactic, l2_dataflow, l3_build, l4_conformance, Patch, Site, Policy, Verdict, accept,
}
use nesy_pqpatch.Model.Report.{passed, was_skipped}
use nesy_pqpatch.Python.{ok, raised, Exception, not_implemented}
use nesy_pqpatch.Verify.{Env, layer_order, run_layer, verify_patch}
use nesy_pqpatch.Verify.Accept.{verify_patch_cases}

module _ (env : Env) (patch : Patch) (site : Site) (policy : Policy) (l1_mode : Text) where
  module _ (e : Exception) (absent : env.l4_check patch site policy ≡ raised e)
      (kind : e.kind ≡ not_implemented) where
    l4-passed : passed (run_layer env patch site policy l1_mode l4_conformance) ≡ true
    unfolding run_layer passed
    l4-passed = ground (arith, absent, kind)

    l4-was_skipped : was_skipped (run_layer env patch site policy l1_mode l4_conformance) ≡ true
    unfolding run_layer was_skipped
    l4-was_skipped = ground (arith, absent, kind)

    -- With all four layers on and no conformance runtime (the L4 check raises
    -- NotImplementedError), a patch that the other three layers pass is accepted, its L4 report is
    -- a skipped one, and the verdict lists all four layers as evaluated.
    pub skipped_layer_is_evaluated :
        (v : Verdict)
        → verify_patch env patch site policy l1_mode (λ _. true) ≡ ok v
        → passed (run_layer env patch site policy l1_mode l1_syntactic) ≡ true
        → passed (run_layer env patch site policy l1_mode l2_dataflow) ≡ true
        → passed (run_layer env patch site policy l1_mode l3_build) ≡ true
        → (v.status ≡ accept)
          × (v.layers_evaluated ≡ layer_order)
          × (was_skipped (run_layer env patch site policy l1_mode l4_conformance) ≡ true)
    skipped_layer_is_evaluated v h p1 p2 p3 =
        elim (verify_patch_cases env patch site policy l1_mode (λ _. true) v h) [
          | inl (c, a) ↦ (a.0, a.4, l4-was_skipped)
          | inr (s, f, n, r) ↦ absurd (ground (arith, l4-passed))
        ]
