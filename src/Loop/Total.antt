-- ===== src/Loop/Total.antt =====
-- `migrate_site` (src/pqpatch/loop.py) returns a result, for any bound, if the backend does.
use nesy_pqpatch.Prelude.{ℕ, zero, suc, ◌≡◌, ◌∙◌, Text, text, text_eq, true, ◌||◌, inl, inr, Option}
use nesy_pqpatch.Model.{Site, Context, Policy, Patch, Verdict, TraceRecord}
use nesy_pqpatch.Python.{ok}
use nesy_pqpatch.Verify.{Env}
use nesy_pqpatch.Verify.Accept.{verify_patch-total}
use nesy_pqpatch.Loop.{
  Propose, Options, LoopState, start, propose_at, verify_at, after_rejection, run_attempts,
  migrate_site,
}
use nesy_pqpatch.Loop.Steps.{VerdictStatus-cases, run-zero, run-accept, run-retry}

module _ (sha256_hex : Text → Text) (propose : Propose) (env : ℕ → Env) (site : Site)
    (context : Context) (policy : Policy) (options : Options) where
  abbrev Proposes : Type 0
  Proposes =
      (feedback : Option Text) (attempt : ℕ)
      → (p : Patch) × (propose context policy feedback attempt options.seed options.prompt_version
          ≡ ok p)

  run_attempts-total :
      (turns : ℕ) (s : LoopState)
      → Proposes
      → (text_eq options.l1_mode (text "pq") || text_eq options.l1_mode (text "stock")) ≡ true
      → (r : Verdict × TraceRecord) × (run_attempts sha256_hex propose env site context policy
            options turns s
          ≡ ok r)
  unfolding propose_at verify_at
  run_attempts-total zero s answers mode =
      (_, run-zero sha256_hex propose env site context policy options s)
  run_attempts-total (suc turns) s answers mode =
      let (p, e) = answers s.feedback s.attempt in
      let (v, f) =
        verify_patch-total (env s.attempt) p site policy options.l1_mode options.enabled_layers
          mode in
      elim (VerdictStatus-cases sha256_hex propose env site context policy options v.status) [
        | inl a ↦
            (_, run-accept sha256_hex propose env site context policy options turns s p v e f a)
        | inr n ↦
            let (r, h) =
              run_attempts-total turns
                (after_rejection sha256_hex propose env site context policy options s v) answers
                mode in
            (r, run-retry sha256_hex propose env site context policy options turns s p v e f n ∙ h)
      ]

  -- If the backend answers every request with a patch, and both modes are among those allowed, the
  -- loop returns a verdict and a trace, whatever the checks of the verifier do.
  pub migrate_site-total :
      ((feedback : Option Text) (attempt : ℕ)
        → (p : Patch) × (propose context policy feedback attempt options.seed options.prompt_version
            ≡ ok p))
      → (text_eq options.l1_mode (text "pq") || text_eq options.l1_mode (text "stock")) ≡ true
      → (text_eq options.feedback_mode (text "rule")
          || text_eq options.feedback_mode (text "generic"))
        ≡ true
      → (r : Verdict × TraceRecord) × (migrate_site sha256_hex propose env site context policy
            options
          ≡ ok r)
  unfolding migrate_site
  migrate_site-total answers l1 mode =
      let (r, h) = run_attempts-total options.k start answers l1 in (r, rw mode h)
