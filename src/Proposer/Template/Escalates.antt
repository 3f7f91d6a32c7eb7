-- ===== src/Proposer/Template/Escalates.antt =====
-- The repair loop of src/pqpatch/loop.py with the backend of
-- src/pqpatch/proposer/template_backend.py.
use nesy_pqpatch.Prelude.{
  refl, splitlines_keepends, Option, none, text_eq, ◌||◌, ℕ, ◌≡◌, ◌≢◌, ap, sym, ◌∙◌, inl, inr, Text,
  text, any, true, none, [],
}
use nesy_pqpatch.Model.{
  l1_syntactic, Site, Context, Policy, Patch, Verdict, accept, escalate, TraceRecord,
}
use nesy_pqpatch.Python.{ok, ok-eq}
use nesy_pqpatch.Loop.Total.{migrate_site-total}
use nesy_pqpatch.Proposer.Template.{
  Files, rewrite_site, patch_from, template_patch, template_propose,
}
use nesy_pqpatch.Regex.{found_in}
use nesy_pqpatch.Diff.Lines.{removed_lines}
use nesy_pqpatch.Rules.Registry.{rules_by_layer}
use nesy_pqpatch.L1.{l1_rules}
use nesy_pqpatch.L1.Families.{classical_at_site_re}
use nesy_pqpatch.L1.Guarantees.{accepted_patch_migrates}
use nesy_pqpatch.Verify.{Env, verify_patch}
use nesy_pqpatch.Loop.{Propose, Options, LoopState, propose_at, verify_at, escalated, migrate_site}
use nesy_pqpatch.Loop.Outcome.{migrate_site-Ends}

-- What a run returns that never accepts.
abbrev pub IsEscalation : ℕ → Verdict → Type 0
IsEscalation k v = (v.status ≡ escalate) × (v.accepted_patch ≡ none) × (v.attempts_used ≡ k)

module _ (sha256_hex : Text → Text) (propose : Propose) (env : ℕ → Env) (site : Site)
    (context : Context) (policy : Policy) (options : Options) where
  empty_diff-not-accepted :
      (s : LoopState) (patch : Patch) (v : Verdict)
      → patch.unified_diff ≡ []
      → options.l1_mode ≡ text "pq"
      → options.enabled_layers l1_syntactic ≡ true
      → rules_by_layer (env s.attempt).registry l1_syntactic ≡ l1_rules
      → verify_at sha256_hex propose env site context policy options s patch ≡ ok v
      → v.status ≢ accept
  unfolding verify_at
  empty_diff-not-accepted s patch v empty mode on registry verified accepts =
      let (_, _, removed, _) =
        accepted_patch_migrates patch site policy (env s.attempt) options.enabled_layers v
          (ap (λ m. verify_patch (env s.attempt) patch site policy m options.enabled_layers)
              (sym mode)
            ∙ verified)
          accepts on registry in
      let none_removed : any (found_in classical_at_site_re) (removed_lines []) ≡ true =
        ap (λ d. any (found_in classical_at_site_re) (removed_lines d)) (sym empty) ∙ removed in
      unfold removed_lines in cc

  -- A backend whose every patch has no diff is never accepted by the L1 rules.
  empty_diffs-escalate :
      (v : Verdict) (t : TraceRecord)
      → ((s : LoopState) (patch : Patch)
          → propose_at sha256_hex propose env site context policy options s ≡ ok patch
          → patch.unified_diff ≡ [])
      → options.l1_mode ≡ text "pq"
      → options.enabled_layers l1_syntactic ≡ true
      → ((attempt : ℕ) → rules_by_layer (env attempt).registry l1_syntactic ≡ l1_rules)
      → migrate_site sha256_hex propose env site context policy options ≡ ok (v, t)
      → IsEscalation options.k v
  unfolding escalated
  empty_diffs-escalate v t empty mode on registry h =
      let (s, reach, e) =
        migrate_site-Ends sha256_hex propose env site context policy options v t h in
      elim e [
        | inl (a, b) ↦ absurd (
            empty_diff-not-accepted s a.patch v (empty s a.patch a.proposed) mode on
              (registry s.attempt) a.verified a.accepts)
        | inr (g, b) ↦ (
          ap (λ x. x.status) g.verdict,
          ap (λ x. x.accepted_patch) g.verdict,
          ap (λ x. x.attempts_used) g.verdict,
        )
      ]

module _ (sha256_hex : Text → Text) (files : Files) (env : ℕ → Env) (site : Site)
    (context : Context) (policy : Policy) (options : Options) where
  -- the patch of a site that the template cannot rewrite
  abbrev no_op : ℕ → Text → Patch
  no_op attempt prompt_version = template_patch files context.site attempt prompt_version [] []

  template_propose-no_op :
      (original : Text) (feedback : Option Text) (attempt seed : ℕ) (prompt_version : Text)
      → files.read_text context.site.file_path ≡ ok original
      → rewrite_site
          (policy.floors context.site.usage_class)
          (splitlines_keepends original)
          context.site.line
        ≡ none
      → template_propose files context policy feedback attempt seed prompt_version
        ≡ ok (no_op attempt prompt_version)
  unfolding template_propose patch_from
  template_propose-no_op original feedback attempt seed prompt_version r n = rw (r, n) refl

  -- Where the site's file can be read, and the line of the site has no literal for the template to
  -- rewrite or the policy no floor for its usage class, the loop with the template backend returns
  -- with an escalation after `k` attempts and accepts no patch: when both modes are allowed, the L1
  -- rules are on, in the mode "pq", and the rules registered for that layer are the sixteen.
  pub template-escalates :
      (original : Text)
      → files.read_text context.site.file_path ≡ ok original
      → rewrite_site
          (policy.floors context.site.usage_class)
          (splitlines_keepends original)
          context.site.line
        ≡ none
      → options.l1_mode ≡ text "pq"
      → (text_eq options.feedback_mode (text "rule")
          || text_eq options.feedback_mode (text "generic"))
        ≡ true
      → options.enabled_layers l1_syntactic ≡ true
      → ((attempt : ℕ) → rules_by_layer (env attempt).registry l1_syntactic ≡ l1_rules)
      → (v : Verdict) × (t : TraceRecord) × (migrate_site sha256_hex
            (template_propose files)
            env
            site
            context
            policy
            options
          ≡ ok (v, t))
        × IsEscalation options.k v
  unfolding propose_at template_patch text_eq
  template-escalates original r n mode feedback_mode on registry =
      let (result, h) =
        migrate_site-total sha256_hex (template_propose files) env site context policy options
          (λ feedback attempt. (
            no_op attempt options.prompt_version,
            template_propose-no_op original feedback attempt options.seed options.prompt_version r
                n,
          ))
          (rw mode refl) feedback_mode in
      (
        result.0,
        result.1,
        h,
        empty_diffs-escalate sha256_hex (template_propose files) env site context policy options
            result.0 result.1
            (λ s patch p.
              ap (λ x. x.unified_diff)
                (sym (
                  ok-eq (
                    sym (
                      template_propose-no_op original s.feedback s.attempt options.seed
                        options.prompt_version r n)
                    ∙ p))))
            mode on registry h,
      )
