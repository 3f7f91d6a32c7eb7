-- ===== src/Loop/Outcome.antt =====
-- What a run of `migrate_site` (src/pqpatch/loop.py) returns.
use nesy_pqpatch.Prelude.{
  ℕ, ◌+◌, ◌<◌, ◌≤◌, ◌≡◌, ◌≢◌, refl, ap, ◌∙◌, sym, subst, ◌⊎◌, inl, inr, Text, text, text_eq, true,
  Option, none, some, List, [], ◌∷◌, ◌++◌, length, length-append, all, arith, if◌then◌else◌,
}
use nesy_pqpatch.Model.{
  Site, Context, Policy, Patch, Verdict, accept, escalate, TraceEvent, TraceRecord,
}
use nesy_pqpatch.Python.{ok}
use nesy_pqpatch.Verify.{Env, layer_order, rejection_feedback}
use nesy_pqpatch.Verify.Order.{clears}
use nesy_pqpatch.Verify.Accept.{verify_patch_cases}
use nesy_pqpatch.Trace.{finalize_trace, verify_content_hash}
use nesy_pqpatch.Trace.Tamper.{verify-finalize}
use nesy_pqpatch.Loop.{
  Propose, Options, LoopState, start, generic_feedback, accept_event, reject_event, after_rejection,
  trace_of, escalated, propose_at, verify_at, migrate_site,
}
use nesy_pqpatch.Loop.Steps.{
  RejectedStep, retry, Reach, here, next, AcceptsAt, GivesUpAt, Ends, run-Ends,
}

-- Events that are numbered from `n` on and all say "reject".
abbrev pub Rejections : ℕ → List TraceEvent → Type 0
Rejections n [] = Unit
Rejections n (e ∷ es) = (e.attempt ≡ n) × (e.status ≡ text "reject") × Rejections (n + 1) es

Rejections-append :
    (n : ℕ) (es : List TraceEvent) (e : TraceEvent)
    → Rejections n es
    → e.attempt ≡ n + length es
    → e.status ≡ text "reject"
    → Rejections n (es ++ e ∷ [])
Rejections-append n [] e h a s = (omega arith, s, tt)
Rejections-append n (x ∷ es) e h a s =
    (h.0, h.1, Rejections-append (n + 1) es e h.2 (omega arith) s)

-- The feedback that a turn gives to the next one.
abbrev pub feedback_for : Text → Verdict → Option Text
feedback_for mode v =
    if text_eq mode (text "rule") then rejection_feedback v else some generic_feedback

-- What holds at the top of each turn: one event for each earlier turn, and the feedback that the
-- last verdict gives.
pub record IsSound (mode : Text) (s : LoopState) : Type 0 where
  pub counted : s.attempt ≡ length s.events + 1
  pub rejections : Rejections 1 s.events
  pub fed :
      ((s.events ≡ []) × (s.feedback ≡ none) × (s.last_verdict ≡ none))
      ⊎ ((v : Verdict) × (s.last_verdict ≡ some v)
          × (v.status ≢ accept)
          × (s.feedback ≡ feedback_for mode v))

module _ (sha256_hex : Text → Text) (propose : Propose) (env : ℕ → Env) (site : Site)
    (context : Context) (policy : Policy) (options : Options) where
  RejectedStep-IsSound :
      {s t : LoopState}
      → RejectedStep sha256_hex propose env site context policy options s t
      → IsSound options.feedback_mode s
      → IsSound options.feedback_mode t
  unfolding after_rejection
  RejectedStep-IsSound (retry s p v e f n) h = record {
    counted = omega (
      arith,
      h.counted,
      length-append s.events
          (reject_event sha256_hex propose env site context policy options s.attempt v ∷ []),
    );
    rejections = Rejections-append 1 s.events _ h.rejections (omega (arith, h.counted)) refl;
    fed = inr (v, refl, n, refl);
  }

  -- Whatever the earlier turns did, a turn begins with one "reject" event for each of them, numbered
  -- in order, and with the feedback that the last verdict gives under the mode in force: none in
  -- the first turn, then the verdict's own feedback in mode "rule", else the generic sentence.
  pub Reach-IsSound :
      {s : LoopState}
      → Reach sha256_hex propose env site context policy options s
      → IsSound options.feedback_mode s
  Reach-IsSound here = record { counted = refl; rejections = tt; fed = inl (refl, refl, refl) }
  Reach-IsSound (next r st) = RejectedStep-IsSound st (Reach-IsSound r)

  abbrev Migrates : Verdict → TraceRecord → Type 0
  Migrates v t = migrate_site sha256_hex propose env site context policy options ≡ ok (v, t)

  -- A run that returns ends in a state that the loop reaches by rejected turns alone: either it
  -- accepts there the patch that the backend proposes for that state's feedback and attempt, which
  -- the verifier accepts, within the bound; or all `k` turns are spent and it escalates with the
  -- evidence of the last verdict.
  pub migrate_site-Ends :
      (v : Verdict) (t : TraceRecord)
      → Migrates v t
      → Ends sha256_hex propose env site context policy options (options.k + 1) v t
  unfolding migrate_site
  migrate_site-Ends v t h =
      subst (λ b. Ends sha256_hex propose env site context policy options b v t) (omega arith)
        (run-Ends sha256_hex propose env site context policy options options.k start v t here
          (ground arith))

  -- The events of a state that the loop reaches, one for each earlier attempt, all say "reject".
  pub Reach-Rejections :
      {s : LoopState}
      → Reach sha256_hex propose env site context policy options s
      → (s.attempt ≡ length s.events + 1) × Rejections 1 s.events
  Reach-Rejections r = let i = Reach-IsSound r in (i.counted, i.rejections)

  -- A result that accepts: the patch it carries is the one that the backend proposed in the last
  -- turn, at most the `k`-th, and every enabled layer passes on it. The trace has one "reject"
  -- event for each earlier turn and then one "accept" event.
  abbrev pub Migrated : Verdict → TraceRecord → Type 0
  Migrated v t =
      (s : LoopState) × (p : Patch) × (v.status ≡ accept)
      × (v.accepted_patch ≡ some p)
      × (s.attempt ≤ options.k)
      × (propose context policy s.feedback s.attempt options.seed options.prompt_version ≡ ok p)
      × (all (clears (env s.attempt) p site policy options.l1_mode options.enabled_layers)
            layer_order
          ≡ true)
      × (length s.events + 1 ≡ s.attempt)
      × Rejections 1 s.events
      × (t.events
          ≡ s.events
            ++ accept_event sha256_hex propose env site context policy options s.attempt v ∷ [])

  -- A result that escalates: no patch, all `k` turns used, and a "reject" event for each.
  abbrev pub Escalated : Verdict → TraceRecord → Type 0
  Escalated v t =
      (v.status ≡ escalate)
      × (v.accepted_patch ≡ none)
      × (v.attempts_used ≡ options.k)
      × (length t.events ≡ options.k)
      × Rejections 1 t.events

  accepts-Migrated :
      (s : LoopState) (v : Verdict) (t : TraceRecord)
      → Reach sha256_hex propose env site context policy options s
      → AcceptsAt sha256_hex propose env site context policy options s v t
      → s.attempt < options.k + 1
      → Migrated v t
  unfolding propose_at verify_at trace_of finalize_trace
  accepts-Migrated s v t reach a bound =
      let (counted, rejections) = Reach-Rejections reach in
      elim (verify_patch_cases (env s.attempt) a.patch site policy options.l1_mode
        options.enabled_layers v a.verified) [
          | inl (c, x) ↦ (
            s,
            a.patch,
            a.accepts,
            x.1,
            omega arith,
            a.proposed,
            c,
            omega arith,
            rejections,
            ap (λ x. x.events) a.trace,
          )
          | inr (k, f, n, r) ↦ absurd (ground (arith, r.0, a.accepts))
        ]

  gives_up-Escalated :
      (s : LoopState) (v : Verdict) (t : TraceRecord)
      → Reach sha256_hex propose env site context policy options s
      → GivesUpAt sha256_hex propose env site context policy options s v t
      → s.attempt ≡ options.k + 1
      → Escalated v t
  unfolding escalated trace_of finalize_trace
  gives_up-Escalated s v t reach g bound =
      let (counted, rejections) = Reach-Rejections reach in
      let events : t.events ≡ s.events = ap (λ x. x.events) g.trace in
      (
        ap (λ x. x.status) g.verdict,
        ap (λ x. x.accepted_patch) g.verdict,
        ap (λ x. x.attempts_used) g.verdict,
        rw events (omega arith),
        subst (Rejections 1) (sym events) rejections,
      )

  -- A run of `migrate_site` that returns accepts or escalates. If it accepts, the patch is the one
  -- that the backend proposed in that turn, within the bound, and every enabled layer passes on
  -- it; if it escalates there is no patch and exactly `k` attempts were rejected.
  pub migrate_site_outcome :
      (v : Verdict) (t : TraceRecord) → Migrates v t → Migrated v t ⊎ Escalated v t
  migrate_site_outcome v t h =
      let (s, reach, e) = migrate_site-Ends v t h in
      elim e [
        | inl (a, b) ↦ inl (accepts-Migrated s v t reach a b)
        | inr (g, b) ↦ inr (gives_up-Escalated s v t reach g b)
      ]

  -- The trace that comes back holds the verdict that comes back, and its content hash verifies,
  -- where a digest is never empty.
  pub migrate_site-trace :
      (v : Verdict) (t : TraceRecord)
      → Migrates v t
      → ((s : Text) → sha256_hex s ≢ [])
      → (t.verdict ≡ v) × (verify_content_hash sha256_hex t ≡ true)
  unfolding trace_of
  migrate_site-trace v t h never_empty =
      let (s, reach, e) = migrate_site-Ends v t h in
      elim e [
        | inl (a, b) ↦ (
          ap (λ x. x.verdict) a.trace ∙ unfold finalize_trace in refl,
          subst (λ x. verify_content_hash sha256_hex x ≡ true) (sym a.trace)
              (verify-finalize sha256_hex _ never_empty),
        )
        | inr (g, b) ↦ (
          ap (λ x. x.verdict) g.trace ∙ unfold finalize_trace in refl,
          subst (λ x. verify_content_hash sha256_hex x ≡ true) (sym g.trace)
              (verify-finalize sha256_hex _ never_empty),
        )
      ]
