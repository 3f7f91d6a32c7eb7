-- ===== src/Loop.antt =====
-- src/pqpatch/loop.py: the repair loop of one site. The backend and what each call of the verifier
-- finds outside are parameters, the latter by the number of the attempt, so they may change from
-- one attempt to the next.
pub mod Steps
pub mod Outcome
pub mod Total
pub mod Attested
pub mod Replayed
mod Samples
use nesy_pqpatch.Prelude.{
  ℕ, zero, suc, ◌+◌, Text, text, text_eq, Bool, true, false, ◌||◌, is_none, not, Option, none, some,
  List, [], ◌∷◌, ◌++◌, map, if◌then◌else◌,
}
use nesy_pqpatch.Model.{
  Layer, Site, Context, Policy, Patch, LayerReport, Verdict, VerdictStatus, accept, escalate,
  TraceEvent, TraceRecord,
}
use nesy_pqpatch.Model.Report.{first_failure}
use nesy_pqpatch.Python.{Result, ok, raised, ◌>>=◌, value_error, repr}
use nesy_pqpatch.Verify.{Env, layer_name, verify_patch, rejection_feedback}
use nesy_pqpatch.Trace.{finalize_trace}

abbrev pub default_k : ℕ
default_k = 3

unfoldable pub generic_feedback : Text
generic_feedback =
    text "The previous patch was rejected by the verifier. Propose a different migration patch."

-- The loop over the reports: the layer of the first that has a failure.
unfoldable pub failure_layer_from : List LayerReport → Option Layer
failure_layer_from [] = none
failure_layer_from (report ∷ reports) =
    if not (is_none (first_failure report)) then some report.layer else failure_layer_from reports

unfoldable pub failure_layer : Verdict → Option Layer
unfolding failure_layer_from
failure_layer verdict = failure_layer_from verdict.layer_reports

-- The keyword arguments of `migrate_site`.
pub record Options : Type 0 where
  pub k : ℕ
  pub enabled_layers : Layer → Bool
  pub prompt_version : Text
  pub seed : ℕ
  pub ruleset_version : Text
  pub feedback_mode : Text
  pub l1_mode : Text

-- backend.propose(context, policy, feedback=…, attempt=…, seed=…, prompt_version=…)
abbrev pub Propose : Type 0
Propose = Context → Policy → Option Text → ℕ → ℕ → Text → Result Patch

-- The variables of the loop.
pub record LoopState : Type 0 where
  pub attempt : ℕ
  pub feedback : Option Text
  pub events : List TraceEvent
  pub last_verdict : Option Verdict

abbrev pub start : LoopState
start = record { attempt = 1; feedback = none; events = []; last_verdict = none }

module _ (sha256_hex : Text → Text) (propose : Propose) (env : ℕ → Env) (site : Site)
    (context : Context) (policy : Policy) (options : Options) where
  unfoldable pub timings : Verdict → List (Text × ℕ)
  timings verdict = map (λ r. (layer_name r.layer, r.duration_ms)) verdict.layer_reports

  unfoldable pub accept_event : ℕ → Verdict → TraceEvent
  unfolding timings
  accept_event attempt verdict = record {
    attempt = attempt;
    layer = none;
    status = text "accept";
    rule_id = none;
    timings_ms = timings verdict;
  }

  unfoldable pub reject_event : ℕ → Verdict → TraceEvent
  unfolding timings
  reject_event attempt verdict = record {
    attempt = attempt;
    layer = failure_layer verdict;
    status = text "reject";
    rule_id = verdict.rejected_rule_id;
    timings_ms = timings verdict;
  }

  unfoldable pub next_feedback : Verdict → Option Text
  next_feedback verdict =
      if text_eq options.feedback_mode (text "rule")
      then rejection_feedback verdict
      else some generic_feedback

  -- What a turn that is not accepted leaves for the next one.
  unfoldable pub after_rejection : LoopState → Verdict → LoopState
  unfolding reject_event next_feedback
  after_rejection s verdict = record {
    attempt = s.attempt + 1;
    feedback = next_feedback verdict;
    events = s.events ++ reject_event s.attempt verdict ∷ [];
    last_verdict = some verdict;
  }

  unfoldable pub trace_of : List TraceEvent → Verdict → TraceRecord
  trace_of events verdict = finalize_trace sha256_hex (record {
    site = site;
    usage_class = site.usage_class;
    policy_version = policy.version;
    ruleset_version = options.ruleset_version;
    events = events;
    verdict = verdict;
    content_hash = [];
    signature = none;
  })

  unfoldable pub escalated : Option Verdict → Verdict
  escalated last_verdict = record {
    site_id = site.site_id;
    status = escalate;
    accepted_patch = none;
    rejected_rule_id = elim last_verdict [ none ↦ none | some v ↦ v.rejected_rule_id ];
    layer_reports = elim last_verdict [ none ↦ [] | some v ↦ v.layer_reports ];
    attempts_used = options.k;
    layers_evaluated = elim last_verdict [ none ↦ [] | some v ↦ v.layers_evaluated ];
  }

  unfoldable pub propose_at : LoopState → Result Patch
  propose_at s = propose context policy s.feedback s.attempt options.seed options.prompt_version

  unfoldable pub verify_at : LoopState → Patch → Result Verdict
  verify_at s patch =
      verify_patch (env s.attempt) patch site policy options.l1_mode options.enabled_layers

  -- The `for` loop with `turns` turns left.
  unfoldable pub run_attempts : ℕ → LoopState → Result (Verdict × TraceRecord)
  unfolding propose_at verify_at after_rejection accept_event trace_of escalated
  run_attempts zero s =
      let verdict = escalated s.last_verdict in ok (verdict, trace_of s.events verdict)
  run_attempts (suc turns) s = do
    patch ← propose_at s
    verdict ← verify_at s patch
    elim verdict.status [
      | accept ↦ ok (verdict, trace_of (s.events ++ accept_event s.attempt verdict ∷ []) verdict)
      | _ ↦ run_attempts turns (after_rejection s verdict)
    ]

  unfoldable pub migrate_site : Result (Verdict × TraceRecord)
  unfolding run_attempts
  migrate_site =
      if text_eq options.feedback_mode (text "rule")
        || text_eq options.feedback_mode (text "generic")
      then run_attempts options.k start
      else raised (
          value_error
            (text "feedback_mode must be 'rule' or 'generic', got " ++ repr options.feedback_mode))
