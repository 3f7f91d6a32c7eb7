-- ===== src/Loop/Samples.antt =====
-- Runs of the loop against the small verifier of `Verify/Samples`: a backend whose second patch
-- builds, and one whose patches never do.
use nesy_pqpatch.Prelude.{
  ◌==◌, ◌≡◌, ◌⊎◌, refl, ℕ, Bool, false, arith, Text, text, true, Option, none, some, map, List, [],
  ◌∷◌, if◌then◌else◌,
}
use nesy_pqpatch.Model.{Context, Verdict, VerdictStatus, accept, escalate, TraceRecord}
use nesy_pqpatch.Python.{Result, ok, raised}
use nesy_pqpatch.Verify.{default_enabled_layers}
use nesy_pqpatch.Verify.Samples.{verdict, site, policy, good, bad, env, program}
use nesy_pqpatch.Trace.{finalize_trace, verify_content_hash}
use nesy_pqpatch.Loop.{
  Propose, Options, LoopState, start, next_feedback, after_rejection, migrate_site,
}
use nesy_pqpatch.Loop.Steps.{Reach, here, next, retry}
use nesy_pqpatch.Loop.Outcome.{IsSound, Reach-IsSound, Migrated, Escalated, migrate_site_outcome}
use nesy_pqpatch.Loop.Total.{migrate_site-total}
use nesy_pqpatch.Loop.Attested.{migrate_site-signed}
use nesy_pqpatch.Trace.Attest.{Oqs, default_algorithm, sign_trace, verify_signature}
use nesy_pqpatch.Trace.Attest.Genuine.{IsGenuine, signed_with}

abbrev context : Context
context = record {
  site = site;
  enclosing_method = text "wrap";
  enclosing_class = text "Wrap";
  file_source = [];
  caller_snippets = [];
  callee_snippets = [];
  config_excerpts = [];
}

-- A digest that is short, and never empty.
abbrev digest : Text → Text
digest s = 48 ∷ []

abbrev second_time : Propose
second_time c q feedback attempt seed version = ok (if attempt == 1 then bad else good)

abbrev never : Propose
never c q feedback attempt seed version = ok bad

abbrev options : Options
options = record {
  k = 3;
  enabled_layers = default_enabled_layers;
  prompt_version = text "v1";
  seed = 0;
  ruleset_version = text "unversioned";
  feedback_mode = text "rule";
  l1_mode = text "pq";
}

abbrev result_of : Propose → Result (Verdict × TraceRecord)
result_of p = migrate_site digest p (λ _. env) site context policy options

abbrev Returns : Propose → Type 0
Returns p = (r : Verdict × TraceRecord) × (result_of p ≡ ok r)

-- What the two backends lead to.
run_of : Unit {0}
unfolding program migrate_site next_feedback finalize_trace
run_of = tt

status_of : Result (Verdict × TraceRecord) → Option VerdictStatus
status_of (ok (v, t)) = some v.status
status_of (raised e) = none

events_of : Result (Verdict × TraceRecord) → List Text
events_of (ok (v, t)) = map (λ e. e.status) t.events
events_of (raised e) = []

second_time_accepted :
    (status_of (result_of second_time) ≡ some accept)
    × (events_of (result_of second_time) ≡ text "reject" ∷ text "accept" ∷ [])
unfolding run_of status_of events_of
second_time_accepted = (refl, refl)

never_accepted :
    (status_of (result_of never) ≡ some escalate)
    × (events_of (result_of never) ≡ text "reject" ∷ text "reject" ∷ text "reject" ∷ [])
unfolding run_of status_of events_of
never_accepted = (refl, refl)

migrate_site-total_example : Returns never
unfolding run_of
migrate_site-total_example =
    migrate_site-total digest never (λ _. env) site context policy options (λ _ _. (bad, refl)) refl
      refl

migrated : Returns second_time
unfolding run_of
migrated =
    migrate_site-total digest second_time (λ _. env) site context policy options
      (λ _ attempt. (if attempt == 1 then bad else good, refl)) refl refl

migrate_site_outcome_example :
    Migrated digest second_time (λ _. env) site context policy options migrated.0.0 migrated.0.1
    ⊎ Escalated digest second_time (λ _. env) site context policy options migrated.0.0 migrated.0.1
migrate_site_outcome_example =
    migrate_site_outcome digest second_time (λ _. env) site context policy options migrated.0.0
      migrated.0.1 migrated.1

abbrev is_seven : List ℕ → Bool
is_seven [] = false
is_seven (b ∷ bs) = b == 7

-- Signatures that are the one byte 7.
abbrev sevens : Oqs
sevens = record {
  generate = λ algorithm. (1 ∷ [], 2 ∷ []);
  sign = λ algorithm secret m. 7 ∷ [];
  verify = λ algorithm m sig public_key. is_seven sig;
}

sevens-IsGenuine : IsGenuine sevens default_algorithm (2 ∷ []) (1 ∷ [])
sevens-IsGenuine = record {
  verifies = λ m. refl;
  is_bytes = λ m. (ground arith, tt);
  is_nonempty = λ m e. cc;
}

migrate_site-signed_example :
    (migrated.0.1.verdict ≡ migrated.0.0)
    × (verify_content_hash digest migrated.0.1 ≡ true)
    × ((sig : List ℕ) × (sign_trace (some sevens) default_algorithm (2 ∷ []) migrated.0.1
          ≡ ok (signed_with sig migrated.0.1))
        × (verify_signature digest
              (some sevens)
              default_algorithm
              (1 ∷ [])
              (signed_with sig migrated.0.1)
            ≡ ok true))
migrate_site-signed_example =
    migrate_site-signed digest second_time (λ _. env) site context policy options migrated.0.0
      migrated.0.1 migrated.1 (λ s e. cc) sevens default_algorithm (2 ∷ []) (1 ∷ [])
      sevens-IsGenuine

-- The state at the top of the second turn.
abbrev second_turn : LoopState
second_turn =
    after_rejection digest second_time (λ _. env) site context policy options start
      (verdict bad default_enabled_layers)

second_turn_reached : Reach digest second_time (λ _. env) site context policy options second_turn
unfolding run_of
second_turn_reached =
    next here (retry start bad (verdict bad default_enabled_layers) refl refl (λ e. cc))

Reach-IsSound_example : IsSound (text "rule") second_turn
Reach-IsSound_example =
    Reach-IsSound digest second_time (λ _. env) site context policy options second_turn_reached
