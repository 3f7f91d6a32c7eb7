-- ===== src/Proposer/Samples.antt =====
-- The backends of src/pqpatch/proposer on a small response and a small site.
use nesy_pqpatch.Prelude.{
  ℕ, ◌≡◌, refl, Text, text, text_eq, strip, false, none, some, List, [], ◌∷◌, if◌then◌else◌,
  splitlines_keepends,
}
use nesy_pqpatch.Model.{Context, Patch, Verdict, TraceRecord, pass}
use nesy_pqpatch.Python.{Result, ok, raised, value_error}
use nesy_pqpatch.Trace.Dumps.{null}
use nesy_pqpatch.Cache.{CacheStore, Clock, get_or_fetch, get_cached, read, put, response_of}
use nesy_pqpatch.Verify.{Env, default_enabled_layers}
use nesy_pqpatch.Verify.Samples.{site, policy, always}
use nesy_pqpatch.L1.{l1_rules}
use nesy_pqpatch.L1.Guarantees.{rules_by_layer-l1_rules}
use nesy_pqpatch.Loop.{Options, migrate_site}
use nesy_pqpatch.Loop.Replayed.{proposals, migrate_site-offline}
use nesy_pqpatch.Proposer.Response.{
  object, Loads, field, strip_code_fences, parse_response, is_fence,
}
use nesy_pqpatch.Proposer.Response.Braces.{nothing, plain}
use nesy_pqpatch.Proposer.Response.Parse.{
  response_with, Says, parse_response-braces, parse_response-Says,
}
use nesy_pqpatch.Proposer.Backend.{Backend, Services, propose}
use nesy_pqpatch.Proposer.Backend.Offline.{with_generate, offline, propose-replays}
use nesy_pqpatch.Proposer.Scripted.{replay_backend}
use nesy_pqpatch.Proposer.Template.{Files, rewrite_site, template_propose}
use nesy_pqpatch.Proposer.Template.Escalates.{IsEscalation, template-escalates}

abbrev claim : List (Text × Text)
claim = (text "primitive", text "ML-KEM") ∷ []

-- A reader that knows one object.
abbrev loads : Loads
loads s = if text_eq s (text "{x}") then some (object claim) else none

abbrev raw : Text
raw = text "```\n+a }\n```\n{x} .\n"

parse_response-braces_example : parse_response loads raw ≡ ok (response_with (text "+a }") claim)
unfolding strip strip_code_fences is_fence field text_eq
parse_response-braces_example =
    parse_response-braces loads raw (text "+a }\n") (text "x") (text " .") claim (text "ML-KEM")
      refl (plain 120 [] refl nothing) refl refl refl (λ e. cc)

parse_response-Says_example : Says loads raw (response_with (text "+a }") claim)
parse_response-Says_example =
    parse_response-Says loads raw (response_with (text "+a }") claim) parse_response-braces_example

abbrev context : Context
context = record {
  site = site;
  enclosing_method = text "wrap";
  enclosing_class = text "Wrap";
  file_source = [];
  caller_snippets = [];
  callee_snippets = [];
  config_excerpts = [];
}

abbrev services : Services
services = record {
  sha256_hex = λ s. text "d";
  loads = loads;
  render_prompt = λ context policy feedback attempt version. ok (text "p");
}

abbrev backend : Backend
backend = replay_backend null (((text "S-1", 1), raw) ∷ [])

abbrev clock : Clock
clock = record { duration_ms = 5; now_utc = text "2026" }

abbrev online : CacheStore
online = record { dir = text "/c"; offline = false; files = [] }

abbrev proposed : CacheStore × Result Patch
proposed = propose services backend 0 online clock context policy none 1 (text "v1")

abbrev patch : Patch
patch = record {
  site_id = text "S-1";
  attempt = 1;
  unified_diff = text "+a }";
  claimed_primitive = text "ML-KEM";
  claimed_parameters = [];
  backend_id = text "replay";
  prompt_version = text "v1";
  response_hash = text "d";
}

first_proposal : proposed ≡ (proposed.0, ok patch)
unfolding propose replay_backend get_or_fetch get_cached read put parse_response field strip text_eq
    response_of
first_proposal = refl

abbrev silent : Text → ℕ → Text → ℕ → Result (Text × ℕ)
silent prompt seed site_id attempt = raised (value_error (text "no network"))

propose-replays_example :
    propose services
      (with_generate silent backend)
      0
      (offline proposed.0)
      clock
      context
      policy
      none
      1
      (text "v1")
    ≡ (offline proposed.0, ok patch)
propose-replays_example =
    propose-replays services backend 0 silent online proposed.0 clock clock context policy none 1
      (text "v1") patch first_proposal

abbrev env : ℕ → Env
env attempt = record {
  registry = l1_rules;
  l1_stock_check = always pass;
  l3_check = always pass;
  l4_check = always pass;
  rule_ms = λ _. 1;
  layer_ms = λ _. 2;
}

abbrev options : Options
options = record {
  k = 3;
  enabled_layers = default_enabled_layers;
  prompt_version = text "v1";
  seed = 0;
  ruleset_version = text "unversioned";
  feedback_mode = text "rule";
  l1_mode = text "pq";
}

migrate_site-offline_example :
    migrate_site services.sha256_hex
      (proposals services backend (offline proposed.0) (λ _. clock))
      env
      site
      context
      policy
      options
    ≡ migrate_site services.sha256_hex
        (proposals services (with_generate silent backend) (offline proposed.0) (λ _. clock))
        env
        site
        context
        policy
        options
migrate_site-offline_example =
    migrate_site-offline services backend silent (offline proposed.0) (λ _. clock) (λ _. clock) env
      site context policy options refl

-- The line of the site has no literal.
abbrev files : Files
files = record {
  read_text = λ path. ok (text "class Wrap {}\n");
  unified_diff = λ lines patched from to. text "diff";
  sha256_hex = λ s. text "d";
}

template-escalates_example :
    (v : Verdict) × (t : TraceRecord) × (migrate_site
        (λ s. text "d")
        (template_propose files)
        env
        site
        context
        policy
        options
      ≡ ok (v, t))
    × IsEscalation 3 v
unfolding rewrite_site splitlines_keepends text_eq default_enabled_layers
template-escalates_example =
    template-escalates (λ s. text "d") files env site context policy options
      (text "class Wrap {}\n") refl refl refl refl refl (λ _. rules_by_layer-l1_rules)
