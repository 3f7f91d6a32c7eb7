-- ===== src/L2/Samples.antt =====
-- The L2 rules of src/pqpatch/verifier/l2_dataflow/rules.py on a small method.
use nesy_pqpatch.Prelude.{
  ℕ, ◌≡◌, ◌≢◌, ◌↔◌, refl, Text, text, text_eq, Bool, true, false, ◌&&◌, ◌*◌, ◌+◌, Option, none,
  some, List, [], ◌∷◌, map, All, leb, keep-all, all,
}
use nesy_pqpatch.Prelude.Utf8.{utf8_encode}
use nesy_pqpatch.Model.{l2_dataflow, verify, pass, accept, eq_layer, Site, Verdict}
use nesy_pqpatch.Model.Report.{passed, first_failure, was_skipped}
use nesy_pqpatch.Python.{ok}
use nesy_pqpatch.Rules.Registry.{rules_by_layer}
use nesy_pqpatch.Rules.Ranks.{token_rank, floor_rank}
use nesy_pqpatch.Verify.{Env, verify_from, verify_patch, layer_order, default_enabled_layers}
use nesy_pqpatch.Verify.Samples.{policy, patch, always}
use nesy_pqpatch.L1.Guarantees.{AtLeast}
use nesy_pqpatch.L2.Sets.{member}
use nesy_pqpatch.L2.Java.{
  Kind, method_declaration, if_statement, expression_statement, method_invocation, identifier,
  string_literal, other_kind, Field, name_field, condition_field, object_field, arguments_field,
  Node, node, Children, end, child, Place, place, Tree, walk_method, is_method, kind_at,
}
use nesy_pqpatch.L2.Java.Scopes.{BelongsTo, walk_method-BelongsTo}
use nesy_pqpatch.L2.VerifyUse.{VerifyUse, checked, Event, track, classify_verify_uses}
use nesy_pqpatch.L2.KeyFlow.{KeyFlow, cross_family, Family, FlowStep, key_flow, classify_key_flow}
use nesy_pqpatch.L2.Hybrid.{
  HybridFlow, Assignment, Secrets, no_secrets, classical_secret, pq_secret, expression,
  secrets_after, produced, classify_hybrid_flow,
}
use nesy_pqpatch.L2.HybridUse.{HybridUse, classify_hybrid_use}
use nesy_pqpatch.L2.Seed.{SeedFlow, literal_seeded, SeedStep, seed_flow, classify_seed_provenance}
use nesy_pqpatch.L2.Prng.{PrngSeed, deterministic, PrngEvent, prng_flow, classify_prng_seed}
use nesy_pqpatch.L2.Tokens.{TokenStep, token_flow, algorithm_tokens_reaching_getinstance}
use nesy_pqpatch.L2.Bypass.{VerifyBypass, classify_verify_bypass}
use nesy_pqpatch.L2.Checks.{Frontend, patched_source}
use nesy_pqpatch.L2.Specs.{l2_rules}
use nesy_pqpatch.L2.Guarantees.Methods.{EveryMethod, KeysStayApart, SeedsVary, GeneratorsVary}
use nesy_pqpatch.L2.Guarantees.{
  accepted_patch_flows, accepted_verify_site, accepted_tokens_meet_floor,
}

abbrev branch : Kind → ℕ → ℕ → Children → Node
branch kind first last cs =
    node (record { id = first * 100 + last; kind = kind; start_byte = first; end_byte = last }) cs

abbrev leaf : Kind → ℕ → ℕ → Node
leaf kind first last = branch kind first last end

abbrev plain : Node → Children → Children
plain n cs = child (record { named = true; field = none }) n cs

abbrev at_field : Field → Node → Children → Children
at_field f n cs = child (record { named = true; field = some f }) n cs

-- f(){if(v.verify(g))k.getInstance("ML-KEM-768");}
abbrev verify_call : Node
verify_call = branch method_invocation 7 18 (
    at_field object_field (leaf identifier 7 8) (
      at_field name_field (leaf identifier 9 15) (
        at_field arguments_field
          (branch (other_kind (text "argument_list")) 15 18 (plain (leaf identifier 16 17) end))
          end)))

abbrev instance_call : Node
instance_call = branch method_invocation 19 46 (
    at_field object_field (leaf identifier 19 20) (
      at_field name_field (leaf identifier 21 32) (
        at_field arguments_field
          (branch (other_kind (text "argument_list")) 32 46 (plain (leaf string_literal 33 45) end))
          end)))

abbrev method : Node
method = branch method_declaration 0 48 (
    at_field name_field (leaf identifier 0 1) (
      plain
        (branch (other_kind (text "block")) 3 48 (
          plain
            (branch if_statement 4 47 (
              at_field condition_field
                (branch (other_kind (text "parenthesized_expression")) 6 19 (plain verify_call end))
                (plain (branch expression_statement 19 47 (plain instance_call end)) end)))
            end))
        end))

abbrev frontend : Frontend
frontend = record {
  read_text = λ path. ok (text "RSA");
  parse = λ bytes. record { root = method; has_error = false };
}

abbrev patched : Text
patched = text "f(){if(v.verify(g))k.getInstance(\"ML-KEM-768\");}"

abbrev diff : Text
diff = text "@@ -1 +1 @@\n-RSA\n+f(){if(v.verify(g))k.getInstance(\"ML-KEM-768\");}"

abbrev site : Site
site = record nesy_pqpatch.Verify.Samples.site { usage_class = verify }

abbrev env : Env
env = record {
  registry = l2_rules frontend;
  l1_stock_check = always pass;
  l3_check = always pass;
  l4_check = always pass;
  rule_ms = λ _. 1;
  layer_ms = λ _. 2;
}

abbrev uses : List VerifyUse
uses = classify_verify_uses frontend.parse patched

abbrev verdict : Verdict
verdict =
    verify_from env (patch diff) site policy (text "pq") default_enabled_layers layer_order [] []

unfoldable program : Unit {0}
unfolding verify_from nesy_pqpatch.Verify.run_layer rules_by_layer default_enabled_layers text_eq
    passed first_failure was_skipped floor_rank token_rank
    nesy_pqpatch.Diff.Apply.apply_unified_diff nesy_pqpatch.Diff.Locate.locate
    nesy_pqpatch.Prelude.splitlines nesy_pqpatch.Prelude.join nesy_pqpatch.Prelude.Utf8.utf8_encode
    nesy_pqpatch.Prelude.Utf8.utf8_decode nesy_pqpatch.Regex.found_in nesy_pqpatch.Regex.find_all
    nesy_pqpatch.Regex.whole nesy_pqpatch.L1.Families.sort_texts nesy_pqpatch.L2.Sets.add
    nesy_pqpatch.L2.Sets.discard nesy_pqpatch.L2.Sets.update nesy_pqpatch.L2.Sets.get
    nesy_pqpatch.L2.Sets.pop nesy_pqpatch.L2.Sets.set nesy_pqpatch.L2.Sets.insert_at
    nesy_pqpatch.L2.Sets.sorted nesy_pqpatch.L2.Java.walk nesy_pqpatch.L2.Java.visit
    nesy_pqpatch.L2.Java.walk_method nesy_pqpatch.L2.Java.parent
    nesy_pqpatch.L2.Java.child_by_field_name nesy_pqpatch.L2.Java.first_named_child
    nesy_pqpatch.L2.Java.contains nesy_pqpatch.L2.Java.method_ancestor nesy_pqpatch.L2.Java.methods
    nesy_pqpatch.L2.Expressions.text_of nesy_pqpatch.L2.Expressions.identifiers
    nesy_pqpatch.L2.Expressions.identifier_names nesy_pqpatch.L2.Expressions.simple_identifier
    nesy_pqpatch.L2.Expressions.assignment_of nesy_pqpatch.L2.Expressions.named_assignment
    nesy_pqpatch.L2.Expressions.invokes nesy_pqpatch.L2.VerifyUse.context_at
    nesy_pqpatch.L2.VerifyUse.context_from nesy_pqpatch.L2.VerifyUse.verify_context
    nesy_pqpatch.L2.VerifyUse.event_of nesy_pqpatch.L2.VerifyUse.timed_events
    nesy_pqpatch.L2.VerifyUse.events_after nesy_pqpatch.L2.VerifyUse.reassign
    nesy_pqpatch.L2.VerifyUse.track nesy_pqpatch.L2.VerifyUse.assigned_result_use
    nesy_pqpatch.L2.VerifyUse.use_of_context nesy_pqpatch.L2.VerifyUse.verify_use
    nesy_pqpatch.L2.VerifyUse.verify_calls nesy_pqpatch.L2.VerifyUse.classify_verify_uses
    nesy_pqpatch.L2.KeyFlow.kem_literal_re nesy_pqpatch.L2.KeyFlow.sig_literal_re
    nesy_pqpatch.L2.KeyFlow.key_source_receivers nesy_pqpatch.L2.KeyFlow.sig_sinks
    nesy_pqpatch.L2.KeyFlow.kem_sinks nesy_pqpatch.L2.KeyFlow.family_of_literals
    nesy_pqpatch.L2.KeyFlow.sink_family nesy_pqpatch.L2.KeyFlow.key_made
    nesy_pqpatch.L2.KeyFlow.first_key nesy_pqpatch.L2.KeyFlow.key_source_family
    nesy_pqpatch.L2.KeyFlow.sink_at nesy_pqpatch.L2.KeyFlow.flow_step
    nesy_pqpatch.L2.KeyFlow.timed_steps nesy_pqpatch.L2.KeyFlow.flow_steps
    nesy_pqpatch.L2.KeyFlow.crosses nesy_pqpatch.L2.KeyFlow.inherited nesy_pqpatch.L2.KeyFlow.sole
    nesy_pqpatch.L2.KeyFlow.assigned_family nesy_pqpatch.L2.KeyFlow.retrack
    nesy_pqpatch.L2.KeyFlow.key_flow nesy_pqpatch.L2.KeyFlow.analyze_key_flow
    nesy_pqpatch.L2.KeyFlow.classify_key_flow nesy_pqpatch.L2.Hybrid.classical_secret_methods
    nesy_pqpatch.L2.Hybrid.pq_secret_methods nesy_pqpatch.L2.Hybrid.take_classical
    nesy_pqpatch.L2.Hybrid.take_pq nesy_pqpatch.L2.Hybrid.take_expression
    nesy_pqpatch.L2.Hybrid.take_origin nesy_pqpatch.L2.Hybrid.take_assignment
    nesy_pqpatch.L2.Hybrid.secrets_after nesy_pqpatch.L2.Hybrid.produce_origin
    nesy_pqpatch.L2.Hybrid.produced_by nesy_pqpatch.L2.Hybrid.produced
    nesy_pqpatch.L2.Hybrid.rhs_calls_any nesy_pqpatch.L2.Hybrid.origin_of
    nesy_pqpatch.L2.Hybrid.assignments nesy_pqpatch.L2.Hybrid.assignments_in_order
    nesy_pqpatch.L2.Hybrid.call_names nesy_pqpatch.L2.Hybrid.combines
    nesy_pqpatch.L2.Hybrid.analyze_hybrid nesy_pqpatch.L2.Hybrid.hybrid_from
    nesy_pqpatch.L2.Hybrid.classify_hybrid_flow nesy_pqpatch.L2.HybridUse.combine_nodes
    nesy_pqpatch.L2.HybridUse.innermost nesy_pqpatch.L2.HybridUse.fate_from
    nesy_pqpatch.L2.HybridUse.fate nesy_pqpatch.L2.HybridUse.feeds_call
    nesy_pqpatch.L2.HybridUse.returns_bare nesy_pqpatch.L2.HybridUse.is_raw
    nesy_pqpatch.L2.HybridUse.judge_combines nesy_pqpatch.L2.HybridUse.analyze_hybrid_use
    nesy_pqpatch.L2.HybridUse.hybrid_use_from nesy_pqpatch.L2.HybridUse.classify_hybrid_use
    nesy_pqpatch.L2.Seed.is_constant_seed nesy_pqpatch.L2.Seed.is_secure_random_ctor
    nesy_pqpatch.L2.Seed.seed_sink_methods nesy_pqpatch.L2.Seed.seed_step
    nesy_pqpatch.L2.Seed.timed_steps nesy_pqpatch.L2.Seed.seed_steps nesy_pqpatch.L2.Seed.taint
    nesy_pqpatch.L2.Seed.seed_flow nesy_pqpatch.L2.Seed.analyze_seed
    nesy_pqpatch.L2.Seed.classify_seed_provenance nesy_pqpatch.L2.Prng.prng_use_methods
    nesy_pqpatch.L2.Prng.makes_sha1prng nesy_pqpatch.L2.Prng.is_sha1prng
    nesy_pqpatch.L2.Prng.receiver nesy_pqpatch.L2.Prng.constant_argument
    nesy_pqpatch.L2.Prng.call_event nesy_pqpatch.L2.Prng.prng_event
    nesy_pqpatch.L2.Prng.timed_events nesy_pqpatch.L2.Prng.prng_events
    nesy_pqpatch.L2.Prng.prng_flow nesy_pqpatch.L2.Prng.analyze_prng_seed
    nesy_pqpatch.L2.Prng.classify_prng_seed nesy_pqpatch.L2.Tokens.param_token_re
    nesy_pqpatch.L2.Tokens.literal_tokens nesy_pqpatch.L2.Tokens.tokens_in
    nesy_pqpatch.L2.Tokens.token_step nesy_pqpatch.L2.Tokens.timed_steps
    nesy_pqpatch.L2.Tokens.token_steps nesy_pqpatch.L2.Tokens.tokens_of_all
    nesy_pqpatch.L2.Tokens.alias_tokens nesy_pqpatch.L2.Tokens.assigned_tokens
    nesy_pqpatch.L2.Tokens.retaint nesy_pqpatch.L2.Tokens.token_flow
    nesy_pqpatch.L2.Tokens.collect_getinstance_tokens nesy_pqpatch.L2.Tokens.tokens_of_methods
    nesy_pqpatch.L2.Tokens.algorithm_tokens_reaching_getinstance
    nesy_pqpatch.L2.Bypass.bypassing_side nesy_pqpatch.L2.Bypass.or_bypasses
    nesy_pqpatch.L2.Bypass.or_operand_bypasses nesy_pqpatch.L2.Bypass.condition_bypassed
    nesy_pqpatch.L2.Bypass.bypassed_at nesy_pqpatch.L2.Bypass.call_bypassed
    nesy_pqpatch.L2.Bypass.classify_verify_bypass nesy_pqpatch.L2.Checks.cannot_analyze
    nesy_pqpatch.L2.Checks.with_patched nesy_pqpatch.L2.Checks.judge_verify_uses
    nesy_pqpatch.L2.Checks.judge_key_flow nesy_pqpatch.L2.Checks.judge_hybrid_flow
    nesy_pqpatch.L2.Checks.judge_seed_flow nesy_pqpatch.L2.Checks.judge_prng_seed
    nesy_pqpatch.L2.Checks.judge_hybrid_use nesy_pqpatch.L2.Checks.judge_verify_bypass
    nesy_pqpatch.L2.Checks.judge_tokens nesy_pqpatch.L2.Checks.judge_token_set
    nesy_pqpatch.L2.Checks.patched_source nesy_pqpatch.L2.Checks.check_verify_result
    nesy_pqpatch.L2.Checks.check_key_confusion nesy_pqpatch.L2.Checks.check_hybrid_completeness
    nesy_pqpatch.L2.Checks.check_seed_provenance nesy_pqpatch.L2.Checks.check_floor
    nesy_pqpatch.L2.Checks.check_param_flow nesy_pqpatch.L2.Checks.check_verify_bypass
    nesy_pqpatch.L2.Checks.check_prng_seed nesy_pqpatch.L2.Checks.check_hybrid_use
    nesy_pqpatch.L2.Specs.rule_ver_01 nesy_pqpatch.L2.Specs.rule_key_02
    nesy_pqpatch.L2.Specs.rule_hyb_02 nesy_pqpatch.L2.Specs.rule_rand_03
    nesy_pqpatch.L2.Specs.rule_param_02 nesy_pqpatch.L2.Specs.rule_ver_02
    nesy_pqpatch.L2.Specs.rule_rand_04 nesy_pqpatch.L2.Specs.rule_hyb_03
    nesy_pqpatch.L2.Specs.l2_rules nesy_pqpatch.L2.Java.walk_node nesy_pqpatch.L2.Seed.constant_node
program = tt

used : uses ≡ checked ∷ []
unfolding program
used = refl

accepted : verdict.status ≡ accept
unfolding program
accepted = refl

returned : verify_patch env (patch diff) site policy (text "pq") default_enabled_layers ≡ ok verdict
unfolding verify_patch text_eq
returned = refl

all_dataflow : all (λ r. eq_layer r.layer l2_dataflow) (l2_rules frontend) ≡ true
unfolding program
all_dataflow = refl

registered : rules_by_layer env.registry l2_dataflow ≡ l2_rules frontend
unfolding rules_by_layer
registered = keep-all (λ r. eq_layer r.layer l2_dataflow) (l2_rules frontend) all_dataflow

accepted_patch_flows_example :
    (s : Text) × (patched_source frontend (patch diff) site ≡ ok s)
    × ((frontend.parse (utf8_encode s)).has_error ≡ false)
    × EveryMethod frontend.parse s KeysStayApart
    × EveryMethod frontend.parse s SeedsVary
    × EveryMethod frontend.parse s GeneratorsVary
    × (classify_hybrid_flow frontend.parse s ≢ HybridFlow.downgraded)
    × (classify_hybrid_use frontend.parse s ≢ HybridUse.raw)
unfolding default_enabled_layers
accepted_patch_flows_example =
    accepted_patch_flows frontend (patch diff) site policy env default_enabled_layers verdict
      returned accepted refl registered

accepted_verify_site_example :
    (s : Text) × (patched_source frontend (patch diff) site ≡ ok s)
    × (classify_verify_uses frontend.parse s ≢ [])
    × All (λ u. u ≡ checked) (classify_verify_uses frontend.parse s)
    × (classify_verify_bypass frontend.parse s ≡ VerifyBypass.safe)
unfolding default_enabled_layers
accepted_verify_site_example =
    accepted_verify_site frontend (patch diff) site policy env default_enabled_layers verdict
      returned accepted refl registered refl

accepted_tokens_meet_floor_example :
    (s : Text) × (tokens : List Text) × (patched_source frontend (patch diff) site ≡ ok s)
    × (algorithm_tokens_reaching_getinstance frontend.parse s ≡ some tokens)
    × All (λ t. AtLeast 3 (token_rank t)) tokens
unfolding default_enabled_layers floor_rank
accepted_tokens_meet_floor_example =
    accepted_tokens_meet_floor frontend (patch diff) site policy env default_enabled_layers verdict
      returned accepted refl registered (text "ML-KEM-768") 3 refl refl

-- the token that reaches the call
reaching :
    algorithm_tokens_reaching_getinstance frontend.parse patched ≡ some (text "ML-KEM-768" ∷ [])
unfolding program
reaching = refl

walk_method-BelongsTo_example : All (BelongsTo (place [] method)) (walk_method (place [] method))
walk_method-BelongsTo_example = walk_method-BelongsTo (place [] method) refl
