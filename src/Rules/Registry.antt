-- ===== src/Rules/Registry.antt =====
-- src/pqpatch/verifier/rules/registry.py. The dictionary is an association list in the order of
-- insertion, and `load_all` is a fold of `register` over the specs of the rule modules.
use nesy_pqpatch.Prelude.{
  Text, text, text_eq, Bool, Option, List, [], ◌∷◌, ◌++◌, any, keep, find_first, if◌then◌else◌,
}
use nesy_pqpatch.Model.{Layer, eq_layer}
use nesy_pqpatch.Python.{Result, ok, raised, ◌>>=◌, value_error, repr}
use nesy_pqpatch.Rules.Spec.{RuleSpec}

abbrev pub Registry : Type 0
Registry = List RuleSpec

-- rule_id in _REGISTRY
unfoldable pub has_rule : Text → Registry → Bool
has_rule rule_id registry = any (λ r. text_eq r.rule_id rule_id) registry

unfoldable pub register : Registry → RuleSpec → Result Registry
unfolding has_rule
register registry spec =
    if has_rule spec.rule_id registry
    then raised (value_error (text "duplicate rule id: " ++ repr spec.rule_id))
    else ok (registry ++ spec ∷ [])

unfoldable pub register_all : Registry → List RuleSpec → Result Registry
unfolding register
register_all registry [] = ok registry
register_all registry (spec ∷ specs) = do
  registry' ← register registry spec
  register_all registry' specs

unfoldable pub rules_by_layer : Registry → Layer → List RuleSpec
rules_by_layer registry layer = keep (λ r. eq_layer r.layer layer) registry

unfoldable pub get : Registry → Text → Option RuleSpec
get registry rule_id = find_first (λ r. text_eq r.rule_id rule_id) registry
