-- ===== src/L1/Fallback.antt =====
-- The rules of src/pqpatch/verifier/l1_syntactic/rules.py about fallbacks to classical algorithms:
-- PQ-FALL-01 and PQ-FALL-03.
use nesy_pqpatch.Prelude.{
  Text, text, strip, Bool, not, ◌&&◌, Option, none, some, List, [], ◌∷◌, ◌++◌, any, if◌then◌else◌,
}
use nesy_pqpatch.Model.{l1_syntactic, u2_classical_fallback}
use nesy_pqpatch.Python.{repr}
use nesy_pqpatch.Regex.{
  Regex, Found, not_after, group, lit, ◌·◌, ◌or◌, some_of, spaces, none_of, found_in, find_all,
  group_of,
}
use nesy_pqpatch.Rules.Spec.{CheckFn, RuleSpec}
use nesy_pqpatch.Diff.Lines.{added_lines}
use nesy_pqpatch.L1.Outcome.{passes, fails}

-- _CLASSICAL_TOKEN_PATTERNS, in its order. `not_after` holds `ML-` reversed.
unfoldable pub classical_token_patterns : List (Text × Regex)
classical_token_patterns =
    (text "RSA", lit "RSA")
    ∷ (text "ECDSA", not_after (text "-LM") · lit "ECDSA")
    ∷ (text "DSA", not_after (text "-LM") · lit "DSA")
    ∷ (text "DES", lit "DES")
    ∷ (text "3DES", lit "3DES")
    ∷ (text "DiffieHellman", lit "DiffieHellman")
    ∷ []

unfoldable pub first_pattern : List (Text × Regex) → Text → Option Text
unfolding found_in
first_pattern [] line = none
first_pattern ((name, pattern) ∷ rest) line =
    if found_in pattern line then some name else first_pattern rest line

unfoldable pub first_classical : List Text → Option Text
unfolding first_pattern classical_token_patterns
first_classical [] = none
first_classical (line ∷ lines) = elim (first_pattern classical_token_patterns line) [
  | none ↦ first_classical lines
  | some name ↦ some name
]

unfoldable pub check_classical_fallback : CheckFn
unfolding added_lines found_in first_classical repr
check_classical_fallback patch site policy =
    if not (any (found_in (lit "catch")) (added_lines patch.unified_diff))
    then passes
    else elim (first_classical (added_lines patch.unified_diff)) [
      | none ↦ passes
      | some name ↦ fails (
          text "added code contains both an exception handler and the classical primitive token "
          ++ (repr name ++ text ", consistent with a silent classical fallback path"))
    ]

-- r'\?\s*"([^"]+)"\s*:\s*"([^"]+)"'
unfoldable pub ternary_literals_re : Regex
ternary_literals_re =
    lit "?"
    · spaces
    · lit "\""
    · group 1 (some_of (none_of "\""))
    · lit "\""
    · spaces
    · lit ":"
    · spaces
    · lit "\""
    · group 2 (some_of (none_of "\""))
    · lit "\""

unfoldable pub pq_token_any_re : Regex
pq_token_any_re = lit "ML-KEM" or lit "ML-DSA" or lit "SLH-DSA"

-- r"RSA|(?<!ML-)ECDSA|(?<!ML-)(?<!SLH-)DSA|ECDH|DiffieHellman"
unfoldable pub classical_literal_re : Regex
classical_literal_re =
    lit "RSA"
    or (not_after (text "-LM") · lit "ECDSA")
    or (not_after (text "-LM") · not_after (text "-HLS") · lit "DSA")
    or lit "ECDH"
    or lit "DiffieHellman"

-- one literal of the two is post-quantum, and one is classical
unfoldable pub is_toggle : Found → Bool
unfolding group_of found_in pq_token_any_re classical_literal_re
is_toggle m =
    let literals = group_of 1 m ∷ group_of 2 m ∷ [] in
    any (found_in pq_token_any_re) literals && any (found_in classical_literal_re) literals

unfoldable pub first_toggle : List Text → Option Text
unfolding is_toggle find_all ternary_literals_re
first_toggle [] = none
first_toggle (line ∷ lines) =
    let rest = first_toggle lines in
    if any is_toggle (find_all ternary_literals_re line) then some line else rest

unfoldable pub check_runtime_toggle : CheckFn
unfolding added_lines first_toggle strip repr
check_runtime_toggle patch site policy = elim (first_toggle (added_lines patch.unified_diff)) [
  | none ↦ passes
  | some line ↦ fails (
      text
        "added code selects between a post-quantum and a classical algorithm at runtime; the classical branch remains reachable ("
      ++ (repr (strip line) ++ text ")"))
]

unfoldable pub rule_fall_01 : RuleSpec
unfolding check_classical_fallback
rule_fall_01 = record {
  rule_id = text "PQ-FALL-01";
  layer = l1_syntactic;
  unsafe_class = some u2_classical_fallback;
  cwe = text "CWE-757";
  severity = text "high";
  rationale =
      text
        "The proposed patch introduces an exception handler alongside a classical cryptographic primitive, consistent with a reachable fallback to classical crypto. Re-propose without a classical fallback path; failures must propagate, not silently downgrade.";
  check = check_classical_fallback;
}

unfoldable pub rule_fall_03 : RuleSpec
unfolding check_runtime_toggle
rule_fall_03 = record {
  rule_id = text "PQ-FALL-03";
  layer = l1_syntactic;
  unsafe_class = some u2_classical_fallback;
  cwe = text "CWE-757";
  severity = text "high";
  rationale =
      text
        "The proposed patch chooses between a post-quantum and a classical algorithm with a runtime condition, leaving a reachable classical path behind a flag. Re-propose with the post-quantum primitive unconditional.";
  check = check_runtime_toggle;
}
