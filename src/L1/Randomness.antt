-- ===== src/L1/Randomness.antt =====
-- The randomness rules of src/pqpatch/verifier/l1_syntactic/rules.py: PQ-RAND-01 and PQ-RAND-02.
use nesy_pqpatch.Prelude.{text, strip, true, none, some, ◌++◌, find_first, if◌then◌else◌}
use nesy_pqpatch.Model.{l1_syntactic, u5_randomness_misuse}
use nesy_pqpatch.Python.{repr}
use nesy_pqpatch.Regex.{Regex, char, star, lit, ◌·◌, ◌or◌, spaces, some_spaces, none_of, found_in}
use nesy_pqpatch.Rules.Spec.{CheckFn, RuleSpec}
use nesy_pqpatch.Diff.Lines.{added_lines}
use nesy_pqpatch.L1.Outcome.{passes, fails, joined_added}

-- r"new\s+Random\s*\(|Math\.random\s*\("
unfoldable pub disallowed_random_re : Regex
disallowed_random_re =
    (lit "new" · some_spaces · lit "Random" · spaces · lit "(")
    or (lit "Math.random" · spaces · lit "(")

unfoldable pub check_randomness : CheckFn
unfolding added_lines found_in disallowed_random_re strip repr
check_randomness patch site policy =
    elim (find_first (found_in disallowed_random_re) (added_lines patch.unified_diff)) [
      | none ↦ passes
      | some line ↦
          fails
            (text "added line uses a non-cryptographic randomness source: " ++ repr (strip line))
    ]

-- `"(?:[^"\\]|\\.)*"`, where the dot takes every character
abbrev string_literal : Regex
string_literal = lit "\"" · star (none_of "\"\\" or (lit "\\" · char (λ _. true))) · lit "\""

unfoldable pub literal_secure_random_seed_re : Regex
literal_secure_random_seed_re =
    lit "new"
    · some_spaces
    · lit "SecureRandom"
    · spaces
    · lit "("
    · spaces
    · ((lit "new"
          · some_spaces
          · lit "byte"
          · spaces
          · lit "["
          · spaces
          · lit "]"
          · spaces
          · lit "{")
        or (string_literal · spaces · lit "." · spaces · lit "getBytes" · spaces · lit "("))

unfoldable pub check_literal_secure_random_seed : CheckFn
unfolding joined_added found_in literal_secure_random_seed_re
check_literal_secure_random_seed patch site policy =
    if found_in literal_secure_random_seed_re (joined_added patch)
    then fails (
        text
          "SecureRandom is constructed from a fixed literal seed; key generation must obtain entropy from the platform source")
    else passes

unfoldable pub rule_rand_01 : RuleSpec
unfolding check_randomness
rule_rand_01 = record {
  rule_id = text "PQ-RAND-01";
  layer = l1_syntactic;
  unsafe_class = some u5_randomness_misuse;
  cwe = text "CWE-338";
  severity = text "high";
  rationale =
      text
        "The proposed patch seeds key material or nonces from a non-cryptographic randomness source (java.util.Random or Math.random). Re-propose using an approved SecureRandom source.";
  check = check_randomness;
}

unfoldable pub rule_rand_02 : RuleSpec
unfolding check_literal_secure_random_seed
rule_rand_02 = record {
  rule_id = text "PQ-RAND-02";
  layer = l1_syntactic;
  unsafe_class = some u5_randomness_misuse;
  cwe = text "CWE-337";
  severity = text "high";
  rationale =
      text
        "The proposed patch constructs SecureRandom from a fixed literal seed, making generated cryptographic material reproducible. Re-propose using a platform-seeded SecureRandom without literal seed material.";
  check = check_literal_secure_random_seed;
}
