-- ===== src/L1/Params.antt =====
-- The parameter rules of src/pqpatch/verifier/l1_syntactic/rules.py: PQ-PARAM-01, -03, -04 and -05.
use nesy_pqpatch.Prelude.{
  ℕ, Text, text, text_eq, Option, none, some, List, [], ◌∷◌, ◌++◌, any, ltb, if◌then◌else◌,
}
use nesy_pqpatch.Model.{l1_syntactic, u1_param_weakening}
use nesy_pqpatch.Python.{repr, decimal}
use nesy_pqpatch.Regex.{
  Regex, Found, group, lit, ◌·◌, ◌or◌, repeat, digit, spaces, one_of, search, find_all, whole,
  group_of,
}
use nesy_pqpatch.Rules.Spec.{CheckFn, RuleSpec}
use nesy_pqpatch.Diff.Lines.{added_lines}
use nesy_pqpatch.Rules.Ranks.{
  token_re, slh_token_re, slh_category_rank, valid_mlkem_sets, valid_mldsa_sets, valid_slh_sets,
  table_get, floor_rank, token_rank,
}
use nesy_pqpatch.L1.Outcome.{passes, fails, fails_with}

-- the first token of a line that ranks below the floor, with its rank
unfoldable pub weak_token : ℕ → List Found → Option (Text × ℕ)
weak_token floor [] = none
weak_token floor (m ∷ ms) =
    let rest = weak_token floor ms in
    elim (token_rank (whole m)) [
      | none ↦ rest
      | some rank ↦ if ltb rank floor then some (whole m, rank) else rest
    ]

unfoldable pub first_weak_token : ℕ → List Text → Option (Text × ℕ)
first_weak_token floor [] = none
first_weak_token floor (line ∷ lines) = elim (weak_token floor (find_all token_re line)) [
  | none ↦ first_weak_token floor lines
  | some found ↦ some found
]

unfoldable pub check_param_weakening : CheckFn
check_param_weakening patch site policy = elim (policy.floors site.usage_class) [
  | none ↦ passes
  | some floor ↦ elim (floor_rank floor) [
    | none ↦ passes
    | some rank ↦ elim (first_weak_token rank (added_lines patch.unified_diff)) [
      | none ↦ passes
      | some (token, token_rank) ↦ fails (
          text "parameter "
          ++ (token
              ++ (text " (category rank "
                  ++ (decimal token_rank
                      ++ (text ") is below the policy floor "
                          ++ (floor ++ (text " (category rank " ++ (decimal rank ++ text ")"))))))))
    ]
  ]
]

-- the same for the SLH-DSA tokens, by the first group
unfoldable pub weak_slh_token : ℕ → List Found → Option (Text × ℕ)
weak_slh_token floor [] = none
weak_slh_token floor (m ∷ ms) =
    let rest = weak_slh_token floor ms in
    elim (table_get (group_of 1 m) slh_category_rank) [
      | none ↦ rest
      | some rank ↦ if ltb rank floor then some (whole m, rank) else rest
    ]

unfoldable pub first_weak_slh_token : ℕ → List Text → Option (Text × ℕ)
first_weak_slh_token floor [] = none
first_weak_slh_token floor (line ∷ lines) =
    elim (weak_slh_token floor (find_all slh_token_re line)) [
      | none ↦ first_weak_slh_token floor lines
      | some found ↦ some found
    ]

unfoldable pub check_slh_param_floor : CheckFn
check_slh_param_floor patch site policy = elim (policy.floors site.usage_class) [
  | none ↦ passes
  | some floor ↦ elim (floor_rank floor) [
    | none ↦ passes
    | some rank ↦ elim (first_weak_slh_token rank (added_lines patch.unified_diff)) [
      | none ↦ passes
      | some (token, token_rank) ↦ fails (
          text "SLH-DSA parameter set "
          ++ (repr token
              ++ (text " (category rank "
                  ++ (decimal token_rank
                      ++ (text ") is below the policy floor "
                          ++ (floor ++ (text " (category rank " ++ (decimal rank ++ text ")"))))))))
    ]
  ]
]

unfoldable pub mlkem_set_re : Regex
mlkem_set_re = lit "ML-KEM-" · group 1 (repeat 2 2 digit)

unfoldable pub mldsa_set_re : Regex
mldsa_set_re = lit "ML-DSA-" · group 1 (repeat 2 2 digit)

unfoldable pub slh_set_re : Regex
slh_set_re = lit "SLH-DSA-" · (lit "SHA2" or lit "SHAKE") · lit "-" · group 1 (repeat 2 2 digit)

-- the first match whose set is not among the valid ones
unfoldable pub invalid_set : List Text → List Found → Option Text
unfolding group_of whole text_eq
invalid_set valid [] = none
invalid_set valid (m ∷ ms) =
    let rest = invalid_set valid ms in
    if any (text_eq (group_of 1 m)) valid then rest else some (whole m)

-- the detail for the first invalid set of a family in a line
unfoldable pub invalid_in : Regex → List Text → Text → Text → Option Text
unfolding invalid_set find_all repr
invalid_in pattern valid family line = elim (invalid_set valid (find_all pattern line)) [
  | none ↦ none
  | some found ↦ some (
      repr found
      ++ (text " is not a parameter set the "
          ++ (family ++ text " standard defines; the token is invalid, not merely weak")))
]

abbrev or_else : Option Text → Option Text → Option Text
or_else none b = b
or_else (some a) b = some a

unfoldable pub first_invalid : List Text → Option Text
unfolding invalid_in mlkem_set_re mldsa_set_re slh_set_re valid_mlkem_sets valid_mldsa_sets
    valid_slh_sets
first_invalid [] = none
first_invalid (line ∷ lines) =
    let rest = first_invalid lines in
    or_else (invalid_in mlkem_set_re valid_mlkem_sets (text "ML-KEM") line) (
      or_else (invalid_in mldsa_set_re valid_mldsa_sets (text "ML-DSA") line)
        (or_else (invalid_in slh_set_re valid_slh_sets (text "SLH-DSA") line) rest))

unfoldable pub check_nonstandard_param : CheckFn
unfolding first_invalid added_lines
check_nonstandard_param patch site policy =
    fails_with (first_invalid (added_lines patch.unified_diff))

-- r"\.initialize\s*\(\s*(512|768|1024)\s*[,)]"
unfoldable pub weak_keysize_re : Regex
weak_keysize_re =
    lit ".initialize"
    · spaces
    · lit "("
    · spaces
    · group 1 (lit "512" or lit "768" or lit "1024")
    · spaces
    · one_of ",)"

unfoldable pub first_weak_keysize : List Text → Option Text
unfolding search weak_keysize_re group_of
first_weak_keysize [] = none
first_weak_keysize (line ∷ lines) = elim (search weak_keysize_re line) [
  | none ↦ first_weak_keysize lines
  | some m ↦ some (
      text "added code initializes key generation at "
      ++ (group_of 1 m
          ++ text " bits, below any accepted classical margin for a migration-era hybrid"))
]

unfoldable pub check_classical_keysize_downgrade : CheckFn
unfolding first_weak_keysize added_lines
check_classical_keysize_downgrade patch site policy =
    fails_with (first_weak_keysize (added_lines patch.unified_diff))

unfoldable pub rule_param_01 : RuleSpec
unfolding check_param_weakening
rule_param_01 = record {
  rule_id = text "PQ-PARAM-01";
  layer = l1_syntactic;
  unsafe_class = some u1_param_weakening;
  cwe = text "CWE-326";
  severity = text "high";
  rationale =
      text
        "The proposed patch selects a post-quantum parameter set below the security category required by the migration policy for this usage class. Re-propose using a parameter set that meets or exceeds the policy floor.";
  check = check_param_weakening;
}

unfoldable pub rule_param_03 : RuleSpec
unfolding check_slh_param_floor
rule_param_03 = record {
  rule_id = text "PQ-PARAM-03";
  layer = l1_syntactic;
  unsafe_class = some u1_param_weakening;
  cwe = text "CWE-326";
  severity = text "high";
  rationale =
      text
        "The proposed patch selects an SLH-DSA parameter set below the security category required by the migration policy. Re-propose using an SLH-DSA parameter set that meets or exceeds the floor.";
  check = check_slh_param_floor;
}

unfoldable pub rule_param_04 : RuleSpec
unfolding check_nonstandard_param
rule_param_04 = record {
  rule_id = text "PQ-PARAM-04";
  layer = l1_syntactic;
  unsafe_class = some u1_param_weakening;
  cwe = text "CWE-327";
  severity = text "high";
  rationale =
      text
        "The proposed patch names a post-quantum parameter set that the FIPS standards do not define. Re-propose using a defined parameter set (ML-KEM-512/768/1024, ML-DSA-44/65/87, or SLH-DSA at category 128/192/256).";
  check = check_nonstandard_param;
}

unfoldable pub rule_param_05 : RuleSpec
unfolding check_classical_keysize_downgrade
rule_param_05 = record {
  rule_id = text "PQ-PARAM-05";
  layer = l1_syntactic;
  unsafe_class = some u1_param_weakening;
  cwe = text "CWE-326";
  severity = text "medium";
  rationale =
      text
        "The proposed patch initializes classical key generation below 2048 bits. A migration must not weaken the classical component it retains; re-propose keeping classical parameters at or above current accepted margins.";
  check = check_classical_keysize_downgrade;
}
