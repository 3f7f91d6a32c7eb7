-- ===== src/L2/Bypass.antt =====
-- PQ-VER-02 in src/pqpatch/verifier/l2_dataflow/java_flow.py: a `||` by which a branch succeeds
-- although the verification failed.
use nesy_pqpatch.Prelude.{
  ℕ, Text, text, text_eq, Bool, true, false, ◌&&◌, ◌||◌, Option, none, some, List, [], ◌∷◌, any,
  if◌then◌else◌,
}
use nesy_pqpatch.Prelude.Utf8.{utf8_encode}
use nesy_pqpatch.L2.Sets.{member, meets}
use nesy_pqpatch.L2.Java.{
  Kind, if_statement, while_statement, do_statement, ternary_expression, identifier,
  method_invocation, binary_expression, left_field, right_field, operator_field, condition_field,
  Place, kind_at, walk, walk_method, contains, method_ancestor, child_by_field_name,
}
use nesy_pqpatch.L2.Expressions.{text_of, identifier_names, invokes}
use nesy_pqpatch.L2.VerifyUse.{Parser, Context, assigned, verify_context, verify_calls}

pub data VerifyBypass : Type 0 where
  safe bypassed indeterminate : VerifyBypass

abbrev pub is_binary : Kind → Bool
is_binary binary_expression = true
is_binary _ = false

-- the statements whose conditions are looked at, which leave `for` out
abbrev pub guards : Kind → Bool
guards if_statement = true
guards while_statement = true
guards do_statement = true
guards ternary_expression = true
guards _ = false

module _ (source : List ℕ) where
  -- a tracked name, or a call with a `verify` call in it
  unfoldable pub bypassing_side : List Text → Option Place → Bool
  bypassing_side tracked none = false
  bypassing_side tracked (some side) = elim (kind_at side) [
    | identifier ↦ member (text_of source (some side)) tracked
    | method_invocation ↦ any (invokes source (text "verify")) (walk side)
    | _ ↦ false
  ]

  abbrev pub is_or : Option Place → Bool
  is_or none = false
  is_or (some operator) = text_eq (text_of source (some operator)) (text "||")

  unfoldable pub or_bypasses : List Text → Place → Bool
  or_bypasses tracked p =
      is_binary (kind_at p)
      && (is_or (child_by_field_name operator_field p)
          && (bypassing_side tracked (child_by_field_name left_field p)
              || bypassing_side tracked (child_by_field_name right_field p)))

  unfoldable pub or_operand_bypasses : Place → List Text → Bool
  or_operand_bypasses condition tracked = any (or_bypasses tracked) (walk condition)

  abbrev pub tracked_by : Context → List Text
  tracked_by (assigned (c ∷ name)) = (c ∷ name) ∷ []
  tracked_by _ = []

  -- a condition that holds the call or reads its variable, and is bypassed
  unfoldable pub condition_bypassed : Place → List Text → Option Place → Bool
  condition_bypassed call tracked none = false
  condition_bypassed call tracked (some condition) =
      (contains (some condition) call || meets (identifier_names source (some condition)) tracked)
      && or_operand_bypasses condition tracked

  unfoldable pub bypassed_at : Place → List Text → Place → Bool
  bypassed_at call tracked p =
      guards (kind_at p) && condition_bypassed call tracked (child_by_field_name condition_field p)

  unfoldable pub call_bypassed : Place → Bool
  call_bypassed call = elim (method_ancestor call) [
    | none ↦ false
    | some method ↦
        any (bypassed_at call (tracked_by (verify_context source call method))) (walk_method method)
  ]

unfoldable pub classify_verify_bypass : Parser → Text → VerifyBypass
classify_verify_bypass parse source =
    let bytes = utf8_encode source in
    let tree = parse bytes in
    if tree.has_error
    then indeterminate
    else if any (call_bypassed bytes) (verify_calls bytes tree.root)
    then bypassed
    else safe
