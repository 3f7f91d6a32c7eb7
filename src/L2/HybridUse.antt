-- ===== src/L2/HybridUse.antt =====
-- PQ-HYB-03 in src/pqpatch/verifier/l2_dataflow/java_flow.py: a combination of both secrets is not
-- returned as it is.
use nesy_pqpatch.Prelude.{
  ℕ, Text, text_eq, Bool, true, false, not, ◌&&◌, Option, none, some, List, [], ◌∷◌, any, keep, leb,
  if◌then◌else◌,
}
use nesy_pqpatch.Prelude.Utf8.{utf8_encode}
use nesy_pqpatch.L2.Sets.{member}
use nesy_pqpatch.L2.Java.{
  Kind, method_invocation, object_creation_expression, variable_declarator, return_statement,
  name_field, arguments_field, Node, Place, place, kind_at, start_at, end_at, same_node,
  is_identifier, walk_method, methods, contains, first_named_child, child_by_field_name,
}
use nesy_pqpatch.L2.Expressions.{text_of, field_text, identifier_names}
use nesy_pqpatch.L2.VerifyUse.{Parser}
use nesy_pqpatch.L2.Hybrid.{
  is_call, is_nonempty, no_secrets, produced, assignments_in_order, combines,
}

pub data HybridUse : Type 0 where
  derived raw not_applicable indeterminate : HybridUse

-- What becomes of a combination between its call and its statement.
pub data Fate : Type 0 where
  wrapped returned lost : Fate
  stored : Text → Fate

module _ (source : List ℕ) where
  unfoldable pub combine_nodes : Place → List Place
  combine_nodes method =
      let s = produced no_secrets (assignments_in_order source method) in
      if is_nonempty s.classical && is_nonempty s.pq
      then keep (combines source s) (walk_method method)
      else []

  -- the combinations that span no other
  unfoldable pub innermost : List Place → List Place
  innermost combines =
      keep (λ c. not (any (λ other. not (same_node other c) && contains (some c) other) combines))
        combines

  abbrev pub fate_at : Place → Option Fate
  fate_at current = elim (kind_at current) [
    | method_invocation ↦ some wrapped
    | object_creation_expression ↦ some wrapped
    | variable_declarator ↦ some (stored (field_text source name_field current))
    | return_statement ↦ some returned
    | _ ↦ none
  ]

  unfoldable pub fate_from : Place → List Node → Fate
  fate_from method [] = lost
  fate_from method (p ∷ above) =
      let further = fate_from method above in
      if same_node (place above p) method
      then lost
      else elim (fate_at (place above p)) [ none ↦ further | some f ↦ f ]

  unfoldable pub fate : Place → Place → Fate
  fate method (place above n) = fate_from method above

  -- after the combination, a call takes the variable
  unfoldable pub feeds_call : Text → Place → Place → Bool
  feeds_call name combine p =
      not (leb (start_at p) (end_at combine))
      && (is_call (kind_at p)
          && member name (identifier_names source (child_by_field_name arguments_field p)))

  abbrev pub is_return : Kind → Bool
  is_return return_statement = true
  is_return _ = false

  abbrev pub is_variable : Text → Option Place → Bool
  is_variable name none = false
  is_variable name (some p) = is_identifier (kind_at p) && text_eq (text_of source (some p)) name

  -- after the combination, the variable is returned as it is
  unfoldable pub returns_bare : Text → Place → Place → Bool
  returns_bare name combine p =
      not (leb (start_at p) (end_at combine))
      && (is_return (kind_at p) && is_variable name (first_named_child p))

  unfoldable pub is_raw : Place → Place → Bool
  is_raw method combine = elim (fate method combine) [
    | returned ↦ true
    | wrapped ↦ false
    | lost ↦ false
    | stored name ↦
        any (returns_bare name combine) (walk_method method)
        && not (any (feeds_call name combine) (walk_method method))
  ]

  unfoldable pub judge_combines : Place → List Place → HybridUse
  judge_combines method [] = not_applicable
  judge_combines method (c ∷ cs) = if any (is_raw method) (innermost (c ∷ cs)) then raw else derived

  unfoldable pub analyze_hybrid_use : Place → HybridUse
  analyze_hybrid_use method = judge_combines method (combine_nodes method)

  unfoldable pub hybrid_use_from : HybridUse → List Place → HybridUse
  hybrid_use_from result [] = result
  hybrid_use_from result (m ∷ ms) = elim (analyze_hybrid_use m) [
    | raw ↦ raw
    | derived ↦ hybrid_use_from derived ms
    | _ ↦ hybrid_use_from result ms
  ]

unfoldable pub classify_hybrid_use : Parser → Text → HybridUse
classify_hybrid_use parse source =
    let bytes = utf8_encode source in
    let tree = parse bytes in
    if tree.has_error
    then indeterminate
    else hybrid_use_from bytes not_applicable (methods tree.root)
