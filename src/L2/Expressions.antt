-- ===== src/L2/Expressions.antt =====
-- The functions of src/pqpatch/verifier/l2_dataflow/java_flow.py that read the text of expressions:
-- names, assignments and calls.
use nesy_pqpatch.Prelude.{
  ℕ, Text, text_eq, slice, Bool, ◌&&◌, Option, none, some, List, [], ◌∷◌, if◌then◌else◌,
}
use nesy_pqpatch.Prelude.Utf8.{utf8_decode}
use nesy_pqpatch.L2.Sets.{update}
use nesy_pqpatch.L2.Java.{
  variable_declarator, assignment_expression, identifier, unary_expression, Field, name_field,
  value_field, left_field, right_field, Place, kind_at, start_at, end_at, is_identifier,
  is_invocation, walk, child_by_field_name,
}

module _ (source : List ℕ) where
  -- the text of a node, and "" for none
  unfoldable pub text_of : Option Place → Text
  text_of none = []
  text_of (some p) = utf8_decode (slice (start_at p) (end_at p) source)

  abbrev pub field_text : Field → Place → Text
  field_text f p = text_of (child_by_field_name f p)

  unfoldable pub identifiers : List Place → List Text
  unfolding text_of
  identifiers [] = []
  identifiers (p ∷ ps) =
      let rest = identifiers ps in
      if is_identifier (kind_at p) then text_of (some p) ∷ rest else rest

  -- the names in an expression, as a set
  unfoldable pub identifier_names : Option Place → List Text
  unfolding identifiers walk update
  identifier_names none = []
  identifier_names (some p) = update [] (identifiers (walk p))

  -- the one name, if the list has one element
  abbrev pub only : List Text → Option Text
  only [] = none
  only (x ∷ []) = some x
  only (x ∷ y ∷ xs) = none

  -- A name, or an operator on one name.
  unfoldable pub simple_identifier : Option Place → Option Text
  unfolding identifiers walk text_of
  simple_identifier none = none
  simple_identifier (some p) = elim (kind_at p) [
    | identifier ↦ some (text_of (some p))
    | unary_expression ↦ only (identifiers (walk p))
    | _ ↦ none
  ]

  -- what is assigned, where the target is a name
  abbrev pub to_name : Option Place → Option Place → Option (Text × Option Place)
  to_name none rhs = none
  to_name (some left) rhs =
      if is_identifier (kind_at left) then some (text_of (some left), rhs) else none

  -- a variable_declarator, or an assignment to a name: what it assigns to, and from
  unfoldable pub assignment_of : Place → Option (Text × Option Place)
  assignment_of p = elim (kind_at p) [
    | variable_declarator ↦
        some (text_of (child_by_field_name name_field p), child_by_field_name value_field p)
    | assignment_expression ↦
        to_name (child_by_field_name left_field p) (child_by_field_name right_field p)
    | _ ↦ none
  ]

  -- the same, where a declarator too must declare a name
  unfoldable pub named_assignment : Place → Option (Text × Option Place)
  named_assignment p = elim (kind_at p) [
    | variable_declarator ↦
        to_name (child_by_field_name name_field p) (child_by_field_name value_field p)
    | assignment_expression ↦
        to_name (child_by_field_name left_field p) (child_by_field_name right_field p)
    | _ ↦ none
  ]

  unfoldable pub invokes : Text → Place → Bool
  invokes name p =
      is_invocation (kind_at p) && text_eq (text_of (child_by_field_name name_field p)) name
