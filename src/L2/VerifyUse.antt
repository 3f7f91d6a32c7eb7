-- ===== src/L2/VerifyUse.antt =====
-- PQ-VER-01 in src/pqpatch/verifier/l2_dataflow/java_flow.py: whether the result of every `verify`
-- call reaches a branch or a return.
pub mod Tracking
use nesy_pqpatch.Prelude.{
  ℕ, Text, text, Bool, true, false, ◌&&◌, Option, none, some, List, [], ◌∷◌, keep, map, leb,
  if◌then◌else◌,
}
use nesy_pqpatch.Prelude.Utf8.{utf8_encode}
use nesy_pqpatch.L2.Sets.{member, add, discard, meets, sorted}
use nesy_pqpatch.L2.Java.{
  Kind, variable_declarator, assignment_expression, if_statement, while_statement, do_statement,
  for_statement, ternary_expression, return_statement, expression_statement, name_field, left_field,
  value_field, right_field, condition_field, Node, Place, place, Tree, kind_at, start_at, end_at,
  same_node, is_identifier, walk, walk_method, child_by_field_name, contains, method_ancestor,
}
use nesy_pqpatch.L2.Expressions.{text_of, identifier_names, simple_identifier, to_name, invokes}

pub data VerifyUse : Type 0 where
  checked discarded indeterminate : VerifyUse

-- What happens to the result of a call where it stands.
pub data Context : Type 0 where
  sink dropped unclear : Context
  assigned : Text → Context

-- if, while, do, for and ?: are decided by a condition
abbrev pub branches : Kind → Bool
branches if_statement = true
branches while_statement = true
branches do_statement = true
branches for_statement = true
branches ternary_expression = true
branches _ = false

-- An event of a method body: a variable takes a value, or a branch or a return reads names.
pub data Event : Type 0 where
  assign : (left : Text) (right : Option Text) (declaration : Bool) → Event
  reads : List Text → Event

pub record Timed : Type 0 where
  pub position : ℕ
  pub event : Event

module _ (source : List ℕ) where
  -- what one ancestor of the call says of its result
  unfoldable pub context_at : Place → Place → Option Context
  context_at invocation current =
      let in_condition = contains (child_by_field_name condition_field current) invocation in
      elim (kind_at current) [
        | return_statement ↦ some sink
        | if_statement ↦ if in_condition then some sink else none
        | while_statement ↦ if in_condition then some sink else none
        | do_statement ↦ if in_condition then some sink else none
        | for_statement ↦ if in_condition then some sink else none
        | ternary_expression ↦ if in_condition then some sink else none
        | variable_declarator ↦
            some (assigned (text_of source (child_by_field_name name_field current)))
        | assignment_expression ↦ elim (child_by_field_name left_field current) [
          | none ↦ some unclear
          | some left ↦
              if is_identifier (kind_at left)
              then some (assigned (text_of source (some left)))
              else some unclear
        ]
        | expression_statement ↦ some dropped
        | _ ↦ none
      ]

  -- upwards from the call, until the method
  unfoldable pub context_from : Place → Place → List Node → Context
  context_from invocation method [] = unclear
  context_from invocation method (p ∷ above) =
      let further = context_from invocation method above in
      if same_node (place above p) method
      then unclear
      else elim (context_at invocation (place above p)) [ none ↦ further | some found ↦ found ]

  unfoldable pub verify_context : Place → Place → Context
  verify_context (place above n) method = context_from (place above n) method above

  unfoldable pub event_of : Place → Option Event
  event_of p = elim (kind_at p) [
    | variable_declarator ↦ some (
        assign (text_of source (child_by_field_name name_field p))
          (simple_identifier source (child_by_field_name value_field p)) true)
    | assignment_expression ↦
        elim (to_name source (child_by_field_name left_field p)
          (child_by_field_name right_field p)) [
            | none ↦ none
            | some (left, right) ↦ some (assign left (simple_identifier source right) false)
          ]
    | return_statement ↦ some (reads (identifier_names source (some p)))
    | _ ↦
        if branches (kind_at p)
        then some (reads (identifier_names source (child_by_field_name condition_field p)))
        else none
  ]

  unfoldable pub timed_events : ℕ → List Place → List Timed
  timed_events position [] = []
  timed_events position (p ∷ ps) =
      let rest = timed_events position ps in
      if leb (start_at p) position then rest else elim (event_of p) [
        | none ↦ rest
        | some e ↦ record { position = start_at p; event = e } ∷ rest
      ]

  unfoldable pub events_after : Place → ℕ → List Event
  events_after method position =
      map (λ t. t.event) (sorted (λ t. t.position) (timed_events position (walk_method method)))

-- the right-hand side is a variable that holds the result
abbrev pub holds : Option Text → List Text → Bool
holds none tracked = false
holds (some x) tracked = member x tracked

-- tracked.discard(left), and tracked.add(left) if the source was tracked
unfoldable pub reassign : Text → Bool → List Text → List Text
reassign left held tracked = if held then add left (discard left tracked) else discard left tracked

-- The loop over the events, with the variables that hold the result.
unfoldable pub track : List Text → List Event → VerifyUse
unfolding reassign
track tracked [] = discarded
track tracked (reads names ∷ es) = elim (meets names tracked) [
  | true ↦ checked
  | false ↦ track tracked es
]
track tracked (assign left right declaration ∷ es) = elim (declaration && member left tracked) [
  | true ↦ indeterminate
  | false ↦ elim (reassign left (holds right tracked) tracked) [
    | [] ↦ discarded
    | x ∷ xs ↦ track (x ∷ xs) es
  ]
]

module _ (source : List ℕ) where
  unfoldable pub assigned_result_use : Place → Place → Text → VerifyUse
  assigned_result_use method invocation name =
      track (name ∷ []) (events_after source method (end_at invocation))

  unfoldable pub use_of_context : Place → Place → Context → VerifyUse
  use_of_context method invocation sink = checked
  use_of_context method invocation dropped = discarded
  use_of_context method invocation unclear = indeterminate
  use_of_context method invocation (assigned []) = indeterminate
  use_of_context method invocation (assigned (c ∷ name)) =
      assigned_result_use method invocation (c ∷ name)

  unfoldable pub verify_use : Place → VerifyUse
  verify_use p = elim (method_ancestor p) [
    | none ↦ indeterminate
    | some method ↦ use_of_context method p (verify_context source p method)
  ]

  -- the calls of `verify` in a tree
  unfoldable pub verify_calls : Node → List Place
  verify_calls root = keep (invokes source (text "verify")) (walk (place [] root))

-- The parser of Java, which a library gives.
abbrev pub Parser : Type 0
Parser = List ℕ → Tree

unfoldable pub classify_verify_uses : Parser → Text → List VerifyUse
classify_verify_uses parse source =
    let bytes = utf8_encode source in
    let tree = parse bytes in
    if tree.has_error
    then indeterminate ∷ []
    else map (verify_use bytes) (verify_calls bytes tree.root)
