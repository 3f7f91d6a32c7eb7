-- ===== src/L2/Java.antt =====
-- Syntax trees of Java, and the functions of src/pqpatch/verifier/l2_dataflow/java_flow.py that walk
-- them. The trees are those of tree-sitter: a node has a type, the bytes that it spans and its
-- children, some of which are named and some of which stand in a field. A node is handled together
-- with its ancestors, by which `parent` is answered.
pub mod Scopes
use nesy_pqpatch.Prelude.{
  ℕ, Text, text_eq, slice, keep, Bool, true, false, not, ◌&&◌, Option, none, some, List, [], ◌∷◌,
  ◌++◌, leb, ◌==◌, if◌then◌else◌,
}
use nesy_pqpatch.Prelude.Utf8.{utf8_decode}
use nesy_pqpatch.L2.Sets.{update}

-- The types of nodes that the analyses tell apart.
pub data Kind : Type 0 where
  method_invocation object_creation_expression : Kind
  variable_declarator assignment_expression : Kind
  if_statement while_statement do_statement for_statement ternary_expression : Kind
  return_statement expression_statement : Kind
  method_declaration constructor_declaration lambda_expression : Kind
  class_body class_declaration enum_declaration interface_declaration record_declaration : Kind
  identifier unary_expression binary_expression : Kind
  string_literal character_literal : Kind
  decimal_integer_literal hex_integer_literal octal_integer_literal binary_integer_literal : Kind
  array_initializer array_creation_expression : Kind
  other_kind : Text → Kind

-- The fields that the analyses ask for.
pub data Field : Type 0 where
  name_field value_field left_field right_field condition_field : Field
  object_field arguments_field type_field operator_field : Field

-- `id` tells the nodes of a tree apart.
pub record Info : Type 0 where
  pub id : ℕ
  pub kind : Kind
  pub start_byte : ℕ
  pub end_byte : ℕ

pub record Slot : Type 0 where
  pub named : Bool
  pub field : Option Field

mutual
  pub data Node : Type 0 where
    node : Info → Children → Node

  pub data Children : Type 0 where
    end : Children
    child : Slot → Node → Children → Children

-- A node below its ancestors, the nearest first.
pub data Place : Type 0 where
  place : List Node → Node → Place

abbrev pub info : Node → Info
info (node i cs) = i

abbrev pub info_at : Place → Info
info_at (place above n) = info n

abbrev pub kind_at : Place → Kind
kind_at p = (info_at p).kind

abbrev pub start_at : Place → ℕ
start_at p = (info_at p).start_byte

abbrev pub end_at : Place → ℕ
end_at p = (info_at p).end_byte

-- a == b on nodes
abbrev pub same_node : Place → Place → Bool
same_node p q = (info_at p).id == (info_at q).id

-- What the parser gives: the root, and whether the source has a syntax error.
pub record Tree : Type 0 where
  pub root : Node
  pub has_error : Bool

-- A node and its named descendants, in the order of the source.
unfoldable mutual
  pub walk_node : List Node → Node → List Place
  walk_node above (node i cs) = place above (node i cs) ∷ walk_children (node i cs ∷ above) cs

  pub walk_children : List Node → Children → List Place
  walk_children above end = []
  walk_children above (child slot n cs) =
      let rest = walk_children above cs in if slot.named then walk_node above n ++ rest else rest

unfoldable pub walk : Place → List Place
unfolding walk_node
walk (place above n) = walk_node above n

abbrev pub excluded_scope : Kind → Bool
excluded_scope class_body = true
excluded_scope class_declaration = true
excluded_scope constructor_declaration = true
excluded_scope enum_declaration = true
excluded_scope interface_declaration = true
excluded_scope lambda_expression = true
excluded_scope method_declaration = true
excluded_scope record_declaration = true
excluded_scope _ = false

-- The named descendants that stand in no nested scope.
unfoldable pub visit : List Node → Children → List Place
visit above end = []
visit above (child slot (node i inner) cs) =
    let rest = visit above cs in
    let below = place above (node i inner) ∷ visit (node i inner ∷ above) inner in
    if slot.named && not (excluded_scope i.kind) then below ++ rest else rest

unfoldable pub walk_method : Place → List Place
unfolding visit
walk_method (place above (node i cs)) = place above (node i cs) ∷ visit (node i cs ∷ above) cs

-- node.parent
unfoldable pub parent : Place → Option Place
parent (place [] n) = none
parent (place (p ∷ above) n) = some (place above p)

abbrev pub same_field : Field → Option Field → Bool
same_field f none = false
same_field name_field (some name_field) = true
same_field value_field (some value_field) = true
same_field left_field (some left_field) = true
same_field right_field (some right_field) = true
same_field condition_field (some condition_field) = true
same_field object_field (some object_field) = true
same_field arguments_field (some arguments_field) = true
same_field type_field (some type_field) = true
same_field operator_field (some operator_field) = true
same_field _ _ = false

field_child : List Node → Field → Children → Option Place
field_child above f end = none
field_child above f (child slot n cs) =
    if same_field f slot.field then some (place above n) else field_child above f cs

-- node.child_by_field_name(f)
unfoldable pub child_by_field_name : Field → Place → Option Place
unfolding field_child
child_by_field_name f (place above (node i cs)) = field_child (node i cs ∷ above) f cs

named_child : List Node → Children → Option Place
named_child above end = none
named_child above (child slot n cs) =
    if slot.named then some (place above n) else named_child above cs

-- node.named_children[0], if there is one
unfoldable pub first_named_child : Place → Option Place
unfolding named_child
first_named_child (place above (node i cs)) = named_child (node i cs ∷ above) cs

-- container is not None and container spans child
unfoldable pub contains : Option Place → Place → Bool
contains none p = false
contains (some c) p = leb (start_at c) (start_at p) && leb (end_at p) (end_at c)

abbrev pub is_method : Kind → Bool
is_method method_declaration = true
is_method constructor_declaration = true
is_method _ = false

abbrev pub is_lambda : Kind → Bool
is_lambda lambda_expression = true
is_lambda _ = false

abbrev pub is_identifier : Kind → Bool
is_identifier identifier = true
is_identifier _ = false

abbrev pub is_invocation : Kind → Bool
is_invocation method_invocation = true
is_invocation _ = false

method_from : List Node → Node → Option Place
method_from [] n =
    if not (is_lambda (info n).kind) && is_method (info n).kind then some (place [] n) else none
method_from (p ∷ above) n =
    let up = method_from above p in
    if is_lambda (info n).kind
    then none
    else if is_method (info n).kind
    then some (place (p ∷ above) n)
    else up

-- The method that a node stands in, or none where a lambda is in between.
unfoldable pub method_ancestor : Place → Option Place
unfolding method_from
method_ancestor (place above n) = method_from above n

-- The methods of a source, which the classifiers go through.
unfoldable pub methods : Node → List Place
unfolding walk_node
methods root = keep (λ p. is_method (kind_at p)) (walk_node [] root)
