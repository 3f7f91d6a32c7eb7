-- ===== src/L2/Hybrid.antt =====
-- PQ-HYB-02 and PQ-HYB-03 in src/pqpatch/verifier/l2_dataflow/java_flow.py: where a method makes a
-- classical and a post-quantum secret, both reach one call, and what that call gives is derived.
pub mod Disjoint
use nesy_pqpatch.Prelude.{
  ℕ, Text, text, Bool, true, false, not, ◌&&◌, Option, none, some, List, [], ◌∷◌, any,
  if◌then◌else◌,
}
use nesy_pqpatch.Prelude.Utf8.{utf8_encode}
use nesy_pqpatch.L2.Sets.{member, add, discard, meets, sorted}
use nesy_pqpatch.L2.Java.{
  Kind, method_invocation, object_creation_expression, name_field, arguments_field, Place, kind_at,
  start_at, is_invocation, walk, walk_method, methods, child_by_field_name,
}
use nesy_pqpatch.L2.Expressions.{field_text, identifier_names, assignment_of}
use nesy_pqpatch.L2.VerifyUse.{Parser}

pub data HybridFlow : Type 0 where
  complete downgraded not_hybrid indeterminate : HybridFlow

unfoldable pub classical_secret_methods : List Text
classical_secret_methods = text "generateSecret" ∷ []

unfoldable pub pq_secret_methods : List Text
pq_secret_methods = text "decapsulate" ∷ []

abbrev pub is_call : Kind → Bool
is_call method_invocation = true
is_call object_creation_expression = true
is_call _ = false

-- An assignment, with what the analysis asks of its right-hand side.
pub data Origin : Type 0 where
  classical_secret pq_secret : Origin
  expression : List Text → Origin

pub record Assignment : Type 0 where
  pub position : ℕ
  pub left : Text
  pub origin : Origin

-- The variables that hold a secret of each family.
pub record Secrets : Type 0 where
  pub classical : List Text
  pub pq : List Text

abbrev pub no_secrets : Secrets
no_secrets = record { classical = []; pq = [] }

unfoldable pub take_classical : Text → Secrets → Secrets
take_classical left s = record { classical = add left s.classical; pq = discard left s.pq }

unfoldable pub take_pq : Text → Secrets → Secrets
take_pq left s = record { classical = discard left s.classical; pq = add left s.pq }

-- An alias of one family's secret keeps the family; a value of both or of none is untainted.
unfoldable pub take_expression : Text → List Text → Secrets → Secrets
take_expression left ids s =
    let in_classical = meets ids s.classical in
    let in_pq = meets ids s.pq in
    let classical = discard left s.classical in
    let pq = discard left s.pq in
    if in_classical && not in_pq
    then record { classical = add left classical; pq = pq }
    else if in_pq && not in_classical
    then record { classical = classical; pq = add left pq }
    else record { classical = classical; pq = pq }

unfoldable pub take_origin : Text → Origin → Secrets → Secrets
unfolding take_classical take_pq take_expression
take_origin left classical_secret s = take_classical left s
take_origin left pq_secret s = take_pq left s
take_origin left (expression ids) s = take_expression left ids s

unfoldable pub take_assignment : Assignment → Secrets → Secrets
unfolding take_origin
take_assignment a s = take_origin a.left a.origin s

unfoldable pub secrets_after : Secrets → List Assignment → Secrets
unfolding take_assignment
secrets_after s [] = s
secrets_after s (a ∷ as') = secrets_after (take_assignment a s) as'

-- PQ-HYB-03 leaves the families of all other variables as they are.
unfoldable pub produce_origin : Text → Origin → Secrets → Secrets
unfolding take_classical take_pq
produce_origin left classical_secret s = take_classical left s
produce_origin left pq_secret s = take_pq left s
produce_origin left (expression ids) s = s

unfoldable pub produced_by : Assignment → Secrets → Secrets
unfolding produce_origin
produced_by a s = produce_origin a.left a.origin s

unfoldable pub produced : Secrets → List Assignment → Secrets
unfolding produced_by
produced s [] = s
produced s (a ∷ as') = produced (produced_by a s) as'

abbrev pub is_nonempty : List Text → Bool
is_nonempty [] = false
is_nonempty (x ∷ xs) = true

module _ (source : List ℕ) where
  unfoldable pub rhs_calls_any : List Text → Option Place → Bool
  rhs_calls_any names none = false
  rhs_calls_any names (some rhs) =
      any (λ p. is_invocation (kind_at p) && member (field_text source name_field p) names)
        (walk rhs)

  unfoldable pub origin_of : Option Place → Origin
  origin_of rhs =
      if rhs_calls_any classical_secret_methods rhs
      then classical_secret
      else if rhs_calls_any pq_secret_methods rhs
      then pq_secret
      else expression (identifier_names source rhs)

  unfoldable pub assignments : List Place → List Assignment
  assignments [] = []
  assignments (p ∷ ps) = elim (assignment_of source p) [
    | none ↦ assignments ps
    | some (left, rhs) ↦
        record { position = start_at p; left = left; origin = origin_of rhs } ∷ assignments ps
  ]

  unfoldable pub assignments_in_order : Place → List Assignment
  assignments_in_order method = sorted (λ a. a.position) (assignments (walk_method method))

  -- the names in a call's arguments, or in the whole of it
  unfoldable pub call_names : Place → List Text
  call_names p = elim (child_by_field_name arguments_field p) [
    | none ↦ identifier_names source (some p)
    | some args ↦ identifier_names source (some args)
  ]

  -- one call takes a secret of each family
  unfoldable pub combines : Secrets → Place → Bool
  combines s p =
      is_call (kind_at p) && (meets (call_names p) s.classical && meets (call_names p) s.pq)

  unfoldable pub analyze_hybrid : Place → HybridFlow
  analyze_hybrid method =
      let s = secrets_after no_secrets (assignments_in_order method) in
      if not (is_nonempty s.classical && is_nonempty s.pq)
      then not_hybrid
      else if any (combines s) (walk_method method)
      then complete
      else downgraded

  -- the loop over the methods: a downgraded one decides, and a complete one is remembered
  unfoldable pub hybrid_from : HybridFlow → List Place → HybridFlow
  hybrid_from result [] = result
  hybrid_from result (m ∷ ms) = elim (analyze_hybrid m) [
    | downgraded ↦ downgraded
    | complete ↦ hybrid_from complete ms
    | _ ↦ hybrid_from result ms
  ]

unfoldable pub classify_hybrid_flow : Parser → Text → HybridFlow
classify_hybrid_flow parse source =
    let bytes = utf8_encode source in
    let tree = parse bytes in
    if tree.has_error then indeterminate else hybrid_from bytes not_hybrid (methods tree.root)
