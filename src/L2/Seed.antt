-- ===== src/L2/Seed.antt =====
-- PQ-RAND-03 and PQ-RAND-04 in src/pqpatch/verifier/l2_dataflow/java_flow.py: constant seeds that
-- reach a SecureRandom through a variable, and a constant first seed of a SHA1PRNG.
pub mod Constants
use nesy_pqpatch.Prelude.{
  ℕ, Text, text, Bool, true, false, ◌&&◌, ◌||◌, Option, none, some, List, [], ◌∷◌, any, map,
  if◌then◌else◌,
}
use nesy_pqpatch.Prelude.Utf8.{utf8_encode}
use nesy_pqpatch.Regex.{lit, found_in}
use nesy_pqpatch.L2.Sets.{member, add, discard, meets, sorted}
use nesy_pqpatch.L2.Java.{
  Kind, object_creation_expression, string_literal, decimal_integer_literal, hex_integer_literal,
  octal_integer_literal, binary_integer_literal, character_literal, array_initializer,
  array_creation_expression, name_field, object_field, arguments_field, type_field, same_field,
  Node, node, Children, end, child, Place, place, kind_at, start_at, is_invocation, walk_method,
  methods, child_by_field_name,
}
use nesy_pqpatch.L2.Expressions.{
  field_text, identifier_names, simple_identifier, named_assignment, invokes,
}
use nesy_pqpatch.L2.VerifyUse.{Parser}

pub data SeedFlow : Type 0 where
  clean literal_seeded indeterminate : SeedFlow

abbrev pub seed_literal : Kind → Bool
seed_literal string_literal = true
seed_literal decimal_integer_literal = true
seed_literal hex_integer_literal = true
seed_literal octal_integer_literal = true
seed_literal binary_integer_literal = true
seed_literal character_literal = true
seed_literal array_initializer = true
seed_literal array_creation_expression = true
seed_literal _ = false

pub data SeedStep : Type 0 where
  assign : (left : Text) (constant : Bool) (alias : Option Text) → SeedStep
  sink : List Text → SeedStep

pub record TimedStep : Type 0 where
  pub position : ℕ
  pub step : SeedStep

module _ (source : List ℕ) where
  -- A literal, or `getBytes` of a constant. `object_is_constant` goes to the child in the field
  -- `object`.
  unfoldable mutual
    pub constant_node : List Node → Node → Bool
    constant_node above (node i cs) =
        let on_object = object_is_constant (node i cs ∷ above) cs in
        if seed_literal i.kind
        then true
        else invokes source (text "getBytes") (place above (node i cs)) && on_object

    pub object_is_constant : List Node → Children → Bool
    object_is_constant above end = false
    object_is_constant above (child slot n cs) =
        let here = constant_node above n in
        let later = object_is_constant above cs in
        if same_field object_field slot.field then here else later

  unfoldable pub is_constant_seed : Option Place → Bool
  unfolding constant_node
  is_constant_seed none = false
  is_constant_seed (some (place above n)) = constant_node above n

  abbrev pub is_creation : Kind → Bool
  is_creation object_creation_expression = true
  is_creation _ = false

  unfoldable pub is_secure_random_ctor : Place → Bool
  is_secure_random_ctor p =
      is_creation (kind_at p) && found_in (lit "SecureRandom") (field_text source type_field p)

  unfoldable pub seed_sink_methods : List Text
  seed_sink_methods = text "setSeed" ∷ []

  abbrev pub seed_sink : Place → Bool
  seed_sink p =
      is_secure_random_ctor p
      || (is_invocation (kind_at p) && member (field_text source name_field p) seed_sink_methods)

  unfoldable pub seed_step : Place → Option SeedStep
  seed_step p = elim (named_assignment source p) [
    | some (left, rhs) ↦ some (assign left (is_constant_seed rhs) (simple_identifier source rhs))
    | none ↦
        if seed_sink p
        then some (sink (identifier_names source (child_by_field_name arguments_field p)))
        else none
  ]

  unfoldable pub timed_steps : List Place → List TimedStep
  timed_steps [] = []
  timed_steps (p ∷ ps) = elim (seed_step p) [
    | none ↦ timed_steps ps
    | some s ↦ record { position = start_at p; step = s } ∷ timed_steps ps
  ]

  unfoldable pub seed_steps : Place → List SeedStep
  seed_steps method =
      map (λ t. t.step) (sorted (λ t. t.position) (timed_steps (walk_method method)))

abbrev pub aliases : Option Text → List Text → Bool
aliases none tainted = false
aliases (some x) tainted = member x tainted

unfoldable pub taint : Text → Bool → List Text → List Text
taint left constant tainted = if constant then add left tainted else discard left tainted

unfoldable pub seed_flow : List Text → List SeedStep → SeedFlow
seed_flow tainted [] = clean
seed_flow tainted (sink used_names ∷ steps) = elim (meets used_names tainted) [
  | true ↦ literal_seeded
  | false ↦ seed_flow tainted steps
]
seed_flow tainted (assign left constant alias ∷ steps) =
    seed_flow (taint left (constant || aliases alias tainted) tainted) steps

unfoldable pub analyze_seed : List ℕ → Place → SeedFlow
analyze_seed source method = seed_flow [] (seed_steps source method)

abbrev pub is_seeded : SeedFlow → Bool
is_seeded literal_seeded = true
is_seeded _ = false

unfoldable pub classify_seed_provenance : Parser → Text → SeedFlow
classify_seed_provenance parse source =
    let bytes = utf8_encode source in
    let tree = parse bytes in
    if tree.has_error
    then indeterminate
    else if any (λ m. is_seeded (analyze_seed bytes m)) (methods tree.root)
    then literal_seeded
    else clean
