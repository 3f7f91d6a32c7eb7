-- ===== src/L2/Prng.antt =====
-- PQ-RAND-04 in src/pqpatch/verifier/l2_dataflow/java_flow.py: a SHA1PRNG whose first seed is a
-- constant.
pub mod Generators
use nesy_pqpatch.Prelude.{
  ℕ, Text, text, text_eq, Bool, true, false, not, ◌&&◌, Option, none, some, List, [], ◌∷◌, any, map,
  if◌then◌else◌,
}
use nesy_pqpatch.Prelude.Utf8.{utf8_encode}
use nesy_pqpatch.Regex.{lit, found_in}
use nesy_pqpatch.L2.Sets.{member, add, discard, sorted}
use nesy_pqpatch.L2.Java.{
  name_field, object_field, arguments_field, Place, kind_at, start_at, is_invocation, is_identifier,
  walk, walk_method, methods, first_named_child, child_by_field_name,
}
use nesy_pqpatch.L2.Expressions.{text_of, field_text, named_assignment, invokes}
use nesy_pqpatch.L2.VerifyUse.{Parser}
use nesy_pqpatch.L2.Seed.{is_constant_seed}

pub data PrngSeed : Type 0 where
  safe deterministic indeterminate : PrngSeed

-- A variable takes a SHA1PRNG or another value, is used, or gets a seed.
pub data PrngEvent : Type 0 where
  prng other use_of : Text → PrngEvent
  seed : Text → (constant : Bool) → PrngEvent

pub record TimedEvent : Type 0 where
  pub position : ℕ
  pub event : PrngEvent

unfoldable pub prng_use_methods : List Text
prng_use_methods =
    text "nextBytes"
    ∷ text "nextInt"
    ∷ text "nextLong"
    ∷ text "nextDouble"
    ∷ text "generateSeed"
    ∷ []

module _ (source : List ℕ) where
  -- SecureRandom.getInstance("SHA1PRNG")
  unfoldable pub makes_sha1prng : Place → Bool
  makes_sha1prng p =
      invokes source (text "getInstance") p
      && (text_eq (field_text source object_field p) (text "SecureRandom")
          && found_in (lit "SHA1PRNG") (field_text source arguments_field p))

  unfoldable pub is_sha1prng : Option Place → Bool
  is_sha1prng none = false
  is_sha1prng (some rhs) = any makes_sha1prng (walk rhs)

  -- the receiver, if it is a name
  unfoldable pub receiver : Option Place → Option Text
  receiver none = none
  receiver (some p) = if is_identifier (kind_at p) then some (text_of source (some p)) else none

  -- the first argument is a constant
  unfoldable pub constant_argument : Option Place → Bool
  constant_argument none = false
  constant_argument (some args) = is_constant_seed source (first_named_child args)

  unfoldable pub call_event : Place → Option PrngEvent
  call_event p =
      if is_invocation (kind_at p)
      then elim (receiver (child_by_field_name object_field p)) [
        | none ↦ none
        | some r ↦
            if text_eq (field_text source name_field p) (text "setSeed")
            then some (seed r (constant_argument (child_by_field_name arguments_field p)))
            else if member (field_text source name_field p) prng_use_methods
            then some (use_of r)
            else none
      ]
      else none

  unfoldable pub prng_event : Place → Option PrngEvent
  prng_event p = elim (named_assignment source p) [
    | some (left, rhs) ↦ some (if is_sha1prng rhs then prng left else other left)
    | none ↦ call_event p
  ]

  unfoldable pub timed_events : List Place → List TimedEvent
  timed_events [] = []
  timed_events (p ∷ ps) = elim (prng_event p) [
    | none ↦ timed_events ps
    | some e ↦ record { position = start_at p; event = e } ∷ timed_events ps
  ]

  unfoldable pub prng_events : Place → List PrngEvent
  prng_events method =
      map (λ t. t.event) (sorted (λ t. t.position) (timed_events (walk_method method)))

-- The loop: the variables that hold a SHA1PRNG, and those used since.
unfoldable pub prng_flow : List Text → List Text → List PrngEvent → PrngSeed
prng_flow made used [] = safe
prng_flow made used (prng x ∷ es) = prng_flow (add x made) (discard x used) es
prng_flow made used (other x ∷ es) = prng_flow (discard x made) used es
prng_flow made used (use_of x ∷ es) = prng_flow made (add x used) es
prng_flow made used (seed x constant ∷ es) =
    elim (member x made && not (member x used) && constant) [
      | true ↦ deterministic
      | false ↦ prng_flow made used es
    ]

unfoldable pub analyze_prng_seed : List ℕ → Place → PrngSeed
analyze_prng_seed source method = prng_flow [] [] (prng_events source method)

abbrev pub is_deterministic : PrngSeed → Bool
is_deterministic deterministic = true
is_deterministic _ = false

unfoldable pub classify_prng_seed : Parser → Text → PrngSeed
classify_prng_seed parse source =
    let bytes = utf8_encode source in
    let tree = parse bytes in
    if tree.has_error
    then indeterminate
    else if any (λ m. is_deterministic (analyze_prng_seed bytes m)) (methods tree.root)
    then deterministic
    else safe
