-- ===== src/L2/KeyFlow.antt =====
-- PQ-KEY-02 in src/pqpatch/verifier/l2_dataflow/java_flow.py: a key made for one algorithm family
-- must not reach an operation of the other.
pub mod Keys
use nesy_pqpatch.Prelude.{
  ℕ, Text, text, text_eq, Bool, true, false, not, ◌&&◌, Option, none, some, List, [], ◌∷◌, any, map,
  if◌then◌else◌,
}
use nesy_pqpatch.Prelude.Utf8.{utf8_encode}
use nesy_pqpatch.Regex.{Regex, lit, ◌·◌, ◌or◌, optionally, found_in}
use nesy_pqpatch.L2.Sets.{member, get, set, pop, sorted}
use nesy_pqpatch.L2.Java.{
  name_field, object_field, arguments_field, Place, kind_at, start_at, is_invocation, walk,
  walk_method, methods, child_by_field_name,
}
use nesy_pqpatch.L2.Expressions.{field_text, identifier_names, assignment_of, invokes}
use nesy_pqpatch.L2.VerifyUse.{Parser}

pub data KeyFlow : Type 0 where
  consistent cross_family indeterminate : KeyFlow

pub data Family : Type 0 where
  kem sig : Family

abbrev pub same_family : Family → Family → Bool
same_family kem kem = true
same_family sig sig = true
same_family _ _ = false

-- r"ML-?KEM"
unfoldable pub kem_literal_re : Regex
kem_literal_re = lit "ML" · optionally (lit "-") · lit "KEM"

-- r"ML-?DSA|SLH-?DSA"
unfoldable pub sig_literal_re : Regex
sig_literal_re =
    (lit "ML" · optionally (lit "-") · lit "DSA") or (lit "SLH" · optionally (lit "-") · lit "DSA")

unfoldable pub key_source_receivers : List Text
key_source_receivers = text "KeyPairGenerator" ∷ text "KeyGenerator" ∷ text "KeyEncapsulation" ∷ []

unfoldable pub sig_sinks : List Text
sig_sinks = text "initSign" ∷ text "initVerify" ∷ []

unfoldable pub kem_sinks : List Text
kem_sinks = text "doPhase" ∷ []

-- The family that a fragment of source names, if it names one of the two.
unfoldable pub family_of_literals : Text → Option Family
unfolding found_in kem_literal_re sig_literal_re
family_of_literals fragment =
    if found_in kem_literal_re fragment && not (found_in sig_literal_re fragment)
    then some kem
    else if found_in sig_literal_re fragment && not (found_in kem_literal_re fragment)
    then some sig
    else none

unfoldable pub sink_family : Text → Option Family
unfolding sig_sinks kem_sinks
sink_family name =
    if member name sig_sinks then some sig else if member name kem_sinks then some kem else none

pub data FlowStep : Type 0 where
  assign : (left : Text) (source_family : Option Family) (alias_names : List Text) → FlowStep
  sink : Family → (used_names : List Text) → FlowStep

pub record TimedStep : Type 0 where
  pub position : ℕ
  pub step : FlowStep

module _ (source : List ℕ) where
  -- the family of one call, if it makes a key of a definite family
  unfoldable pub key_made : Place → Option Family
  key_made p =
      if invokes source (text "getInstance") p
        && member (field_text source object_field p) key_source_receivers
      then family_of_literals (field_text source arguments_field p)
      else none

  unfoldable pub first_key : List Place → Option Family
  first_key [] = none
  first_key (p ∷ ps) = elim (key_made p) [ none ↦ first_key ps | some f ↦ some f ]

  unfoldable pub key_source_family : Option Place → Option Family
  key_source_family none = none
  key_source_family (some rhs) = first_key (walk rhs)

  unfoldable pub sink_at : Place → Option FlowStep
  sink_at p =
      if is_invocation (kind_at p)
      then elim (sink_family (field_text source name_field p)) [
        | none ↦ none
        | some f ↦ some (sink f (identifier_names source (child_by_field_name arguments_field p)))
      ]
      else none

  unfoldable pub flow_step : Place → Option FlowStep
  flow_step p = elim (assignment_of source p) [
    | some (left, rhs) ↦ some (assign left (key_source_family rhs) (identifier_names source rhs))
    | none ↦ sink_at p
  ]

  unfoldable pub timed_steps : List Place → List TimedStep
  timed_steps [] = []
  timed_steps (p ∷ ps) = elim (flow_step p) [
    | none ↦ timed_steps ps
    | some s ↦ record { position = start_at p; step = s } ∷ timed_steps ps
  ]

  unfoldable pub flow_steps : Place → List FlowStep
  flow_steps method =
      map (λ t. t.step) (sorted (λ t. t.position) (timed_steps (walk_method method)))

-- the variables that hold a key of a known family
abbrev pub Tracked : Type 0
Tracked = List (Text × Family)

-- a name in use holds a key of another family
unfoldable pub crosses : Family → Tracked → List Text → Bool
crosses f tracked =
    any (λ x. elim (get x tracked) [ none ↦ false | some g ↦ not (same_family g f) ])

-- the families of the tracked names among the aliases, but for the one assigned to
unfoldable pub inherited : Tracked → Text → List Text → List Family
inherited tracked left [] = []
inherited tracked left (x ∷ xs) =
    let rest = inherited tracked left xs in
    elim (get x tracked) [ none ↦ rest | some f ↦ if text_eq x left then rest else f ∷ rest ]

-- the element, if the set has one
unfoldable pub sole : List Family → Option Family
sole [] = none
sole (f ∷ fs) = if any (λ g. not (same_family f g)) fs then none else some f

unfoldable pub assigned_family : Tracked → Text → Option Family → List Text → Option Family
assigned_family tracked left (some f) alias_names = some f
assigned_family tracked left none alias_names = sole (inherited tracked left alias_names)

unfoldable pub retrack : Text → Option Family → Tracked → Tracked
retrack left none tracked = pop left tracked
retrack left (some f) tracked = set left f tracked

unfoldable pub key_flow : Tracked → List FlowStep → KeyFlow
key_flow tracked [] = consistent
key_flow tracked (sink f used_names ∷ steps) = elim (crosses f tracked used_names) [
  | true ↦ cross_family
  | false ↦ key_flow tracked steps
]
key_flow tracked (assign left source_family alias_names ∷ steps) =
    key_flow (retrack left (assigned_family tracked left source_family alias_names) tracked) steps

unfoldable pub analyze_key_flow : List ℕ → Place → KeyFlow
analyze_key_flow source method = key_flow [] (flow_steps source method)

abbrev pub is_cross : KeyFlow → Bool
is_cross cross_family = true
is_cross _ = false

unfoldable pub classify_key_flow : Parser → Text → KeyFlow
classify_key_flow parse source =
    let bytes = utf8_encode source in
    let tree = parse bytes in
    if tree.has_error
    then indeterminate
    else if any (λ m. is_cross (analyze_key_flow bytes m)) (methods tree.root)
    then cross_family
    else consistent
