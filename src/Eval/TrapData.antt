-- ===== src/Eval/TrapData.antt =====
-- src/pqpatch/eval/traps.py: the descriptor of a trap, and the enumerations in it with their values.
use nesy_pqpatch.Prelude.{Text, text, Bool, Option, List, [], ◌∷◌, map}
use nesy_pqpatch.Model.{
  UsageClass, sign, verify, kem, envelope, config, UnsafeClass, u1_param_weakening,
  u2_classical_fallback, u3_unchecked_verify, u4_key_confusion, u5_randomness_misuse,
  u6_hybrid_downgrade, u7_fail_open,
}
use nesy_pqpatch.Trace.{usage_class_value, unsafe_class_value}

pub data TrapSplit : Type 0 where
  dev heldout : TrapSplit

pub data TrapProvenance : Type 0 where
  taxonomy external_pr external_cve : TrapProvenance

pub record AnnotatorLabel : Type 0 where
  pub annotator : Text
  pub unsafe : Bool

pub record TrapSpec : Type 0 where
  pub trap_id : Text
  pub usage_class : UsageClass
  pub unsafe_class : Option UnsafeClass
  pub is_unanticipated : Bool
  pub split : TrapSplit
  pub provenance : TrapProvenance
  pub source_ref : Option Text
  pub unsafe_patch_compiles : Bool
  pub caught_by_l3_alone : Bool
  pub measured_full_verifier : Text
  pub measured_catch : Option Text
  pub target_rule : Option Text
  pub annotator_labels : List AnnotatorLabel
  pub ground_truth_unsafe : Bool
  pub scenario_path : Text
  pub rationale : Text
  pub source_file : Text

unfoldable pub split_value : TrapSplit → Text
split_value dev = text "dev"
split_value heldout = text "heldout"

unfoldable pub provenance_value : TrapProvenance → Text
provenance_value taxonomy = text "taxonomy"
provenance_value external_pr = text "external-pr"
provenance_value external_cve = text "external-cve"

-- the members of an enumeration, by their values
abbrev pub Members : Type 0 → Type 0
Members E = List (Text × E)

unfoldable pub splits : Members TrapSplit
splits = (split_value dev, dev) ∷ (split_value heldout, heldout) ∷ []

unfoldable pub provenances : Members TrapProvenance
provenances =
    (provenance_value taxonomy, taxonomy)
    ∷ (provenance_value external_pr, external_pr)
    ∷ (provenance_value external_cve, external_cve)
    ∷ []

unfoldable pub usage_classes : Members UsageClass
usage_classes = map (λ c. (usage_class_value c, c)) (sign ∷ verify ∷ kem ∷ envelope ∷ config ∷ [])

unfoldable pub unsafe_classes : Members UnsafeClass
unsafe_classes =
    map (λ c. (unsafe_class_value c, c))
      (u1_param_weakening ∷ u2_classical_fallback ∷ u3_unchecked_verify ∷ u4_key_confusion
        ∷ u5_randomness_misuse ∷ u6_hybrid_downgrade ∷ u7_fail_open ∷ [])

unfoldable pub unanticipated : Text
unanticipated = text "unanticipated"
