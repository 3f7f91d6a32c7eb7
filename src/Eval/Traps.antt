-- ===== src/Eval/Traps.antt =====
-- src/pqpatch/eval/traps.py: the descriptor of a trap, read from YAML and validated.
pub mod Valid
pub mod Distinct
use nesy_pqpatch.Prelude.{
  ℕ, Text, text, text_eq, join, Bool, true, false, not, ◌&&◌, ◌||◌, Option, none, some, List, [],
  ◌∷◌, ◌++◌, map, length, ltb, ◌==◌, if◌then◌else◌,
}
use nesy_pqpatch.Python.{Exception, value, Result, ok, raised, ◌>>=◌, repr, decimal}
use nesy_pqpatch.Model.{
  UsageClass, sign, verify, kem, envelope, config, UnsafeClass, u1_param_weakening,
  u2_classical_fallback, u3_unchecked_verify, u4_key_confusion, u5_randomness_misuse,
  u6_hybrid_downgrade, u7_fail_open,
}
use nesy_pqpatch.L1.Families.{repr_all}
use nesy_pqpatch.L2.Sets.{update}
use nesy_pqpatch.Trace.{usage_class_value, unsafe_class_value}
use nesy_pqpatch.Eval.TrapData.{
  TrapSplit, dev, heldout, TrapProvenance, taxonomy, external_pr, external_cve, AnnotatorLabel,
  TrapSpec, split_value, provenance_value, Members, splits, provenances, usage_classes,
  unsafe_classes, unanticipated,
}
use nesy_pqpatch.Eval.Values.{
  Value, text_value, bool_value, scalar, list_value, dict_value, Values, Entries, items_of, lookup,
  str, repr_value, type_name, truth, str_or_none,
}

unfoldable pub member_of : {E : Type 0} → Text → Members E → Option E
member_of t [] = none
member_of t ((v, e) ∷ members) = if text_eq t v then some e else member_of t members

abbrev pub values_of : {E : Type 0} → Members E → List Text
values_of members = map (λ m. m.0) members

-- repr of a list of texts, with its brackets
abbrev pub shown_list : List Text → Text
shown_list ts = text "[" ++ (join (text ", ") (repr_all ts) ++ text "]")

-- raw == "unanticipated"
unfoldable pub is_unanticipated : Value → Bool
is_unanticipated (text_value t) = text_eq t unanticipated
is_unanticipated _ = false

abbrev pub annotators : List AnnotatorLabel → List Text
annotators labels = map (λ l. l.annotator) labels

-- the unsafe class, whether it is unanticipated, the usage class, the labels and the measurement
pub record Labelling : Type 0 where
  pub unsafe : Option UnsafeClass × Bool
  pub usage : UsageClass
  pub labels : List AnnotatorLabel
  pub measured : Text × Option Text

module _ (path : Text) where
  -- raise TrapValidationError(path, message)
  unfoldable pub invalid : {A : Type 0} → Text → Result A
  invalid message =
      let full = path ++ (text ": " ++ message) in
      raised (record {
        kind = value;
        message = full;
        repr = text "TrapValidationError(" ++ (repr full ++ text ")");
      })

  unfoldable pub found : {A : Type 0} → Text → Option A → Result A
  found message none = invalid message
  found message (some a) = ok a

  unfoldable pub require : Entries → Text → Result Value
  require data' key = found (text "missing required field " ++ repr key) (lookup key data')

  unfoldable pub as_bool : Text → Value → Result Bool
  as_bool key (bool_value b) = ok b
  as_bool key v =
      invalid (text "field " ++ (repr key ++ (text " must be a boolean, got " ++ type_name v)))

  unfoldable pub require_bool : Entries → Text → Result Bool
  require_bool data' key = require data' key >>= as_bool key

  -- The verdict is "accept" or "reject", and a catch is named exactly when it is "reject".
  unfoldable pub judge_measured : Text → Option Text → Result (Text × Option Text)
  judge_measured verdict catch' =
      if not (text_eq verdict (text "accept") || text_eq verdict (text "reject"))
      then invalid (text "field 'measured_full_verifier' must be 'accept' or 'reject'")
      else elim catch' [
        | none ↦
            if text_eq verdict (text "reject")
            then invalid (
                text
                  "measured_catch must name the rejecting layer/rule exactly when measured_full_verifier is 'reject'")
            else ok (verdict, none)
        | some c ↦
            if text_eq verdict (text "reject")
            then ok (verdict, some c)
            else invalid (
                text
                  "measured_catch must name the rejecting layer/rule exactly when measured_full_verifier is 'reject'")
      ]

  unfoldable pub parse_measured_verdict : Entries → Result (Text × Option Text)
  parse_measured_verdict data' = do
    verdict ← require data' (text "measured_full_verifier")
    judge_measured (str verdict) (str_or_none (lookup (text "measured_catch") data'))

  unfoldable pub parse_unsafe_class : Value → Result (Option UnsafeClass × Bool)
  parse_unsafe_class raw = if is_unanticipated raw then ok (none, true) else do
    c ←
        found
          (text "unsafe_class "
            ++ (repr_value raw
                ++ (text " is not one of "
                    ++ shown_list (values_of unsafe_classes ++ unanticipated ∷ []))))
          (member_of (str raw) unsafe_classes)
    ok (some c, false)

  unfoldable pub parse_enum : {E : Type 0} → Members E → Value → Text → Result E
  parse_enum members raw key =
      found
        (key
          ++ (text " "
              ++ (repr_value raw ++ (text " is not one of " ++ shown_list (values_of members)))))
        (member_of (str raw) members)

  unfoldable pub label_of : Option Value → Option Value → Result AnnotatorLabel
  label_of (some annotator) (some (bool_value unsafe)) =
      ok (record { annotator = str annotator; unsafe = unsafe })
  label_of (some annotator) (some v) = invalid (text "annotator_label 'unsafe' must be a boolean")
  label_of _ _ = invalid (text "each annotator_label needs an 'annotator' and an 'unsafe' field")

  unfoldable pub parse_label : Value → Result AnnotatorLabel
  parse_label (dict_value shown es) =
      label_of (lookup (text "annotator") es) (lookup (text "unsafe") es)
  parse_label _ = invalid (text "each annotator_label needs an 'annotator' and an 'unsafe' field")

  unfoldable pub parse_labels : List Value → Result (List AnnotatorLabel)
  parse_labels [] = ok []
  parse_labels (v ∷ vs) = do label ← parse_label v; labels ← parse_labels vs; ok (label ∷ labels)

  unfoldable pub judge_annotators : List AnnotatorLabel → Result (List AnnotatorLabel)
  judge_annotators labels =
      if length (update [] (annotators labels)) == length (annotators labels)
      then ok labels
      else invalid (text "annotator ids must be distinct, got " ++ shown_list (annotators labels))

  unfoldable pub parse_annotator_labels : Value → Result (List AnnotatorLabel)
  parse_annotator_labels (list_value shown vs) =
      if ltb (length (items_of vs)) 2
      then invalid (
          text "annotator_labels needs >= 2 independent labels (U-C), got "
          ++ decimal (length (items_of vs)))
      else parse_labels (items_of vs) >>= judge_annotators
  parse_annotator_labels _ = invalid (text "annotator_labels must be a list")

  unfoldable pub mapping_of : Value → Result Entries
  mapping_of (dict_value shown es) = ok es
  mapping_of _ = invalid (text "trap descriptor must be a YAML mapping")

  -- A source outside the taxonomy is named.
  unfoldable pub check_source : TrapProvenance → Option Text → Result (Unit {0})
  check_source taxonomy source_ref = ok tt
  check_source external_pr (some ref) = ok tt
  check_source external_cve (some ref) = ok tt
  check_source provenance none = invalid (
      text "provenance "
      ++ (repr (provenance_value provenance) ++ text " requires a non-empty source_ref"))

  unfoldable pub parse_provenance : Entries → Result TrapProvenance
  parse_provenance raw = do
    raw_provenance ← require raw (text "provenance")
    provenance ← parse_enum provenances raw_provenance (text "provenance")
    _ ← check_source provenance (str_or_none (lookup (text "source_ref") raw))
    ok provenance

  unfoldable pub parse_labelling : Entries → Result Labelling
  parse_labelling raw = do
    raw_unsafe ← require raw (text "unsafe_class")
    unsafe ← parse_unsafe_class raw_unsafe
    raw_usage ← require raw (text "usage_class")
    usage_class ← parse_enum usage_classes raw_usage (text "usage_class")
    raw_labels ← require raw (text "annotator_labels")
    labels ← parse_annotator_labels raw_labels
    measured ← parse_measured_verdict raw
    ok (record { unsafe = unsafe; usage = usage_class; labels = labels; measured = measured })

  -- the descriptor, from what is parsed before
  unfoldable pub spec_of : Entries → TrapSplit → TrapProvenance → Labelling → Result TrapSpec
  spec_of raw split provenance l = do
    trap_id ← require raw (text "trap_id")
    compiles ← require_bool raw (text "unsafe_patch_compiles")
    caught ← require_bool raw (text "caught_by_l3_alone")
    ground_truth ← require_bool raw (text "ground_truth_unsafe")
    scenario_path ← require raw (text "scenario_path")
    rationale ← require raw (text "rationale")
    ok (record {
      trap_id = str trap_id;
      usage_class = l.usage;
      unsafe_class = l.unsafe.0;
      is_unanticipated = l.unsafe.1;
      split = split;
      provenance = provenance;
      source_ref = str_or_none (lookup (text "source_ref") raw);
      unsafe_patch_compiles = compiles;
      caught_by_l3_alone = caught;
      measured_full_verifier = l.measured.0;
      measured_catch = l.measured.1;
      target_rule = str_or_none (lookup (text "target_rule") raw);
      annotator_labels = l.labels;
      ground_truth_unsafe = ground_truth;
      scenario_path = str scenario_path;
      rationale = str rationale;
      source_file = path;
    })

  unfoldable pub trap_of : Entries → Result TrapSpec
  trap_of raw = do
    raw_split ← require raw (text "split")
    split ← parse_enum splits raw_split (text "split")
    provenance ← parse_provenance raw
    labelling ← parse_labelling raw
    spec_of raw split provenance labelling

-- yaml.safe_load(path.read_text())
abbrev pub Load : Type 0
Load = Text → Result Value

unfoldable pub load_trap : Load → Text → Result TrapSpec
load_trap load path = do raw ← load path; entries ← mapping_of path raw; trap_of path entries
