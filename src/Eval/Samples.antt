-- ===== src/Eval/Samples.antt =====
-- A suite of two traps, loaded and summarized.
use mathlib.Core.List.{Perm}
use nesy_pqpatch.Prelude.{
  ◌+◌, ◌≤◌, ◌≡◌, refl, Text, text, text_eq, Bool, true, false, none, some, List, [], ◌∷◌, map, All,
}
use nesy_pqpatch.Python.{Result, ok}
use nesy_pqpatch.Eval.Values.{
  Value, text_value, bool_value, list_value, dict_value, Values, nil, cons, Entries, end, entry,
}
use nesy_pqpatch.Eval.Traps.{Load, load_trap}
use nesy_pqpatch.Eval.TrapData.{TrapSpec}
use nesy_pqpatch.Eval.Traps.Valid.{IsValid, load_trap-IsValid}
use nesy_pqpatch.Eval.Suite.{
  load_all, load_trap_suite, summarize_suite, sum_pairs, equal_pairs, all_pairs,
}
use nesy_pqpatch.Eval.Suite.Ascending.{IsAscending, load_trap_suite-IsAscending}
use nesy_pqpatch.Prelude.{length, inr}
use nesy_pqpatch.Eval.Suite.{count}
use nesy_pqpatch.Eval.Adjudicate.{
  Index, RawLabel, vote, word, Proposals, proposal_id, proposal_index, record_proposal_labels,
  pending_proposals,
}
use nesy_pqpatch.Eval.Adjudicate.Labels.{Extends, Recorded, record_proposal_labels-records}
use nesy_pqpatch.Eval.Adjudicate.Sound.{IsWellFormed}
use nesy_pqpatch.Eval.Outcomes.{Adjudications, TrapOutcome, pending, record_labels, trap_outcomes}
use nesy_pqpatch.Eval.Outcomes.Complete.{is_scored, trap_outcomes-total}
use nesy_pqpatch.Eval.Suite.Agreement.{PairsAdd, summarize_suite-adds_up}

abbrev label : Text → Bool → Value
label annotator unsafe = dict_value [] (
    entry (text "annotator") (text_value annotator) (entry (text "unsafe") (bool_value unsafe) end))

-- a descriptor, with its path for an id, that the third annotator finds safe
abbrev descriptor : Text → Value
descriptor path = dict_value [] (
    entry (text "trap_id") (text_value path) (
      entry (text "split") (text_value (text "dev")) (
        entry (text "provenance") (text_value (text "taxonomy")) (
          entry (text "unsafe_class") (text_value (text "U1")) (
            entry (text "usage_class") (text_value (text "kem")) (
              entry (text "annotator_labels")
                (list_value [] (
                  cons (label (text "A") true)
                    (cons (label (text "B") true) (cons (label (text "C") false) nil))))
                (entry (text "measured_full_verifier") (text_value (text "reject")) (
                  entry (text "measured_catch") (text_value (text "PQ-PARAM-01")) (
                    entry (text "unsafe_patch_compiles") (bool_value true) (
                      entry (text "caught_by_l3_alone") (bool_value false) (
                        entry (text "ground_truth_unsafe") (bool_value true) (
                          entry (text "scenario_path") (text_value (text "S"))
                            (entry (text "rationale") (text_value (text "R")) end)))))))))))))

abbrev load : Load
load path = ok (descriptor path)

unfoldable program : Unit {0}
unfolding nesy_pqpatch.Eval.Values.lookup nesy_pqpatch.Eval.Values.str
    nesy_pqpatch.Eval.Values.truth nesy_pqpatch.Eval.Values.str_or_none
    nesy_pqpatch.Eval.TrapData.splits nesy_pqpatch.Eval.TrapData.split_value
    nesy_pqpatch.Eval.TrapData.provenances nesy_pqpatch.Eval.TrapData.provenance_value
    nesy_pqpatch.Eval.TrapData.usage_classes nesy_pqpatch.Eval.TrapData.unsafe_classes
    nesy_pqpatch.Eval.TrapData.unanticipated nesy_pqpatch.Eval.Traps.found
    nesy_pqpatch.Eval.Traps.require nesy_pqpatch.Eval.Traps.as_bool
    nesy_pqpatch.Eval.Traps.require_bool nesy_pqpatch.Eval.Traps.judge_measured
    nesy_pqpatch.Eval.Traps.parse_measured_verdict nesy_pqpatch.Eval.Traps.member_of
    nesy_pqpatch.Eval.Traps.is_unanticipated nesy_pqpatch.Eval.Traps.parse_unsafe_class
    nesy_pqpatch.Eval.Traps.parse_enum nesy_pqpatch.Eval.Traps.label_of
    nesy_pqpatch.Eval.Traps.parse_label nesy_pqpatch.Eval.Traps.parse_labels
    nesy_pqpatch.Eval.Traps.judge_annotators nesy_pqpatch.Eval.Traps.parse_annotator_labels
    nesy_pqpatch.Eval.Traps.mapping_of nesy_pqpatch.Eval.Traps.check_source
    nesy_pqpatch.Eval.Traps.parse_provenance nesy_pqpatch.Eval.Traps.parse_labelling
    nesy_pqpatch.Eval.Traps.spec_of nesy_pqpatch.Eval.Traps.trap_of load_trap load_all
    nesy_pqpatch.Eval.Suite.check_ids nesy_pqpatch.Eval.Suite.insert_spec
    nesy_pqpatch.Eval.Suite.sort_specs load_trap_suite nesy_pqpatch.Trace.usage_class_value
    nesy_pqpatch.Trace.unsafe_class_value nesy_pqpatch.L2.Sets.update nesy_pqpatch.L2.Sets.add
    nesy_pqpatch.L2.Sets.get nesy_pqpatch.L2.Sets.pop nesy_pqpatch.L2.Sets.set
    nesy_pqpatch.Trace.Dumps.text_lt text_eq nesy_pqpatch.Eval.Suite.count sum_pairs equal_pairs
    all_pairs nesy_pqpatch.Eval.Suite.unanimous summarize_suite
program = tt

-- what a loader that succeeds gives
abbrev value_or {ℓ} : {A : Type ℓ} → A → Result A → A
value_or d (ok a) = a
value_or d (Result.raised e) = d

abbrev paths : List Text
paths = text "b" ∷ text "a" ∷ []

abbrev specs : List TrapSpec
specs = value_or [] (load_trap_suite load paths)

loads : load_trap_suite load paths ≡ ok specs
unfolding program
loads = refl

in_order : map (λ s. s.trap_id) specs ≡ text "a" ∷ text "b" ∷ []
unfolding program
in_order = refl

load_trap_suite-IsAscending_example :
    (loaded : List TrapSpec) × (load_all load paths ≡ ok loaded)
    × Perm specs loaded
    × All IsValid specs
    × IsAscending specs
load_trap_suite-IsAscending_example = load_trap_suite-IsAscending load paths specs loads

abbrev first_spec : TrapSpec → TrapSpec
first_spec d = value_or d (load_trap load (text "a"))

abbrev blank : TrapSpec
blank = record {
  trap_id = [];
  usage_class = nesy_pqpatch.Model.sign;
  unsafe_class = none;
  is_unanticipated = true;
  split = nesy_pqpatch.Eval.TrapData.dev;
  provenance = nesy_pqpatch.Eval.TrapData.taxonomy;
  source_ref = none;
  unsafe_patch_compiles = false;
  caught_by_l3_alone = false;
  measured_full_verifier = [];
  measured_catch = none;
  target_rule = none;
  annotator_labels = [];
  ground_truth_unsafe = false;
  scenario_path = [];
  rationale = [];
  source_file = [];
}

load_trap_a : load_trap load (text "a") ≡ ok (first_spec blank)
unfolding program
load_trap_a = refl

load_trap-IsValid_example : IsValid (first_spec blank) × ((first_spec blank).source_file ≡ text "a")
load_trap-IsValid_example = load_trap-IsValid load (text "a") (first_spec blank) load_trap_a

agreement : (summarize_suite specs).pct_agreement ≡ some (2, 6)
unfolding program
agreement = refl

summarize_suite-adds_up_example :
    (let s = summarize_suite specs in
      (s.n_dev + s.n_heldout ≡ s.total)
      × (s.n_taxonomy + s.n_external ≡ s.total)
      × (s.n_unanimous ≤ s.n_multi_labelled)
      × (s.n_multi_labelled ≤ s.total)
      × PairsAdd specs)
summarize_suite-adds_up_example = summarize_suite-adds_up specs

-- a digest, and a run of one accepted proposal
abbrev digest : Text → Text
digest t = text "D"

abbrev run_record : Entries
run_record = entry (text "trap_id") (text_value (text "T")) (
    entry (text "full_status") (text_value (text "accept")) (
      entry (text "l3_only_status") (text_value (text "accept"))
        (entry (text "needs_adjudication") (bool_value true) end)))

abbrev records : List Entries
records = run_record ∷ []

unfoldable run : Unit {0}
unfolding program nesy_pqpatch.Eval.Adjudicate.response_hash
    nesy_pqpatch.Eval.Adjudicate.proposal_id nesy_pqpatch.Eval.Adjudicate.proposal_id_version
    nesy_pqpatch.Eval.Adjudicate.str_at nesy_pqpatch.Eval.Adjudicate.true_at
    nesy_pqpatch.Eval.Adjudicate.proposal_label_eligible nesy_pqpatch.Eval.Adjudicate.known_label
    nesy_pqpatch.Eval.Adjudicate.label_values nesy_pqpatch.Eval.Adjudicate.normalize_label
    nesy_pqpatch.Eval.Adjudicate.entry_of nesy_pqpatch.Eval.Adjudicate.append_label
    nesy_pqpatch.Eval.Adjudicate.add_record nesy_pqpatch.Eval.Adjudicate.index_from proposal_index
    nesy_pqpatch.Eval.Adjudicate.sole_match nesy_pqpatch.Eval.Adjudicate.resolve_record
    nesy_pqpatch.Eval.Adjudicate.label_target nesy_pqpatch.Eval.Adjudicate.label_proposal
    nesy_pqpatch.Eval.Adjudicate.label_all record_proposal_labels pending_proposals
    nesy_pqpatch.Eval.Outcomes.value_at nesy_pqpatch.Eval.Outcomes.trap_ids
    nesy_pqpatch.Eval.Outcomes.is_adjudicated nesy_pqpatch.Eval.Outcomes.pending_from pending
    nesy_pqpatch.Eval.Outcomes.storage_key nesy_pqpatch.Eval.Outcomes.append_vote
    nesy_pqpatch.Eval.Outcomes.vote_on nesy_pqpatch.Eval.Outcomes.vote_all record_labels
run = tt

abbrev labelled : Proposals
labelled =
    value_or []
      (record_proposal_labels digest end records [] ((text "T", vote true) ∷ []) (text "A"))

labels_taken :
    record_proposal_labels digest end records [] ((text "T", vote true) ∷ []) (text "A")
    ≡ ok labelled
unfolding run
labels_taken = refl

nothing_pending : pending_proposals digest end records labelled ≡ []
unfolding run
nothing_pending = refl

empty-IsWellFormed : IsWellFormed []
unfolding run
empty-IsWellFormed pid p h = absurd cc

record_proposal_labels-records_example :
    IsWellFormed labelled
    × Extends [] labelled
    × (index : Index) × (proposal_index digest end records ≡ ok index)
    × All
        (λ (l : Text × RawLabel). Recorded digest end index (text "A") labelled l.0)
        ((text "T", vote true) ∷ [])
record_proposal_labels-records_example =
    record_proposal_labels-records digest end records [] labelled ((text "T", vote true) ∷ [])
      (text "A") labels_taken empty-IsWellFormed

abbrev votes : Adjudications
votes =
    value_or [] (record_labels digest end (text "R") records [] ((text "T", true) ∷ []) (text "A"))

none_pending : pending digest end records votes ≡ ok []
unfolding run
none_pending = refl

run_record-IsComplete : All nesy_pqpatch.Eval.Outcomes.Complete.IsComplete records
unfolding run
run_record-IsComplete = ((text "T", refl, text_value (text "accept"), refl, λ a. refl), tt)

trap_outcomes-total_example :
    (outs : List TrapOutcome) × (trap_outcomes digest end (text "majority") records votes ≡ ok outs)
    × (length outs ≡ count is_scored records)
trap_outcomes-total_example =
    trap_outcomes-total digest end (text "majority") records votes (inr refl) run_record-IsComplete
      none_pending
