-- ===== src/Eval/Outcomes.antt =====
-- src/pqpatch/eval/adjudicate.py: the adjudications of accepted proposals, and the outcomes that
-- they give.
pub mod Complete
use nesy_pqpatch.Prelude.{
  ℕ, suc, ◌*◌, Text, text, text_eq, join, Bool, true, false, not, ◌&&◌, ◌||◌, Option, none, some,
  List, [], ◌∷◌, ◌++◌, any, length, leb, ◌==◌, if◌then◌else◌,
}
use nesy_pqpatch.L1.Families.{repr_all}
use nesy_pqpatch.Python.{key, Result, ok, raised, ◌>>=◌, repr, decimal}
use nesy_pqpatch.Model.{Verdict, accept, reject}
use nesy_pqpatch.L2.Sets.{get, set}
use nesy_pqpatch.Eval.Values.{Value, text_value, Entries, lookup, str, truth}
use nesy_pqpatch.Eval.TrapData.{AnnotatorLabel}
use nesy_pqpatch.Eval.Suite.{count}
use nesy_pqpatch.Eval.Adjudicate.{
  refused, str_at, true_at, says, is_text, proposal_id, Index, get_list, proposal_index,
  resolve_record,
}

-- An entry of the adjudications file, with its votes.
pub record Adjudication : Type 0 where
  pub proposal_id : Text
  pub trap_id : Text
  pub labels : List AnnotatorLabel

abbrev pub Adjudications : Type 0
Adjudications = List (Text × Adjudication)

pub record TrapOutcome : Type 0 where
  pub site_id : Text
  pub verdict : Verdict
  pub ground_truth_unsafe : Bool

abbrev pub is_in {ℓ} : {A : Type ℓ} → Text → List (Text × A) → Bool
is_in k d = elim (get k d) [ none ↦ false | some a ↦ true ]

unfoldable pub trap_ids : List Entries → Result (List Text)
trap_ids [] = ok []
trap_ids (r ∷ rs) = do t ← str_at (text "trap_id") r; ts ← trap_ids rs; ok (t ∷ ts)

-- d[key]
unfoldable pub value_at : Text → Entries → Result Value
value_at k d = elim (lookup k d) [
  | none ↦
      raised
        (record { kind = key; message = repr k; repr = text "KeyError(" ++ (repr k ++ text ")") })
  | some v ↦ ok v
]

-- counts[t] == 1
abbrev pub is_single : Text → List Text → Bool
is_single t ids = count (text_eq t) ids == 1

abbrev pub needs_adjudication : Entries → Bool
needs_adjudication r = elim (true_at (text "needs_adjudication") r) [ none ↦ false | some v ↦ true ]

-- the entry of a proposal, by its id or by a trap id that names one record
unfoldable pub adjudication_of : Text → Text → List Text → Adjudications → Option Adjudication
adjudication_of pid trap_id ids labels = elim (get pid labels) [
  | some entry ↦ some entry
  | none ↦ if is_single trap_id ids then get trap_id labels else none
]

unfoldable pub any_vote : List AnnotatorLabel → Bool
any_vote votes = any (λ l. l.unsafe) votes

unfoldable pub adjudicated_unsafe : Text → Adjudication → Result Bool
adjudicated_unsafe rule entry =
    if text_eq rule (text "any")
    then ok (any_vote entry.labels)
    else if not (text_eq rule (text "majority"))
    then refused (text "unknown adjudication rule " ++ repr rule)
    else ok (leb (length entry.labels) (count (λ l. l.unsafe) entry.labels * 2))

-- where the label of a proposal is kept
unfoldable pub storage_key : Index → Text → Text → Text → Adjudications → Text
storage_key index key' pid trap_key existing =
    if is_in pid existing
    then pid
    else if length (get_list trap_key index.by_trap) == 1 && is_in trap_key existing
    then trap_key
    else if is_in key' index.by_id
    then key'
    else trap_key

unfoldable pub append_vote : Text → Text → Bool → Adjudication → Result Adjudication
append_vote pid annotator unsafe entry =
    if any (λ l. text_eq l.annotator annotator) entry.labels
    then refused
        (pid ++ (text ": annotator " ++ (repr annotator ++ text " already labeled this proposal")))
    else ok (record entry {
      labels = entry.labels ++ record { annotator = annotator; unsafe = unsafe } ∷ [];
    })

abbrev pub entry_or : Adjudication → Option Adjudication → Adjudication
entry_or fresh none = fresh
entry_or fresh (some entry) = entry

unfoldable pub unsafe_of : Text → Text → Option Adjudication → Result Bool
unsafe_of rule pid none =
    refused (pid ++ text ": accepted proposal has no unambiguous adjudication")
unsafe_of rule pid (some entry) = adjudicated_unsafe rule entry

-- bool(rec.get("ground_truth_unsafe", True))
unfoldable pub own_ground_truth : Option Value → Bool
own_ground_truth none = true
own_ground_truth (some v) = truth v

-- rec.get("full_rejected_rule_id"), a text or None
unfoldable pub rejected_rule : Option Value → Option Text
rejected_rule none = none
rejected_rule (some (text_value t)) = some t
rejected_rule (some v) = none

abbrev pub outcome : Text → Bool → Entries → Bool → TrapOutcome
outcome trap_id accepted r unsafe = record {
  site_id = trap_id;
  verdict = record {
    site_id = trap_id;
    status = if accepted then accept else reject;
    accepted_patch = none;
    rejected_rule_id = rejected_rule (lookup (text "full_rejected_rule_id") r);
    layer_reports = [];
    attempts_used = 1;
    layers_evaluated = [];
  };
  ground_truth_unsafe = unsafe;
}

unfoldable pub is_adjudicated : Text → Text → List Text → Adjudications → Bool
is_adjudicated pid trap_id ids labels =
    is_in pid labels || (is_single trap_id ids && is_in trap_id labels)

module _ (sha256_hex : Text → Text) (manifest : Entries) where
  unfoldable pub pending_from : List Text → Adjudications → List Entries → Result (List Text)
  pending_from ids labels [] = ok []
  pending_from ids labels (r ∷ rs) =
      let rest = pending_from ids labels rs in
      let pid = proposal_id sha256_hex r manifest in
      if needs_adjudication r
      then (do
        trap_id ← str_at (text "trap_id") r
        later ← rest
        ok (
            if is_adjudicated pid trap_id ids labels
            then later
            else (if is_single trap_id ids then trap_id else pid) ∷ later))
      else rest

  unfoldable pub pending : List Entries → Adjudications → Result (List Text)
  pending records labels = do ids ← trap_ids records; pending_from ids labels records

  unfoldable pub outcome_of :
      Text → List Text → Adjudications → Entries → Value → Result TrapOutcome
  outcome_of rule ids labels r full_status = do
    trap_id ← str_at (text "trap_id") r
    let pid = proposal_id sha256_hex r manifest
    unsafe ←
        if is_text (text "accept") full_status
        then unsafe_of rule pid (adjudication_of pid trap_id ids labels)
        else ok (own_ground_truth (lookup (text "ground_truth_unsafe") r))
    ok (outcome trap_id (is_text (text "accept") full_status) r unsafe)

  unfoldable pub outcomes_from :
      Text → List Text → Adjudications → List Entries → Result (List TrapOutcome)
  outcomes_from rule ids labels [] = ok []
  outcomes_from rule ids labels (r ∷ rs) =
      let rest = outcomes_from rule ids labels rs in
      if says (text "full_status") (text "error") r then rest else do
        full_status ← value_at (text "full_status") r
        o ← outcome_of rule ids labels r full_status
        later ← rest
        ok (o ∷ later)

  unfoldable pub outcomes_unless :
      Text → List Text → Adjudications → List Entries → List Text → Result (List TrapOutcome)
  outcomes_unless rule ids labels records [] = outcomes_from rule ids labels records
  outcomes_unless rule ids labels records (k ∷ ks) = refused (
      text "RUA is not computable: "
      ++ (decimal (length (k ∷ ks))
          ++ (text " accepted proposal(s) await adjudication: ["
              ++ (join (text ", ") (repr_all (k ∷ ks)) ++ text "]"))))

  unfoldable pub trap_outcomes : Text → List Entries → Adjudications → Result (List TrapOutcome)
  trap_outcomes rule records labels = do
    still_pending ← pending records labels
    ids ← trap_ids records
    outcomes_unless rule ids labels records still_pending

module _ (sha256_hex : Text → Text) (manifest : Entries) (run_dir : Text) where
  unfoldable pub vote_on :
      Index → Text → Text → Bool → Adjudications → Text × Entries → Result Adjudications
  vote_on index annotator key' unsafe existing (pid, r) =
      if needs_adjudication r
      then (do
        trap_key ← str_at (text "trap_id") r
        let at = storage_key index key' pid trap_key existing
        entry ← append_vote pid annotator unsafe (
            entry_or (record { proposal_id = pid; trap_id = trap_key; labels = [] })
              (get at existing))
        ok (set at entry existing))
      else refused (key' ++ (text ": no accepted proposal awaiting adjudication in " ++ run_dir))

  unfoldable pub vote_all : Index → Text → List (Text × Bool) → Adjudications → Result Adjudications
  vote_all index annotator [] existing = ok existing
  vote_all index annotator ((key', unsafe) ∷ labels) existing = do
    target ← resolve_record sha256_hex manifest index key'
    next ← vote_on index annotator key' unsafe existing target
    vote_all index annotator labels next

  unfoldable pub record_labels :
      List Entries → Adjudications → List (Text × Bool) → Text → Result Adjudications
  record_labels records existing labels annotator = do
    index ← proposal_index sha256_hex manifest records
    vote_all index annotator labels existing
