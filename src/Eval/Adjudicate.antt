-- ===== src/Eval/Adjudicate.antt =====
-- src/pqpatch/eval/adjudicate.py: the identity of a proposal, and the independent labels of
-- proposals. A record and a manifest are the entries of their JSON files; SHA-256 is a parameter,
-- from a text to the hexadecimal digest.
pub mod Sound
pub mod Labels
use nesy_pqpatch.Prelude.{
  ℕ, Text, text, text_eq, join, Bool, true, false, not, ◌||◌, Option, none, some, List, [], ◌∷◌,
  ◌++◌, any, map, take, length, if◌then◌else◌,
}
use nesy_pqpatch.Python.{Exception, value, key, Result, ok, raised, ◌>>=◌, repr, decimal}
use nesy_pqpatch.Trace.Dumps.{dumps}
use nesy_pqpatch.Trace.Dumps
use nesy_pqpatch.L1.Families.{repr_all, sort_texts}
use nesy_pqpatch.L2.Sets.{member, get, set}
use nesy_pqpatch.Eval.Values.{Value, text_value, Entries, lookup, str, truth}

unfoldable pub proposal_id_version : Text
proposal_id_version = text "proposal-v1"

unfoldable pub label_values : List Text
label_values = text "safe" ∷ text "unsafe" ∷ text "not-applicable" ∷ text "uncertain" ∷ []

-- raise AdjudicationError(message)
unfoldable pub refused {ℓ} : {A : Type ℓ} → Text → Result A
refused message = raised (record {
  kind = value;
  message = message;
  repr = text "AdjudicationError(" ++ (repr message ++ text ")");
})

-- str(d.get(key, default))
unfoldable pub str_get : Text → Text → Entries → Text
str_get k default d = elim (lookup k d) [ none ↦ default | some v ↦ str v ]

-- str(d[key])
unfoldable pub str_at : Text → Entries → Result Text
str_at k d = elim (lookup k d) [
  | none ↦
      raised
        (record { kind = key; message = repr k; repr = text "KeyError(" ++ (repr k ++ text ")") })
  | some v ↦ ok (str v)
]

-- d.get(key), if it counts as true
unfoldable pub true_at : Text → Entries → Option Value
true_at k d = elim (lookup k d) [ none ↦ none | some v ↦ if truth v then some v else none ]

abbrev pub is_text : Text → Value → Bool
is_text t (text_value s) = text_eq s t
is_text t _ = false

-- d.get(key) == t
abbrev pub says : Text → Text → Entries → Bool
says k t d = elim (lookup k d) [ none ↦ false | some v ↦ is_text t v ]

abbrev string : Text → Text → Dumps.Fields → Dumps.Fields
string k t = Dumps.field k (Dumps.str t)

module _ (sha256_hex : Text → Text) where
  unfoldable pub response_hash : Entries → Text
  response_hash r = elim (true_at (text "response_hash") r) [
    | some v ↦ str v
    | none ↦ sha256_hex (str_get (text "unified_diff") [] r)
  ]

  -- the identity, serialized
  unfoldable pub identity : Entries → Entries → Text
  identity r manifest = dumps (
      Dumps.obj (
        string (text "version") proposal_id_version (
          string (text "trap_id") (str_get (text "trap_id") [] r) (
            string (text "model_version")
              (str_get (text "model_version") (str_get (text "model_version") [] manifest) r)
              (string (text "prompt_version")
                (str_get (text "prompt_version") (str_get (text "prompt_version") [] manifest) r)
                (string (text "draw_id")
                  (str_get (text "draw_id") (text "seed:" ++ str_get (text "seed") (text "0") r) r)
                  (string (text "response_hash") (response_hash r) Dumps.end)))))))

  unfoldable pub proposal_id : Entries → Entries → Text
  proposal_id r manifest = elim (true_at (text "proposal_id") r) [
    | some v ↦ str v
    | none ↦ proposal_id_version ++ (text "-" ++ take 24 (sha256_hex (identity r manifest)))
  ]

unfoldable pub proposal_label_eligible : Entries → Bool
proposal_label_eligible r =
    if says (text "full_status") (text "error") r || says (text "l3_only_status") (text "error") r
    then false
    else elim (lookup (text "l3_only_status") r) [
      | some v ↦ is_text (text "accept") v
      | none ↦ elim (true_at (text "needs_adjudication") r) [ none ↦ false | some v ↦ true ]
    ]

pub record Index : Type 0 where
  pub by_id : List (Text × Entries)
  pub by_trap : List (Text × List Entries)

-- d.get(key, [])
abbrev pub get_list {ℓ} : {A : Type ℓ} → Text → List (Text × List A) → List A
get_list k d = elim (get k d) [ none ↦ [] | some xs ↦ xs ]

-- A label is a word, or a vote on whether the proposal is unsafe.
pub data RawLabel : Type 0 where
  word : Text → RawLabel
  vote : Bool → RawLabel

pub record ProposalLabel : Type 0 where
  pub annotator : Text
  pub label : Text

pub record Proposal : Type 0 where
  pub proposal_id : Text
  pub trap_id : Text
  pub labels : List ProposalLabel

-- the labels file: its proposals by their ids
abbrev pub Proposals : Type 0
Proposals = List (Text × Proposal)

unfoldable pub known_label : Text → Result Text
known_label label =
    if member label label_values
    then ok label
    else refused (
        text "unknown proposal label "
        ++ (repr label
            ++ (text "; expected one of ["
                ++ (join (text ", ") (repr_all (sort_texts label_values)) ++ text "]"))))

unfoldable pub normalize_label : RawLabel → Result Text
normalize_label (word label) = known_label label
normalize_label (vote unsafe) = known_label (if unsafe then text "unsafe" else text "safe")

-- existing.setdefault(pid, …)
unfoldable pub entry_of : Text → Text → Proposals → Proposal
entry_of pid trap_id proposals = elim (get pid proposals) [
  | some p ↦ p
  | none ↦ record { proposal_id = pid; trap_id = trap_id; labels = [] }
]

-- One more label of an entry, from another annotator than those it has.
unfoldable pub append_label : Text → Text → RawLabel → Proposal → Result Proposal
append_label pid annotator raw p =
    if any (λ l. text_eq l.annotator annotator) p.labels
    then refused
        (pid ++ (text ": annotator " ++ (repr annotator ++ text " already labeled this proposal")))
    else do
      label ← normalize_label raw
      ok (record p { labels = p.labels ++ record { annotator = annotator; label = label } ∷ [] })

module _ (sha256_hex : Text → Text) (manifest : Entries) where
  unfoldable pub add_record : Entries → Index → Result Index
  add_record r index =
      let pid = proposal_id sha256_hex r manifest in
      elim (get pid index.by_id) [
        | some other ↦ refused (text "duplicate proposal identity " ++ repr pid)
        | none ↦ do
          trap_id ← str_at (text "trap_id") r
          ok (record {
            by_id = set pid r index.by_id;
            by_trap = set trap_id (get_list trap_id index.by_trap ++ r ∷ []) index.by_trap;
          })
      ]

  unfoldable pub index_from : Index → List Entries → Result Index
  index_from index [] = ok index
  index_from index (r ∷ rs) = do next ← add_record r index; index_from next rs

  unfoldable pub proposal_index : List Entries → Result Index
  proposal_index = index_from (record { by_id = []; by_trap = [] })

  -- the one record of a trap
  unfoldable pub sole_match : Text → List Entries → Result (Text × Entries)
  sole_match key' [] = refused (key' ++ text ": no proposal in this run")
  sole_match key' (r ∷ []) = ok (proposal_id sha256_hex r manifest, r)
  sole_match key' (r ∷ s ∷ rs) = refused (
      key'
      ++ (text ": ambiguous legacy trap id names "
          ++ (decimal (length (r ∷ s ∷ rs)) ++ text " proposals; use proposal ids")))

  unfoldable pub resolve_record : Index → Text → Result (Text × Entries)
  resolve_record index key' = elim (get key' index.by_id) [
    | some r ↦ ok (key', r)
    | none ↦ sole_match key' (get_list key' index.by_trap)
  ]

  unfoldable pub label_target :
      Text → Text → RawLabel → Proposals → Text × Entries → Result Proposals
  label_target annotator key' raw proposals (pid, r) =
      if proposal_label_eligible r
      then (do
        trap_id ← str_at (text "trap_id") r
        p ← append_label pid annotator raw (entry_of pid trap_id proposals)
        ok (set pid p proposals))
      else refused (key' ++ text ": proposal is not applicable under the L3 eligibility rule")

  -- one round of the loop over the labels
  unfoldable pub label_proposal : Index → Text → Text → RawLabel → Proposals → Result Proposals
  label_proposal index annotator key' raw proposals = do
    target ← resolve_record index key'
    label_target annotator key' raw proposals target

  unfoldable pub label_all : Index → Text → List (Text × RawLabel) → Proposals → Result Proposals
  label_all index annotator [] proposals = ok proposals
  label_all index annotator ((key', raw) ∷ labels) proposals = do
    next ← label_proposal index annotator key' raw proposals
    label_all index annotator labels next

  -- The file is written when every label was taken.
  unfoldable pub record_proposal_labels :
      List Entries → Proposals → List (Text × RawLabel) → Text → Result Proposals
  record_proposal_labels records proposals labels annotator = do
    index ← proposal_index records
    label_all index annotator labels proposals

  abbrev pub is_none {ℓ} : {A : Type ℓ} → Option A → Bool
  is_none none = true
  is_none (some a) = false

  unfoldable pub pending_proposals : List Entries → Proposals → List Text
  pending_proposals [] proposals = []
  pending_proposals (r ∷ rs) proposals =
      let rest = pending_proposals rs proposals in
      let pid = proposal_id sha256_hex r manifest in
      if proposal_label_eligible r
      then if is_none (get pid proposals) then pid ∷ rest else rest
      else rest
