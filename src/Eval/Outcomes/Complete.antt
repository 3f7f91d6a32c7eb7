-- ===== src/Eval/Outcomes/Complete.antt =====
-- When no adjudication is missing, src/pqpatch/eval/adjudicate.py gives an outcome for every record.
use nesy_pqpatch.Prelude.{
  suc, ◌≡◌, ◌⊎◌, refl, ap, ◌∙◌, Text, text, text_eq, Bool, true, false, Bool-cases, Option-cases,
  inl, inr, not, some, List, [], ◌∷◌, length, leb, ◌*◌, All, arith,
}
use nesy_pqpatch.Python.{ok, >>=-eq-ok, ok-eq}
use nesy_pqpatch.L2.Sets.{get}
use nesy_pqpatch.Eval.Values.{Value, Entries, lookup}
use nesy_pqpatch.Eval.Suite.{count}
use nesy_pqpatch.Eval.Adjudicate.{str_at, says, is_text, proposal_id}
use nesy_pqpatch.Eval.Outcomes.{
  Adjudication, Adjudications, TrapOutcome, value_at, trap_ids, needs_adjudication, adjudication_of,
  adjudicated_unsafe, is_adjudicated, unsafe_of, pending_from, pending, outcome, outcome_of,
  outcomes_from, outcomes_unless, trap_outcomes, any_vote, own_ground_truth,
}

ok_of {ℓ} : {A : Type ℓ} {a b : A} → a ≡ b → ok a ≡ ok b
ok_of e = ap ok e

-- A record names its trap and has a status, and one that was accepted awaits adjudication.
abbrev pub IsComplete : Entries → Type 0
IsComplete r =
    (t : Text) × (str_at (text "trap_id") r ≡ ok t)
    × (v : Value) × (value_at (text "full_status") r ≡ ok v)
    × (is_text (text "accept") v ≡ true → needs_adjudication r ≡ true)

-- a rule by which votes are counted
abbrev pub IsRule : Text → Type 0
IsRule rule = (rule ≡ text "any") ⊎ (rule ≡ text "majority")

abbrev pub is_scored : Entries → Bool
is_scored r = not (says (text "full_status") (text "error") r)

adjudicated_unsafe-total :
    (rule : Text) (entry : Adjudication)
    → IsRule rule
    → (b : Bool) × (adjudicated_unsafe rule entry ≡ ok b)
unfolding adjudicated_unsafe text_eq
adjudicated_unsafe-total rule entry (inl e) =
    (any_vote entry.labels, rw (e, adjudicated_unsafe) refl)
adjudicated_unsafe-total rule entry (inr e) = (
  leb (length entry.labels) (count (λ l. l.unsafe) entry.labels * 2),
  rw (e, adjudicated_unsafe) refl,
)

is_adjudicated-some :
    (pid t : Text) (ids : List Text) (labels : Adjudications)
    → is_adjudicated pid t ids labels ≡ true
    → (entry : Adjudication) × (adjudication_of pid t ids labels ≡ some entry)
unfolding is_adjudicated adjudication_of
is_adjudicated-some pid t ids labels h = elim (Option-cases (get pid labels)) [
  | inr (entry, e) ↦ (entry, rw (e, adjudication_of) refl)
  | inl n ↦ elim (Option-cases (get t labels)) [
    | inl m ↦ absurd (ground (arith, h, n, m))
    | inr (entry, e) ↦ (entry, ground (arith, h, n, e))
  ]
]

module _ (sha256_hex : Text → Text) (manifest : Entries) (rule : Text) (known : IsRule rule)
    (ids : List Text) (labels : Adjudications) where
  outcome_of-total :
      (r : Entries) (t : Text) (v : Value)
      → str_at (text "trap_id") r ≡ ok t
      → (is_text (text "accept") v ≡ true
          → is_adjudicated (proposal_id sha256_hex r manifest) t ids labels ≡ true)
      → (o : TrapOutcome) × (outcome_of sha256_hex manifest rule ids labels r v ≡ ok o)
  unfolding outcome_of unsafe_of
  outcome_of-total r t v e h = elim (Bool-cases (is_text (text "accept") v)) [
    | inl a ↦
        let (entry, found) =
          is_adjudicated-some (proposal_id sha256_hex r manifest) t ids labels (h a) in
        let (b, counted) = adjudicated_unsafe-total rule entry known in
        (outcome t true r b, rw (e, a, found, counted) refl)
    | inr n ↦ (
      outcome t false r (own_ground_truth (lookup (text "ground_truth_unsafe") r)),
      rw (e, n) refl,
    )
  ]

  pending_from-nil :
      (r : Entries) (rs : List Entries) (t : Text)
      → str_at (text "trap_id") r ≡ ok t
      → pending_from sha256_hex manifest ids labels (r ∷ rs) ≡ ok []
      → (pending_from sha256_hex manifest ids labels rs ≡ ok [])
        × (needs_adjudication r ≡ true
            → is_adjudicated (proposal_id sha256_hex r manifest) t ids labels ≡ true)
  unfolding pending_from
  pending_from-nil r rs t e h = elim (Bool-cases (needs_adjudication r)) [
    | inr n ↦ (rw n at h, λ y. absurd (ground (arith, n, y)))
    | inl y ↦
        let (later, rest, h2) =
          >>=-eq-ok (pending_from sha256_hex manifest ids labels rs) _ (rw (y, e) at h) in
        elim (Bool-cases (is_adjudicated (proposal_id sha256_hex r manifest) t ids labels)) [
          | inl a ↦ (rest ∙ ok_of (ok-eq (rw a at h2)), λ z. a)
          | inr n ↦ absurd (ground (arith, h2, n))
        ]
  ]

  outcomes_from-total :
      (records : List Entries)
      → All IsComplete records
      → pending_from sha256_hex manifest ids labels records ≡ ok []
      → (outs : List TrapOutcome) × (outcomes_from sha256_hex manifest rule ids labels records
          ≡ ok outs)
        × (length outs ≡ count is_scored records)
  unfolding outcomes_from count
  outcomes_from-total [] c h = ([], refl, refl)
  outcomes_from-total (r ∷ rs) ((t, named, v, has_status, awaits), c) h =
      let (later, adjudicated) = pending_from-nil r rs t named h in
      let (outs, rest, size) = outcomes_from-total rs c later in
      elim (Bool-cases (says (text "full_status") (text "error") r)) [
        | inl y ↦ (outs, rw y rest, rw y size)
        | inr n ↦
            let (o, one) = outcome_of-total r t v named (λ a. adjudicated (awaits a)) in
            (o ∷ outs, rw (n, has_status, one, rest) refl, rw n (ap suc size))
      ]

-- When no accepted proposal awaits its adjudication, and votes are counted by one of the two rules,
-- an outcome is given for each record whose status is not an error: none is refused.
pub trap_outcomes-total :
    (sha256_hex : Text → Text) (manifest : Entries) (rule : Text) (records : List Entries)
    (labels : Adjudications)
    → IsRule rule
    → All IsComplete records
    → pending sha256_hex manifest records labels ≡ ok []
    → (outs : List TrapOutcome) × (trap_outcomes sha256_hex manifest rule records labels ≡ ok outs)
      × (length outs ≡ count is_scored records)
unfolding pending trap_outcomes outcomes_unless
trap_outcomes-total sha256_hex manifest rule records labels known c h =
    let (ids, counted, none_left) = >>=-eq-ok (trap_ids records) _ h in
    let (outs, given, size) =
      outcomes_from-total sha256_hex manifest rule known ids labels records c none_left in
    (outs, rw (counted, none_left) given, size)
