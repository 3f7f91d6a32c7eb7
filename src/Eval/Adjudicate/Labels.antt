-- ===== src/Eval/Adjudicate/Labels.antt =====
-- What recording labels does to the labels file of src/pqpatch/eval/adjudicate.py: it only appends,
-- and no annotator labels a proposal twice.
use nesy_pqpatch.Prelude.{
  ◌≡◌, refl, sym, ap, ◌∙◌, subst, Text, text, text_eq, text_eq→eq, text_eq_self, true, Bool-cases,
  inl, inr, some, List, [], ◌∷◌, ◌++◌, append-nil, append_assoc, any, any-append, All, arith,
}
use nesy_pqpatch.Python.{ok, >>=-eq-ok, ok-eq}
use nesy_pqpatch.L2.Sets.{get, set, get-set}
use nesy_pqpatch.Eval.Values.{Entries}
use nesy_pqpatch.Eval.Adjudicate.{
  refused, str_at, proposal_label_eligible, Index, RawLabel, ProposalLabel, Proposal, Proposals,
  entry_of, append_label, proposal_index, resolve_record, label_target, label_proposal, label_all,
  record_proposal_labels,
}
use nesy_pqpatch.Eval.Adjudicate.Sound.{
  IsWellFormed, append_label-IsSound, entry_of-IsSound, set-IsWellFormed,
}

-- Every proposal of the first file is in the second, with further labels at most after its own.
abbrev pub Extends : Proposals → Proposals → Type 0
Extends d e =
    (pid : Text) (p : Proposal)
    → get pid d ≡ some p
    → (added : List ProposalLabel) × (get pid e ≡ some (record p { labels = p.labels ++ added }))

-- A label of the annotator stands in the file.
abbrev pub HasLabel : Text → Text → Proposals → Type 0
HasLabel annotator pid d =
    (p : Proposal) × (get pid d ≡ some p)
    × (any (λ l. text_eq l.annotator annotator) p.labels ≡ true)

Extends-refl : (d : Proposals) → Extends d d
Extends-refl d pid p h =
    ([], h ∙ ap (λ ls. some (record p { labels = ls })) (sym (append-nil p.labels)))

Extends-trans : (d e f : Proposals) → Extends d e → Extends e f → Extends d f
Extends-trans d e f m n pid p h =
    let (a, h1) = m pid p h in
    let (b, h2) = n pid (record p { labels = p.labels ++ a }) h1 in
    (a ++ b, h2 ∙ ap (λ ls. some (record p { labels = ls })) (append_assoc p.labels a b))

HasLabel-Extends :
    (annotator pid : Text) (d e : Proposals)
    → Extends d e
    → HasLabel annotator pid d
    → HasLabel annotator pid e
HasLabel-Extends annotator pid d e m (p, h, t) =
    let (a, h1) = m pid p h in
    (
      record p { labels = p.labels ++ a },
      h1,
      any-append (λ l. text_eq l.annotator annotator) p.labels a ∙ ground (arith, t),
    )

abbrev with_label : ProposalLabel → Proposal → Proposal
with_label l p = record p { labels = p.labels ++ l ∷ [] }

-- One more label extends the file.
set-Extends :
    (pid trap_id : Text) (l : ProposalLabel) (q : Proposal) (d : Proposals)
    → q ≡ with_label l (entry_of pid trap_id d)
    → Extends d (set pid q d)
unfolding entry_of
set-Extends pid trap_id l q d e x p h = elim (Bool-cases (text_eq x pid)) [
  | inl t ↦
      let same : entry_of pid trap_id d ≡ p = rw (rw (text_eq→eq x pid t) at h, entry_of) refl in
      (l ∷ [], get-set pid x q d ∙ rw t (ap some (e ∙ ap (with_label l) same)))
  | inr f ↦ let (added, kept) = Extends-refl d x p h in (added, get-set pid x q d ∙ rw f kept)
]

any-snoc :
    (annotator : Text) (ls : List ProposalLabel) (l : ProposalLabel)
    → l.annotator ≡ annotator
    → any (λ k. text_eq k.annotator annotator) (ls ++ l ∷ []) ≡ true
any-snoc annotator ls l e =
    any-append (λ k. text_eq k.annotator annotator) ls (l ∷ [])
    ∙ ground (arith, ap (λ a. text_eq a annotator) e, text_eq_self annotator)

module _ (sha256_hex : Text → Text) (manifest : Entries) (index : Index) (annotator : Text) where
  -- The key names an eligible proposal, and the file has a label of the annotator for it.
  abbrev pub Recorded : Proposals → Text → Type 0
  Recorded d key' =
      (pid : Text) × (r : Entries) × (resolve_record sha256_hex manifest index key' ≡ ok (pid, r))
      × (proposal_label_eligible r ≡ true)
      × HasLabel annotator pid d

  label_target-records :
      (key' : Text) (raw : RawLabel) (d e : Proposals) (pid : Text) (r : Entries)
      → label_target sha256_hex manifest annotator key' raw d (pid, r) ≡ ok e
      → IsWellFormed d
      → (proposal_label_eligible r ≡ true) × IsWellFormed e × Extends d e × HasLabel annotator pid e
  unfolding label_target refused
  label_target-records key' raw d e pid r h w = elim (Bool-cases (proposal_label_eligible r)) [
    | inl t ↦
        let (trap_id, _, h1) = >>=-eq-ok (str_at (text "trap_id") r) _ (rw t at h) in
        let (q, appended, h2) =
          >>=-eq-ok (append_label pid annotator raw (entry_of pid trap_id d)) _ h1 in
        let (sound, (l, grown, by)) =
          append_label-IsSound pid annotator raw (entry_of pid trap_id d) q appended
            (entry_of-IsSound pid trap_id d w) in
        subst
          (λ x.
            (proposal_label_eligible r ≡ true)
            × IsWellFormed x
            × Extends d x
            × HasLabel annotator pid x)
          (ok-eq h2)
          (
            t,
            set-IsWellFormed pid q d sound w,
            set-Extends pid trap_id l q d grown,
            (
              q,
              get-set pid pid q d ∙ rw (text_eq_self pid) refl,
              ap (λ x. any (λ k. text_eq k.annotator annotator) x.labels) grown
                  ∙ any-snoc annotator (entry_of pid trap_id d).labels l by,
            ),
          )
    | inr f ↦ absurd (ground (arith, h, f))
  ]

  Recorded-Extends :
      (d e : Proposals) (key' : Text) → Extends d e → Recorded d key' → Recorded e key'
  Recorded-Extends d e key' m (pid, r, found, eligible, has) =
      (pid, r, found, eligible, HasLabel-Extends annotator pid d e m has)

  label_all-records :
      (labels : List (Text × RawLabel)) (d e : Proposals)
      → label_all sha256_hex manifest index annotator labels d ≡ ok e
      → IsWellFormed d
      → IsWellFormed e × Extends d e × All (λ l. Recorded e l.0) labels
  unfolding label_all label_proposal
  label_all-records [] d e h w =
      subst (λ x. IsWellFormed x × Extends d x × Unit) (ok-eq h) (w, Extends-refl d, tt)
  label_all-records ((key', raw) ∷ labels) d e h w =
      let (next, h1, h2) =
        >>=-eq-ok (label_proposal sha256_hex manifest index annotator key' raw d) _ h in
      let (target, resolved, h3) = >>=-eq-ok (resolve_record sha256_hex manifest index key') _ h1 in
      let (eligible, wn, grown, has) =
        label_target-records key' raw d next target.0 target.1 h3 w in
      let (we, more, all_recorded) = label_all-records labels next e h2 wn in
      (
        we,
        Extends-trans d next e grown more,
        (
          Recorded-Extends next e key' more (target.0, target.1, resolved, eligible, has),
          all_recorded,
        ),
      )

-- When labels are recorded in a file that is well-formed, every proposal keeps its labels, with new
-- ones at most after them; still each label is a word of the protocol and no annotator has labelled
-- a proposal twice; and every key that was given names an eligible proposal of the run, which now
-- has a label of this annotator.
pub record_proposal_labels-records :
    (sha256_hex : Text → Text) (manifest : Entries) (records : List Entries)
    (before after : Proposals) (labels : List (Text × RawLabel)) (annotator : Text)
    → record_proposal_labels sha256_hex manifest records before labels annotator ≡ ok after
    → IsWellFormed before
    → IsWellFormed after
      × Extends before after
      × (index : Index) × (proposal_index sha256_hex manifest records ≡ ok index)
      × All (λ l. Recorded sha256_hex manifest index annotator after l.0) labels
unfolding record_proposal_labels
record_proposal_labels-records sha256_hex manifest records before after labels annotator h w =
    let (index, indexed, h1) = >>=-eq-ok (proposal_index sha256_hex manifest records) _ h in
    let (we, grown, recorded) =
      label_all-records sha256_hex manifest index annotator labels before after h1 w in
    (we, grown, index, indexed, recorded)
