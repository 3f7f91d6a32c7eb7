-- ===== src/Eval/Adjudicate/Sound.antt =====
-- The entries of the labels file of src/pqpatch/eval/adjudicate.py: known labels, and none twice from
-- one annotator.
use nesy_pqpatch.Prelude.{
  ◌≡◌, refl, sym, ap, ◌∙◌, subst, Text, text, text_eq, Bool, true, false, Bool-cases, Option-cases,
  inl, inr, some, List, [], ◌∷◌, ◌++◌, any, all, any-append, map, arith, if◌then◌else◌,
}
use nesy_pqpatch.Python.{ok, >>=-eq-ok, ok-eq}
use nesy_pqpatch.L2.Sets.{member, get, set, get-set, text_eq_comm}
use nesy_pqpatch.Eval.Traps.Distinct.{AllDistinct}
use nesy_pqpatch.Eval.Adjudicate.{
  label_values, refused, RawLabel, word, vote, ProposalLabel, Proposal, Proposals, known_label,
  normalize_label, entry_of, append_label,
}

abbrev annotators : List ProposalLabel → List Text
annotators ls = map (λ l. l.annotator) ls

abbrev pub is_known : ProposalLabel → Bool
is_known l = member l.label label_values

-- The labels of a proposal are words of the protocol, and no two are of one annotator.
abbrev pub IsSound : Proposal → Type 0
IsSound p = AllDistinct (map (λ l. l.annotator) p.labels) × (all is_known p.labels ≡ true)

abbrev pub IsWellFormed : Proposals → Type 0
IsWellFormed d = (pid : Text) (p : Proposal) → get pid d ≡ some p → IsSound p

AllDistinct-snoc :
    (xs : List Text) (x : Text) → AllDistinct xs → member x xs ≡ false → AllDistinct (xs ++ x ∷ [])
AllDistinct-snoc [] x d m = (refl, tt)
AllDistinct-snoc (y ∷ xs) x d m = (
  any-append (text_eq y) xs (x ∷ []) ∙ ground (arith, d.0, m, text_eq_comm x y),
  AllDistinct-snoc xs x d.1 (ground (arith, m)),
)

any-annotators :
    (a : Text) (ls : List ProposalLabel)
    → any (λ l. text_eq l.annotator a) ls ≡ member a (annotators ls)
any-annotators a [] = refl
any-annotators a (l ∷ ls) = ground (arith, any-annotators a ls, text_eq_comm a l.annotator)

annotators-snoc :
    (ls : List ProposalLabel) (l : ProposalLabel)
    → annotators (ls ++ l ∷ []) ≡ annotators ls ++ l.annotator ∷ []
annotators-snoc [] l = refl
annotators-snoc (k ∷ ls) l = ap (λ xs. k.annotator ∷ xs) (annotators-snoc ls l)

all-snoc :
    (p : ProposalLabel → Bool) (ls : List ProposalLabel) (l : ProposalLabel)
    → all p ls ≡ true
    → p l ≡ true
    → all p (ls ++ l ∷ []) ≡ true
all-snoc p [] l h k = ground (arith, k)
all-snoc p (m ∷ ls) l h k = ground (arith, h, all-snoc p ls l (ground (arith, h)) k)

known_label-known : (w label : Text) → known_label w ≡ ok label → member label label_values ≡ true
unfolding known_label refused
known_label-known w label h = elim (Bool-cases (member w label_values)) [
  | inl t ↦ subst (λ x. member x label_values ≡ true) (ok-eq (rw t at h)) t
  | inr f ↦ absurd (ground (arith, h, f))
]

normalize_label-known :
    (raw : RawLabel) (label : Text)
    → normalize_label raw ≡ ok label
    → member label label_values ≡ true
unfolding normalize_label
normalize_label-known (word w) label h = known_label-known w label h
normalize_label-known (vote b) label h =
    known_label-known (if b then text "unsafe" else text "safe") label h

pub append_label-IsSound :
    (pid annotator : Text) (raw : RawLabel) (p q : Proposal)
    → append_label pid annotator raw p ≡ ok q
    → IsSound p
    → IsSound q
      × ((l : ProposalLabel) × (q ≡ record p { labels = p.labels ++ l ∷ [] })
          × (l.annotator ≡ annotator))
unfolding append_label refused
append_label-IsSound pid annotator raw p q h sound =
    elim (Bool-cases (any (λ l. text_eq l.annotator annotator) p.labels)) [
      | inl t ↦ absurd (ground (arith, h, t))
      | inr f ↦
          let (label, known, h1) = >>=-eq-ok (normalize_label raw) _ (rw f at h) in
          let l : ProposalLabel = record { annotator = annotator; label = label } in
          let fresh = sym (any-annotators annotator p.labels) ∙ f in
          subst
            (λ x.
              IsSound x
              × ((k : ProposalLabel) × (x ≡ record p { labels = p.labels ++ k ∷ [] })
                  × (k.annotator ≡ annotator)))
            (ok-eq h1)
            (
              (
                subst AllDistinct (sym (annotators-snoc p.labels l))
                    (AllDistinct-snoc (annotators p.labels) annotator sound.0 fresh),
                all-snoc is_known p.labels l sound.1 (normalize_label-known raw label known),
              ),
              (l, refl, refl),
            )
    ]

pub entry_of-IsSound :
    (pid trap_id : Text) (d : Proposals) → IsWellFormed d → IsSound (entry_of pid trap_id d)
unfolding entry_of
entry_of-IsSound pid trap_id d w = elim (Option-cases (get pid d)) [
  | inl n ↦ rw (n, entry_of) (tt, refl)
  | inr (p, e) ↦ rw (e, entry_of) (w pid p e)
]

pub set-IsWellFormed :
    (pid : Text) (q : Proposal) (d : Proposals)
    → IsSound q
    → IsWellFormed d
    → IsWellFormed (set pid q d)
set-IsWellFormed pid q d sound w x p h = elim (Bool-cases (text_eq x pid)) [
  | inl t ↦ let same : q ≡ p = ground (arith, h, t, get-set pid x q d) in subst IsSound same sound
  | inr f ↦ w x p (ground (arith, h, f, get-set pid x q d))
]
