-- ===== src/Eval/Traps/Valid.antt =====
-- What a descriptor that src/pqpatch/eval/traps.py accepts is known to satisfy.
use nesy_pqpatch.Prelude.{
  suc, ◌≤◌, ◌≡◌, ◌⊎◌, refl, sym, ap, ◌∙◌, subst, Text, text, text_eq, text_eq→eq, Bool, true, false,
  Bool-cases, inl, inr, Option, none, some, List, [], ◌∷◌, length, ltb, ◌==◌, arith,
}
use nesy_pqpatch.Python.{ok, >>=-eq-ok, ok-eq}
use nesy_pqpatch.Model.{UnsafeClass}
use nesy_pqpatch.L2.Sets.{update}
use nesy_pqpatch.Eval.Traps.Distinct.{AllDistinct, update-distinct}
use nesy_pqpatch.Eval.Values.{
  Value, list_value, Values, Entries, items_of, lookup, str, str_or_none,
}
use nesy_pqpatch.Eval.Traps.{
  Labelling, parse_provenance, parse_labelling, spec_of, annotators, judge_measured,
  parse_measured_verdict, parse_unsafe_class, found, parse_labels, parse_label, judge_annotators,
  parse_annotator_labels, check_source, invalid, require, require_bool, parse_enum, mapping_of,
  trap_of, Load, load_trap, is_unanticipated,
}
use nesy_pqpatch.Eval.TrapData.{
  TrapSplit, TrapProvenance, taxonomy, external_pr, external_cve, AnnotatorLabel, TrapSpec,
}

-- An accepted measurement names no catch, and a rejected one names one.
abbrev pub Measured : Text → Option Text → Type 0
Measured verdict catch' =
    ((verdict ≡ text "accept") × (catch' ≡ none))
    ⊎ ((verdict ≡ text "reject") × (c : Text) × (catch' ≡ some c))

abbrev pub Sourced : TrapProvenance → Option Text → Type 0
Sourced taxonomy source_ref = Unit
Sourced _ none = ⊥
Sourced _ (some ref) = Unit

-- Two labels at least, each from another annotator.
abbrev pub Labelled : List AnnotatorLabel → Type 0
Labelled labels = (2 ≤ length labels) × AllDistinct (annotators labels)

abbrev pub Classed : Option UnsafeClass → Bool → Type 0
Classed none unanticipated = unanticipated ≡ true
Classed (some c) unanticipated = unanticipated ≡ false

abbrev pub IsValid : TrapSpec → Type 0
IsValid s =
    Measured s.measured_full_verifier s.measured_catch
    × Labelled s.annotator_labels
    × Sourced s.provenance s.source_ref
    × Classed s.unsafe_class s.is_unanticipated

judge_annotators-distinct :
    (path : Text) (labels got : List AnnotatorLabel)
    → judge_annotators path labels ≡ ok got
    → (labels ≡ got) × AllDistinct (annotators labels)
unfolding judge_annotators invalid
judge_annotators-distinct path labels got h =
    elim (Bool-cases (length (update [] (annotators labels)) == length (annotators labels))) [
      | inl t ↦ (ok-eq (rw t at h), (update-distinct [] (annotators labels) (ground (arith, t))).0)
      | inr f ↦ absurd (ground (arith, h, f))
    ]

length-parse_labels :
    (path : Text) (vs : List Value) (labels : List AnnotatorLabel)
    → parse_labels path vs ≡ ok labels
    → length labels ≡ length vs
unfolding parse_labels
length-parse_labels path [] labels h = ap length (sym (ok-eq h))
length-parse_labels path (v ∷ vs) labels h =
    let (l, _, h1) = >>=-eq-ok (parse_label path v) _ h in
    let (ls, rest, h2) = >>=-eq-ok (parse_labels path vs) _ h1 in
    ap length (sym (ok-eq h2)) ∙ ap suc (length-parse_labels path vs ls rest)

parse_annotator_labels-Labelled :
    (path : Text) (v : Value) (labels : List AnnotatorLabel)
    → parse_annotator_labels path v ≡ ok labels
    → Labelled labels
unfolding parse_annotator_labels invalid
parse_annotator_labels-Labelled path (list_value shown vs) labels h =
    elim (Bool-cases (ltb (length (items_of vs)) 2)) [
      | inl t ↦ absurd (ground (arith, h, t))
      | inr f ↦
          let (ls, parsed, judged) = >>=-eq-ok (parse_labels path (items_of vs)) _ (rw f at h) in
          let (same, distinct) = judge_annotators-distinct path ls labels judged in
          subst Labelled same
            (ground (arith, length-parse_labels path (items_of vs) ls parsed, f), distinct)
    ]
parse_annotator_labels-Labelled path (nesy_pqpatch.Eval.Values.text_value t) labels h = absurd cc
parse_annotator_labels-Labelled path (nesy_pqpatch.Eval.Values.bool_value b) labels h = absurd cc
parse_annotator_labels-Labelled path (nesy_pqpatch.Eval.Values.scalar c) labels h = absurd cc
parse_annotator_labels-Labelled path (nesy_pqpatch.Eval.Values.dict_value shown es) labels h =
    absurd cc

judge_measured-rejected :
    (path verdict c : Text) (m : Text × Option Text)
    → judge_measured path verdict (some c) ≡ ok m
    → text_eq verdict (text "reject") ≡ true
    → ok (verdict, some c) ≡ ok m
unfolding judge_measured invalid
judge_measured-rejected path verdict c m h t = ground (arith, h, t)

judge_measured-Measured :
    (path verdict : Text) (catch' : Option Text) (m : Text × Option Text)
    → judge_measured path verdict catch' ≡ ok m
    → Measured (m.0) (m.1)
unfolding judge_measured invalid
judge_measured-Measured path verdict none m h =
    elim (Bool-cases (text_eq verdict (text "reject"))) [
      | inl t ↦ absurd (ground (arith, h, t))
      | inr f ↦ elim (Bool-cases (text_eq verdict (text "accept"))) [
        | inl t ↦
            subst (λ x. Measured (x.0) (x.1)) (ok-eq (rw (t, f) at h))
              (inl (text_eq→eq verdict (text "accept") t, refl))
        | inr n ↦ absurd (ground (arith, h, f, n))
      ]
    ]
judge_measured-Measured path verdict (some c) m h =
    elim (Bool-cases (text_eq verdict (text "reject"))) [
      | inl t ↦
          subst (λ x. Measured (x.0) (x.1)) (ok-eq (judge_measured-rejected path verdict c m h t))
            (inr (text_eq→eq verdict (text "reject") t, c, refl))
      | inr f ↦ absurd (ground (arith, h, f))
    ]

check_source-Sourced :
    (path : Text) (p : TrapProvenance) (source_ref : Option Text) (u : Unit {0})
    → check_source path p source_ref ≡ ok u
    → Sourced p source_ref
unfolding check_source invalid
check_source-Sourced path taxonomy source_ref u h = tt
check_source-Sourced path external_pr none u h = absurd cc
check_source-Sourced path external_pr (some ref) u h = tt
check_source-Sourced path external_cve none u h = absurd cc
check_source-Sourced path external_cve (some ref) u h = tt

parse_unsafe_class-Classed :
    (path : Text) (v : Value) (c : Option UnsafeClass × Bool)
    → parse_unsafe_class path v ≡ ok c
    → Classed (c.0) (c.1)
unfolding parse_unsafe_class invalid
parse_unsafe_class-Classed path v c h = elim (Bool-cases (is_unanticipated v)) [
  | inl t ↦ subst (λ x. Classed (x.0) (x.1)) (ok-eq (rw t at h)) refl
  | inr f ↦
      let (k, _, same) = >>=-eq-ok (found path _ _) _ (rw f at h) in
      subst (λ x. Classed (x.0) (x.1)) (ok-eq same) refl
]

parse_measured_verdict-Measured :
    (path : Text) (entries : Entries) (m : Text × Option Text)
    → parse_measured_verdict path entries ≡ ok m
    → Measured (m.0) (m.1)
unfolding parse_measured_verdict
parse_measured_verdict-Measured path entries m h =
    let (v, _, judged) = >>=-eq-ok (require path entries _) _ h in
    judge_measured-Measured path _ _ m judged

parse_provenance-Sourced :
    (path : Text) (raw : Entries) (p : TrapProvenance)
    → parse_provenance path raw ≡ ok p
    → Sourced p (str_or_none (lookup (text "source_ref") raw))
unfolding parse_provenance
parse_provenance-Sourced path raw p h =
    let (v, _, h1) = >>=-eq-ok (require path raw _) _ h in
    let (q, _, h2) = >>=-eq-ok (parse_enum path _ v _) _ h1 in
    let (u, sourced, h3) = >>=-eq-ok (check_source path q _) _ h2 in
    subst (λ x. Sourced x (str_or_none (lookup (text "source_ref") raw))) (ok-eq h3)
      (check_source-Sourced path q _ u sourced)

abbrev IsValidLabelling : Labelling → Type 0
IsValidLabelling l =
    Measured l.measured.0 l.measured.1 × Labelled l.labels × Classed l.unsafe.0 l.unsafe.1

parse_labelling-IsValid :
    (path : Text) (raw : Entries) (l : Labelling)
    → parse_labelling path raw ≡ ok l
    → IsValidLabelling l
unfolding parse_labelling
parse_labelling-IsValid path raw l h =
    let (a, _, h1) = >>=-eq-ok (require path raw _) _ h in
    let (unsafe, classed, h2) = >>=-eq-ok (parse_unsafe_class path a) _ h1 in
    let (b, _, h3) = >>=-eq-ok (require path raw _) _ h2 in
    let (usage, _, h4) = >>=-eq-ok (parse_enum path _ b _) _ h3 in
    let (c, _, h5) = >>=-eq-ok (require path raw _) _ h4 in
    let (labels, labelled, h6) = >>=-eq-ok (parse_annotator_labels path c) _ h5 in
    let (measured, m, h7) = >>=-eq-ok (parse_measured_verdict path raw) _ h6 in
    subst IsValidLabelling (ok-eq h7) (
      parse_measured_verdict-Measured path raw measured m,
      parse_annotator_labels-Labelled path c labels labelled,
      parse_unsafe_class-Classed path a unsafe classed,
    )

spec_of-IsValid :
    (path : Text) (raw : Entries) (split : TrapSplit) (p : TrapProvenance) (l : Labelling)
    (spec : TrapSpec)
    → Sourced p (str_or_none (lookup (text "source_ref") raw))
    → IsValidLabelling l
    → spec_of path raw split p l ≡ ok spec
    → IsValid spec × (spec.source_file ≡ path)
unfolding spec_of
spec_of-IsValid path raw split p l spec sourced valid h =
    let (a, _, h1) = >>=-eq-ok (require path raw _) _ h in
    let (b, _, h2) = >>=-eq-ok (require_bool path raw _) _ h1 in
    let (c, _, h3) = >>=-eq-ok (require_bool path raw _) _ h2 in
    let (d, _, h4) = >>=-eq-ok (require_bool path raw _) _ h3 in
    let (e, _, h5) = >>=-eq-ok (require path raw _) _ h4 in
    let (f, _, h6) = >>=-eq-ok (require path raw _) _ h5 in
    subst (λ s. IsValid s × (s.source_file ≡ path)) (ok-eq h6)
      ((valid.0, valid.1, sourced, valid.2), refl)

trap_of-IsValid :
    (path : Text) (raw : Entries) (spec : TrapSpec)
    → trap_of path raw ≡ ok spec
    → IsValid spec × (spec.source_file ≡ path)
unfolding trap_of
trap_of-IsValid path raw spec h =
    let (a, _, h1) = >>=-eq-ok (require path raw _) _ h in
    let (split, _, h2) = >>=-eq-ok (parse_enum path _ a _) _ h1 in
    let (p, sourced, h3) = >>=-eq-ok (parse_provenance path raw) _ h2 in
    let (l, labelled, h4) = >>=-eq-ok (parse_labelling path raw) _ h3 in
    spec_of-IsValid path raw split p l spec (parse_provenance-Sourced path raw p sourced)
      (parse_labelling-IsValid path raw l labelled) h4

-- A descriptor that is loaded is valid: its measured verdict names a catch exactly when it is
-- "reject", two annotators or more label it and no two are the same, a provenance outside the
-- taxonomy has a source, and it has an unsafe class exactly when it is not "unanticipated".
pub load_trap-IsValid :
    (load : Load) (path : Text) (spec : TrapSpec)
    → load_trap load path ≡ ok spec
    → IsValid spec × (spec.source_file ≡ path)
unfolding load_trap
load_trap-IsValid load path spec h =
    let (raw, _, h1) = >>=-eq-ok (load path) _ h in
    let (entries, _, h2) = >>=-eq-ok (mapping_of path raw) _ h1 in
    trap_of-IsValid path entries spec h2
