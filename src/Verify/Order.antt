-- ===== src/Verify/Order.antt =====
-- The order of the layers in `verify_patch` (src/pqpatch/verifier/api.py): which reports and which
-- layers a verdict records, and when it accepts.
use nesy_pqpatch.Prelude.{
  ◌≡◌, refl, ap, ◌∙◌, Text, Bool, true, false, Bool-cases, ◌⊎◌, inl, inr, List, [], ◌∷◌, ◌++◌,
  append-nil, append_assoc, map, all, keep, arith, if◌then◌else◌,
}
use nesy_pqpatch.Model.{Layer, Patch, Site, Policy, LayerReport, Verdict}
use nesy_pqpatch.Model.Report.{passed, first_failure}
use nesy_pqpatch.Verify.{Env, skipped_report, run_layer, accepted, rejected, verify_from}

module _ (env : Env) (patch : Patch) (site : Site) (policy : Policy) (l1_mode : Text)
    (enabled_layers : Layer → Bool) where
  abbrev run : Layer → LayerReport
  run = run_layer env patch site policy l1_mode

  -- A layer lets the patch go on: it is off, or its report passes.
  abbrev pub clears : Layer → Bool
  clears l = if enabled_layers l then passed (run_layer env patch site policy l1_mode l) else true

  -- The report that a layer leaves in the verdict.
  abbrev pub report_of : Layer → LayerReport
  report_of l =
      if enabled_layers l then run_layer env patch site policy l1_mode l else skipped_report l

  abbrev verify_rest : List Layer → List LayerReport → List Layer → Verdict
  verify_rest = verify_from env patch site policy l1_mode enabled_layers

  -- The split of the layers at the first enabled one whose report does not pass.
  pub record StopsAt (ls : List Layer) : Type 0 where
    pub before : List Layer
    pub at : Layer
    pub after : List Layer
    pub split : ls ≡ before ++ (at ∷ after)
    pub clear : all clears before ≡ true
    pub is_enabled : enabled_layers at ≡ true
    pub fails : passed (run_layer env patch site policy l1_mode at) ≡ false

  module _ (l : Layer) (ls : List Layer) (reports : List LayerReport) (evaluated : List Layer) where
    verify_from-off :
        enabled_layers l ≡ false
        → verify_rest (l ∷ ls) reports evaluated
          ≡ verify_rest ls (reports ++ report_of l ∷ []) evaluated
    unfolding verify_from
    verify_from-off h = rw (h, verify_from)

    verify_from-pass :
        enabled_layers l ≡ true
        → passed (run l) ≡ true
        → verify_rest (l ∷ ls) reports evaluated
          ≡ verify_rest ls (reports ++ report_of l ∷ []) (evaluated ++ l ∷ [])
    unfolding verify_from
    verify_from-pass h p = rw (h, p, verify_from)

    verify_from-fail :
        enabled_layers l ≡ true
        → passed (run l) ≡ false
        → verify_rest (l ∷ ls) reports evaluated
          ≡ rejected env patch site policy l1_mode enabled_layers
              (first_failure (run l))
              (reports ++ report_of l ∷ [])
              (evaluated ++ l ∷ [])
    unfolding verify_from
    verify_from-fail h p = rw (h, p, verify_from)

  verify_from-clear :
      (ls : List Layer) (reports : List LayerReport) (evaluated : List Layer)
      → all clears ls ≡ true
      → verify_rest ls reports evaluated
        ≡ accepted env patch site policy l1_mode enabled_layers
            (reports ++ map report_of ls)
            (evaluated ++ keep enabled_layers ls)
  verify_from-clear [] reports evaluated h = unfold verify_from in simp append-nil
  verify_from-clear (l ∷ ls) reports evaluated h = elim (Bool-cases (enabled_layers l)) [
    | inr off ↦
        verify_from-off l ls reports evaluated off
        ∙ verify_from-clear ls (reports ++ report_of l ∷ []) evaluated (rw off at h)
        ∙ simp (append_assoc, off)
    | inl on ↦
        verify_from-pass l ls reports evaluated on (ground arith)
        ∙ verify_from-clear ls (reports ++ report_of l ∷ []) (evaluated ++ l ∷ []) (ground arith)
        ∙ simp (append_assoc, on)
  ]

  stops : (ls : List Layer) → all clears ls ≡ false → StopsAt ls
  stops [] h = cc
  stops (l ∷ ls) h = elim (Bool-cases (clears l)) [
    | inr n ↦ record {
      before = [];
      at = l;
      after = ls;
      split = refl;
      clear = refl;
      is_enabled = ground arith;
      fails = ground arith;
    }
    | inl c ↦
        let s = stops ls (ground arith) in
        record {
          before = l ∷ s.before;
          at = s.at;
          after = s.after;
          split = ap (λ r. l ∷ r) s.split;
          clear = ground (arith, s.clear);
          is_enabled = s.is_enabled;
          fails = s.fails;
        }
  ]

  -- The loop passes over layers that clear, and leaves a report for each.
  verify_from-append :
      (before after : List Layer) (reports : List LayerReport) (evaluated : List Layer)
      → all clears before ≡ true
      → verify_rest (before ++ after) reports evaluated
        ≡ verify_rest after
            (reports ++ map report_of before)
            (evaluated ++ keep enabled_layers before)
  verify_from-append [] after reports evaluated h = simp append-nil
  verify_from-append (l ∷ ls) after reports evaluated h = elim (Bool-cases (enabled_layers l)) [
    | inr off ↦
        verify_from-off l (ls ++ after) reports evaluated off
        ∙ verify_from-append ls after (reports ++ report_of l ∷ []) evaluated (rw off at h)
        ∙ simp (append_assoc, off)
    | inl on ↦
        verify_from-pass l (ls ++ after) reports evaluated on (ground arith)
        ∙ verify_from-append ls after (reports ++ report_of l ∷ []) (evaluated ++ l ∷ [])
            (ground arith)
        ∙ simp (append_assoc, on)
  ]

  -- What the verdict is when the loop stops at a layer.
  abbrev pub rejected_at : {ls : List Layer} → StopsAt ls → Verdict
  rejected_at s =
      rejected env patch site policy l1_mode enabled_layers (first_failure (run s.at))
        (map report_of s.before ++ report_of s.at ∷ []) (keep enabled_layers s.before ++ s.at ∷ [])

  verify_from-stops : (ls : List Layer) (s : StopsAt ls) → verify_rest ls [] [] ≡ rejected_at s
  verify_from-stops ls s = rw s.split (
      verify_from-append s.before (s.at ∷ s.after) [] [] s.clear
      ∙ verify_from-fail s.at s.after (map report_of s.before) (keep enabled_layers s.before)
          s.is_enabled s.fails)

  -- Either every layer clears and the verdict accepts with a report for each layer, or the verdict
  -- rejects at the first layer that fails.
  pub verify_layers :
      (ls : List Layer)
      → ((all clears ls ≡ true)
          × (verify_rest ls [] []
              ≡ accepted env patch site policy l1_mode enabled_layers
                  (map report_of ls)
                  (keep enabled_layers ls)))
        ⊎ ((s : StopsAt ls) × (all clears ls ≡ false) × (verify_rest ls [] [] ≡ rejected_at s))
  verify_layers ls = elim (Bool-cases (all clears ls)) [
    | inl c ↦ inl (c, verify_from-clear ls [] [] c)
    | inr n ↦ let s = stops ls n in inr (s, n, verify_from-stops ls s)
  ]
