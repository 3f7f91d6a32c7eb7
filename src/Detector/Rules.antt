-- ===== src/Detector/Rules.antt =====
-- The rules that src/pqpatch/detector/classify.py has a class for.
use nesy_pqpatch.Prelude.{
  ℕ, ◌≡◌, refl, sym, subst, ◌⊎◌, inl, inr, Text, text, text_eq, text_eq→eq, Bool-cases, List, [],
  ◌∷◌, All, arith,
}
use nesy_pqpatch.Model.{UsageClass, kem, envelope}
use nesy_pqpatch.Python.{ok}
use nesy_pqpatch.Detector.Match.{RawMatch}
use nesy_pqpatch.Detector.Classify.{
  classify, classify_in, unambiguous, window, signature_class, keypair_class,
}
use nesy_pqpatch.Detector.{detector_rule_ids}

abbrev pub Among : Text → List Text → Type 0
Among x [] = ⊥
Among x (y ∷ ys) = (x ≡ y) ⊎ Among x ys

pub All-Among : (P : Text → Type 0) (x : Text) (xs : List Text) → All P xs → Among x xs → P x
All-Among P x [] h m = absurd m
All-Among P x (y ∷ ys) h (inl e) = subst P (sym e) h.0
All-Among P x (y ∷ ys) h (inr m) = All-Among P x ys h.1 m

-- Only the rules of the detector have a class.
pub classified_rule :
    (m : RawMatch) (lines : List Text) (size : ℕ) (usage_class : UsageClass)
    → classify m lines size ≡ ok usage_class
    → Among m.rule_id detector_rule_ids
unfolding classify unambiguous classify_in detector_rule_ids
classified_rule m lines size usage_class h =
    let is = λ (rule_id : Text). text_eq→eq m.rule_id rule_id in
    let tested = λ (rule_id : Text). Bool-cases (text_eq m.rule_id rule_id) in
    elim (tested (text "pq-detect-cipher-envelope")) [
      | inl e ↦ inr (inr (inl (is (text "pq-detect-cipher-envelope") e)))
      | inr a ↦ elim (tested (text "pq-detect-keyagreement")) [
        | inl e ↦ inr (inr (inr (inl (is (text "pq-detect-keyagreement") e))))
        | inr b ↦ elim (tested (text "pq-detect-signature")) [
          | inl e ↦ inr (inl (is (text "pq-detect-signature") e))
          | inr c ↦ elim (tested (text "pq-detect-keypairgenerator")) [
            | inl e ↦ inl (is (text "pq-detect-keypairgenerator") e)
            | inr d ↦ absurd (ground (arith, a, b, c, d, h))
          ]
        ]
      ]
    ]

-- Each of them has one.
pub classify-total :
    (m : RawMatch) (lines : List Text) (size : ℕ)
    → Among m.rule_id detector_rule_ids
    → (usage_class : UsageClass) × (classify m lines size ≡ ok usage_class)
unfolding classify unambiguous classify_in detector_rule_ids text_eq
classify-total m lines size (inl e) = (keypair_class (window lines m.line size), rw e refl)
classify-total m lines size (inr (inl e)) = (signature_class (window lines m.line size), rw e refl)
classify-total m lines size (inr (inr (inl e))) = (envelope, rw e refl)
classify-total m lines size (inr (inr (inr (inl e)))) = (kem, rw e refl)
classify-total m lines size (inr (inr (inr (inr h)))) = absurd h
