-- ===== src/L1/Guarantees/Primitives.antt =====
-- The two patterns of PQ-MIG-01 in src/pqpatch/verifier/l1_syntactic/rules.py, as searches for words.
use nesy_pqpatch.Prelude.{Text, text, List, [], ◌∷◌, arith}
use nesy_pqpatch.Regex.{lit, ◌or◌}
use nesy_pqpatch.Regex.Words.{
  Finds, literal-begins, alt-Finds, not_after-Finds, optionally-Finds, char-begins,
}
use nesy_pqpatch.L1.Families.{pq_primitive_re, classical_at_site_re}

abbrev pub pq_words : List Text
pq_words = text "ML-KEM" ∷ text "ML-DSA" ∷ text "SLH-DSA" ∷ []

abbrev pub classical_words : List Text
classical_words =
    text "RSA"
    ∷ text "ECDSA"
    ∷ text "DSA"
    ∷ text "ECDH"
    ∷ text "DiffieHellman"
    ∷ text "3DES"
    ∷ text "DES"
    ∷ text "\"EC\""
    ∷ []

pub pq_primitive_re-Finds : Finds pq_primitive_re pq_words
unfolding pq_primitive_re
pq_primitive_re-Finds =
    alt-Finds (lit "ML-KEM") (lit "ML-DSA" or lit "SLH-DSA") pq_words
      (λ s h. ground (arith, literal-begins (text "ML-KEM") s h))
      (alt-Finds (lit "ML-DSA") (lit "SLH-DSA") pq_words
        (λ s h. ground (arith, literal-begins (text "ML-DSA") s h))
        (λ s h. ground (arith, literal-begins (text "SLH-DSA") s h)))

pub classical_at_site_re-Finds : Finds classical_at_site_re classical_words
unfolding classical_at_site_re
classical_at_site_re-Finds =
    alt-Finds _ _ classical_words (λ s h. ground (arith, literal-begins (text "RSA") s h))
      (alt-Finds _ _ classical_words (λ s h. ground (arith, literal-begins (text "ECDSA") s h))
        (alt-Finds _ _ classical_words
          (not_after-Finds (text "-LM") (lit "DSA") classical_words
            (λ s h. ground (arith, literal-begins (text "DSA") s h)))
          (alt-Finds _ _ classical_words (λ s h. ground (arith, literal-begins (text "ECDH") s h))
            (alt-Finds _ _ classical_words
              (λ s h. ground (arith, literal-begins (text "DiffieHellman") s h))
              (alt-Finds _ _ classical_words
                (optionally-Finds (lit "3") (lit "DES") classical_words
                  (λ s h. ground (arith, char-begins 51 (text "DES") s h))
                  (λ s h. ground (arith, literal-begins (text "DES") s h)))
                (λ s h. ground (arith, literal-begins (text "\"EC\"") s h)))))))
