-- ===== src/Proposer/Template/Samples.antt =====
-- The rewriting of src/pqpatch/proposer/template_backend.py on small lines.
use nesy_pqpatch.Prelude.{is_space, ◌≡◌, refl, Text, text, none, some, List, [], ◌∷◌}
use nesy_pqpatch.Proposer.Template.{rewrite_site}

abbrev lines : List Text
lines = text "a\n" ∷ text "getInstance( \"RSA\");\n" ∷ text "getInstance(\"ML-KEM-512\");" ∷ []

rewritten :
    rewrite_site (some (text "ML-KEM-768")) lines 2
    ≡ some (
      text "ML-KEM-768",
      text "a\n"
          ∷ text "getInstance( \"ML-KEM-768\");\n"
          ∷ text "getInstance(\"ML-KEM-512\");"
          ∷ [],
    )
unfolding rewrite_site is_space
rewritten = refl

left_alone :
    (rewrite_site (some (text "ML-KEM-768")) lines 3 ≡ none)
    × (rewrite_site (some (text "ML-KEM-768")) lines 1 ≡ none)
    × (rewrite_site (some (text "ML-KEM-768")) lines 4 ≡ none)
    × (rewrite_site none lines 2 ≡ none)
unfolding rewrite_site is_space
left_alone = (refl, refl, refl, refl)
