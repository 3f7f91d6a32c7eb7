-- ===== src/Diff/Locate.antt =====
-- `_norm` and `_locate` of src/pqpatch/verifier/rules/diffapply.py. The distance of a position `p`
-- from the hint is `abs(p - (hint - 1))`, written over the natural numbers.
pub mod Closest
use nesy_pqpatch.Prelude.{
  ℕ, ◌+◌, ◌-◌, Text, text, texts_eq, strip, Bool, List, [], ◌∷◌, ◌++◌, map, keep, length, take,
  drop, range, sort_by, ◌==◌, if◌then◌else◌,
}
use nesy_pqpatch.Python.{Result, ok, raised, Exception, diff_apply_error, repr, decimal}

-- block_at original p n = [_norm(original[p + j]) for j in range(n)]
unfoldable pub block_at : List Text → ℕ → ℕ → List Text
unfolding strip
block_at original p n = map strip (take n (drop p original))

unfoldable pub matches_block : List Text → List Text → ℕ → Bool
unfolding block_at texts_eq strip
matches_block original old_block p =
    texts_eq (block_at original p (length old_block)) (map strip old_block)

-- the positions at or after the cursor where the block matches
unfoldable pub block_matches : List Text → List Text → ℕ → List ℕ
unfolding matches_block
block_matches original old_block cursor =
    keep (matches_block original old_block) (range cursor (length original + 1 - length old_block))

unfoldable pub distance : ℕ → ℕ → ℕ
distance hint p = (p + 1 - hint) + (hint - (p + 1))

-- repr of a list of texts, as far as old_block[:1] goes
unfoldable pub repr_first : List Text → Text
unfolding repr
repr_first [] = text "[]"
repr_first (x ∷ xs) = text "[" ++ (repr x ++ text "]")

unfoldable pub not_found_error : List Text → Exception
unfolding diff_apply_error repr_first
not_found_error old_block = diff_apply_error (
    text "hunk context not found in source (looked for "
    ++ (repr_first old_block
        ++ text "...); the diff does not match the file and will not be force-applied"))

unfoldable pub ambiguous_error : ℕ → Exception
unfolding diff_apply_error decimal
ambiguous_error count = diff_apply_error (
    text "hunk context is ambiguous ("
    ++ (decimal count ++ text " equally-likely positions); refusing to guess where to apply it"))

-- what is left of `_locate` once the matches are sorted by their distance from the hint
unfoldable pub choose_closest : (ℕ → ℕ) → List ℕ → Exception → Result ℕ
choose_closest far [] none_found = raised none_found
choose_closest far (p ∷ []) none_found = ok p
choose_closest far (p ∷ q ∷ rest) none_found =
    if far p == far q then raised (ambiguous_error (length (p ∷ q ∷ rest))) else ok p

unfoldable pub locate : List Text → List Text → ℕ → ℕ → Result ℕ
unfolding block_matches choose_closest sort_by distance not_found_error ambiguous_error
locate original old_block cursor hint =
    choose_closest (distance hint)
      (sort_by (distance hint) (block_matches original old_block cursor))
      (not_found_error old_block)
