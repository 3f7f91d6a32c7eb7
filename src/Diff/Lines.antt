-- ===== src/Diff/Lines.antt =====
-- src/pqpatch/verifier/rules/diffutil.py: `added_lines`, `removed_lines` and `touched_files`. The
-- set of touched files is a list without repetition.
use nesy_pqpatch.Prelude.{
  Text, text, text_eq, starts_with, drop_prefix, remove_prefix, strip, splitlines, ◌≡◌, refl, not,
  ◌&&◌, List, [], ◌∷◌, ◌++◌, any, if◌then◌else◌,
}

-- The loop of `added_lines`: a line that begins with `+++` is passed over.
unfoldable pub added_from : List Text → List Text
unfolding starts_with drop_prefix
added_from [] = []
added_from (raw ∷ lines) =
    let rest = added_from lines in
    if starts_with (text "+++") raw
    then rest
    else if starts_with (text "+") raw
    then drop_prefix (text "+") raw ∷ rest
    else rest

unfoldable pub added_lines : Text → List Text
unfolding added_from splitlines
added_lines diff = added_from (splitlines diff)

unfoldable pub removed_from : List Text → List Text
unfolding starts_with drop_prefix
removed_from [] = []
removed_from (raw ∷ lines) =
    let rest = removed_from lines in
    if starts_with (text "---") raw
    then rest
    else if starts_with (text "-") raw
    then drop_prefix (text "-") raw ∷ rest
    else rest

unfoldable pub removed_lines : Text → List Text
unfolding removed_from splitlines
removed_lines diff = removed_from (splitlines diff)

-- files.add(path)
unfoldable pub add_file : Text → List Text → List Text
unfolding text_eq
add_file path files = if any (text_eq path) files then files else files ++ path ∷ []

unfoldable pub touched_from : List Text → List Text → List Text
unfolding add_file starts_with drop_prefix remove_prefix strip
touched_from files [] = files
touched_from files (raw ∷ lines) =
    let path = strip (drop_prefix (text "+++ ") raw) in
    touched_from
      (if starts_with (text "+++ ") raw && not (text_eq path (text "/dev/null"))
        then add_file (remove_prefix (text "b/") path) files
        else files)
      lines

unfoldable pub touched_files : Text → List Text
unfolding touched_from splitlines
touched_files diff = touched_from [] (splitlines diff)

sample : Text
sample = text "--- a/A.java\n+++ b/A.java\n@@ -1,2 +1,2 @@\n x\n-old\n+new\n"

sample_lines :
    (added_lines sample ≡ text "new" ∷ [])
    × (removed_lines sample ≡ text "old" ∷ [])
    × (touched_files sample ≡ text "A.java" ∷ [])
unfolding added_lines removed_lines touched_files sample
sample_lines = (refl, refl, refl)
