-- ===== src/Diff/Apply/Samples.antt =====
-- Diffs applied to small files, and the theorems about diffs at those inputs.
use nesy_pqpatch.Prelude.{
  ◌≡◌, ◌≢◌, ◌↔◌, ◌⊎◌, ◌+◌, refl, Text, text, splitlines, join, strip, List, [], ◌∷◌, ◌++◌, length,
  if◌then◌else◌, true,
}
use nesy_pqpatch.Python.{ok, raised}
use nesy_pqpatch.Diff.Hunks.{Hunk, context, minus, plus, parse_hunks}
use nesy_pqpatch.Diff.Scope.{normalized_parts, path_in_scope}
use nesy_pqpatch.Diff.Scope.Suffix.{IsSuffix, path_in_scope_iff}
use nesy_pqpatch.Diff.Locate.{locate, not_found_error, ambiguous_error}
use nesy_pqpatch.Diff.Locate.Closest.{IsMatch, IsClosest, locate_iff}
use nesy_pqpatch.Diff.Apply.{no_hunk_error, apply_from, apply_unified_diff, ends_newline}
use nesy_pqpatch.Diff.Apply.Edits.{
  Body, done, kept, removed, added, Edits, total, minus_lines, plus_lines,
}
use nesy_pqpatch.Diff.Apply.Errors.{Unplaced, apply_unified_diff-raises, apply_unified_diff-Edits}
use nesy_pqpatch.Diff.Apply.Place.{apply_single_hunk}

program : Unit {0}
unfolding apply_unified_diff locate splitlines join not_found_error ambiguous_error
program = tt

abbrev file : Text
file = text "a\n  b\nc\n"

-- The header is wrong by two lines, and the context is not indented as in the file.
abbrev shifted : Text
shifted = text "@@ -4,2 +4,2 @@\n b \n-c\n+d\n"

abbrev patched : Text
patched = text "a\n  b\nd\n"

applied : apply_unified_diff file shifted ≡ ok patched
unfolding program
applied = refl

abbrev stray : Text
stray = text "@@ -1 +1 @@\n-x\n+d\n"

missing : apply_unified_diff file stray ≡ raised (not_found_error (text "x" ∷ []))
unfolding program
missing = refl

ambiguous :
    apply_unified_diff (text "x\na\nx\n") (text "@@ -2 +2 @@\n-x\n+d\n")
    ≡ raised (ambiguous_error 2)
unfolding program
ambiguous = refl

path_in_scope_iff_example : (path_in_scope (text "b/A.java") (text "/abs/src/A.java") ≡ true) ↔ (
    (normalized_parts (text "b/A.java") ≢ [])
    × (normalized_parts (text "/abs/src/A.java") ≢ [])
    × (IsSuffix (normalized_parts (text "b/A.java")) (normalized_parts (text "/abs/src/A.java"))
        ⊎ IsSuffix
            (normalized_parts (text "/abs/src/A.java"))
            (normalized_parts (text "b/A.java"))))
path_in_scope_iff_example = path_in_scope_iff (text "b/A.java") (text "/abs/src/A.java")

locate_iff_example : (locate (splitlines file) (text "b" ∷ text "c" ∷ []) 0 4 ≡ ok 1) ↔ (
    IsMatch (splitlines file) (text "b" ∷ text "c" ∷ []) 0 1
    × IsClosest (splitlines file) (text "b" ∷ text "c" ∷ []) 0 4 1)
locate_iff_example = locate_iff (splitlines file) (text "b" ∷ text "c" ∷ []) 0 4 1

apply_unified_diff-raises_example :
    ((parse_hunks stray ≡ []) × (not_found_error (text "x" ∷ []) ≡ no_hunk_error))
    ⊎ Unplaced (not_found_error (text "x" ∷ []))
apply_unified_diff-raises_example =
    apply_unified_diff-raises file stray (not_found_error (text "x" ∷ [])) missing

apply_unified_diff-Edits_example :
    (lines : List Text) × (patched
      ≡ join (text "\n") lines ++ (if ends_newline file then text "\n" else []))
    × Edits (splitlines file) (parse_hunks shifted) lines
    × (length lines + total minus_lines (parse_hunks shifted)
        ≡ length (splitlines file) + total plus_lines (parse_hunks shifted))
apply_unified_diff-Edits_example = apply_unified_diff-Edits file shifted patched applied

abbrev hunk : Hunk
hunk = record {
  old_start = 9;
  lines = (context, text "b") ∷ (minus, text "c") ∷ (plus, text "d") ∷ [];
}

body : Body hunk.lines (text "  b" ∷ text "c" ∷ []) (text "  b" ∷ text "d" ∷ [])
unfolding strip
body = kept refl (removed refl (added done))

apply_single_hunk_example :
    apply_from (text "a" ∷ text "  b" ∷ text "c" ∷ text "e" ∷ []) [] 0 (hunk ∷ [])
    ≡ ok (text "a" ∷ text "  b" ∷ text "d" ∷ text "e" ∷ [])
unfolding program
apply_single_hunk_example =
    apply_single_hunk hunk (text "a" ∷ []) (text "  b" ∷ text "c" ∷ []) (text "  b" ∷ text "d" ∷ [])
      (text "e" ∷ []) body (λ e. cc)
      ((locate_iff (text "a" ∷ text "  b" ∷ text "c" ∷ text "e" ∷ []) (text "b" ∷ text "c" ∷ []) 0 9
          1).0
        refl).1
