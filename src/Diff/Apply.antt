-- ===== src/Diff/Apply.antt =====
-- `apply_unified_diff` of src/pqpatch/verifier/rules/diffapply.py. Reading past the end of the file
-- is an error here, as it is in Python.
pub mod Edits
pub mod Errors
pub mod Place
mod Samples
use nesy_pqpatch.Prelude.{
  ℕ, suc, ◌+◌, ◌-◌, Text, text, splitlines, join, Bool, true, false, Option, none, some, List, [],
  ◌∷◌, ◌++◌, length, get_elem?, slice, drop, ltb, ◌==◌, if◌then◌else◌,
}
use nesy_pqpatch.Python.{Result, ok, raised, ◌>>=◌, Exception, other, diff_apply_error, decimal}
use nesy_pqpatch.Diff.Hunks.{Tag, context, minus, plus, Hunk, parse_hunks}
use nesy_pqpatch.Diff.Locate.{locate}

unfoldable pub index_error : Exception
index_error = record {
  kind = other;
  message = text "list index out of range";
  repr = text "IndexError('list index out of range')";
}

unfoldable pub overlap_error : ℕ → Exception
unfolding diff_apply_error decimal
overlap_error old_start =
    diff_apply_error (text "overlapping or out-of-order hunk near line " ++ decimal old_start)

unfoldable pub no_hunk_error : Exception
unfolding diff_apply_error
no_hunk_error = diff_apply_error (text "no hunk header (@@ ... @@) found in diff")

-- [text for tag, text in hunk.lines if tag in (" ", "-")]
unfoldable pub old_block : List (Tag × Text) → List Text
old_block [] = []
old_block ((plus, t) ∷ lines) = old_block lines
old_block ((_, t) ∷ lines) = t ∷ old_block lines

-- the loop over the lines of a hunk: what it appends to the result, and the line it ends at
unfoldable pub emit : List Text → ℕ → List (Tag × Text) → Result (List Text × ℕ)
emit original k [] = ok ([], k)
emit original k ((context, t) ∷ lines) = elim (get_elem? original k) [
  | none ↦ raised index_error
  | some line ↦ do (out, end_line) ← emit original (k + 1) lines; ok (line ∷ out, end_line)
]
emit original k ((minus, t) ∷ lines) = emit original (k + 1) lines
emit original k ((plus, t) ∷ lines) = do
  (out, end_line) ← emit original k lines
  ok (t ∷ out, end_line)

abbrev max_of : ℕ → ℕ → ℕ
max_of a b = if ltb a b then b else a

abbrev min_of : ℕ → ℕ → ℕ
min_of a b = if ltb b a then b else a

-- where a hunk goes
unfoldable pub position : List Text → ℕ → Hunk → Result ℕ
unfolding old_block
position original cursor hunk = elim (old_block hunk.lines) [
  | [] ↦ ok (min_of (max_of (hunk.old_start - 1) cursor) (length original))
  | line ∷ lines ↦ locate original (line ∷ lines) cursor hunk.old_start
]

-- the loop over the hunks, with the result so far
unfoldable pub apply_from : List Text → List Text → ℕ → List Hunk → Result (List Text)
unfolding emit position
apply_from original result cursor [] = ok (result ++ drop cursor original)
apply_from original result cursor (hunk ∷ hunks) = do
  pos ← position original cursor hunk
  elim (ltb pos cursor) [
    | true ↦ raised (overlap_error hunk.old_start)
    | false ↦ do
      (out, k) ← emit original pos hunk.lines
      apply_from original (result ++ (slice cursor pos original ++ out)) k hunks
  ]

-- original.endswith("\n")
unfoldable pub ends_newline : Text → Bool
ends_newline [] = false
ends_newline (c ∷ []) = c == 10
ends_newline (c ∷ d ∷ s) = ends_newline (d ∷ s)

unfoldable pub apply_hunks : Text → List Hunk → Result Text
unfolding apply_from ends_newline
apply_hunks original [] = raised no_hunk_error
apply_hunks original (hunk ∷ hunks) = do
  result ← apply_from (splitlines original) [] 0 (hunk ∷ hunks)
  ok (join (text "\n") result ++ (if ends_newline original then text "\n" else []))

unfoldable pub apply_unified_diff : Text → Text → Result Text
unfolding apply_hunks parse_hunks
apply_unified_diff original diff_text = apply_hunks original (parse_hunks diff_text)
