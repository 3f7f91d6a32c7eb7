-- ===== src/Diff/Apply/Edits.antt =====
-- What `apply_unified_diff` (src/pqpatch/verifier/rules/diffapply.py) makes of a file, as a relation
-- that names no position, cursor or hint.
pub mod Emit
use nesy_pqpatch.Prelude.{
  ℕ, suc, ◌+◌, ◌≤◌, Text, strip, ◌≡◌, refl, sym, ap, ◌∙◌, List, [], ◌∷◌, ◌++◌, length,
  length-append, arith,
}
use nesy_pqpatch.Diff.Hunks.{Tag, context, minus, plus, Hunk}

-- The lines of a hunk replace `old` by `new`: a context line keeps the file's own line, a removed
-- line drops one, and both agree with it up to the whitespace at the ends.
pub data Body : List (Tag × Text) → List Text → List Text → Type 0 where
  done : Body [] [] []
  kept :
      {t line : Text} {ls : List (Tag × Text)} {old new : List Text}
      → strip line ≡ strip t
      → Body ls old new
      → Body ((context, t) ∷ ls) (line ∷ old) (line ∷ new)
  removed :
      {t line : Text} {ls : List (Tag × Text)} {old new : List Text}
      → strip line ≡ strip t
      → Body ls old new
      → Body ((minus, t) ∷ ls) (line ∷ old) new
  added :
      {t : Text} {ls : List (Tag × Text)} {old new : List Text}
      → Body ls old new
      → Body ((plus, t) ∷ ls) old (t ∷ new)

-- The hunks edit disjoint blocks of the file in order, and every other line stays.
pub data Edits : List Text → List Hunk → List Text → Type 0 where
  unchanged : (rest : List Text) → Edits rest [] rest
  edit :
      {whole out : List Text} {h : Hunk} {hs : List Hunk} (skipped old new rest out' : List Text)
      → whole ≡ skipped ++ (old ++ rest)
      → Body h.lines old new
      → Edits rest hs out'
      → out ≡ skipped ++ (new ++ out')
      → Edits whole (h ∷ hs) out

-- How many lines a hunk's body removes and adds.
abbrev pub minus_lines : List (Tag × Text) → ℕ
minus_lines [] = 0
minus_lines ((minus, t) ∷ ls) = suc (minus_lines ls)
minus_lines ((_, t) ∷ ls) = minus_lines ls

abbrev pub plus_lines : List (Tag × Text) → ℕ
plus_lines [] = 0
plus_lines ((plus, t) ∷ ls) = suc (plus_lines ls)
plus_lines ((_, t) ∷ ls) = plus_lines ls

abbrev pub total : (List (Tag × Text) → ℕ) → List Hunk → ℕ
total count [] = 0
total count (h ∷ hs) = count h.lines + total count hs

Body-count :
    {ls : List (Tag × Text)} {old new : List Text}
    → Body ls old new
    → length new + minus_lines ls ≡ length old + plus_lines ls
Body-count done = refl
Body-count (kept e b) = omega (arith, Body-count b)
Body-count (removed e b) = omega (arith, Body-count b)
Body-count (added b) = omega (arith, Body-count b)

-- An edit gains the added lines and loses the removed ones.
pub Edits-count :
    {whole out : List Text} {hs : List Hunk}
    → Edits whole hs out
    → length out + total minus_lines hs ≡ length whole + total plus_lines hs
Edits-count (unchanged rest) = refl
Edits-count (edit skipped old new rest out' w b e o) = omega (
  arith,
  ap length w,
  ap length o,
  Body-count b,
  Edits-count e,
  length-append skipped (old ++ rest),
  length-append old rest,
  length-append skipped (new ++ out'),
  length-append new out',
)
