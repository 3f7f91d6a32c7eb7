-- ===== src/Diff/Hunks.antt =====
-- `_parse_hunks` of src/pqpatch/verifier/rules/diffapply.py. The header pattern
-- `^@@ -(\d+)(?:,(\d+))? \+(\d+)(?:,(\d+))? @@` is read by hand: its parts never overlap, so it
-- matches in one way at most. A digit is an ASCII digit.
use nesy_pqpatch.Prelude.{
  ℕ, ◌+◌, ◌*◌, ◌-◌, Text, text, starts_with, drop_prefix, splitlines, ◌≡◌, refl, Bool, ◌&&◌, ◌||◌,
  Option, none, some, List, [], ◌∷◌, ◌++◌, leb, ◌==◌, if◌then◌else◌,
}

pub data Tag : Type 0 where
  context minus plus : Tag

pub record Hunk : Type 0 where
  pub old_start : ℕ
  pub lines : List (Tag × Text)

abbrev is_digit : ℕ → Bool
is_digit c = leb 48 c && leb c 57

-- `(\d+)`, greedy, with int(…) of what it takes. `none` for no digit.
digits_more : ℕ → Text → ℕ × Text
digits_more n [] = (n, [])
digits_more n (c ∷ s) =
    let rest = digits_more (n * 10 + (c - 48)) s in if is_digit c then rest else (n, c ∷ s)

digits : Text → Option (ℕ × Text)
unfolding digits_more
digits [] = none
digits (c ∷ s) = if is_digit c then some (digits_more (c - 48) s) else none

-- a literal
expect : Text → Text → Option Text
expect p s = if starts_with p s then some (drop_prefix p s) else none

-- `(?:,(\d+))?`
optional_count : Text → Text
unfolding digits expect
optional_count s = elim (expect (text ",") s) [
  | none ↦ s
  | some r ↦ elim (digits r) [ none ↦ s | some (n, rest) ↦ rest ]
]

infixl 5 ◌>>=◌
abbrev ◌>>=◌ {ℓ κ} : {A : Type ℓ} {B : Type κ} → Option A → (A → Option B) → Option B
none >>= f = none
some a >>= f = f a

-- int(m.group(1)) where the header matches
unfoldable pub hunk_header : Text → Option ℕ
unfolding expect starts_with drop_prefix digits optional_count
hunk_header line = do
  r ← expect (text "@@ -") line
  (old_start, r) ← digits r
  r ← expect (text " +") (optional_count r)
  (new_start, r) ← digits r
  r ← expect (text " @@") (optional_count r)
  some old_start

-- a body line, by its first character
unfoldable pub body_line : Text → List (Tag × Text)
unfolding starts_with
body_line [] = []
body_line (c ∷ s) =
    if starts_with (text "---") (c ∷ s) || starts_with (text "+++") (c ∷ s)
    then []
    else if c == 32
    then (context, s) ∷ []
    else if c == 45
    then (minus, s) ∷ []
    else if c == 43
    then (plus, s) ∷ []
    else []

-- The two nested `while` loops in one pass: `open` is the hunk whose body is being read, if any.
-- A line that begins with `@@` ends a body, and is read again as a header.
abbrev close_hunk : Option Hunk → List Hunk → List Hunk
close_hunk none hunks = hunks
close_hunk (some h) hunks = h ∷ hunks

unfoldable pub parse_from : Option Hunk → List Text → List Hunk
unfolding hunk_header body_line
parse_from current [] = close_hunk current []
parse_from none (line ∷ lines) =
    parse_from
      (elim (hunk_header line) [
        | none ↦ none
        | some old_start ↦ some (record { old_start = old_start; lines = [] })
      ])
      lines
parse_from (some h) (line ∷ lines) =
    let ended =
      h
      ∷ parse_from
          (elim (hunk_header line) [
            | none ↦ none
            | some old_start ↦ some (record { old_start = old_start; lines = [] })
          ])
          lines in
    let more = parse_from (some (record h { lines = h.lines ++ body_line line })) lines in
    if starts_with (text "@@") line then ended else more

unfoldable pub parse_hunks : Text → List Hunk
unfolding parse_from splitlines
parse_hunks diff_text = parse_from none (splitlines diff_text)

two_hunks :
    parse_hunks (
      text "--- a/A\n+++ b/A\nstray\n@@ -3,2 +3,2 @@ void f()\n a\n-b\n\n+c\n@@ -10 +10,1 @@\n+d\n")
    ≡ (let h : Hunk = record {
      old_start = 3;
      lines = (context, text "a") ∷ (minus, text "b") ∷ (plus, text "c") ∷ [];
    } in
        let k : Hunk = record { old_start = 10; lines = (plus, text "d") ∷ [] } in h ∷ k ∷ [])
unfolding parse_hunks
two_hunks = refl
