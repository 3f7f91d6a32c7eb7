-- ===== src/Prelude/Strings.antt =====
-- Texts are lists of code points, and these are the methods of Python's `str` that the program
-- calls. `\d` and `\w` tests elsewhere read the ASCII digits and letters.
use Prim.Native.Nat.{ℕ}
use Prim.Native.Char.{code}
use Prim.Native.String.{String}
use mathlib.Core.Path.{◌≡◌, refl, ap, ◌∙◌}
use mathlib.Core.Logic.{inl, inr}
use mathlib.Core.Bool.{Bool, true, false, not, ◌&&◌, ◌||◌}
use mathlib.Core.List.{List, [], ◌∷◌, ◌++◌, reverse}
use native.Mathlib.Omega.{arith}
use nesy_pqpatch.Prelude.Tests.{◌==◌, leb, if◌then◌else◌, Bool-cases}

abbrev pub Text : Type 0
Text = List ℕ

-- The code points of a literal.
abbrev pub text : String → Text
text String.[] = []
text (String.◌∷◌ c s) = code c ∷ text s

-- a == b
unfoldable pub text_eq : Text → Text → Bool
text_eq [] [] = true
text_eq (a ∷ s) (b ∷ t) = a == b && text_eq s t
text_eq _ _ = false

pub text_eq→eq : (s t : Text) → text_eq s t ≡ true → s ≡ t
unfolding text_eq
text_eq→eq [] [] h = refl
text_eq→eq [] (b ∷ t) h = cc
text_eq→eq (a ∷ s) [] h = cc
text_eq→eq (a ∷ s) (b ∷ t) h = ground (arith, text_eq→eq s t)

pub text_eq_self : (s : Text) → text_eq s s ≡ true
unfolding text_eq
text_eq_self [] = refl
text_eq_self (a ∷ s) = ground (arith, text_eq_self s)

-- equality of lists of texts
unfoldable pub texts_eq : List Text → List Text → Bool
unfolding text_eq
texts_eq [] [] = true
texts_eq (a ∷ s) (b ∷ t) = text_eq a b && texts_eq s t
texts_eq _ _ = false

pub texts_eq→eq : (s t : List Text) → texts_eq s t ≡ true → s ≡ t
unfolding texts_eq
texts_eq→eq [] [] h = refl
texts_eq→eq [] (b ∷ t) h = cc
texts_eq→eq (a ∷ s) [] h = cc
texts_eq→eq (a ∷ s) (b ∷ t) h = ground (arith, text_eq→eq a b, texts_eq→eq s t)

pub texts_eq_self : (s : List Text) → texts_eq s s ≡ true
unfolding texts_eq
texts_eq_self [] = refl
texts_eq_self (a ∷ s) = ground (arith, text_eq_self a, texts_eq_self s)

-- s.startswith(p)
unfoldable pub starts_with : Text → Text → Bool
starts_with [] s = true
starts_with (p ∷ ps) [] = false
starts_with (p ∷ ps) (c ∷ s) = p == c && starts_with ps s

unfoldable pub drop_prefix : Text → Text → Text
drop_prefix [] s = s
drop_prefix (p ∷ ps) [] = []
drop_prefix (p ∷ ps) (c ∷ s) = drop_prefix ps s

-- s.removeprefix(p)
unfoldable pub remove_prefix : Text → Text → Text
unfolding starts_with drop_prefix
remove_prefix p s = if starts_with p s then drop_prefix p s else s

-- str.isspace on one character, which is also what `\s` matches
unfoldable pub is_space : ℕ → Bool
is_space c =
    (leb 9 c && leb c 13)
    || (leb 28 c && leb c 32)
    || c == 0x85
    || c == 0xA0
    || c == 0x1680
    || (leb 0x2000 c && leb c 0x200A)
    || c == 0x2028
    || c == 0x2029
    || c == 0x202F
    || c == 0x205F
    || c == 0x3000

-- the characters at which str.splitlines ends a line
unfoldable pub is_line_break : ℕ → Bool
is_line_break c =
    (leb 10 c && leb c 13) || (leb 28 c && leb c 30) || c == 0x85 || c == 0x2028 || c == 0x2029

unfoldable pub drop_while : (ℕ → Bool) → Text → Text
drop_while p [] = []
drop_while p (c ∷ s) = if p c then drop_while p s else c ∷ s

-- s.strip()
unfoldable pub strip : Text → Text
unfolding drop_while is_space
strip s = reverse (drop_while is_space (reverse (drop_while is_space s)))

unfoldable pub push_char : ℕ → List Text → List Text
push_char c [] = (c ∷ []) ∷ []
push_char c (l ∷ ls) = (c ∷ l) ∷ ls

-- `after_cr` says that the character before was a carriage return, which a line feed completes.
unfoldable pub lines_from : Bool → Text → List Text
unfolding is_line_break push_char
lines_from after_cr [] = []
lines_from after_cr (c ∷ s) =
    let rest = lines_from (c == 13) s in
    if c == 10 && after_cr then rest else if is_line_break c then [] ∷ rest else push_char c rest

-- s.splitlines()
unfoldable pub splitlines : Text → List Text
unfolding lines_from
splitlines = lines_from false

-- s.splitlines(keepends=True)
unfoldable pub splitlines_keepends : Text → List Text
unfolding is_line_break push_char starts_with
splitlines_keepends [] = []
splitlines_keepends (c ∷ s) =
    let rest = splitlines_keepends s in
    if is_line_break c && not (c == 13 && starts_with (10 ∷ []) s)
    then (c ∷ []) ∷ rest
    else push_char c rest

-- "".join(parts)
abbrev pub concat : List Text → Text
concat [] = []
concat (l ∷ ls) = l ++ concat ls

concat-push_char : (c : ℕ) (ls : List Text) → concat (push_char c ls) ≡ c ∷ concat ls
unfolding push_char
concat-push_char c [] = refl
concat-push_char c (l ∷ ls) = refl

-- The lines with their ends make up the text.
pub concat-splitlines_keepends : (s : Text) → concat (splitlines_keepends s) ≡ s
unfolding splitlines_keepends
concat-splitlines_keepends [] = refl
concat-splitlines_keepends (c ∷ s) =
    let rest = splitlines_keepends s in
    let same = concat-splitlines_keepends s in
    elim (Bool-cases (is_line_break c && not (c == 13 && starts_with (10 ∷ []) s))) [
      | inl t ↦ rw t (ap (λ r. c ∷ r) same)
      | inr f ↦ rw f (concat-push_char c rest ∙ ap (λ r. c ∷ r) same)
    ]

-- sep.join(parts)
unfoldable pub join : Text → List Text → Text
join sep [] = []
join sep (l ∷ []) = l
join sep (l ∷ m ∷ ls) = l ++ (sep ++ join sep (m ∷ ls))

-- s.split(sep) for a one-character separator
unfoldable pub split_on : ℕ → Text → List Text
unfolding push_char
split_on sep [] = [] ∷ []
split_on sep (c ∷ s) = let rest = split_on sep s in if c == sep then [] ∷ rest else push_char c rest
