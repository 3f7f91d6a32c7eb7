-- ===== src/Regex.antt =====
-- Python's `re`, as far as the rules use it: a backtracking matcher that lists every way to match in
-- the order in which Python tries them. `\s` is `str.isspace`, and `\d` and `\w` read the ASCII
-- digits and letters.
pub mod Words
use nesy_pqpatch.Prelude.{
  ℕ, zero, suc, ◌-◌, ◌≡◌, refl, Text, text, starts_with, is_space, String, Bool, true, false, not,
  ◌&&◌, ◌||◌, Option, none, some, List, [], ◌∷◌, ◌++◌, map, any, length, take, leb, ltb, ◌==◌,
  if◌then◌else◌,
}

pub data Regex : Type 0 where
  empty : Regex
  char : (ℕ → Bool) → Regex
  seq : Regex → Regex → Regex
  -- the first alternative is tried first
  alt : Regex → Regex → Regex
  -- `r*`, greedy
  star : Regex → Regex
  -- `(r)`, with the number of the group
  group : ℕ → Regex → Regex
  -- `(?<!p)` and `(?!p)` for a literal `p`; the first holds it reversed
  not_after : Text → Regex
  not_before : Text → Regex

-- Where a match stands: the text before, from the last character on, the text that is left, and
-- what the groups have taken, the latest first.
pub record Cursor : Type 0 where
  pub before : Text
  pub rest : Text
  pub groups : List (ℕ × Text)

unfoldable pub flat {ℓ κ} : {A : Type ℓ} {B : Type κ} → (A → List B) → List A → List B
flat f [] = []
flat f (x ∷ xs) = f x ++ flat f xs

abbrev pub advance : ℕ → Text → Cursor → Cursor
advance c rest s = record s { before = c ∷ s.before; rest = rest }

-- A round of a loop that takes no character is not tried again.
abbrev pub consumes : Cursor → Cursor → Bool
consumes s t = ltb (length t.rest) (length s.rest)

-- Greedy rounds of `f`; `fuel` is the number of characters left, which bounds the rounds.
pub iterate : ℕ → (Cursor → List Cursor) → Cursor → List Cursor
unfolding flat
iterate zero f s = s ∷ []
iterate (suc fuel) f s =
    flat (λ t. elim (consumes s t) [ true ↦ iterate fuel f t | false ↦ [] ]) (f s) ++ s ∷ []

unfoldable pub step_char : (ℕ → Bool) → Text → Cursor → List Cursor
step_char p [] s = []
step_char p (c ∷ rest) s = if p c then advance c rest s ∷ [] else []

-- the text between two places
abbrev pub taken : Cursor → Cursor → Text
taken s t = take (length s.rest - length t.rest) s.rest

abbrev pub close_group : ℕ → Cursor → Cursor → Cursor
close_group n s t = record t { groups = (n, taken s t) ∷ t.groups }

-- every way to match from a place, the preferred one first
unfoldable pub match_at : Regex → Cursor → List Cursor
unfolding flat iterate step_char starts_with
match_at empty s = s ∷ []
match_at (char p) s = step_char p s.rest s
match_at (seq q r) s = flat (match_at r) (match_at q s)
match_at (alt q r) s = match_at q s ++ match_at r s
match_at (star r) s = iterate (length s.rest) (match_at r) s
match_at (group n r) s = map (close_group n s) (match_at r s)
match_at (not_after p) s = if starts_with p s.before then [] else s ∷ []
match_at (not_before p) s = if starts_with p s.rest then [] else s ∷ []

-- A match: where it begins and where it ends.
pub record Found : Type 0 where
  pub from : Cursor
  pub to : Cursor

-- re.search from a place on
unfoldable pub search_from : Regex → Text → Text → Option Found
unfolding match_at
search_from r before [] =
    let s : Cursor = record { before = before; rest = []; groups = [] } in
    elim (match_at r s) [ [] ↦ none | t ∷ _ ↦ some (record { from = s; to = t }) ]
search_from r before (c ∷ rest) =
    let s : Cursor = record { before = before; rest = c ∷ rest; groups = [] } in
    let later = search_from r (c ∷ before) rest in
    elim (match_at r s) [ [] ↦ later | t ∷ _ ↦ some (record { from = s; to = t }) ]

unfoldable pub search : Regex → Text → Option Found
unfolding search_from
search r s = search_from r [] s

-- bool(re.search(…))
unfoldable pub found_in : Regex → Text → Bool
unfolding search
found_in r s = elim (search r s) [ none ↦ false | some _ ↦ true ]

-- re.finditer: the search goes on behind a match. No pattern of the rules matches the empty text.
unfoldable pub find_from : ℕ → Regex → Text → Text → List Found
unfolding search_from
find_from zero r before rest = []
find_from (suc fuel) r before rest = elim (search_from r before rest) [
  | none ↦ []
  | some m ↦ m ∷ find_from fuel r m.to.before m.to.rest
]

-- A match takes a character at least, so the length of the text is fuel enough.
unfoldable pub find_all : Regex → Text → List Found
unfolding find_from
find_all r s = find_from (suc (length s)) r [] s

-- m.group(0)
unfoldable pub whole : Found → Text
whole m = taken m.from m.to

lookup_group : ℕ → List (ℕ × Text) → Text
lookup_group n [] = []
lookup_group n ((k, s) ∷ gs) = if k == n then s else lookup_group n gs

-- m.group(n) for a group that took part in the match
unfoldable pub group_of : ℕ → Found → Text
unfolding lookup_group
group_of n m = lookup_group n m.to.groups

-- How the patterns are written.
abbrev pub literal : Text → Regex
literal [] = empty
literal (c ∷ s) = seq (char (λ d. d == c)) (literal s)

abbrev pub lit : String → Regex
lit s = literal (text s)

infixr 60 ◌·◌
abbrev pub ◌·◌ : Regex → Regex → Regex
q · r = seq q r

infixr 55 ◌or◌
abbrev pub ◌or◌ : Regex → Regex → Regex
q or r = alt q r

-- `r?`, greedy
abbrev pub optionally : Regex → Regex
optionally r = alt r empty

-- `r+`
abbrev pub some_of : Regex → Regex
some_of r = seq r (star r)

-- `r{low,low + extra}`, greedy
abbrev pub up_to : ℕ → Regex → Regex
up_to zero r = empty
up_to (suc extra) r = optionally (seq r (up_to extra r))

abbrev pub repeat : ℕ → ℕ → Regex → Regex
repeat zero extra r = up_to extra r
repeat (suc low) extra r = seq r (repeat low extra r)

abbrev pub is_digit : ℕ → Bool
is_digit c = leb 48 c && leb c 57

abbrev pub is_letter : ℕ → Bool
is_letter c = (leb 65 c && leb c 90) || (leb 97 c && leb c 122)

-- `\d`, `\s*`, `\s+`
abbrev pub digit : Regex
digit = char is_digit

abbrev pub spaces : Regex
spaces = star (char is_space)

abbrev pub some_spaces : Regex
some_spaces = some_of (char is_space)

-- `[^…]` and `[…]`
abbrev pub none_of : String → Regex
none_of s = char (λ c. not (any (λ d. d == c) (text s)))

abbrev pub one_of : String → Regex
one_of s = char (λ c. any (λ d. d == c) (text s))

token : Regex
token = lit "ML-" · (lit "KEM" or lit "DSA") · lit "-" · repeat 2 2 digit

tokens_found :
    map whole (find_all token (text "use ML-KEM-768 and ML-DSA-44, not ML-RSA-1"))
    ≡ text "ML-KEM-768" ∷ text "ML-DSA-44" ∷ []
unfolding find_all whole token
tokens_found = refl

grouped :
    map (group_of 1) (find_all (lit "a" · group 1 (some_of digit)) (text "a1 a b a234"))
    ≡ text "1" ∷ text "234" ∷ []
unfolding find_all group_of
grouped = refl

after_fails : found_in (not_after (text "-LM") · lit "DSA") (text "ML-DSA") ≡ false
unfolding found_in
after_fails = refl
