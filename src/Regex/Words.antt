-- ===== src/Regex/Words.antt =====
-- Patterns that are words with alternatives between them, against the plain search for a word.
use nesy_pqpatch.Prelude.{
  ℕ, ◌≡◌, refl, ap, sym, ◌∙◌, append-nil, Text, starts_with, Bool, true, false, Bool-cases, inl,
  inr, ◌||◌, Option, none, some, List, [], ◌∷◌, ◌++◌, any, ◌==◌, arith,
}
use nesy_pqpatch.Regex.{
  Regex, Cursor, Found, seq, alt, not_after, literal, optionally, flat, step_char, match_at,
  search_from, search, found_in, advance,
}

-- some word stands at the front
abbrev pub begins : List Text → Text → Bool
begins words s = any (λ w. starts_with w s) words

-- some word stands somewhere in the text
unfoldable pub contains_word : List Text → Text → Bool
contains_word words [] = begins words []
contains_word words (c ∷ s) = begins words (c ∷ s) || contains_word words s

abbrev pub is_matched : List Cursor → Bool
is_matched [] = false
is_matched (t ∷ ts) = true

-- Where the pattern matches, one of the words stands.
abbrev pub Finds : Regex → List Text → Type 0
Finds r words = (s : Cursor) → is_matched (match_at r s) ≡ true → begins words s.rest ≡ true

matched-append : (xs ys : List Cursor) → is_matched (xs ++ ys) ≡ (is_matched xs || is_matched ys)
matched-append [] ys = refl
matched-append (x ∷ xs) ys = refl

flat-append :
    (f : Cursor → List Cursor) (xs ys : List Cursor)
    → is_matched (flat f (xs ++ ys)) ≡ (is_matched (flat f xs) || is_matched (flat f ys))
unfolding flat
flat-append f [] ys = refl
flat-append f (x ∷ xs) ys = ground (
  arith,
  matched-append (f x) (flat f (xs ++ ys)),
  matched-append (f x) (flat f xs),
  flat-append f xs ys,
)

-- A literal stands where it matches.
pub literal-begins :
    (w : Text) (s : Cursor)
    → is_matched (match_at (literal w) s) ≡ true
    → starts_with w s.rest ≡ true
unfolding match_at starts_with flat step_char
literal-begins [] s h = refl
literal-begins (c ∷ w) s h = at_rest s.rest (literal-begins w) h
  where
    at_rest :
        (rest : Text)
        → ((t : Cursor) → is_matched (match_at (literal w) t) ≡ true → starts_with w t.rest ≡ true)
        → is_matched (flat (match_at (literal w)) (step_char (λ d. d == c) rest s)) ≡ true
        → starts_with (c ∷ w) rest ≡ true
    at_rest [] ih e = cc
    at_rest (d ∷ rest) ih e = elim (Bool-cases (d == c)) [
      | inl t ↦
          let matched : is_matched (match_at (literal w) (advance d rest s) ++ []) ≡ true =
            rw t at e in
          let later = ih (advance d rest s) (
            ap is_matched (sym (append-nil (match_at (literal w) (advance d rest s)))) ∙ matched) in
          ground (arith, t, later)
      | inr f ↦ absurd (ground (arith, f, e))
    ]

pub alt-Finds :
    (q r : Regex) (words : List Text) → Finds q words → Finds r words → Finds (alt q r) words
unfolding match_at
alt-Finds q r words fq fr s h =
    ground (arith, matched-append (match_at q s) (match_at r s), h, fq s, fr s)

pub not_after-Finds :
    (p : Text) (r : Regex) (words : List Text) → Finds r words → Finds (seq (not_after p) r) words
unfolding match_at flat
not_after-Finds p r words fr s h = elim (Bool-cases (starts_with p s.before)) [
  | inl t ↦ absurd (ground (arith, t, h))
  | inr f ↦
      let matched : is_matched (match_at r s ++ []) ≡ true = rw f at h in
      fr s (ap is_matched (sym (append-nil (match_at r s))) ∙ matched)
]

-- `q?r`
pub optionally-Finds :
    (q r : Regex) (words : List Text)
    → Finds (seq q r) words
    → Finds r words
    → Finds (seq (optionally q) r) words
unfolding match_at flat
optionally-Finds q r words fq fr s h = ground (
  arith,
  flat-append (match_at r) (match_at q s) (s ∷ []),
  ap is_matched (append-nil (match_at r s)),
  h,
  fq s,
  fr s,
)

-- A character with a literal behind it stands where they match.
pub char-begins :
    (c : ℕ) (w : Text) (s : Cursor)
    → is_matched (match_at (seq (literal (c ∷ [])) (literal w)) s) ≡ true
    → starts_with (c ∷ w) s.rest ≡ true
unfolding match_at starts_with flat step_char
char-begins c w s h = at_rest s.rest h
  where
    at_rest :
        (rest : Text)
        → is_matched
            (flat (match_at (literal w)) (flat (λ t. t ∷ []) (step_char (λ d. d == c) rest s)))
          ≡ true
        → starts_with (c ∷ w) rest ≡ true
    at_rest [] e = cc
    at_rest (d ∷ rest) e = elim (Bool-cases (d == c)) [
      | inl t ↦
          let matched : is_matched (match_at (literal w) (advance d rest s) ++ []) ≡ true =
            rw t at e in
          let later = literal-begins w (advance d rest s) (
            ap is_matched (sym (append-nil (match_at (literal w) (advance d rest s)))) ∙ matched) in
          ground (arith, t, later)
      | inr f ↦ absurd (ground (arith, f, e))
    ]

abbrev is_found : Option Found → Bool
is_found none = false
is_found (some m) = true

unmatched : (ts : List Cursor) → is_matched ts ≡ false → ts ≡ []
unmatched [] h = refl
unmatched (t ∷ ts) h = cc

-- Where a pattern is found, one of its words is.
search-contains :
    (r : Regex) (words : List Text)
    → Finds r words
    → (before rest : Text) → is_found (search_from r before rest) ≡ true
    → contains_word words rest ≡ true
unfolding search_from contains_word
search-contains r words f before [] h =
    let s : Cursor = record { before = before; rest = []; groups = [] } in
    elim (Bool-cases (is_matched (match_at r s))) [
      | inl t ↦ f s t
      | inr n ↦ absurd (let found = rw (unmatched (match_at r s) n, search_from) at h in cc)
    ]
search-contains r words f before (c ∷ rest) h =
    let s : Cursor = record { before = before; rest = c ∷ rest; groups = [] } in
    elim (Bool-cases (is_matched (match_at r s))) [
      | inl t ↦ ap (λ b. b || contains_word words rest) (f s t)
      | inr n ↦
          let found = rw (unmatched (match_at r s) n, search_from) at h in
          ground (arith, search-contains r words f (c ∷ before) rest found)
    ]

pub found_in-contains :
    (r : Regex) (words : List Text)
    → Finds r words
    → (s : Text) → found_in r s ≡ true
    → contains_word words s ≡ true
unfolding found_in
found_in-contains r words f s h = search-contains r words f [] s (found (search r s) h)
  where
    found : (m : Option Found) → elim m [ none ↦ false | some _ ↦ true ] ≡ true → is_found m ≡ true
    found none e = e
    found (some m) e = refl

pub any-contains :
    (r : Regex) (words : List Text)
    → Finds r words
    → (lines : List Text) → any (found_in r) lines ≡ true
    → any (contains_word words) lines ≡ true
any-contains r words f [] h = h
any-contains r words f (line ∷ lines) h =
    ground (arith, h, found_in-contains r words f line, any-contains r words f lines)
