-- ===== src/Proposer/Response/Parse.antt =====
-- What src/pqpatch/proposer/response_format.py takes from a raw response, and when it refuses one.
use nesy_pqpatch.Prelude.{
  ℕ, ◌≡◌, ◌≢◌, refl, ap, sym, ◌∙◌, subst, Text, text, strip, true, Option, none, some, List, [],
  ◌∷◌, ◌++◌, length, take, take-append, arith, Option-cases, inl, inr,
}
use nesy_pqpatch.Python.{ok}
use nesy_pqpatch.Proposer.Response.{
  Loaded, object, not_object, Loads, field, field_text, ParsedResponse, strip_code_fences,
  self_report, find_trailing_self_report, with_diff, with_report, with_text, parse_response,
}
use nesy_pqpatch.Proposer.Response.Braces.{Balanced, braces}
use nesy_pqpatch.Proposer.Response.Trailing.{is_open, find_trailing-braces, find_trailing-StandsAt}

-- The response without its code fences, and without the blanks around it.
abbrev pub content : Text → Text
content raw_text = strip (strip_code_fences raw_text)

abbrev pub response_with : Text → List (Text × Text) → ParsedResponse
response_with diff fields = record {
  unified_diff = diff;
  claimed_primitive = field_text (text "primitive") fields;
  claimed_parameters = field_text (text "parameters") fields;
}

self_report-object :
    (o : Option Loaded) (fields : List (Text × Text)) (v : Text)
    → o ≡ some (object fields)
    → field (text "primitive") fields ≡ some v
    → self_report o ≡ some fields
unfolding self_report
self_report-object o fields v e f = rw (e, self_report, f) refl

self_report-some :
    (o : Option Loaded) (fields : List (Text × Text))
    → self_report o ≡ some fields
    → (v : Text) × (o ≡ some (object fields)) × (field (text "primitive") fields ≡ some v)
unfolding self_report
self_report-some none fields h = cc
self_report-some (some not_object) fields h = cc
self_report-some (some (object gs)) fields h = elim (Option-cases (field (text "primitive") gs)) [
  | inl n ↦ absurd (ground (arith, n, h))
  | inr (v, e) ↦
      let same : gs ≡ fields = ground (arith, e, h) in
      (v, ap (λ x. some (object x)) same, ap (field (text "primitive")) (sym same) ∙ e)
]

with_diff-ok :
    (diff : Text) (fields : List (Text × Text))
    → diff ≢ []
    → with_diff diff fields ≡ ok (response_with diff fields)
unfolding with_diff
with_diff-ok [] fields n = absurd (n refl)
with_diff-ok (c ∷ diff) fields n = refl

with_diff-returns :
    (diff : Text) (fields : List (Text × Text)) (parsed : ParsedResponse)
    → with_diff diff fields ≡ ok parsed
    → (diff ≢ []) × (parsed ≡ response_with diff fields)
unfolding with_diff
with_diff-returns [] fields parsed h = cc
with_diff-returns (c ∷ diff) fields parsed h = ((λ e. cc), cc)

with_text-report :
    (loads : Loads) (s : Text) (o : Option (ℕ × List (Text × Text)))
    → s ≢ []
    → find_trailing_self_report loads s ≡ o
    → with_text loads s ≡ with_report s o
unfolding with_text
with_text-report loads [] o n h = absurd (n refl)
with_text-report loads (c ∷ s) o n h = ap (with_report (c ∷ s)) h

append-ne : (s t : Text) → t ≢ [] → s ++ t ≢ []
append-ne [] t n e = n e
append-ne (c ∷ s) t n e = cc

-- A response whose content is a text that is not blank, a JSON object with the field "primitive"
-- whose braces match, and a text with no closing brace, is parsed: the diff is the first text, with
-- the blanks around it off, and the claims are what the object says.
pub parse_response-braces :
    (loads : Loads) (raw_text diff body tail : Text) (fields : List (Text × Text)) (v : Text)
    → content raw_text ≡ diff ++ (braces body ++ tail)
    → Balanced body
    → is_open tail ≡ true
    → loads (braces body) ≡ some (object fields)
    → field (text "primitive") fields ≡ some v
    → strip diff ≢ []
    → parse_response loads raw_text ≡ ok (response_with (strip diff) fields)
unfolding parse_response with_report
parse_response-braces loads raw_text diff body tail fields v e b t l f n =
    let s = diff ++ (braces body ++ tail) in
    let found =
      find_trailing-braces loads diff body tail fields b t
        (self_report-object (loads (braces body)) fields v l f) in
    ap (with_text loads) e
    ∙ with_text-report loads s (some (length diff, fields))
        (append-ne diff (braces body ++ tail) (λ x. cc)) found
    ∙ ap (λ d. with_diff (strip d) fields) (take-append diff (braces body ++ tail))
    ∙ with_diff-ok (strip diff) fields n

-- What a parsed response says: the content of the raw one is a diff, an object that `json.loads`
-- reads and that has the field "primitive", and a rest.
pub record Says (loads : Loads) (raw_text : Text) (parsed : ParsedResponse) : Type 0 where
  pub diff : Text
  pub obj : Text
  pub tail : Text
  pub fields : List (Text × Text)
  pub claim : Text
  pub parts : content raw_text ≡ diff ++ (obj ++ tail)
  pub loaded : loads obj ≡ some (object fields)
  pub claims : field (text "primitive") fields ≡ some claim
  pub not_blank : strip diff ≢ []
  pub is_parsed : parsed ≡ response_with (strip diff) fields

module _ (loads : Loads) where
  with_report-Says :
      (raw_text : Text) (o : Option (ℕ × List (Text × Text))) (parsed : ParsedResponse)
      → find_trailing_self_report loads (content raw_text) ≡ o
      → with_report (content raw_text) o ≡ ok parsed
      → Says loads raw_text parsed
  unfolding with_report
  with_report-Says raw_text none parsed e h = cc
  with_report-Says raw_text (some (start, fields)) parsed e h =
      let at = find_trailing-StandsAt loads (content raw_text) start fields e in
      let (claim, loaded, claims) = self_report-some (loads at.obj) fields at.loaded in
      let cut : take start (content raw_text) ≡ at.diff =
        ap (λ n. take n (content raw_text)) at.offset
        ∙ ap (take (length at.diff)) at.parts
        ∙ take-append at.diff (at.obj ++ at.tail) in
      let (n, same) = with_diff-returns (strip (take start (content raw_text))) fields parsed h in
      record {
        diff = at.diff;
        obj = at.obj;
        tail = at.tail;
        fields = fields;
        claim = claim;
        parts = at.parts;
        loaded = loaded;
        claims = claims;
        not_blank = subst (λ d. strip d ≢ []) cut n;
        is_parsed = same ∙ ap (λ d. response_with (strip d) fields) cut;
      }

  with_text-Says :
      (raw_text s : Text) (parsed : ParsedResponse)
      → content raw_text ≡ s
      → with_text loads s ≡ ok parsed
      → Says loads raw_text parsed
  unfolding with_text
  with_text-Says raw_text [] parsed e h = cc
  with_text-Says raw_text (c ∷ s) parsed e h =
      with_report-Says raw_text (find_trailing_self_report loads (c ∷ s)) parsed
        (ap (find_trailing_self_report loads) e)
        (ap (λ x. with_report x (find_trailing_self_report loads (c ∷ s))) e ∙ h)

  -- A response that is parsed has a self-report: behind a text that is not blank, which is the diff
  -- with the blanks around it off, its content has an object that `json.loads` reads and that has
  -- the field "primitive", from which the claims are.
  pub parse_response-Says :
      (raw_text : Text) (parsed : ParsedResponse)
      → parse_response loads raw_text ≡ ok parsed
      → Says loads raw_text parsed
  unfolding parse_response
  parse_response-Says raw_text parsed h = with_text-Says raw_text (content raw_text) parsed refl h
