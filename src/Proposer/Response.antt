-- ===== src/Proposer/Response.antt =====
-- src/pqpatch/proposer/response_format.py: the diff and the self-report of a raw response.
-- `json.loads` is a parameter.
pub mod Braces
pub mod Trailing
pub mod Parse
use nesy_pqpatch.Prelude.{
  ℕ, ◌+◌, ◌-◌, Text, text, text_eq, starts_with, is_space, drop_while, strip, splitlines, join,
  Bool, true, false, not, ◌&&◌, Option, none, some, List, [], ◌∷◌, ◌++◌, keep, any, length, take,
  ◌==◌, if◌then◌else◌, is_none,
}
use mathlib.Core.List.{reverse}
use nesy_pqpatch.Python.{Exception, value, Result, ok, raised, repr}

-- What `json.loads` gives: an object, with `str` of each value, or a value of another kind.
pub data Loaded : Type 0 where
  object : List (Text × Text) → Loaded
  not_object : Loaded

-- `none` stands for a JSONDecodeError.
abbrev pub Loads : Type 0
Loads = Text → Option Loaded

-- claim.get(key); of two entries with one key, `json.loads` keeps the later
unfoldable pub field : Text → List (Text × Text) → Option Text
field key [] = none
field key ((k, v) ∷ fields) =
    let rest = field key fields in
    elim rest [ some w ↦ some w | none ↦ if text_eq k key then some v else none ]

-- str(claim.get(key, ""))
unfoldable pub field_text : Text → List (Text × Text) → Text
unfolding field
field_text key fields = elim (field key fields) [ none ↦ [] | some v ↦ v ]

-- MalformedResponseError(message), which is a ValueError
unfoldable pub malformed : Text → Exception
malformed message = record {
  kind = value;
  message = message;
  repr = text "MalformedResponseError(" ++ (repr message ++ text ")");
}

pub record ParsedResponse : Type 0 where
  pub unified_diff : Text
  pub claimed_primitive : Text
  pub claimed_parameters : Text

unfoldable pub is_fence : Text → Bool
unfolding starts_with drop_while is_space
is_fence line = starts_with (text "```") (drop_while is_space line)

unfoldable pub strip_code_fences : Text → Text
unfolding splitlines is_fence join
strip_code_fences s = join (text "\n") (keep (λ line. not (is_fence line)) (splitlines s))

-- the depth behind a character, when the scan goes backward
unfoldable pub depth_behind : ℕ → ℕ → ℕ
depth_behind depth c = if c == b'}' then depth + 1 else if c == b'{' then depth - 1 else depth

-- The `for k` loop, on the text before a place from its last character on: the brace that opens the
-- object gives its text, and the text before it. `found` is what was passed.
unfoldable pub scan_object : ℕ → Text → Text → Option (Text × Text)
unfolding depth_behind
scan_object depth found [] = none
scan_object depth found (c ∷ before) =
    let rest = scan_object (depth_behind depth c) (c ∷ found) before in
    if c == b'{' && depth == 1 then some (c ∷ found, before) else rest

-- isinstance(obj, dict) and "primitive" in obj
unfoldable pub self_report : Option Loaded → Option (List (Text × Text))
unfolding field
self_report none = none
self_report (some not_object) = none
self_report (some (object fields)) =
    if is_none (field (text "primitive") fields) then none else some fields

unfoldable pub report_in : Loads → Option (Text × Text) → Option (ℕ × List (Text × Text))
unfolding self_report
report_in loads none = none
report_in loads (some (obj, before)) = elim (self_report (loads obj)) [
  | none ↦ none
  | some fields ↦ some (length before, fields)
]

-- The `while` loop, on the reversed text: each `}`, from the last on, is tried as the object's end.
unfoldable pub trailing_from : Loads → Text → Option (ℕ × List (Text × Text))
unfolding report_in scan_object
trailing_from loads [] = none
trailing_from loads (c ∷ before) =
    let rest = trailing_from loads before in
    if c == b'}'
    then elim (report_in loads (scan_object 0 [] (c ∷ before))) [
      | none ↦ rest
      | some report ↦ some report
    ]
    else rest

unfoldable pub find_trailing_self_report : Loads → Text → Option (ℕ × List (Text × Text))
unfolding trailing_from
find_trailing_self_report loads s = trailing_from loads (reverse s)

unfoldable pub with_diff : Text → List (Text × Text) → Result ParsedResponse
unfolding malformed field_text
with_diff [] claim = raised (malformed (text "no diff content before the JSON self-report line"))
with_diff (c ∷ diff) claim = ok (record {
  unified_diff = c ∷ diff;
  claimed_primitive = field_text (text "primitive") claim;
  claimed_parameters = field_text (text "parameters") claim;
})

unfoldable pub with_report : Text → Option (ℕ × List (Text × Text)) → Result ParsedResponse
unfolding malformed with_diff strip
with_report s none =
    raised (malformed (text "no trailing JSON self-report object with a 'primitive' field found"))
with_report s (some (start, claim)) = with_diff (strip (take start s)) claim

unfoldable pub with_text : Loads → Text → Result ParsedResponse
unfolding malformed with_report find_trailing_self_report
with_text loads [] = raised (malformed (text "empty response"))
with_text loads (c ∷ s) = with_report (c ∷ s) (find_trailing_self_report loads (c ∷ s))

unfoldable pub parse_response : Loads → Text → Result ParsedResponse
unfolding with_text strip_code_fences strip
parse_response loads raw_text = with_text loads (strip (strip_code_fences raw_text))
