-- ===== src/Detector/Classify.antt =====
-- src/pqpatch/detector/classify.py: the usage class of a match, from the lines behind it.
use nesy_pqpatch.Prelude.{
  ℕ, suc, ◌+◌, ◌-◌, Text, text, text_eq, starts_with, join, Bool, not, Option, none, some, List, [],
  ◌∷◌, ◌++◌, is_none, length, slice, ltb, if◌then◌else◌,
}
use nesy_pqpatch.Detector.Match.{RawMatch}
use nesy_pqpatch.Model.{UsageClass, sign, verify, kem, envelope}
use nesy_pqpatch.Python.{Result, ok, raised, value_error, repr}

abbrev pub default_window : ℕ
default_window = 20

-- "\n".join(source_lines[start:end])
unfoldable pub window : List Text → ℕ → ℕ → Text
unfolding join
window source_lines line size =
    let start = line - 1 in
    let end =
      if ltb (start + size) (length source_lines) then start + size else length source_lines in
    join (text "\n") (slice start end source_lines)

-- s.find(part), where the search is `i` characters in
unfoldable pub find_at : ℕ → Text → Text → Option ℕ
unfolding starts_with
find_at i part [] = if starts_with part [] then some i else none
find_at i part (c ∷ s) =
    let rest = find_at (suc i) part s in if starts_with part (c ∷ s) then some i else rest

abbrev pub find : Text → Text → Option ℕ
find part s = find_at 0 part s

-- verify_pos != -1 and (sign_pos == -1 or verify_pos < sign_pos)
unfoldable pub verify_first : Option ℕ → Option ℕ → Bool
verify_first none sign_pos = Bool.false
verify_first (some v) none = Bool.true
verify_first (some v) (some s) = ltb v s

unfoldable pub signature_class : Text → UsageClass
unfolding verify_first find_at
signature_class ctx =
    if verify_first (find (text "initVerify") ctx) (find (text "initSign") ctx)
    then verify
    else sign

unfoldable pub keypair_class : Text → UsageClass
unfolding find_at
keypair_class ctx = if not (is_none (find (text "KeyAgreement") ctx)) then kem else sign

-- _UNAMBIGUOUS
unfoldable pub unambiguous : Text → Option UsageClass
unfolding text_eq
unambiguous rule_id =
    if text_eq rule_id (text "pq-detect-cipher-envelope")
    then some envelope
    else if text_eq rule_id (text "pq-detect-keyagreement")
    then some kem
    else none

unfoldable pub classify_in : Text → Text → Result UsageClass
unfolding signature_class keypair_class text_eq
classify_in rule_id ctx =
    if text_eq rule_id (text "pq-detect-signature")
    then ok (signature_class ctx)
    else if text_eq rule_id (text "pq-detect-keypairgenerator")
    then ok (keypair_class ctx)
    else raised (value_error (text "no classification rule for detector rule id: " ++ repr rule_id))

unfoldable pub classify : RawMatch → List Text → ℕ → Result UsageClass
unfolding unambiguous classify_in window
classify m source_lines size = elim (unambiguous m.rule_id) [
  | some usage_class ↦ ok usage_class
  | none ↦ classify_in m.rule_id (window source_lines m.line size)
]
