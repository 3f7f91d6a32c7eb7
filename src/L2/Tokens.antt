-- ===== src/L2/Tokens.antt =====
-- PQ-PARAM-02 in src/pqpatch/verifier/l2_dataflow/java_flow.py: the parameter tokens that reach the
-- argument of a getInstance call.
pub mod Reach
use nesy_pqpatch.Prelude.{
  ℕ, Text, text, Bool, true, false, Option, none, some, List, [], ◌∷◌, ◌++◌, map, if◌then◌else◌,
}
use nesy_pqpatch.Prelude.Utf8.{utf8_encode}
use nesy_pqpatch.Regex.{Regex, lit, ◌·◌, ◌or◌, repeat, digit, find_all, whole}
use nesy_pqpatch.L2.Sets.{update, get, set, pop, sorted}
use nesy_pqpatch.L2.Java.{
  Kind, string_literal, arguments_field, Place, kind_at, start_at, walk, walk_method, methods,
  child_by_field_name,
}
use nesy_pqpatch.L2.Expressions.{
  text_of, identifier_names, simple_identifier, named_assignment, invokes,
}
use nesy_pqpatch.L2.VerifyUse.{Parser}

pub data TokenStep : Type 0 where
  assign : (left : Text) (tokens : List Text) (alias : Option Text) → TokenStep
  sink : (tokens : List Text) (used_names : List Text) → TokenStep

pub record TimedStep : Type 0 where
  pub position : ℕ
  pub step : TokenStep

-- r"ML-(?:KEM|DSA)-\d{2,4}"
unfoldable pub param_token_re : Regex
param_token_re = lit "ML-" · (lit "KEM" or lit "DSA") · lit "-" · repeat 2 2 digit

abbrev pub is_string_literal : Kind → Bool
is_string_literal string_literal = true
is_string_literal _ = false

module _ (source : List ℕ) where
  -- the tokens of the string literals among some nodes
  unfoldable pub literal_tokens : List Place → List Text
  literal_tokens [] = []
  literal_tokens (p ∷ ps) =
      let rest = literal_tokens ps in
      if is_string_literal (kind_at p)
      then map whole (find_all param_token_re (text_of source (some p))) ++ rest
      else rest

  unfoldable pub tokens_in : Option Place → List Text
  tokens_in none = []
  tokens_in (some p) = update [] (literal_tokens (walk p))

  unfoldable pub token_step : Place → Option TokenStep
  token_step p = elim (named_assignment source p) [
    | some (left, rhs) ↦ some (assign left (tokens_in rhs) (simple_identifier source rhs))
    | none ↦
        if invokes source (text "getInstance") p
        then some (
            sink (tokens_in (child_by_field_name arguments_field p))
              (identifier_names source (child_by_field_name arguments_field p)))
        else none
  ]

  unfoldable pub timed_steps : List Place → List TimedStep
  timed_steps [] = []
  timed_steps (p ∷ ps) = elim (token_step p) [
    | none ↦ timed_steps ps
    | some s ↦ record { position = start_at p; step = s } ∷ timed_steps ps
  ]

  unfoldable pub token_steps : Place → List TokenStep
  token_steps method =
      map (λ t. t.step) (sorted (λ t. t.position) (timed_steps (walk_method method)))

-- The tokens that each variable may hold.
abbrev pub Taint : Type 0
Taint = List (Text × List Text)

abbrev pub tokens_of : Text → Taint → List Text
tokens_of x taint = elim (get x taint) [ none ↦ [] | some ts ↦ ts ]

unfoldable pub tokens_of_all : List Text → Taint → List Text
tokens_of_all [] taint = []
tokens_of_all (x ∷ xs) taint = tokens_of x taint ++ tokens_of_all xs taint

-- what an assignment without a token of its own gives to its variable
unfoldable pub alias_tokens : Option Text → Taint → Option (List Text)
alias_tokens none taint = none
alias_tokens (some x) taint = get x taint

unfoldable pub assigned_tokens : List Text → Option Text → Taint → Option (List Text)
assigned_tokens [] alias taint = alias_tokens alias taint
assigned_tokens (t ∷ ts) alias taint = some (t ∷ ts)

unfoldable pub retaint : Text → Option (List Text) → Taint → Taint
retaint left none taint = pop left taint
retaint left (some ts) taint = set left ts taint

unfoldable pub token_flow : List Text → Taint → List TokenStep → List Text
token_flow reaching taint [] = reaching
token_flow reaching taint (sink tokens used_names ∷ steps) =
    token_flow (update (update reaching tokens) (tokens_of_all used_names taint)) taint steps
token_flow reaching taint (assign left tokens alias ∷ steps) =
    token_flow reaching (retaint left (assigned_tokens tokens alias taint) taint) steps

unfoldable pub collect_getinstance_tokens : List ℕ → Place → List Text
collect_getinstance_tokens source method = token_flow [] [] (token_steps source method)

unfoldable pub tokens_of_methods : List ℕ → List Text → List Place → List Text
tokens_of_methods source reaching [] = reaching
tokens_of_methods source reaching (m ∷ ms) =
    tokens_of_methods source (update reaching (collect_getinstance_tokens source m)) ms

unfoldable pub algorithm_tokens_reaching_getinstance : Parser → Text → Option (List Text)
algorithm_tokens_reaching_getinstance parse source =
    let bytes = utf8_encode source in
    let tree = parse bytes in
    if tree.has_error then none else some (tokens_of_methods bytes [] (methods tree.root))
