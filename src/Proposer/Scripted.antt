-- ===== src/Proposer/Scripted.antt =====
-- src/pqpatch/proposer/replay_backend.py: the backend that answers from a script, a dictionary from
-- a site and an attempt to a response.
use nesy_pqpatch.Prelude.{
  ℕ, suc, ◌≡◌, refl, Text, text, text_eq, is_space, Bool, true, false, ◌&&◌, Option, none, some,
  List, [], ◌∷◌, ◌++◌, take, ◌==◌, if◌then◌else◌,
}
use nesy_pqpatch.Python.{Exception, other, Result, ok, raised, repr, decimal}
use nesy_pqpatch.Trace.Dumps.{Json}
use nesy_pqpatch.Proposer.Backend.{Backend}

abbrev pub Script : Type 0
Script = List ((Text × ℕ) × Text)

-- script[(site_id, attempt)]
unfoldable pub scripted : Text → ℕ → Script → Option Text
unfolding text_eq
scripted site_id attempt [] = none
scripted site_id attempt (((s, a), response) ∷ script) =
    if text_eq s site_id && a == attempt then some response else scripted site_id attempt script

-- len(s.split()), where `in_word` says that the character before is of a word
unfoldable pub words_from : Bool → Text → ℕ
unfolding is_space
words_from in_word [] = 0
words_from in_word (c ∷ s) =
    let rest = words_from (if is_space c then false else true) s in
    if is_space c then rest else if in_word then rest else suc rest

-- ScriptExhaustedError(message)
unfoldable pub exhausted : Text → Text → ℕ → Exception
exhausted prompt site_id attempt =
    let message =
      text "ReplayBackend has no scripted response for site_id="
      ++ (repr site_id
          ++ (text ", attempt="
              ++ (decimal attempt
                  ++ (text ". Prompt was:\n" ++ (take 200 prompt ++ text "..."))))) in
    record {
      kind = other;
      message = message;
      repr = text "ScriptExhaustedError(" ++ (repr message ++ text ")");
    }

unfoldable pub generate_scripted : Script → Text → ℕ → Text → ℕ → Result (Text × ℕ)
unfolding scripted words_from exhausted
generate_scripted script prompt seed site_id attempt = elim (scripted site_id attempt script) [
  | none ↦ raised (exhausted prompt site_id attempt)
  | some response ↦ ok (response, words_from false response)
]

unfoldable pub replay_backend : Json → Script → Backend
unfolding generate_scripted
replay_backend request_spec script = record {
  backend_id = text "replay";
  model_version = text "replay-v1";
  request_spec = request_spec;
  generate_raw = generate_scripted script;
}

two_words : words_from false (text " ab  c\n") ≡ 2
unfolding words_from
two_words = refl
