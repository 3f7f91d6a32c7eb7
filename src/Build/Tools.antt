-- ===== src/Build/Tools.antt =====
-- The descriptor of a project, how a tool ends, and the cleaning of its output, in
-- src/pqpatch/verifier/l3_build.py.
use nesy_pqpatch.Prelude.{
  ℕ, zero, suc, Text, text, text_eq, length, drop, starts_with, ◌++◌, Bool, true, false, not, ◌&&◌,
  Option, none, some, [], ◌∷◌, if◌then◌else◌, ◌==◌, ◌||◌,
}
use nesy_pqpatch.Python.{◌>>=◌, key, Result, ok, raised, value_error, decimal, repr}
use nesy_pqpatch.Regex.{is_letter, is_digit}
use nesy_pqpatch.Conformance.{ReturnCode, exited, signalled}

-- What a finished process leaves.
pub record Process : Type 0 where
  pub returncode : ReturnCode
  pub stdout : Text
  pub stderr : Text

-- How subprocess.run ends: FileNotFoundError, TimeoutExpired, or a process.
pub data Spawned : Type 0 where
  no_tool timed_out : Spawned
  finished : Process → Spawned

-- None iff the tool is absent; a timeout is a process that fails with the code 124.
unfoldable pub run_result : Spawned → Option Process
run_result no_tool = none
run_result timed_out =
    some (record { returncode = exited 124; stdout = []; stderr = text "timed out" })
run_result (finished proc) = some proc

unfoldable pub code_text : ReturnCode → Text
code_text (exited n) = decimal n
code_text (signalled n) = text "-" ++ decimal n

-- build.yaml as yaml.safe_load reads it
pub record Fields : Type 0 where
  pub language : Option Text
  pub project : Option Text
  pub source_dir : Option Text
  pub test_entrypoint : Option Text
  pub compile_timeout_s : Option ℕ
  pub test_timeout_s : Option ℕ

pub record BuildDescriptor : Type 0 where
  pub project : Text
  pub language : Text
  pub source_dir : Text
  pub test_entrypoint : Text
  pub compile_timeout_s : ℕ
  pub test_timeout_s : ℕ

unfoldable pub javac_timeout_s : ℕ
javac_timeout_s = 30

unfoldable pub max_root_walk : ℕ
max_root_walk = 6

-- r"^[A-Za-z_][A-Za-z0-9_.]*$"; `$` also holds before a newline at the end
unfoldable pub is_ident : Text → Bool
is_ident [] = false
is_ident (c ∷ s) = (is_letter c || c == 95) && rest_of_ident s
  where
    rest_of_ident : Text → Bool
    rest_of_ident [] = true
    rest_of_ident (d ∷ []) = is_letter d || is_digit d || d == 95 || d == 46 || d == 10
    rest_of_ident (d ∷ e ∷ t) =
        (is_letter d || is_digit d || d == 95 || d == 46) && rest_of_ident (e ∷ t)

-- data[name], where a name that is missing raises
unfoldable pub required : Text → Option Text → Result Text
required name none =
    raised (record {
      kind = key;
      message = repr name;
      repr = text "KeyError(" ++ (repr name ++ text ")");
    })
required name (some s) = ok s

abbrev or_default : ℕ → Option ℕ → ℕ
or_default n none = n
or_default n (some m) = m

-- repr of a value that may be missing
abbrev repr_option : Option Text → Text
repr_option none = text "None"
repr_option (some s) = repr s

unfoldable pub is_java : Option Text → Bool
is_java none = false
is_java (some s) = text_eq s (text "java")

unfoldable pub load : Text → Fields → Result BuildDescriptor
load path fields =
    if not (is_java fields.language)
    then raised (
        value_error (
          path
          ++ (text ": only language 'java' is supported today; got "
              ++ repr_option fields.language)))
    else do
      entry ← required (text "test_entrypoint") fields.test_entrypoint
      elim (is_ident entry) [
        | false ↦ raised (
            value_error (
              path
              ++ (text ": test_entrypoint "
                  ++ (repr entry ++ text " is not a plain Java class name"))))
        | true ↦ do
          project ← required (text "project") fields.project
          source_dir ← required (text "source_dir") fields.source_dir
          ok (record {
            project = project;
            language = text "java";
            source_dir = source_dir;
            test_entrypoint = entry;
            compile_timeout_s = or_default javac_timeout_s fields.compile_timeout_s;
            test_timeout_s = or_default javac_timeout_s fields.test_timeout_s;
          })
      ]

-- s.replace(old, "") for an `old` that is not empty; the length of `s` is fuel enough
unfoldable pub remove_from : ℕ → Text → Text → Text
remove_from zero old s = s
remove_from (suc fuel) old [] = []
remove_from (suc fuel) old (c ∷ s) = elim (starts_with old (c ∷ s)) [
  | true ↦ remove_from fuel old (drop (length old) (c ∷ s))
  | false ↦ c ∷ remove_from fuel old s
]

abbrev pub remove_all : Text → Text → Text
remove_all old s = remove_from (length s) old s

unfoldable pub scrub : Text → Text → Text
scrub s tmp = remove_all tmp (remove_all (tmp ++ text "/") s)
