-- ===== src/Conformance.antt =====
-- src/pqpatch/verifier/l4_conformance/roundtrip.py: the round trip of every post-quantum algorithm
-- name that a patch introduces. The JDK is a parameter: whether its programs are there, how the
-- compilation of the driver ends, and how a run of the driver on a name ends.
pub mod Literals
pub mod Decision
pub mod Samples
use nesy_pqpatch.Prelude.{
  ℕ, Text, text, text_eq, strip, drop, length, ◌-◌, ◌==◌, join, Bool, false, not, ◌&&◌, Option,
  none, some, List, [], ◌∷◌, ◌++◌, any, if◌then◌else◌,
}
use nesy_pqpatch.Model.{pass, fail, RuleStatus}
use nesy_pqpatch.Python.{◌>>=◌, Result, ok, raised, not_implemented_error, repr}
use nesy_pqpatch.Regex.{
  Regex, Found, group, lit, ◌·◌, ◌or◌, spaces, some_of, none_of, found_in, find_all, group_of,
}
use nesy_pqpatch.Rules.Spec.{RuleOutcome, CheckFn}
use nesy_pqpatch.Diff.Lines.{added_lines}
use nesy_pqpatch.L1.Families.{repr_all}

-- r'getInstance\(\s*"([^"]+)"'
unfoldable pub getinstance_literal : Regex
getinstance_literal =
    lit "getInstance(" · spaces · lit "\"" · group 1 (some_of (none_of "\"")) · lit "\""

unfoldable pub pq_family : Regex
pq_family = lit "ML-KEM" or lit "ML-DSA" or lit "SLH-DSA"

abbrev pub contains : Text → List Text → Bool
contains literal = any (text_eq literal)

-- the names of one line, after those seen so far
unfoldable pub literals_of_line : List Text → List Found → List Text
literals_of_line seen [] = seen
literals_of_line seen (m ∷ ms) =
    let literal = group_of 1 m in
    literals_of_line
      (if found_in pq_family literal && not (contains literal seen)
        then seen ++ literal ∷ []
        else seen)
      ms

unfoldable pub literals_from : List Text → List Text → List Text
literals_from seen [] = seen
literals_from seen (line ∷ lines) =
    literals_from (literals_of_line seen (find_all getinstance_literal line)) lines

unfoldable pub pq_literals : Text → List Text
pq_literals unified_diff = literals_from [] (added_lines unified_diff)

unfoldable pub family : Text → Text
family literal = if found_in (lit "ML-KEM") literal then text "kem" else text "sig"

-- The return code of a process: a number, or the negative number of the signal that ended it.
pub data ReturnCode : Type 0 where
  exited signalled : ℕ → ReturnCode

abbrev pub is_code : ℕ → ReturnCode → Bool
is_code n (exited m) = m == n
is_code n (signalled m) = false

-- What a finished process leaves.
pub record Completed : Type 0 where
  pub returncode : ReturnCode
  pub stderr : Text

-- s[-n:]
abbrev pub last_chars : ℕ → Text → Text
last_chars n s = drop (length s - n) s

-- settings.l4_java_home, and what stands there
pub record Runtime : Type 0 where
  pub java_home : Option Text
  -- bin/java and bin/javac both exist
  pub has_tools : Text → Bool
  -- None, or str(exc) of a RuntimeError or of a timeout
  pub compile_driver : Text → Option Text
  -- the driver on a family and a name, which may raise on a timeout
  pub run_driver : Text → Text → Text → Result Completed

abbrev outcome : RuleStatus → Text → Result RuleOutcome
outcome status detail = ok (record { status = status; detail = detail })

-- what the return code of a run says, where the run is the last word
unfoldable pub driver_failure : Text → Completed → Option RuleOutcome
driver_failure literal proc =
    let stderr = last_chars 300 (strip proc.stderr) in
    if is_code 3 proc.returncode
    then some (record {
      status = RuleStatus.error;
      detail = text "runtime cannot decide " ++ (repr literal ++ (text ": " ++ stderr));
    })
    else if is_code 2 proc.returncode
    then some (record {
      status = fail;
      detail =
          text "algorithm literal "
          ++ (repr literal
              ++ (text " resolves to no provider on the conformance runtime: " ++ stderr));
    })
    else if not (is_code 0 proc.returncode)
    then some (record {
      status = fail;
      detail = text "round-trip failed for " ++ (repr literal ++ (text ": " ++ stderr));
    })
    else none

module _ (runtime : Runtime) where
  -- the loop over the names; `all_literals` are for the last message
  unfoldable pub round_trips : Text → List Text → List Text → Result RuleOutcome
  round_trips java_home all_literals [] = outcome pass (
      text "round-trip ok for ["
      ++ (join (text ", ") (repr_all all_literals)
          ++ text "] (sign/verify+tamper or encaps/decaps; ACVP/interop deferred)"))
  round_trips java_home all_literals (literal ∷ literals) = do
    proc ← runtime.run_driver java_home (family literal) literal
    elim (driver_failure literal proc) [
      | none ↦ round_trips java_home all_literals literals
      | some found ↦ ok found
    ]

  unfoldable pub exercise : Text → List Text → Result RuleOutcome
  exercise java_home [] = outcome pass (
      text
        "no PQ algorithm literal introduced at a getInstance site; round-trip has nothing to exercise (ACVP/interop deferred)")
  exercise java_home (literal ∷ literals) = elim (runtime.compile_driver java_home) [
    | some exc ↦ outcome RuleStatus.error exc
    | none ↦ round_trips java_home (literal ∷ literals) (literal ∷ literals)
  ]

  unfoldable pub check_round_trip : CheckFn
  check_round_trip patch site policy = elim runtime.java_home [
    | none ↦ raised (
        not_implemented_error (
          text
            "L4 round-trip pends a PQC-capable runtime: set PQPATCH_L4_JAVA_HOME to a JDK >= 24 home (ML-KEM/ML-DSA). ACVP vectors and interop remain future work regardless."))
    | some java_home ↦
        if not (runtime.has_tools java_home)
        then outcome RuleStatus.error
            (text "PQPATCH_L4_JAVA_HOME=" ++ (java_home ++ text " has no bin/java + bin/javac"))
        else exercise java_home (pq_literals patch.unified_diff)
  ]
