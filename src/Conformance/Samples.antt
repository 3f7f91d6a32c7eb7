-- ===== src/Conformance/Samples.antt =====
-- The round trip of src/pqpatch/verifier/l4_conformance/roundtrip.py on a runtime that knows one
-- name.
use nesy_pqpatch.Prelude.{
  ◌≡◌, refl, Text, text, text_eq, is_space, join, strip, true, ◌&&◌, none, some, [], ◌∷◌, All,
  if◌then◌else◌,
}
use nesy_pqpatch.Model.{pass, fail}
use nesy_pqpatch.Python.{ok, repr}
use nesy_pqpatch.L1.Families.{repr_all}
use nesy_pqpatch.Regex.{found_in, find_all, group_of}
use nesy_pqpatch.Rules.Spec.{RuleOutcome}
use nesy_pqpatch.Diff.Lines.{added_lines}
use nesy_pqpatch.Verify.Samples.{site, policy, patch}
use nesy_pqpatch.Conformance.{
  exited, Runtime, contains, pq_family, pq_literals, getinstance_literal, literals_from,
  literals_of_line, check_round_trip, exercise, round_trips, driver_failure,
}
use nesy_pqpatch.Conformance.Literals.{named, contains-pq_literals}
use nesy_pqpatch.Conformance.Decision.{RoundTrips, check_round_trip-pass}

abbrev runtime : Runtime
runtime = record {
  java_home = some (text "/jdk");
  has_tools = λ home. true;
  compile_driver = λ home. none;
  run_driver = λ home family literal. ok (record {
    returncode = exited (if text_eq literal (text "ML-KEM-768") then 0 else 2);
    stderr = text "x";
  });
}

abbrev good : Text
good = text "+KEM.getInstance( \"ML-KEM-768\")\n+KEM.getInstance(\"RSA\")"

abbrev bad : Text
bad = text "+KEM.getInstance(\"ML-KEM-2\")"

unfoldable program : Unit {0}
unfolding pq_literals literals_from literals_of_line getinstance_literal pq_family check_round_trip
    exercise round_trips driver_failure found_in find_all group_of added_lines text_eq is_space join
    repr_all repr strip
program = tt

good_literals : pq_literals good ≡ text "ML-KEM-768" ∷ []
unfolding program
good_literals = refl

abbrev passed_outcome : RuleOutcome
passed_outcome = record {
  status = pass;
  detail =
      text
        "round-trip ok for ['ML-KEM-768'] (sign/verify+tamper or encaps/decaps; ACVP/interop deferred)";
}

abbrev failed_outcome : RuleOutcome
failed_outcome = record {
  status = fail;
  detail =
      text "algorithm literal 'ML-KEM-2' resolves to no provider on the conformance runtime: x";
}

good_passes : check_round_trip runtime (patch good) site policy ≡ ok passed_outcome
unfolding program
good_passes = refl

bad_fails : check_round_trip runtime (patch bad) site policy ≡ ok failed_outcome
unfolding program
bad_fails = refl

contains-pq_literals_example :
    contains (text "ML-KEM-768") (pq_literals good)
    ≡ (found_in pq_family (text "ML-KEM-768") && named (text "ML-KEM-768") (added_lines good))
contains-pq_literals_example = contains-pq_literals good (text "ML-KEM-768")

check_round_trip-pass_example :
    (java_home : Text) × (runtime.java_home ≡ some java_home)
    × (runtime.has_tools java_home ≡ true)
    × All (RoundTrips runtime java_home) (pq_literals good)
check_round_trip-pass_example =
    check_round_trip-pass runtime (patch good) site policy passed_outcome good_passes refl
