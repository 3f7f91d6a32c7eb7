-- ===== src/Build/Samples.antt =====
-- A project with a descriptor, for src/pqpatch/verifier/l3_build.py.
use nesy_pqpatch.Prelude.{◌≡◌, refl, Text, text, text_eq, starts_with, some, none, [], ◌∷◌}
use nesy_pqpatch.Model.{pass}
use nesy_pqpatch.Python.{ok}
use nesy_pqpatch.Rules.Spec.{RuleOutcome}
use nesy_pqpatch.Diff.Apply.{apply_unified_diff}
use nesy_pqpatch.Diff.Locate.{locate}
use nesy_pqpatch.Verify.Samples.{site, policy, patch}
use nesy_pqpatch.Conformance.{exited}
use nesy_pqpatch.Build.{
  Host, find_project_root, tests_outcome, build_from, build_patched, patched_text, apply_and_build,
  with_descriptor, project_build_and_test, build_at, check_build,
}
use nesy_pqpatch.Build.Tools.{
  Process, finished, run_result, load, required, is_ident, is_java, javac_timeout_s, max_root_walk,
  remove_from, scrub,
}
use nesy_pqpatch.Build.Decision.{Built, check_build-pass}

abbrev clean : Process
clean = record { returncode = exited 0; stdout = []; stderr = [] }

abbrev host : Host
host = record {
  parent = λ path. text "d";
  has_descriptor = λ dir. text_eq dir (text "d");
  fields_of = λ root. record {
    language = some (text "java");
    project = some (text "demo");
    source_dir = some (text "src");
    test_entrypoint = some (text "app.Tests");
    compile_timeout_s = none;
    test_timeout_s = some 5;
  };
  read_text = λ path. ok (text "a\nb");
  tmp = text "/tmp/x";
  sources = λ root dir. text "d/A.java" ∷ [];
  javac_project = λ root descriptor file patched. finished clean;
  java_tests = λ root descriptor file patched. finished clean;
  javac_file = λ file patched. finished clean;
}

scrubbed : scrub (text "/tmp/x/A.java in /tmp/x") (text "/tmp/x") ≡ text "A.java in "
unfolding scrub remove_from starts_with
scrubbed = refl

abbrev good : Text
good = text "@@ -1 +1 @@\n-a\n+c"

abbrev passed_outcome : RuleOutcome
passed_outcome = record { status = pass; detail = text "project build + tests passed (demo)" }

good_passes : check_build host (patch good) site policy ≡ ok passed_outcome
unfolding check_build find_project_root build_at project_build_and_test with_descriptor load
    required is_ident is_java javac_timeout_s max_root_walk apply_and_build patched_text
    build_patched build_from tests_outcome run_result apply_unified_diff text_eq locate
good_passes = refl

check_build-pass_example :
    Built host site.file_path good
      (find_project_root host max_root_walk (host.parent site.file_path))
check_build-pass_example =
    check_build-pass host (patch good) site policy passed_outcome good_passes refl
