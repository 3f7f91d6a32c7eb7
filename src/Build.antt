-- ===== src/Build.antt =====
-- src/pqpatch/verifier/l3_build.py: the build and the tests of a patched project. The files, the
-- parsed descriptor and the tools are parameters.
pub mod Tools
pub mod Decision
pub mod Samples
use nesy_pqpatch.Prelude.{
  ℕ, zero, suc, Text, text, text_eq, length, drop, starts_with, ◌++◌, Bool, true, false, not, ◌&&◌,
  Option, none, some, List, [], ◌∷◌, if◌then◌else◌, ◌==◌, ◌||◌,
}
use nesy_pqpatch.Model.{pass, fail, RuleStatus, Patch}
use nesy_pqpatch.Python.{
  ◌>>=◌, ExceptionKind, file_not_found, value, key, diff_apply, Exception, Result, ok, raised,
  value_error, decimal, repr,
}
use nesy_pqpatch.Regex.{is_letter, is_digit}
use nesy_pqpatch.Rules.Spec.{RuleOutcome, CheckFn}
use nesy_pqpatch.Diff.Apply.{apply_unified_diff}
use nesy_pqpatch.Conformance.{ReturnCode, exited, signalled, is_code, last_chars}
use Tools.{
  Process, Spawned, run_result, code_text, Fields, BuildDescriptor, max_root_walk, load, scrub,
}

-- The file system and the tools.
pub record Host : Type 0 where
  pub parent : Text → Text
  -- whether a directory holds build.yaml
  pub has_descriptor : Text → Bool
  -- build.yaml of a directory, parsed
  pub fields_of : Text → Fields
  pub read_text : Text → Result Text
  -- the temporary directory of this call
  pub tmp : Text
  -- the Java sources under a directory of the copied project
  pub sources : Text → Text → List Text
  -- javac on the project, with the file at a path replaced by a text
  pub javac_project : Text → BuildDescriptor → Text → Text → Spawned
  -- java on the test entry point of what javac left
  pub java_tests : Text → BuildDescriptor → Text → Text → Spawned
  -- javac on one file that holds a text
  pub javac_file : Text → Text → Spawned

abbrev outcome : RuleStatus → Text → Result RuleOutcome
outcome status detail = ok (record { status = status; detail = detail })

unfoldable pub find_project_root : Host → ℕ → Text → Option Text
find_project_root host zero current = none
find_project_root host (suc steps) current =
    let above = find_project_root host steps (host.parent current) in
    if host.has_descriptor current
    then some current
    else if text_eq (host.parent current) current
    then none
    else above

-- the exceptions that `_project_build_and_test` turns into a FAIL around the application
abbrev applies_badly : ExceptionKind → Bool
applies_badly diff_apply = true
applies_badly file_not_found = true
applies_badly value = true
applies_badly _ = false

abbrev not_clean : Exception → Text
not_clean exc = text "patch does not apply cleanly: " ++ exc.message

module _ (host : Host) where
  unfoldable pub tests_outcome : BuildDescriptor → Option Process → RuleOutcome
  tests_outcome descriptor none = record {
    status = RuleStatus.error;
    detail = text "java not found on PATH";
  }
  tests_outcome descriptor (some tested) =
      if is_code 0 tested.returncode
      then record {
        status = pass;
        detail = text "project build + tests passed (" ++ (descriptor.project ++ text ")");
      }
      else record {
        status = fail;
        detail =
            text "project tests failed ("
            ++ (descriptor.test_entrypoint
                ++ (text " exit "
                    ++ (code_text tested.returncode
                        ++ (text "):\n"
                            ++ last_chars 1000
                                (scrub (tested.stdout ++ tested.stderr) host.tmp)))));
      }

  unfoldable pub compile_failed : Process → RuleOutcome
  compile_failed compiled = record {
    status = fail;
    detail =
        text "project build failed (javac exit "
        ++ (code_text compiled.returncode
            ++ (text "):\n" ++ last_chars 1000 (scrub compiled.stderr host.tmp)));
  }

  -- from the patched file on: the sources, and how javac and java end
  unfoldable pub build_from :
      BuildDescriptor → List Text → Option Process → Option Process → RuleOutcome
  build_from descriptor [] compiled tested = record {
    status = RuleStatus.error;
    detail = text "no Java sources under " ++ descriptor.source_dir;
  }
  build_from descriptor (_ ∷ _) none tested = record {
    status = RuleStatus.error;
    detail = text "javac not found on PATH";
  }
  build_from descriptor (_ ∷ _) (some compiled) tested =
      if is_code 0 compiled.returncode
      then tests_outcome descriptor tested
      else compile_failed compiled

  unfoldable pub build_patched : Text → Text → BuildDescriptor → Text → RuleOutcome
  build_patched root site_file descriptor patched =
      build_from descriptor (host.sources root descriptor.source_dir)
        (run_result (host.javac_project root descriptor site_file patched))
        (run_result (host.java_tests root descriptor site_file patched))

  -- the file, patched
  unfoldable pub patched_text : Text → Text → Result Text
  patched_text site_file unified_diff = do
    original ← host.read_text site_file
    apply_unified_diff original unified_diff

  unfoldable pub apply_and_build : Text → Text → BuildDescriptor → Result Text → Result RuleOutcome
  apply_and_build root site_file descriptor (ok patched) =
      ok (build_patched root site_file descriptor patched)
  apply_and_build root site_file descriptor (raised exc) =
      if applies_badly exc.kind then outcome fail (not_clean exc) else raised exc

  -- the handler around the load of the descriptor
  unfoldable pub bad_descriptor : Exception → Result RuleOutcome
  bad_descriptor exc = elim exc.kind [
    | value ↦ outcome RuleStatus.error (text "invalid build descriptor: " ++ exc.message)
    | key ↦ outcome RuleStatus.error (text "invalid build descriptor: " ++ exc.message)
    | _ ↦ raised exc
  ]

  unfoldable pub with_descriptor : Patch → Text → Text → Result BuildDescriptor → Result RuleOutcome
  with_descriptor patch site_file root (raised exc) = bad_descriptor exc
  with_descriptor patch site_file root (ok descriptor) =
      apply_and_build root site_file descriptor (patched_text site_file patch.unified_diff)

  unfoldable pub project_build_and_test : Patch → Text → Text → Result RuleOutcome
  project_build_and_test patch site_file root =
      with_descriptor patch site_file root (load (root ++ text "/build.yaml") (host.fields_of root))

  unfoldable pub compile_outcome : Option Process → RuleOutcome
  compile_outcome none = record {
    status = RuleStatus.error;
    detail = text "javac not found on PATH; L3 cannot verify the build";
  }
  compile_outcome (some proc) =
      if is_code 0 proc.returncode
      then record {
        status = pass;
        detail = text "single-file compile only (no project descriptor; ADR-002)";
      }
      else record {
        status = fail;
        detail =
            text "single-file javac failed (exit "
            ++ (code_text proc.returncode
                ++ (text "):\n" ++ last_chars 1000 (scrub proc.stderr host.tmp)));
      }

  -- the handler of DiffApplyError, and the compilation
  unfoldable pub compile_patched : Text → Result Text → Result RuleOutcome
  compile_patched site_file (ok patched) =
      ok (compile_outcome (run_result (host.javac_file site_file patched)))
  compile_patched site_file (raised exc) = elim exc.kind [
    | diff_apply ↦ outcome fail (not_clean exc)
    | _ ↦ raised exc
  ]

  unfoldable pub missing_source : Exception → Result RuleOutcome
  missing_source exc = elim exc.kind [
    | file_not_found ↦ outcome RuleStatus.error (text "site source file not found: " ++ exc.message)
    | _ ↦ raised exc
  ]

  unfoldable pub with_source : Patch → Text → Result Text → Result RuleOutcome
  with_source patch site_file (raised exc) = missing_source exc
  with_source patch site_file (ok original) =
      compile_patched site_file (apply_unified_diff original patch.unified_diff)

  unfoldable pub single_file_compile : Patch → Text → Result RuleOutcome
  single_file_compile patch site_file = with_source patch site_file (host.read_text site_file)

  unfoldable pub build_at : Patch → Text → Option Text → Result RuleOutcome
  build_at patch site_file none = single_file_compile patch site_file
  build_at patch site_file (some root) = project_build_and_test patch site_file root

  unfoldable pub check_build : CheckFn
  check_build patch site policy =
      build_at patch site.file_path
        (find_project_root host max_root_walk (host.parent site.file_path))
