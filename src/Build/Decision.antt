-- ===== src/Build/Decision.antt =====
-- What a PASS of src/pqpatch/verifier/l3_build.py's `check` means.
use nesy_pqpatch.Prelude.{
  ◌≡◌, refl, Text, true, Bool-cases, inl, inr, Option, none, some, List, [], ◌∷◌, arith, ◌++◌, text,
}
use nesy_pqpatch.Model.{pass, Patch, Site, Policy}
use nesy_pqpatch.Python.{Result, ok, raised, >>=-eq-ok}
use nesy_pqpatch.Rules.Spec.{RuleOutcome}
use nesy_pqpatch.Diff.Apply.{apply_unified_diff}
use nesy_pqpatch.Conformance.{is_code}
use nesy_pqpatch.Build.{
  Host, find_project_root, tests_outcome, compile_failed, build_from, build_patched,
  with_descriptor, with_source, build_at, patched_text, apply_and_build, bad_descriptor,
  project_build_and_test, compile_outcome, compile_patched, missing_source, single_file_compile,
  check_build,
}
use nesy_pqpatch.Build.Tools.{Process, run_result, BuildDescriptor, load, max_root_walk}

-- the tool ran and ended with the code 0
abbrev pub Succeeds : Option Process → Type 0
Succeeds r = (proc : Process) × (r ≡ some proc) × (is_code 0 proc.returncode ≡ true)

module _ (host : Host) where
  tests_outcome-pass :
      (descriptor : BuildDescriptor) (r : Option Process)
      → (tests_outcome host descriptor r).status ≡ pass
      → Succeeds r
  unfolding tests_outcome
  tests_outcome-pass descriptor none p = cc
  tests_outcome-pass descriptor (some tested) p = (tested, refl, ground (arith, p))

  compile_outcome-pass : (r : Option Process) → (compile_outcome host r).status ≡ pass → Succeeds r
  unfolding compile_outcome
  compile_outcome-pass none p = cc
  compile_outcome-pass (some proc) p = (proc, refl, ground (arith, p))

  module _ (site_file : Text) (unified_diff : Text) where
    -- The project builds and its tests pass with the patched text in the file's place.
    abbrev pub ProjectPasses : Text → Text → Type 0
    ProjectPasses root patched =
        (descriptor : BuildDescriptor) × (load (root ++ text "/build.yaml") (host.fields_of root)
          ≡ ok descriptor)
        × Succeeds (run_result (host.javac_project root descriptor site_file patched))
        × Succeeds (run_result (host.java_tests root descriptor site_file patched))

    -- The file is there, and the diff applies to it.
    abbrev pub Applies : Text → Type 0
    Applies patched =
        (original : Text) × (host.read_text site_file ≡ ok original)
        × (apply_unified_diff original unified_diff ≡ ok patched)

    -- What a passing build shows, in the two modes.
    abbrev pub Built : Option Text → Type 0
    Built none =
        (patched : Text) × Applies patched
        × Succeeds (run_result (host.javac_file site_file patched))
    Built (some root) = (patched : Text) × Applies patched × ProjectPasses root patched

  build_from-pass :
      (descriptor : BuildDescriptor) (sources : List Text) (compiled tested : Option Process)
      → (build_from host descriptor sources compiled tested).status ≡ pass
      → Succeeds compiled × Succeeds tested
  unfolding build_from compile_failed
  build_from-pass descriptor [] compiled tested p = cc
  build_from-pass descriptor (x ∷ xs) none tested p = cc
  build_from-pass descriptor (x ∷ xs) (some proc) tested p =
      elim (Bool-cases (is_code 0 proc.returncode)) [
        | inl t ↦ ((proc, refl, t), tests_outcome-pass descriptor tested (rw t at p))
        | inr f ↦ absurd (ground (arith, f, p))
      ]

  apply_and_build-pass :
      (root site_file : Text) (descriptor : BuildDescriptor) (r : Result Text) (x : RuleOutcome)
      → apply_and_build host root site_file descriptor r ≡ ok x
      → x.status ≡ pass
      → (patched : Text) × (r ≡ ok patched)
        × Succeeds (run_result (host.javac_project root descriptor site_file patched))
        × Succeeds (run_result (host.java_tests root descriptor site_file patched))
  unfolding apply_and_build build_patched
  apply_and_build-pass root site_file descriptor (ok patched) x h p =
      let (compiled, tested) =
        build_from-pass descriptor (host.sources root descriptor.source_dir)
          (run_result (host.javac_project root descriptor site_file patched))
          (run_result (host.java_tests root descriptor site_file patched)) (ground (arith, h, p)) in
      (patched, refl, compiled, tested)
  apply_and_build-pass root site_file descriptor (raised exc) x h p = absurd (ground (arith, h, p))

  with_descriptor-pass :
      (patch : Patch) (site_file root : Text) (r : Result BuildDescriptor) (x : RuleOutcome)
      → load (root ++ text "/build.yaml") (host.fields_of root) ≡ r
      → with_descriptor host patch site_file root r ≡ ok x
      → x.status ≡ pass
      → Built site_file patch.unified_diff (some root)
  unfolding with_descriptor bad_descriptor patched_text
  with_descriptor-pass patch site_file root (raised exc) x e h p = absurd (ground (arith, h, p))
  with_descriptor-pass patch site_file root (ok descriptor) x e h p =
      let (patched, text_of, compiled, tested) =
        apply_and_build-pass root site_file descriptor
          (patched_text host site_file patch.unified_diff) x h p in
      let (original, there, applied) = >>=-eq-ok (host.read_text site_file) _ text_of in
      (patched, (original, there, applied), (descriptor, e, compiled, tested))

  compile_patched-pass :
      (site_file : Text) (r : Result Text) (x : RuleOutcome)
      → compile_patched host site_file r ≡ ok x
      → x.status ≡ pass
      → (patched : Text) × (r ≡ ok patched)
        × Succeeds (run_result (host.javac_file site_file patched))
  unfolding compile_patched
  compile_patched-pass site_file (ok patched) x h p = (
    patched,
    refl,
    compile_outcome-pass (run_result (host.javac_file site_file patched)) (ground (arith, h, p)),
  )
  compile_patched-pass site_file (raised exc) x h p = absurd (ground (arith, h, p))

  with_source-pass :
      (patch : Patch) (site_file : Text) (r : Result Text) (x : RuleOutcome)
      → host.read_text site_file ≡ r
      → with_source host patch site_file r ≡ ok x
      → x.status ≡ pass
      → Built site_file patch.unified_diff none
  unfolding with_source missing_source
  with_source-pass patch site_file (raised exc) x e h p = absurd (ground (arith, h, p))
  with_source-pass patch site_file (ok original) x e h p =
      let (patched, applied, compiled) =
        compile_patched-pass site_file (apply_unified_diff original patch.unified_diff) x h p in
      (patched, (original, e, applied), compiled)

  build_at-pass :
      (patch : Patch) (site_file : Text) (root : Option Text) (x : RuleOutcome)
      → build_at host patch site_file root ≡ ok x
      → x.status ≡ pass
      → Built site_file patch.unified_diff root
  unfolding build_at project_build_and_test single_file_compile
  build_at-pass patch site_file none x h p =
      with_source-pass patch site_file (host.read_text site_file) x refl h p
  build_at-pass patch site_file (some root) x h p =
      with_descriptor-pass patch site_file root
        (load (root ++ text "/build.yaml") (host.fields_of root)) x refl h p

  -- If the check returns PASS, the site's file is there and the diff applies to it; and either no
  -- directory above it, as far as the walk goes, has a descriptor, and javac ended with the code 0
  -- on the patched file; or the first that has one has a valid one, and both javac on the project
  -- with the patched file and its tests ended with the code 0.
  pub check_build-pass :
      (patch : Patch) (site : Site) (policy : Policy) (x : RuleOutcome)
      → check_build host patch site policy ≡ ok x
      → x.status ≡ pass
      → Built site.file_path patch.unified_diff
          (find_project_root host max_root_walk (host.parent site.file_path))
  unfolding check_build
  check_build-pass patch site policy x h p =
      build_at-pass patch site.file_path
        (find_project_root host max_root_walk (host.parent site.file_path)) x h p
