-- ===== src/Conformance/Decision.antt =====
-- What a PASS of src/pqpatch/verifier/l4_conformance/roundtrip.py's `check` means.
use nesy_pqpatch.Prelude.{
  ℕ, ◌≡◌, ◌≢◌, refl, ap, Text, text_eq_self, true, false, Bool-cases, Option-cases, inl, inr, none,
  some, List, [], ◌∷◌, All, arith, ==→eq,
}
use nesy_pqpatch.Model.{pass, fail, Patch, Site, Policy}
use nesy_pqpatch.Python.{ok, >>=-eq-ok}
use nesy_pqpatch.Rules.Spec.{RuleOutcome}
use nesy_pqpatch.Conformance.{
  contains, pq_literals, family, ReturnCode, exited, signalled, is_code, Completed, Runtime,
  driver_failure, round_trips, exercise, check_round_trip,
}

is_code-exited : (n : ℕ) (c : ReturnCode) → is_code n c ≡ true → c ≡ exited n
is_code-exited n (exited m) h = ap exited (==→eq m n h)
is_code-exited n (signalled m) h = cc

-- nothing is said of a run exactly when it ends with the code 0
driver_failure-none :
    (literal : Text) (proc : Completed)
    → driver_failure literal proc ≡ none
    → proc.returncode ≡ exited 0
unfolding driver_failure
driver_failure-none literal proc h = is_code-exited 0 proc.returncode (ground (arith, h))

driver_failure-blocks :
    (literal : Text) (proc : Completed) (x : RuleOutcome)
    → driver_failure literal proc ≡ some x
    → x.status ≢ pass
unfolding driver_failure
driver_failure-blocks literal proc x h p = ground (arith, h, p)

module _ (runtime : Runtime) (java_home : Text) where
  -- the driver ran on the name and ended with the code 0
  abbrev pub RoundTrips : Text → Type 0
  RoundTrips literal =
      (proc : Completed) × (runtime.run_driver java_home (family literal) literal ≡ ok proc)
      × (proc.returncode ≡ exited 0)

  round_trips-pass :
      (all_literals literals : List Text) (x : RuleOutcome)
      → round_trips runtime java_home all_literals literals ≡ ok x
      → x.status ≡ pass
      → All RoundTrips literals
  unfolding round_trips
  round_trips-pass all_literals [] x h p = tt
  round_trips-pass all_literals (literal ∷ literals) x h p =
      let (proc, ran, rest) =
        >>=-eq-ok (runtime.run_driver java_home (family literal) literal) _ h in
      elim (Option-cases (driver_failure literal proc)) [
        | inl n ↦ (
          (proc, ran, driver_failure-none literal proc n),
          round_trips-pass all_literals literals x (rw n at rest) p,
        )
        | inr (found, e) ↦
            absurd (driver_failure-blocks literal proc found e (ground (arith, rest, e, p)))
      ]

  exercise-pass :
      (literals : List Text) (x : RuleOutcome)
      → exercise runtime java_home literals ≡ ok x
      → x.status ≡ pass
      → All RoundTrips literals
  unfolding exercise
  exercise-pass [] x h p = tt
  exercise-pass (literal ∷ literals) x h p =
      elim (Option-cases (runtime.compile_driver java_home)) [
        | inl n ↦
            round_trips-pass (literal ∷ literals) (literal ∷ literals) x (rw (n, exercise) at h) p
        | inr (exc, e) ↦ absurd (ground (arith, h, e, p))
      ]

  -- A name whose run is the patch's fault: the driver ended, and neither with 0 nor with 3.
  abbrev pub Blamed : List Text → Type 0
  Blamed literals =
      (literal : Text) × (contains literal literals ≡ true)
      × (proc : Completed) × (runtime.run_driver java_home (family literal) literal ≡ ok proc)
      × (is_code 0 proc.returncode ≡ false)
      × (is_code 3 proc.returncode ≡ false)

  driver_failure-fail :
      (literal : Text) (proc : Completed) (x : RuleOutcome)
      → driver_failure literal proc ≡ some x
      → x.status ≡ fail
      → (is_code 0 proc.returncode ≡ false) × (is_code 3 proc.returncode ≡ false)
  unfolding driver_failure
  driver_failure-fail literal proc x h p = (ground (arith, h, p), ground (arith, h, p))

  round_trips-fail :
      (all_literals literals : List Text) (x : RuleOutcome)
      → round_trips runtime java_home all_literals literals ≡ ok x
      → x.status ≡ fail
      → Blamed literals
  unfolding round_trips
  round_trips-fail all_literals [] x h p = absurd (ground (arith, h, p))
  round_trips-fail all_literals (literal ∷ literals) x h p =
      let (proc, ran, rest) =
        >>=-eq-ok (runtime.run_driver java_home (family literal) literal) _ h in
      elim (Option-cases (driver_failure literal proc)) [
        | inl n ↦
            let (l, member, run, ended, not_zero, not_three) =
              round_trips-fail all_literals literals x (rw n at rest) p in
            (l, ground (arith, member), run, ended, not_zero, not_three)
        | inr (found, e) ↦
            let (not_zero, not_three) =
              driver_failure-fail literal proc found e (ground (arith, rest, e, p)) in
            (literal, rw (text_eq_self literal) refl, proc, ran, not_zero, not_three)
      ]

  exercise-fail :
      (literals : List Text) (x : RuleOutcome)
      → exercise runtime java_home literals ≡ ok x
      → x.status ≡ fail
      → Blamed literals
  unfolding exercise
  exercise-fail [] x h p = absurd (ground (arith, h, p))
  exercise-fail (literal ∷ literals) x h p =
      elim (Option-cases (runtime.compile_driver java_home)) [
        | inl n ↦
            round_trips-fail (literal ∷ literals) (literal ∷ literals) x (rw (n, exercise) at h) p
        | inr (exc, e) ↦ absurd (ground (arith, h, e, p))
      ]

module _ (runtime : Runtime) (patch : Patch) (site : Site) (policy : Policy) (x : RuleOutcome) where
  -- If the check returns PASS, a JDK is configured and has its programs, and the driver ran on
  -- every post-quantum name that the patch introduces and ended with the code 0.
  pub check_round_trip-pass :
      check_round_trip runtime patch site policy ≡ ok x
      → x.status ≡ pass
      → (java_home : Text) × (runtime.java_home ≡ some java_home)
        × (runtime.has_tools java_home ≡ true)
        × All (RoundTrips runtime java_home) (pq_literals patch.unified_diff)
  unfolding check_round_trip exercise round_trips
  check_round_trip-pass h p = elim (Option-cases runtime.java_home) [
    | inl n ↦ absurd (ground (arith, n, h))
    | inr (home, e) ↦ elim (Bool-cases (runtime.has_tools home)) [
      | inl t ↦ (
        home,
        e,
        t,
        exercise-pass runtime home (pq_literals patch.unified_diff) x (rw t at (rw e at h)) p,
      )
      | inr f ↦ absurd (ground (arith, e, f, h, p))
    ]
  ]

  -- If the check returns FAIL, a JDK is configured, and there is a post-quantum name that the patch
  -- introduces on which the driver ran and ended with a code other than 0, and other than 3, by
  -- which the runtime says that it cannot decide.
  pub check_round_trip-fail :
      check_round_trip runtime patch site policy ≡ ok x
      → x.status ≡ fail
      → (java_home : Text) × (runtime.java_home ≡ some java_home)
        × Blamed runtime java_home (pq_literals patch.unified_diff)
  unfolding check_round_trip exercise round_trips
  check_round_trip-fail h p = elim (Option-cases runtime.java_home) [
    | inl n ↦ absurd (ground (arith, n, h))
    | inr (home, e) ↦ elim (Bool-cases (runtime.has_tools home)) [
      | inl t ↦ (
        home,
        e,
        exercise-fail runtime home (pq_literals patch.unified_diff) x (rw t at (rw e at h)) p,
      )
      | inr f ↦ absurd (ground (arith, e, f, h, p))
    ]
  ]
