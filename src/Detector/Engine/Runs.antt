-- ===== src/Detector/Engine/Runs.antt =====
-- The runs of Semgrep in src/pqpatch/detector/engine.py: which one counts, and when its report does.
use nesy_pqpatch.Prelude.{
  ℕ, zero, suc, ◌+◌, ◌<◌, ◌≤◌, ◌≡◌, refl, ap, sym, ◌∙◌, ◌⊎◌, inl, inr, Text, ◌==◌, ==→eq, true,
  false, Bool-cases, arith,
}
use nesy_pqpatch.Conformance.{ReturnCode, exited, signalled, is_code}
use nesy_pqpatch.Detector.Engine.{
  Invocation, timed_out, not_found, completed, run_semgrep, Payload, Host, successful,
}

-- Every attempt before one timed out.
abbrev pub TimedOutBefore : (ℕ → Invocation) → ℕ → ℕ → Type 0
TimedOutBefore invoke lo hi = (n : ℕ) → lo ≤ n → n < hi → invoke n ≡ timed_out

Invocation-cases :
    (i : Invocation)
    → (i ≡ timed_out)
      ⊎ ((i ≡ not_found)
          ⊎ ((code : ReturnCode) × (stdout : Text) × (stderr : Text) × (i
                ≡ completed code stdout stderr)))
Invocation-cases timed_out = inl refl
Invocation-cases not_found = inr (inl refl)
Invocation-cases (completed code stdout stderr) = inr (inr (code, stdout, stderr, refl))

TimedOutBefore-suc :
    (invoke : ℕ → Invocation) (lo hi : ℕ)
    → invoke lo ≡ timed_out
    → TimedOutBefore invoke (suc lo) hi
    → TimedOutBefore invoke lo hi
TimedOutBefore-suc invoke lo hi first later n low high = elim (Bool-cases (lo == n)) [
  | inl same ↦ ap invoke (sym (==→eq lo n same)) ∙ first
  | inr differ ↦ later n (ground (arith, differ)) high
]

pub run_semgrep-completed :
    (invoke : ℕ → Invocation) (attempt left : ℕ) (code : ReturnCode) (stdout stderr : Text)
    → run_semgrep invoke attempt left ≡ completed code stdout stderr
    → (n : ℕ) × (attempt ≤ n)
      × (n < attempt + left)
      × (invoke n ≡ completed code stdout stderr)
      × TimedOutBefore invoke attempt n
unfolding run_semgrep
run_semgrep-completed invoke attempt zero code stdout stderr h = cc
run_semgrep-completed invoke attempt (suc left) code stdout stderr h =
    elim (Invocation-cases (invoke attempt)) [
      | inl out ↦
          let (n, low, high, ended, before) =
            run_semgrep-completed invoke (suc attempt) left code stdout stderr
              (rw (out, run_semgrep) at h) in
          (n, omega arith, omega arith, ended, TimedOutBefore-suc invoke attempt n out before)
      | inr (inl missing) ↦ absurd (ground (arith, missing, h))
      | inr (inr (c, o, e, ended)) ↦ (
        attempt,
        omega arith,
        omega arith,
        ended ∙ (rw (ended, run_semgrep) at h),
        λ n low high. absurd (omega arith),
      )
    ]

-- How a run ends whose report is taken.
abbrev pub EndsWell : ReturnCode → Payload → Type 0
EndsWell code payload =
    (code ≡ exited 0) ⊎ ((code ≡ exited 1) ⊎ ((code ≡ exited 2) × (payload.has_errors ≡ false)))

is_code→eq : (n : ℕ) (code : ReturnCode) → is_code n code ≡ true → code ≡ exited n
is_code→eq n (exited m) h = ap exited (==→eq m n h)
is_code→eq n (signalled m) h = cc

pub successful-EndsWell :
    (host : Host) (code : ReturnCode) (payload : Payload)
    → successful host code payload ≡ true
    → EndsWell code payload
unfolding successful
successful-EndsWell host code payload h = elim (Bool-cases (is_code 0 code)) [
  | inl zero_code ↦ inl (is_code→eq 0 code zero_code)
  | inr a ↦ elim (Bool-cases (is_code 1 code)) [
    | inl one ↦ inr (inl (is_code→eq 1 code one))
    | inr b ↦ inr (inr (is_code→eq 2 code (ground (arith, a, b, h)), ground (arith, a, b, h)))
  ]
]

-- The first run that does not time out is the one that counts.
pub run_semgrep-ended :
    (invoke : ℕ → Invocation) (attempt left n : ℕ) (code : ReturnCode) (stdout stderr : Text)
    → attempt ≤ n
    → n < attempt + left
    → invoke n ≡ completed code stdout stderr
    → TimedOutBefore invoke attempt n
    → run_semgrep invoke attempt left ≡ completed code stdout stderr
unfolding run_semgrep
run_semgrep-ended invoke attempt zero n code stdout stderr low high ended before =
    absurd (omega arith)
run_semgrep-ended invoke attempt (suc left) n code stdout stderr low high ended before =
    elim (Bool-cases (attempt == n)) [
      | inl same ↦
          let here : invoke attempt ≡ completed code stdout stderr =
            ap invoke (==→eq attempt n same) ∙ ended in
          rw (here, run_semgrep) refl
      | inr differ ↦
          let later : suc attempt ≤ n = ground (arith, differ) in
          rw (before attempt (omega arith) (omega arith), run_semgrep)
            (run_semgrep-ended invoke (suc attempt) left n code stdout stderr later (omega arith)
              ended (λ k lo hi. before k (omega arith) hi))
    ]

pub EndsWell-successful :
    (host : Host) (code : ReturnCode) (payload : Payload)
    → EndsWell code payload
    → successful host code payload ≡ true
unfolding successful
EndsWell-successful host code payload (inl e) = rw e refl
EndsWell-successful host code payload (inr (inl e)) = rw e refl
EndsWell-successful host code payload (inr (inr (e, f))) = rw (e, f) refl
