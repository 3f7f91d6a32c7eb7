-- ===== src/Detector/Engine/Scan.antt =====
-- When a scan of src/pqpatch/detector/engine.py returns matches.
use nesy_pqpatch.Prelude.{
  ℕ, ◌<◌, ◌≡◌, refl, ap, sym, ◌∙◌, ◌⊎◌, inl, inr, Text, text, ◌++◌, true, false, Bool-cases,
  Option-cases, none, some, List, ◌∷◌, map, arith,
}
use nesy_pqpatch.Python.{Exception, ok-eq, Result, ok, raised}
use nesy_pqpatch.Conformance.{ReturnCode}
use nesy_pqpatch.Detector.Match.{RawMatch}
use nesy_pqpatch.Detector.Engine.{
  Invocation, timed_out, not_found, completed, semgrep_attempts, run_semgrep, Payload, raw_match,
  CacheKey, ScanCache, cached_scan, Host, scan_key, successful, judge_payload, judge_invocation,
  keep_scan, scan_or_cached, unavailable_error, scan_repo,
}
use nesy_pqpatch.Detector.Engine.Runs.{
  TimedOutBefore, EndsWell, run_semgrep-completed, run_semgrep-ended, successful-EndsWell,
  EndsWell-successful,
}

module _ (host : Host) where
  -- A run of Semgrep that gave a report that is taken: it ended with 0 or 1, or with 2 and no errors.
  pub record Reports (repo_path : Text) (ms : List RawMatch) : Type 0 where
    pub attempt : ℕ
    pub in_time : attempt < semgrep_attempts
    pub before : TimedOutBefore (host.invoke repo_path) 0 attempt
    pub code : ReturnCode
    pub stdout : Text
    pub stderr : Text
    pub payload : Payload
    pub ended : host.invoke repo_path attempt ≡ completed code stdout stderr
    pub loaded : host.loads stdout ≡ ok payload
    pub success : EndsWell code payload
    pub matches : ms ≡ map raw_match payload.results

  judge_payload-ok :
      (code : ReturnCode) (stderr : Text) (loaded : Result Payload) (ms : List RawMatch)
      → judge_payload host code stderr loaded ≡ ok ms
      → (payload : Payload) × (loaded ≡ ok payload)
        × EndsWell code payload
        × (ms ≡ map raw_match payload.results)
  unfolding judge_payload
  judge_payload-ok code stderr (raised exc) ms h = absurd (ground (arith, h))
  judge_payload-ok code stderr (ok payload) ms h =
      elim (Bool-cases (successful host code payload)) [
        | inl t ↦ (payload, refl, successful-EndsWell host code payload t, sym (ok-eq (rw t at h)))
        | inr f ↦ absurd (ground (arith, f, h))
      ]

  judge_payload-taken :
      (code : ReturnCode) (stderr : Text) (payload : Payload)
      → successful host code payload ≡ true
      → judge_payload host code stderr (ok payload) ≡ ok (map raw_match payload.results)
  unfolding judge_payload
  judge_payload-taken code stderr payload e = rw e refl

  judge_invocation-ok :
      (repo_path : Text) (i : Invocation) (ms : List RawMatch)
      → judge_invocation host repo_path i ≡ ok ms
      → (code : ReturnCode) × (stdout : Text) × (stderr : Text) × (i ≡ completed code stdout stderr)
        × (judge_payload host code stderr (host.loads stdout) ≡ ok ms)
  unfolding judge_invocation
  judge_invocation-ok repo_path timed_out ms h = cc
  judge_invocation-ok repo_path not_found ms h = cc
  judge_invocation-ok repo_path (completed code stdout stderr) ms h =
      (code, stdout, stderr, refl, h)

  scan-Reports :
      (repo_path : Text) (ms : List RawMatch)
      → judge_invocation host repo_path (run_semgrep (host.invoke repo_path) 0 semgrep_attempts)
        ≡ ok ms
      → Reports repo_path ms
  scan-Reports repo_path ms h =
      let (code, stdout, stderr, ran, judged) = judge_invocation-ok repo_path _ ms h in
      let (attempt, low, high, ended, before) =
        run_semgrep-completed (host.invoke repo_path) 0 semgrep_attempts code stdout stderr ran in
      let (payload, loaded, success, matches) =
        judge_payload-ok code stderr (host.loads stdout) ms judged in
      record {
        attempt = attempt;
        in_time = high;
        before = before;
        code = code;
        stdout = stdout;
        stderr = stderr;
        payload = payload;
        ended = ended;
        loaded = loaded;
        success = success;
        matches = matches;
      }

  Reports-scan :
      (repo_path : Text) (ms : List RawMatch)
      → Reports repo_path ms
      → judge_invocation host repo_path (run_semgrep (host.invoke repo_path) 0 semgrep_attempts)
        ≡ ok ms
  unfolding judge_invocation judge_payload
  Reports-scan repo_path ms r =
      ap (judge_invocation host repo_path) (
        run_semgrep-ended (host.invoke repo_path) 0 semgrep_attempts r.attempt r.code r.stdout
          r.stderr (omega arith) r.in_time r.ended r.before)
      ∙ ap (judge_payload host r.code r.stderr) r.loaded
      ∙ judge_payload-taken r.code r.stderr r.payload
          (EndsWell-successful host r.code r.payload r.success)
      ∙ ap ok (sym r.matches)

  keep_scan-cases :
      (key : CacheKey) (cache : ScanCache) (r : Result (List RawMatch))
      → ((ms : List RawMatch) × (r ≡ ok ms)
          × (keep_scan host key cache r ≡ ((key, ms) ∷ cache, ok ms)))
        ⊎ ((exc : Exception) × (r ≡ raised exc)
            × (keep_scan host key cache r ≡ (cache, raised exc)))
  unfolding keep_scan
  keep_scan-cases key cache (ok ms) = inl (ms, refl, refl)
  keep_scan-cases key cache (raised exc) = inr (exc, refl, refl)

  scan_or_cached-miss :
      (repo_path : Text) (key : CacheKey) (cache : ScanCache)
      → scan_or_cached host repo_path key cache none
        ≡ keep_scan host key cache (
            judge_invocation host repo_path
              (run_semgrep (host.invoke repo_path) 0 semgrep_attempts))
  unfolding scan_or_cached
  scan_or_cached-miss repo_path key cache = refl

  -- A report that can be taken is taken, and kept.
  pub scan_repo-Reports :
      (cache : ScanCache) (repo_path : Text) (ms : List RawMatch)
      → host.pack_exists ≡ true
      → cached_scan (scan_key host repo_path) cache ≡ none
      → Reports repo_path ms
      → scan_repo host cache repo_path ≡ ((scan_key host repo_path, ms) ∷ cache, ok ms)
  unfolding scan_repo keep_scan
  scan_repo-Reports cache repo_path ms there miss r =
      rw (there, miss)
        (scan_or_cached-miss repo_path (scan_key host repo_path) cache
          ∙ ap (keep_scan host (scan_key host repo_path) cache) (Reports-scan repo_path ms r))

  -- Why a scan fails: the rules are missing, or no run gave a report that can be taken.
  abbrev pub Unavailable : Text → Type 0
  Unavailable repo_path =
      (host.pack_exists ≡ false) ⊎ ((ms : List RawMatch) → Reports repo_path ms → ⊥)

  raised-Unavailable :
      (repo_path : Text) (exc : Exception)
      → judge_invocation host repo_path (run_semgrep (host.invoke repo_path) 0 semgrep_attempts)
        ≡ raised exc
      → Unavailable repo_path
  raised-Unavailable repo_path exc e =
      inr (λ ms r. absurd (ground (arith, sym (Reports-scan repo_path ms r) ∙ e)))

  -- A scan returns the matches that it kept for these contents, and the cache stays as it is; or,
  -- where it kept none, those of the report of the first run that does not time out, of two, if it
  -- ended with the code 0 or 1, or with 2 and no errors, and it keeps them; or it raises, and the
  -- cache stays as it is: then the rules are missing, or there is no such report. So a scan that
  -- fails is never taken for one without findings.
  pub scan_repo-cases :
      (cache : ScanCache) (repo_path : Text)
      → ((ms : List RawMatch) × (scan_repo host cache repo_path ≡ (cache, ok ms))
          × (cached_scan (scan_key host repo_path) cache ≡ some ms))
        ⊎ (((ms : List RawMatch) × (scan_repo host cache repo_path
                ≡ ((scan_key host repo_path, ms) ∷ cache, ok ms))
              × (cached_scan (scan_key host repo_path) cache ≡ none)
              × Reports repo_path ms)
            ⊎ ((exc : Exception) × (scan_repo host cache repo_path ≡ (cache, raised exc))
                × Unavailable repo_path))
  unfolding scan_repo
  scan_repo-cases cache repo_path = elim (Bool-cases host.pack_exists) [
    | inr missing ↦ inr (
        inr (
          unavailable_error (text "semgrep pack not found at " ++ host.pack_dir),
          rw missing refl,
          inl missing,
        ))
    | inl there ↦ elim (Option-cases (cached_scan (scan_key host repo_path) cache)) [
      | inr (ms, hit) ↦ inl (ms, rw (there, hit) (unfold scan_or_cached in refl), hit)
      | inl miss ↦
          elim (keep_scan-cases (scan_key host repo_path) cache (
            judge_invocation host repo_path
              (run_semgrep (host.invoke repo_path) 0 semgrep_attempts))) [
                | inl (ms, judged, kept) ↦ inr (
                    inl (
                      ms,
                      rw (there, miss)
                          (scan_or_cached-miss repo_path (scan_key host repo_path) cache ∙ kept),
                      miss,
                      scan-Reports repo_path ms judged,
                    ))
                | inr (exc, judged, kept) ↦ inr (
                    inr (
                      exc,
                      rw (there, miss)
                          (scan_or_cached-miss repo_path (scan_key host repo_path) cache ∙ kept),
                      raised-Unavailable repo_path exc judged,
                    ))
              ]
    ]
  ]
