-- ===== src/Detector/Engine.antt =====
-- src/pqpatch/detector/engine.py: the scan of a repository. The file system, the runs of Semgrep and
-- the reader of its report are parameters.
pub mod Runs
pub mod Scan
use nesy_pqpatch.Prelude.{
  ℕ, zero, suc, Text, text, text_eq, split_on, Bool, true, false, not, ◌&&◌, ◌||◌, Option, none,
  some, List, [], ◌∷◌, ◌++◌, map, if◌then◌else◌,
}
use nesy_pqpatch.Prelude.Utf8.{utf8_encode}
use nesy_pqpatch.Python.{Exception, other, Result, ok, raised, repr}
use nesy_pqpatch.Conformance.{ReturnCode, is_code, last_chars}
use nesy_pqpatch.Build.Tools.{code_text}
use nesy_pqpatch.Detector.Match.{RawMatch}

-- how a run of Semgrep ends
pub data Invocation : Type 0 where
  timed_out not_found : Invocation
  -- the return code, the standard output and the errors
  completed : ReturnCode → Text → Text → Invocation

abbrev pub semgrep_attempts : ℕ
semgrep_attempts = 2

-- The loop of `_run_semgrep` with `left` attempts left: only a timeout is tried again.
unfoldable pub run_semgrep : (ℕ → Invocation) → ℕ → ℕ → Invocation
run_semgrep invoke attempt zero = timed_out
run_semgrep invoke attempt (suc left) =
    let again = run_semgrep invoke (suc attempt) left in
    elim (invoke attempt) [
      | timed_out ↦ again
      | not_found ↦ not_found
      | completed code stdout stderr ↦ completed code stdout stderr
    ]

-- one entry of "results"
pub record Finding : Type 0 where
  pub check_id : Text
  pub path : Text
  pub start_line : ℕ
  pub end_line : ℕ

-- the report: whether "errors" is not empty, its text, and "results"
pub record Payload : Type 0 where
  pub has_errors : Bool
  pub errors_json : Text
  pub results : List Finding

unfoldable pub last_part : List Text → Text
last_part [] = []
last_part (part ∷ []) = part
last_part (part ∷ next ∷ parts) = last_part (next ∷ parts)

unfoldable pub raw_match : Finding → RawMatch
unfolding last_part split_on
raw_match finding =
    let check_id = last_part (split_on b'.' finding.check_id) in
    record {
      rule_id = check_id;
      file_path = finding.path;
      line = finding.start_line;
      end_line = finding.end_line;
      matched_code_hint = check_id;
    }

-- Each file's path and bytes, with a null byte behind each.
unfoldable pub digest_input : List (Text × List ℕ) → List ℕ
digest_input [] = []
digest_input ((path, bytes) ∷ files) = utf8_encode path ++ (0 ∷ (bytes ++ (0 ∷ digest_input files)))

unfoldable pub unavailable_error : Text → Exception
unavailable_error message = record {
  kind = other;
  message = message;
  repr = text "SemgrepUnavailableError(" ++ (repr message ++ text ")");
}

abbrev pub CacheKey : Type 0
CacheKey = Text × Text × Text

-- _SCAN_CACHE
abbrev pub ScanCache : Type 0
ScanCache = List (CacheKey × List RawMatch)

unfoldable pub same_key : CacheKey → CacheKey → Bool
unfolding text_eq
same_key (a, b, c) (a', b', c') = text_eq a a' && text_eq b b' && text_eq c c'

unfoldable pub cached_scan : CacheKey → ScanCache → Option (List RawMatch)
unfolding same_key
cached_scan key [] = none
cached_scan key ((k, ms) ∷ cache) = if same_key k key then some ms else cached_scan key cache

pub record Host : Type 0 where
  -- hashlib.sha256 on bytes
  pub sha256_hex : List ℕ → Text
  -- repo_path.resolve()
  pub resolve : Text → Text
  pub pack_dir : Text
  pub pack_exists : Bool
  -- the files of a directory that match a pattern, sorted, with their bytes
  pub files : Text → Text → List (Text × List ℕ)
  -- the runs of Semgrep on a repository, by the attempt
  pub invoke : Text → ℕ → Invocation
  -- json.loads of the report, which may raise JSONDecodeError
  pub loads : Text → Result Payload

module _ (host : Host) where
  unfoldable pub content_digest : Text → Text → Text
  unfolding digest_input
  content_digest root pattern = host.sha256_hex (digest_input (host.files root pattern))

  unfoldable pub scan_key : Text → CacheKey
  unfolding content_digest
  scan_key repo_path = (
    host.resolve repo_path,
    content_digest repo_path (text "*.java"),
    content_digest host.pack_dir (text "*.yml"),
  )

  -- returncode in (0, 1)
  unfoldable pub zero_or_one : ReturnCode → Bool
  zero_or_one code = is_code 0 code || is_code 1 code

  unfoldable pub successful : ReturnCode → Payload → Bool
  unfolding zero_or_one
  successful code payload = zero_or_one code || (is_code 2 code && not payload.has_errors)

  -- proc.stderr[-500:] or json.dumps(reported_errors)[-500:]
  unfoldable pub details : Text → Payload → Text
  details [] payload = last_chars 500 payload.errors_json
  details (c ∷ stderr) payload = last_chars 500 (c ∷ stderr)

  unfoldable pub judge_payload : ReturnCode → Text → Result Payload → Result (List RawMatch)
  unfolding unavailable_error zero_or_one successful details raw_match code_text
  judge_payload code stderr (raised exc) =
      if not (zero_or_one code)
      then raised (
          unavailable_error
            (text "semgrep exited " ++ (code_text code ++ (text ": " ++ last_chars 500 stderr))))
      else raised (unavailable_error (text "could not parse semgrep JSON output: " ++ exc.message))
  judge_payload code stderr (ok payload) =
      if not (successful code payload)
      then raised (
          unavailable_error
            (text "semgrep exited " ++ (code_text code ++ (text ": " ++ details stderr payload))))
      else ok (map raw_match payload.results)

  unfoldable pub judge_invocation : Text → Invocation → Result (List RawMatch)
  unfolding unavailable_error judge_payload
  judge_invocation repo_path timed_out =
      raised (unavailable_error (text "semgrep timed out scanning " ++ repo_path))
  judge_invocation repo_path not_found =
      raised (unavailable_error (text "semgrep binary not found on PATH"))
  judge_invocation repo_path (completed code stdout stderr) =
      judge_payload code stderr (host.loads stdout)

  -- A scan that succeeds is kept.
  unfoldable pub keep_scan :
      CacheKey → ScanCache → Result (List RawMatch) → ScanCache × Result (List RawMatch)
  keep_scan key cache (raised exc) = (cache, raised exc)
  keep_scan key cache (ok ms) = ((key, ms) ∷ cache, ok ms)

  unfoldable pub scan_or_cached :
      Text → CacheKey → ScanCache → Option (List RawMatch) → ScanCache × Result (List RawMatch)
  unfolding keep_scan judge_invocation run_semgrep
  scan_or_cached repo_path key cache (some ms) = (cache, ok ms)
  scan_or_cached repo_path key cache none =
      keep_scan key cache
        (judge_invocation repo_path (run_semgrep (host.invoke repo_path) 0 semgrep_attempts))

  -- the cache afterwards, and the matches
  unfoldable pub scan_repo : ScanCache → Text → ScanCache × Result (List RawMatch)
  unfolding unavailable_error scan_or_cached scan_key cached_scan
  scan_repo cache repo_path =
      if not host.pack_exists
      then (cache, raised (unavailable_error (text "semgrep pack not found at " ++ host.pack_dir)))
      else scan_or_cached repo_path (scan_key repo_path) cache
          (cached_scan (scan_key repo_path) cache)
