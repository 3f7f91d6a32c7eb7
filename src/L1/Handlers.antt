-- ===== src/L1/Handlers.antt =====
-- The rules of src/pqpatch/verifier/l1_syntactic/rules.py about exception handlers: PQ-FALL-02 and
-- -04, PQ-EXC-01 and -02.
use nesy_pqpatch.Prelude.{text, ◌||◌, some, ◌==◌, if◌then◌else◌}
use nesy_pqpatch.Model.{l1_syntactic, u2_classical_fallback, u7_fail_open}
use nesy_pqpatch.Regex.{
  Regex, char, star, lit, ◌·◌, ◌or◌, optionally, is_digit, is_letter, spaces, some_spaces, none_of,
  found_in,
}
use nesy_pqpatch.Rules.Spec.{CheckFn, RuleSpec}
use nesy_pqpatch.L1.Outcome.{passes, fails, joined_added}

-- r"catch\s*\([^)]*\)\s*\{", with which the patterns of handlers begin
abbrev pub catch_open : Regex
catch_open = lit "catch" · spaces · lit "(" · star (none_of ")") · lit ")" · spaces · lit "{"

-- r"catch\s*\([^)]*\)\s*\{\s*\}"
unfoldable pub empty_catch_re : Regex
empty_catch_re = catch_open · spaces · lit "}"

unfoldable pub check_fail_open : CheckFn
unfolding joined_added found_in empty_catch_re
check_fail_open patch site policy =
    if found_in empty_catch_re (joined_added patch)
    then fails (
        text
          "added code contains an empty catch block; cryptographic exceptions must not be silently swallowed")
    else passes

-- r"catch\s*\([^)]*\)\s*\{[^{}]*getInstance"
unfoldable pub getinstance_in_catch_re : Regex
getinstance_in_catch_re = catch_open · star (none_of "{}") · lit "getInstance"

unfoldable pub check_retry_in_catch : CheckFn
unfolding joined_added found_in getinstance_in_catch_re
check_retry_in_catch patch site policy =
    if found_in getinstance_in_catch_re (joined_added patch)
    then fails (
        text
          "added code acquires an algorithm inside an exception handler; retrying a different algorithm on failure is a downgrade path")
    else passes

-- r"catch\s*\([^)]*\)\s*\{[^{}]*return\s+true"
unfoldable pub return_true_in_catch_re : Regex
return_true_in_catch_re = catch_open · star (none_of "{}") · lit "return" · some_spaces · lit "true"

unfoldable pub check_catch_returns_success : CheckFn
unfolding joined_added found_in return_true_in_catch_re
check_catch_returns_success patch site policy =
    if found_in return_true_in_catch_re (joined_added patch)
    then fails (
        text
          "added catch block returns true; a cryptographic failure is converted into a success result")
    else passes

-- `(?:[A-Za-z_][\w.]*\.)?`, the receiver of a call
abbrev receiver : Regex
receiver = optionally (
    char (λ c. is_letter c || c == 95)
    · star (char (λ c. is_letter c || is_digit c || c == 95 || c == 46))
    · lit ".")

abbrev log_call : Regex
log_call =
    lit "printStackTrace"
    or lit "println"
    or lit "print"
    or lit "log"
    or lit "warn"
    or lit "info"
    or lit "error"
    or lit "debug"

unfoldable pub log_only_catch_re : Regex
log_only_catch_re =
    catch_open · spaces · receiver · log_call · star (none_of ";{}") · lit ";" · spaces · lit "}"

unfoldable pub check_log_only_swallow : CheckFn
unfolding joined_added found_in log_only_catch_re
check_log_only_swallow patch site policy =
    if found_in log_only_catch_re (joined_added patch)
    then fails (
        text
          "added catch block only logs and continues; the cryptographic failure is swallowed and execution proceeds as success")
    else passes

unfoldable pub rule_fall_02 : RuleSpec
unfolding check_fail_open
rule_fall_02 = record {
  rule_id = text "PQ-FALL-02";
  layer = l1_syntactic;
  unsafe_class = some u7_fail_open;
  cwe = text "CWE-390";
  severity = text "high";
  rationale =
      text
        "The proposed patch contains an empty exception handler around cryptographic operations, making failure indistinguishable from success. Re-propose with the exception logged and re-thrown or otherwise handled explicitly.";
  check = check_fail_open;
}

unfoldable pub rule_fall_04 : RuleSpec
unfolding check_retry_in_catch
rule_fall_04 = record {
  rule_id = text "PQ-FALL-04";
  layer = l1_syntactic;
  unsafe_class = some u2_classical_fallback;
  cwe = text "CWE-757";
  severity = text "high";
  rationale =
      text
        "The proposed patch calls getInstance inside a catch block, so a failure of the migrated primitive silently retries another algorithm. Re-propose letting the failure propagate instead of downgrading.";
  check = check_retry_in_catch;
}

unfoldable pub rule_exc_01 : RuleSpec
unfolding check_catch_returns_success
rule_exc_01 = record {
  rule_id = text "PQ-EXC-01";
  layer = l1_syntactic;
  unsafe_class = some u7_fail_open;
  cwe = text "CWE-636";
  severity = text "high";
  rationale =
      text
        "The proposed patch returns success from an exception handler, so a failed cryptographic operation is indistinguishable from a successful one. Re-propose with failures propagated or reported as failures.";
  check = check_catch_returns_success;
}

unfoldable pub rule_exc_02 : RuleSpec
unfolding check_log_only_swallow
rule_exc_02 = record {
  rule_id = text "PQ-EXC-02";
  layer = l1_syntactic;
  unsafe_class = some u7_fail_open;
  cwe = text "CWE-390";
  severity = text "high";
  rationale =
      text
        "The proposed patch catches a cryptographic exception, logs it, and continues, so failure does not stop the operation. Re-propose rethrowing or failing closed after logging.";
  check = check_log_only_swallow;
}
