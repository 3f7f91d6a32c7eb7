-- ===== src/Detector/Samples.antt =====
-- Scans, sites and their recovery (src/pqpatch/detector) on two small files.
use mathlib.Core.List.{Perm}
use nesy_pqpatch.Prelude.{
  ℕ, All, ◌<◌, ◌≤◌, length, ◌≡◌, refl, ◌⊎◌, inl, inr, Text, text, text_eq, Bool, false, true,
  splitlines, none, some, List, [], ◌∷◌, map, arith,
}
use nesy_pqpatch.Python.{Exception, Result, ok, raised}
use nesy_pqpatch.Model.{UsageClass, sign, verify, kem, Site}
use nesy_pqpatch.Conformance.{exited}
use nesy_pqpatch.Detector.Match.{RawMatch}
use nesy_pqpatch.Detector.Engine.{
  Invocation, timed_out, completed, Finding, Payload, raw_match, Host, cached_scan, scan_key,
  scan_repo,
}
use nesy_pqpatch.Detector.Engine.Scan.{Reports, Unavailable, scan_repo-cases}
use nesy_pqpatch.Detector.Classify.{classify, find_at}
use nesy_pqpatch.Detector.{
  detector_rule_ids, detect, name_or, site_at, sites_from_matches, recover_recorded_site,
}
use nesy_pqpatch.Detector.Partition.{IsSiteOf, AreSitesOf, IsClassifiable}
use nesy_pqpatch.Detector.Detect.{detect-perm}
use nesy_pqpatch.Detector.Recovery.{IsRecovered, detected_site-recovers}

-- A file that verifies, and one that agrees on a key.
abbrev source_a : Text
source_a = text "s = Signature.getInstance(a);\ns.initVerify(k);\ns.initSign(k);"

abbrev source_b : Text
source_b = text "g = KeyPairGenerator.getInstance(a);\nKeyAgreement.getInstance(b);"

abbrev read_file : Text → Result Text
read_file path = ok (if_a (text_eq path (text "A")))
  where
    if_a : Bool → Text
    if_a true = source_a
    if_a false = source_b

abbrev finding : Text → Text → ℕ → Finding
finding check_id path line = record {
  check_id = check_id;
  path = path;
  start_line = line;
  end_line = line;
}

abbrev findings : List Finding
findings =
    finding (text "pack.pq-detect-signature") (text "A") 1
    ∷ finding (text "pack.pq-detect-keypairgenerator") (text "B") 1
    ∷ finding (text "pack.pq-detect-signature") (text "A") 3
    ∷ []

abbrev payload : Payload
payload = record { has_errors = false; errors_json = text "[]"; results = findings }

-- The first run times out; the second ends with 2.
abbrev runs : ℕ → Invocation
runs ℕ.zero = timed_out
runs (ℕ.suc n) = completed (exited 2) (text "{}") []

abbrev host : Host
host = record {
  sha256_hex = λ bs. text "d";
  resolve = λ p. p;
  pack_dir = text "pack";
  pack_exists = true;
  files = λ root pattern. [];
  invoke = λ repo. runs;
  loads = λ s. ok payload;
}

abbrev matches : List RawMatch
matches = map raw_match findings

scanned : scan_repo host [] (text "r") ≡ ((scan_key host (text "r"), matches) ∷ [], ok matches)
unfolding scan_repo
scanned = refl

scan_repo-cases_example :
    ((ms : List RawMatch) × (scan_repo host [] (text "r") ≡ ([], ok ms))
      × (cached_scan (scan_key host (text "r")) [] ≡ some ms))
    ⊎ (((ms : List RawMatch) × (scan_repo host [] (text "r")
            ≡ ((scan_key host (text "r"), ms) ∷ [], ok ms))
          × (cached_scan (scan_key host (text "r")) [] ≡ none)
          × Reports host (text "r") ms)
        ⊎ ((exc : Exception) × (scan_repo host [] (text "r") ≡ ([], raised exc))
            × Unavailable host (text "r")))
scan_repo-cases_example = scan_repo-cases host [] (text "r")

-- A digest that keeps the text.
abbrev digest : Text → Text
digest s = s

abbrev at : Text → ℕ → Text → UsageClass → Site
at = site_at digest read_file (text "r")

abbrev sites : List Site
sites =
    at (text "A") 1 (text "pq-detect-signature") verify
    ∷ at (text "A") 3 (text "pq-detect-signature") sign
    ∷ at (text "B") 1 (text "pq-detect-keypairgenerator") kem
    ∷ []

detected : sites_from_matches digest read_file (text "r") matches ≡ ok sites
unfolding sites_from_matches raw_match text_eq find_at
detected = refl

matches-IsClassifiable : All (IsClassifiable digest read_file (text "r")) matches
unfolding raw_match detector_rule_ids text_eq
matches-IsClassifiable = (
  ((source_a, refl), inr (inl refl)),
  (((source_b, refl), inl refl), (((source_a, refl), inr (inl refl)), tt)),
)

reported : Reports host (text "r") matches
unfolding raw_match
reported = record {
  attempt = 1;
  in_time = omega arith;
  before = λ n low high. first n high;
  code = exited 2;
  stdout = text "{}";
  stderr = [];
  payload = payload;
  ended = refl;
  loaded = refl;
  success = inr (inr (refl, refl));
  matches = refl;
}
  where
    first : (n : ℕ) → n < 1 → runs n ≡ timed_out
    first ℕ.zero h = refl
    first (ℕ.suc n) h = absurd (omega arith)

detect-perm_example :
    (returned : List Site) × (ordered : List RawMatch) × (detect host digest read_file []
        (text "r")
        (text "r")
        none
      ≡ ((scan_key host (text "r"), matches) ∷ [], ok returned))
    × Perm ordered matches
    × AreSitesOf digest read_file (text "r") ordered returned
unfolding name_or cached_scan
detect-perm_example =
    detect-perm host digest read_file [] (text "r") (text "r") none matches refl refl reported
      matches-IsClassifiable

abbrev signing : RawMatch
signing = record {
  rule_id = text "pq-detect-signature";
  file_path = text "A";
  line = 3;
  end_line = 3;
  matched_code_hint = text "pq-detect-signature";
}

abbrev signing_site : Site
signing_site = at (text "A") 3 (text "pq-detect-signature") sign

signing-IsSiteOf : IsSiteOf digest read_file (text "r") signing signing_site
unfolding classify site_at text_eq find_at splitlines
signing-IsSiteOf = record {
  source = source_a;
  source_read = refl;
  classified = refl;
  is_site = refl;
}

three_lines : 3 ≤ length (splitlines source_a)
unfolding splitlines
three_lines = omega arith

detected_site-recovers_example :
    (t : Site) × (recover_recorded_site digest read_file
        (text "r")
        (text "/r")
        (text "B" ∷ text "A" ∷ [])
        signing_site.site_id
        signing_site.usage_class
      ≡ ok t)
    × IsRecovered digest read_file
        (text "r")
        signing_site.site_id
        signing_site.usage_class
        (text "B" ∷ text "A" ∷ [])
        t
unfolding text_eq signing-IsSiteOf
detected_site-recovers_example =
    detected_site-recovers digest read_file (text "r") (text "/r") (text "B" ∷ text "A" ∷ [])
      signing signing_site signing-IsSiteOf ((source_b, refl), ((source_a, refl), tt))
      (inr (inl refl)) (omega arith) three_lines
