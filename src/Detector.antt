-- ===== src/Detector.antt =====
-- src/pqpatch/detector/api.py: the sites of the matches, and the recovery of a recorded site.
-- `Classify` is classify.py, and `Engine` engine.py. The files and SHA-256 are parameters.
pub mod Match
pub mod Classify
pub mod Engine
pub mod Rules
pub mod Partition
pub mod Recovery
pub mod Detect
mod Samples
use nesy_pqpatch.Prelude.{
  ℕ, suc, ◌+◌, ◌-◌, Text, text, text_eq, starts_with, splitlines, join, Bool, ◌&&◌, ◌||◌, not,
  Option, none, some, List, [], ◌∷◌, ◌++◌, is_none, length, take, slice, ltb, if◌then◌else◌,
}
use nesy_pqpatch.Detector.Match.{RawMatch}
use nesy_pqpatch.Detector.Engine.{Host, ScanCache, scan_repo}
use nesy_pqpatch.Model.{UsageClass, sign, verify, kem, envelope, Site}
use nesy_pqpatch.Python.{◌>>=◌, Result, ok, raised, value_error, repr, decimal}
use nesy_pqpatch.Detector.Classify.{default_window, classify}

unfoldable pub detector_rule_ids : List Text
detector_rule_ids =
    text "pq-detect-keypairgenerator"
    ∷ text "pq-detect-signature"
    ∷ text "pq-detect-cipher-envelope"
    ∷ text "pq-detect-keyagreement"
    ∷ []

unfoldable pub matched_symbol : Text → Text
unfolding text_eq
matched_symbol rule_id =
    if text_eq rule_id (text "pq-detect-keypairgenerator")
    then text "KeyPairGenerator.getInstance"
    else if text_eq rule_id (text "pq-detect-signature")
    then text "Signature.getInstance"
    else if text_eq rule_id (text "pq-detect-cipher-envelope")
    then text "Cipher.getInstance"
    else if text_eq rule_id (text "pq-detect-keyagreement")
    then text "KeyAgreement.getInstance"
    else rule_id

-- The dictionary from a file to its matches, in the order in which the files first occur.
abbrev pub Groups : Type 0
Groups = List (Text × List RawMatch)

-- by_file.setdefault(m.file_path, []).append(m)
unfoldable pub add_match : RawMatch → Groups → Groups
unfolding text_eq
add_match m [] = (m.file_path, m ∷ []) ∷ []
add_match m ((file_path, ms) ∷ groups) =
    let rest = add_match m groups in
    if text_eq file_path m.file_path
    then (file_path, ms ++ m ∷ []) ∷ groups
    else (file_path, ms) ∷ rest

unfoldable pub group_from : Groups → List RawMatch → Groups
unfolding add_match
group_from groups [] = groups
group_from groups (m ∷ ms) = group_from (add_match m groups) ms

-- a site that is returned, or else the rest of the search
unfoldable pub or_next : Option Site → Result (Option Site) → Result (Option Site)
or_next none rest = rest
or_next (some site) rest = ok (some site)

module _ (sha256_hex : Text → Text) (read_text : Text → Result Text) (repo : Text) where
  unfoldable pub site_id : Text → ℕ → Text → Text
  site_id file_path line rule_id =
      text "site-"
      ++ take 16 (
          sha256_hex (
            repo
            ++ (text ":" ++ (file_path ++ (text ":" ++ (decimal line ++ (text ":" ++ rule_id)))))))

  unfoldable pub site_at : Text → ℕ → Text → UsageClass → Site
  unfolding site_id matched_symbol
  site_at file_path line rule_id usage_class = record {
    site_id = site_id file_path line rule_id;
    repo = repo;
    file_path = file_path;
    line = line;
    usage_class = usage_class;
    matched_symbol = matched_symbol rule_id;
    detector_rule_id = rule_id;
  }

  -- the sites of one file
  unfoldable pub sites_of_file : Text → List Text → List RawMatch → Result (List Site)
  unfolding site_at classify
  sites_of_file file_path source_lines [] = ok []
  sites_of_file file_path source_lines (m ∷ ms) = do
    usage_class ← classify m source_lines default_window
    sites ← sites_of_file file_path source_lines ms
    ok (site_at file_path m.line m.rule_id usage_class ∷ sites)

  unfoldable pub sites_of_groups : Groups → Result (List Site)
  unfolding sites_of_file splitlines
  sites_of_groups [] = ok []
  sites_of_groups ((file_path, ms) ∷ groups) = do
    source ← read_text file_path
    sites ← sites_of_file file_path (splitlines source) ms
    others ← sites_of_groups groups
    ok (sites ++ others)

  unfoldable pub sites_from_matches : List RawMatch → Result (List Site)
  unfolding sites_of_groups group_from
  sites_from_matches ms = sites_of_groups (group_from [] ms)

  -- The loop over the rules, and that over the lines from `line` on.
  unfoldable pub recover_rule : Text → UsageClass → Text → ℕ → List Text → Option Site
  unfolding site_at site_id text_eq
  recover_rule wanted usage_class file_path line [] = none
  recover_rule wanted usage_class file_path line (rule_id ∷ rule_ids) =
      if text_eq (site_id file_path line rule_id) wanted
      then some (site_at file_path line rule_id usage_class)
      else recover_rule wanted usage_class file_path line rule_ids

  unfoldable pub recover_line : Text → UsageClass → Text → ℕ → ℕ → Option Site
  unfolding recover_rule
  recover_line wanted usage_class file_path line ℕ.zero = none
  recover_line wanted usage_class file_path line (suc count) =
      let rest = recover_line wanted usage_class file_path (suc line) count in
      elim (recover_rule wanted usage_class file_path line detector_rule_ids) [
        | some site ↦ some site
        | none ↦ rest
      ]

  -- The loop over the files, which `sorted(repo_path.rglob("*.java"))` gives, resolved. A file is
  -- read when it is reached.
  unfoldable pub recover_file : Text → UsageClass → List Text → Result (Option Site)
  unfolding recover_line splitlines or_next
  recover_file wanted usage_class [] = ok none
  recover_file wanted usage_class (file_path ∷ file_paths) =
      let rest = recover_file wanted usage_class file_paths in
      do
        source ← read_text file_path
        or_next (recover_line wanted usage_class file_path 1 (length (splitlines source))) rest

  unfoldable pub not_recovered : Text → Text → Result Site
  not_recovered repo_path wanted = raised (
      value_error
        (text "could not recover recorded site " ++ (repr wanted ++ (text " under " ++ repo_path))))

  unfoldable pub recover_recorded_site : Text → List Text → Text → UsageClass → Result Site
  unfolding recover_file not_recovered
  recover_recorded_site repo_path file_paths wanted usage_class = do
    found ← recover_file wanted usage_class file_paths
    elim found [ none ↦ not_recovered repo_path wanted | some site ↦ ok site ]

-- repo_name or repo_path.name
unfoldable pub name_or : Text → Option Text → Text
name_or dir_name none = dir_name
name_or dir_name (some []) = dir_name
name_or dir_name (some (c ∷ name)) = c ∷ name

-- The cache of the scans afterwards, and the sites; `dir_name` is the last part of the path.
unfoldable pub detect :
    Host
    → (Text → Text)
    → (Text → Result Text)
    → ScanCache
    → Text
    → Text
    → Option Text
    → ScanCache × Result (List Site)
unfolding name_or
detect host sha256_hex read_text cache repo_path dir_name repo_name =
    let (after, scanned) = scan_repo host cache repo_path in
    (after, scanned >>= sites_from_matches sha256_hex read_text (name_or dir_name repo_name))
