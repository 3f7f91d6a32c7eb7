-- ===== src/Detector/Detect.antt =====
-- What src/pqpatch/detector/api.py detects in a repository.
use mathlib.Core.List.{Perm}
use nesy_pqpatch.Prelude.{◌≡◌, ap, ◌∙◌, Text, true, Option, none, List, ◌∷◌, All}
use nesy_pqpatch.Model.{Site}
use nesy_pqpatch.Python.{Result, ok, ◌>>=◌}
use nesy_pqpatch.Detector.Match.{RawMatch}
use nesy_pqpatch.Detector.Engine.{Host, ScanCache, cached_scan, scan_key}
use nesy_pqpatch.Detector.Engine.Scan.{Reports, scan_repo-Reports}
use nesy_pqpatch.Detector.Partition.{IsClassifiable, AreSitesOf, sites_from_matches-perm}
use nesy_pqpatch.Detector.{name_or, sites_from_matches, detect}

module _ (host : Host) (sha256_hex : Text → Text) (read_text : Text → Result Text) where
  -- Where the rules are there, no scan is kept for these contents, and the first run that does not
  -- time out gives a report that can be taken, and where the file of each match of the report can be
  -- read and its rule is one of the four of the detector, the repository's sites are returned: those
  -- of the matches, one for each, in some order; and the scan is kept.
  pub detect-perm :
      (cache : ScanCache) (repo_path dir_name : Text) (repo_name : Option Text) (ms : List RawMatch)
      → host.pack_exists ≡ true
      → cached_scan (scan_key host repo_path) cache ≡ none
      → Reports host repo_path ms
      → All (IsClassifiable sha256_hex read_text (name_or dir_name repo_name)) ms
      → (sites : List Site) × (ordered : List RawMatch) × (detect host sha256_hex read_text cache
            repo_path dir_name repo_name
          ≡ ((scan_key host repo_path, ms) ∷ cache, ok sites))
        × Perm ordered ms
        × AreSitesOf sha256_hex read_text (name_or dir_name repo_name) ordered sites
  unfolding detect
  detect-perm cache repo_path dir_name repo_name ms there miss r p =
      let repo = name_or dir_name repo_name in
      let (sites, ordered, returned, perm, are) =
        sites_from_matches-perm sha256_hex read_text repo ms p in
      (
        sites,
        ordered,
        ap (λ x. (x.0, x.1 >>= sites_from_matches sha256_hex read_text repo))
              (scan_repo-Reports host cache repo_path ms there miss r)
            ∙ ap (λ x. ((scan_key host repo_path, ms) ∷ cache, x)) returned,
        perm,
        are,
      )
