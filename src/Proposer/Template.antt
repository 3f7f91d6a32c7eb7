-- ===== src/Proposer/Template.antt =====
-- src/pqpatch/proposer/template_backend.py: the backend that rewrites one literal. The files,
-- `difflib.unified_diff` and SHA-256 are parameters.
pub mod Escalates
mod Samples
use nesy_pqpatch.Prelude.{
  ℕ, ◌-◌, Text, text, splitlines_keepends, Bool, not, ◌&&◌, Option, none, some, List, [], ◌∷◌, ◌++◌,
  length, take, drop, get_elem?, leb, ltb, is_none, if◌then◌else◌,
}
use nesy_pqpatch.Model.{Site, Context, Policy, Patch}
use nesy_pqpatch.Python.{◌>>=◌, Result, ok, raised}
use nesy_pqpatch.Regex.{
  Regex, Found, lit, ◌·◌, ◌or◌, spaces, some_of, none_of, group, search, found_in, group_of,
}

-- r'getInstance\(\s*"([^"]+)"'
unfoldable pub template_literal : Regex
template_literal =
    lit "getInstance(" · spaces · lit "\"" · group 1 (some_of (none_of "\"")) · lit "\""

unfoldable pub pq_token : Regex
pq_token =
    lit "ML-KEM" or lit "ML-DSA" or lit "SLH-DSA" or lit "MLKEM" or lit "MLDSA" or lit "SLHDSA"

-- match.start(1) and match.end(1): the group ends before the last character of the match.
unfoldable pub literal_end : Found → ℕ
literal_end m = length m.to.before - 1

unfoldable pub literal_start : Found → ℕ
unfolding literal_end group_of
literal_start m = literal_end m - length (group_of 1 m)

-- line[: match.start(1)] + target + line[match.end(1) :]
unfoldable pub new_line : Text → Text → Found → Text
unfolding literal_start literal_end
new_line target line m = take (literal_start m) line ++ (target ++ drop (literal_end m) line)

-- the new line, where there is a literal that is not post-quantum
unfoldable pub rewrite_match : Text → Text → Option Found → Option Text
unfolding new_line pq_token group_of found_in
rewrite_match target line none = none
rewrite_match target line (some m) =
    if not (found_in pq_token (group_of 1 m)) then some (new_line target line m) else none

unfoldable pub rewrite_line : Text → Option Text → Option Text
unfolding rewrite_match search template_literal
rewrite_line target none = none
rewrite_line target (some line) = rewrite_match target line (search template_literal line)

-- lines[site.line - 1] where 0 < site.line <= len(lines)
unfoldable pub site_line : List Text → ℕ → Option Text
site_line lines n = if ltb 0 n && leb n (length lines) then get_elem? lines (n - 1) else none

-- lines with one line replaced
unfoldable pub set_line : List Text → ℕ → Text → List Text
set_line lines n line = take (n - 1) lines ++ line ∷ drop n lines

-- the target and the patched lines, where the template applies
unfoldable pub rewrite_site : Option Text → List Text → ℕ → Option (Text × List Text)
unfolding rewrite_line site_line set_line
rewrite_site none lines n = none
rewrite_site (some target) lines n = elim (rewrite_line target (site_line lines n)) [
  | none ↦ none
  | some line ↦ some (target, set_line lines n line)
]

pub record Files : Type 0 where
  -- Path(…).read_text(encoding="utf-8")
  pub read_text : Text → Result Text
  -- "".join(difflib.unified_diff(lines, patched, fromfile=…, tofile=…))
  pub unified_diff : List Text → List Text → Text → Text → Text
  pub sha256_hex : Text → Text

module _ (files : Files) where
  unfoldable pub template_patch : Site → ℕ → Text → Text → Text → Patch
  template_patch site attempt prompt_version diff claimed = record {
    site_id = site.site_id;
    attempt = attempt;
    unified_diff = diff;
    claimed_primitive = claimed;
    claimed_parameters = claimed;
    backend_id = text "template-rewriter";
    prompt_version = prompt_version;
    response_hash = files.sha256_hex diff;
  }

  unfoldable pub patch_from : Site → ℕ → Text → List Text → Option (Text × List Text) → Patch
  unfolding template_patch
  patch_from site attempt prompt_version lines none =
      template_patch site attempt prompt_version [] []
  patch_from site attempt prompt_version lines (some (target, patched)) =
      template_patch site attempt prompt_version
        (files.unified_diff lines patched (text "a/" ++ site.file_path)
          (text "b/" ++ site.file_path))
        target

  -- The arguments are those of `Propose`: the feedback and the seed are dropped.
  unfoldable pub template_propose : Context → Policy → Option Text → ℕ → ℕ → Text → Result Patch
  unfolding patch_from rewrite_site splitlines_keepends
  template_propose context policy feedback attempt seed prompt_version = do
    original ← files.read_text context.site.file_path
    let lines = splitlines_keepends original
    ok (
        patch_from context.site attempt prompt_version lines
          (rewrite_site (policy.floors context.site.usage_class) lines context.site.line))
