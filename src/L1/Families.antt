-- ===== src/L1/Families.antt =====
-- The rules of src/pqpatch/verifier/l1_syntactic/rules.py about algorithm families: PQ-KEY-01,
-- PQ-HYB-01, and the migration's scope and obligation, PQ-SCOPE-01 and PQ-MIG-01.
use nesy_pqpatch.Prelude.{
  Text, text, join, Bool, true, false, not, ◌&&◌, none, some, List, [], ◌∷◌, ◌++◌, any, keep,
  if◌then◌else◌,
}
use nesy_pqpatch.Model.{
  UsageClass, sign, verify, kem, envelope, l1_syntactic, u4_key_confusion, u6_hybrid_downgrade,
  Patch, Site, Policy,
}
use nesy_pqpatch.Python.{repr}
use nesy_pqpatch.Regex.{
  Regex, not_after, not_before, lit, ◌·◌, ◌or◌, optionally, repeat, digit, found_in,
}
use nesy_pqpatch.Rules.Spec.{CheckFn, RuleSpec}
use nesy_pqpatch.Diff.Lines.{added_lines, removed_lines, touched_files}
use nesy_pqpatch.Diff.Scope.{path_in_scope}
use nesy_pqpatch.Trace.Dumps.{text_lt}
use nesy_pqpatch.L1.Outcome.{passes, fails, joined_added}

-- r"ML-(?:KEM)(?:-\d{3,4})?|MLKEM(?:\d{3,4})?"
unfoldable pub kem_primitive_re : Regex
kem_primitive_re =
    (lit "ML-KEM" · optionally (lit "-" · repeat 3 1 digit))
    or (lit "MLKEM" · optionally (repeat 3 1 digit))

-- r"ML-(?:DSA)(?:-\d{2})?|MLDSA(?:\d{2})?|SLH-(?:DSA)|SLHDSA"
unfoldable pub signature_primitive_re : Regex
signature_primitive_re =
    (lit "ML-DSA" · optionally (lit "-" · repeat 2 0 digit))
    or (lit "MLDSA" · optionally (repeat 2 0 digit))
    or lit "SLH-DSA"
    or lit "SLHDSA"

abbrev pub establishes_key : UsageClass → Bool
establishes_key kem = true
establishes_key envelope = true
establishes_key _ = false

abbrev pub is_signature : UsageClass → Bool
is_signature sign = true
is_signature verify = true
is_signature _ = false

unfoldable pub check_primitive_family : CheckFn
unfolding joined_added found_in kem_primitive_re signature_primitive_re
check_primitive_family patch site policy =
    let has_kem = found_in kem_primitive_re (joined_added patch) in
    let has_signature = found_in signature_primitive_re (joined_added patch) in
    if establishes_key site.usage_class && has_signature && not has_kem
    then fails (
        text
          "key-establishment site introduces only a signature primitive; ML-KEM is required for KEM/envelope usage")
    else if is_signature site.usage_class && has_kem && not has_signature
    then fails (
        text
          "signature site introduces only a key-establishment primitive; ML-DSA or SLH-DSA is required for sign/verify usage")
    else passes

-- r"X25519(?!MLKEM)|ECDH"
unfoldable pub classical_kex_re : Regex
classical_kex_re = (lit "X25519" · not_before (text "MLKEM")) or lit "ECDH"

unfoldable pub mlkem_re : Regex
mlkem_re = lit "ML-KEM" or lit "MLKEM"

-- policy.hybrid_required.get(site.usage_class, False)
unfoldable pub needs_hybrid : Policy → Site → Bool
needs_hybrid policy site = elim (policy.hybrid_required site.usage_class) [
  | none ↦ false
  | some b ↦ b
]

unfoldable pub check_hybrid_downgrade : CheckFn
unfolding joined_added found_in mlkem_re classical_kex_re needs_hybrid
check_hybrid_downgrade patch site policy =
    if not (needs_hybrid policy site)
    then passes
    else if found_in mlkem_re (joined_added patch)
        && not (found_in classical_kex_re (joined_added patch))
    then fails (
        text
          "policy requires a hybrid construction for this usage class, but the added code contains only the post-quantum component (no classical X25519/ECDH contribution)")
    else passes

-- sorted(…) of texts
unfoldable pub insert_text : Text → List Text → List Text
unfolding text_lt
insert_text a [] = a ∷ []
insert_text a (b ∷ bs) = if text_lt b a then b ∷ insert_text a bs else a ∷ b ∷ bs

unfoldable pub sort_texts : List Text → List Text
unfolding insert_text
sort_texts [] = []
sort_texts (a ∷ as') = insert_text a (sort_texts as')

-- repr of a list of texts
unfoldable pub repr_all : List Text → List Text
unfolding repr
repr_all [] = []
repr_all (a ∷ rest) = repr a ∷ repr_all rest

unfoldable pub out_of_scope : Patch → Site → List Text
out_of_scope patch site =
    keep (λ f. not (path_in_scope f site.file_path)) (touched_files patch.unified_diff)

unfoldable pub check_scope : CheckFn
check_scope patch site policy = elim (sort_texts (out_of_scope patch site)) [
  | [] ↦ passes
  | f ∷ fs ↦ fails (
      text "patch modifies file(s) outside the permitted scope: ["
      ++ (join (text ", ") (repr_all (f ∷ fs)) ++ text "]"))
]

unfoldable pub pq_primitive_re : Regex
pq_primitive_re = lit "ML-KEM" or lit "ML-DSA" or lit "SLH-DSA"

-- r'RSA|ECDSA|(?<!ML-)DSA|ECDH|DiffieHellman|3?DES|"EC"'
unfoldable pub classical_at_site_re : Regex
classical_at_site_re =
    lit "RSA"
    or lit "ECDSA"
    or (not_after (text "-LM") · lit "DSA")
    or lit "ECDH"
    or lit "DiffieHellman"
    or (optionally (lit "3") · lit "DES")
    or lit "\"EC\""

unfoldable pub check_migration_obligation : CheckFn
check_migration_obligation patch site policy =
    if not (any (found_in pq_primitive_re) (added_lines patch.unified_diff))
    then fails (
        text
          "patch introduces no permitted post-quantum primitive (ML-KEM/ML-DSA/SLH-DSA); the vulnerable site is not migrated")
    else if not (any (found_in classical_at_site_re) (removed_lines patch.unified_diff))
    then fails (
        text
          "patch removes no classical primitive; the migration is vacuous (the quantum-vulnerable call is left in place)")
    else passes

unfoldable pub rule_key_01 : RuleSpec
unfolding check_primitive_family
rule_key_01 = record {
  rule_id = text "PQ-KEY-01";
  layer = l1_syntactic;
  unsafe_class = some u4_key_confusion;
  cwe = text "CWE-327";
  severity = text "high";
  rationale =
      text
        "The proposed patch uses a post-quantum primitive from the wrong algorithm family for this site: ML-KEM is for key establishment, while ML-DSA and SLH-DSA are for signatures. Re-propose using the family required by the detected usage class.";
  check = check_primitive_family;
}

unfoldable pub rule_hyb_01 : RuleSpec
unfolding check_hybrid_downgrade
rule_hyb_01 = record {
  rule_id = text "PQ-HYB-01";
  layer = l1_syntactic;
  unsafe_class = some u6_hybrid_downgrade;
  cwe = text "CWE-327";
  severity = text "high";
  rationale =
      text
        "The migration policy requires a hybrid classical+post-quantum construction for this usage class, but the proposed patch drops the classical component. Re-propose retaining both key-exchange contributions.";
  check = check_hybrid_downgrade;
}

unfoldable pub rule_scope_01 : RuleSpec
unfolding check_scope
rule_scope_01 = record {
  rule_id = text "PQ-SCOPE-01";
  layer = l1_syntactic;
  unsafe_class = none;
  cwe = text "CWE-668";
  severity = text "medium";
  rationale =
      text
        "The proposed patch modifies files outside the migration site's own file. Re-propose a patch scoped only to the target file.";
  check = check_scope;
}

unfoldable pub rule_mig_01 : RuleSpec
unfolding check_migration_obligation
rule_mig_01 = record {
  rule_id = text "PQ-MIG-01";
  layer = l1_syntactic;
  unsafe_class = none;
  cwe = text "CWE-327";
  severity = text "high";
  rationale =
      text
        "The proposed patch does not actually migrate the site: it must replace the classical primitive with a permitted post-quantum one (ML-KEM, ML-DSA, or SLH-DSA), not merely edit around it.";
  check = check_migration_obligation;
}
