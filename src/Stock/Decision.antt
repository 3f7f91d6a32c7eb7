-- ===== src/Stock/Decision.antt =====
-- What a PASS of src/pqpatch/verifier/l1_stock/__init__.py's `check` means.
use nesy_pqpatch.Prelude.{
  zero, ◌≤◌, ◌≡◌, ◌≢◌, refl, sym, ap, ◌∙◌, ◌⊎◌, Text, text_eq, text_eq→eq, text_eq_self, strip,
  Bool, true, false, Bool-cases, inl, inr, not, List, [], ◌∷◌, any, keep, ltb, arith,
}
use nesy_pqpatch.Model.{pass, Patch, Site, Policy}
use nesy_pqpatch.Python.{Result, ok, raised}
use nesy_pqpatch.Rules.Spec.{RuleOutcome}
use nesy_pqpatch.Diff.Apply.{apply_unified_diff}
use nesy_pqpatch.L1.Guarantees.{sort_texts-nil}
use nesy_pqpatch.Stock.{
  count, distinct_rules, introduced, Scanner, judge, scan_patched, scan_source, check_stock,
}

abbrev listed : Text → List Text → Bool
listed rule = any (λ s. text_eq s rule)

keep-empty :
    (p : Text → Bool) (rule : Text) (xs : List Text)
    → keep p xs ≡ []
    → listed rule xs ≡ true
    → p rule ≡ false
keep-empty p rule [] h m = cc
keep-empty p rule (x ∷ xs) h m = elim (Bool-cases (p x)) [
  | inl t ↦ absurd (ground (arith, t, h))
  | inr f ↦ elim (Bool-cases (text_eq x rule)) [
    | inl same ↦ ap p (sym (text_eq→eq x rule same)) ∙ f
    | inr differ ↦ keep-empty p rule xs (rw f at h) (rw differ at m)
  ]
]

listed-keep :
    (r rule : Text) (xs : List Text)
    → text_eq r rule ≡ false
    → listed rule xs ≡ true
    → listed rule (keep (λ s. not (text_eq s r)) xs) ≡ true
listed-keep r rule [] d m = cc
listed-keep r rule (x ∷ xs) d m = elim (Bool-cases (text_eq x rule)) [
  | inl same ↦ elim (Bool-cases (text_eq x r)) [
    | inl t ↦
        let e = sym (text_eq→eq x r t) ∙ text_eq→eq x rule same in
        let contradiction = sym (text_eq_self r) ∙ (ap (text_eq r) e ∙ d) in cc
    | inr f ↦ rw (f, same) refl
  ]
  | inr differ ↦ elim (Bool-cases (text_eq x r)) [
    | inl t ↦ rw t (listed-keep r rule xs d (rw differ at m))
    | inr f ↦ rw (f, differ) (listed-keep r rule xs d (rw differ at m))
  ]
]

-- a rule that has a finding is among the distinct ones
count-listed :
    (rule : Text) (xs : List Text)
    → (count rule xs ≡ zero) ⊎ (listed rule (distinct_rules xs) ≡ true)
unfolding count distinct_rules
count-listed rule [] = inl refl
count-listed rule (x ∷ xs) = elim (Bool-cases (text_eq x rule)) [
  | inl same ↦ inr (rw same refl)
  | inr differ ↦ elim (count-listed rule xs) [
    | inl none_there ↦ inl (rw differ none_there)
    | inr there ↦ inr (rw differ (listed-keep x rule (distinct_rules xs) differ there))
  ]
]

introduced-none :
    (before after : List Text)
    → introduced before after ≡ []
    → (rule : Text) → count rule after ≤ count rule before
unfolding introduced
introduced-none before after h rule =
    let kept =
      sort_texts-nil (keep (λ r. ltb (count r before) (count r after)) (distinct_rules after)) h in
    elim (count-listed rule after) [
      | inl none_there ↦ rw none_there (omega arith)
      | inr there ↦
          let no_more =
            keep-empty (λ r. ltb (count r before) (count r after)) rule (distinct_rules after) kept
              there in
          ground (arith, no_more)
    ]

module _ (scanner : Scanner) where
  -- The diff applies to the site's file, and no rule has more findings in the patched text.
  abbrev pub NothingNew : Text → Text → Type 0
  NothingNew file_path unified_diff =
      (original : Text) × (patched : Text) × (scanner.read_text file_path ≡ ok original)
      × (apply_unified_diff original unified_diff ≡ ok patched)
      × ((rule : Text) → count rule (scanner.scan patched) ≤ count rule (scanner.scan original))

  judge-pass :
      (rules : List Text) (x : RuleOutcome)
      → judge scanner rules ≡ ok x
      → x.status ≡ pass
      → rules ≡ []
  unfolding judge
  judge-pass [] x h p = refl
  judge-pass (rule ∷ rules) x h p = absurd (ground (arith, h, p))

  scan_patched-pass :
      (original : Text) (r : Result Text) (x : RuleOutcome)
      → scan_patched scanner original r ≡ ok x
      → x.status ≡ pass
      → (patched : Text) × (r ≡ ok patched)
        × ((rule : Text) → count rule (scanner.scan patched) ≤ count rule (scanner.scan original))
  unfolding scan_patched
  scan_patched-pass original (ok patched) x h p = (
    patched,
    refl,
    introduced-none (scanner.scan original) (scanner.scan patched)
        (judge-pass (introduced (scanner.scan original) (scanner.scan patched)) x h p),
  )
  scan_patched-pass original (raised exc) x h p = absurd (ground (arith, h, p))

  scan_source-pass :
      (patch : Patch) (file_path : Text) (r : Result Text) (x : RuleOutcome)
      → scanner.read_text file_path ≡ r
      → scan_source scanner patch r ≡ ok x
      → x.status ≡ pass
      → NothingNew file_path patch.unified_diff
  unfolding scan_source
  scan_source-pass patch file_path (raised exc) x e h p = absurd (ground (arith, h))
  scan_source-pass patch file_path (ok original) x e h p =
      let (patched, applied, counts) =
        scan_patched-pass original (apply_unified_diff original patch.unified_diff) x h p in
      (original, patched, e, applied, counts)

  -- If the check returns PASS on a diff that is not blank, the diff applies to the site's file, and
  -- no rule of the scanner has more findings in the patched text than in the original.
  pub check_stock-pass :
      (patch : Patch) (site : Site) (policy : Policy) (x : RuleOutcome)
      → strip patch.unified_diff ≢ []
      → check_stock scanner patch site policy ≡ ok x
      → x.status ≡ pass
      → NothingNew site.file_path patch.unified_diff
  unfolding check_stock
  check_stock-pass patch site policy x blank h p = go (strip patch.unified_diff) refl
    where
      go : (s : Text) → strip patch.unified_diff ≡ s → NothingNew site.file_path patch.unified_diff
      go [] e = absurd (blank e)
      go (c ∷ s) e =
          scan_source-pass patch site.file_path (scanner.read_text site.file_path) x refl
            (rw (e, check_stock) at h) p
