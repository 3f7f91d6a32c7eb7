-- ===== src/L2/Checks.antt =====
-- The checks of src/pqpatch/verifier/l2_dataflow/rules.py: each applies the patch, analyses the
-- patched source, and judges what the analysis says.
use nesy_pqpatch.Prelude.{
  ℕ, Text, text, Bool, true, false, Option, none, some, List, [], ◌∷◌, ◌++◌, any, ltb,
  if◌then◌else◌,
}
use nesy_pqpatch.Model.{UsageClass, verify, RuleStatus, Patch, Site}
use nesy_pqpatch.Python.{◌>>=◌, file_not_found, diff_apply, Exception, Result, ok, raised, decimal}
use nesy_pqpatch.Rules.Spec.{RuleOutcome, CheckFn}
use nesy_pqpatch.Rules.Ranks.{floor_rank, token_rank}
use nesy_pqpatch.Diff.Apply.{apply_unified_diff}
use nesy_pqpatch.L1.Outcome.{passes, fails}
use nesy_pqpatch.L1.Families.{sort_texts}
use nesy_pqpatch.L2.VerifyUse.{VerifyUse, discarded, Parser, classify_verify_uses}
use nesy_pqpatch.L2.KeyFlow.{KeyFlow, classify_key_flow}
use nesy_pqpatch.L2.Hybrid.{HybridFlow, classify_hybrid_flow}
use nesy_pqpatch.L2.HybridUse.{HybridUse, classify_hybrid_use}
use nesy_pqpatch.L2.Seed.{SeedFlow, classify_seed_provenance}
use nesy_pqpatch.L2.Prng.{PrngSeed, classify_prng_seed}
use nesy_pqpatch.L2.Tokens.{algorithm_tokens_reaching_getinstance}
use nesy_pqpatch.L2.Bypass.{VerifyBypass, classify_verify_bypass}

-- What the rules use of the outside: the files, and the parser of Java.
pub record Frontend : Type 0 where
  pub read_text : Text → Result Text
  pub parse : Parser

abbrev pub errs : Text → Result RuleOutcome
errs detail = ok (record { status = RuleStatus.error; detail = detail })

-- except (FileNotFoundError, DiffApplyError)
unfoldable pub cannot_analyze : Exception → Result RuleOutcome
cannot_analyze exc = elim exc.kind [
  | file_not_found ↦ errs (text "cannot analyze patched source: " ++ exc.message)
  | diff_apply ↦ errs (text "cannot analyze patched source: " ++ exc.message)
  | _ ↦ raised exc
]

unfoldable pub with_patched : (Text → Result RuleOutcome) → Result Text → Result RuleOutcome
with_patched judge (ok patched) = judge patched
with_patched judge (raised exc) = cannot_analyze exc

-- the site's file has the class VERIFY
abbrev pub is_verify : UsageClass → Bool
is_verify verify = true
is_verify _ = false

abbrev pub is_indeterminate : VerifyUse → Bool
is_indeterminate VerifyUse.indeterminate = true
is_indeterminate _ = false

abbrev pub is_discarded : VerifyUse → Bool
is_discarded discarded = true
is_discarded _ = false

unfoldable pub judge_verify_uses : List VerifyUse → Result RuleOutcome
judge_verify_uses [] =
    fails (text "migrated verification site contains no verify() result to validate")
judge_verify_uses (u ∷ us) =
    if any is_indeterminate (u ∷ us)
    then errs (text "verify() result has an unsupported shape; L2 cannot prove it checked")
    else if any is_discarded (u ∷ us)
    then fails (text "verify() result is discarded or never reaches a branch/return value")
    else passes

unfoldable pub judge_key_flow : KeyFlow → Result RuleOutcome
judge_key_flow KeyFlow.cross_family = fails (
    text
      "a key generated for one algorithm family flows into an operation of the other family (cross-family key confusion)")
judge_key_flow KeyFlow.indeterminate =
    errs (text "patched source did not parse; L2 cannot prove key-family separation")
judge_key_flow KeyFlow.consistent = passes

unfoldable pub judge_hybrid_flow : HybridFlow → Result RuleOutcome
judge_hybrid_flow HybridFlow.downgraded = fails (
    text
      "hybrid context produces both a classical and a post-quantum shared secret, but only one reaches the key-derivation combiner (hybrid downgrade)")
judge_hybrid_flow HybridFlow.indeterminate =
    errs (text "patched source did not parse; L2 cannot prove hybrid completeness")
judge_hybrid_flow HybridFlow.complete = passes
judge_hybrid_flow HybridFlow.not_hybrid = passes

unfoldable pub judge_seed_flow : SeedFlow → Result RuleOutcome
judge_seed_flow SeedFlow.literal_seeded = fails (
    text
      "a fixed/literal seed reaches SecureRandom through a variable, making key-generation randomness predictable")
judge_seed_flow SeedFlow.indeterminate =
    errs (text "patched source did not parse; L2 cannot prove seed provenance")
judge_seed_flow SeedFlow.clean = passes

unfoldable pub judge_prng_seed : PrngSeed → Result RuleOutcome
judge_prng_seed PrngSeed.deterministic = fails (
    text
      "a SHA1PRNG SecureRandom receives a constant setSeed before its first use, so its entire output stream is deterministic")
judge_prng_seed PrngSeed.indeterminate =
    errs (text "patched source did not parse; L2 cannot prove seed ordering")
judge_prng_seed PrngSeed.safe = passes

unfoldable pub judge_hybrid_use : HybridUse → Result RuleOutcome
judge_hybrid_use HybridUse.raw = fails (
    text
      "the combined hybrid secret is used raw (returned without a KDF); hybrid constructions require a derivation over the combined secret")
judge_hybrid_use HybridUse.indeterminate =
    errs (text "patched source did not parse; L2 cannot prove the combined secret is derived")
judge_hybrid_use HybridUse.derived = passes
judge_hybrid_use HybridUse.not_applicable = passes

unfoldable pub judge_verify_bypass : VerifyBypass → Result RuleOutcome
judge_verify_bypass VerifyBypass.bypassed = fails (
    text
      "the verify() result is OR-ed with another condition, so the branch can succeed with verification failed (bypass)")
judge_verify_bypass VerifyBypass.indeterminate = errs (
    text
      "patched source did not parse; L2 cannot prove the verify result solely governs the branch")
judge_verify_bypass VerifyBypass.safe = passes

-- the loop over the sorted tokens
unfoldable pub judge_tokens : Text → ℕ → List Text → Result RuleOutcome
judge_tokens floor floor_rank [] = passes
judge_tokens floor floor_rank (token ∷ tokens) =
    let rest = judge_tokens floor floor_rank tokens in
    elim (token_rank token) [
      | none ↦ rest
      | some rank ↦
          if ltb rank floor_rank
          then fails (
              text "parameter "
              ++ (token
                  ++ (text " (category rank "
                      ++ (decimal rank
                          ++ (text
                                ") reaches getInstance in the patched source, below the policy floor "
                              ++ (floor
                                  ++ (text " (category rank "
                                      ++ (decimal floor_rank ++ text ")"))))))))
          else rest
    ]

unfoldable pub judge_token_set : Text → ℕ → Option (List Text) → Result RuleOutcome
judge_token_set floor floor_rank none =
    errs (text "patched source did not parse; L2 cannot prove the parameter floor")
judge_token_set floor floor_rank (some tokens) = judge_tokens floor floor_rank (sort_texts tokens)

module _ (frontend : Frontend) where
  unfoldable pub patched_source : Patch → Site → Result Text
  patched_source patch site = do
    original ← frontend.read_text site.file_path
    apply_unified_diff original patch.unified_diff

  unfoldable pub check_verify_result : CheckFn
  check_verify_result patch site policy =
      if is_verify site.usage_class
      then with_patched (λ patched. judge_verify_uses (classify_verify_uses frontend.parse patched))
          (patched_source patch site)
      else passes

  unfoldable pub check_key_confusion : CheckFn
  check_key_confusion patch site policy =
      with_patched (λ patched. judge_key_flow (classify_key_flow frontend.parse patched))
        (patched_source patch site)

  unfoldable pub check_hybrid_completeness : CheckFn
  check_hybrid_completeness patch site policy =
      with_patched (λ patched. judge_hybrid_flow (classify_hybrid_flow frontend.parse patched))
        (patched_source patch site)

  unfoldable pub check_seed_provenance : CheckFn
  check_seed_provenance patch site policy =
      with_patched (λ patched. judge_seed_flow (classify_seed_provenance frontend.parse patched))
        (patched_source patch site)

  -- below a floor whose rank is known
  unfoldable pub check_floor : Patch → Site → Text → Option ℕ → Result RuleOutcome
  check_floor patch site floor none = passes
  check_floor patch site floor (some rank) =
      with_patched
        (λ patched.
          judge_token_set floor rank (algorithm_tokens_reaching_getinstance frontend.parse patched))
        (patched_source patch site)

  unfoldable pub check_param_flow : CheckFn
  check_param_flow patch site policy = elim (policy.floors site.usage_class) [
    | none ↦ passes
    | some floor ↦ check_floor patch site floor (floor_rank floor)
  ]

  unfoldable pub check_verify_bypass : CheckFn
  check_verify_bypass patch site policy =
      if is_verify site.usage_class
      then with_patched
          (λ patched. judge_verify_bypass (classify_verify_bypass frontend.parse patched))
          (patched_source patch site)
      else passes

  unfoldable pub check_prng_seed : CheckFn
  check_prng_seed patch site policy =
      with_patched (λ patched. judge_prng_seed (classify_prng_seed frontend.parse patched))
        (patched_source patch site)

  unfoldable pub check_hybrid_use : CheckFn
  check_hybrid_use patch site policy =
      with_patched (λ patched. judge_hybrid_use (classify_hybrid_use frontend.parse patched))
        (patched_source patch site)
