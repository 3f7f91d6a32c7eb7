-- ===== src/L2/Guarantees/Judges.antt =====
-- What each judgement of src/pqpatch/verifier/l2_dataflow/rules.py says when it is PASS.
use nesy_pqpatch.Prelude.{
  ℕ, ◌≡◌, ◌≢◌, refl, Text, false, Bool-cases, Option-cases, inl, inr, Option, none, some, List, [],
  ◌∷◌, any, All, ltb, arith,
}
use nesy_pqpatch.Model.{pass}
use nesy_pqpatch.Python.{Result, ok}
use nesy_pqpatch.Rules.Spec.{RuleOutcome}
use nesy_pqpatch.Rules.Ranks.{token_rank}
use nesy_pqpatch.Trace.Dumps.{text_lt}
use nesy_pqpatch.L1.Families.{insert_text, sort_texts}
use nesy_pqpatch.L1.Guarantees.{AtLeast}
use nesy_pqpatch.L2.VerifyUse.{VerifyUse, checked}
use nesy_pqpatch.L2.KeyFlow.{KeyFlow}
use nesy_pqpatch.L2.Hybrid.{HybridFlow}
use nesy_pqpatch.L2.HybridUse.{HybridUse}
use nesy_pqpatch.L2.Seed.{SeedFlow}
use nesy_pqpatch.L2.Prng.{PrngSeed}
use nesy_pqpatch.L2.Bypass.{VerifyBypass}
use nesy_pqpatch.L2.Checks.{
  with_patched, is_indeterminate, is_discarded, judge_verify_uses, judge_key_flow,
  judge_hybrid_flow, judge_seed_flow, judge_prng_seed, judge_hybrid_use, judge_verify_bypass,
  judge_tokens, judge_token_set,
}

pub with_patched-at :
    (judge : Text → Result RuleOutcome) (r : Result Text) (patched : Text) (x : RuleOutcome)
    → r ≡ ok patched
    → with_patched judge r ≡ ok x
    → judge patched ≡ ok x
unfolding with_patched
with_patched-at judge r patched x e h = rw e at h

pub judge_key_flow-pass :
    (f : KeyFlow) (x : RuleOutcome)
    → judge_key_flow f ≡ ok x
    → x.status ≡ pass
    → f ≡ KeyFlow.consistent
unfolding judge_key_flow
judge_key_flow-pass f x h p = ground (arith, h, p)

pub judge_hybrid_flow-pass :
    (f : HybridFlow) (x : RuleOutcome)
    → judge_hybrid_flow f ≡ ok x
    → x.status ≡ pass
    → f ≢ HybridFlow.downgraded
unfolding judge_hybrid_flow
judge_hybrid_flow-pass f x h p e = ground (arith, h, p, e)

pub judge_seed_flow-pass :
    (f : SeedFlow) (x : RuleOutcome)
    → judge_seed_flow f ≡ ok x
    → x.status ≡ pass
    → f ≡ SeedFlow.clean
unfolding judge_seed_flow
judge_seed_flow-pass f x h p = ground (arith, h, p)

pub judge_prng_seed-pass :
    (f : PrngSeed) (x : RuleOutcome)
    → judge_prng_seed f ≡ ok x
    → x.status ≡ pass
    → f ≡ PrngSeed.safe
unfolding judge_prng_seed
judge_prng_seed-pass f x h p = ground (arith, h, p)

pub judge_hybrid_use-pass :
    (f : HybridUse) (x : RuleOutcome)
    → judge_hybrid_use f ≡ ok x
    → x.status ≡ pass
    → f ≢ HybridUse.raw
unfolding judge_hybrid_use
judge_hybrid_use-pass f x h p e = ground (arith, h, p, e)

pub judge_verify_bypass-pass :
    (f : VerifyBypass) (x : RuleOutcome)
    → judge_verify_bypass f ≡ ok x
    → x.status ≡ pass
    → f ≡ VerifyBypass.safe
unfolding judge_verify_bypass
judge_verify_bypass-pass f x h p = ground (arith, h, p)

-- neither unclear nor discarded
All-checked :
    (us : List VerifyUse)
    → any is_indeterminate us ≡ false
    → any is_discarded us ≡ false
    → All (λ u. u ≡ checked) us
All-checked [] i d = tt
All-checked (checked ∷ us) i d = (refl, All-checked us i d)
All-checked (VerifyUse.discarded ∷ us) i d = cc
All-checked (VerifyUse.indeterminate ∷ us) i d = cc

pub judge_verify_uses-pass :
    (us : List VerifyUse) (x : RuleOutcome)
    → judge_verify_uses us ≡ ok x
    → x.status ≡ pass
    → (us ≢ []) × All (λ u. u ≡ checked) us
unfolding judge_verify_uses
judge_verify_uses-pass [] x h p = absurd (ground (arith, h, p))
judge_verify_uses-pass (u ∷ us) x h p =
    ((λ e. cc), All-checked (u ∷ us) (ground (arith, h, p)) (ground (arith, h, p)))

pub judge_tokens-pass :
    (floor : Text) (rank : ℕ) (ts : List Text) (x : RuleOutcome)
    → judge_tokens floor rank ts ≡ ok x
    → x.status ≡ pass
    → All (λ t. AtLeast rank (token_rank t)) ts
unfolding judge_tokens
judge_tokens-pass floor rank [] x h p = tt
judge_tokens-pass floor rank (t ∷ ts) x h p = elim (Option-cases (token_rank t)) [
  | inl n ↦ (rw n tt, judge_tokens-pass floor rank ts x (rw (n, judge_tokens) at h) p)
  | inr (r, e) ↦ elim (Bool-cases (ltb r rank)) [
    | inl low ↦ absurd (ground (arith, e, low, h, p))
    | inr high ↦ (
      rw e (ground (arith, high)),
      judge_tokens-pass floor rank ts x (ground (arith, e, high, h)) p,
    )
  ]
]

All-insert_text :
    (P : Text → Type 0) (a : Text) (xs : List Text) → All P (insert_text a xs) → P a × All P xs
unfolding insert_text
All-insert_text P a [] h = h
All-insert_text P a (x ∷ xs) h = elim (Bool-cases (text_lt x a)) [
  | inl t ↦
      let below : P x × All P (insert_text a xs) = rw t at h in
      let (here, rest) = All-insert_text P a xs below.1 in (here, (below.0, rest))
  | inr f ↦ rw f at h
]

All-sort_texts : (P : Text → Type 0) (xs : List Text) → All P (sort_texts xs) → All P xs
unfolding sort_texts
All-sort_texts P [] h = tt
All-sort_texts P (x ∷ xs) h =
    let (here, rest) = All-insert_text P x (sort_texts xs) h in (here, All-sort_texts P xs rest)

pub judge_token_set-pass :
    (floor : Text) (rank : ℕ) (o : Option (List Text)) (x : RuleOutcome)
    → judge_token_set floor rank o ≡ ok x
    → x.status ≡ pass
    → (tokens : List Text) × (o ≡ some tokens) × All (λ t. AtLeast rank (token_rank t)) tokens
unfolding judge_token_set
judge_token_set-pass floor rank none x h p = absurd (ground (arith, h, p))
judge_token_set-pass floor rank (some tokens) x h p =
    (tokens, refl, All-sort_texts _ tokens (judge_tokens-pass floor rank (sort_texts tokens) x h p))
