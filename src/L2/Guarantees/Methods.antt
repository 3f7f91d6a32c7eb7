-- ===== src/L2/Guarantees/Methods.antt =====
-- What the classifiers of src/pqpatch/verifier/l2_dataflow/java_flow.py say of every method when they
-- find nothing.
use nesy_pqpatch.Prelude.{ℕ, ◌≡◌, Text, Bool, false, List, [], ◌∷◌, any, All, arith}
use nesy_pqpatch.Prelude.Utf8.{utf8_encode}
use nesy_pqpatch.L2.Java.{Place, methods}
use nesy_pqpatch.L2.Machine.{Hits}
use nesy_pqpatch.L2.VerifyUse.{Parser}
use nesy_pqpatch.L2.KeyFlow.{KeyFlow, is_cross, flow_steps, analyze_key_flow, classify_key_flow}
use nesy_pqpatch.L2.KeyFlow.Keys.{next_keys, misuses, no_keys, key_flow-cross_iff}
use nesy_pqpatch.L2.Seed.{SeedFlow, is_seeded, seed_steps, analyze_seed, classify_seed_provenance}
use nesy_pqpatch.L2.Seed.Constants.{next_constants, seeds, no_constants, seed_flow-seeded_iff}
use nesy_pqpatch.L2.Prng.{
  PrngSeed, is_deterministic, prng_events, analyze_prng_seed, classify_prng_seed,
}
use nesy_pqpatch.L2.Prng.Generators.{
  next_generators, seeds_first, no_generators, prng_flow-deterministic_iff,
}

-- What holds of each method of a source.
abbrev pub EveryMethod : Parser → Text → (List ℕ → Place → Type 0) → Type 0
EveryMethod parse source P =
    let bytes = utf8_encode source in All (P bytes) (methods (parse bytes).root)

-- no sink names a variable that holds a key of the other family
abbrev pub KeysStayApart : List ℕ → Place → Type 0
KeysStayApart bytes m = ¬ Hits next_keys misuses no_keys (flow_steps bytes m)

-- no sink names a variable that holds a constant
abbrev pub SeedsVary : List ℕ → Place → Type 0
SeedsVary bytes m = ¬ Hits next_constants seeds no_constants (seed_steps bytes m)

-- no unused SHA1PRNG is seeded with a constant
abbrev pub GeneratorsVary : List ℕ → Place → Type 0
GeneratorsVary bytes m = ¬ Hits next_generators seeds_first no_generators (prng_events bytes m)

none-All :
    (P : Place → Type 0) (p : Place → Bool)
    → ((m : Place) → p m ≡ false → P m)
    → (ms : List Place) → any p ms ≡ false
    → All P ms
none-All P p f [] h = tt
none-All P p f (m ∷ ms) h = (f m (ground (arith, h)), none-All P p f ms (ground (arith, h)))

keys_apart :
    (bytes : List ℕ) (m : Place)
    → is_cross (analyze_key_flow bytes m) ≡ false
    → KeysStayApart bytes m
unfolding analyze_key_flow
keys_apart bytes m h hit =
    let crossed = (key_flow-cross_iff (flow_steps bytes m)).1 hit in
    let same = rw crossed at h in cc

seeds_vary :
    (bytes : List ℕ) (m : Place) → is_seeded (analyze_seed bytes m) ≡ false → SeedsVary bytes m
unfolding analyze_seed
seeds_vary bytes m h hit =
    let seeded = (seed_flow-seeded_iff (seed_steps bytes m)).1 hit in
    let same = rw seeded at h in cc

generators_vary :
    (bytes : List ℕ) (m : Place)
    → is_deterministic (analyze_prng_seed bytes m) ≡ false
    → GeneratorsVary bytes m
unfolding analyze_prng_seed
generators_vary bytes m h hit =
    let fixed = (prng_flow-deterministic_iff (prng_events bytes m)).1 hit in
    let same = rw fixed at h in cc

module _ (parse : Parser) (source : Text) where
  pub classify_key_flow-consistent :
      classify_key_flow parse source ≡ KeyFlow.consistent
      → ((parse (utf8_encode source)).has_error ≡ false) × EveryMethod parse source KeysStayApart
  unfolding classify_key_flow
  classify_key_flow-consistent h =
      (ground (arith, h), none-All _ _ (keys_apart (utf8_encode source)) _ (ground (arith, h)))

  pub classify_seed_provenance-clean :
      classify_seed_provenance parse source ≡ SeedFlow.clean → EveryMethod parse source SeedsVary
  unfolding classify_seed_provenance
  classify_seed_provenance-clean h =
      none-All _ _ (seeds_vary (utf8_encode source)) _ (ground (arith, h))

  pub classify_prng_seed-safe :
      classify_prng_seed parse source ≡ PrngSeed.safe → EveryMethod parse source GeneratorsVary
  unfolding classify_prng_seed
  classify_prng_seed-safe h =
      none-All _ _ (generators_vary (utf8_encode source)) _ (ground (arith, h))
