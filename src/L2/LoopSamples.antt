-- ===== src/L2/LoopSamples.antt =====
-- The loops of src/pqpatch/verifier/l2_dataflow/java_flow.py on a few steps each.
use nesy_pqpatch.Prelude.{◌≡◌, ◌↔◌, refl, text, text_eq, true, false, none, some, List, [], ◌∷◌}
use nesy_pqpatch.L2.Sets.{member}
use nesy_pqpatch.L2.Machine.{Hits}
use nesy_pqpatch.L2.VerifyUse.{VerifyUse, checked, Event, track, classify_verify_uses}
use nesy_pqpatch.L2.VerifyUse.Tracking.{next_holders, tests, only, track-checked_iff}
use nesy_pqpatch.L2.KeyFlow.{KeyFlow, cross_family, Family, FlowStep, key_flow, classify_key_flow}
use nesy_pqpatch.L2.KeyFlow.Keys.{next_keys, misuses, no_keys, key_flow-cross_iff}
use nesy_pqpatch.L2.Hybrid.{
  Assignment, no_secrets, classical_secret, pq_secret, expression, produced,
}
use nesy_pqpatch.L2.Hybrid.Disjoint.{IsDisjoint, produced-IsDisjoint}
use nesy_pqpatch.L2.Seed.{SeedFlow, literal_seeded, SeedStep, seed_flow, classify_seed_provenance}
use nesy_pqpatch.L2.Prng.{deterministic, PrngEvent, prng_flow}
use nesy_pqpatch.L2.Tokens.{TokenStep, token_flow}
use nesy_pqpatch.L2.Tokens.Reach.{next_carriers, arrives, no_carriers, token_flow-reaches_iff}

unfoldable program : Unit {0}
unfolding track nesy_pqpatch.L2.VerifyUse.reassign nesy_pqpatch.L2.Sets.add
    nesy_pqpatch.L2.Sets.discard nesy_pqpatch.L2.Sets.get nesy_pqpatch.L2.Sets.set
    nesy_pqpatch.L2.Sets.pop nesy_pqpatch.L2.KeyFlow.crosses nesy_pqpatch.L2.KeyFlow.inherited
    nesy_pqpatch.L2.KeyFlow.sole nesy_pqpatch.L2.KeyFlow.assigned_family
    nesy_pqpatch.L2.KeyFlow.retrack key_flow nesy_pqpatch.L2.Seed.taint seed_flow prng_flow text_eq
program = tt

-- ok is taken from the call, done is ok, and done is tested
abbrev events : List Event
events =
    Event.assign (text "done") (some (text "ok")) true
    ∷ Event.assign (text "ok") none false
    ∷ Event.reads (text "done" ∷ [])
    ∷ []

is_tested : track (text "ok" ∷ []) events ≡ checked
unfolding program
is_tested = refl

track-checked_iff_example :
    (track (text "ok" ∷ []) events ≡ checked) ↔ Hits next_holders tests (only (text "ok")) events
track-checked_iff_example = track-checked_iff (text "ok") events

-- a key for ML-KEM is handed on and signs
abbrev key_steps : List FlowStep
key_steps =
    FlowStep.assign (text "k") (some Family.kem) []
    ∷ FlowStep.assign (text "j") none (text "k" ∷ [])
    ∷ FlowStep.sink Family.sig (text "j" ∷ [])
    ∷ []

is_crossed : key_flow [] key_steps ≡ cross_family
unfolding program
is_crossed = refl

key_flow-cross_iff_example :
    (key_flow [] key_steps ≡ cross_family) ↔ Hits next_keys misuses no_keys key_steps
key_flow-cross_iff_example = key_flow-cross_iff key_steps

abbrev seed_steps : List SeedStep
seed_steps =
    SeedStep.assign (text "s") true none
    ∷ SeedStep.assign (text "t") false (some (text "s"))
    ∷ SeedStep.sink (text "t" ∷ [])
    ∷ []

is_seeded : seed_flow [] seed_steps ≡ literal_seeded
unfolding program
is_seeded = refl

abbrev prng_events : List PrngEvent
prng_events =
    PrngEvent.prng (text "r")
    ∷ PrngEvent.seed (text "r") false
    ∷ PrngEvent.seed (text "r") true
    ∷ []

is_deterministic : prng_flow [] [] prng_events ≡ deterministic
unfolding program
is_deterministic = refl

abbrev token_steps : List TokenStep
token_steps =
    TokenStep.assign (text "a") (text "ML-KEM-512" ∷ []) none
    ∷ TokenStep.assign (text "b") [] (some (text "a"))
    ∷ TokenStep.sink [] (text "b" ∷ [])
    ∷ []

token_flow-reaches_iff_example :
    (member (text "ML-KEM-512") (token_flow [] [] token_steps) ≡ true)
    ↔ Hits
        (next_carriers (text "ML-KEM-512"))
        (arrives (text "ML-KEM-512"))
        (no_carriers (text "ML-KEM-512"))
        token_steps
token_flow-reaches_iff_example = token_flow-reaches_iff (text "ML-KEM-512") token_steps

abbrev assigned : List Assignment
assigned =
    record { position = 0; left = text "a"; origin = classical_secret }
    ∷ record { position = 1; left = text "b"; origin = pq_secret }
    ∷ record { position = 2; left = text "a"; origin = expression (text "b" ∷ []) }
    ∷ []

produced-IsDisjoint_example : IsDisjoint (produced no_secrets assigned)
produced-IsDisjoint_example = produced-IsDisjoint assigned no_secrets (λ x. refl)
