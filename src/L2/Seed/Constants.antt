-- ===== src/L2/Seed/Constants.antt =====
-- What PQ-RAND-03 finds in the steps of a method: a sink that gets a constant.
use nesy_pqpatch.Prelude.{
  ◌≡◌, ◌↔◌, refl, sym, ap, ◌∙◌, Text, text_eq, Bool, true, false, Bool-cases, inl, inr, ◌||◌,
  Option, none, some, List, [], ◌∷◌, any, arith, if◌then◌else◌,
}
use nesy_pqpatch.L2.Sets.{text_eq_comm, member, meets, member-add, member-discard}
use nesy_pqpatch.L2.Machine.{hits, Hits, hits_iff}
use nesy_pqpatch.L2.Seed.{
  SeedFlow, literal_seeded, SeedStep, assign, sink, aliases, taint, seed_flow,
}

-- Whether a variable holds a constant.
abbrev pub Constants : Type 0
Constants = Text → Bool

abbrev pub no_constants : Constants
no_constants x = false

abbrev pub holds_constant : Constants → Bool → Option Text → Bool
holds_constant constants constant none = constant
holds_constant constants constant (some x) = constant || constants x

abbrev pub next_constants : SeedStep → Constants → Constants
next_constants (sink names) constants = constants
next_constants (assign left constant alias) constants =
    λ x. if text_eq x left then holds_constant constants constant alias else constants x

-- A sink gets a name that holds a constant.
abbrev pub seeds : Constants → SeedStep → Bool
seeds constants (sink names) = any constants names
seeds constants (assign left constant alias) = false

abbrev Represents : List Text → Constants → Type 0
Represents tainted constants = (x : Text) → member x tainted ≡ constants x

meets-any :
    (names tainted : List Text) (constants : Constants)
    → Represents tainted constants
    → meets names tainted ≡ any constants names
meets-any [] tainted constants r = refl
meets-any (x ∷ xs) tainted constants r =
    rw (r x) (ap (λ b. constants x || b) (meets-any xs tainted constants r))

aliases-holds :
    (tainted : List Text) (constants : Constants) (constant : Bool) (alias : Option Text)
    → Represents tainted constants
    → (constant || aliases alias tainted) ≡ holds_constant constants constant alias
aliases-holds tainted constants constant none r = ground arith
aliases-holds tainted constants constant (some x) r = ap (λ b. constant || b) (r x)

pub member-taint :
    (left x : Text) (constant : Bool) (tainted : List Text)
    → member x (taint left constant tainted)
      ≡ (if text_eq x left then constant else member x tainted)
unfolding taint
member-taint left x true tainted = member-add left x tainted ∙ ground arith
member-taint left x false tainted =
    member-discard left x tainted ∙ ground (arith, text_eq_comm left x)

taint-Represents :
    (tainted : List Text) (constants : Constants) (left : Text) (constant : Bool)
    (alias : Option Text)
    → Represents tainted constants
    → Represents
        (taint left (constant || aliases alias tainted) tainted)
        (next_constants (assign left constant alias) constants)
taint-Represents tainted constants left constant alias r x =
    member-taint left x (constant || aliases alias tainted) tainted
    ∙ (ap (λ b. if text_eq x left then b else member x tainted)
          (aliases-holds tainted constants constant alias r)
        ∙ ap (λ b. if text_eq x left then holds_constant constants constant alias else b) (r x))

flow_of : Bool → SeedFlow
flow_of true = literal_seeded
flow_of false = SeedFlow.clean

seed_flow-hits :
    (tainted : List Text) (constants : Constants) (steps : List SeedStep)
    → Represents tainted constants
    → seed_flow tainted steps ≡ flow_of (hits next_constants seeds constants steps)
unfolding seed_flow flow_of
seed_flow-hits tainted constants [] r = refl
seed_flow-hits tainted constants (sink names ∷ steps) r = elim (Bool-cases (meets names tainted)) [
  | inl t ↦ let m = sym (meets-any names tainted constants r) ∙ t in rw (t, m, seed_flow) refl
  | inr n ↦
      let m = sym (meets-any names tainted constants r) ∙ n in
      rw (n, m, seed_flow) (seed_flow-hits tainted constants steps r)
]
seed_flow-hits tainted constants (assign left constant alias ∷ steps) r =
    seed_flow-hits (taint left (constant || aliases alias tainted) tainted)
      (next_constants (assign left constant alias) constants) steps
      (taint-Represents tainted constants left constant alias r)

flow_of-seeded : (b : Bool) → flow_of b ≡ literal_seeded → b ≡ true
unfolding flow_of
flow_of-seeded true h = refl
flow_of-seeded false h = cc

-- The steps of a method are found to seed a generator with a literal exactly when some step is a
-- sink with a name that holds a constant, as the steps before it assign: a constant, or what
-- another variable holds.
pub seed_flow-seeded_iff :
    (steps : List SeedStep)
    → (seed_flow [] steps ≡ literal_seeded) ↔ Hits next_constants seeds no_constants steps
unfolding flow_of
seed_flow-seeded_iff steps =
    let same = seed_flow-hits [] no_constants steps (λ x. refl) in
    let found = hits_iff next_constants seeds no_constants steps in
    ((λ h. found.0 (flow_of-seeded _ (sym same ∙ h))), (λ h. same ∙ ap flow_of (found.1 h)))
