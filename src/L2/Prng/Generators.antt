-- ===== src/L2/Prng/Generators.antt =====
-- What PQ-RAND-04 finds in the events of a method: a SHA1PRNG with a constant for its first seed.
use nesy_pqpatch.Prelude.{
  ◌≡◌, ◌↔◌, refl, sym, ap, ◌∙◌, Text, text_eq, Bool, true, false, Bool-cases, inl, inr, not, ◌&&◌,
  ◌||◌, List, [], ◌∷◌, arith,
}
use nesy_pqpatch.L2.Sets.{member, add, discard, member-add, member-discard, text_eq_comm}
use nesy_pqpatch.L2.Machine.{hits, Hits, hits_iff}
use nesy_pqpatch.L2.Prng.{
  PrngSeed, safe, deterministic, PrngEvent, prng, other, use_of, seed, prng_flow,
}

-- Which variables hold a SHA1PRNG, and which were used since they took one.
pub record Generators : Type 0 where
  pub is_prng : Text → Bool
  pub is_used : Text → Bool

abbrev pub no_generators : Generators
no_generators = record { is_prng = λ x. false; is_used = λ x. false }

abbrev pub next_generators : PrngEvent → Generators → Generators
next_generators (prng y) g = record {
  is_prng = λ x. text_eq x y || g.is_prng x;
  is_used = λ x. not (text_eq x y) && g.is_used x;
}
next_generators (other y) g = record {
  is_prng = λ x. not (text_eq x y) && g.is_prng x;
  is_used = g.is_used;
}
next_generators (use_of y) g = record {
  is_prng = g.is_prng;
  is_used = λ x. text_eq x y || g.is_used x;
}
next_generators (seed y constant) g = g

-- A constant seeds an unused SHA1PRNG.
abbrev pub seeds_first : Generators → PrngEvent → Bool
seeds_first g (seed x constant) = g.is_prng x && not (g.is_used x) && constant
seeds_first g _ = false

abbrev Represents : List Text → List Text → Generators → Type 0
Represents made used g = (x : Text) → (member x made ≡ g.is_prng x) × (member x used ≡ g.is_used x)

flow_of : Bool → PrngSeed
flow_of true = deterministic
flow_of false = safe

seeds-member :
    (made used : List Text) (g : Generators) (x : Text) (constant : Bool)
    → Represents made used g
    → (member x made && not (member x used) && constant) ≡ seeds_first g (seed x constant)
seeds-member made used g x constant r = let (m, u) = r x in rw (m, u) refl

prng_flow-hits :
    (made used : List Text) (g : Generators) (es : List PrngEvent)
    → Represents made used g
    → prng_flow made used es ≡ flow_of (hits next_generators seeds_first g es)
unfolding prng_flow flow_of
prng_flow-hits made used g [] r = refl
prng_flow-hits made used g (prng y ∷ es) r =
    prng_flow-hits (add y made) (discard y used) (next_generators (prng y) g) es (λ x.
      let (m, u) = r x in
      (
        member-add y x made ∙ ap (λ b. text_eq x y || b) m,
        ground (arith, member-discard y x used, u, text_eq_comm x y),
      ))
prng_flow-hits made used g (other y ∷ es) r =
    prng_flow-hits (discard y made) used (next_generators (other y) g) es
      (λ x. let (m, u) = r x in (ground (arith, member-discard y x made, m, text_eq_comm x y), u))
prng_flow-hits made used g (use_of y ∷ es) r =
    prng_flow-hits made (add y used) (next_generators (use_of y) g) es
      (λ x. let (m, u) = r x in (m, member-add y x used ∙ ap (λ b. text_eq x y || b) u))
prng_flow-hits made used g (seed x constant ∷ es) r =
    elim (Bool-cases (member x made && not (member x used) && constant)) [
      | inl t ↦ let h = sym (seeds-member made used g x constant r) ∙ t in rw (t, h, prng_flow) refl
      | inr n ↦
          let h = sym (seeds-member made used g x constant r) ∙ n in
          rw (n, h, prng_flow) (prng_flow-hits made used g es r)
    ]

flow_of-deterministic : (b : Bool) → flow_of b ≡ deterministic → b ≡ true
unfolding flow_of
flow_of-deterministic true h = refl
flow_of-deterministic false h = cc

-- The events of a method are found to fix a generator's output exactly when some event seeds a
-- variable with a constant while it holds a SHA1PRNG that, by the events before, was not used since
-- it took it: a seed that is no constant is not a use.
pub prng_flow-deterministic_iff :
    (es : List PrngEvent)
    → (prng_flow [] [] es ≡ deterministic) ↔ Hits next_generators seeds_first no_generators es
unfolding flow_of
prng_flow-deterministic_iff es =
    let same = prng_flow-hits [] [] no_generators es (λ x. (refl, refl)) in
    let found = hits_iff next_generators seeds_first no_generators es in
    ((λ h. found.0 (flow_of-deterministic _ (sym same ∙ h))), (λ h. same ∙ ap flow_of (found.1 h)))
