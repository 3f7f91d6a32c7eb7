-- ===== src/L2/Machine.antt =====
-- A reference for the loops of src/pqpatch/verifier/l2_dataflow/java_flow.py over the steps of a
-- method: a state that every step changes, and a test at every step.
use nesy_pqpatch.Prelude.{
  ◌≡◌, ◌↔◌, refl, ap, Bool, true, false, Bool-cases, inl, inr, ◌||◌, List, [], ◌∷◌, ◌++◌,
}

module _ {ℓ κ} {S : Type ℓ} {E : Type κ} (next : E → S → S) (hit : S → E → Bool) where
  abbrev pub state_after : S → List E → S
  state_after s [] = s
  state_after s (e ∷ es) = state_after (next e s) es

  abbrev pub hits : S → List E → Bool
  hits s [] = false
  hits s (e ∷ es) = hit s e || hits (next e s) es

  -- Some step passes the test in the state that the steps before it leave.
  abbrev pub Hits : S → List E → Type κ
  Hits s es =
      (before : List E) × (e : E) × (after : List E) × (es ≡ before ++ e ∷ after)
      × (hit (state_after s before) e ≡ true)

  pub hits-Hits : (s : S) (es : List E) → hits s es ≡ true → Hits s es
  hits-Hits s [] h = cc
  hits-Hits s (e ∷ es) h = elim (Bool-cases (hit s e)) [
    | inl t ↦ ([], e, es, refl, t)
    | inr f ↦
        let (before, e', after, split, found) = hits-Hits (next e s) es (rw f at h) in
        (e ∷ before, e', after, ap (λ xs. e ∷ xs) split, found)
  ]

  hits-append :
      (s : S) (before : List E) (e : E) (after : List E)
      → hit (state_after s before) e ≡ true
      → hits s (before ++ e ∷ after) ≡ true
  hits-append s [] e after h = rw h refl
  hits-append s (b ∷ before) e after h = elim (Bool-cases (hit s b)) [
    | inl t ↦ rw t refl
    | inr f ↦ rw f (hits-append (next b s) before e after h)
  ]

  pub hits_iff : (s : S) (es : List E) → (hits s es ≡ true) ↔ Hits s es
  hits_iff s es = (
    hits-Hits s es,
    λ (before, e, after, split, found). rw split (hits-append s before e after found),
  )
