-- ===== src/Cache/Keys.antt =====
-- The keys of src/pqpatch/proposer/cache.py.
use nesy_pqpatch.Prelude.{
  ◌≡◌, ◌≢◌, ◌⊎◌, refl, sym, ap, ◌∙◌, Text, text_eq, text_eq→eq, text_eq_self, Bool, true, false,
  not, Bool-cases, inl, inr, [], ◌∷◌, ◌++◌, any, All, ◌==◌, ltb, arith, ℕ, zero, suc, ◌+◌, ◌*◌, ◌-◌,
  ◌/◌, ◌%◌, ◌<◌,
}
use nesy_pqpatch.Python.{digits_from, decimal}
use nesy_pqpatch.Cache.{delimited, cache_key}

-- no null character
abbrev pub no_null : Text → Bool
no_null s = not (any (λ c. c == 0) s)

-- Two texts before the first null of one text are one.
split_null :
    (s t : Text) (s' t' : Text)
    → no_null s ≡ true
    → no_null t ≡ true
    → s ++ 0 ∷ s' ≡ t ++ 0 ∷ t'
    → (s ≡ t) × (s' ≡ t')
split_null [] [] s' t' n m e = (refl, cc)
split_null [] (c ∷ t) s' t' n m e = absurd (ground (arith, m, e))
split_null (c ∷ s) [] s' t' n m e = absurd (ground (arith, n, e))
split_null (c ∷ s) (d ∷ t) s' t' n m e =
    let (same, rest) = split_null s t s' t' (ground (arith, n)) (ground (arith, m)) cc in (cc, rest)

text_eq-ne : (s t : Text) → text_eq s t ≡ false → s ≢ t
text_eq-ne s t h e = cc (h, text_eq_self t, ap (λ r. text_eq r t) e)

-- The digits are put before what is there already, and have no null.
digits-no_null : (f n : ℕ) (acc : Text) → no_null acc ≡ true → no_null (digits_from f n acc) ≡ true
unfolding digits_from
digits-no_null zero n acc h = h
digits-no_null (suc f) n acc h =
    ground (arith, h, digits-no_null f (n / 10) ((48 + n % 10) ∷ acc) (ground (arith, h)))

decimal-no_null : (n : ℕ) → no_null (decimal n) ≡ true
unfolding decimal
decimal-no_null n = digits-no_null (suc n) n [] refl

-- what a text of digits stands for, behind digits that stand for `v`
value_from : ℕ → Text → ℕ
value_from v [] = v
value_from v (c ∷ s) = value_from (v * 10 + (c - 48)) s

digits-value :
    (f n : ℕ) (acc : Text) → n < f → value_from 0 (digits_from f n acc) ≡ value_from n acc
unfolding digits_from value_from
digits-value zero n acc h = absurd (omega (arith, h))
digits-value (suc f) n acc h = elim (Bool-cases (ltb n 10)) [
  | inl small ↦ rw small (ap (λ v. value_from v acc) (omega arith))
  | inr large ↦ rw large (
      digits-value f (n / 10) ((48 + n % 10) ∷ acc) (ground (arith, h, large))
      ∙ ap (λ v. value_from v acc) (omega arith))
]

-- Numbers with the same digits are the same.
decimal-injective : (n n' : ℕ) → decimal n ≡ decimal n' → n ≡ n'
unfolding decimal value_from
decimal-injective n n' e =
    sym (digits-value (suc n) n [] (omega arith))
    ∙ ap (value_from 0) e
    ∙ digits-value (suc n') n' [] (omega arith)

-- what the digest is taken of: the five fields in order, each with a null byte behind it
abbrev pub fed : Text → Text → Text → ℕ → Text → Text
fed b m p seed x = b ++ 0 ∷ (m ++ 0 ∷ (p ++ 0 ∷ (decimal seed ++ 0 ∷ (x ++ 0 ∷ []))))

fed-injective :
    (b m p x b' m' p' x' : Text) (seed seed' : ℕ)
    → All (λ s. no_null s ≡ true) (b ∷ m ∷ p ∷ x ∷ [])
    → All (λ s. no_null s ≡ true) (b' ∷ m' ∷ p' ∷ x' ∷ [])
    → fed b m p seed x ≡ fed b' m' p' seed' x'
    → (b ≡ b') × (m ≡ m') × (p ≡ p') × (seed ≡ seed') × (x ≡ x')
fed-injective b m p x b' m' p' x' seed seed' (nb, (nm, (np, (nx, _)))) (nb', (nm', (np', (nx', _))))
      e =
    let (same_b, e1) = split_null b b' _ _ nb nb' e in
    let (same_m, e2) = split_null m m' _ _ nm nm' e1 in
    let (same_p, e3) = split_null p p' _ _ np np' e2 in
    let (digits, e4) =
      split_null (decimal seed) (decimal seed') _ _ (decimal-no_null seed) (decimal-no_null seed')
        e3 in
    let (same_x, _) = split_null x x' [] [] nx nx' e4 in
    (same_b, same_m, same_p, decimal-injective seed seed' digits, same_x)

module _ (sha256_hex : Text → Text) where
  -- Two requests whose texts hold no null character and whose keys are equal have the same backend,
  -- the same model version, the same prompt, the same seed and the same extra text; or the two texts
  -- of their fields in this order, each field with a null character behind it, are different and
  -- have one SHA-256 digest.
  pub cache_key-separates :
      (b m p x b' m' p' x' : Text) (seed seed' : ℕ)
      → All (λ s. no_null s ≡ true) (b ∷ m ∷ p ∷ x ∷ [])
      → All (λ s. no_null s ≡ true) (b' ∷ m' ∷ p' ∷ x' ∷ [])
      → cache_key sha256_hex b m p seed x ≡ cache_key sha256_hex b' m' p' seed' x'
      → ((b ≡ b') × (m ≡ m') × (p ≡ p') × (seed ≡ seed') × (x ≡ x'))
        ⊎ ((fed b m p seed x ≢ fed b' m' p' seed' x')
            × (sha256_hex (fed b m p seed x) ≡ sha256_hex (fed b' m' p' seed' x')))
  unfolding cache_key delimited
  cache_key-separates b m p x b' m' p' x' seed seed' n n' e =
      let s = fed b m p seed x in
      let t = fed b' m' p' seed' x' in
      elim (Bool-cases (text_eq s t)) [
        | inl same ↦ inl (fed-injective b m p x b' m' p' x' seed seed' n n' (text_eq→eq s t same))
        | inr differ ↦ inr (text_eq-ne s t differ, e)
      ]
