-- ===== src/Diff/Locate/Closest.antt =====
-- `_locate` (src/pqpatch/verifier/rules/diffapply.py) returns a position exactly when it is the
-- one match that is strictly closest to the hint.
use nesy_pqpatch.Prelude.{
  ℕ, ◌+◌, ◌-◌, ◌≤◌, ◌<◌, Text, texts_eq→eq, texts_eq_self, strip, ◌≡◌, ◌≢◌, refl, sym, ap, ◌∙◌,
  subst, ◌↔◌, inl, inr, Bool-cases, List, [], ◌∷◌, map, length, Elem, Elem-keep, keep-Elem,
  Elem-count_up, count_up-Elem, Distinct, Distinct-keep, Distinct-count_up, sort_by, Elem-sort_by,
  sort_by-Elem, Distinct-sort_by, Ascends, sort_by-Ascends, ◌==◌, arith,
}
use nesy_pqpatch.Python.{ok, Exception}
use nesy_pqpatch.Diff.Locate.{
  block_at, matches_block, block_matches, distance, choose_closest, not_found_error, locate,
}

-- The block stands at `p`, up to the whitespace at the ends of its lines, and fits in the file.
pub record IsMatch (original old_block : List Text) (cursor p : ℕ) : Type 0 where
  pub after_cursor : cursor ≤ p
  pub fits : p + length old_block ≤ length original
  pub same : block_at original p (length old_block) ≡ map strip old_block

-- No other match is as close to the hint.
abbrev pub IsClosest : List Text → List Text → ℕ → ℕ → ℕ → Type 0
IsClosest original old_block cursor hint p =
    (q : ℕ) → IsMatch original old_block cursor q → q ≢ p → distance hint p < distance hint q

module _ (original old_block : List Text) (cursor : ℕ) where
  match→IsMatch :
      (p : ℕ)
      → Elem p (block_matches original old_block cursor)
      → IsMatch original old_block cursor p
  unfolding block_matches matches_block
  match→IsMatch p m =
      let (r, same) = Elem-keep (matches_block original old_block) p _ m in
      let (l, u) = Elem-count_up p cursor (length original + 1 - length old_block - cursor) r in
      record {
        after_cursor = l;
        fits = omega arith;
        same = texts_eq→eq (block_at original p (length old_block)) (map strip old_block) same;
      }

  IsMatch→match :
      (p : ℕ)
      → IsMatch original old_block cursor p
      → Elem p (block_matches original old_block cursor)
  unfolding block_matches matches_block
  IsMatch→match p m =
      keep-Elem (matches_block original old_block) p _
        (count_up-Elem p cursor _ m.after_cursor (omega (arith, m.fits, m.after_cursor)))
        (rw m.same (texts_eq_self (map strip old_block)))

  Distinct-block_matches : Distinct (block_matches original old_block cursor)
  unfolding block_matches
  Distinct-block_matches =
      Distinct-keep (matches_block original old_block) _ (Distinct-count_up cursor _)

module _ (far : ℕ → ℕ) (e : Exception) where
  choose_closest_sound :
      (xs : List ℕ) (p : ℕ)
      → Ascends far xs
      → choose_closest far xs e ≡ ok p
      → Elem p xs × ((q : ℕ) → Elem q xs → q ≢ p → far p < far q)
  unfolding choose_closest
  choose_closest_sound [] p s h = cc
  choose_closest_sound (x ∷ []) p s h =
      let x_p : x ≡ p = cc in
      (inl (sym x_p), λ q m n. elim m [ inl c ↦ absurd (n (c ∙ x_p)) | inr k ↦ absurd k ])
  choose_closest_sound (x ∷ y ∷ rest) p s h = elim (Bool-cases (far x == far y)) [
    | inl t ↦ absurd (ground (arith, t))
    | inr f ↦
        let x_p : x ≡ p = ground (arith, f) in
        let strict : far x < far y = ground (arith, s.0 y (inl refl)) in
        (
          inl (sym x_p),
          λ q m n. elim m [
            | inl c ↦ absurd (n (c ∙ x_p))
            | inr (inl c) ↦ rw (← x_p, c) strict
            | inr (inr k) ↦ rw (← x_p) (omega (arith, strict, s.1.0 q k))
          ],
        )
  ]

  choose_closest_complete :
      (xs : List ℕ) (p : ℕ)
      → Ascends far xs
      → Distinct xs
      → Elem p xs
      → ((q : ℕ) → Elem q xs → q ≢ p → far p < far q)
      → choose_closest far xs e ≡ ok p
  unfolding choose_closest
  choose_closest_complete [] p s d m c = absurd m
  choose_closest_complete (x ∷ []) p s d (inl h) c = ap ok (sym h)
  choose_closest_complete (x ∷ []) p s d (inr h) c = absurd h
  choose_closest_complete (x ∷ y ∷ rest) p s d (inl h) c =
      let strict : far x < far y =
        rw (← h) (c y (inr (inl refl)) (λ y_p. d.0 (inl (sym (y_p ∙ h))))) in
      ground (arith, strict, h)
  choose_closest_complete (x ∷ y ∷ rest) p s d (inr h) c = absurd (
      omega
        (arith, s.0 p h, c x (inl refl) (λ x_p. d.0 (subst (λ z. Elem z (y ∷ rest)) (sym x_p) h))))

-- `_locate` returns a position exactly when the block matches there and no other match at or after
-- the cursor is as close to the hint; with a single match no distance counts.
pub locate_iff :
    (original old_block : List Text) (cursor hint p : ℕ)
    → (locate original old_block cursor hint ≡ ok p)
      ↔ (IsMatch original old_block cursor p × IsClosest original old_block cursor hint p)
unfolding locate
locate_iff original old_block cursor hint p =
    let found = block_matches original old_block cursor in
    let order = sort_by-Ascends (distance hint) found in
    (
      λ h.
          let (m, c) =
            choose_closest_sound (distance hint) (not_found_error old_block)
              (sort_by (distance hint) found) p order h in
          (
            match→IsMatch original old_block cursor p (Elem-sort_by (distance hint) p found m),
            λ q k. c q (
                sort_by-Elem (distance hint) q found (IsMatch→match original old_block cursor q k)),
          ),
      λ (m, c).
          choose_closest_complete (distance hint) (not_found_error old_block)
            (sort_by (distance hint) found) p order
            (Distinct-sort_by (distance hint) found
              (Distinct-block_matches original old_block cursor))
            (sort_by-Elem (distance hint) p found (IsMatch→match original old_block cursor p m))
            (λ q k.
              c q (
                match→IsMatch original old_block cursor q
                  (Elem-sort_by (distance hint) q found k))),
    )
