-- ===== src/Diff/Apply/Errors.antt =====
-- What `apply_unified_diff` (src/pqpatch/verifier/rules/diffapply.py) can raise, and what it returns
-- otherwise.
use nesy_pqpatch.Prelude.{
  ℕ, ◌+◌, ◌≤◌, Text, text, splitlines, join, ◌≡◌, refl, sym, ap, ◌∙◌, ◌⊎◌, inl, inr, Bool-cases,
  List, [], ◌∷◌, ◌++◌, length, slice, sort_by, ◌==◌, arith, if◌then◌else◌,
}
use nesy_pqpatch.Python.{Result, ok, raised, Exception, >>=-eq-ok}
use nesy_pqpatch.Diff.Hunks.{Hunk, parse_hunks}
use nesy_pqpatch.Diff.Locate.{
  not_found_error, ambiguous_error, choose_closest, block_matches, distance, locate,
}
use nesy_pqpatch.Diff.Apply.{
  no_hunk_error, old_block, position, apply_from, ends_newline, apply_hunks, apply_unified_diff,
}
use nesy_pqpatch.Diff.Apply.Edits.{Edits, Edits-count, total, plus_lines, minus_lines}
use nesy_pqpatch.Diff.Apply.Edits.Emit.{apply_from-Edits, apply_from-turn}

-- The two ways in which a hunk cannot be placed.
abbrev pub Unplaced : Exception → Type 0
Unplaced e =
    ((block : List Text) × (e ≡ not_found_error block)) ⊎ ((n : ℕ) × (e ≡ ambiguous_error n))

choose_closest-raised :
    (far : ℕ → ℕ) (xs : List ℕ) (block : List Text) (e : Exception)
    → choose_closest far xs (not_found_error block) ≡ raised e
    → Unplaced e
unfolding choose_closest
choose_closest-raised far [] block e h = inl (block, cc)
choose_closest-raised far (x ∷ []) block e h = cc
choose_closest-raised far (x ∷ y ∷ xs) block e h = elim (Bool-cases (far x == far y)) [
  | inl t ↦ inr (length (x ∷ y ∷ xs), ground (arith, t))
  | inr f ↦ absurd (ground (arith, f))
]

position-raised :
    (original : List Text) (cursor : ℕ) (h : Hunk) (e : Exception)
    → position original cursor h ≡ raised e
    → Unplaced e
unfolding position locate
position-raised original cursor h e p = go (old_block h.lines) refl
  where
    go : (block : List Text) → old_block h.lines ≡ block → Unplaced e
    go [] b = absurd (ground (arith, b, p))
    go (x ∷ xs) b =
        choose_closest-raised (distance h.old_start)
          (sort_by (distance h.old_start) (block_matches original (x ∷ xs) cursor)) (x ∷ xs) e
          (rw (b, position) at p)

Result-cases {ℓ} :
    {A : Type ℓ} (r : Result A) → ((a : A) × (r ≡ ok a)) ⊎ ((e : Exception) × (r ≡ raised e))
Result-cases (ok a) = inl (a, refl)
Result-cases (raised e) = inr (e, refl)

apply_from-stuck :
    (original result : List Text) (cursor : ℕ) (h : Hunk) (hs : List Hunk) (e : Exception)
    → position original cursor h ≡ raised e
    → apply_from original result cursor (h ∷ hs) ≡ raised e
unfolding apply_from
apply_from-stuck original result cursor h hs e p = ground (arith, p)

raised-injective {ℓ} :
    {A : Type ℓ} {d e : Exception} → ◌≡◌ {A = Result A} (raised d) (raised e) → d ≡ e
raised-injective h = cc

-- The loop over the hunks fails only where a hunk cannot be placed.
apply_from-raised :
    (original : List Text) (hs : List Hunk) (result : List Text) (cursor : ℕ) (e : Exception)
    → cursor ≤ length original
    → apply_from original result cursor hs ≡ raised e
    → Unplaced e
apply_from-raised original [] result cursor e room h = unfold apply_from in cc
apply_from-raised original (k ∷ hs) result cursor e room h =
    elim (Result-cases (position original cursor k)) [
      | inl (pos, p) ↦
          let (r, le, fits, turn) = apply_from-turn original result cursor k hs pos room p in
          apply_from-raised original hs (result ++ (slice cursor pos original ++ r.new))
            (pos + length (old_block k.lines)) e fits (sym turn ∙ h)
      | inr (d, p) ↦ position-raised original cursor k e (
          p
          ∙ ap raised
              (raised-injective (sym (apply_from-stuck original result cursor k hs d p) ∙ h)))
    ]

-- If the diff cannot be applied, it has no hunk, or a hunk's block was not found, or its place was
-- ambiguous: a read past the end of the file and an overlap of hunks never happen.
pub apply_unified_diff-raises :
    (original diff_text : Text) (e : Exception)
    → apply_unified_diff original diff_text ≡ raised e
    → ((parse_hunks diff_text ≡ []) × (e ≡ no_hunk_error)) ⊎ Unplaced e
unfolding apply_unified_diff
apply_unified_diff-raises original diff_text e h = go (parse_hunks diff_text) h
  where
    go :
        (hs : List Hunk)
        → apply_hunks original hs ≡ raised e
        → ((hs ≡ []) × (e ≡ no_hunk_error)) ⊎ Unplaced e
    go [] h = inl (refl, cc)
    go (k ∷ hs) h = elim (Result-cases (apply_from (splitlines original) [] 0 (k ∷ hs))) [
      | inl (out, p) ↦ absurd (ground (arith, p))
      | inr (d, p) ↦ inr (
          apply_from-raised (splitlines original) (k ∷ hs) [] 0 e (omega arith) (ground (arith, p)))
    ]

ok-injective {ℓ} : {A : Type ℓ} {a b : A} → ok a ≡ ok b → a ≡ b
ok-injective h = cc

-- If the diff is applied, the result is an edit of the file's lines by the hunks: each hunk replaces
-- one block that agrees with its context and removed lines up to the whitespace at their ends, in
-- order, and all other lines stay. The number of lines grows by the added and falls by the removed
-- ones. The result is these lines with a newline between any two, and a newline behind them exactly
-- when the file ends with one.
pub apply_unified_diff-Edits :
    (original diff_text out : Text)
    → apply_unified_diff original diff_text ≡ ok out
    → (lines : List Text) × (out
        ≡ join (text "\n") lines ++ (if ends_newline original then text "\n" else []))
      × Edits (splitlines original) (parse_hunks diff_text) lines
      × (length lines + total minus_lines (parse_hunks diff_text)
          ≡ length (splitlines original) + total plus_lines (parse_hunks diff_text))
unfolding apply_unified_diff
apply_unified_diff-Edits original diff_text out h = go (parse_hunks diff_text) h
  where
    go :
        (hs : List Hunk)
        → apply_hunks original hs ≡ ok out
        → (lines : List Text) × (out
            ≡ join (text "\n") lines ++ (if ends_newline original then text "\n" else []))
          × Edits (splitlines original) hs lines
          × (length lines + total minus_lines hs
              ≡ length (splitlines original) + total plus_lines hs)
    go [] h = cc
    go (k ∷ hs) h =
        let (result, p, q) = >>=-eq-ok (apply_from (splitlines original) [] 0 (k ∷ hs)) _ h in
        let (lines, o, e) =
          apply_from-Edits (splitlines original) (k ∷ hs) [] 0 result (omega arith) p in
        (
          lines,
          sym (ok-injective q)
              ∙ ap (λ r. join (text "\n") r ++ (if ends_newline original then text "\n" else [])) o,
          e,
          Edits-count e,
        )
