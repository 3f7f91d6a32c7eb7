-- ===== src/Proposer/Response/Braces.antt =====
-- How the scan of src/pqpatch/proposer/response_format.py goes over braces, from the last one back.
use nesy_pqpatch.Prelude.{
  ℕ, suc, ◌≡◌, refl, ap, ◌∙◌, Text, Bool, true, some, [], ◌∷◌, ◌++◌, append_assoc, ◌==◌, arith, not,
  ◌||◌, ◌&&◌, inl, inr, Bool-cases,
}
use mathlib.Core.List.{reverse, reverse-append, reverse-cons}
use nesy_pqpatch.Proposer.Response.{depth_behind, scan_object}

-- no brace
abbrev pub is_plain : ℕ → Bool
is_plain c = not (c == b'{' || c == b'}')

-- Texts whose braces match.
pub data Balanced : Text → Type 0 where
  nothing : Balanced []
  plain : (c : ℕ) (s : Text) → is_plain c ≡ true → Balanced s → Balanced (c ∷ s)
  nest : (s t : Text) → Balanced s → Balanced t → Balanced (b'{' ∷ (s ++ b'}' ∷ t))

pub reverse-cons-append : (c : ℕ) (s t : Text) → reverse (c ∷ s) ++ t ≡ reverse s ++ c ∷ t
reverse-cons-append c s t = rw (reverse-cons c s) (append_assoc (reverse s) (c ∷ []) t)

scan_object-plain :
    (c depth : ℕ) (found before : Text)
    → is_plain c ≡ true
    → scan_object (suc depth) found (c ∷ before) ≡ scan_object (suc depth) (c ∷ found) before
unfolding scan_object
scan_object-plain c depth found before p = ground (arith, p)

scan_object-close :
    (depth : ℕ) (found before : Text)
    → scan_object depth found (b'}' ∷ before) ≡ scan_object (suc depth) (b'}' ∷ found) before
unfolding scan_object
scan_object-close depth found before = ap (λ d. scan_object d (b'}' ∷ found) before) (omega arith)

scan_object-open :
    (depth : ℕ) (found before : Text)
    → scan_object (suc (suc depth)) found (b'{' ∷ before)
      ≡ scan_object (suc depth) (b'{' ∷ found) before
unfolding scan_object
scan_object-open depth found before = ground arith

-- The scan passes over a balanced text backward, and keeps its depth.
scan_object-Balanced :
    (s : Text)
    → Balanced s
    → (depth : ℕ) (found before : Text)
    → scan_object (suc depth) found (reverse s ++ before)
      ≡ scan_object (suc depth) (s ++ found) before
scan_object-Balanced _ nothing depth found before = refl
scan_object-Balanced _ (plain c s p b) depth found before =
    rw (reverse-cons-append c s before, scan_object-Balanced s b depth found (c ∷ before))
      (scan_object-plain c depth (s ++ found) before p)
scan_object-Balanced _ (nest s t b d) depth found before =
    rw
      (
        reverse-cons-append b'{' (s ++ b'}' ∷ t) before,
        reverse-append s (b'}' ∷ t),
        append_assoc (reverse (b'}' ∷ t)) (reverse s) (b'{' ∷ before),
        reverse-cons-append b'}' t (reverse s ++ b'{' ∷ before),
        scan_object-Balanced t d depth found (b'}' ∷ (reverse s ++ b'{' ∷ before)),
        scan_object-close (suc depth) (t ++ found) (reverse s ++ b'{' ∷ before),
        scan_object-Balanced s b (suc depth) (b'}' ∷ (t ++ found)) (b'{' ∷ before),
        scan_object-open depth (s ++ b'}' ∷ (t ++ found)) before,
        append_assoc s (b'}' ∷ t) found,
      )
      refl

abbrev pub braces : Text → Text
braces s = b'{' ∷ (s ++ b'}' ∷ [])

-- From the end of an object the scan finds its beginning.
pub scan_object-braces :
    (s before : Text)
    → Balanced s
    → scan_object 0 [] (b'}' ∷ (reverse s ++ b'{' ∷ before)) ≡ some (braces s, before)
unfolding scan_object
scan_object-braces s before b = scan_object-Balanced s b 0 (b'}' ∷ []) (b'{' ∷ before)

-- What the scan finds stands in the text, behind what it leaves.
pub scan_object-stands :
    (depth : ℕ) (found before obj left : Text)
    → scan_object depth found before ≡ some (obj, left)
    → reverse before ++ found ≡ reverse left ++ obj
unfolding scan_object
scan_object-stands depth found [] obj left h = cc
scan_object-stands depth found (c ∷ before) obj left h =
    reverse-cons-append c before found ∙ elim (Bool-cases (c == b'{' && depth == 1)) [
      | inl stop ↦ ground (arith, stop, h)
      | inr more ↦
          scan_object-stands (depth_behind depth c) (c ∷ found) before obj left (rw more at h)
    ]
