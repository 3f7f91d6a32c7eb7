-- ===== src/Proposer/Response/Trailing.antt =====
-- Where src/pqpatch/proposer/response_format.py finds the self-report.
use nesy_pqpatch.Prelude.{
  ℕ, ◌≡◌, refl, ap, sym, ◌∙◌, subst, Text, Bool, true, false, Option, none, some, List, [], ◌∷◌,
  ◌++◌, append_assoc, append-nil, any, length, length-append, ◌==◌, arith, not, inl, inr,
  Bool-cases, Option-cases,
}
use mathlib.Core.List.{reverse, reverse-append, reverse-reverse, reverse-cons}
use nesy_pqpatch.Proposer.Response.{
  Loads, scan_object, self_report, report_in, trailing_from, find_trailing_self_report,
}
use nesy_pqpatch.Proposer.Response.Braces.{
  Balanced, braces, reverse-cons-append, scan_object-braces, scan_object-stands,
}

-- no closing brace
abbrev pub is_open : Text → Bool
is_open s = not (any (λ c. c == b'}') s)

-- Where the self-report stands in a text.
pub record StandsAt (loads : Loads) (s : Text) (start : ℕ) (fields : List (Text × Text))
    : Type 0 where
  pub diff : Text
  pub obj : Text
  pub tail : Text
  pub parts : s ≡ diff ++ (obj ++ tail)
  pub offset : start ≡ length diff
  pub loaded : self_report (loads obj) ≡ some fields

length-reverse : (s : Text) → length (reverse s) ≡ length s
length-reverse [] = refl
length-reverse (c ∷ s) =
    ap length (reverse-cons c s)
    ∙ length-append (reverse s) (c ∷ [])
    ∙ omega (arith, length-reverse s)

module _ (loads : Loads) where
  report_in-some :
      (o : Option (Text × Text)) (start : ℕ) (fields : List (Text × Text))
      → report_in loads o ≡ some (start, fields)
      → (obj : Text) × (left : Text) × (o ≡ some (obj, left))
        × (start ≡ length left)
        × (self_report (loads obj) ≡ some fields)
  unfolding report_in
  report_in-some none start fields h = cc
  report_in-some (some (obj, left)) start fields h = elim (Option-cases (self_report (loads obj))) [
    | inl n ↦ absurd (ground (arith, n, h))
    | inr (g, e) ↦ (obj, left, refl, ground (arith, e, h), ground (arith, e, h))
  ]

  later-StandsAt :
      (c : ℕ) (before : Text) (start : ℕ) (fields : List (Text × Text))
      → StandsAt loads (reverse before) start fields
      → StandsAt loads (reverse (c ∷ before)) start fields
  later-StandsAt c before start fields r = record {
    diff = r.diff;
    obj = r.obj;
    tail = r.tail ++ c ∷ [];
    parts =
        reverse-cons c before
        ∙ rw r.parts (
            append_assoc r.diff (r.obj ++ r.tail) (c ∷ [])
            ∙ ap (λ x. r.diff ++ x) (append_assoc r.obj r.tail (c ∷ [])));
    offset = r.offset;
    loaded = r.loaded;
  }

  trailing_from-StandsAt :
      (before : Text) (start : ℕ) (fields : List (Text × Text))
      → trailing_from loads before ≡ some (start, fields)
      → StandsAt loads (reverse before) start fields
  unfolding trailing_from
  trailing_from-StandsAt [] start fields h = cc
  trailing_from-StandsAt (c ∷ before) start fields h = elim (Bool-cases (c == b'}')) [
    | inr other ↦
        later-StandsAt c before start fields
          (trailing_from-StandsAt before start fields (rw other at h))
    | inl close ↦ elim (Option-cases (report_in loads (scan_object 0 [] (c ∷ before)))) [
      | inl n ↦
          later-StandsAt c before start fields
            (trailing_from-StandsAt before start fields (ground (arith, close, n, h)))
      | inr ((start', fields'), e) ↦
          let (obj, left, at, offset, loaded) =
            report_in-some (scan_object 0 [] (c ∷ before)) start fields
              (ground (arith, close, e, h)) in
          record {
            diff = reverse left;
            obj = obj;
            tail = [];
            parts =
                sym (append-nil (reverse (c ∷ before)))
                ∙ scan_object-stands 0 [] (c ∷ before) obj left at
                ∙ ap (λ x. reverse left ++ x) (sym (append-nil obj));
            offset = offset ∙ sym (length-reverse left);
            loaded = loaded;
          }
    ]
  ]

  trailing_from-skip :
      (c : ℕ) (before : Text)
      → (c == b'}') ≡ false
      → trailing_from loads (c ∷ before) ≡ trailing_from loads before
  unfolding trailing_from
  trailing_from-skip c before h = rw h refl

  trailing_from-tail :
      (tail before : Text)
      → is_open tail ≡ true
      → trailing_from loads (reverse tail ++ before) ≡ trailing_from loads before
  trailing_from-tail [] before h = refl
  trailing_from-tail (c ∷ tail) before h =
      ap (trailing_from loads) (reverse-cons-append c tail before)
      ∙ trailing_from-tail tail (c ∷ before) (ground (arith, h))
      ∙ trailing_from-skip c before (ground (arith, h))

  trailing_from-braces :
      (s before : Text) (fields : List (Text × Text))
      → Balanced s
      → self_report (loads (braces s)) ≡ some fields
      → trailing_from loads (b'}' ∷ (reverse s ++ b'{' ∷ before)) ≡ some (length before, fields)
  unfolding trailing_from report_in
  trailing_from-braces s before fields b r = rw (scan_object-braces s before b, r) refl

  reversed_parts :
      (diff s tail : Text)
      → reverse (diff ++ (braces s ++ tail))
        ≡ reverse tail ++ b'}' ∷ (reverse s ++ b'{' ∷ reverse diff)
  reversed_parts diff s tail =
      rw
        (
          reverse-append diff (braces s ++ tail),
          reverse-append (braces s) tail,
          append_assoc (reverse tail) (reverse (braces s)) (reverse diff),
          reverse-cons-append b'{' (s ++ b'}' ∷ []) (reverse diff),
          reverse-append s (b'}' ∷ []),
        )
        refl

  -- An object with the self-report, behind which no brace closes, is the one that is found.
  pub find_trailing-braces :
      (diff s tail : Text) (fields : List (Text × Text))
      → Balanced s
      → is_open tail ≡ true
      → self_report (loads (braces s)) ≡ some fields
      → find_trailing_self_report loads (diff ++ (braces s ++ tail)) ≡ some (length diff, fields)
  unfolding find_trailing_self_report
  find_trailing-braces diff s tail fields b h r =
      ap (trailing_from loads) (reversed_parts diff s tail)
      ∙ trailing_from-tail tail (b'}' ∷ (reverse s ++ b'{' ∷ reverse diff)) h
      ∙ trailing_from-braces s (reverse diff) fields b r
      ∙ ap (λ n. some (n, fields)) (length-reverse diff)

  -- What is found is such an object.
  pub find_trailing-StandsAt :
      (s : Text) (start : ℕ) (fields : List (Text × Text))
      → find_trailing_self_report loads s ≡ some (start, fields)
      → StandsAt loads s start fields
  unfolding find_trailing_self_report
  find_trailing-StandsAt s start fields h =
      subst (λ x. StandsAt loads x start fields) (reverse-reverse s)
        (trailing_from-StandsAt (reverse s) start fields h)
