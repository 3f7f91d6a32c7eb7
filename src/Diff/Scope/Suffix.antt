-- ===== src/Diff/Scope/Suffix.antt =====
-- What `path_in_scope` (src/pqpatch/verifier/rules/diffutil.py) decides, on the parts of the two
-- paths: one list of parts is a suffix of the other.
use nesy_pqpatch.Prelude.{
  ◌-◌, ◌≤◌, Text, texts_eq→eq, texts_eq_self, ◌≡◌, ◌≢◌, refl, sym, ap, ◌∙◌, ◌↔◌, ◌⊎◌, inl, inr,
  true, Bool-cases, List, [], ◌∷◌, ◌++◌, length, length-append, take, drop, take-append-drop,
  drop-append, leb, leb→le, arith,
}
use nesy_pqpatch.Diff.Scope.{ends_with, parts_in_scope, normalized_parts, path_in_scope}

abbrev pub IsSuffix : List Text → List Text → Type 0
IsSuffix short long = (before : List Text) × (long ≡ before ++ short)

ends_with→IsSuffix : (long short : List Text) → ends_with long short ≡ true → IsSuffix short long
unfolding ends_with
ends_with→IsSuffix long short h =
    let n = length long - length short in
    (
      take n long,
      sym (take-append-drop n long)
          ∙ ap (λ r. take n long ++ r) (texts_eq→eq (drop n long) short h),
    )

IsSuffix→ends_with : (long short : List Text) → IsSuffix short long → ends_with long short ≡ true
unfolding ends_with
IsSuffix→ends_with long short (before, e) =
    let n : length long - length short ≡ length before =
      omega (arith, ap length e, length-append before short) in
    rw n (rw e (rw (drop-append before short) (texts_eq_self short)))

-- A suffix that is no shorter is the whole list, so each is a suffix of the other.
flip_suffix : (t s : List Text) → length t ≤ length s → IsSuffix s t → IsSuffix t s
flip_suffix t s h ([], e) = ([], sym e)
flip_suffix t s h (b ∷ before, e) = absurd (omega (arith, ap length e, length-append before s))

IsSuffix-le : (t s : List Text) → IsSuffix t s → length t ≤ length s
IsSuffix-le t s (before, e) = omega (arith, ap length e, length-append before t)

parts_in_scope_sound :
    (t s : List Text)
    → parts_in_scope t s ≡ true
    → (t ≢ []) × (s ≢ []) × (IsSuffix t s ⊎ IsSuffix s t)
unfolding parts_in_scope
parts_in_scope_sound [] s h = cc
parts_in_scope_sound (a ∷ t) [] h = cc
parts_in_scope_sound (a ∷ t) (b ∷ s) h = elim (Bool-cases (leb (length (a ∷ t)) (length (b ∷ s)))) [
  | inl le ↦ (λ e. cc, λ e. cc, inl (ends_with→IsSuffix (b ∷ s) (a ∷ t) (rw le at h)))
  | inr gt ↦ (λ e. cc, λ e. cc, inr (ends_with→IsSuffix (a ∷ t) (b ∷ s) (rw gt at h)))
]

parts_in_scope_complete :
    (t s : List Text)
    → (t ≢ [])
    → (s ≢ [])
    → IsSuffix t s ⊎ IsSuffix s t
    → parts_in_scope t s ≡ true
unfolding parts_in_scope
parts_in_scope_complete [] s nt ns h = absurd (nt refl)
parts_in_scope_complete (a ∷ t) [] nt ns h = absurd (ns refl)
parts_in_scope_complete (a ∷ t) (b ∷ s) nt ns h =
    elim (Bool-cases (leb (length (a ∷ t)) (length (b ∷ s)))) [
      | inl le ↦ rw le (
          IsSuffix→ends_with (b ∷ s) (a ∷ t)
            (elim h [ inl x ↦ x | inr y ↦ flip_suffix (a ∷ t) (b ∷ s) (leb→le _ _ le) y ]))
      | inr gt ↦ rw gt (
          IsSuffix→ends_with (a ∷ t) (b ∷ s)
            (elim h [ inr y ↦ y | inl x ↦ absurd (ground (arith, IsSuffix-le (a ∷ t) (b ∷ s) x)) ]))
    ]

-- Two paths are in scope of each other exactly when both have a part left after normalization, and
-- the parts of one are a suffix of the parts of the other.
pub path_in_scope_iff :
    (touched site_path : Text)
    → (path_in_scope touched site_path ≡ true) ↔ (
        (normalized_parts touched ≢ [])
        × (normalized_parts site_path ≢ [])
        × (IsSuffix (normalized_parts touched) (normalized_parts site_path)
            ⊎ IsSuffix (normalized_parts site_path) (normalized_parts touched)))
unfolding path_in_scope
path_in_scope_iff touched site_path = (
  parts_in_scope_sound (normalized_parts touched) (normalized_parts site_path),
  λ h. parts_in_scope_complete (normalized_parts touched) (normalized_parts site_path) h.0 h.1 h.2,
)
