-- ===== src/Conformance/Literals.antt =====
-- Which names src/pqpatch/verifier/l4_conformance/roundtrip.py's `pq_literals` finds.
use nesy_pqpatch.Prelude.{
  ◌≡◌, refl, ap, ◌∙◌, Text, text_eq, text_eq→eq, Bool, true, false, Bool-cases, not, ◌&&◌, ◌||◌,
  inl, inr, List, [], ◌∷◌, ◌++◌, any, arith, if◌then◌else◌,
}
use nesy_pqpatch.Regex.{Found, found_in, find_all, group_of}
use nesy_pqpatch.Diff.Lines.{added_lines}
use nesy_pqpatch.Conformance.{
  getinstance_literal, pq_family, contains, literals_of_line, literals_from, pq_literals,
}

-- the name is the first group of some match, or of some match in some line
abbrev pub named_in : Text → List Found → Bool
named_in l = any (λ m. text_eq l (group_of 1 m))

abbrev pub named : Text → List Text → Bool
named l = any (λ line. named_in l (find_all getinstance_literal line))

contains-append :
    (l : Text) (xs : List Text) (x : Text)
    → contains l (xs ++ x ∷ []) ≡ (contains l xs || text_eq l x)
contains-append l [] x = elim (Bool-cases (text_eq l x)) [ inl t ↦ rw t refl | inr f ↦ rw f refl ]
contains-append l (y ∷ xs) x = elim (Bool-cases (text_eq l y)) [
  | inl t ↦ rw t refl
  | inr f ↦ rw f (contains-append l xs x)
]

-- one step of the loop, by cases
step_cases :
    (family_l family_x seen_l seen_x same rest : Bool)
    → (same ≡ true → family_l ≡ family_x)
    → (same ≡ true → seen_l ≡ seen_x)
    → ((if family_x && not seen_x then (seen_l || same) else seen_l) || (family_l && rest))
      ≡ (seen_l || (family_l && (same || rest)))
step_cases family_l family_x seen_l seen_x true rest f s =
    let f' = f refl in let s' = s refl in ground (arith, f', s')
step_cases family_l family_x seen_l seen_x false rest f s = ground arith

contains-literals_of_line :
    (l : Text) (seen : List Text) (ms : List Found)
    → contains l (literals_of_line seen ms)
      ≡ (contains l seen || (found_in pq_family l && named_in l ms))
unfolding literals_of_line
contains-literals_of_line l seen [] = ground arith
contains-literals_of_line l seen (m ∷ ms) =
    let x = group_of 1 m in
    let next = if found_in pq_family x && not (contains x seen) then seen ++ x ∷ [] else seen in
    contains-literals_of_line l next ms
    ∙ (ap (λ b. b || (found_in pq_family l && named_in l ms)) (grown x)
        ∙ step_cases (found_in pq_family l) (found_in pq_family x) (contains l seen)
            (contains x seen) (text_eq l x) (named_in l ms)
            (λ t. ap (found_in pq_family) (text_eq→eq l x t))
            (λ t. ap (λ y. contains y seen) (text_eq→eq l x t)))
  where
    grown :
        (x : Text)
        → contains l
            (if found_in pq_family x && not (contains x seen) then seen ++ x ∷ [] else seen)
          ≡ (if found_in pq_family x && not (contains x seen)
              then (contains l seen || text_eq l x)
              else contains l seen)
    grown x = elim (Bool-cases (found_in pq_family x && not (contains x seen))) [
      | inl t ↦ rw t (contains-append l seen x)
      | inr f ↦ rw f refl
    ]

or_assoc : (a f b c : Bool) → ((a || (f && b)) || (f && c)) ≡ (a || (f && (b || c)))
or_assoc true f b c = refl
or_assoc false true b c = refl
or_assoc false false b c = refl

contains-literals_from :
    (l : Text) (seen lines : List Text)
    → contains l (literals_from seen lines)
      ≡ (contains l seen || (found_in pq_family l && named l lines))
unfolding literals_from
contains-literals_from l seen [] = ground arith
contains-literals_from l seen (line ∷ lines) =
    let ms = find_all getinstance_literal line in
    contains-literals_from l (literals_of_line seen ms) lines
    ∙ (ap (λ b. b || (found_in pq_family l && named l lines)) (contains-literals_of_line l seen ms)
        ∙ or_assoc (contains l seen) (found_in pq_family l) (named_in l ms) (named l lines))

-- A text is among the names that a diff introduces exactly when it has a post-quantum family in it
-- and some added line passes it to a getInstance call.
pub contains-pq_literals :
    (unified_diff l : Text)
    → contains l (pq_literals unified_diff)
      ≡ (found_in pq_family l && named l (added_lines unified_diff))
unfolding pq_literals
contains-pq_literals unified_diff l = contains-literals_from l [] (added_lines unified_diff)

-- no text twice
abbrev pub distinct : List Text → Bool
distinct [] = true
distinct (x ∷ xs) = not (contains x xs) && distinct xs
