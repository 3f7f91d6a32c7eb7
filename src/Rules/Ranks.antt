-- ===== src/Rules/Ranks.antt =====
-- src/pqpatch/verifier/rules/ranks.py: the security categories of the parameter sets, and the
-- patterns of their names.
use nesy_pqpatch.Prelude.{
  ℕ, zero, suc, ◌≡◌, refl, Text, text, text_eq, Option, none, some, List, [], ◌∷◌, if◌then◌else◌,
}
use nesy_pqpatch.Regex.{Regex, lit, ◌·◌, ◌or◌, digit, repeat, group, one_of, search, group_of}

-- dict.get on a table of texts
unfoldable pub table_get : Text → List (Text × ℕ) → Option ℕ
unfolding text_eq
table_get k [] = none
table_get k ((j, v) ∷ rest) = if text_eq j k then some v else table_get k rest

unfoldable pub kem_rank : List (Text × ℕ)
kem_rank = (text "ML-KEM-512", 1) ∷ (text "ML-KEM-768", 3) ∷ (text "ML-KEM-1024", 5) ∷ []

unfoldable pub sig_rank : List (Text × ℕ)
sig_rank = (text "ML-DSA-44", 2) ∷ (text "ML-DSA-65", 3) ∷ (text "ML-DSA-87", 5) ∷ []

-- r"ML-(?:KEM|DSA)-\d{2,4}"
unfoldable pub token_re : Regex
token_re = lit "ML-" · (lit "KEM" or lit "DSA") · lit "-" · repeat 2 2 digit

-- r"SLH-DSA-(?:SHA2|SHAKE)-(\d{3})[sfSF]"
unfoldable pub slh_token_re : Regex
slh_token_re =
    lit "SLH-DSA-"
    · (lit "SHA2" or lit "SHAKE")
    · lit "-"
    · group 1 (repeat 3 0 digit)
    · one_of "sfSF"

unfoldable pub slh_category_rank : List (Text × ℕ)
slh_category_rank = (text "128", 1) ∷ (text "192", 3) ∷ (text "256", 5) ∷ []

unfoldable pub valid_mlkem_sets : List Text
valid_mlkem_sets = text "512" ∷ text "768" ∷ text "1024" ∷ []

unfoldable pub valid_mldsa_sets : List Text
valid_mldsa_sets = text "44" ∷ text "65" ∷ text "87" ∷ []

unfoldable pub valid_slh_sets : List Text
valid_slh_sets = text "128" ∷ text "192" ∷ text "256" ∷ []

-- a or b, for ranks: 0 and None give way
abbrev or_rank : Option ℕ → Option ℕ → Option ℕ
or_rank none b = b
or_rank (some zero) b = b
or_rank (some (suc n)) b = some (suc n)

unfoldable pub floor_rank : Text → Option ℕ
unfolding table_get kem_rank sig_rank
floor_rank floor = or_rank (table_get floor kem_rank) (table_get floor sig_rank)

unfoldable pub token_rank : Text → Option ℕ
unfolding table_get kem_rank sig_rank
token_rank token = or_rank (table_get token kem_rank) (table_get token sig_rank)

unfoldable pub slh_token_rank : Text → Option ℕ
unfolding slh_token_re table_get slh_category_rank search group_of
slh_token_rank token = elim (search slh_token_re token) [
  | none ↦ none
  | some m ↦ table_get (group_of 1 m) slh_category_rank
]

ranks :
    (token_rank (text "ML-KEM-1024") ≡ some 5)
    × (token_rank (text "ML-KEM-256") ≡ none)
    × (slh_token_rank (text "SLH-DSA-SHAKE-192f") ≡ some 3)
unfolding token_rank slh_token_rank
ranks = (refl, refl, refl)
