-- ===== src/Diff/Scope.antt =====
-- `path_in_scope` of src/pqpatch/verifier/rules/diffutil.py.
pub mod Suffix
use nesy_pqpatch.Prelude.{
  ℕ, ◌-◌, Text, text, text_eq, texts_eq, remove_prefix, strip, drop_while, split_on, ◌≡◌, refl,
  Bool, true, false, not, ◌&&◌, ◌||◌, List, [], ◌∷◌, keep, length, drop, leb, ◌==◌, arith,
  if◌then◌else◌,
}

-- the parts that PurePosixPath keeps: neither empty nor "."
abbrev is_part : Text → Bool
is_part [] = false
is_part (c ∷ s) = not (text_eq (c ∷ s) (text "."))

-- PurePosixPath(path).parts for a path with no leading slash
unfoldable pub path_parts : Text → List Text
unfolding split_on text_eq
path_parts path = keep is_part (split_on 47 path)

unfoldable pub normalized_parts : Text → List Text
unfolding path_parts remove_prefix strip drop_while
normalized_parts path =
    path_parts (
      drop_while (λ c. c == 47)
        (remove_prefix (text "b/") (remove_prefix (text "a/") (strip path))))

-- long[len(long) - len(short):] == short
unfoldable pub ends_with : List Text → List Text → Bool
unfolding texts_eq
ends_with long short = texts_eq (drop (length long - length short) long) short

abbrev is_empty : List Text → Bool
is_empty [] = true
is_empty (x ∷ xs) = false

unfoldable pub parts_in_scope : List Text → List Text → Bool
unfolding ends_with
parts_in_scope t s =
    if is_empty t || is_empty s
    then false
    else if leb (length t) (length s)
    then ends_with s t
    else ends_with t s

unfoldable pub path_in_scope : Text → Text → Bool
unfolding parts_in_scope normalized_parts
path_in_scope touched site_path =
    parts_in_scope (normalized_parts touched) (normalized_parts site_path)

spellings :
    (path_in_scope (text "b/src/A.java") (text "/abs/src/A.java") ≡ true)
    × (path_in_scope (text "A.java") (text "/abs/src/A.java") ≡ true)
    × (path_in_scope (text "lib/A.java") (text "/abs/src/A.java") ≡ false)
    × (path_in_scope (text "  ") (text "/abs/src/A.java") ≡ false)
unfolding path_in_scope
spellings = (refl, refl, refl, refl)
