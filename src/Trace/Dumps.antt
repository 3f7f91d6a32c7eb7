-- ===== src/Trace/Dumps.antt =====
-- JSON values, and `json.dumps(payload, sort_keys=True, separators=(",", ":"))`, whose output is
-- ASCII. A float is a whole number here, so it is printed without a fraction.
mod Chars
mod Strings
pub mod Reader
use nesy_pqpatch.Prelude.{
  ℕ, ◌+◌, ◌-◌, ◌/◌, ◌%◌, ◌≡◌, refl, Text, text, Bool, true, false, ◌&&◌, ◌||◌, [], ◌∷◌, ◌++◌, ltb,
  leb, ◌==◌, if◌then◌else◌,
}
use nesy_pqpatch.Python.{decimal}

mutual
  pub data Json : Type 0 where
    null : Json
    num : ℕ → Json
    str : Text → Json
    arr : Items → Json
    obj : Fields → Json

  pub data Items : Type 0 where
    nil : Items
    cons : Json → Items → Items

  pub data Fields : Type 0 where
    end : Fields
    field : Text → Json → Fields → Fields

unfoldable hex : ℕ → ℕ
hex d = if ltb d 10 then 48 + d else 87 + d

-- \uXXXX
unfoldable unit_escape : ℕ → Text
unfolding hex
unit_escape c =
    92 ∷ 117 ∷ hex (c / 4096 % 16) ∷ hex (c / 256 % 16) ∷ hex (c / 16 % 16) ∷ hex (c % 16) ∷ []

-- a character past the 16-bit range is a pair of surrogates
unfoldable char_json : ℕ → Text
unfolding unit_escape
char_json c =
    if c == 34
    then text "\\\""
    else if c == 92
    then text "\\\\"
    else if c == 10
    then text "\\n"
    else if c == 13
    then text "\\r"
    else if c == 9
    then text "\\t"
    else if c == 12
    then text "\\f"
    else if c == 8
    then text "\\b"
    else if leb 32 c && leb c 126
    then c ∷ []
    else if ltb c 0x10000
    then unit_escape c
    else unit_escape (0xD800 + (c - 0x10000) / 1024) ++ unit_escape (0xDC00 + (c - 0x10000) % 1024)

unfoldable chars_json : Text → Text
unfolding char_json
chars_json [] = []
chars_json (c ∷ s) = char_json c ++ chars_json s

unfoldable string_json : Text → Text
unfolding chars_json
string_json s = 34 ∷ (chars_json s ++ 34 ∷ [])

-- the order of Python on texts
unfoldable pub text_lt : Text → Text → Bool
text_lt [] [] = false
text_lt [] (b ∷ t) = true
text_lt (a ∷ s) [] = false
text_lt (a ∷ s) (b ∷ t) = ltb a b || (a == b && text_lt s t)

unfoldable pub insert_field : Text → Json → Fields → Fields
unfolding text_lt
insert_field k v end = field k v end
insert_field k v (field j w fs) =
    if text_lt j k then field j w (insert_field k v fs) else field k v (field j w fs)

unfoldable pub sort_fields : Fields → Fields
unfolding insert_field
sort_fields end = end
sort_fields (field k v fs) = insert_field k v (sort_fields fs)

abbrev then_comma : Text → Text
then_comma [] = []
then_comma (c ∷ s) = 44 ∷ c ∷ s

-- The object is sorted on the way down, so the printers below take it as it stands.
unfoldable mutual
  unfolding sort_fields

  pub sorted : Json → Json
  sorted null = null
  sorted (num n) = num n
  sorted (str s) = str s
  sorted (arr xs) = arr (sorted_items xs)
  sorted (obj fs) = obj (sort_fields (sorted_fields fs))

  pub sorted_items : Items → Items
  sorted_items nil = nil
  sorted_items (cons x xs) = cons (sorted x) (sorted_items xs)

  pub sorted_fields : Fields → Fields
  sorted_fields end = end
  sorted_fields (field k v fs) = field k (sorted v) (sorted_fields fs)

unfoldable mutual
  unfolding string_json decimal

  print : Json → Text
  print null = text "null"
  print (num n) = decimal n
  print (str s) = string_json s
  print (arr xs) = 91 ∷ (print_items xs ++ 93 ∷ [])
  print (obj fs) = 123 ∷ (print_fields fs ++ 125 ∷ [])

  print_items : Items → Text
  print_items nil = []
  print_items (cons x xs) = print x ++ then_comma (print_items xs)

  print_fields : Fields → Text
  print_fields end = []
  print_fields (field k v fs) = string_json k ++ (58 ∷ (print v ++ then_comma (print_fields fs)))

unfoldable pub dumps : Json → Text
unfolding sorted print
dumps j = print (sorted j)

dumps_sorts :
    dumps (
      obj (
        field
          (text "b")
          (num 12)
          (field (text "a") (arr (cons null (cons (str (text "x\"")) nil))) end)))
    ≡ text "{\"a\":[null,\"x\\\"\"],\"b\":12}"
unfolding dumps
dumps_sorts = refl
