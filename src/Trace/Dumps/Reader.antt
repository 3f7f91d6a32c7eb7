-- ===== src/Trace/Dumps/Reader.antt =====
-- A reader of what `dumps` prints (src/pqpatch/trace/canonical.py), for the proof that the text says
-- what was printed.
pub mod RoundTrip
use nesy_pqpatch.Prelude.{
  ℕ, zero, suc, ◌+◌, ◌<◌, ◌≡◌, refl, sym, ap, ◌∙◌, Text, Bool, true, false, ◌&&◌, [], ◌∷◌, ◌++◌,
  append_assoc, all, length, ◌==◌, arith, if◌then◌else◌,
}
use nesy_pqpatch.Python.{decimal}
use nesy_pqpatch.Trace.Dumps.{
  Json, null, num, str, arr, obj, Items, nil, cons, Fields, end, field, chars_json, string_json,
  print, print_items, print_fields, then_comma,
}
use nesy_pqpatch.Trace.Dumps.Chars.{is_scalar}
use nesy_pqpatch.Trace.Dumps.Strings.{
  starts_digit, read_number, read_string, decimal-start, read_number-decimal, read_string-chars,
}

-- the characters of its texts are Unicode scalar values
unfoldable mutual
  pub scalars : Json → Bool
  scalars null = true
  scalars (num n) = true
  scalars (str s) = all is_scalar s
  scalars (arr xs) = scalar_items xs
  scalars (obj fs) = scalar_fields fs

  pub scalar_items : Items → Bool
  scalar_items nil = true
  scalar_items (cons x xs) = scalars x && scalar_items xs

  pub scalar_fields : Fields → Bool
  scalar_fields end = true
  scalar_fields (field k v fs) = all is_scalar k && (scalars v && scalar_fields fs)

-- enough fuel to read the value
unfoldable mutual
  size : Json → ℕ
  size null = 1
  size (num n) = 1
  size (str s) = 2 + length s
  size (arr xs) = 2 + size_items xs
  size (obj fs) = 2 + size_fields fs

  size_items : Items → ℕ
  size_items nil = 1
  size_items (cons x xs) = 1 + size x + size_items xs

  size_fields : Fields → ℕ
  size_fields end = 1
  size_fields (field k v fs) = 2 + length k + size v + size_fields fs

-- what follows the first member, up to the closing bracket
unfoldable tail_items : Items → Text
tail_items nil = []
tail_items (cons x xs) = 44 ∷ (print x ++ tail_items xs)

unfoldable tail_fields : Fields → Text
tail_fields end = []
tail_fields (field k v fs) = 44 ∷ (string_json k ++ (58 ∷ (print v ++ tail_fields fs)))

abbrev is_cons : Text → Bool
is_cons [] = false
is_cons (c ∷ s) = true

then_comma-cons : (s : Text) → is_cons s ≡ true → then_comma s ≡ 44 ∷ s
then_comma-cons [] h = cc
then_comma-cons (c ∷ s) h = refl

starts_digit-cons : (s : Text) → starts_digit s ≡ true → is_cons s ≡ true
starts_digit-cons [] h = cc
starts_digit-cons (c ∷ s) h = refl

print-cons : (j : Json) (r : Text) → is_cons (print j ++ r) ≡ true
unfolding print string_json
print-cons null r = refl
print-cons (num n) r = starts_digit-cons (decimal n ++ r) (decimal-start n r)
print-cons (str s) r = refl
print-cons (arr xs) r = refl
print-cons (obj fs) r = refl

comma_items : (xs : Items) → then_comma (print_items xs) ≡ tail_items xs
unfolding print tail_items
comma_items nil = refl
comma_items (cons x xs) =
    then_comma-cons (print x ++ then_comma (print_items xs))
      (print-cons x (then_comma (print_items xs)))
    ∙ ap (λ s. 44 ∷ (print x ++ s)) (comma_items xs)

comma_fields : (fs : Fields) → then_comma (print_fields fs) ≡ tail_fields fs
unfolding print tail_fields string_json
comma_fields end = refl
comma_fields (field k v fs) =
    ap (λ s. 44 ∷ (string_json k ++ (58 ∷ (print v ++ s)))) (comma_fields fs)

abbrev drop_one : Text → Text
drop_one [] = []
drop_one (c ∷ s) = s

abbrev drop_three : Text → Text
drop_three (a ∷ b ∷ c ∷ s) = s
drop_three s = s

abbrev number_read : ℕ × Text → Json × Text
number_read (n, s) = (num n, s)

abbrev string_read : Text × Text → Json × Text
string_read (k, s) = (str k, s)

abbrev array_read : Items × Text → Json × Text
array_read (xs, s) = (arr xs, s)

abbrev object_read : Fields × Text → Json × Text
object_read (fs, s) = (obj fs, s)

abbrev opens : ℕ → Text → Bool
opens k [] = false
opens k (c ∷ s) = c == k

-- `read_tail` and `read_members` read what `tail_items` and `tail_fields` print, with the bracket. A
-- first member is read as one behind a comma.
unfoldable mutual
  read_value : ℕ → Text → Json × Text
  read_value zero s = (null, s)
  read_value (suc f) [] = (null, [])
  read_value (suc f) (c ∷ s) =
      let xs = read_tail f (44 ∷ s) in
      let fs = read_members f (44 ∷ s) in
      let no_xs = read_tail f s in
      let no_fs = read_members f s in
      if c == 110
      then (null, drop_three s)
      else if c == 34
      then string_read (read_string f s)
      else if c == 91
      then array_read (if opens 93 s then no_xs else xs)
      else if c == 123
      then object_read (if opens 125 s then no_fs else fs)
      else number_read (read_number 0 (c ∷ s))

  read_tail : ℕ → Text → Items × Text
  read_tail zero s = (nil, s)
  read_tail (suc f) [] = (nil, [])
  read_tail (suc f) (c ∷ s) =
      let x = read_value f s in
      let xs = read_tail f x.1 in if c == 44 then (cons x.0 xs.0, xs.1) else (nil, s)

  read_members : ℕ → Text → Fields × Text
  read_members zero s = (end, s)
  read_members (suc f) [] = (end, [])
  read_members (suc f) (c ∷ s) =
      let k = read_string f (drop_one s) in
      let v = read_value f (drop_one k.1) in
      let fs = read_members f v.1 in if c == 44 then (field k.0 v.0 fs.0, fs.1) else (end, s)
