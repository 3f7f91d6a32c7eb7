-- ===== src/Trace/Dumps/Reader/RoundTrip.antt =====
-- The reader reads back each value that src/pqpatch/trace/canonical.py prints and whose texts have no
-- surrogate. So the text of such a value says what it is.
use nesy_pqpatch.Prelude.{
  ℕ, zero, suc, ◌+◌, ◌<◌, ◌≡◌, refl, sym, ap, ◌∙◌, Text, true, false, ◌&&◌, [], ◌∷◌, ◌++◌,
  append_assoc, all, length, arith, if◌then◌else◌,
}
use nesy_pqpatch.Python.{decimal}
use nesy_pqpatch.Trace.Dumps.{
  Json, null, num, str, arr, obj, Items, nil, cons, Fields, end, field, chars_json, string_json,
  print, print_items, print_fields,
}
use nesy_pqpatch.Trace.Dumps.Chars.{is_scalar}
use nesy_pqpatch.Trace.Dumps.Strings.{
  starts_digit, read_number, read_string, decimal-start, read_number-decimal, read_string-chars,
}
use nesy_pqpatch.Trace.Dumps.{sorted, sorted_items, sorted_fields, sort_fields, insert_field, dumps}
use nesy_pqpatch.Trace.Dumps.Reader.{
  scalars, scalar_items, scalar_fields, size, size_items, size_fields, tail_items, tail_fields,
  comma_items, comma_fields, drop_one, number_read, string_read, array_read, object_read,
  read_value, read_tail, read_members, opens,
}

fueled : (n : ℕ) (P : ℕ → Type 0) → ((f : ℕ) → n < suc f → P (suc f)) → (f : ℕ) → n < f → P f
fueled n P step zero h = absurd (omega (arith, h))
fueled n P step (suc f) h = step f h

-- what reading a value, the items behind it and the fields behind it gives
abbrev Reads : Json → Type 0
Reads j =
    (r : Text)
    → scalars j ≡ true
    → starts_digit r ≡ false
    → (f : ℕ) → size j < f
    → read_value f (print j ++ r) ≡ (j, r)

abbrev ReadsItems : Items → Type 0
ReadsItems xs =
    (r : Text)
    → scalar_items xs ≡ true
    → (f : ℕ) → size_items xs < f
    → read_tail f (tail_items xs ++ 93 ∷ r) ≡ (xs, r)

abbrev ReadsFields : Fields → Type 0
ReadsFields fs =
    (r : Text)
    → scalar_fields fs ≡ true
    → (f : ℕ) → size_fields fs < f
    → read_members f (tail_fields fs ++ 125 ∷ r) ≡ (fs, r)

read_value-digit :
    (f : ℕ) (s : Text)
    → starts_digit s ≡ true
    → read_value (suc f) s ≡ number_read (read_number 0 s)
unfolding read_value
read_value-digit f [] h = cc
read_value-digit f (c ∷ s) h = ground (arith, h)

string_at :
    (s r : Text) (f : ℕ)
    → all is_scalar s ≡ true
    → length s < f
    → read_string f ((chars_json s ++ 34 ∷ []) ++ r) ≡ (s, r)
string_at s r f h l =
    ap (read_string f) (append_assoc (chars_json s) (34 ∷ []) r) ∙ read_string-chars s r f h l

digit-open : (s : Text) → starts_digit s ≡ true → opens 93 s ≡ false
digit-open [] h = refl
digit-open (c ∷ s) h = ground (arith, h)

print-open : (j : Json) (r : Text) → opens 93 (print j ++ r) ≡ false
unfolding print string_json
print-open null r = refl
print-open (num n) r = digit-open (decimal n ++ r) (decimal-start n r)
print-open (str s) r = refl
print-open (arr xs) r = refl
print-open (obj fs) r = refl

tail_items-end : (xs : Items) (r : Text) → starts_digit (tail_items xs ++ 93 ∷ r) ≡ false
unfolding tail_items
tail_items-end nil r = refl
tail_items-end (cons x xs) r = refl

tail_fields-end : (fs : Fields) (r : Text) → starts_digit (tail_fields fs ++ 125 ∷ r) ≡ false
unfolding tail_fields
tail_fields-end end r = refl
tail_fields-end (field k v fs) r = refl

items_at :
    (f : ℕ) (xs : Items) (r : Text)
    → (let s = (print_items xs ++ 93 ∷ []) ++ r in
        (if opens 93 s then read_tail f s else read_tail f (44 ∷ s))
        ≡ read_tail f (tail_items xs ++ 93 ∷ r))
unfolding print tail_items
items_at f nil r = refl
items_at f (cons x xs) r =
    let S = (print_items (cons x xs) ++ 93 ∷ []) ++ r in
    let whole : S ≡ (print x ++ tail_items xs) ++ 93 ∷ r =
      append_assoc (print_items (cons x xs)) (93 ∷ []) r
      ∙ ap (λ t. (print x ++ t) ++ 93 ∷ r) (comma_items xs) in
    let shut : opens 93 S ≡ false =
      ap (opens 93) (whole ∙ append_assoc (print x) (tail_items xs) (93 ∷ r))
      ∙ print-open x (tail_items xs ++ 93 ∷ r) in
    ap (λ b. if b then read_tail f S else read_tail f (44 ∷ S)) shut
    ∙ ap (λ t. read_tail f (44 ∷ t)) whole

fields_at :
    (f : ℕ) (fs : Fields) (r : Text)
    → (let s = (print_fields fs ++ 125 ∷ []) ++ r in
        (if opens 125 s then read_members f s else read_members f (44 ∷ s))
        ≡ read_members f (tail_fields fs ++ 125 ∷ r))
unfolding print tail_fields string_json
fields_at f end r = refl
fields_at f (field k v fs) r =
    ap (λ t. read_members f (44 ∷ t))
      (append_assoc (print_fields (field k v fs)) (125 ∷ []) r
        ∙ ap (λ t. (string_json k ++ (58 ∷ (print v ++ t))) ++ 125 ∷ r) (comma_fields fs))

item-Reads : (x : Json) (xs : Items) → Reads x → ReadsItems xs → ReadsItems (cons x xs)
unfolding read_value tail_items scalars size
item-Reads x xs ihx ihxs r h zero l = absurd (omega (arith, l))
item-Reads x xs ihx ihxs r h (suc f) l =
    let later = tail_items xs ++ 93 ∷ r in
    ap (λ s. read_tail (suc f) (44 ∷ s)) (append_assoc (print x) (tail_items xs) (93 ∷ r))
    ∙ ap (λ p. (cons p.0 (read_tail f p.1).0, (read_tail f p.1).1))
        (ihx later (ground (arith, h)) (tail_items-end xs r) f (omega (arith, l)))
    ∙ ap (λ q. (cons x q.0, q.1)) (ihxs r (ground (arith, h)) f (omega (arith, l)))

abbrev member_from : ℕ → Text × Text → Fields × Text
member_from f k =
    let v = read_value f (drop_one k.1) in let fs = read_members f v.1 in (field k.0 v.0 fs.0, fs.1)

member-Reads :
    (k : Text) (v : Json) (fs : Fields) → Reads v → ReadsFields fs → ReadsFields (field k v fs)
unfolding read_value tail_fields scalars size string_json
member-Reads k v fs ihv ihfs r h zero l = absurd (omega (arith, l))
member-Reads k v fs ihv ihfs r h (suc f) l =
    let later = tail_fields fs ++ 125 ∷ r in
    let rest = (print v ++ tail_fields fs) ++ 125 ∷ r in
    ap (λ s. member_from f (read_string f s))
      (append_assoc (chars_json k ++ 34 ∷ []) (58 ∷ (print v ++ tail_fields fs)) (125 ∷ r))
    ∙ ap (member_from f) (string_at k (58 ∷ rest) f (ground (arith, h)) (omega (arith, l)))
    ∙ ap (λ s. let p = read_value f s in let q = read_members f p.1 in (field k p.0 q.0, q.1))
        (append_assoc (print v) (tail_fields fs) (125 ∷ r))
    ∙ ap (λ p. (field k p.0 (read_members f p.1).0, (read_members f p.1).1))
        (ihv later (ground (arith, h)) (tail_fields-end fs r) f (omega (arith, l)))
    ∙ ap (λ q. (field k v q.0, q.1)) (ihfs r (ground (arith, h)) f (omega (arith, l)))

string-Reads : (s : Text) → Reads (str s)
unfolding read_value print string_json scalars size
string-Reads s r h d zero l = absurd (omega (arith, l))
string-Reads s r h d (suc f) l = ap string_read (string_at s r f h (omega (arith, l)))

number-Reads : (n : ℕ) → Reads (num n)
unfolding print size
number-Reads n r h d zero l = absurd (omega (arith, l))
number-Reads n r h d (suc f) l =
    read_value-digit f (decimal n ++ r) (decimal-start n r)
    ∙ ap number_read (read_number-decimal n r d)

-- Every value without surrogates is read back from what is printed of it.
print-Reads : (j : Json) → Reads j
unfolding read_value print scalars size tail_items tail_fields
print-Reads j = elim j as Reads ReadsItems ReadsFields [
  | null ↦ λ r h d. fueled _ _ λ f l. refl
  | num n ↦ number-Reads n
  | str s ↦ string-Reads s
  | arr (xs → ih) ↦
      λ r h d. fueled _ _ λ f l. ap array_read (items_at f xs r ∙ ih r h f (omega (arith, l)))
  | obj (fs → ih) ↦
      λ r h d. fueled _ _ λ f l. ap object_read (fields_at f fs r ∙ ih r h f (omega (arith, l)))
  | nil ↦ λ r h. fueled _ _ λ f l. refl
  | cons (x → ih) (xs → ihs) ↦ item-Reads x xs ih ihs
  | end ↦ λ r h. fueled _ _ λ f l. refl
  | field k (v → ih) (fs → ihs) ↦ member-Reads k v fs ih ihs
]

-- Two values without surrogates that print alike are one value.
print-injective : (j j' : Json) → scalars j ≡ true → scalars j' ≡ true → print j ≡ print j' → j ≡ j'
print-injective j j' h h' e =
    let f = suc (size j + size j') in
    ap (λ p. p.0)
      (sym (print-Reads j [] h refl f (omega arith))
        ∙ ap (λ s. read_value f (s ++ [])) e
        ∙ print-Reads j' [] h' refl f (omega arith))

scalars-insert :
    (k : Text) (v : Json) (fs : Fields)
    → scalar_fields (insert_field k v fs) ≡ (all is_scalar k && (scalars v && scalar_fields fs))
unfolding insert_field scalars
scalars-insert k v end = refl
scalars-insert k v (field j w fs) = ground (arith, scalars-insert k v fs)

-- Sorting the keys keeps the texts.
scalars-sorted : (j : Json) → scalars (sorted j) ≡ scalars j
unfolding sorted sort_fields scalars
scalars-sorted j =
    elim j
      as (λ j. scalars (sorted j) ≡ scalars j) (λ xs.
        scalar_items (sorted_items xs) ≡ scalar_items xs) (λ fs.
          scalar_fields (sort_fields (sorted_fields fs)) ≡ scalar_fields fs) [
            | arr (xs → ih) ↦ ih
            | obj (fs → ih) ↦ ih
            | cons (x → ih) (xs → ihs) ↦ λ i. ih i && ihs i
            | field k (v → ih) (fs → ihs) ↦
                scalars-insert k (sorted v) (sort_fields (sorted_fields fs))
                ∙ (λ i. all is_scalar k && (ih i && ihs i))
            | _ ↦ refl
          ]

-- Two values without surrogates that have one text are one value, up to the order of their keys.
pub dumps-injective :
    (j j' : Json) → scalars j ≡ true → scalars j' ≡ true → dumps j ≡ dumps j' → sorted j ≡ sorted j'
unfolding dumps
dumps-injective j j' h h' e =
    print-injective (sorted j) (sorted j') (scalars-sorted j ∙ h) (scalars-sorted j' ∙ h') e
