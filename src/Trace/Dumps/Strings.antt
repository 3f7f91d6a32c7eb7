-- ===== src/Trace/Dumps/Strings.antt =====
-- The numbers and the strings that `dumps` prints, read back (src/pqpatch/trace/canonical.py).
use nesy_pqpatch.Prelude.{
  ℕ, zero, suc, ◌+◌, ◌*◌, ◌-◌, ◌/◌, ◌%◌, ◌<◌, ◌≡◌, refl, ap, ◌∙◌, Text, Bool, true, false,
  Bool-cases, inl, inr, ◌&&◌, [], ◌∷◌, ◌++◌, append_assoc, all, length, ltb, leb, ◌==◌, arith,
  if◌then◌else◌,
}
use nesy_pqpatch.Python.{digits_from, decimal}
use nesy_pqpatch.Trace.Dumps.{char_json, chars_json, unit_escape}
use nesy_pqpatch.Trace.Dumps.Chars.{is_scalar, read_char, read_char-char_json}

abbrev pub is_digit : ℕ → Bool
is_digit c = leb 48 c && leb c 57

abbrev pub starts_digit : Text → Bool
starts_digit [] = false
starts_digit (c ∷ s) = is_digit c

-- the number of the digits at the front, behind digits that stand for `v`
pub read_number : ℕ → Text → ℕ × Text
read_number v [] = (v, [])
read_number v (c ∷ s) =
    let rest = read_number (v * 10 + (c - 48)) s in if is_digit c then rest else (v, c ∷ s)

read_number-end : (v : ℕ) (r : Text) → starts_digit r ≡ false → read_number v r ≡ (v, r)
unfolding read_number
read_number-end v [] h = refl
read_number-end v (c ∷ r) h = rw h refl

read_number-digits :
    (f n : ℕ) (acc : Text) → n < f → read_number 0 (digits_from f n acc) ≡ read_number n acc
unfolding digits_from read_number
read_number-digits zero n acc h = absurd (omega (arith, h))
read_number-digits (suc f) n acc h = elim (Bool-cases (ltb n 10)) [
  | inl small ↦
      let digit : is_digit (48 + n) ≡ true = ground (arith, small) in
      rw (small, digit) (ap (λ v. read_number v acc) (omega arith))
  | inr large ↦
      let digit : is_digit (48 + n % 10) ≡ true = ground arith in
      rw large (
        read_number-digits f (n / 10) ((48 + n % 10) ∷ acc) (ground (arith, h, large))
        ∙ rw digit (ap (λ v. read_number v acc) (omega arith)))
]

digits-append : (f n : ℕ) (acc r : Text) → digits_from f n acc ++ r ≡ digits_from f n (acc ++ r)
unfolding digits_from
digits-append zero n acc r = refl
digits-append (suc f) n acc r = elim (Bool-cases (ltb n 10)) [
  | inl small ↦ rw small refl
  | inr large ↦ rw large (digits-append f (n / 10) ((48 + n % 10) ∷ acc) r)
]

digits-start : (f n : ℕ) (acc : Text) → n < f → starts_digit (digits_from f n acc) ≡ true
unfolding digits_from
digits-start zero n acc h = absurd (omega (arith, h))
digits-start (suc f) n acc h = elim (Bool-cases (ltb n 10)) [
  | inl small ↦ rw small (ground (arith, small))
  | inr large ↦ rw large (digits-start f (n / 10) ((48 + n % 10) ∷ acc) (ground (arith, h, large)))
]

pub decimal-start : (n : ℕ) (r : Text) → starts_digit (decimal n ++ r) ≡ true
unfolding decimal
decimal-start n r =
    ap starts_digit (digits-append (suc n) n [] r) ∙ digits-start (suc n) n r (omega arith)

pub read_number-decimal :
    (n : ℕ) (r : Text) → starts_digit r ≡ false → read_number 0 (decimal n ++ r) ≡ (n, r)
unfolding decimal
read_number-decimal n r h =
    ap (read_number 0) (digits-append (suc n) n [] r)
    ∙ read_number-digits (suc n) n r (omega arith)
    ∙ read_number-end n r h

abbrev put_char : ℕ → Text × Text → Text × Text
put_char c (s, r) = (c ∷ s, r)

-- up to the closing quotation mark
pub read_string : ℕ → Text → Text × Text
read_string zero s = ([], s)
read_string (suc f) [] = ([], [])
read_string (suc f) (c ∷ s) =
    let (d, later) = read_char (c ∷ s) in
    let rest = read_string f later in if c == 34 then ([], s) else put_char d rest

abbrev pub opens_with : ℕ → Text → Bool
opens_with k [] = true
opens_with k (c ∷ s) = c == k

char_json-open : (c : ℕ) (x : Text) → opens_with 34 (char_json c ++ x) ≡ false
unfolding char_json unit_escape
char_json-open c x = ground arith

read_string-step :
    (f : ℕ) (t : Text)
    → opens_with 34 t ≡ false
    → read_string (suc f) t ≡ put_char (read_char t).0 (read_string f (read_char t).1)
unfolding read_string
read_string-step f [] h = cc
read_string-step f (c ∷ t) h = rw h refl

pub read_string-chars :
    (s r : Text) (f : ℕ)
    → all is_scalar s ≡ true
    → length s < f
    → read_string f (chars_json s ++ 34 ∷ r) ≡ (s, r)
unfolding read_string chars_json
read_string-chars s r zero h l = absurd (omega (arith, l))
read_string-chars [] r (suc f) h l = refl
read_string-chars (c ∷ s) r (suc f) h l =
    let x = chars_json s ++ 34 ∷ r in
    ap (read_string (suc f)) (append_assoc (char_json c) (chars_json s) (34 ∷ r))
    ∙ read_string-step f (char_json c ++ x) (char_json-open c x)
    ∙ rw
        (
          read_char-char_json c x (ground (arith, h)),
          read_string-chars s r f (ground (arith, h)) (omega (arith, l)),
        )
        refl
