-- ===== src/Trace/Dumps/Chars.antt =====
-- The characters of a printed string, read back (src/pqpatch/trace/canonical.py prints ASCII, so a
-- character past it is an escape, or two).
use nesy_pqpatch.Prelude.{
  ℕ, suc, ◌+◌, ◌*◌, ◌-◌, ◌/◌, ◌%◌, ◌<◌, ◌≡◌, refl, ap, ◌∙◌, Text, Bool, true, false, Bool-cases,
  inl, inr, ◌&&◌, ◌||◌, [], ◌∷◌, ◌++◌, ltb, leb, ◌==◌, arith, if◌then◌else◌,
}
use nesy_pqpatch.Trace.Dumps.{hex, unit_escape, char_json}

-- a Unicode scalar value: no surrogate
abbrev pub is_scalar : ℕ → Bool
is_scalar c = ltb c 0xD800 || (leb 0xE000 c && ltb c 0x110000)

unhex : ℕ → ℕ
unhex c = if ltb c 58 then c - 48 else c - 87

abbrev unit_of : ℕ → ℕ → ℕ → ℕ → ℕ
unit_of a b c d = unhex a * 4096 + unhex b * 256 + unhex c * 16 + unhex d

-- four hexadecimal digits
abbrev read_unit : Text → ℕ × Text
read_unit (a ∷ b ∷ c ∷ d ∷ s) = (unit_of a b c d, s)
read_unit s = (0, s)

abbrev past_u : Text → Text
past_u (a ∷ b ∷ s) = s
past_u s = s

-- a unit, and the low one behind a high one
abbrev with_low : ℕ → ℕ × Text → ℕ × Text
with_low u (v, s) = (0x10000 + (u - 0xD800) * 1024 + (v - 0xDC00), s)

abbrev unit_char : ℕ × Text → ℕ × Text
unit_char (u, s) =
    if leb 0xD800 u && ltb u 0xDC00 then with_low u (read_unit (past_u s)) else (u, s)

abbrev short_escape : ℕ → ℕ
short_escape e =
    if e == 110
    then 10
    else if e == 114
    then 13
    else if e == 116
    then 9
    else if e == 102
    then 12
    else if e == 98
    then 8
    else e

pub read_char : Text → ℕ × Text
read_char [] = (0, [])
read_char (c ∷ []) = (c, [])
read_char (c ∷ e ∷ s) =
    if c == 92
    then (if e == 117 then unit_char (read_unit s) else (short_escape e, s))
    else (c, e ∷ s)

unhex-hex : (d : ℕ) → d < 16 → unhex (hex d) ≡ d
unfolding unhex hex
unhex-hex d h = ground (arith, h)

unit_of-hex :
    (c : ℕ)
    → c < 0x10000
    → unit_of (hex (c / 4096 % 16)) (hex (c / 256 % 16)) (hex (c / 16 % 16)) (hex (c % 16)) ≡ c
unit_of-hex c h =
    rw
      (
        unhex-hex (c / 4096 % 16) (omega arith),
        unhex-hex (c / 256 % 16) (omega arith),
        unhex-hex (c / 16 % 16) (omega arith),
        unhex-hex (c % 16) (omega arith),
      )
      (omega (arith, h))

equal : (c n : ℕ) → (c == n) ≡ true → c ≡ n
equal c n h = ground (arith, h)

read_plain : (c : ℕ) (x : Text) → (c == 92) ≡ false → read_char (c ∷ x) ≡ (c, x)
unfolding read_char
read_plain c [] h = refl
read_plain c (e ∷ x) h = rw h refl

read_bmp :
    (c : ℕ) (x : Text)
    → c < 0x10000
    → (leb 0xD800 c && ltb c 0xDC00) ≡ false
    → read_char (unit_escape c ++ x) ≡ (c, x)
unfolding read_char unit_escape
read_bmp c x h n = ap (λ u. unit_char (u, x)) (unit_of-hex c h) ∙ rw n refl

read_astral :
    (c : ℕ) (x : Text)
    → 0x10000 < suc c
    → c < 0x110000
    → read_char (
        (unit_escape (0xD800 + (c - 0x10000) / 1024) ++ unit_escape (0xDC00 + (c - 0x10000) % 1024))
        ++ x)
      ≡ (c, x)
unfolding read_char unit_escape
read_astral c x low high =
    let high_unit = 0xD800 + (c - 0x10000) / 1024 in
    let low_unit = 0xDC00 + (c - 0x10000) % 1024 in
    let is_high : (leb 0xD800 high_unit && ltb high_unit 0xDC00) ≡ true =
      ground (arith, low, high) in
    ap (λ u. unit_char (u, unit_escape low_unit ++ x)) (unit_of-hex high_unit (omega (arith, high)))
    ∙ rw is_high (
        ap (λ v. with_low high_unit (v, x)) (unit_of-hex low_unit (omega arith))
        ∙ ap (λ d. (d, x)) (omega (arith, low)))

-- a character without a short escape
abbrev other_json : ℕ → Text
other_json c =
    if leb 32 c && leb c 126
    then c ∷ []
    else if ltb c 0x10000
    then unit_escape c
    else unit_escape (0xD800 + (c - 0x10000) / 1024) ++ unit_escape (0xDC00 + (c - 0x10000) % 1024)

read_other :
    (c : ℕ) (x : Text)
    → (c == 92) ≡ false
    → is_scalar c ≡ true
    → read_char (other_json c ++ x) ≡ (c, x)
read_other c x n h = elim (Bool-cases (leb 32 c && leb c 126)) [
  | inl t ↦ rw t (read_plain c x n)
  | inr f ↦ elim (Bool-cases (ltb c 0x10000)) [
    | inl t ↦ rw (f, t) (read_bmp c x (ground (arith, t)) (ground (arith, h)))
    | inr g ↦ rw (f, g) (read_astral c x (ground (arith, g)) (ground (arith, g, h)))
  ]
]

-- A printed character reads back.
pub read_char-char_json :
    (c : ℕ) (x : Text) → is_scalar c ≡ true → read_char (char_json c ++ x) ≡ (c, x)
unfolding char_json read_char
read_char-char_json c x h = elim (Bool-cases (c == 34)) [
  | inl t ↦ rw (equal c 34 t) refl
  | inr f34 ↦ elim (Bool-cases (c == 92)) [
    | inl t ↦ rw (equal c 92 t) refl
    | inr f92 ↦ elim (Bool-cases (c == 10)) [
      | inl t ↦ rw (equal c 10 t) refl
      | inr f10 ↦ elim (Bool-cases (c == 13)) [
        | inl t ↦ rw (equal c 13 t) refl
        | inr f13 ↦ elim (Bool-cases (c == 9)) [
          | inl t ↦ rw (equal c 9 t) refl
          | inr f9 ↦ elim (Bool-cases (c == 12)) [
            | inl t ↦ rw (equal c 12 t) refl
            | inr f12 ↦ elim (Bool-cases (c == 8)) [
              | inl t ↦ rw (equal c 8 t) refl
              | inr f8 ↦ rw (f34, f92, f10, f13, f9, f12, f8) (read_other c x f92 h)
            ]
          ]
        ]
      ]
    ]
  ]
]
