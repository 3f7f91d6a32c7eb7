-- ===== src/Python.antt =====
-- What the program uses of Python beside `str`: exceptions as values, `repr` of a text, the
-- decimal digits of a number, and `x or y` on texts.
use nesy_pqpatch.Prelude.{
  ℕ, zero, suc, ◌+◌, ◌/◌, ◌%◌, ◌≡◌, refl, Text, text, not, ◌&&◌, ◌||◌, Option, none, some, [], ◌∷◌,
  ◌++◌, any, ltb, ◌==◌, if◌then◌else◌,
}

-- the classes of exception that some handler tells apart
pub data ExceptionKind : Type 0 where
  not_implemented value key diff_apply offline_cache_miss file_not_found other : ExceptionKind

-- `message` is str(exc), and `repr` is repr(exc).
pub record Exception : Type 0 where
  pub kind : ExceptionKind
  pub message : Text
  pub repr : Text

pub data Result {ℓ} (A : Type ℓ) : Type ℓ where
  ok : A → Result A
  raised : Exception → Result A

-- The next statement runs unless an exception is on its way.
infixl 5 ◌>>=◌
abbrev pub ◌>>=◌ {ℓ κ} : {T : Type ℓ} {U : Type κ} → Result T → (T → Result U) → Result U
raised exc >>= next = raised exc
ok got >>= next = next got

-- A block that returns went through its first statement and on.
pub >>=-eq-ok {ℓ κ} :
    {T : Type ℓ} {U : Type κ} {final : U} (first : Result T) (next : T → Result U)
    → (first >>= next) ≡ ok final
    → (got : T) × (first ≡ ok got) × (next got ≡ ok final)
>>=-eq-ok (raised exc) next returns = cc
>>=-eq-ok (ok got) next returns = (got, refl, returns)

pub ok-eq {ℓ} : {A : Type ℓ} {a b : A} → ok a ≡ ok b → a ≡ b
ok-eq h = cc

-- Fuel `n` is enough: a number has no more digits than its value.
unfoldable pub digits_from : ℕ → ℕ → Text → Text
digits_from zero n acc = acc
digits_from (suc f) n acc =
    let rest = digits_from f (n / 10) ((48 + n % 10) ∷ acc) in
    if ltb n 10 then (48 + n) ∷ acc else rest

-- str(n) for an int that is not negative
unfoldable pub decimal : ℕ → Text
unfolding digits_from
decimal n = digits_from (suc n) n []

unfoldable pub hex_digit : ℕ → ℕ
hex_digit d = if ltb d 10 then 48 + d else 87 + d

quote_mark : Text → ℕ
quote_mark s = if any (λ c. c == 39) s && not (any (λ c. c == 34) s) then 34 else 39

escaped : ℕ → ℕ → Text
unfolding hex_digit
escaped q c =
    if c == q || c == 92
    then 92 ∷ c ∷ []
    else if c == 10
    then text "\\n"
    else if c == 13
    then text "\\r"
    else if c == 9
    then text "\\t"
    else if ltb c 32 || c == 127
    then 92 ∷ 120 ∷ hex_digit (c / 16) ∷ hex_digit (c % 16) ∷ []
    else c ∷ []

escape_all : ℕ → Text → Text
unfolding escaped
escape_all q [] = []
escape_all q (c ∷ s) = escaped q c ++ escape_all q s

-- repr(s); a character past ASCII is taken to be printable
unfoldable pub repr : Text → Text
unfolding quote_mark escape_all
repr s = let q = quote_mark s in q ∷ (escape_all q s ++ q ∷ [])

-- ValueError(message)
unfoldable pub value_error : Text → Exception
unfolding repr
value_error message = record {
  kind = value;
  message = message;
  repr = text "ValueError(" ++ (repr message ++ text ")");
}

-- NotImplementedError(message)
unfoldable pub not_implemented_error : Text → Exception
unfolding repr
not_implemented_error message = record {
  kind = not_implemented;
  message = message;
  repr = text "NotImplementedError(" ++ (repr message ++ text ")");
}

-- DiffApplyError(message)
unfoldable pub diff_apply_error : Text → Exception
unfolding repr
diff_apply_error message = record {
  kind = diff_apply;
  message = message;
  repr = text "DiffApplyError(" ++ (repr message ++ text ")");
}

-- s or None
abbrev pub or_none : Text → Option Text
or_none [] = none
or_none (c ∷ s) = some (c ∷ s)

-- s or t or None
abbrev pub or_else_none : Text → Text → Option Text
or_else_none [] t = or_none t
or_else_none (c ∷ s) t = some (c ∷ s)
