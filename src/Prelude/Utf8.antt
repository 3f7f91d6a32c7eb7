-- ===== src/Prelude/Utf8.antt =====
-- s.encode("utf-8"), and b.decode("utf-8") for bytes that encode a text.
use Prim.Native.Nat.{ℕ, zero, suc, ◌+◌, ◌-◌, ◌*◌, ◌/◌, ◌%◌}
use mathlib.Core.Path.{◌≡◌, refl}
use mathlib.Core.List.{List, [], ◌∷◌, ◌++◌}
use nesy_pqpatch.Prelude.Tests.{ltb, if◌then◌else◌}
use nesy_pqpatch.Prelude.Strings.{Text, text}

encode_char : ℕ → List ℕ
encode_char c =
    if ltb c 0x80
    then c ∷ []
    else if ltb c 0x800
    then (0xC0 + c / 64) ∷ (0x80 + c % 64) ∷ []
    else if ltb c 0x10000
    then (0xE0 + c / 4096) ∷ (0x80 + c / 64 % 64) ∷ (0x80 + c % 64) ∷ []
    else (0xF0 + c / 262144) ∷ (0x80 + c / 4096 % 64) ∷ (0x80 + c / 64 % 64) ∷ (0x80 + c % 64) ∷ []

unfoldable pub utf8_encode : Text → List ℕ
unfolding encode_char
utf8_encode [] = []
utf8_encode (c ∷ s) = encode_char c ++ utf8_encode s

-- What a byte gives: the character that it ends, the bytes still wanted, and their value so far.
decode_byte : ℕ → ℕ → ℕ → List ℕ × ℕ × ℕ
decode_byte zero value b =
    if ltb b 0x80
    then (b ∷ [], 0, 0)
    else if ltb b 0xE0
    then ([], 1, b - 0xC0)
    else if ltb b 0xF0
    then ([], 2, b - 0xE0)
    else ([], 3, b - 0xF0)
decode_byte (suc zero) value b = ((value * 64 + (b - 0x80)) ∷ [], 0, 0)
decode_byte (suc (suc wanted)) value b = ([], suc wanted, value * 64 + (b - 0x80))

decode_from : ℕ → ℕ → List ℕ → Text
unfolding decode_byte
decode_from wanted value [] = []
decode_from wanted value (b ∷ bs) =
    let (done, wanted', value') = decode_byte wanted value b in
    done ++ decode_from wanted' value' bs

unfoldable pub utf8_decode : List ℕ → Text
unfolding decode_from
utf8_decode bs = decode_from 0 0 bs

decoded : utf8_decode (utf8_encode (text "aé€𝄞")) ≡ text "aé€𝄞"
unfolding utf8_decode utf8_encode
decoded = refl
