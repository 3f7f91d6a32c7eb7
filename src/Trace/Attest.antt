-- ===== src/Trace/Attest.antt =====
-- src/pqpatch/trace/attest.py: signatures over the content hash of a trace. liboqs is a parameter,
-- and `none` where it is not installed.
pub mod Genuine
use nesy_pqpatch.Prelude.{
  ℕ, ◌+◌, ◌*◌, ◌-◌, ◌/◌, ◌%◌, ◌<◌, ◌≡◌, refl, Text, text, text_eq, Bool, false, not, ◌&&◌, ◌||◌,
  Option, none, some, List, [], ◌∷◌, ◌++◌, leb, ◌==◌, All, arith, if◌then◌else◌, is_none,
}
use nesy_pqpatch.Prelude.Utf8.{utf8_encode}
use nesy_pqpatch.Model.{TraceRecord}
use nesy_pqpatch.Python.{other, Result, ok, raised, ◌>>=◌, repr, decimal, value_error, hex_digit}
use nesy_pqpatch.Trace.{compute_content_hash}

-- oqs.Signature(algorithm): keys, signatures and their verification
pub record Oqs : Type 0 where
  pub generate : Text → List ℕ × List ℕ
  pub sign : Text → List ℕ → List ℕ → List ℕ
  pub verify : Text → List ℕ → List ℕ → List ℕ → Bool

unfoldable pub unavailable : Text
unavailable =
    text
      "liboqs-python is not installed. Install with `pip install -e '.[attest]'` to enable ML-DSA trace signing (codebase-plan.md package manifest)."

unfoldable pub load_oqs : Option Oqs → Result Oqs
load_oqs (some oqs) = ok oqs
load_oqs none = raised (record {
  kind = other;
  message = unavailable;
  repr = text "AttestationUnavailableError(" ++ (repr unavailable ++ text ")");
})

unfoldable pub default_algorithm : Text
default_algorithm = text "ML-DSA-65"

-- bs.hex()
unfoldable pub hex : List ℕ → Text
unfolding hex_digit
hex [] = []
hex (b ∷ bs) = hex_digit (b / 16) ∷ hex_digit (b % 16) ∷ hex bs

unfoldable pub hex_value : ℕ → Option ℕ
hex_value c =
    if leb 48 c && leb c 57
    then some (c - 48)
    else if leb 97 c && leb c 102
    then some (c - 87)
    else if leb 65 c && leb c 70
    then some (c - 55)
    else none

abbrev is_blank : ℕ → Bool
is_blank c = c == 32 || (leb 9 c && leb c 13)

abbrev byte_of : Option ℕ → Option ℕ → Option ℕ
byte_of (some h) (some l) = some (h * 16 + l)
byte_of _ _ = none

not_hex : ℕ → Result (List ℕ)
not_hex i =
    raised
      (value_error (text "non-hexadecimal number found in fromhex() arg at position " ++ decimal i))

-- Where a pair of characters is not a byte, the position is that of the first that is no digit.
pair_error : ℕ → ℕ → Result (List ℕ)
pair_error i c = if is_none (hex_value c) then not_hex i else not_hex (i + 1)

-- bytes.fromhex(s), which skips blanks between bytes; `i` is the position
unfoldable pub from_hex : ℕ → Text → Result (List ℕ)
unfolding not_hex pair_error
from_hex i [] = ok []
from_hex i (c ∷ []) = if is_blank c then ok [] else pair_error i c
from_hex i (c ∷ d ∷ s) =
    let skipped = from_hex (i + 1) (d ∷ s) in
    let rest = from_hex (i + 2) s in
    if is_blank c then skipped else elim (byte_of (hex_value c) (hex_value d)) [
      | none ↦ pair_error i c
      | some b ↦ rest >>= (λ bs. ok (b ∷ bs))
    ]

unfoldable pub generate_keypair : Option Oqs → Text → Result (List ℕ × List ℕ)
generate_keypair installed algorithm = do oqs ← load_oqs installed; ok (oqs.generate algorithm)

-- The last argument is the content hash, which is empty before the trace is finalized.
unfoldable pub sign_finalized : Option Oqs → Text → List ℕ → TraceRecord → Text → Result TraceRecord
sign_finalized installed algorithm secret_key t [] =
    raised (value_error (text "cannot sign an un-finalized trace; call finalize_trace() first"))
sign_finalized installed algorithm secret_key t (c ∷ digest) = do
  oqs ← load_oqs installed
  ok (record t {
    signature = some (hex (oqs.sign algorithm secret_key (utf8_encode t.content_hash)));
  })

unfoldable pub sign_trace : Option Oqs → Text → List ℕ → TraceRecord → Result TraceRecord
sign_trace installed algorithm secret_key t =
    sign_finalized installed algorithm secret_key t t.content_hash

module _ (sha256_hex : Text → Text) where
  -- with a signature and a hash that are not empty
  unfoldable pub verify_with : Option Oqs → Text → List ℕ → TraceRecord → Text → Result Bool
  verify_with installed algorithm public_key t signature =
      if not (text_eq (compute_content_hash sha256_hex t) t.content_hash) then ok false else do
        oqs ← load_oqs installed
        bytes ← from_hex 0 signature
        ok (oqs.verify algorithm (utf8_encode t.content_hash) bytes public_key)

  -- the last arguments are the signature and the content hash
  unfoldable pub verify_parts :
      Option Oqs → Text → List ℕ → TraceRecord → Option Text → Text → Result Bool
  verify_parts installed algorithm public_key t none content_hash = ok false
  verify_parts installed algorithm public_key t (some []) content_hash = ok false
  verify_parts installed algorithm public_key t (some (c ∷ s)) [] = ok false
  verify_parts installed algorithm public_key t (some (c ∷ s)) (d ∷ digest) =
      verify_with installed algorithm public_key t (c ∷ s)

  unfoldable pub verify_signature : Option Oqs → Text → List ℕ → TraceRecord → Result Bool
  verify_signature installed algorithm public_key t =
      verify_parts installed algorithm public_key t t.signature t.content_hash

hex_digit-value :
    (d : ℕ) → d < 16 → (hex_value (hex_digit d) ≡ some d) × (is_blank (hex_digit d) ≡ false)
unfolding hex_value hex_digit
hex_digit-value d h = (ground (arith, h), ground (arith, h))

byte_halves : (b : ℕ) → b < 256 → (b / 16 < 16) × (b % 16 < 16) × (b / 16 * 16 + b % 16 ≡ b)
byte_halves b h = (ground (arith, h), ground (arith, h), ground (arith, h))

-- What `hex` prints of bytes, `fromhex` reads.
pub from_hex-hex : (i : ℕ) (bs : List ℕ) → All (λ b. b < 256) bs → from_hex i (hex bs) ≡ ok bs
unfolding hex from_hex
from_hex-hex i [] h = refl
from_hex-hex i (b ∷ bs) h =
    let (high, low, whole) = byte_halves b h.0 in
    let (v, blank) = hex_digit-value (b / 16) high in
    let (w, _) = hex_digit-value (b % 16) low in
    rw (blank, v, w, from_hex-hex (i + 2) bs h.1, whole) refl
