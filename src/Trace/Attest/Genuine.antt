-- ===== src/Trace/Attest/Genuine.antt =====
-- A trace that src/pqpatch/trace/attest.py signs verifies.
use nesy_pqpatch.Prelude.{
  ℕ, ◌<◌, ◌≡◌, ◌≢◌, refl, ◌∙◌, Text, text_eq, true, some, List, [], ◌∷◌, All, arith,
}
use nesy_pqpatch.Prelude.Utf8.{utf8_encode}
use nesy_pqpatch.Model.{TraceRecord}
use nesy_pqpatch.Python.{ok}
use nesy_pqpatch.Trace.{compute_content_hash, to_canonical_json, trace_payload, verify_content_hash}
use nesy_pqpatch.Trace.Attest.{
  Oqs, load_oqs, hex, from_hex-hex, sign_finalized, verify_parts, sign_trace, verify_with,
  verify_signature,
}

-- What liboqs promises of a pair of keys: signatures are bytes, and verify.
pub record IsGenuine (oqs : Oqs) (algorithm : Text) (secret public_key : List ℕ) : Type 0 where
  pub verifies :
      (m : List ℕ) → oqs.verify algorithm m (oqs.sign algorithm secret m) public_key ≡ true
  pub is_bytes : (m : List ℕ) → All (λ b. b < 256) (oqs.sign algorithm secret m)
  pub is_nonempty : (m : List ℕ) → oqs.sign algorithm secret m ≢ []

abbrev pub signed_with : List ℕ → TraceRecord → TraceRecord
signed_with sig t = record t { signature = some (hex sig) }

module _ (sha256_hex : Text → Text) (oqs : Oqs) (algorithm : Text)
    (secret public_key : List ℕ) where
  signs :
      (t : TraceRecord) (h : Text)
      → h ≢ []
      → sign_finalized (some oqs) algorithm secret t h
        ≡ ok (signed_with (oqs.sign algorithm secret (utf8_encode t.content_hash)) t)
  unfolding sign_finalized load_oqs
  signs t [] n = absurd (n refl)
  signs t (c ∷ h) n = refl

  verify_parts-signed :
      (t : TraceRecord) (h : Text) (sig : List ℕ)
      → h ≢ []
      → sig ≢ []
      → verify_parts sha256_hex (some oqs) algorithm public_key t (some (hex sig)) h
        ≡ verify_with sha256_hex (some oqs) algorithm public_key t (hex sig)
  unfolding verify_parts hex
  verify_parts-signed t [] sig n m = absurd (n refl)
  verify_parts-signed t (c ∷ h) [] n m = absurd (m refl)
  verify_parts-signed t (c ∷ h) (x ∷ sig) n m = refl

  verify_with-signed :
      (t : TraceRecord) (sig : List ℕ)
      → All (λ b. b < 256) sig
      → text_eq (compute_content_hash sha256_hex t) t.content_hash ≡ true
      → oqs.verify algorithm (utf8_encode t.content_hash) sig public_key ≡ true
      → verify_with sha256_hex (some oqs) algorithm public_key (signed_with sig t) (hex sig)
        ≡ ok true
  unfolding verify_with load_oqs compute_content_hash to_canonical_json trace_payload
  verify_with-signed t sig bytes same good = rw (same, from_hex-hex 0 sig bytes, good) refl

  verified_hash :
      (t : TraceRecord)
      → verify_content_hash sha256_hex t ≡ true
      → (t.content_hash ≢ []) × (text_eq (compute_content_hash sha256_hex t) t.content_hash ≡ true)
  unfolding verify_content_hash
  verified_hash t h = ((λ e. ground (arith, e, h)), ground (arith, h))

  -- A trace whose content hash verifies can be signed, which changes nothing else, and the signature
  -- verifies with the public key, where liboqs keeps its promises.
  pub sign_trace-verifies :
      (t : TraceRecord)
      → verify_content_hash sha256_hex t ≡ true
      → IsGenuine oqs algorithm secret public_key
      → (sig : List ℕ) × (sign_trace (some oqs) algorithm secret t ≡ ok (signed_with sig t))
        × (verify_signature sha256_hex (some oqs) algorithm public_key (signed_with sig t)
            ≡ ok true)
  unfolding sign_trace verify_signature
  sign_trace-verifies t h genuine =
      let (n, same) = verified_hash t h in
      let m = utf8_encode t.content_hash in
      let sig = oqs.sign algorithm secret m in
      (
        sig,
        signs t t.content_hash n,
        verify_parts-signed (signed_with sig t) t.content_hash sig n (genuine.is_nonempty m)
            ∙ verify_with-signed t sig (genuine.is_bytes m) same (genuine.verifies m),
      )
