-- ===== src/Loop/Attested.antt =====
-- What src/pqpatch/loop.py returns can be signed by src/pqpatch/trace/attest.py.
use nesy_pqpatch.Prelude.{ℕ, ◌≡◌, ◌≢◌, Text, true, some, List, []}
use nesy_pqpatch.Model.{Site, Context, Policy, Verdict, TraceRecord}
use nesy_pqpatch.Python.{ok}
use nesy_pqpatch.Verify.{Env}
use nesy_pqpatch.Trace.{verify_content_hash}
use nesy_pqpatch.Trace.Attest.{Oqs, sign_trace, verify_signature}
use nesy_pqpatch.Trace.Attest.Genuine.{IsGenuine, signed_with, sign_trace-verifies}
use nesy_pqpatch.Loop.{Propose, Options, migrate_site}
use nesy_pqpatch.Loop.Outcome.{migrate_site-trace}

module _ (sha256_hex : Text → Text) (propose : Propose) (env : ℕ → Env) (site : Site)
    (context : Context) (policy : Policy) (options : Options) where
  -- The trace that the loop returns holds the verdict that it returns, and its content hash
  -- verifies; signing it succeeds and changes nothing but the signature, which then verifies with
  -- the public key: where a digest is never empty, and what the secret key signs is bytes, is not
  -- empty and verifies with the public key.
  pub migrate_site-signed :
      (v : Verdict) (t : TraceRecord)
      → migrate_site sha256_hex propose env site context policy options ≡ ok (v, t)
      → ((s : Text) → sha256_hex s ≢ [])
      → (oqs : Oqs) (algorithm : Text) (secret public_key : List ℕ)
      → IsGenuine oqs algorithm secret public_key
      → (t.verdict ≡ v)
        × (verify_content_hash sha256_hex t ≡ true)
        × ((sig : List ℕ) × (sign_trace (some oqs) algorithm secret t ≡ ok (signed_with sig t))
            × (verify_signature sha256_hex (some oqs) algorithm public_key (signed_with sig t)
                ≡ ok true))
  migrate_site-signed v t h never_empty oqs algorithm secret public_key genuine =
      let (same, valid) =
        migrate_site-trace sha256_hex propose env site context policy options v t h never_empty in
      (same, valid, sign_trace-verifies sha256_hex oqs algorithm secret public_key t valid genuine)
