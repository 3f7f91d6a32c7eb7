-- ===== src/Trace/Tamper.antt =====
-- Tamper detection by `verify_content_hash` (src/pqpatch/trace/canonical.py).
use nesy_pqpatch.Prelude.{
  ◌≡◌, ◌≢◌, ◌⊎◌, ◌↔◌, refl, sym, ap, ◌∙◌, Text, text_eq, text_eq→eq, text_eq_self, true, false,
  Bool-cases, inl, inr, [], map, arith,
}
use nesy_pqpatch.Model.{TraceRecord}
use nesy_pqpatch.Trace.Dumps.Reader.{scalars}
use nesy_pqpatch.Trace.Dumps.Reader.RoundTrip.{dumps-injective}
use nesy_pqpatch.Trace.Reading.{trace_of, sorted_timings}
use nesy_pqpatch.Trace.Reading.RoundTrip.{trace_read}
use nesy_pqpatch.Trace.{
  trace_payload, to_canonical_json, compute_content_hash, finalize_trace, verify_content_hash,
}

-- The serialization does not read the digest or the signature.
json_ignores_hash :
    (t : TraceRecord) (h : Text)
    → to_canonical_json (record t { content_hash = h }) ≡ to_canonical_json t
unfolding to_canonical_json
json_ignores_hash t h = refl

text_eq-ne : (s t : Text) → text_eq s t ≡ false → s ≢ t
text_eq-ne s t h e = cc (h, text_eq_self t, ap (λ r. text_eq r t) e)

-- The traces say the same, but for the hash, the signature and the order of the timings.
abbrev pub Agree : TraceRecord → TraceRecord → Type 0
Agree t u =
    (t.site ≡ u.site)
    × (t.usage_class ≡ u.usage_class)
    × (t.policy_version ≡ u.policy_version)
    × (t.ruleset_version ≡ u.ruleset_version)
    × (map sorted_timings t.events ≡ map sorted_timings u.events)
    × (t.verdict ≡ u.verdict)

-- The serialization says every field but the hash and the signature.
json-Agree :
    (t u : TraceRecord)
    → scalars (trace_payload t) ≡ true
    → scalars (trace_payload u) ≡ true
    → to_canonical_json t ≡ to_canonical_json u
    → Agree t u
unfolding to_canonical_json
json-Agree t u h h' e =
    let same =
      sym (trace_read t)
      ∙ ap trace_of (dumps-injective (trace_payload t) (trace_payload u) h h' e)
      ∙ trace_read u in
    (
      ap (λ r. r.site) same,
      ap (λ r. r.usage_class) same,
      ap (λ r. r.policy_version) same,
      ap (λ r. r.ruleset_version) same,
      ap (λ r. r.events) same,
      ap (λ r. r.verdict) same,
    )

module _ (sha256_hex : Text → Text) where
  -- A record verifies exactly when it has a digest, and that is the digest of its serialization.
  verify_content_hash_iff :
      (t : TraceRecord)
      → (verify_content_hash sha256_hex t ≡ true)
        ↔ ((t.content_hash ≢ []) × (sha256_hex (to_canonical_json t) ≡ t.content_hash))
  unfolding verify_content_hash compute_content_hash
  verify_content_hash_iff t = (
    λ h.
        (ground arith, text_eq→eq (sha256_hex (to_canonical_json t)) t.content_hash (ground arith)),
    λ h. ground (arith, text_eq_self t.content_hash, h.0, h.1),
  )

  -- Where a digest is never empty, a finalized trace verifies.
  pub verify-finalize :
      (t : TraceRecord)
      → ((s : Text) → sha256_hex s ≢ [])
      → verify_content_hash sha256_hex (finalize_trace sha256_hex t) ≡ true
  unfolding finalize_trace compute_content_hash
  verify-finalize t never_empty = (verify_content_hash_iff (finalize_trace sha256_hex t)).1 (
    never_empty (to_canonical_json t),
    ap sha256_hex (json_ignores_hash t (sha256_hex (to_canonical_json t))),
  )

  -- A record that verifies and carries the digest of a finalized trace has that trace's site, usage
  -- class, policy version, ruleset version and verdict, and its events, but for the order of the
  -- timings of an event; or the serializations of the two are different texts with one digest: when
  -- the characters of all texts in both are Unicode scalar values, and so no surrogates.
  pub verified-agrees :
      (t t' : TraceRecord)
      → scalars (trace_payload t) ≡ true
      → scalars (trace_payload t') ≡ true
      → t'.content_hash ≡ (finalize_trace sha256_hex t).content_hash
      → verify_content_hash sha256_hex t' ≡ true
      → Agree t' t
        ⊎ ((to_canonical_json t' ≢ to_canonical_json t)
            × (sha256_hex (to_canonical_json t') ≡ sha256_hex (to_canonical_json t)))
  unfolding finalize_trace compute_content_hash
  verified-agrees t t' h h' carried verified =
      elim (Bool-cases (text_eq (to_canonical_json t') (to_canonical_json t))) [
        | inl same ↦
            inl
              (json-Agree t' t h' h (text_eq→eq (to_canonical_json t') (to_canonical_json t) same))
        | inr differ ↦ inr (
          text_eq-ne (to_canonical_json t') (to_canonical_json t) differ,
          ((verify_content_hash_iff t').0 verified).1 ∙ carried,
        )
      ]
