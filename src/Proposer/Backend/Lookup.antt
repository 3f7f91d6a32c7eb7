-- ===== src/Proposer/Backend/Lookup.antt =====
-- What src/pqpatch/proposer/base.py finds in the cache, under the key of a request and under its
-- legacy key.
use nesy_pqpatch.Prelude.{
  ◌≡◌, refl, ap, subst, ◌⊎◌, inl, inr, Text, Bool, true, false, Bool-cases, Option-cases, Option,
  none, some, arith,
}
use nesy_pqpatch.Python.{Result, ok, raised}
use nesy_pqpatch.Cache.{CachedResponse, CacheStore, read, get_cached, miss_error}
use nesy_pqpatch.Cache.Replay.{get_cached-hit, get_cached-offline}
use nesy_pqpatch.Proposer.Backend.{is_offline_miss, or_legacy, or_fetch, keep_store}

abbrev pub Fetched : Type 0
Fetched = Result (CachedResponse × CacheStore × Bool)

-- The entry that a request finds: that of its key, or else that of its legacy key.
abbrev pub FirstHit : CacheStore → Text → Text → CachedResponse → Type 0
FirstHit store key legacy response =
    (read key store.files ≡ some response)
    ⊎ ((read key store.files ≡ none) × (read legacy store.files ≡ some response))

module _ (store : CacheStore) (key legacy : Text) where
  abbrev pub lookup : Result (Option CachedResponse)
  lookup = or_legacy (get_cached store key) (get_cached store legacy)

  lookup-hit :
      (response : CachedResponse)
      → read key store.files ≡ some response
      → lookup ≡ ok (some response)
  unfolding or_legacy
  lookup-hit response e = rw (get_cached-hit store key response e) refl

  lookup-legacy :
      read key store.files ≡ none → store.offline ≡ true → lookup ≡ get_cached store legacy
  unfolding or_legacy is_offline_miss miss_error
  lookup-legacy n off = rw (get_cached-offline store key n off) refl

  lookup-online : read key store.files ≡ none → store.offline ≡ false → lookup ≡ ok none
  unfolding or_legacy get_cached
  lookup-online n on = ground (arith, n, on)

  -- With the network off, what a fetch would give has no part in it.
  pub or_fetch-offline :
      (fetched fetched' : Fetched)
      → store.offline ≡ true
      → or_fetch store fetched lookup ≡ or_fetch store fetched' lookup
  unfolding or_fetch
  or_fetch-offline fetched fetched' off = elim (Option-cases (read key store.files)) [
    | inr (r, e) ↦ rw (lookup-hit r e) refl
    | inl n ↦ rw (lookup-legacy n off) (elim (Option-cases (read legacy store.files)) [
      | inr (r, e) ↦ rw (get_cached-hit store legacy r e) refl
      | inl m ↦ rw (get_cached-offline store legacy m off) refl
    ])
  ]

  pub or_fetch-keeps :
      (fetched : Fetched) → store.offline ≡ true → (or_fetch store fetched lookup).0 ≡ store
  unfolding or_fetch
  or_fetch-keeps fetched off = elim (Option-cases (read key store.files)) [
    | inr (r, e) ↦ rw (lookup-hit r e) refl
    | inl n ↦ rw (lookup-legacy n off) (elim (Option-cases (read legacy store.files)) [
      | inr (r, e) ↦ rw (get_cached-hit store legacy r e) refl
      | inl m ↦ rw (get_cached-offline store legacy m off) refl
    ])
  ]

  pub or_fetch-FirstHit :
      (fetched : Fetched) (response : CachedResponse)
      → FirstHit store key legacy response
      → store.offline ≡ true
      → or_fetch store fetched lookup ≡ (store, ok response)
  unfolding or_fetch
  or_fetch-FirstHit fetched response (inl e) off = rw (lookup-hit response e) refl
  or_fetch-FirstHit fetched response (inr (n, e)) off =
      rw (lookup-legacy n off, get_cached-hit store legacy response e) refl

  keep_store-ok :
      (fetched : Fetched) (response : CachedResponse) (after : CacheStore)
      → keep_store store fetched ≡ (after, ok response)
      → (called : Bool) × (fetched ≡ ok (response, after, called))
  unfolding keep_store
  keep_store-ok (raised exc) response after h = absurd (ground (arith, ap (λ r. r.1) h))
  keep_store-ok (ok (r, a, called)) response after h =
      (called, ground (arith, ap (λ r. r.0) h, ap (λ r. r.1) h))

  same_hit :
      (r response : CachedResponse) (after : CacheStore)
      → FirstHit store key legacy r
      → ◌≡◌ {A = CacheStore × Result CachedResponse} (store, ok r) (after, ok response)
      → FirstHit after key legacy response
  same_hit r response after hit e =
      let same_store : store ≡ after = ap (λ x. x.0) e in
      let same_result : ok r ≡ ok response = ap (λ x. x.1) e in
      let same_response : r ≡ response = cc in
      subst (λ x. FirstHit x key legacy response) same_store
        (subst (FirstHit store key legacy) same_response hit)

  -- What is answered is in the store afterwards.
  pub or_fetch-leaves :
      (fetched : Fetched) (response : CachedResponse) (after : CacheStore)
      → ((called : Bool)
          → fetched ≡ ok (response, after, called)
          → read key after.files ≡ some response)
      → or_fetch store fetched lookup ≡ (after, ok response)
      → FirstHit after key legacy response
  unfolding or_fetch
  or_fetch-leaves fetched response after stores h = elim (Option-cases (read key store.files)) [
    | inr (r, e) ↦ same_hit r response after (inl e) (rw (lookup-hit r e) at h)
    | inl n ↦ elim (Bool-cases store.offline) [
      | inr on ↦
          let (called, e) = keep_store-ok fetched response after (rw (lookup-online n on) at h) in
          inl (stores called e)
      | inl off ↦ elim (Option-cases (read legacy store.files)) [
        | inr (r, e) ↦
            same_hit r response after (inr (n, e))
              (rw (lookup-legacy n off, get_cached-hit store legacy r e) at h)
        | inl m ↦ absurd (
            ground (
              arith,
              ap (λ x. x.1) (rw (lookup-legacy n off, get_cached-offline store legacy m off) at h),
            ))
      ]
    ]
  ]
