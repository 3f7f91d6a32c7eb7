-- ===== src/Proposer/Backend/Offline.antt =====
-- What a proposal of src/pqpatch/proposer/base.py owes to the cache.
use nesy_pqpatch.Prelude.{ℕ, ◌≡◌, refl, ap, ◌∙◌, Text, true, Option, arith}
use nesy_pqpatch.Model.{Context, Policy, Patch}
use nesy_pqpatch.Python.{Result, ok, raised, ◌>>=◌, >>=-eq-ok}
use nesy_pqpatch.Cache.{CachedResponse, CacheStore, Clock}
use nesy_pqpatch.Cache.Replay.{get_or_fetch-Stores}
use nesy_pqpatch.Proposer.Backend.{
  Backend, Services, backend_key, legacy_cache_key, request_for, fetch_through, cached_or_fetched,
  patch_of, propose_prompt, propose,
}
use nesy_pqpatch.Proposer.Backend.Lookup.{
  or_fetch-offline, or_fetch-keeps, or_fetch-FirstHit, or_fetch-leaves,
}

module _ (services : Services) (backend : Backend) (seed : ℕ) where
  propose_prompt-keeps :
      (store : CacheStore) (clock : Clock) (site_id : Text) (attempt : ℕ) (version : Text)
      (prompt : Result Text)
      → store.offline ≡ true
      → (propose_prompt services backend seed store clock site_id attempt version prompt).0 ≡ store
  unfolding propose_prompt cached_or_fetched backend_key legacy_cache_key request_for
  propose_prompt-keeps store clock site_id attempt version (raised exc) off = refl
  propose_prompt-keeps store clock site_id attempt version (ok prompt) off =
      or_fetch-keeps store (backend_key services backend seed prompt)
        (legacy_cache_key services backend seed prompt)
        (fetch_through services backend seed store clock site_id attempt prompt) off

  -- With the network off, a proposal leaves the store as it is.
  pub propose-keeps :
      (store : CacheStore) (clock : Clock) (context : Context) (policy : Policy)
      (feedback : Option Text) (attempt : ℕ) (version : Text)
      → store.offline ≡ true
      → (propose services backend seed store clock context policy feedback attempt version).0
        ≡ store
  unfolding propose
  propose-keeps store clock context policy feedback attempt version off =
      propose_prompt-keeps store clock context.site.site_id attempt version
        (services.render_prompt context policy feedback attempt version) off

abbrev pub with_generate : (Text → ℕ → Text → ℕ → Result (Text × ℕ)) → Backend → Backend
with_generate generate_raw backend = record backend { generate_raw = generate_raw }

abbrev pub offline : CacheStore → CacheStore
offline store = record store { offline = true }

module _ (services : Services) (backend : Backend) (seed : ℕ)
    (generate_raw : Text → ℕ → Text → ℕ → Result (Text × ℕ)) where
  cached_or_fetched-offline :
      (store : CacheStore) (clock clock' : Clock) (site_id : Text) (attempt : ℕ) (prompt : Text)
      → store.offline ≡ true
      → cached_or_fetched services backend seed store clock site_id attempt prompt
        ≡ cached_or_fetched services
            (with_generate generate_raw backend)
            seed
            store
            clock'
            site_id
            attempt
            prompt
  unfolding cached_or_fetched backend_key legacy_cache_key
  cached_or_fetched-offline store clock clock' site_id attempt prompt off =
      or_fetch-offline store (backend_key services backend seed prompt)
        (legacy_cache_key services backend seed prompt)
        (fetch_through services backend seed store clock site_id attempt prompt)
        (fetch_through services (with_generate generate_raw backend) seed store clock' site_id
          attempt prompt)
        off

  propose_prompt-offline :
      (store : CacheStore) (clock clock' : Clock) (site_id : Text) (attempt : ℕ) (version : Text)
      (prompt : Result Text)
      → store.offline ≡ true
      → propose_prompt services backend seed store clock site_id attempt version prompt
        ≡ propose_prompt services
            (with_generate generate_raw backend)
            seed
            store
            clock'
            site_id
            attempt
            version
            prompt
  unfolding propose_prompt patch_of
  propose_prompt-offline store clock clock' site_id attempt version (raised exc) off = refl
  propose_prompt-offline store clock clock' site_id attempt version (ok prompt) off =
      ap (λ r. (r.0, r.1 >>= patch_of services backend seed site_id attempt version))
        (cached_or_fetched-offline store clock clock' site_id attempt prompt off)

  -- With the network off, a proposal and the store behind it depend neither on the call of the model
  -- nor on the clock.
  pub propose-offline :
      (store : CacheStore) (clock clock' : Clock) (context : Context) (policy : Policy)
      (feedback : Option Text) (attempt : ℕ) (version : Text)
      → store.offline ≡ true
      → propose services backend seed store clock context policy feedback attempt version
        ≡ propose services
            (with_generate generate_raw backend)
            seed
            store
            clock'
            context
            policy
            feedback
            attempt
            version
  unfolding propose
  propose-offline store clock clock' context policy feedback attempt version off =
      propose_prompt-offline store clock clock' context.site.site_id attempt version
        (services.render_prompt context policy feedback attempt version) off

  cached_or_fetched-replays :
      (store after : CacheStore) (clock clock' : Clock) (site_id : Text) (attempt : ℕ)
      (prompt : Text) (response : CachedResponse)
      → cached_or_fetched services backend seed store clock site_id attempt prompt
        ≡ (after, ok response)
      → cached_or_fetched services
          (with_generate generate_raw backend)
          seed
          (offline after)
          clock'
          site_id
          attempt
          prompt
        ≡ (offline after, ok response)
  unfolding cached_or_fetched backend_key legacy_cache_key request_for
  cached_or_fetched-replays store after clock clock' site_id attempt prompt response h =
      let key = backend_key services backend seed prompt in
      let legacy = legacy_cache_key services backend seed prompt in
      or_fetch-FirstHit (offline after) key legacy
        (fetch_through services (with_generate generate_raw backend) seed (offline after) clock'
          site_id attempt prompt)
        response
        (or_fetch-leaves store key legacy
          (fetch_through services backend seed store clock site_id attempt prompt) response after
          (λ called e.
            (get_or_fetch-Stores store key (backend.generate_raw prompt seed site_id attempt)
              (request_for services backend seed prompt) clock response after called e).0)
          h)
        refl

  propose_prompt-replays :
      (store after : CacheStore) (clock clock' : Clock) (site_id : Text) (attempt : ℕ)
      (version : Text) (prompt : Result Text) (patch : Patch)
      → propose_prompt services backend seed store clock site_id attempt version prompt
        ≡ (after, ok patch)
      → propose_prompt services
          (with_generate generate_raw backend)
          seed
          (offline after)
          clock'
          site_id
          attempt
          version
          prompt
        ≡ (offline after, ok patch)
  unfolding propose_prompt patch_of
  propose_prompt-replays store after clock clock' site_id attempt version (raised exc) patch h =
      absurd (ground (arith, ap (λ r. r.1) h))
  propose_prompt-replays store after clock clock' site_id attempt version (ok prompt) patch h =
      let r = cached_or_fetched services backend seed store clock site_id attempt prompt in
      let same_store : r.0 ≡ after = ap (λ x. x.0) h in
      let (response, got, parsed) =
        >>=-eq-ok r.1 (patch_of services backend seed site_id attempt version) (ap (λ x. x.1) h) in
      ap (λ x. (x.0, x.1 >>= patch_of services backend seed site_id attempt version))
        (cached_or_fetched-replays store after clock clock' site_id attempt prompt response
          (λ i. (same_store i, got i)))
      ∙ ap (λ x. (offline after, x)) parsed

  -- After a proposal that gives a patch, the same request with the network off gives the same
  -- patch and leaves the store as it is, whatever a call of the model would give.
  pub propose-replays :
      (store after : CacheStore) (clock clock' : Clock) (context : Context) (policy : Policy)
      (feedback : Option Text) (attempt : ℕ) (version : Text) (patch : Patch)
      → propose services backend seed store clock context policy feedback attempt version
        ≡ (after, ok patch)
      → propose services
          (with_generate generate_raw backend)
          seed
          (offline after)
          clock'
          context
          policy
          feedback
          attempt
          version
        ≡ (offline after, ok patch)
  unfolding propose
  propose-replays store after clock clock' context policy feedback attempt version patch h =
      propose_prompt-replays store after clock clock' context.site.site_id attempt version
        (services.render_prompt context policy feedback attempt version) patch h
