-- ===== src/Cache/Replay.antt =====
-- The store of src/pqpatch/proposer/cache.py as the boundary of determinism.
use nesy_pqpatch.Prelude.{
  ◌≡◌, refl, sym, ap, subst, ◌∙◌, Text, text_eq, text_eq_self, Bool, true, false, Bool-cases,
  Option-cases, inl, inr, Option, none, some, ◌∷◌, arith, ℕ,
}
use nesy_pqpatch.Python.{Result, ok, raised, >>=-eq-ok}
use nesy_pqpatch.Cache.{
  CachedResponse, CacheStore, miss_error, Request, Clock, read, get_cached, put, response_of,
  get_or_fetch,
}

module _ (store : CacheStore) (key : Text) where
  pub get_cached-hit :
      (response : CachedResponse)
      → read key store.files ≡ some response
      → get_cached store key ≡ ok (some response)
  unfolding get_cached
  get_cached-hit response e = rw (e, get_cached) refl

  pub get_cached-offline :
      read key store.files ≡ none
      → store.offline ≡ true
      → get_cached store key ≡ raised (miss_error store key)
  unfolding get_cached
  get_cached-offline n off = ground (arith, n, off)

  get_or_fetch-hit :
      (response : CachedResponse) (fetch : Result (Text × ℕ)) (request : Request) (clock : Clock)
      → read key store.files ≡ some response
      → get_or_fetch store key fetch request clock ≡ ok (response, store, false)
  unfolding get_or_fetch
  get_or_fetch-hit response fetch request clock e = rw (get_cached-hit response e) refl

  get_or_fetch-offline :
      (fetch : Result (Text × ℕ)) (request : Request) (clock : Clock)
      → read key store.files ≡ none
      → store.offline ≡ true
      → get_or_fetch store key fetch request clock ≡ raised (miss_error store key)
  unfolding get_or_fetch
  get_or_fetch-offline fetch request clock n off = rw (get_cached-offline n off) refl

  -- With the network off, what a request gives does not depend on the backend, on what the caller
  -- says of the request, or on the clock.
  pub offline_is_deterministic :
      (fetch fetch' : Result (Text × ℕ)) (request request' : Request) (clock clock' : Clock)
      → store.offline ≡ true
      → get_or_fetch store key fetch request clock ≡ get_or_fetch store key fetch' request' clock'
  offline_is_deterministic fetch fetch' request request' clock clock' off =
      elim (Option-cases (read key store.files)) [
        | inl n ↦
            get_or_fetch-offline fetch request clock n off
            ∙ sym (get_or_fetch-offline fetch' request' clock' n off)
        | inr (response, e) ↦
            get_or_fetch-hit response fetch request clock e
            ∙ sym (get_or_fetch-hit response fetch' request' clock' e)
      ]

  put-ok :
      (response : CachedResponse) (after : CacheStore)
      → put store key response ≡ ok after
      → after.files ≡ (key, response) ∷ store.files
  unfolding put
  put-ok response after h = elim (Bool-cases store.offline) [
    | inl t ↦ absurd (ground (arith, t, h))
    | inr f ↦ ground (arith, f, h)
  ]

  -- the store holds the response afterwards, and the files of the other keys are as before
  abbrev pub Stores : CachedResponse → CacheStore → Type 0
  Stores response after =
      (read key after.files ≡ some response)
      × ((key' : Text) → text_eq key key' ≡ false → read key' after.files ≡ read key' store.files)

  read-first :
      (response : CachedResponse) → read key ((key, response) ∷ store.files) ≡ some response
  unfolding read
  read-first response = rw (text_eq_self key) refl

  read-later :
      (response : CachedResponse) (key' : Text)
      → text_eq key key' ≡ false
      → read key' ((key, response) ∷ store.files) ≡ read key' store.files
  unfolding read
  read-later response key' differ = rw differ refl

  put-Stores :
      (response : CachedResponse) (after : CacheStore)
      → put store key response ≡ ok after
      → Stores response after
  put-Stores response after h =
      let e = put-ok response after h in
      (
        ap (read key) e ∙ read-first response,
        λ key' differ. ap (read key') e ∙ read-later response key' differ,
      )

  get_cached-miss :
      (cached : Option CachedResponse)
      → read key store.files ≡ none
      → get_cached store key ≡ ok cached
      → cached ≡ none
  unfolding get_cached
  get_cached-miss cached n h = elim (Bool-cases store.offline) [
    | inl t ↦ absurd (ground (arith, n, t, h))
    | inr f ↦ ground (arith, n, f, h)
  ]

  returned-Stores :
      (response' response : CachedResponse) (after' after : CacheStore) (called' called : Bool)
      → Stores response' after'
      → ◌≡◌ {A = Result (CachedResponse × CacheStore × Bool)}
          (ok (response', after', called'))
          (ok (response, after, called))
      → Stores response after
  returned-Stores response' response after' after called' called stored returned =
      let same_response : response' ≡ response = cc in
      let same_store : after' ≡ after = cc in
      subst (λ r. Stores r after) same_response (subst (Stores response') same_store stored)

  pub get_or_fetch-Stores :
      (fetch : Result (Text × ℕ)) (request : Request) (clock : Clock) (response : CachedResponse)
      (after : CacheStore) (called : Bool)
      → get_or_fetch store key fetch request clock ≡ ok (response, after, called)
      → Stores response after
  unfolding get_or_fetch
  get_or_fetch-Stores fetch request clock response after called h =
      elim (Option-cases (read key store.files)) [
        | inr (found, e) ↦
            let same = sym (get_or_fetch-hit found fetch request clock e) ∙ h in
            returned-Stores found response store after false called (e, λ key' differ. refl) same
        | inl n ↦
            let (cached, got, rest) = >>=-eq-ok (get_cached store key) _ h in
            let (fetched, answered, stored) =
              >>=-eq-ok fetch _ (rw (get_cached-miss cached n got) at rest) in
            let (after', written, returned) =
              >>=-eq-ok (put store key (response_of request clock fetched)) _ stored in
            returned-Stores (response_of request clock fetched) response after' after true called
              (put-Stores (response_of request clock fetched) after' written) returned
      ]

-- After a request that gives a response, every later request for the same key gives the same
-- response without a call of the backend, and the responses of all other keys are as before.
pub response_is_replayed :
    (store : CacheStore) (key : Text) (fetch fetch' : Result (Text × ℕ))
    (request request' : Request) (clock clock' : Clock) (response : CachedResponse)
    (after : CacheStore) (called : Bool)
    → get_or_fetch store key fetch request clock ≡ ok (response, after, called)
    → (get_or_fetch after key fetch' request' clock' ≡ ok (response, after, false))
      × ((key' : Text) → text_eq key key' ≡ false → read key' after.files ≡ read key' store.files)
response_is_replayed store key fetch fetch' request request' clock clock' response after called h =
    let (stored, others) =
      get_or_fetch-Stores store key fetch request clock response after called h in
    (get_or_fetch-hit after key response fetch' request' clock' stored, others)
