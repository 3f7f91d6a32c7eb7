-- ===== src/Proposer/Backend.antt =====
-- src/pqpatch/proposer/base.py, and the digest of the request parameters of
-- src/pqpatch/proposer/cache.py: a proposal by a backend, through the cache. The template engine
-- (jinja2), `json.loads`, SHA-256 and the clock are parameters.
pub mod Lookup
pub mod Offline
use nesy_pqpatch.Prelude.{
  ℕ, Text, text, Bool, true, false, Option, none, some, [], ◌++◌, if◌then◌else◌,
}
use nesy_pqpatch.Prelude.Utf8.{utf8_encode}
use nesy_pqpatch.Model.{Context, Policy, Patch}
use nesy_pqpatch.Python.{◌>>=◌, ExceptionKind, offline_cache_miss, Exception, Result, ok, raised}
use nesy_pqpatch.Trace.Dumps.{Json, dumps}
use nesy_pqpatch.Cache.{
  CachedResponse, CacheStore, Request, Clock, cache_key, get_cached, get_or_fetch,
}
use nesy_pqpatch.Proposer.Response.{Loads, ParsedResponse, parse_response}

-- json.dumps(spec, sort_keys=True, separators=(",", ":"), ensure_ascii=True)
unfoldable pub canonical_request_spec : Json → Text
canonical_request_spec spec = dumps spec

unfoldable pub request_spec_digest : (Text → Text) → Json → Text
unfolding canonical_request_spec
request_spec_digest sha256_hex spec = sha256_hex (canonical_request_spec spec)

-- What a subclass gives: its names, the parameters of its requests, and the call of the model.
pub record Backend : Type 0 where
  pub backend_id : Text
  pub model_version : Text
  pub request_spec : Json
  -- _generate_raw(prompt, seed=…, site_id=…, attempt=…)
  pub generate_raw : Text → ℕ → Text → ℕ → Result (Text × ℕ)

-- What the program does not implement.
pub record Services : Type 0 where
  pub sha256_hex : Text → Text
  pub loads : Loads
  -- render_prompt(context, policy, feedback=…, attempt=…, prompt_version=…)
  pub render_prompt : Context → Policy → Option Text → ℕ → Text → Result Text

unfoldable pub is_offline_miss : ExceptionKind → Bool
is_offline_miss offline_cache_miss = true
is_offline_miss _ = false

-- The handler for OfflineCacheMissError: the legacy key is tried.
unfoldable pub or_legacy :
    Result (Option CachedResponse) → Result (Option CachedResponse) → Result (Option CachedResponse)
unfolding is_offline_miss
or_legacy (ok cached) legacy = ok cached
or_legacy (raised exc) legacy = if is_offline_miss exc.kind then legacy else raised exc

-- what a call leaves of the store, and what it returns
unfoldable pub keep_store :
    CacheStore → Result (CachedResponse × CacheStore × Bool) → CacheStore × Result CachedResponse
keep_store store (raised exc) = (store, raised exc)
keep_store store (ok (response, after, fetched)) = (after, ok response)

-- `if cached is None`
unfoldable pub or_fetch :
    CacheStore
    → Result (CachedResponse × CacheStore × Bool)
    → Result (Option CachedResponse)
    → CacheStore × Result CachedResponse
unfolding keep_store
or_fetch store fetched (raised exc) = (store, raised exc)
or_fetch store fetched (ok (some response)) = (store, ok response)
or_fetch store fetched (ok none) = keep_store store fetched

module _ (services : Services) (backend : Backend) (seed : ℕ) where
  unfoldable pub backend_key : Text → Text
  unfolding cache_key
  backend_key prompt =
      cache_key services.sha256_hex backend.backend_id backend.model_version prompt seed
        (text "request-spec-v1:" ++ request_spec_digest services.sha256_hex backend.request_spec)

  unfoldable pub legacy_cache_key : Text → Text
  unfolding cache_key
  legacy_cache_key prompt =
      cache_key services.sha256_hex backend.backend_id backend.model_version prompt seed []

  -- what the cache is told of the request
  unfoldable pub request_for : Text → Request
  request_for prompt = record {
    backend_id = backend.backend_id;
    model_version = backend.model_version;
    prompt_sha256 = services.sha256_hex prompt;
    seed = seed;
    request_spec_sha256 = some (request_spec_digest services.sha256_hex backend.request_spec);
  }

  -- self._cache.get_or_fetch(key, …)
  abbrev pub fetch_through :
      CacheStore → Clock → Text → ℕ → Text → Result (CachedResponse × CacheStore × Bool)
  fetch_through store clock site_id attempt prompt =
      get_or_fetch store (backend_key prompt) (backend.generate_raw prompt seed site_id attempt)
        (request_for prompt) clock

  unfoldable pub cached_or_fetched :
      CacheStore → Clock → Text → ℕ → Text → CacheStore × Result CachedResponse
  unfolding or_fetch or_legacy backend_key legacy_cache_key request_for
  cached_or_fetched store clock site_id attempt prompt =
      or_fetch store (fetch_through store clock site_id attempt prompt) (
        or_legacy (get_cached store (backend_key prompt))
          (get_cached store (legacy_cache_key prompt)))

  -- The patch of a response.
  unfoldable pub patch_of : Text → ℕ → Text → CachedResponse → Result Patch
  patch_of site_id attempt prompt_version cached = do
    parsed ← parse_response services.loads cached.raw_text
    ok (record {
      site_id = site_id;
      attempt = attempt;
      unified_diff = parsed.unified_diff;
      claimed_primitive = parsed.claimed_primitive;
      claimed_parameters = parsed.claimed_parameters;
      backend_id = backend.backend_id;
      prompt_version = prompt_version;
      response_hash = services.sha256_hex cached.raw_text;
    })

  unfoldable pub propose_prompt :
      CacheStore → Clock → Text → ℕ → Text → Result Text → CacheStore × Result Patch
  unfolding cached_or_fetched patch_of
  propose_prompt store clock site_id attempt prompt_version (raised exc) = (store, raised exc)
  propose_prompt store clock site_id attempt prompt_version (ok prompt) =
      let (after, cached) = cached_or_fetched store clock site_id attempt prompt in
      (after, cached >>= patch_of site_id attempt prompt_version)

  -- The store afterwards, which keeps a response that cannot be parsed, and the patch.
  unfoldable pub propose :
      CacheStore → Clock → Context → Policy → Option Text → ℕ → Text → CacheStore × Result Patch
  unfolding propose_prompt
  propose store clock context policy feedback attempt prompt_version =
      propose_prompt store clock context.site.site_id attempt prompt_version
        (services.render_prompt context policy feedback attempt prompt_version)
